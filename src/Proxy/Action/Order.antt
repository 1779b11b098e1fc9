-- ===== src/Proxy/Action/Order.antt =====
-- `real_do_action` of src/proxy/proxy.c acts on the records of its log in their order, each once.
use libevent_paxos.Base.{
  ℕ, zero, suc, ◌+◌, ◌-◌, ◌*◌, ◌/◌, ◌^◌, ◌<◌, ◌≤◌, ◌≡◌, refl, sym, ap, ◌∙◌, none, some, List, [],
  ◌∷◌, le→leb, lt→not-leb, Outcome, ok, ◌>>=◌, Ends-ok, arith, subst, >>=-cong, >>=-assoc,
}
use libevent_paxos.Db.{Bdb, Db, retrieve_record}
use libevent_paxos.Consensus.Record.{decode_record}
use libevent_paxos.Proxy.State.{Opening, Hash, Proxy, cross_view}
use libevent_paxos.Proxy.Action.{
  do_action_to_server, do_record, next_rec, action_loop, act_up_to, real_do_action,
}
use libevent_paxos.Proxy.Action.Deliver.{do_action_to_server-Ends, last_view}
use libevent_paxos.Proxy.Action.Batches.{loop_stops, loop_turn}

module _ (bdb : Bdb) (hash : Hash) where
  -- The records that a proxy comes to, from a record number on: each number with its record, up to
  -- `h`. A number without a record is followed by the first one of the next view.
  pub data Log (db : Db bdb.Store) (h : ℕ) : ℕ → List (ℕ × List ℕ) → ℕ → Type 0 where
    log_end : {k : ℕ} → h < k → Log db h k [] k
    log_record :
        {k end : ℕ} {mem : List ℕ} {log : List (ℕ × List ℕ)}
        → k ≤ h
        → (retrieve_record bdb db k).1 ≡ some mem
        → Log db h (k + 1) log end
        → Log db h k ((k, mem) ∷ log) end
    log_gap :
        {k end : ℕ} {log : List (ℕ × List ℕ)}
        → k ≤ h
        → (retrieve_record bdb db k).1 ≡ none
        → Log db h ((k / 2 ^ 32 + 1) * 2 ^ 32 + 1) log end
        → Log db h k log end

  abbrev at_rec : ℕ → Proxy hash.Map bdb.Store → Proxy hash.Map bdb.Store
  at_rec k p = record p { cur_rec = k }

  -- One record after the other.
  unfoldable pub act_on :
      (ℕ → Opening)
      → List (ℕ × List ℕ)
      → Proxy hash.Map bdb.Store
      → Outcome (Proxy hash.Map bdb.Store)
  act_on opening [] p = ok p
  act_on opening ((k, mem) ∷ log) p =
      do_action_to_server hash (opening k) (at_rec k p) (decode_record mem).body
      >>= act_on opening log

  -- The place in the log does not matter to what follows.
  act_on-at_rec :
      (opening : ℕ → Opening) (j end : ℕ) (log : List (ℕ × List ℕ)) (p : Proxy hash.Map bdb.Store)
      → (act_on opening log (at_rec j p) >>= λ q. ok (at_rec end q))
        ≡ (act_on opening log p >>= λ q. ok (at_rec end q))
  unfolding act_on
  act_on-at_rec opening j end [] p = refl
  act_on-at_rec opening j end ((k, mem) ∷ log) p = refl

  do_record_found :
      (opening : ℕ → Opening) (p : Proxy hash.Map bdb.Store) (mem : List ℕ)
      → (retrieve_record bdb p.db_ptr p.cur_rec).1 ≡ some mem
      → do_record bdb hash opening p ≡ (
          do_action_to_server hash (opening p.cur_rec) p (decode_record mem).body >>= λ q.
          ok (next_rec bdb hash q))
  unfolding do_record
  do_record_found opening p mem found = rw (found, do_record) refl

  do_record_missing :
      (opening : ℕ → Opening) (p : Proxy hash.Map bdb.Store)
      → (retrieve_record bdb p.db_ptr p.cur_rec).1 ≡ none
      → do_record bdb hash opening p ≡ ok (cross_view p)
  unfolding do_record
  do_record_missing opening p missing = rw (missing, do_record) refl

  cross_view-at_rec :
      (k : ℕ) (p : Proxy hash.Map bdb.Store)
      → k < last_view
      → cross_view (at_rec k p) ≡ at_rec ((k / 2 ^ 32 + 1) * 2 ^ 32 + 1) p
  unfolding cross_view
  cross_view-at_rec k p small = ap (λ c. at_rec c p) (omega arith)

  next_rec-at_rec :
      (k : ℕ) (q : Proxy hash.Map bdb.Store)
      → k < last_view
      → q.cur_rec ≡ k
      → next_rec bdb hash q ≡ at_rec (k + 1) q
  next_rec-at_rec k q small same = ap (λ c. at_rec c q) (omega arith)

  action_loop-act_on :
      (n h k end : ℕ) (opening : ℕ → Opening) (log : List (ℕ × List ℕ))
      → (p : Proxy hash.Map bdb.Store) → h < last_view
      → suc h - k < n
      → Log p.db_ptr h k log end
      → action_loop bdb hash n opening h (at_rec k p)
        ≡ (act_on opening log (at_rec k p) >>= λ q. ok (at_rec end q))
  unfolding act_on
  action_loop-act_on zero h k end opening log p small enough l = absurd (omega arith)
  action_loop-act_on (suc n) h k end opening log p small enough (log_end over) =
      loop_stops bdb hash n h opening (at_rec k p) (lt→not-leb k h over)
  action_loop-act_on (suc n) h k end opening log p small enough (log_gap le missing rest) =
      loop_turn bdb hash n h opening (at_rec k p) (le→leb k h le)
      ∙ ap (λ o. o >>= action_loop bdb hash n opening h)
          (do_record_missing opening (at_rec k p) missing)
      ∙ ap (action_loop bdb hash n opening h) (cross_view-at_rec k p (omega arith))
      ∙ action_loop-act_on n h _ end opening log p small (omega arith) rest
      ∙ act_on-at_rec opening _ end log p
      ∙ sym (act_on-at_rec opening k end log p)
  action_loop-act_on (suc n) h k end opening log p small enough
        (log_record {mem = mem} {log = more} le found rest) =
      let acted = do_action_to_server hash (opening k) (at_rec k p) (decode_record mem).body in
      loop_turn bdb hash n h opening (at_rec k p) (le→leb k h le)
      ∙ ap (λ o. o >>= action_loop bdb hash n opening h)
          (do_record_found opening (at_rec k p) mem found)
      ∙ >>=-assoc acted (λ q. ok (next_rec bdb hash q)) (action_loop bdb hash n opening h)
      ∙ >>=-cong acted (λ q. action_loop bdb hash n opening h (next_rec bdb hash q))
          (λ q. act_on opening more q >>= λ q'. ok (at_rec end q'))
          (λ q done.
            let same =
              Ends-ok
                (do_action_to_server-Ends hash (opening k) (at_rec k p) (decode_record mem).body)
                done in
            ap (action_loop bdb hash n opening h)
              (next_rec-at_rec k q (omega arith) same.cur_rec_kept)
            ∙ action_loop-act_on n h (k + 1) end opening more q small (omega arith)
                (subst (λ db. Log db h (k + 1) more end) (sym same.db_kept) rest)
            ∙ act_on-at_rec opening (k + 1) end more q)
      ∙ sym (>>=-assoc acted (act_on opening more) (λ q. ok (at_rec end q)))

  -- The proxy acts on the records from its place in the log to the highest record number, in their
  -- order and each once, goes on with the first record of the next view where one is missing, and
  -- ends at the place where the log ends. The highest record number is below the last view that a
  -- word of 32 bits can name.
  pub real_do_action-act_on :
      (opening : ℕ → Opening) (p : Proxy hash.Map bdb.Store)
      → (log : List (ℕ × List ℕ)) (end : ℕ) → p.highest_rec < 2 ^ 64 - 2 ^ 32
      → Log p.db_ptr p.highest_rec p.cur_rec log end
      → real_do_action bdb hash opening p
        ≡ (act_on opening log p >>= λ q. ok (record q { cur_rec = end }))
  unfolding real_do_action act_up_to
  real_do_action-act_on opening p log end small l =
      action_loop-act_on (suc (suc p.highest_rec - p.cur_rec)) p.highest_rec p.cur_rec end opening
        log p small (omega arith) l
