-- ===== src/Proxy/Action/Batches.antt =====
-- `real_do_action` of src/proxy/proxy.c over the records that the database holds: it ends past the
-- highest record number, however that number came to it, and acts on the records in their order.
use libevent_paxos.Base.{
  ℕ, zero, suc, ◌-◌, ◌^◌, ◌<◌, ◌≤◌, ◌≡◌, refl, sym, ap, ◌∙◌, true, false, leb, leb→le, le→leb,
  Outcome, ok, ◌>>=◌, Ends, ends_ok, ends_null, ends_out, Ends->>=, Ends-ok, inl, inr, arith, subst,
  Bool-cases, >>=-cong, >>=-assoc,
}
use libevent_paxos.Db.{Bdb}
use libevent_paxos.Proxy.State.{Opening, Hash, Proxy}
use libevent_paxos.Proxy.Action.{do_record, action_loop, act_up_to, real_do_action}
use libevent_paxos.Proxy.Action.Deliver.{Later, last_view, do_record-Ends}

module _ (bdb : Bdb) (hash : Hash) where
  -- The loop stopped behind `h`, with the log as it was.
  pub record Past (h : ℕ) (p p' : Proxy hash.Map bdb.Store) : Type 0 where
    pub past : h < p'.cur_rec
    pub highest_kept : p'.highest_rec ≡ p.highest_rec
    pub db_kept : p'.db_ptr ≡ p.db_ptr

  pub loop_stops :
      (n h : ℕ) (opening : ℕ → Opening) (p : Proxy hash.Map bdb.Store)
      → leb p.cur_rec h ≡ false
      → action_loop bdb hash (suc n) opening h p ≡ ok p
  unfolding action_loop
  loop_stops n h opening p past = rw (past, action_loop) refl

  pub loop_turn :
      (n h : ℕ) (opening : ℕ → Opening) (p : Proxy hash.Map bdb.Store)
      → leb p.cur_rec h ≡ true
      → action_loop bdb hash (suc n) opening h p
        ≡ (do_record bdb hash opening p >>= λ p'. action_loop bdb hash n opening h p')
  unfolding action_loop
  loop_turn n h opening p more = rw (more, action_loop) refl

  after_turn :
      {h : ℕ} {p p' : Proxy hash.Map bdb.Store} {o : Outcome (Proxy hash.Map bdb.Store)}
      → Later p p'
      → Ends (Past h p') o
      → Ends (Past h p) o
  after_turn step (ends_ok end) = ends_ok record {
    past = end.past;
    highest_kept = end.highest_kept ∙ step.highest_kept;
    db_kept = end.db_kept ∙ step.db_kept;
  }
  after_turn step ends_null = ends_null
  after_turn step ends_out = ends_out

  action_loop-Ends :
      (n h : ℕ) (opening : ℕ → Opening) (p : Proxy hash.Map bdb.Store)
      → h < last_view
      → suc h - p.cur_rec < n
      → Ends (Past h p) (action_loop bdb hash n opening h p)
  action_loop-Ends zero h opening p small enough = absurd (omega arith)
  action_loop-Ends (suc n) h opening p small enough = elim (Bool-cases (leb p.cur_rec h)) [
    | inr over ↦
        subst (Ends (Past h p)) (sym (loop_stops n h opening p over))
          (ends_ok record { past = ground (arith, over); highest_kept = refl; db_kept = refl })
    | inl more ↦
        let below = leb→le p.cur_rec h more in
        subst (Ends (Past h p)) (sym (loop_turn n h opening p more)) (
          Ends->>= _ (do_record-Ends bdb hash opening p (omega arith)) λ p' step.
            after_turn step (action_loop-Ends n h opening p' small (omega (arith, step.later))))
  ]

  -- Below the last view that a word of 32 bits can name, the loop of `real_do_action` comes to an
  -- end: behind the highest record number, or at a bad access to memory; it never runs for ever.
  pub real_do_action-Ends :
      (opening : ℕ → Opening) (p : Proxy hash.Map bdb.Store)
      → p.highest_rec < 2 ^ 64 - 2 ^ 32
      → Ends (Past p.highest_rec p) (real_do_action bdb hash opening p)
  unfolding real_do_action act_up_to
  real_do_action-Ends opening p small =
      action_loop-Ends (suc (suc p.highest_rec - p.cur_rec)) p.highest_rec opening p small
        (omega arith)

  -- Further turns change nothing.
  action_loop_enough :
      (n m h : ℕ) (opening : ℕ → Opening) (p : Proxy hash.Map bdb.Store)
      → h < last_view
      → suc h - p.cur_rec < n
      → suc h - p.cur_rec < m
      → action_loop bdb hash n opening h p ≡ action_loop bdb hash m opening h p
  action_loop_enough zero m h opening p small enough enough' = absurd (omega arith)
  action_loop_enough (suc n) zero h opening p small enough enough' = absurd (omega arith)
  action_loop_enough (suc n) (suc m) h opening p small enough enough' =
      elim (Bool-cases (leb p.cur_rec h)) [
        | inr over ↦ loop_stops n h opening p over ∙ sym (loop_stops m h opening p over)
        | inl more ↦
            let below = leb→le p.cur_rec h more in
            loop_turn n h opening p more
            ∙ >>=-cong (do_record bdb hash opening p) _ _ (λ p' done.
              let step = Ends-ok (do_record-Ends bdb hash opening p (omega arith)) done in
              action_loop_enough n m h opening p' small (omega (arith, step.later))
                (omega (arith, step.later)))
            ∙ sym (loop_turn m h opening p more)
      ]

  pub action_loop-act_up_to :
      (n h : ℕ) (opening : ℕ → Opening) (p : Proxy hash.Map bdb.Store)
      → h < last_view
      → suc h - p.cur_rec < n
      → action_loop bdb hash n opening h p ≡ act_up_to bdb hash opening h p
  unfolding act_up_to
  action_loop-act_up_to n h opening p small enough =
      action_loop_enough n (suc (suc h - p.cur_rec)) h opening p small enough (omega arith)

  action_loop_batches :
      (n m h k : ℕ) (opening : ℕ → Opening) (p : Proxy hash.Map bdb.Store)
      → h ≤ k
      → k < last_view
      → suc h - p.cur_rec < n
      → suc k - p.cur_rec < m
      → action_loop bdb hash m opening k p
        ≡ (action_loop bdb hash n opening h p >>= act_up_to bdb hash opening k)
  action_loop_batches zero m h k opening p le small enough enough' = absurd (omega arith)
  action_loop_batches (suc n) zero h k opening p le small enough enough' = absurd (omega arith)
  action_loop_batches (suc n) (suc m) h k opening p le small enough enough' =
      elim (Bool-cases (leb p.cur_rec h)) [
        | inr over ↦
            action_loop-act_up_to (suc m) k opening p small enough'
            ∙ ap (λ o. o >>= act_up_to bdb hash opening k) (sym (loop_stops n h opening p over))
        | inl more ↦
            let below = leb→le p.cur_rec h more in
            let turn = do_record bdb hash opening p in
            loop_turn m k opening p (le→leb p.cur_rec k (omega arith))
            ∙ >>=-cong turn _
                (λ p'. action_loop bdb hash n opening h p' >>= act_up_to bdb hash opening k)
                (λ p' done.
                  let step = Ends-ok (do_record-Ends bdb hash opening p (omega arith)) done in
                  action_loop_batches n m h k opening p' le small (omega (arith, step.later))
                    (omega (arith, step.later)))
            ∙ sym (>>=-assoc turn (action_loop bdb hash n opening h) (act_up_to bdb hash opening k))
            ∙ ap (λ o. o >>= act_up_to bdb hash opening k) (sym (loop_turn n h opening p more))
      ]

  -- A proxy that acts on the records up to `h` and later on those up to `k` ends as one that acts on
  -- all of them at once: with the same connections and the same traffic, or the same fault. `h` is
  -- at most `k`, which is below the last view that a word of 32 bits can name.
  pub act_up_to_twice :
      (h k : ℕ) (opening : ℕ → Opening) (p : Proxy hash.Map bdb.Store)
      → h ≤ k
      → k < 2 ^ 64 - 2 ^ 32
      → (act_up_to bdb hash opening h p >>= act_up_to bdb hash opening k)
        ≡ act_up_to bdb hash opening k p
  unfolding act_up_to
  act_up_to_twice h k opening p le small = sym (
      action_loop_batches (suc (suc h - p.cur_rec)) (suc (suc k - p.cur_rec)) h k opening p le small
        (omega arith) (omega arith))
