-- ===== src/Consensus/Submit/Stored.antt =====
-- A request submitted at the leader: numbered, stored and sent to the group, or refused.
use libevent_paxos.Base.{
  ℕ, zero, suc, pos, ◌+◌, ◌%◌, ◌==◌, ◌>>=◌, if◌then◌else◌, ◌^◌, ◌<◌, ◌≤◌, ◌≡◌, ◌≢◌, refl, ap, ◌∙◌,
  subst, ◌⊎◌, inl, inr, true, List, [], ◌∷◌, ◌++◌, some, ok, lt→ltb, eq→==, ne→==, eq_or_ne, take,
  take_short, take-append, length, length-append, Outcome, arith,
}
use libevent_paxos.Stamp.{vstol}
use libevent_paxos.Db.{Bdb, Db, store_record, retrieve_record}
use libevent_paxos.Db.Laws.{store_failed}
use libevent_paxos.Consensus.Record.{
  Env, RequestRecord, encode_record, header_bytes, req_record_size, memcpy, record_header_size,
}
use libevent_paxos.Consensus.Record.Quorum.{bit_of_low}
use libevent_paxos.Consensus.Record.Coding.{length-header_bytes}
use libevent_paxos.Consensus.Message.{AcceptReq, accept_req}
use libevent_paxos.Consensus.State.{
  Comp, emit, to_all, up_call, get_next_view_stamp, view_stamp_inc,
}
use libevent_paxos.Consensus.Build.{build_accept_req}
use libevent_paxos.Consensus.Submit.{new_record, propose, Submitted, leader_handle_submit_req}
use libevent_paxos.Consensus.Handle.Accept.{retrieve-store_record}

length-take_short : (n : ℕ) (xs : List ℕ) → n ≤ length xs → length (take n xs) ≡ n
length-take_short zero xs h = refl
length-take_short (suc n) [] h = absurd (omega arith)
length-take_short (suc n) (x ∷ xs) h = omega (arith, length-take_short n xs (omega arith))

module _ (bdb : Bdb) (env : Env) where
  -- The record of a new request: made now, not closed, acknowledged by the leader itself.
  abbrev pub fresh_record : Comp bdb.Store → ℕ → List ℕ → RequestRecord
  fresh_record c data_size mem = record {
    created_time = env.now;
    is_closed = 0;
    bit_map = 2 ^ c.node_id;
    data_size = data_size;
    body = take data_size mem;
  }

  -- The accept request for it: the record's bytes under the next stamp, and how far to execute.
  abbrev pub proposal : Comp bdb.Store → ℕ → List ℕ → AcceptReq
  proposal c data_size mem = record {
    msg_vs = record {
      view_id = c.highest_seen.view_id;
      req_id = (c.highest_seen.req_id + 1) % 2 ^ 32;
    };
    req_canbe_exed = c.highest_to_commit;
    node_id = pos c.node_id;
    data_size = 33 + data_size;
    body = encode_record (fresh_record c data_size mem);
  }

  abbrev pub storing : Comp bdb.Store → ℕ → List ℕ → ℕ × Db bdb.Store
  storing c data_size mem =
      store_record bdb c.db (vstol (proposal c data_size mem).msg_vs)
        (encode_record (fresh_record c data_size mem))

  -- The request is refused, and the component is as it was.
  abbrev pub Refused : Comp bdb.Store → Submitted bdb.Store → Type 0
  Refused c s = (s.ret ≡ 1) × (s.comp ≡ c)

  -- The request has the next stamp, is in the database under it, and is sent to the group.
  pub record Proposed (c : Comp bdb.Store) (data_size : ℕ) (mem : List ℕ) (s : Submitted bdb.Store)
      : Type 0 where
    pub returned : s.ret ≡ 0
    pub stamped : s.vs ≡ some (proposal c data_size mem).msg_vs
    pub seen : s.comp.highest_seen ≡ (proposal c data_size mem).msg_vs
    pub stored :
        retrieve_record bdb s.comp.db (vstol (proposal c data_size mem).msg_vs)
        ≡ (0, some (encode_record (fresh_record c data_size mem)))
    pub sent :
        s.comp.out
        ≡ c.out
          ++ up_call (36 + (33 + data_size)) (accept_req (proposal c data_size mem)) to_all ∷ []

  -- Fits of the request: its data are all there, and it is below 4 GiB with its header.
  whole_record :
      (c : Comp bdb.Store) (data_size : ℕ) (mem : List ℕ)
      → c.node_id < 31
      → data_size ≤ length mem
      → new_record bdb env c data_size mem ≡ fresh_record c data_size mem
  whole_record c data_size mem low there i = record {
    created_time = env.now;
    is_closed = 0;
    bit_map = bit_of_low env c.node_id low i;
    data_size = data_size;
    body = take_short data_size mem env.heap there i;
  }

  whole_bytes :
      (c : Comp bdb.Store) (data_size : ℕ) (mem : List ℕ)
      → data_size ≤ length mem
      → memcpy env (33 + data_size) (encode_record (fresh_record c data_size mem))
        ≡ encode_record (fresh_record c data_size mem)
  unfolding encode_record
  whole_bytes c data_size mem there =
      let r = fresh_record c data_size mem in
      let size : length (encode_record r) ≡ 33 + data_size = omega (
        arith,
        length-append (header_bytes r) r.body,
        length-header_bytes r,
        length-take_short data_size mem there,
      ) in
      subst (λ n. take n (encode_record r ++ env.heap) ≡ encode_record r) size
        (take-append (encode_record r) env.heap)

  abbrev submitted : Comp bdb.Store → ℕ → List ℕ → Submitted bdb.Store
  submitted c data_size mem = record {
    ret = 0;
    vs = some (proposal c data_size mem).msg_vs;
    comp =
        emit
          (record c {
            db = (storing c data_size mem).1;
            highest_seen = (proposal c data_size mem).msg_vs;
          })
          (up_call (36 + (33 + data_size)) (accept_req (proposal c data_size mem)) to_all);
  }

  -- The call, with the record that it makes written out.
  abbrev with_record : Comp bdb.Store → RequestRecord → Outcome (Submitted bdb.Store)
  with_record c r =
      let next = get_next_view_stamp c in
      let (failed, db') = store_record bdb c.db (vstol next) (encode_record r) in
      if failed == 0
      then (propose bdb env (record c { db = db'; highest_seen = view_stamp_inc c.highest_seen }) r
            next
          >>= λ c'. ok (record { ret = 0; vs = some next; comp = c' }))
      else ok (record { ret = 1; vs = some next; comp = record c { db = db' } })

  runs_with :
      (c : Comp bdb.Store) (data_size : ℕ) (mem : List ℕ)
      → env.malloc (data_size + record_header_size) ≡ true
      → new_record bdb env c data_size mem ≡ fresh_record c data_size mem
      → leader_handle_submit_req bdb env c data_size mem
        ≡ with_record c (fresh_record c data_size mem)
  unfolding leader_handle_submit_req
  runs_with c data_size mem room same = rw room (ap (with_record c) same)

  proposes :
      (c : Comp bdb.Store) (data_size : ℕ) (mem : List ℕ)
      → 1 < c.group_size
      → data_size ≤ length mem
      → ((n : ℕ) → env.malloc n ≡ true)
      → (storing c data_size mem).0 ≡ 0
      → with_record c (fresh_record c data_size mem) ≡ ok (submitted c data_size mem)
  unfolding build_accept_req propose view_stamp_inc get_next_view_stamp req_record_size
  proposes c data_size mem several there room done = rw (eq→== _ _ done) (
      rw (lt→ltb 1 c.group_size several) (
        rw (room (36 + (33 + data_size)), build_accept_req)
          (rw (whole_bytes c data_size mem there) refl)))

  -- In a group of several, with memory at hand, the leader (a node below 31) answers a request whose
  -- data are all there and below 4 GiB with their header, and always returns. If the database refuses
  -- the record, so does the leader, and the component is as it was. Otherwise the request has the stamp
  -- behind the highest one seen; under it the database holds a record made now, not closed, with the
  -- bit of the leader alone and the data of the request; and one call sends these bytes to the group.
  pub leader_handle_submit_req-Proposed :
      (c : Comp bdb.Store) (data_size : ℕ) (mem : List ℕ)
      → 1 < c.group_size
      → c.node_id < 31
      → data_size ≤ length mem
      → data_size + 33 < 2 ^ 32
      → ((n : ℕ) → env.malloc n ≡ true)
      → (s : Submitted bdb.Store) × (leader_handle_submit_req bdb env c data_size mem ≡ ok s)
        × ((((storing c data_size mem).0 ≢ 0) × Refused c s)
            ⊎ (((storing c data_size mem).0 ≡ 0) × Proposed c data_size mem s))
  unfolding get_next_view_stamp
  leader_handle_submit_req-Proposed c data_size mem several low there small room =
      let r = fresh_record c data_size mem in
      let runs =
        runs_with c data_size mem (room (data_size + record_header_size))
          (whole_record c data_size mem low there) in
      elim (eq_or_ne (storing c data_size mem).0 0) [
        | inl done ↦ (
          submitted c data_size mem,
          runs ∙ proposes c data_size mem several there room done,
          inr (
            done,
            record {
              returned = refl;
              stamped = refl;
              seen = refl;
              stored =
                  retrieve-store_record bdb c.db (vstol (proposal c data_size mem).msg_vs) r
                    (omega (arith, length-take_short data_size mem there)) done;
              sent = refl;
            },
          ),
        )
        | inr failed ↦ (
          record { ret = 1; vs = some (get_next_view_stamp c); comp = c },
          runs
              ∙ rw (ne→== _ _ failed) (
                  ap
                    (λ x. ok (record {
                      ret = 1;
                      vs = some (get_next_view_stamp c);
                      comp = record c { db = x };
                    }))
                    (store_failed bdb c.db _ _ failed)),
          inl (failed, (refl, refl)),
        )
      ]
