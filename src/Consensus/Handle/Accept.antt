-- ===== src/Consensus/Handle/Accept.antt =====
-- Accept requests and their acknowledgements: what is acknowledged is stored, and an
-- acknowledgement that arrives is counted in the stored record.
use libevent_paxos.Base.{
  ℕ, pos, ◌≤◌, ◌<◌, ◌≡◌, ◌≢◌, refl, sym, ap, ◌∙◌, ◌⊎◌, inl, inr, Bool, true, false, ◌||◌, ◌+◌, ◌*◌,
  ◌^◌, length, length-append, bit, [], ◌∷◌, ◌++◌, ◌==◌, ltb, some, arith, Bool-cases, ok, to_u32,
  lt→ltb, eq→==, ne→eqb_ℤ, or_bit_sum, ==→eq,
}
use libevent_paxos.Stamp.{ViewStamp, IsStamp, vstol}
use libevent_paxos.Stamp.Order.{view_stamp_comp-vstol}
use libevent_paxos.Db.{Bdb, Db, dbt_bytes, found_bytes, store_record, retrieve_record}
use libevent_paxos.Db.Laws.{retrieve-store, dbt_bytes_short}
use libevent_paxos.Consensus.Record.{
  Env, RequestRecord, IsRecord, encode_record, header_bytes, record_header_size, decode_record,
  req_record_size, update_record,
}
use libevent_paxos.Consensus.Record.Coding.{encode_record-cons, decode-encode, length-header_bytes}
use libevent_paxos.Consensus.Record.Quorum.{bit_of_low}
use libevent_paxos.Consensus.Message.{AcceptReq, AcceptAck, accept_ack_size}
use libevent_paxos.Consensus.State.{Comp, leader, is_leader_role}
use libevent_paxos.Consensus.Execute.{retrieve}
use libevent_paxos.Consensus.Execute.Frame.{acks, acks-append, Frame, try_to_execute-Frame}
use libevent_paxos.Consensus.Build.{build_accept_ack}
use libevent_paxos.Consensus.Handle.{
  is_after, acknowledge, raised, accept_req_ignored, copied_record, accept_request,
  handle_accept_req, count_ack, handle_accept_ack,
}

or_middle : (a b : Bool) → (a || true || b) ≡ true
or_middle true b = refl
or_middle false b = refl

or_last : (a b : Bool) → (a || b || true) ≡ true
or_last true b = refl
or_last false true = refl
or_last false false = refl

module _ (bdb : Bdb) where
  -- A record below 4 GiB that was stored without error is retrieved.
  pub retrieve-store_record :
      (db : Db bdb.Store) (k : ℕ) (r : RequestRecord)
      → length r.body + record_header_size < 2 ^ 32
      → (store_record bdb db k (encode_record r)).0 ≡ 0
      → retrieve_record bdb (store_record bdb db k (encode_record r)).1 k
        ≡ (0, some (encode_record r))
  unfolding encode_record
  retrieve-store_record db k r short done =
      let (b, bs, e) = encode_record-cons r in
      let whole : dbt_bytes (encode_record r) ≡ encode_record r =
        dbt_bytes_short (encode_record r)
          (omega (arith, length-append (header_bytes r) r.body, length-header_bytes r)) in
      retrieve-store bdb db k (encode_record r) done
      ∙ ap (λ v. (0, found_bytes v)) (whole ∙ e)
      ∙ ap (λ v. (0, some v)) (sym e)

module _ (bdb : Bdb) (env : Env) where
  -- The record stored for a message.
  abbrev pub stored_copy : AcceptReq → RequestRecord
  stored_copy m = copied_record bdb env (decode_record (m.body ++ env.heap))

  abbrev pub own_ack : Comp bdb.Store → AcceptReq → AcceptAck
  own_ack c m = record { msg_vs = m.msg_vs; node_id = pos c.node_id }

  acknowledge-acks :
      (c : Comp bdb.Store) (m : AcceptReq)
      → (acks (acknowledge bdb env c m).out ≡ acks c.out)
        ⊎ (acks (acknowledge bdb env c m).out ≡ acks c.out ++ (own_ack c m, m.node_id) ∷ [])
  unfolding acknowledge build_accept_ack
  acknowledge-acks c m = elim (Bool-cases (env.malloc accept_ack_size)) [
    | inl there ↦ inr (rw (there, acknowledge) (acks-append c.out _))
    | inr full ↦ inl (rw (full, acknowledge) refl)
  ]

  acknowledge-db : (c : Comp bdb.Store) (m : AcceptReq) → (acknowledge bdb env c m).db ≡ c.db
  unfolding acknowledge build_accept_ack
  acknowledge-db c m = elim (Bool-cases (env.malloc accept_ack_size)) [
    | inl there ↦ rw (there, acknowledge) refl
    | inr full ↦ rw (full, acknowledge) refl
  ]

  -- The state in which the ack is built.
  abbrev with_copy : Comp bdb.Store → AcceptReq → Comp bdb.Store
  with_copy c m = record c {
    highest_seen = raised c.highest_seen m.msg_vs;
    highest_to_commit = raised c.highest_to_commit m.req_canbe_exed;
    db = (store_record bdb c.db (vstol m.msg_vs) (encode_record (stored_copy m))).1;
  }

  -- The request is stored and answered, or no ack is sent.
  accept_request_cases :
      (c : Comp bdb.Store) (m : AcceptReq)
      → (acks (accept_request bdb env c m).out ≡ acks c.out)
        ⊎ ((accept_request bdb env c m ≡ acknowledge bdb env (with_copy c m) m)
            × ((store_record bdb c.db (vstol m.msg_vs) (encode_record (stored_copy m))).0 ≡ 0))
  unfolding accept_request
  accept_request_cases c m =
      elim (Bool-cases (env.malloc (req_record_size (decode_record (m.body ++ env.heap))))) [
        | inr full ↦ inl (rw full refl)
        | inl room ↦
            elim (Bool-cases
              ((store_record bdb c.db (vstol m.msg_vs) (encode_record (stored_copy m))).0 == 0)) [
                | inr lost ↦ inl (rw (room, lost) refl)
                | inl done ↦ inr (rw (room, done) refl, ==→eq _ _ done)
              ]
      ]

  -- An ack that `d` has and `c` has not: the sender's request, stored in `d`.
  abbrev pub Acknowledged : Comp bdb.Store → AcceptReq → Comp bdb.Store → Type 0
  Acknowledged c m d =
      (acks d.out ≡ acks c.out ++ (own_ack c m, m.node_id) ∷ [])
      × (retrieve_record bdb d.db (vstol m.msg_vs)
          ≡ (0, found_bytes (dbt_bytes (encode_record (stored_copy m)))))

  accept_request-acks :
      (c : Comp bdb.Store) (m : AcceptReq)
      → (acks (accept_request bdb env c m).out ≡ acks c.out)
        ⊎ Acknowledged c m (accept_request bdb env c m)
  accept_request-acks c m = elim (accept_request_cases c m) [
    | inl silent ↦ inl silent
    | inr (e, done) ↦ elim (acknowledge-acks (with_copy c m) m) [
      | inl silent ↦ inl (ap (λ x. acks x.out) e ∙ silent)
      | inr sent ↦ inr (
        ap (λ x. acks x.out) e ∙ sent,
        ap (λ x. retrieve_record bdb x.db (vstol m.msg_vs)) e
            ∙ ap (λ x. retrieve_record bdb x (vstol m.msg_vs)) (acknowledge-db (with_copy c m) m)
            ∙ retrieve-store bdb c.db (vstol m.msg_vs) (encode_record (stored_copy m)) done,
      )
    ]
  ]

  -- A message of an old view, one of the current view that its leader did not send, and one about a
  -- request that is committed here.
  abbrev pub Stale : Comp bdb.Store → AcceptReq → Type 0
  Stale c m =
      (m.msg_vs.view_id < c.cur_view.view_id)
      ⊎ (((m.msg_vs.view_id ≡ c.cur_view.view_id) × (m.node_id ≢ c.cur_view.leader_id))
          ⊎ (vstol m.msg_vs ≤ vstol c.highest_committed))

  is_after-vstol :
      (a b : ViewStamp) → IsStamp a → IsStamp b → is_after a b ≡ true → vstol b < vstol a
  is_after-vstol a b fa fb h = elim (view_stamp_comp-vstol a b fa fb) [
    | inl (e, lt) ↦ absurd (ground (arith, e))
    | inr (inl (e, same)) ↦ absurd (ground (arith, e))
    | inr (inr (e, gt)) ↦ gt
  ]

  Stale-ignored :
      (c : Comp bdb.Store) (m : AcceptReq)
      → IsStamp m.msg_vs
      → IsStamp c.highest_committed
      → Stale c m
      → accept_req_ignored bdb env c m ≡ true
  unfolding accept_req_ignored
  Stale-ignored c m fm fc (inl old) = rw (lt→ltb _ _ old) refl
  Stale-ignored c m fm fc (inr (inl (now, foreign))) =
      rw (eq→== _ _ now, ne→eqb_ℤ _ _ foreign)
        (or_middle (ltb m.msg_vs.view_id c.cur_view.view_id) _)
  Stale-ignored c m fm fc (inr (inr done)) =
      elim (Bool-cases (is_after m.msg_vs c.highest_committed)) [
        | inl after ↦
            absurd (omega (arith, is_after-vstol m.msg_vs c.highest_committed fm fc after))
        | inr before ↦ rw before (or_last (ltb m.msg_vs.view_id c.cur_view.view_id) _)
      ]

  -- When the handler of a stale accept request returns (its stamp and the committed one being of
  -- 32-bit words), nothing has changed but what execution changes: the database, the role, the view
  -- and the highest stamp are as they were, and nothing is acknowledged.
  pub handle_accept_req-Stale :
      (c d : Comp bdb.Store) (m : AcceptReq)
      → IsStamp m.msg_vs
      → IsStamp c.highest_committed
      → Stale c m
      → handle_accept_req bdb env c m ≡ ok d
      → Frame c d
  unfolding handle_accept_req
  handle_accept_req-Stale c d m fm fc stale e =
      try_to_execute-Frame bdb env c d (rw (Stale-ignored c m fm fc stale) at e)

  -- Whatever the message, the handler acknowledges nothing, or exactly the request of the message, to
  -- its sender, and then the request is in the database when the handler returns, with as many of its
  -- bytes as the 32-bit size of a value there says (all of them, below 4 GiB).
  pub handle_accept_req-acks :
      (c d : Comp bdb.Store) (m : AcceptReq)
      → handle_accept_req bdb env c m ≡ ok d
      → (acks d.out ≡ acks c.out) ⊎ Acknowledged c m d
  unfolding handle_accept_req
  handle_accept_req-acks c d m e = elim (Bool-cases (accept_req_ignored bdb env c m)) [
    | inl ignored ↦ inl ((try_to_execute-Frame bdb env c d (rw ignored at e)).same_acks)
    | inr fresh ↦
        let p = try_to_execute-Frame bdb env (accept_request bdb env c m) d (rw fresh at e) in
        elim (accept_request-acks c m) [
          | inl silent ↦ inl (p.same_acks ∙ silent)
          | inr (sent, there) ↦ inr (
            p.same_acks ∙ sent,
            ap (λ x. retrieve_record bdb x (vstol m.msg_vs)) p.same_db ∙ there,
          )
        ]
  ]

  lt-is_after : (a b : ViewStamp) → IsStamp a → IsStamp b → vstol a < vstol b → is_after b a ≡ true
  lt-is_after a b fa fb lt = elim (view_stamp_comp-vstol b a fb fa) [
    | inl (e, gt) ↦ absurd (omega arith)
    | inr (inl (e, same)) ↦ absurd (omega (arith, ap vstol same))
    | inr (inr (e, gt)) ↦ rw e refl
  ]

  count_ack_lem :
      (c : Comp bdb.Store) (m : AcceptAck) (r : RequestRecord)
      → IsRecord r
      → retrieve_record bdb c.db (vstol m.msg_vs) ≡ (0, some (encode_record r))
      → count_ack bdb env c m ≡ record c {
        db =
            (store_record bdb c.db
              (vstol m.msg_vs)
              (encode_record (update_record env r (to_u32 m.node_id)))).1;
      }
  unfolding count_ack retrieve
  count_ack_lem c m r fits there = rw (there, count_ack) (rw (decode-encode r env.heap fits) refl)

  -- The record with a map in which the bit of `n` is set and the others are as in `r`.
  abbrev pub AckedBy : ℕ → RequestRecord → RequestRecord → Type 0
  AckedBy n r r' =
      (r' ≡ record r { bit_map = r'.bit_map })
      × (r'.bit_map + bit n r.bit_map * 2 ^ n ≡ r.bit_map + 2 ^ n)

  update_record-AckedBy :
      (r : RequestRecord) (n : ℕ) → n < 31 → IsRecord r → AckedBy n r (update_record env r n)
  unfolding update_record
  update_record-AckedBy r n low fits =
      (refl, rw (bit_of_low env n low) (or_bit_sum 64 n r.bit_map (omega arith) fits.bits_fit))

  -- An ack of node `n` below 31 at the leader, for a stored request that is not yet committed, whose
  -- record fits its fields and is below 4 GiB, is counted when the store succeeds and the handler
  -- returns: in the stored record the bit of node `n` is set; its other bits and all its other
  -- fields are as they were.
  pub handle_accept_ack_counts :
      (c d : Comp bdb.Store) (m : AcceptAck) (r : RequestRecord) (n : ℕ)
      → m.node_id ≡ pos n
      → n < 31
      → c.my_role ≡ leader
      → IsStamp m.msg_vs
      → IsStamp c.highest_committed
      → vstol c.highest_committed < vstol m.msg_vs
      → IsRecord r
      → r.data_size + record_header_size < 2 ^ 32
      → retrieve_record bdb c.db (vstol m.msg_vs) ≡ (0, some (encode_record r))
      → (store_record bdb c.db (vstol m.msg_vs) (encode_record (update_record env r n))).0 ≡ 0
      → handle_accept_ack bdb env c m ≡ ok d
      → (r' : RequestRecord) × (AckedBy n r r')
        × (retrieve_record bdb d.db (vstol m.msg_vs) ≡ (0, some (encode_record r')))
  unfolding handle_accept_ack
  handle_accept_ack_counts c d m r n sender low leads fm fc order fits short there done e =
      let r' = update_record env r n in
      let word : to_u32 (pos n) ≡ n = omega arith in
      let who : to_u32 m.node_id ≡ n = ap to_u32 sender ∙ word in
      let counted : count_ack bdb env c m
          ≡ record c { db = (store_record bdb c.db (vstol m.msg_vs) (encode_record r')).1 } =
        count_ack_lem c m r fits there
        ∙ ap
            (λ k. record c {
              db =
                  (store_record bdb c.db (vstol m.msg_vs)
                    (encode_record (update_record env r k))).1;
            })
            who in
      let runs =
        try_to_execute-Frame bdb env (count_ack bdb env c m) d (
          rw (ap is_leader_role leads, lt-is_after c.highest_committed m.msg_vs fc fm order) at
            e) in
      let small : length r'.body + record_header_size < 2 ^ 32 =
        unfold update_record in omega (arith, fits.sized) in
      (
        r',
        update_record-AckedBy r n low fits,
        ap (λ x. retrieve_record bdb x (vstol m.msg_vs)) (runs.same_db ∙ ap (λ x. x.db) counted)
            ∙ retrieve-store_record bdb c.db (vstol m.msg_vs) r' small done,
      )
