-- ===== src/Consensus/Handle/Run.antt =====
-- Any number of messages of one view: the log stays in order.
use libevent_paxos.Base.{
  ℕ, ◌+◌, ◌≡◌, refl, subst, inl, inr, List, ◌++◌, ◌==◌, ltb, some, arith, Bool-cases, Option-cases,
  ok, >>=-eq-ok, ok-injective,
}
use libevent_paxos.Stamp.{ViewStamp, vstol}
use libevent_paxos.Db.{Bdb, Db, store_record}
use libevent_paxos.Consensus.Record.{
  Env, req_record_size, encode_record, decode_record, record_header_size,
}
use libevent_paxos.Consensus.Message.{
  ConsensusMsg, MissingAck, ForwardReq, accept_req, accept_ack, missing_req, missing_ack,
  force_exec, forward_req, unknown_msg,
}
use libevent_paxos.Consensus.State.{Comp, is_leader_role, view_stamp_inc}
use libevent_paxos.Consensus.Execute.{retrieve}
use libevent_paxos.Consensus.Handle.{is_before, handle_missing_ack, consensus_handle_msg}
use libevent_paxos.Consensus.Submit.{Submitted, propose, new_record, leader_handle_submit_req}
use libevent_paxos.Consensus.Build.{build_accept_req}
use libevent_paxos.Consensus.Message.{accept_req_size}
use libevent_paxos.Consensus.State.{get_next_view_stamp}
use libevent_paxos.Consensus.Handle.{handle_forward_req}
use libevent_paxos.Consensus.Handle.Log.{
  Sound, Ready, ready, Delivers, settles, executes, itself, seen_in, to_commit_in,
  emit_up_call-Ready,
}
use libevent_paxos.Consensus.Handle.Deliver.{
  MsgIn, with_db, handle_accept_req-Delivers, handle_accept_ack-Delivers,
  handle_missing_req-Delivers, handle_force_exec-Delivers,
}

module _ (bdb : Bdb) (env : Env) where
  handle_missing_ack-Delivers :
      (c d : Comp bdb.Store) (m : MissingAck)
      → Sound bdb env c
      → handle_missing_ack bdb env c m ≡ ok d
      → Delivers bdb env c d
  unfolding handle_missing_ack
  handle_missing_ack-Delivers c d m sound runs =
      let idle = λ (e : ok c ≡ ok d).
        subst (λ x. Delivers bdb env c x) (ok-injective e)
          (settles bdb env c c (itself bdb env c sound)) in
      elim (Bool-cases (is_before c.highest_committed m.missing_vs)) [
        | inr done ↦ idle (rw done at runs)
        | inl open_yet ↦
            let tried = rw open_yet at runs in
            elim (Option-cases (retrieve bdb env c (vstol m.missing_vs))) [
              | inr (mem, there) ↦ idle (rw (there, handle_missing_ack) at tried)
              | inl missing ↦
                  let fresh = rw (missing, handle_missing_ack) at tried in
                  elim (Bool-cases
                    (env.malloc (req_record_size (decode_record (m.body ++ env.heap))))) [
                      | inr full ↦ idle (rw full at fresh)
                      | inl room ↦
                          executes bdb env c _ d (with_db bdb env c _ sound) (rw room at fresh)
                    ]
            ]
      ]

  propose-Delivers :
      (c c' d : Comp bdb.Store) (data_size : ℕ) (mem : List ℕ) (vs : ViewStamp)
      → Ready bdb env c c'
      → propose bdb env c' (new_record bdb env c data_size mem) vs ≡ ok d
      → Delivers bdb env c d
  unfolding propose build_accept_req
  propose-Delivers c c' d data_size mem vs is_ready runs = elim (Bool-cases (ltb 1 c'.group_size)) [
    | inr alone ↦ executes bdb env c c' d is_ready (rw alone at runs)
    | inl several ↦
        let asks = rw several at runs in
        elim (Bool-cases
          (env.malloc (accept_req_size (req_record_size (new_record bdb env c data_size mem))))) [
            | inr full ↦
                subst (λ x. Delivers bdb env c x) (ok-injective (rw (full, propose) at asks))
                  (settles bdb env c c' is_ready)
            | inl room ↦
                subst (λ x. Delivers bdb env c x) (ok-injective (rw (room, propose) at asks))
                  (settles bdb env c _ (emit_up_call-Ready bdb env c c' _ _ _ is_ready))
          ]
  ]

  -- The highest stamp moves on within its view.
  raise_seen :
      (c : Comp bdb.Store) (db : Db bdb.Store)
      → Sound bdb env c
      → Ready bdb env c (record c { db = db; highest_seen = view_stamp_inc c.highest_seen })
  unfolding view_stamp_inc
  raise_seen c db sound =
      let (fits, view) = seen_in bdb env c sound in
      ready bdb env c _ c.highest_to_commit db c.out sound
        (record { view_fits = fits.view_fits; req_fits = omega arith }, view)
        (to_commit_in bdb env c sound) refl

  pub leader_handle_submit_req-Delivers :
      (c : Comp bdb.Store) (data_size : ℕ) (mem : List ℕ) (s : Submitted bdb.Store)
      → Sound bdb env c
      → leader_handle_submit_req bdb env c data_size mem ≡ ok s
      → Delivers bdb env c s.comp
  unfolding leader_handle_submit_req
  leader_handle_submit_req-Delivers c data_size mem s sound runs =
      let r = new_record bdb env c data_size mem in
      let written = store_record bdb c.db (vstol (get_next_view_stamp c)) (encode_record r) in
      elim (Bool-cases (env.malloc (data_size + record_header_size))) [
        | inr full ↦ absurd (ground (arith, rw full at runs))
        | inl room ↦ elim (Bool-cases (written.0 == 0)) [
          | inr failed ↦
              subst (λ x. Delivers bdb env c x.comp) (ok-injective (rw (room, failed) at runs))
                (settles bdb env c _ (with_db bdb env c written.1 sound))
          | inl done ↦
              let (c', proposed, rest) =
                >>=-eq-ok
                  (propose bdb env
                    (record c { db = written.1; highest_seen = view_stamp_inc c.highest_seen }) r
                    (get_next_view_stamp c))
                  (λ x. ok (record { ret = 0; vs = some (get_next_view_stamp c); comp = x }))
                  (rw (room, done) at runs) in
              subst (λ x. Delivers bdb env c x.comp) (ok-injective rest)
                (propose-Delivers c _ c' data_size mem (get_next_view_stamp c)
                  (raise_seen c written.1 sound) proposed)
        ]
      ]

  handle_forward_req-Delivers :
      (c d : Comp bdb.Store) (m : ForwardReq)
      → Sound bdb env c
      → handle_forward_req bdb env c m ≡ ok d
      → Delivers bdb env c d
  unfolding handle_forward_req
  handle_forward_req-Delivers c d m sound runs = elim (Bool-cases (is_leader_role c.my_role)) [
    | inr follows ↦
        subst (λ x. Delivers bdb env c x) (ok-injective (rw follows at runs))
          (settles bdb env c c (itself bdb env c sound))
    | inl leads ↦
        let (s, submitted, rest) =
          >>=-eq-ok (leader_handle_submit_req bdb env c m.data_size m.body) (λ s. ok s.comp)
            (rw leads at runs) in
        subst (λ x. Delivers bdb env c x) (ok-injective rest)
          (leader_handle_submit_req-Delivers c m.data_size m.body s sound submitted)
  ]

  pub consensus_handle_msg-Delivers :
      (c d : Comp bdb.Store) (m : ConsensusMsg)
      → Sound bdb env c
      → MsgIn c.highest_committed.view_id m
      → consensus_handle_msg bdb env c m ≡ ok d
      → Delivers bdb env c d
  unfolding consensus_handle_msg
  consensus_handle_msg-Delivers c d (accept_req m) sound in_view runs =
      handle_accept_req-Delivers bdb env c d m sound in_view runs
  consensus_handle_msg-Delivers c d (accept_ack m) sound in_view runs =
      handle_accept_ack-Delivers bdb env c d m sound runs
  consensus_handle_msg-Delivers c d (missing_req m) sound in_view runs =
      subst (λ x. Delivers bdb env c x) (ok-injective runs)
        (handle_missing_req-Delivers bdb env c m sound)
  consensus_handle_msg-Delivers c d (missing_ack m) sound in_view runs =
      handle_missing_ack-Delivers c d m sound runs
  consensus_handle_msg-Delivers c d (force_exec m) sound in_view runs =
      handle_force_exec-Delivers bdb env c d m sound in_view runs
  consensus_handle_msg-Delivers c d (forward_req m) sound in_view runs =
      handle_forward_req-Delivers c d m sound runs
  consensus_handle_msg-Delivers c d (unknown_msg n) sound in_view runs =
      subst (λ x. Delivers bdb env c x) (ok-injective runs)
        (settles bdb env c c (itself bdb env c sound))
