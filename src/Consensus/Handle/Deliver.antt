-- ===== src/Consensus/Handle/Deliver.antt =====
-- Every message of the current view keeps the log in order.
use libevent_paxos.Base.{
  ℕ, ◌≡◌, refl, subst, inl, inr, ◌&&◌, ◌++◌, ◌==◌, Bool-cases, Option-cases, ok, ok-injective,
  eqb_ℤ,
}
use libevent_paxos.Stamp.{vstol}
use libevent_paxos.Db.{Bdb, Db, store_record}
use libevent_paxos.Consensus.Record.{Env, req_record_size, encode_record, decode_record}
use libevent_paxos.Consensus.Message.{
  ConsensusMsg, AcceptReq, AcceptAck, MissingReq, ForceExec, accept_req, force_exec,
  accept_ack_size,
}
use libevent_paxos.Consensus.State.{Comp, is_leader_role}
use libevent_paxos.Consensus.Execute.{retrieve}
use libevent_paxos.Consensus.Build.{build_accept_ack}
use libevent_paxos.Consensus.Handle.{
  is_before, is_after, accept_req_ignored, acknowledge, copied_record, accept_request,
  handle_accept_req, count_ack, handle_accept_ack, handle_force_exec,
}
use libevent_paxos.Consensus.Build.{build_missing_ack}
use libevent_paxos.Consensus.Handle.{handle_missing_req}
use libevent_paxos.Consensus.Handle.Log.{
  StampIn, Sound, Ready, ready, Delivers, settles, executes, itself, seen_in, to_commit_in,
  emit_up_call-Ready, raised-StampIn,
}

-- The stamps that a handler takes over from a message are in view `v`.
abbrev pub MsgIn : ℕ → ConsensusMsg → Type 0
MsgIn v (accept_req m) = StampIn v m.msg_vs × StampIn v m.req_canbe_exed
MsgIn v (force_exec m) = StampIn v m.highest_committed_op
MsgIn v other = Unit

module _ (bdb : Bdb) (env : Env) where
  acknowledge-Ready :
      (c d : Comp bdb.Store) (m : AcceptReq)
      → Ready bdb env c d
      → Ready bdb env c (acknowledge bdb env d m)
  unfolding acknowledge build_accept_ack
  acknowledge-Ready c d m is_ready = elim (Bool-cases (env.malloc accept_ack_size)) [
    | inl there ↦ rw (there, acknowledge) (emit_up_call-Ready bdb env c d _ _ _ is_ready)
    | inr full ↦ rw (full, acknowledge) is_ready
  ]

  accept_request-Ready :
      (c : Comp bdb.Store) (m : AcceptReq)
      → Sound bdb env c
      → MsgIn c.highest_committed.view_id (accept_req m)
      → Ready bdb env c (accept_request bdb env c m)
  unfolding accept_request
  accept_request-Ready c m sound (in_view, exed_in_view) =
      let seen =
        raised-StampIn bdb env c.highest_committed.view_id c.highest_seen m.msg_vs
          (seen_in bdb env c sound) in_view in
      let exed =
        raised-StampIn bdb env c.highest_committed.view_id c.highest_to_commit m.req_canbe_exed
          (to_commit_in bdb env c sound) exed_in_view in
      let taken = ready bdb env c _ _ c.db c.out sound seen exed refl in
      let origin = decode_record (m.body ++ env.heap) in
      let written =
        store_record bdb c.db (vstol m.msg_vs) (encode_record (copied_record bdb env origin)) in
      let stored = ready bdb env c _ _ written.1 c.out sound seen exed refl in
      elim (Bool-cases (env.malloc (req_record_size origin))) [
        | inr full ↦ rw full taken
        | inl room ↦ elim (Bool-cases (written.0 == 0)) [
          | inr lost ↦ rw (room, lost) stored
          | inl done ↦ rw (room, done) (acknowledge-Ready c _ m stored)
        ]
      ]

  pub with_db :
      (c : Comp bdb.Store) (db : Db bdb.Store)
      → Sound bdb env c
      → Ready bdb env c (record c { db = db })
  with_db c db sound =
      ready bdb env c c.highest_seen c.highest_to_commit db c.out sound (seen_in bdb env c sound)
        (to_commit_in bdb env c sound) refl

  pub handle_accept_req-Delivers :
      (c d : Comp bdb.Store) (m : AcceptReq)
      → Sound bdb env c
      → MsgIn c.highest_committed.view_id (accept_req m)
      → handle_accept_req bdb env c m ≡ ok d
      → Delivers bdb env c d
  unfolding handle_accept_req
  handle_accept_req-Delivers c d m sound in_view runs =
      elim (Bool-cases (accept_req_ignored bdb env c m)) [
        | inl ignored ↦ executes bdb env c c d (itself bdb env c sound) (rw ignored at runs)
        | inr fresh ↦
            executes bdb env c _ d (accept_request-Ready c m sound in_view) (rw fresh at runs)
      ]

  count_ack-Ready :
      (c : Comp bdb.Store) (m : AcceptAck)
      → Sound bdb env c
      → Ready bdb env c (count_ack bdb env c m)
  unfolding count_ack
  count_ack-Ready c m sound = elim (Option-cases (retrieve bdb env c (vstol m.msg_vs))) [
    | inl missing ↦ rw (missing, count_ack) (itself bdb env c sound)
    | inr (mem, there) ↦ rw (there, count_ack) (with_db c _ sound)
  ]

  pub handle_accept_ack-Delivers :
      (c d : Comp bdb.Store) (m : AcceptAck)
      → Sound bdb env c
      → handle_accept_ack bdb env c m ≡ ok d
      → Delivers bdb env c d
  unfolding handle_accept_ack
  handle_accept_ack-Delivers c d m sound runs =
      elim (Bool-cases (is_leader_role c.my_role && is_after m.msg_vs c.highest_committed)) [
        | inl counts ↦ executes bdb env c _ d (count_ack-Ready c m sound) (rw counts at runs)
        | inr idle ↦ executes bdb env c c d (itself bdb env c sound) (rw idle at runs)
      ]

  pub handle_missing_req-Delivers :
      (c : Comp bdb.Store) (m : MissingReq)
      → Sound bdb env c
      → Delivers bdb env c (handle_missing_req bdb env c m)
  unfolding handle_missing_req
  handle_missing_req-Delivers c m sound =
      settles bdb env c _ (elim (Option-cases (build_missing_ack bdb env c m.missing_vs)) [
        | inl none_built ↦ rw (none_built, handle_missing_req) (itself bdb env c sound)
        | inr (a, built) ↦
            rw (built, handle_missing_req)
              (emit_up_call-Ready bdb env c c _ _ _ (itself bdb env c sound))
      ])

  pub handle_force_exec-Delivers :
      (c d : Comp bdb.Store) (m : ForceExec)
      → Sound bdb env c
      → MsgIn c.highest_committed.view_id (force_exec m)
      → handle_force_exec bdb env c m ≡ ok d
      → Delivers bdb env c d
  unfolding handle_force_exec
  handle_force_exec-Delivers c d m sound in_view runs =
      elim (Bool-cases (
        eqb_ℤ m.node_id c.cur_view.leader_id
        && is_before c.highest_to_commit m.highest_committed_op)) [
          | inl further ↦
              executes bdb env c _ d
                (ready bdb env c c.highest_seen m.highest_committed_op c.db c.out sound
                  (seen_in bdb env c sound) in_view refl)
                (rw further at runs)
          | inr idle ↦
              subst (λ x. Delivers bdb env c x) (ok-injective (rw idle at runs))
                (settles bdb env c c (itself bdb env c sound))
        ]
