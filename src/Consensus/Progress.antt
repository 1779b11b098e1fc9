-- ===== src/Consensus/Progress.antt =====
-- `consensus_make_progress` of src/consensus/consensus.c: the leader executes what it can, asks
-- again for the acks that are missing, and tells the others how far to execute.
use libevent_paxos.Base.{
  ℕ, zero, suc, ◌-◌, ◌&&◌, ◌==◌, if◌then◌else◌, none, some, Outcome, ok, crash, null_deref, ◌>>=◌,
}
use libevent_paxos.Stamp.{ViewStamp, vstol, ltovs}
use libevent_paxos.Db.{Bdb}
use libevent_paxos.Consensus.Record.{Env, decode_record, req_record_size, reached_quorum}
use libevent_paxos.Consensus.Message.{accept_req, accept_req_size, force_exec, force_exec_size}
use libevent_paxos.Consensus.State.{
  Comp, emit, to_all, up_call, is_leader_role, view_start, view_stamp_inc,
}
use libevent_paxos.Consensus.Execute.{retrieve, leader_try_to_execute}
use libevent_paxos.Consensus.Build.{build_accept_req, build_force_exec}
use libevent_paxos.Consensus.Handle.{is_before}

module _ (bdb : Bdb) (env : Env) where
  -- One record number: a record without a quorum is sent again. The code reads through the
  -- retrieved pointer with no test.
  unfoldable pub resend_step : ℕ → Comp bdb.Store → Outcome (Comp bdb.Store)
  resend_step index c = elim (retrieve bdb env c index) [
    | none ↦ crash null_deref
    | some mem ↦
        let r = decode_record mem in
        if reached_quorum r c.group_size
        then ok c
        else elim (build_accept_req env c (req_record_size r) mem (ltovs index)) [
          | none ↦ ok c
          | some m ↦ ok (emit c (up_call (accept_req_size m.data_size) (accept_req m) to_all))
        ]
  ]

  unfoldable pub resend_loop : ℕ → ℕ → Comp bdb.Store → Outcome (Comp bdb.Store)
  resend_loop zero index c = ok c
  resend_loop (suc rounds) index c = resend_step index c >>= λ c'. resend_loop rounds (suc index) c'

  -- The first stamp that may lack a quorum: behind the committed one, within the current view.
  unfoldable pub resend_from : Comp bdb.Store → ViewStamp
  resend_from c = view_stamp_inc (
      if is_before (view_start c.cur_view.view_id) c.highest_committed
      then c.highest_committed
      else view_start c.cur_view.view_id)

  unfoldable pub resend : Comp bdb.Store → Outcome (Comp bdb.Store)
  unfolding resend_from
  resend c =
      if is_before c.highest_committed c.highest_seen
        && (c.highest_seen.view_id == c.cur_view.view_id)
      then resend_loop (suc (vstol c.highest_seen) - vstol (resend_from c)) (vstol (resend_from c))
          c
      else ok c

  abbrev announce_committed : Comp bdb.Store → Comp bdb.Store
  announce_committed c = elim (build_force_exec env c) [
    | none ↦ c
    | some m ↦ emit c (up_call force_exec_size (force_exec m) to_all)
  ]

  unfoldable pub consensus_make_progress : Comp bdb.Store → Outcome (Comp bdb.Store)
  consensus_make_progress c =
      if is_leader_role c.my_role
      then (leader_try_to_execute bdb env c >>= λ c'. resend c' >>= λ d. ok (announce_committed d))
      else ok c
