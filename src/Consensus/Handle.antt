-- ===== src/Consensus/Handle.antt =====
-- The message handlers of src/consensus/consensus.c.
pub mod Accept
pub mod Missing
pub mod Log
pub mod Deliver
pub mod Run
pub mod Sequence
use libevent_paxos.Base.{
  ℕ, ◌+◌, ◌≡◌, Bool, true, false, not, ◌&&◌, ◌||◌, ℤ, pos, ltb_ℤ, eqb_ℤ, to_u32, List, ◌++◌, ltb,
  ◌==◌, if◌then◌else◌, Option, none, some, Outcome, ok, crash, null_deref, ◌>>=◌,
}
use libevent_paxos.Stamp.{ViewStamp, view_stamp_comp, vstol}
use libevent_paxos.Db.{Bdb, store_record, Db}
use libevent_paxos.Consensus.Record.{
  Env, RequestRecord, record_header_size, req_record_size, encode_record, decode_record, memcpy,
  update_record,
}
use libevent_paxos.Consensus.Message.{
  ConsensusMsg, AcceptReq, AcceptAck, MissingReq, MissingAck, ForceExec, ForwardReq, accept_req,
  accept_ack, missing_req, missing_ack, force_exec, forward_req, unknown_msg, accept_ack_size,
  missing_ack_size,
}
use libevent_paxos.Consensus.State.{Comp, Role, leader, secondary, emit, up_call, is_leader_role}
use libevent_paxos.Consensus.Execute.{retrieve, try_to_execute}
use libevent_paxos.Consensus.Build.{build_accept_ack, build_missing_ack}
use libevent_paxos.Consensus.Submit.{leader_handle_submit_req}

-- `view_stamp_comp(&a,&b)<0`, and `>0`.
abbrev pub is_before : ViewStamp → ViewStamp → Bool
is_before a b = ltb_ℤ (view_stamp_comp a b) (pos 0)

abbrev pub is_after : ViewStamp → ViewStamp → Bool
is_after a b = ltb_ℤ (pos 0) (view_stamp_comp a b)

-- The later of a stored stamp and one that a message brings.
unfoldable pub raised : ViewStamp → ViewStamp → ViewStamp
raised stored seen = if is_after seen stored then seen else stored

module _ (bdb : Bdb) (env : Env) where
  -- A message of an old view, of this view from another node than its leader, or about a request
  -- that is committed here, is ignored.
  unfoldable pub accept_req_ignored : Comp bdb.Store → AcceptReq → Bool
  accept_req_ignored c m =
      ltb m.msg_vs.view_id c.cur_view.view_id
      || ((m.msg_vs.view_id == c.cur_view.view_id) && not (eqb_ℤ m.node_id c.cur_view.leader_id))
      || not (is_after m.msg_vs c.highest_committed)

  -- The record that is stored: the leader's, with a time of its own and a bit map that is left as
  -- fresh memory holds it.
  abbrev pub copied_record : RequestRecord → RequestRecord
  copied_record origin = record origin { created_time = env.now; bit_map = env.fresh_bits }

  unfoldable pub acknowledge : Comp bdb.Store → AcceptReq → Comp bdb.Store
  acknowledge c m = elim (build_accept_ack env c m.msg_vs) [
    | none ↦ c
    | some a ↦ emit c (up_call accept_ack_size (accept_ack a) m.node_id)
  ]

  unfoldable pub accept_request : Comp bdb.Store → AcceptReq → Comp bdb.Store
  accept_request c m =
      let c' = record c {
        highest_seen = raised c.highest_seen m.msg_vs;
        highest_to_commit = raised c.highest_to_commit m.req_canbe_exed;
      } in
      let origin = decode_record (m.body ++ env.heap) in
      let (failed, db') =
        store_record bdb c.db (vstol m.msg_vs) (encode_record (copied_record origin)) in
      if env.malloc (req_record_size origin)
      then if failed == 0 then acknowledge (record c' { db = db' }) m else record c' { db = db' }
      else c'

  unfoldable pub handle_accept_req : Comp bdb.Store → AcceptReq → Outcome (Comp bdb.Store)
  handle_accept_req c m =
      try_to_execute bdb env (if accept_req_ignored c m then c else accept_request c m)

  -- The ack is counted in the stored record; a failed store is as good as a lost message.
  unfoldable pub count_ack : Comp bdb.Store → AcceptAck → Comp bdb.Store
  count_ack c m = elim (retrieve bdb env c (vstol m.msg_vs)) [
    | none ↦ c
    | some mem ↦
        let r = update_record env (decode_record mem) (to_u32 m.node_id) in
        record c { db = (store_record bdb c.db (vstol m.msg_vs) (encode_record r)).1 }
  ]

  unfoldable pub handle_accept_ack : Comp bdb.Store → AcceptAck → Outcome (Comp bdb.Store)
  handle_accept_ack c m = try_to_execute bdb env (
      if is_leader_role c.my_role && is_after m.msg_vs c.highest_committed
      then count_ack c m
      else c)

  unfoldable pub handle_missing_req : Comp bdb.Store → MissingReq → Comp bdb.Store
  handle_missing_req c m = elim (build_missing_ack bdb env c m.missing_vs) [
    | none ↦ c
    | some a ↦ emit c (up_call (missing_ack_size a.data_size) (missing_ack a) m.node_id)
  ]

  -- The record made of a missing ack: its bit map and `is_closed` stay as fresh memory holds them.
  abbrev pub recovered_record : RequestRecord → RequestRecord
  recovered_record origin = record origin {
    created_time = env.now;
    is_closed = env.fresh_closed;
    bit_map = env.fresh_bits;
  }

  -- A record that is there, or cannot be allocated, ends the handler with nothing executed.
  unfoldable pub handle_missing_ack : Comp bdb.Store → MissingAck → Outcome (Comp bdb.Store)
  handle_missing_ack c m =
      if is_before c.highest_committed m.missing_vs
      then elim (retrieve bdb env c (vstol m.missing_vs)) [
        | some mem ↦ ok c
        | none ↦
            let origin = decode_record (m.body ++ env.heap) in
            let bytes = encode_record (recovered_record origin) in
            if env.malloc (req_record_size origin)
            then try_to_execute bdb env
                (record c { db = (store_record bdb c.db (vstol m.missing_vs) bytes).1 })
            else ok c
      ]
      else ok c

  unfoldable pub handle_force_exec : Comp bdb.Store → ForceExec → Outcome (Comp bdb.Store)
  handle_force_exec c m =
      if eqb_ℤ m.node_id c.cur_view.leader_id
        && is_before c.highest_to_commit m.highest_committed_op
      then try_to_execute bdb env (record c { highest_to_commit = m.highest_committed_op })
      else ok c

  unfoldable pub handle_forward_req : Comp bdb.Store → ForwardReq → Outcome (Comp bdb.Store)
  handle_forward_req c m =
      if is_leader_role c.my_role
      then (leader_handle_submit_req bdb env c m.data_size m.body >>= λ s. ok s.comp)
      else ok c

  unfoldable pub consensus_handle_msg : Comp bdb.Store → ConsensusMsg → Outcome (Comp bdb.Store)
  consensus_handle_msg c (accept_req m) = handle_accept_req c m
  consensus_handle_msg c (accept_ack m) = handle_accept_ack c m
  consensus_handle_msg c (missing_req m) = ok (handle_missing_req c m)
  consensus_handle_msg c (missing_ack m) = handle_missing_ack c m
  consensus_handle_msg c (force_exec m) = handle_force_exec c m
  consensus_handle_msg c (forward_req m) = handle_forward_req c m
  consensus_handle_msg c (unknown_msg n) = ok c
