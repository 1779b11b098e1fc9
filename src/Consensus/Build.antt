-- ===== src/Consensus/Build.antt =====
-- The message builders of src/consensus/consensus.c. `none` is a failed allocation.
use libevent_paxos.Base.{ℕ, pos, ◌+◌, ◌-◌, ◌%◌, ◌^◌, ltb, List, if◌then◌else◌, Option, none, some}
use libevent_paxos.Stamp.{ViewStamp, vstol}
use libevent_paxos.Db.{Bdb}
use libevent_paxos.Consensus.Record.{Env, memcpy, decode_record}
use libevent_paxos.Consensus.Message.{
  AcceptReq, AcceptAck, MissingAck, ForceExec, ForwardReq, accept_req_size, accept_ack_size,
  missing_ack_size, force_exec_size, forward_req_size,
}
use libevent_paxos.Consensus.State.{Comp}
use libevent_paxos.Consensus.Execute.{retrieve}

-- A `size_t` that went through an `int`: its lower 32 bits, with the sign bit in the upper ones.
abbrev pub widened : ℕ → ℕ
widened n = if ltb (n % 2 ^ 32) (2 ^ 31) then n % 2 ^ 32 else n % 2 ^ 32 + (2 ^ 64 - 2 ^ 32)

module _ {S : Type 0} (env : Env) (c : Comp S) where
  unfoldable pub build_accept_req : ℕ → List ℕ → ViewStamp → Option AcceptReq
  build_accept_req data_size mem vs =
      if env.malloc (accept_req_size data_size)
      then some (record {
        msg_vs = vs;
        req_canbe_exed = c.highest_to_commit;
        node_id = pos c.node_id;
        data_size = data_size;
        body = memcpy env data_size mem;
      })
      else none

  unfoldable pub build_accept_ack : ViewStamp → Option AcceptAck
  build_accept_ack vs =
      if env.malloc accept_ack_size
      then some (record { msg_vs = vs; node_id = pos c.node_id })
      else none

  unfoldable pub build_force_exec : Option ForceExec
  build_force_exec =
      if env.malloc force_exec_size
      then some (record { node_id = pos c.node_id; highest_committed_op = c.highest_committed })
      else none

  unfoldable pub build_forward_req : ℕ → List ℕ → Option ForwardReq
  build_forward_req data_size mem =
      if env.malloc (forward_req_size data_size)
      then some (record {
        node_id = pos c.node_id;
        data_size = data_size;
        body = memcpy env data_size mem;
      })
      else none

module _ (bdb : Bdb) (env : Env) where
  -- `memsize`, meant for the whole message, is also the number of bytes copied from the record and
  -- the value of `data_size`. It is an `int`, which `malloc` and `memcpy` widen again.
  unfoldable pub build_missing_ack : Comp bdb.Store → ViewStamp → Option MissingAck
  build_missing_ack c vs = elim (retrieve bdb env c (vstol vs)) [
    | none ↦ none
    | some mem ↦
        let memsize = widened (missing_ack_size (decode_record mem).data_size) in
        if env.malloc memsize
        then some (record {
          node_id = pos c.node_id;
          missing_vs = vs;
          data_size = memsize;
          body = memcpy env memsize mem;
        })
        else none
  ]
