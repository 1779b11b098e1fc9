-- ===== src/Examples/Sequences.antt =====
-- A request that a follower accepts, and is then told to execute.
use libevent_paxos.Base.{ℕ, ◌^◌, ◌<◌, ◌≡◌, refl, [], ◌∷◌, pos, arith, ok, le_bytes, le_value}
use libevent_paxos.Consensus.Handle.Log.{StampIn}
use libevent_paxos.Stamp.{vstol, ltovs, view_stamp_comp}
use libevent_paxos.Db.{store_record, retrieve_record}
use libevent_paxos.Consensus.Record.{encode_record, decode_record, header_bytes}
use libevent_paxos.Consensus.Message.{ConsensusMsg, accept_req, force_exec}
use libevent_paxos.Consensus.State.{Comp, view_stamp_inc}
use libevent_paxos.Consensus.Execute.{
  try_to_execute, execute_known, execute_loop, execute_step, deliver_msg_data,
}
use libevent_paxos.Consensus.Execute.Delivery.{delivered}
use libevent_paxos.Consensus.Build.{build_accept_ack}
use libevent_paxos.Consensus.Handle.{
  consensus_handle_msg, handle_accept_req, handle_force_exec, accept_req_ignored, accept_request,
  raised, acknowledge,
}
use libevent_paxos.Consensus.Handle.Sequence.{
  Kept, Steps, receives, stay, go, Extends, Steps-Extends,
}
use libevent_paxos.Examples.{
  map_db, Map, calm, hello, stamp_in_1, first_key, nothing, follower, outcome_or,
}

abbrev proposed : ConsensusMsg
proposed = accept_req (record {
  msg_vs = stamp_in_1 1;
  req_canbe_exed = stamp_in_1 0;
  node_id = pos 0;
  data_size = 39;
  body = encode_record hello;
})

abbrev may_execute : ConsensusMsg
may_execute = force_exec (record { node_id = pos 0; highest_committed_op = stamp_in_1 1 })

abbrev holding : Comp Map
holding =
    outcome_or (follower nothing) (consensus_handle_msg map_db calm (follower nothing) proposed)

abbrev finished : Comp Map
finished = outcome_or holding (consensus_handle_msg map_db calm holding may_execute)

propose_runs : consensus_handle_msg map_db calm (follower nothing) proposed ≡ ok holding
unfolding consensus_handle_msg handle_accept_req try_to_execute accept_req_ignored accept_request
    execute_known view_stamp_comp acknowledge build_accept_ack execute_loop execute_step vstol
    store_record raised
propose_runs = refl

finish_runs : consensus_handle_msg map_db calm holding may_execute ≡ ok finished
unfolding consensus_handle_msg handle_accept_req handle_force_exec try_to_execute accept_req_ignored
    accept_request execute_known view_stamp_comp acknowledge build_accept_ack execute_loop
    execute_step deliver_msg_data vstol ltovs store_record retrieve_record raised encode_record
    decode_record header_bytes le_bytes le_value view_stamp_inc
finish_runs = refl

-- The number of the request is delivered.
finish_delivers : delivered finished.out ≡ first_key ∷ []
unfolding consensus_handle_msg handle_accept_req handle_force_exec try_to_execute accept_req_ignored
    accept_request execute_known view_stamp_comp acknowledge build_accept_ack execute_loop
    execute_step deliver_msg_data vstol ltovs store_record retrieve_record raised encode_record
    decode_record header_bytes le_bytes le_value view_stamp_inc
finish_delivers = refl

in_view_1 : (n : ℕ) → n < 2 ^ 32 → StampIn 1 (stamp_in_1 n)
in_view_1 n fits = (record { view_fits = omega arith; req_fits = fits }, refl)

follower-Kept : Kept map_db (follower nothing)
follower-Kept = record {
  hands = record { by_key = λ e. omega arith; has_ucb = refl };
  committed_fits = (in_view_1 0 (omega arith)).0;
  commit_fits = (in_view_1 0 (omega arith)).0;
  seen_fits = (in_view_1 0 (omega arith)).0;
  commit_view = refl;
  seen_view = refl;
  view_room = omega arith;
}

both-Steps : Steps map_db 1 (follower nothing) finished
both-Steps =
    go (receives calm proposed (in_view_1 1 (omega arith), in_view_1 0 (omega arith)) propose_runs)
      (go (receives calm may_execute (in_view_1 1 (omega arith)) finish_runs) stay)

Steps-Extends_example : Extends map_db (follower nothing) finished
Steps-Extends_example = Steps-Extends map_db (follower nothing) finished follower-Kept both-Steps
