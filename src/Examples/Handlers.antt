-- ===== src/Examples/Handlers.antt =====
-- The theorems about the handlers and about execution, at one request.
use libevent_paxos.Base.{
  ℕ, zero, suc, ◌-◌, ◌^◌, ◌<◌, ◌≡◌, refl, ap, some, [], ◌∷◌, pos, negsuc, le_bytes, le_value,
  popcount, or_bits, arith, ok, ◌⊎◌, inl, inr,
}
use libevent_paxos.Stamp.{IsStamp, vstol, ltovs, view_stamp_comp}
use libevent_paxos.Db.{open_db, store_record, retrieve_record}
use libevent_paxos.Consensus.Record.{
  RequestRecord, encode_record, decode_record, update_record, reached_quorum, bit_of,
}
use libevent_paxos.Consensus.Message.{AcceptReq, AcceptAck}
use libevent_paxos.Consensus.State.{Comp, Output, view_stamp_inc}
use libevent_paxos.Consensus.Execute.{
  retrieve, try_to_execute, leader_try_to_execute, leader_loop, leader_commit, execute_known,
  execute_loop, execute_step, deliver_msg_data,
}
use libevent_paxos.Consensus.Execute.Delivery.{HandsKeys, Advances}
use libevent_paxos.Consensus.Execute.Leader.{Present, LeaderRun, leader_try_to_execute-LeaderRun}
use libevent_paxos.Consensus.Execute.Order.{OneView, try_to_execute-Advances}
use libevent_paxos.Consensus.Execute.Frame.{acks, Frame}
use libevent_paxos.Consensus.Build.{build_accept_ack}
use libevent_paxos.Consensus.Handle.{
  handle_accept_req, handle_accept_ack, accept_req_ignored, accept_request, raised, acknowledge,
  count_ack,
}
use libevent_paxos.Consensus.Handle.Accept.{
  Acknowledged, Stale, handle_accept_req-acks, handle_accept_req-Stale, handle_accept_ack_counts,
  AckedBy,
}
use libevent_paxos.Examples.{
  map_db, Map, calm, hello, hello-IsRecord, stamp_in_1, first_key, with_hello, nothing,
  first_leader, follower, outcome_or,
}

-- The accept request of the leader for the stored request.
abbrev request : AcceptReq
request = record {
  msg_vs = stamp_in_1 1;
  req_canbe_exed = stamp_in_1 0;
  node_id = pos 0;
  data_size = 39;
  body = encode_record hello;
}

abbrev accepted : Comp Map
accepted = outcome_or (follower nothing) (handle_accept_req map_db calm (follower nothing) request)

accept_runs : handle_accept_req map_db calm (follower nothing) request ≡ ok accepted
unfolding handle_accept_req try_to_execute accept_req_ignored accept_request execute_known
    view_stamp_comp acknowledge build_accept_ack execute_loop execute_step vstol store_record raised
accept_runs = refl

handle_accept_req-acks_example :
    (acks accepted.out ≡ []) ⊎ Acknowledged map_db calm (follower nothing) request accepted
handle_accept_req-acks_example =
    handle_accept_req-acks map_db calm (follower nothing) accepted request accept_runs

-- The follower does acknowledge it.
accept_acknowledges :
    acks accepted.out ≡ (record { msg_vs = stamp_in_1 1; node_id = pos 1 }, pos 0) ∷ []
unfolding handle_accept_req try_to_execute accept_req_ignored accept_request execute_known
    view_stamp_comp acknowledge build_accept_ack execute_loop execute_step vstol store_record raised
accept_acknowledges = refl

-- The same request from a node that does not lead the view.
abbrev foreign : AcceptReq
foreign = record request { node_id = pos 2 }

foreign_runs : handle_accept_req map_db calm (follower nothing) foreign ≡ ok (follower nothing)
unfolding handle_accept_req try_to_execute accept_req_ignored accept_request execute_known
    view_stamp_comp execute_loop execute_step vstol
foreign_runs = refl

foreign-Stale : Stale map_db calm (follower nothing) foreign
foreign-Stale =
    inr (inl (refl, λ e. absurd (omega (arith, ap (elim [ pos n ↦ n | negsuc n ↦ 0 ]) e))))

stamp_in_1-IsStamp : (n : ℕ) → n < 2 ^ 32 → IsStamp (stamp_in_1 n)
stamp_in_1-IsStamp n fits = record { view_fits = omega arith; req_fits = fits }

handle_accept_req-Stale_example : Frame (follower nothing) (follower nothing)
handle_accept_req-Stale_example =
    handle_accept_req-Stale map_db calm (follower nothing) (follower nothing) foreign
      (stamp_in_1-IsStamp 1 (omega arith)) (stamp_in_1-IsStamp 0 (omega arith)) foreign-Stale
      foreign_runs

-- An acknowledgement of node 2 for the stored request.
abbrev third_ack : AcceptAck
third_ack = record { msg_vs = stamp_in_1 1; node_id = pos 2 }

abbrev counted : Comp Map
counted =
    outcome_or (first_leader with_hello)
      (handle_accept_ack map_db calm (first_leader with_hello) third_ack)

count_runs : handle_accept_ack map_db calm (first_leader with_hello) third_ack ≡ ok counted
unfolding handle_accept_ack try_to_execute leader_try_to_execute leader_loop leader_commit count_ack
    execute_known view_stamp_comp execute_loop execute_step deliver_msg_data vstol ltovs
    store_record retrieve_record retrieve encode_record decode_record update_record reached_quorum
    view_stamp_inc le_bytes le_value popcount or_bits bit_of
count_runs = refl

hello_stored :
    retrieve_record map_db (open_db with_hello) (vstol (stamp_in_1 1))
    ≡ (0, some (encode_record hello))
unfolding retrieve_record vstol encode_record le_bytes
hello_stored = refl

handle_accept_ack_counts_example :
    (r' : RequestRecord) × (AckedBy map_db calm 2 hello r')
    × (retrieve_record map_db counted.db (vstol (stamp_in_1 1)) ≡ (0, some (encode_record r')))
handle_accept_ack_counts_example =
    handle_accept_ack_counts map_db calm (first_leader with_hello) counted third_ack hello 2 refl
      (omega arith) refl (stamp_in_1-IsStamp 1 (omega arith)) (stamp_in_1-IsStamp 0 (omega arith))
      (unfold vstol in omega arith) hello-IsRecord (omega arith) hello_stored
      (unfold store_record in refl) count_runs

-- The follower holds the request, and may execute it.
abbrev behind : Comp Map
behind = record (follower with_hello) {
  highest_seen = stamp_in_1 1;
  highest_to_commit = stamp_in_1 1;
}

abbrev executed : Comp Map
executed = outcome_or behind (try_to_execute map_db calm behind)

execute_runs : try_to_execute map_db calm behind ≡ ok executed
unfolding try_to_execute execute_known view_stamp_comp execute_loop execute_step deliver_msg_data
    vstol ltovs retrieve_record retrieve encode_record decode_record view_stamp_inc
execute_runs = refl

-- It hands over the number of the request.
execute_delivers : executed.out ≡ Output.user_cb_key first_key ∷ []
unfolding try_to_execute execute_known view_stamp_comp execute_loop execute_step deliver_msg_data
    vstol ltovs retrieve_record retrieve encode_record decode_record view_stamp_inc
execute_delivers = refl

behind-HandsKeys : HandsKeys behind
behind-HandsKeys = record { by_key = λ e. omega arith; has_ucb = refl }

behind-OneView : OneView map_db calm behind
behind-OneView = record {
  committed_fits = stamp_in_1-IsStamp 0 (omega arith);
  commit_fits = stamp_in_1-IsStamp 1 (omega arith);
  seen_fits = stamp_in_1-IsStamp 1 (omega arith);
  commit_view = refl;
  seen_view = refl;
  view_room = omega arith;
}

try_to_execute-Advances_example : Advances behind executed
try_to_execute-Advances_example =
    try_to_execute-Advances map_db calm behind executed behind-HandsKeys behind-OneView execute_runs

-- The leader holds the request that it may commit.
hello-Present : Present map_db calm (first_leader with_hello) (suc (vstol (stamp_in_1 0))) (1 - 0)
unfolding vstol retrieve retrieve_record encode_record le_bytes
hello-Present zero h = (encode_record hello, refl)
hello-Present (suc k) h = absurd (omega arith)

leader_try_to_execute-LeaderRun_example :
    (d : Comp Map) × (leader_try_to_execute map_db calm (first_leader with_hello) ≡ ok d)
    × LeaderRun map_db calm (first_leader with_hello) (suc (vstol (stamp_in_1 0))) (1 - 0) d
leader_try_to_execute-LeaderRun_example =
    leader_try_to_execute-LeaderRun map_db calm (first_leader with_hello)
      (stamp_in_1-IsStamp 1 (omega arith)) (stamp_in_1-IsStamp 0 (omega arith)) refl (omega arith)
      (omega arith) hello-Present
