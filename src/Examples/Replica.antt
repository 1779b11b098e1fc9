-- ===== src/Examples/Replica.antt =====
-- The theorems about the messages of a node and the close of an election, at node 1 of a group of
-- three.
use libevent_paxos.Base.{
  ℕ, pos, ◌≡◌, ◌≢◌, ◌⊎◌, refl, [], ◌∷◌, ◌++◌, map, concat, some, arith, ok, crash, never_ends,
  ◌>>=◌, has_frame, le_bytes, le_value,
}
use libevent_paxos.Stamp.{View}
use libevent_paxos.Proxy.Message.{ReqSubMsg, proxy_header_bytes, encode_proxy_msg, req_sub_bytes}
use libevent_paxos.Replica.Message.{LeleMsg, lele_announce_ack}
use libevent_paxos.Replica.Node.{
  Node, NodeEnv, LeleMod, EdgeMod, index_of, initialize_leader_ping, initialize_expect_ping,
}
use libevent_paxos.Replica.View.{
  update_view, record_view, take_role, become_leader, become_secondary,
}
use libevent_paxos.Db.{store_record, delete_record}
use libevent_paxos.Consensus.State.{consensus_update_role}
use libevent_paxos.Replica.View.Enter.{Entered}
use libevent_paxos.Replica.Close.{leader_election_handle_close, leader_election_leader_close}
use libevent_paxos.Replica.Close.Agree.{Told, close_msg, before_missed, leader_close-handle_close}
use libevent_paxos.Replica.Merge.{
  word_at, merge_answer, merge_loop, merge_rest, skip_known, append_open, compact, strike_to, heard,
  answer_of, first_answer, leader_election_handle_announce_ack,
}
use libevent_paxos.Replica.Merge.Answers.{
  Heard, none_heard, one_heard, not_heard, Answered, merge_loop_enough, announce_ack_stuck,
  announce_ack-Answered,
}
use libevent_paxos.Replica.Dispatch.{Layout, replica_on_read}
use libevent_paxos.Replica.Dispatch.Read.{
  AreRequests, no_requests, one_request, submit_all, replica_on_read-submit_all,
}
use libevent_paxos.Consensus.Message.{unknown_msg}
use libevent_paxos.Examples.{Map, map_db, calm}
use libevent_paxos.Examples.Election.{blank, calm_node, election, voter, result_or}
use libevent_paxos.Examples.Proxy.{connects}

-- View 2 under node 1.
abbrev second_view : View
second_view = record { view_id = 2; leader_id = pos 1; req_id = 6 }

abbrev full_edge : EdgeMod
full_edge = record {
  msg_count = some (1 ∷ 1 ∷ 0 ∷ []);
  req_edge = some (7 ∷ 0 ∷ []);
  start = 4;
  last = 8;
  cur_empty_slots = 1;
  max_empty_slots = 2;
}

-- The leader misses 7, so that view 1 ends with 6.
abbrev won : LeleMod
won = record election { edge = full_edge; new_leader = pos 1 }

abbrev winner : Node Map
winner = record voter { election_mod = some won }

abbrev closed : Node Map
closed = result_or winner (leader_election_leader_close map_db calm_node winner)

abbrev told : Node Map
told =
    result_or voter
      (leader_election_handle_close map_db calm_node voter (close_msg map_db calm_node second_view))

closes : leader_election_leader_close map_db calm_node winner ≡ ok closed
unfolding leader_election_leader_close update_view record_view store_record delete_record take_role
    become_leader initialize_leader_ping consensus_update_role
closes = refl

hears :
    leader_election_handle_close map_db calm_node voter (close_msg map_db calm_node second_view)
    ≡ ok told
unfolding leader_election_handle_close update_view record_view store_record delete_record take_role
    become_secondary initialize_expect_ping consensus_update_role
hears = refl

leader_close-handle_close_example :
    Told map_db calm_node winner closed second_view × Entered told second_view
leader_close-handle_close_example =
    leader_close-handle_close map_db calm_node winner closed voter told won election 6 refl
      (before_missed (λ e. absurd (omega arith)) refl) refl refl closes refl refl refl hears

-- The leader misses 7; node 2 misses 5 and 7.
abbrev edge_7 : EdgeMod
edge_7 = record {
  msg_count = some (0 ∷ 1 ∷ 0 ∷ []);
  req_edge = some (7 ∷ 0 ∷ []);
  start = 4;
  last = 8;
  cur_empty_slots = 1;
  max_empty_slots = 2;
}

abbrev collecting : LeleMod
collecting = record election { edge = edge_7 }

abbrev new_leader_node : Node Map
new_leader_node = record voter { election_mod = some collecting }

abbrev answer_5_7 : LeleMsg
answer_5_7 = record blank { kind = lele_announce_ack; pnum = pos 2; start_req = 4; last_req = 8 }

announce_ack_stuck_example :
    (leader_election_handle_announce_ack map_db calm_node new_leader_node answer_5_7 (5 ∷ 7 ∷ [])
      ≡ crash never_ends)
    × (merge_loop calm_node 100 (5 ∷ 7 ∷ []) 2 1 0 0 (7 ∷ 0 ∷ []) ≡ crash never_ends)
unfolding index_of word_at
announce_ack_stuck_example =
    announce_ack_stuck map_db calm_node new_leader_node collecting answer_5_7 (5 ∷ 7 ∷ [])
      (0 ∷ 1 ∷ 0 ∷ []) (7 ∷ 0 ∷ []) 2 100 refl (λ e. absurd (omega arith)) refl refl refl refl
      (omega arith) (omega arith) (omega arith) (omega arith) (omega arith)

merge_loop_enough_example :
    merge_loop calm_node 2 (7 ∷ []) 1 1 0 0 (7 ∷ 0 ∷ [])
    ≡ merge_loop calm_node 9 (7 ∷ []) 1 1 0 0 (7 ∷ 0 ∷ [])
merge_loop_enough_example =
    merge_loop_enough calm_node 2 9 (7 ∷ []) 1 1 0 0 (7 ∷ 0 ∷ []) (omega arith) (omega arith)
      (omega arith) (omega arith)

-- These two turns are enough to end.
merge_ends : merge_loop calm_node 2 (7 ∷ []) 1 1 0 0 (7 ∷ 0 ∷ []) ≡ ok ((7 ∷ 0 ∷ []), (1, 1))
unfolding merge_loop word_at
merge_ends = refl

-- A group of five needs a third answer.
abbrev of_five : Node Map
of_five = record new_leader_node { group_size = 5 }

abbrev answer_7 : LeleMsg
answer_7 = record answer_5_7 { pnum = pos 1 }

-- Behind the messages lies a large word.
abbrev full_heap : NodeEnv
full_heap = record calm_node { env = record calm { heap = 255 ∷ 255 ∷ 255 ∷ 255 ∷ [] } }

abbrev after_7 : Node Map
after_7 =
    result_or of_five
      (leader_election_handle_announce_ack map_db full_heap of_five answer_7 (7 ∷ []))

answered_7 :
    leader_election_handle_announce_ack map_db full_heap of_five answer_7 (7 ∷ []) ≡ ok after_7
unfolding leader_election_handle_announce_ack answer_of first_answer merge_answer merge_loop
    merge_rest skip_known append_open compact heard index_of word_at strike_to le_value
answered_7 = refl

-- Node 2 has not been heard before.
abbrev uncounted : ℕ
uncounted = 0

two-Heard : Heard 2 (0 ∷ 1 ∷ 1 ∷ [])
two-Heard = not_heard (λ e. absurd (omega arith)) (one_heard (one_heard none_heard))

announce_ack-Answered_example :
    ((uncounted ≢ 0) × (after_7 ≡ of_five))
    ⊎ ((uncounted ≡ 0) × Answered map_db full_heap of_five after_7 collecting (0 ∷ 1 ∷ 1 ∷ []) 2)
unfolding index_of
announce_ack-Answered_example =
    announce_ack-Answered map_db full_heap of_five after_7 collecting answer_7 (7 ∷ [])
      (0 ∷ 1 ∷ 0 ∷ []) 2 2 refl (λ e. absurd (omega arith)) refl refl two-Heard answered_7

abbrev layout : Layout
layout = record {
  as_ping = λ bytes. record {
    node_id = pos 0;
    view = second_view;
    timestamp = record { tv_sec = 0; tv_usec = 0 };
  };
  as_consensus = λ bytes. unknown_msg 9;
  as_lele = λ bytes. (blank, []);
}

abbrev a_request : ReqSubMsg
a_request = record { data_size = 56; msg = connects }

a_request-AreRequests : AreRequests 0 (a_request ∷ [])
unfolding encode_proxy_msg proxy_header_bytes le_bytes
a_request-AreRequests =
    one_request {r = a_request} record { sized = refl; fits = omega arith } no_requests

replica_on_read-submit_all_example :
    replica_on_read map_db calm_node layout voter
      (concat (map (req_sub_bytes 0) (a_request ∷ [])) ++ (1 ∷ 2 ∷ []))
    ≡ (submit_all map_db calm_node layout 0 voter (a_request ∷ []) >>= λ n. ok (n, 1 ∷ 2 ∷ []))
unfolding has_frame
replica_on_read-submit_all_example =
    replica_on_read-submit_all map_db calm_node layout 0 voter (a_request ∷ []) (1 ∷ 2 ∷ [])
      (λ n. refl) a_request-AreRequests refl
