-- ===== src/Examples/Election.antt =====
-- The theorems about views and elections, at node 1 of a group of three.
use libevent_paxos.Base.{
  ℤ, pos, ◌+◌, ◌%◌, ◌^◌, ◌≡◌, ◌≢◌, refl, ◌⊎◌, true, false, [], ◌∷◌, some, none, arith, ltb_ℤ, leb,
  Outcome, ok, crash,
}
use libevent_paxos.Stamp.{View}
use libevent_paxos.Db.{store_record, delete_record}
use libevent_paxos.Consensus.State.{consensus_update_role}
use libevent_paxos.Replica.Message.{LeleMsg, lele_prepare, PingMsg, lele}
use libevent_paxos.Replica.Node.{
  Node, NodeEnv, node_inlele, LeleMod, index_of, send_to_one_node, initialize_expect_ping, seconds,
}
use libevent_paxos.Replica.View.{
  update_view, record_view, take_role, become_secondary, handle_ping_ack,
}
use libevent_paxos.Replica.View.Enter.{Entered, update_view-Entered, handle_ping_ack_inert}
use libevent_paxos.Replica.Election.{minus_one, build_lele_msg}
use libevent_paxos.Replica.Election.Roles.{
  half_size, origin, proposer_check_prepare, learner_check_accept, learner_loop, count_base,
  acceptor_prepare, promise, acceptor_update_record, stop_propose,
}
use libevent_paxos.Replica.Election.Learner.{
  Decided, Undecided, learner_check_accept-votes, learner_check_accept_unique,
}
use libevent_paxos.Replica.Election.Acceptor.{
  messages, Durable, Answers, promised_mod, promise_msg, acceptor_prepare-Durable,
}
use libevent_paxos.Replica.Election.Proposer.{
  answered, Below, Origin, proposer_check_prepare-answered,
}
use libevent_paxos.Examples.{Map, map_db, calm, follower, nothing}

abbrev pub blank : LeleMsg
blank = record {
  kind = lele_prepare;
  node_id = pos 2;
  next_view = 2;
  pnum = pos 5;
  p_pnum = minus_one;
  content = minus_one;
  last_req = 0;
  start_req = 0;
}

abbrev pub calm_node : NodeEnv
calm_node = record { env = calm; fresh_msg = blank; stack_bytes = 1 ∷ 2 ∷ [] }

-- Nodes 0 and 1 accepted number 4, for node 1.
abbrev pub election : LeleMod
election = record {
  final_state = 0;
  next_view = 2;
  new_leader = pos 0;
  next_pnum = pos 4;
  edge = record {
    msg_count = none;
    req_edge = none;
    start = 0;
    last = 0;
    cur_empty_slots = 0;
    max_empty_slots = 0;
  };
  acceptor = record { highest_seen_pnum = pos 4; accepted_pnum = pos 4; content = pos 1 };
  learner_arr =
      record { pnum = pos 4; content = pos 1; last_req = 0 }
      ∷ record { pnum = pos 4; content = pos 1; last_req = 0 }
      ∷ record { pnum = minus_one; content = minus_one; last_req = 0 }
      ∷ [];
  proposer_arr =
      record { p_pnum = pos 1; a_pnum = pos 0; content = pos 2 }
      ∷ record { p_pnum = pos 1; a_pnum = pos 0; content = minus_one }
      ∷ record { p_pnum = pos 0; a_pnum = pos 0; content = minus_one }
      ∷ [];
  announce_ack_msg = none;
}

abbrev pub voter : Node Map
voter = record {
  node_id = pos 1;
  group_size = 3;
  comp = follower nothing;
  state = node_inlele;
  election_mod = some election;
  active = true ∷ true ∷ true ∷ [];
  last_ping_msg = seconds 0;
  has_leader_ping = false;
  has_expect_ping = true;
  has_make_progress = true;
  ping_timeval = seconds 1;
  expect_ping_timeval = seconds 2;
  make_progress_timeval = seconds 3;
  reconnect_timeval = seconds 2;
  effects = [];
}

abbrev pub result_or : Node Map → Outcome (Node Map) → Node Map
result_or n (ok d) = d
result_or n (crash f) = n

learner_check_accept-votes_example :
    (((learner_check_accept 3 election blank).0 ≡ true)
      × Decided
          (half_size 3)
          election.learner_arr
          election.learner_arr
          (learner_check_accept 3 election blank).1)
    ⊎ (((learner_check_accept 3 election blank).0 ≡ false)
        × Undecided (half_size 3) election.learner_arr election.learner_arr)
learner_check_accept-votes_example = learner_check_accept-votes 3 election blank

-- The two acceptances are a majority.
majority_found : (learner_check_accept 3 election blank).0 ≡ true
unfolding learner_check_accept learner_loop count_base
majority_found = refl

learner_check_accept_unique_example : (learner_check_accept 3 election blank).1.pnum ≡ pos 4
learner_check_accept_unique_example =
    learner_check_accept_unique 3 election blank (pos 4) (omega arith) majority_found (omega arith)

proposer_check_prepare-answered_example :
    ((proposer_check_prepare 3 election blank).0
      ≡ leb (half_size 3) (answered (origin 3 election) election.proposer_arr))
    × ((proposer_check_prepare 3 election blank).1.pnum ≡ origin 3 election)
    × ((high : ℤ) × (Below (origin 3 election) high election.proposer_arr)
        × (((high ≡ minus_one) × ((proposer_check_prepare 3 election blank).1.content ≡ minus_one))
            ⊎ Origin
                (origin 3 election)
                high
                (proposer_check_prepare 3 election blank).1.content
                election.proposer_arr))
proposer_check_prepare-answered_example = proposer_check_prepare-answered 3 election blank

abbrev promised : Node Map
promised = result_or voter (acceptor_prepare map_db calm_node voter blank)

promise_runs : acceptor_prepare map_db calm_node voter blank ≡ ok promised
unfolding acceptor_prepare promise acceptor_update_record store_record build_lele_msg
    send_to_one_node index_of stop_propose
promise_runs = refl

acceptor_prepare-Durable_example :
    ((ltb_ℤ (pos 4) (pos 5) ≡ false)
      × (messages promised.effects ≡ [])
      × (promised.election_mod ≡ some election))
    ⊎ ((ltb_ℤ (pos 4) (pos 5) ≡ true)
        × (Durable map_db calm_node promised (promised_mod map_db calm_node election blank))
        × Answers map_db calm_node voter promised
            (pos 2)
            (lele (promise_msg map_db calm_node (pos 1) election blank)))
acceptor_prepare-Durable_example =
    acceptor_prepare-Durable map_db calm_node voter promised election blank refl promise_runs

-- The acceptor forgets that number 4 stood for node 1.
promise_forgets :
    promised.election_mod
    ≡ some (record election {
      acceptor = record { highest_seen_pnum = pos 5; accepted_pnum = pos 4; content = minus_one };
    })
unfolding acceptor_prepare promise acceptor_update_record store_record build_lele_msg
    send_to_one_node index_of stop_propose
promise_forgets = refl

abbrev second_view : View
second_view = record { view_id = 2; leader_id = pos 2; req_id = 7 }

abbrev entered : Node Map
entered = result_or voter (update_view map_db calm_node voter second_view)

enter_runs : update_view map_db calm_node voter second_view ≡ ok entered
unfolding update_view record_view store_record delete_record take_role become_secondary
    initialize_expect_ping consensus_update_role
enter_runs = refl

update_view-Entered_example :
    (((1 + 1) % 2 ^ 32 ≡ 2) × Entered entered second_view)
    ⊎ (((1 + 1) % 2 ^ 32 ≢ 2) × (entered ≡ voter))
update_view-Entered_example =
    update_view-Entered map_db calm_node voter entered second_view enter_runs

abbrev pong : PingMsg
pong = record { node_id = pos 2; view = second_view; timestamp = seconds 9 }

handle_ping_ack_inert_example : handle_ping_ack map_db calm_node voter pong ≡ ok voter
handle_ping_ack_inert_example = handle_ping_ack_inert map_db calm_node voter pong
