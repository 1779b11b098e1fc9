-- ===== src/Replica/Timeout.antt =====
-- Timers in src/replica-sys/replica.c: a leader that is not heard from, and an election that gets no
-- further.
use libevent_paxos.Base.{
  pos, eqb_ℤ, ltb_ℤ, if◌then◌else◌, List, none, some, Outcome, ok, crash, assert_failed, ◌>>=◌,
}
use libevent_paxos.Stamp.{timeval_comp, timeval_add}
use libevent_paxos.Db.{Bdb}
use libevent_paxos.Replica.Node.{
  Node, NodeEnv, NodeState, node_inlele, node_postlele, LeleMod, AcceptedRecord, ProposerRecord,
  act, timer_add, slient_period, wait_for_net_lele, send_to_one_node, initialize_leader_ping,
  initialize_expect_ping,
}
use libevent_paxos.Replica.Election.{initialize_leader_election}
use libevent_paxos.Replica.Election.Roles.{leader_election_proposer_do}

module _ (bdb : Bdb) (e : NodeEnv) where
  abbrev wait_on : Node bdb.Store → Node bdb.Store
  wait_on n = act n (timer_add slient_period wait_for_net_lele)

  -- After an election a node that does not lead sends its answer to the announcement once more.
  unfoldable pub repeat_answer : Node bdb.Store → LeleMod → Outcome (Node bdb.Store)
  repeat_answer n lm =
      if eqb_ℤ lm.new_leader n.node_id
      then ok n
      else elim lm.announce_ack_msg [ none ↦ ok n | some m ↦ send_to_one_node n lm.new_leader m ]

  abbrev timeout_in : NodeState → Node bdb.Store → LeleMod → Outcome (Node bdb.Store)
  timeout_in node_postlele n lm = repeat_answer n lm >>= λ n'. ok (wait_on n')
  timeout_in node_inlele n lm = leader_election_proposer_do bdb e n none >>= λ n'. ok (wait_on n')
  timeout_in other n lm = ok n

  unfoldable pub leader_election_on_timeout : Node bdb.Store → Outcome (Node bdb.Store)
  leader_election_on_timeout n = elim n.election_mod [
    | none ↦ crash assert_failed
    | some lm ↦ timeout_in n.state n lm
  ]

  -- `learners` and `proposers` are what fresh memory holds, if the election module is new.
  unfoldable pub lost_connection_with_leader :
      List AcceptedRecord → List ProposerRecord → Node bdb.Store → Outcome (Node bdb.Store)
  lost_connection_with_leader learners proposers n =
      initialize_leader_election e learners proposers n

  -- A follower that has heard from its leader in time waits on; otherwise it starts an election.
  unfoldable pub expected_leader_ping_period :
      List AcceptedRecord → List ProposerRecord → Node bdb.Store → Outcome (Node bdb.Store)
  expected_leader_ping_period learners proposers n =
      if eqb_ℤ n.node_id n.comp.cur_view.leader_id
      then ok (if n.has_leader_ping then initialize_leader_ping n else n)
      else if ltb_ℤ (timeval_comp (timeval_add n.last_ping_msg n.expect_ping_timeval) e.env.now)
          (pos 0)
      then lost_connection_with_leader learners proposers n
      else ok (initialize_expect_ping n)
