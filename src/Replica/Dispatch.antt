-- ===== src/Replica/Dispatch.antt =====
-- How a node of src/replica-sys/replica.c takes messages from the buffer of a connection and hands
-- them to its parts, by their type and by the state that it is in.
-- The fields of a message that is read through a pointer to a struct are where the compiler puts
-- them: that is the parameter `Layout`, for all types but the requests of the proxy, whose struct is
-- the header and the data.
pub mod Read
use libevent_paxos.Base.{
  ℕ, zero, suc, ◌+◌, ◌-◌, ◌%◌, ◌^◌, ◌≡◌, Bool, true, false, ◌&&◌, ℤ, List, [], ◌∷◌, ◌++◌, ◌==◌, ltb,
  if◌then◌else◌, Option, none, some, Outcome, ok, crash, assert_failed, null_deref, never_ends,
  ◌>>=◌, le_value, drop, take, length, header_size, read_all,
}
use libevent_paxos.Db.{Bdb}
use libevent_paxos.Consensus.Message.{ConsensusMsg}
use libevent_paxos.Proxy.Message.{read_word}
use libevent_paxos.Replica.Message.{
  LeleMsg, LeleMsgType, lele_prepare, lele_prepare_ack, lele_accept, lele_accept_ack, lele_announce,
  lele_announce_ack, lele_fin, lele_lagged, lele_higher_node, PingMsg, lele,
}
use libevent_paxos.Replica.Node.{
  Node, NodeEnv, NodeState, node_active, node_inlele, node_postlele, node_waitforsync,
  send_to_one_node,
}
use libevent_paxos.Replica.View.{
  handle_ping_ack, handle_ping_req, handle_consensus_msg, handle_request_submit,
}
use libevent_paxos.Replica.Election.Roles.{
  leader_election_acceptor_do, leader_election_proposer_do, leader_election_learner_do,
}
use libevent_paxos.Replica.Edge.{leader_election_handle_announce}
use libevent_paxos.Replica.Close.{leader_election_build_close, leader_election_handle_close}
use libevent_paxos.Replica.Merge.{leader_election_handle_announce_ack}

-- The bytes of a message, header included, read through a pointer to its struct. An election message
-- comes with the record numbers behind it.
pub record Layout : Type 0 where
  pub as_ping : List ℕ → PingMsg
  pub as_consensus : List ℕ → ConsensusMsg
  pub as_lele : List ℕ → LeleMsg × List ℕ

-- The header of a system message and its `int data_size`, widened with its sign, on a 64-bit word.
unfoldable pub replica_frame_size : List ℕ → ℕ
replica_frame_size header =
    let size = le_value 8 (drop 8 header) % 2 ^ 32 in
    if ltb size (2 ^ 31)
    then header_size + size
    else (header_size + size + 2 ^ 64 - 2 ^ 32) % 2 ^ 64

abbrev pub in_an_election : NodeState → Bool
in_an_election node_inlele = true
in_an_election node_postlele = true
in_an_election node_active = false
in_an_election node_waitforsync = false

abbrev pub is_active : NodeState → Bool
is_active node_active = true
is_active node_inlele = false
is_active node_postlele = false
is_active node_waitforsync = false

abbrev pub is_post : NodeState → Bool
is_post node_postlele = true
is_post node_inlele = false
is_post node_active = false
is_post node_waitforsync = false

module _ (bdb : Bdb) (e : NodeEnv) where
  -- A node that is one view behind gets the closing message of that view, if the database has it.
  unfoldable pub close_for_lagged : Node bdb.Store → LeleMsg → Outcome (Node bdb.Store)
  close_for_lagged n m = elim (leader_election_build_close bdb e n m.next_view none) [
    | none ↦ ok n
    | some sent ↦ send_to_one_node n m.node_id (lele sent)
  ]

  abbrev pub election_step :
      LeleMsgType → Node bdb.Store → LeleMsg → List ℕ → Outcome (Node bdb.Store)
  election_step lele_prepare n m keys = leader_election_acceptor_do bdb e n m
  election_step lele_prepare_ack n m keys = leader_election_proposer_do bdb e n (some m)
  election_step lele_accept n m keys = leader_election_acceptor_do bdb e n m
  election_step lele_accept_ack n m keys = leader_election_learner_do bdb e n m
  election_step lele_announce n m keys = leader_election_handle_announce bdb e n m
  election_step lele_announce_ack n m keys = leader_election_handle_announce_ack bdb e n m keys
  election_step lele_fin n m keys = leader_election_handle_close bdb e n m
  election_step lele_higher_node n m keys = leader_election_proposer_do bdb e n (some m)
  election_step lele_lagged n m keys = ok n

  -- Messages for the view behind the current one are for this election; a sender that is one view
  -- behind is told; others are passed over.
  unfoldable pub handle_leader_election_msg :
      Node bdb.Store → LeleMsg → List ℕ → Outcome (Node bdb.Store)
  unfolding close_for_lagged
  handle_leader_election_msg n m keys =
      elim (m.next_view == (n.comp.cur_view.view_id + 1) % 2 ^ 32) [
        | false ↦ elim (m.next_view == n.comp.cur_view.view_id) [
          | true ↦ close_for_lagged n m
          | false ↦ ok n
        ]
        | true ↦ elim (in_an_election n.state) [
          | true ↦ election_step m.kind n m keys
          | false ↦ ok n
        ]
      ]

  -- The types: PING_REQ 0, PING_ACK 1, REQUEST_SUBMIT 2, CONSENSUS_MSG 5, LEADER_ELECTION_MSG 16.
  unfoldable pub handle_typed : Layout → ℕ → Node bdb.Store → List ℕ → Outcome (Node bdb.Store)
  handle_typed l zero n msg_buf = elim (is_post n.state) [
    | true ↦ ok n
    | false ↦ handle_ping_req bdb e n (l.as_ping msg_buf)
  ]
  handle_typed l (suc zero) n msg_buf = elim (is_post n.state) [
    | true ↦ ok n
    | false ↦ handle_ping_ack bdb e n (l.as_ping msg_buf)
  ]
  handle_typed l (suc (suc zero)) n msg_buf = elim (is_active n.state) [
    | true ↦ read_word 8 8 msg_buf >>= λ data_size.
        handle_request_submit bdb e n data_size (drop header_size msg_buf)
    | false ↦ ok n
  ]
  handle_typed l (suc (suc (suc code))) n msg_buf = elim (code == 2) [
    | true ↦ elim (is_active n.state) [
      | true ↦ handle_consensus_msg bdb e n (l.as_consensus msg_buf)
      | false ↦ ok n
    ]
    | false ↦ elim ((code == 13) && in_an_election n.state) [
      | true ↦ let m = l.as_lele msg_buf in handle_leader_election_msg n m.0 m.1
      | false ↦ ok n
    ]
  ]

  -- The message that the buffer starts with has been moved to memory of its size. Without that memory
  -- nothing is taken from the buffer, and the caller's loop comes back for ever.
  unfoldable pub handle_msg : Layout → Node bdb.Store → List ℕ → Outcome (Node bdb.Store)
  unfolding handle_typed
  handle_msg l n msg_buf = elim (e.env.malloc (length msg_buf)) [
    | false ↦ crash never_ends
    | true ↦ read_word 0 4 msg_buf >>= λ type. handle_typed l type n msg_buf
  ]

  -- The node, and what stays in the buffer of the connection.
  unfoldable pub replica_on_read :
      Layout → Node bdb.Store → List ℕ → Outcome (Node bdb.Store × List ℕ)
  unfolding handle_msg
  replica_on_read l n buf = elim (e.env.malloc header_size) [
    | false ↦ ok (n, buf)
    | true ↦ read_all replica_frame_size (handle_msg l) n buf
  ]
