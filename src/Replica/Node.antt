-- ===== src/Replica/Node.antt =====
-- The node of src/replica-sys/replica.c: its state, its election module, and the ways it sends.
-- `comp` holds the view, the stamps and the database that node and component share. A node stands
-- here as `initialize_node` leaves it, with its component.
use libevent_paxos.Base.{
  ℕ, zero, suc, Bool, true, false, not, ◌&&◌, ℤ, pos, negsuc, eqb_ℤ, List, [], ◌∷◌, ◌++◌,
  if◌then◌else◌, Option, none, some, Outcome, ok, crash, out_of_bounds, null_deref, get_or, length,
  ltb, set,
}
use libevent_paxos.Stamp.{View, Timeval}
use libevent_paxos.Consensus.Record.{Env}
use libevent_paxos.Consensus.State.{Comp}
use libevent_paxos.Replica.Message.{LeleMsg, SysMsg}

pub data NodeState : Type 0 where
  node_active : NodeState
  node_inlele : NodeState
  node_postlele : NodeState
  node_waitforsync : NodeState

pub record ProposerRecord : Type 0 where
  pub p_pnum : ℤ
  pub a_pnum : ℤ
  pub content : ℤ

pub record AcceptedRecord : Type 0 where
  pub pnum : ℤ
  pub content : ℤ
  pub last_req : ℕ

pub record AcceptorRecord : Type 0 where
  pub highest_seen_pnum : ℤ
  pub accepted_pnum : ℤ
  pub content : ℤ

-- `none` is a NULL array.
pub record EdgeMod : Type 0 where
  pub msg_count : Option (List ℕ)
  pub req_edge : Option (List ℕ)
  pub start : ℕ
  pub last : ℕ
  pub cur_empty_slots : ℕ
  pub max_empty_slots : ℕ

pub record LeleMod : Type 0 where
  pub final_state : ℕ
  pub next_view : ℕ
  pub new_leader : ℤ
  pub next_pnum : ℤ
  pub edge : EdgeMod
  pub acceptor : AcceptorRecord
  pub learner_arr : List AcceptedRecord
  pub proposer_arr : List ProposerRecord
  pub announce_ack_msg : Option SysMsg

pub data Timer : Type 0 where
  slient_period : Timer
  ev_leader_ping : Timer
  ev_expect_ping : Timer
  ev_make_progress : Timer
  ev_reconnect : ℕ → Timer

-- What a node does to its surroundings: bytes for a peer, timers set and taken back, connections to
-- peers made and freed.
pub data Effect : Type 0 where
  write_to : ℕ → SysMsg → Effect
  timer_add : Timer → Timeval → Effect
  timer_del : Timer → Effect
  connect_to_peer : ℕ → Effect
  free_peer : ℕ → Effect

pub record Node (S : Type 0) : Type 0 where
  pub node_id : ℤ
  pub group_size : ℕ
  pub comp : Comp S
  pub state : NodeState
  pub election_mod : Option LeleMod
  pub active : List Bool
  pub last_ping_msg : Timeval
  pub has_leader_ping : Bool
  pub has_expect_ping : Bool
  pub has_make_progress : Bool
  pub ping_timeval : Timeval
  pub expect_ping_timeval : Timeval
  pub make_progress_timeval : Timeval
  pub reconnect_timeval : Timeval
  pub effects : List Effect

-- The surroundings of a component, what the fields of a fresh election message hold, and the bytes
-- of the stack at the address of a pointer variable.
pub record NodeEnv : Type 0 where
  pub env : Env
  pub fresh_msg : LeleMsg
  pub stack_bytes : List ℕ

abbrev pub seconds : ℕ → Timeval
seconds n = record { tv_sec = n; tv_usec = 0 }

abbrev pub first_proposer_lele : Timeval
first_proposer_lele = seconds 1

abbrev pub wait_for_net_lele : Timeval
wait_for_net_lele = seconds 3

abbrev pub stop_by_other_lele : Timeval
stop_by_other_lele = seconds 10

-- The place in an array that a node id names, if it is one of `n`.
unfoldable pub index_of : ℤ → ℕ → Option ℕ
index_of (pos i) n = if ltb i n then some i else none
index_of (negsuc i) n = none

-- One turn for each peer from `i` on: the active ones but the node itself get the message.
unfoldable pub writes_from : ℤ → ℕ → List Bool → SysMsg → List Effect
writes_from self i [] m = []
writes_from self i (up ∷ ups) m =
    if not (eqb_ℤ (pos i) self) && up
    then write_to i m ∷ writes_from self (suc i) ups m
    else writes_from self (suc i) ups m

module _ {S : Type 0} where
  abbrev pub act : Node S → Effect → Node S
  act n e = record n { effects = n.effects ++ e ∷ [] }

  abbrev pub cur_view : Node S → View
  cur_view n = n.comp.cur_view

  unfoldable pub is_leader : Node S → Bool
  is_leader n = eqb_ℤ n.comp.cur_view.leader_id n.node_id

  unfoldable pub send_to_other_nodes : Node S → SysMsg → Node S
  send_to_other_nodes n m = record n { effects = n.effects ++ writes_from n.node_id 0 n.active m }

  -- The peer's slot is read with no test of the number.
  unfoldable pub send_to_one_node : Node S → ℤ → SysMsg → Outcome (Node S)
  send_to_one_node n target m = elim (index_of target (length n.active)) [
    | none ↦ crash out_of_bounds
    | some i ↦ ok (if get_or n.active i false then act n (write_to i m) else n)
  ]

  unfoldable pub initialize_leader_ping : Node S → Node S
  initialize_leader_ping n =
      let n' = if n.has_expect_ping then act n (timer_del ev_expect_ping) else n in
      act (record n' { has_leader_ping = true }) (timer_add ev_leader_ping n.ping_timeval)

  unfoldable pub initialize_expect_ping : Node S → Node S
  initialize_expect_ping n =
      let n' = if n.has_leader_ping then act n (timer_del ev_leader_ping) else n in
      act (act (record n' { has_expect_ping = true }) (timer_del ev_expect_ping))
        (timer_add ev_expect_ping n.expect_ping_timeval)

-- The connections to peers: they are reported to be up, or lost, and are then made again later.
module _ {S : Type 0} where
  unfoldable pub connect_peer : ℕ → Node S → Node S
  connect_peer i n = act n (connect_to_peer i)

  unfoldable pub peer_node_on_timeout : ℕ → Node S → Node S
  unfolding connect_peer
  peer_node_on_timeout i n = connect_peer i n

  abbrev pub connect_others : ℕ → ℕ → Node S → Node S
  connect_others zero i n = n
  connect_others (suc rounds) i n =
      let n' = connect_peer i n in
      let skipped = connect_others rounds (suc i) n in
      let connected = connect_others rounds (suc i) n' in
      if eqb_ℤ (pos i) n.node_id then skipped else connected

  unfoldable pub connect_peers : Node S → Node S
  connect_peers n = connect_others n.group_size 0 n

  -- `connected` and `lost` (EOF or an error) are the bits of the event.
  unfoldable pub peer_node_on_event : ℕ → Bool → Bool → Node S → Node S
  peer_node_on_event i true lost n = record n { active = set n.active i true }
  peer_node_on_event i false true n =
      act (act (record n { active = set n.active i false }) (free_peer i))
        (timer_add (ev_reconnect i) n.reconnect_timeval)
  peer_node_on_event i false false n = n

  -- `event_new` is taken to succeed.
  unfoldable pub initialize_leader_make_progress : Node S → Node S
  initialize_leader_make_progress n =
      act (record n { has_make_progress = true })
        (timer_add ev_make_progress n.make_progress_timeval)

-- `mod` points to the election module of its node: reads go through it, and `put_mod` writes it back.
module _ {S T : Type 0} where
  abbrev pub with_mod : Node S → (LeleMod → Outcome T) → Outcome T
  with_mod n f = elim n.election_mod [ none ↦ crash null_deref | some lm ↦ f lm ]

module _ {S : Type 0} where
  abbrev pub put_mod : Node S → LeleMod → Node S
  put_mod n lm = record n { election_mod = some lm }
