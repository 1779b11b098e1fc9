-- ===== src/Replica/Election.antt =====
-- The election of a leader in src/replica-sys/replica.c: proposer, acceptor and learner, and the
-- builder of election messages in src/replica-sys/message.c.
pub mod Roles
pub mod Learner
pub mod Acceptor
pub mod Proposer
use libevent_paxos.Base.{
  ℕ, zero, suc, ◌+◌, ◌*◌, ◌/◌, ◌%◌, ◌^◌, ◌-◌, Bool, true, false, not, ◌&&◌, ◌||◌, ℤ, pos, negsuc,
  eqb_ℤ, ltb_ℤ, add_ℕ, sub_ℕ, List, [], ◌∷◌, ◌++◌, ◌==◌, ltb, leb, if◌then◌else◌, Option, none,
  some, Outcome, ok, crash, assert_failed, out_of_bounds, null_deref, never_ends, ◌>>=◌, set,
  get_or, length, replicate, le_bytes, map,
}
use libevent_paxos.Db.{Bdb, store_record}
use libevent_paxos.Replica.Message.{
  LeleMsg, LeleMsgType, lele_prepare, lele_prepare_ack, lele_accept, lele_accept_ack, lele_announce,
  lele_announce_ack, lele_fin, lele_lagged, lele_higher_node, SysMsg, lele, no_req, lele_msg_size,
}
use libevent_paxos.Replica.Node.{
  Node, NodeEnv, NodeState, node_inlele, node_postlele, ProposerRecord, AcceptedRecord,
  AcceptorRecord, LeleMod, EdgeMod, act, timer_add, timer_del, slient_period, first_proposer_lele,
  wait_for_net_lele, stop_by_other_lele, index_of, send_to_one_node, send_to_other_nodes, with_mod,
  put_mod,
}
use libevent_paxos.Replica.Edge.{leader_election_handle_announce}

abbrev pub minus_one : ℤ
minus_one = negsuc 0

-- The fields that each kind sets over those of `m`; `corr` is the message that an accept or an
-- announcement repeats.
unfoldable pub lele_fields : LeleMod → LeleMsg → LeleMsg → LeleMsgType → LeleMsg
lele_fields lm corr m lele_prepare = record m {
  kind = lele_prepare;
  pnum = lm.next_pnum;
  content = minus_one;
  p_pnum = minus_one;
}
lele_fields lm corr m lele_prepare_ack = record m {
  kind = lele_prepare_ack;
  pnum = lm.acceptor.accepted_pnum;
  content = lm.acceptor.content;
  p_pnum = lm.acceptor.highest_seen_pnum;
}
lele_fields lm corr m lele_accept = record m {
  kind = lele_accept;
  pnum = corr.pnum;
  content = corr.content;
  p_pnum = minus_one;
}
lele_fields lm corr m lele_accept_ack = record m {
  kind = lele_accept_ack;
  pnum = lm.acceptor.accepted_pnum;
  content = lm.acceptor.content;
  last_req = no_req;
}
lele_fields lm corr m lele_announce = record m {
  kind = lele_announce;
  pnum = corr.pnum;
  content = corr.content;
  last_req = corr.last_req;
}
lele_fields lm corr m lele_lagged = record m {
  kind = lele_lagged;
  next_view = corr.next_view;
  content = corr.content;
}
lele_fields lm corr m other = m

-- An election message. Fields that a kind does not set stay as fresh memory holds them. The header is
-- written before the address is tested for NULL.
unfoldable pub build_lele_msg : NodeEnv → ℤ → LeleMod → LeleMsgType → LeleMsg → Outcome LeleMsg
unfolding lele_fields
build_lele_msg e node_id lm kind corr =
    if e.env.malloc lele_msg_size
    then ok (
        lele_fields lm corr (record e.fresh_msg { node_id = node_id; next_view = lm.next_view })
          kind)
    else crash null_deref

abbrev no_accepted : AcceptedRecord → AcceptedRecord
no_accepted r = record r { pnum = minus_one }

abbrev no_proposed : ProposerRecord → ProposerRecord
no_proposed r = record r { content = minus_one; a_pnum = minus_one }

-- Every learner and proposer slot is emptied, and the acceptor's content with them.
unfoldable pub refresh_leader_election : ℕ → LeleMod → LeleMod
refresh_leader_election group_size lm = if group_size == 0 then lm else record lm {
  learner_arr = map no_accepted lm.learner_arr;
  proposer_arr = map no_proposed lm.proposer_arr;
  acceptor = record acceptor { content = minus_one };
}
  where
    open lm use {acceptor}

-- The module after its `memset` to 0; the two arrays hold what fresh memory does.
abbrev fresh_mod : List AcceptedRecord → List ProposerRecord → LeleMod
fresh_mod learners proposers = record {
  final_state = 0;
  next_view = 0;
  new_leader = pos 0;
  next_pnum = pos 0;
  edge = record {
    msg_count = none;
    req_edge = none;
    start = no_req;
    last = 0;
    cur_empty_slots = 0;
    max_empty_slots = 0;
  };
  acceptor = record { highest_seen_pnum = pos 0; accepted_pnum = pos 0; content = pos 0 };
  learner_arr = learners;
  proposer_arr = proposers;
  announce_ack_msg = none;
}

-- `sizeof` of the module and of the records in its arrays.
abbrev lele_mod_size : ℕ
lele_mod_size = 112

abbrev slot_size : ℕ
slot_size = 24

-- `memset` runs before the address of the module is tested; arrays that cannot be allocated give the
-- module up.
unfoldable pub initialize_leader_election_mod :
    NodeEnv → ℕ → List AcceptedRecord → List ProposerRecord → Outcome (Option LeleMod)
initialize_leader_election_mod e group_size learners proposers =
    if e.env.malloc lele_mod_size
    then if e.env.malloc (group_size * slot_size)
      then ok (some (fresh_mod learners proposers))
      else ok none
    else crash null_deref

module _ {S : Type 0} where
  -- With no module the state changes, and nothing else.
  abbrev start_election : Node S → Option LeleMod → Node S
  start_election n none = record n { state = node_inlele; election_mod = none }
  start_election n (some lm) =
      act
        (record n {
          state = node_inlele;
          election_mod = some (
              refresh_leader_election n.group_size (record lm {
                next_view = (n.comp.cur_view.view_id + 1) % 2 ^ 32;
                next_pnum = n.node_id;
              }));
        })
        (timer_add slient_period first_proposer_lele)

  -- An election starts for the view behind the current one, with the node's own id as first number.
  unfoldable pub initialize_leader_election :
      NodeEnv → List AcceptedRecord → List ProposerRecord → Node S → Outcome (Node S)
  unfolding refresh_leader_election
  initialize_leader_election e learners proposers n = elim n.election_mod [
    | some old ↦ ok (start_election n (some old))
    | none ↦ initialize_leader_election_mod e n.group_size learners proposers >>= λ o.
        ok (start_election n o)
  ]
