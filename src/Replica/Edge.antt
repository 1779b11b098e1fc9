-- ===== src/Replica/Edge.antt =====
-- The end of an election in src/replica-sys/replica.c: how the new leader, and the others, look for
-- the record numbers that they miss in the old view.
use libevent_paxos.Base.{
  ℕ, zero, suc, ◌+◌, ◌-◌, ◌*◌, ◌%◌, ◌^◌, Bool, true, false, eqb_ℤ, List, [], ◌∷◌, ◌++◌, ◌==◌,
  if◌then◌else◌, ltb, Option, none, some, Outcome, ok, crash, assert_failed, out_of_bounds,
  null_deref, never_ends, ◌>>=◌, set, length, replicate, drop, pos,
}
use libevent_paxos.Stamp.{vstol}
use libevent_paxos.Db.{Bdb, retrieve_record}
use libevent_paxos.Replica.Message.{
  LeleMsg, lele_announce_ack, SysMsg, lele, lele_edge, no_req, lele_msg_size,
}
use libevent_paxos.Replica.Node.{
  Node, NodeEnv, node_postlele, LeleMod, EdgeMod, act, timer_add, timer_del, slient_period,
  wait_for_net_lele, index_of, send_to_one_node, with_mod, put_mod,
}

abbrev pub default_req_length : ℕ
default_req_length = 20

module _ (bdb : Bdb) where
  -- Whether record `key` of the current view is absent. (The code resets its pointer in each round.)
  unfoldable pub is_missing : Node bdb.Store → ℕ → Bool
  is_missing n key =
      elim (retrieve_record bdb n.comp.db
        (vstol (record { view_id = n.comp.cur_view.view_id; req_id = key }))).1 [
          | none ↦ true
          | some bytes ↦ false
        ]

  -- The leader's loop: each absent number takes the next slot, of which there must be one left.
  unfoldable pub leader_edge_loop : Node bdb.Store → ℕ → ℕ → List ℕ → EdgeMod → Outcome EdgeMod
  leader_edge_loop n zero key slots edge = ok (record edge { req_edge = some slots })
  leader_edge_loop n (suc rounds) key slots edge = elim (is_missing n key) [
    | false ↦ leader_edge_loop n rounds (suc key) slots edge
    | true ↦ elim (ltb edge.cur_empty_slots edge.max_empty_slots) [
      | false ↦ crash assert_failed
      | true ↦
          leader_edge_loop n rounds (suc key) (set slots edge.cur_empty_slots key)
            (record edge { cur_empty_slots = edge.cur_empty_slots + 1 })
    ]
  ]

  -- A loop up to the last number of a word never ends by itself: the number wraps around.
  abbrev left_by_end : EdgeMod → Outcome EdgeMod
  left_by_end edge = if edge.last == no_req then crash never_ends else ok edge

  -- The leader counts itself among the nodes heard from.
  unfoldable pub leader_election_leader_cal_edge :
      Node bdb.Store → List ℕ → List ℕ → EdgeMod → Outcome EdgeMod
  leader_election_leader_cal_edge n counts slots edge = elim (index_of n.node_id (length counts)) [
    | none ↦ crash out_of_bounds
    | some me ↦
        leader_edge_loop n (suc edge.last - edge.start) edge.start slots
          (record edge { msg_count = some (set counts me 1) })
        >>= left_by_end
  ]

  abbrev first_open : Node bdb.Store → ℕ
  first_open n =
      if n.comp.highest_seen.view_id == n.comp.highest_to_commit.view_id
      then n.comp.highest_to_commit.req_id
      else 0

  -- The range of record numbers that may be open, and the number of slots: `int` of a word.
  unfoldable pub edge_range : Node bdb.Store → EdgeMod → EdgeMod
  edge_range n edge =
      if n.comp.highest_seen.view_id == n.comp.cur_view.view_id
      then record edge {
        start = first_open n;
        last = n.comp.highest_seen.req_id;
        max_empty_slots =
            ((n.comp.highest_seen.req_id + 2 ^ 32 - first_open n) * 2 + default_req_length)
            % 2 ^ 32;
      }
      else record edge { start = 0; last = no_req; max_empty_slots = default_req_length * 5 }

  -- Arrays that are there from an earlier election are cleared and kept; the new length may be larger
  -- than the array that was allocated then, and `memset` writes past it.
  unfoldable pub clear_slots : NodeEnv → EdgeMod → Outcome (Option (List ℕ))
  clear_slots e edge = elim edge.req_edge [
    | none ↦
        if e.env.malloc (4 * edge.max_empty_slots)
        then ok (some (replicate edge.max_empty_slots 0))
        else ok none
    | some slots ↦
        if ltb (length slots) edge.max_empty_slots
        then crash out_of_bounds
        else ok (some (replicate edge.max_empty_slots 0 ++ drop edge.max_empty_slots slots))
  ]

  unfoldable pub clear_counts : NodeEnv → ℕ → EdgeMod → Option (List ℕ)
  clear_counts e group_size edge = elim edge.msg_count [
    | none ↦ if e.env.malloc (4 * group_size) then some (replicate group_size 0) else none
    | some counts ↦ some (replicate group_size 0)
  ]

  -- A failed allocation gives both arrays up.
  abbrev no_edge : EdgeMod → EdgeMod
  no_edge edge = record edge { start = no_req; req_edge = none; msg_count = none }

  unfoldable pub leader_election_initialize_edge_mod :
      NodeEnv → Node bdb.Store → Outcome (Node bdb.Store)
  unfolding edge_range clear_slots clear_counts
  leader_election_initialize_edge_mod e n = with_mod n λ lm.
      let edge = edge_range n lm.edge in
      clear_slots e edge >>= λ cleared. elim cleared [
        | none ↦ ok (put_mod n (record lm { edge = no_edge edge }))
        | some slots ↦ elim (clear_counts e n.group_size edge) [
          | none ↦ ok (put_mod n (record lm { edge = no_edge edge }))
          | some counts ↦ leader_election_leader_cal_edge n counts slots edge >>= λ edge'.
              ok (put_mod n (record lm { edge = edge' }))
        ]
      ]

  -- The absent numbers among `rounds` from `key`, in order. There is room for `room` of them.
  unfoldable pub edge_loop : Node bdb.Store → ℕ → ℕ → ℕ → Outcome (List ℕ)
  edge_loop n room zero key = ok []
  edge_loop n room (suc rounds) key = elim (is_missing n key) [
    | false ↦ edge_loop n room rounds (suc key)
    | true ↦ elim room [
      | zero ↦ crash out_of_bounds
      | suc left ↦ edge_loop n left rounds (suc key) >>= λ keys. ok (key ∷ keys)
    ]
  ]

  abbrev announce_ack : NodeEnv → Node bdb.Store → LeleMod → ℕ → ℕ → LeleMsg
  announce_ack e n lm start last = record e.fresh_msg {
    kind = lele_announce_ack;
    start_req = start;
    last_req = last;
    next_view = lm.next_view;
    content = lm.new_leader;
    node_id = n.node_id;
  }

  -- The answer is sent, kept for later turns, and the timer is set anew.
  abbrev reply_edge : Node bdb.Store → LeleMod → SysMsg → Outcome (Node bdb.Store)
  reply_edge n lm m = send_to_one_node n lm.new_leader m >>= λ n'. ok (
      act (act (put_mod n' (record lm { announce_ack_msg = some m })) (timer_del slient_period))
        (timer_add slient_period wait_for_net_lele))

  -- The numbers are written to the message before its address is tested.
  abbrev report_keys :
      NodeEnv → Node bdb.Store → LeleMod → LeleMsg → List ℕ → Outcome (Node bdb.Store)
  report_keys e n lm m keys =
      if e.env.malloc (lele_msg_size + 4 * length keys)
      then reply_edge n lm (lele_edge (record m { pnum = pos (length keys) }) keys)
      else if length keys == 0
      then ok n
      else crash null_deref

  -- A node that is not the new leader reports the range that it knows. (Its loop runs over the range
  -- in the module, not over the one computed here.)
  unfoldable pub leader_election_cal_edge : NodeEnv → Node bdb.Store → Outcome (Node bdb.Store)
  unfolding edge_range
  leader_election_cal_edge e n = with_mod n λ lm.
      let range = edge_range n lm.edge in
      let m = announce_ack e n lm range.start range.last in
      if range.last == no_req
      then if e.env.malloc lele_msg_size then reply_edge n lm (lele m) else ok n
      else if e.env.malloc (4 * range.max_empty_slots)
      then (edge_loop n range.max_empty_slots (suc lm.edge.last - lm.edge.start) lm.edge.start
          >>= λ keys. report_keys e n lm m keys)
      else crash null_deref

  unfoldable pub leader_election_enter_post_stage :
      Node bdb.Store → LeleMsg → Outcome (Node bdb.Store)
  leader_election_enter_post_stage n m =
      with_mod n λ lm.
        ok (record (put_mod n (record lm { new_leader = m.content })) { state = node_postlele })

  unfoldable pub leader_election_handle_announce :
      NodeEnv → Node bdb.Store → LeleMsg → Outcome (Node bdb.Store)
  leader_election_handle_announce e n m = leader_election_enter_post_stage n m >>= λ n'.
      with_mod n' λ lm.
        if eqb_ℤ lm.new_leader n'.node_id
        then leader_election_initialize_edge_mod e n'
        else leader_election_cal_edge e n'
