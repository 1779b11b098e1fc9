-- ===== src/Replica/View.antt =====
-- Views and pings in src/replica-sys/replica.c: the change to the next view, the roles that follow
-- from it, and the pings by which nodes learn of it; the ping builders of src/replica-sys/message.c.
pub mod Enter
use libevent_paxos.Base.{
  ℕ, ◌+◌, ◌-◌, ◌%◌, ◌^◌, Bool, true, false, ℤ, pos, eqb_ℤ, ltb_ℤ, List, [], ◌∷◌, ◌++◌, ◌==◌,
  if◌then◌else◌, Option, none, some, Outcome, ok, crash, assert_failed, out_of_bounds, null_deref,
  ◌>>=◌, get_or, length, take,
}
use libevent_paxos.Stamp.{View, ViewStamp, vstol, timeval_comp}
use libevent_paxos.Db.{Bdb, store_record, delete_record}
use libevent_paxos.Consensus.Message.{ConsensusMsg}
use libevent_paxos.Consensus.State.{
  Comp, Output, up_call, user_cb_key, user_cb_data, consensus_update_role,
}
use libevent_paxos.Consensus.Handle.{consensus_handle_msg}
use libevent_paxos.Consensus.Submit.{consensus_submit_request}
use libevent_paxos.Consensus.Progress.{consensus_make_progress}
use libevent_paxos.Replica.Message.{SysMsg, PingMsg, ping_req, ping_ack, consensus_msg}
use libevent_paxos.Replica.Node.{
  Node, NodeEnv, NodeState, node_active, node_inlele, act, timer_add, timer_del, ev_leader_ping,
  ev_expect_ping, ev_make_progress, is_leader, index_of, send_to_one_node, send_to_other_nodes,
  initialize_leader_ping, initialize_expect_ping,
}

abbrev pub sizeof_view : ℕ
sizeof_view = 24

module _ {S : Type 0} where
  -- The component takes its role and its stamps from the new view.
  abbrev with_comp : Node S → Comp S → Node S
  with_comp n c = record n { comp = c }

  unfoldable pub become_leader : Node S → Node S
  become_leader n = initialize_leader_ping (with_comp n (consensus_update_role n.comp))

  unfoldable pub become_secondary : Node S → Node S
  become_secondary n = initialize_expect_ping (with_comp n (consensus_update_role n.comp))

  abbrev pub enter_view : Node S → View → Node S
  enter_view n v =
      let comp = n.comp in record n { comp = record comp { cur_view = v }; state = node_active }

  unfoldable pub take_role : Node S → Node S
  unfolding become_leader become_secondary
  take_role n = if is_leader n then become_leader n else become_secondary n

  unfoldable pub build_ping_req : NodeEnv → Node S → Outcome SysMsg
  build_ping_req e n =
      if e.env.malloc 64
      then ok
          (ping_req (record { node_id = n.node_id; view = n.comp.cur_view; timestamp = e.env.now }))
      else crash null_deref

  unfoldable pub build_ping_ack : NodeEnv → Node S → Option SysMsg
  build_ping_ack e n =
      if e.env.malloc 64
      then some
          (ping_ack (record { node_id = n.node_id; view = n.comp.cur_view; timestamp = e.env.now }))
      else none

module _ (bdb : Bdb) (e : NodeEnv) where
  -- The records of a new view: what is stored under the view's first stamp is the memory at the
  -- address of the pointer to it, not the view; the record behind the last request of the old view is
  -- deleted. A store that fails ten times stops the process.
  unfoldable pub record_view : Comp bdb.Store → View → Outcome (Comp bdb.Store)
  record_view c v =
      let (failed, db') =
        store_record bdb c.db (vstol (record { view_id = v.view_id; req_id = 0 }))
          (take sizeof_view e.stack_bytes) in
      let last : ViewStamp = record {
        view_id = (v.view_id + 2 ^ 32 - 1) % 2 ^ 32;
        req_id = (v.req_id + 1) % 2 ^ 32;
      } in
      if failed == 0
      then ok (record c { db = (delete_record bdb db' (vstol last)).1 })
      else crash assert_failed

  abbrev store_unless_first : Node bdb.Store → View → Outcome (Node bdb.Store)
  store_unless_first n v =
      if v.view_id == 1 then ok n else (record_view n.comp v >>= λ c. ok (record n { comp = c }))

  -- Only the view behind the current one is entered.
  unfoldable pub update_view : Node bdb.Store → View → Outcome (Node bdb.Store)
  update_view n v =
      if (n.comp.cur_view.view_id + 1) % 2 ^ 32 == v.view_id
      then (store_unless_first n v >>= λ n'. ok (take_role (enter_view n' v)))
      else ok n

  -- A node that answers a ping from a view behind its own sends its view back.
  unfoldable pub handle_ping_ack : Node bdb.Store → PingMsg → Outcome (Node bdb.Store)
  handle_ping_ack n m =
      if n.comp.cur_view.view_id == (m.view.view_id + 1) % 2 ^ 32
      then update_view n m.view
      else ok n

  unfoldable pub answer_lagged : Node bdb.Store → PingMsg → Outcome (Node bdb.Store)
  answer_lagged n m = elim (index_of m.node_id (length n.active)) [
    | none ↦ crash out_of_bounds
    | some i ↦
        if get_or n.active i false
        then elim (build_ping_ack e n) [ none ↦ ok n | some a ↦ send_to_one_node n m.node_id a ]
        else ok n
  ]

  abbrev in_election : NodeState → Bool
  in_election node_inlele = true
  in_election other = false

  -- A ping in the current view ends an unfinished election; a node that does not lead notes the time
  -- and waits anew.
  unfoldable pub same_view_ping : Node bdb.Store → PingMsg → Node bdb.Store
  same_view_ping n m =
      let n' = if in_election n.state then record n { state = node_active } else n in
      if is_leader n
      then n'
      else let seen = record n' {
        last_ping_msg =
            if ltb_ℤ (timeval_comp n.last_ping_msg m.timestamp) (pos 0)
            then m.timestamp
            else n.last_ping_msg;
      } in
        (if n.has_expect_ping
          then act (act seen (timer_del ev_expect_ping))
              (timer_add ev_expect_ping n.expect_ping_timeval)
          else seen)

  unfoldable pub handle_ping_req : Node bdb.Store → PingMsg → Outcome (Node bdb.Store)
  handle_ping_req n m =
      if (n.comp.cur_view.view_id + 1) % 2 ^ 32 == m.view.view_id
      then update_view n m.view
      else if n.comp.cur_view.view_id == (m.view.view_id + 1) % 2 ^ 32
      then answer_lagged n m
      else if n.comp.cur_view.view_id == m.view.view_id
      then ok (same_view_ping n m)
      else ok n

  -- `send_for_consensus_comp`: an up call becomes a message to one node or, below 0, to all others.
  unfoldable pub send_for_consensus_comp :
      Node bdb.Store → ConsensusMsg → ℤ → Outcome (Node bdb.Store)
  send_for_consensus_comp n m target =
      if ltb_ℤ target (pos 0)
      then ok (send_to_other_nodes n (consensus_msg m))
      else send_to_one_node n target (consensus_msg m)

  -- The up calls of a component in their order; a message of `size` bytes that finds no memory is lost.
  unfoldable pub flush : List Output → Node bdb.Store → Outcome (Node bdb.Store)
  flush [] n = ok n
  flush (up_call size m target ∷ os) n =
      (if e.env.malloc (16 + size) then send_for_consensus_comp n m target else ok n) >>= flush os
  flush (user_cb_key k ∷ os) n = flush os n
  flush (user_cb_data size bytes ∷ os) n = flush os n

  -- The component at work for the node: its calls so far are set aside, and the new ones sent.
  abbrev run_comp :
      Node bdb.Store → (Comp bdb.Store → Outcome (Comp bdb.Store)) → Outcome (Node bdb.Store)
  run_comp n f =
      let comp = n.comp in
      f (record comp { out = [] }) >>= λ c.
      flush c.out (record n { comp = record c { out = comp.out ++ c.out } })

  unfoldable pub handle_consensus_msg : Node bdb.Store → ConsensusMsg → Outcome (Node bdb.Store)
  handle_consensus_msg n m = run_comp n (λ c. consensus_handle_msg bdb e.env c m)

  unfoldable pub handle_request_submit : Node bdb.Store → ℕ → List ℕ → Outcome (Node bdb.Store)
  handle_request_submit n data_size mem =
      run_comp n (λ c. consensus_submit_request bdb e.env c data_size mem >>= λ s. ok s.comp)

  -- The timers. A leader pings the others; one that leads no more waits for pings.
  unfoldable pub leader_ping_period : Node bdb.Store → Outcome (Node bdb.Store)
  leader_ping_period n =
      if eqb_ℤ n.comp.cur_view.leader_id n.node_id
      then (build_ping_req e n >>= λ m.
          let n' = send_to_other_nodes n m in
          ok (if n.has_leader_ping then act n' (timer_add ev_leader_ping n.ping_timeval) else n'))
      else ok (if n.has_leader_ping then initialize_expect_ping n else n)

  unfoldable pub make_progress_on : Node bdb.Store → Outcome (Node bdb.Store)
  make_progress_on n =
      if eqb_ℤ n.comp.cur_view.leader_id n.node_id
      then (run_comp n (consensus_make_progress bdb e.env) >>= λ n'. ok (
          if n.has_make_progress
          then act n' (timer_add ev_make_progress n.make_progress_timeval)
          else n'))
      else ok (
          if n.has_make_progress
          then act n (timer_add ev_make_progress n.make_progress_timeval)
          else n)
