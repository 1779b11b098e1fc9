-- ===== src/Replica/View/Enter.antt =====
-- What the change of a view does, and which pings lead to one.
use libevent_paxos.Base.{
  ℕ, ◌+◌, ◌%◌, ◌^◌, ◌≡◌, ◌≢◌, refl, sym, ap, subst, ◌∙◌, ◌⊎◌, inl, inr, ◌==◌, arith, Bool-cases, ok,
  >>=-eq-ok, ok-injective, ==→eq,
}
use libevent_paxos.Stamp.{View}
use libevent_paxos.Db.{Bdb}
use libevent_paxos.Consensus.State.{consensus_update_role, role_of, view_start}
use libevent_paxos.Replica.Message.{PingMsg}
use libevent_paxos.Replica.Node.{
  Node, NodeEnv, node_active, is_leader, initialize_leader_ping, initialize_expect_ping,
}
use libevent_paxos.Replica.View.{
  become_leader, become_secondary, enter_view, take_role, update_view, handle_ping_ack,
}

module _ {S : Type 0} where
  -- A node in a view: its component's role and stamps are those of the view, and no election is on.
  pub record Entered (n : Node S) (v : View) : Type 0 where
    pub view : n.comp.cur_view ≡ v
    pub role : n.comp.my_role ≡ role_of v n.comp.node_id
    pub seen : n.comp.highest_seen ≡ view_start v.view_id
    pub to_commit : n.comp.highest_to_commit ≡ view_start v.view_id
    pub committed : n.comp.highest_committed ≡ view_start v.view_id
    pub settled : n.state ≡ node_active

  Entered-by :
      (n m : Node S) (v : View)
      → m.comp ≡ consensus_update_role (enter_view n v).comp
      → m.state ≡ node_active
      → Entered m v
  unfolding consensus_update_role
  Entered-by n m v comp settled = record {
    view = ap (λ c. c.cur_view) comp;
    role = ap (λ c. c.my_role) comp ∙ ap (role_of v) (sym (ap (λ c. c.node_id) comp));
    seen = ap (λ c. c.highest_seen) comp;
    to_commit = ap (λ c. c.highest_to_commit) comp;
    committed = ap (λ c. c.highest_committed) comp;
    settled = settled;
  }

  leader_ping_frame :
      (n : Node S)
      → ((initialize_leader_ping n).comp ≡ n.comp) × ((initialize_leader_ping n).state ≡ n.state)
  unfolding initialize_leader_ping
  leader_ping_frame n = elim (Bool-cases n.has_expect_ping) [
    | inl there ↦ rw there (refl, refl)
    | inr off ↦ rw off (refl, refl)
  ]

  expect_ping_frame :
      (n : Node S)
      → ((initialize_expect_ping n).comp ≡ n.comp) × ((initialize_expect_ping n).state ≡ n.state)
  unfolding initialize_expect_ping
  expect_ping_frame n = elim (Bool-cases n.has_leader_ping) [
    | inl there ↦ rw there (refl, refl)
    | inr off ↦ rw off (refl, refl)
  ]

  take_role-Entered : (n : Node S) (v : View) → Entered (take_role (enter_view n v)) v
  unfolding take_role become_leader become_secondary
  take_role-Entered n v = elim (Bool-cases (is_leader (enter_view n v))) [
    | inl leads ↦ rw leads (Entered-by n _ v (leader_ping_frame _).0 (leader_ping_frame _).1)
    | inr follows ↦ rw follows (Entered-by n _ v (expect_ping_frame _).0 (expect_ping_frame _).1)
  ]

abbrev next_view : ℕ → ℕ
next_view v = (v + 1) % 2 ^ 32

module _ (bdb : Bdb) (e : NodeEnv) where
  -- A change of view that ends well has entered exactly the view asked for, with the role that this
  -- view gives the node, if it is the one behind the current view; otherwise nothing has changed.
  pub update_view-Entered :
      (n d : Node bdb.Store) (v : View)
      → update_view bdb e n v ≡ ok d
      → ((next_view n.comp.cur_view.view_id ≡ v.view_id) × Entered d v)
        ⊎ ((next_view n.comp.cur_view.view_id ≢ v.view_id) × (d ≡ n))
  unfolding update_view
  update_view-Entered n d v runs =
      elim (Bool-cases (next_view n.comp.cur_view.view_id == v.view_id)) [
        | inl next ↦
            let (mid, tried, rest) =
              >>=-eq-ok _ (λ n'. ok (take_role (enter_view n' v))) (rw next at runs) in
            inl (
              ==→eq _ _ next,
              subst (λ x. Entered x v) (ok-injective rest) (take_role-Entered mid v),
            )
        | inr other ↦ inr (ground (arith, other), sym (ok-injective (rw other at runs)))
      ]

  -- The answer to a ping never changes a view: the handler asks for a view behind its own, and the
  -- change of view that it calls asks for the view before.
  pub handle_ping_ack_inert : (n : Node bdb.Store) (m : PingMsg) → handle_ping_ack bdb e n m ≡ ok n
  unfolding handle_ping_ack update_view
  handle_ping_ack_inert n m = ground arith
