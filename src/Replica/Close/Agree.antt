-- ===== src/Replica/Close/Agree.antt =====
-- The view that a new leader enters at the end of an election in src/replica-sys/replica.c, and the one
-- that the others enter on its word.
use libevent_paxos.Base.{
  ℕ, ◌-◌, ◌+◌, ◌%◌, ◌^◌, ◌≡◌, ◌≢◌, refl, sym, ap, ◌∙◌, inl, inr, true, List, ◌∷◌, ◌++◌, ◌==◌, ok,
  some, eq→==, ne→==, elim_some, >>=-ok, >>=-return, >>=-eq-ok, ok-injective,
}
use libevent_paxos.Stamp.{View}
use libevent_paxos.Db.{Bdb}
use libevent_paxos.Replica.Message.{LeleMsg, lele_fin, lele, lele_msg_size}
use libevent_paxos.Replica.Node.{Node, NodeEnv, LeleMod, EdgeMod, send_to_other_nodes, writes_from}
use libevent_paxos.Replica.View.{update_view}
use libevent_paxos.Replica.View.Enter.{Entered, update_view-Entered}
use libevent_paxos.Replica.Close.{
  last_of_view, leader_election_build_close, leader_election_handle_close,
  leader_election_mod_collection, leader_election_leader_close,
}

-- The last request of the old view: the one before the first that a majority misses, or the last of
-- the range if none is missed.
pub data LastOfView (edge : EdgeMod) : ℕ → Type 0 where
  none_missed : edge.cur_empty_slots ≡ 0 → LastOfView edge edge.last
  before_missed :
      {first : ℕ} {more : List ℕ}
      → edge.cur_empty_slots ≢ 0
      → edge.req_edge ≡ some (first ∷ more)
      → LastOfView edge ((first + 2 ^ 32 - 1) % 2 ^ 32)

module _ (bdb : Bdb) (e : NodeEnv) where
  -- The view that the leader of an election enters.
  abbrev pub won_view : LeleMod → ℕ → View
  won_view lm last = record { view_id = lm.next_view; leader_id = lm.new_leader; req_id = last }

  -- The message that announces it.
  abbrev pub close_msg : View → LeleMsg
  close_msg v = record {
    kind = lele_fin;
    node_id = v.leader_id;
    next_view = v.view_id;
    pnum = e.fresh_msg.pnum;
    p_pnum = e.fresh_msg.p_pnum;
    content = v.leader_id;
    last_req = v.req_id;
    start_req = e.fresh_msg.start_req;
  }

  last_of_view-ok :
      (edge : EdgeMod) (last : ℕ) → LastOfView edge last → last_of_view bdb e edge ≡ ok last
  last_of_view-ok edge last (none_missed none_left) = rw (eq→== _ _ none_left) refl
  last_of_view-ok edge last (before_missed left there) = rw (ne→== _ _ left, there) refl

  -- The leader has entered `v` and told it to the others.
  abbrev pub Told : Node bdb.Store → Node bdb.Store → View → Type 0
  Told n n' v =
      (mid : Node bdb.Store) × (update_view bdb e n v ≡ ok mid)
      × (Entered mid v)
      × (n'.comp ≡ mid.comp)
      × (n'.effects ≡ mid.effects ++ writes_from mid.node_id 0 mid.active (lele (close_msg v)))

  leader_close-Told :
      (n n' : Node bdb.Store) (lm : LeleMod) (last : ℕ)
      → n.election_mod ≡ some lm
      → LastOfView lm.edge last
      → (n.comp.cur_view.view_id + 1) % 2 ^ 32 ≡ lm.next_view
      → e.env.malloc lele_msg_size ≡ true
      → leader_election_leader_close bdb e n ≡ ok n'
      → Told n n' (won_view lm last)
  unfolding leader_election_leader_close leader_election_build_close leader_election_mod_collection
      send_to_other_nodes
  leader_close-Told n n' lm last has range behind room runs =
      let v = won_view lm last in
      let started =
        sym (elim_some _ _ has ∙ >>=-ok _ (last_of_view-ok lm.edge last range)) ∙ runs in
      let (mid, entered, end) = >>=-eq-ok (update_view bdb e n v) _ started in
      let same = ok-injective (rw room at end) in
      elim (update_view-Entered bdb e n mid v entered) [
        | inr (other, kept) ↦ absurd (other behind)
        | inl (next, there) ↦
            (mid, entered, there, ap (λ x. x.comp) (sym same), ap (λ x. x.effects) (sym same))
      ]

  handle_close-Entered :
      (f f' : Node bdb.Store) (lm : LeleMod) (v : View)
      → f.election_mod ≡ some lm
      → lm.next_view ≡ v.view_id
      → (f.comp.cur_view.view_id + 1) % 2 ^ 32 ≡ v.view_id
      → leader_election_handle_close bdb e f (close_msg v) ≡ ok f'
      → Entered f' v
  unfolding leader_election_handle_close leader_election_mod_collection
  handle_close-Entered f f' lm v has same behind runs =
      let right : (lm.next_view == v.view_id) ≡ true = eq→== lm.next_view v.view_id same in
      let entered =
        sym (elim_some _ _ has ∙ rw right (>>=-return (update_view bdb e f v))) ∙ runs in
      elim (update_view-Entered bdb e f f' v entered) [
        | inr (other, kept) ↦ absurd (other behind)
        | inl (next, there) ↦ there
      ]

  -- A new leader, in the view before the one it was elected for, that closes the election without a
  -- fault and has memory for a message, enters the view it was elected for, under the leader that was
  -- elected, with the last request of the old view by its edge; and what it sends, to every active
  -- peer, is a close message for that view. A node in an election for the same view, from the view
  -- before, that handles this message without a fault enters the very same view.
  pub leader_close-handle_close :
      (n n' f f' : Node bdb.Store) (lm lm' : LeleMod) (last : ℕ)
      → n.election_mod ≡ some lm
      → LastOfView lm.edge last
      → (n.comp.cur_view.view_id + 1) % 2 ^ 32 ≡ lm.next_view
      → e.env.malloc lele_msg_size ≡ true
      → leader_election_leader_close bdb e n ≡ ok n'
      → f.election_mod ≡ some lm'
      → lm'.next_view ≡ lm.next_view
      → (f.comp.cur_view.view_id + 1) % 2 ^ 32 ≡ lm.next_view
      → leader_election_handle_close bdb e f (close_msg (won_view lm last)) ≡ ok f'
      → Told n n' (won_view lm last) × Entered f' (won_view lm last)
  leader_close-handle_close n n' f f' lm lm' last has range behind room runs has' same behind'
        ends =
      (
        leader_close-Told n n' lm last has range behind room runs,
        handle_close-Entered f f' lm' (won_view lm last) has' same behind' ends,
      )
