-- ===== src/Consensus/Execute/Frame.antt =====
-- What no execution changes: the database, the role, the view, the highest stamp, and the
-- acknowledgements sent.
use libevent_paxos.Base.{
  ℕ, ℤ, zero, suc, ◌+◌, ◌%◌, ◌^◌, ◌≡◌, refl, sym, ap, ◌∙◌, subst, inl, inr, Bool, true, false, List,
  [], ◌++◌, ◌∷◌, append-nil, ◌==◌, if◌then◌else◌, Option, none, some, arith, Bool-cases,
  Option-cases, ok, >>=-eq-ok, ok-injective,
}
use libevent_paxos.Stamp.{ViewStamp, vstol, ltovs}
use libevent_paxos.Db.{Bdb, retrieve_record}
use libevent_paxos.Consensus.Record.{Env}
use libevent_paxos.Consensus.Message.{AcceptAck, accept_ack}
use libevent_paxos.Consensus.State.{
  Comp, Output, up_call, user_cb_key, user_cb_data, emit, view_start, view_stamp_inc, cross_view,
  is_leader_role,
}
use libevent_paxos.Consensus.Execute.{
  retrieve, send_missing_req, missing_req_alloc, deliver_msg_data, deliver_next, leader_commit,
  leader_loop, into_seen_view, leader_try_to_execute, execute_step, execute_loop, execute_known,
  cross_boundary, try_to_execute,
}
use libevent_paxos.Consensus.Execute.Order.{leader_loop_end, leader_loop_round}

-- The acknowledgements among the calls, with the node that each goes to.
abbrev pub acks : List Output → List (AcceptAck × ℤ)
acks [] = []
acks (up_call n (accept_ack a) target ∷ os) = (a, target) ∷ acks os
acks (o ∷ os) = acks os

pub acks-append : (xs ys : List Output) → acks (xs ++ ys) ≡ acks xs ++ acks ys
acks-append [] ys = refl
acks-append (up_call n (accept_ack a) target ∷ xs) ys = ap (◌∷◌ (a, target)) (acks-append xs ys)
acks-append (o ∷ xs) ys = acks-append xs ys

pub record Frame {S : Type 0} (c d : Comp S) : Type 0 where
  pub same_db : d.db ≡ c.db
  pub same_acks : acks d.out ≡ acks c.out
  pub same_role : d.my_role ≡ c.my_role
  pub same_node : d.node_id ≡ c.node_id
  pub same_group : d.group_size ≡ c.group_size
  pub same_view : d.cur_view ≡ c.cur_view
  pub same_seen : d.highest_seen ≡ c.highest_seen

module _ {S : Type 0} where
  pub Frame-refl : (c : Comp S) → Frame c c
  Frame-refl c = record {
    same_db = refl;
    same_acks = refl;
    same_role = refl;
    same_node = refl;
    same_group = refl;
    same_view = refl;
    same_seen = refl;
  }

  pub Frame-trans : (a b c : Comp S) → Frame a b → Frame b c → Frame a c
  Frame-trans a b c p q = record {
    same_db = q.same_db ∙ p.same_db;
    same_acks = q.same_acks ∙ p.same_acks;
    same_role = q.same_role ∙ p.same_role;
    same_node = q.same_node ∙ p.same_node;
    same_group = q.same_group ∙ p.same_group;
    same_view = q.same_view ∙ p.same_view;
    same_seen = q.same_seen ∙ p.same_seen;
  }

module _ {S : Type 0} where
  -- Only stamps and calls change.
  pub touch-Frame :
      (c : Comp S) (to_commit committed : ViewStamp) (os : List Output)
      → acks os ≡ acks c.out
      → Frame c
          (record c { highest_to_commit = to_commit; highest_committed = committed; out = os })
  touch-Frame c to_commit committed os same = record {
    same_db = refl;
    same_acks = same;
    same_role = refl;
    same_node = refl;
    same_group = refl;
    same_view = refl;
    same_seen = refl;
  }

  pub emit-Frame : (c : Comp S) (o : Output) → acks (o ∷ []) ≡ [] → Frame c (emit c o)
  emit-Frame c o none_sent =
      touch-Frame c c.highest_to_commit c.highest_committed (c.out ++ o ∷ [])
        (acks-append c.out (o ∷ []) ∙ ap (◌++◌ (acks c.out)) none_sent ∙ append-nil (acks c.out))

  emit_if-Frame :
      (b : Bool) (c : Comp S) (o : Output)
      → acks (o ∷ []) ≡ []
      → Frame c (if b then emit c o else c)
  emit_if-Frame true c o none_sent = emit-Frame c o none_sent
  emit_if-Frame false c o none_sent = Frame-refl c

module _ (bdb : Bdb) (env : Env) where
  send_missing_req-Frame :
      (c : Comp bdb.Store) (vs : ViewStamp) → Frame c (send_missing_req env c vs)
  unfolding send_missing_req
  send_missing_req-Frame c vs = elim (Bool-cases (env.malloc missing_req_alloc)) [
    | inl there ↦ rw (there, send_missing_req) (emit-Frame c _ refl)
    | inr full ↦ rw (full, send_missing_req) (Frame-refl c)
  ]

  deliver_msg_data-Frame :
      (c : Comp bdb.Store) (vs : ViewStamp) → Frame c (deliver_msg_data bdb env c vs)
  unfolding deliver_msg_data
  deliver_msg_data-Frame c vs = elim (Bool-cases (c.deliver_mode == 1)) [
    | inl by_data ↦ elim (Option-cases (retrieve bdb env c (vstol vs))) [
      | inl missing ↦ rw (by_data, deliver_msg_data) (rw (missing, deliver_msg_data) (Frame-refl c))
      | inr (mem, there) ↦
          rw (by_data, deliver_msg_data)
            (rw (there, deliver_msg_data) (emit_if-Frame c.ucb c (user_cb_data _ _) refl))
    ]
    | inr by_key ↦ rw (by_key, deliver_msg_data) (emit_if-Frame c.ucb c (user_cb_key _) refl)
  ]

  deliver_next-Frame : (index : ℕ) (c : Comp bdb.Store) → Frame c (deliver_next bdb env index c)
  deliver_next-Frame index c =
      let p = deliver_msg_data-Frame c (ltovs index) in
      record {
        same_db = p.same_db;
        same_acks = p.same_acks;
        same_role = p.same_role;
        same_node = p.same_node;
        same_group = p.same_group;
        same_view = p.same_view;
        same_seen = p.same_seen;
      }

  leader_commit-Frame :
      (flag : Bool) (index : ℕ) (c : Comp bdb.Store) → Frame c (leader_commit bdb env flag index c)
  unfolding leader_commit
  leader_commit-Frame true index c =
      Frame-trans c _ _
        (touch-Frame c (view_stamp_inc c.highest_to_commit) c.highest_committed c.out refl)
        (deliver_next-Frame index _)
  leader_commit-Frame false index c =
      touch-Frame c (view_stamp_inc c.highest_to_commit) c.highest_committed c.out refl

  leader_loop-Frame :
      (flag : Bool) (rounds start : ℕ) (stale : Option (List ℕ)) (c d : Comp bdb.Store)
      → leader_loop bdb env flag rounds start stale c ≡ ok d
      → Frame c d
  leader_loop-Frame flag zero start stale c d e =
      subst (λ x. Frame c x) (leader_loop_end bdb env flag start stale c d e) (Frame-refl c)
  leader_loop-Frame flag (suc rounds) start stale c d e =
      elim (leader_loop_round bdb env flag rounds start stale c d e) [
        | inl same ↦ subst (λ x. Frame c x) same (Frame-refl c)
        | inr (mem, more) ↦
            Frame-trans c (leader_commit bdb env flag start c) d (leader_commit-Frame flag start c)
              (leader_loop-Frame flag rounds (suc start) (some mem)
                (leader_commit bdb env flag start c) d more)
      ]

  leader_try_to_execute-Frame :
      (c d : Comp bdb.Store) → leader_try_to_execute bdb env c ≡ ok d → Frame c d
  unfolding leader_try_to_execute
  leader_try_to_execute-Frame c d e =
      elim (Bool-cases (c.highest_seen.view_id == c.highest_to_commit.view_id)) [
        | inl one ↦ leader_loop-Frame _ _ _ none c d (rw one at e)
        | inr other ↦
            elim (Bool-cases
              ((c.highest_to_commit.view_id + 1) % 2 ^ 32 == c.highest_seen.view_id)) [
                | inl next ↦
                    Frame-trans c (into_seen_view bdb env c) d (touch-Frame c _ _ c.out refl) (
                      leader_loop-Frame _ _ _ none (into_seen_view bdb env c) d
                        (rw (other, next) at e))
                | inr far ↦ absurd (ground (arith, other, far))
              ]
      ]

  deliver_if-Frame :
      (flag : Bool) (index : ℕ) (c : Comp bdb.Store) (r : Bool × Comp bdb.Store)
      → r ≡ (if flag then (true, deliver_next bdb env index c) else (false, c))
      → Frame c r.1
  deliver_if-Frame true index c r e = subst (λ x. Frame c x.1) (sym e) (deliver_next-Frame index c)
  deliver_if-Frame false index c r e = subst (λ x. Frame c x.1) (sym e) (Frame-refl c)

  execute_step-Frame :
      (index : ℕ) (flag : Bool) (c : Comp bdb.Store) → Frame c (execute_step bdb env index flag c).1
  unfolding execute_step
  execute_step-Frame index flag c = elim (Bool-cases ((retrieve_record bdb c.db index).0 == 0)) [
    | inl found ↦ rw (found, execute_step) (deliver_if-Frame flag index c _ refl)
    | inr missing ↦ rw (missing, execute_step) (send_missing_req-Frame c (ltovs index))
  ]

  execute_loop-Frame :
      (rounds index : ℕ) (flag : Bool) (c : Comp bdb.Store)
      → Frame c (execute_loop bdb env rounds index flag c)
  unfolding execute_loop
  execute_loop-Frame zero index flag c = Frame-refl c
  execute_loop-Frame (suc rounds) index flag c =
      Frame-trans c _ _ (execute_step-Frame index flag c) (
        execute_loop-Frame rounds (suc index) (execute_step bdb env index flag c).0
          (execute_step bdb env index flag c).1)

  cross_boundary-Frame : (b : ViewStamp) (c : Comp bdb.Store) → Frame c (cross_boundary bdb env b c)
  cross_boundary-Frame b c = elim (Bool-cases (vstol c.highest_committed == vstol b)) [
    | inl at_end ↦
        rw at_end (touch-Frame c c.highest_to_commit (cross_view c.highest_committed) c.out refl)
    | inr within ↦ rw within (Frame-refl c)
  ]

  execute_known-Frame : (c : Comp bdb.Store) → Frame c (execute_known bdb env c)
  unfolding execute_known
  execute_known-Frame c =
      elim (Bool-cases (c.highest_committed.view_id == c.highest_to_commit.view_id)) [
        | inl one ↦ rw (one, execute_known) (execute_loop-Frame _ _ true c)
        | inr other ↦
            elim (Option-cases (
              retrieve bdb env c
                (vstol (view_start ((c.highest_committed.view_id + 1) % 2 ^ 32))))) [
                  | inl missing ↦
                      rw (other, execute_known)
                        (rw (missing, execute_known) (send_missing_req-Frame c _))
                  | inr (mem, there) ↦
                      rw (other, execute_known)
                        (rw (there, execute_known)
                          (Frame-trans c _ _ (execute_loop-Frame _ _ true c)
                            (cross_boundary-Frame _ _)))
                ]
      ]

  pub try_to_execute-Frame : (c d : Comp bdb.Store) → try_to_execute bdb env c ≡ ok d → Frame c d
  unfolding try_to_execute
  try_to_execute-Frame c d e = elim (Bool-cases (c.cur_view.view_id == 0)) [
    | inl idle ↦ subst (λ x. Frame c x) (ground (arith, idle)) (Frame-refl c)
    | inr live ↦ elim (Bool-cases (is_leader_role c.my_role)) [
      | inl leads ↦
          let (c', tried, rest) =
            >>=-eq-ok (leader_try_to_execute bdb env c) (λ x. ok (execute_known bdb env x))
              (rw (live, leads) at e) in
          subst (λ x. Frame c x) (ok-injective rest)
            (Frame-trans c c' _ (leader_try_to_execute-Frame c c' tried) (execute_known-Frame c'))
      | inr follows ↦
          subst (λ x. Frame c x) (ok-injective (rw (live, follows) at e)) (execute_known-Frame c)
    ]
  ]
