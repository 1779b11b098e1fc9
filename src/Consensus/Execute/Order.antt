-- ===== src/Consensus/Execute/Order.antt =====
-- Execution as a whole delivers in order: `try_to_execute`, at the leader and elsewhere.
use libevent_paxos.Base.{
  ℕ, zero, suc, ◌+◌, ◌%◌, ◌^◌, ◌<◌, ◌≡◌, refl, sym, ap, ◌∙◌, ◌⊎◌, inl, inr, Bool, true, false, List,
  ◌==◌, Option, none, some, arith, Bool-cases, Option-cases, eq→==, ok, >>=-eq-ok, ok-injective,
  append-nil, subst,
}
use libevent_paxos.Stamp.{IsStamp, vstol}
use libevent_paxos.Stamp.Order.{vstol_lem, view_stamp_comp-vstol}
use libevent_paxos.Db.{Bdb}
use libevent_paxos.Consensus.Record.{Env, decode_record, reached_quorum}
use libevent_paxos.Consensus.State.{Comp, is_leader_role, view_stamp_inc}
use libevent_paxos.Consensus.Execute.{
  retrieve, or_stale, deliver_next, leader_commit, leader_loop, leader_try_to_execute,
  execute_known, try_to_execute,
}
use libevent_paxos.Consensus.Execute.Delivery.{
  HandsKeys, Advances, Advances-refl, Advances-trans, Advances-IsStamp, Advances-hands,
  deliver_next-Advances, deliver_next-stamp, execute_loop-Advances,
}
use libevent_paxos.Consensus.Execute.Leader.{caught_up, leader_try_to_execute_lem}

module _ (bdb : Bdb) (env : Env) where
  abbrev moved_up : Comp bdb.Store → Comp bdb.Store
  moved_up c = record c { highest_to_commit = view_stamp_inc c.highest_to_commit }

  moved_up-Advances : (c : Comp bdb.Store) → IsStamp c.highest_committed → Advances c (moved_up c)
  unfolding view_stamp_inc
  moved_up-Advances c fits = record {
    count = 0;
    log = sym (append-nil _);
    same_view = refl;
    moved = omega arith;
    fits = fits.req_fits;
    same_db = refl;
    same_seen = refl;
    same_mode = refl;
    same_ucb = refl;
    same_commit_view = refl;
    commit_fits = λ h. omega arith;
  }

  pub leader_loop_end :
      (flag : Bool) (start : ℕ) (stale : Option (List ℕ)) (c d : Comp bdb.Store)
      → leader_loop bdb env flag zero start stale c ≡ ok d
      → c ≡ d
  unfolding leader_loop
  leader_loop_end flag start stale c d e = cc

  -- One round that succeeds: it ends the loop, or commits a record and goes on.
  pub leader_loop_round :
      (flag : Bool) (rounds start : ℕ) (stale : Option (List ℕ)) (c d : Comp bdb.Store)
      → leader_loop bdb env flag (suc rounds) start stale c ≡ ok d
      → (c ≡ d)
        ⊎ ((mem : List ℕ) × (leader_loop bdb env flag rounds
                (suc start)
                (some mem)
                (leader_commit bdb env flag start c)
              ≡ ok d))
  unfolding leader_loop
  leader_loop_round flag rounds start stale c d e =
      elim (Option-cases (or_stale bdb env (retrieve bdb env c start) stale)) [
        | inl missing ↦ absurd (ground (arith, missing))
        | inr (mem, there) ↦ elim (Bool-cases (reached_quorum (decode_record mem) c.group_size)) [
          | inl q ↦ inr (mem, ground (arith, there, q))
          | inr q ↦ inl (ground (arith, there, q))
        ]
      ]

  -- While deliveries lag behind, the leader's loop delivers nothing.
  leader_loop_quiet :
      (rounds start : ℕ) (stale : Option (List ℕ)) (c d : Comp bdb.Store)
      → IsStamp c.highest_committed
      → leader_loop bdb env false rounds start stale c ≡ ok d
      → Advances c d
  leader_loop_quiet zero start stale c d fits e =
      subst (λ x. Advances c x) (leader_loop_end false start stale c d e) (Advances-refl c fits)
  leader_loop_quiet (suc rounds) start stale c d fits e =
      elim (leader_loop_round false rounds start stale c d e) [
        | inl same ↦ subst (λ x. Advances c x) same (Advances-refl c fits)
        | inr (mem, more) ↦ Advances-trans fits (moved_up-Advances c fits) (
            leader_loop_quiet rounds (suc start) (some mem) (moved_up c) d fits
              (unfold leader_commit in more))
      ]

  -- Otherwise it delivers each record that it commits.
  leader_loop-Advances :
      (rounds start : ℕ) (stale : Option (List ℕ)) (c d : Comp bdb.Store)
      → HandsKeys c
      → IsStamp c.highest_committed
      → start ≡ suc (vstol c.highest_committed)
      → c.highest_committed.req_id + rounds < 2 ^ 32
      → leader_loop bdb env true rounds start stale c ≡ ok d
      → Advances c d
  leader_loop-Advances zero start stale c d hands fits turn room e =
      subst (λ x. Advances c x) (leader_loop_end true start stale c d e) (Advances-refl c fits)
  leader_loop-Advances (suc rounds) start stale c d hands fits turn room e =
      elim (leader_loop_round true rounds start stale c d e) [
        | inl same ↦ subst (λ x. Advances c x) same (Advances-refl c fits)
        | inr (mem, more) ↦
            let up = moved_up-Advances c fits in
            let hands' = Advances-hands hands up in
            let c' = deliver_next bdb env start (moved_up c) in
            let p =
              deliver_next-Advances bdb env (moved_up c) start hands' fits turn (omega arith) in
            let at =
              deliver_next-stamp bdb env (moved_up c) start hands'
                (omega (arith, vstol_lem c.highest_committed fits)) (omega arith) in
            let one_on : c'.highest_committed.req_id ≡ c.highest_committed.req_id + 1 =
              ap (λ s. s.req_id) at in
            let in_view : c'.highest_committed.view_id ≡ c.highest_committed.view_id =
              ap (λ s. s.view_id) at in
            Advances-trans fits up (
              Advances-trans fits p (
                leader_loop-Advances rounds (suc start) (some mem) c' d (Advances-hands hands' p)
                  (Advances-IsStamp fits p)
                  (omega (
                    arith,
                    vstol_lem c.highest_committed fits,
                    vstol_lem c'.highest_committed (Advances-IsStamp fits p),
                  ))
                  (omega arith) (unfold leader_commit in more)))
      ]

  -- All stamps in one view, not the last that a word can number.
  pub record OneView (c : Comp bdb.Store) : Type 0 where
    pub committed_fits : IsStamp c.highest_committed
    pub commit_fits : IsStamp c.highest_to_commit
    pub seen_fits : IsStamp c.highest_seen
    pub commit_view : c.highest_to_commit.view_id ≡ c.highest_committed.view_id
    pub seen_view : c.highest_seen.view_id ≡ c.highest_committed.view_id
    pub view_room : c.highest_committed.view_id + 1 < 2 ^ 32

  caught_up-eq :
      (c : Comp bdb.Store)
      → OneView c
      → caught_up bdb env c ≡ true
      → c.highest_committed ≡ c.highest_to_commit
  caught_up-eq c one up =
      elim (view_stamp_comp-vstol c.highest_committed c.highest_to_commit one.committed_fits
        one.commit_fits) [
          | inl (e, _) ↦ absurd (ground (arith, e))
          | inr (inl (_, same)) ↦ same
          | inr (inr (e, _)) ↦ absurd (ground (arith, e))
        ]

  leader_try_to_execute-Advances :
      (c d : Comp bdb.Store)
      → HandsKeys c
      → OneView c
      → leader_try_to_execute bdb env c ≡ ok d
      → Advances c d
  leader_try_to_execute-Advances c d hands one e =
      let runs =
        sym (
          leader_try_to_execute_lem bdb env c one.commit_fits (one.seen_view ∙ sym one.commit_view)
            (omega arith))
        ∙ e in
      elim (Bool-cases (caught_up bdb env c)) [
        | inl up ↦
            let same = caught_up-eq c one up in
            leader_loop-Advances _ _ none c d hands one.committed_fits
              (ap (λ s. suc (vstol s)) (sym same))
              (omega (
                arith,
                vstol_lem c.highest_seen one.seen_fits,
                vstol_lem c.highest_to_commit one.commit_fits,
                ap (λ s. s.req_id) same,
              ))
              (rw up at runs)
        | inr behind ↦ leader_loop_quiet _ _ none c d one.committed_fits (rw behind at runs)
      ]

  execute_known-Advances :
      (c : Comp bdb.Store) → HandsKeys c → OneView c → Advances c (execute_known bdb env c)
  unfolding execute_known
  execute_known-Advances c hands one =
      let at : (vstol c.highest_committed + 1) % 2 ^ 64 ≡ suc (vstol c.highest_committed) =
        omega (arith, vstol_lem c.highest_committed one.committed_fits) in
      rw (eq→== _ _ (sym one.commit_view), at)
        (execute_loop-Advances bdb env _ _ c hands one.committed_fits refl (
          omega (
            arith,
            vstol_lem c.highest_committed one.committed_fits,
            vstol_lem c.highest_to_commit one.commit_fits,
          )))

  pub Advances-OneView : (c d : Comp bdb.Store) → OneView c → Advances c d → OneView d
  Advances-OneView c d one p = record {
    committed_fits = Advances-IsStamp one.committed_fits p;
    commit_fits = record {
      view_fits = omega arith;
      req_fits = p.commit_fits one.commit_fits.req_fits;
    };
    seen_fits = subst IsStamp (sym p.same_seen) one.seen_fits;
    commit_view = p.same_commit_view ∙ one.commit_view ∙ sym p.same_view;
    seen_view = ap (λ s. s.view_id) p.same_seen ∙ one.seen_view ∙ sym p.same_view;
    view_room = omega arith;
  }

  -- When record numbers go to a user callback and all stamps are in one view (not the last that a
  -- word can number), an attempt to execute that ends has handed the records behind the committed
  -- one to the user, in order and with none left out, and has counted them as committed.
  pub try_to_execute-Advances :
      (c d : Comp bdb.Store)
      → HandsKeys c
      → OneView c
      → try_to_execute bdb env c ≡ ok d
      → Advances c d
  unfolding try_to_execute
  try_to_execute-Advances c d hands one e = elim (Bool-cases (c.cur_view.view_id == 0)) [
    | inl idle ↦
        subst (λ x. Advances c x) (ground (arith, idle)) (Advances-refl c one.committed_fits)
    | inr live ↦ elim (Bool-cases (is_leader_role c.my_role)) [
      | inl leads ↦
          let (c', tried, rest) =
            >>=-eq-ok (leader_try_to_execute bdb env c) (λ x. ok (execute_known bdb env x))
              (rw (live, leads) at e) in
          let p = leader_try_to_execute-Advances c c' hands one tried in
          subst (λ x. Advances c x) (ok-injective rest)
            (Advances-trans one.committed_fits p
              (execute_known-Advances c' (Advances-hands hands p) (Advances-OneView c c' one p)))
      | inr follows ↦
          subst (λ x. Advances c x) (ok-injective (rw (live, follows) at e))
            (execute_known-Advances c hands one)
    ]
  ]
