-- ===== src/Consensus/Handle/Log.antt =====
-- The log of a component over any number of messages of one view: the user gets the record numbers
-- behind the first committed one, in order, each once, and with none left out.
use libevent_paxos.Base.{
  ℕ, ℤ, suc, ◌+◌, ◌≡◌, refl, sym, ap, ◌∙◌, inl, inr, List, [], ◌∷◌, ◌++◌, append-nil, arith,
  Bool-cases, ok,
}
use libevent_paxos.Stamp.{ViewStamp, IsStamp, vstol}
use libevent_paxos.Db.{Bdb, Db}
use libevent_paxos.Consensus.Record.{Env}
use libevent_paxos.Consensus.Message.{ConsensusMsg}
use libevent_paxos.Consensus.State.{Comp, Output, emit, up_call}
use libevent_paxos.Consensus.Execute.{try_to_execute}
use libevent_paxos.Consensus.Execute.Delivery.{
  delivered, delivered-append, keys, HandsKeys, Advances-hands,
}
use libevent_paxos.Consensus.Execute.Order.{OneView, try_to_execute-Advances, Advances-OneView}
use libevent_paxos.Consensus.Handle.{is_after, raised}

-- A stamp of view `v`.
abbrev pub StampIn : ℕ → ViewStamp → Type 0
StampIn v vs = IsStamp vs × (vs.view_id ≡ v)

module _ (bdb : Bdb) (env : Env) where
  -- A component that hands record numbers to the user, with all its stamps in one view.
  abbrev pub Sound : Comp bdb.Store → Type 0
  Sound c = HandsKeys c × OneView bdb env c

  -- `c` up to the database, the two higher stamps, and calls that deliver nothing.
  abbrev pub Ready : Comp bdb.Store → Comp bdb.Store → Type 0
  Ready c d =
      (delivered d.out ≡ delivered c.out)
      × (d.highest_committed ≡ c.highest_committed)
      × (HandsKeys d)
      × OneView bdb env d

  pub ready :
      (c : Comp bdb.Store) (seen to_commit : ViewStamp) (db : Db bdb.Store) (os : List Output)
      → Sound c
      → StampIn c.highest_committed.view_id seen
      → StampIn c.highest_committed.view_id to_commit
      → delivered os ≡ delivered c.out
      → Ready c (record c { highest_seen = seen; highest_to_commit = to_commit; db = db; out = os })
  ready c seen to_commit db os (hands, one) (seen_fits, seen_view) (commit_fits, commit_view) same =
      (
        same,
        refl,
        record { by_key = hands.by_key; has_ucb = hands.has_ucb },
        record {
          committed_fits = one.committed_fits;
          commit_fits = commit_fits;
          seen_fits = seen_fits;
          commit_view = commit_view;
          seen_view = seen_view;
          view_room = one.view_room;
        },
      )

  -- `count` more records are delivered, those behind the committed one, and the component stays sound.
  pub record Delivers (c d : Comp bdb.Store) : Type 0 where
    pub count : ℕ
    pub log : delivered d.out ≡ delivered c.out ++ keys (suc (vstol c.highest_committed)) count
    pub same_view : d.highest_committed.view_id ≡ c.highest_committed.view_id
    pub moved : d.highest_committed.req_id ≡ c.highest_committed.req_id + count
    pub sound : Sound d

  pub settles : (c d : Comp bdb.Store) → Ready c d → Delivers c d
  settles c d (same, committed, hands, one) = record {
    count = 0;
    log = same ∙ sym (append-nil _);
    same_view = ap (λ s. s.view_id) committed;
    moved = omega (arith, ap (λ s. s.req_id) committed);
    sound = (hands, one);
  }

  pub executes :
      (c c' d : Comp bdb.Store) → Ready c c' → try_to_execute bdb env c' ≡ ok d → Delivers c d
  executes c c' d (same, committed, hands, one) runs =
      let p = try_to_execute-Advances bdb env c' d hands one runs in
      record {
        count = p.count;
        log =
            p.log
            ∙ ap (λ l. l ++ keys (suc (vstol c'.highest_committed)) p.count) same
            ∙ ap (λ s. delivered c.out ++ keys (suc (vstol s)) p.count) committed;
        same_view = p.same_view ∙ ap (λ s. s.view_id) committed;
        moved = omega (arith, p.moved, ap (λ s. s.req_id) committed);
        sound = (Advances-hands hands p, Advances-OneView bdb env c' d one p);
      }

  pub itself : (c : Comp bdb.Store) → Sound c → Ready c c
  itself c (hands, one) = (refl, refl, hands, one)

  pub seen_in : (c : Comp bdb.Store) → Sound c → StampIn c.highest_committed.view_id c.highest_seen
  seen_in c (hands, one) = (one.seen_fits, one.seen_view)

  pub to_commit_in :
      (c : Comp bdb.Store) → Sound c → StampIn c.highest_committed.view_id c.highest_to_commit
  to_commit_in c (hands, one) = (one.commit_fits, one.commit_view)

  pub emit_up_call-Ready :
      (c d : Comp bdb.Store) (n : ℕ) (m : ConsensusMsg) (target : ℤ)
      → Ready c d
      → Ready c (emit d (up_call n m target))
  emit_up_call-Ready c d n m target (same, committed, hands, one) =
      let (same', committed', hands', one') =
        ready d d.highest_seen d.highest_to_commit d.db (d.out ++ up_call n m target ∷ [])
          (hands, one) (seen_in d (hands, one)) (to_commit_in d (hands, one))
          (delivered-append d.out _ ∙ append-nil _) in
      (same' ∙ same, committed' ∙ committed, hands', one')

  pub raised-StampIn :
      (v : ℕ) (a b : ViewStamp) → StampIn v a → StampIn v b → StampIn v (raised a b)
  unfolding raised
  raised-StampIn v a b in_a in_b = elim (Bool-cases (is_after b a)) [
    | inl later ↦ rw later in_b
    | inr not_later ↦ rw not_later in_a
  ]
