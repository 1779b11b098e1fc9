-- ===== src/Consensus/Handle/Sequence.antt =====
-- Any sequence of messages and submitted requests of one view: the log stays in order.
use libevent_paxos.Base.{
  ℕ, suc, ◌+◌, ◌^◌, ◌<◌, ◌≡◌, refl, sym, ap, ◌∙◌, subst, List, ◌++◌, append-nil, append_assoc, inl,
  inr, arith, Option-cases, ok, ok-injective,
}
use libevent_paxos.Stamp.{IsStamp, vstol}
use libevent_paxos.Stamp.Order.{vstol_lem}
use libevent_paxos.Db.{Bdb}
use libevent_paxos.Consensus.Record.{Env}
use libevent_paxos.Consensus.Message.{ConsensusMsg}
use libevent_paxos.Consensus.State.{Comp, Role, leader, secondary}
use libevent_paxos.Consensus.Execute.Delivery.{delivered, keys, keys-append, HandsKeys}
use libevent_paxos.Consensus.Build.{build_forward_req}
use libevent_paxos.Consensus.Submit.{
  Submitted, forward_submit_req, submit_as, consensus_submit_request,
}
use libevent_paxos.Consensus.Handle.{consensus_handle_msg}
use libevent_paxos.Consensus.Handle.Log.{Sound, Delivers, settles, itself, emit_up_call-Ready}
use libevent_paxos.Consensus.Handle.Deliver.{MsgIn}
use libevent_paxos.Consensus.Handle.Run.{
  consensus_handle_msg-Delivers, leader_handle_submit_req-Delivers,
}

module _ (bdb : Bdb) where
  -- One call of the component that returns, in whatever surroundings it meets.
  pub data Step (v : ℕ) (c d : Comp bdb.Store) : Type 0 where
    receives :
        (env : Env) (m : ConsensusMsg)
        → MsgIn v m
        → consensus_handle_msg bdb env c m ≡ ok d
        → Step v c d
    submits :
        (env : Env) (data_size : ℕ) (mem : List ℕ) (s : Submitted bdb.Store)
        → consensus_submit_request bdb env c data_size mem ≡ ok s
        → s.comp ≡ d
        → Step v c d

  -- Any number of calls.
  pub data Steps (v : ℕ) : Comp bdb.Store → Comp bdb.Store → Type 0 where
    stay : {c : Comp bdb.Store} → Steps v c c
    go : {a b c : Comp bdb.Store} → Step v a b → Steps v b c → Steps v a c

  -- What does not depend on the surroundings of a call.
  pub record Kept (c : Comp bdb.Store) : Type 0 where
    pub hands : HandsKeys c
    pub committed_fits : IsStamp c.highest_committed
    pub commit_fits : IsStamp c.highest_to_commit
    pub seen_fits : IsStamp c.highest_seen
    pub commit_view : c.highest_to_commit.view_id ≡ c.highest_committed.view_id
    pub seen_view : c.highest_seen.view_id ≡ c.highest_committed.view_id
    pub view_room : c.highest_committed.view_id + 1 < 2 ^ 32

  Kept-Sound : (env : Env) (c : Comp bdb.Store) → Kept c → Sound bdb env c
  Kept-Sound env c k = (
    k.hands,
    record {
      committed_fits = k.committed_fits;
      commit_fits = k.commit_fits;
      seen_fits = k.seen_fits;
      commit_view = k.commit_view;
      seen_view = k.seen_view;
      view_room = k.view_room;
    },
  )

  Sound-Kept : (env : Env) (c : Comp bdb.Store) → Sound bdb env c → Kept c
  Sound-Kept env c (hands, one) = record {
    hands = hands;
    committed_fits = one.committed_fits;
    commit_fits = one.commit_fits;
    seen_fits = one.seen_fits;
    commit_view = one.commit_view;
    seen_view = one.seen_view;
    view_room = one.view_room;
  }

  -- The log of `c`, and the next record numbers behind it, are the log of `d`.
  pub record Extends (c d : Comp bdb.Store) : Type 0 where
    pub count : ℕ
    pub log : delivered d.out ≡ delivered c.out ++ keys (suc (vstol c.highest_committed)) count
    pub number : vstol d.highest_committed ≡ vstol c.highest_committed + count
    pub same_view : d.highest_committed.view_id ≡ c.highest_committed.view_id
    pub kept : Kept d

  Delivers-Extends :
      (env : Env) (c d : Comp bdb.Store) → Kept c → Delivers bdb env c d → Extends c d
  Delivers-Extends env c d k p =
      let after = Sound-Kept env d p.sound in
      record {
        count = p.count;
        log = p.log;
        number = omega (
          arith,
          vstol_lem c.highest_committed k.committed_fits,
          vstol_lem d.highest_committed after.committed_fits,
          p.moved,
          p.same_view,
        );
        same_view = p.same_view;
        kept = after;
      }

  Extends-trans : (a b c : Comp bdb.Store) → Extends a b → Extends b c → Extends a c
  Extends-trans a b c p q = record {
    count = p.count + q.count;
    log =
        q.log
        ∙ ap (λ n. delivered b.out ++ keys (suc n) q.count) p.number
        ∙ ap (λ l. l ++ keys (suc (vstol a.highest_committed + p.count)) q.count) p.log
        ∙ append_assoc (delivered a.out) (keys (suc (vstol a.highest_committed)) p.count) _
        ∙ ap (◌++◌ (delivered a.out)) (joined (vstol a.highest_committed) p.count q.count);
    number = omega (arith, p.number, q.number);
    same_view = q.same_view ∙ p.same_view;
    kept = q.kept;
  }
    where
      joined : (s n m : ℕ) → keys (suc s) n ++ keys (suc (s + n)) m ≡ keys (suc s) (n + m)
      joined s n m =
          let at : suc (s + n) ≡ suc s + n = omega arith in
          ap (λ k. keys (suc s) n ++ keys k m) at ∙ sym (keys-append (suc s) n m)

  submit_as-Delivers :
      (env : Env) (role : Role) (c : Comp bdb.Store) (data_size : ℕ) (mem : List ℕ)
      (s : Submitted bdb.Store)
      → Sound bdb env c
      → submit_as bdb env role c data_size mem ≡ ok s
      → Delivers bdb env c s.comp
  unfolding forward_submit_req
  submit_as-Delivers env leader c data_size mem s sound runs =
      leader_handle_submit_req-Delivers bdb env c data_size mem s sound runs
  submit_as-Delivers env secondary c data_size mem s sound runs =
      elim (Option-cases (build_forward_req env c data_size mem)) [
        | inl full ↦
            subst (λ x. Delivers bdb env c x.comp)
              (ok-injective (rw (full, forward_submit_req) at runs))
              (settles bdb env c c (itself bdb env c sound))
        | inr (m, built) ↦
            subst (λ x. Delivers bdb env c x.comp)
              (ok-injective (rw (built, forward_submit_req) at runs))
              (settles bdb env c _ (emit_up_call-Ready bdb env c c _ _ _ (itself bdb env c sound)))
      ]

  Step-Extends :
      (v : ℕ) (c d : Comp bdb.Store)
      → c.highest_committed.view_id ≡ v
      → Kept c
      → Step v c d
      → Extends c d
  unfolding consensus_submit_request
  Step-Extends v c d in_view k (receives env m fits runs) = Delivers-Extends env c d k (
      consensus_handle_msg-Delivers bdb env c d m (Kept-Sound env c k)
        (subst (λ x. MsgIn x m) (sym in_view) fits) runs)
  Step-Extends v c d in_view k (submits env data_size mem s runs end) = Delivers-Extends env c d k (
      subst (λ x. Delivers bdb env c x) end
        (submit_as-Delivers env c.my_role c data_size mem s (Kept-Sound env c k) runs))

  sequence-Extends :
      (v : ℕ) (a b : Comp bdb.Store)
      → a.highest_committed.view_id ≡ v
      → Kept a
      → Steps v a b
      → Extends a b
  sequence-Extends v a b in_view kept stay = record {
    count = 0;
    log = sym (append-nil _);
    number = omega arith;
    same_view = refl;
    kept = kept;
  }
  sequence-Extends v a b in_view kept (go {b = mid} step rest) =
      let p = Step-Extends v a mid in_view kept step in
      Extends-trans a mid b p (sequence-Extends v mid b (p.same_view ∙ in_view) p.kept rest)

  -- From a component that hands record numbers to a user callback and has all its stamps in one
  -- view (not the last that a word can number), any sequence of messages of that view and of
  -- submitted requests, each call in its own surroundings, that ends without a fault hands over the
  -- record numbers behind the first committed one in order, each once and with none left out,
  -- commits exactly those, and keeps the stamps in the view.
  pub Steps-Extends :
      (c d : Comp bdb.Store) → Kept c → Steps c.highest_committed.view_id c d → Extends c d
  Steps-Extends c d k steps = sequence-Extends c.highest_committed.view_id c d refl k steps
