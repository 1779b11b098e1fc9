-- ===== src/Proxy/Sessions/Grow.antt =====
-- What the sessions of a proxy keep: a pair stays in its place with its key, and a connection id that
-- is found stays found there.
use libevent_paxos.Base.{
  ℕ, ◌≡◌, refl, sym, ap, ◌∙◌, subst, Option, none, some, ◌∷◌, [], length, modify, eq_or_ne, inl,
  inr, some-injective, some≢none, Outcome, crash, out_of_bounds, Returns, stops, Returns-map,
  Returns->>=, ◌>>=◌, Option-cases,
}
use libevent_paxos.Proxy.State.{Hash, SocketPair, Proxy, pair_at, put_pair, with_pair}
use libevent_paxos.Proxy.Action.{add_pair}
use libevent_paxos.Proxy.Sessions.{IsSound}
use libevent_paxos.Proxy.Sessions.Pairs.{
  pair_at-modify, pair_at-modify_ne, pair_at-append, put_pair-IsSound, add_pair-IsSound,
}

module _ (hash : Hash) {S : Type 0} where
  -- From `p` to `q`.
  pub record Grows (p q : Proxy hash.Map S) : Type 0 where
    pub sound : IsSound hash p → IsSound hash q
    pub keeps :
        (i : ℕ) (pair : SocketPair)
        → pair_at p.pairs i ≡ some pair
        → (now : SocketPair) × (pair_at q.pairs i ≡ some now) × (now.key ≡ pair.key)
    pub finds : (k i : ℕ) → hash.find p.hash_map k ≡ some i → hash.find q.hash_map k ≡ some i

  -- A change to anything but the sessions.
  pub Grows-same :
      (p q : Proxy hash.Map S) → p.pairs ≡ q.pairs → p.hash_map ≡ q.hash_map → Grows p q
  Grows-same p q pairs map = record {
    sound = λ h k i found.
        let (pair, there, key) = h k i (ap (λ m. hash.find m k) map ∙ found) in
        (pair, ap (λ xs. pair_at xs i) (sym pairs) ∙ there, key);
    keeps = λ i pair there. (pair, ap (λ xs. pair_at xs i) (sym pairs) ∙ there, refl);
    finds = λ k i found. ap (λ m. hash.find m k) (sym map) ∙ found;
  }

  pub Grows-trans : (p q r : Proxy hash.Map S) → Grows p q → Grows q r → Grows p r
  Grows-trans p q r first next = record {
    sound = λ h. next.sound (first.sound h);
    keeps = λ i pair there.
        let (mid, there', key) = first.keeps i pair there in
        let (now, there'', key') = next.keeps i mid there' in (now, there'', key' ∙ key);
    finds = λ k i found. next.finds k i (first.finds k i found);
  }

  pub Grows-put_pair :
      (p : Proxy hash.Map S) (i : ℕ) (pair pair' : SocketPair)
      → pair_at p.pairs i ≡ some pair
      → pair'.key ≡ pair.key
      → Grows p (put_pair p i pair')
  Grows-put_pair p i pair pair' there same = record {
    sound = λ h. put_pair-IsSound hash p i pair pair' h there same;
    keeps = λ j old at_j. elim (eq_or_ne i j) [
      | inr other ↦ (old, pair_at-modify_ne p.pairs i j pair' other ∙ at_j, refl)
      | inl here ↦ (
        pair',
        subst (λ x. pair_at (modify p.pairs i (λ y. pair')) x ≡ some pair') here
            (pair_at-modify p.pairs i pair pair' there),
        same ∙ ap (λ x. x.key) (some-injective (sym there ∙ ap (pair_at p.pairs) here ∙ at_j)),
      )
    ];
    finds = λ k j found. found;
  }

  pub Grows-add_pair :
      (p : Proxy hash.Map S) (pair : SocketPair)
      → hash.find p.hash_map pair.key ≡ none
      → Grows p (add_pair hash p pair)
  unfolding add_pair
  Grows-add_pair p pair fresh = record {
    sound = λ h. add_pair-IsSound hash p pair h fresh;
    keeps = λ i old there. (old, pair_at-append p.pairs (pair ∷ []) i old there, refl);
    finds = λ k i found. elim (eq_or_ne pair.key k) [
      | inl same ↦ absurd (some≢none (sym found ∙ ap (hash.find p.hash_map) (sym same) ∙ fresh))
      | inr apart ↦ hash.find-add_ne p.hash_map pair.key (length p.pairs) k fresh apart ∙ found
    ];
  }

  -- A callback that works on its pair.
  pub with_pair-Grows :
      (p : Proxy hash.Map S) (i : ℕ) (f : SocketPair → Outcome (Proxy hash.Map S))
      → ((pair : SocketPair) → pair_at p.pairs i ≡ some pair → Returns (Grows p) (f pair))
      → Returns (Grows p) (with_pair p i f)
  with_pair-Grows p i f each =
      let Fits = λ (o : Option SocketPair).
        Returns (Grows p) (elim o [ none ↦ crash out_of_bounds | some x ↦ f x ]) in
      elim (Option-cases (pair_at p.pairs i)) [
        | inl missing ↦ subst Fits (sym missing) stops
        | inr (pair, there) ↦ subst Fits (sym there) (each pair there)
      ]

  pub stays : (p : Proxy hash.Map S) → Grows p p
  stays p = Grows-same p p refl refl

  pub and_then :
      (p q : Proxy hash.Map S) (o : Outcome (Proxy hash.Map S))
      → Grows p q
      → Returns (Grows q) o
      → Returns (Grows p) o
  and_then p q o first next = Returns-map (λ r more. Grows-trans p q r first more) next

  -- The second step works on what the first returns.
  pub chained :
      (p : Proxy hash.Map S) (first : Outcome (Proxy hash.Map S))
      (next : Proxy hash.Map S → Outcome (Proxy hash.Map S))
      → Returns (Grows p) first
      → ((q : Proxy hash.Map S) → Returns (Grows q) (next q))
      → Returns (Grows p) (first >>= next)
  chained p first next one more =
      Returns->>= next one λ q grown. and_then p q (next q) grown (more q)
