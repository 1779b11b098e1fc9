-- ===== src/Proxy/Sessions/Pairs.antt =====
-- Pairs that are added and changed: the invariant of the table, and the links.
use libevent_paxos.Base.{
  ℕ, zero, suc, ◌≡◌, ◌≢◌, refl, sym, ap, ◌∙◌, subst, none, some, List, [], ◌∷◌, ◌++◌, length,
  modify, eq→==, ne→==, inl, inr, Option-cases, eq_or_ne, some-injective, some≢none,
}
use mathlib.Core.Path.{fun_ext}
use libevent_paxos.Proxy.State.{Hash, SocketPair, Proxy, pair_at, put_pair}
use libevent_paxos.Proxy.Action.{add_pair}
use libevent_paxos.Proxy.Sessions.{set_link, conn_of, server_conn, link, IsSound}

pub pair_at-modify :
    (xs : List SocketPair) (i : ℕ) (pair pair' : SocketPair)
    → pair_at xs i ≡ some pair
    → pair_at (modify xs i (λ old. pair')) i ≡ some pair'
pair_at-modify [] i pair pair' e = absurd (some≢none (sym e))
pair_at-modify (x ∷ xs) zero pair pair' e = refl
pair_at-modify (x ∷ xs) (suc i) pair pair' e = pair_at-modify xs i pair pair' e

pub pair_at-modify_ne :
    (xs : List SocketPair) (i j : ℕ) (pair' : SocketPair)
    → i ≢ j
    → pair_at (modify xs i (λ old. pair')) j ≡ pair_at xs j
pair_at-modify_ne [] i j pair' h = refl
pair_at-modify_ne (x ∷ xs) zero zero pair' h = absurd (h refl)
pair_at-modify_ne (x ∷ xs) zero (suc j) pair' h = refl
pair_at-modify_ne (x ∷ xs) (suc i) zero pair' h = refl
pair_at-modify_ne (x ∷ xs) (suc i) (suc j) pair' h =
    pair_at-modify_ne xs i j pair' (λ e. h (ap suc e))

pub pair_at-append :
    (xs ys : List SocketPair) (i : ℕ) (pair : SocketPair)
    → pair_at xs i ≡ some pair
    → pair_at (xs ++ ys) i ≡ some pair
pair_at-append [] ys i pair e = absurd (some≢none (sym e))
pair_at-append (x ∷ xs) ys zero pair e = e
pair_at-append (x ∷ xs) ys (suc i) pair e = pair_at-append xs ys i pair e

pub pair_at-length :
    (xs : List SocketPair) (pair : SocketPair) → pair_at (xs ++ pair ∷ []) (length xs) ≡ some pair
pair_at-length [] pair = refl
pair_at-length (x ∷ xs) pair = pair_at-length xs pair

module _ (hash : Hash) {S : Type 0} where
  -- The link of a pair that is found.
  pub link_found :
      (p : Proxy hash.Map S) (k i : ℕ) (pair : SocketPair)
      → hash.find p.hash_map k ≡ some i
      → pair_at p.pairs i ≡ some pair
      → link hash p k ≡ pair.p_s
  unfolding link
  link_found p k i pair found there = ap (server_conn p.pairs) found ∙ ap conn_of there

  pub link_missing :
      (p : Proxy hash.Map S) (k : ℕ) → hash.find p.hash_map k ≡ none → link hash p k ≡ none
  unfolding link
  link_missing p k missing = rw missing refl

  -- A pair may change all but its key.
  pub put_pair-IsSound :
      (p : Proxy hash.Map S) (i : ℕ) (pair pair' : SocketPair)
      → IsSound hash p
      → pair_at p.pairs i ≡ some pair
      → pair'.key ≡ pair.key
      → IsSound hash (put_pair p i pair')
  put_pair-IsSound p i pair pair' sound there same j n found =
      let (old, old_there, old_key) = sound j n found in
      elim (eq_or_ne i n) [
        | inr other ↦ (old, pair_at-modify_ne p.pairs i n pair' other ∙ old_there, old_key)
        | inl here ↦
            let is_pair : old ≡ pair =
              some-injective (sym old_there ∙ ap (pair_at p.pairs) (sym here) ∙ there) in
            (
              pair',
              subst (λ x. pair_at (modify p.pairs i (λ y. pair')) x ≡ some pair') here
                  (pair_at-modify p.pairs i pair pair' there),
              same ∙ ap (λ x. x.key) (sym is_pair) ∙ old_key,
            )
      ]

  -- Ids that are found at one place are equal.
  same_place_same_id :
      (p : Proxy hash.Map S) (k j i : ℕ)
      → IsSound hash p
      → hash.find p.hash_map k ≡ some i
      → hash.find p.hash_map j ≡ some i
      → j ≡ k
  same_place_same_id p k j i sound at_k at_j =
      let (a, a_there, a_key) = sound k i at_k in
      let (b, b_there, b_key) = sound j i at_j in
      sym b_key ∙ ap (λ x. x.key) (some-injective (sym b_there ∙ a_there)) ∙ a_key

  link_elsewhere :
      (p : Proxy hash.Map S) (k j i : ℕ) (pair' : SocketPair)
      → IsSound hash p
      → hash.find p.hash_map k ≡ some i
      → j ≢ k
      → link hash (put_pair p i pair') j ≡ link hash p j
  unfolding link
  link_elsewhere p k j i pair' sound found apart = elim (Option-cases (hash.find p.hash_map j)) [
    | inl missing ↦ rw missing refl
    | inr (n, at_j) ↦
        let places : i ≢ n =
          λ e. apart (same_place_same_id p k j i sound found (at_j ∙ ap some (sym e))) in
        ap (server_conn (modify p.pairs i (λ old. pair'))) at_j
        ∙ ap conn_of (pair_at-modify_ne p.pairs i n pair' places)
        ∙ sym (ap (server_conn p.pairs) at_j)
  ]

  -- It changes the link of its own id and no other.
  pub link-put_pair :
      (p : Proxy hash.Map S) (k i : ℕ) (pair pair' : SocketPair)
      → IsSound hash p
      → hash.find p.hash_map k ≡ some i
      → pair_at p.pairs i ≡ some pair
      → link hash (put_pair p i pair') ≡ set_link (link hash p) k pair'.p_s
  link-put_pair p k i pair pair' sound found there = fun_ext λ j. elim (eq_or_ne j k) [
    | inl same ↦ rw (eq→== j k same) (
        link_found (put_pair p i pair') j i pair' (ap (hash.find p.hash_map) same ∙ found)
          (pair_at-modify p.pairs i pair pair' there))
    | inr apart ↦ rw (ne→== j k apart) (link_elsewhere p k j i pair' sound found apart)
  ]

  -- A pair with a new id, which has no link.
  pub add_pair-IsSound :
      (p : Proxy hash.Map S) (pair : SocketPair)
      → IsSound hash p
      → hash.find p.hash_map pair.key ≡ none
      → IsSound hash (add_pair hash p pair)
  unfolding add_pair
  add_pair-IsSound p pair sound fresh j n found = elim (eq_or_ne pair.key j) [
    | inl same ↦
        let place : length p.pairs ≡ n = some-injective (
          sym (hash.find-add p.hash_map pair.key (length p.pairs) fresh)
          ∙ ap (hash.find (hash.add p.hash_map pair.key (length p.pairs))) same
          ∙ found) in
        (
          pair,
          subst (λ x. pair_at (p.pairs ++ pair ∷ []) x ≡ some pair) place
              (pair_at-length p.pairs pair),
          same,
        )
    | inr apart ↦
        let (old, there, key) =
          sound j n
            (sym (hash.find-add_ne p.hash_map pair.key (length p.pairs) j fresh apart) ∙ found) in
        (old, pair_at-append p.pairs (pair ∷ []) n old there, key)
  ]

  old_link :
      (p : Proxy hash.Map S) (pair : SocketPair) (j : ℕ)
      → IsSound hash p
      → server_conn (p.pairs ++ pair ∷ []) (hash.find p.hash_map j) ≡ link hash p j
  unfolding link
  old_link p pair j sound = elim (Option-cases (hash.find p.hash_map j)) [
    | inl missing ↦ rw missing refl
    | inr (n, at_j) ↦
        let (old, there, key) = sound j n at_j in
        ap (server_conn (p.pairs ++ pair ∷ [])) at_j
        ∙ ap conn_of (pair_at-append p.pairs (pair ∷ []) n old there ∙ sym there)
        ∙ sym (ap (server_conn p.pairs) at_j)
  ]

  pub link-add_pair :
      (p : Proxy hash.Map S) (pair : SocketPair)
      → IsSound hash p
      → hash.find p.hash_map pair.key ≡ none
      → link hash (add_pair hash p pair) ≡ set_link (link hash p) pair.key pair.p_s
  unfolding add_pair link
  link-add_pair p pair sound fresh = fun_ext λ j. elim (eq_or_ne j pair.key) [
    | inl same ↦
        let found =
          ap (hash.find (hash.add p.hash_map pair.key (length p.pairs))) same
          ∙ hash.find-add p.hash_map pair.key (length p.pairs) fresh in
        rw (eq→== j pair.key same) (
          link_found (add_pair hash p pair) j (length p.pairs) pair found
            (pair_at-length p.pairs pair))
    | inr apart ↦
        let kept =
          hash.find-add_ne p.hash_map pair.key (length p.pairs) j fresh (λ e. apart (sym e)) in
        rw (ne→== j pair.key apart)
          (ap (server_conn (p.pairs ++ pair ∷ [])) kept ∙ old_link p pair j sound)
  ]
