-- ===== src/Replica/Election/Learner.antt =====
-- The learner's count: a number is decided exactly when a majority of the slots carry it.
use libevent_paxos.Base.{
  ℕ, ℤ, ◌+◌, ◌≤◌, ◌<◌, ◌≡◌, ◌≢◌, refl, sym, ◌∙◌, subst, ◌⊎◌, inl, inr, Bool, true, false, List, [],
  ◌∷◌, Memᴰ, length, if◌then◌else◌, leb, leb→le, eqb_ℤ, eqb_ℤ→eq, eqb_ℤ→ne, ne→eqb_ℤ, arith,
  Bool-cases,
}
use libevent_paxos.Replica.Message.{LeleMsg}
use libevent_paxos.Replica.Node.{AcceptedRecord, LeleMod}
use libevent_paxos.Replica.Election.{minus_one}
use libevent_paxos.Replica.Election.Roles.{
  half_size, count_base, learner_loop, learner_check_accept,
}

-- The number of slots that carry `pnum`.
abbrev pub votes : ℤ → List AcceptedRecord → ℕ
votes pnum [] = 0
votes pnum (r ∷ rs) = (if eqb_ℤ r.pnum pnum then 1 else 0) + votes pnum rs

-- The count stops at a majority, and is exact below it.
count_base-votes :
    (half : ℕ) (base : ℤ) (inc : ℕ) (rs : List AcceptedRecord)
    → (count_base half base inc rs ≡ inc + votes base rs)
      ⊎ ((half ≤ count_base half base inc rs) × (count_base half base inc rs ≤ inc + votes base rs))
unfolding count_base
count_base-votes half base inc [] = inl (omega arith)
count_base-votes half base inc (r ∷ rs) = elim (Bool-cases (eqb_ℤ r.pnum base)) [
  | inl aye ↦ elim (Bool-cases (leb half (inc + 1))) [
    | inl enough ↦ inr (rw (aye, enough) (leb→le _ _ enough, omega arith))
    | inr few ↦ elim (count_base-votes half base (inc + 1) rs) [
      | inl exact ↦ inl (rw (aye, few) (omega (arith, exact)))
      | inr (most, bound) ↦ inr (rw (aye, few) (most, omega (arith, bound)))
    ]
  ]
  | inr nay ↦ elim (Bool-cases (leb half inc)) [
    | inl enough ↦ inr (rw (nay, enough) (leb→le _ _ enough, omega arith))
    | inr few ↦ elim (count_base-votes half base inc rs) [
      | inl exact ↦ inl (rw (nay, few) (omega (arith, exact)))
      | inr (most, bound) ↦ inr (rw (nay, few) (most, omega (arith, bound)))
    ]
  ]
]

-- A slot of `rs` carries the number and the content of `m`, and a majority of `all` that number.
abbrev pub Decided : ℕ → List AcceptedRecord → List AcceptedRecord → LeleMsg → Type 0
Decided half all rs m =
    (a : AcceptedRecord) × (Memᴰ a rs)
    × (a.pnum ≢ minus_one)
    × (m.pnum ≡ a.pnum)
    × (m.content ≡ a.content)
    × (half ≤ votes a.pnum all)

abbrev pub Undecided : ℕ → List AcceptedRecord → List AcceptedRecord → Type 0
Undecided half all rs =
    (a : AcceptedRecord) → Memᴰ a rs → a.pnum ≢ minus_one → votes a.pnum all < half

abbrev Learned : ℕ → List AcceptedRecord → List AcceptedRecord → Bool × LeleMsg → Type 0
Learned half all rs r =
    ((r.0 ≡ true) × Decided half all rs r.1) ⊎ ((r.0 ≡ false) × Undecided half all rs)

Decided-cons :
    (half : ℕ) (all rs : List AcceptedRecord) (r : AcceptedRecord) (m : LeleMsg)
    → Decided half all rs m
    → Decided half all (r ∷ rs) m
Decided-cons half all rs r m (a, at, real, same, content, most) =
    (a, Memᴰ.tail at, real, same, content, most)

Learned-cons :
    (half : ℕ) (all rs : List AcceptedRecord) (r : AcceptedRecord) (result : Bool × LeleMsg)
    → (r.pnum ≢ minus_one → votes r.pnum all < half)
    → Learned half all rs result
    → Learned half all (r ∷ rs) result
Learned-cons half all rs r result here (inl (won, d)) =
    inl (won, Decided-cons half all rs r result.1 d)
Learned-cons half all rs r result here (inr (lost, none_yet)) = inr (
  lost,
  λ a at real. elim at [
    | Memᴰ.head e ↦
        subst (λ x. votes x.pnum all < half) (sym e) (here (subst (λ x. x.pnum ≢ minus_one) e real))
    | Memᴰ.tail there ↦ none_yet a there real
  ],
)

at_most :
    (half : ℕ) (all : List AcceptedRecord) (r : AcceptedRecord)
    → leb half (count_base half r.pnum 0 all) ≡ true
    → half ≤ votes r.pnum all
at_most half all r enough = elim (count_base-votes half r.pnum 0 all) [
  | inl exact ↦ omega (arith, exact, leb→le _ _ enough)
  | inr (most, bound) ↦ omega (arith, most, bound)
]

few_counted :
    (half : ℕ) (all : List AcceptedRecord) (r : AcceptedRecord)
    → leb half (count_base half r.pnum 0 all) ≡ false
    → count_base half r.pnum 0 all < half
few_counted half all r few = ground (arith, few)

few_votes :
    (half : ℕ) (all : List AcceptedRecord) (r : AcceptedRecord)
    → leb half (count_base half r.pnum 0 all) ≡ false
    → votes r.pnum all < half
few_votes half all r few = elim (count_base-votes half r.pnum 0 all) [
  | inl exact ↦ omega (arith, exact, few_counted half all r few)
  | inr (most, bound) ↦ absurd (omega (arith, most, few_counted half all r few))
]

learner_loop-Learned :
    (half : ℕ) (all : List AcceptedRecord) (inc : ℕ) (m : LeleMsg) (rs : List AcceptedRecord)
    → inc < half
    → Learned half all rs (learner_loop half all inc m rs)
unfolding learner_loop
learner_loop-Learned half all inc m [] low = inr (ground arith, λ a at real. elim at [ ])
learner_loop-Learned half all inc m (r ∷ rs) low = elim (Bool-cases (eqb_ℤ r.pnum minus_one)) [
  | inl empty ↦ rw empty (
      Learned-cons half all rs r (learner_loop half all inc m rs)
        (λ real. absurd (real (eqb_ℤ→eq _ _ empty))) (learner_loop-Learned half all inc m rs low))
  | inr real ↦ elim (Bool-cases (leb half (count_base half r.pnum 0 all))) [
    | inl enough ↦
        rw (real, enough)
          (inl
            (refl, (r, Memᴰ.head refl, eqb_ℤ→ne _ _ real, refl, refl, at_most half all r enough)))
    | inr few ↦
        rw (real, few)
          (Learned-cons half all rs r
            (learner_loop half all (count_base half r.pnum 0 all)
              (record m { pnum = r.pnum; content = r.content }) rs)
            (λ h. few_votes half all r few)
            (learner_loop-Learned half all (count_base half r.pnum 0 all)
              (record m { pnum = r.pnum; content = r.content }) rs (few_counted half all r few)))
  ]
]

-- The learner finds a number exactly if a majority of its slots carry one that was accepted, and then
-- reports such a number with the content of a slot that carries it.
pub learner_check_accept-votes :
    (group_size : ℕ) (lm : LeleMod) (m : LeleMsg)
    → (((learner_check_accept group_size lm m).0 ≡ true)
        × Decided
            (half_size group_size)
            lm.learner_arr
            lm.learner_arr
            (learner_check_accept group_size lm m).1)
      ⊎ (((learner_check_accept group_size lm m).0 ≡ false)
          × Undecided (half_size group_size) lm.learner_arr lm.learner_arr)
unfolding learner_check_accept
learner_check_accept-votes group_size lm m =
    learner_loop-Learned (half_size group_size) lm.learner_arr 0 _ lm.learner_arr (omega arith)

votes-le-length : (p q : ℤ) (rs : List AcceptedRecord) → p ≢ q → votes p rs + votes q rs ≤ length rs
votes-le-length p q [] other = omega arith
votes-le-length p q (r ∷ rs) other = elim (Bool-cases (eqb_ℤ r.pnum p)) [
  | inl is_p ↦
      rw (is_p, ne→eqb_ℤ r.pnum q (λ e. other (sym (eqb_ℤ→eq _ _ is_p) ∙ e)))
        (omega (arith, votes-le-length p q rs other))
  | inr not_p ↦ elim (Bool-cases (eqb_ℤ r.pnum q)) [
    | inl is_q ↦ rw (not_p, is_q) (omega (arith, votes-le-length p q rs other))
    | inr not_q ↦ rw (not_p, not_q) (omega (arith, votes-le-length p q rs other))
  ]
]

-- Whatever a learner with one slot per node finds, no other number has a majority of its slots.
pub learner_check_accept_unique :
    (group_size : ℕ) (lm : LeleMod) (m : LeleMsg) (p : ℤ)
    → length lm.learner_arr ≤ group_size
    → (learner_check_accept group_size lm m).0 ≡ true
    → half_size group_size ≤ votes p lm.learner_arr
    → (learner_check_accept group_size lm m).1.pnum ≡ p
learner_check_accept_unique group_size lm m p slots found most =
    elim (learner_check_accept-votes group_size lm m) [
      | inr (lost, none_yet) ↦ absurd (ground (arith, found, lost))
      | inl (won, (a, at, real, same, content, enough)) ↦ elim (Bool-cases (eqb_ℤ a.pnum p)) [
        | inl is_p ↦ same ∙ eqb_ℤ→eq _ _ is_p
        | inr not_p ↦ absurd (
            omega (
              arith,
              votes-le-length a.pnum p lm.learner_arr (eqb_ℤ→ne _ _ not_p),
              enough,
              most,
              slots,
            ))
      ]
    ]
