-- ===== src/Replica/Election/Proposer.antt =====
-- The proposer's count of the answers to its prepare request.
use libevent_paxos.Base.{
  ℕ, ℤ, ◌+◌, ◌≡◌, refl, sym, ap, ◌∙◌, subst, ◌⊎◌, inl, inr, true, false, List, [], ◌∷◌, Memᴰ,
  if◌then◌else◌, leb, eqb_ℤ, eqb_ℤ→eq, eqb_ℤ→ne, ltb_ℤ, arith, Bool-cases,
}
use libevent_paxos.Replica.Message.{LeleMsg}
use libevent_paxos.Replica.Node.{ProposerRecord, LeleMod}
use libevent_paxos.Replica.Election.{minus_one}
use libevent_paxos.Replica.Election.Roles.{
  half_size, Tally, tally_step, tally, empty_tally, origin, proposer_check_prepare,
}

-- The number of answers to round `round` that carry an accepted number.
abbrev pub answered : ℤ → List ProposerRecord → ℕ
answered round [] = 0
answered round (r ∷ rs) =
    (if eqb_ℤ r.p_pnum round then (if eqb_ℤ r.a_pnum minus_one then 0 else 1) else 0)
    + answered round rs

-- An answer to the round is no higher than `pnum`.
abbrev pub Below : ℤ → ℤ → List ProposerRecord → Type 0
Below round pnum rs =
    (a : ProposerRecord) → Memᴰ a rs → a.p_pnum ≡ round → ltb_ℤ pnum a.a_pnum ≡ false

-- The number and content are those of an answer to the round.
abbrev pub Origin : ℤ → ℤ → ℤ → List ProposerRecord → Type 0
Origin round pnum content rs =
    (a : ProposerRecord) × (Memᴰ a rs)
    × (a.p_pnum ≡ round)
    × (a.a_pnum ≡ pnum)
    × (a.content ≡ content)

ltb_ℤ_trans_false : (a b c : ℤ) → ltb_ℤ b a ≡ false → ltb_ℤ a c ≡ false → ltb_ℤ b c ≡ false
ltb_ℤ_trans_false a b c h k = ground (arith, h, k)

ltb_ℤ→ltb_ℤ_false : (a b : ℤ) → ltb_ℤ a b ≡ true → ltb_ℤ b a ≡ false
ltb_ℤ→ltb_ℤ_false a b h = ground (arith, h)

ltb_ℤ_refl : (a : ℤ) → ltb_ℤ a a ≡ false
ltb_ℤ_refl a = ground arith

step_inc :
    (round : ℤ) (r : ProposerRecord) (t : Tally)
    → (tally_step round r t).inc
      ≡ t.inc + (if eqb_ℤ r.p_pnum round then (if eqb_ℤ r.a_pnum minus_one then 0 else 1) else 0)
unfolding tally_step
step_inc round r t = ground arith

tally-answered :
    (round : ℤ) (rs : List ProposerRecord) (t : Tally)
    → (tally round rs t).inc ≡ t.inc + answered round rs
unfolding tally
tally-answered round [] t = omega arith
tally-answered round (r ∷ rs) t =
    omega (arith, tally-answered round rs (tally_step round r t), step_inc round r t)

-- A step never lowers the highest number, and takes in the answer it looks at.
step_high :
    (round : ℤ) (r : ProposerRecord) (t : Tally)
    → (ltb_ℤ (tally_step round r t).pnum t.pnum ≡ false)
      × (r.p_pnum ≡ round → ltb_ℤ (tally_step round r t).pnum r.a_pnum ≡ false)
unfolding tally_step
step_high round r t = elim (Bool-cases (eqb_ℤ r.p_pnum round)) [
  | inl now ↦ elim (Bool-cases (ltb_ℤ t.pnum r.a_pnum)) [
    | inl up ↦ rw (now, up) (ltb_ℤ→ltb_ℤ_false t.pnum r.a_pnum up, λ here. ltb_ℤ_refl r.a_pnum)
    | inr down ↦ rw (now, down) (ltb_ℤ_refl t.pnum, λ here. down)
  ]
  | inr other ↦ rw other (ltb_ℤ_refl t.pnum, λ here. absurd (eqb_ℤ→ne _ _ other here))
]

tally-Below :
    (round : ℤ) (rs : List ProposerRecord) (t : Tally)
    → (ltb_ℤ (tally round rs t).pnum t.pnum ≡ false) × Below round (tally round rs t).pnum rs
unfolding tally
tally-Below round [] t = (ltb_ℤ_refl t.pnum, λ a at here. elim at [ ])
tally-Below round (r ∷ rs) t =
    let (grows, all) = tally-Below round rs (tally_step round r t) in
    let (high, mine) = step_high round r t in
    (
      ltb_ℤ_trans_false (tally_step round r t).pnum _ t.pnum grows high,
      λ a at here. elim at [
        | Memᴰ.head e ↦
            subst (λ x. ltb_ℤ (tally round rs (tally_step round r t)).pnum x.a_pnum ≡ false) (sym e)
              (ltb_ℤ_trans_false (tally_step round r t).pnum _ r.a_pnum grows
                (mine (subst (λ x. x.p_pnum ≡ round) e here)))
        | Memᴰ.tail there ↦ all a there here
      ],
    )

step_origin :
    (round : ℤ) (r : ProposerRecord) (t : Tally)
    → (((tally_step round r t).pnum ≡ t.pnum) × ((tally_step round r t).content ≡ t.content))
      ⊎ ((r.p_pnum ≡ round)
          × (r.a_pnum ≡ (tally_step round r t).pnum)
          × (r.content ≡ (tally_step round r t).content))
unfolding tally_step
step_origin round r t = elim (Bool-cases (eqb_ℤ r.p_pnum round)) [
  | inl now ↦ elim (Bool-cases (ltb_ℤ t.pnum r.a_pnum)) [
    | inl up ↦ rw (now, up) (inr (eqb_ℤ→eq _ _ now, refl, refl))
    | inr down ↦ rw (now, down) (inl (refl, refl))
  ]
  | inr other ↦ rw other (inl (refl, refl))
]

tally-Origin :
    (round : ℤ) (rs : List ProposerRecord) (t : Tally)
    → (((tally round rs t).pnum ≡ t.pnum) × ((tally round rs t).content ≡ t.content))
      ⊎ Origin round (tally round rs t).pnum (tally round rs t).content rs
unfolding tally
tally-Origin round [] t = inl (refl, refl)
tally-Origin round (r ∷ rs) t = elim (tally-Origin round rs (tally_step round r t)) [
  | inr (a, at, here, high, content) ↦ inr (a, Memᴰ.tail at, here, high, content)
  | inl (p, c) ↦ elim (step_origin round r t) [
    | inl (p', c') ↦ inl (p ∙ p', c ∙ c')
    | inr (here, high, content) ↦ inr (r, Memᴰ.head refl, here, high ∙ sym p, content ∙ sym c)
  ]
]

-- The proposer goes on to phase two exactly if the answers to its round that carry an accepted number
-- are a majority of the group (half of its size, rounded down, and one); the accept request then has
-- the number of the round, and the content of an answer to the round with the highest accepted number
-- of all, or -1 if no answer is above -1.
pub proposer_check_prepare-answered :
    (group_size : ℕ) (lm : LeleMod) (m : LeleMsg)
    → ((proposer_check_prepare group_size lm m).0
        ≡ leb (half_size group_size) (answered (origin group_size lm) lm.proposer_arr))
      × ((proposer_check_prepare group_size lm m).1.pnum ≡ origin group_size lm)
      × ((high : ℤ) × (Below (origin group_size lm) high lm.proposer_arr)
          × (((high ≡ minus_one) × ((proposer_check_prepare group_size lm m).1.content ≡ minus_one))
              ⊎ Origin
                  (origin group_size lm)
                  high
                  (proposer_check_prepare group_size lm m).1.content
                  lm.proposer_arr))
unfolding proposer_check_prepare
proposer_check_prepare-answered group_size lm m = (
  ap (leb (half_size group_size))
      (omega (arith, tally-answered (origin group_size lm) lm.proposer_arr empty_tally)),
  refl,
  (
    (tally (origin group_size lm) lm.proposer_arr empty_tally).pnum,
    (tally-Below (origin group_size lm) lm.proposer_arr empty_tally).1,
    tally-Origin (origin group_size lm) lm.proposer_arr empty_tally,
  ),
)
