-- ===== src/Base/Bits.antt =====
-- Words of `w` bits, read digit by digit: inclusive or, the number of ones, one bit.
use Prim.Native.Nat.{ℕ, zero, suc, ◌+◌, ◌*◌, ◌/◌, ◌%◌, ◌^◌, ◌≤◌, ◌<◌, max, min}
use mathlib.Core.Path.{◌≡◌, refl}
use native.Mathlib.Omega.{arith}
use native.Mathlib.Nat.{pow-suc}
use native.Mathlib.Decide.{dec_lt}

-- `a | b` on words of `w` bits.
unfoldable pub or_bits : ℕ → ℕ → ℕ → ℕ
or_bits zero a b = 0
or_bits (suc w) a b = max (a % 2) (b % 2) + 2 * or_bits w (a / 2) (b / 2)

-- `a & b` on words of `w` bits.
unfoldable pub and_bits : ℕ → ℕ → ℕ → ℕ
and_bits zero a b = 0
and_bits (suc w) a b = min (a % 2) (b % 2) + 2 * and_bits w (a / 2) (b / 2)

-- The number of ones among the lowest `w` bits.
unfoldable pub popcount : ℕ → ℕ → ℕ
popcount zero a = 0
popcount (suc w) a = a % 2 + popcount w (a / 2)

-- Bit `i`, as 0 or 1.
unfoldable pub bit : ℕ → ℕ → ℕ
bit zero a = a % 2
bit (suc i) a = bit i (a / 2)

pub popcount-le : (w a : ℕ) → popcount w a ≤ w
unfolding popcount
popcount-le zero a = omega arith
popcount-le (suc w) a = omega (arith, popcount-le w (a / 2))

popcount_step : (w d m : ℕ) → d ≤ 1 → popcount (suc w) (d + 2 * m) ≡ d + popcount w m
unfolding popcount
popcount_step w d m h = let half : (d + 2 * m) / 2 ≡ m = omega arith in rw half (omega arith)

popcount-suc : (w a : ℕ) → popcount (suc w) a ≡ a % 2 + popcount w (a / 2)
unfolding popcount
popcount-suc w a = refl

popcount_none : (a b : ℕ) → popcount 0 a ≡ popcount 0 b
unfolding popcount
popcount_none a b = refl

popcount-zero : (w : ℕ) → popcount w 0 ≡ 0
unfolding popcount
popcount-zero zero = refl
popcount-zero (suc w) = omega (arith, popcount-zero w)

-- Ones of the two words, counted together: shared ones count twice.
pub popcount-or-and :
    (w a b : ℕ)
    → popcount w (or_bits w a b) + popcount w (and_bits w a b) ≡ popcount w a + popcount w b
unfolding or_bits and_bits
popcount-or-and zero a b = omega (arith, popcount_none 0 a, popcount_none 0 b, popcount-zero 0)
popcount-or-and (suc w) a b =
    let high = popcount_step w (max (a % 2) (b % 2)) (or_bits w (a / 2) (b / 2)) (omega arith) in
    let low = popcount_step w (min (a % 2) (b % 2)) (and_bits w (a / 2) (b / 2)) (omega arith) in
    rw (high, low) (omega (arith, popcount-suc, popcount-or-and w (a / 2) (b / 2)))

popcount-or_zero : (w a : ℕ) → popcount w (or_bits w a 0) ≡ popcount w a
unfolding or_bits
popcount-or_zero zero a = popcount_none 0 a
popcount-or_zero (suc w) a =
    rw (popcount_step w (max (a % 2) 0) (or_bits w (a / 2) 0) (omega arith))
      (omega (arith, popcount-suc, popcount-or_zero w (a / 2)))

-- Setting bit `i` adds a one exactly where that bit was 0.
pub popcount-or_bit :
    (w i a : ℕ) → i < w → popcount w (or_bits w a (2 ^ i)) + bit i a ≡ popcount w a + 1
unfolding or_bits bit
popcount-or_bit zero i a h = absurd (omega arith)
popcount-or_bit (suc w) zero a h =
    rw (popcount_step w (max (a % 2) 1) (or_bits w (a / 2) 0) (omega arith))
      (omega (arith, popcount-suc, popcount-or_zero w (a / 2)))
popcount-or_bit (suc w) (suc i) a h =
    let half : 2 ^ suc i / 2 ≡ 2 ^ i = omega (arith, pow-suc 2 i) in
    let low : 2 ^ suc i % 2 ≡ 0 = omega (arith, pow-suc 2 i) in
    rw (half, low)
      (rw (popcount_step w (max (a % 2) 0) (or_bits w (a / 2) (2 ^ i)) (omega arith))
        (omega (arith, popcount-suc, popcount-or_bit w i (a / 2) (omega arith))))

-- After that, the bit is 1.
pub bit-or_bit : (w i a : ℕ) → i < w → bit i (or_bits w a (2 ^ i)) ≡ 1
unfolding or_bits bit
bit-or_bit zero i a h = absurd (omega arith)
bit-or_bit (suc w) zero a h = omega arith
bit-or_bit (suc w) (suc i) a h =
    let half : 2 ^ suc i / 2 ≡ 2 ^ i = omega (arith, pow-suc 2 i) in
    let low : 2 ^ suc i % 2 ≡ 0 = omega (arith, pow-suc 2 i) in
    let rest = or_bits w (a / 2) (2 ^ i) in
    let next : (max (a % 2) 0 + 2 * rest) / 2 ≡ rest = omega arith in
    rw (half, low) (rw next (bit-or_bit w i (a / 2) (omega arith)))

-- A word with a one has it at some place.
pub popcount-pos : (w a : ℕ) → 0 < popcount w a → (i : ℕ) × (i < w) × (bit i a ≡ 1)
unfolding popcount bit
popcount-pos zero a h = absurd (omega arith)
popcount-pos (suc w) a h = elim (dec_lt 0 (a % 2)) [
  | yes p ↦ (0, omega arith, omega arith)
  | no p ↦ let (i, below, one) = popcount-pos w (a / 2) (omega arith) in (suc i, omega arith, one)
]

-- Bits from `w` on are 0 in a number below 2 ^ w.
pub popcount_small : (w v a : ℕ) → w ≤ v → a < 2 ^ w → popcount v a ≡ popcount w a
popcount_small zero v a le h =
    let none_set : a ≡ 0 = omega arith in
    rw none_set (omega (arith, popcount-zero v, popcount-zero 0))
popcount_small (suc w) zero a le h = absurd (omega arith)
popcount_small (suc w) (suc v) a le h =
    omega
      (arith, popcount-suc, popcount_small w v (a / 2) (omega arith) (omega (arith, pow-suc 2 w)))

bit-and : (w i a b : ℕ) → i < w → bit i (and_bits w a b) ≡ min (bit i a) (bit i b)
unfolding and_bits bit
bit-and zero i a b h = absurd (omega arith)
bit-and (suc w) zero a b h = omega arith
bit-and (suc w) (suc i) a b h =
    let rest = and_bits w (a / 2) (b / 2) in
    let next : (min (a % 2) (b % 2) + 2 * rest) / 2 ≡ rest = omega arith in
    rw next (bit-and w i (a / 2) (b / 2) (omega arith))

pub bit-le-one : (i a : ℕ) → bit i a ≤ 1
unfolding bit
bit-le-one zero a = omega arith
bit-le-one (suc i) a = bit-le-one i (a / 2)

-- Two words of `w` bits that together have more than `w` ones share one.
pub shared_bit :
    (w a b : ℕ)
    → w < popcount w a + popcount w b
    → (i : ℕ) × (i < w) × (bit i a ≡ 1) × (bit i b ≡ 1)
shared_bit w a b h =
    let (i, below, one) =
      popcount-pos w (and_bits w a b)
        (omega (arith, popcount-or-and w a b, popcount-le w (or_bits w a b))) in
    let both = bit-and w i a b below in
    (
      i,
      below,
      omega (arith, bit-le-one i a, bit-le-one i b),
      omega (arith, bit-le-one i a, bit-le-one i b),
    )

-- Or-ing keeps the ones of either word.
pub popcount-le-or : (w a b : ℕ) → popcount w b ≤ popcount w (or_bits w a b)
unfolding or_bits
popcount-le-or zero a b = omega (arith, popcount_none b 0)
popcount-le-or (suc w) a b =
    rw (popcount_step w (max (a % 2) (b % 2)) (or_bits w (a / 2) (b / 2)) (omega arith))
      (omega (arith, popcount-suc, popcount-le-or w (a / 2) (b / 2)))

pub or_bits_low : (w a : ℕ) → a < 2 ^ w → or_bits w a 0 ≡ a
unfolding or_bits
or_bits_low zero a h = omega arith
or_bits_low (suc w) a h = omega (arith, or_bits_low w (a / 2) (omega (arith, pow-suc 2 w)))

pub or_bits_zero_low : (w b : ℕ) → b < 2 ^ w → or_bits w 0 b ≡ b
unfolding or_bits
or_bits_zero_low zero b h = omega arith
or_bits_zero_low (suc w) b h =
    omega (arith, or_bits_zero_low w (b / 2) (omega (arith, pow-suc 2 w)))

-- Or works on the lowest `k` bits and on those above them apart.
pub or_bits-split :
    (k w a b c d : ℕ)
    → a < 2 ^ k
    → b < 2 ^ k
    → or_bits (k + w) (a + 2 ^ k * c) (b + 2 ^ k * d) ≡ or_bits k a b + 2 ^ k * or_bits w c d
unfolding or_bits
or_bits-split zero w a b c d h h' =
    let no_a : a + 2 ^ 0 * c ≡ c = omega arith in
    let no_b : b + 2 ^ 0 * d ≡ d = omega arith in
    let no_bits : 0 + w ≡ w = omega arith in rw (no_a, no_b, no_bits) (omega arith)
or_bits-split (suc k) w a b c d h h' =
    let pow = pow-suc 2 k in
    let c_twice : 2 ^ suc k * c ≡ 2 * (2 ^ k * c) = rw pow (omega arith) in
    let d_twice : 2 ^ suc k * d ≡ 2 * (2 ^ k * d) = rw pow (omega arith) in
    let o_twice : 2 ^ suc k * or_bits w c d ≡ 2 * (2 ^ k * or_bits w c d) = rw pow (omega arith) in
    let half_a : (a + 2 ^ suc k * c) / 2 ≡ a / 2 + 2 ^ k * c = omega arith in
    let half_b : (b + 2 ^ suc k * d) / 2 ≡ b / 2 + 2 ^ k * d = omega arith in
    let low_a : (a + 2 ^ suc k * c) % 2 ≡ a % 2 = omega arith in
    let low_b : (b + 2 ^ suc k * d) % 2 ≡ b % 2 = omega arith in
    let rest = or_bits-split k w (a / 2) (b / 2) c d (omega arith) (omega arith) in
    let one_more : suc k + w ≡ suc (k + w) = omega arith in
    rw one_more (rw (half_a, half_b, low_a, low_b) (omega arith))

pub or_bits_fields :
    (k w a b c d x y : ℕ)
    → x ≡ a + 2 ^ k * c
    → y ≡ b + 2 ^ k * d
    → a < 2 ^ k
    → b < 2 ^ k
    → or_bits (k + w) x y ≡ or_bits k a b + 2 ^ k * or_bits w c d
or_bits_fields k w a b c d x y ex ey h h' = rw (ex, ey) (or_bits-split k w a b c d h h')

or_bit_step :
    (b o p q a : ℕ)
    → b ≤ 1
    → q ≡ 2 * p
    → o + b * p ≡ a / 2 + p
    → max (a % 2) 0 + 2 * o + b * q ≡ a + q
or_bit_step zero o p q a one double rest = omega arith
or_bit_step (suc zero) o p q a one double rest = omega arith
or_bit_step (suc (suc b)) o p q a one double rest = absurd (omega arith)

-- Bit `i` is set, and the others stay.
pub or_bit_sum : (w i a : ℕ) → i < w → a < 2 ^ w → or_bits w a (2 ^ i) + bit i a * 2 ^ i ≡ a + 2 ^ i
unfolding or_bits bit
or_bit_sum zero i a h fits = absurd (omega arith)
or_bit_sum (suc w) zero a h fits = omega (arith, or_bits_low w (a / 2) (omega (arith, pow-suc 2 w)))
or_bit_sum (suc w) (suc i) a h fits =
    let half : 2 ^ suc i / 2 ≡ 2 ^ i = omega (arith, pow-suc 2 i) in
    let low : 2 ^ suc i % 2 ≡ 0 = omega (arith, pow-suc 2 i) in
    let rest = or_bit_sum w i (a / 2) (omega arith) (omega (arith, pow-suc 2 w)) in
    rw (half, low)
      (or_bit_step (bit i (a / 2)) (or_bits w (a / 2) (2 ^ i)) (2 ^ i) (2 ^ suc i) a
        (bit-le-one i (a / 2)) (omega (arith, pow-suc 2 i)) rest)
