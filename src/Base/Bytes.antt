-- ===== src/Base/Bytes.antt =====
-- Little-endian bytes of a word, as the compiler lays integers out in memory (x86-64).
use Prim.Native.Nat.{ℕ, zero, suc, ◌+◌, ◌*◌, ◌/◌, ◌%◌, ◌^◌, ◌<◌}
use mathlib.Core.Path.{◌≡◌, refl, ap}
use mathlib.Core.List.{List, [], ◌∷◌, ◌++◌}
use native.Mathlib.Omega.{arith}
use native.Mathlib.Nat.{pow-suc}
use libevent_paxos.Base.Lists.{length, drop}

-- The `k` bytes of a number.
unfoldable pub le_bytes : ℕ → ℕ → List ℕ
le_bytes zero n = []
le_bytes (suc k) n = n % 256 ∷ le_bytes k (n / 256)

-- The number in the first `k` bytes; bytes behind the end of the list read as 0.
unfoldable pub le_value : ℕ → List ℕ → ℕ
le_value zero bs = 0
le_value (suc k) [] = 0
le_value (suc k) (b ∷ bs) = b + 256 * le_value k bs

pub length-le_bytes : (k n : ℕ) → length (le_bytes k n) ≡ k
unfolding le_bytes
length-le_bytes zero n = refl
length-le_bytes (suc k) n = ap suc (length-le_bytes k (n / 256))

pub le_value-le_bytes :
    (k n : ℕ) (rest : List ℕ) → n < 256 ^ k → le_value k (le_bytes k n ++ rest) ≡ n
unfolding le_bytes le_value
le_value-le_bytes zero n rest h = omega arith
le_value-le_bytes (suc k) n rest h =
    omega (arith, le_value-le_bytes k (n / 256) rest (omega (arith, pow-suc 256 k)))

pub drop-le_bytes : (k n : ℕ) (rest : List ℕ) → drop k (le_bytes k n ++ rest) ≡ rest
unfolding le_bytes
drop-le_bytes zero n rest = refl
drop-le_bytes (suc k) n rest = drop-le_bytes k (n / 256) rest
