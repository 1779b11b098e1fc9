-- ===== src/Stamp/Order.antt =====
-- View stamps and their record numbers: the coding is exact, and the order of stamps is the
-- order of the numbers.
use libevent_paxos.Base.{ℕ, ◌+◌, ◌*◌, ◌^◌, ◌<◌, ◌≡◌, ◌⊎◌, pos, negsuc, arith}
use libevent_paxos.Stamp.{ViewStamp, IsStamp, view_stamp_comp, vstol, ltovs}

pub vstol_lem : (vs : ViewStamp) → IsStamp vs → vstol vs ≡ vs.view_id * 2 ^ 32 + vs.req_id
unfolding vstol
vstol_lem vs fits = omega arith

pub vstol-lt : (vs : ViewStamp) → vstol vs < 2 ^ 64
unfolding vstol
vstol-lt vs = omega arith

pub ltovs-IsStamp : (n : ℕ) → IsStamp (ltovs n)
unfolding ltovs
ltovs-IsStamp n = omega arith

ltovs-vstol : (vs : ViewStamp) → IsStamp vs → ltovs (vstol vs) ≡ vs
unfolding ltovs vstol
ltovs-vstol vs fits = ground arith

pub vstol-ltovs : (n : ℕ) → n < 2 ^ 64 → vstol (ltovs n) ≡ n
unfolding ltovs vstol
vstol-ltovs n fits = omega arith

-- Reading the record number of a stamp of 32-bit words gives the stamp back, and each 64-bit number is
-- the record number of the stamp that it reads as.
pub vstol_is_exact :
    (vs : ViewStamp) (n : ℕ)
    → IsStamp vs
    → n < 2 ^ 64
    → (ltovs (vstol vs) ≡ vs) × (vstol (ltovs n) ≡ n)
vstol_is_exact vs n fits small = (ltovs-vstol vs fits, vstol-ltovs n small)

-- For stamps of 32-bit words, `view_stamp_comp` is -1, 0 or 1 exactly as the record numbers
-- compare.
pub view_stamp_comp-vstol :
    (a b : ViewStamp)
    → IsStamp a
    → IsStamp b
    → ((view_stamp_comp a b ≡ negsuc 0) × (vstol a < vstol b))
      ⊎ (((view_stamp_comp a b ≡ pos 0) × (a ≡ b))
          ⊎ ((view_stamp_comp a b ≡ pos 1) × (vstol b < vstol a)))
unfolding view_stamp_comp
view_stamp_comp-vstol a b fa fb = ground (arith, vstol_lem a fa, vstol_lem b fb)
