-- ===== src/Proxy/Key.antt =====
-- The connection ids that `gen_key` of src/proxy/proxy.c makes.
use libevent_paxos.Base.{
  ℕ, ◌+◌, ◌*◌, ◌%◌, ◌^◌, ◌<◌, ◌≡◌, ◌∙◌, arith, or_bits, or_bits_low, or_bits_fields, refl,
  or_bits_zero_low,
}
use libevent_paxos.Proxy.State.{gen_key}

-- Its three fields side by side.
gen_key-sum :
    (node_id node_count time : ℕ)
    → node_id < 2 ^ 12
    → node_count < 2 ^ 16
    → time < 2 ^ 36
    → gen_key node_id node_count time ≡ time + 2 ^ 36 * (node_count + 2 ^ 16 * node_id)
unfolding gen_key
gen_key-sum n c t hn hc ht =
    let inner : or_bits 64 t (n * 2 ^ 52 % 2 ^ 64) ≡ t + 2 ^ 36 * (2 ^ 16 * n) =
      or_bits_fields 36 28 t 0 0 (2 ^ 16 * n) _ _ (omega arith) (omega arith) ht (omega arith)
      ∙ rw (or_bits_low 36 t ht, or_bits_zero_low 28 (2 ^ 16 * n) (omega arith)) refl in
    let high : or_bits 28 (2 ^ 16 * n) c ≡ c + 2 ^ 16 * n =
      or_bits_fields 16 12 0 c n 0 _ _ (omega arith) (omega arith) (omega arith) hc
      ∙ rw (or_bits_zero_low 16 c hc, or_bits_low 12 n hn) refl in
    rw inner (
      or_bits_fields 36 28 t 0 (2 ^ 16 * n) c _ _ refl (omega arith) ht (omega arith)
      ∙ rw (or_bits_low 36 t ht, high) refl)

-- Two connections of the same group of nodes get different ids, if they differ in the node, in the
-- count of the node or in the second; as long as the time in seconds is below 2 ^ 36, the node below
-- 2 ^ 12 and the count below 2 ^ 16.
pub gen_key-injective :
    (node_id node_count time node_id' node_count' time' : ℕ)
    → node_id < 2 ^ 12
    → node_count < 2 ^ 16
    → time < 2 ^ 36
    → node_id' < 2 ^ 12
    → node_count' < 2 ^ 16
    → time' < 2 ^ 36
    → gen_key node_id node_count time ≡ gen_key node_id' node_count' time'
    → (node_id ≡ node_id') × (node_count ≡ node_count') × (time ≡ time')
gen_key-injective n c t n' c' t' hn hc ht hn' hc' ht' same =
    let this = gen_key-sum n c t hn hc ht in
    let that = gen_key-sum n' c' t' hn' hc' ht' in (omega arith, omega arith, omega arith)
