-- ===== src/Consensus/Record/Quorum.antt =====
-- The bit map of a record as the set of the nodes that acknowledged it.
use libevent_paxos.Base.{
  ℕ, ◌+◌, ◌^◌, ◌≤◌, ◌<◌, ◌≡◌, refl, true, arith, leb→le, le→leb, bit, popcount, popcount-or_bit,
  bit-or_bit, popcount_small, shared_bit, popcount-le-or,
}
use libevent_paxos.Consensus.Record.{Env, RequestRecord, bit_of, update_record, reached_quorum}

pub bit_of_low : (env : Env) (n : ℕ) → n < 31 → bit_of env n ≡ 2 ^ n
unfolding bit_of
bit_of_low env n low = ground arith

-- An ack of node `n` below 31 sets bit `n`; the count of ones grows by one exactly if that bit was 0.
pub update_record_counts :
    (env : Env) (r : RequestRecord) (n : ℕ)
    → n < 31
    → (bit n (update_record env r n).bit_map ≡ 1)
      × (popcount 64 (update_record env r n).bit_map + bit n r.bit_map ≡ popcount 64 r.bit_map + 1)
unfolding update_record
update_record_counts env r n low =
    rw (bit_of_low env n low)
      (bit-or_bit 64 n r.bit_map (omega arith), popcount-or_bit 64 n r.bit_map (omega arith))

-- Two records with a quorum in one group of at most 64 nodes, whose bits all stand for nodes of the
-- group, share a node.
pub quorums_meet :
    (a b : RequestRecord) (group_size : ℕ)
    → group_size ≤ 64
    → a.bit_map < 2 ^ group_size
    → b.bit_map < 2 ^ group_size
    → reached_quorum a group_size ≡ true
    → reached_quorum b group_size ≡ true
    → (n : ℕ) × (n < group_size) × (bit n a.bit_map ≡ 1) × (bit n b.bit_map ≡ 1)
unfolding reached_quorum
quorums_meet a b group_size small in_a in_b qa qb = shared_bit group_size a.bit_map b.bit_map (
    omega (
      arith,
      leb→le _ _ qa,
      leb→le _ _ qb,
      popcount_small group_size 64 a.bit_map small in_a,
      popcount_small group_size 64 b.bit_map small in_b,
    ))

node_31_ones : (env : Env) → popcount 64 (bit_of env 31) ≡ 33
unfolding bit_of popcount
node_31_ones env = refl

-- `1 << 31` is a negative `int`: an ack of node 31 sets 33 bits, so that one ack is a quorum in every
-- group of at most 64 nodes.
pub node_31_quorum :
    (env : Env) (r : RequestRecord) (group_size : ℕ)
    → group_size ≤ 64
    → reached_quorum (update_record env r 31) group_size ≡ true
unfolding reached_quorum update_record
node_31_quorum env r group_size small =
    le→leb _ _ (omega (arith, node_31_ones env, popcount-le-or 64 r.bit_map (bit_of env 31)))
