-- ===== src/Consensus/Record.antt =====
-- The stored request (`request_record`, `view_boundary`) as bytes and as a value, what a process
-- gets from its surroundings, and the quorum test of src/consensus/consensus.c.
-- The layout is that of x86-64: little-endian words, `request_record` packed (33 bytes before the
-- data), `view_boundary` two words and a signed word.
pub mod Coding
pub mod Quorum
use libevent_paxos.Base.{
  ℕ, ◌+◌, ◌-◌, ◌/◌, ◌^◌, ◌<◌, ◌≡◌, Bool, List, ◌++◌, ltb, leb, ◌==◌, if◌then◌else◌, length, take,
  drop, le_bytes, le_value, or_bits, popcount,
}
use libevent_paxos.Stamp.{Timeval, ViewStamp}

-- What one call of a handler meets: the time, which allocations succeed, the bytes that lie behind
-- a buffer, what fresh memory holds in two fields, and the value of a shift that C leaves open.
pub record Env : Type 0 where
  pub now : Timeval
  pub malloc : ℕ → Bool
  pub heap : List ℕ
  pub fresh_closed : ℕ
  pub fresh_bits : ℕ
  pub wide_shift : ℕ → ℕ

-- `memcpy` of `n` bytes from a buffer; past its end lies `heap`.
abbrev pub memcpy : Env → ℕ → List ℕ → List ℕ
memcpy env n mem = take n (mem ++ env.heap)

pub record RequestRecord : Type 0 where
  pub created_time : Timeval
  pub is_closed : ℕ
  pub bit_map : ℕ
  pub data_size : ℕ
  pub body : List ℕ

-- sizeof(request_record)
abbrev pub record_header_size : ℕ
record_header_size = 33

-- REQ_RECORD_SIZE(M), on a 64-bit word that the sizes of real records do not fill.
unfoldable pub req_record_size : RequestRecord → ℕ
req_record_size r = record_header_size + r.data_size

pub record IsRecord (r : RequestRecord) : Type 0 where
  pub sec_fits : r.created_time.tv_sec < 2 ^ 64
  pub usec_fits : r.created_time.tv_usec < 2 ^ 64
  pub closed_fits : r.is_closed < 2 ^ 8
  pub bits_fit : r.bit_map < 2 ^ 64
  pub size_fits : r.data_size < 2 ^ 64
  pub sized : length r.body ≡ r.data_size

-- The fields before the data.
unfoldable pub header_bytes : RequestRecord → List ℕ
header_bytes r =
    le_bytes 8 r.created_time.tv_sec
    ++ (le_bytes 8 r.created_time.tv_usec
        ++ (le_bytes 1 r.is_closed ++ (le_bytes 8 r.bit_map ++ le_bytes 8 r.data_size)))

unfoldable pub encode_record : RequestRecord → List ℕ
unfolding header_bytes
encode_record r = header_bytes r ++ r.body

-- The memory at an address, read through a `request_record*`.
unfoldable pub decode_record : List ℕ → RequestRecord
decode_record mem =
    let at_usec = drop 8 mem in
    let at_closed = drop 8 at_usec in
    let at_bits = drop 1 at_closed in
    let at_size = drop 8 at_bits in
    let size = le_value 8 at_size in
    record {
      created_time = record { tv_sec = le_value 8 mem; tv_usec = le_value 8 at_usec };
      is_closed = le_value 1 at_closed;
      bit_map = le_value 8 at_bits;
      data_size = size;
      body = take size (drop 8 at_size);
    }

-- The memory at an address, read through a `view_boundary*`.
unfoldable pub decode_boundary : List ℕ → ViewStamp
decode_boundary mem = record { view_id = le_value 4 mem; req_id = le_value 4 (drop 4 mem) }

-- `1 << n`, an `int` widened to 64 bits: bit 31 is the sign, and a shift by 32 or more is not
-- defined.
unfoldable pub bit_of : Env → ℕ → ℕ
bit_of env n = if ltb n 31 then 2 ^ n else if n == 31 then 2 ^ 64 - 2 ^ 31 else env.wide_shift n

unfoldable pub update_record : Env → RequestRecord → ℕ → RequestRecord
update_record env r node_id = record r { bit_map = or_bits 64 r.bit_map (bit_of env node_id) }

unfoldable pub reached_quorum : RequestRecord → ℕ → Bool
reached_quorum r group_size = leb (group_size / 2 + 1) (popcount 64 r.bit_map)
