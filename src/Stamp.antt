-- ===== src/Stamp.antt =====
-- src/util/common-structure.c and src/include/util/common-structure.h: views, view stamps, the
-- record numbers (database keys) that stand for them, and times.
-- The integers are unsigned words; `view.leader_id` is an `int64_t`. `time_t` is a signed word in
-- C; the values here are those of `gettimeofday`, which are not negative.
pub mod Order
pub mod Examples
use libevent_paxos.Base.{ℕ, ◌+◌, ◌*◌, ◌/◌, ◌%◌, ◌^◌, ◌<◌, ℤ, pos, negsuc, ltb, ◌==◌, if◌then◌else◌}

pub record View : Type 0 where
  pub view_id : ℕ
  pub leader_id : ℤ
  pub req_id : ℕ

pub record ViewStamp : Type 0 where
  pub view_id : ℕ
  pub req_id : ℕ

pub record Timeval : Type 0 where
  pub tv_sec : ℕ
  pub tv_usec : ℕ

-- Both halves are 32-bit words.
pub record IsStamp (vs : ViewStamp) : Type 0 where
  pub view_fits : vs.view_id < 2 ^ 32
  pub req_fits : vs.req_id < 2 ^ 32

unfoldable pub view_stamp_comp : ViewStamp → ViewStamp → ℤ
view_stamp_comp op1 op2 =
    if ltb op1.view_id op2.view_id
    then negsuc 0
    else if ltb op2.view_id op1.view_id
    then pos 1
    else if ltb op2.req_id op1.req_id
    then pos 1
    else if ltb op1.req_id op2.req_id
    then negsuc 0
    else pos 0

unfoldable pub viewtol : ℕ → ℕ
viewtol v_id = v_id

unfoldable pub ltoview : ℕ → ℕ
ltoview vl = vl % 2 ^ 32

-- `& 0xFFFFFFFF` is `% 2 ^ 32`, and `<< 32` on a 64-bit word is `* 2 ^ 32 % 2 ^ 64`.
unfoldable pub vstol : ViewStamp → ℕ
vstol vs = (vs.req_id % 2 ^ 32 + vs.view_id % 2 ^ 32 * 2 ^ 32 % 2 ^ 64) % 2 ^ 64

unfoldable pub ltovs : ℕ → ViewStamp
ltovs record_no = record { view_id = record_no / 2 ^ 32 % 2 ^ 32; req_id = record_no % 2 ^ 32 }

unfoldable pub timeval_comp : Timeval → Timeval → ℤ
timeval_comp op1 op2 =
    if ltb op2.tv_sec op1.tv_sec
    then pos 1
    else if op1.tv_sec == op2.tv_sec
    then if ltb op2.tv_usec op1.tv_usec
      then pos 1
      else if op1.tv_usec == op2.tv_usec
      then pos 0
      else negsuc 0
    else negsuc 0

-- The microseconds are added with no carry into the seconds.
unfoldable pub timeval_add : Timeval → Timeval → Timeval
timeval_add op1 op2 = record {
  tv_sec = op1.tv_sec + op2.tv_sec;
  tv_usec = op1.tv_usec + op2.tv_usec;
}
