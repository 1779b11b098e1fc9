-- ===== src/Consensus/Execute.antt =====
-- Delivery and execution in src/consensus/consensus.c: `deliver_msg_data`, `send_missing_req`,
-- `leader_try_to_execute` and `try_to_execute`.
-- A `for` loop over record numbers up to `end` runs `suc end - start` rounds; that is exact as long
-- as `end` is not the last 64-bit number.
pub mod Delivery
pub mod Leader
pub mod Order
pub mod Frame
use libevent_paxos.Base.{
  ℕ, zero, suc, ◌+◌, ◌-◌, ◌%◌, ◌^◌, ◌≡◌, Bool, true, false, not, ℤ, pos, eqb_ℤ, List, ◌++◌, ◌==◌,
  if◌then◌else◌, Option, none, some, Outcome, ok, crash, assert_failed, ◌>>=◌, ltb_ℤ,
}
use libevent_paxos.Stamp.{ViewStamp, view_stamp_comp, vstol, ltovs}
use libevent_paxos.Db.{Bdb, retrieve_record}
use libevent_paxos.Consensus.Record.{
  Env, RequestRecord, decode_record, decode_boundary, reached_quorum,
}
use libevent_paxos.Consensus.Message.{MissingReq, missing_req, missing_req_size, con_code}
use libevent_paxos.Consensus.State.{
  Comp, Role, Output, up_call, user_cb_key, user_cb_data, emit, to_all, view_stamp_inc, cross_view,
  view_start, is_leader_role,
}

-- `malloc(MISSING_REQ)` asks for as many bytes as the code of the message, 2, for the 24 written.
abbrev pub missing_req_alloc : ℕ
missing_req_alloc = 2

module _ {S : Type 0} where
  unfoldable pub build_missing_req : Env → Comp S → ViewStamp → Option MissingReq
  build_missing_req env c vs =
      if env.malloc missing_req_alloc
      then some (record { node_id = pos c.node_id; missing_vs = vs })
      else none

  unfoldable pub send_missing_req : Env → Comp S → ViewStamp → Comp S
  unfolding build_missing_req
  send_missing_req env c vs = elim (build_missing_req env c vs) [
    | none ↦ c
    | some m ↦ emit c (up_call missing_req_size (missing_req m) to_all)
  ]

module _ (bdb : Bdb) (env : Env) where
  -- The memory that a retrieved record's address reads as.
  unfoldable pub retrieve : Comp bdb.Store → ℕ → Option (List ℕ)
  retrieve c key = elim (retrieve_record bdb c.db key).1 [
    | none ↦ none
    | some bytes ↦ some (bytes ++ env.heap)
  ]

  unfoldable pub deliver_msg_data : Comp bdb.Store → ViewStamp → Comp bdb.Store
  unfolding retrieve
  deliver_msg_data c vs =
      if c.deliver_mode == 1
      then elim (retrieve c (vstol vs)) [
        | none ↦ c
        | some mem ↦
            let r = decode_record mem in
            if c.ucb then emit c (user_cb_data r.data_size r.body) else c
      ]
      else if c.ucb
      then emit c (user_cb_key (vstol vs))
      else c

  -- Deliver a record and count it as committed.
  abbrev pub deliver_next : ℕ → Comp bdb.Store → Comp bdb.Store
  deliver_next index c =
      let d = deliver_msg_data c (ltovs index) in
      record d { highest_committed = view_stamp_inc d.highest_committed }

  -- One record with a quorum: it may be executed everywhere, and is delivered here at once unless
  -- deliveries lag behind.
  unfoldable pub leader_commit : Bool → ℕ → Comp bdb.Store → Comp bdb.Store
  leader_commit exec_flag index c =
      let c' = record c { highest_to_commit = view_stamp_inc c.highest_to_commit } in
      if exec_flag then deliver_next index c' else c'

  -- `record_data` after the next retrieval: the loop does not reset it, so a record that cannot be
  -- retrieved leaves the previous one.
  abbrev pub or_stale : Option (List ℕ) → Option (List ℕ) → Option (List ℕ)
  or_stale none stale = stale
  or_stale (some mem) stale = some mem

  -- The body of the leader's loop, `rounds` times from `index`.
  unfoldable pub leader_loop :
      Bool → ℕ → ℕ → Option (List ℕ) → Comp bdb.Store → Outcome (Comp bdb.Store)
  leader_loop exec_flag zero index stale c = ok c
  leader_loop exec_flag (suc rounds) index stale c = elim (or_stale (retrieve c index) stale) [
    | none ↦ crash assert_failed
    | some mem ↦ elim (reached_quorum (decode_record mem) c.group_size) [
      | true ↦ leader_loop exec_flag rounds (suc index) (some mem) (leader_commit exec_flag index c)
      | false ↦ ok c
    ]
  ]

  abbrev pub leader_run : Comp bdb.Store → ℕ → Outcome (Comp bdb.Store)
  leader_run c start =
      leader_loop (eqb_ℤ (view_stamp_comp c.highest_committed c.highest_to_commit) (pos 0))
        (suc (vstol c.highest_seen) - start) start none c

  -- Stamps that lag one view behind are moved to the start of the view of the highest request.
  abbrev pub into_seen_view : Comp bdb.Store → Comp bdb.Store
  into_seen_view c = record c {
    highest_to_commit = view_start ((c.highest_to_commit.view_id + 1) % 2 ^ 32);
    highest_committed = view_start ((c.highest_to_commit.view_id + 1) % 2 ^ 32);
  }

  unfoldable pub leader_try_to_execute : Comp bdb.Store → Outcome (Comp bdb.Store)
  leader_try_to_execute c =
      if c.highest_seen.view_id == c.highest_to_commit.view_id
      then leader_run c ((vstol c.highest_to_commit + 1) % 2 ^ 64)
      else if (c.highest_to_commit.view_id + 1) % 2 ^ 32 == c.highest_seen.view_id
      then leader_run (into_seen_view c) (vstol (into_seen_view c).highest_to_commit)
      else crash assert_failed

  -- One record number: a record that is missing is asked for, and from then on none is delivered.
  unfoldable pub execute_step : ℕ → Bool → Comp bdb.Store → Bool × Comp bdb.Store
  execute_step index exec_flag c =
      if (retrieve_record bdb c.db index).0 == 0
      then if exec_flag then (true, deliver_next index c) else (false, c)
      else (false, send_missing_req env c (ltovs index))

  unfoldable pub execute_loop : ℕ → ℕ → Bool → Comp bdb.Store → Comp bdb.Store
  execute_loop zero index exec_flag c = c
  execute_loop (suc rounds) index exec_flag c =
      let (flag, c') = execute_step index exec_flag c in execute_loop rounds (suc index) flag c'

  -- At the end of a view the committed stamp passes into the next.
  abbrev pub cross_boundary : ViewStamp → Comp bdb.Store → Comp bdb.Store
  cross_boundary boundary c =
      if vstol c.highest_committed == vstol boundary
      then record c { highest_committed = cross_view c.highest_committed }
      else c

  abbrev pub execute_to : ℕ → Comp bdb.Store → Comp bdb.Store
  execute_to end c =
      let start = (vstol c.highest_committed + 1) % 2 ^ 64 in
      execute_loop (suc end - start) start true c

  unfoldable pub execute_known : Comp bdb.Store → Comp bdb.Store
  execute_known c =
      if c.highest_committed.view_id == c.highest_to_commit.view_id
      then execute_to (vstol c.highest_to_commit) c
      else let bound = view_start ((c.highest_committed.view_id + 1) % 2 ^ 32) in
        elim (retrieve c (vstol bound)) [
          | none ↦ send_missing_req env c bound
          | some mem ↦
              cross_boundary (decode_boundary mem) (execute_to (vstol (decode_boundary mem)) c)
        ]

  unfoldable pub try_to_execute : Comp bdb.Store → Outcome (Comp bdb.Store)
  try_to_execute c =
      if c.cur_view.view_id == 0
      then ok c
      else if is_leader_role c.my_role
      then (leader_try_to_execute c >>= λ c'. ok (execute_known c'))
      else ok (execute_known c)
