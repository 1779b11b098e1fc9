-- ===== src/Consensus/Submit.antt =====
-- Submission of requests in src/consensus/consensus.c: at the leader, and forwarded to it.
pub mod Stored
use libevent_paxos.Base.{
  ℕ, ◌+◌, ◌%◌, ◌^◌, ◌≡◌, List, ltb, ◌==◌, if◌then◌else◌, Option, none, some, Outcome, ok, crash,
  null_deref, ◌>>=◌, ◌++◌,
}
use libevent_paxos.Stamp.{ViewStamp, vstol}
use libevent_paxos.Db.{Bdb, store_record}
use libevent_paxos.Consensus.Record.{
  Env, RequestRecord, record_header_size, req_record_size, encode_record, memcpy, bit_of,
}
use libevent_paxos.Consensus.Message.{accept_req, accept_req_size, forward_req, forward_req_size}
use libevent_paxos.Consensus.State.{
  Comp, Role, leader, secondary, emit, to_all, up_call, get_next_view_stamp, view_stamp_inc,
}
use libevent_paxos.Consensus.Execute.{try_to_execute}
use libevent_paxos.Consensus.Build.{build_accept_req, build_forward_req}

-- The return value, and the stamp assigned through the pointer argument, if one was.
pub record Submitted (S : Type 0) : Type 0 where
  pub ret : ℕ
  pub vs : Option ViewStamp
  pub comp : Comp S

module _ (bdb : Bdb) (env : Env) where
  abbrev pub new_record : Comp bdb.Store → ℕ → List ℕ → RequestRecord
  new_record c data_size mem = record {
    created_time = env.now;
    is_closed = 0;
    bit_map = bit_of env c.node_id;
    data_size = data_size;
    body = memcpy env data_size mem;
  }

  -- After the record is stored: ask the others, or execute alone.
  unfoldable pub propose : Comp bdb.Store → RequestRecord → ViewStamp → Outcome (Comp bdb.Store)
  propose c r next =
      if ltb 1 c.group_size
      then elim (build_accept_req env c (req_record_size r) (encode_record r) next) [
        | none ↦ ok c
        | some m ↦ ok (emit c (up_call (accept_req_size m.data_size) (accept_req m) to_all))
      ]
      else try_to_execute bdb env c

  unfoldable pub leader_handle_submit_req :
      Comp bdb.Store → ℕ → List ℕ → Outcome (Submitted bdb.Store)
  unfolding propose
  leader_handle_submit_req c data_size mem =
      let next = get_next_view_stamp c in
      let r = new_record c data_size mem in
      let (failed, db') = store_record bdb c.db (vstol next) (encode_record r) in
      if env.malloc (data_size + record_header_size)
      then if failed == 0
        then (propose (record c { db = db'; highest_seen = view_stamp_inc c.highest_seen }) r next
            >>= λ c'. ok (record { ret = 0; vs = some next; comp = c' }))
        else ok (record { ret = 1; vs = some next; comp = record c { db = db' } })
      else crash null_deref

  -- The request goes to the leader of the current view; the stamp is not assigned.
  unfoldable pub forward_submit_req : Comp bdb.Store → ℕ → List ℕ → Submitted bdb.Store
  forward_submit_req c data_size mem = elim (build_forward_req env c data_size mem) [
    | none ↦ record { ret = 1; vs = none; comp = c }
    | some m ↦ record {
      ret = 0;
      vs = none;
      comp = emit c (up_call (forward_req_size m.data_size) (forward_req m) c.cur_view.leader_id);
    }
  ]

  abbrev pub submit_as : Role → Comp bdb.Store → ℕ → List ℕ → Outcome (Submitted bdb.Store)
  submit_as leader c data_size mem = leader_handle_submit_req c data_size mem
  submit_as secondary c data_size mem = ok (forward_submit_req c data_size mem)

  unfoldable pub consensus_submit_request :
      Comp bdb.Store → ℕ → List ℕ → Outcome (Submitted bdb.Store)
  consensus_submit_request c data_size mem = submit_as c.my_role c data_size mem
