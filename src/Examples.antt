-- ===== src/Examples.antt =====
-- A small database, environment and component, at which the theorems about the component of
-- src/consensus/consensus.c are applied.
pub mod Handlers
pub mod Records
pub mod Election
pub mod Sequences
pub mod Proxy
pub mod Replica
pub mod Setup
pub mod Sessions
use libevent_paxos.Base.{
  ℕ, zero, suc, ◌+◌, ◌-◌, ◌^◌, ◌≤◌, ◌<◌, ◌≡◌, ◌≢◌, refl, ap, ◌==◌, Bool, true, false, if◌then◌else◌,
  Option, none, some, List, [], ◌∷◌, ◌++◌, ℤ, pos, arith, Outcome, ok, crash, ◌⊎◌, inl, inr, eq→==,
  ne→==, bit, Bool-cases,
}
use libevent_paxos.Stamp.{View, ViewStamp, IsStamp, Timeval, vstol}
use libevent_paxos.Db.{Bdb, Db, open_db, store_record, retrieve_record, delete_record}
use libevent_paxos.Consensus.Record.{Env, RequestRecord, IsRecord, encode_record}
use libevent_paxos.Consensus.Message.{AcceptReq, AcceptAck}
use libevent_paxos.Consensus.State.{Comp, Role, leader, secondary}

-- What a map holds under a key, as the calls of the database report it.
abbrev pub found : Option (List ℕ) → ℕ × List ℕ
found none = (1, [])
found (some v) = (0, v)

abbrev pub Map : Type 0
Map = ℕ → Option (List ℕ)

abbrev pub with_entry : Map → ℕ → Option (List ℕ) → Map
with_entry s k v j = if k == j then v else s j

pub same_entry : (s : Map) (k : ℕ) (v : Option (List ℕ)) → with_entry s k v k ≡ v
same_entry s k v = rw (eq→== k k refl) refl

pub other_entry : (s : Map) (k j : ℕ) (v : Option (List ℕ)) → k ≢ j → with_entry s k v j ≡ s j
other_entry s k j v h = rw (ne→== k j h) refl

-- A database in memory whose puts succeed and whose deletes do.
abbrev pub map_db : Bdb
map_db = record {
  Store = Map;
  put = λ s k v. (0, with_entry s k (some v));
  get = λ s k. found (s k);
  del = λ s k. (0, with_entry s k none);
  get-put = λ s k v done. ap found (same_entry s k (some v));
  get-put_ne = λ s k j v h. ap found (other_entry s k j (some v) h);
  put_failed = λ s k v failed. absurd (failed refl);
  get-del = λ s k done gone. absurd (omega (arith, ap (λ x. (found x).0) (same_entry s k none)));
  get-del_ne = λ s k j h. ap found (other_entry s k j none h);
  del_failed = λ s k failed. absurd (failed refl);
}

-- A process at time 5.7 with all the memory that it asks for.
abbrev pub calm : Env
calm = record {
  now = record { tv_sec = 5; tv_usec = 7 };
  malloc = λ n. true;
  heap = [];
  fresh_closed = 0;
  fresh_bits = 0;
  wide_shift = λ n. 0;
}

-- A stored request of six bytes, acknowledged by nodes 0 and 1.
abbrev pub hello : RequestRecord
hello = record {
  created_time = record { tv_sec = 1; tv_usec = 2 };
  is_closed = 0;
  bit_map = 3;
  data_size = 6;
  body = 104 ∷ 101 ∷ 108 ∷ 108 ∷ 111 ∷ 33 ∷ [];
}

pub hello-IsRecord : IsRecord hello
hello-IsRecord = record {
  sec_fits = omega arith;
  usec_fits = omega arith;
  closed_fits = omega arith;
  bits_fit = omega arith;
  size_fits = omega arith;
  sized = refl;
}

abbrev pub stamp_in_1 : ℕ → ViewStamp
stamp_in_1 n = record { view_id = 1; req_id = n }

-- The number of the first request of view 1.
abbrev pub first_key : ℕ
first_key = 4294967297

abbrev pub with_hello : Map
with_hello j = if j == first_key then some (encode_record hello) else none

abbrev pub nothing : Map
nothing j = none

-- Node 0 leads view 1 of a group of three; one request is seen, and none is committed.
abbrev pub first_leader : Map → Comp Map
first_leader s = record {
  my_role = leader;
  node_id = 0;
  deliver_mode = 0;
  group_size = 3;
  cur_view = record { view_id = 1; leader_id = pos 0; req_id = 0 };
  highest_seen = stamp_in_1 1;
  highest_to_commit = stamp_in_1 0;
  highest_committed = stamp_in_1 0;
  db = open_db s;
  ucb = true;
  out = [];
}

-- Node 1 follows it.
abbrev pub follower : Map → Comp Map
follower s = record {
  my_role = secondary;
  node_id = 1;
  deliver_mode = 0;
  group_size = 3;
  cur_view = record { view_id = 1; leader_id = pos 0; req_id = 0 };
  highest_seen = stamp_in_1 0;
  highest_to_commit = stamp_in_1 0;
  highest_committed = stamp_in_1 0;
  db = open_db s;
  ucb = true;
  out = [];
}

-- The result of a run, or `c` if it faults.
abbrev pub outcome_or : Comp Map → Outcome (Comp Map) → Comp Map
outcome_or c (ok d) = d
outcome_or c (crash f) = c
