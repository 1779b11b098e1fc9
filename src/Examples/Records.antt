-- ===== src/Examples/Records.antt =====
-- The theorems about records, quorums, the database and submitted requests, at one request.
use libevent_paxos.Base.{
  ℕ, ◌+◌, ◌-◌, ◌^◌, ◌<◌, ◌≡◌, ◌≢◌, refl, true, some, List, [], ◌∷◌, ◌++◌, pos, negsuc, arith, ok,
  ◌⊎◌, bit, popcount, take, le_bytes,
}
use libevent_paxos.Stamp.{IsStamp, vstol, view_stamp_comp}
use libevent_paxos.Stamp.Order.{view_stamp_comp-vstol}
use libevent_paxos.Db.{no_db, open_db, store_record, retrieve_record}
use libevent_paxos.Consensus.Record.{
  RequestRecord, encode_record, decode_record, update_record, reached_quorum,
}
use libevent_paxos.Consensus.Record.Quorum.{update_record_counts, quorums_meet, node_31_quorum}
use libevent_paxos.Consensus.Message.{MissingAck}
use libevent_paxos.Consensus.State.{Comp}
use libevent_paxos.Consensus.Build.{build_missing_ack}
use libevent_paxos.Consensus.Submit.{Submitted, leader_handle_submit_req}
use libevent_paxos.Consensus.Submit.Stored.{
  storing, Refused, Proposed, leader_handle_submit_req-Proposed,
}
use libevent_paxos.Consensus.Handle.Missing.{build_missing_ack_truncates}
use libevent_paxos.Examples.{
  map_db, Map, calm, hello, hello-IsRecord, stamp_in_1, with_hello, nothing, first_leader,
}

update_record_counts_example :
    (bit 2 (update_record calm hello 2).bit_map ≡ 1)
    × (popcount 64 (update_record calm hello 2).bit_map + bit 2 hello.bit_map
        ≡ popcount 64 hello.bit_map + 1)
update_record_counts_example = update_record_counts calm hello 2 (omega arith)

-- The same request, acknowledged by nodes 1 and 2.
abbrev other_quorum : RequestRecord
other_quorum = record hello { bit_map = 6 }

hello_quorum : reached_quorum hello 3 ≡ true
unfolding reached_quorum popcount
hello_quorum = refl

others_quorum : reached_quorum other_quorum 3 ≡ true
unfolding reached_quorum popcount
others_quorum = refl

quorums_meet_example :
    (n : ℕ) × (n < 3) × (bit n hello.bit_map ≡ 1) × (bit n other_quorum.bit_map ≡ 1)
quorums_meet_example =
    quorums_meet hello other_quorum 3 (omega arith) (omega arith) (omega arith) hello_quorum
      others_quorum

node_31_quorum_example : reached_quorum (update_record calm hello 31) 5 ≡ true
node_31_quorum_example = node_31_quorum calm hello 5 (omega arith)

abbrev bytes : List ℕ
bytes = 104 ∷ 105 ∷ []

leader_handle_submit_req-Proposed_example :
    (s : Submitted Map) × (leader_handle_submit_req map_db calm (first_leader with_hello) 2 bytes
      ≡ ok s)
    × ((((storing map_db calm (first_leader with_hello) 2 bytes).0 ≢ 0)
          × Refused map_db calm (first_leader with_hello) s)
        ⊎ (((storing map_db calm (first_leader with_hello) 2 bytes).0 ≡ 0)
            × Proposed map_db calm (first_leader with_hello) 2 bytes s))
leader_handle_submit_req-Proposed_example =
    leader_handle_submit_req-Proposed map_db calm (first_leader with_hello) 2 bytes (omega arith)
      (omega arith) (omega arith) (omega arith) (λ n. refl)

-- The store for it succeeds; that of a leader with no database fails.
bytes_stored : (storing map_db calm (first_leader with_hello) 2 bytes).0 ≡ 0
unfolding store_record
bytes_stored = refl

abbrev storeless : Comp Map
storeless = record (first_leader nothing) { db = no_db }

storeless_fails : (storing map_db calm storeless 2 bytes).0 ≢ 0
unfolding store_record
storeless_fails e = omega arith

hello_there :
    retrieve_record map_db (open_db with_hello) (vstol (stamp_in_1 1))
    ≡ (0, some (encode_record hello))
unfolding retrieve_record vstol encode_record le_bytes
hello_there = refl

build_missing_ack_truncates_example :
    (m : MissingAck) × (build_missing_ack map_db calm (first_leader with_hello) (stamp_in_1 1)
      ≡ some m)
    × (decode_record (m.body ++ [])
        ≡ record hello { body = take 6 (take (6 - 5) hello.body ++ []) })
build_missing_ack_truncates_example =
    build_missing_ack_truncates map_db calm (first_leader with_hello) (stamp_in_1 1) hello calm
      hello-IsRecord (omega arith) (omega arith) hello_there refl

stamp_in_1_fits : (n : ℕ) → n < 2 ^ 32 → IsStamp (stamp_in_1 n)
stamp_in_1_fits n fits = record { view_fits = omega arith; req_fits = fits }

view_stamp_comp-vstol_example :
    ((view_stamp_comp (stamp_in_1 2) (stamp_in_1 9) ≡ negsuc 0)
      × (vstol (stamp_in_1 2) < vstol (stamp_in_1 9)))
    ⊎ (((view_stamp_comp (stamp_in_1 2) (stamp_in_1 9) ≡ pos 0) × (stamp_in_1 2 ≡ stamp_in_1 9))
        ⊎ ((view_stamp_comp (stamp_in_1 2) (stamp_in_1 9) ≡ pos 1)
            × (vstol (stamp_in_1 9) < vstol (stamp_in_1 2))))
view_stamp_comp-vstol_example =
    view_stamp_comp-vstol (stamp_in_1 2) (stamp_in_1 9) (stamp_in_1_fits 2 (omega arith))
      (stamp_in_1_fits 9 (omega arith))
