-- ===== src/Replica/Close.antt =====
-- The closing of an election in src/replica-sys/replica.c: the new leader enters the view and tells
-- the others, who enter it on its word.
pub mod Agree
use libevent_paxos.Base.{
  ℕ, ◌+◌, ◌-◌, ◌%◌, ◌^◌, ◌≡◌, true, ℤ, pos, negsuc, List, ◌++◌, ◌==◌, ltb, if◌then◌else◌, Option,
  none, some, Outcome, ok, crash, null_deref, ◌>>=◌, le_value, drop, get_or,
}
use libevent_paxos.Stamp.{View, vstol}
use libevent_paxos.Db.{Bdb, retrieve_record}
use libevent_paxos.Replica.Message.{LeleMsg, lele_fin, lele, lele_msg_size}
use libevent_paxos.Replica.Node.{Node, NodeEnv, LeleMod, EdgeMod, send_to_other_nodes, with_mod}
use libevent_paxos.Replica.View.{update_view}

-- A 64-bit word as an `int64_t`.
abbrev pub of_u64 : ℕ → ℤ
of_u64 w = if ltb w (2 ^ 63) then pos w else negsuc (2 ^ 64 - 1 - w)

-- The memory at an address, read through a `view*`.
unfoldable pub decode_view : List ℕ → View
decode_view mem = record {
  view_id = le_value 4 mem;
  leader_id = of_u64 (le_value 8 (drop 8 mem));
  req_id = le_value 4 (drop 16 mem);
}

abbrev pub closing : NodeEnv → View → LeleMsg
closing e v =
    let m = e.fresh_msg in
    record m {
      kind = lele_fin;
      next_view = v.view_id;
      node_id = v.leader_id;
      last_req = v.req_id;
      content = v.leader_id;
    }

abbrev pub announced_view : LeleMsg → View
announced_view m = record { view_id = m.next_view; leader_id = m.content; req_id = m.last_req }

module _ (bdb : Bdb) (e : NodeEnv) where
  -- The view that is given, or else what is stored under the first stamp of view `view_id`.
  abbrev view_to_close : Node bdb.Store → ℕ → Option View → Option View
  view_to_close n view_id (some v) = some v
  view_to_close n view_id none =
      elim (retrieve_record bdb n.comp.db (vstol record { view_id = view_id; req_id = 0 })).1 [
        | none ↦ none
        | some mem ↦ some (decode_view (mem ++ e.env.heap))
      ]

  unfoldable pub leader_election_build_close : Node bdb.Store → ℕ → Option View → Option LeleMsg
  leader_election_build_close n view_id new_view_info =
      if e.env.malloc lele_msg_size
      then elim (view_to_close n view_id new_view_info) [
        | none ↦ none
        | some v ↦ some (closing e v)
      ]
      else none

  unfoldable pub leader_election_mod_collection : Node bdb.Store → Node bdb.Store
  leader_election_mod_collection n = n

  -- Only the view that the election is for is entered.
  unfoldable pub leader_election_handle_close : Node bdb.Store → LeleMsg → Outcome (Node bdb.Store)
  leader_election_handle_close n m = with_mod n λ lm.
      if lm.next_view == m.next_view
      then (update_view bdb e n (announced_view m) >>= λ n'. ok (leader_election_mod_collection n'))
      else ok n

  -- The old view ends before the first record number that a majority misses.
  abbrev pub last_of_view : EdgeMod → Outcome ℕ
  last_of_view edge = if edge.cur_empty_slots == 0 then ok edge.last else elim edge.req_edge [
    | none ↦ crash null_deref
    | some slots ↦ ok ((get_or slots 0 0 + 2 ^ 32 - 1) % 2 ^ 32)
  ]

  abbrev pub tell_others : Node bdb.Store → Option LeleMsg → Node bdb.Store
  tell_others n none = n
  tell_others n (some m) = send_to_other_nodes n (lele m)

  unfoldable pub leader_election_leader_close : Node bdb.Store → Outcome (Node bdb.Store)
  unfolding leader_election_build_close leader_election_mod_collection
  leader_election_leader_close n = with_mod n λ lm. last_of_view lm.edge >>= λ req_id.
      let v : View = record {
        view_id = lm.next_view;
        leader_id = lm.new_leader;
        req_id = req_id;
      } in
      update_view bdb e n v >>= λ n'. ok (
        leader_election_mod_collection
          (tell_others n' (leader_election_build_close n' lm.next_view (some v))))
