-- ===== src/Replica/Merge.antt =====
-- The answers to an announcement in `leader_election_handle_announce_ack` of
-- src/replica-sys/replica.c: the new leader merges the record numbers that the others miss with its
-- own, and closes the election when a majority has answered.
pub mod Answers
use libevent_paxos.Base.{
  ℕ, zero, suc, ◌+◌, ◌-◌, ◌*◌, ◌/◌, ◌%◌, ◌^◌, ◌<◌, ◌≤◌, ◌≡◌, refl, Bool, true, false, not, ◌&&◌, ℤ,
  pos, negsuc, ltb_ℤ, eqb_ℤ, List, [], ◌∷◌, ◌++◌, ◌==◌, ltb, leb, if◌then◌else◌, Option, none, some,
  Outcome, ok, crash, assert_failed, out_of_bounds, never_ends, null_deref, ◌>>=◌, le_value, drop,
  take, get_or, set, length,
}
use libevent_paxos.Db.{Bdb}
use libevent_paxos.Replica.Message.{LeleMsg, no_req}
use libevent_paxos.Replica.Node.{Node, NodeEnv, LeleMod, EdgeMod, index_of, with_mod, put_mod}
use libevent_paxos.Replica.Edge.{leader_election_handle_announce}
use libevent_paxos.Replica.Election.Roles.{half_size, to_u64}
use libevent_paxos.Replica.Close.{leader_election_leader_close}

-- The word `i` of an array; behind its end lies what the heap holds.
unfoldable pub word_at : NodeEnv → List ℕ → ℕ → ℕ
word_at e words i =
    if ltb i (length words)
    then get_or words i 0
    else le_value 4 (drop (4 * (i - length words)) e.env.heap)

-- Open numbers up to `start_req` are struck out; the first place behind them comes back.
unfoldable pub strike_to : NodeEnv → ℕ → ℕ → ℕ → ℕ → List ℕ → List ℕ × ℕ
strike_to e zero start_req cur i slots = (slots, i)
strike_to e (suc rounds) start_req cur i slots =
    elim (ltb i cur && leb (word_at e slots i) start_req) [
      | false ↦ (slots, i)
      | true ↦ strike_to e rounds start_req cur (suc i) (set slots i 0)
    ]

-- The two lists side by side: an open number that the answer does not list is struck out. Where the
-- answer lists a number that is lower than the open one, the place `i`, a word of 64 bits, goes one
-- back, and at the end of the turn one on. The loop has no bound of its own; `rounds` are those that it
-- is given, and it is still running when they are used up.
unfoldable pub merge_loop :
    NodeEnv → ℕ → List ℕ → ℕ → ℕ → ℕ → ℕ → List ℕ → Outcome (List ℕ × (ℕ × ℕ))
merge_loop e zero keys pnum cur i j slots = crash never_ends
merge_loop e (suc rounds) keys pnum cur i j slots = elim (ltb i cur && ltb j pnum) [
  | false ↦ ok (slots, (i, j))
  | true ↦ elim (ltb (word_at e slots i) (word_at e keys j)) [
    | true ↦ merge_loop e rounds keys pnum cur ((i + 1) % 2 ^ 64) j (set slots i 0)
    | false ↦ elim (word_at e slots i == word_at e keys j) [
      | true ↦ merge_loop e rounds keys pnum cur ((i + 1) % 2 ^ 64) (suc j) slots
      | false ↦
          merge_loop e rounds keys pnum cur (((i + (2 ^ 64 - 1)) % 2 ^ 64 + 1) % 2 ^ 64) j slots
    ]
  ]
]

-- Listed numbers up to the end of the range that is known already are passed over.
unfoldable pub skip_known : NodeEnv → ℕ → List ℕ → ℕ → ℕ → ℕ → ℕ
skip_known e zero keys pnum last j = j
skip_known e (suc rounds) keys pnum last j = elim (leb (word_at e keys j) last && ltb j pnum) [
  | false ↦ j
  | true ↦ skip_known e rounds keys pnum last (suc j)
]

-- The numbers behind them are added, as long as they are lower than the count of the listed ones; for
-- each there must be a slot left.
unfoldable pub append_open : NodeEnv → ℕ → List ℕ → ℤ → ℕ → ℕ → ℕ → List ℕ → Outcome (List ℕ × ℕ)
append_open e zero keys pnum max cur j slots =
    if ltb_ℤ (pos (word_at e keys j)) pnum then crash assert_failed else ok (slots, cur)
append_open e (suc room) keys pnum max cur j slots = elim (ltb_ℤ (pos (word_at e keys j)) pnum) [
  | false ↦ ok (slots, cur)
  | true ↦ append_open e room keys pnum max (suc cur) (suc j) (set slots cur (word_at e keys j))
]

-- The numbers that are not struck out move to the front.
unfoldable pub compact : NodeEnv → ℕ → ℕ → ℕ → List ℕ → List ℕ × ℕ
compact e zero i j slots = (slots, j)
compact e (suc rounds) i j slots = elim (word_at e slots i == 0) [
  | true ↦ compact e rounds (suc i) j slots
  | false ↦ compact e rounds (suc i) (suc j) (set slots j (word_at e slots i))
]

-- How many nodes have been heard from.
unfoldable pub heard : List ℕ → ℕ
heard [] = 0
heard (c ∷ cs) = let rest = heard cs in if c == 1 then suc rest else rest

abbrev pub struck : NodeEnv → LeleMsg → EdgeMod → List ℕ → List ℕ × ℕ
struck e m edge slots =
    if ltb edge.start m.start_req
    then strike_to e edge.cur_empty_slots m.start_req edge.cur_empty_slots 0 slots
    else (slots, 0)

-- What is left of one list when the other has come to its end.
unfoldable pub merge_rest :
    NodeEnv → LeleMsg → List ℕ → EdgeMod → List ℕ × (ℕ × ℕ) → Outcome (List ℕ × ℕ)
merge_rest e m keys edge (slots, (i, j)) =
    let cur = edge.cur_empty_slots in
    let max = edge.max_empty_slots in
    let known = skip_known e (to_u64 m.pnum) keys (to_u64 m.pnum) edge.last j in
    elim (i == cur) [
      | true ↦ append_open e (max - cur) keys m.pnum max cur known slots
      | false ↦
          if j == to_u64 m.pnum
          then ok ((strike_to e cur m.last_req cur i slots).0, cur)
          else ok (slots, cur)
    ]

-- The range and the open numbers after an answer.
unfoldable pub merge_answer : NodeEnv → LeleMsg → List ℕ → EdgeMod → List ℕ → Outcome EdgeMod
unfolding merge_rest
merge_answer e m keys edge slots =
    let cur = edge.cur_empty_slots in
    let first = struck e m edge slots in
    merge_loop e (suc cur) keys (to_u64 m.pnum) cur first.1 0 first.0 >>= λ merged.
    merge_rest e m keys edge merged >>= λ rest.
    let packed = compact e rest.1 0 0 rest.0 in
    ok (record edge {
      start = if ltb edge.start m.start_req then m.start_req else edge.start;
      last = if ltb edge.last m.last_req then m.last_req else edge.last;
      req_edge = some packed.0;
      cur_empty_slots = packed.1;
    })

module _ (bdb : Bdb) (e : NodeEnv) where
  -- A leader that has not begun yet begins with the first answer.
  abbrev pub begun : Node bdb.Store → LeleMod → LeleMsg → Outcome (Node bdb.Store)
  begun n lm m =
      if (lm.edge.start == no_req) && eqb_ℤ n.node_id m.content
      then leader_election_handle_announce bdb e n m
      else ok n

  abbrev pub counted_edge : EdgeMod → List ℕ → EdgeMod
  counted_edge edge counts = record edge { msg_count = some counts }

  -- The sender is noted, its range merged, and the election closed if enough nodes have answered. The
  -- two arrays are there together or not at all.
  unfoldable pub first_answer :
      Node bdb.Store → LeleMod → LeleMsg → List ℕ → List ℕ → Outcome (Node bdb.Store)
  first_answer n lm m keys counts = elim lm.edge.req_edge [
    | none ↦ crash null_deref
    | some slots ↦ merge_answer e m keys (counted_edge lm.edge counts) slots >>= λ edge.
        let n' = put_mod n (record lm { edge = edge }) in
        elim (leb (half_size n.group_size) (heard (take n.group_size counts))) [
          | true ↦ leader_election_leader_close bdb e n'
          | false ↦ ok n'
        ]
  ]

  -- Only the first answer of a node counts.
  unfoldable pub answer_of : Node bdb.Store → LeleMod → LeleMsg → List ℕ → Outcome (Node bdb.Store)
  unfolding first_answer
  answer_of n lm m keys = elim lm.edge.msg_count [
    | none ↦ crash null_deref
    | some counts ↦ elim (index_of m.node_id (length counts)) [
      | none ↦ crash out_of_bounds
      | some k ↦ elim (get_or counts k 0 == 0) [
        | false ↦ ok n
        | true ↦ first_answer n lm m keys (set counts k 1)
      ]
    ]
  ]

  unfoldable pub leader_election_handle_announce_ack :
      Node bdb.Store → LeleMsg → List ℕ → Outcome (Node bdb.Store)
  unfolding answer_of
  leader_election_handle_announce_ack n m keys =
      with_mod n λ lm. begun n lm m >>= λ n'. with_mod n' λ lm'. answer_of n' lm' m keys
