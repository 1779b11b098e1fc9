-- ===== src/Replica/Merge/Answers.antt =====
-- When an election ends in `leader_election_handle_announce_ack` of src/replica-sys/replica.c, and
-- when it cannot.
use libevent_paxos.Base.{
  ℕ, zero, suc, [], ◌∷◌, ◌⊎◌, ◌+◌, ◌-◌, ◌/◌, ◌%◌, ◌^◌, leb, leb→le, ==→eq, ==→ne, ◌<◌, ◌≤◌, ◌≡◌,
  ◌≢◌, refl, sym, ap, ◌∙◌, subst, true, false, ◌&&◌, List, ◌==◌, ltb, lt→ltb, le→not-lt, not-leb→lt,
  ne→==, eq→==, Bool-cases, Option-cases, inl, inr, some, ok, crash, never_ends, >>=-ok, >>=-eq-ok,
  >>=-crash, ok-injective, crash≢ok, elim_some, elim_none, elim_true, elim_false, get_or, set, take,
  length, arith,
}
use libevent_paxos.Db.{Bdb}
use libevent_paxos.Replica.Message.{LeleMsg, no_req}
use libevent_paxos.Replica.Node.{Node, NodeEnv, LeleMod, EdgeMod, index_of, put_mod}
use libevent_paxos.Replica.Election.Roles.{half_size, to_u64}
use libevent_paxos.Replica.Close.{leader_election_leader_close}
use libevent_paxos.Replica.Merge.{
  word_at, merge_loop, merge_rest, struck, merge_answer, heard, begun, counted_edge, first_answer,
  answer_of, leader_election_handle_announce_ack,
}

-- A turn of the loop in which the answer lists a lower number changes nothing.
merge_stays :
    (e : NodeEnv) (rounds : ℕ) (keys : List ℕ) (pnum cur i j : ℕ) (slots : List ℕ)
    → i < cur
    → j < pnum
    → cur < 2 ^ 64
    → word_at e keys j < word_at e slots i
    → merge_loop e rounds keys pnum cur i j slots ≡ crash never_ends
unfolding merge_loop
merge_stays e zero keys pnum cur i j slots more more' word lower = refl
merge_stays e (suc rounds) keys pnum cur i j slots more more' word lower =
    let both : (ltb i cur && ltb j pnum) ≡ true =
      rw (lt→ltb i cur more, lt→ltb j pnum more') refl in
    let back : ((i + (2 ^ 64 - 1)) % 2 ^ 64 + 1) % 2 ^ 64 ≡ i = omega arith in
    elim_true _ _ both
    ∙ elim_false _ _ (le→not-lt (word_at e keys j) (word_at e slots i) (omega arith))
    ∙ elim_false _ _ (ne→== (word_at e slots i) (word_at e keys j) (omega arith))
    ∙ ap (λ x. merge_loop e rounds keys pnum cur x j slots) back
    ∙ merge_stays e rounds keys pnum cur i j slots more more' word lower

-- The merge of two lists of record numbers, from places `i` and `j`, with fewer than 2 ^ 64 open
-- numbers: once it is given a turn for each open number from `i` on, and one to see the end, further
-- turns make no difference. It has ended by then, in the same way, or it never does.
pub merge_loop_enough :
    (e : NodeEnv) (n m : ℕ) (keys : List ℕ) (pnum cur i j : ℕ) (slots : List ℕ)
    → cur < 2 ^ 64
    → cur < n + i
    → cur < m + i
    → i ≤ cur
    → merge_loop e n keys pnum cur i j slots ≡ merge_loop e m keys pnum cur i j slots
unfolding merge_loop
merge_loop_enough e zero m keys pnum cur i j slots word h h' le = absurd (omega arith)
merge_loop_enough e (suc n) zero keys pnum cur i j slots word h h' le = absurd (omega arith)
merge_loop_enough e (suc n) (suc m) keys pnum cur i j slots word h h' le =
    elim (Bool-cases (ltb i cur && ltb j pnum)) [
      | inr over ↦ elim_false _ _ over ∙ sym (elim_false _ _ over)
      | inl both ↦
          let more : i < cur = ground arith in
          let more' : j < pnum = ground arith in
          let next : (i + 1) % 2 ^ 64 ≡ i + 1 = omega arith in
          elim_true _ _ both
          ∙ elim (Bool-cases (ltb (word_at e slots i) (word_at e keys j))) [
            | inl lower ↦
                elim_true _ _ lower
                ∙ merge_loop_enough e n m keys pnum cur ((i + 1) % 2 ^ 64) j (set slots i 0) word
                    (omega arith) (omega arith) (omega arith)
                ∙ sym (elim_true _ _ lower)
            | inr not_lower ↦
                elim_false _ _ not_lower
                ∙ elim (Bool-cases (word_at e slots i == word_at e keys j)) [
                  | inl same ↦
                      elim_true _ _ same
                      ∙ merge_loop_enough e n m keys pnum cur ((i + 1) % 2 ^ 64) (suc j) slots word
                          (omega arith) (omega arith) (omega arith)
                      ∙ sym (elim_true _ _ same)
                  | inr apart ↦
                      let higher : word_at e keys j < word_at e slots i = ground arith in
                      let back : ((i + (2 ^ 64 - 1)) % 2 ^ 64 + 1) % 2 ^ 64 ≡ i = omega arith in
                      elim_false _ _ apart
                      ∙ ap (λ x. merge_loop e n keys pnum cur x j slots) back
                      ∙ merge_stays e n keys pnum cur i j slots more more' word higher
                      ∙ sym (merge_stays e m keys pnum cur i j slots more more' word higher)
                      ∙ sym (ap (λ x. merge_loop e m keys pnum cur x j slots) back)
                      ∙ sym (elim_false _ _ apart)
                ]
                ∙ sym (elim_false _ _ not_lower)
          ]
          ∙ sym (elim_true _ _ both)
    ]

merge_answer_stays :
    (e : NodeEnv) (m : LeleMsg) (keys : List ℕ) (edge : EdgeMod) (slots : List ℕ)
    → m.start_req ≤ edge.start
    → 0 < edge.cur_empty_slots
    → edge.cur_empty_slots < 2 ^ 64
    → 0 < to_u64 m.pnum
    → word_at e keys 0 < word_at e slots 0
    → merge_answer e m keys edge slots ≡ crash never_ends
unfolding merge_answer
merge_answer_stays e m keys edge slots start some_open word some_listed lower =
    let cur = edge.cur_empty_slots in
    let not_struck : struck e m edge slots ≡ (slots, 0) =
      rw (le→not-lt m.start_req edge.start start) refl in
    >>=-crash _ (
      ap (λ f. merge_loop e (suc cur) keys (to_u64 m.pnum) cur f.1 0 f.0) not_struck
      ∙ merge_stays e (suc cur) keys (to_u64 m.pnum) cur 0 0 slots some_open some_listed word lower)

-- A merged answer leaves the notes on who has answered alone.
merge_answer-msg_count :
    (e : NodeEnv) (m : LeleMsg) (keys : List ℕ) (edge end : EdgeMod) (slots : List ℕ)
    → merge_answer e m keys edge slots ≡ ok end
    → end.msg_count ≡ edge.msg_count
unfolding merge_answer
merge_answer-msg_count e m keys edge end slots runs =
    let cur = edge.cur_empty_slots in
    let first = struck e m edge slots in
    let (merged, ran, later) =
      >>=-eq-ok (merge_loop e (suc cur) keys (to_u64 m.pnum) cur first.1 0 first.0) _ runs in
    let (rest, ran', last) = >>=-eq-ok (merge_rest e m keys edge merged) _ later in
    ap (λ x. x.msg_count) (sym (ok-injective last))

-- `l` of the entries are 1.
pub data Heard : ℕ → List ℕ → Type 0 where
  none_heard : Heard 0 []
  one_heard : {l : ℕ} {cs : List ℕ} → Heard l cs → Heard (suc l) (1 ∷ cs)
  not_heard : {l c : ℕ} {cs : List ℕ} → c ≢ 1 → Heard l cs → Heard l (c ∷ cs)

heard-Heard : (l : ℕ) (cs : List ℕ) → Heard l cs → heard cs ≡ l
unfolding heard
heard-Heard zero [] none_heard = refl
heard-Heard (suc l) [] x = elim x [ ]
heard-Heard (suc l) (c ∷ cs) (one_heard rest) = ap suc (heard-Heard l cs rest)
heard-Heard l (c ∷ cs) (not_heard other rest) = rw (ne→== c 1 other) (heard-Heard l cs rest)

module _ (bdb : Bdb) (e : NodeEnv) where
  answer_known :
      (n : Node bdb.Store) (lm : LeleMod) (m : LeleMsg) (keys counts : List ℕ) (k : ℕ)
      → n.election_mod ≡ some lm
      → lm.edge.start ≢ no_req
      → lm.edge.msg_count ≡ some counts
      → index_of m.node_id (length counts) ≡ some k
      → leader_election_handle_announce_ack bdb e n m keys ≡ elim (get_or counts k 0 == 0) [
        | false ↦ ok n
        | true ↦ first_answer bdb e n lm m keys (set counts k 1)
      ]
  unfolding leader_election_handle_announce_ack answer_of
  answer_known n lm m keys counts k has under_way known sender =
      let not_new : (lm.edge.start == no_req) ≡ false = ne→== lm.edge.start no_req under_way in
      let goes_on : begun bdb e n lm m ≡ ok n = rw not_new refl in
      elim_some _ _ has
      ∙ >>=-ok _ goes_on
      ∙ elim_some _ _ has
      ∙ elim_some _ _ known
      ∙ elim_some _ _ sender

  -- The first answer of a node that misses a lower record number than the leader does, and starts no
  -- later, keeps the leader in its loop for ever: the loop has not ended after any number of turns.
  pub announce_ack_stuck :
      (n : Node bdb.Store) (lm : LeleMod) (m : LeleMsg) (keys counts slots : List ℕ)
      → (k rounds : ℕ) → n.election_mod ≡ some lm
      → lm.edge.start ≢ no_req
      → lm.edge.msg_count ≡ some counts
      → lm.edge.req_edge ≡ some slots
      → index_of m.node_id (length counts) ≡ some k
      → get_or counts k 0 ≡ 0
      → m.start_req ≤ lm.edge.start
      → 0 < lm.edge.cur_empty_slots
      → lm.edge.cur_empty_slots < 2 ^ 64
      → 0 < to_u64 m.pnum
      → word_at e keys 0 < word_at e slots 0
      → (leader_election_handle_announce_ack bdb e n m keys ≡ crash never_ends)
        × (merge_loop e rounds keys (to_u64 m.pnum) lm.edge.cur_empty_slots 0 0 slots
            ≡ crash never_ends)
  unfolding first_answer
  announce_ack_stuck n lm m keys counts slots k rounds has under_way known open_slots sender new_one
        start some_open word some_listed lower =
      let edge = counted_edge bdb e lm.edge (set counts k 1) in
      (
        answer_known n lm m keys counts k has under_way known sender
            ∙ elim_true _ _ (eq→== (get_or counts k 0) 0 new_one)
            ∙ elim_some _ _ open_slots
            ∙ >>=-crash _
                (merge_answer_stays e m keys edge slots start some_open word some_listed lower),
        merge_stays e rounds keys (to_u64 m.pnum) lm.edge.cur_empty_slots 0 0 slots some_open
            some_listed word lower,
      )

  -- The sender is noted; nothing was sent, and the view, the state and the component are as they were.
  pub record Waits (n n' : Node bdb.Store) (counts : List ℕ) : Type 0 where
    pub lm' : LeleMod
    pub has : n'.election_mod ≡ some lm'
    pub noted : lm'.edge.msg_count ≡ some counts
    pub comp_kept : n'.comp ≡ n.comp
    pub state_kept : n'.state ≡ n.state
    pub effects_kept : n'.effects ≡ n.effects

  -- The election is closed, with an edge that notes the sender.
  pub record Closes (n n' : Node bdb.Store) (lm : LeleMod) (counts : List ℕ) : Type 0 where
    pub edge : EdgeMod
    pub noted : edge.msg_count ≡ some counts
    pub closed : leader_election_leader_close bdb e (put_mod n (record lm { edge = edge })) ≡ ok n'

  abbrev pub Answered : Node bdb.Store → Node bdb.Store → LeleMod → List ℕ → ℕ → Type 0
  Answered n n' lm counts l =
      ((l < n.group_size / 2 + 1) × Waits n n' counts)
      ⊎ ((n.group_size / 2 + 1 ≤ l) × Closes n n' lm counts)

  first_answer-Answered :
      (n n' : Node bdb.Store) (lm : LeleMod) (m : LeleMsg) (keys counts : List ℕ) (l : ℕ)
      → Heard l (take n.group_size counts)
      → first_answer bdb e n lm m keys counts ≡ ok n'
      → Answered n n' lm counts l
  unfolding first_answer
  first_answer-Answered n n' lm m keys counts l heard_from done =
      elim (Option-cases lm.edge.req_edge) [
        | inl missing ↦ absurd (crash≢ok (sym (elim_none _ _ missing) ∙ done))
        | inr (slots, there) ↦
            let (edge, merged, end) =
              >>=-eq-ok (merge_answer e m keys (counted_edge bdb e lm.edge counts) slots) _
                (sym (elim_some _ _ there) ∙ done) in
            let noted =
              merge_answer-msg_count e m keys (counted_edge bdb e lm.edge counts) edge slots
                merged in
            let count = heard-Heard l (take n.group_size counts) heard_from in
            elim (Bool-cases (leb (half_size n.group_size) (heard (take n.group_size counts)))) [
              | inl enough ↦ inr (
                omega (arith, leb→le _ _ enough, count),
                record { edge = edge; noted = noted; closed = sym (elim_true _ _ enough) ∙ end },
              )
              | inr few ↦ inl (
                omega (arith, not-leb→lt _ _ few, count),
                subst (λ x. Waits n x counts) (ok-injective (sym (elim_false _ _ few) ∙ end))
                    record {
                      lm' = record lm { edge = edge };
                      has = refl;
                      noted = noted;
                      comp_kept = refl;
                      state_kept = refl;
                      effects_kept = refl;
                    },
              )
            ]
      ]

  -- A leader that collects answers and handles one without a fault has done nothing if the sender had
  -- answered before. Otherwise it notes the sender. As long as fewer nodes than a majority of the group
  -- have answered, this one included, it sends nothing, enters no view and leaves the component alone;
  -- with a majority it closes the election.
  pub announce_ack-Answered :
      (n n' : Node bdb.Store) (lm : LeleMod) (m : LeleMsg) (keys counts : List ℕ) (k l : ℕ)
      → n.election_mod ≡ some lm
      → lm.edge.start ≢ no_req
      → lm.edge.msg_count ≡ some counts
      → index_of m.node_id (length counts) ≡ some k
      → Heard l (take n.group_size (set counts k 1))
      → leader_election_handle_announce_ack bdb e n m keys ≡ ok n'
      → ((get_or counts k 0 ≢ 0) × (n' ≡ n))
        ⊎ ((get_or counts k 0 ≡ 0) × Answered n n' lm (set counts k 1) l)
  announce_ack-Answered n n' lm m keys counts k l has under_way known sender heard_from done =
      let seen = sym (answer_known n lm m keys counts k has under_way known sender) ∙ done in
      elim (Bool-cases (get_or counts k 0 == 0)) [
        | inl new_one ↦ inr (
          ==→eq _ _ new_one,
          first_answer-Answered n n' lm m keys (set counts k 1) l heard_from
              (sym (elim_true _ _ new_one) ∙ seen),
        )
        | inr again ↦ inl (==→ne _ _ again, sym (ok-injective (sym (elim_false _ _ again) ∙ seen)))
      ]
