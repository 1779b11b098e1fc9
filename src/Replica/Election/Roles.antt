-- ===== src/Replica/Election/Roles.antt =====
-- Proposer, acceptor and learner in src/replica-sys/replica.c.
use libevent_paxos.Base.{
  ℕ, ◌+◌, ◌/◌, ◌%◌, ◌^◌, ◌-◌, Bool, true, false, ◌&&◌, ℤ, pos, negsuc, eqb_ℤ, ltb_ℤ, add_ℕ, sub_ℕ,
  List, [], ◌∷◌, ◌++◌, ◌==◌, leb, if◌then◌else◌, Option, none, some, Outcome, ok, crash,
  assert_failed, out_of_bounds, never_ends, ◌>>=◌, set, get_or, modify, length, le_bytes,
}
use libevent_paxos.Db.{Bdb, store_record}
use libevent_paxos.Replica.Message.{
  LeleMsg, LeleMsgType, lele_prepare, lele_prepare_ack, lele_accept, lele_accept_ack, lele_announce,
  lele,
}
use libevent_paxos.Replica.Node.{
  Node, NodeEnv, ProposerRecord, AcceptedRecord, AcceptorRecord, LeleMod, act, timer_add, timer_del,
  slient_period, wait_for_net_lele, stop_by_other_lele, index_of, send_to_one_node,
  send_to_other_nodes, with_mod, put_mod,
}
use libevent_paxos.Replica.Edge.{leader_election_handle_announce}
use libevent_paxos.Replica.Election.{minus_one, build_lele_msg}

-- `int64_t` as a 64-bit word, for storage.
abbrev pub to_u64 : ℤ → ℕ
to_u64 (pos n) = n % 2 ^ 64
to_u64 (negsuc n) = 2 ^ 64 - 1 - n % 2 ^ 64

-- The 24 bytes of an `acceptor_record`.
unfoldable pub encode_acceptor : AcceptorRecord → List ℕ
encode_acceptor a =
    le_bytes 8 (to_u64 a.highest_seen_pnum)
    ++ (le_bytes 8 (to_u64 a.accepted_pnum) ++ le_bytes 8 (to_u64 a.content))

-- g_half_size
abbrev pub half_size : ℕ → ℕ
half_size group_size = group_size / 2 + 1

-- The running result of the proposer's count: answers that carry a number, and the content that came
-- with the highest.
pub record Tally : Type 0 where
  pub inc : ℕ
  pub pnum : ℤ
  pub content : ℤ

unfoldable pub tally_step : ℤ → ProposerRecord → Tally → Tally
tally_step origin r t =
    if eqb_ℤ r.p_pnum origin
    then record {
      inc = if eqb_ℤ r.a_pnum minus_one then t.inc else t.inc + 1;
      pnum = if ltb_ℤ t.pnum r.a_pnum then r.a_pnum else t.pnum;
      content = if ltb_ℤ t.pnum r.a_pnum then r.content else t.content;
    }
    else t

unfoldable pub tally : ℤ → List ProposerRecord → Tally → Tally
tally origin [] t = t
tally origin (r ∷ rs) t = tally origin rs (tally_step origin r t)

abbrev pub empty_tally : Tally
empty_tally = record { inc = 0; pnum = minus_one; content = minus_one }

-- The number of the round that the proposer is in.
abbrev pub origin : ℕ → LeleMod → ℤ
origin group_size lm = sub_ℕ lm.next_pnum group_size

-- Whether a majority answered, and the accept request that follows, over the fields of `m`.
unfoldable pub proposer_check_prepare : ℕ → LeleMod → LeleMsg → Bool × LeleMsg
proposer_check_prepare group_size lm m =
    let t = tally (origin group_size lm) lm.proposer_arr empty_tally in
    (
      leb (half_size group_size) t.inc,
      record m { pnum = origin group_size lm; content = t.content },
    )

-- The inner loop of `learner_check_accept`: nodes that accepted number `base`, until there are enough.
unfoldable pub count_base : ℕ → ℤ → ℕ → List AcceptedRecord → ℕ
count_base half base inc [] = inc
count_base half base inc (r ∷ rs) =
    let inc' = if eqb_ℤ r.pnum base then inc + 1 else inc in
    let rest = count_base half base inc' rs in if leb half inc' then inc' else rest

-- The outer loop, over the slots from some place on; `all` are all slots.
unfoldable pub learner_loop :
    ℕ → List AcceptedRecord → ℕ → LeleMsg → List AcceptedRecord → Bool × LeleMsg
learner_loop half all inc m [] = (leb half inc, m)
learner_loop half all inc m (r ∷ rs) =
    let n = count_base half r.pnum 0 all in
    let m' = record m { pnum = r.pnum; content = r.content } in
    let go_on = learner_loop half all n m' rs in
    let skip = learner_loop half all inc m rs in
    if eqb_ℤ r.pnum minus_one then skip else if leb half n then (true, m') else go_on

-- Whether a majority accepted one number, and the number with its content.
unfoldable pub learner_check_accept : ℕ → LeleMod → LeleMsg → Bool × LeleMsg
learner_check_accept group_size lm m =
    learner_loop (half_size group_size) lm.learner_arr 0
      (record m { pnum = minus_one; content = minus_one }) lm.learner_arr

module _ (bdb : Bdb) (e : NodeEnv) where
  -- The acceptor's record goes to the database under the number of the next view, again and again
  -- until that succeeds. An attempt that fails leaves all as it was, and so fails each time.
  unfoldable pub acceptor_update_record : Node bdb.Store → Outcome (Node bdb.Store)
  acceptor_update_record n = with_mod n λ lm.
      let (failed, db') = store_record bdb n.comp.db lm.next_view (encode_acceptor lm.acceptor) in
      let comp = n.comp in
      if e.env.malloc 24 && (failed == 0)
      then ok (record n { comp = record comp { db = db' } })
      else crash never_ends

  abbrev accepts : LeleMsg → AcceptedRecord → AcceptedRecord
  accepts m r = record r { pnum = m.pnum; content = m.content }

  -- A round with no content to repeat proposes the node itself.
  abbrev pub own_content : Node bdb.Store → LeleMsg → LeleMsg
  own_content n m = record m {
    content = if eqb_ℤ m.content minus_one then n.node_id else m.content;
  }

  -- The accept request goes out, and the slot of the node itself is filled at once.
  unfoldable pub leader_election_proposer_phase_two :
      Node bdb.Store → LeleMsg → Outcome (Node bdb.Store)
  leader_election_proposer_phase_two n m = with_mod n λ lm.
      if eqb_ℤ m.pnum minus_one
      then crash assert_failed
      else (build_lele_msg e n.node_id lm lele_accept (own_content n m) >>= λ sent.
          elim (index_of n.node_id (length lm.learner_arr)) [
            | none ↦ crash out_of_bounds
            | some me ↦ ok (
                send_to_other_nodes
                  (put_mod n (record lm {
                    learner_arr = modify lm.learner_arr me (accepts (own_content n m));
                  }))
                  (lele sent))
          ])

  -- Phase two begins when a majority has answered.
  unfoldable pub phase_two_if_ready : Node bdb.Store → Outcome (Node bdb.Store)
  phase_two_if_ready n = with_mod n λ lm.
      let r = proposer_check_prepare n.group_size lm e.fresh_msg in
      if r.0 then leader_election_proposer_phase_two n r.1 else ok n

  abbrev answers : ℤ → ℤ → ℤ → ProposerRecord
  answers p_pnum a_pnum content = record { p_pnum = p_pnum; a_pnum = a_pnum; content = content }

  -- A new round: its number is the last one and the size of the group, and the prepare request for
  -- the last one goes out. The node answers itself if that number is higher than all it has seen.
  unfoldable pub proposer_prepare : Node bdb.Store → Outcome (Node bdb.Store)
  proposer_prepare n = with_mod n λ lm.
      build_lele_msg e n.node_id lm lele_prepare e.fresh_msg >>= λ sent.
      let lm' = record lm { next_pnum = add_ℕ lm.next_pnum n.group_size } in
      let n' =
        send_to_other_nodes
          (act (act (put_mod n lm') (timer_del slient_period))
            (timer_add slient_period wait_for_net_lele))
          (lele sent) in
      let acceptor = lm.acceptor in
      if ltb_ℤ lm.acceptor.highest_seen_pnum sent.pnum
      then elim (index_of n.node_id (length lm.proposer_arr)) [
        | none ↦ crash out_of_bounds
        | some me ↦
            acceptor_update_record (
              put_mod n' (record lm' {
                acceptor = record acceptor { highest_seen_pnum = sent.pnum };
                proposer_arr =
                    set lm.proposer_arr me
                      (answers sent.pnum lm.acceptor.accepted_pnum lm.acceptor.content);
              }))
            >>= phase_two_if_ready
      ]
      else ok n'

  -- An answer to a prepare request counts only for the round and the view that the node is in.
  unfoldable pub proposer_answer : Node bdb.Store → LeleMsg → Outcome (Node bdb.Store)
  proposer_answer n m = with_mod n λ lm.
      if eqb_ℤ m.p_pnum (origin n.group_size lm) && (m.next_view == lm.next_view)
      then elim (index_of m.node_id (length lm.proposer_arr)) [
        | none ↦ crash out_of_bounds
        | some i ↦ phase_two_if_ready (
            put_mod n (record lm {
              proposer_arr =
                  set lm.proposer_arr i (answers (origin n.group_size lm) m.pnum m.content);
            }))
      ]
      else ok n

  abbrev is_prepare_ack : LeleMsgType → Bool
  is_prepare_ack lele_prepare_ack = true
  is_prepare_ack other = false

  -- With no message the timer has run out.
  unfoldable pub leader_election_proposer_do :
      Node bdb.Store → Option LeleMsg → Outcome (Node bdb.Store)
  leader_election_proposer_do n none = proposer_prepare n
  leader_election_proposer_do n (some m) =
      if is_prepare_ack m.kind then proposer_answer n m else crash assert_failed

  abbrev is_accept_ack : LeleMsgType → Bool
  is_accept_ack lele_accept_ack = true
  is_accept_ack other = false

  -- A majority for one number ends the election: it is announced, and handled here.
  unfoldable pub learner_accepts : Node bdb.Store → Outcome (Node bdb.Store)
  learner_accepts n = with_mod n λ lm.
      let r = learner_check_accept n.group_size lm e.fresh_msg in
      if r.0
      then (build_lele_msg e n.node_id lm lele_announce r.1 >>= λ sent.
          leader_election_handle_announce bdb e (send_to_other_nodes n (lele sent)) sent)
      else ok n

  -- An acceptance with a higher number than the sender's last one is noted and counted.
  unfoldable pub leader_election_learner_do : Node bdb.Store → LeleMsg → Outcome (Node bdb.Store)
  leader_election_learner_do n m = with_mod n λ lm.
      if is_accept_ack m.kind
      then elim (index_of m.node_id (length lm.learner_arr)) [
        | none ↦ crash out_of_bounds
        | some i ↦
            if ltb_ℤ
              (get_or lm.learner_arr i
                (record { pnum = minus_one; content = minus_one; last_req = 0 })).pnum
              m.pnum
            then learner_accepts
                (put_mod n (record lm { learner_arr = modify lm.learner_arr i (accepts m) }))
            else ok n
      ]
      else ok n

  -- A proposer steps back for a while.
  unfoldable pub stop_propose : Node bdb.Store → Node bdb.Store
  stop_propose n = elim n.election_mod [
    | none ↦ n
    | some lm ↦ act (act n (timer_del slient_period)) (timer_add slient_period stop_by_other_lele)
  ]

  -- The acceptor as a prepare request leaves it: the content of the request, -1, replaces its own.
  abbrev pub prepared : LeleMod → LeleMsg → LeleMod
  prepared lm m =
      let acceptor = lm.acceptor in
      record lm { acceptor = record acceptor { highest_seen_pnum = m.pnum; content = m.content } }

  unfoldable pub promise : Node bdb.Store → LeleMod → LeleMsg → Outcome (Node bdb.Store)
  promise n lm m = acceptor_update_record (put_mod n (prepared lm m)) >>= λ p. with_mod p λ lm'.
      build_lele_msg e n.node_id lm' lele_prepare_ack e.fresh_msg >>= λ sent.
      send_to_one_node p m.node_id (lele sent)

  -- A prepare request with a higher number than all seen is promised and answered.
  unfoldable pub acceptor_prepare : Node bdb.Store → LeleMsg → Outcome (Node bdb.Store)
  unfolding stop_propose
  acceptor_prepare n m =
      let n' = if ltb_ℤ m.node_id n.node_id then stop_propose n else n in
      with_mod n'
        λ lm. if ltb_ℤ lm.acceptor.highest_seen_pnum m.pnum then promise n' lm m else ok n'

  -- An accept request that no higher number forbids is accepted, learned and told to all.
  unfoldable pub acceptor_accept : Node bdb.Store → LeleMsg → Outcome (Node bdb.Store)
  acceptor_accept n m = with_mod n λ lm.
      if ltb_ℤ m.pnum lm.acceptor.highest_seen_pnum
      then ok n
      else (acceptor_update_record (
            put_mod n (record lm {
              acceptor = record {
                highest_seen_pnum = m.pnum;
                accepted_pnum = m.pnum;
                content = m.content;
              };
            }))
          >>= λ p. with_mod p λ lm'.
            build_lele_msg e n.node_id lm' lele_accept_ack e.fresh_msg >>= λ sent.
            leader_election_learner_do p sent >>= λ q. ok (send_to_other_nodes q (lele sent)))

  abbrev acceptor_by : LeleMsgType → Node bdb.Store → LeleMsg → Outcome (Node bdb.Store)
  acceptor_by lele_prepare n m = acceptor_prepare n m
  acceptor_by lele_accept n m = acceptor_accept n m
  acceptor_by other n m = ok n

  unfoldable pub leader_election_acceptor_do : Node bdb.Store → LeleMsg → Outcome (Node bdb.Store)
  leader_election_acceptor_do n m = acceptor_by m.kind n m
