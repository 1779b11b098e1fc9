-- ===== src/Consensus/Execute/Leader.antt =====
-- The leader commits exactly the longest run of records that have reached a quorum.
use libevent_paxos.Base.{
  ℕ, zero, suc, ◌+◌, ◌-◌, ◌%◌, ◌^◌, ◌≤◌, ◌<◌, ◌≡◌, refl, sym, ap, ◌∙◌, ◌⊎◌, inl, inr, Bool, true,
  false, List, Option, none, some, arith, Bool-cases, eq→==, ok, pos, eqb_ℤ,
}
use libevent_paxos.Stamp.{ViewStamp, IsStamp, vstol, view_stamp_comp}
use libevent_paxos.Stamp.Order.{vstol_lem}
use libevent_paxos.Db.{Bdb}
use libevent_paxos.Consensus.Record.{Env, decode_record, reached_quorum}
use libevent_paxos.Consensus.State.{Comp, view_stamp_inc}
use libevent_paxos.Consensus.Execute.{
  retrieve, deliver_msg_data, leader_commit, leader_loop, leader_try_to_execute,
}

view_stamp_inc_lem :
    (vs : ViewStamp)
    → vs.req_id + 1 < 2 ^ 32
    → view_stamp_inc vs ≡ record { view_id = vs.view_id; req_id = vs.req_id + 1 }
unfolding view_stamp_inc
view_stamp_inc_lem vs room = ground arith

module _ (bdb : Bdb) (env : Env) where
  -- Record `k` is there, and its bit map has the given standing with the quorum of the group.
  abbrev pub HasQuorum : Bool → Comp bdb.Store → ℕ → Type 0
  HasQuorum b c k =
      (mem : List ℕ) × (retrieve bdb env c k ≡ some mem)
      × (reached_quorum (decode_record mem) c.group_size ≡ b)

  -- Every record from `lo` on, `rounds` of them, can be retrieved.
  abbrev pub Present : Comp bdb.Store → ℕ → ℕ → Type 0
  Present c lo rounds =
      (k : ℕ) → k < rounds → (mem : List ℕ) × (retrieve bdb env c (lo + k) ≡ some mem)

  -- Committing one record touches the two stamps and the calls made.
  leader_commit_frame :
      (flag : Bool) (index : ℕ) (c : Comp bdb.Store)
      → leader_commit bdb env flag index c ≡ record c {
        highest_to_commit = view_stamp_inc c.highest_to_commit;
        highest_committed = (leader_commit bdb env flag index c).highest_committed;
        out = (leader_commit bdb env flag index c).out;
      }
  unfolding leader_commit deliver_msg_data
  leader_commit_frame flag index c = ground arith

  retrieve-same :
      (c d : Comp bdb.Store) (k : ℕ) → d.db ≡ c.db → retrieve bdb env d k ≡ retrieve bdb env c k
  unfolding retrieve
  retrieve-same c d k same = rw same

  leader_commit-db :
      (flag : Bool) (index : ℕ) (c : Comp bdb.Store)
      → (leader_commit bdb env flag index c).db ≡ c.db
  leader_commit-db flag index c = ap (λ d. d.db) (leader_commit_frame flag index c)

  leader_commit-group_size :
      (flag : Bool) (index : ℕ) (c : Comp bdb.Store)
      → (leader_commit bdb env flag index c).group_size ≡ c.group_size
  leader_commit-group_size flag index c = ap (λ d. d.group_size) (leader_commit_frame flag index c)

  leader_commit-to_commit :
      (flag : Bool) (index : ℕ) (c : Comp bdb.Store)
      → (leader_commit bdb env flag index c).highest_to_commit ≡ view_stamp_inc c.highest_to_commit
  leader_commit-to_commit flag index c =
      ap (λ d. d.highest_to_commit) (leader_commit_frame flag index c)

  -- What `rounds` rounds of the leader's loop from record `start` make of `c`.
  pub record LeaderRun (c : Comp bdb.Store) (start rounds : ℕ) (d : Comp bdb.Store) : Type 0 where
    pub count : ℕ
    pub bounded : count ≤ rounds
    pub same_view : d.highest_to_commit.view_id ≡ c.highest_to_commit.view_id
    pub moved : d.highest_to_commit.req_id ≡ c.highest_to_commit.req_id + count
    pub quorums : (k : ℕ) → k < count → HasQuorum true c (start + k)
    pub stops : (count ≡ rounds) ⊎ HasQuorum false c (start + count)
    pub same_db : d.db ≡ c.db
    pub same_seen : d.highest_seen ≡ c.highest_seen

  -- Standing with the quorum rests on the database and the size of the group alone.
  HasQuorum-same :
      (b : Bool) (c d : Comp bdb.Store) (j k : ℕ)
      → d.db ≡ c.db
      → d.group_size ≡ c.group_size
      → j ≡ k
      → HasQuorum b d j
      → HasQuorum b c k
  HasQuorum-same b c d j k db size at (mem, there, q) = (
    mem,
    (sym (retrieve-same c d k db) ∙ ap (retrieve bdb env d) (sym at)) ∙ there,
    ap (reached_quorum (decode_record mem)) (sym size) ∙ q,
  )

  Present-rest :
      (c : Comp bdb.Store) (flag : Bool) (start rounds : ℕ)
      → Present c start (suc rounds)
      → Present (leader_commit bdb env flag start c) (suc start) rounds
  Present-rest c flag start rounds there k h =
      let (mem, found) = there (suc k) (omega arith) in
      let at : suc start + k ≡ start + suc k = omega arith in
      (
        mem,
        retrieve-same c (leader_commit bdb env flag start c) (suc start + k)
              (leader_commit-db flag start c)
            ∙ ap (retrieve bdb env c) at
            ∙ found,
      )

  room_rest :
      (flag : Bool) (c : Comp bdb.Store) (start rounds : ℕ)
      → c.highest_to_commit.req_id + suc rounds < 2 ^ 32
      → (leader_commit bdb env flag start c).highest_to_commit.req_id + rounds < 2 ^ 32
  unfolding view_stamp_inc
  room_rest flag c start rounds room =
      omega (arith, ap (λ s. s.req_id) (leader_commit-to_commit flag start c))

  leader_loop_more :
      (flag : Bool) (rounds start : ℕ) (stale : Option (List ℕ)) (c : Comp bdb.Store)
      → HasQuorum true c start
      → (mem : List ℕ) × (leader_loop bdb env flag (suc rounds) start stale c
          ≡ leader_loop bdb env flag rounds
              (suc start)
              (some mem)
              (leader_commit bdb env flag start c))
  unfolding leader_loop
  leader_loop_more flag rounds start stale c (mem, there, q) =
      (mem, rw (there, leader_loop) (rw (q, leader_loop) refl))

  leader_loop_stop :
      (flag : Bool) (rounds start : ℕ) (stale : Option (List ℕ)) (c : Comp bdb.Store)
      → HasQuorum false c start
      → leader_loop bdb env flag (suc rounds) start stale c ≡ ok c
  unfolding leader_loop
  leader_loop_stop flag rounds start stale c (mem, there, q) =
      rw (there, leader_loop) (rw (q, leader_loop) refl)

  quorums_cons :
      (c : Comp bdb.Store) (start n : ℕ)
      → HasQuorum true c start
      → ((k : ℕ) → k < n → HasQuorum true c (suc start + k))
      → (k : ℕ) → k < suc n
      → HasQuorum true c (start + k)
  quorums_cons c start n first rest zero h =
      HasQuorum-same true c c start (start + 0) refl refl (omega arith) first
  quorums_cons c start n first rest (suc k) h =
      HasQuorum-same true c c (suc start + k) (start + suc k) refl refl (omega arith)
        (rest k (omega arith))

  LeaderRun-cons :
      (flag : Bool) (c d : Comp bdb.Store) (start rounds : ℕ)
      → HasQuorum true c start
      → c.highest_to_commit.req_id + suc rounds < 2 ^ 32
      → LeaderRun (leader_commit bdb env flag start c) (suc start) rounds d
      → LeaderRun c start (suc rounds) d
  LeaderRun-cons flag c d start rounds first room r = record {
    count = suc r.count;
    bounded = omega (arith, r.bounded);
    same_view = r.same_view ∙ ap (λ s. s.view_id) inc;
    moved = omega (arith, r.moved, ap (λ s. s.req_id) inc);
    quorums =
        quorums_cons c start r.count first
          (λ k h. back true (suc start + k) _ refl (r.quorums k h));
    stops = stops r.stops;
    same_db = r.same_db ∙ leader_commit-db flag start c;
    same_seen = r.same_seen ∙ ap (λ e. e.highest_seen) (leader_commit_frame flag start c);
  }
    where
      c' : Comp bdb.Store
      c' = leader_commit bdb env flag start c

      inc : c'.highest_to_commit ≡ record {
        view_id = c.highest_to_commit.view_id;
        req_id = c.highest_to_commit.req_id + 1;
      }
      inc =
          leader_commit-to_commit flag start c
          ∙ view_stamp_inc_lem c.highest_to_commit (omega arith)

      back : (b : Bool) (j k : ℕ) → j ≡ k → HasQuorum b c' j → HasQuorum b c k
      back b j k at =
          HasQuorum-same b c c' j k (leader_commit-db flag start c)
            (leader_commit-group_size flag start c) at

      stops :
          (r.count ≡ rounds) ⊎ HasQuorum false c' (suc start + r.count)
          → (suc r.count ≡ suc rounds) ⊎ HasQuorum false c (start + suc r.count)
      stops (inl end) = inl (ap suc end)
      stops (inr lacks) =
          inr (back false (suc start + r.count) (start + suc r.count) (omega arith) lacks)

  -- With the records at hand the loop ends by itself, without a fault.
  pub leader_loop-LeaderRun :
      (flag : Bool) (rounds start : ℕ) (stale : Option (List ℕ)) (c : Comp bdb.Store)
      → Present c start rounds
      → c.highest_to_commit.req_id + rounds < 2 ^ 32
      → (d : Comp bdb.Store) × (leader_loop bdb env flag rounds start stale c ≡ ok d)
        × LeaderRun c start rounds d
  leader_loop-LeaderRun flag zero start stale c there room = (
    c,
    unfold leader_loop in refl,
    record {
      count = 0;
      bounded = omega arith;
      same_view = refl;
      moved = omega arith;
      quorums = λ k h. absurd (omega arith);
      stops = inl refl;
      same_db = refl;
      same_seen = refl;
    },
  )
  leader_loop-LeaderRun flag (suc rounds) start stale c there room =
      let (mem, found) = there 0 (omega arith) in
      let first : start + 0 ≡ start = omega arith in
      let here : retrieve bdb env c start ≡ some mem =
        ap (retrieve bdb env c) (sym first) ∙ found in
      elim (Bool-cases (reached_quorum (decode_record mem) c.group_size)) [
        | inl q ↦
            let (mem', more) = leader_loop_more flag rounds start stale c (mem, here, q) in
            let (d, runs, r) =
              leader_loop-LeaderRun flag rounds (suc start) (some mem')
                (leader_commit bdb env flag start c) (Present-rest c flag start rounds there)
                (room_rest flag c start rounds room) in
            (d, more ∙ runs, LeaderRun-cons flag c d start rounds (mem, here, q) room r)
        | inr q ↦ (
          c,
          leader_loop_stop flag rounds start stale c (mem, here, q),
          record {
            count = 0;
            bounded = omega arith;
            same_view = refl;
            moved = omega arith;
            quorums = λ k h. absurd (omega arith);
            stops =
                inr
                  (HasQuorum-same false c c start (start + 0) refl refl (sym first) (mem, here, q));
            same_db = refl;
            same_seen = refl;
          },
        )
      ]

  abbrev pub caught_up : Comp bdb.Store → Bool
  caught_up c = eqb_ℤ (view_stamp_comp c.highest_committed c.highest_to_commit) (pos 0)

  -- In one view the attempt is the loop over the records behind the stamp to commit.
  pub leader_try_to_execute_lem :
      (c : Comp bdb.Store)
      → IsStamp c.highest_to_commit
      → c.highest_seen.view_id ≡ c.highest_to_commit.view_id
      → c.highest_to_commit.view_id + 1 < 2 ^ 32
      → leader_try_to_execute bdb env c
        ≡ leader_loop bdb env
            (caught_up c)
            (suc (vstol c.highest_seen) - suc (vstol c.highest_to_commit))
            (suc (vstol c.highest_to_commit))
            none
            c
  unfolding leader_try_to_execute
  leader_try_to_execute_lem c fits view room =
      let at : (vstol c.highest_to_commit + 1) % 2 ^ 64 ≡ suc (vstol c.highest_to_commit) =
        omega (arith, vstol_lem c.highest_to_commit fits) in
      rw (eq→== _ _ view, at) refl

  -- With both stamps in one view (not the last that a word can number), the stamp to commit no
  -- later than the highest one seen, and every record between the two at hand, the leader's attempt
  -- ends without a fault; it moves the stamp to commit over exactly the longest run of records with
  -- a quorum, up to the highest one seen.
  pub leader_try_to_execute-LeaderRun :
      (c : Comp bdb.Store)
      → IsStamp c.highest_seen
      → IsStamp c.highest_to_commit
      → c.highest_seen.view_id ≡ c.highest_to_commit.view_id
      → c.highest_to_commit.view_id + 1 < 2 ^ 32
      → c.highest_to_commit.req_id ≤ c.highest_seen.req_id
      → Present c
          (suc (vstol c.highest_to_commit))
          (c.highest_seen.req_id - c.highest_to_commit.req_id)
      → (d : Comp bdb.Store) × (leader_try_to_execute bdb env c ≡ ok d)
        × LeaderRun c
            (suc (vstol c.highest_to_commit))
            (c.highest_seen.req_id - c.highest_to_commit.req_id)
            d
  leader_try_to_execute-LeaderRun c fits_seen fits view room order there =
      let turns : suc (vstol c.highest_seen) - suc (vstol c.highest_to_commit)
          ≡ c.highest_seen.req_id - c.highest_to_commit.req_id =
        omega (arith, vstol_lem c.highest_seen fits_seen, vstol_lem c.highest_to_commit fits) in
      rw (leader_try_to_execute_lem c fits view room, turns)
        (leader_loop-LeaderRun _ _ _ none c there (omega arith))
