-- ===== src/Replica/Election/Acceptor.antt =====
-- The acceptor: a promise is in the database before it is given.
use libevent_paxos.Base.{
  ℕ, ℤ, pos, negsuc, ◌≡◌, refl, sym, ap, ◌∙◌, subst, ◌⊎◌, inl, inr, Bool, true, false, List, [],
  ◌∷◌, ◌++◌, append-nil, ◌==◌, if◌then◌else◌, Option, none, some, ltb_ℤ, arith, Bool-cases,
  Option-cases, Outcome, ok, crash, null_deref, >>=-eq-ok, ◌>>=◌, ok-injective, le_bytes, get_or,
  length, length-append, length-le_bytes, ==→eq,
}
use libevent_paxos.Db.{Bdb, Db, found_bytes, store_record, retrieve_record}
use libevent_paxos.Db.Laws.{retrieve-store, dbt_bytes_short}
use libevent_paxos.Replica.Message.{LeleMsg, lele_prepare_ack, SysMsg, lele, lele_msg_size}
use libevent_paxos.Replica.Node.{
  Node, NodeEnv, AcceptorRecord, LeleMod, Effect, write_to, timer_add, timer_del, connect_to_peer,
  free_peer, index_of, send_to_one_node, with_mod, put_mod, act, slient_period, stop_by_other_lele,
}
use libevent_paxos.Replica.Election.{build_lele_msg, lele_fields}
use libevent_paxos.Replica.Election.Roles.{
  encode_acceptor, acceptor_update_record, acceptor_prepare, stop_propose, promise, prepared,
}

-- The messages among the effects, with the peer that each goes to.
abbrev pub messages : List Effect → List (ℕ × SysMsg)
messages [] = []
messages (write_to i m ∷ es) = (i, m) ∷ messages es
messages (timer_add t v ∷ es) = messages es
messages (timer_del t ∷ es) = messages es
messages (connect_to_peer i ∷ es) = messages es
messages (free_peer i ∷ es) = messages es

messages-append : (xs ys : List Effect) → messages (xs ++ ys) ≡ messages xs ++ messages ys
messages-append [] ys = refl
messages-append (write_to i m ∷ xs) ys = ap (◌∷◌ (i, m)) (messages-append xs ys)
messages-append (timer_add t v ∷ xs) ys = messages-append xs ys
messages-append (timer_del t ∷ xs) ys = messages-append xs ys
messages-append (connect_to_peer i ∷ xs) ys = messages-append xs ys
messages-append (free_peer i ∷ xs) ys = messages-append xs ys

encode_acceptor-cons : (a : AcceptorRecord) → (b : ℕ) × (bs : List ℕ) × (encode_acceptor a ≡ b ∷ bs)
unfolding encode_acceptor le_bytes
encode_acceptor-cons a = (_, _, refl)

length-encode_acceptor : (a : AcceptorRecord) → length (encode_acceptor a) ≡ 24
unfolding encode_acceptor
length-encode_acceptor a = simp (length-append, length-le_bytes) refl

module _ (bdb : Bdb) (e : NodeEnv) where
  -- The acceptor's record of a node, as the database of the node has it.
  abbrev pub Durable : Node bdb.Store → LeleMod → Type 0
  Durable n lm =
      (n.election_mod ≡ some lm)
      × (retrieve_record bdb n.comp.db lm.next_view ≡ (0, some (encode_acceptor lm.acceptor)))

  retrieve-store_acceptor :
      (db : Db bdb.Store) (k : ℕ) (a : AcceptorRecord)
      → (store_record bdb db k (encode_acceptor a)).0 ≡ 0
      → retrieve_record bdb (store_record bdb db k (encode_acceptor a)).1 k
        ≡ (0, some (encode_acceptor a))
  retrieve-store_acceptor db k a done =
      let (b, bs, same) = encode_acceptor-cons a in
      let whole = dbt_bytes_short (encode_acceptor a) (omega (arith, length-encode_acceptor a)) in
      retrieve-store bdb db k (encode_acceptor a) done
      ∙ ap (λ v. (0, found_bytes v)) (whole ∙ same)
      ∙ ap (λ v. (0, some v)) (sym same)

  -- An update of the record that ends has stored it, and nothing else changes.
  acceptor_update_record-Durable :
      (n p : Node bdb.Store) (lm : LeleMod)
      → acceptor_update_record bdb e (put_mod n lm) ≡ ok p
      → Durable p lm × (p.effects ≡ n.effects) × (p.active ≡ n.active) × (p.node_id ≡ n.node_id)
  unfolding acceptor_update_record
  acceptor_update_record-Durable n p lm runs = elim (Bool-cases (e.env.malloc 24)) [
    | inr full ↦ absurd (ground (arith, full))
    | inl room ↦
        elim (Bool-cases
          ((store_record bdb n.comp.db lm.next_view (encode_acceptor lm.acceptor)).0 == 0)) [
            | inr failed ↦ absurd (ground (arith, room, failed))
            | inl done ↦
                let made = ok-injective (rw (room, done) at runs) in
                subst
                  (λ x.
                    Durable x lm
                    × (x.effects ≡ n.effects)
                    × (x.active ≡ n.active)
                    × (x.node_id ≡ n.node_id))
                  made
                  (
                    (
                      refl,
                      retrieve-store_acceptor n.comp.db lm.next_view lm.acceptor (==→eq _ _ done),
                    ),
                    refl,
                    refl,
                    refl,
                  )
          ]
  ]

  -- What a node answers to a prepare request.
  abbrev pub prepare_ack : ℤ → LeleMod → LeleMsg
  prepare_ack node_id lm =
      lele_fields lm e.fresh_msg
        (record e.fresh_msg { node_id = node_id; next_view = lm.next_view }) lele_prepare_ack

  -- One message went to `target`, or none.
  abbrev pub Answers : Node bdb.Store → Node bdb.Store → ℤ → SysMsg → Type 0
  Answers n d target m =
      (messages d.effects ≡ messages n.effects)
      ⊎ ((i : ℕ) × (target ≡ pos i) × (messages d.effects ≡ messages n.effects ++ (i, m) ∷ []))

  index_of-pos : (target : ℤ) (n i : ℕ) → index_of target n ≡ some i → target ≡ pos i
  unfolding index_of
  index_of-pos (pos j) n i h = ground arith
  index_of-pos (negsuc j) n i h = ground arith

  send_to_one_node-Answers :
      (n d : Node bdb.Store) (target : ℤ) (m : SysMsg)
      → send_to_one_node n target m ≡ ok d
      → Answers n d target m × (d.comp ≡ n.comp) × (d.election_mod ≡ n.election_mod)
  unfolding send_to_one_node
  send_to_one_node-Answers n d target m runs =
      elim (Option-cases (index_of target (length n.active))) [
        | inl outside ↦ absurd (ground (arith, outside))
        | inr (i, at) ↦
            let sent = rw (at, send_to_one_node) at runs in
            elim (Bool-cases (get_or n.active i false)) [
              | inr down ↦
                  let same = ok-injective (rw down at sent) in
                  subst
                    (λ x.
                      Answers n x target m × (x.comp ≡ n.comp) × (x.election_mod ≡ n.election_mod))
                    same (inl refl, refl, refl)
              | inl up ↦
                  let same = ok-injective (rw up at sent) in
                  subst
                    (λ x.
                      Answers n x target m × (x.comp ≡ n.comp) × (x.election_mod ≡ n.election_mod))
                    same
                    (inr (i, index_of-pos target _ i at, messages-append n.effects _), refl, refl)
            ]
      ]

  with_mod_lem :
      (q : Node bdb.Store) (lm : LeleMod) (f : LeleMod → Outcome (Node bdb.Store))
      → q.election_mod ≡ some lm
      → with_mod q f ≡ f lm
  with_mod_lem q lm f there =
      ap
        (λ (o : Option LeleMod). elim o as (λ x. Outcome (Node bdb.Store)) [
          | none ↦ crash null_deref
          | some x ↦ f x
        ])
        there

  -- The answer that follows the update.
  abbrev answer : Node bdb.Store → LeleMsg → Node bdb.Store → Outcome (Node bdb.Store)
  answer n m p = with_mod p λ lm.
      build_lele_msg e n.node_id lm lele_prepare_ack e.fresh_msg >>= λ sent.
      send_to_one_node p m.node_id (lele sent)

  answer-Answers :
      (n p d : Node bdb.Store) (lm : LeleMod) (m : LeleMsg)
      → p.election_mod ≡ some lm
      → answer n m p ≡ ok d
      → Answers p d m.node_id (lele (prepare_ack n.node_id lm))
        × (d.comp ≡ p.comp)
        × (d.election_mod ≡ p.election_mod)
  unfolding build_lele_msg
  answer-Answers n p d lm m there runs =
      let built = sym (with_mod_lem p lm _ there) ∙ runs in
      elim (Bool-cases (e.env.malloc lele_msg_size)) [
        | inr full ↦ absurd (ground (arith, rw full at built))
        | inl room ↦
            send_to_one_node-Answers p d m.node_id (lele (prepare_ack n.node_id lm))
              (rw room at built)
      ]

  Durable-frame :
      (p d : Node bdb.Store) (lm : LeleMod)
      → d.comp ≡ p.comp
      → d.election_mod ≡ p.election_mod
      → Durable p lm
      → Durable d lm
  Durable-frame p d lm comp same (there, stored) =
      (same ∙ there, ap (λ c. retrieve_record bdb c.db lm.next_view) comp ∙ stored)

  Answers-frame :
      (n p d : Node bdb.Store) (target : ℤ) (m : SysMsg)
      → messages p.effects ≡ messages n.effects
      → Answers p d target m
      → Answers n d target m
  Answers-frame n p d target m same (inl silent) = inl (silent ∙ same)
  Answers-frame n p d target m same (inr (i, at, sent)) =
      inr (i, at, sent ∙ ap (λ ms. ms ++ (i, m) ∷ []) same)

  promise-Durable :
      (n d : Node bdb.Store) (lm : LeleMod) (m : LeleMsg)
      → promise bdb e n lm m ≡ ok d
      → Durable d (prepared bdb e lm m)
        × Answers n d m.node_id (lele (prepare_ack n.node_id (prepared bdb e lm m)))
  unfolding promise
  promise-Durable n d lm m runs =
      let (p, updated, rest) =
        >>=-eq-ok (acceptor_update_record bdb e (put_mod n (prepared bdb e lm m))) (answer n m)
          runs in
      let (durable, same_effects, same_active, same_id) =
        acceptor_update_record-Durable n p (prepared bdb e lm m) updated in
      let (sent, comp, same) = answer-Answers n p d (prepared bdb e lm m) m durable.0 rest in
      (
        Durable-frame p d (prepared bdb e lm m) comp same durable,
        Answers-frame n p d m.node_id (lele (prepare_ack n.node_id (prepared bdb e lm m)))
            (ap messages same_effects) sent,
      )

  -- Stepping back changes timers alone.
  abbrev Back : Node bdb.Store → Node bdb.Store → Type 0
  Back n q =
      (messages q.effects ≡ messages n.effects)
      × (q.election_mod ≡ n.election_mod)
      × (q.node_id ≡ n.node_id)

  stop_with :
      (n : Node bdb.Store) (o : Option LeleMod)
      → Back n (elim o [
        | none ↦ n
        | some lm ↦
            act (act n (timer_del slient_period)) (timer_add slient_period stop_by_other_lele)
      ])
  stop_with n none = (refl, refl, refl)
  stop_with n (some lm) = (
    messages-append (n.effects ++ timer_del slient_period ∷ [])
          (timer_add slient_period stop_by_other_lele ∷ [])
        ∙ append-nil _
        ∙ messages-append n.effects (timer_del slient_period ∷ [])
        ∙ append-nil _,
    refl,
    refl,
  )

  turn-Back : (n : Node bdb.Store) (b : Bool) → Back n (if b then stop_propose bdb e n else n)
  unfolding stop_propose
  turn-Back n true = stop_with n n.election_mod
  turn-Back n false = (refl, refl, refl)

  -- A refusal, or a promise.
  abbrev Prepared : Node bdb.Store → Node bdb.Store → LeleMod → LeleMsg → Type 0
  Prepared n d lm m =
      ((ltb_ℤ lm.acceptor.highest_seen_pnum m.pnum ≡ false)
        × (messages d.effects ≡ messages n.effects)
        × (d.election_mod ≡ some lm))
      ⊎ ((ltb_ℤ lm.acceptor.highest_seen_pnum m.pnum ≡ true)
          × (Durable d (prepared bdb e lm m))
          × Answers n d m.node_id (lele (prepare_ack n.node_id (prepared bdb e lm m))))

  decide-Prepared :
      (q d : Node bdb.Store) (lm : LeleMod) (m : LeleMsg)
      → q.election_mod ≡ some lm
      → (with_mod q
          λ x. if ltb_ℤ x.acceptor.highest_seen_pnum m.pnum then promise bdb e q x m else ok q)
        ≡ ok d
      → Prepared q d lm m
  decide-Prepared q d lm m there runs =
      let decided = sym (with_mod_lem q lm _ there) ∙ runs in
      elim (Bool-cases (ltb_ℤ lm.acceptor.highest_seen_pnum m.pnum)) [
        | inr low ↦
            let (silent, kept) =
              subst (λ x. (messages x.effects ≡ messages q.effects) × (x.election_mod ≡ some lm))
                (ok-injective (rw low at decided)) (refl, there) in
            inl (low, silent, kept)
        | inl high ↦
            let (durable, sent) = promise-Durable q d lm m (rw high at decided) in
            inr (high, durable, sent)
      ]

  Prepared-frame :
      (n q d : Node bdb.Store) (lm : LeleMod) (m : LeleMsg)
      → Back n q
      → Prepared q d lm m
      → Prepared n d lm m
  Prepared-frame n q d lm m (same, there, id) (inl (low, silent, kept)) =
      inl (low, silent ∙ same, kept)
  Prepared-frame n q d lm m (same, there, id) (inr (high, durable, sent)) = inr (
    high,
    durable,
    Answers-frame n q d m.node_id (lele (prepare_ack n.node_id (prepared bdb e lm m))) same
        (subst (λ i. Answers q d m.node_id (lele (prepare_ack i (prepared bdb e lm m)))) id sent),
  )

  -- The election module after a promise: the number of the request is the highest one seen, the number
  -- accepted last stays, and the content is that of the request.
  abbrev pub promised_mod : LeleMod → LeleMsg → LeleMod
  promised_mod lm m = record lm {
    acceptor = record {
      highest_seen_pnum = m.pnum;
      accepted_pnum = lm.acceptor.accepted_pnum;
      content = m.content;
    };
  }

  -- The answer: it names the number accepted last, with the content of the request, and the number of
  -- the request as the promise.
  abbrev pub promise_msg : ℤ → LeleMod → LeleMsg → LeleMsg
  promise_msg node_id lm m = record {
    kind = lele_prepare_ack;
    node_id = node_id;
    next_view = lm.next_view;
    pnum = lm.acceptor.accepted_pnum;
    p_pnum = m.pnum;
    content = m.content;
    last_req = e.fresh_msg.last_req;
    start_req = e.fresh_msg.start_req;
  }

  -- A prepare request that is handled without a fault is refused, with no message sent and the
  -- acceptor as it was, unless its number is higher than all seen. Then that number is the highest one
  -- seen, in the node and, when the handler returns, in its database; and at most one message was
  -- sent, to the sender of the request: it promises that number and names the number accepted last,
  -- but with the content of the request in place of the one accepted under it.
  pub acceptor_prepare-Durable :
      (n d : Node bdb.Store) (lm : LeleMod) (m : LeleMsg)
      → n.election_mod ≡ some lm
      → acceptor_prepare bdb e n m ≡ ok d
      → ((ltb_ℤ lm.acceptor.highest_seen_pnum m.pnum ≡ false)
          × (messages d.effects ≡ messages n.effects)
          × (d.election_mod ≡ some lm))
        ⊎ ((ltb_ℤ lm.acceptor.highest_seen_pnum m.pnum ≡ true)
            × (Durable d (promised_mod lm m))
            × Answers n d m.node_id (lele (promise_msg n.node_id lm m)))
  unfolding acceptor_prepare lele_fields
  acceptor_prepare-Durable n d lm m there runs =
      let q = if ltb_ℤ m.node_id n.node_id then stop_propose bdb e n else n in
      let back = turn-Back n (ltb_ℤ m.node_id n.node_id) in
      Prepared-frame n q d lm m back (decide-Prepared q d lm m (back.1 ∙ there) runs)
