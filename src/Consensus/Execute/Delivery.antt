-- ===== src/Consensus/Execute/Delivery.antt =====
-- Deliveries come in the order of the record numbers, with none left out.
use libevent_paxos.Base.{
  ℕ, ℤ, zero, suc, ◌+◌, ◌^◌, ◌<◌, ◌≡◌, ◌≢◌, refl, sym, ap, ◌∙◌, inl, inr, true, false, List, [],
  ◌∷◌, ◌++◌, append-nil, append_assoc, ◌==◌, arith, Bool-cases,
}
use libevent_paxos.Stamp.{ViewStamp, IsStamp, vstol, ltovs}
use libevent_paxos.Stamp.Order.{vstol_lem, vstol-ltovs}
use libevent_paxos.Db.{Bdb, retrieve_record}
use libevent_paxos.Consensus.Record.{Env}
use libevent_paxos.Consensus.Message.{ConsensusMsg}
use libevent_paxos.Consensus.State.{
  Comp, Output, up_call, user_cb_key, user_cb_data, emit, view_stamp_inc,
}
use libevent_paxos.Consensus.Execute.{
  missing_req_alloc, send_missing_req, deliver_msg_data, deliver_next, execute_step, execute_loop,
}

-- The record numbers handed to the user, in order.
abbrev pub delivered : List Output → List ℕ
delivered [] = []
delivered (user_cb_key k ∷ os) = k ∷ delivered os
delivered (user_cb_data n bytes ∷ os) = delivered os
delivered (up_call n m target ∷ os) = delivered os

-- `n` record numbers in a row.
abbrev pub keys : ℕ → ℕ → List ℕ
keys start zero = []
keys start (suc n) = start ∷ keys (suc start) n

pub delivered-append : (xs ys : List Output) → delivered (xs ++ ys) ≡ delivered xs ++ delivered ys
delivered-append [] ys = refl
delivered-append (user_cb_key k ∷ xs) ys = ap (◌∷◌ k) (delivered-append xs ys)
delivered-append (user_cb_data n bytes ∷ xs) ys = delivered-append xs ys
delivered-append (up_call n m target ∷ xs) ys = delivered-append xs ys

-- The component hands record numbers to a user callback, as the proxy sets it up.
pub record HandsKeys {S : Type 0} (c : Comp S) : Type 0 where
  pub by_key : c.deliver_mode ≢ 1
  pub has_ucb : c.ucb ≡ true

-- `count` records behind the committed one are delivered, in order, and the committed stamp moves
-- on by as many; the database and the highest stamp stay, and the stamp to commit
-- stays in its view.
pub record Advances {S : Type 0} (c c' : Comp S) : Type 0 where
  pub count : ℕ
  pub log : delivered c'.out ≡ delivered c.out ++ keys (suc (vstol c.highest_committed)) count
  pub same_view : c'.highest_committed.view_id ≡ c.highest_committed.view_id
  pub moved : c'.highest_committed.req_id ≡ c.highest_committed.req_id + count
  pub fits : c'.highest_committed.req_id < 2 ^ 32
  pub same_db : c'.db ≡ c.db
  pub same_seen : c'.highest_seen ≡ c.highest_seen
  pub same_mode : c'.deliver_mode ≡ c.deliver_mode
  pub same_ucb : c'.ucb ≡ c.ucb
  pub same_commit_view : c'.highest_to_commit.view_id ≡ c.highest_to_commit.view_id
  pub commit_fits : c.highest_to_commit.req_id < 2 ^ 32 → c'.highest_to_commit.req_id < 2 ^ 32

module _ {S : Type 0} where
  pub Advances-refl : (c : Comp S) → IsStamp c.highest_committed → Advances c c
  Advances-refl c fits = record {
    count = 0;
    log = sym (append-nil _);
    same_view = refl;
    moved = omega arith;
    fits = fits.req_fits;
    same_db = refl;
    same_seen = refl;
    same_mode = refl;
    same_ucb = refl;
    same_commit_view = refl;
    commit_fits = λ h. h;
  }

  pub emit_up_call-Advances :
      (c : Comp S) (n : ℕ) (m : ConsensusMsg) (target : ℤ)
      → IsStamp c.highest_committed
      → Advances c (emit c (up_call n m target))
  emit_up_call-Advances c n m target fits = record {
    count = 0;
    log = delivered-append c.out _;
    same_view = refl;
    moved = omega arith;
    fits = fits.req_fits;
    same_db = refl;
    same_seen = refl;
    same_mode = refl;
    same_ucb = refl;
    same_commit_view = refl;
    commit_fits = λ h. h;
  }

pub keys-append : (s n m : ℕ) → keys s (n + m) ≡ keys s n ++ keys (s + n) m
keys-append s zero m =
    let left : 0 + m ≡ m = omega arith in
    let right : s + 0 ≡ s = omega arith in rw (left, right) refl
keys-append s (suc n) m =
    let first : suc n + m ≡ suc (n + m) = omega arith in
    let then_at : s + suc n ≡ suc s + n = omega arith in
    rw (first, then_at) (ap (◌∷◌ s) (keys-append (suc s) n m))

module _ {S : Type 0} {a b : Comp S} where
  pub Advances-IsStamp : IsStamp a.highest_committed → Advances a b → IsStamp b.highest_committed
  Advances-IsStamp fits p = omega arith

  pub Advances-hands : HandsKeys a → Advances a b → HandsKeys b
  Advances-hands hands p = ground arith

  pub Advances-number :
      IsStamp a.highest_committed
      → (p : Advances a b) → vstol b.highest_committed ≡ vstol a.highest_committed + p.count
  Advances-number fits p = omega (
    arith,
    vstol_lem a.highest_committed fits,
    vstol_lem b.highest_committed (Advances-IsStamp fits p),
  )

module _ {S : Type 0} {a b c : Comp S} where
  pub Advances-trans : IsStamp a.highest_committed → Advances a b → Advances b c → Advances a c
  Advances-trans fits p q = record {
    count = p.count + q.count;
    log = log;
    same_view = q.same_view ∙ p.same_view;
    moved = omega arith;
    fits = q.fits;
    same_db = q.same_db ∙ p.same_db;
    same_seen = q.same_seen ∙ p.same_seen;
    same_mode = q.same_mode ∙ p.same_mode;
    same_ucb = q.same_ucb ∙ p.same_ucb;
    same_commit_view = q.same_commit_view ∙ p.same_commit_view;
    commit_fits = λ h. q.commit_fits (p.commit_fits h);
  }
    where
      start : ℕ
      start = suc (vstol a.highest_committed)

      at_b : suc (vstol b.highest_committed) ≡ suc (vstol a.highest_committed) + p.count
      at_b = omega (arith, Advances-number fits p)

      log :
          delivered c.out
          ≡ delivered a.out ++ keys (suc (vstol a.highest_committed)) (p.count + q.count)
      log =
          q.log
          ∙ ap (λ n. delivered b.out ++ keys n q.count) at_b
          ∙ ap (λ l. l ++ keys (start + p.count) q.count) p.log
          ∙ append_assoc (delivered a.out) (keys start p.count) (keys (start + p.count) q.count)
          ∙ ap (◌++◌ (delivered a.out)) (sym (keys-append start p.count q.count))

module _ (bdb : Bdb) (env : Env) where
  pub deliver_next_lem :
      (c : Comp bdb.Store) (index : ℕ)
      → HandsKeys c
      → index < 2 ^ 64
      → c.highest_committed.req_id + 1 < 2 ^ 32
      → deliver_next bdb env index c ≡ record c {
        out = c.out ++ user_cb_key index ∷ [];
        highest_committed = record {
          view_id = c.highest_committed.view_id;
          req_id = c.highest_committed.req_id + 1;
        };
      }
  unfolding deliver_msg_data view_stamp_inc
  deliver_next_lem c index hands small room = ground (arith, vstol-ltovs index small)

  pub deliver_next-stamp :
      (c : Comp bdb.Store) (index : ℕ)
      → HandsKeys c
      → index < 2 ^ 64
      → c.highest_committed.req_id + 1 < 2 ^ 32
      → (deliver_next bdb env index c).highest_committed
        ≡ record { view_id = c.highest_committed.view_id; req_id = c.highest_committed.req_id + 1 }
  deliver_next-stamp c index hands small room =
      ap (λ d. d.highest_committed) (deliver_next_lem c index hands small room)

  -- One record delivered at its turn.
  pub deliver_next-Advances :
      (c : Comp bdb.Store) (index : ℕ)
      → HandsKeys c
      → IsStamp c.highest_committed
      → index ≡ suc (vstol c.highest_committed)
      → c.highest_committed.req_id + 1 < 2 ^ 32
      → Advances c (deliver_next bdb env index c)
  deliver_next-Advances c index hands fits turn room =
      rw (deliver_next_lem c index hands (omega (arith, vstol_lem c.highest_committed fits)) room)
        (record {
          count = 1;
          log = delivered-append c.out _ ∙ ap (λ n. delivered c.out ++ n ∷ []) turn;
          same_view = refl;
          moved = refl;
          fits = room;
          same_db = refl;
          same_seen = refl;
          same_mode = refl;
          same_ucb = refl;
          same_commit_view = refl;
          commit_fits = λ h. h;
        })

  pub send_missing_req-Advances :
      (c : Comp bdb.Store) (vs : ViewStamp)
      → IsStamp c.highest_committed
      → Advances c (send_missing_req env c vs)
  unfolding send_missing_req
  send_missing_req-Advances c vs fits = elim (Bool-cases (env.malloc missing_req_alloc)) [
    | inl there ↦ rw (there, send_missing_req) (emit_up_call-Advances c _ _ _ fits)
    | inr full ↦ rw (full, send_missing_req) (Advances-refl c fits)
  ]

  -- Once a record is missing, nothing more is delivered.
  execute_loop_stopped :
      (rounds index : ℕ) (c : Comp bdb.Store)
      → IsStamp c.highest_committed
      → Advances c (execute_loop bdb env rounds index false c)
  unfolding execute_loop execute_step
  execute_loop_stopped zero index c fits = Advances-refl c fits
  execute_loop_stopped (suc rounds) index c fits =
      elim (Bool-cases ((retrieve_record bdb c.db index).0 == 0)) [
        | inl found ↦ rw (found, execute_step) (execute_loop_stopped rounds (suc index) c fits)
        | inr missing ↦
            rw (missing, execute_step)
              (let p = send_missing_req-Advances c (ltovs index) fits in
                Advances-trans fits p (
                  execute_loop_stopped rounds (suc index) (send_missing_req env c (ltovs index))
                    (Advances-IsStamp fits p)))
      ]

  -- The loop over the record numbers behind the committed one.
  pub execute_loop-Advances :
      (rounds index : ℕ) (c : Comp bdb.Store)
      → HandsKeys c
      → IsStamp c.highest_committed
      → index ≡ suc (vstol c.highest_committed)
      → c.highest_committed.req_id + rounds < 2 ^ 32
      → Advances c (execute_loop bdb env rounds index true c)
  unfolding execute_loop execute_step
  execute_loop-Advances zero index c hands fits turn room = Advances-refl c fits
  execute_loop-Advances (suc rounds) index c hands fits turn room =
      elim (Bool-cases ((retrieve_record bdb c.db index).0 == 0)) [
        | inl found ↦
            rw (found, execute_step)
              (let c' = deliver_next bdb env index c in
                let p = deliver_next-Advances c index hands fits turn (omega arith) in
                let at =
                  deliver_next-stamp c index hands
                    (omega (arith, vstol_lem c.highest_committed fits)) (omega arith) in
                let one_on : c'.highest_committed.req_id ≡ c.highest_committed.req_id + 1 =
                  ap (λ s. s.req_id) at in
                let in_view : c'.highest_committed.view_id ≡ c.highest_committed.view_id =
                  ap (λ s. s.view_id) at in
                Advances-trans fits p (
                  execute_loop-Advances rounds (suc index) c' (Advances-hands hands p)
                    (Advances-IsStamp fits p)
                    (omega (
                      arith,
                      vstol_lem c.highest_committed fits,
                      vstol_lem c'.highest_committed (Advances-IsStamp fits p),
                    ))
                    (omega arith)))
        | inr missing ↦
            rw (missing, execute_step)
              (let p = send_missing_req-Advances c (ltovs index) fits in
                Advances-trans fits p (
                  execute_loop_stopped rounds (suc index) (send_missing_req env c (ltovs index))
                    (Advances-IsStamp fits p)))
      ]
