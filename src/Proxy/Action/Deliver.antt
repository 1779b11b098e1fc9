-- ===== src/Proxy/Action/Deliver.antt =====
-- The loop of `real_do_action` in src/proxy/proxy.c: it comes to an end, and it does not matter how
-- the record numbers come in.
use libevent_paxos.Base.{
  ℕ, zero, suc, ◌+◌, ◌-◌, ◌^◌, ◌<◌, ◌≡◌, refl, ◌∙◌, List, length, drop, ltb, Outcome, Ends, ends_ok,
  ends_null, ends_out, Ends->>=, Ends-if, Ends-Option, arith,
}
use libevent_paxos.Db.{Bdb, retrieve_record}
use libevent_paxos.Consensus.Record.{decode_record}
use libevent_paxos.Proxy.Message.{read_word, copied, send_msg_size}
use libevent_paxos.Proxy.State.{Opening, Hash, SocketPair, Proxy, pair_at, cross_view}
use Prim.{Unit, tt}
use libevent_paxos.Proxy.Action.{
  add_pair, new_pair, connect_pair, do_action_connect, do_action_send, do_action_close,
  do_action_by, do_action_to_server, do_record, next_rec,
}

read_word-Ends : (at size : ℕ) (mem : List ℕ) → Ends (λ w. Unit {0}) (read_word at size mem)
unfolding read_word
read_word-Ends at size mem = Ends-if (ltb (length mem) (at + size)) ends_out (ends_ok tt)

copied-Ends : (n : ℕ) (mem : List ℕ) → Ends (λ w. Unit {0}) (copied n mem)
unfolding copied
copied-Ends n mem = Ends-if (ltb (length mem) n) ends_out (ends_ok tt)

-- What acting on a request leaves alone: the place in the log, and the log.
pub record SamePlace {M S : Type 0} (p p' : Proxy M S) : Type 0 where
  pub cur_rec_kept : p'.cur_rec ≡ p.cur_rec
  pub highest_kept : p'.highest_rec ≡ p.highest_rec
  pub db_kept : p'.db_ptr ≡ p.db_ptr

module _ {M S : Type 0} where
  abbrev here : (p : Proxy M S) → SamePlace p p
  here p = record { cur_rec_kept = refl; highest_kept = refl; db_kept = refl }

module _ (hash : Hash) {S : Type 0} where
  connect_pair-Ends :
      (opening : Opening) (p : Proxy hash.Map S) (i : ℕ)
      → Ends (SamePlace p) (connect_pair hash opening p i)
  unfolding connect_pair
  connect_pair-Ends opening p i = Ends-Option _ (pair_at p.pairs i) ends_out λ pair.
      Ends-Option _ pair.p_s
        (Ends-Option _ opening.new_bev ends_null
          λ bev. ends_ok record { cur_rec_kept = refl; highest_kept = refl; db_kept = refl })
        (λ old. ends_ok (here p))

  from_there :
      {p p' : Proxy hash.Map S} {o : Outcome (Proxy hash.Map S)}
      → SamePlace p p'
      → Ends (SamePlace p') o
      → Ends (SamePlace p) o
  from_there same (ends_ok next) = ends_ok record {
    cur_rec_kept = next.cur_rec_kept ∙ same.cur_rec_kept;
    highest_kept = next.highest_kept ∙ same.highest_kept;
    db_kept = next.db_kept ∙ same.db_kept;
  }
  from_there same ends_null = ends_null
  from_there same ends_out = ends_out

  add_pair_same : (p : Proxy hash.Map S) (pair : SocketPair) → SamePlace p (add_pair hash p pair)
  unfolding add_pair
  add_pair_same p pair = record { cur_rec_kept = refl; highest_kept = refl; db_kept = refl }

  do_action_connect-Ends :
      (opening : Opening) (p : Proxy hash.Map S) (mem : List ℕ)
      → Ends (SamePlace p) (do_action_connect hash opening p mem)
  unfolding do_action_connect
  do_action_connect-Ends opening p mem = Ends->>= _ (read_word-Ends 40 8 mem) λ key any.
      Ends-Option _ (hash.find p.hash_map key)
        (Ends-if opening.has_memory
          (from_there (add_pair_same p (new_pair key))
            (connect_pair-Ends opening (add_pair hash p (new_pair key)) (length p.pairs)))
          ends_null)
        (connect_pair-Ends opening p)

  do_action_send-Ends :
      (p : Proxy hash.Map S) (mem : List ℕ) → Ends (SamePlace p) (do_action_send hash p mem)
  unfolding do_action_send
  do_action_send-Ends p mem = Ends->>= _ (read_word-Ends 40 8 mem) λ key any.
      Ends-Option _ (hash.find p.hash_map key) (ends_ok (here p)) λ i.
        Ends-Option _ (pair_at p.pairs i) ends_out λ pair.
          Ends-Option _ pair.p_s (ends_ok (here p)) λ bev.
            Ends->>= _ (read_word-Ends 56 8 mem) λ size any_size.
              Ends->>= _ (copied-Ends size (drop send_msg_size mem)) λ bytes any_bytes.
                ends_ok record { cur_rec_kept = refl; highest_kept = refl; db_kept = refl }

  do_action_close-Ends :
      (p : Proxy hash.Map S) (mem : List ℕ) → Ends (SamePlace p) (do_action_close hash p mem)
  unfolding do_action_close
  do_action_close-Ends p mem = Ends->>= _ (read_word-Ends 40 8 mem) λ key any.
      Ends-Option _ (hash.find p.hash_map key) (ends_ok (here p)) λ i.
        Ends-Option _ (pair_at p.pairs i) ends_out
          λ pair. ends_ok record { cur_rec_kept = refl; highest_kept = refl; db_kept = refl }

  do_action_by-Ends :
      (action : ℕ) (opening : Opening) (p : Proxy hash.Map S) (mem : List ℕ)
      → Ends (SamePlace p) (do_action_by hash action opening p mem)
  do_action_by-Ends zero opening p mem = do_action_connect-Ends opening p mem
  do_action_by-Ends (suc zero) opening p mem = do_action_send-Ends p mem
  do_action_by-Ends (suc (suc zero)) opening p mem = do_action_close-Ends p mem
  do_action_by-Ends (suc (suc (suc n))) opening p mem = ends_ok (here p)

  -- Acting on a request ends, and leaves the place in the log as it is.
  pub do_action_to_server-Ends :
      (opening : Opening) (p : Proxy hash.Map S) (mem : List ℕ)
      → Ends (SamePlace p) (do_action_to_server hash opening p mem)
  unfolding do_action_to_server
  do_action_to_server-Ends opening p mem =
      Ends->>= _ (read_word-Ends 0 4 mem) λ action any. do_action_by-Ends action opening p mem

-- The record number moved on.
pub record Later {M S : Type 0} (p p' : Proxy M S) : Type 0 where
  pub later : p.cur_rec < p'.cur_rec
  pub highest_kept : p'.highest_rec ≡ p.highest_rec
  pub db_kept : p'.db_ptr ≡ p.db_ptr

-- The record numbers of all views but the last that a word of 32 bits can name.
abbrev pub last_view : ℕ
last_view = 2 ^ 64 - 2 ^ 32

module _ (bdb : Bdb) (hash : Hash) where
  cross_view-Later : (p : Proxy hash.Map bdb.Store) → p.cur_rec < last_view → Later p (cross_view p)
  unfolding cross_view
  cross_view-Later p small = record { later = omega arith; highest_kept = refl; db_kept = refl }

  next_rec-Later :
      (p p' : Proxy hash.Map bdb.Store)
      → p.cur_rec < last_view
      → SamePlace p p'
      → Later p (next_rec bdb hash p')
  next_rec-Later p p' small same = record {
    later = omega (arith, same.cur_rec_kept);
    highest_kept = same.highest_kept;
    db_kept = same.db_kept;
  }

  pub do_record-Ends :
      (opening : ℕ → Opening) (p : Proxy hash.Map bdb.Store)
      → p.cur_rec < last_view
      → Ends (Later p) (do_record bdb hash opening p)
  unfolding do_record
  do_record-Ends opening p small =
      Ends-Option _ (retrieve_record bdb p.db_ptr p.cur_rec).1 (ends_ok (cross_view-Later p small))
        λ mem.
          Ends->>= _ (do_action_to_server-Ends hash (opening p.cur_rec) p (decode_record mem).body)
            λ p' same. ends_ok (next_rec-Later p p' small same)
