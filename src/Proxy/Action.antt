-- ===== src/Proxy/Action.antt =====
-- What src/proxy/proxy.c does with a request that was decided on: it opens, uses and closes the
-- connection to the server that stands for a client's connection.
pub mod Deliver
pub mod Order
pub mod Batches
use libevent_paxos.Base.{
  ℕ, zero, suc, ◌+◌, ◌*◌, ◌-◌, ◌/◌, ◌%◌, ◌^◌, ◌<◌, ◌≤◌, Bool, true, false, Option, none, some, List,
  [], ◌∷◌, ◌++◌, length, drop, if◌then◌else◌, ltb, leb, Outcome, ok, crash, null_deref, never_ends,
  ◌>>=◌,
}
use libevent_paxos.Db.{Bdb, retrieve_record}
use libevent_paxos.Consensus.Record.{RequestRecord, decode_record}
use libevent_paxos.Proxy.Message.{
  read_action, read_connection_id, read_data_size, copied, send_msg_size,
}
use libevent_paxos.Proxy.State.{
  Hash, SocketPair, Opening, Proxy, ProxyEffect, set_up, connect_to, write_bytes, free_bev,
  server_side, s_addr, with_effects, put_pair, with_pair, cross_view,
}

-- The pair of a new connection id.
abbrev pub new_pair : ℕ → SocketPair
new_pair key = record { key = key; counter = 0; p_s = none; p_c = none }

abbrev pub freed : Option ℕ → List ProxyEffect
freed none = []
freed (some bev) = free_bev bev ∷ []

module _ (hash : Hash) {S : Type 0} where
  unfoldable pub add_pair : Proxy hash.Map S → SocketPair → Proxy hash.Map S
  add_pair p pair = record p {
    pairs = p.pairs ++ pair ∷ [];
    hash_map = hash.add p.hash_map pair.key (length p.pairs);
  }

  -- A pair with no connection to the server gets one.
  unfoldable pub connect_pair : Opening → Proxy hash.Map S → ℕ → Outcome (Proxy hash.Map S)
  connect_pair opening p i = with_pair p i λ pair. elim pair.p_s [
    | some old ↦ ok p
    | none ↦ elim opening.new_bev [
      | none ↦ crash null_deref
      | some bev ↦ ok (
          with_effects (put_pair p i (record pair { p_s = some bev }))
            (set_up bev (server_side i) ∷ connect_to bev s_addr ∷ []))
    ]
  ]

  -- The memory for a new pair is cleared with no test for NULL.
  unfoldable pub do_action_connect :
      Opening → Proxy hash.Map S → List ℕ → Outcome (Proxy hash.Map S)
  do_action_connect opening p mem = read_connection_id mem >>= λ key.
      elim (hash.find p.hash_map key) [
        | none ↦
            if opening.has_memory
            then connect_pair opening (add_pair p (new_pair key)) (length p.pairs)
            else crash null_deref
        | some i ↦ connect_pair opening p i
      ]

  -- The number of bytes is that of the message, whatever the size of the request.
  unfoldable pub do_action_send : Proxy hash.Map S → List ℕ → Outcome (Proxy hash.Map S)
  do_action_send p mem = read_connection_id mem >>= λ key. elim (hash.find p.hash_map key) [
    | none ↦ ok p
    | some i ↦ with_pair p i λ pair. elim pair.p_s [
      | none ↦ ok p
      | some bev ↦ read_data_size mem >>= λ size. copied size (drop send_msg_size mem) >>= λ bytes.
          ok (with_effects p (write_bytes bev bytes ∷ []))
    ]
  ]

  -- The pair stays in the table, with no connections.
  unfoldable pub do_action_close : Proxy hash.Map S → List ℕ → Outcome (Proxy hash.Map S)
  do_action_close p mem = read_connection_id mem >>= λ key. elim (hash.find p.hash_map key) [
    | none ↦ ok p
    | some i ↦ with_pair p i λ pair. ok (
        with_effects (put_pair p i (record pair { p_s = none; p_c = none }))
          (freed pair.p_s ++ freed pair.p_c))
  ]

  abbrev pub do_action_by : ℕ → Opening → Proxy hash.Map S → List ℕ → Outcome (Proxy hash.Map S)
  do_action_by zero opening p mem = do_action_connect opening p mem
  do_action_by (suc zero) opening p mem = do_action_send p mem
  do_action_by (suc (suc zero)) opening p mem = do_action_close p mem
  do_action_by (suc (suc (suc n))) opening p mem = ok p

  unfoldable pub do_action_to_server :
      Opening → Proxy hash.Map S → List ℕ → Outcome (Proxy hash.Map S)
  do_action_to_server opening p mem =
      read_action mem >>= λ action. do_action_by action opening p mem

module _ (bdb : Bdb) (hash : Hash) where
  abbrev pub next_rec : Proxy hash.Map bdb.Store → Proxy hash.Map bdb.Store
  next_rec p = record p { cur_rec = (p.cur_rec + 1) % 2 ^ 64 }

  -- One turn of the loop: the record is acted on, or the next view begins.
  unfoldable pub do_record :
      (ℕ → Opening) → Proxy hash.Map bdb.Store → Outcome (Proxy hash.Map bdb.Store)
  do_record opening p = elim (retrieve_record bdb p.db_ptr p.cur_rec).1 [
    | none ↦ ok (cross_view p)
    | some mem ↦ do_action_to_server hash (opening p.cur_rec) p (decode_record mem).body >>= λ p'.
        ok (next_rec p')
  ]

  -- The loop up to the record number `cur_higest` that was read before it.
  unfoldable pub action_loop :
      ℕ → (ℕ → Opening) → ℕ → Proxy hash.Map bdb.Store → Outcome (Proxy hash.Map bdb.Store)
  action_loop zero opening cur_higest p = crash never_ends
  action_loop (suc rounds) opening cur_higest p = elim (leb p.cur_rec cur_higest) [
    | false ↦ ok p
    | true ↦ do_record opening p >>= λ p'. action_loop rounds opening cur_higest p'
  ]

  -- One turn more than there are record numbers up to the highest. `opening` says what memory and
  -- buffer event there are at a record that opens a connection.
  unfoldable pub act_up_to :
      (ℕ → Opening) → ℕ → Proxy hash.Map bdb.Store → Outcome (Proxy hash.Map bdb.Store)
  act_up_to opening cur_higest p =
      action_loop (suc (suc cur_higest - p.cur_rec)) opening cur_higest p

  unfoldable pub real_do_action :
      (ℕ → Opening) → Proxy hash.Map bdb.Store → Outcome (Proxy hash.Map bdb.Store)
  real_do_action opening p = act_up_to opening p.highest_rec p

  -- The two callbacks that only look for work.
  unfoldable pub proxy_do_action :
      (ℕ → Opening) → Proxy hash.Map bdb.Store → Outcome (Proxy hash.Map bdb.Store)
  proxy_do_action opening p = real_do_action opening p

  unfoldable pub proxy_singnal_handler :
      (ℕ → Opening) → Proxy hash.Map bdb.Store → Outcome (Proxy hash.Map bdb.Store)
  proxy_singnal_handler opening p = real_do_action opening p
