-- ===== src/Proxy/Client.antt =====
-- What src/proxy/proxy.c does with its clients and with the answers of the server: every byte that a
-- client sends becomes part of a request for the consensus.
pub mod Read
pub mod Requests
pub mod Delivered
use libevent_paxos.Base.{
  ℕ, zero, suc, ◌+◌, ◌%◌, ◌^◌, Bool, true, false, Option, none, some, List, [], ◌∷◌, ◌++◌, length,
  drop, le_value, if◌then◌else◌, ◌==◌, Outcome, ok, crash, null_deref, never_ends, ◌>>=◌,
  header_size, read_all,
}
use libevent_paxos.Proxy.Message.{
  ProxyEnv, p_connect, p_send, p_close, c_send_wr, read_word, build_req_sub_msg, received_at,
  req_sub_bytes,
}
use libevent_paxos.Proxy.State.{
  Hash, SocketPair, Proxy, set_up, write_bytes, close_fd, client_side, gen_key, with_effects,
  put_pair, with_pair,
}
use libevent_paxos.Proxy.Action.{add_pair}

-- sizeof(socket_pair)
abbrev pub socket_pair_size : ℕ
socket_pair_size = 96

-- CLIENT_MSG_HEADER_SIZE + data_size, on a word of 64 bits.
unfoldable pub client_frame_size : List ℕ → ℕ
client_frame_size header = (header_size + le_value 8 (drop 8 header)) % 2 ^ 64

abbrev pub count_up : SocketPair → SocketPair
count_up pair = record pair { counter = (pair.counter + 1) % 2 ^ 64 }

module _ {M S : Type 0} where
  -- A message is made, stamped with the time of receipt, and written if there is a connection.
  abbrev pub submit_to :
      Option ℕ → ProxyEnv → Proxy M S → SocketPair → ℕ → ℕ → List ℕ → Outcome (Proxy M S)
  submit_to con_conn env p pair action size bytes =
      build_req_sub_msg env pair.key pair.counter action size bytes >>= λ built.
      received_at (env.received pair.counter) built >>= λ m. elim con_conn [
        | none ↦ ok p
        | some con ↦ ok (with_effects p (write_bytes con (req_sub_bytes env.padding m) ∷ []))
      ]

  abbrev pub submit : ProxyEnv → Proxy M S → SocketPair → ℕ → ℕ → List ℕ → Outcome (Proxy M S)
  submit env p pair action size bytes = submit_to p.con_conn env p pair action size bytes

  -- The message that the buffer starts with has been moved to memory of its size. Without that
  -- memory nothing is taken from the buffer, and the caller's loop comes back for ever.
  unfoldable pub client_process_data : ProxyEnv → ℕ → Proxy M S → List ℕ → Outcome (Proxy M S)
  client_process_data env i p msg_buf = elim (env.malloc (length msg_buf)) [
    | false ↦ crash never_ends
    | true ↦ read_word 0 4 msg_buf >>= λ type. elim (type == c_send_wr) [
      | false ↦ ok p
      | true ↦ read_word 8 8 msg_buf >>= λ size. with_pair p i λ pair.
          submit env (put_pair p i (count_up pair)) pair p_send size (drop header_size msg_buf)
    ]
  ]

  -- The proxy, and what stays in the buffer of the client.
  unfoldable pub client_side_on_read :
      ProxyEnv → ℕ → Proxy M S → List ℕ → Outcome (Proxy M S × List ℕ)
  client_side_on_read env i p buf = elim (env.malloc header_size) [
    | false ↦ ok (p, buf)
    | true ↦ read_all client_frame_size (client_process_data env i) p buf
  ]

  abbrev pub submit_close : ProxyEnv → ℕ → Proxy M S → Outcome (Proxy M S)
  submit_close env i p =
      with_pair p i λ pair. submit env (put_pair p i (count_up pair)) pair p_close 0 []

  -- `connected` and `lost` (EOF or an error) are the bits of `what`.
  unfoldable pub client_side_on_err : ProxyEnv → ℕ → Bool → Bool → Proxy M S → Outcome (Proxy M S)
  client_side_on_err env i true lost p = ok p
  client_side_on_err env i false true p = submit_close env i p
  client_side_on_err env i false false p = ok p

  unfoldable pub server_side_on_err : ProxyEnv → ℕ → Bool → Bool → Proxy M S → Outcome (Proxy M S)
  server_side_on_err env i true lost p = ok p
  server_side_on_err env i false true p = submit_close env i p
  server_side_on_err env i false false p = ok p

  -- The whole buffer goes to the client, or away where this proxy has none; it is empty afterwards.
  unfoldable pub server_side_on_read : ℕ → Proxy M S → List ℕ → Outcome (Proxy M S)
  server_side_on_read i p [] = ok p
  server_side_on_read i p (b ∷ bs) = with_pair p i λ pair. elim pair.p_c [
    | none ↦ ok p
    | some bev ↦ ok (with_effects p (write_bytes bev (b ∷ bs) ∷ []))
  ]

module _ (hash : Hash) {S : Type 0} where
  -- The pair of the connection `fd`, whose message CONNECT has taken the first count.
  abbrev pub accepted_pair : ProxyEnv → Proxy hash.Map S → ℕ → SocketPair
  accepted_pair env p bev = record {
    key = gen_key p.node_id p.pair_count env.now.tv_sec;
    counter = 0;
    p_s = none;
    p_c = some bev;
  }

  abbrev pub accept_on : ProxyEnv → Proxy hash.Map S → ℕ → ℕ → Outcome (Proxy hash.Map S)
  accept_on env p con bev =
      let pair = accepted_pair env p bev in
      let i = length p.pairs in
      let p' = add_pair hash (record p { pair_count = (p.pair_count + 1) % 2 ^ 16 }) pair in
      submit_to (some con) env
        (put_pair (with_effects p' (set_up bev (client_side i) ∷ [])) i (count_up pair)) pair
        p_connect 0 []

  unfoldable pub proxy_on_accept : ProxyEnv → ℕ → Proxy hash.Map S → Outcome (Proxy hash.Map S)
  proxy_on_accept env fd p = elim p.con_conn [
    | none ↦ ok (with_effects p (close_fd fd ∷ []))
    | some con ↦
        if env.malloc socket_pair_size
        then elim env.new_bev [ none ↦ crash null_deref | some bev ↦ accept_on env p con bev ]
        else crash null_deref
  ]
