-- ===== src/Proxy/Sessions/Requested.antt =====
-- What the callbacks of src/proxy/proxy.c for clients and the server do to the sessions.
use libevent_paxos.Base.{
  ℕ, zero, suc, refl, Bool, true, false, Option, List, [], ◌∷◌, length, drop, take, ◌==◌, Returns,
  returns, stops, Returns->>=, Returns-after, Returns-map, Returns-Option, Returns-Bool,
  header_size, has_frame, read_frames, read_all,
}
use libevent_paxos.Proxy.Message.{
  ProxyEnv, p_send, p_close, read_word, build_req_sub_msg, received_at, c_send_wr,
}
use libevent_paxos.Proxy.State.{Hash, SocketPair, Proxy, put_pair, with_pair}
use libevent_paxos.Proxy.Client.{
  client_frame_size, count_up, submit_to, submit, client_process_data, client_side_on_read,
  client_side_on_err, server_side_on_err, server_side_on_read,
}
use libevent_paxos.Proxy.Sessions.Grow.{
  Grows, stays, and_then, Grows-same, Grows-trans, Grows-put_pair, with_pair-Grows,
}

module _ (hash : Hash) {S : Type 0} where
  pub submit_to-Grows :
      (con : Option ℕ) (env : ProxyEnv) (p : Proxy hash.Map S) (pair : SocketPair) (action size : ℕ)
      → (bytes : List ℕ) → Returns (Grows hash p) (submit_to con env p pair action size bytes)
  submit_to-Grows con env p pair action size bytes =
      Returns-after (build_req_sub_msg env pair.key pair.counter action size bytes) _ λ built.
        Returns-after (received_at (env.received pair.counter) built) _ λ m.
          Returns-Option _ con (returns (stays hash p))
            λ bev. returns (Grows-same hash p _ refl refl)

  -- A request that takes the next count of its connection.
  counted-Grows :
      (env : ProxyEnv) (i : ℕ) (p : Proxy hash.Map S) (action size : ℕ) (bytes : List ℕ)
      → Returns
          (Grows hash p)
          (with_pair p i λ pair. submit env (put_pair p i (count_up pair)) pair action size bytes)
  counted-Grows env i p action size bytes = with_pair-Grows hash p i _ λ pair there.
      and_then hash p (put_pair p i (count_up pair)) _
        (Grows-put_pair hash p i pair (count_up pair) there refl)
        (submit_to-Grows p.con_conn env (put_pair p i (count_up pair)) pair action size bytes)

  client_process_data-Grows :
      (env : ProxyEnv) (i : ℕ) (p : Proxy hash.Map S) (buf : List ℕ)
      → Returns (Grows hash p) (client_process_data env i p buf)
  unfolding client_process_data
  client_process_data-Grows env i p buf = Returns-Bool (env.malloc (length buf)) stops (
      Returns-after (read_word 0 4 buf) _ λ type.
        Returns-Bool (type == c_send_wr) (returns (stays hash p)) (
          Returns-after (read_word 8 8 buf) _
            λ size. counted-Grows env i p p_send size (drop header_size buf)))

  read_frames-Grows :
      (env : ProxyEnv) (i n : ℕ) (p : Proxy hash.Map S) (buf : List ℕ)
      → Returns
          (λ r. Grows hash p r.0)
          (read_frames client_frame_size (client_process_data env i) n p buf)
  unfolding read_frames
  read_frames-Grows env i zero p buf = stops
  read_frames-Grows env i (suc n) p buf =
      let size = client_frame_size (take header_size buf) in
      Returns-Bool (has_frame client_frame_size (client_process_data env i) buf)
        (returns (stays hash p))
        (Returns->>= _ (client_process_data-Grows env i p (take size buf)) λ q grown.
          Returns-map (λ r more. Grows-trans hash p q r.0 grown more)
            (read_frames-Grows env i n q (drop size buf)))

  pub client_side_on_read-Grows :
      (env : ProxyEnv) (i : ℕ) (p : Proxy hash.Map S) (buf : List ℕ)
      → Returns (λ r. Grows hash p r.0) (client_side_on_read env i p buf)
  unfolding client_side_on_read read_all
  client_side_on_read-Grows env i p buf =
      Returns-Bool (env.malloc header_size) (returns (stays hash p))
        (read_frames-Grows env i (suc (length buf)) p buf)

  pub client_side_on_err-Grows :
      (env : ProxyEnv) (i : ℕ) (connected lost : Bool) (p : Proxy hash.Map S)
      → Returns (Grows hash p) (client_side_on_err env i connected lost p)
  unfolding client_side_on_err
  client_side_on_err-Grows env i true lost p = returns (stays hash p)
  client_side_on_err-Grows env i false true p = counted-Grows env i p p_close 0 []
  client_side_on_err-Grows env i false false p = returns (stays hash p)

  pub server_side_on_err-Grows :
      (env : ProxyEnv) (i : ℕ) (connected lost : Bool) (p : Proxy hash.Map S)
      → Returns (Grows hash p) (server_side_on_err env i connected lost p)
  unfolding server_side_on_err
  server_side_on_err-Grows env i true lost p = returns (stays hash p)
  server_side_on_err-Grows env i false true p = counted-Grows env i p p_close 0 []
  server_side_on_err-Grows env i false false p = returns (stays hash p)

  pub server_side_on_read-Grows :
      (i : ℕ) (p : Proxy hash.Map S) (buf : List ℕ)
      → Returns (Grows hash p) (server_side_on_read i p buf)
  unfolding server_side_on_read
  server_side_on_read-Grows i p [] = returns (stays hash p)
  server_side_on_read-Grows i p (b ∷ bs) = with_pair-Grows hash p i _ λ pair there.
      Returns-Option _ pair.p_c (returns (stays hash p))
        λ bev. returns (Grows-same hash p _ refl refl)
