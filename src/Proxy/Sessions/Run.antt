-- ===== src/Proxy/Sessions/Run.antt =====
-- The log of requests that src/proxy/proxy.c acts on decides alone on the connections to the server
-- and on what is written there.
use libevent_paxos.Base.{
  ℕ, ◌^◌, ◌-◌, ◌<◌, ◌≡◌, refl, sym, ap, ◌∙◌, List, [], ◌∷◌, ◌++◌, length, append-nil, append_assoc,
  ok, >>=-ok, le_bytes,
}
use libevent_paxos.Db.{Bdb}
use libevent_paxos.Consensus.Record.{decode_record}
use libevent_paxos.Proxy.Message.{
  ProxyMsg, connect_msg, send_msg, close_msg, proxy_header_bytes, encode_proxy_msg, read_action,
  read_connection_id, copied,
}
use libevent_paxos.Proxy.Message.Coding.{
  read_action-header, read_connection_id-header, read_data_size-header, drop-send_header,
  copied-length,
}
use libevent_paxos.Proxy.State.{Opening, opens, Hash, Proxy}
use libevent_paxos.Proxy.Action.{do_action_by, do_action_to_server, real_do_action}
use libevent_paxos.Proxy.Action.Order.{Log, act_on, real_do_action-act_on}
use libevent_paxos.Proxy.Sessions.{serve, serve_all, writes, IsProxyMsg, link, IsSound}
use libevent_paxos.Proxy.Sessions.Refine.{
  Serves, Serves-same, no_writes, do_action_connect-Serves, do_action_send-Serves,
  do_action_close-Serves,
}

module _ (hash : Hash) {S : Type 0} where
  acts_by :
      (opening : Opening) (p : Proxy hash.Map S) (mem : List ℕ) {a n : ℕ}
      → read_action mem ≡ ok a
      → a ≡ n
      → do_action_to_server hash opening p mem ≡ do_action_by hash n opening p mem
  unfolding do_action_to_server
  acts_by opening p mem action which =
      >>=-ok _ action ∙ ap (λ x. do_action_by hash x opening p mem) which

  -- The bytes of a message whose fields fit their words are acted on as `serve` says, with no fault,
  -- in every sound state; `bev` is the buffer event that libevent makes.
  pub do_action_to_server-serve :
      (padding bev : ℕ) (m : ProxyMsg) (p : Proxy hash.Map S)
      → IsProxyMsg m
      → IsSound hash p
      → Serves hash p
          (do_action_to_server hash (opens bev) p (encode_proxy_msg padding m))
          (serve bev m (link hash p)).0
          (serve bev m (link hash p)).1
  unfolding serve encode_proxy_msg
  do_action_to_server-serve padding bev (connect_msg h) p (fits, which) sound =
      let mem = proxy_header_bytes padding h in
      let whole = append-nil mem in
      Serves-same hash
        (acts_by (opens bev) p mem
          (ap read_action (sym whole) ∙ read_action-header padding h [] fits) which)
        refl
        (do_action_connect-Serves hash bev h.connection_id p mem sound
          (ap read_connection_id (sym whole) ∙ read_connection_id-header padding h [] fits))
  do_action_to_server-serve padding bev (send_msg h size bytes) p (fits, which, sized, small)
        sound =
      let rest = le_bytes 8 size ++ bytes in
      let mem = proxy_header_bytes padding h ++ rest in
      Serves-same hash (acts_by (opens bev) p mem (read_action-header padding h rest fits) which)
        refl
        (do_action_send-Serves hash h.connection_id p mem bytes sound
          (read_connection_id-header padding h rest fits)
          (read_data_size-header padding size h bytes small ∙ ap ok (sym sized))
          (ap (copied (length bytes)) (drop-send_header padding size h bytes)
            ∙ copied-length bytes))
  do_action_to_server-serve padding bev (close_msg h) p (fits, which) sound =
      let mem = proxy_header_bytes padding h in
      let whole = append-nil mem in
      Serves-same hash
        (acts_by (opens bev) p mem
          (ap read_action (sym whole) ∙ read_action-header padding h [] fits) which)
        refl
        (do_action_close-Serves hash h.connection_id p mem sound
          (ap read_connection_id (sym whole) ∙ read_connection_id-header padding h [] fits))

module _ (bdb : Bdb) (hash : Hash) where
  -- Records that hold messages, each with the buffer event that libevent makes at it.
  pub data Carries (padding : ℕ) (opening : ℕ → Opening)
      : List (ℕ × List ℕ) → List (ℕ × ProxyMsg) → Type 0 where
    carries_none : Carries padding opening [] []
    carries_one :
        {k bev : ℕ} {mem : List ℕ} {m : ProxyMsg} {log : List (ℕ × List ℕ)}
        {ms : List (ℕ × ProxyMsg)}
        → opening k ≡ opens bev
        → (decode_record mem).body ≡ encode_proxy_msg padding m
        → IsProxyMsg m
        → Carries padding opening log ms
        → Carries padding opening ((k, mem) ∷ log) ((bev, m) ∷ ms)

  act_on-serve_all :
      (padding : ℕ) (opening : ℕ → Opening) (log : List (ℕ × List ℕ)) (ms : List (ℕ × ProxyMsg))
      → (p : Proxy hash.Map bdb.Store) → Carries padding opening log ms
      → IsSound hash p
      → Serves hash p
          (act_on bdb hash opening log p)
          (serve_all ms (link hash p)).0
          (serve_all ms (link hash p)).1
  unfolding act_on serve_all link
  act_on-serve_all padding opening log ms p carries_none sound = record {
    after = p;
    ends = refl;
    sound = sound;
    linked = refl;
    written = no_writes hash p;
  }
  act_on-serve_all padding opening log ms p
        (carries_one {k = k} {bev = bev} {mem = mem} {m = m} {log = later} {ms = next} makes holds
          fits rest)
        sound =
      let p' : Proxy hash.Map bdb.Store = record p { cur_rec = k } in
      let first = do_action_to_server-serve hash padding bev m p' fits sound in
      let others = act_on-serve_all padding opening later next first.after rest first.sound in
      record {
        after = others.after;
        ends =
            >>=-ok _ (
              ap (λ b. do_action_to_server hash b p' (decode_record mem).body) makes
              ∙ ap (do_action_to_server hash (opens bev) p') holds
              ∙ first.ends)
            ∙ others.ends;
        sound = others.sound;
        linked = others.linked ∙ ap (λ l. (serve_all next l).0) first.linked;
        written =
            others.written
            ∙ ap (λ t. t ++ (serve_all next (link hash first.after)).1) first.written
            ∙ append_assoc (writes p.effects) _ _
            ∙ ap (λ l. writes p.effects ++ ((serve bev m (link hash p)).1 ++ (serve_all next l).1))
                first.linked;
      }

  -- A proxy in a sound state whose records up to the highest number hold messages, and which for each
  -- of them has memory and gets a buffer event when it asks for one, acts on all of them without a
  -- fault: the connections to the server and what is written on them are those that `serve_all` makes
  -- of the messages, of the buffer events that libevent gives for them, and of the links that the proxy
  -- started with.
  pub real_do_action-serve_all :
      (padding : ℕ) (opening : ℕ → Opening) (log : List (ℕ × List ℕ)) (ms : List (ℕ × ProxyMsg))
      → (p : Proxy hash.Map bdb.Store) (end : ℕ) → p.highest_rec < 2 ^ 64 - 2 ^ 32
      → Log bdb hash p.db_ptr p.highest_rec p.cur_rec log end
      → Carries padding opening log ms
      → IsSound hash p
      → Serves hash p
          (real_do_action bdb hash opening p)
          (serve_all ms (link hash p)).0
          (serve_all ms (link hash p)).1
  unfolding link
  real_do_action-serve_all padding opening log ms p end small l messages sound =
      let run = act_on-serve_all padding opening log ms p messages sound in
      record {
        after = record run.after { cur_rec = end };
        ends = real_do_action-act_on bdb hash opening p log end small l ∙ >>=-ok _ run.ends;
        sound = run.sound;
        linked = run.linked;
        written = run.written;
      }
