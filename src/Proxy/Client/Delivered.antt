-- ===== src/Proxy/Client/Delivered.antt =====
-- From the bytes of a client to the bytes for the server: the requests that src/proxy/proxy.c makes of
-- a client's messages, acted on in their order, send the data of the messages to the server.
use libevent_paxos.Base.{
  ℕ, ◌^◌, ◌-◌, ◌<◌, ◌≡◌, subst, true, false, map, concat, ok, has_frame, refl, ap, ◌∙◌, List, [],
  ◌∷◌, ◌++◌, some, ◌==◌, eq_or_ne, eq→==, ne→==, if◌then◌else◌, inl, inr,
}
use libevent_paxos.Proxy.Message.{ProxyEnv, ProxyMsg, ReqSubMsg, c_send_wr}
use libevent_paxos.Db.{Bdb}
use libevent_paxos.Proxy.State.{Hash, Proxy, Opening, SocketPair, pair_at}
use libevent_paxos.Proxy.Action.{real_do_action}
use libevent_paxos.Proxy.Action.Order.{Log}
use libevent_paxos.Proxy.Sessions.Refine.{Serves}
use libevent_paxos.Proxy.Sessions.Run.{Carries, real_do_action-serve_all}
use libevent_paxos.Proxy.Client.{
  count_up, client_frame_size, client_process_data, client_side_on_read,
}
use libevent_paxos.Proxy.Client.Requests.{
  ClientMsg, AreClientMsgs, request_of, requests, requested, client_msg_bytes,
  client_side_on_read-requests,
}
use libevent_paxos.Proxy.Sessions.{Links, serve, serve_all, sent_on, link, IsSound}

-- The messages of requests, as a log has them; none of them asks for a new connection.
abbrev pub queued : ℕ → List ReqSubMsg → List (ℕ × ProxyMsg)
queued any [] = []
queued any (r ∷ rs) = (any, r.msg) ∷ queued any rs

-- What the client wants sent.
abbrev pub to_send : ℕ → List ClientMsg → List (ℕ × List ℕ)
to_send bev [] = []
to_send bev (m ∷ ms) =
    let rest = to_send bev ms in if m.type == c_send_wr then (bev, m.body) ∷ rest else rest

requests-serve_all :
    (env : ProxyEnv) (pair : SocketPair) (any bev : ℕ) (ms : List ClientMsg) (links : Links)
    → links pair.key ≡ some bev
    → serve_all (queued any (requests env pair ms).0) links ≡ (links, to_send bev ms)
unfolding serve_all serve requests request_of
requests-serve_all env pair any bev [] links linked = refl
requests-serve_all env pair any bev (m ∷ ms) links linked = elim (eq_or_ne m.type c_send_wr) [
  | inl send ↦
      let rest = serve_all (queued any (requests env (count_up pair) ms).0) links in
      rw (eq→== m.type c_send_wr send) (
        ap (λ v. (rest.0, sent_on v m.body ++ rest.1)) linked
        ∙ ap (λ r. (r.0, (bev, m.body) ∷ r.1))
            (requests-serve_all env (count_up pair) any bev ms links linked))
  | inr other ↦
      rw (ne→== m.type c_send_wr other) (requests-serve_all env pair any bev ms links linked)
]

module _ (bdb : Bdb) (hash : Hash) where
  -- From a client to the server. A proxy with memory and a connection to the consensus reads the bytes
  -- of any list of a client's messages, whatever part of a message follows, and makes requests of them.
  -- Let a proxy `q` (this one or another) be in a sound state, with a link to the server for the id of
  -- this client, and let its records up to the highest number hold these requests. It acts on them
  -- without a fault, keeps its links, and writes on that link the data of the messages that the client
  -- asks to send, whole and in their order, and nothing else.
  pub client_to_server :
      (env : ProxyEnv) (i con padding any bev : ℕ) (p q : Proxy hash.Map bdb.Store)
      → (pair : SocketPair) (ms : List ClientMsg) (part : List ℕ) (opening : ℕ → Opening)
      → (log : List (ℕ × List ℕ)) (end : ℕ) → ((n : ℕ) → env.malloc n ≡ true)
      → p.con_conn ≡ some con
      → pair_at p.pairs i ≡ some pair
      → AreClientMsgs ms
      → has_frame client_frame_size (client_process_data {M = hash.Map} {S = bdb.Store} env i) part
        ≡ false
      → q.highest_rec < 2 ^ 64 - 2 ^ 32
      → Log bdb hash q.db_ptr q.highest_rec q.cur_rec log end
      → Carries bdb hash padding opening log (queued any (requests env pair ms).0)
      → IsSound hash q
      → link hash q pair.key ≡ some bev
      → (client_side_on_read env i p (concat (map (client_msg_bytes padding) ms) ++ part)
          ≡ ok (requested env i con p (requests env pair ms), part))
        × Serves hash q (real_do_action bdb hash opening q) (link hash q) (to_send bev ms)
  client_to_server env i con padding any bev p q pair ms part opening log end mem up there fits
        no_frame small l messages sound linked =
      let sent = queued any (requests env pair ms).0 in
      let goal = requests-serve_all env pair any bev ms (link hash q) linked in
      (
        client_side_on_read-requests env i con padding p pair ms part mem up there fits no_frame,
        subst (λ r. Serves hash q (real_do_action bdb hash opening q) r.0 r.1) goal
            (real_do_action-serve_all bdb hash padding opening log sent q end small l messages
              sound),
      )
