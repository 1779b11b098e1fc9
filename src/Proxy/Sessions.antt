-- ===== src/Proxy/Sessions.antt =====
-- What src/proxy/proxy.c promises of the connections to the server: a connection id is linked to
-- the server from its CONNECT to its CLOSE, and what is sent on it in between goes to that
-- connection and to no other. `serve` says so with nothing but the links; the code keeps pairs, a
-- hash table and pointers.
pub mod Pairs
pub mod Refine
pub mod Run
pub mod Grow
pub mod Requested
pub mod Acted
pub mod Steps
use libevent_paxos.Base.{
  ℕ, ◌+◌, ◌^◌, ◌<◌, ◌≡◌, Option, none, some, List, [], ◌∷◌, ◌++◌, length, if◌then◌else◌, ◌==◌,
  Outcome, ok, ◌>>=◌,
}
use libevent_paxos.Proxy.Message.{
  ProxyHeader, ProxyMsg, connect_msg, send_msg, close_msg, header_of, p_connect, p_send, p_close,
}
use libevent_paxos.Proxy.Message.Coding.{IsHeader}
use libevent_paxos.Proxy.State.{
  Hash, SocketPair, Proxy, ProxyEffect, set_up, connect_to, write_bytes, free_bev, close_fd,
  add_re_con, wake_self, pair_at,
}
use libevent_paxos.Proxy.Action.{do_action_to_server}

-- The connection to the server that each connection id has.
abbrev pub Links : Type 0
Links = ℕ → Option ℕ

abbrev pub set_link : Links → ℕ → Option ℕ → Links
set_link links k v j = if j == k then v else links j

-- An open link stays; a new one is `bev`.
abbrev pub opened : ℕ → Option ℕ → Option ℕ
opened bev none = some bev
opened bev (some old) = some old

abbrev pub sent_on : Option ℕ → List ℕ → List (ℕ × List ℕ)
sent_on none bytes = []
sent_on (some bev) bytes = (bev, bytes) ∷ []

-- The links after a message, and what is written on which connection. `bev` is a new connection.
unfoldable pub serve : ℕ → ProxyMsg → Links → Links × List (ℕ × List ℕ)
serve bev (connect_msg h) links =
    (set_link links h.connection_id (opened bev (links h.connection_id)), [])
serve bev (send_msg h size bytes) links = (links, sent_on (links h.connection_id) bytes)
serve bev (close_msg h) links = (set_link links h.connection_id none, [])

-- The links and the traffic of a list of messages.
unfoldable pub serve_all : List (ℕ × ProxyMsg) → Links → Links × List (ℕ × List ℕ)
serve_all [] links = (links, [])
serve_all ((bev, m) ∷ ms) links =
    let rest = serve_all ms (serve bev m links).0 in (rest.0, (serve bev m links).1 ++ rest.1)

-- The writes among the effects.
unfoldable pub writes : List ProxyEffect → List (ℕ × List ℕ)
writes [] = []
writes (write_bytes bev bytes ∷ es) = (bev, bytes) ∷ writes es
writes (set_up bev c ∷ es) = writes es
writes (connect_to bev a ∷ es) = writes es
writes (free_bev bev ∷ es) = writes es
writes (close_fd fd ∷ es) = writes es
writes (add_re_con t ∷ es) = writes es
writes (wake_self ∷ es) = writes es

-- A message whose action is that of its kind, whose fields fit their words, and whose data are as
-- many as it says.
abbrev pub IsProxyMsg : ProxyMsg → Type 0
IsProxyMsg (connect_msg h) = IsHeader h × (h.action ≡ p_connect)
IsProxyMsg (send_msg h size bytes) =
    IsHeader h × (h.action ≡ p_send) × (length bytes ≡ size) × (size < 2 ^ 64)
IsProxyMsg (close_msg h) = IsHeader h × (h.action ≡ p_close)

abbrev pub conn_of : Option SocketPair → Option ℕ
conn_of none = none
conn_of (some pair) = pair.p_s

abbrev pub server_conn : List SocketPair → Option ℕ → Option ℕ
server_conn pairs none = none
server_conn pairs (some i) = conn_of (pair_at pairs i)

module _ (hash : Hash) {S : Type 0} where
  unfoldable pub link : Proxy hash.Map S → Links
  link p k = server_conn p.pairs (hash.find p.hash_map k)

  -- The table points to pairs that exist, and each to one with the key that it is found by.
  abbrev pub IsSound : Proxy hash.Map S → Type 0
  IsSound p =
      (k i : ℕ)
      → hash.find p.hash_map k ≡ some i
      → (pair : SocketPair) × (pair_at p.pairs i ≡ some pair) × (pair.key ≡ k)
