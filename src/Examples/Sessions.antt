-- ===== src/Examples/Sessions.antt =====
-- A client that comes to a proxy and goes again, at which the theorem about the sessions of
-- src/proxy/proxy.c is applied.
use libevent_paxos.Base.{ℕ, refl, true, false, Option, Outcome, ok, crash}
use libevent_paxos.Proxy.Message.{build_req_sub_msg, received_at}
use libevent_paxos.Proxy.State.{Proxy, update_state, wake_up}
use libevent_paxos.Proxy.Action.{add_pair}
use libevent_paxos.Proxy.Client.{proxy_on_accept, client_side_on_err}
use libevent_paxos.Proxy.Sessions.Grow.{Grows}
use libevent_paxos.Proxy.Sessions.Steps.{
  ProxySteps, accepts, learns, meets_client, rest, step, ProxySteps-Grows,
}
use libevent_paxos.Examples.{map_db, Map}
use libevent_paxos.Examples.Proxy.{map_hash, fresh_proxy, proxy_env}

-- The result of a callback, which returns in what follows.
abbrev result : Outcome (Proxy (ℕ → Option ℕ) Map) → Proxy (ℕ → Option ℕ) Map
result (ok p) = p
result (crash fault) = fresh_proxy

abbrev with_client : Proxy (ℕ → Option ℕ) Map
with_client = result (proxy_on_accept map_hash proxy_env 5 fresh_proxy)

abbrev informed : Proxy (ℕ → Option ℕ) Map
informed = update_state with_client 7

abbrev client_gone : Proxy (ℕ → Option ℕ) Map
client_gone = result (client_side_on_err proxy_env 0 false true informed)

come_and_go : ProxySteps map_db map_hash fresh_proxy client_gone
unfolding proxy_on_accept client_side_on_err update_state wake_up add_pair build_req_sub_msg
    received_at
come_and_go =
    step (accepts proxy_env 5 refl refl)
      (step (learns 7 refl) (step (meets_client proxy_env 0 false true refl) rest))

ProxySteps-Grows_example : Grows map_hash fresh_proxy client_gone
ProxySteps-Grows_example = ProxySteps-Grows map_db map_hash fresh_proxy client_gone come_and_go
