-- ===== src/Proxy/Sessions/Steps.antt =====
-- The callbacks of src/proxy/proxy.c one after the other, in any order: what clients, the server, the
-- consensus and the timer make a proxy do.
use libevent_paxos.Base.{
  ℕ, ◌≡◌, refl, subst, Bool, true, false, Option, none, some, List, ok, Returns, returns, stops,
  Returns-ok,
}
use libevent_paxos.Db.{Bdb}
use libevent_paxos.Proxy.Message.{ProxyEnv}
use libevent_paxos.Proxy.State.{
  Opening, Hash, Proxy, gen_key, update_state, wake_up, connect_consensus, reconnect_on_timeout,
  consensus_on_event,
}
use libevent_paxos.Proxy.Action.{real_do_action}
use libevent_paxos.Proxy.Client.{
  client_side_on_read, client_side_on_err, server_side_on_err, server_side_on_read, proxy_on_accept,
}
use libevent_paxos.Proxy.Sessions.Grow.{Grows, stays, Grows-same, Grows-trans}
use libevent_paxos.Proxy.Sessions.Requested.{
  client_side_on_read-Grows, client_side_on_err-Grows, server_side_on_err-Grows,
  server_side_on_read-Grows,
}
use libevent_paxos.Proxy.Sessions.Acted.{proxy_on_accept-Grows, real_do_action-Grows}

module _ (bdb : Bdb) (hash : Hash) where
  -- The id of a new client is not in use, as uthash asks; whatever else a callback meets is open.
  pub data ProxyStep (p q : Proxy hash.Map bdb.Store) : Type 0 where
    accepts :
        (env : ProxyEnv) (fd : ℕ)
        → hash.find p.hash_map (gen_key p.node_id p.pair_count env.now.tv_sec) ≡ none
        → proxy_on_accept hash env fd p ≡ ok q
        → ProxyStep p q
    reads_client :
        (env : ProxyEnv) (i : ℕ) (buf left : List ℕ)
        → client_side_on_read env i p buf ≡ ok (q, left)
        → ProxyStep p q
    meets_client :
        (env : ProxyEnv) (i : ℕ) (connected lost : Bool)
        → client_side_on_err env i connected lost p ≡ ok q
        → ProxyStep p q
    reads_server : (i : ℕ) (buf : List ℕ) → server_side_on_read i p buf ≡ ok q → ProxyStep p q
    meets_server :
        (env : ProxyEnv) (i : ℕ) (connected lost : Bool)
        → server_side_on_err env i connected lost p ≡ ok q
        → ProxyStep p q
    learns : (rec_no : ℕ) → update_state p rec_no ≡ q → ProxyStep p q
    acts : (opening : ℕ → Opening) → real_do_action bdb hash opening p ≡ ok q → ProxyStep p q
    meets_consensus :
        (bev : ℕ) (connected lost : Bool)
        → consensus_on_event bev connected lost p ≡ q
        → ProxyStep p q
    reconnects : (new_bev : Option ℕ) → reconnect_on_timeout new_bev p ≡ ok q → ProxyStep p q

  -- Any number of callbacks.
  pub data ProxySteps : Proxy hash.Map bdb.Store → Proxy hash.Map bdb.Store → Type 0 where
    rest : {p : Proxy hash.Map bdb.Store} → ProxySteps p p
    step : {p q r : Proxy hash.Map bdb.Store} → ProxyStep p q → ProxySteps q r → ProxySteps p r

  update_state-Grows :
      (p : Proxy hash.Map bdb.Store) (rec_no : ℕ) → Grows hash p (update_state p rec_no)
  unfolding update_state wake_up
  update_state-Grows p rec_no = Grows-same hash p _ refl refl

  consensus_on_event-Grows :
      (bev : ℕ) (connected lost : Bool) (p : Proxy hash.Map bdb.Store)
      → Grows hash p (consensus_on_event bev connected lost p)
  unfolding consensus_on_event
  consensus_on_event-Grows bev true lost p = stays hash p
  consensus_on_event-Grows bev false true p = Grows-same hash p _ refl refl
  consensus_on_event-Grows bev false false p = stays hash p

  reconnect_on_timeout-Grows :
      (new_bev : Option ℕ) (p : Proxy hash.Map bdb.Store)
      → Returns (Grows hash p) (reconnect_on_timeout new_bev p)
  unfolding reconnect_on_timeout connect_consensus
  reconnect_on_timeout-Grows none p = stops
  reconnect_on_timeout-Grows (some bev) p = returns (Grows-same hash p _ refl refl)

  ProxyStep-Grows : (p q : Proxy hash.Map bdb.Store) → ProxyStep p q → Grows hash p q
  ProxyStep-Grows p q (accepts env fd fresh done) =
      Returns-ok (proxy_on_accept-Grows hash env fd p fresh) done
  ProxyStep-Grows p q (reads_client env i buf rest_of_buf done) =
      Returns-ok (client_side_on_read-Grows hash env i p buf) done
  ProxyStep-Grows p q (meets_client env i connected lost done) =
      Returns-ok (client_side_on_err-Grows hash env i connected lost p) done
  ProxyStep-Grows p q (reads_server i buf done) =
      Returns-ok (server_side_on_read-Grows hash i p buf) done
  ProxyStep-Grows p q (meets_server env i connected lost done) =
      Returns-ok (server_side_on_err-Grows hash env i connected lost p) done
  ProxyStep-Grows p q (learns rec_no done) = subst (Grows hash p) done (update_state-Grows p rec_no)
  ProxyStep-Grows p q (acts opening done) =
      Returns-ok (real_do_action-Grows bdb hash opening p) done
  ProxyStep-Grows p q (meets_consensus bev connected lost done) =
      subst (Grows hash p) done (consensus_on_event-Grows bev connected lost p)
  ProxyStep-Grows p q (reconnects new_bev done) =
      Returns-ok (reconnect_on_timeout-Grows new_bev p) done

  -- Over any sequence of callbacks that return, in any surroundings as long as the id of each new
  -- client is not in use, the pointers to pairs stay good: a pair that is in the list stays there in
  -- its place and with its key, an id that the table finds is found in the same place, and the table
  -- goes on to point to pairs with the keys that they are found by.
  pub ProxySteps-Grows : (p q : Proxy hash.Map bdb.Store) → ProxySteps p q → Grows hash p q
  ProxySteps-Grows p q rest = stays hash p
  ProxySteps-Grows p r (step {q = q} one more) =
      Grows-trans hash p q r (ProxyStep-Grows p q one) (ProxySteps-Grows q r more)
