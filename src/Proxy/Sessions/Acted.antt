-- ===== src/Proxy/Sessions/Acted.antt =====
-- What decided records, and a new client, make src/proxy/proxy.c do to the sessions.
use libevent_paxos.Base.{
  ℕ, zero, suc, ◌+◌, ◌%◌, ◌^◌, ◌≡◌, refl, Option, none, some, List, [], ◌∷◌, length, drop, leb,
  Option-cases, inl, inr, subst, sym, ok, crash, null_deref, if◌then◌else◌, Returns, returns, stops,
  Returns-after, Returns-Option, Returns-Bool, Returns-if,
}
use libevent_paxos.Db.{Bdb, retrieve_record}
use libevent_paxos.Consensus.Record.{decode_record}
use libevent_paxos.Proxy.Message.{
  ProxyEnv, p_connect, read_action, read_connection_id, read_data_size, copied, send_msg_size,
}
use libevent_paxos.Proxy.State.{
  Opening, Hash, Proxy, put_pair, with_effects, cross_view, set_up, client_side, gen_key,
}
use libevent_paxos.Proxy.Action.{
  new_pair, add_pair, connect_pair, do_action_connect, do_action_send, do_action_close,
  do_action_by, do_action_to_server, do_record, next_rec, action_loop, act_up_to, real_do_action,
}
use libevent_paxos.Proxy.Client.{
  count_up, accepted_pair, accept_on, proxy_on_accept, socket_pair_size,
}
use libevent_paxos.Proxy.Sessions.Pairs.{pair_at-length}
use libevent_paxos.Proxy.Sessions.Grow.{
  Grows, stays, and_then, chained, Grows-same, Grows-trans, Grows-put_pair, Grows-add_pair,
  with_pair-Grows,
}
use libevent_paxos.Proxy.Sessions.Requested.{submit_to-Grows}

module _ (hash : Hash) {S : Type 0} where
  connect_pair-Grows :
      (opening : Opening) (p : Proxy hash.Map S) (i : ℕ)
      → Returns (Grows hash p) (connect_pair hash opening p i)
  unfolding connect_pair
  connect_pair-Grows opening p i = with_pair-Grows hash p i _ λ pair there.
      Returns-Option _ pair.p_s
        (Returns-Option _ opening.new_bev stops λ bev. returns (
          Grows-trans hash p (put_pair p i (record pair { p_s = some bev })) _
            (Grows-put_pair hash p i pair (record pair { p_s = some bev }) there refl)
            (Grows-same hash _ _ refl refl)))
        (λ old. returns (stays hash p))

  do_action_connect-Grows :
      (opening : Opening) (p : Proxy hash.Map S) (mem : List ℕ)
      → Returns (Grows hash p) (do_action_connect hash opening p mem)
  unfolding do_action_connect
  do_action_connect-Grows opening p mem = Returns-after (read_connection_id mem) _ λ key.
      let made =
        if opening.has_memory
        then connect_pair hash opening (add_pair hash p (new_pair key)) (length p.pairs)
        else crash null_deref in
      let Fits = λ (o : Option ℕ).
        Returns (Grows hash p) (elim o [ none ↦ made | some i ↦ connect_pair hash opening p i ]) in
      elim (Option-cases (hash.find p.hash_map key)) [
        | inl missing ↦ subst Fits (sym missing) (
            and_then hash p (add_pair hash p (new_pair key)) made
              (Grows-add_pair hash p (new_pair key) missing)
              (Returns-if opening.has_memory
                (connect_pair-Grows opening (add_pair hash p (new_pair key)) (length p.pairs))
                stops))
        | inr (i, found) ↦ subst Fits (sym found) (connect_pair-Grows opening p i)
      ]

  do_action_send-Grows :
      (p : Proxy hash.Map S) (mem : List ℕ) → Returns (Grows hash p) (do_action_send hash p mem)
  unfolding do_action_send
  do_action_send-Grows p mem = Returns-after (read_connection_id mem) _ λ key.
      Returns-Option _ (hash.find p.hash_map key) (returns (stays hash p)) λ i.
        with_pair-Grows hash p i _ λ pair there.
          Returns-Option _ pair.p_s (returns (stays hash p)) λ bev.
            Returns-after (read_data_size mem) _ λ size.
              Returns-after (copied size (drop send_msg_size mem)) _
                λ bytes. returns (Grows-same hash p _ refl refl)

  do_action_close-Grows :
      (p : Proxy hash.Map S) (mem : List ℕ) → Returns (Grows hash p) (do_action_close hash p mem)
  unfolding do_action_close
  do_action_close-Grows p mem = Returns-after (read_connection_id mem) _ λ key.
      Returns-Option _ (hash.find p.hash_map key) (returns (stays hash p)) λ i.
        with_pair-Grows hash p i _ λ pair there. returns (
          Grows-trans hash p (put_pair p i (record pair { p_s = none; p_c = none })) _
            (Grows-put_pair hash p i pair (record pair { p_s = none; p_c = none }) there refl)
            (Grows-same hash _ _ refl refl))

  do_action_by-Grows :
      (action : ℕ) (opening : Opening) (p : Proxy hash.Map S) (mem : List ℕ)
      → Returns (Grows hash p) (do_action_by hash action opening p mem)
  do_action_by-Grows zero opening p mem = do_action_connect-Grows opening p mem
  do_action_by-Grows (suc zero) opening p mem = do_action_send-Grows p mem
  do_action_by-Grows (suc (suc zero)) opening p mem = do_action_close-Grows p mem
  do_action_by-Grows (suc (suc (suc n))) opening p mem = returns (stays hash p)

  do_action_to_server-Grows :
      (opening : Opening) (p : Proxy hash.Map S) (mem : List ℕ)
      → Returns (Grows hash p) (do_action_to_server hash opening p mem)
  unfolding do_action_to_server
  do_action_to_server-Grows opening p mem =
      Returns-after (read_action mem) _ λ action. do_action_by-Grows action opening p mem

  accept_on-Grows :
      (env : ProxyEnv) (p : Proxy hash.Map S) (con bev : ℕ)
      → hash.find p.hash_map (gen_key p.node_id p.pair_count env.now.tv_sec) ≡ none
      → Returns (Grows hash p) (accept_on hash env p con bev)
  unfolding add_pair
  accept_on-Grows env p con bev fresh =
      let pair = accepted_pair hash env p bev in
      let counted = record p { pair_count = (p.pair_count + 1) % 2 ^ 16 } in
      let added = add_pair hash counted pair in
      let ready = with_effects added (set_up bev (client_side (length p.pairs)) ∷ []) in
      let there = pair_at-length p.pairs pair in
      and_then hash p ready _
        (Grows-trans hash p added ready
          (Grows-trans hash p counted added (Grows-same hash p counted refl refl)
            (Grows-add_pair hash counted pair fresh))
          (Grows-same hash added ready refl refl))
        (and_then hash ready (put_pair ready (length p.pairs) (count_up pair)) _
          (Grows-put_pair hash ready (length p.pairs) pair (count_up pair) there refl)
          (submit_to-Grows hash (some con) env (put_pair ready (length p.pairs) (count_up pair))
            pair p_connect 0 []))

  -- The new id must not be in use.
  pub proxy_on_accept-Grows :
      (env : ProxyEnv) (fd : ℕ) (p : Proxy hash.Map S)
      → hash.find p.hash_map (gen_key p.node_id p.pair_count env.now.tv_sec) ≡ none
      → Returns (Grows hash p) (proxy_on_accept hash env fd p)
  unfolding proxy_on_accept
  proxy_on_accept-Grows env fd p fresh =
      Returns-Option _ p.con_conn (returns (Grows-same hash p _ refl refl)) λ con.
        Returns-if (env.malloc socket_pair_size)
          (Returns-Option _ env.new_bev stops λ bev. accept_on-Grows env p con bev fresh) stops

module _ (bdb : Bdb) (hash : Hash) where
  do_record-Grows :
      (opening : ℕ → Opening) (p : Proxy hash.Map bdb.Store)
      → Returns (Grows hash p) (do_record bdb hash opening p)
  unfolding do_record cross_view
  do_record-Grows opening p =
      Returns-Option _ (retrieve_record bdb p.db_ptr p.cur_rec).1
        (returns (Grows-same hash p _ refl refl))
        λ mem.
          chained hash p _ (λ q. ok (next_rec bdb hash q))
            (do_action_to_server-Grows hash (opening p.cur_rec) p (decode_record mem).body)
            λ q. returns (Grows-same hash q (next_rec bdb hash q) refl refl)

  action_loop-Grows :
      (rounds : ℕ) (opening : ℕ → Opening) (highest : ℕ) (p : Proxy hash.Map bdb.Store)
      → Returns (Grows hash p) (action_loop bdb hash rounds opening highest p)
  unfolding action_loop
  action_loop-Grows zero opening highest p = stops
  action_loop-Grows (suc rounds) opening highest p =
      Returns-Bool (leb p.cur_rec highest) (returns (stays hash p)) (
        chained hash p (do_record bdb hash opening p) (action_loop bdb hash rounds opening highest)
          (do_record-Grows opening p) (action_loop-Grows rounds opening highest))

  pub real_do_action-Grows :
      (opening : ℕ → Opening) (p : Proxy hash.Map bdb.Store)
      → Returns (Grows hash p) (real_do_action bdb hash opening p)
  unfolding real_do_action act_up_to
  real_do_action-Grows opening p = action_loop-Grows _ opening p.highest_rec p
