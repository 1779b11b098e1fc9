-- ===== src/Setup/NodeConfig/Peers.antt =====
-- The group that `consensus_read_config` of src/config-comp/config-comp.c sets up.
use libevent_paxos.Base.{
  ℕ, zero, suc, ◌+◌, ◌*◌, ◌≡◌, refl, sym, ap, ◌∙◌, subst, Bool, true, false, Bool-cases, inl, inr,
  ℤ, pos, ltb_ℤ, eqb_ℤ, to_u32, Option, none, some, List, [], ◌∷◌, ◌++◌, append-nil, append_assoc,
  length, ok, Ends, ends_ok, ends_null, Ends-Option, Ends-if, Ends->>=, Ends-map, OnSome-map,
  OnSome, on_none, on_some, OnSome-elim, OnSome-if,
}
use libevent_paxos.Setup.Settings.{ConfigFile, Key, SockAddr}
use libevent_paxos.Setup.NodeConfig.{
  Peer, NodeConfig, sizeof_peer, sizeof_sockaddr_in, global_timevals, address_of, own_settings,
  with_peer, read_peer, read_peers, read_nodes, consensus_read_config,
}

-- Peers with the ids from a number on, none of them connected.
pub data Numbered : ℕ → List Peer → Type 0 where
  no_peers : {i : ℕ} → Numbered i []
  one_peer :
      {i : ℕ} {addr : SockAddr} {ps : List Peer}
      → Numbered (suc i) ps
      → Numbered i (record { peer_id = i; active = false; peer_address = addr } ∷ ps)

module _ (file : ConfigFile) (malloc : ℕ → Bool) where
  -- A turn adds its peer.
  record Added (i : ℕ) (c c' : NodeConfig) : Type 0 where
    addr : SockAddr
    pool :
        c'.peer_pool
        ≡ c.peer_pool ++ record { peer_id = i; active = false; peer_address = addr } ∷ []
    size : c'.group_size ≡ c.group_size

  with_peer-Added :
      (i : ℕ) (c : NodeConfig) (a : SockAddr) → Added i c (with_peer file malloc c i a)
  with_peer-Added i c a = record { addr = a; pool = refl; size = refl }

  own_settings-Added :
      (i : ℕ) (c : NodeConfig) (s : file.Setting) (a : SockAddr)
      → OnSome (Added i c) (own_settings file malloc (with_peer file malloc c i a) s a)
  own_settings-Added i c s a = OnSome-elim _ (file.get_string s Key.db_name) λ name.
      OnSome-if (malloc (length name + 1)) (on_some record { addr = a; pool = refl; size = refl })
        on_none

  read_peer-Added :
      (node_id : ℤ) (nodes : file.Setting) (i : ℕ) (c : NodeConfig)
      → Ends (OnSome (Added i c)) (read_peer file malloc node_id nodes i c)
  unfolding read_peer
  read_peer-Added node_id nodes i c = Ends-Option _ (file.get_elem nodes i) (ends_ok on_none) λ s.
      Ends-Option _ (address_of file malloc s) (ends_ok on_none) λ a.
        Ends-if (malloc sizeof_sockaddr_in)
          (ends_ok (
            OnSome-if (eqb_ℤ (pos i) node_id) (own_settings-Added i c s a)
              (on_some (with_peer-Added i c a))))
          ends_null

  -- All turns add their peers, one after the other.
  record AllAdded (i rounds : ℕ) (c c' : NodeConfig) : Type 0 where
    new : List Peer
    pools : c'.peer_pool ≡ c.peer_pool ++ new
    count : length new ≡ rounds
    numbered : Numbered i new
    size : c'.group_size ≡ c.group_size

  add_first :
      (i rounds : ℕ) (c c' c'' : NodeConfig)
      → Added i c c'
      → AllAdded (suc i) rounds c' c''
      → AllAdded i (suc rounds) c c''
  add_first i rounds c c' c'' first others =
      let p : Peer = record { peer_id = i; active = false; peer_address = first.addr } in
      record {
        new = p ∷ others.new;
        pools =
            others.pools
            ∙ ap (λ ps. ps ++ others.new) first.pool
            ∙ append_assoc c.peer_pool (p ∷ []) others.new;
        count = ap suc others.count;
        numbered = one_peer others.numbered;
        size = others.size ∙ first.size;
      }

  then_others :
      (node_id : ℤ) (nodes : file.Setting) (rounds i : ℕ) (c : NodeConfig)
      (read : Option NodeConfig)
      → ((c' : NodeConfig)
          → Ends
              (OnSome (AllAdded (suc i) rounds c'))
              (read_peers file malloc node_id nodes rounds (suc i) c'))
      → OnSome (Added i c) read
      → Ends (OnSome (AllAdded i (suc rounds) c)) (elim read [
        | none ↦ ok none
        | some c' ↦ read_peers file malloc node_id nodes rounds (suc i) c'
      ])
  then_others node_id nodes rounds i c none rest on_none = ends_ok on_none
  then_others node_id nodes rounds i c (some c') rest (on_some first) =
      Ends-map (λ o. OnSome-map (λ c''. add_first i rounds c c' c'' first)) (rest c')

  read_peers-AllAdded :
      (node_id : ℤ) (nodes : file.Setting) (rounds i : ℕ) (c : NodeConfig)
      → Ends (OnSome (AllAdded i rounds c)) (read_peers file malloc node_id nodes rounds i c)
  unfolding read_peers
  read_peers-AllAdded node_id nodes zero i c = ends_ok (
      on_some record {
        new = [];
        pools = sym (append-nil c.peer_pool);
        count = refl;
        numbered = no_peers;
        size = refl;
      })
  read_peers-AllAdded node_id nodes (suc rounds) i c =
      Ends->>= _ (read_peer-Added node_id nodes i c) λ read good.
        then_others node_id nodes rounds i c read (read_peers-AllAdded node_id nodes rounds (suc i))
          good

  -- A group: its size is above the id of the node, and there is one peer for each id below it.
  pub record IsGroup (node_id : ℤ) (c : NodeConfig) : Type 0 where
    pub below : ltb_ℤ node_id (pos c.group_size) ≡ true
    pub sized : length c.peer_pool ≡ c.group_size
    pub numbered : Numbered 0 c.peer_pool

  AllAdded-IsGroup :
      (node_id : ℤ) (size : ℕ) (c c' : NodeConfig)
      → ltb_ℤ node_id (pos size) ≡ true
      → c.group_size ≡ size
      → c.peer_pool ≡ []
      → AllAdded 0 size c c'
      → IsGroup node_id c'
  AllAdded-IsGroup node_id size c c' small of_size fresh all =
      let pool : c'.peer_pool ≡ all.new = all.pools ∙ ap (λ ps. ps ++ all.new) fresh in
      let same : c'.group_size ≡ size = all.size ∙ of_size in
      record {
        below = ap (λ n. ltb_ℤ node_id (pos n)) same ∙ small;
        sized = ap length pool ∙ all.count ∙ sym same;
        numbered = subst (Numbered 0) (sym pool) all.numbered;
      }

  globals_kept :
      (c : NodeConfig) (g : Option file.Setting)
      → ((global_timevals file malloc c g).group_size ≡ c.group_size)
        × ((global_timevals file malloc c g).peer_pool ≡ c.peer_pool)
  globals_kept c none = (refl, refl)
  globals_kept c (some g) = (refl, refl)

  read_nodes-IsGroup :
      (node_id : ℤ) (size : ℕ) (c : NodeConfig)
      → ltb_ℤ node_id (pos size) ≡ true
      → Ends (OnSome (IsGroup node_id)) (read_nodes file malloc node_id size c)
  read_nodes-IsGroup node_id size c small =
      let empty : NodeConfig = record c { group_size = size; peer_pool = [] } in
      let globals = file.root Key.consensus_global_config in
      let start = global_timevals file malloc empty globals in
      let kept = globals_kept empty globals in
      Ends-Option _ (file.root Key.consensus_config) (ends_ok on_none) λ nodes.
        Ends-map
          (λ o. OnSome-map (λ c'. AllAdded-IsGroup node_id size start c' small kept.0 kept.1))
          (read_peers-AllAdded node_id nodes size 0 start)

  -- Whatever the file holds, reading it comes to an end; a configuration that is accepted is that of a
  -- group: the id of the node is below its size, and it has one unconnected peer for each id below its
  -- size, in their order. What does not have this is refused, or stops at memory that is missing.
  pub consensus_read_config-IsGroup :
      (node_id : ℤ) (c : NodeConfig)
      → Ends (OnSome (IsGroup node_id)) (consensus_read_config file malloc node_id c)
  unfolding consensus_read_config
  consensus_read_config-IsGroup node_id c =
      Ends-Option _ (file.root_int Key.group_size) (ends_ok on_none) λ size.
        Ends-if (malloc (to_u32 size * sizeof_peer))
          (elim (Bool-cases (ltb_ℤ node_id (pos (to_u32 size)))) [
            | inl small ↦ rw small (read_nodes-IsGroup node_id (to_u32 size) c small)
            | inr large ↦ rw large (ends_ok on_none)
          ])
          (ends_ok on_none)
