-- ===== src/Setup/Start/Ready.antt =====
-- The node that `system_initialize` of src/replica-sys/replica.c starts.
use libevent_paxos.Base.{
  ℕ, zero, suc, ◌≡◌, ◌≢◌, refl, sym, ap, eq_or_ne, eq→==, ne→==, inl, inr, ◌∙◌, ℤ, pos, eqb_ℤ,
  ltb_ℤ, to_u32, Bool, true, false, Option, none, some, List, [], ◌∷◌, map, length, ◌==◌,
  if◌then◌else◌, ok, ◌>>=◌, Ends, ends_ok, ends_null, Ends->>=, Ends-Bool, Ends-if, Ends-eq,
  Ends-cases, Bool-cases, subst, OnSome, on_none, on_some,
}
use libevent_paxos.Stamp.{View}
use libevent_paxos.Db.{Bdb, Db, no_db, no_bdb, open_db}
use libevent_paxos.Consensus.State.{Comp, Init, ready, dangling, init_consensus_comp}
use libevent_paxos.Replica.Node.{
  Node, NodeEnv, node_active, is_leader, initialize_leader_ping, initialize_expect_ping,
  initialize_leader_make_progress, connect_peer, connect_others, connect_peers, act, timer_del,
  ev_expect_ping, ev_leader_ping,
}
use libevent_paxos.Setup.Settings.{ConfigFile}
use libevent_paxos.Setup.NodeConfig.{Peer, NodeConfig, consensus_read_config}
use libevent_paxos.Setup.NodeConfig.Peers.{
  IsGroup, Numbered, no_peers, one_peer, consensus_read_config-IsGroup,
}
use libevent_paxos.Setup.Start.{
  Started, not_started, started, without_comp, node_size, start_view, default_config, inactive,
  node_of, set_up, Libevent, timers_made, bevs_made, node_with, if_listening, initialize_node,
  system_initialize,
}

-- What setting up timers and connections leaves alone.
record SameNode {S : Type 0} (n n' : Node S) : Type 0 where
  ids : n'.node_id ≡ n.node_id
  sizes : n'.group_size ≡ n.group_size
  actives : n'.active ≡ n.active
  comps : n'.comp ≡ n.comp
  states : n'.state ≡ n.state

module _ {S : Type 0} where
  same_then : {n n' n'' : Node S} → SameNode n n' → SameNode n' n'' → SameNode n n''
  same_then a b = record {
    ids = b.ids ∙ a.ids;
    sizes = b.sizes ∙ a.sizes;
    actives = b.actives ∙ a.actives;
    comps = b.comps ∙ a.comps;
    states = b.states ∙ a.states;
  }

  same_itself : (n : Node S) → SameNode n n
  same_itself n = record { ids = refl; sizes = refl; actives = refl; comps = refl; states = refl }

  SameNode-if :
      {n x y : Node S} (b : Bool) → SameNode n x → SameNode n y → SameNode n (if b then x else y)
  SameNode-if true left right = left
  SameNode-if false left right = right

  connect_others-SameNode : (rounds i : ℕ) (n : Node S) → SameNode n (connect_others rounds i n)
  unfolding connect_peer
  connect_others-SameNode zero i n = same_itself n
  connect_others-SameNode (suc rounds) i n =
      SameNode-if (eqb_ℤ (pos i) n.node_id) (connect_others-SameNode rounds (suc i) n) (
        same_then record { ids = refl; sizes = refl; actives = refl; comps = refl; states = refl }
          (connect_others-SameNode rounds (suc i) (connect_peer i n)))

  leader_timers :
      (n : Node S) → SameNode n (initialize_leader_make_progress (initialize_leader_ping n))
  unfolding initialize_leader_make_progress initialize_leader_ping
  leader_timers n =
      let first : SameNode n (if n.has_expect_ping then act n (timer_del ev_expect_ping) else n) =
        SameNode-if n.has_expect_ping
          record { ids = refl; sizes = refl; actives = refl; comps = refl; states = refl }
          (same_itself n) in
      record {
        ids = first.ids;
        sizes = first.sizes;
        actives = first.actives;
        comps = first.comps;
        states = first.states;
      }

  other_timers : (n : Node S) → SameNode n (initialize_expect_ping n)
  unfolding initialize_expect_ping
  other_timers n =
      let first : SameNode n (if n.has_leader_ping then act n (timer_del ev_leader_ping) else n) =
        SameNode-if n.has_leader_ping
          record { ids = refl; sizes = refl; actives = refl; comps = refl; states = refl }
          (same_itself n) in
      record {
        ids = first.ids;
        sizes = first.sizes;
        actives = first.actives;
        comps = first.comps;
        states = first.states;
      }

  set_up-SameNode : (n : Node S) → SameNode n (set_up n)
  unfolding set_up connect_peers
  set_up-SameNode n =
      let timers =
        if is_leader n
        then initialize_leader_make_progress (initialize_leader_ping n)
        else initialize_expect_ping n in
      same_then (SameNode-if (is_leader n) (leader_timers n) (other_timers n))
        (connect_others-SameNode timers.group_size 0 timers)

-- Peers that are not connected.
abbrev pub all_down : ℕ → List Bool
all_down zero = []
all_down (suc n) = false ∷ all_down n

all_down-Numbered :
    (i : ℕ) (ps : List Peer) → Numbered i ps → map inactive ps ≡ all_down (length ps)
all_down-Numbered i [] no_peers = refl
all_down-Numbered i (p ∷ ps) (one_peer rest) = ap (◌∷◌ false) (all_down-Numbered (suc i) ps rest)

-- A node at the start: active, in the first view for its mode, in a group that it belongs to, and
-- connected to none of its peers.
pub record IsFresh {S : Type 0} (node_id : ℤ) (start_mode : ℕ) (n : Node S) : Type 0 where
  pub id : n.node_id ≡ node_id
  pub below : ltb_ℤ node_id (pos n.group_size) ≡ true
  pub down : n.active ≡ all_down n.group_size
  pub view : n.comp.cur_view ≡ start_view node_id start_mode
  pub active : n.state ≡ node_active

-- The same of a node whose component was freed: of its configuration and its view.
pub record IsBare (node_id : ℤ) (start_mode : ℕ) (c : NodeConfig) (v : View) : Type 0 where
  pub below : ltb_ℤ node_id (pos c.group_size) ≡ true
  pub down : map inactive c.peer_pool ≡ all_down c.group_size
  pub view : v ≡ start_view node_id start_mode

-- Why no node is started.
pub data NotStarted (malloc : ℕ → Bool) (ev : Libevent) (node_id : ℤ) (start_mode : ℕ)
    (file : Option ConfigFile) : Type 1 where
  no_base : ev.base_made ≡ false → NotStarted malloc ev node_id start_mode file
  no_file : file ≡ none → NotStarted malloc ev node_id start_mode file
  refused_file :
      {f : ConfigFile}
      → file ≡ some f
      → consensus_read_config f malloc node_id default_config ≡ ok none
      → NotStarted malloc ev node_id start_mode file
  no_timers :
      timers_made ev node_id (start_view node_id start_mode) ≡ false
      → NotStarted malloc ev node_id start_mode file
  no_listener : ev.listening ≡ false → NotStarted malloc ev node_id start_mode file

-- What `system_initialize` returns: NULL for a reason `Why`, a node at the start, or, only where the
-- database could not be opened for a node that has its own, such a node with a component that is freed.
pub data StartsFresh {S : Type 0} (Why : Type 1) (node_id : ℤ) (start_mode deliver_mode : ℕ)
    (opened : Db S) : Started S → Type 1 where
  fresh_none : Why → StartsFresh Why node_id start_mode deliver_mode opened not_started
  fresh_without :
      {c : NodeConfig} {v : View}
      → opened ≡ no_db
      → deliver_mode ≢ 50
      → IsBare node_id start_mode c v
      → StartsFresh Why node_id start_mode deliver_mode opened (without_comp node_id c v)
  fresh_node :
      {n : Node S}
      → IsFresh node_id start_mode n
      → StartsFresh Why node_id start_mode deliver_mode opened (started n)

module _ (bdb : Bdb) (e : NodeEnv) where
  data ViewOf (v : View) (deliver_mode : ℕ) (opened : Db bdb.Store) : Init bdb.Store → Type 0 where
    no_view : opened ≡ no_db → deliver_mode ≢ 50 → ViewOf v deliver_mode opened dangling
    its_view : {c : Comp bdb.Store} → c.cur_view ≡ v → ViewOf v deliver_mode opened (ready c)

  init_consensus_comp-ViewOf :
      (node_id deliver_mode group_size : ℕ) (v : View) (ucb : Bool) (db opened : Db bdb.Store)
      → Ends
          (ViewOf v deliver_mode opened)
          (init_consensus_comp bdb e.env node_id deliver_mode group_size v ucb db opened)
  unfolding init_consensus_comp
  init_consensus_comp-ViewOf node_id deliver_mode group_size v ucb db no_db =
      Ends-if (e.env.malloc 104)
        (elim (eq_or_ne deliver_mode 50) [
          | inl own ↦ rw (eq→== deliver_mode 50 own) (ends_ok (its_view refl))
          | inr other ↦ rw (ne→== deliver_mode 50 other) (ends_ok (no_view refl other))
        ])
        ends_null
  init_consensus_comp-ViewOf node_id deliver_mode group_size v ucb db no_bdb =
      Ends-if (e.env.malloc 104)
        (Ends-if (deliver_mode == 50) (ends_ok (its_view refl)) (ends_ok (its_view refl))) ends_null
  init_consensus_comp-ViewOf node_id deliver_mode group_size v ucb db (open_db s) =
      Ends-if (e.env.malloc 104)
        (Ends-if (deliver_mode == 50) (ends_ok (its_view refl)) (ends_ok (its_view refl))) ends_null

  node_of-IsFresh :
      (file : ConfigFile) (node_id : ℤ) (start_mode : ℕ) (c : NodeConfig) (comp : Comp bdb.Store)
      → IsGroup file e.env.malloc node_id c
      → comp.cur_view ≡ start_view node_id start_mode
      → IsFresh node_id start_mode (set_up (node_of e.env.now node_id c comp))
  node_of-IsFresh file node_id start_mode c comp group seen =
      let same = set_up-SameNode (node_of e.env.now node_id c comp) in
      record {
        id = same.ids;
        below = ap (λ n. ltb_ℤ node_id (pos n)) same.sizes ∙ group.below;
        down =
            same.actives
            ∙ all_down-Numbered 0 c.peer_pool group.numbered
            ∙ ap all_down (group.sized ∙ sym same.sizes);
        view = ap (λ x. x.cur_view) same.comps ∙ seen;
        active = same.states;
      }

  node_with-StartsFresh :
      (Why : Type 1) (file : ConfigFile) (node_id : ℤ) (start_mode deliver_mode : ℕ)
      → (c : NodeConfig) (opened : Db bdb.Store) (made : Init bdb.Store)
      → IsGroup file e.env.malloc node_id c
      → ViewOf (start_view node_id start_mode) deliver_mode opened made
      → StartsFresh Why node_id start_mode deliver_mode opened
          (node_with bdb e node_id c (start_view node_id start_mode) made)
  node_with-StartsFresh Why file node_id start_mode deliver_mode c opened made group
        (no_view failed other) =
      fresh_without failed other record {
        below = group.below;
        down = all_down-Numbered 0 c.peer_pool group.numbered ∙ ap all_down group.sized;
        view = refl;
      }
  node_with-StartsFresh Why file node_id start_mode deliver_mode c opened made group
        (its_view {c = comp} seen) =
      fresh_node (node_of-IsFresh file node_id start_mode c comp group seen)

  -- The parameters of one start.
  module _ (ev : Libevent) (node_id : ℤ) (start_mode : ℕ) (file : Option ConfigFile)
      (deliver_mode : ℕ) (ucb : Bool) (db_ptr opened : Db bdb.Store) where
    abbrev Starts : Started bdb.Store → Type 1
    Starts =
        StartsFresh (NotStarted e.env.malloc ev node_id start_mode file) node_id start_mode
          deliver_mode opened

    initialize_node-StartsFresh :
        (f : ConfigFile) (c : NodeConfig)
        → IsGroup f e.env.malloc node_id c
        → Ends Starts (
            initialize_node bdb e ev node_id c
              (start_view node_id start_mode)
              deliver_mode
              ucb
              db_ptr
              opened)
    unfolding initialize_node
    initialize_node-StartsFresh f c group =
        Ends-cases (timers_made ev node_id (start_view node_id start_mode))
          (λ none_made. ends_ok (fresh_none (no_timers none_made)))
          (λ made. Ends-Bool (bevs_made ev.bev_made node_id c.group_size 0) ends_null (
            Ends->>= _
              (init_consensus_comp-ViewOf (to_u32 node_id) deliver_mode c.group_size
                (start_view node_id start_mode) ucb db_ptr opened)
              λ comp seen. ends_ok (
                node_with-StartsFresh _ f node_id start_mode deliver_mode c opened comp group
                  seen)))

    listens : (r : Started bdb.Store) → Starts r → Starts (if_listening bdb e ev.listening r)
    listens r fresh =
        let Fits = λ (b : Bool). Starts (if_listening bdb e b r) in
        elim (Bool-cases ev.listening) [
          | inl up ↦ subst Fits (sym up) fresh
          | inr down ↦ subst Fits (sym down) (fresh_none (no_listener down))
        ]

    start_read :
        (f : ConfigFile) (read : Option NodeConfig)
        → file ≡ some f
        → OnSome (IsGroup f e.env.malloc node_id) read
        → consensus_read_config f e.env.malloc node_id default_config ≡ ok read
        → Ends Starts (elim read [
          | none ↦ ok not_started
          | some c ↦
              initialize_node bdb e ev node_id c
                (start_view node_id start_mode)
                deliver_mode
                ucb
                db_ptr
                opened
              >>= λ r. ok (if_listening bdb e ev.listening r)
        ])
    start_read f none given on_none known = ends_ok (fresh_none (refused_file given known))
    start_read f (some c) given (on_some group) known =
        Ends->>= _ (initialize_node-StartsFresh f c group) λ r fresh. ends_ok (listens r fresh)

    start_file :
        (o : Option ConfigFile)
        → file ≡ o
        → Ends Starts (elim o [
          | none ↦ ok not_started
          | some f ↦ consensus_read_config f e.env.malloc node_id default_config >>= λ read.
              elim read [
                | none ↦ ok not_started
                | some c ↦
                    initialize_node bdb e ev node_id c
                      (start_view node_id start_mode)
                      deliver_mode
                      ucb
                      db_ptr
                      opened
                    >>= λ r. ok (if_listening bdb e ev.listening r)
              ]
        ])
    start_file none given = ends_ok (fresh_none (no_file given))
    start_file (some f) given =
        Ends->>= _ (Ends-eq (consensus_read_config-IsGroup f e.env.malloc node_id default_config))
          λ read (group, known). start_read f read given group known

    -- Whatever the configuration holds and whatever libevent makes, starting a node ends: with a fault
    -- (a read through NULL or outside an array), with NULL, or with a node. It is NULL only if there is
    -- no event base, no configuration file, a configuration that is refused, a timer that cannot be
    -- made, or no listener. A node is active, in the first view for its mode, with an id below the size
    -- of its group, and with one peer for each id of the group, none of them connected; or the database
    -- could not be opened for a node that does not share that of a proxy, and then a node with such an
    -- id, peers and view is returned too, but with a component that is freed.
    pub system_initialize-StartsFresh :
        Ends
          (StartsFresh
            (NotStarted e.env.malloc ev node_id start_mode file)
            node_id
            start_mode
            deliver_mode
            opened)
          (system_initialize bdb e ev node_id start_mode file deliver_mode ucb db_ptr opened)
    unfolding system_initialize
    system_initialize-StartsFresh = Ends-Bool (e.env.malloc node_size) ends_null (
        Ends-cases ev.base_made (λ none_made. ends_ok (fresh_none (no_base none_made)))
          (λ made. start_file file refl))
