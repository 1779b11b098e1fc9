-- ===== src/Setup/Start.antt =====
-- `initialize_node` and `system_initialize` of src/replica-sys/replica.c, without the log files.
pub mod Ready
use libevent_paxos.Base.{
  ℕ, zero, suc, ◌&&◌, ◌||◌, ℤ, pos, eqb_ℤ, to_u32, Bool, true, false, Option, none, some, List, [],
  map, ◌==◌, if◌then◌else◌, Outcome, ok, crash, null_deref, ◌>>=◌,
}
use libevent_paxos.Stamp.{View, Timeval}
use libevent_paxos.Db.{Bdb, Db}
use libevent_paxos.Consensus.State.{Comp, Init, ready, dangling, init_consensus_comp}
use libevent_paxos.Replica.Node.{
  Node, NodeEnv, node_active, is_leader, initialize_leader_ping, initialize_expect_ping,
  initialize_leader_make_progress, connect_peers,
}
use libevent_paxos.Setup.Settings.{ConfigFile}
use libevent_paxos.Setup.NodeConfig.{Peer, NodeConfig, consensus_read_config}

-- NULL, a node, or a node (by its id, configuration and view) whose component was freed while it was
-- set up, and to which it still points.
pub data Started (S : Type 0) : Type 0 where
  not_started : Started S
  started : Node S → Started S
  without_comp : ℤ → NodeConfig → View → Started S

-- What libevent makes: the event base, the three timers of a node, the buffer event for each peer, and
-- the listener. A timer to connect to a peer again that is not made does not matter here.
pub record Libevent : Type 0 where
  pub base_made : Bool
  pub leader_ping_made : Bool
  pub make_progress_made : Bool
  pub expect_ping_made : Bool
  pub bev_made : ℕ → Bool
  pub listening : Bool

-- sizeof(node)
abbrev pub node_size : ℕ
node_size = 280

-- `*start_mode=='s'`
abbrev pub seed_mode : ℕ
seed_mode = 115

-- The first view: the seed leads it; another node knows of no leader yet.
unfoldable pub start_view : ℤ → ℕ → View
start_view node_id start_mode =
    if start_mode == seed_mode
    then record { view_id = 1; leader_id = node_id; req_id = 0 }
    else record { view_id = 0; leader_id = pos 9999; req_id = 0 }

-- What holds where the configuration does not say otherwise.
abbrev pub default_config : NodeConfig
default_config = record {
  group_size = 0;
  peer_pool = [];
  make_progress_timeval = record { tv_sec = 1; tv_usec = 100 };
  reconnect_timeval = record { tv_sec = 2; tv_usec = 0 };
  ping_timeval = record { tv_sec = 2; tv_usec = 0 };
  expect_ping_timeval = record { tv_sec = 8; tv_usec = 0 };
  sys_log = pos 0;
  stat_log = pos 0;
  db_name = none;
  my_address = none;
}

abbrev pub inactive : Peer → Bool
inactive p = p.active

module _ {S : Type 0} where
  -- The node before its timers and connections.
  abbrev pub node_of : Timeval → ℤ → NodeConfig → Comp S → Node S
  node_of now node_id c comp = record {
    node_id = node_id;
    group_size = c.group_size;
    comp = comp;
    state = node_active;
    election_mod = none;
    active = map inactive c.peer_pool;
    last_ping_msg = now;
    has_leader_ping = false;
    has_expect_ping = false;
    has_make_progress = false;
    ping_timeval = c.ping_timeval;
    expect_ping_timeval = c.expect_ping_timeval;
    make_progress_timeval = c.make_progress_timeval;
    reconnect_timeval = c.reconnect_timeval;
    effects = [];
  }

  -- A leader pings and looks after progress; another node waits for pings.
  unfoldable pub set_up : Node S → Node S
  set_up n = connect_peers (
      if is_leader n
      then initialize_leader_make_progress (initialize_leader_ping n)
      else initialize_expect_ping n)

-- The timers that the node needs in its first view.
abbrev pub timers_made : Libevent → ℤ → View → Bool
timers_made ev node_id v =
    if eqb_ℤ v.leader_id node_id
    then ev.leader_ping_made && ev.make_progress_made
    else ev.expect_ping_made

-- The buffer events for the peers from `i` on, without the node itself.
unfoldable pub bevs_made : (ℕ → Bool) → ℤ → ℕ → ℕ → Bool
bevs_made made node_id zero i = true
bevs_made made node_id (suc rounds) i =
    (eqb_ℤ (pos i) node_id || made i) && bevs_made made node_id rounds (suc i)

module _ (bdb : Bdb) (e : NodeEnv) where
  abbrev pub node_with : ℤ → NodeConfig → View → Init bdb.Store → Started bdb.Store
  node_with node_id c v dangling = without_comp node_id c v
  node_with node_id c v (ready comp) = started (set_up (node_of e.env.now node_id c comp))

  -- A timer that cannot be made ends it; the buffer event for a peer is used with no test for NULL. The
  -- component comes last.
  unfoldable pub initialize_node :
      Libevent
      → ℤ
      → NodeConfig
      → View
      → ℕ
      → Bool
      → Db bdb.Store
      → Db bdb.Store
      → Outcome (Started bdb.Store)
  initialize_node ev node_id c v deliver_mode ucb db_ptr opened = elim (timers_made ev node_id v) [
    | false ↦ ok not_started
    | true ↦ elim (bevs_made ev.bev_made node_id c.group_size 0) [
      | false ↦ crash null_deref
      | true ↦
          init_consensus_comp bdb e.env (to_u32 node_id) deliver_mode c.group_size v ucb db_ptr
            opened
          >>= λ made. ok (node_with node_id c v made)
    ]
  ]

  -- A node that cannot listen is freed.
  abbrev pub if_listening : Bool → Started bdb.Store → Started bdb.Store
  if_listening listening r = if listening then r else not_started

  -- `opened` is what `initialize_db` returns. The memory of the node is cleared before it is tested for
  -- NULL.
  unfoldable pub system_initialize :
      Libevent
      → ℤ
      → ℕ
      → Option ConfigFile
      → ℕ
      → Bool
      → Db bdb.Store
      → Db bdb.Store
      → Outcome (Started bdb.Store)
  system_initialize ev node_id start_mode file deliver_mode ucb db_ptr opened =
      elim (e.env.malloc node_size) [
        | false ↦ crash null_deref
        | true ↦ elim ev.base_made [
          | false ↦ ok not_started
          | true ↦ elim file [
            | none ↦ ok not_started
            | some f ↦ consensus_read_config f e.env.malloc node_id default_config >>= λ read.
                elim read [
                  | none ↦ ok not_started
                  | some c ↦
                      initialize_node ev node_id c (start_view node_id start_mode) deliver_mode ucb
                        db_ptr opened
                      >>= λ r. ok (if_listening ev.listening r)
                ]
          ]
        ]
      ]
