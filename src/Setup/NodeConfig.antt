-- ===== src/Setup/NodeConfig.antt =====
-- `consensus_read_config` of src/config-comp/config-comp.c.
pub mod Peers
use libevent_paxos.Base.{
  ℕ, zero, suc, ◌+◌, ◌*◌, ◌%◌, ◌^◌, ◌≡◌, Bool, true, false, ℤ, pos, negsuc, ltb_ℤ, eqb_ℤ, to_u32,
  Option, none, some, List, [], ◌∷◌, ◌++◌, length, not, if◌then◌else◌, Outcome, ok, crash,
  null_deref, ◌>>=◌,
}
use libevent_paxos.Stamp.{Timeval}
use libevent_paxos.Setup.Settings.{ConfigFile, Key, SockAddr, or_else, timeval_or}

pub record Peer : Type 0 where
  pub peer_id : ℕ
  pub active : Bool
  pub peer_address : SockAddr

-- The fields of a node that the file sets.
pub record NodeConfig : Type 0 where
  pub group_size : ℕ
  pub peer_pool : List Peer
  pub make_progress_timeval : Timeval
  pub reconnect_timeval : Timeval
  pub ping_timeval : Timeval
  pub expect_ping_timeval : Timeval
  pub sys_log : ℤ
  pub stat_log : ℤ
  pub db_name : Option (List ℕ)
  pub my_address : Option SockAddr

-- sizeof(peer) and sizeof(struct sockaddr_in)
abbrev pub sizeof_peer : ℕ
sizeof_peer = 64

abbrev pub sizeof_sockaddr_in : ℕ
sizeof_sockaddr_in = 16

module _ (file : ConfigFile) (malloc : ℕ → Bool) where
  abbrev pub global_timevals : NodeConfig → Option file.Setting → NodeConfig
  global_timevals c none = c
  global_timevals c (some g) = record c {
    make_progress_timeval =
        timeval_or c.make_progress_timeval (file.get_int64 g Key.progress_timeval_s)
          (file.get_int64 g Key.progress_timeval_us);
    reconnect_timeval =
        timeval_or c.reconnect_timeval (file.get_int64 g Key.reconnect_timeval_s)
          (file.get_int64 g Key.reconnect_timeval_us);
    ping_timeval =
        timeval_or c.ping_timeval (file.get_int64 g Key.ping_timeval_s)
          (file.get_int64 g Key.ping_timeval_us);
    expect_ping_timeval =
        timeval_or c.expect_ping_timeval (file.get_int64 g Key.expected_ping_timeval_s)
          (file.get_int64 g Key.expected_ping_timeval_us);
  }

  -- The address of an element; `none` where a part is missing.
  abbrev pub address_of : file.Setting → Option SockAddr
  address_of s = elim (file.get_string s Key.ip_address) [
    | none ↦ none
    | some ip ↦ elim (file.get_int s Key.port) [
      | none ↦ none
      | some p ↦ some record { ip = ip; port = to_u32 p % 2 ^ 16 }
    ]
  ]

  -- What the element of the node itself holds besides; `none` without a database name.
  abbrev pub own_settings : NodeConfig → file.Setting → SockAddr → Option NodeConfig
  own_settings c s addr = elim (file.get_string s Key.db_name) [
    | none ↦ none
    | some name ↦
        if malloc (length name + 1)
        then some (record c {
          sys_log = or_else c.sys_log (file.get_int s Key.sys_log);
          stat_log = or_else c.stat_log (file.get_int s Key.stat_log);
          db_name = some name;
          my_address = some addr;
        })
        else none
  ]

  abbrev pub with_peer : NodeConfig → ℕ → SockAddr → NodeConfig
  with_peer c i addr = record c {
    peer_pool = c.peer_pool ++ record { peer_id = i; active = false; peer_address = addr } ∷ [];
  }

  -- One turn: peer `i`, in memory that is not tested.
  unfoldable pub read_peer : ℤ → file.Setting → ℕ → NodeConfig → Outcome (Option NodeConfig)
  read_peer node_id nodes i c = elim (file.get_elem nodes i) [
    | none ↦ ok none
    | some s ↦ elim (address_of s) [
      | none ↦ ok none
      | some addr ↦
          if malloc sizeof_sockaddr_in
          then ok (
              if eqb_ℤ (pos i) node_id
              then own_settings (with_peer c i addr) s addr
              else some (with_peer c i addr))
          else crash null_deref
    ]
  ]

  unfoldable pub read_peers : ℤ → file.Setting → ℕ → ℕ → NodeConfig → Outcome (Option NodeConfig)
  read_peers node_id nodes zero i c = ok (some c)
  read_peers node_id nodes (suc rounds) i c = read_peer node_id nodes i c >>= λ read. elim read [
    | none ↦ ok none
    | some c' ↦ read_peers node_id nodes rounds (suc i) c'
  ]

  abbrev pub read_nodes : ℤ → ℕ → NodeConfig → Outcome (Option NodeConfig)
  read_nodes node_id size c = elim (file.root Key.consensus_config) [
    | none ↦ ok none
    | some nodes ↦ read_peers node_id nodes size 0 (
        global_timevals (record c { group_size = size; peer_pool = [] })
          (file.root Key.consensus_global_config))
  ]

  -- A file that was read; `none` is the return value -1. The comparison of the size with the node id is
  -- one of signed 64-bit numbers.
  unfoldable pub consensus_read_config : ℤ → NodeConfig → Outcome (Option NodeConfig)
  consensus_read_config node_id c = elim (file.root_int Key.group_size) [
    | none ↦ ok none
    | some size ↦
        if malloc (to_u32 size * sizeof_peer)
        then if ltb_ℤ node_id (pos (to_u32 size))
          then read_nodes node_id (to_u32 size) c
          else ok none
        else ok none
  ]
