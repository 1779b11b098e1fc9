-- ===== src/Setup/ProxyConfig.antt =====
-- `proxy_read_config` of src/config-comp/config-proxy.c.
pub mod Complete
use libevent_paxos.Base.{
  ℕ, ◌+◌, ◌≡◌, ◌≢◌, refl, Bool, true, false, ℤ, pos, ltb, to_u32, Option, none, some, List, length,
  if◌then◌else◌, Outcome, ok, crash, null_deref, ◌>>=◌, elim_some, elim_none, ◌∙◌, lt→ltb, ltb→lt,
  ◌<◌, ap, leb, le→not-lt,
}
use libevent_paxos.Stamp.{Timeval}
use libevent_paxos.Setup.Settings.{ConfigFile, Key, SockAddr, or_else, timeval_or}
use libevent_paxos.Setup.NodeConfig.{address_of}

-- The fields of a proxy that the file sets.
pub record ProxyConfig : Type 0 where
  pub recon_period : Timeval
  pub action_period : Timeval
  pub ts_log : ℤ
  pub sys_log : ℤ
  pub stat_log : ℤ
  pub req_log : ℤ
  pub db_name : Option (List ℕ)
  pub p_addr : Option SockAddr
  pub c_addr : Option SockAddr
  pub s_addr : Option SockAddr

module _ (file : ConfigFile) (malloc : ℕ → Bool) where
  abbrev pub proxy_timevals : ProxyConfig → Option file.Setting → ProxyConfig
  proxy_timevals c none = c
  proxy_timevals c (some g) = record c {
    recon_period =
        timeval_or c.recon_period (file.get_int64 g Key.reconnect_timeval_s)
          (file.get_int64 g Key.reconnect_timeval_us);
    action_period =
        timeval_or c.action_period (file.get_int64 g Key.action_timeval_s)
          (file.get_int64 g Key.action_timeval_us);
  }

  abbrev pub log_options : ProxyConfig → file.Setting → ProxyConfig
  log_options c s = record c {
    ts_log = or_else c.ts_log (file.get_int s Key.time_stamp_log);
    sys_log = or_else c.sys_log (file.get_int s Key.sys_log);
    stat_log = or_else c.stat_log (file.get_int s Key.stat_log);
    req_log = or_else c.req_log (file.get_int s Key.req_log);
  }

  -- The proxy's own element: log options, address, database.
  unfoldable pub read_proxy_element : ProxyConfig → file.Setting → Option ProxyConfig
  read_proxy_element c s = elim (address_of file malloc s) [
    | none ↦ none
    | some addr ↦ elim (file.get_string s Key.db_name) [
      | none ↦ none
      | some name ↦
          if malloc (length name + 1)
          then some (record (log_options c s) { p_addr = some addr; db_name = some name })
          else none
    ]
  ]

  -- The element of the node in a list of them.
  abbrev pub element_of : Key → ℕ → Option file.Setting
  element_of key node_id = elim (file.root key) [
    | none ↦ none
    | some list ↦ file.get_elem list node_id
  ]

  unfoldable pub read_consensus_address : ℕ → ProxyConfig → Option ProxyConfig
  read_consensus_address node_id c = elim (element_of Key.consensus_config node_id) [
    | none ↦ none
    | some s ↦ elim (address_of file malloc s) [
      | none ↦ none
      | some addr ↦ some (record c { c_addr = some addr })
    ]
  ]

  -- The test for a missing element is made of the consensus' element again, so that a missing one of
  -- the server is looked into.
  unfoldable pub read_server_address : ℕ → ProxyConfig → Outcome (Option ProxyConfig)
  read_server_address node_id c = elim (file.root Key.server_config) [
    | none ↦ ok none
    | some list ↦ elim (file.get_elem list node_id) [
      | none ↦ crash null_deref
      | some s ↦ elim (address_of file malloc s) [
        | none ↦ ok none
        | some addr ↦ ok (some (record c { s_addr = some addr }))
      ]
    ]
  ]

  abbrev pub read_own : ℕ → ProxyConfig → Option ProxyConfig
  read_own node_id c = elim (element_of Key.proxy_config node_id) [
    | none ↦ none
    | some s ↦ elim (read_proxy_element (proxy_timevals c (file.root Key.proxy_global_config)) s) [
      | none ↦ none
      | some c' ↦ read_consensus_address node_id c'
    ]
  ]

  -- A file that was read; `none` is the return value -1.
  unfoldable pub proxy_read_config : ℕ → ProxyConfig → Outcome (Option ProxyConfig)
  proxy_read_config node_id c = elim (file.root_int Key.group_size) [
    | none ↦ ok none
    | some size ↦ elim (ltb node_id (to_u32 size)) [
      | false ↦ ok none
      | true ↦ elim (read_own node_id c) [
        | none ↦ ok none
        | some c' ↦ read_server_address node_id c'
      ]
    ]
  ]
