-- ===== src/Examples/Setup.antt =====
-- A configuration of one node, at which the theorems about the start of the program are applied.
use libevent_paxos.Base.{ℕ, pos, true, none, some, [], ◌∷◌, ◌≡◌, refl, List, Ends, ok, OnSome, Bool}
use libevent_paxos.Db.{Db, open_db}
use libevent_paxos.Consensus.State.{init_consensus_comp}
use libevent_paxos.Setup.Settings.{ConfigFile}
use libevent_paxos.Setup.NodeConfig.{consensus_read_config, read_peers, read_peer}
use libevent_paxos.Setup.NodeConfig.Peers.{IsGroup, consensus_read_config-IsGroup}
use libevent_paxos.Setup.ProxyConfig.{
  ProxyConfig, proxy_read_config, read_proxy_element, read_consensus_address, read_server_address,
}
use libevent_paxos.Setup.ProxyConfig.Complete.{Reads, proxy_read_config-Reads}
use libevent_paxos.Setup.Start.{
  Libevent, started, default_config, seed_mode, bevs_made, start_view, initialize_node,
  system_initialize,
}
use libevent_paxos.Setup.Start.Ready.{NotStarted, StartsFresh, system_initialize-StartsFresh}
use libevent_paxos.Setup.Options.{Opt, opt_n, opt_c, opt_m, opt_r, read_options}
use libevent_paxos.Setup.Options.Latest.{read_options-latest_args}
use libevent_paxos.Replica.Node.{Node, seconds}
use libevent_paxos.Examples.{map_db, Map, nothing}
use libevent_paxos.Examples.Election.{calm_node}

-- Every list has one element, with port 7000 and the address and the name "1".
abbrev one_node : ConfigFile
one_node = record {
  Setting = ℕ;
  root_int = λ key. some (pos 1);
  root = λ key. some 0;
  get_elem = λ s i. some i;
  get_int = λ s key. some (pos 7000);
  get_int64 = λ s key. none;
  get_string = λ s key. some (49 ∷ []);
}

abbrev plenty : ℕ → Bool
plenty n = true

consensus_read_config-IsGroup_example :
    Ends
      (OnSome (IsGroup one_node plenty (pos 0)))
      (consensus_read_config one_node plenty (pos 0) default_config)
consensus_read_config-IsGroup_example =
    consensus_read_config-IsGroup one_node plenty (pos 0) default_config

abbrev bare_proxy : ProxyConfig
bare_proxy = record {
  recon_period = seconds 2;
  action_period = seconds 1;
  ts_log = pos 0;
  sys_log = pos 0;
  stat_log = pos 0;
  req_log = pos 0;
  db_name = none;
  p_addr = none;
  c_addr = none;
  s_addr = none;
}

proxy_read_config-Reads_example :
    Reads one_node plenty 0 bare_proxy (proxy_read_config one_node plenty 0 bare_proxy)
proxy_read_config-Reads_example = proxy_read_config-Reads one_node plenty 0 bare_proxy

-- It is accepted.
one_node_accepted :
    (c : ProxyConfig) × (proxy_read_config one_node plenty 0 bare_proxy ≡ ok (some c))
unfolding proxy_read_config read_proxy_element read_consensus_address read_server_address
one_node_accepted = (_, refl)

-- libevent makes all that it is asked for.
abbrev all_made : Libevent
all_made = record {
  base_made = true;
  leader_ping_made = true;
  make_progress_made = true;
  expect_ping_made = true;
  bev_made = λ i. true;
  listening = true;
}

abbrev own_db : Db Map
own_db = open_db nothing

system_initialize-StartsFresh_example :
    Ends
      (StartsFresh
        (NotStarted plenty all_made (pos 0) seed_mode (some one_node))
        (pos 0)
        seed_mode
        0
        own_db)
      (system_initialize map_db calm_node all_made
        (pos 0)
        seed_mode
        (some one_node)
        0
        true
        own_db
        own_db)
system_initialize-StartsFresh_example =
    system_initialize-StartsFresh map_db calm_node all_made (pos 0) seed_mode (some one_node) 0 true
      own_db own_db

-- The node does start.
one_node_starts :
    (n : Node Map) × (system_initialize map_db calm_node all_made
        (pos 0)
        seed_mode
        (some one_node)
        0
        true
        own_db
        own_db
      ≡ ok (started n))
unfolding system_initialize initialize_node bevs_made init_consensus_comp consensus_read_config
    read_peers read_peer start_view
one_node_starts = (_, refl)

-- -n 1 -m s -c c -r -n 2
abbrev command_line : List Opt
command_line = opt_n (pos 1) ∷ opt_m (115 ∷ []) ∷ opt_c (99 ∷ []) ∷ opt_r ∷ opt_n (pos 2) ∷ []

read_options-latest_args_example :
    read_options command_line
    ≡ some record {
      node_id = pos 2;
      start_mode = 115 ∷ [];
      config_path = 99 ∷ [];
      log_path = none;
      fake_mode = 0;
    }
read_options-latest_args_example = read_options-latest_args command_line
