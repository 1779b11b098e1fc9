-- ===== src/Setup/Settings.antt =====
-- A configuration file as libconfig gives it: settings with fields by name and elements by number.
-- What the file holds is a parameter.
use libevent_paxos.Base.{ℕ, ◌%◌, ◌^◌, ◌-◌, ℤ, pos, negsuc, Option, none, some, List}
use libevent_paxos.Stamp.{Timeval}

-- The names that the two readers look up.
pub data Key : Type 0 where
  group_size : Key
  consensus_global_config : Key
  consensus_config : Key
  proxy_global_config : Key
  proxy_config : Key
  server_config : Key
  progress_timeval_s : Key
  progress_timeval_us : Key
  reconnect_timeval_s : Key
  reconnect_timeval_us : Key
  ping_timeval_s : Key
  ping_timeval_us : Key
  expected_ping_timeval_s : Key
  expected_ping_timeval_us : Key
  action_timeval_s : Key
  action_timeval_us : Key
  ip_address : Key
  port : Key
  db_name : Key
  time_stamp_log : Key
  sys_log : Key
  stat_log : Key
  req_log : Key

-- `config_lookup_int`, `config_lookup`, `config_setting_get_elem` and the lookups in a setting; `none`
-- is a lookup that fails. A text is the list of its bytes.
pub record ConfigFile : Type 1 where
  pub Setting : Type 0
  pub root_int : Key → Option ℤ
  pub root : Key → Option Setting
  pub get_elem : Setting → ℕ → Option Setting
  pub get_int : Setting → Key → Option ℤ
  pub get_int64 : Setting → Key → Option ℤ
  pub get_string : Setting → Key → Option (List ℕ)

-- An address, before `inet_pton` and in the byte order of the host.
pub record SockAddr : Type 0 where
  pub ip : List ℕ
  pub port : ℕ

-- A setting that is there replaces a value.
abbrev pub or_else {ℓ} : {A : Type ℓ} → A → Option A → A
or_else a none = a
or_else a (some b) = b

-- A signed number assigned to a word of 64 bits.
abbrev pub word_64 : ℤ → ℕ
word_64 (pos n) = n % 2 ^ 64
word_64 (negsuc n) = 2 ^ 64 - 1 - n % 2 ^ 64

abbrev pub word_or : ℕ → Option ℤ → ℕ
word_or old none = old
word_or old (some z) = word_64 z

abbrev pub timeval_or : Timeval → Option ℤ → Option ℤ → Timeval
timeval_or t s us = record { tv_sec = word_or t.tv_sec s; tv_usec = word_or t.tv_usec us }
