-- ===== src/Setup/ProxyConfig/Complete.antt =====
-- What a proxy has after `proxy_read_config` of src/config-comp/config-proxy.c.
use libevent_paxos.Base.{
  ℕ, ◌+◌, ◌≡◌, refl, Bool, to_u32, ltb, Bool-cases, inl, inr, Option, none, some, List, length,
  true, false, ℤ, ◌≤◌, not-ltb→le, Outcome, ok, crash, null_deref, OnSome, on_none, on_some,
  OnSome-elim, OnSome-if,
}
use libevent_paxos.Setup.Settings.{ConfigFile, Key, SockAddr}
use libevent_paxos.Setup.NodeConfig.{address_of}
use libevent_paxos.Setup.ProxyConfig.{
  ProxyConfig, proxy_timevals, element_of, read_proxy_element, read_consensus_address,
  read_server_address, read_own, proxy_read_config,
}

-- The address to listen on and the name of the database.
record HasOwn (c : ProxyConfig) : Type 0 where
  own_addr : SockAddr
  own : c.p_addr ≡ some own_addr
  name : List ℕ
  named : c.db_name ≡ some name

-- And the address of the consensus.
record HasConsensus (c : ProxyConfig) : Type 0 where
  before : HasOwn c
  con_addr : SockAddr
  con : c.c_addr ≡ some con_addr

-- All addresses, and the name of a database.
pub record IsComplete (c : ProxyConfig) : Type 0 where
  pub own_addr : SockAddr
  pub own : c.p_addr ≡ some own_addr
  pub con_addr : SockAddr
  pub con : c.c_addr ≡ some con_addr
  pub server_addr : SockAddr
  pub server : c.s_addr ≡ some server_addr
  pub name : List ℕ
  pub named : c.db_name ≡ some name

module _ (file : ConfigFile) (malloc : ℕ → Bool) where
  read_proxy_element-HasOwn :
      (c : ProxyConfig) (s : file.Setting) → OnSome HasOwn (read_proxy_element file malloc c s)
  unfolding read_proxy_element
  read_proxy_element-HasOwn c s = OnSome-elim _ (address_of file malloc s) λ a.
      OnSome-elim _ (file.get_string s Key.db_name) λ name.
        OnSome-if (malloc (length name + 1))
          (on_some record { own_addr = a; own = refl; name = name; named = refl }) on_none

  read_consensus_address-HasConsensus :
      (node_id : ℕ) (c : ProxyConfig)
      → HasOwn c
      → OnSome HasConsensus (read_consensus_address file malloc node_id c)
  unfolding read_consensus_address
  read_consensus_address-HasConsensus node_id c has =
      OnSome-elim _ (element_of file malloc Key.consensus_config node_id) λ s.
        OnSome-elim _ (address_of file malloc s) λ a. on_some record {
          before = record {
            own_addr = has.own_addr;
            own = has.own;
            name = has.name;
            named = has.named;
          };
          con_addr = a;
          con = refl;
        }

  OnSome-chain :
      {A B : Type 0} {P : A → Type 0} {Q : B → Type 0} (f : A → Option B) (o : Option A)
      → OnSome P o
      → ((a : A) → P a → OnSome Q (f a))
      → OnSome Q (elim o [ none ↦ none | some a ↦ f a ])
  OnSome-chain f none on_none next = on_none
  OnSome-chain f (some a) (on_some p) next = next a p

  read_own-HasConsensus :
      (node_id : ℕ) (c : ProxyConfig) → OnSome HasConsensus (read_own file malloc node_id c)
  read_own-HasConsensus node_id c =
      OnSome-elim _ (element_of file malloc Key.proxy_config node_id) λ s.
        let start = proxy_timevals file malloc c (file.root Key.proxy_global_config) in
        OnSome-chain (read_consensus_address file malloc node_id)
          (read_proxy_element file malloc start s) (read_proxy_element-HasOwn start s)
          (read_consensus_address-HasConsensus node_id)

  -- Why a file is refused: it has no size of the group, or one that the node is not below; what it has
  -- for the proxy itself and for the consensus is not enough; it has no list of servers, or no address
  -- in the one of the node.
  pub data Refusal (node_id : ℕ) (start : ProxyConfig) : Type 0 where
    no_size : file.root_int Key.group_size ≡ none → Refusal node_id start
    outside :
        {size : ℤ}
        → file.root_int Key.group_size ≡ some size
        → to_u32 size ≤ node_id
        → Refusal node_id start
    own_refused : read_own file malloc node_id start ≡ none → Refusal node_id start
    no_servers : file.root Key.server_config ≡ none → Refusal node_id start
    no_address :
        {list s : file.Setting}
        → file.root Key.server_config ≡ some list
        → file.get_elem list node_id ≡ some s
        → address_of file malloc s ≡ none
        → Refusal node_id start

  -- What reading comes to: -1; a configuration that is complete; or, where the list of servers has no
  -- element for the node, a read through NULL.
  pub data Reads (node_id : ℕ) (start : ProxyConfig) : Outcome (Option ProxyConfig) → Type 0 where
    refused : Refusal node_id start → Reads node_id start (ok none)
    accepted : {c : ProxyConfig} → IsComplete c → Reads node_id start (ok (some c))
    faulted :
        {list : file.Setting}
        → file.root Key.server_config ≡ some list
        → file.get_elem list node_id ≡ none
        → Reads node_id start (crash null_deref)

  abbrev with_server : ProxyConfig → Option SockAddr → Outcome (Option ProxyConfig)
  with_server c none = ok none
  with_server c (some addr) = ok (some (record c { s_addr = some addr }))

  module _ (node_id : ℕ) (start : ProxyConfig) where
    with_server-Reads :
        (c : ProxyConfig) (list s : file.Setting) (o : Option SockAddr)
        → file.root Key.server_config ≡ some list
        → file.get_elem list node_id ≡ some s
        → address_of file malloc s ≡ o
        → HasConsensus c
        → Reads node_id start (with_server c o)
    with_server-Reads c list s none there element address has =
        refused (no_address there element address)
    with_server-Reads c list s (some addr) there element address has = accepted record {
      own_addr = has.before.own_addr;
      own = has.before.own;
      con_addr = has.con_addr;
      con = has.con;
      server_addr = addr;
      server = refl;
      name = has.before.name;
      named = has.before.named;
    }

    from_element :
        (c : ProxyConfig) (list : file.Setting) (o : Option file.Setting)
        → file.root Key.server_config ≡ some list
        → file.get_elem list node_id ≡ o
        → HasConsensus c
        → Reads node_id start
            (elim o [ none ↦ crash null_deref | some s ↦ with_server c (address_of file malloc s) ])
    from_element c list none there missing has = faulted there missing
    from_element c list (some s) there element has =
        with_server-Reads c list s (address_of file malloc s) there element refl has

    from_list :
        (c : ProxyConfig) (o : Option file.Setting)
        → file.root Key.server_config ≡ o
        → HasConsensus c
        → Reads node_id start (elim o [
          | none ↦ ok none
          | some list ↦ elim (file.get_elem list node_id) [
            | none ↦ crash null_deref
            | some s ↦ with_server c (address_of file malloc s)
          ]
        ])
    from_list c none there has = refused (no_servers there)
    from_list c (some list) there has =
        from_element c list (file.get_elem list node_id) there refl has

    read_server_address-Reads :
        (c : ProxyConfig)
        → HasConsensus c
        → Reads node_id start (read_server_address file malloc node_id c)
    unfolding read_server_address
    read_server_address-Reads c has = from_list c (file.root Key.server_config) refl has

    from_own :
        (o : Option ProxyConfig)
        → read_own file malloc node_id start ≡ o
        → OnSome HasConsensus o
        → Reads node_id start
            (elim o [ none ↦ ok none | some c' ↦ read_server_address file malloc node_id c' ])
    from_own none missing on_none = refused (own_refused missing)
    from_own (some c') there (on_some has) = read_server_address-Reads c' has

    in_group :
        (o : Option ℤ)
        → file.root_int Key.group_size ≡ o
        → Reads node_id start (elim o [
          | none ↦ ok none
          | some size ↦ elim (ltb node_id (to_u32 size)) [
            | false ↦ ok none
            | true ↦ elim (read_own file malloc node_id start) [
              | none ↦ ok none
              | some c' ↦ read_server_address file malloc node_id c'
            ]
          ]
        ])
    in_group none missing = refused (no_size missing)
    in_group (some size) there = elim (Bool-cases (ltb node_id (to_u32 size))) [
      | inl below ↦
          rw below (
            from_own (read_own file malloc node_id start) refl
              (read_own-HasConsensus node_id start))
      | inr above ↦ rw above (refused (outside there (not-ltb→le node_id (to_u32 size) above)))
    ]

    -- Whatever the file holds, reading it ends: with -1, for one of the reasons of `Refusal`; with a
    -- configuration that has the addresses to listen on, of the consensus and of the server, and the
    -- name of a database; or with a fault, a read through NULL, and that only where the file has a list
    -- of servers with no element for the node. (The message in the code says that it means to refuse
    -- such a file.)
    pub proxy_read_config-Reads : Reads node_id start (proxy_read_config file malloc node_id start)
    unfolding proxy_read_config
    proxy_read_config-Reads = in_group (file.root_int Key.group_size) refl
