-- ===== src/Proxy/State.antt =====
-- The state of a proxy (`proxy_node`, `socket_pair` of src/include/proxy/proxy.h) and its small
-- operations in src/proxy/proxy.c.
-- The pairs that were ever made are a list, and a pointer to a pair is its place there: `hash_map`
-- and the callbacks of a buffer event refer to a pair by it. A pair is never freed. A buffer event
-- is a number that libevent chooses.
use libevent_paxos.Base.{
  ℕ, zero, suc, Bool, true, false, ◌+◌, ◌*◌, ◌/◌, ◌%◌, ◌^◌, ◌≡◌, ◌≢◌, Option, none, some, List, [],
  ◌∷◌, ◌++◌, ltb, modify, if◌then◌else◌, or_bits, Outcome, ok, crash, null_deref, out_of_bounds,
}
use libevent_paxos.Stamp.{Timeval}
use libevent_paxos.Db.{Db}

-- A hash table of uthash from connection ids to pairs. uthash asks that a key is not yet there when
-- it is added.
pub record Hash : Type 1 where
  pub Map : Type 0
  pub empty : Map
  pub find : Map → ℕ → Option ℕ
  pub add : Map → ℕ → ℕ → Map
  pub find-empty : (k : ℕ) → find empty k ≡ none
  pub find-add : (m : Map) (k i : ℕ) → find m k ≡ none → find (add m k i) k ≡ some i
  pub find-add_ne : (m : Map) (k i j : ℕ) → find m k ≡ none → k ≢ j → find (add m k i) j ≡ find m j

-- `none` is NULL.
pub record SocketPair : Type 0 where
  pub key : ℕ
  pub counter : ℕ
  pub p_s : Option ℕ
  pub p_c : Option ℕ

-- Whose callbacks a buffer event has: those of the server's or the client's side of a pair, or those
-- of the connection to the consensus.
pub data Callbacks : Type 0 where
  server_side : ℕ → Callbacks
  client_side : ℕ → Callbacks
  consensus_side : Callbacks

pub data Address : Type 0 where
  s_addr : Address
  c_addr : Address

-- What a message that asks for a connection to the server meets: memory for a new pair, or not, and
-- the buffer event that libevent makes, or NULL.
pub record Opening : Type 0 where
  pub has_memory : Bool
  pub new_bev : Option ℕ

-- There is memory, and libevent makes `bev`.
abbrev pub opens : ℕ → Opening
opens bev = record { has_memory = true; new_bev = some bev }

-- What a proxy does to its surroundings.
pub data ProxyEffect : Type 0 where
  set_up : ℕ → Callbacks → ProxyEffect
  connect_to : ℕ → Address → ProxyEffect
  write_bytes : ℕ → List ℕ → ProxyEffect
  free_bev : ℕ → ProxyEffect
  close_fd : ℕ → ProxyEffect
  add_re_con : Timeval → ProxyEffect
  wake_self : ProxyEffect

pub record Proxy (M S : Type 0) : Type 0 where
  pub node_id : ℕ
  pub pair_count : ℕ
  pub pairs : List SocketPair
  pub hash_map : M
  pub cur_rec : ℕ
  pub highest_rec : ℕ
  pub con_conn : Option ℕ
  pub recon_period : Timeval
  pub db_ptr : Db S
  pub effects : List ProxyEffect

-- A key of 64 bits: the time, with the count from bit 36 and the node from bit 52 on.
unfoldable pub gen_key : ℕ → ℕ → ℕ → ℕ
gen_key node_id node_count time =
    or_bits 64 (or_bits 64 time (node_id * 2 ^ 52 % 2 ^ 64)) (node_count * 2 ^ 36 % 2 ^ 64)

abbrev pub pair_at : List SocketPair → ℕ → Option SocketPair
pair_at [] i = none
pair_at (x ∷ xs) zero = some x
pair_at (x ∷ xs) (suc i) = pair_at xs i

module _ {M S : Type 0} where
  abbrev pub with_effects : Proxy M S → List ProxyEffect → Proxy M S
  with_effects p es = record p { effects = p.effects ++ es }

  -- A write to a pair through a pointer to it.
  abbrev pub put_pair : Proxy M S → ℕ → SocketPair → Proxy M S
  put_pair p i pair = record p { pairs = modify p.pairs i (λ old. pair) }

  -- What a callback does with the pair that its argument points to.
  abbrev pub with_pair : Proxy M S → ℕ → (SocketPair → Outcome (Proxy M S)) → Outcome (Proxy M S)
  with_pair p i f = elim (pair_at p.pairs i) [ none ↦ crash out_of_bounds | some pair ↦ f pair ]

  unfoldable pub wake_up : Proxy M S → Proxy M S
  wake_up p = with_effects p (wake_self ∷ [])

  -- The next view's first record.
  unfoldable pub cross_view : Proxy M S → Proxy M S
  cross_view p = record p { cur_rec = ((p.cur_rec / 2 ^ 32 + 1) * 2 ^ 32 % 2 ^ 64 + 1) % 2 ^ 64 }

  unfoldable pub update_state : Proxy M S → ℕ → Proxy M S
  update_state p rec_no =
      wake_up
        (record p { highest_rec = if ltb p.highest_rec rec_no then rec_no else p.highest_rec })

  -- libevent gives NULL when it cannot make a buffer event; the next call reads it.
  unfoldable pub connect_consensus : Option ℕ → Proxy M S → Outcome (Proxy M S)
  connect_consensus none p = crash null_deref
  connect_consensus (some bev) p = ok (
      with_effects (record p { con_conn = some bev })
        (set_up bev consensus_side ∷ connect_to bev c_addr ∷ []))

  unfoldable pub reconnect_on_timeout : Option ℕ → Proxy M S → Outcome (Proxy M S)
  reconnect_on_timeout new_bev p = connect_consensus new_bev p

  -- `connected` and `lost` (EOF or an error) are the bits of `ev`.
  unfoldable pub consensus_on_event : ℕ → Bool → Bool → Proxy M S → Proxy M S
  consensus_on_event bev true lost p = p
  consensus_on_event bev false true p =
      with_effects (record p { con_conn = none }) (free_bev bev ∷ add_re_con p.recon_period ∷ [])
  consensus_on_event bev false false p = p
