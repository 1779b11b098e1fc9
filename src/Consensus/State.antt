-- ===== src/Consensus/State.antt =====
-- `consensus_component` of src/consensus/consensus.c, its start, and its small operations.
-- `cur_view` and the three view stamps are pointers into the node (src/replica-sys/replica.c);
-- the fields here are those shared objects. The database handles of node and component are opened
-- on one file, and are one store here. `out` lists the calls of `uc` and `ucb` in order.
use libevent_paxos.Base.{
  ℕ, ◌+◌, ◌%◌, ◌^◌, Bool, true, false, ℤ, pos, negsuc, eqb_ℤ, List, [], ◌∷◌, ◌++◌, ◌==◌,
  if◌then◌else◌, Outcome, ok, crash, null_deref,
}
use libevent_paxos.Stamp.{View, ViewStamp}
use libevent_paxos.Db.{Bdb, Db}
use libevent_paxos.Consensus.Record.{Env}
use libevent_paxos.Consensus.Message.{ConsensusMsg}

pub data Role : Type 0 where
  leader : Role
  secondary : Role

-- `up_call` with its size, message and target (-1 is all other nodes); `user_cb` with a record
-- number, or with the data of a record.
pub data Output : Type 0 where
  up_call : ℕ → ConsensusMsg → ℤ → Output
  user_cb_key : ℕ → Output
  user_cb_data : ℕ → List ℕ → Output

pub record Comp (S : Type 0) : Type 0 where
  pub my_role : Role
  pub node_id : ℕ
  pub deliver_mode : ℕ
  pub group_size : ℕ
  pub cur_view : View
  pub highest_seen : ViewStamp
  pub highest_to_commit : ViewStamp
  pub highest_committed : ViewStamp
  pub db : Db S
  pub ucb : Bool
  pub out : List Output

abbrev pub to_all : ℤ
to_all = negsuc 0

abbrev pub is_leader_role : Role → Bool
is_leader_role leader = true
is_leader_role secondary = false

module _ {S : Type 0} where
  abbrev pub emit : Comp S → Output → Comp S
  emit c o = record c { out = c.out ++ o ∷ [] }

abbrev pub view_start : ℕ → ViewStamp
view_start v = record { view_id = v; req_id = 0 }

-- A stamp one request on; the field is a 32-bit word.
unfoldable pub view_stamp_inc : ViewStamp → ViewStamp
view_stamp_inc vs = record vs { req_id = (vs.req_id + 1) % 2 ^ 32 }

unfoldable pub cross_view : ViewStamp → ViewStamp
cross_view vs = record { view_id = (vs.view_id + 1) % 2 ^ 32; req_id = 0 }

-- LEADER exactly for the node that the view names.
unfoldable pub role_of : View → ℕ → Role
role_of v node_id = if eqb_ℤ v.leader_id (pos node_id) then leader else secondary

module _ {S : Type 0} where
  unfoldable pub get_next_view_stamp : Comp S → ViewStamp
  get_next_view_stamp c = record {
    view_id = c.highest_seen.view_id;
    req_id = (c.highest_seen.req_id + 1) % 2 ^ 32;
  }

  unfoldable pub is_leader : Comp S → Bool
  is_leader c = eqb_ℤ c.cur_view.leader_id (pos c.node_id)

  unfoldable pub consensus_get_highest_seen_req : Comp S → ViewStamp
  consensus_get_highest_seen_req c = c.highest_seen

  -- After a change of view: the role is taken from the view, and all stamps restart in it.
  unfoldable pub consensus_update_role : Comp S → Comp S
  unfolding role_of
  consensus_update_role c = record c {
    my_role = role_of c.cur_view c.node_id;
    highest_seen = view_start c.cur_view.view_id;
    highest_to_commit = view_start c.cur_view.view_id;
    highest_committed = view_start c.cur_view.view_id;
  }

-- What `init_consensus_comp` returns: a component, or the address of one that it has freed.
pub data Init (S : Type 0) : Type 0 where
  ready : Comp S → Init S
  dangling : Init S

module _ (bdb : Bdb) where
  abbrev init_comp : ℕ → ℕ → ℕ → View → Bool → Db bdb.Store → Comp bdb.Store
  init_comp node_id deliver_mode group_size cur_view ucb db = record {
    my_role = role_of cur_view node_id;
    node_id = node_id;
    deliver_mode = deliver_mode;
    group_size = group_size;
    cur_view = cur_view;
    highest_seen = view_start 1;
    highest_to_commit = view_start 1;
    highest_committed = view_start 1;
    db = db;
    ucb = ucb;
    out = [];
  }

  -- `opened` is what `initialize_db` returns. On its failure the component is freed, and the code
  -- falls through to the `return` of its address. A failed `malloc` is cleared by `memset` first.
  unfoldable pub init_consensus_comp :
      Env → ℕ → ℕ → ℕ → View → Bool → Db bdb.Store → Db bdb.Store → Outcome (Init bdb.Store)
  unfolding role_of
  init_consensus_comp env node_id deliver_mode group_size cur_view ucb db_ptr opened =
      if env.malloc 104
      then if deliver_mode == 50
        then ok (ready (init_comp node_id deliver_mode group_size cur_view ucb db_ptr))
        else elim opened [
          | Db.no_db ↦ ok dangling
          | Db.no_bdb ↦
              ok (ready (init_comp node_id deliver_mode group_size cur_view ucb Db.no_bdb))
          | Db.open_db s ↦
              ok (ready (init_comp node_id deliver_mode group_size cur_view ucb (Db.open_db s)))
        ]
      else crash null_deref
