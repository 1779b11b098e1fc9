-- ===== src/Replica/Message.antt =====
-- src/include/leader-election/view_controller.h and src/include/replica-sys/message.h: the messages
-- between nodes, by value. A pnum or node id of type `int64_t` is an integer.
use libevent_paxos.Base.{ℕ, ℤ, List}
use libevent_paxos.Stamp.{View, Timeval}
use libevent_paxos.Consensus.Message.{ConsensusMsg}

pub data LeleMsgType : Type 0 where
  lele_prepare : LeleMsgType
  lele_prepare_ack : LeleMsgType
  lele_accept : LeleMsgType
  lele_accept_ack : LeleMsgType
  lele_announce : LeleMsgType
  lele_announce_ack : LeleMsgType
  lele_fin : LeleMsgType
  lele_lagged : LeleMsgType
  lele_higher_node : LeleMsgType

pub record LeleMsg : Type 0 where
  pub kind : LeleMsgType
  pub node_id : ℤ
  pub next_view : ℕ
  pub pnum : ℤ
  pub p_pnum : ℤ
  pub content : ℤ
  pub last_req : ℕ
  pub start_req : ℕ

pub record PingMsg : Type 0 where
  pub node_id : ℤ
  pub view : View
  pub timestamp : Timeval

-- `lele_edge` is an election message with record numbers behind it; `req_submit` is a request of
-- the proxy.
pub data SysMsg : Type 0 where
  ping_req : PingMsg → SysMsg
  ping_ack : PingMsg → SysMsg
  consensus_msg : ConsensusMsg → SysMsg
  req_submit : ℕ → List ℕ → SysMsg
  lele : LeleMsg → SysMsg
  lele_edge : LeleMsg → List ℕ → SysMsg
  unknown_sys_msg : ℕ → SysMsg

-- `(req_id_t) -1`
abbrev pub no_req : ℕ
no_req = 4294967295

-- LEADER_ELECTION_MSG_SIZE: a header of 16 bytes and the election message of 56.
abbrev pub lele_msg_size : ℕ
lele_msg_size = 72
