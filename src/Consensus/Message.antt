-- ===== src/Consensus/Message.antt =====
-- src/include/consensus/consensus-msg.h: the messages between consensus components, and the
-- allocation sizes of their builders. A message travels as its bytes, and is read back at the same
-- layout; here it is its value, with the carried buffer as bytes.
use libevent_paxos.Base.{ℕ, ◌+◌, ℤ, List}
use libevent_paxos.Stamp.{ViewStamp}

pub record AcceptReq : Type 0 where
  pub msg_vs : ViewStamp
  pub req_canbe_exed : ViewStamp
  pub node_id : ℤ
  pub data_size : ℕ
  pub body : List ℕ

pub record AcceptAck : Type 0 where
  pub msg_vs : ViewStamp
  pub node_id : ℤ

pub record MissingReq : Type 0 where
  pub node_id : ℤ
  pub missing_vs : ViewStamp

pub record MissingAck : Type 0 where
  pub node_id : ℤ
  pub missing_vs : ViewStamp
  pub data_size : ℕ
  pub body : List ℕ

pub record ForceExec : Type 0 where
  pub node_id : ℤ
  pub highest_committed_op : ViewStamp

pub record ForwardReq : Type 0 where
  pub node_id : ℤ
  pub data_size : ℕ
  pub body : List ℕ

pub data ConsensusMsg : Type 0 where
  accept_req : AcceptReq → ConsensusMsg
  accept_ack : AcceptAck → ConsensusMsg
  missing_req : MissingReq → ConsensusMsg
  missing_ack : MissingAck → ConsensusMsg
  force_exec : ForceExec → ConsensusMsg
  forward_req : ForwardReq → ConsensusMsg
  unknown_msg : ℕ → ConsensusMsg

-- The codes of `con_code`.
abbrev pub con_code : ConsensusMsg → ℕ
con_code (accept_req m) = 0
con_code (accept_ack m) = 1
con_code (missing_req m) = 2
con_code (missing_ack m) = 3
con_code (force_exec m) = 4
con_code (forward_req m) = 5
con_code (unknown_msg n) = n

-- ACCEPT_REQ_SIZE(M): the struct is packed.
abbrev pub accept_req_size : ℕ → ℕ
accept_req_size data_size = 36 + data_size

abbrev pub accept_ack_size : ℕ
accept_ack_size = 24

abbrev pub missing_req_size : ℕ
missing_req_size = 24

-- MISSING_ACK_SIZE(M): the struct is packed.
abbrev pub missing_ack_size : ℕ → ℕ
missing_ack_size data_size = 28 + data_size

abbrev pub force_exec_size : ℕ
force_exec_size = 24

-- FORWARD_REQ_SIZE(M): the struct is packed.
abbrev pub forward_req_size : ℕ → ℕ
forward_req_size data_size = 20 + data_size
