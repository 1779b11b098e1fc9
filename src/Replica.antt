-- ===== src/Replica.antt =====
-- src/replica-sys/: the node, which connects the consensus component to its peers, and the election
-- of a leader.
pub mod Message
pub mod Node
pub mod Edge
pub mod Close
pub mod Merge
pub mod Dispatch
pub mod View
pub mod Election
pub mod Timeout
