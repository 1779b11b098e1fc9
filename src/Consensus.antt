-- ===== src/Consensus.antt =====
-- src/consensus/consensus.c: agreement on requests under one leader, and their delivery in order.
pub mod Record
pub mod Message
pub mod State
pub mod Execute
pub mod Build
pub mod Submit
pub mod Handle
pub mod Progress
