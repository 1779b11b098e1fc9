-- ===== src/Proxy.antt =====
-- src/proxy/proxy.c: a proxy turns the bytes of its clients into requests for the consensus, and
-- what the consensus decides on into traffic with the server beside it.
pub mod Message
pub mod State
pub mod Action
pub mod Key
pub mod Client
pub mod Sessions
