-- ===== src/Protocol.antt =====
-- internal/protocol: what upstreams, chain supervisors and the request flow exchange.
pub mod Block
pub mod State
pub mod StateEvent
