-- ===== src/SubEngine.antt =====
-- internal/upstreams/flow/subengine: the engine behind the subscriptions of a chain.
pub mod BlockTracker
pub mod Actor
pub mod Engine
pub mod Tests
