-- ===== src/Upstream.antt =====
-- internal/upstreams/upstream_events.go: the event loop of an upstream.
pub mod Loop
pub mod Tests
