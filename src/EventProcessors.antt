-- ===== src/EventProcessors.antt =====
-- internal/upstreams/event_processors: the sources of the events that the loop of an upstream takes.
pub mod Settings
pub mod Tests
