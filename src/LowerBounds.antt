-- ===== src/LowerBounds.antt =====
-- internal/upstreams/lower_bounds: the search for the first block that an upstream has data for, and
-- the bounds that are kept of it.
pub mod Search
pub mod Window
pub mod Tests
