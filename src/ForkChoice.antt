-- ===== src/ForkChoice.antt =====
-- internal/upstreams/fork_choice/height_fc.go: the merged head of a chain, from the heads of its
-- live upstreams.
pub mod Height
pub mod History
pub mod Tests
