-- ===== src/Methods.antt =====
-- internal/upstreams/methods/methods.go: the methods that an upstream or a chain supports. The
-- method specs are data that the program loads; they stand as an argument, a map from group names
-- to methods.
pub mod Available
pub mod Forced
pub mod Disabled
pub mod Tests
