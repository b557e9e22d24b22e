-- ===== src/Flow/Dispatch.antt =====
-- internal/upstreams/flow/fanout_request_processor.go and not_null_request_processor.go: requests that
-- are sent to every upstream that the strategy selects, and which of the answers is returned.
pub mod Collect
pub mod Answers
pub mod NotNull
pub mod Chosen
pub mod Greatest
pub mod FirstNotNull
pub mod Tests
