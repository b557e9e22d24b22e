-- ===== src/Flow.antt =====
-- internal/upstreams/flow: how a request is matched against the upstreams and one is selected.
pub mod Responses
pub mod Matchers
pub mod Selectors
pub mod Satisfied
pub mod Limits
pub mod Severity
pub mod Strategy
pub mod Dispatch
pub mod LabelGroups
pub mod Order
pub mod Tests
