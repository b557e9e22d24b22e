-- ===== src/Chain.antt =====
-- internal/upstreams/chain_supervisor.go and chain_supervisor_state.go: the state of a chain,
-- merged from the states of its upstreams.
pub mod State
pub mod Merge
pub mod Supervisor
pub mod Tests
