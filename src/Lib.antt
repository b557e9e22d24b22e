-- ===== src/Lib.antt =====
-- Nodecore balances blockchain RPC requests over upstreams. Each upstream has processors that watch
-- its head, its settings, its methods, its lower bounds and its labels, and that report to the event
-- loop of the upstream. The loop keeps the upstream's state and publishes it to the supervisor of
-- the upstream's chain, which merges the states of all its upstreams and follows their heads through
-- a fork choice. A request that enters the flow of a chain selects an upstream by the merged states,
-- the selectors of the request and the rate limiters, and selects another one when it is retried.
--
-- What models what:
--
-- - Protocol.Block, Protocol.State, Protocol.StateEvent: internal/protocol/blocks.go, data.go,
--   lower_bounds.go, upstream_state_events.go and pkg/blockchain/hash_id.go. Blocks, statuses, the state
--   of an upstream, the events that change it and those that carry it.
-- - ForkChoice.Height: internal/upstreams/fork_choice/height_fc.go. Choose over a map of live heads;
--   ForkChoice.History reads the live heads off the reports themselves.
-- - Methods.Available: internal/upstreams/methods/methods.go. NewUpstreamMethods, HasMethod and
--   IsForceEnabled, over method specs that are an argument.
-- - Upstream.Loop: internal/upstreams/upstream_events.go and what it uses of upstream.go. `step` is one
--   turn of processStateEvents, with the outputs (published events, started timers) beside the new
--   state; `run` is a list of turns.
-- - Chain.State, Chain.Merge, Chain.Supervisor: internal/upstreams/chain_supervisor.go,
--   chain_supervisor_state.go and state_wrappers.go. The merge of the upstream states by kind, the
--   round of head lags, and processEvents, with its effects (published wrappers, tracked lags) beside
--   the new state.
-- - Flow.Responses, Flow.Matchers, Flow.Selectors, Flow.Strategy: internal/upstreams/flow/matchers.go,
--   selectors.go, strategy.go and match_trace.go. The matchers of a request, how selectors compile to
--   them, and SelectUpstream. Flow.Limits is the interface of the rate limiters. Flow.Satisfied reads
--   off a selector what it asks for; Flow.Severity orders the reasons of a failure.
-- - Flow.Order: internal/upstreams/flow/selectors.go, with PredictLowerBound of
--   internal/upstreams/upstream.go. The order of upstreams that the hint of a selector stands for.
-- - Flow.LabelGroups: internal/upstreams/flow/label_group_strategy.go. The partition of the upstreams
--   by their labels, and SelectUpstream with its cursor over the groups.
-- - Flow.Dispatch: internal/upstreams/flow/fanout_request_processor.go and
--   not_null_request_processor.go. Collect gathers the upstreams of a request, Answers has the
--   aggregators of their answers, NotNull the sequential search.
-- - EventProcessors.Settings: internal/upstreams/event_processors/validation_event_processor.go and
--   internal/upstreams/validations/validator.go. A round of settings validation; Settings.Follows runs
--   rounds together with the loop of the upstream.
-- - LowerBounds.Search: internal/upstreams/lower_bounds/lower_bound_search.go. The binary search of a
--   lower bound, without and with an offset, with the probe as a function of the height, and the bound
--   that one detection hands to the next.
-- - LowerBounds.Window: internal/upstreams/lower_bounds/lower_bounds.go. The bounds that are kept of
--   each type and the line by which the next one is predicted.
-- - SubEngine.BlockTracker: internal/upstreams/flow/subengine/blockupdates.go. The tracker that turns
--   the heads of a chain into new and dropped blocks.
-- - SubEngine.Actor, SubEngine.Engine: internal/upstreams/flow/subengine/engine.go. `take_turn` is one
--   `select` of the goroutine that owns a key, or one read of a client; Engine has the map of the
--   goroutines by key and the retries of Subscribe, with what other goroutines do in between.
-- - Ws.Registry: internal/upstreams/ws/registry_commands.go, request_registry.go and data.go. The
--   registry of a websocket connection, one command at a time, with the messages written and the moves
--   of the gauge as effects. Ws.Registry.Held is what holds between its maps and its operations.
-- - Caches.Policy: internal/caches/cache_policies.go, with IsBlockTagNumber of pkg/methods/method.go.
--   Store and Receive of a cache policy, over a connector that is an argument.
-- - Quorum.Headers, Quorum.Verify, Quorum.Keys, Quorum.Params: internal/quorum/quorum.go and context.go.
--   ExtractSignatures, VerifyHeaders, LoadRegistry and the settings of a quorum request, over the
--   cryptography, which is an argument; Quorum.Bytes has what they use of Go's text packages.
-- - RateLimits.AutoTune: internal/ratelimiter/upstream_autotune.go. The limit of an upstream that is
--   moved after each period, over token buckets and float64 computations that are arguments.
-- - RateLimits.Budget: internal/ratelimiter/budget.go, types.go and memory_engine.go. The rules of a
--   budget that match a method, and their buckets in memory.
-- - Base, Int, Keyed: names and tests that the parts share, int64 over the native numbers, Go maps as
--   association lists and mapset sets as lists.
--
-- Bounds and fuel. Heights and slots are uint64 values that are compared and subtracted, and are
-- natural numbers; where the source converts to int64, `to_int64` and `wrap64` write the wrap-around
-- out. The two searches of `LowerBounds.Search` run on fuel, one step more than the range has
-- heights; each step shortens the range. `Flow.Dispatch.Collect.collect` runs on fuel too; one step
-- more than there are upstreams is enough, since each step selects a new one. Printing a number of
-- `Quorum.Bytes` runs on fuel one above the number. The retries of `SubEngine.Engine.subscribe_loop`
-- are the rounds of a list. Every other loop is recursion on a list or on the number of blocks that
-- are left.
--
-- A Go map is gone through in no fixed order; here it is a list, and a statement on it holds for
-- every list. Each of the goroutines that are modelled takes its events in turn, so an interleaving
-- is the order of a list of events. Mutexes guard single operations, which are atomic here.
--
-- Not modelled: logs, metrics, the texts of errors and matcher causes, and all input and output: the
-- connectors, the servers, the websocket sessions, the storages and the processors that poll
-- upstreams. The token buckets of rate limiters, method specs, floating point numbers, the
-- regression of lower bounds, the probes of a search and the cryptography of quorums are arguments.
-- Of the packages that are left out, the other request processors, the cache processor and ratings
-- have logic of their own that these files do not cover.
pub mod Base
pub mod Int
pub mod Keyed
pub mod Protocol
pub mod ForkChoice
pub mod Methods
pub mod Upstream
pub mod Chain
pub mod Flow
pub mod LowerBounds
pub mod SubEngine
pub mod EventProcessors
pub mod Ws
pub mod Caches
pub mod Quorum
pub mod RateLimits
