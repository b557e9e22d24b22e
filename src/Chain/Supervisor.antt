-- ===== src/Chain/Supervisor.antt =====
-- chain_supervisor.go: the event loop of GenericChainSupervisor. Each handler returns the new
-- supervisor and what it sent, in order. The loop is one goroutine, so a run is a list of events;
-- metrics and logs are left out.
pub mod Merged
pub mod Heads
pub mod Lags
use nodecore.Base.{
  ℕ, Bool, true, false, not, ◌&&◌, List, [], ◌∷◌, ◌++◌, String, Option, none, some, length, ◌==◌,
  leb, ◌-◌, if◌then◌else◌, string_dec, ite,
}
use nodecore.Int.{ℤ, to_int64}
use nodecore.Keyed.{load, store, delete, contains, add, remove}
use nodecore.Protocol.Block.{Block, zero_block, is_empty_by_height}
use nodecore.Protocol.State.{
  AvailabilityStatus, available, unavailable, lag_exceeds, UpstreamState, finalized_block, Cap,
  ws_cap, new_heads_cap, logs_cap, pending_tx_cap, cap_dec, get_block, block_type_dec,
  UpstreamEventType, state_upstream_event, head_upstream_event, remove_upstream_event,
  valid_upstream_event, UpstreamEvent,
}
use nodecore.ForkChoice.Height.{HeightForkChoice, new_height_fork_choice, choose}
use nodecore.Chain.State.{
  ChainHeadData, ChainSupervisorState, Wrapper, head_wrapper, compare, head_is_empty,
}
use nodecore.Chain.Merge.{
  UpstreamStates, available_upstreams, process_upstream_statuses, process_caps,
  process_upstream_methods, process_labels, process_lower_bounds, process_upstream_blocks,
}

-- What NewGenericChainSupervisor is given. `get_upstream` is none for a nil function, and else
-- tells for which ids it returns an upstream; `tracked` is whether the tracker is non-nil.
pub record Config : Type 0 where
  pub sub_chain_methods : List String
  pub validate_lag : Bool
  pub syncing_lag : ℤ
  pub get_upstream : Option (String → Bool)
  pub tracked : Bool

pub record Supervisor : Type 0 where
  pub fc : HeightForkChoice
  pub state : ChainSupervisorState
  pub upstream_states : UpstreamStates
  pub last_over : List (String × Bool)

-- A published event, a lag handed to the dimension tracker, or a call of an upstream's
-- UpdateHeadLag.
pub data Effect : Type 0 where
  publish : List Wrapper → Effect
  track_head_lag : String → ℕ → Effect
  track_finalization_lag : String → ℕ → Effect
  update_head_lag : String → ℤ → Effect

unfoldable pub new_supervisor : Supervisor
new_supervisor = record {
  fc = new_height_fork_choice;
  state = record {
    status = available;
    head_data = record { head = zero_block; upstream_id = "" };
    methods = [];
    blocks = [];
    lower_bounds = [];
    chain_labels = [];
    sub_methods = [];
    caps = [];
  };
  upstream_states = [];
  last_over = [];
}

unfoldable pub finalization_lag : ChainSupervisorState → UpstreamState → ℕ
finalization_lag state val = elim (load block_type_dec finalized_block state.blocks) [
  | none ↦ 0
  | some finalization_block ↦
      let up_finalized = get_block finalized_block val.block_info in
      if not (is_empty_by_height finalization_block)
        && (not (is_empty_by_height up_finalized)
            && leb up_finalized.height finalization_block.height)
      then finalization_block.height - up_finalized.height
      else 0
]

-- The iteration of `calculateFinalizationLags`.
finalization_lags : ChainSupervisorState → UpstreamStates → List Effect
finalization_lags state [] = []
finalization_lags state ((key, val) ∷ states) =
    track_finalization_lag key (finalization_lag state val) ∷ finalization_lags state states

unfoldable pub calculate_finalization_lags : Config → Supervisor → List Effect
unfolding finalization_lags
calculate_finalization_lags c b =
    if c.tracked then finalization_lags b.state b.upstream_states else []

unfoldable pub head_lag : ℕ → UpstreamState → ℕ
head_lag height val = if leb val.head_data.height height then height - val.head_data.height else 0

-- The entry of a key, false where it is missing.
unfoldable pub was_over : String → List (String × Bool) → Bool
was_over key last_over = elim (load string_dec key last_over) [ none ↦ false | some over ↦ over ]

abbrev same_side : Bool → Bool → Bool
same_side true b = b
same_side false b = not b

-- A lag is pushed only when the upstream crosses the syncing threshold.
unfoldable pub push_lag :
    Config → String → ℕ → List (String × Bool) → List (String × Bool) × List Effect
unfolding was_over
push_lag c key lag last_over = elim c.get_upstream [
  | none ↦ (last_over, [])
  | some has ↦
      let over = lag_exceeds (to_int64 lag) c.syncing_lag in
      if c.validate_lag && (not (same_side over (was_over key last_over)) && has key)
      then (store string_dec key over last_over, update_head_lag key (to_int64 lag) ∷ [])
      else (last_over, [])
]

-- The iteration of `calculateHeadLags`, with `lastOver` as it goes.
unfoldable pub head_lags :
    Config → ℕ → UpstreamStates → List (String × Bool) → List (String × Bool) × List Effect
head_lags c height [] last_over = (last_over, [])
head_lags c height ((key, val) ∷ states) last_over =
    let lag = head_lag height val in
    let pushed = push_lag c key lag last_over in
    let rest = head_lags c height states pushed.0 in
    (rest.0, (if c.tracked then track_head_lag key lag ∷ [] else []) ++ (pushed.1 ++ rest.1))

unfoldable pub calculate_head_lags : Config → Supervisor → Supervisor × List Effect
calculate_head_lags c b =
    let lags = head_lags c b.state.head_data.head.height b.upstream_states b.last_over in
    (record b { last_over = lags.0 }, lags.1)

abbrev with_head : Supervisor → HeightForkChoice → ChainHeadData → Supervisor
with_head b fc h = record b { fc = fc; state = record b.state { head_data = h } }

-- The part of `updateHead` before the lags, for a non-nil head event.
unfoldable pub move_head :
    String → AvailabilityStatus → Block → Supervisor → Supervisor × List Effect
move_head upstream_id status head b =
    if is_empty_by_height head
    then (with_head b b.fc (record { head = zero_block; upstream_id = upstream_id }), [])
    else (let (fc, updated, chosen) = choose upstream_id status head b.fc in
        let head_data : ChainHeadData = record { head = chosen; upstream_id = upstream_id } in
        if updated
        then (
          with_head b fc head_data,
          if is_empty_by_height chosen
              then []
              else publish (head_wrapper chosen upstream_id ∷ []) ∷ [],
        )
        else (record b { fc = fc }, []))

unfoldable pub update_head :
    Config → String → AvailabilityStatus → Block → Supervisor → Supervisor × List Effect
update_head c upstream_id status head b =
    let moved = move_head upstream_id status head b in
    let lagged = calculate_head_lags c moved.0 in (lagged.0, moved.1 ++ lagged.1)

abbrev offer : List Cap → Cap → String → List String → List String
offer caps cap topic sub_methods =
    if contains cap_dec cap caps then add string_dec topic sub_methods else sub_methods

-- A topic of eth_subscribe is offered only if a capability serves it locally.
unfoldable pub process_sub_methods : Config → List Cap → List String
process_sub_methods c caps =
    let locally = λ (subs : List String). offer caps pending_tx_cap "drpc_pendingTransactions" (
      offer caps pending_tx_cap "newPendingTransactions"
        (offer caps logs_cap "logs" (offer caps new_heads_cap "newHeads" subs))) in
    if contains cap_dec ws_cap caps
    then (if contains string_dec "eth_subscribe" c.sub_chain_methods
        then locally (remove string_dec "eth_subscribe" c.sub_chain_methods)
        else c.sub_chain_methods)
    else []

-- Only the available upstreams are merged, but for the status. The head is kept.
unfoldable pub merged_state : Config → UpstreamStates → ChainHeadData → ChainSupervisorState
merged_state c states head_data =
    let ups = available_upstreams states in
    let caps = process_caps ups in
    record {
      status = process_upstream_statuses states;
      head_data = head_data;
      methods = process_upstream_methods ups;
      blocks = process_upstream_blocks ups;
      lower_bounds = process_lower_bounds ups;
      chain_labels = process_labels ups;
      sub_methods = process_sub_methods c caps;
      caps = caps;
    }

unfoldable pub update_state : Config → Supervisor → Supervisor × List Effect
update_state c b =
    let new_state = merged_state c b.upstream_states b.state.head_data in
    let wrappers = compare b.state new_state in
    let b' = record b { state = new_state } in
    (
      b',
      (if length wrappers == 0 then [] else publish wrappers ∷ [])
          ++ calculate_finalization_lags c b',
    )

-- One step after another, with what both sent.
abbrev pub then_do :
    Supervisor × List Effect → (Supervisor → Supervisor × List Effect) → Supervisor × List Effect
then_do (b, sent) f = let next = f b in (next.0, sent ++ next.1)

-- The head of a known upstream is kept fresh in its snapshot.
unfoldable pub refresh_head : String → Block → UpstreamStates → UpstreamStates
refresh_head id head states = elim (load string_dec id states) [
  | none ↦ states
  | some up_state ↦ store string_dec id (record up_state { head_data = head }) states
]

register : Config → String → UpstreamState → Supervisor → Supervisor × List Effect
register c id up_state b =
    update_state c (record b { upstream_states = store string_dec id up_state b.upstream_states })

unregister : Config → String → Option UpstreamState → Supervisor → Supervisor × List Effect
unregister c id none b = (b, [])
unregister c id (some up_state) b =
    then_do
      (update_state c (record b {
        upstream_states = delete string_dec id b.upstream_states;
        last_over = delete string_dec id b.last_over;
      }))
      (update_head c id unavailable up_state.head_data)

-- A recovered upstream is registered again from the event's snapshot, its head included.
recover : Config → String → UpstreamState → Supervisor → Supervisor × List Effect
recover c id up_state b =
    if is_empty_by_height up_state.head_data
    then (b, [])
    else update_head c id up_state.status up_state.head_data b

-- The switch of `processEvents`.
handle : Config → String → UpstreamEventType → Supervisor → Supervisor × List Effect
unfolding register unregister recover
handle c id remove_upstream_event b = unregister c id (load string_dec id b.upstream_states) b
handle c id (head_upstream_event status head) b =
    update_head c id status head
      (record b { upstream_states = refresh_head id head b.upstream_states })
handle c id (state_upstream_event up_state) b = register c id up_state b
handle c id (valid_upstream_event none) b = (b, [])
handle c id (valid_upstream_event (some up_state)) b =
    then_do (register c id up_state b) (recover c id up_state)

unfoldable pub process_event : Config → UpstreamEvent → Supervisor → Supervisor × List Effect
unfolding handle
process_event c e b = handle c e.id e.event_type b

unfoldable pub process_events : Config → List UpstreamEvent → Supervisor → Supervisor × List Effect
process_events c [] b = (b, [])
process_events c (e ∷ es) b = then_do (process_event c e b) (process_events c es)
