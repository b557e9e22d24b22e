-- ===== src/Chain/Tests.antt =====
-- A chain with two upstreams, one of them without a head, and the theorems at it.
use nodecore.Base.{ℕ, ◌≡◌, refl, true, false, List, [], ◌∷◌, String, none, some, string_dec}
use nodecore.Int.{pos, to_int64}
use nodecore.Keyed.{load, store, delete}
use nodecore.Protocol.Block.{Block, zero_block, is_empty_by_height}
use nodecore.Protocol.State.{
  LowerBoundData, UpstreamState, UpstreamEvent, default_upstream_state, available, syncing, ws_cap,
  state_upstream_event, head_upstream_event, remove_upstream_event, lag_exceeds, status_dec,
}
use nodecore.ForkChoice.Height.{choose, max_height, new_height_fork_choice}
use nodecore.Chain.Merge.{
  UpstreamStates, available_upstreams, process_upstream_statuses, process_lower_bounds,
  merge_bounds, merge_bound,
}
use nodecore.Chain.Supervisor.{
  Config, new_supervisor, merged_state, process_event, process_events, head_lags, head_lag,
  was_over, push_lag, update_state, update_head, move_head, calculate_head_lags, refresh_head,
}
use nodecore.Chain.Supervisor.Heads.{Shows, told_empty, process_events-Shows}
use nodecore.Chain.Supervisor.Merged.{process_events-merged}

program : Unit {0}
unfolding load store delete string_dec status_dec is_empty_by_height default_upstream_state choose
    max_height new_height_fork_choice available_upstreams process_upstream_statuses
    process_lower_bounds merge_bounds merge_bound new_supervisor process_event process_events
    head_lags head_lag was_over push_lag update_state update_head move_head calculate_head_lags
    refresh_head merged_state lag_exceeds to_int64
program = tt

abbrev config : Config
config = record {
  sub_chain_methods = [];
  validate_lag = true;
  syncing_lag = pos 5;
  get_upstream = some (λ _. true);
  tracked = true;
}

abbrev head_at : ℕ → Block
head_at height = record zero_block { height = height; hash = height ∷ [] }

abbrev fresh : UpstreamState
fresh = record {
  status = available;
  head_data = zero_block;
  upstream_methods = "eth_call" ∷ [];
  caps = ws_cap ∷ [];
  upstream_index = "00001";
  rate_limiter_budget = none;
  auto_tune_rate_limiter = none;
  block_info = [];
  lower_bounds_info = (3, record { bound = pos 7; timestamp = pos 1; bound_type = 3 }) ∷ [];
  labels = [];
}

abbrev lagging : UpstreamState
lagging = record fresh {
  status = syncing;
  head_data = head_at 90;
  lower_bounds_info = (3, record { bound = pos 4; timestamp = pos 1; bound_type = 3 }) ∷ [];
}

abbrev event : String → UpstreamEvent
event id = record { id = id; event_type = head_upstream_event available (head_at 100) }

abbrev states : UpstreamStates
states = ("a", record fresh { head_data = head_at 100 }) ∷ ("b", lagging) ∷ []

abbrev lowest_bound : LowerBoundData
lowest_bound = record { bound = pos 4; timestamp = pos 1; bound_type = 3 }

process_events-merged_example :
    let b' =
      (process_events config
        (record { id = "a"; event_type = state_upstream_event fresh } ∷ event "a" ∷ [])
        new_supervisor).0 in
    b'.state ≡ merged_state config b'.upstream_states b'.state.head_data
process_events-merged_example =
    process_events-merged config "a" fresh (event "a" ∷ []) new_supervisor

-- "b" is 10 blocks behind with a threshold of 5.
lagging_is_told : (head_lags config 100 states []).0 ≡ ("b", true) ∷ []
unfolding program
lagging_is_told = refl

-- "b" has no head when it is removed.
abbrev removal : List UpstreamEvent
removal =
    record { id = "a"; event_type = state_upstream_event fresh }
    ∷ event "a"
    ∷ record { id = "b"; event_type = state_upstream_event fresh }
    ∷ record { id = "b"; event_type = remove_upstream_event }
    ∷ []

removed_head : (process_events config removal new_supervisor).0.state.head_data.head ≡ zero_block
unfolding program
removed_head = refl

merged_stays : (process_events config removal new_supervisor).0.fc.max_head ≡ head_at 100
unfolding program
merged_stays = refl

process_events-Shows_example :
    Shows
      (told_empty config false removal new_supervisor)
      (process_events config removal new_supervisor).0
process_events-Shows_example = process_events-Shows config removal
