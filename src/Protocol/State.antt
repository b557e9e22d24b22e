-- ===== src/Protocol/State.antt =====
-- internal/protocol/data.go and blocks.go: the state of an upstream and the events that carry it.
use nodecore.Base.{
  ℕ, Bool, ◌&&◌, List, [], String, Option, none, some, if◌then◌else◌, refl, string_dec, ℕ_discrete,
}
use nodecore.Int.{ℤ, pos, ltb_ℤ}
use nodecore.Keyed.{load, store}
use nodecore.Protocol.Block.{Block, zero_block}

pub data AvailabilityStatus : Type 0 where
  available immature syncing unavailable unknown_status : AvailabilityStatus

-- The integer behind a status: iota + 1, and math.MaxInt for the unknown one.
abbrev pub rank : AvailabilityStatus → ℕ
rank available = 1
rank immature = 2
rank syncing = 3
rank unavailable = 4
rank unknown_status = 9_223_372_036_854_775_807

unfoldable pub status_dec : Discrete AvailabilityStatus
status_dec available available = yes refl
status_dec immature immature = yes refl
status_dec syncing syncing = yes refl
status_dec unavailable unavailable = yes refl
status_dec unknown_status unknown_status = yes refl
status_dec _ _ = no (λ e. cc)

-- Lags and thresholds are int64.
unfoldable pub lag_exceeds : ℤ → ℤ → Bool
lag_exceeds lag syncing_lag = ltb_ℤ (pos 0) syncing_lag && ltb_ℤ syncing_lag lag

unfoldable pub status_by_lag : ℤ → AvailabilityStatus → ℤ → AvailabilityStatus
unfolding lag_exceeds
status_by_lag lag available syncing_lag = if lag_exceeds lag syncing_lag then syncing else available
status_by_lag lag avail syncing_lag = avail

pub data BlockType : Type 0 where
  finalized_block safe_block : BlockType

unfoldable pub block_type_dec : Discrete BlockType
block_type_dec finalized_block finalized_block = yes refl
block_type_dec safe_block safe_block = yes refl
block_type_dec _ _ = no (λ e. cc)

-- LowerBoundType is an int enumeration.
abbrev pub LowerBoundType : Type 0
LowerBoundType = ℕ

pub record LowerBoundData : Type 0 where
  pub bound : ℤ
  pub timestamp : ℤ
  pub bound_type : LowerBoundType

pub data Cap : Type 0 where
  ws_cap new_heads_cap logs_cap pending_tx_cap : Cap

unfoldable pub cap_dec : Discrete Cap
cap_dec ws_cap ws_cap = yes refl
cap_dec new_heads_cap new_heads_cap = yes refl
cap_dec logs_cap logs_cap = yes refl
cap_dec pending_tx_cap pending_tx_cap = yes refl
cap_dec _ _ = no (λ e. cc)

-- `UpstreamMethods` stands for the set of method names that it supports. A rate limiter is a
-- pointer to an object that upstreams share, so it is kept as the object's name. The pointers
-- Caps, BlockInfo, LowerBoundsInfo and Labels are never nil: `default_upstream_state` sets them,
-- and the events below replace them by copies.
pub record UpstreamState : Type 0 where
  pub status : AvailabilityStatus
  pub head_data : Block
  pub upstream_methods : List String
  pub caps : List Cap
  pub upstream_index : String
  pub rate_limiter_budget : Option ℕ
  pub auto_tune_rate_limiter : Option ℕ
  pub block_info : List (BlockType × Block)
  pub lower_bounds_info : List (LowerBoundType × LowerBoundData)
  pub labels : List (String × String)

unfoldable pub default_upstream_state :
    List String → List Cap → String → Option ℕ → Option ℕ → UpstreamState
default_upstream_state upstream_methods caps upstream_index rt auto_tune = record {
  status = available;
  head_data = zero_block;
  upstream_methods = upstream_methods;
  caps = caps;
  upstream_index = upstream_index;
  rate_limiter_budget = rt;
  auto_tune_rate_limiter = auto_tune;
  block_info = [];
  lower_bounds_info = [];
  labels = [];
}

-- A missing block reads as the zero block.
unfoldable pub get_block : BlockType → List (BlockType × Block) → Block
get_block t blocks = elim (load block_type_dec t blocks) [ none ↦ zero_block | some b ↦ b ]

unfoldable pub add_block : Block → BlockType → List (BlockType × Block) → List (BlockType × Block)
add_block b t blocks = store block_type_dec t b blocks

unfoldable pub get_lower_bound :
    LowerBoundType → List (LowerBoundType × LowerBoundData) → Option LowerBoundData
get_lower_bound t bounds = load ℕ_discrete t bounds

unfoldable pub add_lower_bound :
    LowerBoundData → List (LowerBoundType × LowerBoundData) → List (LowerBoundType × LowerBoundData)
add_lower_bound d bounds = store ℕ_discrete d.bound_type d bounds

unfoldable pub get_label : String → List (String × String) → Option String
get_label name labels = load string_dec name labels

unfoldable pub add_label : String → String → List (String × String) → List (String × String)
add_label key value labels = store string_dec key value labels

-- The events that an upstream publishes to its chain supervisor.
pub data UpstreamEventType : Type 0 where
  state_upstream_event : UpstreamState → UpstreamEventType
  head_upstream_event : AvailabilityStatus → Block → UpstreamEventType
  remove_upstream_event : UpstreamEventType
  valid_upstream_event : Option UpstreamState → UpstreamEventType

pub record UpstreamEvent : Type 0 where
  pub id : String
  pub event_type : UpstreamEventType
