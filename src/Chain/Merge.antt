-- ===== src/Chain/Merge.antt =====
-- chain_supervisor_state.go: how the states of the available upstreams are merged.
pub mod Best
pub mod Headless
pub mod Lowest
use nodecore.Base.{
  ℕ, Bool, true, false, List, [], ◌∷◌, ◌++◌, String, Option, none, some, length, ◌==◌, ltb, ◌+◌,
  if◌then◌else◌, string_dec, ℕ_discrete, ite,
}
use nodecore.Int.{ltb_ℤ}
use nodecore.Keyed.{load, store, union}
use nodecore.Protocol.Block.{Block}
use nodecore.Protocol.State.{
  AvailabilityStatus, available, unavailable, rank, status_dec, BlockType, finalized_block,
  safe_block, block_type_dec, LowerBoundType, LowerBoundData, Cap, cap_dec, UpstreamState,
}
use nodecore.Chain.State.{AggregatedLabels, labels_eq}

-- The states by upstream id, in the order of one iteration over the map.
abbrev pub UpstreamStates : Type 0
UpstreamStates = List (String × UpstreamState)

unfoldable pub available_upstreams : UpstreamStates → List UpstreamState
available_upstreams [] = []
available_upstreams ((_, val) ∷ states) =
    ite (status_dec val.status available) (val ∷ available_upstreams states)
      (available_upstreams states)

abbrev better : AvailabilityStatus → AvailabilityStatus → AvailabilityStatus
better s status = if ltb (rank s) (rank status) then s else status

status_loop : AvailabilityStatus → UpstreamStates → AvailabilityStatus
status_loop status [] = status
status_loop status ((_, up_state) ∷ states) = status_loop (better up_state.status status) states

-- The best status that any upstream has.
unfoldable pub process_upstream_statuses : UpstreamStates → AvailabilityStatus
unfolding status_loop
process_upstream_statuses states = status_loop unavailable states

caps_loop : List Cap → List UpstreamState → List Cap
caps_loop caps [] = caps
caps_loop caps (up_state ∷ states) = caps_loop (union cap_dec caps up_state.caps) states

unfoldable pub process_caps : List UpstreamState → List Cap
unfolding caps_loop
process_caps states = caps_loop [] states

methods_loop : List String → List UpstreamState → List String
methods_loop methods [] = methods
methods_loop methods (up_state ∷ states) =
    methods_loop (union string_dec methods up_state.upstream_methods) states

-- `NewChainMethods` of the delegates.
unfoldable pub process_upstream_methods : List UpstreamState → List String
unfolding methods_loop
process_upstream_methods states = methods_loop [] states

-- One more upstream with these labels: `FindIndexOf` and `Amount++`, or a new entry at the end.
unfoldable pub count_labels : List (String × String) → List AggregatedLabels → List AggregatedLabels
count_labels up_labels [] = record { amount = 1; labels = up_labels } ∷ []
count_labels up_labels (item ∷ all_labels) =
    if labels_eq up_labels item.labels
    then record item { amount = item.amount + 1 } ∷ all_labels
    else item ∷ count_labels up_labels all_labels

labels_loop : List AggregatedLabels → List UpstreamState → List AggregatedLabels
labels_loop all_labels [] = all_labels
labels_loop all_labels (up_state ∷ states) =
    labels_loop
      (if length up_state.labels == 0 then all_labels else count_labels up_state.labels all_labels)
      states

unfoldable pub process_labels : List UpstreamState → List AggregatedLabels
unfolding labels_loop
process_labels states = labels_loop [] states

abbrev pub Bounds : Type 0
Bounds = List (LowerBoundType × LowerBoundData)

-- Keep the lower of two bounds of one type.
unfoldable pub merge_bound : LowerBoundData → Bounds → Bounds
merge_bound bound bounds = elim (load ℕ_discrete bound.bound_type bounds) [
  | none ↦ store ℕ_discrete bound.bound_type bound bounds
  | some current ↦
      if ltb_ℤ bound.bound current.bound
      then store ℕ_discrete bound.bound_type bound bounds
      else bounds
]

unfoldable pub merge_bounds : Bounds → Bounds → Bounds
merge_bounds bounds [] = bounds
merge_bounds bounds ((_, bound) ∷ up_bounds) = merge_bounds (merge_bound bound bounds) up_bounds

bounds_loop : Bounds → List UpstreamState → Bounds
bounds_loop bounds [] = bounds
bounds_loop bounds (up_state ∷ states) =
    bounds_loop (merge_bounds bounds up_state.lower_bounds_info) states

unfoldable pub process_lower_bounds : List UpstreamState → Bounds
unfolding bounds_loop
process_lower_bounds states = bounds_loop [] states

abbrev pub Blocks : Type 0
Blocks = List (BlockType × Block)

-- Both block types of the program go by the greater height.
unfoldable pub compare_blocks : BlockType → Block → Block → Block
compare_blocks finalized_block current_block new_block =
    if ltb current_block.height new_block.height then new_block else current_block
compare_blocks safe_block current_block new_block =
    if ltb current_block.height new_block.height then new_block else current_block

unfoldable pub merge_blocks : Blocks → Blocks → Blocks
merge_blocks blocks [] = blocks
merge_blocks blocks ((block_type, block_data) ∷ up_blocks) =
    merge_blocks
      (elim (load block_type_dec block_type blocks) [
        | none ↦ store block_type_dec block_type block_data blocks
        | some current ↦
            store block_type_dec block_type (compare_blocks block_type current block_data) blocks
      ])
      up_blocks

blocks_loop : Blocks → List UpstreamState → Blocks
blocks_loop blocks [] = blocks
blocks_loop blocks (up_state ∷ states) =
    blocks_loop (merge_blocks blocks up_state.block_info) states

unfoldable pub process_upstream_blocks : List UpstreamState → Blocks
unfolding blocks_loop
process_upstream_blocks states = blocks_loop [] states
