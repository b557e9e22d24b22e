-- ===== src/Chain/State.antt =====
-- chain_supervisor_state.go: the merged state of a chain and what changed between two of them.
use nodecore.Base.{
  ℕ, Bool, true, false, ◌&&◌, ◌||◌, List, [], ◌∷◌, ◌++◌, String, length, ◌==◌, ite, if◌then◌else◌,
  string_dec, ℕ_discrete, map,
}
use nodecore.Keyed.{map_eq, set_eq}
use nodecore.Protocol.Block.{Block, block_eq, is_empty_by_height}
use nodecore.Protocol.State.{
  AvailabilityStatus, status_dec, BlockType, block_type_dec, LowerBoundType, LowerBoundData, Cap,
  cap_dec,
}
use nodecore.Protocol.StateEvent.{lower_bound_eq}

pub record ChainHeadData : Type 0 where
  pub head : Block
  pub upstream_id : String

unfoldable pub head_is_empty : ChainHeadData → Bool
head_is_empty c = is_empty_by_height c.head

pub record AggregatedLabels : Type 0 where
  pub amount : ℕ
  pub labels : List (String × String)

-- `maps.Equal` on label maps.
unfoldable pub labels_eq : List (String × String) → List (String × String) → Bool
labels_eq = map_eq string_dec (λ v w. ite (string_dec v w) true false)

unfoldable pub aggregated_eq : AggregatedLabels → AggregatedLabels → Bool
unfolding labels_eq
aggregated_eq a other = a.amount == other.amount && labels_eq a.labels other.labels

-- `lo.Find` of an equal entry.
unfoldable pub found : AggregatedLabels → List AggregatedLabels → Bool
unfolding aggregated_eq
found a [] = false
found a (item ∷ b) = aggregated_eq item a || found a b

unfoldable pub all_found : List AggregatedLabels → List AggregatedLabels → Bool
unfolding found
all_found [] b = true
all_found (a ∷ rest) b = found a b && all_found rest b

unfoldable pub compare_aggregated_labels : List AggregatedLabels → List AggregatedLabels → Bool
unfolding all_found
compare_aggregated_labels a b = length a == length b && all_found a b

pub record ChainSupervisorState : Type 0 where
  pub status : AvailabilityStatus
  pub head_data : ChainHeadData
  pub methods : List String
  pub blocks : List (BlockType × Block)
  pub lower_bounds : List (LowerBoundType × LowerBoundData)
  pub chain_labels : List AggregatedLabels
  pub sub_methods : List String
  pub caps : List Cap

pub data Wrapper : Type 0 where
  status_wrapper : AvailabilityStatus → Wrapper
  head_wrapper : Block → String → Wrapper
  methods_wrapper : List String → Wrapper
  blocks_wrapper : List (BlockType × Block) → Wrapper
  lower_bounds_wrapper : List LowerBoundData → Wrapper
  labels_wrapper : List AggregatedLabels → Wrapper
  sub_methods_wrapper : List String → Wrapper
  caps_wrapper : List Cap → Wrapper

-- `if !equal { wrappers = append(wrappers, w) }`.
abbrev changed : Bool → Wrapper → List Wrapper
changed equal w = if equal then [] else w ∷ []

unfoldable pub compare : ChainSupervisorState → ChainSupervisorState → List Wrapper
compare c new =
    changed (ite (status_dec c.status new.status) true false) (status_wrapper new.status)
    ++ (changed (set_eq string_dec c.methods new.methods) (methods_wrapper new.methods)
        ++ (changed (map_eq block_type_dec block_eq c.blocks new.blocks) (blocks_wrapper new.blocks)
            ++ (changed (map_eq ℕ_discrete lower_bound_eq c.lower_bounds new.lower_bounds)
                  (lower_bounds_wrapper (map (λ e. e.1) new.lower_bounds))
                ++ (changed (compare_aggregated_labels c.chain_labels new.chain_labels)
                      (labels_wrapper new.chain_labels)
                    ++ (changed (set_eq string_dec c.sub_methods new.sub_methods)
                          (sub_methods_wrapper new.sub_methods)
                        ++ changed (set_eq cap_dec c.caps new.caps) (caps_wrapper new.caps))))))
