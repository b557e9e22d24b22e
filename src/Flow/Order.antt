-- ===== src/Flow/Order.antt =====
-- internal/upstreams/flow/selectors.go: the order of upstreams that a selector's hint stands for, with
-- PredictLowerBound of internal/upstreams/upstream.go. The prediction of the bound processors, 0
-- without one, is an argument. `sort.SliceStable` is the stable sort of Base.
pub mod Sorted
mod Tests
use nodecore.Base.{
  ℕ, Bool, false, String, List, [], ◌∷◌, Option, none, some, if◌then◌else◌, stable_sort,
}
use nodecore.Int.{ℤ, pos, ltb_ℤ, eqb_ℤ, to_int64}
use nodecore.Protocol.Block.{Block}
use nodecore.Protocol.State.{
  UpstreamState, BlockType, finalized_block, safe_block, LowerBoundType, get_block, get_lower_bound,
}
use nodecore.Flow.Selectors.{
  SortKind, SortSpec, sort_default, sort_head_desc, sort_safe_desc, sort_finalized_desc,
  sort_predicted_lower_bound_asc,
}

abbrev pub height_of : Option UpstreamState → ℕ
height_of none = 0
height_of (some state) = state.head_data.height

abbrev pub block_height_of : Option UpstreamState → BlockType → ℕ
block_height_of none block_type = 0
block_height_of (some state) block_type = (get_block block_type state.block_info).height

-- `1 << 62`, for an upstream without a prediction.
abbrev pub no_prediction : ℤ
no_prediction = pos 4_611_686_018_427_387_904

-- Whether the first key comes before the second.
abbrev pub key_before : SortKind → ℤ → ℤ → Bool
key_before sort_predicted_lower_bound_asc left right = ltb_ℤ left right
key_before sort_default left right = false
key_before _ left right = ltb_ℤ right left

module _ (aggregator : String → LowerBoundType → ℤ → ℤ) where
  -- The greater of what is predicted and of the bound in the state.
  unfoldable pub predict_lower_bound : String → UpstreamState → LowerBoundType → ℤ → ℤ
  predict_lower_bound id state bound_type offset =
      let predicted = aggregator id bound_type offset in
      elim (get_lower_bound bound_type state.lower_bounds_info) [
        | none ↦ predicted
        | some b ↦ if ltb_ℤ predicted b.bound then b.bound else predicted
      ]

  -- An upstream that the supervisor knows is its state.
  module _ (get_upstream get_upstream_state : String → Option UpstreamState) where
    unfoldable pub predicted_lower_bound_of : String → LowerBoundType → ℤ → ℤ
    unfolding predict_lower_bound
    predicted_lower_bound_of id bound_type offset = elim (get_upstream id) [
      | none ↦ no_prediction
      | some state ↦
          let value = predict_lower_bound id state bound_type offset in
          if eqb_ℤ value (pos 0) then no_prediction else value
    ]

    -- Without a supervisor of the chain there is no state either.
    unfoldable pub selector_sort_key : SortSpec → String → ℤ
    unfolding predicted_lower_bound_of
    selector_sort_key spec id =
        let state = get_upstream_state id in
        elim spec.kind [
          | sort_predicted_lower_bound_asc ↦
              predicted_lower_bound_of id spec.lower_bound_type spec.time_offset
          | sort_head_desc ↦ to_int64 (height_of state)
          | sort_safe_desc ↦ to_int64 (block_height_of state safe_block)
          | sort_finalized_desc ↦ to_int64 (block_height_of state finalized_block)
          | sort_default ↦ pos 0
        ]

    abbrev pub comes_before : SortSpec → String → String → Bool
    comes_before spec a b =
        key_before spec.kind (selector_sort_key spec a) (selector_sort_key spec b)

    abbrev order_by : SortSpec → SortKind → Option (List String → List String)
    order_by spec sort_default = none
    order_by spec _ = some (stable_sort (comes_before spec))

    unfoldable pub build_selector_order : Option SortSpec → Option (List String → List String)
    unfolding stable_sort selector_sort_key
    build_selector_order none = none
    build_selector_order (some spec) = order_by spec spec.kind
