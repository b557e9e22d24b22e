-- ===== src/Flow/Order/Tests.antt =====
-- Three upstreams, of which two share a height.
use nodecore.Base.{
  ℕ, ◌≡◌, refl, List, [], ◌∷◌, String, Option, none, string_dec, ℕ_discrete, Pairwise, those,
  insert, stable_sort,
}
use nodecore.Int.{ℤ, pos, eqb_ℤ, to_int64}
use nodecore.Keyed.{load}
use nodecore.Protocol.Block.{zero_block}
use nodecore.Protocol.State.{
  UpstreamState, LowerBoundType, get_block, get_lower_bound, default_upstream_state, block_type_dec,
}
use nodecore.Flow.Selectors.{SortSpec, sort_head_desc, sort_predicted_lower_bound_asc}
use nodecore.Flow.Order.{
  predict_lower_bound, predicted_lower_bound_of, selector_sort_key, build_selector_order,
}
use nodecore.Flow.Order.Sorted.{Precedes, key, ordered, build_selector_order-sorts}

program : Unit {0}
unfolding load string_dec ℕ_discrete block_type_dec get_block get_lower_bound default_upstream_state
    insert stable_sort to_int64 predict_lower_bound predicted_lower_bound_of selector_sort_key
    build_selector_order
program = tt

abbrev with_height : ℕ → UpstreamState
with_height h = record (default_upstream_state [] [] "00001" none none) {
  head_data = record zero_block { height = h };
}

abbrev states : String → Option UpstreamState
states id =
    load string_dec id (("a", with_height 7) ∷ ("b", with_height 9) ∷ ("c", with_height 7) ∷ [])

abbrev predict : String → LowerBoundType → ℤ → ℤ
predict id bound_type offset = elim (string_dec id "c") [ yes _ ↦ pos 5 | no _ ↦ pos 0 ]

abbrev by_head : SortSpec
by_head = record { kind = sort_head_desc; lower_bound_type = 0; time_offset = pos 0 }

abbrev by_bound : SortSpec
by_bound = record {
  kind = sort_predicted_lower_bound_asc;
  lower_bound_type = 1;
  time_offset = pos 0;
}

abbrev ids : List String
ids = "a" ∷ "b" ∷ "c" ∷ []

highest_first : ordered predict states states by_head ids ≡ "b" ∷ "a" ∷ "c" ∷ []
unfolding program
highest_first = refl

unpredicted_last : ordered predict states states by_bound ids ≡ "c" ∷ "a" ∷ "b" ∷ []
unfolding program
unpredicted_last = refl

build_selector_order-sorts_example :
    Pairwise
      (λ a b.
        Precedes sort_head_desc
          (key predict states states by_head a)
          (key predict states states by_head b))
      (ordered predict states states by_head ids)
    × (those
          (λ id. eqb_ℤ (key predict states states by_head id) (pos 7))
          (ordered predict states states by_head ids)
        ≡ those (λ id. eqb_ℤ (key predict states states by_head id) (pos 7)) ids)
build_selector_order-sorts_example =
    build_selector_order-sorts predict states states by_head ids (pos 7)
