-- ===== src/LowerBounds/Search.antt =====
-- internal/upstreams/lower_bounds/lower_bound_search.go: the binary search of a lower bound, without
-- and with an offset. Heights are not negative there, and the latest one is positive, so they stand as plain
-- numbers; `right`, which the search may move to -1, stands as right + 1. The probe with its
-- retries is a function of the height.
pub mod Edge
pub mod Bound
pub mod Gaps
pub mod Missing
pub mod Rounds
pub mod Offset
use nodecore.Base.{
  ℕ, zero, suc, ◌+◌, ◌-◌, ◌/◌, Bool, true, false, ◌&&◌, List, [], ◌∷◌, Option, none, some,
  if◌then◌else◌, ltb, leb, ◌==◌, map, ℕ_discrete,
}
use nodecore.Int.{ℤ, pos, negsuc}
use nodecore.Keyed.{contains, add}
use nodecore.Protocol.State.{LowerBoundType}

pub record BoundRange : Type 0 where
  pub left : ℕ
  pub right_end : ℕ
  pub current : ℕ

unfoldable pub initial_range : ℕ → ℕ → BoundRange
initial_range cached latest = record { left = cached; right_end = suc latest; current = 0 }

abbrev pub candidate : ℕ → ℕ
candidate current = if current == 0 then 1 else current

module _ (has_data : ℕ → Bool) where
  -- The bound, or nothing where the source answers with an error.
  unfoldable pub converge : BoundRange → Option ℕ
  converge state =
      if has_data (candidate state.current)
      then some (candidate state.current)
      else if candidate state.current == 1 && ltb 11 state.right_end
      then none
      else some (candidate state.current)

  abbrev pub middle : BoundRange → ℕ
  middle state = state.left + (state.right_end - suc state.left) / 2

  unfoldable pub narrow : BoundRange → BoundRange
  narrow state =
      if has_data (middle state)
      then record state { right_end = middle state; current = middle state }
      else record state { left = suc (middle state) }

  -- The loop of `detectPlain` on fuel; the outer option is none when the fuel runs out.
  unfoldable pub search : ℕ → BoundRange → Option (Option ℕ)
  unfolding converge narrow
  search zero state = none
  search (suc fuel) state =
      let rest = search fuel (narrow state) in
      if leb state.right_end state.left then some (converge state) else rest

  -- The range of the source has latest - cached + 1 heights, one more than which are steps enough.
  unfoldable pub detect_plain : ℕ → ℕ → Option (Option ℕ)
  unfolding search initial_range
  detect_plain cached latest =
      let full = search (suc (suc latest)) (initial_range cached latest) in
      if ltb 0 cached && has_data cached then some (some cached) else full

-- The search with an offset. `max_offset` is how many blocks it goes down from one without data.
module _ (has_data : ℕ → Bool) (max_offset : ℕ) where
  -- The loop of `shiftLeftAndSearch` from the block below `end`, with its variables `count` and
  -- `visited`: the block with data, if it finds one.
  unfoldable pub shift_left : ℕ → ℕ → List ℕ → Option ℕ × List ℕ
  shift_left zero count visited = (none, visited)
  shift_left (suc block) count visited =
      let rest = shift_left block (suc count) (add ℕ_discrete block visited) in
      if contains ℕ_discrete block visited
      then (none, visited)
      else if has_data block
      then (some block, visited)
      else if ltb max_offset (suc count)
      then (none, visited)
      else rest

  abbrev pub shifted : BoundRange → Option ℕ → BoundRange
  shifted state none = record state { left = suc (middle has_data state) }
  shifted state (some block) = record state { right_end = block; current = block }

  unfoldable pub narrow_with_offset : BoundRange → List ℕ → BoundRange × List ℕ
  unfolding shift_left
  narrow_with_offset state visited =
      let r = shift_left (middle has_data state) 0 visited in
      if has_data (middle has_data state)
      then (
        record state { right_end = middle has_data state; current = middle has_data state },
        visited,
      )
      else (shifted state r.0, r.1)

  unfoldable pub search_with_offset : ℕ → BoundRange → List ℕ → Option (Option ℕ)
  unfolding converge narrow_with_offset
  search_with_offset zero state visited = none
  search_with_offset (suc fuel) state visited =
      let next = narrow_with_offset state visited in
      let rest = search_with_offset fuel next.0 next.1 in
      if leb state.right_end state.left then some (converge has_data state) else rest

  unfoldable pub detect_with_offset : ℕ → ℕ → Option (Option ℕ)
  unfolding search_with_offset initial_range
  detect_with_offset cached latest =
      let full = search_with_offset (suc (suc latest)) (initial_range cached latest) [] in
      if ltb 0 cached && has_data cached then some (some cached) else full

-- The detection, once the latest height is known: nothing for a height that is not positive, and the
-- last bound, which a bound that is found replaces. `last` and `latest` are int64 values.
unfoldable pub detect_lower_bound : (ℕ → Bool) → ℕ → ℕ → ℤ → Option (Option ℕ × ℕ)
unfolding detect_plain detect_with_offset
detect_lower_bound has_data max_offset last (negsuc n) = some (none, last)
detect_lower_bound has_data max_offset last (pos zero) = some (none, last)
detect_lower_bound has_data max_offset last (pos (suc n)) =
    let o =
      if ltb 0 max_offset
      then detect_with_offset has_data max_offset last (suc n)
      else detect_plain has_data last (suc n) in
    elim o [
      | none ↦ none
      | some none ↦ some (none, last)
      | some (some bound) ↦ some (some bound, bound)
    ]

-- `lowerBoundResults`, without the time of the results.
unfoldable pub lower_bound_results :
    List LowerBoundType → LowerBoundType → ℕ → List (ℕ × LowerBoundType)
lower_bound_results [] main bound = (bound, main) ∷ []
lower_bound_results (t ∷ ts) main bound = map (λ u. (bound, u)) (t ∷ ts)
