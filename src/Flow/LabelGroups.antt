-- ===== src/Flow/LabelGroups.antt =====
-- internal/upstreams/flow/label_group_strategy.go: groups of upstreams by label, tried in order. The
-- mutexes guard the cursor and the picks, so that an attempt is one step; hedged attempts that
-- overlap are left out.
pub mod Groups
pub mod Partition
mod Tests
use nodecore.Base.{
  ℕ, zero, suc, ◌+◌, Bool, true, false, not, ◌&&◌, ◌||◌, String, List, [], ◌∷◌, ◌++◌, Option, none,
  some, if◌then◌else◌, string_dec,
}
use nodecore.Keyed.{contains, keep_if}
use nodecore.Protocol.State.{UpstreamState}
use nodecore.Flow.Responses.{MatchResponse, more_severe}
use nodecore.Flow.Matchers.{Matchers}
use nodecore.Flow.Limits.{Limits}
use nodecore.Flow.Strategy.{
  Picks, Asked, Trace, Selection, Selected, selected, refused, no_available_upstreams,
  selection_error, filter_upstreams, outranks,
}

-- What changes during a request.
pub record Cursor (S : Type 0) : Type 0 where
  pub current_group_idx : ℕ
  pub first_call : Bool
  pub picks : Picks S

abbrev pub new_cursor : {S : Type 0} → S → Cursor S
new_cursor counters = record {
  current_group_idx = 0;
  first_call = true;
  picks = record { selected_upstreams = []; counters = counters };
}

-- The groups from an index on.
abbrev pub groups_from : ℕ → List (List String) → List (List String)
groups_from zero groups = groups
groups_from (suc n) [] = []
groups_from (suc n) (g ∷ groups) = groups_from n groups

-- `reason != nil && (currentReason == nil || reason.Type() < currentReason.Type())`.
abbrev pub keep_reason : Option MatchResponse → Option MatchResponse → Option MatchResponse
keep_reason none current = current
keep_reason (some r) current = if outranks r current then some r else current

-- The index from which an attempt starts.
abbrev pub start_idx : {S : Type 0} → Bool → Cursor S → ℕ
start_idx pass_on_error c =
    if pass_on_error && not c.first_call then suc c.current_group_idx else c.current_group_idx

module _ {S : Type 0} (limits : Limits S) (request : Asked)
    (get_upstream_state : String → Option UpstreamState) (additional : Matchers)
    (order : Option (List String → List String)) where
  -- The loop over the groups, with its variables `idx`, `currentReason` and `trace`: the answer, the
  -- index that is stored, and the picks.
  unfoldable pub group_loop :
      List (List String) → ℕ → Option MatchResponse → Trace → Picks S → Selected × ℕ × Picks S
  unfolding filter_upstreams selection_error
  group_loop [] idx reason trace picks = (refused (selection_error reason trace), idx, picks)
  group_loop (g ∷ groups) idx reason trace picks =
      let r = filter_upstreams limits request g get_upstream_state additional order picks in
      elim r.0 [
        | some x ↦ (selected x, idx, r.3)
        | none ↦ group_loop groups (suc idx) (keep_reason r.1 reason) r.2 r.3
      ]

  unfoldable pub select_group : Bool → List (List String) → Cursor S → Selected × Cursor S
  unfolding group_loop
  select_group pass_on_error [] c = (refused no_available_upstreams, c)
  select_group pass_on_error (g ∷ groups) c =
      let idx = start_idx pass_on_error c in
      let r = group_loop (groups_from idx (g ∷ groups)) idx none [] c.picks in
      (r.0, record { current_group_idx = r.1; first_call = false; picks = r.2 })

abbrev unless_empty : List String → List (List String)
unless_empty [] = []
unless_empty (id ∷ ids) = (id ∷ ids) ∷ []

-- PartitionLabelGroups, over the group-labels of an upstream.
module _ (labels_of : String → List String) where
  abbrev has_group_label : String → String → Bool
  has_group_label label id = contains string_dec label (labels_of id)

  unfoldable pub group_of : String → List String → List String
  unfolding keep_if
  group_of label ids = keep_if (has_group_label label) ids

  unfoldable pub has_some : List String → String → Bool
  has_some [] id = false
  has_some (label ∷ order) id = has_group_label label id || has_some order id

  unfoldable pub default_group : List String → List String → List String
  unfolding has_some keep_if
  default_group order ids = keep_if (λ id. not (has_some order id)) ids

  unfoldable pub label_groups : List String → List String → List (List String)
  unfolding group_of
  label_groups [] ids = []
  label_groups (label ∷ order) ids = group_of label ids ∷ label_groups order ids

  unfoldable pub partition_label_groups : List String → List String → Bool → List (List String)
  unfolding default_group label_groups
  partition_label_groups ids order include_default =
      if include_default
      then label_groups order ids ++ unless_empty (default_group order ids)
      else label_groups order ids
