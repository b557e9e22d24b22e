-- ===== src/Flow/Selectors.antt =====
-- internal/upstreams/flow/selectors.go: how the selectors of a request become a matcher and an
-- ordering hint, with the selector types of internal/protocol/data.go.
use nodecore.Base.{ℕ, Bool, ◌&&◌, ◌==◌, String, List, Option, none, some, if◌then◌else◌}
use nodecore.Int.{ℤ, pos, eqb_ℤ}
use nodecore.Protocol.State.{LowerBoundType}
use nodecore.Flow.Matchers.{
  Matcher, Matchers, LowerHeightPredictor, label_matcher, label_exists_matcher, height_matcher,
  slot_height_matcher, lower_height_matcher, selector_and_matcher, selector_or_matcher,
  selector_not_matcher, unsupported_selector_matcher, no_matchers, and_matcher,
}

pub data RequestBlockTag : Type 0 where
  latest_tag safe_tag finalized_tag other_tag : RequestBlockTag

mutual
  pub data RequestSelector : Type 0 where
    any_selector : RequestSelector
    label_selector : String → List String → RequestSelector
    exists_selector : String → RequestSelector
    and_selector : RequestSelectors → RequestSelector
    or_selector : RequestSelectors → RequestSelector
    not_selector : RequestSelector → RequestSelector
    height_selector : ℤ → RequestSelector
    block_tag_selector : RequestBlockTag → RequestSelector
    slot_height_selector : ℤ → RequestSelector
    lower_height_selector : ℤ → LowerBoundType → ℤ → ℤ → RequestSelector
    unsupported_selector : String → RequestSelector

  pub data RequestSelectors : Type 0 where
    no_selectors : RequestSelectors
    and_then : RequestSelector → RequestSelectors → RequestSelectors

pub data SortKind : Type 0 where
  sort_default sort_head_desc sort_safe_desc sort_finalized_desc : SortKind
  sort_predicted_lower_bound_asc : SortKind

abbrev pub kind_index : SortKind → ℕ
kind_index sort_default = 0
kind_index sort_head_desc = 1
kind_index sort_safe_desc = 2
kind_index sort_finalized_desc = 3
kind_index sort_predicted_lower_bound_asc = 4

pub record SortSpec : Type 0 where
  pub kind : SortKind
  pub lower_bound_type : LowerBoundType
  pub time_offset : ℤ

abbrev spec_eq : SortSpec → SortSpec → Bool
spec_eq a b =
    kind_index a.kind == kind_index b.kind
    && a.lower_bound_type == b.lower_bound_type
    && eqb_ℤ a.time_offset b.time_offset

-- A selector compiles to a matcher, an ordering hint, both or neither.
abbrev pub Compiled : Type 0
Compiled = Option Matcher × Option SortSpec

abbrev sort_only : SortKind → Compiled
sort_only k = (none, some (record { kind = k; lower_bound_type = 0; time_offset = pos 0 }))

abbrev unsupported : String → Compiled
unsupported reason = (some (unsupported_selector_matcher reason), none)

abbrev compile_tag : RequestBlockTag → Compiled
compile_tag latest_tag = sort_only sort_head_desc
compile_tag safe_tag = sort_only sort_safe_desc
compile_tag finalized_tag = sort_only sort_finalized_desc
compile_tag other_tag = unsupported "unsupported block tag selector"

abbrev compile_lower : LowerHeightPredictor → ℤ → LowerBoundType → ℤ → ℤ → Compiled
compile_lower predict height t offset delta =
    if eqb_ℤ height (pos 0)
    then (
      none,
      some (record {
        kind = sort_predicted_lower_bound_asc;
        lower_bound_type = t;
        time_offset = offset;
      }),
    )
    else (some (lower_height_matcher height t offset delta (some predict)), none)

-- `children = append(children, matcher)` unless the matcher is nil.
abbrev push : Option Matcher → Matchers → Matchers
push none ms = ms
push (some m) ms = and_matcher m ms

-- An ordering hint of a child of AND, against the one combined so far: the hint to go on with, and
-- the refusal of a hint that differs. The text of the refusal leaves out the two kinds.
abbrev combine : Option SortSpec → Option SortSpec → Option SortSpec × Option Matcher
combine combined none = (combined, none)
combine none (some spec) = (some spec, none)
combine (some known) (some spec) =
    if spec_eq known spec
    then (some spec, none)
    else (some known, some (unsupported_selector_matcher "conflicting selector sort hints"))

abbrev or_of : Option Matchers → Compiled
or_of none = unsupported "sort-bearing selectors inside OR are not supported"
or_of (some children) = (some (selector_or_matcher children), none)

-- A child of OR, before the children that follow; none once a child bears an ordering hint.
abbrev or_child : Compiled → Option Matchers → Option Matchers
or_child (m, some spec) rest = none
or_child (m, none) none = none
or_child (m, none) (some rest) = some (push m rest)

abbrev not_of : Compiled → Compiled
not_of (m, some spec) = unsupported "sort-bearing selectors inside NOT are not supported"
not_of (none, none) = (none, none)
not_of (some m, none) = (some (selector_not_matcher m), none)

module _ (predict : LowerHeightPredictor) where
  unfoldable mutual
    pub compile_selector : RequestSelector → Compiled
    compile_selector any_selector = (none, none)
    compile_selector (label_selector name values) = (some (label_matcher name values), none)
    compile_selector (exists_selector name) = (some (label_exists_matcher name), none)
    compile_selector (and_selector children) =
        let c = compile_and none children in (some (selector_and_matcher c.0), c.1)
    compile_selector (or_selector children) = or_of (compile_or children)
    compile_selector (not_selector child) = not_of (compile_selector child)
    compile_selector (height_selector height) = (some (height_matcher height), none)
    compile_selector (block_tag_selector tag) = compile_tag tag
    compile_selector (slot_height_selector slot) = (some (slot_height_matcher slot), none)
    compile_selector (lower_height_selector height t offset delta) =
        compile_lower predict height t offset delta
    compile_selector (unsupported_selector reason) = unsupported reason

    -- The loop over the children of AND, with its variable `combinedSort`.
    pub compile_and : Option SortSpec → RequestSelectors → Matchers × Option SortSpec
    compile_and combined no_selectors = (no_matchers, combined)
    compile_and combined (and_then s ss) =
        let c = compile_selector s in
        let next = combine combined c.1 in
        let rest = compile_and next.0 ss in (push c.0 (push next.1 rest.0), rest.1)

    pub compile_or : RequestSelectors → Option Matchers
    compile_or no_selectors = some no_matchers
    compile_or (and_then s ss) = or_child (compile_selector s) (compile_or ss)
