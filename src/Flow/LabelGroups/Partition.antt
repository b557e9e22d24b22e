-- ===== src/Flow/LabelGroups/Partition.antt =====
-- internal/upstreams/flow/label_group_strategy.go: every upstream is in its groups.
use nodecore.Base.{
  Bool, true, false, not, ◌||◌, ◌&&◌, String, List, [], ◌∷◌, ◌++◌, ◌≡◌, refl, arith, string_dec,
}
use nodecore.Keyed.{contains, contains-keep_if}
use nodecore.Flow.LabelGroups.{
  group_of, has_group_label, has_some, default_group, label_groups, unless_empty,
  partition_label_groups,
}

-- Some group contains the upstream.
abbrev pub in_some : String → List (List String) → Bool
in_some id [] = false
in_some id (g ∷ groups) = contains string_dec id g || in_some id groups

in_some-append :
    (id : String) (gs hs : List (List String))
    → in_some id (gs ++ hs) ≡ (in_some id gs || in_some id hs)
in_some-append id [] hs = refl
in_some-append id (g ∷ gs) hs = ground (arith, in_some-append id gs hs)

in_some-unless_empty :
    (id : String) (g : List String) → in_some id (unless_empty g) ≡ contains string_dec id g
unfolding contains
in_some-unless_empty id [] = refl
in_some-unless_empty id (x ∷ g) = ground arith

module _ (labels_of : String → List String) where
  label_groups-contains :
      (order : List String) (id : String) (ids : List String)
      → in_some id (label_groups labels_of order ids)
        ≡ (contains string_dec id ids && has_some labels_of order id)
  unfolding label_groups has_some group_of
  label_groups-contains [] id ids = ground arith
  label_groups-contains (label ∷ order) id ids = ground (
    arith,
    contains-keep_if string_dec (has_group_label labels_of label) id ids,
    label_groups-contains order id ids,
  )

  -- With the default group the groups hold exactly the given upstreams; without it, exactly those that
  -- have one of the labels of the order.
  pub partition-covers :
      (ids order : List String) (include_default : Bool) (id : String)
      → in_some id (partition_label_groups labels_of ids order include_default)
        ≡ (contains string_dec id ids && (include_default || has_some labels_of order id))
  unfolding partition_label_groups
  partition-covers ids order true id =
      let rest = default_group labels_of order ids in
      ground (
        arith,
        in_some-append id (label_groups labels_of order ids) (unless_empty rest),
        in_some-unless_empty id rest,
        label_groups-contains order id ids,
        contains-keep_if string_dec (λ id. not (has_some labels_of order id)) id ids,
      )
  partition-covers ids order false id = label_groups-contains order id ids
