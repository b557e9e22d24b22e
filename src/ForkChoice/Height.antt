-- ===== src/ForkChoice/Height.antt =====
-- HeightForkChoice: the live heads by upstream id, and the highest of them.
use Prim.Native.Nat.{Ordering}
use nodecore.Base.{
  ℕ, ◌≡◌, ◌≢◌, ◌↔◌, ◌⊎◌, inl, inr, refl, Bool, true, false, List, [], ◌∷◌, String, Option, none,
  some, arith, max, Bool-cases, subst, sym, if◌then◌else◌, string_dec,
}
use nodecore.Keyed.{load, store, delete, IsMap, store-IsMap, delete-IsMap}
use nodecore.Protocol.Block.{Block, zero_block, compare_with_height, is_empty_by_height}
use nodecore.Protocol.State.{
  AvailabilityStatus, available, immature, syncing, unavailable, unknown_status,
}

pub record HeightForkChoice : Type 0 where
  pub heads : List (String × Block)
  pub max_head : Block

unfoldable pub new_height_fork_choice : HeightForkChoice
new_height_fork_choice = record { heads = []; max_head = zero_block }

abbrev higher : Block → Block → Block
higher head current = elim (compare_with_height head current) [ Ordering.gt ↦ head | _ ↦ current ]

-- The loop of `maxHeight`, with its variable `currentMaxHeight`.
max_loop : Block → List (String × Block) → Block
max_loop current [] = current
max_loop current ((_, head) ∷ rest) = max_loop (higher head current) rest

unfoldable pub max_height : List (String × Block) → Block
unfolding max_loop
max_height heads = max_loop zero_block heads

-- What `Choose` does once `heads` is up to date: the new maximum is taken over only if its height
-- differs.
abbrev settle : HeightForkChoice → List (String × Block) → HeightForkChoice × Bool × Block
settle fc heads =
    let new_max = max_height heads in
    elim (compare_with_height new_max fc.max_head) [
      | Ordering.eq ↦ (record fc { heads = heads }, false, fc.max_head)
      | _ ↦ (record { heads = heads; max_head = new_max }, true, new_max)
    ]

abbrev retire : String → Option Block → HeightForkChoice → HeightForkChoice × Bool × Block
retire id none fc = (fc, false, fc.max_head)
retire id (some _) fc = settle fc (delete string_dec id fc.heads)

-- The new state, whether the merged head moved, and the merged head.
unfoldable pub choose :
    String → AvailabilityStatus → Block → HeightForkChoice → HeightForkChoice × Bool × Block
choose id available head fc =
    if is_empty_by_height head
    then (fc, false, fc.max_head)
    else settle fc (store string_dec id head fc.heads)
choose id _ head fc = retire id (load string_dec id fc.heads) fc

-- The greatest height among the entries of a map.
abbrev pub highest : List (String × Block) → ℕ
highest [] = 0
highest ((_, b) ∷ m) = max b.height (highest m)

max_loop-height :
    (c : Block) (m : List (String × Block)) → (max_loop c m).height ≡ max c.height (highest m)
unfolding max_loop
max_loop-height c [] = omega arith
max_loop-height c ((_, b) ∷ m) = ground (arith, max_loop-height (higher b c) m)

pub max_height-height : (m : List (String × Block)) → (max_height m).height ≡ highest m
unfolding max_height
max_height-height m = omega (arith, max_loop-height zero_block m)

pub record Inv (fc : HeightForkChoice) : Type 0 where
  pub keyed : IsMap fc.heads
  pub merged : fc.max_head.height ≡ highest fc.heads

pub new-Inv : Inv new_height_fork_choice
unfolding new_height_fork_choice
new-Inv = record { keyed = tt; merged = refl }

settle-heads : (fc : HeightForkChoice) (m : List (String × Block)) → (settle fc m).0.heads ≡ m
settle-heads fc m = ground arith

settle-merged :
    (fc : HeightForkChoice) (m : List (String × Block))
    → (settle fc m).0.max_head.height ≡ highest (settle fc m).0.heads
settle-merged fc m = ground (arith, max_height-height m)

settle-Inv : (fc : HeightForkChoice) (m : List (String × Block)) → IsMap m → Inv (settle fc m).0
settle-Inv fc m k = record {
  keyed = subst IsMap (sym (settle-heads fc m)) k;
  merged = settle-merged fc m;
}

choose-Inv-retire :
    (id : String) (o : Option Block) (fc : HeightForkChoice) → Inv fc → Inv (retire id o fc).0
choose-Inv-retire id none fc v = v
choose-Inv-retire id (some b) fc v = settle-Inv fc _ (delete-IsMap string_dec id fc.heads v.keyed)

-- Every call keeps the upstreams apart and the merged height equal to the highest live height.
pub choose-Inv :
    (id : String) (s : AvailabilityStatus) (head : Block) (fc : HeightForkChoice)
    → Inv fc
    → Inv (choose id s head fc).0
unfolding choose
choose-Inv id available head fc v = elim (Bool-cases (is_empty_by_height head)) [
  | inl e ↦ rw e v
  | inr e ↦ rw e (settle-Inv fc _ (store-IsMap string_dec id head fc.heads v.keyed))
]
choose-Inv id immature head fc v = choose-Inv-retire id _ fc v
choose-Inv id syncing head fc v = choose-Inv-retire id _ fc v
choose-Inv id unavailable head fc v = choose-Inv-retire id _ fc v
choose-Inv id unknown_status head fc v = choose-Inv-retire id _ fc v

-- What a call answers, against the merged head before and after it.
abbrev pub Reports : HeightForkChoice → HeightForkChoice × Bool × Block → Type 0
Reports fc (fc', updated, head) =
    (head ≡ fc'.max_head)
    × ((updated ≡ true) ↔ (fc'.max_head.height ≢ fc.max_head.height))
    × ((updated ≡ true) ⊎ (fc'.max_head ≡ fc.max_head))

settle-Reports : (fc : HeightForkChoice) (m : List (String × Block)) → Reports fc (settle fc m)
settle-Reports fc m = ground arith

retire-Reports :
    (id : String) (o : Option Block) (fc : HeightForkChoice) → Reports fc (retire id o fc)
retire-Reports id none fc = ground arith
retire-Reports id (some b) fc = settle-Reports fc _

-- The answer is the merged head, the flag is set exactly when the merged height moved, and the
-- merged head is kept, hash included, whenever the flag is not set.
pub choose-Reports :
    (id : String) (s : AvailabilityStatus) (head : Block) (fc : HeightForkChoice)
    → Reports fc (choose id s head fc)
unfolding choose
choose-Reports id available head fc = elim (Bool-cases (is_empty_by_height head)) [
  | inl e ↦ rw e (ground arith)
  | inr e ↦ rw e (settle-Reports fc _)
]
choose-Reports id immature head fc = retire-Reports id _ fc
choose-Reports id syncing head fc = retire-Reports id _ fc
choose-Reports id unavailable head fc = retire-Reports id _ fc
choose-Reports id unknown_status head fc = retire-Reports id _ fc
