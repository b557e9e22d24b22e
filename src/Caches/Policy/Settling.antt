-- ===== src/Caches/Policy/Settling.antt =====
-- internal/caches/cache_policies.go: requests that are settled for the blocks that they name.
use nodecore.Base.{
  ℕ, ◌≤◌, Bool, true, false, not, ◌&&◌, List, none, some, ◌≡◌, refl, inl, inr, arith, sym, ap, ◌∙◌,
  ltb, Option-cases,
}
use nodecore.Int.{ℤ, pos, negsuc, ◌≤ℤ◌}
use nodecore.Keyed.{load}
use nodecore.Protocol.Block.{Block, is_empty_by_height}
use nodecore.Protocol.State.{BlockType, finalized_block, block_type_dec}
use nodecore.Caches.Policy.{
  BlockTags, is_block_tag_number, to_uint64, MethodParam, block_number_param, block_range_param,
  other_param, FinalizationType, finalized_only, any_finalization, max_ℤ, is_tag, below_block,
  is_finalized, param_cacheable,
}

pub and_true : (a b : Bool) → (a && b) ≡ true → (a ≡ true) × (b ≡ true)
and_true true b h = (refl, h)
and_true false b h = cc

-- The blocks that a request names, when it names the end of its range.
abbrev pub NamesUpTo : MethodParam → Block → Type 0
NamesUpTo (block_number_param n) b = n ≤ℤ pos b.height
NamesUpTo (block_range_param (some from) (some to)) b =
    (from ≤ℤ pos b.height) × (to ≤ℤ pos b.height)
NamesUpTo (block_range_param none (some to)) b = to ≤ℤ pos b.height
NamesUpTo (block_range_param _ none) b = ⊥
NamesUpTo other_param b = Unit

-- No block of the request is a tag.
abbrev pub NamesNoTag : BlockTags → MethodParam → Type 0
NamesNoTag tags (block_number_param n) = is_block_tag_number tags n ≡ false
NamesNoTag tags (block_range_param from to) = (is_tag tags from ≡ false) × (is_tag tags to ≡ false)
NamesNoTag tags other_param = Unit

pub not-true : (b : Bool) → not b ≡ true → b ≡ false
not-true true h = cc
not-true false h = refl

uint64_le : (n : ℤ) (h : ℕ) → to_uint64 n ≤ h → n ≤ℤ pos h
unfolding to_uint64
uint64_le (pos n) h l = omega arith
uint64_le (negsuc n) h l = omega arith

-- A finalized policy finds a known finalized block at or above the block asked.
is_finalized-known :
    (blocks : List (BlockType × Block)) (n : ℤ)
    → is_finalized blocks (some n) ≡ true
    → (b : Block) × (load block_type_dec finalized_block blocks ≡ some b)
      × (is_empty_by_height b ≡ false)
      × (n ≤ℤ pos b.height)
unfolding is_finalized
is_finalized-known blocks n h = elim (Option-cases (load block_type_dec finalized_block blocks)) [
  | inl e ↦ let x : false ≡ true = ap (below_block n) (sym e) ∙ h in cc
  | inr (b, e) ↦
      let x : below_block n (some b) ≡ true = ap (below_block n) (sym e) ∙ h in
      let (full, low) =
        and_true (not (is_empty_by_height b)) (not (ltb b.height (to_uint64 n))) x in
      (b, e, not-true (is_empty_by_height b) full, uint64_le n b.height (ground arith))
]

max_le : (a b : ℤ) (h : ℕ) → max_ℤ a b ≤ℤ pos h → (a ≤ℤ pos h) × (b ≤ℤ pos h)
max_le a b h l = ground arith

-- A request of no tag, all of whose blocks are final if the policy asks for it.
abbrev pub Settled : BlockTags → FinalizationType → List (BlockType × Block) → MethodParam → Type 0
Settled tags any_finalization blocks param = NamesNoTag tags param
Settled tags finalized_only blocks other_param = Unit
Settled tags finalized_only blocks param =
    NamesNoTag tags param
    × (b : Block) × (load block_type_dec finalized_block blocks ≡ some b)
    × (is_empty_by_height b ≡ false)
    × NamesUpTo param b

pub param_cacheable-Settled :
    (tags : BlockTags) (f : FinalizationType) (blocks : List (BlockType × Block))
    (param : MethodParam)
    → param_cacheable tags f blocks param ≡ true
    → Settled tags f blocks param
unfolding param_cacheable
param_cacheable-Settled tags any_finalization blocks (block_number_param n) h =
    not-true (is_block_tag_number tags n) (and_true (not (is_block_tag_number tags n)) true h).0
param_cacheable-Settled tags any_finalization blocks (block_range_param from to) h = ground arith
param_cacheable-Settled tags any_finalization blocks other_param h = tt
param_cacheable-Settled tags finalized_only blocks (block_number_param n) h =
    let (free, known) =
      and_true (not (is_block_tag_number tags n)) (is_finalized blocks (some n)) h in
    let (b, e, full, low) = is_finalized-known blocks n known in
    (not-true (is_block_tag_number tags n) free, b, e, full, low)
param_cacheable-Settled tags finalized_only blocks (block_range_param from none) h =
    let (_, rest) = and_true (not (is_tag tags from) && true) false h in cc
param_cacheable-Settled tags finalized_only blocks (block_range_param none (some to)) h =
    let (free, known) =
      and_true (not (is_block_tag_number tags to)) (is_finalized blocks (some to)) h in
    let (b, e, full, low) = is_finalized-known blocks to known in
    ((refl, not-true (is_block_tag_number tags to) free), b, e, full, low)
param_cacheable-Settled tags finalized_only blocks (block_range_param (some from) (some to)) h =
    let (free, known) =
      and_true (not (is_block_tag_number tags from) && not (is_block_tag_number tags to))
        (is_finalized blocks (some (max_ℤ from to))) h in
    let (free_from, free_to) =
      and_true (not (is_block_tag_number tags from)) (not (is_block_tag_number tags to)) free in
    let (b, e, full, low) = is_finalized-known blocks (max_ℤ from to) known in
    (
      (
        not-true (is_block_tag_number tags from) free_from,
        not-true (is_block_tag_number tags to) free_to,
      ),
      b,
      e,
      full,
      max_le from to b.height low,
    )
param_cacheable-Settled tags finalized_only blocks other_param h = tt
