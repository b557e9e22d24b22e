-- ===== src/Caches/Policy.antt =====
-- internal/caches/cache_policies.go, with IsBlockTagNumber of pkg/methods/method.go: a cache policy over a connector, which is an argument, as are the
-- table of chains and `path.Match`. Texts are bytes.
pub mod Settling
pub mod Stored
mod Tests
use nodecore.Base.{
  ℕ, zero, suc, ◌+◌, ◌-◌, ◌*◌, Bool, true, false, not, ◌&&◌, ◌||◌, ◌==◌, List, [], ◌∷◌, ◌++◌,
  Option, none, some, ◌≡◌, if◌then◌else◌, ite, ltb, length, bytes_dec, ℕ_discrete,
}
use nodecore.Int.{ℤ, pos, negsuc, ltb_ℤ, eqb_ℤ}
use nodecore.Keyed.{load, contains}
use nodecore.Protocol.Block.{Block, is_empty_by_height}
use nodecore.Protocol.State.{BlockType, finalized_block, block_type_dec}

-- The numbers that go-ethereum keeps for block tags.
pub record BlockTags : Type 0 where
  pub safe : ℤ
  pub latest : ℤ
  pub pending : ℤ
  pub finalized : ℤ
  pub earliest : ℤ

unfoldable pub is_block_tag_number : BlockTags → ℤ → Bool
is_block_tag_number tags n =
    eqb_ℤ n tags.safe
    || eqb_ℤ n tags.latest
    || eqb_ℤ n tags.pending
    || eqb_ℤ n tags.finalized
    || eqb_ℤ n tags.earliest

-- `uint64(n)` of an int64.
unfoldable pub to_uint64 : ℤ → ℕ
to_uint64 (pos n) = n
to_uint64 (negsuc n) = 18_446_744_073_709_551_615 - n

-- What the parameters of a request tell of blocks.
pub data MethodParam : Type 0 where
  block_number_param : ℤ → MethodParam
  block_range_param : Option ℤ → Option ℤ → MethodParam
  other_param : MethodParam

-- What a policy reads of a request; a method of the specs is whether it is cacheable.
pub record CacheRequest : Type 0 where
  pub method : List ℕ
  pub spec_method : Option Bool
  pub param : MethodParam
  pub request_hash : List ℕ

pub data FinalizationType : Type 0 where
  finalized_only any_finalization : FinalizationType

-- A set that is nil is none.
pub record CachePolicy : Type 0 where
  pub methods : List (List ℕ)
  pub chains : Option (List (List ℕ))
  pub blockchain_types : Option (List (List ℕ))
  pub cache_empty : Bool
  pub max_size_bytes : ℤ
  pub finalization_type : FinalizationType

-- The connector: whether a store succeeds, and what is received.
pub record CacheConnector (S : Type 0) : Type 0 where
  pub store_object : List ℕ → List ℕ → S → Bool × S
  pub receive_object : List ℕ → S → Option (List ℕ)

-- The rest of the program: the tags, the blocks of the chains that have a supervisor, the type of a
-- chain, and `path.Match`.
pub record Surroundings : Type 0 where
  pub tags : BlockTags
  pub chain_blocks : List ℕ → Option (List (BlockType × Block))
  pub blockchain_type : List ℕ → List ℕ
  pub path_match : List ℕ → List ℕ → Bool

abbrev pub empty_responses : List (List ℕ)
empty_responses =
    (b'"' ∷ b'0' ∷ b'x' ∷ b'"' ∷ [])
    ∷ (b'n' ∷ b'u' ∷ b'l' ∷ b'l' ∷ [])
    ∷ (b'{' ∷ b'}' ∷ [])
    ∷ (b'[' ∷ b']' ∷ [])
    ∷ []

abbrev pub max_ℤ : ℤ → ℤ → ℤ
max_ℤ a b = if ltb_ℤ a b then b else a

abbrev pub is_tag : BlockTags → Option ℤ → Bool
is_tag tags none = false
is_tag tags (some n) = is_block_tag_number tags n

-- The highest block of a range, if it is known.
abbrev pub max_block : Option ℤ → Option ℤ → Option ℤ
max_block (some from) (some to) = some (max_ℤ from to)
max_block none (some to) = some to
max_block _ none = none

-- The finalized block is known and a block is not above it.
abbrev pub below_block : ℤ → Option Block → Bool
below_block n none = false
below_block n (some b) = not (is_empty_by_height b) && not (ltb b.height (to_uint64 n))

unfoldable pub is_finalized : List (BlockType × Block) → Option ℤ → Bool
unfolding to_uint64
is_finalized blocks none = false
is_finalized blocks (some n) = below_block n (load block_type_dec finalized_block blocks)

abbrev pub finalized_if_asked : FinalizationType → List (BlockType × Block) → Option ℤ → Bool
finalized_if_asked any_finalization blocks n = true
finalized_if_asked finalized_only blocks n = is_finalized blocks n

unfoldable pub param_cacheable :
    BlockTags → FinalizationType → List (BlockType × Block) → MethodParam → Bool
unfolding is_block_tag_number is_finalized
param_cacheable tags f blocks (block_number_param n) =
    not (is_block_tag_number tags n) && finalized_if_asked f blocks (some n)
param_cacheable tags f blocks (block_range_param from to) =
    not (is_tag tags from)
    && not (is_tag tags to)
    && finalized_if_asked f blocks (max_block from to)
param_cacheable tags f blocks other_param = true

abbrev pub allowed : Option (List (List ℕ)) → List ℕ → Bool
allowed none x = false
allowed (some []) x = true
allowed (some (y ∷ ys)) x = contains bytes_dec x (y ∷ ys)

module _ (around : Surroundings) (policy : CachePolicy) where
  unfoldable pub is_method_cacheable : List ℕ → CacheRequest → Bool
  unfolding param_cacheable
  is_method_cacheable chain request = elim (around.chain_blocks chain) [
    | none ↦ false
    | some blocks ↦ elim request.spec_method [
      | none ↦ false
      | some cacheable ↦
          cacheable && param_cacheable around.tags policy.finalization_type blocks request.param
    ]
  ]

  abbrev one_matched : List ℕ → List ℕ → Bool
  one_matched pattern method =
      if contains ℕ_discrete b'*' pattern
      then around.path_match pattern method
      else ite (bytes_dec pattern method) true false

  unfoldable pub method_matched : List (List ℕ) → List ℕ → Bool
  method_matched [] method = false
  method_matched (p ∷ ps) method = one_matched p method || method_matched ps method

  abbrev methods_allow : List (List ℕ) → List ℕ → Bool
  methods_allow [] method = true
  methods_allow (p ∷ ps) method = method_matched (p ∷ ps) method

  unfoldable pub base_cacheable_check : List ℕ → CacheRequest → Bool
  unfolding is_method_cacheable method_matched
  base_cacheable_check chain request =
      is_method_cacheable chain request
      && allowed policy.chains chain
      && allowed policy.blockchain_types (around.blockchain_type chain)
      && methods_allow policy.methods request.method

  unfoldable pub response_allowed : List ℕ → Bool
  response_allowed response =
      not (ltb_ℤ policy.max_size_bytes (pos (length response)))
      && (policy.cache_empty || not (contains bytes_dec response empty_responses))

  abbrev pub get_cache_key : List ℕ → List ℕ → List ℕ
  get_cache_key chain request_hash = chain ++ b'_' ∷ request_hash

  module _ {S : Type 0} (connector : CacheConnector S) where
    unfoldable pub store_response : List ℕ → CacheRequest → List ℕ → S → Bool × S
    unfolding base_cacheable_check response_allowed
    store_response chain request response s =
        if base_cacheable_check chain request && response_allowed response
        then connector.store_object (get_cache_key chain request.request_hash) response s
        else (false, s)

    -- What is received, and whether it counts.
    unfoldable pub receive_response : List ℕ → CacheRequest → S → Option (List ℕ) × Bool
    unfolding base_cacheable_check
    receive_response chain request s =
        if base_cacheable_check chain request
        then elim (connector.receive_object (get_cache_key chain request.request_hash) s) [
          | none ↦ (none, false)
          | some object ↦ (some object, ltb 0 (length object))
        ]
        else (none, false)
