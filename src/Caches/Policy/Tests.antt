-- ===== src/Caches/Policy/Tests.antt =====
-- A policy for finalized data over a map in memory.
use nodecore.Base.{
  ℕ, ◌≡◌, ◌∙◌, refl, true, false, List, [], ◌∷◌, some, length, if_pos, ◌⊎◌, bytes_dec, ℕ_discrete,
}
use nodecore.Int.{ℤ, pos, negsuc, ◌≤ℤ◌}
use nodecore.Keyed.{load, store, contains, load-store}
use nodecore.Protocol.Block.{zero_block, is_empty_by_height}
use nodecore.Protocol.State.{finalized_block, block_type_dec}
use nodecore.Caches.Policy.{
  is_block_tag_number, to_uint64, block_range_param, CacheRequest, finalized_only, CachePolicy,
  CacheConnector, Surroundings, empty_responses, is_finalized, param_cacheable, is_method_cacheable,
  method_matched, base_cacheable_check, response_allowed, store_response, receive_response,
}
use nodecore.Caches.Policy.Stored.{Cacheable, store_response-Cacheable}

program : Unit {0}
unfolding load store contains bytes_dec ℕ_discrete block_type_dec is_empty_by_height
    is_block_tag_number to_uint64 is_finalized param_cacheable is_method_cacheable method_matched
    base_cacheable_check response_allowed store_response receive_response
program = tt

abbrev Memory : Type 0
Memory = List (List ℕ × List ℕ)

abbrev memory : CacheConnector Memory
memory = record {
  store_object = λ k v s. (true, store bytes_dec k v s);
  receive_object = λ k s. load bytes_dec k s;
}

abbrev around : Surroundings
around = record {
  tags = record {
    safe = negsuc 3;
    latest = negsuc 1;
    pending = negsuc 0;
    finalized = negsuc 2;
    earliest = pos 0;
  };
  chain_blocks = λ _. some ((finalized_block, record zero_block { height = 100 }) ∷ []);
  blockchain_type = λ _. b'e' ∷ [];
  path_match = λ _ _. false;
}

abbrev policy : CachePolicy
policy = record {
  methods = [];
  chains = some [];
  blockchain_types = some [];
  cache_empty = false;
  max_size_bytes = pos 4;
  finalization_type = finalized_only;
}

abbrev asking : ℤ → ℤ → CacheRequest
asking from to = record {
  method = b'm' ∷ [];
  spec_method = some true;
  param = block_range_param (some from) (some to);
  request_hash = b'h' ∷ [];
}

abbrev chain : List ℕ
chain = b'c' ∷ []

abbrev response : List ℕ
response = b'o' ∷ b'k' ∷ []

above_finalized :
    (store_response around policy memory chain (asking (pos 90) (pos 101)) response []).0 ≡ false
unfolding program
above_finalized = refl

too_long :
    (store_response around policy memory chain
      (asking (pos 90) (pos 99))
      (b'l' ∷ b'o' ∷ b'n' ∷ b'g' ∷ b'!' ∷ [])
      []).0
    ≡ false
unfolding program
too_long = refl

store_response-Cacheable_example :
    Cacheable around policy chain (asking (pos 90) (pos 99))
    × (pos (length response) ≤ℤ policy.max_size_bytes)
    × ((policy.cache_empty ≡ true) ⊎ (contains bytes_dec response empty_responses ≡ false))
unfolding program
store_response-Cacheable_example =
    store_response-Cacheable around policy memory chain (asking (pos 90) (pos 99)) response [] refl

gives_back :
    (k v : List ℕ) (s : Memory)
    → (memory.store_object k v s).0 ≡ true
    → memory.receive_object k (memory.store_object k v s).1 ≡ some v
gives_back k v s h =
    load-store bytes_dec k k v s ∙ if_pos (bytes_dec k k) refl (some v) (load bytes_dec k s)
