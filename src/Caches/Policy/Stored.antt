-- ===== src/Caches/Policy/Stored.antt =====
-- internal/caches/cache_policies.go: what a policy stores, and that it gives it back.
use nodecore.Base.{
  ℕ, ◌<◌, true, false, not, ◌&&◌, ◌||◌, List, some, ◌≡◌, refl, ◌⊎◌, inl, inr, arith, ap, ◌∙◌, ltb,
  length, bytes_dec, Option-cases, Bool-cases,
}
use nodecore.Int.{pos, ltb_ℤ, ◌≤ℤ◌}
use nodecore.Keyed.{contains}
use nodecore.Protocol.Block.{Block}
use nodecore.Protocol.State.{BlockType}
use nodecore.Caches.Policy.{
  CacheRequest, CachePolicy, CacheConnector, Surroundings, empty_responses, param_cacheable,
  allowed, is_method_cacheable, methods_allow, base_cacheable_check, response_allowed,
  get_cache_key, store_response, receive_response,
}
use nodecore.Caches.Policy.Settling.{Settled, and_true, param_cacheable-Settled}

module _ (around : Surroundings) (policy : CachePolicy) where
  -- What is cached of a request on a chain: the chain has a supervisor, the method is cacheable, and
  -- the request is settled for its blocks.
  abbrev pub Cacheable : List ℕ → CacheRequest → Type 0
  Cacheable chain request =
      (blocks : List (BlockType × Block)) × (around.chain_blocks chain ≡ some blocks)
      × (request.spec_method ≡ some true)
      × Settled around.tags policy.finalization_type blocks request.param

  is_method_cacheable-Cacheable :
      (chain : List ℕ) (request : CacheRequest)
      → is_method_cacheable around policy chain request ≡ true
      → Cacheable chain request
  unfolding is_method_cacheable
  is_method_cacheable-Cacheable chain request h = elim (Option-cases (around.chain_blocks chain)) [
    | inl e ↦ let x : false ≡ true = rw (is_method_cacheable, e) at h in cc
    | inr (blocks, e) ↦ elim (Option-cases request.spec_method) [
      | inl m ↦ let x : false ≡ true = rw (is_method_cacheable, e, m) at h in cc
      | inr (c, m) ↦
          let f = policy.finalization_type in
          let x : (c && param_cacheable around.tags f blocks request.param) ≡ true =
            rw (is_method_cacheable, e, m) at h in
          let (yes_c, p) = and_true c (param_cacheable around.tags f blocks request.param) x in
          (
            blocks,
            e,
            m ∙ ap (λ b. some b) yes_c,
            param_cacheable-Settled around.tags f blocks request.param p,
          )
    ]
  ]

  module _ {S : Type 0} (connector : CacheConnector S) where
    store_checked :
        (chain : List ℕ) (request : CacheRequest) (response : List ℕ) (s : S)
        → (store_response around policy connector chain request response s).0 ≡ true
        → (base_cacheable_check around policy chain request
            && response_allowed around policy response)
          ≡ true
    unfolding store_response
    store_checked chain request response s h =
        elim (Bool-cases (
          base_cacheable_check around policy chain request
          && response_allowed around policy response)) [
            | inl e ↦ e
            | inr e ↦ let x : false ≡ true = rw (store_response, e) at h in cc
          ]

    -- When a policy stores a response, whatever its connector does, the chain has a supervisor, the
    -- method is cacheable, the request names no block tag, the response is not longer than the policy
    -- allows, and, if the policy stores no empty responses, it is none; if the policy is for finalized
    -- data and the request names blocks, it names the last of them, the chain has a finalized block,
    -- and no block that it names is above that.
    pub store_response-Cacheable :
        (chain : List ℕ) (request : CacheRequest) (response : List ℕ) (s : S)
        → (store_response around policy connector chain request response s).0 ≡ true
        → Cacheable chain request
          × (pos (length response) ≤ℤ policy.max_size_bytes)
          × ((policy.cache_empty ≡ true) ⊎ (contains bytes_dec response empty_responses ≡ false))
    unfolding base_cacheable_check response_allowed
    store_response-Cacheable chain request response s h =
        let (base, size) =
          and_true (base_cacheable_check around policy chain request)
            (response_allowed around policy response) (store_checked chain request response s h) in
        let m = is_method_cacheable around policy chain request in
        let c = allowed policy.chains chain in
        let t = allowed policy.blockchain_types (around.blockchain_type chain) in
        let (typed, _) =
          and_true (m && c && t) (methods_allow around policy policy.methods request.method) base in
        let (cacheable, _) = and_true m c (and_true (m && c) t typed).0 in
        let (fits, filled) =
          and_true (not (ltb_ℤ policy.max_size_bytes (pos (length response))))
            (policy.cache_empty || not (contains bytes_dec response empty_responses)) size in
        (
          is_method_cacheable-Cacheable chain request cacheable,
          ground arith,
          elim (Bool-cases policy.cache_empty) [ inl e ↦ inl e | inr e ↦ inr (ground arith) ],
        )

    -- With a connector that gives back what it has just stored, a policy that stores a response that
    -- is not empty then answers the same request with it.
    pub receive-store_response :
        (given_back : (k v : List ℕ) (s : S)
          → (connector.store_object k v s).0 ≡ true
          → connector.receive_object k (connector.store_object k v s).1 ≡ some v)
        (chain : List ℕ) (request : CacheRequest) (response : List ℕ) (s : S)
        → (store_response around policy connector chain request response s).0 ≡ true
        → 0 < length response
        → receive_response around policy connector chain request
            (store_response around policy connector chain request response s).1
          ≡ (some response, true)
    unfolding store_response receive_response
    receive-store_response given_back chain request response s h l =
        let key = get_cache_key around policy chain request.request_hash in
        let e = store_checked chain request response s h in
        let (base, size) =
          and_true (base_cacheable_check around policy chain request)
            (response_allowed around policy response) e in
        let stored : (connector.store_object key response s).0 ≡ true =
          rw (store_response, e) at h in
        let back = given_back key response s stored in
        let positive : ltb 0 (length response) ≡ true = ground arith in
        rw (store_response, e, receive_response, base, back, positive) refl
