-- ===== src/Quorum/Verify/Signed.antt =====
-- internal/quorum/quorum.go: what a response has that is verified.
use nodecore.Base.{
  ℕ, ◌<◌, Bool, true, false, not, ◌&&◌, ◌==◌, List, [], ◌∷◌, none, some, if◌then◌else◌, length,
  bytes_dec, ◌≡◌, ◌⊎◌, ◌↔◌, refl, sym, ◌∙◌, All, inl, inr, arith, Bool-cases, Option-cases, if_true,
  if_false, subst,
}
use nodecore.Int.{ℤ, pos, negsuc, ltb_ℤ, ◌≤ℤ◌}
use nodecore.Keyed.{load}
use nodecore.Quorum.Headers.{
  Result, failed, parsed, Signature, Malformed, is_nil, extract_signatures, parse_headers,
}
use nodecore.Quorum.Headers.Extracted.{
  count_values, HeaderHolds, Gives, parse_headers-Gives, Gives-parse_headers, sorted-Gives,
  Gives-sorted,
}
use nodecore.Quorum.Verify.{
  Crypto, Keys, PublicKey, missing_signatures, insufficient_signatures, unknown_provider,
  invalid_signature, unexpected_request_id, wrap_message, verify_digest, verify_signature,
  verify_each, verify_count, verify_headers,
}

accepts : (xs : List ℕ) (b : Bool) → (not (is_nil xs) && not b) ≡ false → (xs ≡ []) ⊎ (b ≡ true)
accepts [] b e = inl refl
accepts (x ∷ xs) true e = inr refl
accepts (x ∷ xs) false e = cc

not_zero : (n : ℕ) → (n == 0) ≡ false → 0 < n
not_zero n e = ground (arith, e)

zero_not : (n : ℕ) → 0 < n → (n == 0) ≡ false
zero_not n h = ground (arith, h)

enough_of : (n : ℕ) (m : ℤ) → (ltb_ℤ (pos 0) m && ltb_ℤ (pos n) m) ≡ false → m ≤ℤ pos n
enough_of n (pos m) e = ground (arith, e)
enough_of n (negsuc m) e = omega arith

enough_if : (n : ℕ) (m : ℤ) → m ≤ℤ pos n → (ltb_ℤ (pos 0) m && ltb_ℤ (pos n) m) ≡ false
enough_if n (pos m) h = ground (arith, h)
enough_if n (negsuc m) h = ground arith

accepted : (xs : List ℕ) (b : Bool) → (xs ≡ []) ⊎ (b ≡ true) → (not (is_nil xs) && not b) ≡ false
accepted [] b h = refl
accepted (x ∷ xs) true h = refl
accepted (x ∷ xs) false (inl e) = cc
accepted (x ∷ xs) false (inr e) = cc

module _ {E R : Type 0} (crypto : Crypto E R) (keys : Keys E R) (result expected : List ℕ) where
  -- The provider has a key by which the signature is one of the result, under its nonce and upstream.
  abbrev pub IsGenuine : Signature → Type 0
  IsGenuine s =
      (key : PublicKey E R) × (load bytes_dec s.provider_id keys ≡ some key)
      × (verify_digest crypto key (crypto.sha256 (wrap_message crypto s.nonce s.upstream_id result))
            s.raw
          ≡ true)

  -- It is also one for the expected request id, if any is expected.
  abbrev pub IsSigned : Signature → Type 0
  IsSigned s = ((expected ≡ []) ⊎ (crypto.equal_fold s.request_id expected ≡ true)) × IsGenuine s

  verify_signature-IsGenuine :
      (s : Signature) → verify_signature crypto keys s result ≡ none → IsGenuine s
  unfolding verify_signature
  verify_signature-IsGenuine s e = elim (Option-cases (load bytes_dec s.provider_id keys)) [
    | inl l ↦
        let f : some (unknown_provider s.provider_id s.index) ≡ none =
          rw (verify_signature, l) at e in
        cc
    | inr (key, l) ↦
        let digest = crypto.sha256 (wrap_message crypto s.nonce s.upstream_id result) in
        let f : (if verify_digest crypto key digest s.raw
              then none
              else some (invalid_signature s.provider_id s.index))
            ≡ none =
          rw (verify_signature, l) at e in
        elim (Bool-cases (verify_digest crypto key digest s.raw)) [
          | inl v ↦ (key, l, v)
          | inr v ↦
              let g : some (invalid_signature s.provider_id s.index) ≡ none =
                rw (if_false _ _ v) at f in
              cc
        ]
  ]

  IsGenuine-verify_signature :
      (s : Signature) → IsGenuine s → verify_signature crypto keys s result ≡ none
  unfolding verify_signature
  IsGenuine-verify_signature s (key, l, v) = rw (verify_signature, l, v) refl

  verify_each-IsSigned :
      (ss : List Signature) → verify_each crypto keys result expected ss ≡ none → All IsSigned ss
  unfolding verify_each
  verify_each-IsSigned [] e = tt
  verify_each-IsSigned (s ∷ ss) e =
      elim (Bool-cases (not (is_nil expected) && not (crypto.equal_fold s.request_id expected))) [
        | inl b ↦
            let f : some (unexpected_request_id expected s.request_id s.index) ≡ none =
              rw (if_true _ _ b) at e in
            cc
        | inr b ↦ elim (Option-cases (verify_signature crypto keys s result)) [
          | inl v ↦
              let f : verify_each crypto keys result expected ss ≡ none =
                rw (if_false _ _ b, v) at e in
              ((accepts expected _ b, verify_signature-IsGenuine s v), verify_each-IsSigned ss f)
          | inr (x, v) ↦ let f : some x ≡ none = rw (if_false _ _ b, v) at e in cc
        ]
      ]

  IsSigned-verify_each :
      (ss : List Signature) → All IsSigned ss → verify_each crypto keys result expected ss ≡ none
  unfolding verify_each
  IsSigned-verify_each [] h = refl
  IsSigned-verify_each (s ∷ ss) h =
      rw (verify_each, accepted expected _ h.0.0, IsGenuine-verify_signature s h.0.1)
        (IsSigned-verify_each ss h.1)

  -- The headers have as many signatures as are required, one at least, and each is signed.
  pub record IsVerified (headers : List (List ℕ × List (List ℕ))) (min_required : ℤ) : Type 0 where
    pub some_values : 0 < count_values headers
    pub enough : min_required ≤ℤ pos (count_values headers)
    pub signed : All (HeaderHolds IsSigned) headers

  counted :
      (r : Result Malformed (List Signature)) (min_required : ℤ)
      → verify_count crypto keys result expected min_required r ≡ none
      → (n : ℕ) × Gives IsSigned r n × (0 < n) × (min_required ≤ℤ pos n)
  counted (failed x) min_required e = cc
  counted (parsed ss) min_required e =
      let n = length ss in
      elim (Bool-cases (n == 0)) [
        | inl b ↦ let f : some missing_signatures ≡ none = rw (if_true _ _ b) at e in cc
        | inr b ↦ elim (Bool-cases (ltb_ℤ (pos 0) min_required && ltb_ℤ (pos n) min_required)) [
          | inl c ↦
              let f : some (insufficient_signatures n min_required) ≡ none =
                rw (if_false _ _ b, if_true _ _ c) at e in
              cc
          | inr c ↦
              let f : verify_each crypto keys result expected ss ≡ none =
                rw (if_false _ _ b, if_false _ _ c) at e in
              (n, (refl, verify_each-IsSigned ss f), not_zero n b, enough_of n min_required c)
        ]
      ]

  counts :
      (r : Result Malformed (List Signature)) (min_required : ℤ) (n : ℕ)
      → Gives IsSigned r n
      → 0 < n
      → min_required ≤ℤ pos n
      → verify_count crypto keys result expected min_required r ≡ none
  counts (failed x) min_required n g l m = elim g [ ]
  counts (parsed ss) min_required n g l m =
      let e = enough_if (length ss) min_required (subst (λ n. min_required ≤ℤ pos n) (sym g.0) m) in
      let z = zero_not (length ss) (subst (λ n. 0 < n) (sym g.0) l) in
      if_false _ _ z ∙ if_false _ _ e ∙ IsSigned-verify_each ss g.1

  -- A response is accepted exactly if it has the required number of signatures, counted over all QR
  -- headers, and each of them is parsed, is for the expected request and verifies.
  pub verify_headers-IsVerified :
      (headers : List (List ℕ × List (List ℕ))) (min_required : ℤ)
      → (verify_headers crypto keys headers result expected min_required ≡ none)
        ↔ IsVerified headers min_required
  unfolding verify_headers extract_signatures
  verify_headers-IsVerified headers min_required = (
    λ e.
        let c = counted (extract_signatures headers) min_required e in
        let g =
          Gives-parse_headers IsSigned headers c.0
            (Gives-sorted IsSigned (parse_headers headers) c.0 c.1) in
        record {
          some_values = subst (λ n. 0 < n) g.0 c.2;
          enough = subst (λ n. min_required ≤ℤ pos n) g.0 c.3;
          signed = g.1;
        },
    λ h.
        counts (extract_signatures headers) min_required (count_values headers)
          (sorted-Gives IsSigned (parse_headers headers) (count_values headers)
            (parse_headers-Gives IsSigned headers h.signed))
          h.some_values h.enough,
  )
