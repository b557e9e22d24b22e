-- ===== src/Quorum/Verify/Copies.antt =====
-- internal/quorum/quorum.go: what counts as several signatures.
use nodecore.Base.{
  zero, ℕ, suc, ◌<◌, List, [], ◌∷◌, none, length, replicate, ◌≡◌, refl, All-replicate, Option-cases,
  inl, inr, arith, ap,
}
use nodecore.Int.{pos}
use nodecore.Quorum.Headers.{match_name}
use nodecore.Quorum.Headers.Extracted.{count_values, HeaderHolds}
use nodecore.Quorum.Verify.{Crypto, Keys, verify_headers}
use nodecore.Quorum.Verify.Signed.{IsSigned, verify_headers-IsVerified}

length-replicate : {A : Type 0} (n : ℕ) (a : A) → length (replicate n a) ≡ n
length-replicate zero a = refl
length-replicate (suc n) a = ap suc (length-replicate n a)

-- As many values as there are, under a name that counted one value.
count_copies :
    (name value : List ℕ) (n : ℕ)
    → 0 < count_values ((name, value ∷ []) ∷ [])
    → count_values ((name, replicate n value) ∷ []) ≡ n
unfolding match_name
count_copies name value n h = elim (Option-cases (match_name name)) [
  | inl e ↦ let f : 0 < 0 = rw e at h in absurd (omega (arith, f))
  | inr (m, e) ↦ rw e (omega (arith, length-replicate n value))
]

module _ {E R : Type 0} (crypto : Crypto E R) (keys : Keys E R)
    (result expected name value : List ℕ) where
  copies_hold :
      (n : ℕ)
      → HeaderHolds (IsSigned crypto keys result expected) (name, value ∷ [])
      → HeaderHolds (IsSigned crypto keys result expected) (name, replicate n value)
  copies_hold n h m e = let i = h m e in (i.0, i.1, All-replicate _ n value i.2.0)

  -- A header with one value that is accepted where one signature is required is accepted with that
  -- value repeated where as many are required: a provider that repeats one signature is a quorum.
  pub verify_headers-copies :
      (n : ℕ)
      → verify_headers crypto keys ((name, value ∷ []) ∷ []) result expected (pos 1) ≡ none
      → verify_headers crypto keys
          ((name, replicate (suc n) value) ∷ [])
          result
          expected
          (pos (suc n))
        ≡ none
  verify_headers-copies n e =
      let h =
        (verify_headers-IsVerified crypto keys result expected ((name, value ∷ []) ∷ []) (pos 1)).0
          e in
      let c = count_copies name value (suc n) h.some_values in
      (verify_headers-IsVerified crypto keys result expected ((name, replicate (suc n) value) ∷ [])
          (pos (suc n))).1
        (record {
          some_values = omega (arith, c);
          enough = omega (arith, c);
          signed = (copies_hold (suc n) h.signed.0, tt);
        })
