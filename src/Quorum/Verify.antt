-- ===== src/Quorum/Verify.antt =====
-- internal/quorum/quorum.go: the verification of a response by the signatures in its headers. SHA-256,
-- the two schemes of signatures and the comparison of texts without case are parameters.
pub mod Signed
pub mod Copies
use nodecore.Base.{
  ℕ, Bool, true, false, not, ◌&&◌, ◌==◌, List, [], ◌∷◌, ◌++◌, Option, none, some, if◌then◌else◌,
  length, bytes_dec,
}
use nodecore.Int.{ℤ, pos, ltb_ℤ}
use nodecore.Keyed.{load}
use nodecore.Quorum.Bytes.{format_uint, hex_encode}
use nodecore.Quorum.Headers.{
  Result, failed, parsed, Signature, Malformed, is_nil, extract_signatures,
}

pub data PublicKey (E R : Type 0) : Type 0 where
  ecdsa_key : E → PublicKey E R
  rsa_key : R → PublicKey E R
  other_key : PublicKey E R

-- What the source calls: `sha256.Sum256`, `ecdsa.VerifyASN1`, `rsa.VerifyPKCS1v15` and
-- `strings.EqualFold`.
pub record Crypto (E R : Type 0) : Type 0 where
  pub sha256 : List ℕ → List ℕ
  pub verify_ecdsa : E → List ℕ → List ℕ → Bool
  pub verify_rsa : R → List ℕ → List ℕ → Bool
  pub equal_fold : List ℕ → List ℕ → Bool

-- The errors with the fields of their types; texts and causes are left out.
pub data VerifyError : Type 0 where
  missing_signatures : VerifyError
  insufficient_signatures : ℕ → ℤ → VerifyError
  unknown_provider : List ℕ → ℕ → VerifyError
  invalid_signature : List ℕ → ℕ → VerifyError
  malformed_header : Malformed → VerifyError
  unexpected_request_id : List ℕ → List ℕ → ℕ → VerifyError

-- "DSHACKLESIG/".
abbrev pub msg_prefix : List ℕ
msg_prefix = b'D' ∷ b'S' ∷ b'H' ∷ b'A' ∷ b'C' ∷ b'K' ∷ b'L' ∷ b'E' ∷ b'S' ∷ b'I' ∷ b'G' ∷ b'/' ∷ []

unfoldable pub wrap_message : {E R : Type 0} → Crypto E R → ℕ → List ℕ → List ℕ → List ℕ
unfolding format_uint
wrap_message crypto nonce source message =
    msg_prefix
    ++ (format_uint nonce ++ (b'/' ∷ (source ++ (b'/' ∷ hex_encode (crypto.sha256 message)))))

unfoldable pub verify_digest : {E R : Type 0} → Crypto E R → PublicKey E R → List ℕ → List ℕ → Bool
verify_digest crypto (ecdsa_key k) digest signature = crypto.verify_ecdsa k digest signature
verify_digest crypto (rsa_key k) digest signature = crypto.verify_rsa k digest signature
verify_digest crypto other_key digest signature = false

-- The keys of a registry by provider.
abbrev pub Keys : Type 0 → Type 0 → Type 0
Keys E R = List (List ℕ × PublicKey E R)

unfoldable pub verify_signature :
    {E R : Type 0} → Crypto E R → Keys E R → Signature → List ℕ → Option VerifyError
unfolding wrap_message verify_digest
verify_signature crypto keys s result = elim (load bytes_dec s.provider_id keys) [
  | none ↦ some (unknown_provider s.provider_id s.index)
  | some key ↦
      if verify_digest crypto key (crypto.sha256 (wrap_message crypto s.nonce s.upstream_id result))
        s.raw
      then none
      else some (invalid_signature s.provider_id s.index)
]

-- The request id and the signature, for each one in turn.
unfoldable pub verify_each :
    {E R : Type 0} → Crypto E R → Keys E R → List ℕ → List ℕ → List Signature → Option VerifyError
unfolding verify_signature
verify_each crypto keys result expected [] = none
verify_each crypto keys result expected (s ∷ ss) =
    let rest = verify_each crypto keys result expected ss in
    if not (is_nil expected) && not (crypto.equal_fold s.request_id expected)
    then some (unexpected_request_id expected s.request_id s.index)
    else elim (verify_signature crypto keys s result) [ none ↦ rest | some e ↦ some e ]

abbrev pub verify_count :
    {E R : Type 0}
    → Crypto E R
    → Keys E R
    → List ℕ
    → List ℕ
    → ℤ
    → Result Malformed (List Signature)
    → Option VerifyError
verify_count crypto keys result expected min_required (failed e) = some (malformed_header e)
verify_count crypto keys result expected min_required (parsed sigs) =
    if length sigs == 0
    then some missing_signatures
    else if ltb_ℤ (pos 0) min_required && ltb_ℤ (pos (length sigs)) min_required
    then some (insufficient_signatures (length sigs) min_required)
    else verify_each crypto keys result expected sigs

-- VerifyHeaders: `none` when nothing is wrong.
unfoldable pub verify_headers :
    {E R : Type 0}
    → Crypto E R
    → Keys E R
    → List (List ℕ × List (List ℕ))
    → List ℕ
    → List ℕ
    → ℤ
    → Option VerifyError
unfolding extract_signatures verify_each
verify_headers crypto keys headers result expected min_required =
    verify_count crypto keys result expected min_required (extract_signatures headers)
