-- ===== src/Quorum/Headers/Printed.antt =====
-- internal/quorum/quorum.go: a header value of the documented form is parsed to its parts.
use nodecore.Base.{
  ℕ, ◌%◌, ◌^◌, ◌<◌, false, List, [], ◌∷◌, ◌++◌, some, ◌≡◌, ◌≢◌, refl, ◌∙◌, ap, All, arith,
  All-append, if_false,
}
use nodecore.Quorum.Bytes.{strip, trim_prefix, format_uint, hex_digit, hex_encode}
use nodecore.Quorum.Bytes.RoundTrips.{
  cut-append, cut_last-append, strip_last-append, hex_decode-encode, parse_uint-format_uint,
  format_uint-ne,
}
use nodecore.Quorum.Headers.{
  parsed, header_value_nonce_sep, header_value_sig_sep, Signature, is_nil, split_prefix, sig_digits,
  nonce_and_sig, after_nonce, after_nonce_sep, parse_header_value, with_ids, with_prefix,
  parse_value,
}

-- `<provider>(<upstream>)` and `<prefix>_nonce_<nonce>_sig_<hex>`.
unfoldable pub print_prefix : List ℕ → List ℕ → List ℕ
print_prefix provider_id upstream_id = (provider_id ++ (b'(' ∷ upstream_id)) ++ b')' ∷ []

unfoldable pub print_value : Signature → List ℕ
unfolding print_prefix
print_value s =
    print_prefix s.provider_id s.upstream_id
    ++ (header_value_nonce_sep
        ++ (format_uint s.nonce ++ (header_value_sig_sep ++ hex_encode s.raw)))

-- The ids do not hold the bytes that separate the parts, a nonce has 64 bits, and nothing is empty.
pub record IsPrintable (s : Signature) : Type 0 where
  pub provider_ne : All (λ c. c ≢ b'_') s.provider_id
  pub upstream_ne : All (λ c. c ≢ b'_') s.upstream_id
  pub upstream_open : All (λ c. c ≢ b'(') s.upstream_id
  pub provider_some : is_nil s.provider_id ≡ false
  pub upstream_some : is_nil s.upstream_id ≡ false
  pub raw_some : is_nil s.raw ≡ false
  pub raw_bytes : All (λ b. b < 256) s.raw
  pub nonce_bits : s.nonce < 2 ^ 64

split-print_prefix :
    (p u : List ℕ)
    → All (λ c. c ≢ b'(') u
    → is_nil p ≡ false
    → is_nil u ≡ false
    → split_prefix (print_prefix p u) ≡ parsed (p, u)
unfolding split_prefix print_prefix
split-print_prefix p u n e f =
    rw (split_prefix, strip_last-append b')' (p ++ (b'(' ∷ u)), cut_last-append b'(' p u n, e, f)
      refl

not_x : (n : ℕ) → n < 16 → hex_digit n ≢ b'x'
not_x n h e = ground (arith, h, e)

not_X : (n : ℕ) → n < 16 → hex_digit n ≢ b'X'
not_X n h e = ground (arith, h, e)

-- A printed signature has no prefix of its own.
sig_digits-hex_encode :
    (bs : List ℕ) → All (λ b. b < 256) bs → sig_digits (hex_encode bs) ≡ hex_encode bs
unfolding trim_prefix strip
sig_digits-hex_encode [] h = refl
sig_digits-hex_encode (b ∷ bs) h =
    ground (arith, not_x (b % 16) (omega arith), not_X (b % 16) (omega arith))

is_nil-hex_encode : (bs : List ℕ) → is_nil (hex_encode bs) ≡ is_nil bs
is_nil-hex_encode [] = refl
is_nil-hex_encode (b ∷ bs) = refl

decoded-hex_encode :
    (prefix : List ℕ) (nonce : ℕ) (bs : List ℕ)
    → All (λ b. b < 256) bs
    → is_nil bs ≡ false
    → nonce_and_sig prefix (hex_encode bs) (some nonce) ≡ parsed (prefix, nonce, bs)
decoded-hex_encode prefix nonce bs h e =
    rw (sig_digits-hex_encode bs h, hex_decode-encode bs h, is_nil-hex_encode bs, e) refl

is_nil-append : (xs ys : List ℕ) (y : ℕ) → is_nil (xs ++ y ∷ ys) ≡ false
is_nil-append [] ys y = refl
is_nil-append (x ∷ xs) ys y = refl

print_prefix-ne :
    (s : Signature) → IsPrintable s → All (λ c. c ≢ b'_') (print_prefix s.provider_id s.upstream_id)
unfolding print_prefix
print_prefix-ne s h =
    All-append _ (s.provider_id ++ (b'(' ∷ s.upstream_id)) (b')' ∷ [])
      (All-append _ s.provider_id (b'(' ∷ s.upstream_id) h.provider_ne
        ((λ e. omega (arith, e)), h.upstream_ne))
      ((λ e. omega (arith, e)), tt)

-- The separators after their first byte.
abbrev nonce_tail : List ℕ
nonce_tail = b'n' ∷ b'o' ∷ b'n' ∷ b'c' ∷ b'e' ∷ b'_' ∷ []

abbrev sig_tail : List ℕ
sig_tail = b's' ∷ b'i' ∷ b'g' ∷ b'_' ∷ []

parse_header_value-print_value :
    (s : Signature)
    → IsPrintable s
    → parse_header_value (print_value s)
      ≡ parsed (print_prefix s.provider_id s.upstream_id, s.nonce, s.raw)
unfolding parse_header_value print_value
parse_header_value-print_value s h =
    let prefix = print_prefix s.provider_id s.upstream_id in
    let hex = hex_encode s.raw in
    let nonce = format_uint s.nonce in
    ap after_nonce_sep (
      cut-append b'_' nonce_tail prefix (nonce ++ (header_value_sig_sep ++ hex))
        (print_prefix-ne s h))
    ∙ if_false _ _ (is_nil-append (s.provider_id ++ (b'(' ∷ s.upstream_id)) [] b')')
    ∙ ap (after_nonce prefix) (cut-append b'_' sig_tail nonce hex (format_uint-ne s.nonce))
    ∙ ap (nonce_and_sig prefix hex) (parse_uint-format_uint s.nonce h.nonce_bits)
    ∙ decoded-hex_encode prefix s.nonce s.raw h.raw_bytes h.raw_some

-- A value that is printed from the parts of a signature is parsed to them.
pub parse_value-print_value :
    (s : Signature) → IsPrintable s → parse_value s.index s.request_id (print_value s) ≡ parsed s
unfolding parse_value
parse_value-print_value s h =
    ap (with_prefix s.index s.request_id) (parse_header_value-print_value s h)
    ∙ ap (with_ids s.index s.request_id s.nonce s.raw) (
        split-print_prefix s.provider_id s.upstream_id h.upstream_open h.provider_some
          h.upstream_some)
