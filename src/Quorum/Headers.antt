-- ===== src/Quorum/Headers.antt =====
-- internal/quorum/quorum.go: the signatures in the headers of a response. Texts are bytes, and the texts
-- of errors are left out.
pub mod Printed
pub mod Sorted
pub mod Extracted
use nodecore.Base.{
  ℕ, ◌+◌, ◌^◌, Bool, true, false, ◌&&◌, ◌||◌, ◌==◌, ltb, leb, List, [], ◌∷◌, ◌++◌, Option, none,
  some, if◌then◌else◌, stable_sort,
}
use nodecore.Quorum.Bytes.{
  trim_prefix, cut, cut_last, strip_last, is_digit, read_number, within, parse_uint, hex_decode,
}

-- A value or an error.
pub data Result (E A : Type 0) : Type 0 where
  failed : E → Result E A
  parsed : A → Result E A

abbrev pub header_value_nonce_sep : List ℕ
header_value_nonce_sep = b'_' ∷ b'n' ∷ b'o' ∷ b'n' ∷ b'c' ∷ b'e' ∷ b'_' ∷ []

abbrev pub header_value_sig_sep : List ℕ
header_value_sig_sep = b'_' ∷ b's' ∷ b'i' ∷ b'g' ∷ b'_' ∷ []

pub record Signature : Type 0 where
  pub index : ℕ
  pub request_id : List ℕ
  pub provider_id : List ℕ
  pub upstream_id : List ℕ
  pub nonce : ℕ
  pub raw : List ℕ

-- Why a header is malformed.
pub data Malformed : Type 0 where
  bad_index no_nonce empty_prefix no_sig invalid_nonce empty_signature invalid_hex no_closing
        no_opening empty_provider empty_upstream :
      Malformed

abbrev pub is_nil : List ℕ → Bool
is_nil [] = true
is_nil (x ∷ xs) = false

-- `QR(\d+)-id-(.+)` in any case: the digits and the request id.
abbrev pub lower : ℕ → ℕ
lower c = if leb 65 c && leb c 90 then c + 32 else c

abbrev pub lowered : List ℕ → List ℕ
lowered [] = []
lowered (c ∷ cs) = lower c ∷ lowered cs

-- The digits at the front, and the rest.
unfoldable pub digits : List ℕ → List ℕ × List ℕ
digits [] = ([], [])
digits (c ∷ cs) = let rest = digits cs in if is_digit c then (c ∷ rest.0, rest.1) else ([], c ∷ cs)

-- The first bytes, as many as the prefix has, are those of the prefix in any case: the rest.
unfoldable pub strip_fold : List ℕ → List ℕ → Option (List ℕ)
strip_fold [] xs = some xs
strip_fold (p ∷ ps) [] = none
strip_fold (p ∷ ps) (x ∷ xs) = let rest = strip_fold ps xs in if p == lower x then rest else none

unfoldable pub has_newline : List ℕ → Bool
has_newline [] = false
has_newline (c ∷ cs) = c == 10 || has_newline cs

abbrev qr : List ℕ
qr = b'q' ∷ b'r' ∷ []

abbrev id_sep : List ℕ
id_sep = b'-' ∷ b'i' ∷ b'd' ∷ b'-' ∷ []

abbrev pub id_of : List ℕ → Option (List ℕ) → Option (List ℕ × List ℕ)
id_of ds none = none
id_of ds (some reqid) =
    if is_nil ds || is_nil reqid || has_newline reqid then none else some (ds, reqid)

unfoldable pub match_name : List ℕ → Option (List ℕ × List ℕ)
unfolding digits strip_fold has_newline
match_name name = elim (strip_fold qr name) [
  | none ↦ none
  | some rest ↦ id_of (digits rest).0 (strip_fold id_sep (digits rest).1)
]

-- splitPrefix: the provider and the upstream of "<provider>(<upstream>)".
abbrev pub checked_prefix : Option (List ℕ × List ℕ) → Result Malformed (List ℕ × List ℕ)
checked_prefix none = failed no_opening
checked_prefix (some (provider_id, upstream_id)) =
    if is_nil provider_id
    then failed empty_provider
    else if is_nil upstream_id
    then failed empty_upstream
    else parsed (provider_id, upstream_id)

unfoldable pub split_prefix : List ℕ → Result Malformed (List ℕ × List ℕ)
unfolding strip_last cut_last
split_prefix prefix = elim (strip_last b')' prefix) [
  | none ↦ failed no_closing
  | some inner ↦ checked_prefix (cut_last b'(' inner)
]

-- The signature behind an optional "0x" and "0X".
abbrev pub sig_digits : List ℕ → List ℕ
sig_digits sig_hex = trim_prefix (b'0' ∷ b'X' ∷ []) (trim_prefix (b'0' ∷ b'x' ∷ []) sig_hex)

abbrev pub decoded_sig :
    List ℕ → ℕ → List ℕ → Option (List ℕ) → Result Malformed (List ℕ × ℕ × List ℕ)
decoded_sig prefix nonce cs none = failed (if is_nil cs then empty_signature else invalid_hex)
decoded_sig prefix nonce cs (some sig) =
    if is_nil cs then failed empty_signature else parsed (prefix, nonce, sig)

abbrev pub nonce_and_sig : List ℕ → List ℕ → Option ℕ → Result Malformed (List ℕ × ℕ × List ℕ)
nonce_and_sig prefix sig_hex none = failed invalid_nonce
nonce_and_sig prefix sig_hex (some nonce) =
    decoded_sig prefix nonce (sig_digits sig_hex) (hex_decode (sig_digits sig_hex))

abbrev pub after_nonce : List ℕ → Option (List ℕ × List ℕ) → Result Malformed (List ℕ × ℕ × List ℕ)
after_nonce prefix none = failed no_sig
after_nonce prefix (some (nonce_str, sig_hex)) = nonce_and_sig prefix sig_hex (parse_uint nonce_str)

abbrev pub after_nonce_sep : Option (List ℕ × List ℕ) → Result Malformed (List ℕ × ℕ × List ℕ)
after_nonce_sep none = failed no_nonce
after_nonce_sep (some (prefix, rest)) =
    if is_nil prefix
    then failed empty_prefix
    else after_nonce prefix (cut header_value_sig_sep rest)

unfoldable pub parse_header_value : List ℕ → Result Malformed (List ℕ × ℕ × List ℕ)
unfolding cut
parse_header_value value = after_nonce_sep (cut header_value_nonce_sep value)

-- One value of a header with an index and a request id.
abbrev pub with_ids :
    ℕ → List ℕ → ℕ → List ℕ → Result Malformed (List ℕ × List ℕ) → Result Malformed Signature
with_ids index request_id nonce raw (failed e) = failed e
with_ids index request_id nonce raw (parsed (provider_id, upstream_id)) = parsed (record {
  index = index;
  request_id = request_id;
  provider_id = provider_id;
  upstream_id = upstream_id;
  nonce = nonce;
  raw = raw;
})

abbrev pub with_prefix :
    ℕ → List ℕ → Result Malformed (List ℕ × ℕ × List ℕ) → Result Malformed Signature
with_prefix index request_id (failed e) = failed e
with_prefix index request_id (parsed (prefix, nonce, raw)) =
    with_ids index request_id nonce raw (split_prefix prefix)

unfoldable pub parse_value : ℕ → List ℕ → List ℕ → Result Malformed Signature
unfolding parse_header_value split_prefix
parse_value index request_id value = with_prefix index request_id (parse_header_value value)

abbrev pub and_more :
    Result Malformed Signature
    → Result Malformed (List Signature)
    → Result Malformed (List Signature)
and_more (failed e) rest = failed e
and_more (parsed s) (failed e) = failed e
and_more (parsed s) (parsed ss) = parsed (s ∷ ss)

unfoldable pub parse_values : ℕ → List ℕ → List (List ℕ) → Result Malformed (List Signature)
unfolding parse_value
parse_values index request_id [] = parsed []
parse_values index request_id (v ∷ vs) =
    and_more (parse_value index request_id v) (parse_values index request_id vs)

-- The signatures of one header; `strconv.Atoi` reads an index that fits an int.
abbrev pub parse_indexed : Option ℕ → List ℕ → List (List ℕ) → Result Malformed (List Signature)
parse_indexed none request_id values = failed bad_index
parse_indexed (some index) request_id values = parse_values index request_id values

unfoldable pub parse_header : List ℕ × List (List ℕ) → Result Malformed (List Signature)
unfolding match_name parse_values
parse_header (name, values) = elim (match_name name) [
  | none ↦ parsed []
  | some (ds, request_id) ↦ parse_indexed (within (2 ^ 63) (read_number ds)) request_id values
]

abbrev pub joined :
    Result Malformed (List Signature)
    → Result Malformed (List Signature)
    → Result Malformed (List Signature)
joined (failed e) rest = failed e
joined (parsed ss) (failed e) = failed e
joined (parsed ss) (parsed ts) = parsed (ss ++ ts)

unfoldable pub parse_headers : List (List ℕ × List (List ℕ)) → Result Malformed (List Signature)
unfolding parse_header
parse_headers [] = parsed []
parse_headers (h ∷ hs) = joined (parse_header h) (parse_headers hs)

abbrev pub sorted : Result Malformed (List Signature) → Result Malformed (List Signature)
sorted (failed e) = failed e
sorted (parsed ss) = parsed (stable_sort (λ s t. ltb s.index t.index) ss)

-- ExtractSignatures. The order of equal indexes is left open by the source; here it is that of the list.
unfoldable pub extract_signatures :
    List (List ℕ × List (List ℕ)) → Result Malformed (List Signature)
unfolding parse_headers
extract_signatures headers = sorted (parse_headers headers)
