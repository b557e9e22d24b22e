-- ===== src/Quorum/Tests.antt =====
-- A provider whose signatures are the last byte of the nonce text and a node that repeats one.
use nodecore.Base.{
  All, ℕ, true, false, ◌==◌, List, [], ◌∷◌, none, some, ◌≡◌, refl, length, bytes_dec, ℕ_discrete,
  ite, arith, string_dec, stable_sort, insert,
}
use nodecore.Int.{pos}
use nodecore.Keyed.{load, store}
use nodecore.Quorum.Bytes.{
  strip, trim_prefix, cut, cut_last, strip_last, read_digits, read_number, parse_uint, print_number,
  format_uint, hex_value, hex_decode,
}
use nodecore.Quorum.Headers.{
  parsed, Signature, digits, strip_fold, has_newline, match_name, split_prefix, parse_header_value,
  parse_value, parse_values, parse_header, parse_headers, extract_signatures,
}
use nodecore.Quorum.Headers.Printed.{print_prefix, print_value, parse_value-print_value}
use nodecore.Quorum.Verify.{
  ecdsa_key, Crypto, Keys, wrap_message, verify_digest, verify_signature, verify_each,
  verify_headers,
}
use nodecore.Quorum.Verify.Signed.{IsVerified, verify_headers-IsVerified}
use nodecore.Quorum.Verify.Copies.{verify_headers-copies}
use nodecore.Quorum.Params.{
  query_values, params_from_query, params_from_query-query_values, atoi, itoa,
}
use nodecore.Quorum.Keys.{
  KeyReader, KeyEntry, parse_public_key, load_registry, IsRead, load_registry-IsRead,
}

program : Unit {0}
unfolding load store string_dec bytes_dec ℕ_discrete insert stable_sort strip trim_prefix cut
    cut_last strip_last read_digits read_number parse_uint print_number format_uint hex_value
    hex_decode digits strip_fold has_newline match_name split_prefix parse_header_value parse_value
    parse_values parse_header parse_headers extract_signatures print_prefix print_value wrap_message
    verify_digest verify_signature verify_each verify_headers query_values atoi itoa
    parse_public_key load_registry
program = tt

abbrev head_of : List ℕ → List ℕ
head_of [] = []
head_of (x ∷ xs) = x ∷ []

-- A signature is the key; nothing is hashed.
abbrev toy : Crypto (List ℕ) (List ℕ)
toy = record {
  sha256 = head_of;
  verify_ecdsa = λ key digest signature. ite (bytes_dec key signature) true false;
  verify_rsa = λ key digest signature. false;
  equal_fold = λ a b. ite (bytes_dec a b) true false;
}

abbrev p : List ℕ
p = b'p' ∷ []

abbrev registry : Keys (List ℕ) (List ℕ)
registry = (p, ecdsa_key (171 ∷ 5 ∷ [])) ∷ []

-- "Qr0-Id-7" and "p(u)_nonce_12_sig_0xAb05".
abbrev name : List ℕ
name = b'Q' ∷ b'r' ∷ b'0' ∷ b'-' ∷ b'I' ∷ b'd' ∷ b'-' ∷ b'7' ∷ []

abbrev signed : Signature
signed = record {
  index = 0;
  request_id = b'7' ∷ [];
  provider_id = p;
  upstream_id = b'u' ∷ [];
  nonce = 12;
  raw = 171 ∷ 5 ∷ [];
}

abbrev value : List ℕ
value = print_value signed

is_extracted : extract_signatures ((name, value ∷ []) ∷ []) ≡ parsed (signed ∷ [])
unfolding program
is_extracted = refl

one_accepted :
    verify_headers toy registry ((name, value ∷ []) ∷ []) (b'1' ∷ []) (b'7' ∷ []) (pos 1) ≡ none
unfolding program
one_accepted = refl

parse_value-print_value_example : parse_value 0 (b'7' ∷ []) (print_value signed) ≡ parsed signed
parse_value-print_value_example = parse_value-print_value signed (record {
  provider_ne = ((λ e. omega (arith, e)), tt);
  upstream_ne = ((λ e. omega (arith, e)), tt);
  upstream_open = ((λ e. omega (arith, e)), tt);
  provider_some = refl;
  upstream_some = refl;
  raw_some = refl;
  raw_bytes = (omega arith, (omega arith, tt));
  nonce_bits = omega arith;
})

verify_headers-IsVerified_example :
    IsVerified toy registry (b'1' ∷ []) (b'7' ∷ []) ((name, value ∷ []) ∷ []) (pos 1)
unfolding program
verify_headers-IsVerified_example =
    (verify_headers-IsVerified toy registry (b'1' ∷ []) (b'7' ∷ []) ((name, value ∷ []) ∷ [])
        (pos 1)).0
      refl

verify_headers-copies_example :
    verify_headers toy registry
      ((name, value ∷ value ∷ value ∷ []) ∷ [])
      (b'1' ∷ [])
      (b'7' ∷ [])
      (pos 3)
    ≡ none
unfolding program
verify_headers-copies_example =
    verify_headers-copies toy registry (b'1' ∷ []) (b'7' ∷ []) name value 2 refl

params_from_query-query_values_example :
    params_from_query (query_values (record { quorum = pos 2; quorum_of = pos 3 }))
    ≡ record { quorum = pos 2; quorum_of = pos 3 }
params_from_query-query_values_example = params_from_query-query_values 2 3 refl (omega arith)

-- A key is its own text; nothing is blank but nothing.
abbrev reader : KeyReader (List ℕ) (List ℕ)
reader = record { is_blank = λ id. length id == 0; decode = λ text. some (ecdsa_key text) }

abbrev entries : List KeyEntry
entries =
    record { provider_id = p; public_key = 65 ∷ 32 ∷ 66 ∷ [] }
    ∷ record { provider_id = b'q' ∷ []; public_key = 67 ∷ [] }
    ∷ []

abbrev loaded : Keys (List ℕ) (List ℕ)
loaded = (p, ecdsa_key (65 ∷ 66 ∷ [])) ∷ (b'q' ∷ [], ecdsa_key (67 ∷ [])) ∷ []

load_registry-IsRead_example : All (IsRead reader loaded) entries
unfolding program
load_registry-IsRead_example = load_registry-IsRead reader entries loaded refl
