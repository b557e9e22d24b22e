-- ===== src/Quorum/Params.antt =====
-- internal/quorum/context.go: the settings of a quorum request. A context is the settings that it
-- carries, if any; a query is the values of its keys, before they are escaped and after.
use nodecore.Base.{
  ℕ, suc, ◌+◌, ◌-◌, ◌<◌, ◌^◌, Bool, true, ◌&&◌, ◌==◌, String, List, [], ◌∷◌, Option, none, some,
  if◌then◌else◌, string_dec, ◌≡◌, refl, ◌∙◌, ap, arith, if_true,
}
use nodecore.Int.{ℤ, pos, negsuc, ltb_ℤ, leb_ℤ}
use nodecore.Keyed.{load}
use nodecore.Quorum.Bytes.{read_number, within, format_uint}
use nodecore.Quorum.Bytes.RoundTrips.{
  AreDigits, format_uint-AreDigits, read_number-format_uint, within_limit,
}

-- `strconv.Atoi` on 64 bits: a sign is optional.
abbrev pub int_of : Option ℕ → Option ℤ
int_of none = none
int_of (some n) = some (pos n)

abbrev pub opposite : Option ℕ → Option ℤ
opposite none = none
opposite (some n) = some (if n == 0 then pos 0 else negsuc (n - 1))

unfoldable pub atoi : List ℕ → Option ℤ
unfolding read_number
atoi [] = none
atoi (c ∷ cs) =
    if c == b'-'
    then opposite (within (2 ^ 63 + 1) (read_number cs))
    else if c == b'+'
    then int_of (within (2 ^ 63) (read_number cs))
    else int_of (within (2 ^ 63) (read_number (c ∷ cs)))

-- `strconv.Itoa`.
unfoldable pub itoa : ℤ → List ℕ
unfolding format_uint
itoa (pos n) = format_uint n
itoa (negsuc n) = b'-' ∷ format_uint (suc n)

pub record Params : Type 0 where
  pub quorum : ℤ
  pub quorum_of : ℤ

abbrev pub requested : Params → Bool
requested p = ltb_ℤ (pos 0) p.quorum && ltb_ℤ (pos 0) p.quorum_of && leb_ℤ p.quorum p.quorum_of

-- The values that EncodeQuery encodes, if any.
unfoldable pub query_values : Params → List (String × List (List ℕ))
unfolding itoa
query_values p =
    if requested p
    then ("quorum", itoa p.quorum_of ∷ []) ∷ ("quorum_required", itoa p.quorum ∷ []) ∷ []
    else []

-- `q.Get`: the first value of a key, or nothing.
abbrev pub first_of : Option (List (List ℕ)) → List ℕ
first_of none = []
first_of (some []) = []
first_of (some (v ∷ vs)) = v

-- A setting whose text is no number stays 0.
abbrev pub number_or : Option ℤ → ℤ
number_or none = pos 0
number_or (some n) = n

abbrev pub setting : String → List (String × List (List ℕ)) → ℤ
setting key q = number_or (atoi (first_of (load string_dec key q)))

abbrev pub params_from_query : List (String × List (List ℕ)) → Params
params_from_query q = record {
  quorum = setting "quorum_required" q;
  quorum_of = setting "quorum" q;
}

abbrev pub with_params : Option Params → Params → Option Params
with_params ctx p = if requested p then some p else ctx

atoi-AreDigits : (cs : List ℕ) → AreDigits cs → atoi cs ≡ int_of (within (2 ^ 63) (read_number cs))
unfolding atoi read_number
atoi-AreDigits [] h = refl
atoi-AreDigits (c ∷ cs) h = ground (arith, h.0)

atoi-itoa : (n : ℕ) → n < 2 ^ 63 → atoi (itoa (pos n)) ≡ some (pos n)
unfolding itoa
atoi-itoa n h =
    atoi-AreDigits (format_uint n) (format_uint-AreDigits n)
    ∙ ap (λ o. int_of (within (2 ^ 63) o)) (read_number-format_uint n)
    ∙ ap int_of (within_limit (2 ^ 63) n h)

abbrev values : ℕ → ℕ → List (String × List (List ℕ))
values m n = ("quorum", itoa (pos n) ∷ []) ∷ ("quorum_required", itoa (pos m) ∷ []) ∷ []

read_values :
    (m n : ℕ)
    → m < 2 ^ 63
    → n < 2 ^ 63
    → params_from_query (values m n) ≡ record { quorum = pos m; quorum_of = pos n }
unfolding load string_dec
read_values m n l h =
    λ i. record { quorum = number_or (atoi-itoa m l i); quorum_of = number_or (atoi-itoa n h i) }

at_most : (m n : ℕ) → requested (record { quorum = pos m; quorum_of = pos n }) ≡ true → m < suc n
at_most m n r = ground (arith, r)

-- Settings that request a quorum, of 64 bits, are read back from the query that they are encoded to.
pub params_from_query-query_values :
    (m n : ℕ)
    → requested (record { quorum = pos m; quorum_of = pos n }) ≡ true
    → n < 2 ^ 63
    → params_from_query (query_values (record { quorum = pos m; quorum_of = pos n }))
      ≡ record { quorum = pos m; quorum_of = pos n }
unfolding query_values
params_from_query-query_values m n r h =
    ap params_from_query (if_true (values m n) [] r)
    ∙ read_values m n (omega (arith, at_most m n r, h)) h
