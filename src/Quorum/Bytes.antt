-- ===== src/Quorum/Bytes.antt =====
-- What internal/quorum uses of strings, strconv and encoding/hex, on bytes.
pub mod RoundTrips
use nodecore.Base.{
  ℕ, zero, suc, ◌+◌, ◌-◌, ◌*◌, ◌/◌, ◌%◌, ◌^◌, Bool, true, false, ◌&&◌, ◌==◌, ltb, leb, List, [],
  ◌∷◌, ◌++◌, Option, none, some, if◌then◌else◌,
}

-- The rest after a prefix.
unfoldable pub strip : List ℕ → List ℕ → Option (List ℕ)
strip [] xs = some xs
strip (s ∷ sep) [] = none
strip (s ∷ sep) (x ∷ xs) = let rest = strip sep xs in if s == x then rest else none

-- `strings.TrimPrefix`.
unfoldable pub trim_prefix : List ℕ → List ℕ → List ℕ
unfolding strip
trim_prefix p xs = elim (strip p xs) [ none ↦ xs | some rest ↦ rest ]

abbrev pub prepend : ℕ → Option (List ℕ × List ℕ) → Option (List ℕ × List ℕ)
prepend x none = none
prepend x (some (before, after)) = some (x ∷ before, after)

-- What stands before and after the first occurrence of a separator, by `strings.Index`.
unfoldable pub cut : List ℕ → List ℕ → Option (List ℕ × List ℕ)
unfolding strip
cut sep [] = elim (strip sep []) [ none ↦ none | some rest ↦ some ([], rest) ]
cut sep (x ∷ xs) = elim (strip sep (x ∷ xs)) [
  | none ↦ prepend x (cut sep xs)
  | some rest ↦ some ([], rest)
]

-- What stands before and after the last occurrence of a byte, by `strings.LastIndexByte`.
unfoldable pub cut_last : ℕ → List ℕ → Option (List ℕ × List ℕ)
cut_last c [] = none
cut_last c (x ∷ xs) = elim (cut_last c xs) [
  | some (before, after) ↦ some (x ∷ before, after)
  | none ↦ if x == c then some ([], xs) else none
]

-- The bytes without the last one, which must be `c`.
unfoldable pub strip_last : ℕ → List ℕ → Option (List ℕ)
strip_last c [] = none
strip_last c (x ∷ []) = if x == c then some [] else none
strip_last c (x ∷ y ∷ xs) = elim (strip_last c (y ∷ xs)) [ none ↦ none | some ys ↦ some (x ∷ ys) ]

abbrev pub is_digit : ℕ → Bool
is_digit c = leb 48 c && leb c 57

-- Decimal digits after a number that was read already.
unfoldable pub read_digits : ℕ → List ℕ → Option ℕ
read_digits n [] = some n
read_digits n (c ∷ cs) =
    let rest = read_digits (n * 10 + (c - 48)) cs in if is_digit c then rest else none

unfoldable pub read_number : List ℕ → Option ℕ
unfolding read_digits
read_number [] = none
read_number (c ∷ cs) = read_digits 0 (c ∷ cs)

abbrev pub within : ℕ → Option ℕ → Option ℕ
within limit none = none
within limit (some n) = if ltb n limit then some n else none

-- `strconv.ParseUint` to the base 10 with 64 bits.
unfoldable pub parse_uint : List ℕ → Option ℕ
unfolding read_number
parse_uint cs = within (2 ^ 64) (read_number cs)

-- Fuel beyond the number is enough: each step divides it.
unfoldable pub print_number : ℕ → ℕ → List ℕ
print_number zero n = []
print_number (suc fuel) n =
    let more = print_number fuel (n / 10) in
    if ltb n 10 then (48 + n) ∷ [] else more ++ (48 + n % 10) ∷ []

-- `strconv.FormatUint` to the base 10.
unfoldable pub format_uint : ℕ → List ℕ
unfolding print_number
format_uint n = print_number (suc n) n

-- `hex.EncodeToString`.
abbrev pub hex_digit : ℕ → ℕ
hex_digit n = if ltb n 10 then 48 + n else 87 + n

abbrev pub hex_encode : List ℕ → List ℕ
hex_encode [] = []
hex_encode (b ∷ bs) = hex_digit (b / 16) ∷ hex_digit (b % 16) ∷ hex_encode bs

-- `hex.DecodeString`.
unfoldable pub hex_value : ℕ → Option ℕ
hex_value c =
    if is_digit c
    then some (c - 48)
    else if leb 97 c && leb c 102
    then some (c - 87)
    else if leb 65 c && leb c 70
    then some (c - 55)
    else none

abbrev pub hex_byte : Option ℕ → Option ℕ → Option (List ℕ) → Option (List ℕ)
hex_byte (some h) (some l) (some bs) = some ((h * 16 + l) ∷ bs)
hex_byte (some h) (some l) none = none
hex_byte (some h) none bs = none
hex_byte none l bs = none

unfoldable pub hex_decode : List ℕ → Option (List ℕ)
unfolding hex_value
hex_decode [] = some []
hex_decode (c ∷ []) = none
hex_decode (c ∷ d ∷ cs) = hex_byte (hex_value c) (hex_value d) (hex_decode cs)
