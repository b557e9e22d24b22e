-- ===== src/Quorum/Bytes/RoundTrips.antt =====
-- What internal/quorum uses of strings, strconv and encoding/hex: what is printed is read back.
use nodecore.Base.{
  ℕ, zero, suc, ◌+◌, ◌-◌, ◌*◌, ◌/◌, ◌%◌, ◌^◌, ◌<◌, true, ltb, List, [], ◌∷◌, ◌++◌, none, some, ◌≡◌,
  ◌≢◌, refl, ◌∙◌, ap, All, arith, Bool-cases, inl, inr, if_true, if_false, All-append,
}
use nodecore.Quorum.Bytes.{
  strip, prepend, cut, cut_last, strip_last, is_digit, read_digits, read_number, within, parse_uint,
  print_number, format_uint, hex_digit, hex_encode, hex_value, hex_decode,
}

pub strip_self : (sep rest : List ℕ) → strip sep (sep ++ rest) ≡ some rest
unfolding strip
strip_self [] rest = refl
strip_self (s ∷ sep) rest = ground (arith, strip_self sep rest)

strip_ne : (s x : ℕ) (sep xs : List ℕ) → x ≢ s → strip (s ∷ sep) (x ∷ xs) ≡ none
unfolding strip
strip_ne s x sep xs h = ground (arith, h)

cut_found :
    (x : ℕ) (sep xs rest : List ℕ)
    → strip sep (x ∷ xs) ≡ some rest
    → cut sep (x ∷ xs) ≡ some ([], rest)
unfolding cut
cut_found x sep xs rest e = rw (cut, e) refl

cut_missed :
    (x : ℕ) (sep xs : List ℕ)
    → strip sep (x ∷ xs) ≡ none
    → cut sep (x ∷ xs) ≡ prepend x (cut sep xs)
unfolding cut
cut_missed x sep xs e = rw (cut, e) refl

-- A separator whose first byte does not occur before it is found where it stands.
pub cut-append :
    (s : ℕ) (sep xs rest : List ℕ)
    → All (λ x. x ≢ s) xs
    → cut (s ∷ sep) (xs ++ (s ∷ sep ++ rest)) ≡ some (xs, rest)
cut-append s sep [] rest h = cut_found s (s ∷ sep) (sep ++ rest) rest (strip_self (s ∷ sep) rest)
cut-append s sep (x ∷ xs) rest h =
    cut_missed x (s ∷ sep) (xs ++ (s ∷ sep ++ rest)) (strip_ne s x sep _ h.0)
    ∙ ap (prepend x) (cut-append s sep xs rest h.1)

cut_last-none : (c : ℕ) (xs : List ℕ) → All (λ x. x ≢ c) xs → cut_last c xs ≡ none
unfolding cut_last
cut_last-none c [] h = refl
cut_last-none c (x ∷ xs) h = ground (arith, h.0, cut_last-none c xs h.1)

-- A byte that does not occur after it is found where it stands.
pub cut_last-append :
    (c : ℕ) (xs rest : List ℕ)
    → All (λ x. x ≢ c) rest
    → cut_last c (xs ++ (c ∷ rest)) ≡ some (xs, rest)
unfolding cut_last
cut_last-append c [] rest h = ground (arith, cut_last-none c rest h)
cut_last-append c (x ∷ xs) rest h = ground (arith, cut_last-append c xs rest h)

pub strip_last-append : (c : ℕ) (xs : List ℕ) → strip_last c (xs ++ c ∷ []) ≡ some xs
unfolding strip_last
strip_last-append c [] = ground arith
strip_last-append c (x ∷ []) = ground arith
strip_last-append c (x ∷ y ∷ xs) = ground (arith, strip_last-append c (y ∷ xs))

read_digits-append :
    (n m d : ℕ) (xs : List ℕ)
    → read_digits n xs ≡ some m
    → d < 10
    → read_digits n (xs ++ (48 + d) ∷ []) ≡ some (m * 10 + d)
unfolding read_digits
read_digits-append n m d [] e l = let q : n ≡ m = cc in ground (arith, q, l)
read_digits-append n m d (c ∷ cs) e l = elim (Bool-cases (is_digit c)) [
  | inl i ↦
      rw (if_true _ _ i) (read_digits-append (n * 10 + (c - 48)) m d cs (rw (if_true _ _ i) at e) l)
  | inr i ↦ let f : none ≡ some m = rw (if_false _ _ i) at e in cc
]

print_number-read : (fuel n : ℕ) → n < fuel → read_digits 0 (print_number fuel n) ≡ some n
unfolding read_digits print_number
print_number-read zero n h = elim h [ ]
print_number-read (suc fuel) n h = elim (Bool-cases (ltb n 10)) [
  | inl l ↦ rw (if_true _ _ l) (ground (arith, l))
  | inr l ↦ rw (if_false _ _ l) (
      read_digits-append 0 (n / 10) (n % 10) (print_number fuel (n / 10))
        (print_number-read fuel (n / 10) (ground (arith, l, h))) (omega arith)
      ∙ ap some (omega arith))
]

-- A printed number is not empty and has digits only.
abbrev pub AreDigits : List ℕ → Type 0
AreDigits xs = All (λ c. is_digit c ≡ true) xs

print_number-AreDigits : (fuel n : ℕ) → AreDigits (print_number fuel n)
unfolding print_number
print_number-AreDigits zero n = tt
print_number-AreDigits (suc fuel) n = elim (Bool-cases (ltb n 10)) [
  | inl l ↦ rw (if_true _ _ l) (ground (arith, l), tt)
  | inr l ↦ rw (if_false _ _ l) (
      All-append _ (print_number fuel (n / 10)) ((48 + n % 10) ∷ [])
        (print_number-AreDigits fuel (n / 10)) (ground arith, tt))
]

pub hex_digit-value : (n : ℕ) → n < 16 → hex_value (hex_digit n) ≡ some n
unfolding hex_value
hex_digit-value n h = ground (arith, h)

pub hex_decode-encode : (bs : List ℕ) → All (λ b. b < 256) bs → hex_decode (hex_encode bs) ≡ some bs
unfolding hex_decode
hex_decode-encode [] h = refl
hex_decode-encode (b ∷ bs) h =
    rw
      (
        hex_digit-value (b / 16) (omega (arith, h.0)),
        hex_digit-value (b % 16) (omega arith),
        hex_decode-encode bs h.1,
      )
      (ap (λ c. some (c ∷ bs)) (omega arith))

read_number-append :
    (xs : List ℕ) (c : ℕ) → read_number (xs ++ c ∷ []) ≡ read_digits 0 (xs ++ c ∷ [])
unfolding read_number
read_number-append [] c = refl
read_number-append (x ∷ xs) c = refl

read_number-print_number :
    (fuel n : ℕ)
    → read_number (print_number (suc fuel) n) ≡ read_digits 0 (print_number (suc fuel) n)
unfolding print_number read_number
read_number-print_number fuel n = elim (Bool-cases (ltb n 10)) [
  | inl l ↦ rw (if_true _ _ l) refl
  | inr l ↦ rw (if_false _ _ l) (read_number-append (print_number fuel (n / 10)) (48 + n % 10))
]

pub within_limit : (limit n : ℕ) → n < limit → within limit (some n) ≡ some n
within_limit limit n h = ground (arith, h)

pub parse_uint-format_uint : (n : ℕ) → n < 2 ^ 64 → parse_uint (format_uint n) ≡ some n
unfolding parse_uint format_uint
parse_uint-format_uint n h =
    ap (within (2 ^ 64)) (read_number-print_number n n ∙ print_number-read (suc n) n (omega arith))
    ∙ within_limit (2 ^ 64) n h

digit_ne : (c : ℕ) → is_digit c ≡ true → c ≢ b'_'
digit_ne c h e = ground (arith, h, e)

-- A printed number has no underscore.
pub format_uint-ne : (n : ℕ) → All (λ c. c ≢ b'_') (format_uint n)
unfolding format_uint
format_uint-ne n = each (print_number (suc n) n) (print_number-AreDigits (suc n) n)
  where
    each : (xs : List ℕ) → AreDigits xs → All (λ c. c ≢ b'_') xs
    each [] h = tt
    each (x ∷ xs) h = (digit_ne x h.0, each xs h.1)

-- A printed number has digits only, and is read as itself.
pub format_uint-AreDigits : (n : ℕ) → AreDigits (format_uint n)
unfolding format_uint
format_uint-AreDigits n = print_number-AreDigits (suc n) n

pub read_number-format_uint : (n : ℕ) → read_number (format_uint n) ≡ some n
unfolding format_uint
read_number-format_uint n = read_number-print_number n n ∙ print_number-read (suc n) n (omega arith)
