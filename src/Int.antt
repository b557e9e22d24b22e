-- ===== src/Int.antt =====
-- Signed integers over the native numbers, and Go's int64 as the integers that fit 64 bits.
use nodecore.Base.{
  ℕ, suc, ◌+◌, ◌-◌, ◌%◌, ◌≤◌, ◌<◌, ◌≡◌, refl, Bool, ◌&&◌, arith, ltb, leb, ◌==◌, if◌then◌else◌,
}

-- `negsuc n` is -(n + 1).
pub data ℤ : Type 0 where
  pos : ℕ → ℤ
  negsuc : ℕ → ℤ

abbrev pub pos_part : ℤ → ℕ
pos_part (pos n) = n
pos_part (negsuc n) = 0

abbrev pub neg_part : ℤ → ℕ
neg_part (pos n) = 0
neg_part (negsuc n) = suc n

-- a - b, as an integer.
abbrev pub sub_ℕ : ℕ → ℕ → ℤ
sub_ℕ a b = if leb b a then pos (a - b) else negsuc (b - a - 1)

infixl 65 ◌-ℤ◌
infix 50 ◌≤ℤ◌
unfoldable pub ◌-ℤ◌ : ℤ → ℤ → ℤ
a -ℤ b = sub_ℕ (pos_part a + neg_part b) (neg_part a + pos_part b)

abbrev pub ◌≤ℤ◌ : ℤ → ℤ → Type 0
a ≤ℤ b = pos_part a + neg_part b ≤ pos_part b + neg_part a

abbrev pub ltb_ℤ : ℤ → ℤ → Bool
ltb_ℤ a b = ltb (pos_part a + neg_part b) (pos_part b + neg_part a)

abbrev pub leb_ℤ : ℤ → ℤ → Bool
leb_ℤ a b = leb (pos_part a + neg_part b) (pos_part b + neg_part a)

abbrev pub eqb_ℤ : ℤ → ℤ → Bool
eqb_ℤ a b = pos_part a == pos_part b && neg_part a == neg_part b

-- `int64(n)` of a uint64: the upper half of the range is read as negative.
unfoldable pub to_int64 : ℕ → ℤ
to_int64 n =
    if ltb (n % 18_446_744_073_709_551_616) 9_223_372_036_854_775_808
    then pos (n % 18_446_744_073_709_551_616)
    else negsuc (18_446_744_073_709_551_615 - n % 18_446_744_073_709_551_616)

-- The result of an int64 operation: the integer, wrapped round at 64 bits.
unfoldable pub wrap64 : ℤ → ℤ
unfolding to_int64
wrap64 (pos n) = to_int64 n
wrap64 (negsuc n) = to_int64 (18_446_744_073_709_551_615 - n % 18_446_744_073_709_551_616)

-- Values below 2^63 keep their meaning.
pub to_int64_small : (n : ℕ) → n < 9_223_372_036_854_775_808 → to_int64 n ≡ pos n
unfolding to_int64
to_int64_small n h = ground arith

wraps : wrap64 (pos 9_223_372_036_854_775_808) ≡ negsuc 9_223_372_036_854_775_807
unfolding wrap64
wraps = refl

keeps_negative : wrap64 (negsuc 4) ≡ negsuc 4
unfolding wrap64
keeps_negative = refl
