-- ===== src/Base/Decisions.antt =====
-- Decisions of equality for the types that serve as keys.
use Prim.Native.Nat.{ℕ}
use Prim.Native.String.{String}
use mathlib.Core.Path.{◌≡◌, refl}
use mathlib.Core.Logic.{◌↔◌, ◌≢◌}
use mathlib.Core.Bool.{Bool, true, false}
use mathlib.Core.List.{List, [], ◌∷◌}
use native.Mathlib.Decide.{ℕ_discrete}
use text.Mathlib.Text.{◌==◌ as str_eq}
use text.Mathlib.TextEquality.{eq_iff}

unfoldable pub dec_of_test {ℓ} : {P : Type ℓ} (b : Bool) → ((b ≡ true) ↔ P) → Dec P
dec_of_test true h = yes (h.0 refl)
dec_of_test false h = no (λ p. false_ne (h.1 p))
  where
    false_ne : false ≡ true → ⊥
    false_ne e = cc

-- Two texts, as Go compares strings.
unfoldable pub string_dec : Discrete String
unfolding dec_of_test
string_dec s t = dec_of_test (str_eq s t) (eq_iff s t)

cons_dec : {x y : ℕ} {xs ys : List ℕ} → Dec (x ≡ y) → Dec (xs ≡ ys) → Dec ((x ∷ xs) ≡ (y ∷ ys))
cons_dec (yes p) (yes q) = yes (λ i. p i ∷ q i)
cons_dec (yes p) (no q) = no (λ e. q (cc))
cons_dec (no p) d = no (λ e. p (cc))

-- Two byte slices, as `bytes.Equal` compares them.
unfoldable pub bytes_dec : Discrete (List ℕ)
unfolding cons_dec
bytes_dec [] [] = yes refl
bytes_dec [] (y ∷ ys) = no (λ e. cc)
bytes_dec (x ∷ xs) [] = no (λ e. cc)
bytes_dec (x ∷ xs) (y ∷ ys) = cons_dec (ℕ_discrete x y) (bytes_dec xs ys)

-- Two texts that differ, by evaluation.
pub string_ne : (s t : String) → str_eq s t ≡ false → s ≢ t
string_ne s t h e = let q : str_eq s t ≡ true = (eq_iff s t).1 e in cc
