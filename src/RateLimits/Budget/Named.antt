-- ===== src/RateLimits/Budget/Named.antt =====
-- internal/ratelimiter/budget.go: the rules of a budget have buckets of their own.
use nodecore.Base.{
  ℕ, suc, ◌<◌, Bool, true, List, [], ◌∷◌, ◌++◌, some, ◌≡◌, ◌≢◌, sym, ◌∙◌, ap, All, Pairwise, arith,
  if_true, if_false, Bool-cases, inl, inr,
}
use nodecore.Quorum.Bytes.{strip, cut, is_digit, read_number, format_uint}
use nodecore.Quorum.Bytes.RoundTrips.{
  AreDigits, strip_self, cut-append, format_uint-AreDigits, read_number-format_uint,
}
use nodecore.RateLimits.AutoTune.{Buckets}
use nodecore.RateLimits.Budget.{
  RuleCheck, check_name, match_rule, Rule, RateLimitBudget, command_name_of, commands_from,
  allow_request,
}
use nodecore.RateLimits.Budget.Charged.{
  NamedApart, rules_available, commands_from-available, execute-all_available,
}

not_dash : (cs : List ℕ) → AreDigits cs → All (λ c. c ≢ b'-') cs
not_dash [] h = tt
not_dash (c ∷ cs) h = ((λ e. digit_not c h.0 e), not_dash cs h.1)
  where
    digit_not : (c : ℕ) → is_digit c ≡ true → c ≡ b'-' → ⊥
    digit_not c h e = ground (arith, h, e)

some_of : {A : Type 0} {a b : A} → some a ≡ some b → a ≡ b
some_of e = cc

after_first : List ℕ → List ℕ
after_first [] = []
after_first (x ∷ xs) = xs

-- The index is read off the name.
command_name_of-index :
    (budget : List ℕ) (i j : ℕ) (c d : RuleCheck)
    → command_name_of budget i c ≡ command_name_of budget j d
    → i ≡ j
unfolding command_name_of after_first
command_name_of-index budget i j c d e =
    let digits = λ (n : ℕ). not_dash (format_uint n) (format_uint-AreDigits n) in
    let rest = λ (n : ℕ) (k : RuleCheck). format_uint n ++ (b'-' ∷ check_name k) in
    let r = some_of (
      sym (strip_self budget (b'-' ∷ rest i c))
      ∙ ap (strip budget) e
      ∙ strip_self budget (b'-' ∷ rest j d)) in
    let s = some_of (
      sym (cut-append b'-' [] (format_uint i) (check_name c) (digits i))
      ∙ ap (λ xs. cut (b'-' ∷ []) (after_first xs)) r
      ∙ cut-append b'-' [] (format_uint j) (check_name d) (digits j)) in
    some_of
      (sym (read_number-format_uint i) ∙ ap (λ p. read_number p.0) s ∙ read_number-format_uint j)

module _ (matches : List ℕ → List ℕ → Bool) (budget method : List ℕ) where
  later_names :
      (i j : ℕ) (check : RuleCheck) (rules : List Rule)
      → i < j
      → All
          (λ c. command_name_of budget i check ≢ c.command_name)
          (commands_from matches budget method j rules)
  unfolding commands_from
  later_names i j check [] h = tt
  later_names i j check (rule ∷ rules) h =
      let rest = later_names i (suc j) check rules (omega (arith, h)) in
      elim (Bool-cases (match_rule matches method rule.check)) [
        | inl e ↦
            rw (if_true _ _ e)
              ((λ q. omega (arith, h, command_name_of-index budget i j check rule.check q)), rest)
        | inr e ↦ rw (if_false _ _ e) rest
      ]

  commands_apart :
      (i : ℕ) (rules : List Rule)
      → Pairwise NamedApart (commands_from matches budget method i rules)
  unfolding commands_from
  commands_apart i [] = tt
  commands_apart i (rule ∷ rules) =
      let rest = commands_apart (suc i) rules in
      elim (Bool-cases (match_rule matches method rule.check)) [
        | inl e ↦ rw (if_true _ _ e) (later_names i (suc i) rule.check rules (omega arith), rest)
        | inr e ↦ rw (if_false _ _ e) rest
      ]

-- A budget allows a request exactly if, for every one of its rules that matches the method, the bucket
-- of the name of the rule has a token, which is a new bucket if there is none yet.
pub allow_request-rules_available :
    {B : Type 0} (matches : List ℕ → List ℕ → Bool) (buckets : Buckets B) (budget : RateLimitBudget)
    (method : List ℕ) (limiters : List (List ℕ × B))
    → (allow_request matches buckets budget method limiters).0
      ≡ rules_available buckets matches budget.name method 0 budget.rules limiters
unfolding allow_request
allow_request-rules_available matches buckets budget method limiters =
    execute-all_available buckets (commands_from matches budget.name method 0 budget.rules) limiters
      (commands_apart matches budget.name method 0 budget.rules)
    ∙ commands_from-available buckets matches budget.name method 0 budget.rules limiters
