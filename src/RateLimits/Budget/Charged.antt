-- ===== src/RateLimits/Budget/Charged.antt =====
-- internal/ratelimiter/memory_engine.go: which answer a list of commands gets.
use nodecore.Base.{
  Bool, true, false, ◌&&◌, ◌||◌, not, suc, if_true, if_false, ℕ, List, [], ◌∷◌, none, some,
  bytes_dec, ◌≡◌, ◌≢◌, refl, ◌∙◌, ap, All, if_neg, Bool-cases, inl, inr, Pairwise,
}
use nodecore.Int.{pos}
use nodecore.Keyed.{load, store, load-store}
use nodecore.RateLimits.AutoTune.{Buckets}
use nodecore.RateLimits.Budget.{
  match_rule, Rule, RateLimitCommand, command_name_of, commands_from, bucket_of, execute,
}

abbrev pub NamedApart : RateLimitCommand → RateLimitCommand → Type 0
NamedApart c d = c.command_name ≢ d.command_name

module _ {B : Type 0} (buckets : Buckets B) where
  -- The bucket of each command has a token.
  abbrev pub all_available : List RateLimitCommand → List (List ℕ × B) → Bool
  all_available [] limiters = true
  all_available (c ∷ cs) limiters =
      (buckets.take_available (bucket_of buckets c limiters)).0 && all_available cs limiters

  -- The bucket of the rule has a token, if the rule matches the method.
  abbrev rule_available :
      (List ℕ → List ℕ → Bool) → List ℕ → List ℕ → ℕ → Rule → List (List ℕ × B) → Bool
  rule_available matches budget method i rule limiters =
      not (match_rule matches method rule.check)
      || (buckets.take_available (
          bucket_of buckets
            (record {
              command_name = command_name_of budget i rule.check;
              requests = rule.requests;
              period = rule.period;
            })
            limiters)).0

  -- Every rule, from an index on, that matches the method has a bucket with a token.
  abbrev pub rules_available :
      (List ℕ → List ℕ → Bool) → List ℕ → List ℕ → ℕ → List Rule → List (List ℕ × B) → Bool
  rules_available matches budget method i [] limiters = true
  rules_available matches budget method i (rule ∷ rules) limiters =
      rule_available matches budget method i rule limiters
      && rules_available matches budget method (suc i) rules limiters

  -- The commands are those of all the rules that match.
  pub commands_from-available :
      (matches : List ℕ → List ℕ → Bool) (budget method : List ℕ) (i : ℕ) (rules : List Rule)
      (limiters : List (List ℕ × B))
      → all_available (commands_from matches budget method i rules) limiters
        ≡ rules_available matches budget method i rules limiters
  unfolding commands_from
  commands_from-available matches budget method i [] limiters = refl
  commands_from-available matches budget method i (rule ∷ rules) limiters =
      let rest = commands_from-available matches budget method (suc i) rules limiters in
      elim (Bool-cases (match_rule matches method rule.check)) [
        | inl e ↦ rw (if_true _ _ e, e, rest) refl
        | inr e ↦ rw (if_false _ _ e, e, rest) refl
      ]

  bucket_of-store :
      (c d : RateLimitCommand) (b : B) (limiters : List (List ℕ × B))
      → NamedApart c d
      → bucket_of buckets d (store bytes_dec c.command_name b limiters)
        ≡ bucket_of buckets d limiters
  unfolding bucket_of
  bucket_of-store c d b limiters h =
      ap (λ o. elim o [ none ↦ buckets.new_bucket d.period (pos d.requests) | some b ↦ b ])
        (load-store bytes_dec c.command_name d.command_name b limiters
          ∙ if_neg (bytes_dec c.command_name d.command_name) h (some b)
              (load bytes_dec d.command_name limiters))

  all_available-store :
      (c : RateLimitCommand) (b : B) (cs : List RateLimitCommand) (limiters : List (List ℕ × B))
      → All (NamedApart c) cs
      → all_available cs (store bytes_dec c.command_name b limiters) ≡ all_available cs limiters
  all_available-store c b [] limiters h = refl
  all_available-store c b (d ∷ cs) limiters h =
      ap
        (λ x.
          (buckets.take_available x).0
          && all_available cs (store bytes_dec c.command_name b limiters))
        (bucket_of-store c d b limiters h.0)
      ∙ ap (λ x. (buckets.take_available (bucket_of buckets d limiters)).0 && x)
          (all_available-store c b cs limiters h.1)

  execute_refused :
      (cs : List RateLimitCommand) (limiters : List (List ℕ × B))
      → (execute buckets cs false limiters).0 ≡ false
  unfolding execute
  execute_refused [] limiters = refl
  execute_refused (c ∷ cs) limiters =
      execute_refused cs (store bytes_dec c.command_name (bucket_of buckets c limiters) limiters)

  -- Commands with different names are allowed exactly if each bucket has a token.
  pub execute-all_available :
      (cs : List RateLimitCommand) (limiters : List (List ℕ × B))
      → Pairwise NamedApart cs
      → (execute buckets cs true limiters).0 ≡ all_available cs limiters
  unfolding execute
  execute-all_available [] limiters h = refl
  execute-all_available (c ∷ cs) limiters h =
      let taken = buckets.take_available (bucket_of buckets c limiters) in
      let after = store bytes_dec c.command_name taken.1 limiters in
      elim (Bool-cases taken.0) [
        | inl e ↦
            rw e
              (execute-all_available cs after h.1 ∙ all_available-store c taken.1 cs limiters h.0)
        | inr e ↦ rw e (execute_refused cs after)
      ]
