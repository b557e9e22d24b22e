-- ===== src/Methods/Tests.antt =====
-- A spec with a group, and the theorem at it.
use nodecore.Base.{◌≡◌, refl, false, [], ◌∷◌, some, string_dec}
use nodecore.Keyed.{load, store, delete}
use nodecore.Methods.Available.{
  Method, MethodMap, SpecMethods, disable_one, disable_all, enable_one, enable_all, store_group,
  new_upstream_methods, has_method, forces, is_force_enabled,
}
use nodecore.Methods.Forced.{Lists}

program : Unit {0}
unfolding load store delete string_dec disable_one disable_all enable_one enable_all store_group
    new_upstream_methods has_method forces is_force_enabled
program = tt

abbrev call : Method
call = record { name = "eth_call"; group = ""; subscribe = false }

abbrev trace : Method
trace = record { name = "trace_block"; group = "trace"; subscribe = false }

abbrev spec : SpecMethods
spec =
    ("default", ("eth_call", call) ∷ ("trace_block", trace) ∷ [])
    ∷ ("sub", [])
    ∷ ("trace", ("trace_block", trace) ∷ [])
    ∷ []

abbrev built : MethodMap
built = ("eth_call", call) ∷ ("trace_block", trace) ∷ []

enabled_again :
    new_upstream_methods (some spec) ("trace" ∷ []) ("trace_block" ∷ "trace" ∷ []) ≡ some built
unfolding program
enabled_again = refl

disabled_group : new_upstream_methods (some spec) [] ("trace" ∷ []) ≡ some (("eth_call", call) ∷ [])
unfolding program
disabled_group = refl

trace-Lists : Lists spec trace
unfolding program
trace-Lists = record { in_default = refl; in_group = λ _. refl; in_sub = λ e. cc; no_group = refl }
