-- ===== src/Methods/Forced.antt =====
-- What the configuration enables, nothing can take away.
use mathlib.Core.Option.{some-injective}
use nodecore.Base.{
  ◌≡◌, ◌≢◌, ◌⊎◌, inl, inr, sym, ◌∙◌, ap, true, List, [], ◌∷◌, String, Option, none, some, arith,
  string_dec, Bool-cases, subst,
}
use nodecore.Keyed.{load, store, load-store}
use nodecore.Methods.Available.{
  Method, MethodMap, SpecMethods, default_group, sub_group, group_of, store_group, disable_all,
  enable_one, enable_all, new_upstream_methods, has_method, forces, is_force_enabled,
}

abbrev pub Has : String → MethodMap → Type 0
Has name m = has_method name m ≡ true

store-Has : (n k : String) (v : Method) (m : MethodMap) → Has n m → Has n (store string_dec k v m)
unfolding has_method
store-Has n k v m h = ground (arith, load-store string_dec k n v m)

store_self-Has :
    (n k : String) (v : Method) (m : MethodMap) → k ≡ n → Has n (store string_dec k v m)
unfolding has_method
store_self-Has n k v m e = ground (arith, load-store string_dec k n v m)

store_group-Has : (n : String) (g m : MethodMap) → Has n m → Has n (store_group g m)
unfolding store_group
store_group-Has n [] m h = h
store_group-Has n ((k, v) ∷ g) m h = store_group-Has n g _ (store-Has n k v m h)

store_group-adds : (n : String) (g m : MethodMap) → Has n g → Has n (store_group g m)
unfolding store_group has_method load
store_group-adds n [] m h = cc
store_group-adds n ((k, v) ∷ g) m h = elim (string_dec k n) [
  | yes p ↦ store_group-Has n g _ (store_self-Has n k v m p)
  | no p ↦ store_group-adds n g _ (ground arith)
]

enable_one-Has :
    (spec : SpecMethods) (o : Option MethodMap) (n e : String) (m : MethodMap)
    → Has n m
    → Has n (enable_one spec o e m)
unfolding enable_one
enable_one-Has spec none n e m h = store-Has n e _ m h
enable_one-Has spec (some g) n e m h = store_group-Has n g m h

enable_all-Has :
    (spec : SpecMethods) (es : List String) (n : String) (m : MethodMap)
    → Has n m
    → Has n (enable_all spec es m)
unfolding enable_all
enable_all-Has spec [] n m h = h
enable_all-Has spec (e ∷ es) n m h = enable_all-Has spec es n _ (enable_one-Has spec _ n e m h)

enable_one-group :
    (spec : SpecMethods) (o : Option MethodMap) (n e : String) (m : MethodMap)
    → Has n (group_of o)
    → Has n (enable_one spec o e m)
unfolding enable_one has_method load
enable_one-group spec none n e m h = cc
enable_one-group spec (some g) n e m h = store_group-adds n g m h

enable_one-name :
    (spec : SpecMethods) (o : Option MethodMap) (n e : String) (m : MethodMap)
    → o ≡ none
    → e ≡ n
    → Has n (enable_one spec o e m)
unfolding enable_one
enable_one-name spec none n e m z p = store_self-Has n e _ m p
enable_one-name spec (some g) n e m z p = cc

-- The spec lists the method the way its groups are built: in the default group, in its own, and,
-- if it subscribes, among the subscriptions. No group bears the method's name.
pub record Lists (spec : SpecMethods) (method : Method) : Type 0 where
  pub in_default : Has method.name (group_of (load string_dec default_group spec))
  pub in_group : method.group ≢ "" → Has method.name (group_of (load string_dec method.group spec))
  pub in_sub : method.subscribe ≡ true → Has method.name (group_of (load string_dec sub_group spec))
  pub no_group : load string_dec method.name spec ≡ none

forces_cases :
    (e : String) (method : Method)
    → forces e method ≡ true
    → (e ≡ method.name)
      ⊎ ((e ≡ default_group)
          ⊎ (((method.group ≢ "") × (e ≡ method.group))
              ⊎ ((e ≡ sub_group) × (method.subscribe ≡ true))))
unfolding forces
forces_cases e method h = ground arith

enable_one-forced :
    (spec : SpecMethods) (method : Method) (e : String) (m : MethodMap)
    → Lists spec method
    → forces e method ≡ true
    → Has method.name (enable_one spec (load string_dec e spec) e m)
enable_one-forced spec method e m l f = elim (forces_cases e method f) [
  | inl p ↦
      enable_one-name spec _ method.name e m (ap (λ k. load string_dec k spec) p ∙ l.no_group) p
  | inr (inl p) ↦ enable_one-group spec _ method.name e m (move default_group p l.in_default)
  | inr (inr (inl (g, p))) ↦
      enable_one-group spec _ method.name e m (move method.group p (l.in_group g))
  | inr (inr (inr (p, s))) ↦ enable_one-group spec _ method.name e m (move sub_group p (l.in_sub s))
]
  where
    move :
        (k : String)
        → e ≡ k
        → Has method.name (group_of (load string_dec k spec))
        → Has method.name (group_of (load string_dec e spec))
    move k p h = subst (λ j. Has method.name (group_of (load string_dec j spec))) (sym p) h

enable_all-forced :
    (spec : SpecMethods) (method : Method) (es : List String) (m : MethodMap)
    → Lists spec method
    → is_force_enabled es method ≡ true
    → Has method.name (enable_all spec es m)
unfolding enable_all is_force_enabled
enable_all-forced spec method [] m l f = cc
enable_all-forced spec method (e ∷ es) m l f = elim (Bool-cases (forces e method)) [
  | inl now ↦ enable_all-Has spec es method.name _ (enable_one-forced spec method e m l now)
  | inr later ↦ enable_all-forced spec method es _ l (rw later at f)
]

-- A method that the configuration pins is available whatever is disabled: neither a ban nor
-- detection, which both go through the disabled methods, takes it away. This is for methods that
-- the spec lists and whose names are not group names.
pub forced-available :
    (spec : SpecMethods) (method : Method) (enable disable : List String) {available : MethodMap}
    → Lists spec method
    → is_force_enabled enable method ≡ true
    → new_upstream_methods (some spec) enable disable ≡ some available
    → has_method method.name available ≡ true
unfolding new_upstream_methods
forced-available spec method enable disable {available} l f e =
    let built =
      enable_all-forced spec method enable
        (disable_all spec disable (group_of (load string_dec default_group spec))) l f in
    subst (Has method.name) (some-injective _ available e) built
