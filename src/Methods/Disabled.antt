-- ===== src/Methods/Disabled.antt =====
-- internal/upstreams/methods/methods.go: what is disabled is not available, unless it is enabled.
use nodecore.Base.{
  ◌≡◌, ◌||◌, refl, sym, ◌∙◌, ap, true, false, Bool, List, [], ◌∷◌, String, Option, none, some,
  arith, string_dec, subst,
}
use nodecore.Keyed.{load, store, delete, contains, load-store, load-delete}
use nodecore.Methods.Available.{
  Method, MethodMap, SpecMethods, default_group, group_of, disable_one, disable_all, store_group,
  enable_one, enable_all, method_names, has_method,
}

abbrev pub Lacks : String → MethodMap → Type 0
Lacks name m = has_method name m ≡ false

delete-Lacks : (n k : String) (m : MethodMap) → Lacks n m → Lacks n (delete string_dec k m)
unfolding has_method
delete-Lacks n k m h = ground (arith, load-delete string_dec k n m)

delete_self-Lacks : (n : String) (m : MethodMap) → Lacks n (delete string_dec n m)
unfolding has_method
delete_self-Lacks n m = ground (arith, load-delete string_dec n n m)

disable_one-Lacks :
    (o : Option MethodMap) (n d : String) (m : MethodMap) → Lacks n m → Lacks n (disable_one o d m)
unfolding disable_one
disable_one-Lacks none n d m h = delete-Lacks n d m h
disable_one-Lacks (some []) n d m h = h
disable_one-Lacks (some ((k, _) ∷ g)) n d m h =
    disable_one-Lacks (some g) n d (delete string_dec k m) (delete-Lacks n k m h)

disable_all-Lacks :
    (spec : SpecMethods) (ds : List String) (n : String) (m : MethodMap)
    → Lacks n m
    → Lacks n (disable_all spec ds m)
unfolding disable_all
disable_all-Lacks spec [] n m h = h
disable_all-Lacks spec (d ∷ ds) n m h =
    disable_all-Lacks spec ds n _ (disable_one-Lacks (load string_dec d spec) n d m h)

disable_one_self :
    (o : Option MethodMap) (n d : String) (m : MethodMap)
    → o ≡ none
    → d ≡ n
    → Lacks n (disable_one o d m)
unfolding disable_one
disable_one_self none n d m z p =
    subst (λ k. Lacks n (delete string_dec k m)) (sym p) (delete_self-Lacks n m)
disable_one_self (some g) n d m z p = cc

disable_all-disables :
    (spec : SpecMethods) (ds : List String) (n : String) (m : MethodMap)
    → load string_dec n spec ≡ none
    → contains string_dec n ds ≡ true
    → Lacks n (disable_all spec ds m)
unfolding disable_all contains
disable_all-disables spec [] n m z h = cc
disable_all-disables spec (d ∷ ds) n m z h = elim (string_dec d n) [
  | yes p ↦
      disable_all-Lacks spec ds n _
        (disable_one_self _ n d m (ap (λ k. load string_dec k spec) p ∙ z) p)
  | no p ↦ disable_all-disables spec ds n _ z (ground (arith, h, p))
]

store_group-Lacks :
    (n : String) (g m : MethodMap) → Lacks n g → Lacks n m → Lacks n (store_group g m)
unfolding store_group has_method load
store_group-Lacks n [] m a h = h
store_group-Lacks n ((k, v) ∷ g) m a h =
    store_group-Lacks n g _ (ground arith) (ground (arith, load-store string_dec k n v m))

-- An entry of the enabled methods brings a method if it is its name, or a group with it.
abbrev pub brings : SpecMethods → String → String → Bool
brings spec method enabled = elim (load string_dec enabled spec) [
  | some group ↦ has_method method group
  | none ↦ contains string_dec method (enabled ∷ [])
]

store-Lacks :
    (n k : String) (v : Method) (m : MethodMap)
    → contains string_dec n (k ∷ []) ≡ false
    → Lacks n m
    → Lacks n (store string_dec k v m)
unfolding has_method contains
store-Lacks n k v m b h = ground (arith, load-store string_dec k n v m)

enable_one-Lacks :
    (spec : SpecMethods) (o : Option MethodMap) (n e : String) (m : MethodMap)
    → elim o [ some group ↦ has_method n group | none ↦ contains string_dec n (e ∷ []) ] ≡ false
    → Lacks n m
    → Lacks n (enable_one spec o e m)
unfolding enable_one
enable_one-Lacks spec none n e m b h = store-Lacks n e _ m b h
enable_one-Lacks spec (some g) n e m b h = store_group-Lacks n g m b h

-- No enabled entry brings the method.
abbrev pub brings_any : SpecMethods → String → List String → Bool
brings_any spec method [] = false
brings_any spec method (e ∷ es) = brings spec method e || brings_any spec method es

enable_all-Lacks :
    (spec : SpecMethods) (es : List String) (n : String) (m : MethodMap)
    → brings_any spec n es ≡ false
    → Lacks n m
    → Lacks n (enable_all spec es m)
unfolding enable_all
enable_all-Lacks spec [] n m b h = h
enable_all-Lacks spec (e ∷ es) n m b h =
    enable_all-Lacks spec es n _ (ground (arith, b))
      (enable_one-Lacks spec (load string_dec e spec) n e m (ground (arith, b)) h)

contains-method_names :
    (n : String) (m : MethodMap) → Lacks n m → contains string_dec n (method_names m) ≡ false
unfolding has_method load contains
contains-method_names n [] h = refl
contains-method_names n ((k, v) ∷ m) h = ground (arith, contains-method_names n m)

-- A method that is disabled by its name, and that nothing enabled brings, is not available.
pub disabled-unavailable :
    (spec : SpecMethods) (n : String) (enable disable : List String)
    → load string_dec n spec ≡ none
    → contains string_dec n disable ≡ true
    → brings_any spec n enable ≡ false
    → contains string_dec n (
        method_names (
          enable_all spec enable
            (disable_all spec disable (group_of (load string_dec default_group spec)))))
      ≡ false
disabled-unavailable spec n enable disable z h b = contains-method_names n _ (
    enable_all-Lacks spec enable n _ b
      (disable_all-disables spec disable n (group_of (load string_dec default_group spec)) z h))
