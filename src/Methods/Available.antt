-- ===== src/Methods/Available.antt =====
-- NewUpstreamMethods and IsForceEnabled.
use nodecore.Base.{
  Bool, true, false, not, ◌&&◌, ◌||◌, List, [], ◌∷◌, map, String, Option, none, some, ite,
  string_dec,
}
use nodecore.Keyed.{load, store, delete}

-- What is used of `specs.Method` here.
pub record Method : Type 0 where
  pub name : String
  pub group : String
  pub subscribe : Bool

abbrev pub MethodMap : Type 0
MethodMap = List (String × Method)

abbrev pub SpecMethods : Type 0
SpecMethods = List (String × MethodMap)

abbrev pub default_group : String
default_group = "default"

abbrev pub sub_group : String
sub_group = "sub"

-- Reading a group that is not there gives the empty map.
abbrev pub group_of : Option MethodMap → MethodMap
group_of none = []
group_of (some group) = group

delete_group : MethodMap → MethodMap → MethodMap
delete_group [] available = available
delete_group ((name, _) ∷ group) available = delete_group group (delete string_dec name available)

unfoldable pub disable_one : Option MethodMap → String → MethodMap → MethodMap
unfolding delete_group
disable_one (some group) disabled available = delete_group group available
disable_one none disabled available = delete string_dec disabled available

unfoldable pub disable_all : SpecMethods → List String → MethodMap → MethodMap
disable_all spec [] available = available
disable_all spec (d ∷ ds) available =
    disable_all spec ds (disable_one (load string_dec d spec) d available)

unfoldable pub store_group : MethodMap → MethodMap → MethodMap
store_group [] available = available
store_group ((name, method) ∷ group) available =
    store_group group (store string_dec name method available)

-- `DefaultMethodWithConnectorTypes`: a method of no group, and no subscription.
abbrev pub default_method : String → Method
default_method name = record { name = name; group = ""; subscribe = false }

abbrev pub method_or_default : Option Method → String → Method
method_or_default (some method) name = method
method_or_default none name = default_method name

unfoldable pub enable_one : SpecMethods → Option MethodMap → String → MethodMap → MethodMap
unfolding store_group
enable_one spec (some group) enabled available = store_group group available
enable_one spec none enabled available =
    store string_dec enabled
      (method_or_default (load string_dec enabled (group_of (load string_dec default_group spec)))
        enabled)
      available

unfoldable pub enable_all : SpecMethods → List String → MethodMap → MethodMap
enable_all spec [] available = available
enable_all spec (e ∷ es) available =
    enable_all spec es (enable_one spec (load string_dec e spec) e available)

-- The available methods; `none` is the error for a spec that does not exist.
unfoldable pub new_upstream_methods :
    Option SpecMethods → List String → List String → Option MethodMap
new_upstream_methods none enable disable = none
new_upstream_methods (some spec) enable disable = some (
    enable_all spec enable
      (disable_all spec disable (group_of (load string_dec default_group spec))))

-- `GetSupportedMethods`, as the keys of the available methods.
abbrev pub method_names : MethodMap → List String
method_names = map (λ e. e.0)

unfoldable pub has_method : String → MethodMap → Bool
has_method name available = elim (load string_dec name available) [ none ↦ false | some _ ↦ true ]

abbrev str_eq : String → String → Bool
str_eq s t = ite (string_dec s t) true false

-- One entry of the configuration pins the method.
unfoldable pub forces : String → Method → Bool
forces enabled method =
    str_eq enabled method.name
    || str_eq enabled default_group
    || (not (str_eq method.group "") && str_eq enabled method.group)
    || (str_eq enabled sub_group && method.subscribe)

unfoldable pub is_force_enabled : List String → Method → Bool
is_force_enabled [] method = false
is_force_enabled (enabled ∷ es) method = forces enabled method || is_force_enabled es method
