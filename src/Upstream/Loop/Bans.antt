-- ===== src/Upstream/Loop/Bans.antt =====
-- internal/upstreams/upstream_events.go: bans, detection and what they make of the published methods.
use nodecore.Base.{
  ◌≡◌, refl, sym, subst, ap, true, false, Bool, not, ◌&&◌, List, [], ◌∷◌, String, none, arith,
  string_dec, if_false,
}
use nodecore.Keyed.{
  load, contains, add, remove, union, contains-remove, contains-add, contains-union,
}
use nodecore.Protocol.State.{state_upstream_event}
use nodecore.Protocol.StateEvent.{
  StateEvent, ban_method, unban_method, unsupported_methods, process_event,
}
use nodecore.Methods.Available.{new_upstream_methods}
use nodecore.Methods.Disabled.{brings_any, disabled-unavailable}
use nodecore.Upstream.Loop.{
  Config, Loop, Input, published, unban_after, new_methods, force_enabled, not_negative, step, run,
}

-- The stored methods are those that the current bans and the last detection leave.
abbrev pub IsCurrent : Config → Loop → Type 0
IsCurrent c l = l.upstream_state.upstream_methods ≡ new_methods c l.banned_methods l.unsupported

-- No event of a valid upstream makes the stored methods stale.
pub step-IsCurrent :
    (c : Config) (e : StateEvent) (l : Loop)
    → l.valid_upstream ≡ true
    → IsCurrent c l
    → IsCurrent c (step c e l).0
unfolding step process_event
step-IsCurrent c (ban_method m) l v h = ground arith
step-IsCurrent c _ l v h = ground arith

-- An event that builds the methods again: a ban, a detection, or an unban of another method.
abbrev pub rebuilds : String → StateEvent → Bool
rebuilds m (ban_method _) = true
rebuilds m (unsupported_methods _) = true
rebuilds m (unban_method n) = not (contains string_dec m (n ∷ []))
rebuilds m _ = false

-- No event of the run builds the methods again.
abbrev pub rebuilds_none : String → List Input → Bool
rebuilds_none m [] = true
rebuilds_none m ((_, e) ∷ es) = not (rebuilds m e) && rebuilds_none m es

-- The method is missing from the stored methods although it is not banned.
abbrev pub IsMissing : String → Loop → Type 0
IsMissing m l =
    (contains string_dec m l.upstream_state.upstream_methods ≡ false)
    × (contains string_dec m l.banned_methods ≡ false)

step-IsMissing :
    (c : Config) (m : String) (e : StateEvent) (l : Loop)
    → rebuilds m e ≡ false
    → IsMissing m l
    → IsMissing m (step c e l).0
unfolding step process_event contains
step-IsMissing c m (ban_method n) l r h = cc
step-IsMissing c m (unsupported_methods ns) l r h = cc
step-IsMissing c m (unban_method n) l r h = elim (string_dec n m) [
  | yes p ↦
      let absent : contains string_dec n l.banned_methods ≡ false =
        subst (λ k. contains string_dec k l.banned_methods ≡ false) (sym p) h.1 in
      rw (if_false _ _ absent) h
  | no p ↦ ground (arith, r, p)
]
step-IsMissing c m _ l r h = ground arith

run-IsMissing :
    (c : Config) (m : String) (es : List Input) (l : Loop)
    → rebuilds_none m es ≡ true
    → IsMissing m l
    → IsMissing m (run c es l).0
unfolding run
run-IsMissing c m [] l r h = h
run-IsMissing c m ((lag, e) ∷ es) l r h =
    run-IsMissing c m es (step c e (record l { head_lag = not_negative lag })).0 (ground (arith, r))
      (step-IsMissing c m e (record l { head_lag = not_negative lag }) (ground (arith, r)) h)

-- If the timer of a ban fires while the upstream is invalid, and the method is missing from the stored
-- methods, then the ban is forgotten and the method is still missing after any further events,
-- among them the return of the upstream and more unbans of the method, as long as none of them is a
-- ban, a detection or an unban of another method.
pub unban-lost :
    (c : Config) (m : String) (l : Loop) (es : List Input)
    → l.valid_upstream ≡ false
    → contains string_dec m l.banned_methods ≡ true
    → contains string_dec m l.upstream_state.upstream_methods ≡ false
    → rebuilds_none m es ≡ true
    → IsMissing m (run c es (step c (unban_method m) l).0).0
unfolding step
unban-lost c m l es v b a r =
    run-IsMissing c m es (step c (unban_method m) l).0 r
      (ground (arith, contains-remove string_dec m m l.banned_methods, a))

remove_absent :
    (m : String) (xs : List String) → contains string_dec m xs ≡ false → remove string_dec m xs ≡ xs
unfolding contains remove
remove_absent m [] h = refl
remove_absent m (x ∷ xs) h = ground (arith, remove_absent m xs)

remove-add :
    (m : String) (xs : List String)
    → contains string_dec m xs ≡ false
    → remove string_dec m (add string_dec m xs) ≡ xs
unfolding add remove
remove-add m xs h = ground (arith, remove_absent m xs h)

-- The methods that are made while a method is banned lack it, unless the configuration brings it.
new_methods-banned :
    (c : Config) (m : String) (banned unsupported : List String)
    → load string_dec m c.spec_methods ≡ none
    → brings_any c.spec_methods m c.enable_methods ≡ false
    → contains string_dec m banned ≡ true
    → contains string_dec m (new_methods c banned unsupported) ≡ false
unfolding new_methods new_upstream_methods
new_methods-banned c m banned unsupported z b h =
    let rest = union string_dec unsupported c.disable_methods in
    let among : contains string_dec m (union string_dec banned rest) ≡ true =
      ground (arith, contains-union string_dec m banned rest, h) in
    disabled-unavailable c.spec_methods m c.enable_methods (union string_dec banned rest) z among b

-- On a valid upstream whose stored methods are current, the ban of a method that is not banned, not
-- force-enabled and no group of the spec, and that no entry of the enabled methods brings, publishes
-- methods without it and starts exactly one timer; and the unban that the timer brings restores the
-- bans and the stored methods from before.
pub ban-unban :
    (c : Config) (m : String) (l : Loop)
    → l.valid_upstream ≡ true
    → IsCurrent c l
    → contains string_dec m l.banned_methods ≡ false
    → force_enabled c m ≡ false
    → load string_dec m c.spec_methods ≡ none
    → brings_any c.spec_methods m c.enable_methods ≡ false
    → let (l₁, out) = step c (ban_method m) l in
      let l₂ = (step c (unban_method m) l₁).0 in
      (out ≡ unban_after m ∷ published (state_upstream_event l₁.upstream_state) ∷ [])
      × (contains string_dec m l₁.upstream_state.upstream_methods ≡ false)
      × (l₁.upstream_state.upstream_methods
          ≡ new_methods c (add string_dec m l.banned_methods) l.unsupported)
      × (l₂.banned_methods ≡ l.banned_methods)
      × (l₂.upstream_state.upstream_methods ≡ l.upstream_state.upstream_methods)
unfolding step
ban-unban c m l v h b f z n =
    let there = contains-add string_dec m m l.banned_methods in
    let back = remove-add m l.banned_methods b in
    let is_in : contains string_dec m (add string_dec m l.banned_methods) ≡ true =
      ground (arith, there) in
    let made : (step c (ban_method m) l).0.upstream_state.upstream_methods
        ≡ new_methods c (add string_dec m l.banned_methods) l.unsupported =
      ground arith in
    (
      ground arith,
      rw made (new_methods-banned c m (add string_dec m l.banned_methods) l.unsupported z n is_in),
      made,
      ground (arith, there, back),
      ground (arith, there, ap (λ banned. new_methods c banned l.unsupported) back),
    )
