-- ===== src/Upstream/Loop.antt =====
-- `processStateEvents`: one goroutine takes the reports of the upstream's processors in turn, so a
-- run is a list of events. Logs are left out. `UpdateHeadLag` stores a lag and then emits a status
-- event with it; the lag stored last stands beside each event.
pub mod Validity
pub mod Bans
use nodecore.Base.{
  ◌≡◌, refl, Bool, true, false, not, ◌&&◌, ◌||◌, List, [], ◌∷◌, ◌++◌, String, Option, none, some,
  ite, string_dec, if◌then◌else◌,
}
use nodecore.Int.{ℤ, pos, ltb_ℤ}
use nodecore.Keyed.{load, contains, add, remove, set_eq, union}
use nodecore.Methods.Available.{
  Method, MethodMap, SpecMethods, new_upstream_methods, method_names, is_force_enabled,
  default_method, method_or_default, default_group, group_of,
}
use nodecore.Protocol.Block.{Block}
use nodecore.Protocol.State.{
  AvailabilityStatus, status_dec, status_by_lag, UpstreamState, UpstreamEventType,
  state_upstream_event, head_upstream_event, remove_upstream_event, valid_upstream_event,
}
use nodecore.Protocol.StateEvent.{
  StateEvent, init, lower_bound, status, fatal_error, valid, head, block, ban_method, unban_method,
  unsupported_methods, caps, label, process_event, same,
}

-- What the loop reads and never writes: the configuration, the chain's method spec projected to
-- the upstream's connectors, all methods of the chain's spec by name (its default group, in which
-- every method of the spec is), and the chain's syncing threshold.
pub record Config : Type 0 where
  pub enable_methods : List String
  pub disable_methods : List String
  pub spec_methods : SpecMethods
  pub full_spec : MethodMap
  pub syncing_lag : ℤ

-- The local variables of the loop, and the stored state and lag of the upstream.
pub record Loop : Type 0 where
  pub banned_methods : List String
  pub unsupported : List String
  pub valid_upstream : Bool
  pub base_avail : AvailabilityStatus
  pub upstream_state : UpstreamState
  pub head_lag : ℤ

-- What an event makes the loop do: publish to the subscribers, or start the timer of a ban.
pub data Output : Type 0 where
  published : UpstreamEventType → Output
  unban_after : String → Output

-- Config enable is applied last, so it has the last word.
unfoldable pub new_methods : Config → List String → List String → List String
new_methods c banned unsupported =
    method_names
      (elim (new_upstream_methods (some c.spec_methods) c.enable_methods
        (union string_dec banned (union string_dec unsupported c.disable_methods))) [
          | none ↦ []
          | some available ↦ available
        ])

-- `GetSpecMethodWithFallback`, on the full spec: a method that it lacks is a default one.
unfoldable pub force_enabled : Config → String → Bool
force_enabled c method =
    is_force_enabled c.enable_methods
      (method_or_default (load string_dec method c.full_spec) method)

-- `publishUpstreamEvent` stores the state that it publishes.
abbrev publish : UpstreamState → UpstreamEventType → Loop → Loop × List Output
publish state event l = (record l { upstream_state = state }, published event ∷ [])

-- The end of the loop's body: an invalid upstream neither publishes nor stores.
abbrev finish : UpstreamState → UpstreamEventType → Loop → Loop × List Output
finish state event l = if l.valid_upstream then publish state event l else (l, [])

-- A state event carries a pointer to the loop's local state, so it shows what is stored.
abbrev finish_state : UpstreamState → Loop → Loop × List Output
finish_state state l = finish state (state_upstream_event state) l

abbrev with_methods : Config → Loop → UpstreamState
with_methods c l = record l.upstream_state {
  upstream_methods = new_methods c l.banned_methods l.unsupported;
}

ban : Config → String → Loop → Loop × List Output
ban c method l =
    if contains string_dec method l.banned_methods || force_enabled c method
    then (l, [])
    else (let l' = record l { banned_methods = add string_dec method l.banned_methods } in
        let done = finish_state (with_methods c l') l' in (done.0, unban_after method ∷ done.1))

unban : Config → String → Loop → Loop × List Output
unban c method l =
    if contains string_dec method l.banned_methods
    then (let l' = record l { banned_methods = remove string_dec method l.banned_methods } in
        finish_state (with_methods c l') l')
    else (l, [])

detect : Config → List String → Loop → Loop × List Output
detect c methods l =
    if set_eq string_dec l.unsupported methods
    then (l, [])
    else (let l' = record l { unsupported = methods } in finish_state (with_methods c l') l')

-- The availability that a status event reports, unless it only carries a lag.
abbrev reported : AvailabilityStatus → Option ℤ → AvailabilityStatus → AvailabilityStatus
reported s none base_avail = s
reported s (some lag) base_avail = base_avail

derive : Config → AvailabilityStatus → Loop → Loop × List Output
derive c base_avail l =
    let new_avail = status_by_lag l.head_lag base_avail c.syncing_lag in
    let l' = record l { base_avail = base_avail } in
    ite (status_dec new_avail l.upstream_state.status) (l', [])
      (let state = record l.upstream_state { status = new_avail } in
        publish state (state_upstream_event state) l')

-- The default case of the switch.
other : StateEvent → Loop → Loop × List Output
other e l =
    if same e l.upstream_state then (l, []) else finish_state (process_event e l.upstream_state) l

unfoldable pub step : Config → StateEvent → Loop → Loop × List Output
unfolding ban unban detect derive other
step c fatal_error l =
    if l.valid_upstream
    then publish l.upstream_state remove_upstream_event (record l { valid_upstream = false })
    else (l, [])
step c valid l =
    if l.valid_upstream
    then (l, [])
    else publish l.upstream_state (valid_upstream_event (some l.upstream_state))
        (record l { valid_upstream = true })
step c (ban_method method) l = ban c method l
step c (unban_method method) l = unban c method l
step c (unsupported_methods methods) l = detect c methods l
step c (status s lag) l =
    if l.valid_upstream then derive c (reported s lag l.base_avail) l else (l, [])
step c (head b) l =
    let state = process_event (head b) l.upstream_state in
    finish state (head_upstream_event state.status state.head_data) l
step c e l = other e l

-- `UpdateHeadLag` stores a lag, never a negative one, before its event is taken.
abbrev pub Input : Type 0
Input = ℤ × StateEvent

unfoldable pub not_negative : ℤ → ℤ
not_negative lag = if ltb_ℤ lag (pos 0) then pos 0 else lag

unfoldable pub run : Config → List Input → Loop → Loop × List Output
run c [] l = (l, [])
run c ((lag, e) ∷ es) l =
    let now = step c e (record l { head_lag = not_negative lag }) in
    let rest = run c es now.0 in (rest.0, now.1 ++ rest.1)
