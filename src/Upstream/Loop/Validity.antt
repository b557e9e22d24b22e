-- ===== src/Upstream/Loop/Validity.antt =====
-- When the loop publishes, and the status that it publishes.
use mathlib.Core.Option.{some-injective}
use nodecore.Base.{
  ◌≡◌, ◌≢◌, refl, ◌∙◌, ap, Bool, true, false, List, [], ◌∷◌, ◌++◌, Option, none, some, arith, All,
  ite, Option-cases, inl, inr,
}
use nodecore.Int.{ℤ}
use nodecore.Protocol.State.{
  AvailabilityStatus, status_dec, status_by_lag, state_upstream_event, head_upstream_event,
  remove_upstream_event, valid_upstream_event,
}
use nodecore.Protocol.StateEvent.{StateEvent, status, valid, ban_method}
use nodecore.Upstream.Loop.{
  Config, Loop, Output, published, unban_after, step, Input, not_negative, run,
}

abbrev pub Silent : Output → Type 0
Silent (published e) = ⊥
Silent (unban_after m) = Unit

-- Nothing is published and nothing stored, and the upstream stays invalid.
abbrev pub Suspended : Loop → Loop × List Output → Type 0
Suspended l (l', out) =
    (l'.upstream_state ≡ l.upstream_state) × (l'.valid_upstream ≡ false) × All Silent out

-- While its settings are invalid an upstream publishes no event but the one that says that they
-- are valid again, and its stored state does not change.
pub step-Suspended :
    (c : Config) (e : StateEvent) (l : Loop)
    → l.valid_upstream ≡ false
    → e ≢ valid
    → Suspended l (step c e l)
unfolding step
step-Suspended c valid l v n = absurd (n refl)
step-Suspended c (ban_method m) l v n = ground arith
step-Suspended c _ l v n = ground arith

-- What one output makes of the phase, or none where it is out of order: a valid upstream is removed
-- before it is declared valid, and a removed one publishes nothing until it is.
unfoldable pub turn : Bool → Output → Option Bool
turn v (unban_after m) = some v
turn true (published remove_upstream_event) = some false
turn true (published (valid_upstream_event s)) = none
turn true (published (state_upstream_event s)) = some true
turn true (published (head_upstream_event s b)) = some true
turn false (published (valid_upstream_event s)) = some true
turn false (published remove_upstream_event) = none
turn false (published (state_upstream_event s)) = none
turn false (published (head_upstream_event s b)) = none

unfoldable pub phase : Bool → List Output → Option Bool
unfolding turn
phase v [] = some v
phase v (o ∷ out) = elim (turn v o) [ none ↦ none | some w ↦ phase w out ]

step-phase :
    (c : Config) (e : StateEvent) (l : Loop)
    → phase l.valid_upstream (step c e l).1 ≡ some (step c e l).0.valid_upstream
unfolding step phase
step-phase c (ban_method m) l = ground arith
step-phase c _ l = ground arith

phase-append :
    (v : Bool) (a b : List Output) (w : Bool) → phase v a ≡ some w → phase v (a ++ b) ≡ phase w b
unfolding phase
phase-append v [] b w e = ap (λ x. phase x b) (some-injective v w e)
phase-append v (x ∷ a) b w e = elim (Option-cases (turn v x)) [
  | inl z ↦ let q : none ≡ some w = rw (z, phase) at e in cc
  | inr (u, z) ↦ rw (z, phase) (phase-append u a b w (rw (z, phase) at e))
]

-- In every run the removals and the returns of an upstream alternate, and between a removal and
-- the next return nothing is published: the outputs lead from the validity at the start to that
-- at the end.
pub run-phase :
    (c : Config) (es : List Input) (l : Loop)
    → phase l.valid_upstream (run c es l).1 ≡ some (run c es l).0.valid_upstream
unfolding run phase
run-phase c [] l = refl
run-phase c ((lag, e) ∷ es) l =
    let l' = record l { head_lag = not_negative lag } in
    let now = step c e l' in
    phase-append l.valid_upstream now.1 (run c es now.0).1 now.0.valid_upstream (step-phase c e l')
    ∙ run-phase c es now.0

-- A status event of a valid upstream leaves the stored status equal to the one derived from the
-- lag and the base availability, and publishes a state exactly when the status changed.
pub status-derived :
    (c : Config) (s : AvailabilityStatus) (lag : Option ℤ) (l : Loop)
    → l.valid_upstream ≡ true
    → let (l', out) = step c (status s lag) l in
      (l'.upstream_state.status ≡ status_by_lag l.head_lag l'.base_avail c.syncing_lag)
      × (out
          ≡ ite
              (status_dec l'.upstream_state.status l.upstream_state.status)
              []
              (published (state_upstream_event l'.upstream_state) ∷ []))
unfolding step
status-derived c s lag l v = ground arith
