-- ===== src/SubEngine/Actor/Idle.antt =====
-- internal/upstreams/flow/subengine/engine.go: the grace timer of an actor without subscribers.
use nodecore.Base.{
  ℕ, ◌-◌, ◌<◌, Bool, true, false, ◌&&◌, ◌==◌, List, [], ◌∷◌, ◌++◌, ℕ_discrete, ◌≡◌, ◌⊎◌, refl, inl,
  inr, arith, Option-cases, if◌then◌else◌, All,
}
use nodecore.Keyed.{load}
use nodecore.SubEngine.Actor.{
  Actor, ActorInput, ctx_done, ended, subscribe, timer, message, failure, unsubscribe, client_read,
  take_message, detach, select_case, take_turn, run,
}
use nodecore.SubEngine.Actor.Kept.{IsActor}

abbrev pub IsIdle : Actor → Type 0
IsIdle g = (g.done ≡ true) ⊎ ((g.refs ≡ 0) × (g.armed ≡ true))

abbrev pub attaches : ActorInput → Bool
attaches subscribe = true
attaches _ = false

guarded : (b : Bool) (f g : Actor) → IsIdle f → IsIdle g → IsIdle (if b then f else g)
guarded true f g h i = h
guarded false f g h i = i

stays_armed : (b c : Bool) → c ≡ true → (if b then true else c) ≡ true
stays_armed true c e = refl
stays_armed false c e = e

detach-IsIdle : (id : ℕ) (g : Actor) → IsIdle g → IsIdle (detach id g)
unfolding detach
detach-IsIdle id g h = elim (Option-cases (load ℕ_discrete id g.subs)) [
  | inl e ↦ rw (detach, e) h
  | inr (s, e) ↦ rw (detach, e) (idle _ h)
]
  where
    idle :
        (b : Bool)
        → IsIdle g
        → (g.done ≡ true) ⊎ ((g.refs - 1 ≡ 0) × ((if b then true else g.armed) ≡ true))
    idle b (inl d) = inl d
    idle b (inr h) = inr (omega (arith, h.0), stays_armed b g.armed h.1)

take_message-IsIdle : (event : List ℕ) (g : Actor) → IsIdle g → IsIdle (take_message event g)
unfolding take_message
take_message-IsIdle event g (inl d) = inl d
take_message-IsIdle event g (inr h) = inr (omega (arith, h.0), stays_armed _ g.armed h.1)

select_case-IsIdle :
    (i : ActorInput) (g : Actor) → attaches i ≡ false → IsIdle g → IsIdle (select_case i g)
unfolding select_case
select_case-IsIdle ctx_done g k h = inl refl
select_case-IsIdle ended g k h = guarded g.draining _ g (inl refl) h
select_case-IsIdle (failure cause) g k h = guarded g.draining _ g (inl refl) h
select_case-IsIdle (message event) g k h = guarded g.draining _ g (take_message-IsIdle event g h) h
select_case-IsIdle subscribe g k h = cc
select_case-IsIdle (unsubscribe id) g k h = detach-IsIdle id g h
select_case-IsIdle timer g k h = guarded (g.armed && g.refs == 0) _ g (inl refl) h
select_case-IsIdle (client_read id) g k h = h

take_turn-IsIdle :
    (i : ActorInput) (g : Actor) → attaches i ≡ false → IsIdle g → IsIdle (take_turn i g)
unfolding take_turn
take_turn-IsIdle (client_read id) g k h = h
take_turn-IsIdle ctx_done g k h = guarded g.done g _ h (select_case-IsIdle ctx_done g k h)
take_turn-IsIdle ended g k h = guarded g.done g _ h (select_case-IsIdle ended g k h)
take_turn-IsIdle subscribe g k h = cc
take_turn-IsIdle timer g k h = guarded g.done g _ h (select_case-IsIdle timer g k h)
take_turn-IsIdle (message event) g k h =
    guarded g.done g _ h (select_case-IsIdle (message event) g k h)
take_turn-IsIdle (failure cause) g k h =
    guarded g.done g _ h (select_case-IsIdle (failure cause) g k h)
take_turn-IsIdle (unsubscribe id) g k h =
    guarded g.done g _ h (select_case-IsIdle (unsubscribe id) g k h)

fires : (g : Actor) → IsIdle g → (take_turn timer g).done ≡ true
unfolding take_turn select_case
fires g h = ground (arith, h)

run-fires :
    (is : List ActorInput) (g : Actor)
    → All (λ i. attaches i ≡ false) is
    → IsIdle g
    → (run (is ++ timer ∷ []) g).done ≡ true
unfolding run
run-fires [] g k h = fires g h
run-fires (i ∷ is) g k h = run-fires is (take_turn i g) k.1 (take_turn-IsIdle i g k.0 h)

-- In a state that an actor reaches, when there were subscribers and none is left, the actor ends when
-- its grace timer fires, whatever comes before that and is no new subscriber.
pub run-ends :
    (is : List ActorInput) (g : Actor)
    → IsActor g
    → 0 < g.seq
    → g.refs ≡ 0
    → All (λ i. attaches i ≡ false) is
    → (run (is ++ timer ∷ []) g).done ≡ true
run-ends is g a s r k = run-fires is g k (inr (r, ground (arith, a.counts, s, r)))
