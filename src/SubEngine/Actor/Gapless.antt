-- ===== src/SubEngine/Actor/Gapless.antt =====
-- internal/upstreams/flow/subengine/engine.go: no subscriber misses a message before its end.
use nodecore.Base.{
  ◌+◌, ◌⊎◌, ℕ, ◌≤◌, Bool, true, false, ◌&&◌, ◌==◌, List, [], ◌∷◌, ◌++◌, ℕ_discrete, ◌≡◌, ◌≢◌, refl,
  inl, inr, arith, sym, ◌∙◌, ap, if◌then◌else◌, subst, All,
}
use nodecore.SubEngine.Actor.{
  ws_total_failure_error, Actor, ActorInput, ctx_done, ended, subscribe, timer, message, failure,
  unsubscribe, client_read, new_subscriber, attach, select_case, take_turn, run,
}
use nodecore.SubEngine.Actor.Kept.{IsActor}
use nodecore.SubEngine.Actor.Reached.{take_turn-IsActor}
use nodecore.SubEngine.Actor.Loads.{seen}
use nodecore.SubEngine.Actor.Served.{
  Serves, held, over, let_go, messages, detaches, append_assoc, append_nil, IsPrefix-append,
  read_one-Serves, close_all-Serves, take_message-Serves, attach-Serves, detach-Serves, held_drains,
}
use nodecore.SubEngine.Actor.Kept.{IsHeld, IsLet}
use nodecore.Keyed.{load_self, load-Entries}

-- A message that a loop does not take any more.
missed-Serves :
    (id : ℕ) (event : List ℕ) (got : List (List ℕ)) (g : Actor)
    → (g.done ≡ true) ⊎ (g.draining ≡ false)
    → IsActor g
    → Serves id got g
    → Serves id (got ++ event ∷ []) g
missed-Serves id event got g (inl q) a (held s e d c h) = cc
missed-Serves id event got g (inr q) a (held s e d c h) = let r = held_drains id got g a s e in cc
missed-Serves id event got g q a (over s e d c h) =
    over s e d c (IsPrefix-append (seen s) got (event ∷ []) h)
missed-Serves id event got g q a (let_go s n e c h) =
    let_go s n e c (IsPrefix-append (seen s) got (event ∷ []) h)

known_id : (id : ℕ) (got : List (List ℕ)) (g : Actor) → IsActor g → Serves id got g → id ≤ g.seq
known_id id got g a (held s e d c h) = (load-Entries (IsHeld g) ℕ_discrete id s g.subs a.subs.0 e).0
known_id id got g a (over s e d c h) = (load-Entries (IsHeld g) ℕ_discrete id s g.subs a.subs.0 e).0
known_id id got g a (let_go s n e c h) =
    (load-Entries (IsLet g) ℕ_discrete id s g.gone a.subs.1 e).0

guarded :
    (id : ℕ) (got : List (List ℕ)) (b : Bool) (f g : Actor)
    → (b ≡ true → Serves id got f)
    → (b ≡ false → Serves id got g)
    → Serves id got (if b then f else g)
guarded id got true f g h i = h refl
guarded id got false f g h i = i refl

still : (id : ℕ) (got : List (List ℕ)) (g : Actor) → Serves id got g → Serves id (got ++ []) g
still id got g h = subst (λ l. Serves id l g) (sym (append_nil got)) h

differs : (a b : ℕ) → (a == b) ≡ false → a ≢ b
differs a b h e = ground (arith, h, e)

abbrev Carries : ℕ → List (List ℕ) → ActorInput → Actor → Type 0
Carries id got i g = Serves id (got ++ messages (i ∷ [])) (select_case i g)

select_case-Serves :
    (i : ActorInput) (id : ℕ) (got : List (List ℕ)) (g : Actor)
    → IsActor g
    → g.done ≡ false
    → detaches id i ≡ false
    → Serves id got g
    → Carries id got i g
unfolding select_case
select_case-Serves ctx_done id got g a d k h =
    still id got _ (close_all-Serves id ws_total_failure_error got g h)
select_case-Serves ended id got g a d k h = still id got _ (
    guarded id got g.draining _ g (λ e. close_all-Serves id ws_total_failure_error got g h)
      (λ e. h))
select_case-Serves (failure cause) id got g a d k h =
    still id got _ (guarded id got g.draining _ g (λ e. close_all-Serves id cause got g h) (λ e. h))
select_case-Serves (message event) id got g a d k h =
    guarded id (got ++ event ∷ []) g.draining _ g (λ e. take_message-Serves id event got g a d h)
      (λ e. missed-Serves id event got g (inr e) a h)
select_case-Serves subscribe id got g a d k h =
    still id got _ (attach-Serves id got g (known_id id got g a h) h)
select_case-Serves (unsubscribe j) id got g a d k h =
    still id got _ (detach-Serves id j got g (differs j id k) h)
select_case-Serves timer id got g a d k h = still id got _ (
    guarded id got (g.armed && g.refs == 0) _ g
      (λ e. close_all-Serves id ws_total_failure_error got g h) (λ e. h))
select_case-Serves (client_read j) id got g a d k h = still id got g h

unless_done :
    (i : ActorInput) (id : ℕ) (got : List (List ℕ)) (g : Actor)
    → IsActor g
    → detaches id i ≡ false
    → Serves id got g
    → Serves id (got ++ messages (i ∷ [])) (if g.done then g else select_case i g)
unless_done i id got g a k h =
    guarded id (got ++ messages (i ∷ [])) g.done g (select_case i g) (λ e. stays i e)
      (λ e. select_case-Serves i id got g a e k h)
  where
    stays : (i : ActorInput) → g.done ≡ true → Serves id (got ++ messages (i ∷ [])) g
    stays ctx_done e = still id got g h
    stays ended e = still id got g h
    stays subscribe e = still id got g h
    stays timer e = still id got g h
    stays (message event) e = missed-Serves id event got g (inl e) a h
    stays (failure cause) e = still id got g h
    stays (unsubscribe j) e = still id got g h
    stays (client_read j) e = still id got g h

take_turn-Serves :
    (i : ActorInput) (id : ℕ) (got : List (List ℕ)) (g : Actor)
    → IsActor g
    → detaches id i ≡ false
    → Serves id got g
    → Serves id (got ++ messages (i ∷ [])) (take_turn i g)
unfolding take_turn
take_turn-Serves (client_read j) id got g a k h = still id got _ (read_one-Serves id j got g h)
take_turn-Serves ctx_done id got g a k h = unless_done ctx_done id got g a k h
take_turn-Serves ended id got g a k h = unless_done ended id got g a k h
take_turn-Serves subscribe id got g a k h = unless_done subscribe id got g a k h
take_turn-Serves timer id got g a k h = unless_done timer id got g a k h
take_turn-Serves (message event) id got g a k h = unless_done (message event) id got g a k h
take_turn-Serves (failure cause) id got g a k h = unless_done (failure cause) id got g a k h
take_turn-Serves (unsubscribe j) id got g a k h = unless_done (unsubscribe j) id got g a k h

messages-cons :
    (i : ActorInput) (is : List ActorInput) → messages (i ∷ []) ++ messages is ≡ messages (i ∷ is)
messages-cons ctx_done is = refl
messages-cons ended is = refl
messages-cons subscribe is = refl
messages-cons timer is = refl
messages-cons (message event) is = refl
messages-cons (failure cause) is = refl
messages-cons (unsubscribe j) is = refl
messages-cons (client_read j) is = refl

pub run-Serves :
    (is : List ActorInput) (id : ℕ) (got : List (List ℕ)) (g : Actor)
    → IsActor g
    → All (λ i. detaches id i ≡ false) is
    → Serves id got g
    → Serves id (got ++ messages is) (run is g)
unfolding run
run-Serves [] id got g a k h = still id got g h
run-Serves (i ∷ is) id got g a k h =
    subst (λ l. Serves id l (run is (take_turn i g)))
      (append_assoc got (messages (i ∷ [])) (messages is) ∙ ap (λ l. got ++ l) (messages-cons i is))
      (run-Serves is id (got ++ messages (i ∷ [])) (take_turn i g) (take_turn-IsActor i g a) k.1
        (take_turn-Serves i id got g a k.0 h))

-- A subscriber that joins an actor in a state that it reaches, and is not detached, is served from
-- then on: it has read, or can still read, each message of the source in order; or its channel is
-- closed, and what it has read or can still read is all up to some message.
pub subscribe-Serves :
    (is : List ActorInput) (g : Actor)
    → IsActor g
    → g.done ≡ false
    → All (λ i. detaches (g.seq + 1) i ≡ false) is
    → Serves (g.seq + 1) (messages is) (run is (take_turn subscribe g))
unfolding take_turn select_case
subscribe-Serves is g a d k =
    run-Serves is (g.seq + 1) [] (take_turn subscribe g) (take_turn-IsActor subscribe g a) k (
      guarded (g.seq + 1) [] g.done g (attach g) (λ e. cc)
        (λ e.
          held new_subscriber (load_self ℕ_discrete (g.seq + 1) new_subscriber g.subs) d refl refl))
