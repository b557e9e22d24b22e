-- ===== src/SubEngine/Engine/Handled.antt =====
-- internal/upstreams/flow/subengine/engine.go: the inputs of the actors, and the loop of `Subscribe`.
use nodecore.Base.{
  ℕ, Bool, true, false, not, ◌&&◌, String, List, [], ◌∷◌, none, some, string_dec, ◌≡◌, ◌≢◌, sym,
  ◌∙◌, subst, arith, if_pos, if_neg, if_true, if_false, Bool-cases, inl, inr,
}
use nodecore.Keyed.{load}
use nodecore.SubEngine.Actor.{
  Actor, ActorInput, ctx_done, ended, subscribe, timer, message, failure, unsubscribe, client_read,
  take_turn,
}
use nodecore.SubEngine.Actor.Kept.{IsActor}
use nodecore.SubEngine.Actor.Reached.{take_turn-IsActor}
use nodecore.SubEngine.Engine.{Engine, put_state, compare_and_delete, take_input, take_inputs}
use nodecore.SubEngine.Engine.Shared.{
  IsEngine, IsRegistered, IsFound, put_actor-every, compare_and_delete-load, some_of,
}

-- An actor that has ended stays so.
take_turn-done : (i : ActorInput) (g : Actor) → g.done ≡ true → (take_turn i g).done ≡ true
unfolding take_turn
take_turn-done (client_read id) g d = d
take_turn-done ctx_done g d = rw (if_true g _ d) d
take_turn-done ended g d = rw (if_true g _ d) d
take_turn-done subscribe g d = rw (if_true g _ d) d
take_turn-done timer g d = rw (if_true g _ d) d
take_turn-done (message event) g d = rw (if_true g _ d) d
take_turn-done (failure cause) g d = rw (if_true g _ d) d
take_turn-done (unsubscribe id) g d = rw (if_true g _ d) d

take_turn-running : (i : ActorInput) (g : Actor) → (take_turn i g).done ≡ false → g.done ≡ false
take_turn-running i g r = elim (Bool-cases g.done) [
  | inl d ↦ let e = sym r ∙ take_turn-done i g d in cc
  | inr d ↦ d
]

-- What is found after a delete was there before, under another key.
compare_and_delete-some :
    (key k : String) (r q : ℕ) (m : List (String × ℕ))
    → load string_dec key m ≡ some r
    → load string_dec k (compare_and_delete key r m) ≡ some q
    → (key ≢ k) × (load string_dec k m ≡ some q)
compare_and_delete-some key k r q m e l =
    let f = compare_and_delete-load key k r m e in
    elim (string_dec key k) [
      | yes s ↦ let n = sym l ∙ f ∙ if_pos (string_dec key k) s none (load string_dec k m) in cc
      | no d ↦ (d, sym (f ∙ if_neg (string_dec key k) d none (load string_dec k m)) ∙ l)
    ]

false_and : (a b : Bool) → a ≡ false → (a && b) ≡ false
false_and a b e = ground (arith, e)

and_not-true : (a b : Bool) → b ≡ true → (a && not b) ≡ false
and_not-true a b e = ground (arith, e)

and_not-false : (a b : Bool) → a ≡ true → b ≡ false → (a && not b) ≡ true
and_not-false a b e f = ground (arith, e, f)

module _ (r : ℕ) (i : ActorInput) (e : Engine) (h : IsEngine e) where
  after : Actor
  after = take_turn i (e.actors r).state

  moved : Engine
  moved = put_state r after e

  every-IsActor : (q : ℕ) → IsActor (moved.actors q).state
  unfolding moved after
  every-IsActor =
      put_actor-every (λ _ b. IsActor b.state) r (record (e.actors r) { state = after }) e.actors
        (take_turn-IsActor i (e.actors r).state (h.actor r)) (λ q _. h.actor q)

  -- The actor has not ended with this input.
  moved-IsEngine : ((e.actors r).state.done ≡ false → after.done ≡ false) → IsEngine moved
  unfolding moved after
  moved-IsEngine f = record {
    registered = λ k.
        put_actor-every (IsRegistered moved k) r (record (e.actors r) { state = after }) e.actors
          (λ l. let g = h.registered k r l in (g.0, g.1, f g.2)) (λ q d. h.registered k q);
    found =
        put_actor-every (IsFound moved) r (record (e.actors r) { state = after }) e.actors
          (λ d. h.found r (take_turn-running i (e.actors r).state d)) (λ q d. h.found q);
    actor = every-IsActor;
  }

  ended_with : Engine
  ended_with = record moved { sources = compare_and_delete (e.actors r).key r e.sources }

  ended-IsEngine : (e.actors r).state.done ≡ false → after.done ≡ true → IsEngine ended_with
  unfolding moved after ended_with
  ended-IsEngine d a =
      let key = (e.actors r).key in
      let s = h.found r d in
      record {
        registered = λ k.
            put_actor-every (IsRegistered ended_with k) r (record (e.actors r) { state = after })
              e.actors
              (λ m.
                let c = compare_and_delete-some key k r r e.sources s m in
                absurd (c.0 (h.registered k r c.1).1))
              (λ q n m. h.registered k q (compare_and_delete-some key k r q e.sources s m).1);
        found =
            put_actor-every (IsFound ended_with) r (record (e.actors r) { state = after }) e.actors
              (λ f. let t = sym f ∙ a in cc)
              (λ q n f.
                let o = h.found q f in
                let other : key ≢ (e.actors q).key = λ c. n (
                  some_of
                    (sym (subst (λ k. load string_dec k e.sources ≡ some q) (sym c) o) ∙ s)) in
                compare_and_delete-load key (e.actors q).key r e.sources s
                ∙ if_neg (string_dec key (e.actors q).key) other none
                    (load string_dec (e.actors q).key e.sources)
                ∙ o);
        actor = every-IsActor;
      }

  pub take_input-IsEngine : IsEngine (take_input (r, i) e)
  unfolding take_input moved after ended_with
  take_input-IsEngine = elim (Bool-cases (take_turn i (e.actors r).state).done) [
    | inr a ↦ rw (if_false _ _ (false_and _ _ a)) (moved-IsEngine (λ d. a))
    | inl a ↦ elim (Bool-cases (e.actors r).state.done) [
      | inl d ↦
          rw (if_false _ _ (and_not-true _ _ d)) (moved-IsEngine (λ f. let t = sym f ∙ d in cc))
      | inr d ↦ rw (if_true _ _ (and_not-false _ _ a d)) (ended-IsEngine d a)
    ]
  ]

pub take_inputs-IsEngine :
    (xs : List (ℕ × ActorInput)) (e : Engine) → IsEngine e → IsEngine (take_inputs xs e)
unfolding take_inputs
take_inputs-IsEngine [] e h = h
take_inputs-IsEngine ((r, i) ∷ xs) e h =
    take_inputs-IsEngine xs (take_input (r, i) e) (take_input-IsEngine r i e h)
