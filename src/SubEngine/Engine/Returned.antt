-- ===== src/SubEngine/Engine/Returned.antt =====
-- internal/upstreams/flow/subengine/engine.go: what `Subscribe` returns, and that it returns.
use nodecore.Base.{
  ℕ, ◌+◌, true, false, String, List, [], ◌∷◌, ◌++◌, Option, none, some, ℕ_discrete, string_dec, ◌≡◌,
  ◌≢◌, ◌⊎◌, sym, ◌∙◌, if_true, if_false, Bool-cases, Option-cases, inl, inr, ap,
}
use nodecore.Keyed.{load, load_self}
use nodecore.SubEngine.Actor.{
  start_actor, ActorInput, subscribe, attach, select_case, take_turn, new_subscriber,
}
use nodecore.SubEngine.Engine.{
  Build, built, build_failed, SourceActor, Engine, new_engine, ended_actor, create, get_or_create,
  take_input, take_inputs, Subscribed, subscribed, not_built, subscribe_loop, EngineEvent,
  run_engine,
}
use nodecore.SubEngine.Engine.Shared.{
  IsEngine, new_engine-IsEngine, get_or_create-IsEngine, some_of,
}
use nodecore.SubEngine.Engine.Built.{
  AreFromBuild, run_engine_keeps, new_engine-AreFromBuild, get_or_create-AreFromBuild,
  take_input-AreFromBuild, take_inputs-AreFromBuild, take_input-actors, take_input-IsSame,
  take_inputs-IsSame, get_or_create-key, put_self,
}
use nodecore.SubEngine.Engine.Handled.{take_input-IsEngine, take_inputs-IsEngine}

reached-IsEngine :
    (build : ℕ → Build) (es : List EngineEvent) → IsEngine (run_engine build es new_engine)
reached-IsEngine build es =
    run_engine_keeps build IsEngine (get_or_create-IsEngine build)
      (λ x e h. take_input-IsEngine x.0 x.1 e h) es new_engine new_engine-IsEngine

reached-AreFromBuild :
    (build : ℕ → Build) (es : List EngineEvent)
    → AreFromBuild build (run_engine build es new_engine)
reached-AreFromBuild build es =
    run_engine_keeps build (AreFromBuild build) (get_or_create-AreFromBuild build)
      (take_input-AreFromBuild build) es new_engine (new_engine-AreFromBuild build)

abbrev pub IsRunning : Engine → ℕ → Type 0
IsRunning e r = (e.actors r).state.done ≡ false

-- In every state of the engine, while an actor runs every other actor of its key has ended: identical
-- subscriptions share one source.
pub run_engine-shares :
    (build : ℕ → Build) (es : List EngineEvent) (p q : ℕ)
    → IsRunning (run_engine build es new_engine) p
    → ((run_engine build es new_engine).actors p).key
      ≡ ((run_engine build es new_engine).actors q).key
    → p ≢ q
    → ((run_engine build es new_engine).actors q).state.done ≡ true
run_engine-shares build es p q l s n =
    let e = run_engine build es new_engine in
    let i = reached-IsEngine build es in
    elim (Bool-cases (e.actors q).state.done) [
      | inl d ↦ d
      | inr m ↦
          absurd (
            n (some_of (sym (i.found p l) ∙ ap (λ k. load string_dec k e.sources) s ∙ i.found q m)))
    ]

-- The actor that the lookup finds runs, or its build has failed.
abbrev IsUsable : ℕ × Engine → Type 0
IsUsable (r, e) =
    ((e.actors r).state.done ≡ false) ⊎ ((err : String) × ((e.actors r).build_err ≡ some err))

create-IsUsable : (key : String) (b : Build) (e : Engine) → IsUsable (e.made, create key b e)
create-IsUsable key (built buffer) e = inl (
    ap (λ a. a.state.done)
      (put_self e.made (record { key = key; build_err = none; state = start_actor buffer })
        e.actors))
create-IsUsable key (build_failed err) e = inr (
  err,
  ap (λ a. a.build_err)
      (put_self e.made (record { key = key; build_err = some err; state = ended_actor }) e.actors),
)

get_or_create-IsUsable :
    (build : ℕ → Build) (key : String) (e : Engine)
    → IsEngine e
    → IsUsable (get_or_create build key e)
unfolding get_or_create
get_or_create-IsUsable build key e h = elim (Option-cases (load string_dec key e.sources)) [
  | inl n ↦ rw (get_or_create, n) (create-IsUsable key (build e.made) e)
  | inr (r, s) ↦ rw (get_or_create, s) (inl (h.registered key r s).2)
]

-- `Subscribe` has returned: a new subscriber of a running actor of the key, or the error of the build
-- of an actor of the key.
abbrev pub HasReturned : (ℕ → Build) → String → Option Subscribed × Engine → Type 0
HasReturned build key (none, e) = ⊥
HasReturned build key (some (subscribed r id), e) =
    ((e.actors r).key ≡ key)
    × ((e.actors r).state.done ≡ false)
    × (load ℕ_discrete id (e.actors r).state.subs ≡ some new_subscriber)
HasReturned build key (some (not_built err), e) =
    (r : ℕ) × ((e.actors r).key ≡ key)
    × ((e.actors r).build_err ≡ some err)
    × (build r ≡ build_failed err)

take_input-state :
    (r : ℕ) (i : ActorInput) (e : Engine)
    → ((take_input (r, i) e).actors r).state ≡ take_turn i (e.actors r).state
take_input-state r i e =
    ap (λ f. (f r).state) (take_input-actors r i e)
    ∙ ap (λ a. a.state)
        (put_self r (record (e.actors r) { state = take_turn i (e.actors r).state }) e.actors)

attached-HasReturned :
    (build : ℕ → Build) (key : String) (r : ℕ) (e : Engine)
    → (e.actors r).key ≡ key
    → (e.actors r).state.done ≡ false
    → HasReturned build key
        (some (subscribed r ((e.actors r).state.seq + 1)), take_input (r, subscribe) e)
unfolding take_turn select_case
attached-HasReturned build key r e k d =
    let g = (e.actors r).state in
    let s = take_input-state r subscribe e ∙ if_false g (attach g) d in
    (
      (take_input-IsSame r subscribe e r).0 ∙ k,
      ap (λ s. s.done) s ∙ d,
      ap (λ s. load ℕ_discrete (g.seq + 1) s.subs) s
          ∙ load_self ℕ_discrete (g.seq + 1) new_subscriber g.subs,
    )

module _ (build : ℕ → Build) (key : String) where
  -- The engine at the `select` of a round, and the actor that the round has looked up.
  abbrev at_select : List (ℕ × ActorInput) → Engine → Engine
  at_select others e = take_inputs others (get_or_create build key e).1

  abbrev looked_up : List (ℕ × ActorInput) → Engine → SourceActor
  looked_up others e = (at_select others e).actors (get_or_create build key e).0

  looked_up-key :
      (others : List (ℕ × ActorInput)) (e : Engine) → IsEngine e → (looked_up others e).key ≡ key
  looked_up-key others e h =
      let found = get_or_create build key e in
      (take_inputs-IsSame others found.1 found.0).0 ∙ get_or_create-key build key e h

  at_select-AreFromBuild :
      (others : List (ℕ × ActorInput)) (e : Engine)
      → AreFromBuild build e
      → AreFromBuild build (at_select others e)
  at_select-AreFromBuild others e h =
      take_inputs-AreFromBuild build others (get_or_create build key e).1
        (get_or_create-AreFromBuild build key e h)

  round-HasReturned :
      (others : List (ℕ × ActorInput)) (rounds : List (List (ℕ × ActorInput))) (e : Engine)
      → IsEngine e
      → AreFromBuild build e
      → ((looked_up others e).state.done ≡ true
          → (looked_up others e).build_err ≡ none
          → HasReturned build key (subscribe_loop build key rounds (at_select others e)))
      → HasReturned build key (subscribe_loop build key (others ∷ rounds) e)
  unfolding subscribe_loop
  round-HasReturned others rounds e h b again =
      let a = looked_up others e in
      elim (Bool-cases a.state.done) [
        | inr d ↦ rw (if_false _ _ d) (
            attached-HasReturned build key (get_or_create build key e).0 (at_select others e)
              (looked_up-key others e h) d)
        | inl d ↦ elim (Option-cases a.build_err) [
          | inl n ↦ rw (if_true _ _ d, n) (again d n)
          | inr (err, s) ↦
              rw (if_true _ _ d, s)
                (
                  (get_or_create build key e).0,
                  looked_up-key others e h,
                  s,
                  at_select-AreFromBuild others e b (get_or_create build key e).0 err s,
                )
        ]
      ]

  not_again :
      (e : Engine)
      → IsUsable (get_or_create build key e)
      → (looked_up [] e).state.done ≡ true
      → (looked_up [] e).build_err ≡ none
      → ⊥
  unfolding take_inputs
  not_again e (inl r) d n = cc
  not_again e (inr (err, s)) d n = cc

  loop-HasReturned :
      (rounds : List (List (ℕ × ActorInput))) (e : Engine)
      → IsEngine e
      → AreFromBuild build e
      → HasReturned build key (subscribe_loop build key (rounds ++ [] ∷ []) e)
  loop-HasReturned [] e h b =
      round-HasReturned [] [] e h b
        (λ d n. absurd (not_again e (get_or_create-IsUsable build key e h) d n))
  loop-HasReturned (others ∷ rounds) e h b =
      round-HasReturned others (rounds ++ [] ∷ []) e h b (λ d n.
        loop-HasReturned rounds (at_select others e)
          (take_inputs-IsEngine others (get_or_create build key e).1
            (get_or_create-IsEngine build key e h))
          (at_select-AreFromBuild others e b))

-- In every state of the engine, and whatever others do in any number of rounds, `Subscribe` has returned
-- by the first round in which nobody else acts between its lookup and its `select`: with a new
-- subscriber that a running actor of its key holds, or with the error with which the build of an
-- actor of its key has failed.
pub subscribe_loop-HasReturned :
    (build : ℕ → Build) (key : String) (es : List EngineEvent)
    (rounds : List (List (ℕ × ActorInput)))
    → HasReturned build key
        (subscribe_loop build key (rounds ++ [] ∷ []) (run_engine build es new_engine))
subscribe_loop-HasReturned build key es rounds =
    loop-HasReturned build key rounds (run_engine build es new_engine) (reached-IsEngine build es)
      (reached-AreFromBuild build es)
