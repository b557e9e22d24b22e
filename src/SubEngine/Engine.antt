-- ===== src/SubEngine/Engine.antt =====
-- internal/upstreams/flow/subengine/engine.go: the actors of a chain by the key of their source. Actors
-- are shared by pointer: here by their number in `actors`, in the order in which they were made.
pub mod Shared
pub mod Handled
pub mod Built
pub mod Returned
mod Tests
use nodecore.Base.{
  ℕ, zero, suc, ◌+◌, Bool, true, false, not, ◌&&◌, ltb, String, List, [], ◌∷◌, Option, none, some,
  if◌then◌else◌, ite, ℕ_discrete, string_dec,
}
use nodecore.Keyed.{load, store, delete}
use nodecore.SubEngine.Actor.{Actor, start_actor, ActorInput, subscribe, attach, take_turn}

-- What a SourceBuilder returns: a source with its own buffer size, or an error.
pub data Build : Type 0 where
  built : ℕ → Build
  build_failed : String → Build

-- A sourceActor with the state of its goroutine; `done` is in that state.
pub record SourceActor : Type 0 where
  pub key : String
  pub build_err : Option String
  pub state : Actor

pub record Engine : Type 0 where
  pub sources : List (String × ℕ)
  pub actors : ℕ → SourceActor
  pub made : ℕ

-- An actor that takes no inputs: numbers that are not taken yet stand for it.
abbrev pub ended_actor : Actor
ended_actor = record (start_actor 0) { done = true }

abbrev pub new_engine : Engine
new_engine = record {
  sources = [];
  actors = λ _. record { key = ""; build_err = none; state = ended_actor };
  made = 0;
}

abbrev pub put_actor : ℕ → SourceActor → (ℕ → SourceActor) → ℕ → SourceActor
put_actor r a actors q = ite (ℕ_discrete q r) a (actors q)

abbrev pub put_state : ℕ → Actor → Engine → Engine
put_state r g e = record e { actors = put_actor r (record (e.actors r) { state = g }) e.actors }

-- `CompareAndDelete`.
unfoldable pub compare_and_delete : String → ℕ → List (String × ℕ) → List (String × ℕ)
compare_and_delete key r sources = elim (load string_dec key sources) [
  | none ↦ sources
  | some q ↦ ite (ℕ_discrete q r) (delete string_dec key sources) sources
]

-- The actor is stored under its key, and `run` builds its source.
abbrev pub create : String → Build → Engine → Engine
create key (built buffer) e = record {
  sources = store string_dec key e.made e.sources;
  actors =
      put_actor e.made (record { key = key; build_err = none; state = start_actor buffer })
        e.actors;
  made = suc e.made;
}
create key (build_failed err) e = record {
  sources = compare_and_delete key e.made (store string_dec key e.made e.sources);
  actors =
      put_actor e.made (record { key = key; build_err = some err; state = ended_actor }) e.actors;
  made = suc e.made;
}

-- The actor of the key, and the engine with it. The build of the n-th actor returns `build n`.
unfoldable pub get_or_create : (ℕ → Build) → String → Engine → ℕ × Engine
get_or_create build key e = elim (load string_dec key e.sources) [
  | some r ↦ (r, e)
  | none ↦ (e.made, create key (build e.made) e)
]

-- An actor takes an input, and leaves the map when it ends.
unfoldable pub take_input : ℕ × ActorInput → Engine → Engine
unfolding compare_and_delete
take_input (r, i) e =
    let a = e.actors r in
    let g = take_turn i a.state in
    let moved = put_state r g e in
    if g.done && not a.state.done
    then record moved { sources = compare_and_delete a.key r e.sources }
    else moved

unfoldable pub take_inputs : List (ℕ × ActorInput) → Engine → Engine
unfolding take_input
take_inputs [] e = e
take_inputs (x ∷ xs) e = take_inputs xs (take_input x e)

-- The number of the actor and of its new subscriber, or the error of the build.
pub data Subscribed : Type 0 where
  subscribed : ℕ → ℕ → Subscribed
  not_built : String → Subscribed

-- The loop of `Subscribe`. In each round other goroutines take some inputs between the lookup and the
-- `select`; `none` when the rounds are over.
unfoldable pub subscribe_loop :
    (ℕ → Build) → String → List (List (ℕ × ActorInput)) → Engine → Option Subscribed × Engine
unfolding get_or_create take_inputs
subscribe_loop build key [] e = (none, e)
subscribe_loop build key (others ∷ rounds) e =
    let found = get_or_create build key e in
    let r = found.0 in
    let e' = take_inputs others found.1 in
    let a = e'.actors r in
    let again = subscribe_loop build key rounds e' in
    if a.state.done
    then elim a.build_err [ none ↦ again | some err ↦ (some (not_built err), e') ]
    else (some (subscribed r (a.state.seq + 1)), take_input (r, subscribe) e')

-- Clients subscribe, and actors take inputs, in any order.
pub data EngineEvent : Type 0 where
  subscribes : String → List (List (ℕ × ActorInput)) → EngineEvent
  takes : ℕ → ActorInput → EngineEvent

unfoldable pub run_engine : (ℕ → Build) → List EngineEvent → Engine → Engine
unfolding subscribe_loop take_input
run_engine build [] e = e
run_engine build (subscribes key rounds ∷ es) e =
    run_engine build es (subscribe_loop build key rounds e).1
run_engine build (takes r i ∷ es) e = run_engine build es (take_input (r, i) e)
