-- ===== src/SubEngine/Engine/Built.antt =====
-- internal/upstreams/flow/subengine/engine.go: an actor keeps its key, and its error is that of its build.
use nodecore.Base.{
  ℕ, not, ◌&&◌, String, List, [], ◌∷◌, none, some, string_dec, ◌≡◌, refl, sym, ◌∙◌, ap, ℕ_discrete,
  if_pos, if_true, if_false, Bool-cases, Option-cases, inl, inr,
}
use nodecore.Keyed.{load}
use nodecore.SubEngine.Actor.{start_actor, ActorInput, subscribe, take_turn}
use nodecore.SubEngine.Engine.{
  Build, built, build_failed, SourceActor, Engine, new_engine, ended_actor, put_actor, create,
  get_or_create, take_input, take_inputs, subscribe_loop, EngineEvent, subscribes, takes,
  run_engine,
}
use nodecore.SubEngine.Engine.Shared.{IsEngine, put_actor-every}

-- What lookups and inputs keep, `Subscribe` and every run keep.
module _ (build : ℕ → Build) (P : Engine → Type 0)
    (made : (key : String) (e : Engine) → P e → P (get_or_create build key e).1)
    (taken : (x : ℕ × ActorInput) (e : Engine) → P e → P (take_input x e)) where
  take_inputs_keeps : (xs : List (ℕ × ActorInput)) (e : Engine) → P e → P (take_inputs xs e)
  unfolding take_inputs
  take_inputs_keeps [] e h = h
  take_inputs_keeps (x ∷ xs) e h = take_inputs_keeps xs (take_input x e) (taken x e h)

  subscribe_loop_keeps :
      (key : String) (rounds : List (List (ℕ × ActorInput))) (e : Engine)
      → P e
      → P (subscribe_loop build key rounds e).1
  unfolding subscribe_loop
  subscribe_loop_keeps key [] e h = h
  subscribe_loop_keeps key (others ∷ rounds) e h =
      let found = get_or_create build key e in
      let e' = take_inputs others found.1 in
      let a = e'.actors found.0 in
      let h' = take_inputs_keeps others found.1 (made key e h) in
      elim (Bool-cases a.state.done) [
        | inr d ↦ rw (if_false _ _ d) (taken (found.0, subscribe) e' h')
        | inl d ↦ elim (Option-cases a.build_err) [
          | inl n ↦ rw (if_true _ _ d, n) (subscribe_loop_keeps key rounds e' h')
          | inr (err, s) ↦ rw (if_true _ _ d, s) h'
        ]
      ]

  pub run_engine_keeps : (es : List EngineEvent) (e : Engine) → P e → P (run_engine build es e)
  unfolding run_engine
  run_engine_keeps [] e h = h
  run_engine_keeps (subscribes key rounds ∷ es) e h =
      run_engine_keeps es (subscribe_loop build key rounds e).1
        (subscribe_loop_keeps key rounds e h)
  run_engine_keeps (takes r i ∷ es) e h =
      run_engine_keeps es (take_input (r, i) e) (taken (r, i) e h)

-- The error of the r-th actor is that of the r-th build.
abbrev pub IsFromBuild : (ℕ → Build) → ℕ → SourceActor → Type 0
IsFromBuild build r a = (err : String) → a.build_err ≡ some err → build r ≡ build_failed err

abbrev pub AreFromBuild : (ℕ → Build) → Engine → Type 0
AreFromBuild build e = (r : ℕ) → IsFromBuild build r (e.actors r)

pub new_engine-AreFromBuild : (build : ℕ → Build) → AreFromBuild build new_engine
new_engine-AreFromBuild build r err s = cc

create-AreFromBuild :
    (build : ℕ → Build) (key : String) (b : Build) (e : Engine)
    → build e.made ≡ b
    → AreFromBuild build e
    → AreFromBuild build (create key b e)
create-AreFromBuild build key (built buffer) e q h =
    put_actor-every (IsFromBuild build) e.made
      (record { key = key; build_err = none; state = start_actor buffer }) e.actors (λ err s. cc)
      (λ r n. h r)
create-AreFromBuild build key (build_failed failed) e q h =
    put_actor-every (IsFromBuild build) e.made
      (record { key = key; build_err = some failed; state = ended_actor }) e.actors
      (λ err s. let t : failed ≡ err = cc s in q ∙ ap build_failed t) (λ r n. h r)

pub get_or_create-AreFromBuild :
    (build : ℕ → Build) (key : String) (e : Engine)
    → AreFromBuild build e
    → AreFromBuild build (get_or_create build key e).1
unfolding get_or_create
get_or_create-AreFromBuild build key e h = elim (Option-cases (load string_dec key e.sources)) [
  | inl n ↦ rw (get_or_create, n) (create-AreFromBuild build key (build e.made) e refl h)
  | inr (r, s) ↦ rw (get_or_create, s) h
]

-- Another state of the same actor.
abbrev pub IsSame : SourceActor → SourceActor → Type 0
IsSame a b = (b.key ≡ a.key) × (b.build_err ≡ a.build_err)

pub take_input-actors :
    (r : ℕ) (i : ActorInput) (e : Engine)
    → (take_input (r, i) e).actors
      ≡ put_actor r (record (e.actors r) { state = take_turn i (e.actors r).state }) e.actors
unfolding take_input
take_input-actors r i e =
    let g = take_turn i (e.actors r).state in
    elim (Bool-cases (g.done && not (e.actors r).state.done)) [
      | inl b ↦ rw (if_true _ _ b) refl
      | inr b ↦ rw (if_false _ _ b) refl
    ]

pub take_input-IsSame :
    (r : ℕ) (i : ActorInput) (e : Engine) (q : ℕ)
    → IsSame (e.actors q) ((take_input (r, i) e).actors q)
take_input-IsSame r i e q = rw (take_input-actors r i e) (
    put_actor-every (λ q b. IsSame (e.actors q) b) r
      (record (e.actors r) { state = take_turn i (e.actors r).state }) e.actors (refl, refl)
      (λ q n. (refl, refl)) q)

pub take_inputs-IsSame :
    (xs : List (ℕ × ActorInput)) (e : Engine) (q : ℕ)
    → IsSame (e.actors q) ((take_inputs xs e).actors q)
unfolding take_inputs
take_inputs-IsSame [] e q = (refl, refl)
take_inputs-IsSame ((r, i) ∷ xs) e q =
    let now = take_input-IsSame r i e q in
    let rest = take_inputs-IsSame xs (take_input (r, i) e) q in (rest.0 ∙ now.0, rest.1 ∙ now.1)

pub take_input-AreFromBuild :
    (build : ℕ → Build) (x : ℕ × ActorInput) (e : Engine)
    → AreFromBuild build e
    → AreFromBuild build (take_input x e)
take_input-AreFromBuild build (r, i) e h q err s = h q err (sym (take_input-IsSame r i e q).1 ∙ s)

pub take_inputs-AreFromBuild :
    (build : ℕ → Build) (xs : List (ℕ × ActorInput)) (e : Engine)
    → AreFromBuild build e
    → AreFromBuild build (take_inputs xs e)
take_inputs-AreFromBuild build xs e h q err s = h q err (sym (take_inputs-IsSame xs e q).1 ∙ s)

pub put_self : (r : ℕ) (a : SourceActor) (f : ℕ → SourceActor) → put_actor r a f r ≡ a
put_self r a f = if_pos (ℕ_discrete r r) refl a (f r)

create-key : (key : String) (b : Build) (e : Engine) → ((create key b e).actors e.made).key ≡ key
create-key key (built buffer) e =
    ap (λ a. a.key)
      (put_self e.made (record { key = key; build_err = none; state = start_actor buffer })
        e.actors)
create-key key (build_failed err) e =
    ap (λ a. a.key)
      (put_self e.made (record { key = key; build_err = some err; state = ended_actor }) e.actors)

-- The actor that a lookup finds or makes has the key.
pub get_or_create-key :
    (build : ℕ → Build) (key : String) (e : Engine)
    → IsEngine e
    → ((get_or_create build key e).1.actors (get_or_create build key e).0).key ≡ key
unfolding get_or_create
get_or_create-key build key e h = elim (Option-cases (load string_dec key e.sources)) [
  | inl n ↦ rw (get_or_create, n) (create-key key (build e.made) e)
  | inr (r, s) ↦ rw (get_or_create, s) (h.registered key r s).1
]
