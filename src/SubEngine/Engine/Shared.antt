-- ===== src/SubEngine/Engine/Shared.antt =====
-- internal/upstreams/flow/subengine/engine.go: the actors that run are those of the map.
use nodecore.Base.{
  ℕ, ◌<◌, false, String, List, none, some, ite, ℕ_discrete, string_dec, ◌≡◌, ◌≢◌, refl, sym, ◌∙◌,
  subst, arith, if_pos, if_neg, Option-cases, inl, inr,
}
use nodecore.Keyed.{load, store, load-store, load-delete}
use nodecore.SubEngine.Actor.{start_actor}
use nodecore.SubEngine.Actor.Kept.{IsActor}
use nodecore.SubEngine.Actor.Reached.{start_actor-IsActor}
use nodecore.SubEngine.Engine.{
  Build, built, build_failed, SourceActor, Engine, new_engine, ended_actor, put_actor,
  compare_and_delete, create, get_or_create,
}

-- A key leads to its actor, which runs; and an actor that runs is found under its key.
abbrev pub IsRegistered : Engine → String → ℕ → SourceActor → Type 0
IsRegistered e k r a =
    load string_dec k e.sources ≡ some r → (r < e.made) × (a.key ≡ k) × (a.state.done ≡ false)

abbrev pub IsFound : Engine → ℕ → SourceActor → Type 0
IsFound e r a = a.state.done ≡ false → load string_dec a.key e.sources ≡ some r

pub record IsEngine (e : Engine) : Type 0 where
  pub registered : (k : String) (r : ℕ) → IsRegistered e k r (e.actors r)
  pub found : (r : ℕ) → IsFound e r (e.actors r)
  pub actor : (r : ℕ) → IsActor (e.actors r).state

pub put_actor-every :
    (P : ℕ → SourceActor → Type 0) (r : ℕ) (a : SourceActor) (f : ℕ → SourceActor)
    → P r a
    → ((q : ℕ) → q ≢ r → P q (f q))
    → (q : ℕ) → P q (put_actor r a f q)
put_actor-every P r a f h i q = elim (ℕ_discrete q r) [
  | yes e ↦ rw (if_pos _ e) (subst (λ q. P q a) (sym e) h)
  | no n ↦ rw (if_neg _ n) (i q n)
]

pub compare_and_delete-load :
    (key k : String) (r : ℕ) (m : List (String × ℕ))
    → load string_dec key m ≡ some r
    → load string_dec k (compare_and_delete key r m)
      ≡ ite (string_dec key k) none (load string_dec k m)
unfolding compare_and_delete
compare_and_delete-load key k r m e =
    rw (compare_and_delete, e, if_pos (ℕ_discrete r r) refl) (load-delete string_dec key k m)

ended_actor-IsActor : IsActor ended_actor
ended_actor-IsActor = record {
  is_map = tt;
  subs = (tt, tt);
  counts = (refl, omega arith, refl, refl);
}

pub new_engine-IsEngine : IsEngine new_engine
unfolding load
new_engine-IsEngine = record {
  registered = λ k r e. cc;
  found = λ r d. cc;
  actor = λ r. ended_actor-IsActor;
}

pub some_of : {a b : ℕ} → some a ≡ some b → a ≡ b
some_of e = cc

module _ (key : String) (e : Engine) (h : IsEngine e)
    (n : load string_dec key e.sources ≡ none) where
  stored : List (String × ℕ)
  stored = store string_dec key e.made e.sources

  stored_self : load string_dec key stored ≡ some e.made
  unfolding stored
  stored_self =
      load-store string_dec key key e.made e.sources
      ∙ if_pos (string_dec key key) refl (some e.made) (load string_dec key e.sources)

  stored_other : (k : String) → key ≢ k → load string_dec k stored ≡ load string_dec k e.sources
  unfolding stored
  stored_other k d =
      load-store string_dec key k e.made e.sources
      ∙ if_neg (string_dec key k) d (some e.made) (load string_dec k e.sources)

  other_key : (q : ℕ) → (e.actors q).state.done ≡ false → key ≢ (e.actors q).key
  other_key q f s =
      let o = h.found q f in
      let m = sym n ∙ subst (λ k. load string_dec k e.sources ≡ some q) (sym s) o in cc

  create-built-IsEngine : (buffer : ℕ) → IsEngine (create key (built buffer) e)
  unfolding stored
  create-built-IsEngine buffer =
      let e' = create key (built buffer) e in
      let a : SourceActor = record { key = key; build_err = none; state = start_actor buffer } in
      record {
        registered = λ k.
            put_actor-every (IsRegistered e' k) e.made a e.actors
              (λ l. elim (string_dec key k) [
                | yes s ↦ (omega arith, s, refl)
                | no d ↦
                    let f = (h.registered k e.made (sym (stored_other k d) ∙ l)).0 in
                    absurd (omega (arith, f))
              ])
              (λ q d l. elim (string_dec key k) [
                | yes s ↦
                    let m = subst (λ k. load string_dec k stored ≡ some q) (sym s) l in
                    absurd (d (some_of (sym m ∙ stored_self)))
                | no d ↦
                    let f = h.registered k q (sym (stored_other k d) ∙ l) in
                    (omega (arith, f.0), f.1, f.2)
              ]);
        found =
            put_actor-every (IsFound e') e.made a e.actors (λ f. stored_self)
              (λ q d f. stored_other (e.actors q).key (other_key q f) ∙ h.found q f);
        actor =
            put_actor-every (λ _ b. IsActor b.state) e.made a e.actors (start_actor-IsActor buffer)
              (λ q _. h.actor q);
      }

  dropped : List (String × ℕ)
  dropped = compare_and_delete key e.made stored

  dropped-load :
      (k : String)
      → load string_dec k dropped ≡ ite (string_dec key k) none (load string_dec k stored)
  unfolding dropped
  dropped-load k = compare_and_delete-load key k e.made stored stored_self

  dropped_other : (k : String) → key ≢ k → load string_dec k dropped ≡ load string_dec k e.sources
  dropped_other k d =
      dropped-load k
      ∙ if_neg (string_dec key k) d none (load string_dec k stored)
      ∙ stored_other k d

  dropped_self : (k : String) → key ≡ k → load string_dec k dropped ≡ none
  dropped_self k s = dropped-load k ∙ if_pos (string_dec key k) s none (load string_dec k stored)

  dropped-some :
      (k : String) (q : ℕ)
      → load string_dec k dropped ≡ some q
      → load string_dec k e.sources ≡ some q
  dropped-some k q l = elim (string_dec key k) [
    | yes s ↦ let m = sym (dropped_self k s) ∙ l in cc
    | no d ↦ sym (dropped_other k d) ∙ l
  ]

  create-build_failed-IsEngine : (err : String) → IsEngine (create key (build_failed err) e)
  unfolding stored dropped
  create-build_failed-IsEngine err =
      let e' = create key (build_failed err) e in
      let a : SourceActor = record { key = key; build_err = some err; state = ended_actor } in
      record {
        registered = λ k.
            put_actor-every (IsRegistered e' k) e.made a e.actors
              (λ l. absurd (omega (arith, (h.registered k e.made (dropped-some k e.made l)).0)))
              (λ q d l.
                let f = h.registered k q (dropped-some k q l) in (omega (arith, f.0), f.1, f.2));
        found =
            put_actor-every (IsFound e') e.made a e.actors (λ f. cc)
              (λ q d f. dropped_other (e.actors q).key (other_key q f) ∙ h.found q f);
        actor =
            put_actor-every (λ _ b. IsActor b.state) e.made a e.actors ended_actor-IsActor
              (λ q _. h.actor q);
      }

  pub create-IsEngine : (b : Build) → IsEngine (create key b e)
  create-IsEngine (built buffer) = create-built-IsEngine buffer
  create-IsEngine (build_failed err) = create-build_failed-IsEngine err

pub get_or_create-IsEngine :
    (build : ℕ → Build) (key : String) (e : Engine)
    → IsEngine e
    → IsEngine (get_or_create build key e).1
unfolding get_or_create
get_or_create-IsEngine build key e h = elim (Option-cases (load string_dec key e.sources)) [
  | inl n ↦ rw (get_or_create, n) (create-IsEngine key e h n (build e.made))
  | inr (r, s) ↦ rw (get_or_create, s) h
]
