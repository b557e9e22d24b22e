-- ===== src/SubEngine/Actor/Served.antt =====
-- internal/upstreams/flow/subengine/engine.go: what the client of a subscriber gets to see.
use nodecore.Base.{
  ◌-◌, ℕ, ◌+◌, ◌≤◌, Bool, true, false, ◌==◌, ltb, List, [], ◌∷◌, ◌++◌, none, some, length,
  ℕ_discrete, ◌≡◌, ◌≢◌, refl, inl, inr, arith, if_neg, Bool-cases, Option-cases, sym, ◌∙◌, ap,
  subst,
}
use nodecore.Keyed.{load, delete, load-delete, load_later}
use nodecore.SubEngine.Actor.{
  ResponseError, ws_subscriber_too_slow_error, Subscriber, close_with, close_all, send, send_all,
  Actor, ActorInput, message, unsubscribe, take_message, attach, detach, arm_if_idle, read_one,
}
use nodecore.SubEngine.Actor.Kept.{IsActor}
use nodecore.SubEngine.Actor.Loads.{
  seen, load-append-none, load-append-some, length-load-some, load-close_all, load-close_all-none,
  load-read_from, load-read_from-none, send_all-load-none, send_all-load_room, send_all-load_full,
}

abbrev pub IsPrefix : List (List ℕ) → List (List ℕ) → Type 0
IsPrefix xs ys = (zs : List (List ℕ)) × (xs ++ zs ≡ ys)

-- The subscriber is held and has been sent all of `got`, or its channel is closed and it has been
-- sent a part of `got` that leaves nothing out before its end.
pub data Serves (id : ℕ) (got : List (List ℕ)) (g : Actor) : Type 0 where
  held :
      (s : Subscriber)
      → load ℕ_discrete id g.subs ≡ some s
      → g.done ≡ false
      → s.closed ≡ false
      → seen s ≡ got
      → Serves id got g
  over :
      (s : Subscriber)
      → load ℕ_discrete id g.subs ≡ some s
      → g.done ≡ true
      → s.closed ≡ true
      → IsPrefix (seen s) got
      → Serves id got g
  let_go :
      (s : Subscriber)
      → load ℕ_discrete id g.subs ≡ none
      → load ℕ_discrete id g.gone ≡ some s
      → s.closed ≡ true
      → IsPrefix (seen s) got
      → Serves id got g

-- The messages of the source among the inputs, and the inputs that detach a subscriber.
abbrev pub messages : List ActorInput → List (List ℕ)
messages [] = []
messages (message event ∷ is) = event ∷ messages is
messages (_ ∷ is) = messages is

abbrev pub detaches : ℕ → ActorInput → Bool
detaches id (unsubscribe j) = j == id
detaches id _ = false

pub append_assoc : (xs ys zs : List (List ℕ)) → (xs ++ ys) ++ zs ≡ xs ++ (ys ++ zs)
append_assoc [] ys zs = refl
append_assoc (x ∷ xs) ys zs = ap (λ l. x ∷ l) (append_assoc xs ys zs)

pub IsPrefix-append : (xs ys zs : List (List ℕ)) → IsPrefix xs ys → IsPrefix xs (ys ++ zs)
IsPrefix-append xs ys zs (r, e) = (r ++ zs, sym (append_assoc xs r zs) ∙ ap (λ l. l ++ zs) e)

pub append_nil : (xs : List (List ℕ)) → xs ++ [] ≡ xs
append_nil [] = refl
append_nil (x ∷ xs) = ap (λ l. x ∷ l) (append_nil xs)

pub read_one-Serves :
    (id j : ℕ) (got : List (List ℕ)) (g : Actor) → Serves id got g → Serves id got (read_one j g)
read_one-Serves id j got g (held s e d c h) =
    let r = load-read_from id j s g.subs e in held r.0 r.1 d (r.2.1 ∙ c) (r.2.0 ∙ h)
read_one-Serves id j got g (over s e d c h) =
    let r = load-read_from id j s g.subs e in
    over r.0 r.1 d (r.2.1 ∙ c) (subst (λ l. IsPrefix l got) (sym r.2.0) h)
read_one-Serves id j got g (let_go s n e c h) =
    let r = load-read_from id j s g.gone e in
    let_go r.0 (load-read_from-none id j g.subs n) r.1 (r.2.1 ∙ c)
      (subst (λ l. IsPrefix l got) (sym r.2.0) h)

pub close_all-Serves :
    (id : ℕ) (cause : ResponseError) (got : List (List ℕ)) (g : Actor)
    → Serves id got g
    → Serves id got (record g { subs = close_all cause g.subs; done = true })
close_all-Serves id cause got g (held s e d c h) =
    over (close_with cause s) (load-close_all id cause s g.subs e) refl refl
      ([], append_nil (seen s) ∙ h)
close_all-Serves id cause got g (over s e d c h) =
    over (close_with cause s) (load-close_all id cause s g.subs e) refl refl h
close_all-Serves id cause got g (let_go s n e c h) =
    let_go s (load-close_all-none id cause g.subs n) e c h

pub take_message-Serves :
    (id : ℕ) (event : List ℕ) (got : List (List ℕ)) (g : Actor)
    → IsActor g
    → g.done ≡ false
    → Serves id got g
    → Serves id (got ++ event ∷ []) (take_message event g)
unfolding take_message
take_message-Serves id event got g a d (held s e _ c h) =
    elim (Bool-cases (ltb (length s.ch) g.buf_size)) [
      | inl r ↦
          held (send event s) (send_all-load_room g.buf_size event id s g.subs e r) d c
            (sym (append_assoc s.read s.ch (event ∷ [])) ∙ ap (λ l. l ++ event ∷ []) h)
      | inr r ↦
          let f = send_all-load_full g.buf_size event id s g.subs a.is_map e r in
          let_go (close_with ws_subscriber_too_slow_error s) f.0
            (load-append-some id _ (send_all g.buf_size event g.subs).1 g.gone f.1) refl
            (event ∷ [], ap (λ l. l ++ event ∷ []) h)
    ]
take_message-Serves id event got g a d (over s e d' c h) = cc
take_message-Serves id event got g a d (let_go s n e c h) =
    let f = send_all-load-none g.buf_size event id g.subs n in
    let_go s f.0 (load-append-none id (send_all g.buf_size event g.subs).1 g.gone f.1 ∙ e) c
      (IsPrefix-append (seen s) got (event ∷ []) h)

pub attach-Serves :
    (id : ℕ) (got : List (List ℕ)) (g : Actor)
    → id ≤ g.seq
    → Serves id got g
    → Serves id got (attach g)
attach-Serves id got g k (held s e d c h) =
    held s (load_later ℕ_discrete id (g.seq + 1) _ g.subs (λ q. omega (arith, q)) ∙ e) d c h
attach-Serves id got g k (over s e d c h) =
    over s (load_later ℕ_discrete id (g.seq + 1) _ g.subs (λ q. omega (arith, q)) ∙ e) d c h
attach-Serves id got g k (let_go s n e c h) =
    let_go s (load_later ℕ_discrete id (g.seq + 1) _ g.subs (λ q. omega (arith, q)) ∙ n) e c h

-- The state after a detach of a subscriber that is in the map.
abbrev without : ℕ → Subscriber → Actor → Actor
without j u g =
    arm_if_idle
      (record g { subs = delete ℕ_discrete j g.subs; gone = (j, u) ∷ g.gone; refs = g.refs - 1 })

load-delete_ne :
    (id j : ℕ) (m : List (ℕ × Subscriber))
    → j ≢ id
    → load ℕ_discrete id (delete ℕ_discrete j m) ≡ load ℕ_discrete id m
load-delete_ne id j m k =
    load-delete ℕ_discrete j id m ∙ if_neg (ℕ_discrete j id) k none (load ℕ_discrete id m)

without-Serves :
    (id j : ℕ) (u : Subscriber) (got : List (List ℕ)) (g : Actor)
    → j ≢ id
    → Serves id got g
    → Serves id got (without j u g)
without-Serves id j u got g k (held s e d c h) = held s (load-delete_ne id j g.subs k ∙ e) d c h
without-Serves id j u got g k (over s e d c h) = over s (load-delete_ne id j g.subs k ∙ e) d c h
without-Serves id j u got g k (let_go s n e c h) =
    let_go s (load-delete_ne id j g.subs k ∙ n) (load_later ℕ_discrete id j u g.gone k ∙ e) c h

pub detach-Serves :
    (id j : ℕ) (got : List (List ℕ)) (g : Actor)
    → j ≢ id
    → Serves id got g
    → Serves id got (detach j g)
unfolding detach
detach-Serves id j got g k h = elim (Option-cases (load ℕ_discrete j g.subs)) [
  | inl e ↦ rw (detach, e) h
  | inr (u, e) ↦ rw (detach, e) (without-Serves id j u got g k h)
]

-- A subscriber that has been served is in the map while the actor runs and thus the source is drained.
pub held_drains :
    (id : ℕ) (got : List (List ℕ)) (g : Actor)
    → IsActor g
    → (s : Subscriber) → load ℕ_discrete id g.subs ≡ some s
    → g.draining ≡ true
held_drains id got g a s e = ground (arith, a.counts, length-load-some id s g.subs e)
