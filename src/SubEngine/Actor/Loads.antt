-- ===== src/SubEngine/Actor/Loads.antt =====
-- internal/upstreams/flow/subengine/engine.go: where a subscriber is found after each loop.
use nodecore.Base.{
  subst, ℕ, ◌≤◌, Bool, true, false, ◌==◌, ltb, List, [], ◌∷◌, ◌++◌, Option, none, some, length,
  ℕ_discrete, ◌≡◌, ◌≢◌, refl, inl, inr, arith, if_true, if_false, if_pos, if_neg, Bool-cases, sym,
  ap, if◌then◌else◌,
}
use nodecore.Keyed.{load, Absent, IsMap, Absent-of_load, load-of_Absent}
use nodecore.SubEngine.Actor.{
  ResponseError, ws_subscriber_too_slow_error, Subscriber, close_with, close_all, send, send_all,
  take_event, read_from,
}
use nodecore.SubEngine.Actor.Carried.{send_all-Entries}

pub load-append-none :
    (id : ℕ) (m n : List (ℕ × Subscriber))
    → load ℕ_discrete id m ≡ none
    → load ℕ_discrete id (m ++ n) ≡ load ℕ_discrete id n
unfolding load
load-append-none id [] n e = refl
load-append-none id ((j, s) ∷ m) n e = ground (arith, load-append-none id m n)

pub load-append-some :
    (id : ℕ) (s : Subscriber) (m n : List (ℕ × Subscriber))
    → load ℕ_discrete id m ≡ some s
    → load ℕ_discrete id (m ++ n) ≡ some s
unfolding load
load-append-some id s [] n e = cc
load-append-some id s ((j, u) ∷ m) n e = ground (arith, load-append-some id s m n)

pub length-load-some :
    (id : ℕ) (s : Subscriber) (m : List (ℕ × Subscriber))
    → load ℕ_discrete id m ≡ some s
    → 1 ≤ length m
unfolding load
length-load-some id s [] e = cc
length-load-some id s (x ∷ m) e = omega arith

pub load-close_all :
    (id : ℕ) (cause : ResponseError) (s : Subscriber) (m : List (ℕ × Subscriber))
    → load ℕ_discrete id m ≡ some s
    → load ℕ_discrete id (close_all cause m) ≡ some (close_with cause s)
unfolding load
load-close_all id cause s [] e = cc
load-close_all id cause s ((j, u) ∷ m) e = elim (ℕ_discrete j id) [
  | yes q ↦
      let t : some u ≡ some s = rw (if_pos _ q) at e in
      let v : u ≡ s = cc in rw (if_pos _ q) (ap (λ u. some (close_with cause u)) v)
  | no q ↦ rw (if_neg _ q) (load-close_all id cause s m (rw (if_neg _ q) at e))
]

pub load-close_all-none :
    (id : ℕ) (cause : ResponseError) (m : List (ℕ × Subscriber))
    → load ℕ_discrete id m ≡ none
    → load ℕ_discrete id (close_all cause m) ≡ none
unfolding load
load-close_all-none id cause [] e = refl
load-close_all-none id cause ((j, u) ∷ m) e = ground (arith, load-close_all-none id cause m)

-- What the client of a subscriber has read, and what it still can read.
abbrev pub seen : Subscriber → List (List ℕ)
seen s = s.read ++ s.ch

abbrev pub SeesSame : Subscriber → Subscriber → Type 0
SeesSame s s' = (seen s' ≡ seen s) × (s'.closed ≡ s.closed)

append_cons :
    (xs : List (List ℕ)) (y : List ℕ) (zs : List (List ℕ)) → (xs ++ y ∷ []) ++ zs ≡ xs ++ y ∷ zs
append_cons [] y zs = refl
append_cons (x ∷ xs) y zs = ap (λ l. x ∷ l) (append_cons xs y zs)

take_event-SeesSame :
    (read ch : List (List ℕ)) (closed : Bool) (err : Option ResponseError)
    → SeesSame
        (record { read = read; ch = ch; closed = closed; err = err })
        (take_event (record { read = read; ch = ch; closed = closed; err = err }))
take_event-SeesSame read [] closed err = (refl, refl)
take_event-SeesSame read (event ∷ ch) closed err = (append_cons read event ch, refl)

touched-SeesSame :
    (b : Bool) (s u : Subscriber)
    → some u ≡ some s
    → (s' : Subscriber) × (some (if b then take_event u else u) ≡ some s') × SeesSame s s'
touched-SeesSame true s u e =
    let q : u ≡ s = cc in
    (
      take_event u,
      refl,
      subst (λ s. SeesSame s (take_event u)) q (take_event-SeesSame u.read u.ch u.closed u.err),
    )
touched-SeesSame false s u e = let q : u ≡ s = cc in (u, refl, (ap seen q, ap (λ s. s.closed) q))

pub load-read_from :
    (id j : ℕ) (s : Subscriber) (m : List (ℕ × Subscriber))
    → load ℕ_discrete id m ≡ some s
    → (s' : Subscriber) × (load ℕ_discrete id (read_from j m) ≡ some s') × SeesSame s s'
unfolding load
load-read_from id j s [] e = cc
load-read_from id j s ((i, u) ∷ m) e = elim (ℕ_discrete i id) [
  | yes q ↦ rw (if_pos _ q) (touched-SeesSame (i == j) s u (rw (if_pos _ q) at e))
  | no q ↦ rw (if_neg _ q) (load-read_from id j s m (rw (if_neg _ q) at e))
]

pub load-read_from-none :
    (id j : ℕ) (m : List (ℕ × Subscriber))
    → load ℕ_discrete id m ≡ none
    → load ℕ_discrete id (read_from j m) ≡ none
unfolding load
load-read_from-none id j [] e = refl
load-read_from-none id j ((i, u) ∷ m) e = ground (arith, load-read_from-none id j m)

pub send_all-load-none :
    (size : ℕ) (event : List ℕ) (id : ℕ) (m : List (ℕ × Subscriber))
    → load ℕ_discrete id m ≡ none
    → (load ℕ_discrete id (send_all size event m).0 ≡ none)
      × (load ℕ_discrete id (send_all size event m).1 ≡ none)
send_all-load-none size event id m e =
    let a =
      send_all-Entries (λ j _. j ≢ id) (λ j _. j ≢ id) size event (λ j s q a. a) (λ j s a. a) m
        (Absent-of_load ℕ_discrete id m e) in
    (load-of_Absent ℕ_discrete id _ a.0, load-of_Absent ℕ_discrete id _ a.1)

-- With room in its buffer a subscriber stays in the map; else it is among those let go, closed.
pub send_all-load_room :
    (size : ℕ) (event : List ℕ) (id : ℕ) (s : Subscriber) (m : List (ℕ × Subscriber))
    → load ℕ_discrete id m ≡ some s
    → ltb (length s.ch) size ≡ true
    → load ℕ_discrete id (send_all size event m).0 ≡ some (send event s)
unfolding load send_all
send_all-load_room size event id s [] e r = cc
send_all-load_room size event id s ((j, u) ∷ m) e r = elim (ℕ_discrete j id) [
  | yes q ↦
      let t : some u ≡ some s = rw (if_pos _ q) at e in
      let v : s ≡ u = cc in
      let r' : ltb (length u.ch) size ≡ true = subst (λ u. ltb (length u.ch) size ≡ true) v r in
      rw (if_true _ _ r', if_pos (ℕ_discrete j id) q) (ap (λ u. some (send event u)) (sym v))
  | no q ↦
      let i = send_all-load_room size event id s m (rw (if_neg _ q) at e) r in
      elim (Bool-cases (ltb (length u.ch) size)) [
        | inl b ↦ rw (if_true _ _ b, if_neg (ℕ_discrete j id) q) i
        | inr b ↦ rw (if_false _ _ b) i
      ]
]

pub send_all-load_full :
    (size : ℕ) (event : List ℕ) (id : ℕ) (s : Subscriber) (m : List (ℕ × Subscriber))
    → IsMap m
    → load ℕ_discrete id m ≡ some s
    → ltb (length s.ch) size ≡ false
    → (load ℕ_discrete id (send_all size event m).0 ≡ none)
      × (load ℕ_discrete id (send_all size event m).1
          ≡ some (close_with ws_subscriber_too_slow_error s))
unfolding load send_all
send_all-load_full size event id s [] a e r = cc
send_all-load_full size event id s ((j, u) ∷ m) a e r = elim (ℕ_discrete j id) [
  | yes q ↦
      let t : some u ≡ some s = rw (if_pos _ q) at e in
      let v : s ≡ u = cc in
      let r' : ltb (length u.ch) size ≡ false = subst (λ u. ltb (length u.ch) size ≡ false) v r in
      let b : Absent id m = rw (← q) a.0 in
      rw (if_false _ _ r', if_pos (ℕ_discrete j id) q)
        (
          (send_all-load-none size event id m (load-of_Absent ℕ_discrete id m b)).0,
          ap (λ u. some (close_with ws_subscriber_too_slow_error u)) (sym v),
        )
  | no q ↦
      let i = send_all-load_full size event id s m a.1 (rw (if_neg _ q) at e) r in
      elim (Bool-cases (ltb (length u.ch) size)) [
        | inl b ↦ rw (if_true _ _ b, if_neg (ℕ_discrete j id) q) i
        | inr b ↦ rw (if_false _ _ b, if_neg (ℕ_discrete j id) q) i
      ]
]
