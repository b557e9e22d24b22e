-- ===== src/SubEngine/Actor/Carried.antt =====
-- internal/upstreams/flow/subengine/engine.go: what the loops over the subscribers of an actor keep.
use nodecore.Base.{
  ℕ, suc, ◌+◌, true, ◌==◌, ltb, List, [], ◌∷◌, ◌++◌, some, length, ℕ_discrete, ◌≡◌, ◌≢◌, refl, inl,
  inr, arith, if_true, if_false, if_pos, if_neg, Bool-cases, ap,
}
use nodecore.Keyed.{load, delete, Entries, Absent, IsMap}
use nodecore.SubEngine.Actor.{
  ResponseError, ws_subscriber_too_slow_error, Subscriber, close_with, close_all, send, send_all,
  take_event, read_from,
}

pub append-Entries :
    (P : ℕ → Subscriber → Type 0) (m n : List (ℕ × Subscriber))
    → Entries P m
    → Entries P n
    → Entries P (m ++ n)
append-Entries P [] n h i = i
append-Entries P (x ∷ m) n h i = (h.0, append-Entries P m n h.1 i)

pub length-send_all :
    (size : ℕ) (event : List ℕ) (m : List (ℕ × Subscriber))
    → length (send_all size event m).0 + length (send_all size event m).1 ≡ length m
unfolding send_all
length-send_all size event [] = refl
length-send_all size event ((id, s) ∷ m) = ground (arith, length-send_all size event m)

pub send_all-Entries :
    (P Q : ℕ → Subscriber → Type 0) (size : ℕ) (event : List ℕ)
    → ((id : ℕ) (s : Subscriber) → ltb (length s.ch) size ≡ true → P id s → P id (send event s))
    → ((id : ℕ) (s : Subscriber) → P id s → Q id (close_with ws_subscriber_too_slow_error s))
    → (m : List (ℕ × Subscriber)) → Entries P m
    → Entries P (send_all size event m).0 × Entries Q (send_all size event m).1
unfolding send_all
send_all-Entries P Q size event f g [] h = (tt, tt)
send_all-Entries P Q size event f g ((id, s) ∷ m) h =
    let i = send_all-Entries P Q size event f g m h.1 in
    elim (Bool-cases (ltb (length s.ch) size)) [
      | inl e ↦ rw (if_true _ _ e) ((f id s e h.0, i.0), i.1)
      | inr e ↦ rw (if_false _ _ e) (i.0, (g id s h.0, i.1))
    ]

pub send_all-IsMap :
    (size : ℕ) (event : List ℕ) (m : List (ℕ × Subscriber))
    → IsMap m
    → IsMap (send_all size event m).0
unfolding send_all
send_all-IsMap size event [] h = tt
send_all-IsMap size event ((id, s) ∷ m) h =
    let i = send_all-IsMap size event m h.1 in
    let a =
      send_all-Entries (λ j _. j ≢ id) (λ j _. j ≢ id) size event (λ j s q a. a) (λ j s a. a) m
        h.0 in
    elim (Bool-cases (ltb (length s.ch) size)) [
      | inl e ↦ rw (if_true _ _ e) (a.0, i)
      | inr e ↦ rw (if_false _ _ e) i
    ]

length-delete-Absent :
    (id : ℕ) (m : List (ℕ × Subscriber)) → Absent id m → length (delete ℕ_discrete id m) ≡ length m
unfolding delete
length-delete-Absent id [] a = refl
length-delete-Absent id ((j, s) ∷ m) a =
    rw (if_neg (ℕ_discrete j id) a.0) (omega (arith, length-delete-Absent id m a.1))

pub length-delete :
    (id : ℕ) (s : Subscriber) (m : List (ℕ × Subscriber))
    → IsMap m
    → load ℕ_discrete id m ≡ some s
    → suc (length (delete ℕ_discrete id m)) ≡ length m
unfolding load delete
length-delete id s [] i e = cc
length-delete id s ((j, u) ∷ m) i e = elim (ℕ_discrete j id) [
  | yes q ↦
      let a : Absent id m = rw (← q) i.0 in
      rw (if_pos _ q) (omega (arith, length-delete-Absent id m a))
  | no q ↦ rw (if_neg _ q) (omega (arith, length-delete id s m i.1 (rw (if_neg _ q) at e)))
]

pub close_all-Entries :
    (P Q : ℕ → Subscriber → Type 0) (cause : ResponseError)
    → ((id : ℕ) (s : Subscriber) → P id s → Q id (close_with cause s))
    → (m : List (ℕ × Subscriber)) → Entries P m
    → Entries Q (close_all cause m)
close_all-Entries P Q cause f [] h = tt
close_all-Entries P Q cause f ((id, s) ∷ m) h = (f id s h.0, close_all-Entries P Q cause f m h.1)

pub close_all-IsMap :
    (cause : ResponseError) (m : List (ℕ × Subscriber)) → IsMap m → IsMap (close_all cause m)
close_all-IsMap cause [] h = tt
close_all-IsMap cause ((id, s) ∷ m) h = (
  close_all-Entries (λ j _. j ≢ id) (λ j _. j ≢ id) cause (λ j s a. a) m h.0,
  close_all-IsMap cause m h.1,
)

pub length-close_all :
    (cause : ResponseError) (m : List (ℕ × Subscriber)) → length (close_all cause m) ≡ length m
length-close_all cause [] = refl
length-close_all cause ((id, s) ∷ m) = ap suc (length-close_all cause m)

pub read_from-Entries :
    (P : ℕ → Subscriber → Type 0)
    → ((id : ℕ) (s : Subscriber) → P id s → P id (take_event s))
    → (id : ℕ) (m : List (ℕ × Subscriber)) → Entries P m
    → Entries P (read_from id m)
read_from-Entries P f id [] h = tt
read_from-Entries P f id ((j, s) ∷ m) h = elim (Bool-cases (j == id)) [
  | inl e ↦ rw (if_true _ _ e) (f j s h.0, read_from-Entries P f id m h.1)
  | inr e ↦ rw (if_false _ _ e) (h.0, read_from-Entries P f id m h.1)
]

pub read_from-IsMap : (id : ℕ) (m : List (ℕ × Subscriber)) → IsMap m → IsMap (read_from id m)
read_from-IsMap id [] h = tt
read_from-IsMap id ((j, s) ∷ m) h =
    (read_from-Entries (λ k _. k ≢ j) (λ k s a. a) id m h.0, read_from-IsMap id m h.1)

pub length-read_from : (id : ℕ) (m : List (ℕ × Subscriber)) → length (read_from id m) ≡ length m
length-read_from id [] = refl
length-read_from id ((j, s) ∷ m) = ap suc (length-read_from id m)
