-- ===== src/LowerBounds/Window/Lines.antt =====
-- internal/upstreams/lower_bounds/lower_bounds.go: what the kept bounds and their line satisfy.
use nodecore.Base.{
  ◌≤◌, ◌≡◌, ◌⊎◌, inl, inr, refl, arith, true, false, List, [], ◌∷◌, some, length, ℕ_discrete,
  Bool-cases, Option-cases,
}
use nodecore.Int.{pos, eqb_ℤ, ◌≤ℤ◌}
use nodecore.Keyed.{load, store, Entries, store-Entries, load-Entries}
use nodecore.Protocol.State.{LowerBoundType, LowerBoundData}
use nodecore.LowerBounds.Window.{
  Floats, LowerBoundCoeffs, last_bound, through, init_bound, train, appended, starts_over, updated,
  update_bound, update_bounds,
}

-- Each bound is not below the one before it, and has another time.
abbrev pub Rising : List LowerBoundData → Type 0
Rising [] = Unit
Rising (d ∷ []) = Unit
Rising (d ∷ e ∷ ds) =
    (d.bound ≤ℤ e.bound) × (eqb_ℤ e.timestamp d.timestamp ≡ false) × Rising (e ∷ ds)

module _ {F : Type 0} (floats : Floats F) where
  -- The line goes through a bound, or is the constant 1 and the bound is 1.
  abbrev pub Meets : F → F → LowerBoundData → Type 0
  Meets k b d =
      (b ≡ through floats k d)
      ⊎ ((k ≡ floats.zero_float) × (b ≡ floats.one_float) × (eqb_ℤ d.bound (pos 1) ≡ true))

  -- One to three bounds, which rise, and a line that meets the last of them.
  abbrev pub IsWindow : LowerBoundType → LowerBoundCoeffs F → Type 0
  IsWindow t c =
      (length c.lower_bounds ≤ 3)
      × Rising c.lower_bounds
      × (last : LowerBoundData) × (last_bound c.lower_bounds ≡ some last)
      × Meets c.k c.b last

  init_bound-IsWindow : (t : LowerBoundType) (d : LowerBoundData) → IsWindow t (init_bound floats d)
  init_bound-IsWindow t d = elim (Bool-cases (eqb_ℤ d.bound (pos 1))) [
    | inl e ↦ rw (init_bound, e) (omega arith, tt, d, refl, inr (refl, refl, e))
    | inr e ↦ rw (init_bound, e) (omega arith, tt, d, refl, inl refl)
  ]

  train-IsWindow :
      (t : LowerBoundType) (ds : List LowerBoundData) (d : LowerBoundData)
      → length ds ≤ 3
      → Rising ds
      → last_bound ds ≡ some d
      → IsWindow t (train floats ds d)
  train-IsWindow t ds d h r l = elim (Option-cases (floats.slope ds)) [
    | inl e ↦ rw (train, e) (h, r, d, l, inl refl)
    | inr (k, e) ↦ rw (train, e) (h, r, d, l, inl refl)
  ]

  appended-IsWindow :
      (t : LowerBoundType) (d last : LowerBoundData) (ds : List LowerBoundData)
      → length ds ≤ 3
      → Rising ds
      → last_bound ds ≡ some last
      → last.bound ≤ℤ d.bound
      → eqb_ℤ d.timestamp last.timestamp ≡ false
      → IsWindow t (appended floats d ds)
  unfolding appended
  appended-IsWindow t d last [] h r l up new = cc
  appended-IsWindow t d last (x ∷ []) h r l up new =
      let e : x ≡ last = cc in (omega arith, rw e (up, new, tt), d, refl, inl refl)
  appended-IsWindow t d last (x ∷ y ∷ []) h (a, b, r) l up new =
      let e : y ≡ last = cc in
      train-IsWindow t (x ∷ y ∷ d ∷ []) d (omega arith) (a, b, rw e (up, new, tt)) refl
  appended-IsWindow t d last (x ∷ y ∷ z ∷ []) h (a, b, r) l up new =
      let e : z ≡ last = cc in
      train-IsWindow t (y ∷ z ∷ d ∷ []) d (omega arith) (r.0, r.1, rw e (up, new, tt)) refl
  appended-IsWindow t d last (x ∷ y ∷ z ∷ w ∷ ds) h r l up new = absurd (omega arith)

  updated-IsWindow :
      (t : LowerBoundType) (d last : LowerBoundData) (c : LowerBoundCoeffs F)
      → last_bound c.lower_bounds ≡ some last
      → IsWindow t c
      → IsWindow t (updated floats d last c)
  unfolding updated
  updated-IsWindow t d last c l w = elim (Bool-cases (eqb_ℤ d.timestamp last.timestamp)) [
    | inl e ↦ rw (updated, e) w
    | inr e ↦ elim (Bool-cases (eqb_ℤ d.bound (pos 1))) [
      | inl f ↦ rw (updated, e, f) (omega arith, tt, d, refl, inr (refl, refl, f))
      | inr f ↦ elim (Bool-cases (starts_over floats d last)) [
        | inl g ↦ rw (updated, e, f, g) (omega arith, tt, d, refl, inl refl)
        | inr g ↦
            rw (updated, e, f, g)
              (appended-IsWindow t d last c.lower_bounds w.0 w.1 l (ground arith) e)
      ]
    ]
  ]

  abbrev pub AreWindows : List (LowerBoundType × LowerBoundCoeffs F) → Type 0
  AreWindows = Entries IsWindow

  update_bound-AreWindows :
      (d : LowerBoundData) (m : List (LowerBoundType × LowerBoundCoeffs F))
      → AreWindows m
      → (n : List (LowerBoundType × LowerBoundCoeffs F)) × (update_bound floats d m ≡ some n)
        × AreWindows n
  unfolding update_bound
  update_bound-AreWindows d m h = elim (Option-cases (load ℕ_discrete d.bound_type m)) [
    | inl e ↦ (
      store ℕ_discrete d.bound_type (init_bound floats d) m,
      rw (update_bound, e) refl,
      store-Entries IsWindow ℕ_discrete d.bound_type (init_bound floats d) m
          (init_bound-IsWindow d.bound_type d) h,
    )
    | inr (c, e) ↦
        let w = load-Entries IsWindow ℕ_discrete d.bound_type c m h e in
        let (size, rises, last, l, meets) = w in
        (
          store ℕ_discrete d.bound_type (updated floats d last c) m,
          rw (update_bound, e, l) refl,
          store-Entries IsWindow ℕ_discrete d.bound_type (updated floats d last c) m
              (updated-IsWindow d.bound_type d last c l w) h,
        )
  ]

  -- Whatever bounds are reported, from kept bounds for which it holds, the update never panics, and of
  -- each type there are one to three bounds, each not below the one before it and of another time,
  -- with a line that goes through the last of them, or is the constant 1 where that is 1.
  pub update_bounds-AreWindows :
      (ds : List LowerBoundData) (m : List (LowerBoundType × LowerBoundCoeffs F))
      → AreWindows m
      → (n : List (LowerBoundType × LowerBoundCoeffs F)) × (update_bounds floats ds m ≡ some n)
        × AreWindows n
  unfolding update_bounds
  update_bounds-AreWindows [] m h = (m, refl, h)
  update_bounds-AreWindows (d ∷ ds) m h =
      let (n, e, w) = update_bound-AreWindows d m h in
      let (o, f, v) = update_bounds-AreWindows ds n w in (o, rw (update_bounds, e) f, v)
