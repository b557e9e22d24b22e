-- ===== src/Flow/Dispatch/Collect.antt =====
-- internal/upstreams/flow/fanout_request_processor.go: collectDispatchUpstreamIDs, which asks the
-- strategy again and again until it has no upstream left.
use nodecore.Base.{
  ℕ, zero, suc, ◌+◌, ◌≤◌, ◌<◌, true, false, ◌||◌, String, List, [], ◌∷◌, ◌++◌, Option, none, some,
  ◌≡◌, ◌≢◌, refl, inl, inr, arith, if◌then◌else◌, if_pos, if_neg, All-append, string_dec, ite,
  length, Any, Bool-cases,
}
use nodecore.Keyed.{contains}
use nodecore.Protocol.State.{UpstreamState}
use nodecore.Flow.Matchers.{Matchers}
use nodecore.Flow.Limits.{Limits}
use nodecore.Flow.Strategy.{
  Picks, Asked, Selected, selected, refused, SelectionError, no_available_upstreams,
  select_specific,
}
use nodecore.Flow.Strategy.Attempts.{Distinct, Selected-cases}
use nodecore.Flow.Strategy.Retries.{arranged, select_specific-IsPick, select_specific-grows}

pub data Collected : Type 0 where
  collected : List String → Collected
  uncollected : SelectionError → Collected

-- The upstreams collected so far, or the error if there are none.
unfoldable pub stop : List String → SelectionError → Collected
stop [] e = uncollected e
stop (id ∷ ids) e = collected (id ∷ ids)

-- The loop, on fuel, over a strategy whose state is a `P`; none when the fuel runs out. `seen` holds
-- what the list of identifiers holds.
module _ {P : Type 0} (select_upstream : P → Selected × P) where
  unfoldable pub collect : ℕ → List String → P → Option (Collected × P)
  unfolding stop
  collect zero ids p = none
  collect (suc fuel) ids p =
      let o = select_upstream p in
      elim o.0 [
        | refused e ↦ some (stop ids e, o.1)
        | selected x ↦ elim (ite (string_dec x "") true false || contains string_dec x ids) [
          | true ↦ some (stop ids no_available_upstreams, o.1)
          | false ↦ collect fuel (ids ++ x ∷ []) o.1
        ]
      ]

-- How many of the upstreams are not selected yet.
abbrev pub unpicked : List String → List String → ℕ
unpicked picked [] = 0
unpicked picked (id ∷ ids) = (if contains string_dec id picked then 0 else 1) + unpicked picked ids

abbrev Grows : List String → List String → Type 0
Grows before after =
    (x : String) → contains string_dec x before ≡ true → contains string_dec x after ≡ true

unpicked_mono :
    (before after ids : List String) → Grows before after → unpicked after ids ≤ unpicked before ids
unpicked_mono before after [] g = omega arith
unpicked_mono before after (id ∷ ids) g = ground (arith, g id, unpicked_mono before after ids g)

unpicked-falls :
    (before after ids : List String) (x : String)
    → Grows before after
    → Any (λ id. id ≡ x) ids
    → contains string_dec x before ≡ false
    → contains string_dec x after ≡ true
    → unpicked after ids < unpicked before ids
unpicked-falls before after [] x g m new now = elim m [ ]
unpicked-falls before after (id ∷ ids) x g (inl e) new now =
    rw e (ground (arith, unpicked_mono before after ids g))
unpicked-falls before after (id ∷ ids) x g (inr later) new now =
    ground (arith, g id, unpicked-falls before after ids x g later new now)

unpicked-le-length : (picked ids : List String) → unpicked picked ids ≤ length ids
unpicked-le-length picked [] = omega arith
unpicked-le-length picked (id ∷ ids) = ground (arith, unpicked-le-length picked ids)

module _ {S : Type 0} (limits : Limits S) (request : Asked)
    (get_upstream_state : String → Option UpstreamState) (additional : Matchers)
    (order : Option (List String → List String)) (ids : List String) where
  abbrev pub select : Picks S → Selected × Picks S
  select = select_specific limits request get_upstream_state additional order ids

  select-falls :
      (x : String) (picks : Picks S)
      → (select picks).0 ≡ selected x
      → unpicked (select picks).1.selected_upstreams (arranged order ids)
        < unpicked picks.selected_upstreams (arranged order ids)
  select-falls x picks e =
      let (among, (state, found, ok, new), now) =
        select_specific-IsPick limits request get_upstream_state additional order ids x picks e in
      unpicked-falls picks.selected_upstreams (select picks).1.selected_upstreams
        (arranged order ids) x
        (λ y h.
          select_specific-grows limits request get_upstream_state additional order ids y picks h)
        among new now

-- A list without repetitions, with something new at its end.
Distinct-snoc :
    (xs : List String) (x : String)
    → contains string_dec x xs ≡ false
    → Distinct xs
    → Distinct (xs ++ x ∷ [])
unfolding contains
Distinct-snoc [] x h d = (tt, tt)
Distinct-snoc (y ∷ ys) x h d = elim (string_dec y x) [
  | yes e ↦ let z : true ≡ false = rw (if_pos _ e) at h in cc
  | no n ↦ (
    All-append (λ z. y ≢ z) ys (x ∷ []) d.0 (n, tt),
    Distinct-snoc ys x (rw (if_neg _ n) at h) d.1,
  )
]

abbrev pub IsDistinct : Collected → Type 0
IsDistinct (collected ids) = Distinct ids
IsDistinct (uncollected e) = Unit

stop-IsDistinct : (ids : List String) (e : SelectionError) → Distinct ids → IsDistinct (stop ids e)
unfolding stop
stop-IsDistinct [] e d = tt
stop-IsDistinct (id ∷ ids) e d = d

-- The collecting ends within the fuel, and its list has no repetitions.
abbrev pub Ends : {P : Type 0} → (P → Selected × P) → ℕ → List String → P → Type 0
Ends {P} select_upstream fuel ids p =
    (c : Collected) × (p' : P) × (collect select_upstream fuel ids p ≡ some (c, p')) × IsDistinct c

module _ {P : Type 0} (select_upstream : P → Selected × P) (size : P → ℕ)
    (falls : (x : String) (p : P)
      → (select_upstream p).0 ≡ selected x
      → size (select_upstream p).1 < size p) where
  collect-Ends_falling :
      (fuel : ℕ) (ids : List String) (p : P)
      → size p < fuel
      → Distinct ids
      → Ends select_upstream fuel ids p
  unfolding collect
  collect-Ends_falling zero ids p h d = elim h [ ]
  collect-Ends_falling (suc fuel) ids p h d =
      let o = select_upstream p in
      elim (Selected-cases o.0) [
        | inr (e, q) ↦ (stop ids e, o.1, rw (q, collect) refl, stop-IsDistinct ids e d)
        | inl (x, q) ↦
            elim (Bool-cases (ite (string_dec x "") true false || contains string_dec x ids)) [
              | inl r ↦ (
                stop ids no_available_upstreams,
                o.1,
                rw (q, collect, r) refl,
                stop-IsDistinct ids no_available_upstreams d,
              )
              | inr r ↦
                  let (c, p', e, k) =
                    collect-Ends_falling fuel (ids ++ x ∷ []) o.1 (omega (arith, falls x p q))
                      (Distinct-snoc ids x (ground arith) d) in
                  (c, p', rw (q, collect, r) e, k)
            ]
      ]

module _ {S : Type 0} (limits : Limits S) (request : Asked)
    (get_upstream_state : String → Option UpstreamState) (additional : Matchers)
    (order : Option (List String → List String)) (ids : List String) where
  -- Whatever the rate limiters answer, collecting from a strategy over a fixed list of upstreams ends
  -- after at most one selection more than there are upstreams, and no upstream is collected twice.
  pub collect-Ends :
      (picks : Picks S)
      → Ends
          (select limits request get_upstream_state additional order ids)
          (suc (length (arranged order ids)))
          []
          picks
  collect-Ends picks =
      collect-Ends_falling (select limits request get_upstream_state additional order ids)
        (λ p. unpicked p.selected_upstreams (arranged order ids))
        (select-falls limits request get_upstream_state additional order ids)
        (suc (length (arranged order ids))) [] picks
        (omega (arith, unpicked-le-length picks.selected_upstreams (arranged order ids))) tt
