-- ===== src/ForkChoice/History.antt =====
-- The fork choice over a history of reports, against the last live report of each upstream.
use nodecore.Base.{
  ℕ, ◌≤◌, ◌≡◌, ◌⊎◌, inl, inr, refl, List, [], ◌∷◌, String, Option, none, some, arith, if◌then◌else◌,
  ite, string_dec, ap, ◌∙◌, subst, sym, dec_lt,
}
use nodecore.Keyed.{load, IsMap, load-store, load-delete, load-of_Absent, load_self, load_later}
use nodecore.Protocol.Block.{Block, is_empty_by_height}
use nodecore.Protocol.State.{AvailabilityStatus, available}
use nodecore.ForkChoice.Height.{
  HeightForkChoice, new_height_fork_choice, choose, highest, Inv, new-Inv, choose-Inv,
}

pub record Report : Type 0 where
  pub id : String
  pub status : AvailabilityStatus
  pub head : Block

unfoldable pub run : HeightForkChoice → List Report → HeightForkChoice
run fc [] = fc
run fc (r ∷ rs) = run (choose r.id r.status r.head fc).0 rs

-- What one report makes of the head that an upstream was last seen with: an available report with
-- a head replaces it, one with no head is ignored, and any other status forgets it.
unfoldable pub hear : AvailabilityStatus → Block → Option Block → Option Block
hear available head current = if is_empty_by_height head then current else some head
hear _ head current = none

-- The head of `id` after a history, oldest report first.
unfoldable pub live_head : String → Option Block → List Report → Option Block
live_head id current [] = current
live_head id current (r ∷ rs) =
    live_head id (ite (string_dec r.id id) (hear r.status r.head current) current) rs

choose-view :
    (id j : String) (s : AvailabilityStatus) (head : Block) (fc : HeightForkChoice)
    → load string_dec j (choose id s head fc).0.heads
      ≡ ite
          (string_dec id j)
          (hear s head (load string_dec j fc.heads))
          (load string_dec j fc.heads)
unfolding choose hear
choose-view id j s head fc =
    ground (arith, load-store string_dec id j head fc.heads, load-delete string_dec id j fc.heads)

run-view :
    (j : String) (rs : List Report) (fc : HeightForkChoice)
    → load string_dec j (run fc rs).heads ≡ live_head j (load string_dec j fc.heads) rs
unfolding run live_head
run-view j [] fc = refl
run-view j (r ∷ rs) fc =
    run-view j rs (choose r.id r.status r.head fc).0
    ∙ ap (λ o. live_head j o rs) (choose-view r.id j r.status r.head fc)

run-Inv : (rs : List Report) (fc : HeightForkChoice) → Inv fc → Inv (run fc rs)
unfolding run
run-Inv [] fc v = v
run-Inv (r ∷ rs) fc v = run-Inv rs _ (choose-Inv r.id r.status r.head fc v)

height-le-highest :
    (j : String) (b : Block) (m : List (String × Block))
    → load string_dec j m ≡ some b
    → b.height ≤ highest m
unfolding load
height-le-highest j b [] e = cc
height-le-highest j b ((i, c) ∷ m) e = ground (arith, height-le-highest j b m)

-- Some entry has the greatest height, unless that height is 0.
abbrev Attained : ℕ → List (String × Block) → Type 0
Attained n m = (j : String) × (b : Block) × (load string_dec j m ≡ some b) × (b.height ≡ n)

weaken :
    (i : String) (c : Block) (m : List (String × Block)) {n : ℕ}
    → IsMap ((i, c) ∷ m)
    → Attained n m
    → Attained n ((i, c) ∷ m)
weaken i c m k (j, b, e, h) = elim (string_dec i j) [
  | yes p ↦
      let missing : load string_dec j m ≡ none =
        subst (λ x. load string_dec x m ≡ none) p (load-of_Absent string_dec i m k.0) in
      cc
  | no p ↦ (j, b, load_later string_dec j i c m p ∙ e, h)
]

highest-Attained : (m : List (String × Block)) → IsMap m → (highest m ≡ 0) ⊎ Attained (highest m) m
highest-Attained [] k = inl refl
highest-Attained ((i, c) ∷ m) k = elim (dec_lt c.height (highest m)) [
  | yes p ↦ elim (highest-Attained m k.1) [
    | inl z ↦ absurd (omega arith)
    | inr a ↦ inr (subst (λ n. Attained n ((i, c) ∷ m)) (omega arith) (weaken i c m k a))
  ]
  | no p ↦ inr (i, c, load_self string_dec i c m, omega arith)
]

-- After any history in which some upstream is live by its last report, the merged height is the
-- height of a live upstream's head, and no live head is above it.
pub run-highest :
    (rs : List Report) (j : String) (b : Block)
    → live_head j none rs ≡ some b
    → let merged = (run new_height_fork_choice rs).max_head.height in
      (b.height ≤ merged)
      × ((k : String) × (top : Block) × (live_head k none rs ≡ some top) × (top.height ≡ merged))
unfolding load new_height_fork_choice
run-highest rs j b e =
    let v = run-Inv rs new_height_fork_choice new-Inv in
    let view = λ (k : String). run-view k rs new_height_fork_choice in
    let below = height-le-highest j b _ (view j ∙ e) in
    (
      rw v.merged below,
      elim (highest-Attained _ v.keyed) [
        | inl z ↦ (j, b, e, omega (arith, v.merged))
        | inr (k, top, f, h) ↦ (k, top, sym (view k) ∙ f, h ∙ sym v.merged)
      ],
    )
