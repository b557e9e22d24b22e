-- ===== src/Flow/LabelGroups/Groups.antt =====
-- internal/upstreams/flow/label_group_strategy.go: the group that an attempt answers from.
use nodecore.Base.{
  ℕ, zero, suc, ◌+◌, ◌≤◌, Bool, true, false, String, List, [], ◌∷◌, Option, none, some, ◌≡◌, refl,
  arith, get_elem?, replicate, All-replicate, Any, Option-cases, inl, inr, ap, sym, ◌∙◌, ◌<◌, ◌⊎◌,
  Bool-cases,
}
use nodecore.Protocol.State.{UpstreamState}
use nodecore.Flow.Responses.{MatchResponse}
use nodecore.Flow.Matchers.{Matchers}
use nodecore.Flow.Limits.{Limits}
use nodecore.Flow.Strategy.{Picks, Asked, Trace, Selected, selected, filter_upstreams}
use nodecore.Flow.Strategy.Attempts.{Distinct, IsFresh, attempts_of, attempts_of-Distinct}
use nodecore.Flow.Strategy.Retries.{
  arranged, is_picked, filter_upstreams-IsPick, filter_upstreams-grows,
}
use nodecore.Flow.LabelGroups.{
  Cursor, groups_from, keep_reason, group_loop, start_idx, select_group,
}

groups_from-get :
    (n k : ℕ) (groups : List (List String))
    → get_elem? (groups_from n groups) k ≡ get_elem? groups (n + k)
groups_from-get zero k groups = let q : k ≡ 0 + k = omega arith in ap (get_elem? groups) q
groups_from-get (suc n) k [] = refl
groups_from-get (suc n) k (g ∷ groups) =
    let q : suc (n + k) ≡ suc n + k = omega arith in
    groups_from-get n k groups ∙ ap (get_elem? (g ∷ groups)) q

module _ {S : Type 0} (limits : Limits S) (request : Asked)
    (get_upstream_state : String → Option UpstreamState) (additional : Matchers)
    (order : Option (List String → List String)) where
  -- An answer comes from a group at or after the index, it was not selected, and it is afterwards.
  abbrev pub InGroup : List (List String) → ℕ → String → Picks S → ℕ → Picks S → Type 0
  InGroup groups idx x picks idx' after =
      (n : ℕ) × (g : List String) × (idx' ≡ idx + n)
      × (get_elem? groups n ≡ some g)
      × Any (λ id. id ≡ x) (arranged order g)
      × (is_picked x picks ≡ false)
      × (is_picked x after ≡ true)

  abbrev tried : List String → Picks S → Option String × Option MatchResponse × Trace × Picks S
  tried g picks = filter_upstreams limits request g get_upstream_state additional order picks

  abbrev loop :
      List (List String) → ℕ → Option MatchResponse → Trace → Picks S → Selected × ℕ × Picks S
  loop = group_loop limits request get_upstream_state additional order

  loop_returns :
      (g : List String) (gs : List (List String)) (idx : ℕ) (reason : Option MatchResponse)
      (trace : Trace) (picks : Picks S) (x : String)
      → (tried g picks).0 ≡ some x
      → loop (g ∷ gs) idx reason trace picks ≡ (selected x, idx, (tried g picks).3)
  unfolding group_loop
  loop_returns g gs idx reason trace picks x e = rw (group_loop, e) refl

  loop_goes_on :
      (g : List String) (gs : List (List String)) (idx : ℕ) (reason : Option MatchResponse)
      (trace : Trace) (picks : Picks S)
      → (tried g picks).0 ≡ none
      → loop (g ∷ gs) idx reason trace picks
        ≡ loop gs
            (suc idx)
            (keep_reason (tried g picks).1 reason)
            (tried g picks).2
            (tried g picks).3
  unfolding group_loop
  loop_goes_on g gs idx reason trace picks e = rw (group_loop, e) refl

  loop-grows :
      (gs : List (List String)) (idx : ℕ) (reason : Option MatchResponse) (trace : Trace)
      (picks : Picks S) (x : String)
      → is_picked x picks ≡ true
      → is_picked x (loop gs idx reason trace picks).2 ≡ true
  unfolding group_loop
  loop-grows [] idx reason trace picks x h = h
  loop-grows (g ∷ gs) idx reason trace picks x h =
      let grown =
        filter_upstreams-grows limits request get_upstream_state additional order g x picks h in
      elim (Option-cases (tried g picks).0) [
        | inl e ↦ rw (loop_goes_on g gs idx reason trace picks e) (
            loop-grows gs (suc idx) (keep_reason (tried g picks).1 reason) (tried g picks).2
              (tried g picks).3 x grown)
        | inr (y, e) ↦ rw (loop_returns g gs idx reason trace picks y e) grown
      ]

  unpicked_before :
      (g : List String) (picks : Picks S) (x : String)
      → is_picked x (tried g picks).3 ≡ false
      → is_picked x picks ≡ false
  unpicked_before g picks x h =
      ground
        (arith, filter_upstreams-grows limits request get_upstream_state additional order g x picks)

  loop-InGroup :
      (gs : List (List String)) (idx : ℕ) (reason : Option MatchResponse) (trace : Trace)
      (picks : Picks S) (x : String)
      → (loop gs idx reason trace picks).0 ≡ selected x
      → InGroup gs idx x picks (loop gs idx reason trace picks).1 (loop gs idx reason trace picks).2
  unfolding group_loop
  loop-InGroup [] idx reason trace picks x e = cc
  loop-InGroup (g ∷ gs) idx reason trace picks x e = elim (Option-cases (tried g picks).0) [
    | inl q ↦
        let step = loop_goes_on g gs idx reason trace picks q in
        let (n, h, at, get, among, new, now) =
          loop-InGroup gs (suc idx) (keep_reason (tried g picks).1 reason) (tried g picks).2
            (tried g picks).3 x (ap (λ r. r.0) (sym step) ∙ e) in
        rw step (suc n, h, omega (arith, at), get, among, unpicked_before g picks x new, now)
    | inr (y, q) ↦
        let step = loop_returns g gs idx reason trace picks y q in
        let same : some y ≡ some x = cc (ap (λ r. r.0) (sym step) ∙ e) in
        let (among, (state, _, _, new), now) =
          filter_upstreams-IsPick limits request get_upstream_state additional order g x picks
            (q ∙ same) in
        rw step (0, g, omega arith, refl, among, new, now)
  ]

  abbrev attempt : Bool → List (List String) → Cursor S → Selected × Cursor S
  attempt = select_group limits request get_upstream_state additional order

  -- The cursor has not gone back, and it has gone on if a retry is to pass on.
  abbrev pub GoesOn : Bool → Cursor S → Cursor S → Type 0
  GoesOn pass_on_error c after =
      (c.current_group_idx ≤ after.current_group_idx)
      × ((pass_on_error ≡ false)
          ⊎ ((c.first_call ≡ true) ⊎ (c.current_group_idx < after.current_group_idx)))
      × (after.first_call ≡ false)

  -- The cursor `after` is at a group that has `x`, which only `after` has picked.
  abbrev pub InFresh : List (List String) → String → Cursor S → Cursor S → Type 0
  InFresh groups x c after =
      (g : List String) × (get_elem? groups after.current_group_idx ≡ some g)
      × Any (λ id. id ≡ x) (arranged order g)
      × (is_picked x c.picks ≡ false)
      × (is_picked x after.picks ≡ true)

  start_idx-advances :
      (pass_on_error : Bool) (c : Cursor S)
      → (c.current_group_idx ≤ start_idx pass_on_error c)
        × ((pass_on_error ≡ false)
            ⊎ ((c.first_call ≡ true) ⊎ (c.current_group_idx < start_idx pass_on_error c)))
  start_idx-advances pass_on_error c = elim (Bool-cases pass_on_error) [
    | inr p ↦ (ground arith, inl p)
    | inl p ↦ elim (Bool-cases c.first_call) [
      | inl f ↦ (ground arith, inr (inl f))
      | inr f ↦ (ground arith, inr (inr (ground arith)))
    ]
  ]

  -- An upstream that the label group strategy answers with is in the group to which the cursor moves;
  -- the index of that group is not below that of the cursor, and above it if `pass_on_error` is set
  -- and the call is not the first of the request; no later call is the first; the request had not
  -- selected the upstream before, and it is selected afterwards.
  pub select_group-InGroup :
      (pass_on_error : Bool) (groups : List (List String)) (c : Cursor S) (x : String)
      → (attempt pass_on_error groups c).0 ≡ selected x
      → GoesOn pass_on_error c (attempt pass_on_error groups c).1
        × InFresh groups x c (attempt pass_on_error groups c).1
  unfolding select_group
  select_group-InGroup pass_on_error [] c x e = cc
  select_group-InGroup pass_on_error (g ∷ groups) c x e =
      let idx = start_idx pass_on_error c in
      let (n, h, at, get, among, new, now) =
        loop-InGroup (groups_from idx (g ∷ groups)) idx none [] c.picks x e in
      let (low, above) = start_idx-advances pass_on_error c in
      (
        (omega (arith, at, low), later idx n _ at above, refl),
        (
          h,
          ap (get_elem? (g ∷ groups)) at ∙ sym (groups_from-get idx n (g ∷ groups)) ∙ get,
          among,
          new,
          now,
        ),
      )
    where
      later :
          (idx n idx' : ℕ) {first_call : Bool}
          → idx' ≡ idx + n
          → (pass_on_error ≡ false) ⊎ ((first_call ≡ true) ⊎ (c.current_group_idx < idx))
          → (pass_on_error ≡ false) ⊎ ((first_call ≡ true) ⊎ (c.current_group_idx < idx'))
      later idx n idx' at (inl p) = inl p
      later idx n idx' at (inr (inl f)) = inr (inl f)
      later idx n idx' at (inr (inr l)) = inr (inr (omega (arith, at, l)))

  -- The picks of a cursor.
  abbrev pub has_picked : String → Cursor S → Bool
  has_picked x c = is_picked x c.picks

  select_group-grows :
      (pass_on_error : Bool) (groups : List (List String)) (x : String) (c : Cursor S)
      → has_picked x c ≡ true
      → has_picked x
          (select_group limits request get_upstream_state additional order pass_on_error groups c).1
        ≡ true
  unfolding select_group
  select_group-grows pass_on_error [] x c h = h
  select_group-grows pass_on_error (g ∷ groups) x c h =
      let idx = start_idx pass_on_error c in
      loop-grows (groups_from idx (g ∷ groups)) idx none [] c.picks x h

  pub select_group-IsFresh :
      (pass_on_error : Bool) (groups : List (List String))
      → IsFresh has_picked
          (select_group limits request get_upstream_state additional order pass_on_error groups)
  select_group-IsFresh pass_on_error groups = record {
    fresh = λ x c e.
        let (moved, in_group) = select_group-InGroup pass_on_error groups c x e in
        let (g, get, among, new, now) = in_group in (new, now);
    grows = select_group-grows pass_on_error groups;
  }

  -- The attempts of a request with one strategy.
  unfoldable pub group_attempts : Bool → List (List String) → ℕ → Cursor S → List String
  unfolding select_group attempts_of
  group_attempts pass_on_error groups n = attempts_of (
      replicate n
        (select_group limits request get_upstream_state additional order pass_on_error groups))

  -- However the groups overlap, the attempts of a request select no upstream twice.
  pub group_attempts-Distinct :
      (pass_on_error : Bool) (groups : List (List String)) (n : ℕ) (c : Cursor S)
      → Distinct (group_attempts pass_on_error groups n c)
  unfolding group_attempts
  group_attempts-Distinct pass_on_error groups n c =
      let s =
        select_group limits request get_upstream_state additional order pass_on_error groups in
      attempts_of-Distinct has_picked (replicate n s) c
        (All-replicate (IsFresh has_picked) n s (select_group-IsFresh pass_on_error groups))
