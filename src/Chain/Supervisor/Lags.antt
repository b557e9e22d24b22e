-- ===== src/Chain/Supervisor/Lags.antt =====
-- When an upstream is told of its head lag.
use nodecore.Base.{
  ℕ, ◌≡◌, refl, ◌∙◌, ap, Bool, true, List, [], ◌∷◌, ◌++◌, String, some, arith, string_dec, if_pos,
  if_neg, ite, if◌then◌else◌,
}
use nodecore.Int.{to_int64}
use nodecore.Keyed.{load, load-store, Entries, Absent, IsMap}
use nodecore.Protocol.State.{UpstreamState, lag_exceeds}
use nodecore.Chain.Merge.{UpstreamStates}
use nodecore.Chain.Supervisor.{
  Config, Effect, track_head_lag, was_over, head_lag, push_lag, head_lags,
}

-- On which side of the syncing threshold an upstream is.
abbrev pub side : Config → ℕ → UpstreamState → Bool
side c height u = lag_exceeds (to_int64 (head_lag height u)) c.syncing_lag

was_over-push_lag :
    (c : Config) (key j : String) (lag : ℕ) (over : List (String × Bool)) (has : String → Bool)
    → c.get_upstream ≡ some has
    → c.validate_lag ≡ true
    → has key ≡ true
    → was_over j (push_lag c key lag over).0
      ≡ ite (string_dec key j) (lag_exceeds (to_int64 lag) c.syncing_lag) (was_over j over)
unfolding push_lag
was_over-push_lag c key j lag over has g v h = ground (
  arith,
  load-store string_dec key j (lag_exceeds (to_int64 lag) c.syncing_lag) over,
  ap (λ k. load string_dec k over),
)

-- The sections' assumptions: lags are validated, and the callback knows every upstream.
module _ (c : Config) (height : ℕ) (has : String → Bool) (found : c.get_upstream ≡ some has)
    (validated : c.validate_lag ≡ true) where
  abbrev Known : UpstreamStates → Type 0
  Known = Entries (λ id _. has id ≡ true)

  was_over-head_lags :
      (j : String) (m : UpstreamStates) (over : List (String × Bool))
      → Known m
      → Absent j m
      → was_over j (head_lags c height m over).0 ≡ was_over j over
  unfolding head_lags
  was_over-head_lags j [] over k a = refl
  was_over-head_lags j ((i, u) ∷ m) over k a =
      was_over-head_lags j m _ k.1 a.1
      ∙ was_over-push_lag c i j _ over has found validated k.0
      ∙ if_neg (string_dec i j) a.0 (side c height u) (was_over j over)

  head_lags-records :
      (m : UpstreamStates) (over : List (String × Bool))
      → Known m
      → IsMap m
      → Entries (λ id u. was_over id (head_lags c height m over).0 ≡ side c height u) m
  unfolding head_lags
  head_lags-records [] over k a = tt
  head_lags-records ((i, u) ∷ m) over k a = (
    was_over-head_lags i m _ k.1 a.0
        ∙ was_over-push_lag c i i _ over has found validated k.0
        ∙ if_pos (string_dec i i) refl (side c height u) (was_over i over),
    head_lags-records m _ k.1 a.1,
  )

-- What one round tracks, for every upstream in turn.
unfoldable pub tracked_lags : Config → ℕ → UpstreamStates → List Effect
tracked_lags c height [] = []
tracked_lags c height ((id, u) ∷ m) =
    (if c.tracked then track_head_lag id (head_lag height u) ∷ [] else [])
    ++ tracked_lags c height m

push_lag_same :
    (c : Config) (key : String) (lag : ℕ) (over : List (String × Bool))
    → was_over key over ≡ lag_exceeds (to_int64 lag) c.syncing_lag
    → push_lag c key lag over ≡ (over, [])
unfolding push_lag
push_lag_same c key lag over e = ground arith

head_lags_settled :
    (c : Config) (height : ℕ) (m : UpstreamStates) (over : List (String × Bool))
    → Entries (λ id u. was_over id over ≡ side c height u) m
    → head_lags c height m over ≡ (over, tracked_lags c height m)
unfolding head_lags tracked_lags
head_lags_settled c height [] over h = refl
head_lags_settled c height ((i, u) ∷ m) over h =
    rw (push_lag_same c i (head_lag height u) over h.0, head_lags_settled c height m over h.1)

-- After a round with validation on, each upstream's recorded side of the threshold is the one that
-- its lag is on; so a second round at the same heights only tracks, and pushes no update.
pub head_lags-settles :
    (c : Config) (height : ℕ) (m : UpstreamStates) (over : List (String × Bool))
    (has : String → Bool)
    → c.get_upstream ≡ some has
    → c.validate_lag ≡ true
    → Entries (λ id _. has id ≡ true) m
    → IsMap m
    → let over' = (head_lags c height m over).0 in
      Entries (λ id u. was_over id over' ≡ side c height u) m
      × (head_lags c height m over' ≡ (over', tracked_lags c height m))
head_lags-settles c height m over has g v k a =
    let records = head_lags-records c height has g v m over k a in
    (records, head_lags_settled c height m _ records)
