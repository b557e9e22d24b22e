-- ===== src/Chain/Merge/Best.antt =====
-- The merged status is the best one.
use nodecore.Base.{◌≤◌, ◌≡◌, ◌⊎◌, inl, inr, refl, sym, ◌∙◌, [], ◌∷◌, arith, Any}
use nodecore.Keyed.{Entries}
use nodecore.Protocol.State.{AvailabilityStatus, unavailable, rank}
use nodecore.Chain.Merge.{UpstreamStates, better, status_loop, process_upstream_statuses}

status_loop-least :
    (s : AvailabilityStatus) (m : UpstreamStates)
    → (rank (status_loop s m) ≤ rank s) × Entries (λ _ u. rank (status_loop s m) ≤ rank u.status) m
unfolding status_loop
status_loop-least s [] = (omega arith, tt)
status_loop-least s ((_, u) ∷ m) =
    let ih = status_loop-least (better u.status s) m in
    (ground (arith, ih.0), (ground (arith, ih.0), ih.1))

better-cases : (s t : AvailabilityStatus) → (better s t ≡ s) ⊎ (better s t ≡ t)
better-cases s t = ground arith

status_loop-attained :
    (s : AvailabilityStatus) (m : UpstreamStates)
    → (status_loop s m ≡ s) ⊎ Any (λ e. e.1.status ≡ status_loop s m) m
unfolding status_loop
status_loop-attained s [] = inl refl
status_loop-attained s ((_, u) ∷ m) = elim (status_loop-attained (better u.status s) m) [
  | inl e ↦ elim (better-cases u.status s) [ inl c ↦ inr (inl (sym (e ∙ c))) | inr c ↦ inl (e ∙ c) ]
  | inr later ↦ inr (inr later)
]

-- The merged status is at least as good as that of every upstream, available or not, and is that
-- of one of them unless it is Unavailable.
pub process_upstream_statuses-best :
    (m : UpstreamStates)
    → Entries (λ _ u. rank (process_upstream_statuses m) ≤ rank u.status) m
      × ((process_upstream_statuses m ≡ unavailable)
          ⊎ Any (λ e. e.1.status ≡ process_upstream_statuses m) m)
unfolding process_upstream_statuses
process_upstream_statuses-best m =
    ((status_loop-least unavailable m).1, status_loop-attained unavailable m)
