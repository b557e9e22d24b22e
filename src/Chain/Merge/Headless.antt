-- ===== src/Chain/Merge/Headless.antt =====
-- No merge reads the heads of the upstreams: forgetting them changes none.
use nodecore.Base.{◌≡◌, refl, List, [], ◌∷◌, map, String, arith}
use nodecore.Protocol.Block.{zero_block}
use nodecore.Protocol.State.{AvailabilityStatus, UpstreamState, Cap}
use nodecore.Chain.State.{AggregatedLabels}
use nodecore.Chain.Merge.{
  UpstreamStates, available_upstreams, status_loop, process_upstream_statuses, caps_loop,
  process_caps, methods_loop, process_upstream_methods, labels_loop, process_labels, Bounds,
  bounds_loop, process_lower_bounds, Blocks, blocks_loop, process_upstream_blocks, better,
}

abbrev pub forget : UpstreamState → UpstreamState
forget u = record u { head_data = zero_block }

abbrev pub forget_all : UpstreamStates → UpstreamStates
forget_all = map (λ e. (e.0, forget e.1))

pub available_upstreams-forget_all :
    (m : UpstreamStates) → available_upstreams (forget_all m) ≡ map forget (available_upstreams m)
unfolding available_upstreams
available_upstreams-forget_all [] = refl
available_upstreams-forget_all ((_, u) ∷ m) = ground (arith, available_upstreams-forget_all m)

status_loop-forget_all :
    (s : AvailabilityStatus) (m : UpstreamStates) → status_loop s (forget_all m) ≡ status_loop s m
unfolding status_loop
status_loop-forget_all s [] = refl
status_loop-forget_all s ((_, u) ∷ m) = status_loop-forget_all (better u.status s) m

pub statuses-forget_all :
    (m : UpstreamStates) → process_upstream_statuses (forget_all m) ≡ process_upstream_statuses m
unfolding process_upstream_statuses
statuses-forget_all m = status_loop-forget_all _ m

caps_loop-forget :
    (us : List UpstreamState) (caps : List Cap) → caps_loop caps (map forget us) ≡ caps_loop caps us
unfolding caps_loop
caps_loop-forget [] caps = refl
caps_loop-forget (u ∷ us) caps = caps_loop-forget us _

pub caps-forget : (us : List UpstreamState) → process_caps (map forget us) ≡ process_caps us
unfolding process_caps
caps-forget us = caps_loop-forget us []

methods_loop-forget :
    (us : List UpstreamState) (names : List String)
    → methods_loop names (map forget us) ≡ methods_loop names us
unfolding methods_loop
methods_loop-forget [] names = refl
methods_loop-forget (u ∷ us) names = methods_loop-forget us _

pub methods-forget :
    (us : List UpstreamState)
    → process_upstream_methods (map forget us) ≡ process_upstream_methods us
unfolding process_upstream_methods
methods-forget us = methods_loop-forget us []

labels_loop-forget :
    (us : List UpstreamState) (labels : List AggregatedLabels)
    → labels_loop labels (map forget us) ≡ labels_loop labels us
unfolding labels_loop
labels_loop-forget [] labels = refl
labels_loop-forget (u ∷ us) labels = labels_loop-forget us _

pub labels-forget : (us : List UpstreamState) → process_labels (map forget us) ≡ process_labels us
unfolding process_labels
labels-forget us = labels_loop-forget us []

bounds_loop-forget :
    (us : List UpstreamState) (bounds : Bounds)
    → bounds_loop bounds (map forget us) ≡ bounds_loop bounds us
unfolding bounds_loop
bounds_loop-forget [] bounds = refl
bounds_loop-forget (u ∷ us) bounds = bounds_loop-forget us _

pub bounds-forget :
    (us : List UpstreamState) → process_lower_bounds (map forget us) ≡ process_lower_bounds us
unfolding process_lower_bounds
bounds-forget us = bounds_loop-forget us []

blocks_loop-forget :
    (us : List UpstreamState) (blocks : Blocks)
    → blocks_loop blocks (map forget us) ≡ blocks_loop blocks us
unfolding blocks_loop
blocks_loop-forget [] blocks = refl
blocks_loop-forget (u ∷ us) blocks = blocks_loop-forget us _

pub blocks-forget :
    (us : List UpstreamState) → process_upstream_blocks (map forget us) ≡ process_upstream_blocks us
unfolding process_upstream_blocks
blocks-forget us = blocks_loop-forget us []

pub ruleset headless = (
  available_upstreams-forget_all, statuses-forget_all, caps-forget, methods-forget, labels-forget,
  bounds-forget, blocks-forget,
)
