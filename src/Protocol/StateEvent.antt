-- ===== src/Protocol/StateEvent.antt =====
-- internal/protocol/upstream_state_events.go: what an upstream's processors report to its event
-- loop. `process_event` and `same` are the two methods of AbstractUpstreamStateEvent.
use nodecore.Base.{Bool, true, false, ◌&&◌, List, String, Option, none, some, ite, string_dec, ◌==◌}
use nodecore.Int.{ℤ, eqb_ℤ}
use nodecore.Keyed.{set_eq}
use nodecore.Protocol.Block.{Block, block_eq}
use nodecore.Protocol.State.{
  AvailabilityStatus, UpstreamState, LowerBoundData, BlockType, Cap, cap_dec, get_block, add_block,
  get_lower_bound, add_lower_bound, get_label, add_label,
}

pub data StateEvent : Type 0 where
  init : StateEvent
  lower_bound : LowerBoundData → StateEvent
  -- With a lag the status is ignored, and the event only asks for a new derivation.
  status : AvailabilityStatus → Option ℤ → StateEvent
  fatal_error : StateEvent
  valid : StateEvent
  head : Block → StateEvent
  block : Block → BlockType → StateEvent
  ban_method : String → StateEvent
  unban_method : String → StateEvent
  unsupported_methods : List String → StateEvent
  caps : List Cap → StateEvent
  label : String → String → StateEvent

-- `==` on LowerBoundData.
unfoldable pub lower_bound_eq : LowerBoundData → LowerBoundData → Bool
lower_bound_eq a b =
    eqb_ℤ a.bound b.bound && eqb_ℤ a.timestamp b.timestamp && a.bound_type == b.bound_type

unfoldable pub process_event : StateEvent → UpstreamState → UpstreamState
process_event (lower_bound d) state = record state {
  lower_bounds_info = add_lower_bound d state.lower_bounds_info;
}
process_event (head b) state = record state { head_data = b }
process_event (block b t) state = record state { block_info = add_block b t state.block_info }
process_event (caps cs) state = record state { caps = cs }
process_event (label name value) state = record state { labels = add_label name value state.labels }
process_event _ state = state

unfoldable pub same : StateEvent → UpstreamState → Bool
unfolding lower_bound_eq
same (lower_bound d) state = elim (get_lower_bound d.bound_type state.lower_bounds_info) [
  | none ↦ false
  | some current ↦ lower_bound_eq current d
]
same (block b t) state = block_eq (get_block t state.block_info) b
same (caps cs) state = set_eq cap_dec state.caps cs
same (label name value) state = elim (get_label name state.labels) [
  | none ↦ false
  | some current ↦ ite (string_dec current value) true false
]
same _ state = false
