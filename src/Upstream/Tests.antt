-- ===== src/Upstream/Tests.antt =====
-- A run in which a ban expires while the settings are invalid, and the theorems at it.
use nodecore.Base.{◌≡◌, refl, true, false, List, [], ◌∷◌, String, none, some, string_dec}
use nodecore.Int.{pos}
use nodecore.Keyed.{load, store, delete, contains, add, remove, set_eq, union}
use nodecore.Methods.Available.{
  Method, disable_one, disable_all, enable_one, enable_all, store_group, new_upstream_methods,
  forces, is_force_enabled,
}
use nodecore.Protocol.Block.{zero_block}
use nodecore.Protocol.State.{
  UpstreamState, available, status_dec, status_by_lag, state_upstream_event,
}
use nodecore.Protocol.StateEvent.{
  status, fatal_error, valid, ban_method, unban_method, process_event, same,
}
use nodecore.Upstream.Loop.{
  Config, Loop, published, unban_after, new_methods, force_enabled, step, Input, run, not_negative,
}
use nodecore.Upstream.Loop.Validity.{phase, turn, run-phase}
use nodecore.Upstream.Loop.Bans.{IsCurrent, IsMissing, unban-lost, ban-unban}

program : Unit {0}
unfolding load store delete contains add remove set_eq union string_dec status_dec status_by_lag
    disable_one disable_all enable_one enable_all store_group new_upstream_methods forces
    is_force_enabled new_methods force_enabled process_event same step run not_negative turn phase
program = tt

abbrev plain : String → Method
plain name = record { name = name; group = ""; subscribe = false }

abbrev config : Config
config = record {
  enable_methods = [];
  disable_methods = [];
  spec_methods =
      ("default", ("eth_call", plain "eth_call") ∷ ("eth_getLogs", plain "eth_getLogs") ∷ [])
      ∷ ("sub", [])
      ∷ [];
  full_spec = ("eth_call", plain "eth_call") ∷ ("eth_getLogs", plain "eth_getLogs") ∷ [];
  syncing_lag = pos 5;
}

abbrev state : UpstreamState
state = record {
  status = available;
  head_data = zero_block;
  upstream_methods = "eth_call" ∷ "eth_getLogs" ∷ [];
  caps = [];
  upstream_index = "00001";
  rate_limiter_budget = none;
  auto_tune_rate_limiter = none;
  block_info = [];
  lower_bounds_info = [];
  labels = [];
}

abbrev started : Loop
started = record {
  banned_methods = [];
  unsupported = [];
  valid_upstream = true;
  base_avail = available;
  upstream_state = state;
  head_lag = pos 0;
}

abbrev removed : Loop
removed = record started {
  banned_methods = "eth_getLogs" ∷ [];
  valid_upstream = false;
  upstream_state = record state { upstream_methods = "eth_call" ∷ [] };
}

abbrev events : List Input
events =
    (pos 0, ban_method "eth_getLogs")
    ∷ (pos 0, fatal_error)
    ∷ (pos 9, unban_method "eth_getLogs")
    ∷ (pos 9, valid)
    ∷ (pos 9, status available (some (pos 9)))
    ∷ []

stays_banned : (run config events started).0.upstream_state.upstream_methods ≡ "eth_call" ∷ []
unfolding program
stays_banned = refl

run-phase_example :
    phase true (run config events started).1 ≡ some (run config events started).0.valid_upstream
run-phase_example = run-phase config events started

started-IsCurrent : IsCurrent config started
unfolding program
started-IsCurrent = refl

abbrev comes_back : List Input
comes_back = (pos 9, valid) ∷ (pos 0, unban_method "eth_getLogs") ∷ (pos 0, fatal_error) ∷ []

unban-lost_example :
    IsMissing "eth_getLogs"
      (run config comes_back (step config (unban_method "eth_getLogs") removed).0).0
unfolding contains string_dec
unban-lost_example = unban-lost config "eth_getLogs" removed comes_back refl refl refl refl

ban-unban_example :
    let (l₁, out) = step config (ban_method "eth_call") started in
    let l₂ = (step config (unban_method "eth_call") l₁).0 in
    (out ≡ unban_after "eth_call" ∷ published (state_upstream_event l₁.upstream_state) ∷ [])
    × (contains string_dec "eth_call" l₁.upstream_state.upstream_methods ≡ false)
    × (l₁.upstream_state.upstream_methods ≡ new_methods config (add string_dec "eth_call" []) [])
    × (l₂.banned_methods ≡ [])
    × (l₂.upstream_state.upstream_methods ≡ state.upstream_methods)
unfolding program
ban-unban_example = ban-unban config "eth_call" started refl started-IsCurrent refl refl refl refl
