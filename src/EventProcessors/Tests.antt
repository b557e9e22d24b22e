-- ===== src/EventProcessors/Tests.antt =====
-- A node whose settings break and mend, seen by the loop of its upstream.
use nodecore.Base.{List, ◌≡◌, refl, true, false, [], ◌∷◌, none}
use nodecore.Int.{pos}
use nodecore.Protocol.Block.{zero_block}
use nodecore.Protocol.State.{available}
use nodecore.Upstream.Loop.{Config, Loop, step}
use nodecore.EventProcessors.Settings.{
  ValidationSettingResult, valid_result, settings_error, fatal_setting_error, reduce, emitted,
  validate_round,
}
use nodecore.EventProcessors.Settings.Follows.{validated, validated-verdict}

program : Unit {0}
unfolding step reduce emitted validate_round validated
program = tt

abbrev config : Config
config = record {
  enable_methods = [];
  disable_methods = [];
  spec_methods = [];
  full_spec = [];
  syncing_lag = pos 5;
}

abbrev started : Loop
started = record {
  banned_methods = [];
  unsupported = [];
  valid_upstream = true;
  base_avail = available;
  upstream_state = record {
    status = available;
    head_data = zero_block;
    upstream_methods = [];
    caps = [];
    upstream_index = "00001";
    rate_limiter_budget = none;
    auto_tune_rate_limiter = none;
    block_info = [];
    lower_bounds_info = [];
    labels = [];
  };
  head_lag = pos 0;
}

abbrev breaks : List (List ValidationSettingResult)
breaks = (valid_result ∷ fatal_setting_error ∷ []) ∷ (settings_error ∷ valid_result ∷ []) ∷ []

stays_removed : (validated config valid_result breaks started).valid_upstream ≡ false
unfolding program
stays_removed = refl

validated-verdict_example : (validated config valid_result breaks started).valid_upstream ≡ false
unfolding program
validated-verdict_example = validated-verdict config valid_result breaks started refl (tt, (tt, tt))
