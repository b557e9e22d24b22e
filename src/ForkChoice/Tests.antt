-- ===== src/ForkChoice/Tests.antt =====
-- Runs of the fork choice on the histories of height_fc_test.go, and the theorems at them.
use nodecore.Base.{
  ℕ, ◌≤◌, ◌≡◌, refl, false, List, [], ◌∷◌, String, none, some, string_dec, string_ne,
}
use nodecore.Keyed.{load, store, delete}
use nodecore.Protocol.Block.{Block, zero_block, is_empty_by_height}
use nodecore.Protocol.State.{available, unavailable}
use nodecore.ForkChoice.Height.{HeightForkChoice, new_height_fork_choice, choose, max_height, Inv}
use nodecore.ForkChoice.History.{Report, run, live_head, hear, run-highest}

program : Unit {0}
unfolding load store delete string_dec is_empty_by_height choose max_height new_height_fork_choice
    run live_head hear
program = tt

abbrev block_at : ℕ → ℕ → Block
block_at height byte = record zero_block { height = height; hash = byte ∷ [] }

abbrev report : String → ℕ → ℕ → Report
report id height byte = record { id = id; status = available; head = block_at height byte }

abbrev down : String → Report
down id = record { id = id; status = unavailable; head = zero_block }

abbrev two_live : HeightForkChoice
two_live = record {
  heads = ("id1", block_at 100 1) ∷ ("id2", block_at 50 5) ∷ [];
  max_head = block_at 100 1;
}

abbrev heights : List Report
heights = report "id1" 100 1 ∷ report "id2" 50 5 ∷ report "id1" 200 53 ∷ down "id1" ∷ []

falls_back : (run new_height_fork_choice heights).max_head ≡ block_at 50 5
unfolding program
falls_back = refl

all_down : (run new_height_fork_choice (report "id2" 50 5 ∷ down "id2" ∷ [])).max_head ≡ zero_block
unfolding program
all_down = refl

never_seen : choose "never-seen" unavailable zero_block two_live ≡ (two_live, false, block_at 100 1)
unfolding program
never_seen = refl

two_live-Inv : Inv two_live
two_live-Inv = record { keyed = ((string_ne "id2" "id1" refl, tt), (tt, tt)); merged = refl }

run-highest_example :
    let merged = (run new_height_fork_choice heights).max_head.height in
    (50 ≤ merged)
    × ((k : String) × (top : Block) × (live_head k none heights ≡ some top) × (top.height ≡ merged))
unfolding program
run-highest_example = run-highest heights "id2" (block_at 50 5) refl
