-- ===== src/SubEngine/Tests.antt =====
-- A chain that replaces its block 8 after block 9, and the theorem at it.
use nodecore.Base.{ℕ, ◌≡◌, refl, [], ◌∷◌, bytes_dec, ℕ_discrete}
use nodecore.Protocol.Block.{Block, zero_block, hash_eq}
use nodecore.SubEngine.BlockTracker.{
  BlockTracker, block_new, block_drop, new_block_tracker, entry_at, put, reorg_point, drop_loop,
  drop_from, announce, is_known_block, advance,
}
use nodecore.SubEngine.BlockTracker.Repeats.{Settles, advance-Settles}

program : Unit {0}
unfolding ℕ_discrete bytes_dec hash_eq new_block_tracker entry_at put reorg_point drop_loop
    drop_from announce is_known_block advance
program = tt

abbrev block_at : ℕ → ℕ → Block
block_at height byte = record zero_block { height = height; hash = byte ∷ [] }

abbrev at_nine : BlockTracker
at_nine = (advance (block_at 9 90) (advance (block_at 8 80) new_block_tracker).0).0

replaces_two :
    (advance (block_at 8 81) at_nine).1
    ≡ record { block = block_at 9 90; kind = block_drop }
      ∷ record { block = block_at 8 80; kind = block_drop }
      ∷ record { block = block_at 8 81; kind = block_new }
      ∷ []
unfolding program
replaces_two = refl

advance-Settles_example : Settles (block_at 8 81) (advance (block_at 8 81) at_nine)
unfolding program
advance-Settles_example = advance-Settles (block_at 8 81) at_nine refl
