-- ===== src/Keyed.antt =====
-- Go maps as association lists (`pkg/utils` CMap, `map[K]V`) and mapset sets as lists, over keys
-- with decidable equality. Go iterates over a map in any order: the order of the list stands for
-- the order of one iteration.
mod Carried
mod Maps
mod Sets
mod Totals
unfoldable pub use Carried.*
unfoldable pub use Maps.*
unfoldable pub use Sets.*
unfoldable pub use Totals.*
