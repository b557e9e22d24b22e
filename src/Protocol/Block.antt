-- ===== src/Protocol/Block.antt =====
-- internal/protocol/blocks.go and pkg/blockchain/hash_id.go: blocks and how they are compared.
-- Heights and slots are uint64 and are only compared here, so they stand as plain numbers.
use Prim.Native.Nat.{compare, Ordering}
use nodecore.Base.{ℕ, Bool, ◌&&◌, List, [], length, ◌==◌, ite, true, false, bytes_dec}

-- A hash id is a byte slice; nil and the empty slice have length 0 both.
abbrev pub HashId : Type 0
HashId = List ℕ

pub record Block : Type 0 where
  pub height : ℕ
  pub slot : ℕ
  pub hash : HashId
  pub parent_hash : HashId
  pub raw_data : List ℕ

-- ZeroBlock is another name of Block; `ZeroBlock{}` and `Block{}` are this value.
abbrev pub zero_block : Block
zero_block = record { height = 0; slot = 0; hash = []; parent_hash = []; raw_data = [] }

unfoldable pub new_block : ℕ → ℕ → HashId → HashId → Block
new_block height slot hash parent_hash = record {
  height = height;
  slot = slot;
  hash = hash;
  parent_hash = parent_hash;
  raw_data = [];
}

-- `bytes.Equal`.
unfoldable pub hash_eq : HashId → HashId → Bool
unfolding bytes_dec
hash_eq a b = ite (bytes_dec a b) true false

-- `Equals` leaves the raw data out.
unfoldable pub block_eq : Block → Block → Bool
unfolding hash_eq
block_eq b other =
    b.height == other.height
    && b.slot == other.slot
    && hash_eq b.hash other.hash
    && hash_eq b.parent_hash other.parent_hash

-- `cmp.Compare` on heights.
abbrev pub compare_with_height : Block → Block → Ordering
compare_with_height b other = compare b.height other.height

unfoldable pub is_empty_by_height : Block → Bool
is_empty_by_height b = b.height == 0 && length b.hash == 0 && length b.parent_hash == 0

unfoldable pub is_full_empty : Block → Bool
is_full_empty b = b.height == 0 && b.slot == 0 && length b.hash == 0 && length b.parent_hash == 0
