-- ===== src/SubEngine/BlockTracker.antt =====
-- internal/upstreams/flow/subengine/blockupdates.go: the tracker that turns merged heads into new and
-- dropped blocks. The logs and the counter of clamped reorganisations are left out.
pub mod Repeats
use nodecore.Base.{
  ℕ, zero, suc, ◌+◌, ◌-◌, ◌%◌, Bool, true, false, not, ◌&&◌, List, [], ◌∷◌, ◌++◌, Option, none,
  some, if◌then◌else◌, ltb, leb, ◌==◌, length, get_elem?, set,
}
use nodecore.Protocol.Block.{Block, HashId, zero_block, hash_eq}

-- historyRingSize.
abbrev pub history_ring_size : ℕ
history_ring_size = 18

pub data UpdateKind : Type 0 where
  block_new block_drop : UpdateKind

pub record BlockUpdate : Type 0 where
  pub block : Block
  pub kind : UpdateKind

pub record RingEntry : Type 0 where
  pub populated : Bool
  pub height : ℕ
  pub hash : HashId

abbrev pub empty_entry : RingEntry
empty_entry = record { populated = false; height = 0; hash = [] }

pub record BlockTracker : Type 0 where
  pub ring : List RingEntry
  pub have_tip : Bool
  pub tip_h : ℕ

abbrev pub empties : ℕ → List RingEntry
empties zero = []
empties (suc n) = empty_entry ∷ empties n

unfoldable pub new_block_tracker : BlockTracker
new_block_tracker = record { ring = empties history_ring_size; have_tip = false; tip_h = 0 }

-- `ring[h%historyRingSize]`; the ring has that many entries, so the index is within it.
unfoldable pub entry_at : ℕ → List RingEntry → RingEntry
entry_at h ring = elim (get_elem? ring (h % history_ring_size)) [ none ↦ empty_entry | some e ↦ e ]

-- `e.populated && e.height == h`.
abbrev pub known : ℕ → RingEntry → Bool
known h e = e.populated && e.height == h

unfoldable pub put : Block → List RingEntry → List RingEntry
put block ring =
    set ring (block.height % history_ring_size)
      (record { populated = true; height = block.height; hash = block.hash })

unfoldable pub reorg_point : Block → BlockTracker → Option ℕ
unfolding entry_at hash_eq
reorg_point block t =
    if ltb t.tip_h block.height
    then (if block.height == t.tip_h + 1
          && ltb 0 (length block.parent_hash)
          && known t.tip_h (entry_at t.tip_h t.ring)
          && not (hash_eq (entry_at t.tip_h t.ring).hash block.parent_hash)
        then some t.tip_h
        else none)
    else if known block.height (entry_at block.height t.ring)
    then some block.height
    else none

abbrev dropped : RingEntry → BlockUpdate
dropped e = record {
  block = record zero_block { height = e.height; hash = e.hash };
  kind = block_drop;
}

-- The heights from `hh` down, as many as `count`.
unfoldable pub drop_loop : ℕ → ℕ → List RingEntry → List RingEntry × List BlockUpdate
unfolding entry_at
drop_loop zero hh ring = (ring, [])
drop_loop (suc count) hh ring =
    let e = entry_at hh ring in
    let found = known hh e in
    let rest =
      drop_loop count (hh - 1)
        (if found then set ring (hh % history_ring_size) empty_entry else ring) in
    (rest.0, if found then dropped e ∷ rest.1 else rest.1)

-- A reorganisation that reaches below the ring is clamped to it.
abbrev pub clamp : ℕ → ℕ → ℕ
clamp reorg_from tip_h =
    if leb history_ring_size tip_h && ltb reorg_from (tip_h - history_ring_size + 1)
    then tip_h - history_ring_size + 1
    else reorg_from

unfoldable pub drop_from : ℕ → BlockTracker → List RingEntry × List BlockUpdate
unfolding drop_loop
drop_from reorg_from t = drop_loop (t.tip_h + 1 - clamp reorg_from t.tip_h) t.tip_h t.ring

-- The block is put into the ring and becomes the tip, after the given drops.
unfoldable pub announce :
    Block → List RingEntry × List BlockUpdate → BlockTracker × List BlockUpdate
unfolding put
announce block (ring, drops) = (
  record { ring = put block ring; have_tip = true; tip_h = block.height },
  drops ++ record { block = block; kind = block_new } ∷ [],
)

abbrev reconcile : Block → Option ℕ → BlockTracker → BlockTracker × List BlockUpdate
reconcile block (some reorg_from) t = announce block (drop_from reorg_from t)
reconcile block none t = if ltb t.tip_h block.height then announce block (t.ring, []) else (t, [])

-- The block was announced already, at this height and with this hash.
unfoldable pub is_known_block : Block → List RingEntry → Bool
unfolding entry_at hash_eq
is_known_block block ring =
    known block.height (entry_at block.height ring)
    && hash_eq (entry_at block.height ring).hash block.hash

unfoldable pub advance : Block → BlockTracker → BlockTracker × List BlockUpdate
unfolding announce is_known_block reorg_point drop_from
advance block t =
    if length block.hash == 0
    then (t, [])
    else if not t.have_tip
    then announce block (t.ring, [])
    else if is_known_block block t.ring
    then (t, [])
    else reconcile block (reorg_point block t) t
