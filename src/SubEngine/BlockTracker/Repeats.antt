-- ===== src/SubEngine/BlockTracker/Repeats.antt =====
-- internal/upstreams/flow/subengine/blockupdates.go: a head that is reported again.
use nodecore.Base.{
  ℕ, zero, suc, ◌+◌, ◌%◌, ◌-◌, ◌≡◌, inl, inr, refl, Bool, true, false, ◌==◌, List, [],
  if◌then◌else◌, ltb, length, set, length-set, get_elem?-set_self, arith, subst, sym, ◌∙◌,
  Bool-cases, Option-cases,
}
use nodecore.Protocol.Block.{Block, HashId, hash_eq}
use nodecore.SubEngine.BlockTracker.{
  RingEntry, BlockTracker, BlockUpdate, history_ring_size, empty_entry, entry_at, known, put,
  reorg_point, drop_loop, clamp, drop_from, announce, is_known_block, advance,
}

-- The ring keeps its size.
abbrev pub IsRing : List RingEntry → Type 0
IsRing ring = length ring ≡ history_ring_size

hash_eq_refl : (a : HashId) → hash_eq a a ≡ true
unfolding hash_eq
hash_eq_refl a = ground arith

drop_loop-IsRing :
    (count hh : ℕ) (ring : List RingEntry) → IsRing ring → IsRing (drop_loop count hh ring).0
unfolding drop_loop
drop_loop-IsRing zero hh ring h = h
drop_loop-IsRing (suc count) hh ring h =
    drop_loop-IsRing count (hh - 1) _ (cleared (known hh (entry_at hh ring)))
  where
    cleared :
        (b : Bool) → IsRing (if b then set ring (hh % history_ring_size) empty_entry else ring)
    cleared true = length-set ring (hh % history_ring_size) empty_entry ∙ h
    cleared false = h

entry_at-put :
    (block : Block) (ring : List RingEntry)
    → IsRing ring
    → entry_at block.height (put block ring)
      ≡ record { populated = true; height = block.height; hash = block.hash }
unfolding put entry_at
entry_at-put block ring h =
    rw
      (
        entry_at,
        get_elem?-set_self ring (block.height % history_ring_size)
            (record { populated = true; height = block.height; hash = block.hash }) (omega arith),
      )
      refl

put-known :
    (block : Block) (ring : List RingEntry)
    → IsRing ring
    → is_known_block block (put block ring) ≡ true
unfolding is_known_block
put-known block ring h =
    rw (is_known_block, entry_at-put block ring h, hash_eq_refl block.hash) (ground arith)

-- An announced block is not announced again.
announce-once :
    (block : Block) (r : List RingEntry × List BlockUpdate)
    → IsRing r.0
    → (length block.hash == 0) ≡ false
    → advance block (announce block r).0 ≡ ((announce block r).0, [])
unfolding advance announce
announce-once block (ring, drops) h n = rw (advance, n, put-known block ring h) refl

abbrev pub Settles : Block → BlockTracker × List BlockUpdate → Type 0
Settles block (t, updates) = IsRing t.ring × (advance block t ≡ (t, []))

announce-Settles :
    (block : Block) (r : List RingEntry × List BlockUpdate)
    → IsRing r.0
    → (length block.hash == 0) ≡ false
    → Settles block (announce block r)
unfolding announce put
announce-Settles block (ring, drops) h n = (
  length-set ring (block.height % history_ring_size) _ ∙ h,
  announce-once block (ring, drops) h n,
)

stays :
    (block : Block) (t : BlockTracker)
    → IsRing t.ring
    → advance block t ≡ (t, [])
    → Settles block (advance block t)
stays block t h e = subst (λ r. Settles block r) (sym e) (h, e)

announces :
    (block : Block) (t : BlockTracker) (r : List RingEntry × List BlockUpdate)
    → IsRing r.0
    → (length block.hash == 0) ≡ false
    → advance block t ≡ announce block r
    → Settles block (advance block t)
announces block t r h n e = subst (λ q. Settles block q) (sym e) (announce-Settles block r h n)

-- When a head was handed to the tracker, the ring keeps its size, and the same head, handed to it
-- again, changes nothing and announces nothing.
pub advance-Settles :
    (block : Block) (t : BlockTracker) → IsRing t.ring → Settles block (advance block t)
unfolding advance drop_from
advance-Settles block t h = elim (Bool-cases (length block.hash == 0)) [
  | inl e ↦ stays block t h (rw (advance, e) refl)
  | inr e ↦ elim (Bool-cases t.have_tip) [
    | inr no_tip ↦ announces block t (t.ring, []) h e (rw (advance, e, no_tip) refl)
    | inl tip ↦ elim (Bool-cases (is_known_block block t.ring)) [
      | inl seen ↦ stays block t h (rw (advance, e, tip, seen) refl)
      | inr new ↦ elim (Option-cases (reorg_point block t)) [
        | inr (from, r) ↦
            announces block t (drop_from from t)
              (drop_loop-IsRing (t.tip_h + 1 - clamp from t.tip_h) t.tip_h t.ring h) e
              (rw (advance, e, tip, new, r) refl)
        | inl r ↦ elim (Bool-cases (ltb t.tip_h block.height)) [
          | inl above ↦
              announces block t (t.ring, []) h e (rw (advance, e, tip, new, r, above) refl)
          | inr below ↦ stays block t h (rw (advance, e, tip, new, r, below) refl)
        ]
      ]
    ]
  ]
]
