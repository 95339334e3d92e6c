-- ===== src/Client/Arena/Invariant.antt =====
-- The invariant of the arena: each of its bytes lies in exactly one block, free or live.
use ram_vram_sharing.Prelude.{
  ℕ, ◌+◌, ◌-◌, ◌≤◌, ◌<◌, ◌≡◌, refl, inl, inr, some, arith, ltb, ◌==◌, if◌then◌else◌, Bool-cases,
  u64_mod, lookup,
}
use ram_vram_sharing.Client.Arena.{Blocks, Arena, create, total_bytes}
use ram_vram_sharing.Client.Arena.Blocks.{
  cover, AllPositive, Separated, cover-erase, AllPositive-lookup, Separated-AllPositive,
}

-- The free blocks are in order and no two of them touch, no live block is empty, and the counter is
-- the sum of the live lengths. The region ends below the last address.
pub record IsValid (a : Arena) : Type 0 where
  pub addressable : a.base + a.size < u64_mod
  pub separated : Separated 0 a.free_blocks
  pub live_positive : AllPositive a.live_blocks
  pub tiled :
      (x : ℕ) → cover x a.free_blocks + cover x a.live_blocks ≡ (if ltb x a.size then 1 else 0)
  pub counted : a.in_use_bytes ≡ total_bytes a.live_blocks

-- The constructor builds a valid arena over a region that does not start at the null pointer and
-- ends below the last address.
pub create-IsValid : (base size : ℕ) → 0 < base → base + size < u64_mod → IsValid (create base size)
unfolding create
create-IsValid base size p h = elim (Bool-cases (size == 0)) [
  | inl z ↦ record {
    addressable = h;
    separated = ground arith;
    live_positive = tt;
    tiled = λ x. ground arith;
    counted = refl;
  }
  | inr z ↦ record {
    addressable = h;
    separated = ground arith;
    live_positive = tt;
    tiled = λ x. ground arith;
    counted = refl;
  }
]

pub covered_at :
    (k x : ℕ) (m : Blocks) {v : ℕ} → lookup k m ≡ some v → k ≤ x → x < k + v → 1 ≤ cover x m
covered_at k x m {v} e p q = ground (arith, cover-erase x k m e)

-- A free block lies in the region, and no live block overlaps it.
pub free_block_lem :
    (a : Arena) (k : ℕ) {v : ℕ}
    → IsValid a
    → lookup k a.free_blocks ≡ some v
    → (0 < v) × (k + v ≤ a.size)
free_block_lem a k {v} i e =
    let pos =
      AllPositive-lookup k a.free_blocks (Separated-AllPositive 0 a.free_blocks i.separated) e in
    (pos, ground (arith, i.tiled (k + v - 1), covered_at k (k + v - 1) a.free_blocks e))

pub live_block_lem :
    (a : Arena) (k : ℕ) {v : ℕ}
    → IsValid a
    → lookup k a.live_blocks ≡ some v
    → (0 < v) × (k + v ≤ a.size)
live_block_lem a k {v} i e =
    let pos = AllPositive-lookup k a.live_blocks i.live_positive e in
    (pos, ground (arith, i.tiled (k + v - 1), covered_at k (k + v - 1) a.live_blocks e))
