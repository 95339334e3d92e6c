-- ===== src/Client/Arena/Release.antt =====
-- What HeapArena::deallocate promises.
use mathlib.Core.Path.{subst}
use ram_vram_sharing.Prelude.{
  ℕ, ◌+◌, ◌-◌, ◌≤◌, ◌<◌, ◌≡◌, refl, sym, ◌⊎◌, inl, inr, none, some, arith, ltb, Bool-cases,
  Option-cases, u64_mod, lookup, erase,
}
use ram_vram_sharing.Client.Arena.{Arena, insert_free, deallocate}
use ram_vram_sharing.Client.Arena.Blocks.{
  hit, cover, Apart, cover-erase, total_bytes-erase, AllPositive-erase, uncovered,
  Separated-AllPositive,
}
use ram_vram_sharing.Client.Arena.Gaps.{cover-Apart}
use ram_vram_sharing.Client.Arena.Merge.{insert_free-Added}
use ram_vram_sharing.Client.Arena.Invariant.{IsValid, covered_at, live_block_lem}

-- The live block of `len` bytes at `offset` has become free.
pub record Released (offset len : ℕ) (a a' : Arena) : Type 0 where
  pub valid : IsValid a'
  pub same_base : a'.base ≡ a.base
  pub same_size : a'.size ≡ a.size
  pub forgotten : a'.live_blocks ≡ erase offset a.live_blocks
  pub unknown : lookup offset a'.live_blocks ≡ none
  pub freed : (x : ℕ) → cover x a'.free_blocks ≡ hit x offset len + cover x a.free_blocks

abbrev released : ℕ → ℕ → Arena → Arena
released offset len a = record a {
  live_blocks = erase offset a.live_blocks;
  in_use_bytes = a.in_use_bytes - len;
  free_blocks = insert_free offset len a.free_blocks;
}

release_lem :
    (offset len : ℕ) (a : Arena)
    → IsValid a
    → lookup offset a.live_blocks ≡ some len
    → Released offset len a (released offset len a)
release_lem offset len a v e =
    let (pos, _) = live_block_lem a offset v e in
    let apart : Apart 0 0 offset len a.free_blocks =
      cover-Apart offset len a.free_blocks
        (λ x p q. ground (arith, v.tiled x, covered_at offset x a.live_blocks e p q)) pos
        (Separated-AllPositive 0 a.free_blocks v.separated) in
    let r = insert_free-Added offset len a.free_blocks pos v.separated apart in
    let positive = AllPositive-erase offset a.live_blocks v.live_positive in
    record {
      valid = record {
        addressable = v.addressable;
        separated = r.separated;
        live_positive = positive;
        tiled = λ x. omega (arith, v.tiled x, r.covered x, cover-erase x offset a.live_blocks e);
        counted = omega (arith, v.counted, total_bytes-erase offset a.live_blocks e);
      };
      same_base = refl;
      same_size = refl;
      forgotten = refl;
      unknown =
          uncovered offset (erase offset a.live_blocks) positive
            (ground (arith, v.tiled offset, cover-erase offset offset a.live_blocks e));
      freed = r.covered;
    }

outside_region : (ptr : ℕ) (a : Arena) → ptr < a.base → deallocate ptr a ≡ a
unfolding deallocate
outside_region ptr a h = ground arith

not_live : (ptr : ℕ) (a : Arena) → lookup (ptr - a.base) a.live_blocks ≡ none → deallocate ptr a ≡ a
unfolding deallocate
not_live ptr a e = ground arith

live_start :
    (ptr len : ℕ) (a : Arena)
    → 0 < a.base
    → a.base ≤ ptr
    → ptr < a.base + a.size
    → a.base + a.size < u64_mod
    → lookup (ptr - a.base) a.live_blocks ≡ some len
    → deallocate ptr a ≡ released (ptr - a.base) len a
unfolding deallocate
live_start ptr len a b p q r e = ground arith

-- deallocate acts on the start of a live block alone: the block is no longer live, its bytes and no
-- others become free, and the arena stays valid, so that no two free blocks touch. Every other
-- pointer, below the region, inside a block or freed already, changes nothing. The region is assumed
-- not to start at null.
pub deallocate_lem :
    (ptr : ℕ) (a : Arena)
    → IsValid a
    → 0 < a.base
    → ((len : ℕ) × (a.base ≤ ptr)
        × (lookup (ptr - a.base) a.live_blocks ≡ some len)
        × Released (ptr - a.base) len a (deallocate ptr a))
      ⊎ (((ptr < a.base) ⊎ (lookup (ptr - a.base) a.live_blocks ≡ none)) × (deallocate ptr a ≡ a))
deallocate_lem ptr a v b = elim (Option-cases (lookup (ptr - a.base) a.live_blocks)) [
  | inl e ↦ inr (inr e, not_live ptr a e)
  | inr (len, e) ↦ elim (Bool-cases (ltb ptr a.base)) [
    | inl below ↦ let lt : ptr < a.base = ground arith in inr (inl lt, outside_region ptr a lt)
    | inr above ↦
        let r = release_lem (ptr - a.base) len a v e in
        let le : a.base ≤ ptr = ground arith in
        let q =
          live_start ptr len a b le (omega (arith, live_block_lem a (ptr - a.base) v e))
            v.addressable e in
        inl (len, le, e, subst (λ x. Released (ptr - a.base) len a x) (sym q) r)
  ]
]
