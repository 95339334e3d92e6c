-- ===== src/Client/Lru/Tests.antt =====
-- A cache of ten bytes with the blocks 1, 2 and 3, of which 3 was used last.
use ram_vram_sharing.Prelude.{ℕ, ◌<◌, ◌≡◌, refl, ◌⊎◌, true, false, List, [], ◌∷◌, ◌++◌, arith}
use ram_vram_sharing.Client.Lru.{CacheBlock, Cache, unlink, put}
use ram_vram_sharing.Client.Lru.Invariant.{IsValid}
use ram_vram_sharing.Client.Lru.Order.{Minimal}
use ram_vram_sharing.Client.Lru.Methods.{put_lem}

abbrev block : ℕ → List ℕ → CacheBlock
block h bytes = record { handle = h; bytes = bytes; dirty = false }

abbrev blocks : List CacheBlock
blocks = block 3 (7 ∷ 7 ∷ []) ∷ block 2 (8 ∷ 8 ∷ 8 ∷ []) ∷ block 1 (9 ∷ 9 ∷ 9 ∷ 9 ∷ []) ∷ []

abbrev cache : Cache
cache = record { max_bytes = 10; current_bytes = 9; list = blocks; keys = 1 ∷ 2 ∷ 3 ∷ [] }

cache-IsValid : IsValid cache
cache-IsValid = record {
  summed = refl;
  within = omega arith;
  mapped = λ h. ground arith;
  distinct = λ h. ground arith;
}

put_lem_example :
    ((10 < 3) × (put 4 (5 ∷ 5 ∷ 5 ∷ []) false cache ≡ (cache, false)))
    ⊎ ((c' : Cache) × (kept : List CacheBlock) × (tail : List CacheBlock) × (put 4
            (5 ∷ 5 ∷ 5 ∷ [])
            false
            cache
          ≡ (c', true))
        × IsValid c'
        × (c'.max_bytes ≡ 10)
        × (c'.list ≡ block 4 (5 ∷ 5 ∷ 5 ∷ []) ∷ kept)
        × (unlink 4 blocks ≡ kept ++ tail)
        × Minimal 10 3 kept tail)
put_lem_example = put_lem 4 (5 ∷ 5 ∷ 5 ∷ []) false cache cache-IsValid
