-- ===== src/Client/Arena/Tests.antt =====
-- An arena of 100 bytes with free blocks at 16 and 60, and live blocks at 0 and 36.
use Prim.Native.Nat.{bit_and}
use ram_vram_sharing.Prelude.{
  ℕ, ◌+◌, ◌≤◌, ◌<◌, ◌≡◌, refl, ◌≢◌, ◌⊎◌, none, some, [], ◌∷◌, arith, lookup,
}
use ram_vram_sharing.Client.Arena.{
  Arena, emplace, align_up, first_fit, take_block, allocate, prev_of, merge_prev, insert_free,
  deallocate,
}
use ram_vram_sharing.Client.Arena.Invariant.{IsValid}
use ram_vram_sharing.Client.Arena.Allocate.{Fits, Taken, allocate-Taken}
use ram_vram_sharing.Client.Arena.Release.{Released, deallocate_lem}

abbrev arena : Arena
arena = record {
  base = 4096;
  size = 100;
  free_blocks = (16, 20) ∷ (60, 40) ∷ [];
  live_blocks = (0, 16) ∷ (36, 24) ∷ [];
  in_use_bytes = 40;
}

arena-IsValid : IsValid arena
arena-IsValid = record {
  addressable = omega arith;
  separated = (omega arith, omega arith, (omega arith, omega arith, tt));
  live_positive = (omega arith, (omega arith, tt));
  tiled = λ x. ground arith;
  counted = refl;
}

abbrev request : ℕ
request = 24

abbrev boundary : ℕ
boundary = 32

allocate-Taken_example :
    (((request ≡ 0)
        ⊎ (arena.base ≡ 0)
        ⊎ (boundary ≡ 0)
        ⊎ (bit_and 32 31 ≢ 0)
        ⊎ ((start len : ℕ)
            → lookup start arena.free_blocks ≡ some len
            → ¬ Fits 4096 24 32 start len))
      × (allocate 24 32 arena ≡ (arena, none)))
    ⊎ ((a' : Arena) × (at : ℕ) × (allocate 24 32 arena ≡ (a', some (4096 + at)))
        × Taken 24 at arena a')
allocate-Taken_example = allocate-Taken 24 32 arena arena-IsValid

-- The first block is too short once it is aligned; the second one serves.
allocate_run : (allocate 24 32 arena).1 ≡ some 4160
unfolding allocate first_fit align_up take_block
allocate_run = refl

deallocate_lem_example :
    ((len : ℕ) × (4096 ≤ 4132)
      × (lookup 36 arena.live_blocks ≡ some len)
      × Released 36 len arena (deallocate 4132 arena))
    ⊎ (((4132 < 4096) ⊎ (lookup 36 arena.live_blocks ≡ none)) × (deallocate 4132 arena ≡ arena))
deallocate_lem_example = deallocate_lem 4132 arena arena-IsValid (omega arith)

-- The block between two free ones is merged with both.
deallocate_run : (deallocate 4132 arena).free_blocks ≡ (16, 84) ∷ []
unfolding deallocate insert_free merge_prev prev_of emplace
deallocate_run = refl
