-- ===== src/Memory/Slab/Tests.antt =====
-- A slab of three pages of four bytes: page 0 is in use, and pages 2 and 1 are free.
use ram_vram_sharing.Prelude.{[], ◌∷◌, arith, ◌==◌, if◌then◌else◌}
use ram_vram_sharing.Memory.Slab.{free, allocated, Slab}
use ram_vram_sharing.Memory.Slab.Invariant.{IsValid}

abbrev small_slab : Slab
small_slab = record {
  page_size = 4;
  total_pages = 3;
  buffer = λ a. a;
  page_states = λ q. if q == 0 then allocated else free;
  free_list = 2 ∷ 1 ∷ [];
}

small_slab-IsValid : IsValid small_slab
small_slab-IsValid = record { page_pos = omega arith; tracks = λ q. ground arith }
