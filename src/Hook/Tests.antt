-- ===== src/Hook/Tests.antt =====
-- A hook over an arena of 100 bytes at 4096, and a runtime whose blocks start at 8192.
use ram_vram_sharing.Prelude.{
  ℕ, ◌+◌, ◌*◌, ◌%◌, ◌≤◌, ◌<◌, min, ◌≡◌, refl, ◌⊎◌, inl, inr, true, false, Option, none, some, List,
  [], ◌∷◌, arith, ltb, ◌==◌, u64_mod, length, count,
}
use ram_vram_sharing.Memory.Raw.{fill}
use ram_vram_sharing.Client.Arena.{Arena, align_up, first_fit, take_block, allocate, block_size}
use ram_vram_sharing.Client.Arena.Invariant.{IsValid}
use ram_vram_sharing.Hook.Blocks.{Keeps, fill-outside, Granted, Moved}
use ram_vram_sharing.Hook.Redirect.{Polite}
use ram_vram_sharing.Hook.Realloc.{realloc_lem}
use ram_vram_sharing.Hook.Calls.{calloc_lem}
use ram_vram_sharing.Hook.Free.{Restored, free-malloc}
use ram_vram_sharing.Hook.Slots.{max_slots, Scan, no_slots, scan_all}
use ram_vram_sharing.Hook.Slots.Once.{names, scan_all_once}
use ram_vram_sharing.Hook.{
  Config, Process, Crt, Hook, arena_owns, size_of, ensure_initialized, allocate_in, remote_allocate,
  hooked_free, hooked_malloc, hooked_calloc, move_owned, hooked_realloc,
}

abbrev arena : Arena
arena = record {
  base = 4096;
  size = 100;
  free_blocks = (16, 20) ∷ (60, 40) ∷ [];
  live_blocks = (0, 16) ∷ (36, 24) ∷ [];
  in_use_bytes = 40;
}

arena-IsValid : IsValid arena
arena-IsValid = record {
  addressable = omega arith;
  separated = (omega arith, omega arith, (omega arith, omega arith, tt));
  live_positive = (omega arith, (omega arith, tt));
  tiled = λ x. ground arith;
  counted = refl;
}

abbrev settings : Config
settings = record {
  remote_mode = true;
  threshold = 16;
  heap_size = 100;
  budget = 100;
  page_bytes = 2;
  max_local = 0;
}

-- The state of the runtime is the number of bytes that it has given.
abbrev bump : ℕ → Process ℕ → Process ℕ × Option ℕ
bump n s = (record s { crt = s.crt + n }, some (8192 + s.crt))

abbrev zeroed : ℕ → ℕ → Process ℕ → Process ℕ × Option ℕ
zeroed count size s = (
  record { crt = s.crt + count * size; memory = fill s.memory (8192 + s.crt) 0 (count * size) },
  some (8192 + s.crt),
)

abbrev runtime : Crt ℕ
runtime = record {
  real_malloc = bump;
  real_calloc = zeroed;
  real_realloc = λ p n s. bump n s;
  real_free = λ p s. s;
  real_msize = none;
}

abbrev no_heap : Process ℕ → Process ℕ × Option (ℕ × ℕ)
no_heap s = (s, none)

abbrev start : Hook ℕ
start = record {
  process = record { crt = 0; memory = λ x. x % 256 };
  arena = some arena;
  ready = true;
  failed = false;
  depth = 0;
  redirected = 0;
  redirected_bytes = 0;
  passed_through = 0;
  large_seen = 0;
  large_bytes = 0;
}

bump-Polite : (n : ℕ) → Polite (bump n) n arena
bump-Polite n = record { keeps = λ s x a b. refl; outside = λ s e. inr (ground arith) }

zeroed-Polite : (count size : ℕ) → Polite (zeroed count size) (count * size) arena
zeroed-Polite count size = record {
  keeps = λ s x a b. fill-outside s.memory (8192 + s.crt) (count * size) x (inl (omega arith));
  outside = λ s e. inr (ground arith);
}

abbrev longer : ℕ
longer = 30

realloc_run : (hooked_realloc settings runtime false no_heap (some 4132) longer start).1 ≡ some 4160
unfolding hooked_realloc arena_owns move_owned size_of block_size remote_allocate ensure_initialized
    allocate_in allocate first_fit align_up take_block
realloc_run = refl

realloc_lem_example :
    ((h' : Hook ℕ) × (hooked_realloc settings runtime false no_heap (some 4132) longer start
        ≡ (h', none))
      × (h'.arena ≡ some arena)
      × Keeps arena start.process.memory h'.process.memory)
    ⊎ ((h' : Hook ℕ) × (q : ℕ) × (a' : Arena) × (hooked_realloc settings runtime false no_heap
            (some 4132)
            longer
            start
          ≡ (h', some q))
        × (h'.arena ≡ some a')
        × Moved
            (runtime.real_malloc longer start.process).1
            longer
            (min 24 longer)
            36
            q
            arena
            a'
            start.process.memory
            h'.process.memory)
realloc_lem_example =
    realloc_lem settings runtime false no_heap arena 36 longer start (bump-Polite longer) refl refl
      arena-IsValid (omega arith) refl (omega arith)

zeroes :
    (s : Process ℕ) (q i : ℕ)
    → (zeroed 3 8 s).1 ≡ some q
    → i < 24
    → (zeroed 3 8 s).0.memory (q + i) ≡ 0
zeroes s q i e h = ground arith

calloc_lem_example :
    ((h' : Hook ℕ) × (hooked_calloc settings runtime false no_heap 3 8 start ≡ (h', none))
      × (h'.arena ≡ some arena)
      × Keeps arena start.process.memory h'.process.memory)
    ⊎ ((h' : Hook ℕ) × (q : ℕ) × (a' : Arena) × (hooked_calloc settings runtime false no_heap 3 8
            start
          ≡ (h', some q))
        × (h'.arena ≡ some a')
        × (3 * 8 < u64_mod)
        × ((i : ℕ) → i < 3 * 8 → h'.process.memory (q + i) ≡ 0)
        × Granted
            (runtime.real_calloc 3 8 start.process).1
            (3 * 8)
            q
            arena
            a'
            start.process.memory
            h'.process.memory)
calloc_lem_example =
    calloc_lem settings runtime false no_heap arena 3 8 start (zeroed-Polite 3 8) zeroes refl refl
      arena-IsValid

abbrev given : Hook ℕ × Option ℕ
given = hooked_malloc settings runtime false no_heap longer start

malloc_run : given ≡ (given.0, some 4160)
unfolding hooked_malloc remote_allocate ensure_initialized allocate_in allocate first_fit align_up
    take_block
malloc_run = refl

free-malloc_example :
    ((a2 : Arena) × ((hooked_free runtime (some 4160) given.0).arena ≡ some a2)
      × ((hooked_free runtime (some 4160) given.0).process ≡ start.process)
      × Restored arena a2)
    ⊎ (((runtime.real_malloc longer start.process).1 ≡ some 4160)
        × ((hooked_free runtime (some 4160) given.0).arena ≡ some arena)
        × ((hooked_free runtime (some 4160) given.0).process
            ≡ runtime.real_free (some 4160) (runtime.real_malloc longer start.process).0))
free-malloc_example =
    free-malloc settings runtime false no_heap arena longer 4160 start given.0 (bump-Polite longer)
      refl refl arena-IsValid (omega arith) (omega arith) malloc_run

-- The first scan finds one runtime, the second one two, and the transaction of the first fails.
abbrev scans : List Scan
scans =
    record {
      is_loaded = λ m. m == 0;
      resolve = λ m f. true;
      detour_attach = λ m f. true;
      commits = false;
    }
    ∷ record {
      is_loaded = λ m. ltb m 2;
      resolve = λ m f. true;
      detour_attach = λ m f. true;
      commits = true;
    }
    ∷ []

scan_all_once_example :
    (length (scan_all scans no_slots).slots ≤ max_slots)
    × ((m : ℕ)
        → (count m (names (scan_all scans no_slots).slots) ≤ 1)
          × (count m (scan_all scans no_slots).attached
              ≡ count m (names (scan_all scans no_slots).slots)))
scan_all_once_example = scan_all_once scans
