-- ===== src/Memory/Tracker/Tests.antt =====
-- A tracker over three pages of four bytes: handle 1 has six bytes on pages 0 and 1 and belongs to
-- session 7, handle 2 has the last page and belongs to session 8; and one with a page still free.
use ram_vram_sharing.Prelude.{
  ℕ, ◌+◌, ◌-◌, ◌<◌, ◌≡◌, refl, ◌≢◌, ◌⊎◌, true, false, none, some, List, [], ◌∷◌, arith, ltb,
  if◌then◌else◌, size_max, count, lookup,
}
use ram_vram_sharing.Memory.Raw.{bad_alloc, invalid_argument, permission_denied, ok, throw}
use ram_vram_sharing.Memory.Slab.{free, allocated, Slab, write_page}
use ram_vram_sharing.Memory.Slab.Allocate.{Granted}
use ram_vram_sharing.Memory.Tracker.{
  Allocation, Tracker, denies, check_ownership, record_allocation, finish_allocate, allocate,
  and_then, ◌>>=◌, write_loop, splice, read_loop, write, read, own, assign_owner, sweep,
  free_all_for_owner,
}
use ram_vram_sharing.Memory.Tracker.Invariant.{IsValid}
use ram_vram_sharing.Memory.Tracker.Views.{view}
use ram_vram_sharing.Memory.Tracker.Allocate.{grown, allocate_lem, allocate_zero}
use ram_vram_sharing.Memory.Tracker.Isolation.{write_isolated, read_after_write}
use ram_vram_sharing.Memory.Tracker.Ownership.{free_lem}
use ram_vram_sharing.Memory.Tracker.Sweep.{free_all_for_owner_lem}
use ram_vram_sharing.Memory.Tracker

abbrev busy_slab : Slab
busy_slab = record {
  page_size = 4;
  total_pages = 3;
  buffer = λ a. a;
  page_states = λ _. allocated;
  free_list = [];
}

abbrev pub busy_tracker : Tracker
busy_tracker = record {
  slab = busy_slab;
  allocations =
      (1, record { total_size = 6; pages = 0 ∷ 1 ∷ []; owner_id = 7 })
      ∷ (2, record { total_size = 4; pages = 2 ∷ []; owner_id = 8 })
      ∷ [];
  next_handle = 3;
}

pub busy_tracker-IsValid : IsValid busy_tracker
busy_tracker-IsValid = record {
  slab = record { page_pos = omega arith; tracks = λ q. ground arith };
  next_pos = omega arith;
  unique = (refl, (refl, tt));
  below = (omega arith, omega arith, (omega arith, omega arith, tt));
  sized = ((omega arith, omega arith), ((omega arith, omega arith), tt));
  conserved = λ q. ground arith;
}

-- Handle 1 alone, so that page 2 is free.
abbrev roomy_tracker : Tracker
roomy_tracker = record {
  slab = record busy_slab {
    page_states = λ q. if ltb q 2 then allocated else free;
    free_list = 2 ∷ [];
  };
  allocations = (1, record { total_size = 6; pages = 0 ∷ 1 ∷ []; owner_id = 7 }) ∷ [];
  next_handle = 2;
}

roomy_tracker-IsValid : IsValid roomy_tracker
roomy_tracker-IsValid = record {
  slab = record { page_pos = omega arith; tracks = λ q. ground arith };
  next_pos = omega arith;
  unique = (refl, tt);
  below = (omega arith, omega arith, tt);
  sized = ((omega arith, omega arith), tt);
  conserved = λ q. ground arith;
}

one_not_two : ◌≢◌ {A = ℕ} 1 2
one_not_two = λ e. absurd (omega (arith, e))

write_isolated_example :
    read 2 0 (λ _. 0) 4 8 (write 1 2 (λ i. 50 + i) 4 7 busy_tracker).0
    ≡ read 2 0 (λ _. 0) 4 8 busy_tracker
write_isolated_example =
    write_isolated busy_tracker 1 2 4 7 (λ i. 50 + i) 2 0 4 8 (λ _. 0) busy_tracker-IsValid
      one_not_two

-- A write across the border of two pages succeeds.
write_granted : (write 1 2 (λ i. 50 + i) 4 7 busy_tracker).1 ≡ ok tt
unfolding write write_page Tracker.write_loop
write_granted = refl

read_after_write_example :
    read 1 2 (λ _. 0) 4 7 (write 1 2 (λ i. 50 + i) 4 7 busy_tracker).0
    ≡ ok (λ j. if ltb j 4 then 50 + j else 0)
read_after_write_example =
    read_after_write busy_tracker 1 2 4 7 (λ i. 50 + i) (λ _. 0) busy_tracker-IsValid write_granted

allocate_lem_example :
    ((size_max - 3 < 3) ⊎ (1 < 1)) × (allocate 3 roomy_tracker ≡ (roomy_tracker, throw bad_alloc))
    ⊎ ((s : Slab) × (ps : List ℕ) × (allocate 3 roomy_tracker ≡ (grown roomy_tracker 3 s ps, ok 2))
        × IsValid (grown roomy_tracker 3 s ps)
        × Granted 1 roomy_tracker.slab s ps
        × (lookup 2 roomy_tracker.allocations ≡ none))
allocate_lem_example =
    allocate_lem roomy_tracker 3 roomy_tracker-IsValid (omega arith) (omega arith)

allocate_zero_example :
    (allocate 3 roomy_tracker ≡ (roomy_tracker, throw bad_alloc))
    ⊎ ((t' : Tracker) × (a : Allocation) × (allocate 3 roomy_tracker ≡ (t', ok 2))
        × (lookup 2 t'.allocations ≡ some a)
        × (a.total_size ≡ 3)
        × (a.owner_id ≡ 0)
        × (view t'.slab a.pages 1 ≡ 0))
allocate_zero_example =
    allocate_zero roomy_tracker 3 1 roomy_tracker-IsValid (omega arith) (omega arith) (omega arith)

free_lem_example :
    ((lookup 1 busy_tracker.allocations ≡ none)
      × (Tracker.free 1 7 busy_tracker ≡ (busy_tracker, throw invalid_argument)))
    ⊎ ((a : Allocation) × (lookup 1 busy_tracker.allocations ≡ some a)
        × (denies a 7 ≡ true)
        × (Tracker.free 1 7 busy_tracker ≡ (busy_tracker, throw permission_denied)))
    ⊎ ((a : Allocation) × (t' : Tracker) × (lookup 1 busy_tracker.allocations ≡ some a)
        × (denies a 7 ≡ false)
        × (Tracker.free 1 7 busy_tracker ≡ (t', ok tt))
        × (lookup 1 t'.allocations ≡ none)
        × (lookup 2 t'.allocations ≡ lookup 2 busy_tracker.allocations)
        × (count 0 t'.slab.free_list ≡ count 0 a.pages + count 0 busy_slab.free_list)
        × (t'.slab.buffer ≡ busy_slab.buffer)
        × IsValid t')
free_lem_example = free_lem busy_tracker 1 7 2 0 busy_tracker-IsValid one_not_two

free_all_for_owner_lem_example :
    let t' = free_all_for_owner 7 busy_tracker in
    IsValid t'
    × (lookup 1 t'.allocations ≡ none)
    × (count 0 t'.slab.free_list ≡ 1)
    × (t'.slab.buffer ≡ busy_slab.buffer)
free_all_for_owner_lem_example =
    free_all_for_owner_lem busy_tracker 7 1 0 busy_tracker-IsValid (omega arith)
