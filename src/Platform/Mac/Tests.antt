-- ===== src/Platform/Mac/Tests.antt =====
-- A backend with pages of four bytes and one region, of two pages, at 8. The kernel is the map of the
-- addresses that can be written.
use ram_vram_sharing.Prelude.{
  ℕ, ◌≡◌, refl, Bool, true, false, not, ◌&&◌, ◌||◌, none, some, List, [], ◌∷◌, arith,
}
use ram_vram_sharing.Platform.Pages.{floor_entry, region_for, state_of, touch, visit, for_each_page}
use ram_vram_sharing.Platform.Pages.Layout.{page_at}
use ram_vram_sharing.Platform.Pages.Range.{within}
use ram_vram_sharing.Platform.Windows.{
  absent, dirty, Backend, is_absent, counted, set_states, Call, classify, fill_pages, resolve_fault,
  perform, perform_all, mark_stored, promote, serve,
}
use ram_vram_sharing.Platform.Windows.Tracking.{Lawful, IsSound}
use ram_vram_sharing.Platform.Windows.Race.{filler}
use ram_vram_sharing.Platform.Mac.{Protection, no_access, read_only, read_write, Mprotect, system}
use ram_vram_sharing.Platform.Mac.Runs.{Event, signalled, run}

abbrev guard_pages : Protection → ℕ → ℕ → (ℕ → Bool) → (ℕ → Bool) × Bool
guard_pages no_access a n k = ((λ x. not (within a n x) && k x), true)
guard_pages read_only a n k = ((λ x. not (within a n x) && k x), true)
guard_pages read_write a n k = ((λ x. within a n x || k x), true)

abbrev plain : Mprotect (ℕ → Bool)
plain = record {
  map = λ n k. (k, none);
  unmap = λ a k. k;
  protect = guard_pages;
  free = λ a n k. k;
  copy = λ a bytes k. k;
  clear = λ a n k. k;
  writable = λ x k. k x;
}

plain-Lawful : Lawful (system plain)
plain-Lawful = record {
  committed = λ a n x k h. rw h;
  not_committed = λ a n x k h. cc;
  readonly = λ a n x k. ground arith;
  readwrite = λ a n x k h. ground arith;
  decommitted = λ a n x k. ground arith;
  copied = λ a x bytes k. refl;
  cleared = λ a n x k. refl;
}

abbrev start : Backend (ℕ → Bool)
start = record {
  kernel = λ x. false;
  page_size = 4;
  book = record {
    regions = (8, record { size = 8; pages = absent ∷ absent ∷ [] }) ∷ [];
    resident_pages = 0;
  };
  in_write_fault = false;
  resolved = false;
}

start-IsSound : IsSound (system plain) start
start-IsSound = record {
  positive = omega arith;
  valid = record { ordered = (omega arith, refl, refl, omega arith, tt); counted = refl };
  tracked = λ y h. cc;
}

-- A load or a store, which fetches the page, and a store to it.
abbrev events : List Event
events = signalled 9 ∷ signalled 9 ∷ []

abbrev callback : ℕ → Bool → Backend (ℕ → Bool) → List Call
callback = filler (λ addr. 1 ∷ 2 ∷ 3 ∷ 4 ∷ [])

abbrev after : Backend (ℕ → Bool)
after = run plain (some callback) events start

events_run : page_at 4 2 after.book.regions ≡ some dirty
unfolding run classify serve promote mark_stored perform_all perform resolve_fault fill_pages
    set_states for_each_page visit touch region_for floor_entry state_of counted is_absent
events_run = refl
