-- ===== src/Platform/Windows/Tests.antt =====
-- A backend with pages of four bytes and one region, of two pages, at 8. The kernel is the map of the
-- addresses that can be written.
use ram_vram_sharing.Prelude.{
  ℕ, ◌*◌, ◌≡◌, refl, ◌≢◌, Bool, true, false, not, ◌&&◌, ◌||◌, none, some, List, [], ◌∷◌, arith,
}
use ram_vram_sharing.Platform.Pages.{floor_entry, region_for, state_of, touch, visit, for_each_page}
use ram_vram_sharing.Platform.Pages.Layout.{page_at}
use ram_vram_sharing.Platform.Pages.Visit.{total, IsValid}
use ram_vram_sharing.Platform.Pages.Range.{within}
use ram_vram_sharing.Platform.Windows.{
  absent, dirty, VirtualMemory, Backend, is_absent, counted, set_states, is_dirty, classify,
  fill_pages, resolve_fault, protect_clean, mark_clean, perform, perform_all, mark_stored, promote,
  serve, answer, vectored_handler,
}
use ram_vram_sharing.Platform.Windows.Tracking.{weight, Lawful, IsSound}
use ram_vram_sharing.Platform.Windows.Runs.{Event, trapped, run, run_tracks}
use ram_vram_sharing.Platform.Windows.Race.{filler, stores_lost}
use ram_vram_sharing.Platform.Windows.Overlap.{clear_dirty_forgets}

abbrev Protection : Type 0
Protection = ℕ → Bool

abbrev plain : VirtualMemory Protection
plain = record {
  reserve = λ n k. (k, none);
  release = λ a k. k;
  commit = λ a n k. ((λ x. within a n x || k x), true);
  protect_readonly = λ a n k. ((λ x. not (within a n x) && k x), true);
  protect_readwrite = λ a n k. ((λ x. within a n x || k x), true);
  decommit = λ a n k. ((λ x. not (within a n x) && k x), true);
  copy = λ a bytes k. k;
  clear = λ a n k. k;
  writable = λ x k. k x;
}

plain-Lawful : Lawful plain
plain-Lawful = record {
  committed = λ a n x k h. rw h;
  not_committed = λ a n x k h. cc;
  readonly = λ a n x k. ground arith;
  readwrite = λ a n x k h. ground arith;
  decommitted = λ a n x k. ground arith;
  copied = λ a x bytes k. refl;
  cleared = λ a n x k. refl;
}

abbrev start : Backend Protection
start = record {
  kernel = λ x. false;
  page_size = 4;
  book = record {
    regions = (8, record { size = 8; pages = absent ∷ absent ∷ [] }) ∷ [];
    resident_pages = 0;
  };
  in_write_fault = false;
  resolved = false;
}

start-IsSound : IsSound plain start
start-IsSound = record {
  positive = omega arith;
  valid = record { ordered = (omega arith, refl, refl, omega arith, tt); counted = refl };
  tracked = λ y h. cc;
}

abbrev fetched : ℕ → List ℕ
fetched addr = 1 ∷ 2 ∷ 3 ∷ 4 ∷ []

-- A store to the first page, and then a load of the second one.
abbrev events : List Event
events = trapped 9 true true ∷ trapped 12 true false ∷ []

abbrev after : Backend Protection
after = run plain (some (filler fetched)) events start

events_run : page_at 4 2 after.book.regions ≡ some dirty
unfolding run vectored_handler answer classify serve perform_all perform resolve_fault fill_pages
    set_states for_each_page visit touch region_for floor_entry state_of counted is_absent promote
    mark_stored
events_run = refl

page_size_run : after.page_size ≡ 4
unfolding run vectored_handler answer classify serve perform_all perform resolve_fault fill_pages
    set_states for_each_page visit touch region_for floor_entry state_of counted is_absent promote
    mark_stored
page_size_run = refl

known : page_at after.page_size 2 after.book.regions ≢ none
known h = cc (events_run, page_size_run)

run_tracks_example :
    (after.book.resident_pages ≡ total weight after.book.regions)
    × (plain.writable (2 * after.page_size) after.kernel ≡ true
        → is_dirty (2 * after.page_size) 4 after ≡ true)
run_tracks_example =
    run_tracks plain (some (filler fetched)) events start 2 4 plain-Lawful start-IsSound
      (omega arith) (omega (arith, page_size_run)) known

stores_lost_example :
    let found = classify 8 start in
    let b1 = (answer plain (some (filler fetched)) found 8 true start).0 in
    let written : Backend Protection = record b1 { kernel = λ x. true } in
    let b2 = (answer plain (some (filler fetched)) found 8 false written).0 in
    (is_dirty 8 4 written ≡ true) × (is_dirty 8 4 b2 ≡ false)
stores_lost_example =
    stores_lost plain fetched 2 start (λ x. true) (omega arith) (omega arith) (omega arith)
      start-IsSound.valid refl (λ a n k. refl) (λ a n k. refl)

-- A backend whose first page was written.
abbrev written : Backend Protection
written = record start {
  kernel = λ x. within 8 4 x;
  book = record {
    regions = (8, record { size = 8; pages = dirty ∷ absent ∷ [] }) ∷ [];
    resident_pages = 1;
  };
}

written-IsValid : IsValid weight 4 written.book
written-IsValid = record { ordered = (omega arith, refl, refl, omega arith, tt); counted = refl }

clear_dirty_forgets_example :
    let (b1, protected) = protect_clean plain 8 4 written in
    let (b2, resumed) = answer plain (some (filler fetched)) (classify 8 b1) 8 true b1 in
    let b3 = mark_clean plain 8 4 b2 in
    (protected ≡ true)
    × (resumed ≡ true)
    × (is_dirty 8 4 b2 ≡ true)
    × (plain.writable 8 b3.kernel ≡ true)
    × (is_dirty 8 4 b3 ≡ false)
clear_dirty_forgets_example =
    clear_dirty_forgets plain (some (filler fetched)) 2 written (omega arith) (omega arith)
      written-IsValid refl (λ a n k. refl) (λ a n k. refl) (λ a n k h. ground arith)
