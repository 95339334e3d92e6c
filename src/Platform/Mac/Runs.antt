-- ===== src/Platform/Mac/Runs.antt =====
-- macOS: any calls and traps of one thread.
use ram_vram_sharing.Prelude.{
  ℕ, ◌+◌, ◌*◌, ◌≤◌, ◌<◌, ◌≡◌, ◌≢◌, inl, inr, Bool, true, false, Option, none, List, [], ◌∷◌,
  u64_mod,
}
use ram_vram_sharing.Platform.Pages.Layout.{page_at}
use ram_vram_sharing.Platform.Pages.Visit.{total}
use ram_vram_sharing.Platform.Windows.{
  Backend, Call, foreign, present, missing, is_dirty, classify, perform, promote, serve,
}
use ram_vram_sharing.Platform.Windows.Tracking.{weight, Lawful, IsSound}
use ram_vram_sharing.Platform.Windows.Handler.{promote-IsSound, perform-IsSound, serve-IsSound}
use ram_vram_sharing.Platform.Windows.Runs.{is_dirty-page_at}
use ram_vram_sharing.Platform.Mac.{Mprotect, system, segv_handler}

-- A call of the heap, or a signal at an address.
pub data Event : Type 0 where
  called : Call → Event
  signalled : ℕ → Event

module _ {K : Type 0} (m : Mprotect K) (handler : Option (ℕ → Bool → Backend K → List Call)) where
  unfoldable pub run : List Event → Backend K → Backend K
  unfolding segv_handler
  run [] b = b
  run (called c ∷ es) b = run es (perform (system m) c b)
  run (signalled addr ∷ es) b = run es (segv_handler m handler addr b).0

  segv_handler-IsSound :
      (addr : ℕ) (b : Backend K)
      → Lawful (system m)
      → IsSound (system m) b
      → IsSound (system m) (segv_handler m handler addr b).0
  unfolding segv_handler
  segv_handler-IsSound addr b law v =
      elim (classify addr b)
        as (λ c. IsSound (system m) (
          let r : Backend K × Bool = elim c [
            | foreign ↦ (b, false)
            | present ↦ promote (system m) addr true b
            | missing ↦ serve (system m) handler addr false b
          ] in
          r.0)) [
            | foreign ↦ v
            | present ↦ promote-IsSound (system m) law addr true b v
            | missing ↦ serve-IsSound (system m) law handler addr false b v
          ]

  run-IsSound :
      (es : List Event) (b : Backend K)
      → Lawful (system m)
      → IsSound (system m) b
      → IsSound (system m) (run es b)
  unfolding run
  run-IsSound [] b law v = v
  run-IsSound (called c ∷ es) b law v =
      run-IsSound es (perform (system m) c b) law (perform-IsSound (system m) law c b v)
  run-IsSound (signalled addr ∷ es) b law v =
      run-IsSound es (segv_handler m handler addr b).0 law (segv_handler-IsSound addr b law v)

  -- The same on macOS, again in a process with one thread, where calls of the backend and signals run
  -- to their ends one after another: whatever calls the heap makes and whatever signals come, with any callback, from a backend whose books are right, a page of a region to which a
  -- store goes through without a signal is one that `is_dirty` reports, in any range that starts
  -- with it, and the counter of resident pages is right. mprotect is assumed to change nothing when
  -- it fails, and no protection outside its range, and lengths to be below the limit of size_t by a
  -- page.
  mac_run_tracks :
      (es : List Event) (b : Backend K) (y len : ℕ)
      → Lawful (system m)
      → IsSound (system m) b
      → 0 < len
      → len + (run es b).page_size ≤ u64_mod
      → page_at (run es b).page_size y (run es b).book.regions ≢ none
      → ((run es b).book.resident_pages ≡ total weight (run es b).book.regions)
        × (m.writable (y * (run es b).page_size) (run es b).kernel ≡ true
            → is_dirty (y * (run es b).page_size) len (run es b) ≡ true)
  mac_run_tracks es b y len law v q h known =
      let s = run-IsSound es b law v in
      (
        s.valid.counted,
        λ w. elim (s.tracked y w) [
          | inl none_ ↦ absurd (known none_)
          | inr e ↦ is_dirty-page_at y len (run es b) s.positive s.valid.ordered q h e
        ],
      )
