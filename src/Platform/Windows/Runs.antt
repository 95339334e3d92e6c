-- ===== src/Platform/Windows/Runs.antt =====
-- Windows: any calls and traps of one thread.
use ram_vram_sharing.Prelude.{
  ℕ, zero, suc, ◌+◌, ◌*◌, ◌≤◌, ◌<◌, ◌≡◌, ◌∙◌, ◌≢◌, inl, inr, Bool, true, Option, none, some, List,
  [], ◌∷◌, arith, u64_mod,
}
use ram_vram_sharing.Platform.Pages.{Regions, state_of}
use ram_vram_sharing.Platform.Pages.Layout.{Ordered, page_at}
use ram_vram_sharing.Platform.Pages.Visit.{total}
use ram_vram_sharing.Platform.Pages.Range.{
  pages_of, span_lem, rounds_lem, state_of-page_at, boundary_lem, pages_of-pos,
}
use ram_vram_sharing.Platform.Windows.{
  PageState, dirty, VirtualMemory, Backend, is_dirty_state, any_dirty, Call, is_dirty, perform,
  vectored_handler,
}
use ram_vram_sharing.Platform.Windows.Tracking.{weight, Lawful, IsSound}
use ram_vram_sharing.Platform.Windows.Handler.{perform-IsSound, vectored_handler-IsSound}

-- A call of the heap, or an exception: its address, whether it is an access violation, and of a
-- store.
pub data Event : Type 0 where
  called : Call → Event
  trapped : ℕ → Bool → Bool → Event

module _ {K : Type 0} (vm : VirtualMemory K)
    (handler : Option (ℕ → Bool → Backend K → List Call)) where
  -- The calls and traps of one thread: each runs to its end before the next one starts.
  unfoldable pub run : List Event → Backend K → Backend K
  run [] b = b
  run (called c ∷ es) b = run es (perform vm c b)
  run (trapped addr violation is_write ∷ es) b =
      run es (vectored_handler vm handler violation addr is_write b).0

  run-IsSound : (es : List Event) (b : Backend K) → Lawful vm → IsSound vm b → IsSound vm (run es b)
  unfolding run
  run-IsSound [] b law v = v
  run-IsSound (called c ∷ es) b law v =
      run-IsSound es (perform vm c b) law (perform-IsSound vm law c b v)
  run-IsSound (trapped addr violation is_write ∷ es) b law v =
      run-IsSound es (vectored_handler vm handler violation addr is_write b).0 law
        (vectored_handler-IsSound vm law handler violation addr is_write b v)

first_dirty :
    (ps addr n : ℕ) (m : Regions PageState)
    → 0 < n
    → state_of ps addr m ≡ some dirty
    → any_dirty ps addr n m ≡ true
unfolding any_dirty is_dirty_state
first_dirty ps addr zero m h e = absurd (omega arith)
first_dirty ps addr (suc n) m h e = ground (arith, e)

-- A page that is dirty makes a range that starts with it dirty.
pub is_dirty-page_at :
    {K : Type 0} (x len : ℕ) (b : Backend K)
    → 0 < b.page_size
    → Ordered b.page_size 0 b.book.regions
    → 0 < len
    → len + b.page_size ≤ u64_mod
    → page_at b.page_size x b.book.regions ≡ some dirty
    → is_dirty (x * b.page_size) len b ≡ true
unfolding is_dirty
is_dirty-page_at x len b p o q h e =
    let ps = b.page_size in
    let pos = pages_of-pos ps x len p q h in
    let at_ = (boundary_lem ps x p).0 in
    let n = pages_of ps (x * ps) len in
    let here : state_of ps (x * ps) b.book.regions ≡ some dirty =
      state_of-page_at ps x b.book.regions p o ∙ e in
    rw (at_, span_lem ps (x * ps) len, rounds_lem ps n p)
      (first_dirty ps (x * ps) n b.book.regions pos here)

module _ {K : Type 0} (vm : VirtualMemory K)
    (handler : Option (ℕ → Bool → Backend K → List Call)) where
  -- On Windows no store of one thread escapes the tracking. In a process with one thread, where calls
  -- of the backend and traps run to their ends one after another, whatever calls the heap makes and
  -- whatever traps come, with any callback, from a backend whose books are right: a page of a region
  -- to which a store goes through without a trap is one that `is_dirty` reports, in any range that
  -- starts with it, and the counter of resident pages is right. Traps of other threads between the
  -- steps of a call are not covered. The calls of the system are assumed
  -- to change no protection when they fail, and none outside their range, and lengths to be below
  -- the limit of size_t by a page.
  pub run_tracks :
      (es : List Event) (b : Backend K) (y len : ℕ)
      → Lawful vm
      → IsSound vm b
      → 0 < len
      → len + (run vm handler es b).page_size ≤ u64_mod
      → page_at (run vm handler es b).page_size y (run vm handler es b).book.regions ≢ none
      → ((run vm handler es b).book.resident_pages
          ≡ total weight (run vm handler es b).book.regions)
        × (vm.writable (y * (run vm handler es b).page_size) (run vm handler es b).kernel ≡ true
            → is_dirty (y * (run vm handler es b).page_size) len (run vm handler es b) ≡ true)
  run_tracks es b y len law v q h known =
      let s = run-IsSound vm handler es b law v in
      (
        s.valid.counted,
        λ w. elim (s.tracked y w) [
          | inl none_ ↦ absurd (known none_)
          | inr e ↦ is_dirty-page_at y len (run vm handler es b) s.positive s.valid.ordered q h e
        ],
      )
