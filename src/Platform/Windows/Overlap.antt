-- ===== src/Platform/Windows/Overlap.antt =====
-- Windows: a store by one thread between the two steps of clear_dirty in another. The clear_dirty of
-- platform/src/macos/page_fault_mac.cpp has the same two steps.
use ram_vram_sharing.Prelude.{
  ℕ, ◌+◌, ◌*◌, ◌≤◌, ◌<◌, ◌≡◌, refl, Bool, true, false, Option, some, List, arith, u64_mod,
}
use ram_vram_sharing.Platform.Pages.{Book}
use ram_vram_sharing.Platform.Pages.Layout.{page_at, scale_le}
use ram_vram_sharing.Platform.Pages.Visit.{IsValid}
use ram_vram_sharing.Platform.Pages.Range.{
  pages_of, span_lem, within, for_each_page_lem, state_of-page_at, boundary_lem, pages_of-pos,
}
use ram_vram_sharing.Platform.Windows.{
  PageState, resident, dirty, VirtualMemory, Backend, is_absent, is_dirty_state, counted, cleaned,
  set_states, Call, present, is_dirty, classify, protect_clean, mark_clean, mark_stored, promote,
  answer,
}
use ram_vram_sharing.Platform.Windows.Tracking.{weight, counted-Follows, cleaned-Follows}
use ram_vram_sharing.Platform.Windows.Race.{one_page}

classify_dirty :
    {K : Type 0} (x : ℕ) (b : Backend K)
    → 0 < b.page_size
    → IsValid weight b.page_size b.book
    → page_at b.page_size x b.book.regions ≡ some dirty
    → classify (x * b.page_size) b ≡ present
unfolding classify is_absent
classify_dirty x b p v e = ground (arith, state_of-page_at b.page_size x b.book.regions p v.ordered)

module _ {K : Type 0} (vm : VirtualMemory K) where
  -- A store to a dirty page whose protection was lowered in the meantime.
  store_lem :
      (handler : Option (ℕ → Bool → Backend K → List Call)) (x : ℕ) (b : Backend K)
      → 0 < b.page_size
      → IsValid weight b.page_size b.book
      → page_at b.page_size x b.book.regions ≡ some dirty
      → ((a n : ℕ) (k : K) → (vm.protect_readwrite a n k).1 ≡ true)
      → let ps = b.page_size in
        answer vm handler (classify (x * ps) b) (x * ps) true b ≡ (
          record b {
            kernel = (vm.protect_readwrite (x * ps) ps b.kernel).0;
            book = set_states ps (x * ps) ps dirty b.book;
          },
          true,
        )
  unfolding answer promote mark_stored
  store_lem handler x b p v e lifts =
      let ps = b.page_size in
      rw
        (
          classify_dirty x b p v e,
          answer,
          promote,
          mark_stored,
          (boundary_lem ps x p).0,
          lifts (x * ps) ps b.kernel,
        )
        refl

  stored_dirty :
      (ps x : ℕ) (book : Book PageState) {s : PageState}
      → 0 < ps
      → IsValid weight ps book
      → page_at ps x book.regions ≡ some s
      → IsValid weight ps (set_states ps (x * ps) ps dirty book)
        × (page_at ps x (set_states ps (x * ps) ps dirty book).regions ≡ some dirty)
  unfolding set_states
  stored_dirty ps x book p v e =
      let one : 1 * ps ≡ ps = omega arith in
      let r =
        for_each_page_lem weight (λ _. dirty) (counted dirty) (counted-Follows dirty refl) ps p x 1
          book v in
      let hit : within (x * ps) (1 * ps) (x * ps) ≡ true = ground arith in
      let both : IsValid weight ps (set_states ps (x * ps) (1 * ps) dirty book)
          × (page_at ps x (set_states ps (x * ps) (1 * ps) dirty book).regions ≡ some dirty) =
        (r.0, ground (arith, r.1 x, hit)) in
      rw one at both

  cleaned_resident :
      (x : ℕ) (b : Backend K)
      → 0 < b.page_size
      → b.page_size + b.page_size ≤ u64_mod
      → IsValid weight b.page_size b.book
      → page_at b.page_size x b.book.regions ≡ some dirty
      → IsValid weight b.page_size (mark_clean vm (x * b.page_size) b.page_size b).book
        × (page_at b.page_size x (mark_clean vm (x * b.page_size) b.page_size b).book.regions
            ≡ some resident)
  unfolding mark_clean cleaned is_dirty_state
  cleaned_resident x b p h v e =
      let ps = b.page_size in
      let n = pages_of ps (x * ps) ps in
      let pos = pages_of-pos ps x ps p p h in
      let size = scale_le 1 n ps pos in
      let hit : within (x * ps) (n * ps) (x * ps) ≡ true = ground arith in
      let r = for_each_page_lem weight cleaned (λ p n. n) cleaned-Follows ps p x n b.book v in
      rw ((boundary_lem ps x p).0, span_lem ps (x * ps) ps) (r.0, ground (arith, r.1 x, hit))

  -- On Windows the tracking forgets a store of another thread that traps between the two steps of
  -- `clear_dirty` on a dirty page: the handler of the trap lets the store go on, and then the second
  -- step marks the page as clean. The page can now be written without a trap, and `is_dirty`, which
  -- reported it before the second step, reports it no longer. The system is assumed to grant each
  -- change of a protection, and PAGE_READWRITE to let stores through.
  pub clear_dirty_forgets :
      (handler : Option (ℕ → Bool → Backend K → List Call)) (x : ℕ) (b : Backend K)
      → 0 < b.page_size
      → b.page_size + b.page_size ≤ u64_mod
      → IsValid weight b.page_size b.book
      → page_at b.page_size x b.book.regions ≡ some dirty
      → ((a n : ℕ) (k : K) → (vm.protect_readonly a n k).1 ≡ true)
      → ((a n : ℕ) (k : K) → (vm.protect_readwrite a n k).1 ≡ true)
      → ((a n : ℕ) (k : K) → 0 < n → vm.writable a (vm.protect_readwrite a n k).0 ≡ true)
      → let ps = b.page_size in
        let (b1, protected) = protect_clean vm (x * ps) ps b in
        let (b2, resumed) = answer vm handler (classify (x * ps) b1) (x * ps) true b1 in
        let b3 = mark_clean vm (x * ps) ps b2 in
        (protected ≡ true)
        × (resumed ≡ true)
        × (is_dirty (x * ps) ps b2 ≡ true)
        × (vm.writable (x * ps) b3.kernel ≡ true)
        × (is_dirty (x * ps) ps b3 ≡ false)
  unfolding mark_clean is_dirty_state
  clear_dirty_forgets handler x b p h v e protects lifts writes =
      let ps = b.page_size in
      let b1 = (protect_clean vm (x * ps) ps b).0 in
      let stored = store_lem handler x b1 p v e lifts in
      let d = stored_dirty ps x b.book {s = dirty} p v e in
      let b2 : Backend K = record b1 {
        kernel = (vm.protect_readwrite (x * ps) ps b1.kernel).0;
        book = set_states ps (x * ps) ps dirty b.book;
      } in
      let r = cleaned_resident x b2 p h d.0 d.1 in
      let b3 = mark_clean vm (x * ps) ps b2 in
      rw stored (
        protects _ _ b.kernel,
        refl,
        one_page ps x b2 refl p h d.0 d.1,
        writes (x * ps) ps b1.kernel p,
        one_page ps x b3 refl p h r.0 r.1,
      )
