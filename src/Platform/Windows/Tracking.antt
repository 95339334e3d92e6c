-- ===== src/Platform/Windows/Tracking.antt =====
-- Windows: which pages can be written without a trap, and which are recorded as dirty.
use ram_vram_sharing.Prelude.{
  ℕ, ◌*◌, ◌/◌, ◌<◌, ◌≡◌, ◌⊎◌, inl, inr, true, false, ◌&&◌, none, some, List, arith, ◌==◌,
  if◌then◌else◌, Bool-cases, Option-cases,
}
use ram_vram_sharing.Platform.Pages.{Book, for_each_page}
use ram_vram_sharing.Platform.Pages.Layout.{page_at}
use ram_vram_sharing.Platform.Pages.Visit.{IsValid, Follows}
use ram_vram_sharing.Platform.Pages.Range.{pages_of, span_lem, within, for_each_page_lem}
use ram_vram_sharing.Platform.Windows.{
  PageState, absent, resident, dirty, VirtualMemory, Backend, is_absent, is_dirty_state, counted,
  uncounted, cleaned, mark_clean, clear_dirty, evict_pages,
}

-- What a page counts.
abbrev pub weight : PageState → ℕ
weight absent = 0
weight resident = 1
weight dirty = 1

-- The documented behaviour of the calls: they change the protection of the bytes of their range
-- alone, when they succeed, and copying changes none.
pub record Lawful {K : Type 0} (vm : VirtualMemory K) : Type 0 where
  pub committed :
      (a n x : ℕ) (k : K)
      → within a n x ≡ false
      → vm.writable x (vm.commit a n k).0 ≡ vm.writable x k
  pub not_committed :
      (a n x : ℕ) (k : K)
      → (vm.commit a n k).1 ≡ false
      → vm.writable x (vm.commit a n k).0 ≡ vm.writable x k
  pub readonly :
      (a n x : ℕ) (k : K)
      → vm.writable x (vm.protect_readonly a n k).0
        ≡ (if (vm.protect_readonly a n k).1 && within a n x then false else vm.writable x k)
  pub readwrite :
      (a n x : ℕ) (k : K)
      → (within a n x ≡ false) ⊎ ((vm.protect_readwrite a n k).1 ≡ false)
      → vm.writable x (vm.protect_readwrite a n k).0 ≡ vm.writable x k
  pub decommitted :
      (a n x : ℕ) (k : K)
      → vm.writable x (vm.decommit a n k).0
        ≡ (if (vm.decommit a n k).1 && within a n x then false else vm.writable x k)
  pub copied :
      (a x : ℕ) (bytes : List ℕ) (k : K) → vm.writable x (vm.copy a bytes k) ≡ vm.writable x k
  pub cleared : (a n x : ℕ) (k : K) → vm.writable x (vm.clear a n k) ≡ vm.writable x k

-- The books are right, and a page of a region that can be written is dirty.
pub record Sound {K : Type 0} (vm : VirtualMemory K) (ps : ℕ) (k : K) (book : Book PageState)
    : Type 0 where
  pub positive : 0 < ps
  pub valid : IsValid weight ps book
  pub tracked :
      (y : ℕ)
      → vm.writable (y * ps) k ≡ true
      → (page_at ps y book.regions ≡ none) ⊎ (page_at ps y book.regions ≡ some dirty)

abbrev pub IsSound : {K : Type 0} → VirtualMemory K → Backend K → Type 0
IsSound vm b = Sound vm b.page_size b.kernel b.book

pub counted-Follows : (s : PageState) → weight s ≡ 1 → Follows weight (λ _. s) (counted s)
unfolding counted is_absent
counted-Follows absent e p n h = ground arith
counted-Follows resident e absent n h = ground arith
counted-Follows resident e resident n h = ground arith
counted-Follows resident e dirty n h = ground arith
counted-Follows dirty e absent n h = ground arith
counted-Follows dirty e resident n h = ground arith
counted-Follows dirty e dirty n h = ground arith

uncounted-Follows : Follows weight (λ _. absent) uncounted
unfolding uncounted is_absent
uncounted-Follows absent n h = ground arith
uncounted-Follows resident n h = ground arith
uncounted-Follows dirty n h = ground arith

pub cleaned-Follows : Follows weight cleaned (λ p n. n)
unfolding cleaned is_dirty_state
cleaned-Follows absent n h = ground arith
cleaned-Follows resident n h = ground arith
cleaned-Follows dirty n h = ground arith

module _ {K : Type 0} (vm : VirtualMemory K) (f : PageState → PageState) (g : PageState → ℕ → ℕ)
    (follows : Follows weight f g) (ps x n : ℕ) (k k' : K) (book : Book PageState) where
  -- The states of a range change with the protection.
  pub marked-Sound :
      Sound vm ps k book
      → ((z : ℕ)
          → within (x * ps) (n * ps) z ≡ false
          → vm.writable z k' ≡ true
          → vm.writable z k ≡ true)
      → ((z : ℕ) (s : PageState)
          → within (x * ps) (n * ps) z ≡ true
          → vm.writable z k' ≡ true
          → f s ≡ dirty)
      → Sound vm ps k' (for_each_page f g ps (x * ps) (n * ps) book)
  marked-Sound v outside inside =
      let r = for_each_page_lem weight f g follows ps v.positive x n book v.valid in
      record {
        positive = v.positive;
        valid = r.0;
        tracked = λ y h. elim (Bool-cases (within (x * ps) (n * ps) (y * ps))) [
          | inl in_ ↦ elim (Option-cases (page_at ps y book.regions)) [
            | inl z ↦ inl (ground (arith, r.1 y))
            | inr (s, z) ↦ inr (ground (arith, r.1 y, inside (y * ps) s in_ h))
          ]
          | inr out ↦ elim (v.tracked y (outside (y * ps) out h)) [
            | inl z ↦ inl (ground (arith, r.1 y))
            | inr z ↦ inr (ground (arith, r.1 y))
          ]
        ];
      }

-- A page that was filled, and whose protection could not be changed.
module _ {K : Type 0} (vm : VirtualMemory K) (ps : ℕ) (book : Book PageState) where
  pub same-Sound :
      (k k' : K)
      → Sound vm ps k book
      → ((z : ℕ) → vm.writable z k' ≡ true → vm.writable z k ≡ true)
      → Sound vm ps k' book
  same-Sound k k' v same = record {
    positive = v.positive;
    valid = v.valid;
    tracked = λ y h. v.tracked y (same (y * ps) h);
  }

module _ {K : Type 0} (vm : VirtualMemory K) (law : Lawful vm) where
  pub clear_dirty-IsSound :
      (addr len : ℕ) (b : Backend K) → IsSound vm b → IsSound vm (clear_dirty vm addr len b)
  unfolding clear_dirty mark_clean
  clear_dirty-IsSound addr len b v =
      let ps = b.page_size in
      let x = addr / ps in
      let n = pages_of ps addr len in
      let k' = (vm.protect_readonly (x * ps) (n * ps) b.kernel).0 in
      rw (span_lem ps addr len)
        (elim (Bool-cases (vm.protect_readonly (x * ps) (n * ps) b.kernel).1) [
          | inl ok_ ↦ rw ok_ (
              marked-Sound vm cleaned (λ p n. n) cleaned-Follows ps x n b.kernel k' b.book v
                (λ z o h. ground (arith, law.readonly (x * ps) (n * ps) z b.kernel))
                (λ z s i h. ground (arith, law.readonly (x * ps) (n * ps) z b.kernel)))
          | inr bad ↦ rw bad (
              same-Sound vm ps b.book b.kernel k' v
                (λ z h. ground (arith, law.readonly (x * ps) (n * ps) z b.kernel)))
        ])

  pub evict_pages-IsSound :
      (addr len : ℕ) (b : Backend K) → IsSound vm b → IsSound vm (evict_pages vm addr len b).0
  unfolding evict_pages
  evict_pages-IsSound addr len b v =
      let ps = b.page_size in
      let x = addr / ps in
      let n = pages_of ps addr len in
      let k' = (vm.decommit (x * ps) (n * ps) b.kernel).0 in
      rw (span_lem ps addr len) (elim (Bool-cases (n * ps == 0)) [
        | inl empty ↦ rw empty v
        | inr some_ ↦ rw some_ (elim (Bool-cases (vm.decommit (x * ps) (n * ps) b.kernel).1) [
          | inl ok_ ↦ rw ok_ (
              marked-Sound vm (λ _. absent) uncounted uncounted-Follows ps x n b.kernel k' b.book v
                (λ z o h. ground (arith, law.decommitted (x * ps) (n * ps) z b.kernel))
                (λ z s i h. ground (arith, law.decommitted (x * ps) (n * ps) z b.kernel)))
          | inr bad ↦ rw bad (
              same-Sound vm ps b.book b.kernel k' v
                (λ z h. ground (arith, law.decommitted (x * ps) (n * ps) z b.kernel)))
        ])
      ])
