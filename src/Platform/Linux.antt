-- ===== src/Platform/Linux.antt =====
-- platform/src/linux/page_fault_linux.cpp: page faults through userfaultfd. The calls of the system
-- are the parameter Userfault. A page is resident or not, and each resident page counts as dirty.
pub mod Refault
mod Tests
use ram_vram_sharing.Prelude.{
  ℕ, zero, suc, ◌+◌, ◌/◌, Bool, true, false, not, ◌||◌, Option, none, some, List, [], ◌∷◌, ◌==◌,
  if◌then◌else◌, lookup, erase,
}
use ram_vram_sharing.Memory.Raw.{Bytes, copy_in, data_of}
use ram_vram_sharing.Client.Heap.Setup.{round_up}
use ram_vram_sharing.Platform.Pages.{
  Region, Regions, Book, page_base, offset_in_page, rounds_of, up, down, state_of, for_each_page,
  insert_region,
}

-- mmap, UFFDIO_REGISTER, UFFDIO_UNREGISTER with munmap, UFFDIO_COPY, UFFDIO_ZEROPAGE and madvise with
-- MADV_DONTNEED. `present` says whether there is a page at an address, and `byte_at` what stands there.
pub record Userfault (K : Type 0) : Type 0 where
  pub map : ℕ → K → K × Option ℕ
  pub register : ℕ → ℕ → K → K × Bool
  pub unmap : ℕ → ℕ → K → K
  pub copy : ℕ → ℕ → Bytes → K → K × Bool
  pub zeropage : ℕ → ℕ → K → K × Bool
  pub dontneed : ℕ → ℕ → K → K × Bool
  pub present : ℕ → K → Bool
  pub byte_at : ℕ → K → ℕ

-- `supported` says that uffd_ is not -1.
pub record Backend (K : Type 0) : Type 0 where
  pub kernel : K
  pub supported : Bool
  pub page_size : ℕ
  pub book : Book Bool
  pub resolved : Bool

-- What mark_resident does to the counter.
unfoldable pub counted : Bool → Bool → ℕ → ℕ
counted true true n = n
counted true false n = up n
counted false true n = down n
counted false false n = n

unfoldable pub mark_resident : ℕ → ℕ → ℕ → Bool → Book Bool → Book Bool
unfolding for_each_page counted
mark_resident page_size addr len state k =
    for_each_page (λ _. state) (counted state) page_size addr len k

pub any_resident : ℕ → ℕ → ℕ → Regions Bool → Bool
unfolding state_of
any_resident page_size addr zero m = false
any_resident page_size addr (suc n) m =
    let here : Bool = elim (state_of page_size addr m) [ none ↦ false | some p ↦ p ] in
    here || any_resident page_size (addr + page_size) n m

-- The loop of release_region over the pages of a region, on the counter.
pub uncount_all : List Bool → ℕ → ℕ
uncount_all [] n = n
uncount_all (p ∷ ps) n = uncount_all ps (if p then down n else n)

pub fresh_pages : ℕ → List Bool
fresh_pages zero = []
fresh_pages (suc n) = false ∷ fresh_pages n

-- The calls that a fault handler may make; clear_dirty does nothing.
pub data Call : Type 0 where
  resolve : ℕ → Option (List ℕ) → ℕ → Call
  clear : ℕ → ℕ → Call
  evict : ℕ → ℕ → Call

-- The bounce buffer of resolve_fault.
abbrev pub staged : ℕ → Option (List ℕ) → ℕ → Bytes
staged offset none len x = 0
staged offset (some source) len x = copy_in (λ _. 0) offset (data_of source) len x

module _ {K : Type 0} where
  unfoldable pub is_dirty : ℕ → ℕ → Backend K → Bool
  unfolding any_resident
  is_dirty addr len b =
      let total = round_up (offset_in_page b.page_size addr + len) b.page_size in
      any_resident b.page_size (page_base b.page_size addr) (rounds_of b.page_size total)
        b.book.regions

module _ {K : Type 0} (os : Userfault K) where
  unfoldable pub reserve_region : ℕ → Backend K → Backend K × Option (ℕ × ℕ)
  unfolding insert_region fresh_pages
  reserve_region bytes b =
      let rounded = round_up bytes b.page_size in
      let (k, p) = os.map rounded b.kernel in
      let mapped : Backend K × Option (ℕ × ℕ) = elim p [
        | none ↦ (record b { kernel = k }, none)
        | some addr ↦
            let (k', registered) = os.register addr rounded k in
            let region : Region Bool = record {
              size = rounded;
              pages = fresh_pages (rounded / b.page_size);
            } in
            if registered
            then (
              record b {
                kernel = k';
                book = record b.book { regions = insert_region addr region b.book.regions };
              },
              some (addr, rounded),
            )
            else (record b { kernel = os.unmap addr rounded k' }, none)
      ] in
      if not b.supported || bytes == 0 then (b, none) else mapped

  unfoldable pub release_region : ℕ → Backend K → Backend K
  unfolding uncount_all
  release_region addr b = elim (lookup addr b.book.regions) [
    | none ↦ b
    | some r ↦ record b {
      kernel = os.unmap addr r.size b.kernel;
      book = record {
        regions = erase addr b.book.regions;
        resident_pages = uncount_all r.pages b.book.resident_pages;
      };
    }
  ]

  -- The pages are marked before the call of the system, which lets the faulting thread run, and
  -- unmarked when it fails.
  abbrev pub fill_marked : ℕ → ℕ → (K → K × Bool) → Backend K → Backend K × Bool
  fill_marked page total call b =
      let marked = mark_resident b.page_size page total true b.book in
      let (k, filled) = call b.kernel in
      if filled then (record b { kernel = k; book = marked }, true) else (
        record b { kernel = k; book = mark_resident b.page_size page total false marked },
        false,
      )

  unfoldable pub resolve_fault : ℕ → Option (List ℕ) → ℕ → Backend K → Backend K
  unfolding mark_resident
  resolve_fault addr bytes len b =
      let page = page_base b.page_size addr in
      let offset = offset_in_page b.page_size addr in
      let span = offset + len in
      let total = round_up (if span == 0 then b.page_size else span) b.page_size in
      let (b', filled) = fill_marked page total (os.copy page total (staged offset bytes len)) b in
      if not b.supported || addr == 0
      then b
      else if filled
      then record b' { resolved = true }
      else b'

  unfoldable pub evict_pages : ℕ → ℕ → Backend K → Backend K × Bool
  unfolding mark_resident
  evict_pages addr len b =
      let page = page_base b.page_size addr in
      let total = round_up (offset_in_page b.page_size addr + len) b.page_size in
      let (k, released) = os.dontneed page total b.kernel in
      let b' = record b { kernel = k } in
      if total == 0
      then (b, true)
      else if released
      then (record b' { book = mark_resident b.page_size page total false b.book }, true)
      else (b', false)

  unfoldable pub zero_page : ℕ → Backend K → Backend K
  unfolding mark_resident
  zero_page addr b =
      let page = page_base b.page_size addr in
      (fill_marked page b.page_size (os.zeropage page b.page_size) b).0

  pub perform : Call → Backend K → Backend K
  unfolding resolve_fault evict_pages
  perform (resolve addr bytes len) b = resolve_fault addr bytes len b
  perform (clear addr len) b = b
  perform (evict addr len) b = (evict_pages addr len b).0

  pub perform_all : List Call → Backend K → Backend K
  unfolding perform
  perform_all [] b = b
  perform_all (c ∷ cs) b = perform_all cs (perform c b)

  -- One message of fault_handler_thread. The callback is `none` or a function from the fault and the
  -- state to the calls that it makes of the backend.
  unfoldable pub on_page_fault :
      Option (ℕ → Bool → Backend K → List Call) → ℕ → Bool → Backend K → Backend K
  unfolding perform_all zero_page
  on_page_fault callback addr is_write b =
      let b1 = record b { resolved = false } in
      let b2 : Backend K = elim callback [
        | none ↦ b1
        | some f ↦ perform_all (f addr is_write b1) b1
      ] in
      if b2.resolved then b2 else zero_page addr b2
