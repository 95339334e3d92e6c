-- ===== src/Platform/Windows.antt =====
-- platform/src/windows/page_fault_win.cpp: page faults through a vectored exception handler. The
-- calls of the system are the parameter VirtualMemory. mutex_ is held for each use of the map alone:
-- a call of the system comes before or after it, and another thread may come in between. The steps
-- of clear_dirty and of the handler are definitions of their own, which an operation of one thread
-- runs one after another.
pub mod Tracking
pub mod Race
pub mod Overlap
mod Tests
pub mod Runs
pub mod Handler
use mathlib.Core.Option
use ram_vram_sharing.Prelude.{
  ℕ, zero, suc, ◌+◌, ◌-◌, ◌/◌, Bool, true, false, not, ◌&&◌, ◌||◌, Option, none, some, List, [],
  ◌∷◌, ◌%◌, ◌==◌, if◌then◌else◌, u64_mod, take, lookup, erase,
}
use ram_vram_sharing.Client.Heap.Setup.{round_up}
use ram_vram_sharing.Platform.Pages.{
  Region, Regions, Book, page_base, offset_in_page, rounds_of, up, down, state_of, for_each_page,
  insert_region,
}

pub data PageState : Type 0 where
  absent resident dirty : PageState

-- VirtualAlloc with MEM_RESERVE, VirtualFree with MEM_RELEASE, VirtualAlloc with MEM_COMMIT,
-- VirtualProtect to PAGE_READONLY and PAGE_READWRITE, VirtualFree with MEM_DECOMMIT, memcpy and
-- memset. `writable` says whether a store to an address goes through.
pub record VirtualMemory (K : Type 0) : Type 0 where
  pub reserve : ℕ → K → K × Option ℕ
  pub release : ℕ → K → K
  pub commit : ℕ → ℕ → K → K × Bool
  pub protect_readonly : ℕ → ℕ → K → K × Bool
  pub protect_readwrite : ℕ → ℕ → K → K × Bool
  pub decommit : ℕ → ℕ → K → K × Bool
  pub copy : ℕ → List ℕ → K → K
  pub clear : ℕ → ℕ → K → K
  pub writable : ℕ → K → Bool

-- `in_write_fault` and `resolved` are those of the thread that runs.
pub record Backend (K : Type 0) : Type 0 where
  pub kernel : K
  pub page_size : ℕ
  pub book : Book PageState
  pub in_write_fault : Bool
  pub resolved : Bool

unfoldable pub is_absent : PageState → Bool
is_absent absent = true
is_absent resident = false
is_absent dirty = false

pub is_dirty_state : PageState → Bool
is_dirty_state absent = false
is_dirty_state resident = false
is_dirty_state dirty = true

-- What the callers of for_each_page do to a state and to the counter.
unfoldable pub counted : PageState → PageState → ℕ → ℕ
unfolding is_absent
counted state p n = if is_absent p && not (is_absent state) then up n else n

unfoldable pub uncounted : PageState → ℕ → ℕ
unfolding is_absent
uncounted p n = if is_absent p then n else down n

unfoldable pub cleaned : PageState → PageState
unfolding is_dirty_state
cleaned p = if is_dirty_state p then resident else p

unfoldable pub set_states : ℕ → ℕ → ℕ → PageState → Book PageState → Book PageState
unfolding for_each_page counted
set_states page_size addr len state k =
    for_each_page (λ _. state) (counted state) page_size addr len k

pub count_resident : List PageState → ℕ
unfolding is_absent
count_resident [] = 0
count_resident (p ∷ ps) = (if is_absent p then 0 else 1) + count_resident ps

-- The loop of for_each_page_const.
pub any_dirty : ℕ → ℕ → ℕ → Regions PageState → Bool
unfolding state_of is_dirty_state
any_dirty page_size addr zero m = false
any_dirty page_size addr (suc n) m =
    let here : Bool = elim (state_of page_size addr m) [
      | none ↦ false
      | some p ↦ is_dirty_state p
    ] in
    here || any_dirty page_size (addr + page_size) n m

pub absent_pages : ℕ → List PageState
absent_pages zero = []
absent_pages (suc n) = absent ∷ absent_pages n

-- The calls that a fault handler may make, with their arguments.
pub data Call : Type 0 where
  resolve : ℕ → Option (List ℕ) → ℕ → Call
  clear : ℕ → ℕ → Call
  evict : ℕ → ℕ → Call

-- What the handler of a trap finds under mutex_: no region of its own, a page with its state, or a
-- page to be fetched.
pub data Found : Type 0 where
  foreign present missing : Found

module _ {K : Type 0} where
  unfoldable pub is_dirty : ℕ → ℕ → Backend K → Bool
  unfolding any_dirty
  is_dirty addr len b =
      let total = round_up (offset_in_page b.page_size addr + len) b.page_size in
      any_dirty b.page_size (page_base b.page_size addr) (rounds_of b.page_size total)
        b.book.regions

  -- The first half of VectoredHandler, up to the state of the page.
  unfoldable pub classify : ℕ → Backend K → Found
  unfolding state_of is_absent
  classify addr b = elim (state_of b.page_size addr b.book.regions) [
    | none ↦ foreign
    | some p ↦ if is_absent p then missing else present
  ]

module _ {K : Type 0} (vm : VirtualMemory K) where
  unfoldable pub reserve_region : ℕ → Backend K → Backend K × Option (ℕ × ℕ)
  unfolding insert_region absent_pages
  reserve_region bytes b =
      let rounded = round_up bytes b.page_size in
      let (k, p) = vm.reserve rounded b.kernel in
      let reserved : Backend K × Option (ℕ × ℕ) = elim p [
        | none ↦ (record b { kernel = k }, none)
        | some addr ↦
            let region : Region PageState = record {
              size = rounded;
              pages = absent_pages (rounded / b.page_size);
            } in
            (
              record b {
                kernel = k;
                book = record b.book { regions = insert_region addr region b.book.regions };
              },
              some (addr, rounded),
            )
      ] in
      if bytes == 0 then (b, none) else reserved

  unfoldable pub release_region : ℕ → Backend K → Backend K
  unfolding count_resident
  release_region addr b = elim (lookup addr b.book.regions) [
    | none ↦ b
    | some r ↦ record b {
      kernel = vm.release addr b.kernel;
      book = record {
        regions = erase addr b.book.regions;
        resident_pages = (b.book.resident_pages + u64_mod - count_resident r.pages) % u64_mod;
      };
    }
  ]

  -- memcpy of the data, or memset of the pages without any.
  abbrev pub write_bytes : ℕ → ℕ → ℕ → Option (List ℕ) → ℕ → K → K
  write_bytes page total addr none len k = vm.clear page total k
  write_bytes page total addr (some source) len k = vm.copy addr (take len source) k

  -- The part of resolve_fault behind a successful commit.
  unfoldable pub fill_pages : ℕ → ℕ → ℕ → Option (List ℕ) → ℕ → Backend K → Backend K
  fill_pages page total addr bytes len b =
      let k1 = write_bytes page total addr bytes len b.kernel in
      let (k2, protected) = vm.protect_readonly page total k1 in
      let marked = λ (k : K) (s : PageState). record b {
        kernel = k;
        book = set_states b.page_size page total s b.book;
        resolved = true;
      } in
      if b.in_write_fault
      then marked k1 dirty
      else if protected
      then marked k2 resident
      else marked k2 dirty

  unfoldable pub resolve_fault : ℕ → Option (List ℕ) → ℕ → Backend K → Backend K
  resolve_fault addr bytes len b =
      let page = page_base b.page_size addr in
      let span = offset_in_page b.page_size addr + len in
      let total = round_up (if span == 0 then b.page_size else span) b.page_size in
      let (k, committed) = vm.commit page total b.kernel in
      let b' = record b { kernel = k } in
      if addr == 0 then b else if committed then fill_pages page total addr bytes len b' else b'

  -- The two steps of clear_dirty: the call of VirtualProtect, and the change of the states under
  -- mutex_.
  abbrev pub protect_clean : ℕ → ℕ → Backend K → Backend K × Bool
  protect_clean addr len b =
      let page = page_base b.page_size addr in
      let total = round_up (offset_in_page b.page_size addr + len) b.page_size in
      let (k, protected) = vm.protect_readonly page total b.kernel in
      (record b { kernel = k }, protected)

  unfoldable pub mark_clean : ℕ → ℕ → Backend K → Backend K
  unfolding for_each_page cleaned
  mark_clean addr len b =
      let page = page_base b.page_size addr in
      let total = round_up (offset_in_page b.page_size addr + len) b.page_size in
      record b { book = for_each_page cleaned (λ p n. n) b.page_size page total b.book }

  unfoldable pub clear_dirty : ℕ → ℕ → Backend K → Backend K
  unfolding mark_clean
  clear_dirty addr len b =
      let (b', protected) = protect_clean addr len b in
      if protected then mark_clean addr len b' else b'

  unfoldable pub evict_pages : ℕ → ℕ → Backend K → Backend K × Bool
  unfolding for_each_page uncounted
  evict_pages addr len b =
      let page = page_base b.page_size addr in
      let total = round_up (offset_in_page b.page_size addr + len) b.page_size in
      let (k, released) = vm.decommit page total b.kernel in
      let b' = record b { kernel = k } in
      if total == 0
      then (b, true)
      else if released
      then (
        record b' { book = for_each_page (λ _. absent) uncounted b.page_size page total b.book },
        true,
      )
      else (b', false)

  unfoldable pub perform : Call → Backend K → Backend K
  unfolding resolve_fault clear_dirty evict_pages
  perform (resolve addr bytes len) b = resolve_fault addr bytes len b
  perform (clear addr len) b = clear_dirty addr len b
  perform (evict addr len) b = (evict_pages addr len b).0

  unfoldable pub perform_all : List Call → Backend K → Backend K
  unfolding perform
  perform_all [] b = b
  perform_all (c ∷ cs) b = perform_all cs (perform c b)

  -- The two steps of a store to a page that is there: the protection is lifted, and under mutex_ the
  -- page becomes dirty.
  abbrev pub lift_protection : ℕ → Backend K → Backend K × Bool
  lift_protection addr b =
      let (k, lifted) = vm.protect_readwrite (page_base b.page_size addr) b.page_size b.kernel in
      (record b { kernel = k }, lifted)

  unfoldable pub mark_stored : ℕ → Backend K → Backend K
  unfolding set_states
  mark_stored addr b = record b {
    book = set_states b.page_size (page_base b.page_size addr) b.page_size dirty b.book;
  }

  unfoldable pub promote : ℕ → Bool → Backend K → Backend K × Bool
  unfolding mark_stored
  promote addr is_write b =
      let (b', lifted) = lift_protection addr b in
      if not is_write
      then (b, false)
      else if lifted
      then (mark_stored addr b', true)
      else (b', false)

  -- A page to be fetched: the callback, which is `none` or a function from the fault and the state
  -- to the calls that it makes of the backend.
  unfoldable pub serve :
      Option (ℕ → Bool → Backend K → List Call) → ℕ → Bool → Backend K → Backend K × Bool
  unfolding perform_all
  serve none addr is_write b = (b, false)
  serve (some handler) addr is_write b =
      let b1 = record b { in_write_fault = is_write; resolved = false } in
      let b2 = perform_all (handler addr is_write b1) b1 in
      (record b2 { in_write_fault = b.in_write_fault; resolved = b.resolved }, b2.resolved)

  -- The second half of VectoredHandler; `true` is EXCEPTION_CONTINUE_EXECUTION.
  unfoldable pub answer :
      Option (ℕ → Bool → Backend K → List Call) → Found → ℕ → Bool → Backend K → Backend K × Bool
  answer handler foreign addr is_write b = (b, false)
  answer handler present addr is_write b = promote addr is_write b
  answer handler missing addr is_write b = serve handler addr is_write b

  -- VectoredHandler, as a thread runs it that no other one disturbs between its steps. `violation`
  -- says whether the exception is an access violation.
  unfoldable pub vectored_handler :
      Option (ℕ → Bool → Backend K → List Call) → Bool → ℕ → Bool → Backend K → Backend K × Bool
  vectored_handler handler violation addr is_write b =
      if violation then answer handler (classify addr b) addr is_write b else (b, false)
