-- ===== src/Client/Heap.antt =====
-- memclient/src/remote_heap.cpp and its header: a region whose pages stand on peers and are fetched
-- when they are touched. The client, the page-fault backend and the bytes of the region are the
-- state `S`, behind `Backing`. heap_mutex_ makes each method one step.
pub mod Setup
pub mod Invariant
pub mod Evict
pub mod Rounds
pub mod Loops
pub mod Faults
mod Tests
use ram_vram_sharing.Prelude.{
  ℕ, zero, suc, ◌+◌, ◌-◌, ◌*◌, ◌/◌, ◌%◌, min, Bool, true, false, ◌&&◌, ◌||◌, Option, none, some,
  List, [], ◌∷◌, ◌++◌, ltb, leb, ◌==◌, if◌then◌else◌, u64_mod, length,
}
use ram_vram_sharing.Memory.Raw.{Result, ok, throw}
use ram_vram_sharing.Client.Act.{Act, ◌>>=◌, ◌>>◌, pure}

-- What the heap uses of MemoryClient, for the one handle that it holds, and of IPageFaultBackend. A
-- page is named by its offset in the region and its length; `bytes_at` is what the memory holds.
pub record Backing (S : Type 0) : Type 0 where
  pub client_read : ℕ → ℕ → Act S (List ℕ)
  pub client_write : ℕ → List ℕ → Act S (Unit {0})
  pub bytes_at : ℕ → ℕ → S → List ℕ
  pub is_dirty : ℕ → ℕ → S → Bool
  pub clear_dirty : ℕ → ℕ → S → S
  pub resolve_fault : ℕ → List ℕ → S → S
  pub evict_pages : ℕ → ℕ → S → S × Bool

pub record Stats : Type 0 where
  pub resident_bytes : ℕ
  pub fetches : ℕ
  pub flushes : ℕ
  pub evictions : ℕ

-- `resident` holds the keys of resident_: each maps to the node of that page in `resident_order`.
pub record RemoteHeap (S : Type 0) : Type 0 where
  pub world : S
  pub base : ℕ
  pub capacity : ℕ
  pub page_bytes : ℕ
  pub local_budget_bytes : ℕ
  pub handle : ℕ
  pub resident_order : List ℕ
  pub resident : List ℕ
  pub stats : Stats

pub is_in : ℕ → List ℕ → Bool
is_in i [] = false
is_in i (j ∷ js) = if j == i then true else is_in i js

-- The list or the map without one entry.
pub without : ℕ → List ℕ → List ℕ
without i [] = []
without i (j ∷ js) = if j == i then js else j ∷ without i js

module _ {S : Type 0} where
  abbrev pub page_index_of : ℕ → RemoteHeap S → ℕ
  page_index_of addr h = (addr - h.base) / h.page_bytes

  -- The offset and the length of a page; the last one may be shorter. A page in use starts before
  -- the end of the region, so that the subtraction does not wrap.
  abbrev pub offset_of : ℕ → RemoteHeap S → ℕ
  offset_of i h = i * h.page_bytes

  abbrev pub length_of : ℕ → RemoteHeap S → ℕ
  length_of i h = min h.page_bytes (h.capacity - offset_of i h)

  -- resident_order_.splice(resident_order_.end(), resident_order_, it->second)
  abbrev pub to_back : ℕ → RemoteHeap S → RemoteHeap S
  to_back i h = record h { resident_order = without i h.resident_order ++ i ∷ [] }

  -- The page is forgotten, and counted.
  unfoldable pub drop_page : ℕ → RemoteHeap S → RemoteHeap S
  unfolding without
  drop_page i h = record h {
    resident_order = without i h.resident_order;
    resident = without i h.resident;
    stats = record h.stats {
      resident_bytes = h.stats.resident_bytes - length_of i h;
      evictions = (h.stats.evictions + 1) % u64_mod;
    };
  }

  -- The page is entered unless it was resident, and the fetch is counted.
  unfoldable pub enter_page : ℕ → RemoteHeap S → RemoteHeap S
  unfolding is_in
  enter_page i h =
      let counted = record h.stats { fetches = (h.stats.fetches + 1) % u64_mod } in
      if is_in i h.resident then record h { stats = counted } else record h {
        resident_order = h.resident_order ++ i ∷ [];
        resident = i ∷ h.resident;
        stats = record counted { resident_bytes = h.stats.resident_bytes + length_of i h };
      }

module _ {S : Type 0} (os : Backing S) where
  unfoldable pub flush_page : ℕ → Act (RemoteHeap S) (Unit {0})
  flush_page i h =
      let at = offset_of i h in
      let n = length_of i h in
      let (w, r) = os.client_write at (os.bytes_at at n h.world) h.world in
      let sent : RemoteHeap S × Result (Unit {0}) = elim r [
        | throw e ↦ (record h { world = w }, throw e)
        | ok _ ↦ (
          record h {
            world = os.clear_dirty at n w;
            stats = record h.stats { flushes = (h.stats.flushes + 1) % u64_mod };
          },
          ok tt,
        )
      ] in
      if os.is_dirty at n h.world then sent else (h, ok tt)

  -- What evict_page does when the page is written back.
  unfoldable pub release_page : ℕ → RemoteHeap S → RemoteHeap S
  unfolding drop_page
  release_page i h =
      let (w, released) = os.evict_pages (offset_of i h) (length_of i h) h.world in
      let h' = record h { world = w } in if released then drop_page i h' else to_back i h'

  unfoldable pub evict_page : ℕ → RemoteHeap S → RemoteHeap S
  unfolding is_in flush_page release_page
  evict_page i h =
      let (h1, r) = flush_page i h in
      let tried : RemoteHeap S = elim r [ throw e ↦ to_back i h1 | ok _ ↦ release_page i h1 ] in
      if is_in i h.resident then tried else h

  -- The loop of enforce_budget, for at most so many rounds: `none` when they were not enough.
  pub enforce_budget : ℕ → RemoteHeap S → Option (RemoteHeap S)
  unfolding evict_page
  enforce_budget zero h = none
  enforce_budget (suc f) h =
      let next : Option (RemoteHeap S) = elim h.resident_order [
        | [] ↦ some h
        | i ∷ rest ↦ enforce_budget f (evict_page i h)
      ] in
      if ltb h.local_budget_bytes h.stats.resident_bytes && ltb 1 (length h.resident_order)
      then next
      else some h

  unfoldable pub handle_fault : ℕ → ℕ → RemoteHeap S → Option (RemoteHeap S)
  unfolding enforce_budget
  handle_fault rounds addr h =
      let i = page_index_of addr h in
      let (w, r) = os.client_read (offset_of i h) (length_of i h) h.world in
      let h' = record h { world = w } in
      let fetched : Option (RemoteHeap S) = elim r [
        | throw e ↦ some h'
        | ok bytes ↦
            if length bytes == length_of i h
            then enforce_budget rounds
                (enter_page i (record h { world = os.resolve_fault (offset_of i h) bytes w }))
            else some h'
      ] in
      if ltb addr h.base || leb (h.base + h.capacity) addr then some h else fetched

  -- The loop of flush over the resident pages; an exception leaves it.
  pub flush_each : List ℕ → Act (RemoteHeap S) (Unit {0})
  unfolding flush_page
  flush_each [] = pure tt
  flush_each (i ∷ is) = do flush_page i; flush_each is

  unfoldable pub flush : Act (RemoteHeap S) (Unit {0})
  unfolding flush_each
  flush h = flush_each h.resident_order h

  -- The loop of flush_and_evict_all, on fuel.
  pub evict_all : ℕ → RemoteHeap S → Option (RemoteHeap S)
  unfolding evict_page
  evict_all zero h = none
  evict_all (suc f) h = elim h.resident_order [
    | [] ↦ some h
    | i ∷ rest ↦
        let h' = evict_page i h in
        let next = evict_all f h' in
        if length h'.resident_order == length h.resident_order then some h' else next
  ]

  unfoldable pub flush_and_evict_all : RemoteHeap S → Option (RemoteHeap S)
  unfolding evict_all
  flush_and_evict_all h = evict_all (suc (length h.resident_order)) h
