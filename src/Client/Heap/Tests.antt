-- ===== src/Client/Heap/Tests.antt =====
-- A heap of three pages of four bytes, all resident, with a budget of one page: over a store that takes
-- everything, and over one that refuses every write.
use ram_vram_sharing.Prelude.{ℕ, ◌+◌, ◌≡◌, refl, ◌⊎◌, true, none, some, List, [], ◌∷◌, arith}
use ram_vram_sharing.Memory.Raw.{runtime_error, ok, throw}
use ram_vram_sharing.Client.Heap.{
  Backing, RemoteHeap, to_back, drop_page, evict_page, enforce_budget, flush_and_evict_all,
}
use ram_vram_sharing.Client.Heap.Invariant.{IsValid}
use ram_vram_sharing.Client.Heap.Evict.{kept, IsSafe, takes_page, IsRefused, evict_page_cases}
use ram_vram_sharing.Client.Heap.Loops.{
  Emptied, flush_and_evict_all_ends, Kept, enforce_budget_ends, enforce_budget_spins,
}

abbrev four_bytes : List ℕ
four_bytes = 1 ∷ 2 ∷ 3 ∷ 4 ∷ []

-- The state counts the writes.
abbrev taking : Backing ℕ
taking = record {
  client_read = λ at n s. (s, ok four_bytes);
  client_write = λ at bytes s. (s + 1, ok tt);
  bytes_at = λ at n s. four_bytes;
  is_dirty = λ at n s. true;
  clear_dirty = λ at n s. s;
  resolve_fault = λ at bytes s. s;
  evict_pages = λ at n s. (s, true);
}

abbrev refusing : Backing ℕ
refusing = record taking { client_write = λ at bytes s. (s, throw runtime_error) }

abbrev heap : RemoteHeap ℕ
heap = record {
  world = 0;
  base = 4096;
  capacity = 12;
  page_bytes = 4;
  local_budget_bytes = 4;
  handle = 1;
  resident_order = 2 ∷ 0 ∷ 1 ∷ [];
  resident = 0 ∷ 1 ∷ 2 ∷ [];
  stats = record { resident_bytes = 12; fetches = 3; flushes = 0; evictions = 0 };
}

heap-IsValid : IsValid heap
heap-IsValid = record {
  matched = λ i. omega arith;
  distinct = λ i. ground arith;
  inside = λ i h. ground arith;
  summed = refl;
}

evict_page_cases_example :
    (w : ℕ) × (n : ℕ) × (((evict_page taking 2 heap ≡ drop_page 2 (kept taking w n heap))
        × IsSafe taking 2 heap
        × (takes_page taking 2 heap ≡ true))
      ⊎ ((evict_page taking 2 heap ≡ to_back 2 (kept taking w n heap)) × IsRefused taking 2 heap))
evict_page_cases_example = evict_page_cases taking 2 heap heap-IsValid (omega arith)

flush_and_evict_all_ends_example :
    (h' : RemoteHeap ℕ) × (flush_and_evict_all taking heap ≡ some h') × Emptied taking heap h'
flush_and_evict_all_ends_example = flush_and_evict_all_ends taking heap heap-IsValid

enforce_budget_ends_example :
    (h' : RemoteHeap ℕ) × (enforce_budget taking 4 heap ≡ some h') × Kept taking heap h'
enforce_budget_ends_example =
    enforce_budget_ends taking 4 heap heap-IsValid (omega arith) (λ at bytes s. refl)
      (λ at n s. refl)

enforce_budget_spins_example : enforce_budget refusing 1000000 heap ≡ none
enforce_budget_spins_example =
    enforce_budget_spins refusing 1000000 heap heap-IsValid refl (λ at n s. refl)
      (λ at bytes s. refl)
