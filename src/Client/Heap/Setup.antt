-- ===== src/Client/Heap/Setup.antt =====
-- memclient/src/remote_heap.cpp: the constructor and the destructor of the heap.
use ram_vram_sharing.Prelude.{
  ℕ, ◌+◌, ◌-◌, ◌*◌, ◌/◌, ◌%◌, max, Bool, not, Option, none, some, [], leb, ◌==◌, if◌then◌else◌,
  u64_mod,
}
use ram_vram_sharing.Memory.Raw.{runtime_error, Result, ok, throw}
use ram_vram_sharing.Client.Act.{Act}
use ram_vram_sharing.Client.Heap.{RemoteHeap}

-- size_t arithmetic.
abbrev pub round_up : ℕ → ℕ → ℕ
round_up value multiple = ((value + multiple - 1) % u64_mod / multiple) * multiple % u64_mod

pub record RemoteHeapConfig : Type 0 where
  pub capacity_bytes : ℕ
  pub local_budget_bytes : ℕ
  pub page_bytes : ℕ

-- The constructor, for a backend with `os_page` bytes in a page: `supported` says that there is a
-- usable one, `reserve` is reserve_region, `place` is MemoryClient::allocate and `release` is
-- release_region.
unfoldable pub create :
    {S : Type 0}
    → RemoteHeapConfig
    → Bool
    → ℕ
    → ℕ
    → (ℕ → S → S × Option (ℕ × ℕ))
    → (ℕ → Act S ℕ)
    → (ℕ → S → S)
    → Act S (RemoteHeap S)
create {S = S} config supported os_page max_local_bytes reserve place release s =
    let page = round_up (max config.page_bytes os_page) os_page in
    let rounded = round_up config.capacity_bytes page in
    let budget = max (round_up config.local_budget_bytes page) page in
    let (s1, region) = reserve rounded s in
    let reserved : S × Result (RemoteHeap S) = elim region [
      | none ↦ (s1, throw runtime_error)
      | some (base, size) ↦
          let (s2, r) = place size s1 in
          elim r [
            | throw e ↦ (release base s2, throw e)
            | ok handle ↦ (
              s2,
              ok (record {
                world = s2;
                base = base;
                capacity = size;
                page_bytes = page;
                local_budget_bytes = budget;
                handle = handle;
                resident_order = [];
                resident = [];
                stats = record { resident_bytes = 0; fetches = 0; flushes = 0; evictions = 0 };
              }),
            )
          ]
    ] in
    if config.capacity_bytes == 0
    then (s, throw runtime_error)
    else if not supported
    then (s, throw runtime_error)
    else if leb rounded max_local_bytes
    then (s, throw runtime_error)
    else reserved

-- The destructor: `free` is MemoryClient::free, its exceptions caught.
unfoldable pub destroy : {S : Type 0} → (ℕ → S → S) → (ℕ → Act S (Unit {0})) → RemoteHeap S → S
destroy release free h =
    let s = release h.base h.world in if h.handle == 0 then s else (free h.handle s).0
