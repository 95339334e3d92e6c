-- ===== src/Platform/Mac.antt =====
-- platform/src/macos/page_fault_mac.cpp: page faults through a handler of SIGSEGV and SIGBUS. The
-- file has the methods of the Windows backend once more, with mprotect in place of the calls of
-- Windows, and a handler of its own.
pub mod Runs
mod Tests
use ram_vram_sharing.Prelude.{ℕ, Bool, true, false, Option, List}
use ram_vram_sharing.Platform.Windows.{
  VirtualMemory, Backend, Call, foreign, present, missing, classify, reserve_region, release_region,
  resolve_fault, clear_dirty, evict_pages, promote, serve,
}

pub data Protection : Type 0 where
  no_access read_only read_write : Protection

-- mmap with PROT_NONE, munmap of a whole region, mprotect, madvise with MADV_FREE, memcpy and memset.
-- `writable` says whether a store to an address goes through.
pub record Mprotect (K : Type 0) : Type 0 where
  pub map : ℕ → K → K × Option ℕ
  pub unmap : ℕ → K → K
  pub protect : Protection → ℕ → ℕ → K → K × Bool
  pub free : ℕ → ℕ → K → K
  pub copy : ℕ → List ℕ → K → K
  pub clear : ℕ → ℕ → K → K
  pub writable : ℕ → K → Bool

-- What stands in this file where the Windows file calls its system.
abbrev pub system : {K : Type 0} → Mprotect K → VirtualMemory K
system m = record {
  reserve = m.map;
  release = m.unmap;
  commit = m.protect read_write;
  protect_readonly = m.protect read_only;
  protect_readwrite = m.protect read_write;
  decommit = λ page total k. m.protect no_access page total (m.free page total k);
  copy = m.copy;
  clear = m.clear;
  writable = m.writable;
}

module _ {K : Type 0} (m : Mprotect K) where
  abbrev pub mac_reserve_region : ℕ → Backend K → Backend K × Option (ℕ × ℕ)
  mac_reserve_region = reserve_region (system m)

  abbrev pub mac_release_region : ℕ → Backend K → Backend K
  mac_release_region = release_region (system m)

  abbrev pub mac_resolve_fault : ℕ → Option (List ℕ) → ℕ → Backend K → Backend K
  mac_resolve_fault = resolve_fault (system m)

  abbrev pub mac_clear_dirty : ℕ → ℕ → Backend K → Backend K
  mac_clear_dirty = clear_dirty (system m)

  abbrev pub mac_evict_pages : ℕ → ℕ → Backend K → Backend K × Bool
  mac_evict_pages = evict_pages (system m)

  -- As a thread runs it that no other one disturbs between its steps. `false` is reraise. A trap on a page that is there is taken for a store, one on an absent page
  -- for a load.
  unfoldable pub segv_handler :
      Option (ℕ → Bool → Backend K → List Call) → ℕ → Backend K → Backend K × Bool
  segv_handler handler addr b = elim (classify addr b) [
    | foreign ↦ (b, false)
    | present ↦ promote (system m) addr true b
    | missing ↦ serve (system m) handler addr false b
  ]
