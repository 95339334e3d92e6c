-- ===== src/Gpu/Stub.antt =====
-- gpud/src/cuda_executor_stub.cpp: the executor for a host without a GPU. Device memory is memory of
-- the process, and `malloc` a parameter: what it returns for a size, depending on what is allocated.
pub mod Copies
mod Tests
use ram_vram_sharing.Prelude.{ℕ, Option, none, some, List, lookup, erase, assign}
use ram_vram_sharing.Memory.Raw.{Bytes, copy_in, shift}
use ram_vram_sharing.Gpu.Protocol.{Executor}

-- allocations_, and the memory of the process.
pub record Device : Type 0 where
  pub allocations : List (ℕ × ℕ)
  pub memory : Bytes

unfoldable pub allocate : (Device → ℕ → Option ℕ) → ℕ → Device → Device × (ℕ × ℕ)
allocate malloc size d = elim (malloc d size) [
  | none ↦ (d, (2, 0))
  | some ptr ↦ (record d { allocations = assign ptr size d.allocations }, (0, ptr))
]

unfoldable pub free : ℕ → Device → Device × ℕ
free ptr d = elim (lookup ptr d.allocations) [
  | none ↦ (d, 11)
  | some size ↦ (record d { allocations = erase ptr d.allocations }, 0)
]

unfoldable pub memcpy_h_to_d : ℕ → Bytes → ℕ → Device → Device × ℕ
memcpy_h_to_d dst src size d = elim (lookup dst d.allocations) [
  | none ↦ (d, 11)
  | some n ↦ (record d { memory = copy_in d.memory dst src size }, 0)
]

unfoldable pub memcpy_d_to_h : Bytes → ℕ → ℕ → Device → ℕ × Bytes
memcpy_d_to_h out src size d = elim (lookup src d.allocations) [
  | none ↦ (11, out)
  | some n ↦ (0, copy_in out 0 (shift d.memory src) size)
]

abbrev pub create_stub : (Device → ℕ → Option ℕ) → Executor Device
create_stub malloc = record {
  allocate = allocate malloc;
  free = free;
  memcpy_h_to_d = memcpy_h_to_d;
  memcpy_d_to_h = memcpy_d_to_h;
  total_mem = λ d. (0, 1073741824);
}
