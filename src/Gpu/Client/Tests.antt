-- ===== src/Gpu/Client/Tests.antt =====
-- Calls to a gpud over the stub executor, with requests written as lists of numbers.
use ram_vram_sharing.Prelude.{
  ℕ, zero, suc, Option, none, some, List, [], ◌∷◌, ◌==◌, if◌then◌else◌, length, get_or, drop,
}
use ram_vram_sharing.Gpu.Protocol.{
  GpuOpCode, cuda_malloc, cuda_free, cuda_memcpy, get_device_properties, other_op, MemcpyKind,
  host_to_device, device_to_host, other_kind, GpuRequest,
}
use ram_vram_sharing.Gpu.Stub.{Device}

abbrev next_at : Device → ℕ → Option ℕ
next_at d size = if length d.allocations == 1 then some 128 else none

abbrev device : Device
device = record { allocations = (64, 4) ∷ []; memory = λ a. 3 }

write_op : GpuOpCode → List ℕ
write_op cuda_malloc = 0 ∷ 0 ∷ []
write_op cuda_free = 1 ∷ 0 ∷ []
write_op cuda_memcpy = 2 ∷ 0 ∷ []
write_op get_device_properties = 3 ∷ 0 ∷ []
write_op (other_op k) = 4 ∷ k ∷ []

read_op : ℕ → ℕ → GpuOpCode
read_op zero k = cuda_malloc
read_op (suc zero) k = cuda_free
read_op (suc (suc zero)) k = cuda_memcpy
read_op (suc (suc (suc zero))) k = get_device_properties
read_op (suc (suc (suc (suc n)))) k = other_op k

write_kind : MemcpyKind → List ℕ
write_kind host_to_device = 0 ∷ 0 ∷ []
write_kind device_to_host = 1 ∷ 0 ∷ []
write_kind (other_kind k) = 2 ∷ k ∷ []

read_kind : ℕ → ℕ → MemcpyKind
read_kind zero k = host_to_device
read_kind (suc zero) k = device_to_host
read_kind (suc (suc n)) k = other_kind k

write_data : Option (List ℕ) → List ℕ
write_data none = []
write_data (some bytes) = 1 ∷ bytes

read_data : List ℕ → Option (List ℕ)
read_data [] = none
read_data (flag ∷ bytes) = some bytes

abbrev body : GpuRequest → List ℕ
body req =
    req.protocol_version
    ∷ req.request_id
    ∷ get_or (write_op req.op) 0 0
    ∷ get_or (write_op req.op) 1 0
    ∷ req.device_ptr
    ∷ req.size
    ∷ get_or (write_kind req.memcpy_kind) 0 0
    ∷ get_or (write_kind req.memcpy_kind) 1 0
    ∷ req.dst_ptr
    ∷ req.src_ptr
    ∷ write_data req.payload

abbrev encode : GpuRequest → List ℕ
encode req = length (body req) ∷ 0 ∷ 0 ∷ 0 ∷ body req

abbrev decode : List ℕ → Option GpuRequest
decode frame = some (record {
  protocol_version = get_or frame 4 0;
  request_id = get_or frame 5 0;
  op = read_op (get_or frame 6 0) (get_or frame 7 0);
  device_ptr = get_or frame 8 0;
  size = get_or frame 9 0;
  payload = read_data (drop 14 frame);
  memcpy_kind = read_kind (get_or frame 10 0) (get_or frame 11 0);
  dst_ptr = get_or frame 12 0;
  src_ptr = get_or frame 13 0;
})

abbrev first_of : List ℕ → ℕ
first_of frame = get_or frame 0 0
