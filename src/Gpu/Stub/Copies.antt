-- ===== src/Gpu/Stub/Copies.antt =====
-- Copies between the host and the device, through the protocol and on the stub.
use ram_vram_sharing.Prelude.{
  ℕ, ◌+◌, ◌<◌, ◌≡◌, refl, sym, ap, ◌∙◌, inl, inr, Option, none, some, List, ◌∷◌, arith,
  Option-cases, length, lookup, erase, IsUnique, lookup-erase_self,
}
use ram_vram_sharing.Memory.Raw.{Bytes, copy_in, shift, data_of}
use ram_vram_sharing.Memory.Protocol.Service.{vector_of-congr, vector_of-data_of}
use ram_vram_sharing.Memory.Protocol.{vector_of}
use ram_vram_sharing.Gpu.Protocol.{
  cuda_memcpy, host_to_device, device_to_host, GpuRequest, cuda, GpuResponse, build_response,
  memcpy, run_op, process_verified,
}
use ram_vram_sharing.Gpu.Stub.{Device, free, memcpy_h_to_d, memcpy_d_to_h, create_stub}

-- Requests to copy `bytes` to the device, and `size` bytes back.
abbrev pub upload : ℕ → ℕ → List ℕ → GpuRequest
upload id ptr bytes = record {
  protocol_version = 1;
  request_id = id;
  op = cuda_memcpy;
  device_ptr = 0;
  size = length bytes;
  payload = some bytes;
  memcpy_kind = host_to_device;
  dst_ptr = ptr;
  src_ptr = 0;
}

abbrev pub download : ℕ → ℕ → ℕ → GpuRequest
download id ptr size = record {
  protocol_version = 1;
  request_id = id;
  op = cuda_memcpy;
  device_ptr = 0;
  size = size;
  payload = none;
  memcpy_kind = device_to_host;
  dst_ptr = 0;
  src_ptr = ptr;
}

copied_in :
    (d : Device) (ptr n size : ℕ) (src : Bytes)
    → lookup ptr d.allocations ≡ some n
    → memcpy_h_to_d ptr src size d ≡ (record d { memory = copy_in d.memory ptr src size }, 0)
unfolding memcpy_h_to_d
copied_in d ptr n size src e = ground arith

copied_out :
    (d : Device) (ptr n size : ℕ) (out : Bytes)
    → lookup ptr d.allocations ≡ some n
    → memcpy_d_to_h out ptr size d ≡ (0, copy_in out 0 (shift d.memory ptr) size)
unfolding memcpy_d_to_h
copied_out d ptr n size out e = ground arith

-- What was copied to an allocation of the device is what a copy of as many bytes back returns, both
-- with code 0, when the payload is not empty.
upload-download :
    (malloc : Device → ℕ → Option ℕ) (d : Device) (id id' ptr n b : ℕ) (bs : List ℕ)
    → lookup ptr d.allocations ≡ some n
    → let executor = create_stub malloc in
      let (d', r) = process_verified executor (upload id ptr (b ∷ bs)) d in
      (r.error_code ≡ cuda 0)
      × ((process_verified executor (download id' ptr (length (b ∷ bs))) d').1 ≡ record {
        request_id = id';
        error_code = cuda 0;
        device_ptr = 0;
        payload = some (b ∷ bs);
      })
unfolding process_verified run_op memcpy build_response
upload-download malloc d id id' ptr n b bs e =
    let bytes = b ∷ bs in
    let size = length bytes in
    let d' : Device = record d { memory = copy_in d.memory ptr (data_of bytes) size } in
    let up = copied_in d ptr n size (data_of bytes) e in
    let back : List ℕ → GpuResponse = build_response (download id' ptr size) (cuda 0) 0 in
    (
      ap (λ x. cuda x.1) up,
      ap (λ x. (process_verified (create_stub malloc) (download id' ptr size) x.0).1) up
          ∙ ap (λ y. build_response (download id' ptr size) (cuda y.0) 0 (vector_of size y.1))
              (copied_out d' ptr n size (λ _. 0) e)
          ∙ ap back (
              vector_of-congr size (copy_in (λ _. 0) 0 (shift d'.memory ptr) size) (data_of bytes)
                (λ i l. ground arith)
              ∙ vector_of-data_of bytes),
    )

-- The stub does not compare the size of a copy with the size of the allocation: a longer copy to an
-- allocation of `n` bytes is accepted and writes the byte behind it.
pub memcpy_overruns :
    (d : Device) (ptr n size : ℕ) (src : Bytes)
    → lookup ptr d.allocations ≡ some n
    → n < size
    → let (d', err) = memcpy_h_to_d ptr src size d in (err ≡ 0) × (d'.memory (ptr + n) ≡ src n)
unfolding memcpy_h_to_d
memcpy_overruns d ptr n size src e h = rw (e, memcpy_h_to_d) (refl, ground arith)

free_unknown : (d : Device) (ptr : ℕ) → lookup ptr d.allocations ≡ none → free ptr d ≡ (d, 11)
unfolding free
free_unknown d ptr e = ground arith

free_known :
    (d : Device) (ptr n : ℕ)
    → lookup ptr d.allocations ≡ some n
    → free ptr d ≡ (record d { allocations = erase ptr d.allocations }, 0)
unfolding free
free_known d ptr n e = ground arith

free_unknown_twice :
    (d d' : Device) (ptr code : ℕ)
    → free ptr d ≡ (d', code)
    → lookup ptr d'.allocations ≡ none
    → free ptr (free ptr d).0 ≡ ((free ptr d).0, 11)
free_unknown_twice d d' ptr code q e =
    ap (λ x. free ptr x.0) q ∙ free_unknown d' ptr e ∙ ap (λ x. (x.0, 11)) (sym q)

-- free takes an allocation out of the table once: a second free of the same pointer is refused and
-- changes nothing.
pub free_twice :
    (d : Device) (ptr : ℕ) → IsUnique d.allocations → free ptr (free ptr d).0 ≡ ((free ptr d).0, 11)
free_twice d ptr u = elim (Option-cases (lookup ptr d.allocations)) [
  | inl e ↦ free_unknown_twice d d ptr 11 (free_unknown d ptr e) e
  | inr (n, e) ↦
      free_unknown_twice d (record d { allocations = erase ptr d.allocations }) ptr 0
        (free_known d ptr n e) (lookup-erase_self ptr d.allocations u)
]
