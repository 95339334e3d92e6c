-- ===== src/Gpu/Client.antt =====
-- gpud/src/gpu_client.cpp: CUDA calls sent to a gpud. The connection is the parameter `call`: what
-- sync_remote_call waits for, without a limit of time, `none` where no response ever comes. The text of
-- a response, a device's name, is left out.
pub mod Hosted
pub mod Remote
mod Tests
use ram_vram_sharing.Prelude.{
  ℕ, ◌+◌, ◌%◌, min, Bool, false, Option, none, some, List, ◌==◌, if◌then◌else◌, u64_mod, length,
}
use ram_vram_sharing.Memory.Raw.{Bytes, copy_in, data_of}
use ram_vram_sharing.Gpu.Protocol.{
  GpuOpCode, cuda_malloc, cuda_free, cuda_memcpy, get_device_properties, host_to_device,
  device_to_host, GpuRequest, ErrorCode, cuda, minus_one, GpuResponse,
}

pub record GpuClient (W : Type 0) : Type 0 where
  pub world : W
  pub next_request_id : ℕ

-- A request with the fields that no call sets.
abbrev pub blank_request : GpuOpCode → ℕ → GpuRequest
blank_request op id = record {
  protocol_version = 1;
  request_id = id;
  op = op;
  device_ptr = 0;
  size = 0;
  payload = none;
  memcpy_kind = host_to_device;
  dst_ptr = 0;
  src_ptr = 0;
}

abbrev pub is_success : ErrorCode → Bool
is_success (cuda n) = n == 0
is_success minus_one = false

-- The data of a response, copied to the destination.
abbrev pub copied : Option (List ℕ) → ℕ → Bytes → Bytes
copied none size out = out
copied (some bytes) size out = copy_in out 0 (data_of bytes) (min size (length bytes))

-- The client after a call, with what the caller makes of the response.
abbrev pub returning :
    {W A : Type 0}
    → (GpuResponse → A)
    → Option (GpuClient W × GpuResponse)
    → Option (GpuClient W × A)
returning f none = none
returning f (some (c, resp)) = some (c, f resp)

-- The error code, and what is stored where the code is 0.
abbrev pub stored : GpuResponse → ErrorCode × Option ℕ
stored resp = (resp.error_code, if is_success resp.error_code then some resp.device_ptr else none)

-- The error code, and a destination that held `out`.
abbrev pub filled : Bytes → ℕ → GpuResponse → ErrorCode × Bytes
filled out size resp =
    (resp.error_code, if is_success resp.error_code then copied resp.payload size out else out)

-- The requests of the two copies.
abbrev pub h_to_d_request : ℕ → List ℕ → ℕ → GpuRequest
h_to_d_request dst bytes id = record (blank_request cuda_memcpy id) {
  dst_ptr = dst;
  memcpy_kind = host_to_device;
  size = length bytes;
  payload = some bytes;
}

abbrev pub d_to_h_request : ℕ → ℕ → ℕ → GpuRequest
d_to_h_request src size id = record (blank_request cuda_memcpy id) {
  src_ptr = src;
  memcpy_kind = device_to_host;
  size = size;
}

module _ {W : Type 0} (call : GpuRequest → W → Option (W × GpuResponse)) where
  unfoldable pub sync_remote_call :
      (ℕ → GpuRequest) → GpuClient W → Option (GpuClient W × GpuResponse)
  sync_remote_call request c = elim (call (request c.next_request_id) c.world) [
    | none ↦ none
    | some (w, resp) ↦
        some (record { world = w; next_request_id = (c.next_request_id + 1) % u64_mod }, resp)
  ]

  -- The error code, and what is stored in *devPtr.
  unfoldable pub cuda_malloc_remote :
      ℕ → GpuClient W → Option (GpuClient W × (ErrorCode × Option ℕ))
  unfolding sync_remote_call
  cuda_malloc_remote size c =
      returning stored
        (sync_remote_call (λ id. record (blank_request cuda_malloc id) { size = size }) c)

  unfoldable pub cuda_free_remote : ℕ → GpuClient W → Option (GpuClient W × ErrorCode)
  unfolding sync_remote_call
  cuda_free_remote ptr c =
      returning (λ resp. resp.error_code)
        (sync_remote_call (λ id. record (blank_request cuda_free id) { device_ptr = ptr }) c)

  unfoldable pub cuda_memcpy_h_to_d : ℕ → List ℕ → GpuClient W → Option (GpuClient W × ErrorCode)
  unfolding sync_remote_call
  cuda_memcpy_h_to_d dst bytes c =
      returning (λ resp. resp.error_code) (sync_remote_call (h_to_d_request dst bytes) c)

  -- The error code, and the destination afterwards, of which `out` is what it held before.
  unfoldable pub cuda_memcpy_d_to_h :
      Bytes → ℕ → ℕ → GpuClient W → Option (GpuClient W × (ErrorCode × Bytes))
  unfolding sync_remote_call
  cuda_memcpy_d_to_h out src size c =
      returning (filled out size) (sync_remote_call (d_to_h_request src size) c)

  -- The error code, and what is stored in totalGlobalMem.
  unfoldable pub cuda_get_device_properties :
      GpuClient W → Option (GpuClient W × (ErrorCode × Option ℕ))
  unfolding sync_remote_call
  cuda_get_device_properties c =
      returning stored (sync_remote_call (blank_request get_device_properties) c)
