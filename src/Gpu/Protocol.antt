-- ===== src/Gpu/Protocol.antt =====
-- gpud/src/gpu_protocol.cpp and the tables of common/schemas/gpu.fbs. The executor is an interface of
-- the code (ICudaExecutor); the FlatBuffers reader is the parameter `decode`.
use ram_vram_sharing.Prelude.{ℕ, Option, none, some, List, [], ◌∷◌, ◌==◌, if◌then◌else◌}
use ram_vram_sharing.Memory.Raw.{Bytes, data_of}
use ram_vram_sharing.Memory.Protocol.{check_protocol_version, vector_of}

pub data GpuOpCode : Type 0 where
  cuda_malloc cuda_free cuda_memcpy get_device_properties : GpuOpCode
  other_op : ℕ → GpuOpCode

pub data MemcpyKind : Type 0 where
  host_to_device device_to_host : MemcpyKind
  other_kind : ℕ → MemcpyKind

pub record GpuRequest : Type 0 where
  pub protocol_version : ℕ
  pub request_id : ℕ
  pub op : GpuOpCode
  pub device_ptr : ℕ
  pub size : ℕ
  pub payload : Option (List ℕ)
  pub memcpy_kind : MemcpyKind
  pub dst_ptr : ℕ
  pub src_ptr : ℕ

-- The error code of a response: what CUDA returns, or -1.
pub data ErrorCode : Type 0 where
  cuda : ℕ → ErrorCode
  minus_one : ErrorCode

pub record GpuResponse : Type 0 where
  pub request_id : ℕ
  pub error_code : ErrorCode
  pub device_ptr : ℕ
  pub payload : Option (List ℕ)

-- The methods that process_request calls, over the state `E` of an executor: each returns an error
-- code, and allocate the pointer that it stores, 0 when it stores none. memcpyDtoH gets what its
-- destination holds and returns what it holds afterwards.
pub record Executor (E : Type 0) : Type 0 where
  pub allocate : ℕ → E → E × (ℕ × ℕ)
  pub free : ℕ → E → E × ℕ
  pub memcpy_h_to_d : ℕ → Bytes → ℕ → E → E × ℕ
  pub memcpy_d_to_h : Bytes → ℕ → ℕ → E → ℕ × Bytes
  pub total_mem : E → ℕ × ℕ

-- build_response: an empty vector is left out.
unfoldable pub build_response : GpuRequest → ErrorCode → ℕ → List ℕ → GpuResponse
build_response req err ptr [] = record {
  request_id = req.request_id;
  error_code = err;
  device_ptr = ptr;
  payload = none;
}
build_response req err ptr (b ∷ bs) = record {
  request_id = req.request_id;
  error_code = err;
  device_ptr = ptr;
  payload = some (b ∷ bs);
}

module _ {E : Type 0} (executor : Executor E) where
  -- CUDA_MEMCPY. The code compares neither `size` with the length of the payload nor with a limit;
  -- past the payload 0 stands for what is read there.
  unfoldable pub memcpy : MemcpyKind → GpuRequest → E → E × GpuResponse
  memcpy host_to_device req e = elim req.payload [
    | none ↦ (e, build_response req (cuda 11) 0 [])
    | some bytes ↦
        let (e', err) = executor.memcpy_h_to_d req.dst_ptr (data_of bytes) req.size e in
        (e', build_response req (cuda err) 0 [])
  ]
  memcpy device_to_host req e =
      let (err, out) = executor.memcpy_d_to_h (λ _. 0) req.src_ptr req.size e in
      (e, build_response req (cuda err) 0 (vector_of req.size out))
  memcpy (other_kind k) req e = (e, build_response req (cuda 11) 0 [])

  -- The switch of process_request.
  unfoldable pub run_op : GpuOpCode → GpuRequest → E → E × GpuResponse
  unfolding memcpy
  run_op cuda_malloc req e =
      let (e', (err, ptr)) = executor.allocate req.size e in
      (e', build_response req (cuda err) ptr [])
  run_op cuda_free req e =
      let (e', err) = executor.free req.device_ptr e in (e', build_response req (cuda err) 0 [])
  run_op cuda_memcpy req e = memcpy req.memcpy_kind req e
  run_op get_device_properties req e =
      let (err, total) = executor.total_mem e in
      (e, build_response req (cuda err) (if err == 0 then total else 0) [])
  run_op (other_op k) req e = (e, build_response req (cuda 1) 0 [])

  unfoldable pub process_verified : GpuRequest → E → E × GpuResponse
  unfolding run_op
  process_verified req e =
      if check_protocol_version req.protocol_version
      then run_op req.op req e
      else (e, build_response req minus_one 0 [])

  unfoldable pub process_request :
      (List ℕ → Option GpuRequest) → List ℕ → E → E × Option GpuResponse
  process_request decode buffer e = elim (decode buffer) [
    | none ↦ (e, none)
    | some req ↦ let (e', r) = process_verified req e in (e', some r)
  ]
