-- ===== src/Memory/Protocol.antt =====
-- memoryd/src/memory_protocol.cpp, over the tables of common/schemas/memory.fbs. FlatBuffers' own
-- reader and verifier are the parameter `decode`: nothing for a buffer that does not verify. A
-- response is the table that build_response fills; its human-readable text is left out.
pub mod Invariant
pub mod Service
pub mod Vectors
pub mod Refusal
pub mod Tests
use ram_vram_sharing.Prelude.{
  ℕ, zero, suc, Bool, Option, none, some, List, [], ◌∷◌, ltb, ◌==◌, if◌then◌else◌, length,
}
use ram_vram_sharing.Common.Crc.{crc32c}
use ram_vram_sharing.Memory.Raw.{
  Bytes, shift, data_of, Exception, bad_alloc, invalid_argument, out_of_range, runtime_error,
  permission_denied, Result, ok, throw,
}
use ram_vram_sharing.Memory.Tracker.{Tracker, allocate, assign_owner, write, read}
use ram_vram_sharing.Memory.Tracker

pub data OpCode : Type 0 where
  alloc write_op read_op free_op ping : OpCode
  unsupported : ℕ → OpCode

pub data StatusCode : Type 0 where
  status_ok error_generic busy checksum_mismatch invalid_handle out_of_memory : StatusCode
  version_mismatch denied : StatusCode

pub record Request : Type 0 where
  pub protocol_version : ℕ
  pub request_id : ℕ
  pub op : OpCode
  pub handle : ℕ
  pub size : ℕ
  pub offset : ℕ
  pub payload : Option (List ℕ)
  pub checksum : ℕ

pub record Response : Type 0 where
  pub request_id : ℕ
  pub status : StatusCode
  pub handle : ℕ
  pub payload : Option (List ℕ)
  pub checksum : ℕ

abbrev pub max_message_size : ℕ
max_message_size = 67108864

abbrev pub check_protocol_version : ℕ → Bool
check_protocol_version received = received == 1

-- build_response: data and checksum are added for a payload that is not empty.
pub build_response : Request → StatusCode → ℕ → List ℕ → ℕ → Response
build_response req status handle [] checksum = record {
  request_id = req.request_id;
  status = status;
  handle = handle;
  payload = none;
  checksum = 0;
}
build_response req status handle (b ∷ bs) checksum = record {
  request_id = req.request_id;
  status = status;
  handle = handle;
  payload = some (b ∷ bs);
  checksum = checksum;
}

abbrev pub plain : Request → StatusCode → Response
plain req status = build_response req status 0 [] 0

-- The catch clauses of process_request.
pub status_of : Exception → StatusCode
status_of permission_denied = denied
status_of invalid_argument = invalid_handle
status_of bad_alloc = out_of_memory
status_of out_of_range = error_generic
status_of runtime_error = error_generic

abbrev pub answer : Request → Tracker × Result (Unit {0}) → Tracker × Response
answer req (t, ok _) = (t, plain req status_ok)
answer req (t, throw e) = (t, plain req (status_of e))

-- The vector of the `n` bytes behind a pointer.
pub vector_of : ℕ → Bytes → List ℕ
vector_of zero p = []
vector_of (suc n) p = p 0 ∷ vector_of n (shift p 1)

pub finish_alloc : Request → ℕ → Tracker × Result ℕ → Tracker × Response
finish_alloc req session (t, ok h) = (assign_owner h session t, build_response req status_ok h [] 0)
finish_alloc req session (t, throw e) = (t, plain req (status_of e))

pub finish_read : Request → Tracker → Result Bytes → Tracker × Response
finish_read req t (ok out) =
    let bytes = vector_of req.size out in (t, build_response req status_ok 0 bytes (crc32c bytes 0))
finish_read req t (throw e) = (t, plain req (status_of e))

pub do_write : Request → ℕ → Tracker → Option (List ℕ) → Tracker × Response
do_write req session t none = (t, plain req error_generic)
do_write req session t (some bytes) =
    if crc32c bytes 0 == req.checksum
    then answer req (write req.handle req.offset (data_of bytes) (length bytes) session t)
    else (t, plain req checksum_mismatch)

-- The switch of process_request.
pub dispatch : OpCode → Request → ℕ → Tracker → Tracker × Response
unfolding finish_alloc finish_read do_write
dispatch alloc req session t = finish_alloc req session (allocate req.size t)
dispatch free_op req session t = answer req (Tracker.free req.handle session t)
dispatch write_op req session t = do_write req session t req.payload
dispatch read_op req session t =
    if ltb max_message_size req.size
    then (t, plain req error_generic)
    else finish_read req t (read req.handle req.offset (λ _. 0) req.size session t)
dispatch ping req session t = (t, plain req status_ok)
dispatch (unsupported code) req session t = (t, plain req error_generic)

unfoldable pub process_verified : Request → ℕ → Tracker → Tracker × Response
unfolding dispatch
process_verified req session t =
    if check_protocol_version req.protocol_version
    then dispatch req.op req session t
    else (t, plain req version_mismatch)

-- `none` is the empty vector, by which the caller is told to close the connection.
unfoldable pub process_request :
    (List ℕ → Option Request) → List ℕ → ℕ → Tracker → Tracker × Option Response
process_request decode buffer session t = elim (decode buffer) [
  | none ↦ (t, none)
  | some req ↦ let (t', r) = process_verified req session t in (t', some r)
]
