-- ===== src/Memory/Protocol/Tests.antt =====
-- Requests to the tracker in which session 7 has handle 1 and session 8 has handle 2.
use ram_vram_sharing.Prelude.{ℕ, ◌≡◌, refl, ◌≢◌, none, some, List, [], ◌∷◌, arith}
use ram_vram_sharing.Common.Crc.{crc32c}
use ram_vram_sharing.Memory.Slab.{write_page}
use ram_vram_sharing.Memory.Tracker.{write, write_loop}
use ram_vram_sharing.Memory.Tracker.Invariant.{IsValid}
use ram_vram_sharing.Memory.Tracker.Tests.{busy_tracker, busy_tracker-IsValid}
use ram_vram_sharing.Memory.Protocol.{
  status_ok, build_response, do_write, dispatch, process_verified,
}
use ram_vram_sharing.Memory.Protocol.Invariant.{process_verified-IsValid}
use ram_vram_sharing.Memory.Protocol.Service.{write_request, read_request, read_back}
use ram_vram_sharing.Memory.Protocol.Refusal.{foreign_refused}

abbrev pub payload : List ℕ
payload = 65 ∷ 66 ∷ 67 ∷ []

-- A WRITE across the border of two pages is answered OK.
pub write_ok : (process_verified (write_request 1 1 2 payload) 7 busy_tracker).1.status ≡ status_ok
unfolding process_verified dispatch do_write crc32c write write_page write_loop build_response
write_ok = refl

read_back_example :
    let t' = (process_verified (write_request 1 1 2 payload) 7 busy_tracker).0 in
    (process_verified (read_request 2 1 2 3) 7 t').1 ≡ record {
      request_id = 2;
      status = status_ok;
      handle = 0;
      payload = some payload;
      checksum = crc32c payload 0;
    }
read_back_example =
    read_back busy_tracker 7 1 2 1 2 65 (66 ∷ 67 ∷ []) busy_tracker-IsValid (omega arith) write_ok

foreign_refused_example :
    let r = process_verified (read_request 2 1 0 4) 8 busy_tracker in
    (r.0 ≡ busy_tracker) × (r.1.payload ≡ none) × (r.1.status ≢ status_ok)
foreign_refused_example =
    foreign_refused busy_tracker (read_request 2 1 0 4) 8
      (record { total_size = 6; pages = 0 ∷ 1 ∷ []; owner_id = 7 }) busy_tracker-IsValid refl refl
      (omega arith)

process_verified-IsValid_example :
    IsValid (process_verified (write_request 1 1 2 payload) 7 busy_tracker).0
process_verified-IsValid_example =
    process_verified-IsValid (write_request 1 1 2 payload) 7 busy_tracker busy_tracker-IsValid
      (omega arith)
