-- ===== src/Gpu/Stub/Tests.antt =====
-- Runs of the stub with one allocation of four bytes at 64, and of a session over it.
use ram_vram_sharing.Prelude.{
  ℕ, ◌+◌, ◌≤◌, ◌≡◌, refl, ◌⊎◌, Option, none, some, List, [], ◌∷◌, arith, ◌==◌, if◌then◌else◌,
  length,
}
use ram_vram_sharing.Gpu.Protocol.{GpuRequest}
use ram_vram_sharing.Gpu.Session.{GpuSession}
use ram_vram_sharing.Gpu.Session.Closing.{run, closed_once}
use ram_vram_sharing.Gpu.Stub.{Device, memcpy_h_to_d, create_stub}
use ram_vram_sharing.Gpu.Stub.Copies.{memcpy_overruns}

abbrev device : Device
device = record { allocations = (64, 4) ∷ []; memory = λ _. 0 }

-- The second allocation would lie at 128, a third is refused.
abbrev next_at : Device → ℕ → Option ℕ
next_at d size = if length d.allocations == 1 then some 128 else none

memcpy_overruns_example :
    let (d', err) = memcpy_h_to_d 64 (λ i. 9 + i) 6 device in (err ≡ 0) × (d'.memory 68 ≡ 13)
memcpy_overruns_example = memcpy_overruns device 64 4 6 (λ i. 9 + i) refl (omega arith)

abbrev session : GpuSession Device
session = record { read_buffer = []; closes = 0; sent = []; executor_state = device }

abbrev refuse_all : List ℕ → Option GpuRequest
refuse_all frame = none

abbrev no_payload : List ℕ → ℕ
no_payload buffer = 0

-- Two malformed frames in one read, then the end of the stream, then more bytes.
abbrev events : List (Option (List ℕ))
events = some (0 ∷ 0 ∷ 0 ∷ 0 ∷ 0 ∷ 0 ∷ 0 ∷ 0 ∷ []) ∷ none ∷ []

closed_once_example :
    let after = run (create_stub next_at) refuse_all no_payload in
    ((after events session).closes ≤ 1)
    × (((after events session).closes ≡ 0)
        ⊎ (((after (some (1 ∷ []) ∷ []) (after events session)).closes ≡ 1)
            × ((after (some (1 ∷ []) ∷ []) (after events session)).sent
                ≡ (after events session).sent)))
closed_once_example =
    closed_once (create_stub next_at) refuse_all no_payload events (some (1 ∷ []) ∷ []) session refl
