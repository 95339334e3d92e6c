-- ===== src/Gpu/Client/Remote.antt =====
-- The calls of a client that is connected to a gpud.
use ram_vram_sharing.Prelude.{ℕ, Option, List}
use ram_vram_sharing.Memory.Protocol.{vector_of}
use ram_vram_sharing.Gpu.Protocol.{GpuRequest, cuda, GpuResponse, Executor, build_response}
use ram_vram_sharing.Gpu.Client.{d_to_h_request}

module _ {E : Type 0} (executor : Executor E) (encode : GpuRequest → List ℕ)
    (decode : List ℕ → Option GpuRequest) (prefix_of : List ℕ → ℕ) where
  -- The response to a copy from the device.
  abbrev fetched : ℕ → ℕ → ℕ → E → GpuResponse
  fetched src size id e =
      let (err, taken) = executor.memcpy_d_to_h (λ _. 0) src size e in
      build_response (d_to_h_request src size id) (cuda err) 0 (vector_of size taken)
