-- ===== src/Gpu/Session.antt =====
-- gpud/src/gpu_session.cpp: the framing of the byte stream of one connection, with the test of
-- uv_is_closing before each uv_close. `closes` counts the calls of uv_close.
pub mod Closing
use ram_vram_sharing.Prelude.{
  ℕ, zero, suc, ◌+◌, ◌-◌, Option, none, some, List, ◌∷◌, ◌++◌, ltb, leb, ◌==◌, if◌then◌else◌,
  length, take, drop,
}
use ram_vram_sharing.Memory.Protocol.{max_message_size}
use ram_vram_sharing.Gpu.Protocol.{GpuRequest, GpuResponse, Executor, process_request}

pub record GpuSession (E : Type 0) : Type 0 where
  pub read_buffer : List ℕ
  pub closes : ℕ
  pub sent : List GpuResponse
  pub executor_state : E

-- uv_close, unless the handle is closing.
abbrev pub close_once : {E : Type 0} → GpuSession E → GpuSession E
close_once s = if s.closes == 0 then record s { closes = 1 } else s

abbrev pub respond : {E : Type 0} → GpuSession E → E × Option GpuResponse → GpuSession E
respond s (e, none) = close_once (record s { executor_state = e })
respond s (e, some r) =
    if s.closes == 0
    then record s { executor_state = e; sent = r ∷ s.sent }
    else record s { executor_state = e }

module _ {E : Type 0} (executor : Executor E) (decode : List ℕ → Option GpuRequest)
    (prefix_of : List ℕ → ℕ) where
  unfoldable pub handle_request : List ℕ → GpuSession E → GpuSession E
  handle_request frame s = respond s (process_request executor decode frame s.executor_state)

  unfoldable pub consume : GpuSession E → GpuSession E
  unfolding handle_request
  consume s =
      let n = prefix_of s.read_buffer + 4 in
      let s' = handle_request (take n s.read_buffer) s in
      record s' { read_buffer = drop n s.read_buffer }

  -- The loop of process_buffer. A round takes four bytes or more, so the length of the buffer is
  -- fuel enough.
  unfoldable pub process_loop : ℕ → GpuSession E → GpuSession E
  unfolding consume
  process_loop zero s = s
  process_loop (suc f) s =
      let rest = process_loop f (consume s) in
      let size = prefix_of s.read_buffer in
      if ltb (length s.read_buffer) 4
      then s
      else if ltb max_message_size size
      then close_once s
      else if leb size (length s.read_buffer - 4)
      then rest
      else s

  unfoldable pub process_buffer : GpuSession E → GpuSession E
  unfolding process_loop
  process_buffer s = process_loop (length s.read_buffer) s

  -- on_read: bytes that arrived, or the end of the stream or an error.
  unfoldable pub on_read : Option (List ℕ) → GpuSession E → GpuSession E
  unfolding process_buffer
  on_read (some chunk) s = process_buffer (record s { read_buffer = s.read_buffer ++ chunk })
  on_read none s = close_once s
