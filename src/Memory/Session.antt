-- ===== src/Memory/Session.antt =====
-- memoryd/src/client_session.cpp: the framing of the byte stream of one connection. FlatBuffers'
-- reader is the parameter `decode`, and its GetPrefixedSize, the length prefix of a buffer, is
-- `prefix_of`. uv_close is counted: libuv aborts the process when a handle is closed twice.
pub mod Framing
pub mod Closing
mod Tests
use ram_vram_sharing.Prelude.{
  ℕ, zero, suc, ◌+◌, ◌-◌, Option, none, some, List, ◌∷◌, ◌++◌, ltb, leb, ◌==◌, if◌then◌else◌,
  length, take, drop,
}
use ram_vram_sharing.Memory.Tracker.{Tracker}
use ram_vram_sharing.Memory.Protocol.{Request, Response, max_message_size, process_request}

pub record Session : Type 0 where
  pub read_buffer : List ℕ
  pub closes : ℕ
  pub sent : List Response
  pub tracker : Tracker

-- send_response: nothing goes out on a connection that is closing. Newest first.
pub send_response : Response → Session → Session
send_response r s = if s.closes == 0 then record s { sent = r ∷ s.sent } else s

abbrev pub respond : Session → Tracker × Option Response → Session
respond s (t, none) = record s { tracker = t; closes = suc s.closes }
respond s (t, some r) = send_response r (record s { tracker = t })

module _ (decode : List ℕ → Option Request) (prefix_of : List ℕ → ℕ) (session_id : ℕ) where
  pub handle_request : List ℕ → Session → Session
  unfolding send_response
  handle_request frame s = respond s (process_request decode frame session_id s.tracker)

  -- A frame is handled, and `rest` stays in the buffer.
  pub consume_frame : List ℕ → List ℕ → Session → Session
  unfolding handle_request
  consume_frame frame rest s = let s' = handle_request frame s in record s' { read_buffer = rest }

  -- One round of the loop on a buffer that holds a whole frame.
  pub consume : Session → Session
  consume s =
      let n = prefix_of s.read_buffer + 4 in
      consume_frame (take n s.read_buffer) (drop n s.read_buffer) s

  -- The loop of process_buffer. A round takes four bytes or more, so the length of the buffer is
  -- fuel enough.
  pub process_loop : ℕ → Session → Session
  process_loop zero s = s
  process_loop (suc f) s =
      let rest = process_loop f (consume s) in
      let size = prefix_of s.read_buffer in
      if ltb (length s.read_buffer) 4
      then s
      else if ltb max_message_size size
      then record s { closes = suc s.closes }
      else if leb size (length s.read_buffer - 4)
      then rest
      else s

  pub process_buffer : Session → Session
  process_buffer s = process_loop (length s.read_buffer) s

  -- on_read with nread > 0.
  pub on_data : List ℕ → Session → Session
  on_data chunk s = process_buffer (record s { read_buffer = s.read_buffer ++ chunk })
