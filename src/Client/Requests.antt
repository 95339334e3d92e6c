-- ===== src/Client/Requests.antt =====
-- memclient/src/client_api.cpp: the answers of one peer, and the requests that wait for them.
-- FlatBuffers is the parameters: `prefix_of` is GetPrefixedSize, and `verified_id` the verifier with
-- the request id of the response that it accepts. A context is named by a number of its own.
pub mod Promises
mod Tests
use ram_vram_sharing.Prelude.{
  ℕ, zero, suc, ◌+◌, ◌-◌, Bool, false, Option, none, some, List, [], ◌∷◌, ◌++◌, ltb, leb, ◌==◌,
  if◌then◌else◌, length, take, drop, lookup, erase, assign,
}
use ram_vram_sharing.Memory.Protocol.{max_message_size}

-- `resolved` holds the contexts whose promise was set, with the bytes, newest first; `closes` counts
-- the calls of uv_close for the peer's handle.
pub record Answers : Type 0 where
  pub read_buffer : List ℕ
  pub pending_requests : List (ℕ × ℕ)
  pub resolved : List (ℕ × List ℕ)
  pub connected : Bool
  pub socket : Bool
  pub closes : ℕ

-- The entry that sync_remote_call makes.
abbrev pub register : ℕ → ℕ → Answers → Answers
register request_id ctx s = record s { pending_requests = assign request_id ctx s.pending_requests }

-- A response: its context, if one waits, leaves the map and has its promise set.
pub resolve : ℕ → List ℕ → Answers → Answers
resolve id frame s = elim (lookup id s.pending_requests) [
  | none ↦ s
  | some ctx ↦ record s {
    pending_requests = erase id s.pending_requests;
    resolved = (ctx, frame) ∷ s.resolved;
  }
]

-- Every context of the map, with the empty buffer.
pub dropped : List (ℕ × ℕ) → List (ℕ × List ℕ)
dropped [] = []
dropped ((id, ctx) ∷ m) = (ctx, []) ∷ dropped m

unfoldable pub fail_pending_requests : Answers → Answers
unfolding dropped
fail_pending_requests s = record s {
  pending_requests = [];
  resolved = dropped s.pending_requests ++ s.resolved;
}

-- on_peer_read with nread < 0.
unfoldable pub on_drop : Answers → Answers
unfolding fail_pending_requests
on_drop s =
    let s' = fail_pending_requests (record s { connected = false }) in
    if s.closes == 0 then record s' { socket = false; closes = suc s.closes } else s'

module _ (prefix_of : List ℕ → ℕ) (verified_id : List ℕ → Option ℕ) where
  -- A whole frame: `none` is one that the verifier refuses.
  pub take_frame : List ℕ → List ℕ → Answers → Option Answers
  unfolding resolve
  take_frame frame rest s = elim (verified_id frame) [
    | none ↦ none
    | some id ↦ some (record (resolve id frame s) { read_buffer = rest })
  ]

  -- The loop of on_peer_read. A round takes four bytes or more.
  pub read_loop : ℕ → Answers → Answers
  unfolding take_frame
  read_loop zero s = s
  read_loop (suc f) s =
      let size = prefix_of s.read_buffer in
      let n = size + 4 in
      let next : Answers = elim (take_frame (take n s.read_buffer) (drop n s.read_buffer) s) [
        | none ↦ record s { closes = suc s.closes }
        | some s' ↦ read_loop f s'
      ] in
      if ltb (length s.read_buffer) 4
      then s
      else if ltb max_message_size size
      then record s { closes = suc s.closes }
      else if leb size (length s.read_buffer - 4)
      then next
      else s

  -- on_peer_read with nread > 0.
  unfoldable pub on_data : List ℕ → Answers → Answers
  unfolding read_loop
  on_data chunk s =
      let s' = record s { read_buffer = s.read_buffer ++ chunk } in
      read_loop (length s'.read_buffer) s'
