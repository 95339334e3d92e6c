-- ===== src/Memory/Session/Tests.antt =====
-- A stream whose length prefix is its first byte, over a reader that accepts nothing.
use ram_vram_sharing.Prelude.{
  ℕ, ◌≤◌, ◌≡◌, refl, Option, none, some, List, [], ◌∷◌, ◌++◌, arith, length,
}
use ram_vram_sharing.Memory.Tracker.Tests.{busy_tracker}
use ram_vram_sharing.Memory.Protocol.{ping, Request, process_request}
use ram_vram_sharing.Memory.Session.{
  Session, consume_frame, consume, process_loop, process_buffer, on_data,
}
use ram_vram_sharing.Memory.Session.Framing.{on_data-append}
use ram_vram_sharing.Memory.Session.Closing.{closed_twice}

abbrev refuse_all : List ℕ → Option Request
refuse_all frame = none

abbrev ping_all : List ℕ → Option Request
ping_all frame = some (record {
  protocol_version = 1;
  request_id = 3;
  op = ping;
  handle = 0;
  size = 0;
  offset = 0;
  payload = none;
  checksum = 0;
})

abbrev first_byte : List ℕ → ℕ
first_byte [] = 0
first_byte (b ∷ bs) = b

first_byte-append : (xs ys : List ℕ) → 4 ≤ length xs → first_byte (xs ++ ys) ≡ first_byte xs
first_byte-append [] ys h = absurd (omega (arith, h))
first_byte-append (b ∷ xs) ys h = refl

abbrev fresh_session : Session
fresh_session = record { read_buffer = []; closes = 0; sent = []; tracker = busy_tracker }

abbrev empty_frame : List ℕ
empty_frame = 0 ∷ 0 ∷ 0 ∷ 0 ∷ []

pings_open : (on_data ping_all first_byte 7 (0 ∷ 0 ∷ 0 ∷ 0 ∷ 0 ∷ []) fresh_session).closes ≡ 0
unfolding on_data process_buffer process_loop consume consume_frame process_request
pings_open = refl

on_data-append_example :
    on_data ping_all first_byte 7
      (0 ∷ 0 ∷ 0 ∷ [])
      (on_data ping_all first_byte 7 (0 ∷ 0 ∷ 0 ∷ 0 ∷ 0 ∷ []) fresh_session)
    ≡ on_data ping_all first_byte 7 (0 ∷ 0 ∷ 0 ∷ 0 ∷ 0 ∷ 0 ∷ 0 ∷ 0 ∷ []) fresh_session
on_data-append_example =
    on_data-append ping_all first_byte 7 first_byte-append fresh_session (0 ∷ 0 ∷ 0 ∷ 0 ∷ 0 ∷ [])
      (0 ∷ 0 ∷ 0 ∷ []) pings_open

closed_twice_example :
    (on_data refuse_all first_byte 7 (empty_frame ++ empty_frame) fresh_session).closes ≡ 2
closed_twice_example =
    closed_twice refuse_all first_byte 7 first_byte-append fresh_session empty_frame empty_frame
      refl (refl, omega arith, refl) (refl, omega arith, refl)
