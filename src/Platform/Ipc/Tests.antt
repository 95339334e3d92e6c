-- ===== src/Platform/Ipc/Tests.antt =====
-- A request of two bytes over connections that move one byte at a time.
use ram_vram_sharing.Prelude.{
  ℕ, zero, suc, ◌+◌, ◌≡◌, refl, true, List, [], ◌∷◌, map, arith, leb, if◌then◌else◌, length,
}
use ram_vram_sharing.Platform.Ipc.{
  max_ipc_message_bytes, Outcome, moved, interrupted, read_exact, write_exact, encode_u32,
  decode_u32, set_sun_path, serve_client, send_request,
}
use ram_vram_sharing.Platform.Ipc.Answer.{send_request-serve_client}

-- So many calls, each of which is interrupted once before it moves a byte.
bytewise : ℕ → List Outcome
bytewise zero = []
bytewise (suc n) = interrupted ∷ moved 0 ∷ bytewise n

abbrev doubled : List ℕ → List ℕ
doubled = map (λ x. x + x)

abbrev name : List ℕ
name = 47 ∷ 115 ∷ []

abbrev request : List ℕ
request = 5 ∷ 6 ∷ []

send_request-serve_client_example :
    send_request (bytewise 12) true (serve_client (bytewise 12) doubled) name request
    ≡ (if leb (length (doubled request)) max_ipc_message_bytes then doubled request else [])
unfolding bytewise set_sun_path
send_request-serve_client_example =
    send_request-serve_client (bytewise 12) (bytewise 12) doubled name request refl (omega arith)
      (omega arith) (omega arith) (omega arith)

request_run :
    send_request (bytewise 12) true (serve_client (bytewise 12) doubled) name request ≡ 10 ∷ 12 ∷ []
unfolding bytewise send_request serve_client read_exact write_exact encode_u32 decode_u32
    set_sun_path
request_run = refl
