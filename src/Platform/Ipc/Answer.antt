-- ===== src/Platform/Ipc/Answer.antt =====
-- What a client of a local service gets.
use mathlib.Core.List.{append-nil}
use ram_vram_sharing.Prelude.{
  ℕ, ◌+◌, ◌%◌, ◌≤◌, ◌<◌, ◌≡◌, refl, sym, ap, ◌∙◌, true, false, List, [], ◌∷◌, ◌++◌, arith, ltb, leb,
  ◌==◌, if◌then◌else◌, length, take, drop, length-append,
}
use ram_vram_sharing.Platform.Ipc.{
  max_ipc_message_bytes, u32_mod, Outcome, read_exact, write_exact, encode_u32, decode_u32,
  set_sun_path, serve_client, send_request,
}
use ram_vram_sharing.Platform.Ipc.Exchange.{
  steady, take-length, pos, ReadsAll, read_exact_lem, write_exact_lem,
}

decode-encode : (n : ℕ) → n < u32_mod → decode_u32 (encode_u32 n) ≡ n
unfolding decode_u32 encode_u32
decode-encode n h = omega arith

take-encode : (n : ℕ) (xs : List ℕ) → take 4 (encode_u32 n ++ xs) ≡ encode_u32 n
unfolding encode_u32
take-encode n xs = refl

drop-encode : (n : ℕ) (xs : List ℕ) → drop 4 (encode_u32 n ++ xs) ≡ xs
unfolding encode_u32
drop-encode n xs = refl

length-encode : (n : ℕ) → length (encode_u32 n) ≡ 4
unfolding encode_u32
length-encode n = refl

-- A message behind its length is read as it was written.
record Received (os : List Outcome) (xs : List ℕ) : Type 0 where
  header : (read_exact os 4 (encode_u32 (length xs) ++ xs)).complete ≡ true
  size : decode_u32 (read_exact os 4 (encode_u32 (length xs) ++ xs)).bytes ≡ length xs
  rest : (read_exact os 4 (encode_u32 (length xs) ++ xs)).waiting ≡ xs
  body :
      ReadsAll
        (read_exact os 4 (encode_u32 (length xs) ++ xs)).left
        (length xs)
        xs
        (read_exact (read_exact os 4 (encode_u32 (length xs) ++ xs)).left (length xs) xs)
  whole :
      (read_exact (read_exact os 4 (encode_u32 (length xs) ++ xs)).left (length xs) xs).bytes ≡ xs
  spare :
      steady os
      ≤ 4
        + length xs
        + steady
            (read_exact (read_exact os 4 (encode_u32 (length xs) ++ xs)).left (length xs) xs).left

received :
    (os : List Outcome) (xs : List ℕ)
    → length xs < u32_mod
    → 4 + length xs ≤ steady os
    → Received os xs
received os xs h s =
    let e = encode_u32 (length xs) in
    let p =
      read_exact_lem os 4 (e ++ xs) (omega arith)
        (omega (arith, length-append e xs, length-encode (length xs))) in
    let b =
      read_exact_lem (read_exact os 4 (e ++ xs)).left (length xs) xs (omega (arith, p.left))
        (omega arith) in
    record {
      header = p.complete;
      size = ap decode_u32 (p.bytes ∙ take-encode (length xs) xs) ∙ decode-encode (length xs) h;
      rest = p.waiting ∙ drop-encode (length xs) xs;
      body = b;
      whole = b.bytes ∙ take-length xs;
      spare = omega (arith, p.left, b.left);
    }

-- An empty response is its length alone.
both : (e xs : List ℕ) → (if length xs == 0 then e else e ++ xs) ≡ e ++ xs
both e [] = sym (append-nil e)
both e (x ∷ xs) = rw (pos (length xs)) refl

serve_lem :
    (os : List Outcome) (handler : List ℕ → List ℕ) (req : List ℕ)
    → length req ≤ max_ipc_message_bytes
    → length (handler req) < u32_mod
    → 8 + length req + length (handler req) ≤ steady os
    → serve_client os handler (encode_u32 (length req) ++ req)
      ≡ encode_u32 (length (handler req)) ++ handler req
unfolding serve_client
serve_lem os handler req small h s =
    let r = received os req (omega arith) (omega arith) in
    let resp = handler req in
    let e = encode_u32 (length resp) in
    let l0 =
      (read_exact (read_exact os 4 (encode_u32 (length req) ++ req)).left (length req) req).left in
    let first = write_exact_lem l0 e (omega (arith, r.spare, length-encode (length resp))) in
    let second =
      write_exact_lem (write_exact l0 e).left resp
        (omega (arith, first.left, r.spare, length-encode (length resp))) in
    let fits : ltb max_ipc_message_bytes (length req) ≡ false = ground arith in
    let exact : length resp % u32_mod ≡ length resp = omega arith in
    rw
      (
        serve_client, r.header, r.rest, r.size, fits, r.body.complete, r.whole, exact,
        first.complete, first.sent, second.sent,
      )
      (both e resp)

last :
    (xs : List ℕ)
    → (if ltb max_ipc_message_bytes (length xs) then [] else if length xs == 0 then [] else xs)
      ≡ (if leb (length xs) max_ipc_message_bytes then xs else [])
last [] = refl
last (x ∷ xs) = ground arith

-- A request that is not too long is answered with what the handler of the other side makes of it, or
-- with the empty list when that is too long: however many bytes each read and write moves, and
-- however often one is interrupted, as long as none of the first calls fails, on either side, whose
-- number is that of the bytes to be moved. The name of the socket is assumed to fit, and the response
-- to be shorter than 4 GiB.
pub send_request-serve_client :
    (os os' : List Outcome) (handler : List ℕ → List ℕ) (name req : List ℕ)
    → set_sun_path name ≡ true
    → length req ≤ max_ipc_message_bytes
    → length (handler req) < u32_mod
    → 8 + length req + length (handler req) ≤ steady os
    → 8 + length req + length (handler req) ≤ steady os'
    → send_request os true (serve_client os' handler) name req
      ≡ (if leb (length (handler req)) max_ipc_message_bytes then handler req else [])
unfolding send_request
send_request-serve_client os os' handler name req named small h s s' =
    let resp = handler req in
    let e = encode_u32 (length req) in
    let fits : ltb max_ipc_message_bytes (length req) ≡ false = ground arith in
    let exact : length req % u32_mod ≡ length req = omega arith in
    let first = write_exact_lem os e (omega (arith, length-encode (length req))) in
    let l1 = (write_exact os e).left in
    let second = write_exact_lem l1 req (omega (arith, first.left, length-encode (length req))) in
    let l2 = (write_exact l1 req).left in
    let r =
      received l2 resp h (omega (arith, first.left, second.left, length-encode (length req))) in
    let served = serve_lem os' handler req small h s' in
    rw
      (
        send_request, fits, named, exact, first.complete, second.complete, first.sent, second.sent,
        served, r.header, r.size, r.rest, r.body.complete, r.whole,
      )
      (last resp)
