-- ===== src/Memory/Protocol/Service.antt =====
-- What a session is answered: its own data back.
use mathlib.Core.Path.{ap₂}
use ram_vram_sharing.Prelude.{
  ℕ, zero, suc, ◌+◌, ◌≤◌, ◌<◌, ◌≡◌, refl, sym, ap, ◌∙◌, true, none, some, List, [], ◌∷◌, arith, ltb,
  ◌==◌, if◌then◌else◌, lt→ltb, length, get_or,
}
use ram_vram_sharing.Common.Crc.{crc32c}
use ram_vram_sharing.Memory.Raw.{
  Bytes, shift, data_of, bad_alloc, invalid_argument, out_of_range, runtime_error,
  permission_denied, Result, ok, throw,
}
use ram_vram_sharing.Memory.Tracker.{Tracker, write, read}
use ram_vram_sharing.Memory.Tracker.Isolation.{read_after_write}
use ram_vram_sharing.Memory.Tracker.Invariant.{IsValid}
use ram_vram_sharing.Memory.Protocol.Invariant.{answer_state}
use ram_vram_sharing.Memory.Protocol.{
  write_op, read_op, status_ok, Request, max_message_size, build_response, status_of, answer,
  vector_of, finish_read, do_write, dispatch, process_verified,
}

add-one_left : (i : ℕ) → 1 + i ≡ suc i
add-one_left i = omega arith

pub vector_of-congr :
    (n : ℕ) (p p' : Bytes) → ((i : ℕ) → i < n → p i ≡ p' i) → vector_of n p ≡ vector_of n p'
unfolding vector_of
vector_of-congr zero p p' h = refl
vector_of-congr (suc n) p p' h =
    ap₂ ◌∷◌ (h 0 (omega arith))
      (vector_of-congr n (shift p 1) (shift p' 1) (λ i l. h (1 + i) (omega arith)))

shift_data : (x : ℕ) (xs : List ℕ) (i : ℕ) → shift (data_of (x ∷ xs)) 1 i ≡ data_of xs i
shift_data x xs i = ap (λ k. get_or (x ∷ xs) k 0) (add-one_left i)

pub vector_of-data_of : (xs : List ℕ) → vector_of (length xs) (data_of xs) ≡ xs
unfolding vector_of
vector_of-data_of [] = refl
vector_of-data_of (x ∷ xs) =
    ap (◌∷◌ x) (vector_of-congr (length xs) _ _ (λ i _. shift_data x xs i) ∙ vector_of-data_of xs)

-- A WRITE and a READ request for the same range of a handle.
abbrev pub write_request : ℕ → ℕ → ℕ → List ℕ → Request
write_request id handle offset bytes = record {
  protocol_version = 1;
  request_id = id;
  op = write_op;
  handle = handle;
  size = 0;
  offset = offset;
  payload = some bytes;
  checksum = crc32c bytes 0;
}

abbrev pub read_request : ℕ → ℕ → ℕ → ℕ → Request
read_request id handle offset size = record {
  protocol_version = 1;
  request_id = id;
  op = read_op;
  handle = handle;
  size = size;
  offset = offset;
  payload = none;
  checksum = 0;
}

answer_ok :
    (req : Request) (r : Tracker × Result (Unit {0}))
    → (answer req r).1.status ≡ status_ok
    → r.1 ≡ ok tt
unfolding build_response status_of
answer_ok req (t, ok _) e = refl
answer_ok req (t, throw bad_alloc) e = absurd (cc)
answer_ok req (t, throw invalid_argument) e = absurd (cc)
answer_ok req (t, throw out_of_range) e = absurd (cc)
answer_ok req (t, throw runtime_error) e = absurd (cc)
answer_ok req (t, throw permission_denied) e = absurd (cc)

eq_self : (n : ℕ) → (n == n) ≡ true
eq_self n = ground arith

write-answer :
    (t : Tracker) (session id handle offset : ℕ) (bytes : List ℕ)
    → process_verified (write_request id handle offset bytes) session t
      ≡ answer
          (write_request id handle offset bytes)
          (write handle offset (data_of bytes) (length bytes) session t)
unfolding process_verified dispatch do_write
write-answer t session id handle offset bytes = rw (eq_self (crc32c bytes 0))

read_answer :
    (t : Tracker) (session id handle offset size : ℕ)
    → size ≤ max_message_size
    → (process_verified (read_request id handle offset size) session t).1
      ≡ (finish_read
          (read_request id handle offset size)
          t
          (read handle offset (λ _. 0) size session t)).1
unfolding process_verified dispatch
read_answer t session id handle offset size small = ground arith

finish_read_lem :
    (req : Request) (t : Tracker) (out : Bytes) (bytes : List ℕ)
    → vector_of req.size out ≡ bytes
    → (finish_read req t (ok out)).1 ≡ build_response req status_ok 0 bytes (crc32c bytes 0)
unfolding finish_read
finish_read_lem req t out bytes e = ap (λ x. build_response req status_ok 0 x (crc32c x 0)) e

-- A payload written by a session is what it reads back: when a WRITE of at least one byte and at
-- most the maximal message size, with a matching checksum, is answered OK on a valid tracker, a
-- READ of the same range by the same session is answered OK with that payload and its checksum.
pub read_back :
    (t : Tracker) (session id id' handle offset : ℕ) (b : ℕ) (bs : List ℕ)
    → IsValid t
    → length (b ∷ bs) ≤ max_message_size
    → (process_verified (write_request id handle offset (b ∷ bs)) session t).1.status ≡ status_ok
    → let t' = (process_verified (write_request id handle offset (b ∷ bs)) session t).0 in
      (process_verified (read_request id' handle offset (length (b ∷ bs))) session t').1 ≡ record {
        request_id = id';
        status = status_ok;
        handle = 0;
        payload = some (b ∷ bs);
        checksum = crc32c (b ∷ bs) 0;
      }
read_back t session id id' handle offset b bs v small done =
    let bytes = b ∷ bs in
    let n = length bytes in
    let req = write_request id handle offset bytes in
    let r = write handle offset (data_of bytes) n session t in
    let sent = write-answer t session id handle offset bytes in
    let stored_ : r.1 ≡ ok tt = answer_ok req r (ap (λ x. x.1.status) (sym sent) ∙ done) in
    let back = read_after_write t handle offset n session (data_of bytes) (λ _. 0) v stored_ in
    let same =
      vector_of-congr n (λ j. if ltb j n then data_of bytes j else 0) (data_of bytes)
        (λ i l. rw (lt→ltb l))
      ∙ vector_of-data_of bytes in
    ap (λ x. (process_verified (read_request id' handle offset n) session x.0).1) sent
    ∙ ap (λ x. (process_verified (read_request id' handle offset n) session x).1)
        (answer_state req r)
    ∙ read_answer r.0 session id' handle offset n small
    ∙ ap (λ x. (finish_read (read_request id' handle offset n) r.0 x).1) back
    ∙ finish_read_lem (read_request id' handle offset n) r.0 _ bytes same
    ∙ unfold build_response in refl
