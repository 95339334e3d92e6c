-- ===== src/Memory/Protocol/Refusal.antt =====
-- Requests on handles that belong to another session.
use mathlib.Core.Path.{subst}
use ram_vram_sharing.Prelude.{
  ℕ, ◌<◌, ◌≡◌, refl, sym, ◌≢◌, inl, inr, true, none, some, List, ltb, ◌==◌, Bool-cases, length,
  lookup,
}
use ram_vram_sharing.Common.Crc.{crc32c}
use ram_vram_sharing.Memory.Raw.{data_of, permission_denied, throw}
use ram_vram_sharing.Memory.Tracker.{Allocation, Tracker, denies}
use ram_vram_sharing.Memory.Tracker.Access.{foreign, write_lem, read_lem}
use ram_vram_sharing.Memory.Tracker.Ownership.{free_foreign}
use ram_vram_sharing.Memory.Tracker.Invariant.{IsValid}
use ram_vram_sharing.Memory.Protocol.{
  OpCode, alloc, write_op, read_op, free_op, ping, unsupported, StatusCode, status_ok,
  error_generic, checksum_mismatch, version_mismatch, Request, Response, max_message_size,
  check_protocol_version, build_response, plain, status_of, answer, finish_read, do_write, dispatch,
  process_verified,
}

-- A request that would free the handle, or read or write at least one byte of it.
abbrev pub Reaches : OpCode → Request → Type 0
Reaches free_op req = Unit
Reaches read_op req = 0 < req.size
Reaches write_op req = (bytes : List ℕ) × (req.payload ≡ some bytes) × (0 < length bytes)
Reaches _ req = ⊥

abbrev Refused : Tracker → Tracker × Response → Type 0
Refused t r = (r.0 ≡ t) × (r.1.payload ≡ none) × (r.1.status ≢ status_ok)

answer-Refused : (req : Request) (t : Tracker) → Refused t (answer req (t, throw permission_denied))
unfolding build_response status_of
answer-Refused req t = (refl, refl, λ e. cc)

plain-Refused :
    (req : Request) (t : Tracker) (s : StatusCode) → s ≢ status_ok → Refused t (t, plain req s)
unfolding build_response
plain-Refused req t s h = (refl, refl, h)

write-Refused :
    (t : Tracker) (req : Request) (session : ℕ) (a : Allocation) (bytes : List ℕ)
    → IsValid t
    → lookup req.handle t.allocations ≡ some a
    → denies a session ≡ true
    → 0 < length bytes
    → Refused t (do_write req session t (some bytes))
unfolding do_write
write-Refused t req session a bytes v e d p = elim (Bool-cases (crc32c bytes 0 == req.checksum)) [
  | inl c ↦
      rw
        (
          c,
          write_lem t req.handle req.offset (length bytes) session (data_of bytes) v p
              (foreign a e d),
        )
        (answer-Refused req t)
  | inr c ↦ rw c (plain-Refused req t checksum_mismatch (λ x. cc))
]

read-Refused :
    (t : Tracker) (req : Request) (session : ℕ) (a : Allocation)
    → IsValid t
    → lookup req.handle t.allocations ≡ some a
    → denies a session ≡ true
    → 0 < req.size
    → Refused t (dispatch read_op req session t)
unfolding dispatch finish_read
read-Refused t req session a v e d p = elim (Bool-cases (ltb max_message_size req.size)) [
  | inl c ↦ rw c (plain-Refused req t error_generic (λ x. cc))
  | inr c ↦
      rw (c, read_lem t req.handle req.offset req.size session (λ _. 0) v p (foreign a e d))
        (answer-Refused req t)
]

free-Refused :
    (t : Tracker) (req : Request) (session : ℕ) (a : Allocation)
    → lookup req.handle t.allocations ≡ some a
    → denies a session ≡ true
    → Refused t (dispatch free_op req session t)
unfolding dispatch
free-Refused t req session a e d =
    rw (free_foreign t req.handle session a e d) (answer-Refused req t)

dispatch-Refused :
    (op : OpCode) (t : Tracker) (req : Request) (session : ℕ) (a : Allocation)
    → IsValid t
    → lookup req.handle t.allocations ≡ some a
    → denies a session ≡ true
    → Reaches op req
    → Refused t (dispatch op req session t)
dispatch-Refused free_op t req session a v e d h = free-Refused t req session a e d
dispatch-Refused read_op t req session a v e d h = read-Refused t req session a v e d h
dispatch-Refused write_op t req session a v e d (bytes, q, p) =
    unfold dispatch in
    subst (λ x. Refused t (do_write req session t x)) (sym q)
      (write-Refused t req session a bytes v e d p)
dispatch-Refused alloc t req session a v e d h = absurd h
dispatch-Refused ping t req session a v e d h = absurd h
dispatch-Refused (unsupported c) t req session a v e d h = absurd h

-- On a valid tracker a request on a handle that belongs to another session changes nothing, is not
-- answered OK and gets no data, whether it frees the handle or reads or writes at least one byte
-- of it.
pub foreign_refused :
    (t : Tracker) (req : Request) (session : ℕ) (a : Allocation)
    → IsValid t
    → lookup req.handle t.allocations ≡ some a
    → denies a session ≡ true
    → Reaches req.op req
    → let r = process_verified req session t in
      (r.0 ≡ t) × (r.1.payload ≡ none) × (r.1.status ≢ status_ok)
unfolding process_verified
foreign_refused t req session a v e d h =
    elim (Bool-cases (check_protocol_version req.protocol_version)) [
      | inr c ↦ rw c (plain-Refused req t version_mismatch (λ x. cc))
      | inl c ↦ rw c (dispatch-Refused req.op t req session a v e d h)
    ]
