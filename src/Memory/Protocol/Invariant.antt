-- ===== src/Memory/Protocol/Invariant.antt =====
-- Every request leaves the tracker valid, and the next handle never steps back.
use ram_vram_sharing.Prelude.{
  ℕ, zero, suc, ◌+◌, ◌<◌, ◌≡◌, refl, inl, inr, Option, none, some, List, arith, ltb, ◌==◌,
  Bool-cases, u64_mod, length,
}
use ram_vram_sharing.Common.Crc.{crc32c}
use ram_vram_sharing.Memory.Raw.{Bytes, data_of, Result, ok, throw}
use ram_vram_sharing.Memory.Tracker.{Tracker, allocate, assign_owner, write, read}
use ram_vram_sharing.Memory.Tracker
use ram_vram_sharing.Memory.Tracker.Invariant.{IsValid}
use ram_vram_sharing.Memory.Tracker.Allocate.{allocate_lem}
use ram_vram_sharing.Memory.Tracker.Isolation.{write-IsValid}
use ram_vram_sharing.Memory.Tracker.Ownership.{assign_owner-IsValid, free-IsValid}
use ram_vram_sharing.Memory.Protocol.{
  answer, dispatch, finish_read, finish_alloc, do_write, OpCode, alloc, write_op, read_op, free_op,
  ping, unsupported, Request, max_message_size, check_protocol_version, process_verified,
}

allocate-IsValid :
    (size : ℕ) (t : Tracker) → IsValid t → t.next_handle + 1 < u64_mod → IsValid (allocate size t).0
allocate-IsValid zero t v w = unfold allocate in v
allocate-IsValid (suc n) t v w = elim (allocate_lem t (suc n) v (omega arith) w) [
  | inl (_, e) ↦ rw e v
  | inr (s, ps, e, v', _, _) ↦ rw e v'
]

pub answer_state : (req : Request) (r : Tracker × Result (Unit {0})) → (answer req r).0 ≡ r.0
answer_state req (t, ok _) = refl
answer_state req (t, throw e) = refl

finish_read_state : (req : Request) (t : Tracker) (r : Result Bytes) → (finish_read req t r).0 ≡ t
unfolding finish_read
finish_read_state req t (ok out) = refl
finish_read_state req t (throw e) = refl

finish_alloc-IsValid :
    (req : Request) (session : ℕ) (r : Tracker × Result ℕ)
    → IsValid r.0
    → IsValid (finish_alloc req session r).0
unfolding finish_alloc
finish_alloc-IsValid req session (t, ok h) v = assign_owner-IsValid t h session v
finish_alloc-IsValid req session (t, throw e) v = v

do_write-IsValid :
    (req : Request) (session : ℕ) (t : Tracker) (p : Option (List ℕ))
    → IsValid t
    → IsValid (do_write req session t p).0
unfolding do_write
do_write-IsValid req session t none v = v
do_write-IsValid req session t (some bytes) v = elim (Bool-cases (crc32c bytes 0 == req.checksum)) [
  | inl e ↦
      rw
        (e, answer_state req (write req.handle req.offset (data_of bytes) (length bytes) session t))
        (write-IsValid t req.handle req.offset (length bytes) session (data_of bytes) v)
  | inr e ↦ rw e v
]

dispatch-IsValid :
    (op : OpCode) (req : Request) (session : ℕ) (t : Tracker)
    → IsValid t
    → t.next_handle + 1 < u64_mod
    → IsValid (dispatch op req session t).0
unfolding dispatch
dispatch-IsValid alloc req session t v w =
    finish_alloc-IsValid req session (allocate req.size t) (allocate-IsValid req.size t v w)
dispatch-IsValid free_op req session t v w =
    rw (answer_state req (Tracker.free req.handle session t)) (free-IsValid t req.handle session v)
dispatch-IsValid write_op req session t v w = do_write-IsValid req session t req.payload v
dispatch-IsValid read_op req session t v w = elim (Bool-cases (ltb max_message_size req.size)) [
  | inl e ↦ rw e v
  | inr e ↦
      rw (e, finish_read_state req t (read req.handle req.offset (λ _. 0) req.size session t)) v
]
dispatch-IsValid ping req session t v w = v
dispatch-IsValid (unsupported c) req session t v w = v

-- A request of any kind, from any session, keeps a valid tracker valid, as long as the next handle
-- does not wrap.
pub process_verified-IsValid :
    (req : Request) (session : ℕ) (t : Tracker)
    → IsValid t
    → t.next_handle + 1 < u64_mod
    → IsValid (process_verified req session t).0
unfolding process_verified
process_verified-IsValid req session t v w =
    elim (Bool-cases (check_protocol_version req.protocol_version)) [
      | inl e ↦ rw e (dispatch-IsValid req.op req session t v w)
      | inr e ↦ rw e v
    ]
