-- ===== src/Memory/Tracker/Access.antt =====
-- PageTracker::write and PageTracker::read.
use mathlib.Core.Path.{fun_ext}
use native.Mathlib.Nat.{add-zero}
use ram_vram_sharing.Prelude.{
  ℕ, ◌+◌, ◌≤◌, ◌<◌, ◌≡◌, ap, ◌∙◌, inl, inr, true, false, none, some, arith, ltb, if◌then◌else◌,
  Bool-cases, Option-cases, lookup,
}
use ram_vram_sharing.Memory.Raw.{
  Bytes, invalid_argument, out_of_range, permission_denied, ok, throw,
}
use ram_vram_sharing.Memory.Tracker.{
  Allocation, Tracker, denies, write_loop, read_loop, write, read,
}
use ram_vram_sharing.Memory.Tracker.Views.{view}
use ram_vram_sharing.Memory.Tracker.Transfer.{Written, placed, write_loop_lem}
use ram_vram_sharing.Memory.Tracker.Fetch.{read_loop_lem}
use ram_vram_sharing.Memory.Tracker.Invariant.{IsValid, allocation-Usable, allocation-IsSized}

abbrev pub with_bytes : Tracker → Bytes → Tracker
with_bytes t b = record t { slab = record (t.slab) { buffer = b } }

pub with_bytes-IsValid : (t : Tracker) (b : Bytes) → IsValid t → IsValid (with_bytes t b)
with_bytes-IsValid t b v = record {
  slab = record { page_pos = v.slab.page_pos; tracks = v.slab.tracks };
  next_pos = v.next_pos;
  unique = v.unique;
  below = v.below;
  sized = v.sized;
  conserved = v.conserved;
}

-- The four ways in which an access of `size` bytes at `offset` can end: the handle is unknown, it
-- belongs to another session, the range leaves the allocation, or it is granted.
pub data Verdict (t : Tracker) (handle offset size owner : ℕ) : Type 0 where
  unknown : lookup handle t.allocations ≡ none → Verdict t handle offset size owner
  foreign :
      (a : Allocation)
      → lookup handle t.allocations ≡ some a
      → denies a owner ≡ true
      → Verdict t handle offset size owner
  too_far :
      (a : Allocation)
      → lookup handle t.allocations ≡ some a
      → denies a owner ≡ false
      → a.total_size < offset + size
      → Verdict t handle offset size owner
  granted :
      (a : Allocation)
      → lookup handle t.allocations ≡ some a
      → denies a owner ≡ false
      → offset + size ≤ a.total_size
      → Verdict t handle offset size owner

pub verdict : (t : Tracker) (handle offset size owner : ℕ) → Verdict t handle offset size owner
verdict t handle offset size owner = elim (Option-cases (lookup handle t.allocations)) [
  | inl e ↦ unknown e
  | inr (a, e) ↦ elim (Bool-cases (denies a owner)) [
    | inl d ↦ foreign a e d
    | inr d ↦ elim (Bool-cases (ltb a.total_size (offset + size))) [
      | inl l ↦ too_far a e d (ground arith)
      | inr l ↦ granted a e d (ground arith)
    ]
  ]
]

abbrev pub WriteOutcome :
    (t : Tracker) (handle offset size owner : ℕ)
    → Bytes
    → Verdict t handle offset size owner
    → Type 0
WriteOutcome t handle offset size owner src (unknown _) =
    write handle offset src size owner t ≡ (t, throw invalid_argument)
WriteOutcome t handle offset size owner src (foreign _ _ _) =
    write handle offset src size owner t ≡ (t, throw permission_denied)
WriteOutcome t handle offset size owner src (too_far _ _ _ _) =
    write handle offset src size owner t ≡ (t, throw out_of_range)
WriteOutcome t handle offset size owner src (granted a _ _ _) =
    (b : Bytes) × (write handle offset src size owner t ≡ (with_bytes t b, ok tt))
    × Written a.pages offset (offset + size) (placed offset src) t.slab b

write_reaches :
    (t : Tracker) (handle offset size owner : ℕ) (src : Bytes) (a : Allocation)
    → lookup handle t.allocations ≡ some a
    → denies a owner ≡ false
    → 0 < size
    → offset + size ≤ a.total_size
    → write handle offset src size owner t
      ≡ (let r = write_loop size a.pages offset src size 0 t.slab in (record t { slab = r.0 }, r.1))
unfolding write
write_reaches t handle offset size owner src a e d p l = rw e (ground arith)

read_reaches :
    (t : Tracker) (handle offset size owner : ℕ) (out : Bytes) (a : Allocation)
    → lookup handle t.allocations ≡ some a
    → denies a owner ≡ false
    → 0 < size
    → offset + size ≤ a.total_size
    → read handle offset out size owner t ≡ read_loop size a.pages offset out size 0 t.slab
unfolding read
read_reaches t handle offset size owner out a e d p l = rw e (ground arith)

-- A write of at least one byte on a valid tracker ends as its verdict says. A refused write
-- changes nothing. A granted one always succeeds: it stores its bytes at their logical places,
-- leaves the bytes of the allocation outside the range, and changes no page outside the
-- allocation.
pub write_lem :
    (t : Tracker) (handle offset size owner : ℕ) (src : Bytes)
    → IsValid t
    → 0 < size
    → (c : Verdict t handle offset size owner) → WriteOutcome t handle offset size owner src c
unfolding write
write_lem t handle offset size owner src v p (unknown e) = rw e (ground arith)
write_lem t handle offset size owner src v p (foreign a e d) = rw e (ground arith)
write_lem t handle offset size owner src v p (too_far a e d l) = rw e (ground arith)
write_lem t handle offset size owner src v p (granted a e d l) =
    let u = allocation-Usable t v handle e in
    let (b, run, w) =
      write_loop_lem size a.pages offset src size 0 t.slab u
        (omega (arith, allocation-IsSized t v handle e)) (omega arith) (omega arith) in
    let reached = write_reaches t handle offset size owner src a e d p l in
    (b, reached ∙ ap (λ r. (record t { slab = r.0 }, r.1)) run, rw add-zero at w)

abbrev pub ReadOutcome :
    (t : Tracker) (handle offset size owner : ℕ)
    → Bytes
    → Verdict t handle offset size owner
    → Type 0
ReadOutcome t handle offset size owner out (unknown _) =
    read handle offset out size owner t ≡ throw invalid_argument
ReadOutcome t handle offset size owner out (foreign _ _ _) =
    read handle offset out size owner t ≡ throw permission_denied
ReadOutcome t handle offset size owner out (too_far _ _ _ _) =
    read handle offset out size owner t ≡ throw out_of_range
ReadOutcome t handle offset size owner out (granted a _ _ _) =
    read handle offset out size owner t
    ≡ ok (λ j. if ltb j size then view t.slab a.pages (offset + j) else out j)

-- A read of at least one byte on a valid tracker ends as its verdict says; a granted one always
-- succeeds, and puts the allocation's bytes from the offset on at the start of the output.
pub read_lem :
    (t : Tracker) (handle offset size owner : ℕ) (out : Bytes)
    → IsValid t
    → 0 < size
    → (c : Verdict t handle offset size owner) → ReadOutcome t handle offset size owner out c
unfolding read
read_lem t handle offset size owner out v p (unknown e) = rw e (ground arith)
read_lem t handle offset size owner out v p (foreign a e d) = rw e (ground arith)
read_lem t handle offset size owner out v p (too_far a e d l) = rw e (ground arith)
read_lem t handle offset size owner out v p (granted a e d l) =
    let u = allocation-Usable t v handle e in
    let (out', run, w) =
      read_loop_lem size a.pages offset out size 0 t.slab u
        (omega (arith, allocation-IsSized t v handle e)) (omega arith) (omega arith) in
    read_reaches t handle offset size owner out a e d p l
    ∙ run
    ∙ ap ok (fun_ext (λ j. w j ∙ ground arith))
