-- ===== src/Memory/Tracker/Isolation.antt =====
-- What a write leaves alone, and what a read sees of it.
use mathlib.Core.Path.{fun_ext}
use ram_vram_sharing.Prelude.{
  ℕ, zero, suc, ◌+◌, ◌-◌, ◌*◌, ◌/◌, ◌<◌, ◌≡◌, refl, sym, ap, ◌∙◌, ◌≢◌, ◌⊎◌, inl, inr, some, arith,
  ltb, if◌then◌else◌, Bool-cases, length, get_or, count, count-get_or, lookup,
}
use ram_vram_sharing.Memory.Raw.{Bytes, ok}
use ram_vram_sharing.Memory.Tracker.{Allocation, Tracker, write, read}
use ram_vram_sharing.Memory.Tracker.Views.{address, view, div-lt, address_page}
use ram_vram_sharing.Memory.Tracker.Invariant.{IsValid, allocation-IsSized, pages_disjoint}
use ram_vram_sharing.Memory.Tracker.Access.{
  with_bytes, with_bytes-IsValid, Verdict, unknown, foreign, too_far, granted, verdict, write_lem,
  read_lem,
}

-- The state after a write: the old one, or the old one with other bytes on the handle's pages.
abbrev Effect : Tracker → ℕ → Tracker → Type 0
Effect t handle t' =
    (t' ≡ t)
    ⊎ ((a : Allocation) × (b : Bytes) × (lookup handle t.allocations ≡ some a)
        × (t' ≡ with_bytes t b)
        × ((x : ℕ) → count (x / t.slab.page_size) a.pages ≡ 0 → b x ≡ t.slab.buffer x))

Verdict-Effect :
    (t : Tracker) (handle offset size owner : ℕ) (src : Bytes)
    → IsValid t
    → 0 < size
    → Verdict t handle offset size owner
    → Effect t handle (write handle offset src size owner t).0
Verdict-Effect t handle offset size owner src v p (unknown e) =
    inl (ap (λ r. r.0) (write_lem t handle offset size owner src v p (unknown e)))
Verdict-Effect t handle offset size owner src v p (foreign a e d) =
    inl (ap (λ r. r.0) (write_lem t handle offset size owner src v p (foreign a e d)))
Verdict-Effect t handle offset size owner src v p (too_far a e d l) =
    inl (ap (λ r. r.0) (write_lem t handle offset size owner src v p (too_far a e d l)))
Verdict-Effect t handle offset size owner src v p (granted a e d l) =
    let (b, run, w) = write_lem t handle offset size owner src v p (granted a e d l) in
    inr (a, b, e, ap (λ r. r.0) run, w.beyond)

write-Effect :
    (t : Tracker) (handle offset size owner : ℕ) (src : Bytes)
    → IsValid t
    → Effect t handle (write handle offset src size owner t).0
write-Effect t handle offset zero owner src v = inl (unfold write in refl)
write-Effect t handle offset (suc n) owner src v =
    Verdict-Effect t handle offset (suc n) owner src v (omega arith)
      (verdict t handle offset (suc n) owner)

-- Whatever a write on a valid tracker ends in, the tracker stays valid.
pub write-IsValid :
    (t : Tracker) (handle offset size owner : ℕ) (src : Bytes)
    → IsValid t
    → IsValid (write handle offset src size owner t).0
write-IsValid t handle offset size owner src v =
    elim (write-Effect t handle offset size owner src v) [
      | inl e ↦ rw e v
      | inr (a, b, _, e, _) ↦ rw e (with_bytes-IsValid t b v)
    ]

view_other :
    (t : Tracker) (h k x : ℕ) {a c : Allocation} (b : Bytes)
    → IsValid t
    → h ≢ k
    → lookup h t.allocations ≡ some a
    → lookup k t.allocations ≡ some c
    → ((y : ℕ) → count (y / t.slab.page_size) a.pages ≡ 0 → b y ≡ t.slab.buffer y)
    → x < c.total_size
    → view (with_bytes t b).slab c.pages x ≡ view t.slab c.pages x
view_other t h k x {a} {c} b v d e f same l =
    let size = t.slab.page_size in
    let inside : x < length c.pages * size = omega (arith, allocation-IsSized t v k f) in
    let page : ℕ = get_or c.pages (x / size) 0 in
    let here : 0 < count page c.pages =
      count-get_or c.pages (x / size) 0 (div-lt x (length c.pages) size v.slab.page_pos inside) in
    same (address size c.pages x) (
      rw (address_page size c.pages x v.slab.page_pos)
        (ground (arith, pages_disjoint t h k page v d e f)))

read_same :
    (t : Tracker) (h k offset size owner : ℕ) (out : Bytes) {a : Allocation} (b : Bytes)
    → IsValid t
    → h ≢ k
    → lookup h t.allocations ≡ some a
    → ((y : ℕ) → count (y / t.slab.page_size) a.pages ≡ 0 → b y ≡ t.slab.buffer y)
    → 0 < size
    → Verdict t k offset size owner
    → read k offset out size owner (with_bytes t b) ≡ read k offset out size owner t
read_same t h k offset size owner out b v d e same p (unknown f) =
    read_lem (with_bytes t b) k offset size owner out (with_bytes-IsValid t b v) p (unknown f)
    ∙ sym (read_lem t k offset size owner out v p (unknown f))
read_same t h k offset size owner out b v d e same p (foreign c f n) =
    read_lem (with_bytes t b) k offset size owner out (with_bytes-IsValid t b v) p (foreign c f n)
    ∙ sym (read_lem t k offset size owner out v p (foreign c f n))
read_same t h k offset size owner out b v d e same p (too_far c f n l) =
    read_lem (with_bytes t b) k offset size owner out (with_bytes-IsValid t b v) p (too_far c f n l)
    ∙ sym (read_lem t k offset size owner out v p (too_far c f n l))
read_same t h k offset size owner out b v d e same p (granted c f n l) =
    read_lem (with_bytes t b) k offset size owner out (with_bytes-IsValid t b v) p (granted c f n l)
    ∙ ap ok (
        fun_ext λ j. elim (Bool-cases (ltb j size)) [
          | inl m ↦
              let lt : j < size = ground arith in
              rw m (view_other t h k (offset + j) b v d e f same (omega arith))
          | inr m ↦ rw m
        ])
    ∙ sym (read_lem t k offset size owner out v p (granted c f n l))

-- On a valid tracker sessions are isolated: a write through one handle, granted or not, changes
-- the outcome of no read through another handle.
pub write_isolated :
    (t : Tracker) (h offset size owner : ℕ) (src : Bytes) (k offset' size' owner' : ℕ) (out : Bytes)
    → IsValid t
    → h ≢ k
    → read k offset' out size' owner' (write h offset src size owner t).0
      ≡ read k offset' out size' owner' t
write_isolated t h offset size owner src k offset' zero owner' out v d = unfold read in refl
write_isolated t h offset size owner src k offset' (suc n) owner' out v d =
    elim (write-Effect t h offset size owner src v) [
      | inl e ↦ rw e
      | inr (a, b, f, e, same) ↦ rw e (
          read_same t h k offset' (suc n) owner' out b v d f same (omega arith)
            (verdict t k offset' (suc n) owner'))
    ]

read_back :
    (t : Tracker) (h offset size owner : ℕ) (src out : Bytes)
    → IsValid t
    → 0 < size
    → (write h offset src size owner t).1 ≡ ok tt
    → Verdict t h offset size owner
    → read h offset out size owner (write h offset src size owner t).0
      ≡ ok (λ j. if ltb j size then src j else out j)
read_back t h offset size owner src out v p e (unknown f) =
    absurd (cc (write_lem t h offset size owner src v p (unknown f)))
read_back t h offset size owner src out v p e (foreign a f d) =
    absurd (cc (write_lem t h offset size owner src v p (foreign a f d)))
read_back t h offset size owner src out v p e (too_far a f d l) =
    absurd (cc (write_lem t h offset size owner src v p (too_far a f d l)))
read_back t h offset size owner src out v p e (granted a f d l) =
    let (b, run, w) = write_lem t h offset size owner src v p (granted a f d l) in
    ap (λ r. read h offset out size owner r.0) run
    ∙ read_lem (with_bytes t b) h offset size owner out (with_bytes-IsValid t b v) p
        (granted a f d l)
    ∙ ap ok (
        fun_ext λ j. elim (Bool-cases (ltb j size)) [
          | inl m ↦
              let lt : j < size = ground arith in
              let back : offset + j - offset ≡ j = omega arith in
              let sized = allocation-IsSized t v h f in
              rw m (ground (arith, w.inside (offset + j) (omega (arith, sized)), ap src back))
          | inr m ↦ rw m
        ])

-- What was written is read back: after a write on a valid tracker that succeeded, a read of the
-- same range by the same session succeeds and yields the bytes given.
pub read_after_write :
    (t : Tracker) (h offset size owner : ℕ) (src out : Bytes)
    → IsValid t
    → (write h offset src size owner t).1 ≡ ok tt
    → read h offset out size owner (write h offset src size owner t).0
      ≡ ok (λ j. if ltb j size then src j else out j)
read_after_write t h offset zero owner src out v e =
    unfold read in ap ok (fun_ext λ j. ground arith)
read_after_write t h offset (suc n) owner src out v e =
    read_back t h offset (suc n) owner src out v (omega arith) e (verdict t h offset (suc n) owner)
