-- ===== src/Memory/Tracker/Fetch.antt =====
-- The loop of read over an allocation whose pages are usable: `size` rounds suffice, no page access
-- fails, and the bytes come in their logical order.
use native.Mathlib.Nat.{mod-lt, add_assoc, div-eq_of_lt-le, div-add-mod'}
use mathlib.Core.Path.{ap₂}
use ram_vram_sharing.Prelude.{
  ℕ, zero, suc, ◌+◌, ◌-◌, ◌*◌, ◌/◌, ◌%◌, ◌≤◌, ◌<◌, ◌≡◌, refl, sym, ap, ◌∙◌, inl, inr, ◌&&◌, List,
  arith, ltb, leb, if◌then◌else◌, lt→ltb, Bool-cases, length, get_or,
}
use ram_vram_sharing.Memory.Raw.{Bytes, copy_in, shift, ok}
use ram_vram_sharing.Memory.Slab.{Slab}
use ram_vram_sharing.Memory.Slab.Pages.{read_page_lem}
use ram_vram_sharing.Memory.Tracker.{splice, read_loop}
use ram_vram_sharing.Memory.Tracker.Views.{view, Usable, page_at}
use ram_vram_sharing.Memory.Tracker.Transfer.{page_used, chunk-Inside, chunk_pos, chunk}

-- What the loop of read has put into `out`.
abbrev pub Fetched : List ℕ → ℕ → ℕ → ℕ → Slab → Bytes → Bytes → Type 0
Fetched ps offset i size s out out' =
    (j : ℕ) → out' j ≡ (if leb i j && ltb j size then view s ps (offset + j) else out j)

run_div : (y k b : ℕ) → 0 < b → k + y % b < b → ((y + k) / b ≡ y / b) × ((y + k) % b ≡ y % b + k)
run_div y k b p h =
    let q : (y + k) / b ≡ y / b =
      div-eq_of_lt-le b (omega (arith, div-add-mod' y b)) (omega (arith, div-add-mod' y b)) in
    (q, omega (arith, div-add-mod' y b, div-add-mod' (y + k) b, ap (λ (t : ℕ). t * b) q))

-- The bytes of one page, in their logical order.
view_run :
    (s : Slab) (ps : List ℕ) (y k : ℕ)
    → 0 < s.page_size
    → k + y % s.page_size < s.page_size
    → s.buffer (page_at s ps y * s.page_size + y % s.page_size + k) ≡ view s ps (y + k)
view_run s ps y k p h =
    let r = run_div y k s.page_size p h in
    ap s.buffer (
      add_assoc (page_at s ps y * s.page_size) (y % s.page_size) k
      ∙ ap₂ (λ q m. get_or ps q 0 * s.page_size + m) (sym r.0) (sym r.1))

read_step :
    (f : ℕ) (ps : List ℕ) (offset : ℕ) (out : Bytes) (size i : ℕ) (s : Slab)
    → Usable s ps
    → offset + size ≤ length ps * s.page_size
    → i < size
    → (let y = offset + i in
        read_loop (suc f) ps offset out size i s
        ≡ read_loop f ps offset
            (splice out i (
              copy_in
                (shift out i)
                0
                (λ k. s.buffer (page_at s ps y * s.page_size + y % s.page_size + k))
                (chunk s offset size i)))
            size
            (i + chunk s offset size i)
            s)
unfolding read_loop
read_step f ps offset out size i s u fits lt = rw (
  lt→ltb lt,
  read_page_lem (page_at s ps (offset + i)) ((offset + i) % s.page_size) (shift out i)
      (chunk s offset size i) s (chunk-Inside s ps offset size i u fits lt)
      (u.in_use _ (page_used s ps offset size i u fits lt)).1,
)

abbrev pub after_page : Slab → List ℕ → ℕ → Bytes → ℕ → ℕ → Bytes
after_page s ps offset out size i =
    let y = offset + i in
    splice out i (
      copy_in (shift out i) 0 (λ k. s.buffer (page_at s ps y * s.page_size + y % s.page_size + k))
        (chunk s offset size i))

Fetched-step :
    (ps : List ℕ) (offset : ℕ) (out : Bytes) (size i : ℕ) (s : Slab)
    → Usable s ps
    → (out' : Bytes)
    → Fetched ps offset (i + chunk s offset size i) size s (after_page s ps offset out size i) out'
    → Fetched ps offset i size s out out'
Fetched-step ps offset out size i s u out' w j =
    elim (Bool-cases (leb i j && ltb j (i + chunk s offset size i))) [
      | inl now ↦
          let le : i ≤ j = ground arith in
          let lt : j < i + chunk s offset size i = ground arith in
          let run =
            view_run s ps (offset + i) (j - i) u.page_pos
              (omega (arith, mod-lt (offset + i) u.page_pos)) in
          let place : offset + i + (j - i) ≡ offset + j = omega arith in
          ground (arith, w j, run ∙ ap (view s ps) place)
      | inr later ↦ ground (arith, w j)
    ]

pub read_loop_lem :
    (f : ℕ) (ps : List ℕ) (offset : ℕ) (out : Bytes) (size i : ℕ) (s : Slab)
    → Usable s ps
    → offset + size ≤ length ps * s.page_size
    → i ≤ size
    → size ≤ i + f
    → (out' : Bytes) × (read_loop f ps offset out size i s ≡ ok out')
      × Fetched ps offset i size s out out'
unfolding read_loop
read_loop_lem zero ps offset out size i s u fits le enough = (out, refl, λ j. ground arith)
read_loop_lem (suc f) ps offset out size i s u fits le enough = elim (Bool-cases (ltb i size)) [
  | inl more ↦
      let lt : i < size = ground arith in
      let n : ℕ = chunk s offset size i in
      let y : ℕ = offset + i in
      let out1 : Bytes = splice out i (
        copy_in (shift out i) 0 (λ k. s.buffer (page_at s ps y * s.page_size + y % s.page_size + k))
          n) in
      let (out', e, w) =
        read_loop_lem f ps offset out1 size (i + n) s u fits (omega arith)
          (omega (arith, chunk_pos s ps offset size i u fits lt)) in
      (
        out',
        read_step f ps offset out size i s u fits lt ∙ e,
        Fetched-step ps offset out size i s u out' w,
      )
  | inr done ↦ (out, rw done, λ j. ground arith)
]
