-- ===== src/Memory/Tracker/Transfer.antt =====
-- The loop of write over an allocation whose pages are usable: `size` rounds suffice, no page access
-- fails, and the bytes land where the logical order says.
use native.Mathlib.Nat.{mod-lt}
use ram_vram_sharing.Prelude.{
  ℕ, zero, suc, ◌+◌, ◌-◌, ◌*◌, ◌/◌, ◌%◌, ◌≤◌, ◌<◌, min, ◌≡◌, refl, ◌∙◌, inl, inr, ◌&&◌, List, arith,
  ltb, leb, if◌then◌else◌, lt→ltb, Bool-cases, length, count, count-get_or,
}
use ram_vram_sharing.Memory.Raw.{Bytes, shift, ok}
use ram_vram_sharing.Memory.Slab.{Slab}
use ram_vram_sharing.Memory.Slab.Pages.{Inside, write_page_lem}
use ram_vram_sharing.Memory.Tracker.{write_loop}
use ram_vram_sharing.Memory.Tracker.Views.{
  view, Usable, div-lt, page_at, stored, view-stored, buffer-stored,
}

-- The bytes moved in one round.
abbrev pub chunk : Slab → ℕ → ℕ → ℕ → ℕ
chunk s offset size i = min (size - i) (s.page_size - (offset + i) % s.page_size)

module _ (s : Slab) (ps : List ℕ) (offset size i : ℕ) (u : Usable s ps)
    (fits : offset + size ≤ length ps * s.page_size) (more : i < size) where
  pub page_used : 0 < count (page_at s ps (offset + i)) ps
  page_used =
      count-get_or ps ((offset + i) / s.page_size) 0
        (div-lt (offset + i) (length ps) s.page_size u.page_pos (omega (arith, fits, more)))

  pub chunk_pos : 0 < chunk s offset size i
  chunk_pos = omega (arith, mod-lt (offset + i) u.page_pos, more)

  pub chunk-Inside :
      Inside s (page_at s ps (offset + i)) ((offset + i) % s.page_size) (chunk s offset size i)
  chunk-Inside = ((u.in_use _ page_used).0, omega (arith, mod-lt (offset + i) u.page_pos))

-- What the loop of write leaves behind.
pub record Written (ps : List ℕ) (from to : ℕ) (src : Bytes) (s : Slab) (b : Bytes) : Type 0 where
  pub inside :
      (x : ℕ)
      → x < length ps * s.page_size
      → view (record s { buffer = b }) ps x
        ≡ (if leb from x && ltb x to then src x else view s ps x)
  pub beyond : (a : ℕ) → count (a / s.page_size) ps ≡ 0 → b a ≡ s.buffer a

abbrev pub placed : ℕ → Bytes → Bytes
placed offset src x = src (x - offset)

pub stored-Usable :
    (s : Slab) (ps : List ℕ) (y : ℕ) (src : Bytes) (n : ℕ)
    → Usable s ps
    → Usable (stored s ps y src n) ps
stored-Usable s ps y src n u = record {
  page_pos = u.page_pos;
  distinct = u.distinct;
  in_use = u.in_use;
}

write_step :
    (f : ℕ) (ps : List ℕ) (offset : ℕ) (src : Bytes) (size i : ℕ) (s : Slab)
    → Usable s ps
    → offset + size ≤ length ps * s.page_size
    → i < size
    → write_loop (suc f) ps offset src size i s
      ≡ write_loop f ps offset src size
          (i + chunk s offset size i)
          (stored s ps (offset + i) (shift src i) (chunk s offset size i))
unfolding write_loop
write_step f ps offset src size i s u fits lt = rw (
  lt→ltb lt,
  (write_page_lem (page_at s ps (offset + i)) ((offset + i) % s.page_size) (shift src i)
      (chunk s offset size i) s (chunk-Inside s ps offset size i u fits lt)
      (u.in_use _ (page_used s ps offset size i u fits lt)).1).0,
)

Written-step :
    (ps : List ℕ) (offset : ℕ) (src : Bytes) (size i : ℕ) (s : Slab) (b : Bytes)
    → Usable s ps
    → offset + size ≤ length ps * s.page_size
    → i < size
    → (let n = chunk s offset size i in
        Written ps
          (offset + (i + n))
          (offset + size)
          (placed offset src)
          (stored s ps (offset + i) (shift src i) n)
          b)
    → Written ps (offset + i) (offset + size) (placed offset src) s b
Written-step ps offset src size i s b u fits lt w =
    let n : ℕ = chunk s offset size i in
    let lim : n + (offset + i) % s.page_size ≤ s.page_size =
      omega (arith, mod-lt (offset + i) u.page_pos) in
    record {
      inside = λ x h. ground (
        arith,
        w.inside x h,
        view-stored s ps (offset + i) (shift src i) n x u (omega arith) lim h,
      );
      beyond = λ a c.
          w.beyond a c ∙ buffer-stored s ps (offset + i) (shift src i) n a u (omega arith) lim c;
    }

pub write_loop_lem :
    (f : ℕ) (ps : List ℕ) (offset : ℕ) (src : Bytes) (size i : ℕ) (s : Slab)
    → Usable s ps
    → offset + size ≤ length ps * s.page_size
    → i ≤ size
    → size ≤ i + f
    → (b : Bytes) × (write_loop f ps offset src size i s ≡ (record s { buffer = b }, ok tt))
      × Written ps (offset + i) (offset + size) (placed offset src) s b
unfolding write_loop
write_loop_lem zero ps offset src size i s u fits le enough =
    (s.buffer, refl, record { inside = λ x h. ground arith; beyond = λ a h. refl })
write_loop_lem (suc f) ps offset src size i s u fits le enough = elim (Bool-cases (ltb i size)) [
  | inl more ↦
      let lt : i < size = ground arith in
      let n : ℕ = chunk s offset size i in
      let s' : Slab = stored s ps (offset + i) (shift src i) n in
      let (b, e, w) =
        write_loop_lem f ps offset src size (i + n) s'
          (stored-Usable s ps (offset + i) (shift src i) n u) fits (omega arith)
          (omega (arith, chunk_pos s ps offset size i u fits lt)) in
      (
        b,
        write_step f ps offset src size i s u fits lt ∙ e,
        Written-step ps offset src size i s b u fits lt w,
      )
  | inr done ↦ (s.buffer, rw done, record { inside = λ x h. ground arith; beyond = λ a h. refl })
]
