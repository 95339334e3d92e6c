-- ===== src/Memory/Tracker/Views.antt =====
-- The bytes of an allocation in their logical order, and what one copy into a page does to them.
use native.Mathlib.Nat.{div-eq_of_lt-le, div-add-mod', mod-lt}
use ram_vram_sharing.Prelude.{
  ℕ, zero, suc, ◌+◌, ◌-◌, ◌*◌, ◌/◌, ◌%◌, ◌≤◌, ◌<◌, ◌≡◌, refl, ap, ◌≢◌, ◌⊎◌, inl, inr, false, ◌&&◌,
  List, [], ◌∷◌, arith, ltb, leb, if◌then◌else◌, length, get_or, count, count-get_or,
}
use ram_vram_sharing.Memory.Raw.{Bytes, copy_in}
use ram_vram_sharing.Memory.Slab.Allocate.{in_page}
use ram_vram_sharing.Memory.Slab.{allocated, Slab}

-- The address of byte `x` of an allocation with the pages `ps`.
abbrev pub address : ℕ → List ℕ → ℕ → ℕ
address b ps x = get_or ps (x / b) 0 * b + x % b

abbrev pub view : Slab → List ℕ → Bytes
view s ps x = s.buffer (address s.page_size ps x)

-- What the slab's invariant gives for the pages of one allocation.
pub record Usable (s : Slab) (ps : List ℕ) : Type 0 where
  pub page_pos : 0 < s.page_size
  pub distinct : (q : ℕ) → count q ps ≤ 1
  pub in_use : (q : ℕ) → 0 < count q ps → (q < s.total_pages) × (s.page_states q ≡ allocated)

get_or-injective :
    (ps : List ℕ) (i j : ℕ)
    → ((q : ℕ) → count q ps ≤ 1)
    → i < length ps
    → j < length ps
    → get_or ps i 0 ≡ get_or ps j 0
    → i ≡ j
get_or-injective [] i j d h k e = absurd (omega arith)
get_or-injective (p ∷ ps) zero zero d h k e = refl
get_or-injective (p ∷ ps) zero (suc j) d h k e =
    absurd (ground (arith, d p, e, count-get_or ps j 0))
get_or-injective (p ∷ ps) (suc i) zero d h k e =
    absurd (ground (arith, d p, e, count-get_or ps i 0))
get_or-injective (p ∷ ps) (suc i) (suc j) d h k e =
    ap suc (get_or-injective ps i j (λ q. omega (arith, d q)) (omega arith) (omega arith) e)

step_mul : (x y b : ℕ) → x < y → x * b + b ≤ y * b
step_mul x y b h = grind arith

pub div-lt : (x n b : ℕ) → 0 < b → x < n * b → x / b < n
div-lt x n b p h =
    ground (arith, div-add-mod' x b, mod-lt x p, step_mul (x / b) n b, step_mul n (x / b) b)

same_page :
    (b P x y n : ℕ)
    → 0 < b
    → x / b ≡ y / b
    → (leb (P * b + y % b) (P * b + x % b) && ltb (P * b + x % b) (P * b + y % b + n))
      ≡ (leb y x && ltb x (y + n))
same_page b P x y n p e =
    ground (arith, div-add-mod' x b, div-add-mod' y b, ap (λ (t : ℕ). t * b) e)

other_page :
    (b P Q x y n : ℕ)
    → 0 < b
    → x / b ≢ y / b
    → Q ≢ P
    → n + y % b ≤ b
    → ((leb (P * b + y % b) (Q * b + x % b) && ltb (Q * b + x % b) (P * b + y % b + n)) ≡ false)
      × ((leb y x && ltb x (y + n)) ≡ false)
other_page b P Q x y n p d e h = (
  ground (arith, mod-lt x p, step_mul P Q b, step_mul Q P b),
  ground (
    arith,
    div-add-mod' x b,
    div-add-mod' y b,
    mod-lt x p,
    step_mul (x / b) (y / b) b,
    step_mul (y / b) (x / b) b,
  ),
)

dec_eq : (a b : ℕ) → (a ≡ b) ⊎ (a ≢ b)
dec_eq a b = ground arith

-- The page that holds byte `y`.
abbrev pub page_at : Slab → List ℕ → ℕ → ℕ
page_at s ps y = get_or ps (y / s.page_size) 0

-- The slab after a copy to byte `y`.
abbrev pub stored : Slab → List ℕ → ℕ → Bytes → ℕ → Slab
stored s ps y src n = record s {
  buffer = copy_in s.buffer (page_at s ps y * s.page_size + y % s.page_size) src n;
}

offset_in : (P y x b n : ℕ) → 0 < b → x / b ≡ y / b → P * b + x % b - (P * b + y % b) ≡ x - y
offset_in P y x b n p e = omega (arith, div-add-mod' x b, div-add-mod' y b, ap (λ (t : ℕ). t * b) e)

-- A copy that fits into the page of byte `y` is a copy to the bytes from `y` on.
pub view-stored :
    (s : Slab) (ps : List ℕ) (y : ℕ) (src : Bytes) (n x : ℕ)
    → Usable s ps
    → y < length ps * s.page_size
    → n + y % s.page_size ≤ s.page_size
    → x < length ps * s.page_size
    → view (stored s ps y src n) ps x
      ≡ (if leb y x && ltb x (y + n) then src (x - y) else view s ps x)
view-stored s ps y src n x u hy hn hx =
    let b : ℕ = s.page_size in
    let P : ℕ = page_at s ps y in
    elim (dec_eq (x / b) (y / b)) [
      | inl e ↦
          rw (e, same_page b P x y n u.page_pos e, offset_in P y x b n u.page_pos e) (ground arith)
      | inr d ↦
          let o =
            other_page b P (page_at s ps x) x y n u.page_pos d
              (λ e. d (
                get_or-injective ps (x / b) (y / b) u.distinct
                  (div-lt x (length ps) b u.page_pos hx) (div-lt y (length ps) b u.page_pos hy) e))
              hn in
          rw (o.0, o.1)
    ]

-- Bytes of pages that are not the allocation's stay.
pub buffer-stored :
    (s : Slab) (ps : List ℕ) (y : ℕ) (src : Bytes) (n a : ℕ)
    → Usable s ps
    → y < length ps * s.page_size
    → n + y % s.page_size ≤ s.page_size
    → count (a / s.page_size) ps ≡ 0
    → (stored s ps y src n).buffer a ≡ s.buffer a
buffer-stored s ps y src n a u hy hn c = ground (
  arith,
  count-get_or ps (y / s.page_size) 0 (div-lt y (length ps) s.page_size u.page_pos hy),
  in_page s.page_size (page_at s ps y) a u.page_pos,
)

pub address_page : (b : ℕ) (ps : List ℕ) (x : ℕ) → 0 < b → address b ps x / b ≡ get_or ps (x / b) 0
address_page b ps x p = div-eq_of_lt-le b (omega arith) (omega (arith, mod-lt x p))
