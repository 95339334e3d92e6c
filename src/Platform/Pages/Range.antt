-- ===== src/Platform/Pages/Range.antt =====
-- The pages that a range of bytes touches.
use native.Mathlib.Nat.{
  div-eq_of_lt, mul-add-div_right, div-mul-le_self, add-mul, mul-div_left, div-add-mod',
  le-div_iff_mul-le,
}
use ram_vram_sharing.Prelude.{
  ℕ, ◌+◌, ◌-◌, ◌*◌, ◌/◌, ◌%◌, ◌≤◌, ◌<◌, ◌≡◌, ap, ◌∙◌, inl, inr, Bool, ◌&&◌, arith, ltb, leb,
  if◌then◌else◌, Bool-cases, u64_mod,
}
use mathlib.Core.Option
use ram_vram_sharing.Client.Heap.Setup.{round_up}
use ram_vram_sharing.Platform.Pages.{
  Regions, Book, offset_in_page, rounds_of, state_of, for_each_page,
}
use ram_vram_sharing.Platform.Pages.Visit.{IsValid, Follows, visit_lem}
use ram_vram_sharing.Platform.Pages.Layout.{Ordered, page_at, scale_le, scale_lt, region_for_lem}

-- The bytes from page_base on that `len` bytes at `addr` touch, in whole pages.
abbrev pub span_of : ℕ → ℕ → ℕ → ℕ
span_of page_size addr len = round_up (offset_in_page page_size addr + len) page_size

-- Their number.
abbrev pub pages_of : ℕ → ℕ → ℕ → ℕ
pages_of page_size addr len =
    (offset_in_page page_size addr + len + page_size - 1) % u64_mod / page_size

pub round_up_lem : (value ps : ℕ) → round_up value ps ≡ (value + ps - 1) % u64_mod / ps * ps
round_up_lem value ps =
    let le = div-mul-le_self ((value + ps - 1) % u64_mod) ps in omega (arith, le)

pub span_lem : (ps addr len : ℕ) → span_of ps addr len ≡ pages_of ps addr len * ps
span_lem ps addr len = round_up_lem (offset_in_page ps addr + len) ps

pub rounds_lem : (ps n : ℕ) → 0 < ps → rounds_of ps (n * ps) ≡ n
rounds_lem ps n p =
    mul-add-div_right p n (ps - 1)
    ∙ (let z = div-eq_of_lt {n = ps - 1} {m = ps} (omega arith) in omega (arith, z))

-- Whether the byte `x` lies in the `n` bytes from `a` on.
abbrev pub within : ℕ → ℕ → ℕ → Bool
within a n x = leb a x && ltb x (a + n)

within-scale : (ps a n x : ℕ) → 0 < ps → within (a * ps) (n * ps) (x * ps) ≡ within a n x
within-scale ps a n x p =
    let below = scale_lt x a ps p in
    let from = scale_le a x ps in
    let before = scale_lt x (a + n) ps p in
    let behind = scale_le (a + n) x ps in
    let both = add-mul a n ps in
    elim (Bool-cases (leb a x)) [
      | inr lt ↦ ground (arith, below (ground arith))
      | inl ge ↦ elim (Bool-cases (ltb x (a + n))) [
        | inl inside ↦ ground (arith, both, from (ground arith), before (ground arith))
        | inr outside ↦ ground (arith, both, from (ground arith), behind (ground arith))
      ]
    ]

module _ {P : Type 0} (w : P → ℕ) (f : P → P) (g : P → ℕ → ℕ) (follows : Follows w f g) (ps : ℕ)
    (p : 0 < ps) where
  -- Exactly the pages of the range change their states.
  pub for_each_page_lem :
      (x n : ℕ) (k : Book P)
      → IsValid w ps k
      → IsValid w ps (for_each_page f g ps (x * ps) (n * ps) k)
        × ((y : ℕ)
            → page_at ps y (for_each_page f g ps (x * ps) (n * ps) k).regions ≡ (
                if within (x * ps) (n * ps) (y * ps)
                then Option.map f (page_at ps y k.regions)
                else page_at ps y k.regions))
  unfolding for_each_page
  for_each_page_lem x n k v =
      let v' = visit_lem w f g follows ps p n x k v in
      rw (rounds_lem ps n p) (v'.0, λ y. rw (within-scale ps x n y p) (v'.1 y))

module _ {P : Type 0} where
  pub state_of-page_at :
      (ps x : ℕ) (m : Regions P) → 0 < ps → Ordered ps 0 m → state_of ps (x * ps) m ≡ page_at ps x m
  unfolding state_of
  state_of-page_at ps x m p o = elim (region_for_lem ps 0 x m p o) [
    | inl (e, z) ↦ ground (arith, e, z)
    | inr (b, r, e, l, le, lt, pa) ↦ ground (arith, e, pa)
  ]

-- A page boundary, and a range that starts there and is not empty.
pub boundary_lem : (ps x : ℕ) → 0 < ps → (x * ps / ps ≡ x) × (x * ps % ps ≡ 0)
boundary_lem ps x p =
    let q = mul-div_left x p in
    (q, let e = div-add-mod' (x * ps) ps in let f = ap (λ (t : ℕ). t * ps) q in omega (arith, e, f))

pub pages_of-pos :
    (ps x len : ℕ) → 0 < ps → 0 < len → len + ps ≤ u64_mod → 0 < pages_of ps (x * ps) len
pages_of-pos ps x len p q h =
    let z = (boundary_lem ps x p).1 in
    let small : (0 + len + ps - 1) % u64_mod ≡ len + ps - 1 = omega arith in
    let le = (le-div_iff_mul-le {k = ps} {x = 1} {y = len + ps - 1} p).1 (omega arith) in
    rw (z, small) le
