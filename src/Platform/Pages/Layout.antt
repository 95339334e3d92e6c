-- ===== src/Platform/Pages/Layout.antt =====
-- The regions of a backend, by page numbers.
use native.Mathlib.Nat.{mul-div_left, mul-sub, mul_comm, add-mul}
use ram_vram_sharing.Prelude.{
  ℕ, ◌+◌, ◌-◌, ◌*◌, ◌/◌, ◌≤◌, ◌<◌, ◌≡◌, refl, ◌⊎◌, inl, inr, Option, none, some, [], ◌∷◌, arith,
  ltb, if◌then◌else◌, Bool-cases, Option-cases, length, lookup,
}
use ram_vram_sharing.Platform.Pages.{Region, Regions, floor_entry, region_for, get_elem?}

module _ {P : Type 0} where
  -- Regions lie one after another from `n` on, at page boundaries, and each has a state for each of
  -- its pages, of which there is one.
  abbrev pub Ordered : ℕ → ℕ → Regions P → Type 0
  Ordered page_size n [] = Unit
  Ordered page_size n ((b, r) ∷ m) =
      (n ≤ b)
      × (b ≡ b / page_size * page_size)
      × (r.size ≡ length r.pages * page_size)
      × (0 < length r.pages)
      × Ordered page_size (b + r.size) m

  -- The state of the page with number `x`.
  abbrev pub page_at : ℕ → ℕ → Regions P → Option P
  page_at page_size x [] = none
  page_at page_size x ((b, r) ∷ m) =
      if ltb x (b / page_size)
      then none
      else if ltb x (b / page_size + length r.pages)
      then get_elem? r.pages (x - b / page_size)
      else page_at page_size x m

index_lem : (x b c ps : ℕ) → 0 < ps → b ≤ x → c ≡ b * ps → (x * ps - c) / ps ≡ x - b
index_lem x b c ps h le e =
    let d : x * ps - c ≡ (x - b) * ps =
      omega (arith, mul-sub ps x b, mul_comm ps x, mul_comm ps b, mul_comm ps (x - b)) in
    rw d (mul-div_left (x - b) h)

pub scale_le : (x y ps : ℕ) → x ≤ y → x * ps ≤ y * ps
scale_le x y ps h = grind arith

pub scale_lt : (x y ps : ℕ) → 0 < ps → x < y → x * ps < y * ps
scale_lt x y ps p h = grind arith

module _ {P : Type 0} where
  floor_entry-none : (ps n x : ℕ) (m : Regions P) → Ordered ps n m → x < n → floor_entry x m ≡ none
  unfolding floor_entry
  floor_entry-none ps n x [] o h = refl
  floor_entry-none ps n x ((b, r) ∷ m) o h = ground arith

  -- A number of a page below the region of an entry, in it, or behind it.
  below_lem :
      (ps n x b : ℕ) (r : Region P) (m : Regions P)
      → 0 < ps
      → Ordered ps n ((b, r) ∷ m)
      → x < b / ps
      → x * ps < b
  below_lem ps n x b r m p o h = omega (arith, scale_lt x (b / ps) ps p h, o.1)

  within_lem :
      (ps n x b : ℕ) (r : Region P) (m : Regions P)
      → 0 < ps
      → Ordered ps n ((b, r) ∷ m)
      → b / ps ≤ x
      → x < b / ps + length r.pages
      → (b ≤ x * ps) × (x * ps < b + r.size)
  within_lem ps n x b r m p o h l = (
    omega (arith, scale_le (b / ps) x ps h, o.1),
    omega (
      arith,
      scale_lt x (b / ps + length r.pages) ps p l,
      o.1,
      o.2,
      add-mul (b / ps) (length r.pages) ps,
    ),
  )

  behind_lem :
      (ps n x b : ℕ) (r : Region P) (m : Regions P)
      → Ordered ps n ((b, r) ∷ m)
      → b / ps + length r.pages ≤ x
      → b + r.size ≤ x * ps
  behind_lem ps n x b r m o h = omega (
    arith,
    scale_le (b / ps + length r.pages) x ps h,
    o.1,
    o.2,
    add-mul (b / ps) (length r.pages) ps,
  )

  -- What region_for finds for a page boundary.
  abbrev pub Finds : ℕ → ℕ → Regions P → Type 0
  Finds ps x m =
      ((region_for ps (x * ps) m ≡ none) × (page_at ps x m ≡ none))
      ⊎ ((b : ℕ) × (r : Region P) × (region_for ps (x * ps) m ≡ some (b, r, x - b / ps))
          × (lookup b m ≡ some r)
          × (b / ps ≤ x)
          × (x < b / ps + length r.pages)
          × (page_at ps x m ≡ get_elem? r.pages (x - b / ps)))

  lookup-floor : (ps n x k : ℕ) (m : Regions P) → Ordered ps n m → k < n → lookup k m ≡ none
  lookup-floor ps n x k [] o h = refl
  lookup-floor ps n x k ((b, r) ∷ m) o h =
      ground (arith, lookup-floor ps (b + r.size) x k m o.4 (omega (arith, o.0)))

  pub region_for_lem : (ps n x : ℕ) (m : Regions P) → 0 < ps → Ordered ps n m → Finds ps x m
  unfolding region_for floor_entry
  region_for_lem ps n x [] p o = inl (refl, refl)
  region_for_lem ps n x ((b, r) ∷ m) p o = elim (Bool-cases (ltb x (b / ps))) [
    | inl below ↦
        let lt = below_lem ps n x b r m p o (ground arith) in inl (ground arith, ground arith)
    | inr above ↦ elim (Bool-cases (ltb x (b / ps + length r.pages))) [
      | inl inside ↦
          let (le, lt) = within_lem ps n x b r m p o (ground arith) (ground arith) in
          let later = floor_entry-none ps (b + r.size) (x * ps) m o.4 lt in
          let index : (x * ps - b) / ps ≡ x - b / ps =
            index_lem x (b / ps) b ps p (ground arith) o.1 in
          inr (
            b,
            r,
            ground (arith, later, index),
            ground arith,
            ground arith,
            ground arith,
            ground arith,
          )
      | inr outside ↦
          let le = behind_lem ps n x b r m o (ground arith) in
          let nonempty = within_lem ps n (b / ps) b r m p o (omega arith) (omega (arith, o.3)) in
          let fresh = lookup-floor ps (b + r.size) x b m o.4 (omega (arith, nonempty)) in
          elim (region_for_lem ps (b + r.size) x m p o.4) [
            | inl (f, pn) ↦ elim (Option-cases (floor_entry (x * ps) m)) [
              | inl z ↦ inl (ground arith, ground arith)
              | inr (e, z) ↦ inl (ground arith, ground arith)
            ]
            | inr (b', r', f, l, le', lt', pn) ↦ elim (Option-cases (floor_entry (x * ps) m)) [
              | inl z ↦ absurd (ground arith)
              | inr (e, z) ↦ inr (b', r', ground arith, ground arith, le', lt', ground arith)
            ]
          ]
    ]
  ]
