-- ===== src/Platform/Pages/Update.antt =====
-- A change of the state of one page, and of a range of pages.
use native.Mathlib.Nat.{add-mul, le_of_mul-le-mul_right}
use mathlib.Core.Option
use ram_vram_sharing.Prelude.{
  ℕ, zero, suc, ◌+◌, ◌-◌, ◌*◌, ◌/◌, ◌≤◌, ◌<◌, ◌≡◌, refl, sym, ap, ◌∙◌, inl, inr, ◌&&◌, some, List,
  [], ◌∷◌, arith, ltb, leb, ◌==◌, if◌then◌else◌, Bool-cases, length, lookup, assign,
}
use ram_vram_sharing.Platform.Pages.{Region, Regions, get_elem?, modify}
use ram_vram_sharing.Platform.Pages.Layout.{Ordered, page_at}

module _ {P : Type 0} where
  entry_lem :
      (ps n b : ℕ) (m : Regions P) {r : Region P}
      → Ordered ps n m
      → lookup b m ≡ some r
      → (n ≤ b) × (b ≡ b / ps * ps)
  entry_lem ps n b [] o e = cc
  entry_lem ps n b ((c, s) ∷ m) {r} o e = elim (Bool-cases (c == b)) [
    | inl same ↦ let q : c ≡ b = ground arith in (ground arith, rw (← q) o.1)
    | inr other ↦
        let (le, al) = entry_lem ps (c + s.size) b m {r = r} o.4 (ground arith) in
        (omega (arith, o.0), al)
  ]

  -- A later region starts behind the last page of an earlier one.
  apart_lem :
      (ps n c b : ℕ) (s : Region P) (m : Regions P) {r : Region P}
      → 0 < ps
      → Ordered ps n ((c, s) ∷ m)
      → lookup b m ≡ some r
      → c / ps + length s.pages ≤ b / ps
  apart_lem ps n c b s m {r} p o e =
      let (le, al) = entry_lem ps (c + s.size) b m {r = r} o.4 e in
      le_of_mul-le-mul_right (omega (arith, al, add-mul (c / ps) (length s.pages) ps, o.1, o.2)) p

  pub Ordered-assign :
      (ps n b : ℕ) (m : Regions P) (r r' : Region P)
      → Ordered ps n m
      → lookup b m ≡ some r
      → r'.size ≡ r.size
      → length r'.pages ≡ length r.pages
      → Ordered ps n (assign b r' m)
  Ordered-assign ps n b [] r r' o e z l = cc
  Ordered-assign ps n b ((c, s) ∷ m) r r' o e z l = elim (Bool-cases (c == b)) [
    | inl same ↦
        let q : c ≡ b = ground arith in
        let w : s ≡ r = ground arith in
        let size : s.size ≡ r'.size = ground arith in
        let pages : length s.pages ≡ length r'.pages =
          ap (λ (x : Region P). length x.pages) w ∙ sym l in
        rw (same, ← q)
          (
            o.0,
            o.1,
            sym size ∙ o.2 ∙ ap (λ (k : ℕ). k * ps) pages,
            omega (arith, o.3, pages),
            rw (← size) o.4,
          )
    | inr other ↦
        rw other
          (o.0, o.1, o.2, o.3, Ordered-assign ps (c + s.size) b m r r' o.4 (ground arith) z l)
  ]

  pub page_at-assign :
      (ps n y b : ℕ) (m : Regions P) (r r' : Region P)
      → 0 < ps
      → Ordered ps n m
      → lookup b m ≡ some r
      → length r'.pages ≡ length r.pages
      → page_at ps y (assign b r' m) ≡ (
          if leb (b / ps) y && ltb y (b / ps + length r.pages)
          then get_elem? r'.pages (y - b / ps)
          else page_at ps y m)
  page_at-assign ps n y b [] r r' p o e l = cc
  page_at-assign ps n y b ((c, s) ∷ m) r r' p o e l = elim (Bool-cases (c == b)) [
    | inl same ↦
        let q : c ≡ b = ground arith in
        let w : s ≡ r = ground arith in ground (arith, ap (λ (z : Region P). length z.pages) w)
    | inr other ↦
        let a = apart_lem ps n c b s m {r = r} p o (ground arith) in
        let ih = page_at-assign ps (c + s.size) y b m r r' p o.4 (ground arith) l in
        ground (arith, ih)
  ]

  pub get_elem?-modify :
      (f : P → P) (xs : List P) (i j : ℕ)
      → get_elem? (modify f xs i) j
        ≡ (if i == j then Option.map f (get_elem? xs j) else get_elem? xs j)
  get_elem?-modify f [] i j = ground arith
  get_elem?-modify f (x ∷ xs) zero zero = refl
  get_elem?-modify f (x ∷ xs) zero (suc j) = ground arith
  get_elem?-modify f (x ∷ xs) (suc i) zero = ground arith
  get_elem?-modify f (x ∷ xs) (suc i) (suc j) = ground (arith, get_elem?-modify f xs i j)

  pub length-modify : (f : P → P) (xs : List P) (i : ℕ) → length (modify f xs i) ≡ length xs
  length-modify f [] i = refl
  length-modify f (x ∷ xs) zero = refl
  length-modify f (x ∷ xs) (suc i) = omega (arith, length-modify f xs i)

  pub page_at-lookup :
      (ps n y b : ℕ) (m : Regions P) {r : Region P}
      → 0 < ps
      → Ordered ps n m
      → lookup b m ≡ some r
      → b / ps ≤ y
      → y < b / ps + length r.pages
      → page_at ps y m ≡ get_elem? r.pages (y - b / ps)
  page_at-lookup ps n y b [] p o e le lt = cc
  page_at-lookup ps n y b ((c, s) ∷ m) {r} p o e le lt = elim (Bool-cases (c == b)) [
    | inl same ↦
        let q : c ≡ b = ground arith in
        let w : s ≡ r = ground arith in ground (arith, ap (λ (z : Region P). length z.pages) w)
    | inr other ↦
        let a = apart_lem ps n c b s m {r = r} p o (ground arith) in
        let ih = page_at-lookup ps (c + s.size) y b m {r = r} p o.4 (ground arith) le lt in
        ground (arith, ih)
  ]
