-- ===== src/Platform/Pages/Visit.antt =====
-- What for_each_page does to the states of the pages and to the counter.
use mathlib.Core.Option
use native.Mathlib.Nat.{add-mul}
use ram_vram_sharing.Prelude.{
  ℕ, zero, suc, ◌+◌, ◌-◌, ◌*◌, ◌/◌, ◌≤◌, ◌<◌, ◌≡◌, refl, inl, inr, ◌&&◌, some, List, [], ◌∷◌, arith,
  ltb, leb, ◌==◌, if◌then◌else◌, Bool-cases, length, lookup, assign,
}
use ram_vram_sharing.Platform.Pages.{Region, Regions, Book, get_elem?, modify, touch, visit}
use ram_vram_sharing.Platform.Pages.Layout.{Ordered, page_at, region_for_lem}
use ram_vram_sharing.Platform.Pages.Update.{
  Ordered-assign, page_at-assign, get_elem?-modify, length-modify, page_at-lookup,
}

module _ {P : Type 0} (w : P → ℕ) where
  abbrev pub sum : List P → ℕ
  sum [] = 0
  sum (p ∷ ps) = w p + sum ps

  -- The weight of all pages.
  abbrev pub total : Regions P → ℕ
  total [] = 0
  total ((b, r) ∷ m) = sum r.pages + total m

  sum-modify :
      (f : P → P) (xs : List P) (i : ℕ) {p : P}
      → get_elem? xs i ≡ some p
      → (sum (modify f xs i) + w p ≡ sum xs + w (f p)) × (w p ≤ sum xs)
  sum-modify f [] i e = cc
  sum-modify f (x ∷ xs) zero {p} e = let q : x ≡ p = cc in rw q (omega arith, omega arith)
  sum-modify f (x ∷ xs) (suc i) {p} e =
      let ih = sum-modify f xs i {p = p} e in (omega (arith, ih), omega (arith, ih))

  total-assign :
      (b : ℕ) (m : Regions P) (r r' : Region P)
      → lookup b m ≡ some r
      → (total (assign b r' m) + sum r.pages ≡ total m + sum r'.pages) × (sum r.pages ≤ total m)
  total-assign b [] r r' e = cc
  total-assign b ((c, s) ∷ m) r r' e = elim (Bool-cases (c == b)) [
    | inl same ↦ let q : s ≡ r = ground arith in rw (same, q) (omega arith, omega arith)
    | inr other ↦
        let ih = total-assign b m r r' (ground arith) in
        rw other (omega (arith, ih), omega (arith, ih))
  ]

module _ {P : Type 0} where
  -- The regions are in order, and the counter is the number of resident pages.
  pub record IsValid (w : P → ℕ) (ps : ℕ) (k : Book P) : Type 0 where
    pub ordered : Ordered ps 0 k.regions
    pub counted : k.resident_pages ≡ total w k.regions

  -- The counter follows the state.
  abbrev pub Follows : (P → ℕ) → (P → P) → (P → ℕ → ℕ) → Type 0
  Follows w f g = (p : P) (n : ℕ) → w p ≤ n → g p n + w p ≡ n + w (f p)

get_elem?-inside :
    {P : Type 0} (xs : List P) (i : ℕ) → i < length xs → (q : P) × (get_elem? xs i ≡ some q)
get_elem?-inside [] i h = absurd (omega arith)
get_elem?-inside (x ∷ xs) zero h = (x, refl)
get_elem?-inside (x ∷ xs) (suc i) h = get_elem?-inside xs i (omega arith)

module _ {P : Type 0} (w : P → ℕ) (f : P → P) (g : P → ℕ → ℕ) (follows : Follows w f g) (ps : ℕ)
    (p : 0 < ps) where
  touch_lem :
      (x : ℕ) (k : Book P)
      → IsValid w ps k
      → IsValid w ps (touch f g ps (x * ps) k)
        × ((y : ℕ)
            → page_at ps y (touch f g ps (x * ps) k).regions
              ≡ (if x == y then Option.map f (page_at ps y k.regions) else page_at ps y k.regions))
  unfolding touch
  touch_lem x k v = elim (region_for_lem ps 0 x k.regions p v.ordered) [
    | inl (e, z) ↦ rw (touch, e) (v, λ y. ground (arith, z))
    | inr (b, r, e, l, le, lt, pa) ↦
        let i : ℕ = x - b / ps in
        let r' : Region P = record r { pages = modify f r.pages i } in
        let (q, at_) = get_elem?-inside r.pages i (omega arith) in
        let lengths = length-modify f r.pages i in
        let sums = sum-modify w f r.pages i {p = q} at_ in
        let totals = total-assign w b k.regions r r' l in
        rw (touch, e, at_)
          (
            record {
              ordered = Ordered-assign ps 0 b k.regions r r' v.ordered l refl lengths;
              counted = omega (
                arith,
                v.counted,
                sums,
                totals,
                follows q k.resident_pages (omega (arith, v.counted, sums, totals)),
              );
            },
            λ y.
                let set_ = page_at-assign ps 0 y b k.regions r r' p v.ordered l lengths in
                let was = page_at-lookup ps 0 y b k.regions {r = r} p v.ordered l in
                ground (arith, set_, was, get_elem?-modify f r.pages i (y - b / ps)),
          )
  ]

  pub visit_lem :
      (n x : ℕ) (k : Book P)
      → IsValid w ps k
      → IsValid w ps (visit f g ps (x * ps) n k)
        × ((y : ℕ)
            → page_at ps y (visit f g ps (x * ps) n k).regions ≡ (
                if leb x y && ltb y (x + n)
                then Option.map f (page_at ps y k.regions)
                else page_at ps y k.regions))
  unfolding visit
  visit_lem zero x k v = (v, λ y. ground arith)
  visit_lem (suc n) x k v =
      let next : x * ps + ps ≡ (x + 1) * ps = omega (arith, add-mul x 1 ps) in
      let first = touch_lem x k v in
      let rest = visit_lem n (x + 1) (touch f g ps (x * ps) k) first.0 in
      rw next (rest.0, λ y. ground (arith, rest.1 y, first.1 y))
