-- ===== src/Memory/Slab/Allocate.antt =====
-- What allocate_pages hands out and what free_pages takes back.
use native.Mathlib.Nat.{div-mul-le_self, lt-div-mul-add}
use ram_vram_sharing.Prelude.{
  ℕ, zero, suc, ◌+◌, ◌*◌, ◌/◌, ◌≤◌, ◌<◌, ◌≡◌, refl, ◌⊎◌, inl, inr, ◌&&◌, List, [], ◌∷◌, arith, ltb,
  leb, ◌==◌, if◌then◌else◌, Bool-cases, length, count,
}
use ram_vram_sharing.Memory.Raw.{bad_alloc, ok, throw}
use ram_vram_sharing.Memory.Slab.{free, allocated, Slab, mark, take_pages, allocate_pages}
use ram_vram_sharing.Memory.Slab.Invariant.{expected, IsValid, take_pages_sizes, take_pages-IsValid}

step_mul : (x y b : ℕ) → x < y → x * b + b ≤ y * b
step_mul x y b h = grind arith

-- An address lies in the page that its quotient names.
pub in_page : (b p a : ℕ) → 0 < b → (leb (p * b) a && ltb a (p * b + b)) ≡ (a / b == p)
in_page b p a h = ground (
  arith,
  div-mul-le_self a b,
  lt-div-mul-add {a = a} h,
  step_mul (a / b) p b,
  step_mul p (a / b) b,
)

-- The hand-out takes the first `n` pages off the list, each as often as it leaves it.
take_pages_split :
    (n : ℕ) (xs : List ℕ) (s : Slab)
    → n ≤ length xs
    → let r = take_pages n xs s in
      (length r.1 ≡ n)
      × (length r.0.free_list + n ≡ length xs)
      × ((q : ℕ) → count q r.1 + count q r.0.free_list ≡ count q xs)
unfolding take_pages
take_pages_split zero xs s h = (refl, omega arith, λ q. omega arith)
take_pages_split (suc n) [] s h = absurd (omega arith)
take_pages_split (suc n) (p ∷ xs) s h =
    let ih = take_pages_split n xs (mark p s) (omega arith) in
    (omega (arith, ih.0), omega (arith, ih.1), λ q. omega (arith, ih.2 q))

-- A page handed out is marked and cleared; every other page keeps its mark and its bytes.
take_pages_effect :
    (n : ℕ) (xs : List ℕ) (s : Slab)
    → 0 < s.page_size
    → let r = take_pages n xs s in
      ((q : ℕ) → r.0.page_states q ≡ (if ltb 0 (count q r.1) then allocated else s.page_states q))
      × ((a : ℕ) → r.0.buffer a ≡ (if ltb 0 (count (a / s.page_size) r.1) then 0 else s.buffer a))
unfolding take_pages mark
take_pages_effect zero xs s h = (λ q. refl, λ a. refl)
take_pages_effect (suc n) [] s h = (λ q. refl, λ a. refl)
take_pages_effect (suc n) (p ∷ xs) s h =
    let ih = take_pages_effect n xs (mark p s) h in
    (λ q. ground (arith, ih.0 q), λ a. ground (arith, ih.1 a, in_page s.page_size p a h))

-- What allocate_pages promises when it succeeds: `count` distinct pages, in range, that were free
-- and now are not; they read as zero, and no other page changes its mark or a byte.
pub record Granted (count_ : ℕ) (s s' : Slab) (ps : List ℕ) : Type 0 where
  pub enough : length ps ≡ count_
  pub fewer : length s'.free_list + count_ ≡ length s.free_list
  pub moved : (q : ℕ) → count q ps + count q s'.free_list ≡ count q s.free_list
  pub origin :
      (q : ℕ)
      → (count q ps ≡ 0) ⊎ ((count q ps ≡ 1) × (q < s.total_pages) × (s.page_states q ≡ free))
  pub marks :
      (q : ℕ) → s'.page_states q ≡ (if ltb 0 (count q ps) then allocated else s.page_states q)
  pub bytes : (a : ℕ) → s'.buffer a ≡ (if ltb 0 (count (a / s.page_size) ps) then 0 else s.buffer a)
  pub same_size : s'.page_size ≡ s.page_size
  pub same_total : s'.total_pages ≡ s.total_pages

expected_cases :
    (s : Slab) (q : ℕ)
    → (expected s q ≡ 0) ⊎ ((expected s q ≡ 1) × (q < s.total_pages) × (s.page_states q ≡ free))
expected_cases s q = ground arith

take_pages-Granted :
    (n : ℕ) (s : Slab)
    → IsValid s
    → n ≤ length s.free_list
    → let r = take_pages n s.free_list s in Granted n s r.0 r.1
take_pages-Granted n s v h =
    let split = take_pages_split n s.free_list s h in
    let effect = take_pages_effect n s.free_list s v.page_pos in
    let sizes = take_pages_sizes n s.free_list s in
    record {
      enough = split.0;
      fewer = split.1;
      moved = split.2;
      origin = λ q. ground (arith, split.2 q, v.tracks q, expected_cases s q);
      marks = effect.0;
      bytes = effect.1;
      same_size = sizes.0;
      same_total = sizes.1;
    }

-- On a valid slab allocate_pages throws bad_alloc, and changes nothing, exactly when fewer pages
-- are free than asked for; otherwise it keeps the slab valid and grants the pages.
pub allocate_pages_lem :
    (n : ℕ) (s : Slab)
    → IsValid s
    → ((length s.free_list < n) × (allocate_pages n s ≡ (s, throw bad_alloc)))
      ⊎ ((s' : Slab) × (ps : List ℕ) × (allocate_pages n s ≡ (s', ok ps))
          × IsValid s'
          × Granted n s s' ps)
allocate_pages_lem n s v = elim (Bool-cases (ltb (length s.free_list) n)) [
  | inl e ↦ inl (ground arith, unfold allocate_pages in rw e)
  | inr e ↦ inr (
    (take_pages n s.free_list s).0,
    (take_pages n s.free_list s).1,
    unfold allocate_pages in rw e,
    take_pages-IsValid n s v,
    take_pages-Granted n s v (ground arith),
  )
]
