-- ===== src/Prelude/Lists.antt =====
-- Lists measured and indexed by native numbers, and the number of times that a number occurs.
use Prim.Native.Nat.{ℕ, zero, suc, ◌+◌, ◌-◌, ◌≤◌, ◌<◌}
use mathlib.Core.Path.{◌≡◌, refl}
use mathlib.Core.Logic.{◌⊎◌, inl, inr}
use mathlib.Core.List.{List, [], ◌∷◌, ◌++◌}
use native.Mathlib.Omega.{arith}
use ram_vram_sharing.Prelude.Tests.{◌==◌, if◌then◌else◌}

module _ {ℓ} {A : Type ℓ} where
  abbrev pub length : List A → ℕ
  length [] = 0
  length (x ∷ xs) = suc (length xs)

  abbrev pub get_or : List A → ℕ → A → A
  get_or [] i d = d
  get_or (x ∷ xs) zero d = x
  get_or (x ∷ xs) (suc i) d = get_or xs i d

  abbrev pub take : ℕ → List A → List A
  take zero xs = []
  take (suc n) [] = []
  take (suc n) (x ∷ xs) = x ∷ take n xs

  abbrev pub drop : ℕ → List A → List A
  drop zero xs = xs
  drop (suc n) [] = []
  drop (suc n) (x ∷ xs) = drop n xs

  pub length-append : (xs ys : List A) → length (xs ++ ys) ≡ length xs + length ys
  length-append [] ys = omega arith
  length-append (x ∷ xs) ys = omega (arith, length-append xs ys)

  pub length-drop : (n : ℕ) (xs : List A) → length (drop n xs) ≡ length xs - n
  length-drop zero xs = omega arith
  length-drop (suc n) [] = omega arith
  length-drop (suc n) (x ∷ xs) = omega (arith, length-drop n xs)

module _ {ℓ} {A : Type ℓ} where
  pub List-cases : (xs : List A) → (xs ≡ []) ⊎ ((x : A) × (rest : List A) × (xs ≡ x ∷ rest))
  List-cases [] = inl refl
  List-cases (x ∷ rest) = inr (x, rest, refl)

-- Occurrences of the number `q`.
module _ (q : ℕ) where
  abbrev pub count : List ℕ → ℕ
  count [] = 0
  count (p ∷ ps) = (if p == q then 1 else 0) + count ps

  pub count-append : (front back : List ℕ) → count (front ++ back) ≡ count front + count back
  count-append [] back = omega arith
  count-append (p ∷ front) back = ground (arith, count-append front back)

-- An element at an index occurs.
pub count-get_or : (xs : List ℕ) (i d : ℕ) → i < length xs → 1 ≤ count (get_or xs i d) xs
count-get_or [] i d h = absurd (omega arith)
count-get_or (x ∷ xs) zero d h = ground arith
count-get_or (x ∷ xs) (suc i) d h = omega (arith, count-get_or xs i d)
