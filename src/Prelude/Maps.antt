-- ===== src/Prelude/Maps.antt =====
-- Maps from numbers as association lists: `unordered_map` over integer keys.
use Prim.Native.Nat.{ℕ}
use mathlib.Core.Path.{◌≡◌, refl}
use mathlib.Core.Option.{Option, none, some}
use mathlib.Core.List.{List, [], ◌∷◌}
use mathlib.Core.Logic.{◌≢◌}
use native.Mathlib.Omega.{arith}
use ram_vram_sharing.Prelude.Tests.{◌==◌, if◌then◌else◌}

module _ {ℓ} {V : Type ℓ} where
  abbrev pub lookup : ℕ → List (ℕ × V) → Option V
  lookup k [] = none
  lookup k ((j, v) ∷ m) = if j == k then some v else lookup k m

  abbrev pub erase : ℕ → List (ℕ × V) → List (ℕ × V)
  erase k [] = []
  erase k ((j, v) ∷ m) = if j == k then m else (j, v) ∷ erase k m

  -- `m[k] = v`: an entry under `k` is replaced.
  abbrev pub assign : ℕ → V → List (ℕ × V) → List (ℕ × V)
  assign k v [] = (k, v) ∷ []
  assign k v ((j, w) ∷ m) = if j == k then (k, v) ∷ m else (j, w) ∷ assign k v m

  pub lookup-assign :
      (k j : ℕ) (v : V) (m : List (ℕ × V))
      → lookup j (assign k v m) ≡ (if k == j then some v else lookup j m)
  lookup-assign k j v [] = refl
  lookup-assign k j v ((i, w) ∷ m) = ground (arith, lookup-assign k j v m)

  pub lookup-erase_ne : (k j : ℕ) (m : List (ℕ × V)) → k ≢ j → lookup j (erase k m) ≡ lookup j m
  lookup-erase_ne k j [] h = refl
  lookup-erase_ne k j ((i, w) ∷ m) h = ground (arith, lookup-erase_ne k j m h)

  -- No key occurs twice.
  abbrev pub IsUnique : List (ℕ × V) → Type ℓ
  IsUnique [] = Unit
  IsUnique ((j, v) ∷ m) = (lookup j m ≡ none) × IsUnique m

  pub lookup-erase_self : (k : ℕ) (m : List (ℕ × V)) → IsUnique m → lookup k (erase k m) ≡ none
  lookup-erase_self k [] u = refl
  lookup-erase_self k ((i, w) ∷ m) u = ground (arith, lookup-erase_self k m u.1)

  pub assign-IsUnique : (k : ℕ) (v : V) (m : List (ℕ × V)) → IsUnique m → IsUnique (assign k v m)
  assign-IsUnique k v [] u = (refl, tt)
  assign-IsUnique k v ((i, w) ∷ m) u =
      ground (arith, assign-IsUnique k v m u.1, lookup-assign k i v m)

  lookup-erase-none : (k j : ℕ) (m : List (ℕ × V)) → lookup j m ≡ none → lookup j (erase k m) ≡ none
  lookup-erase-none k j [] h = refl
  lookup-erase-none k j ((i, w) ∷ m) h = ground (arith, lookup-erase-none k j m)

  pub erase-IsUnique : (k : ℕ) (m : List (ℕ × V)) → IsUnique m → IsUnique (erase k m)
  erase-IsUnique k [] u = tt
  erase-IsUnique k ((i, w) ∷ m) u = ground (arith, erase-IsUnique k m u.1, lookup-erase-none k i m)
