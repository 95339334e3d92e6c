-- ===== src/Client/Arena/Blocks.antt =====
-- Maps of blocks: the bytes they cover, the order of the free blocks and the gaps between them.
use ram_vram_sharing.Prelude.{
  ℕ, suc, ◌+◌, ◌≤◌, ◌<◌, ◌≡◌, refl, ◌⊎◌, inl, inr, ◌&&◌, none, some, [], ◌∷◌, arith, ltb, leb, ◌==◌,
  if◌then◌else◌, lookup, erase,
}
use ram_vram_sharing.Client.Arena.{Blocks, emplace, total_bytes}

-- Whether byte `x` lies in the block of `v` bytes at `k`.
abbrev pub hit : ℕ → ℕ → ℕ → ℕ
hit x k v = if leb k x && ltb x (k + v) then 1 else 0

-- In how many blocks byte `x` lies.
abbrev pub cover : ℕ → Blocks → ℕ
cover x [] = 0
cover x ((k, v) ∷ m) = hit x k v + cover x m

abbrev pub AllPositive : Blocks → Type 0
AllPositive [] = Unit
AllPositive ((k, v) ∷ m) = (0 < v) × AllPositive m

-- The blocks start at `n` or later, in order, none is empty, and no two touch.
abbrev pub Separated : ℕ → Blocks → Type 0
Separated n [] = Unit
Separated n ((k, v) ∷ m) = (n ≤ k) × (0 < v) × Separated (suc (k + v)) m

-- Every block ends at least `l` bytes before `k`, or starts at least `r` bytes after `k + v`.
abbrev pub Apart : ℕ → ℕ → ℕ → ℕ → Blocks → Type 0
Apart l r k v [] = Unit
Apart l r k v ((j, w) ∷ m) = ((j + w + l ≤ k) ⊎ (k + v + r ≤ j)) × Apart l r k v m

pub cover-erase :
    (x k : ℕ) (m : Blocks) {v : ℕ}
    → lookup k m ≡ some v
    → cover x m ≡ hit x k v + cover x (erase k m)
cover-erase x k [] e = cc
cover-erase x k ((j, w) ∷ m) {v} e = ground (arith, cover-erase x k m {v = v})

pub total_bytes-erase :
    (k : ℕ) (m : Blocks) {v : ℕ} → lookup k m ≡ some v → total_bytes m ≡ v + total_bytes (erase k m)
total_bytes-erase k [] e = cc
total_bytes-erase k ((j, w) ∷ m) {v} e = ground (arith, total_bytes-erase k m {v = v})

pub cover-emplace :
    (x k v : ℕ) (m : Blocks) → lookup k m ≡ none → cover x (emplace k v m) ≡ hit x k v + cover x m
unfolding emplace
cover-emplace x k v [] e = omega arith
cover-emplace x k v ((j, w) ∷ m) e = ground (arith, cover-emplace x k v m)

pub total_bytes-emplace :
    (k v : ℕ) (m : Blocks) → lookup k m ≡ none → total_bytes (emplace k v m) ≡ v + total_bytes m
unfolding emplace
total_bytes-emplace k v [] e = omega arith
total_bytes-emplace k v ((j, w) ∷ m) e = ground (arith, total_bytes-emplace k v m)

pub lookup-emplace :
    (x k v : ℕ) (m : Blocks)
    → lookup k m ≡ none
    → lookup x (emplace k v m) ≡ (if k == x then some v else lookup x m)
unfolding emplace
lookup-emplace x k v [] e = ground arith
lookup-emplace x k v ((j, w) ∷ m) e = ground (arith, lookup-emplace x k v m)

pub AllPositive-erase : (k : ℕ) (m : Blocks) → AllPositive m → AllPositive (erase k m)
AllPositive-erase k [] p = tt
AllPositive-erase k ((j, w) ∷ m) p = ground (arith, AllPositive-erase k m p.1)

pub AllPositive-emplace :
    (k v : ℕ) (m : Blocks) → 0 < v → AllPositive m → AllPositive (emplace k v m)
unfolding emplace
AllPositive-emplace k v [] q p = (q, tt)
AllPositive-emplace k v ((j, w) ∷ m) q p = ground (arith, AllPositive-emplace k v m q p.1)

pub AllPositive-lookup : (k : ℕ) (m : Blocks) {v : ℕ} → AllPositive m → lookup k m ≡ some v → 0 < v
AllPositive-lookup k [] p e = cc
AllPositive-lookup k ((j, w) ∷ m) {v} p e = ground (arith, AllPositive-lookup k m {v = v} p.1)

-- A byte in no block is the start of none.
pub uncovered : (k : ℕ) (m : Blocks) → AllPositive m → cover k m ≡ 0 → lookup k m ≡ none
uncovered k [] p e = refl
uncovered k ((j, w) ∷ m) p e = ground (arith, uncovered k m p.1)

pub Separated-AllPositive : (n : ℕ) (m : Blocks) → Separated n m → AllPositive m
Separated-AllPositive n [] s = tt
Separated-AllPositive n ((k, v) ∷ m) s = (s.1, Separated-AllPositive (suc (k + v)) m s.2)

pub Separated-mono : (n n' : ℕ) (m : Blocks) → n ≤ n' → Separated n' m → Separated n m
Separated-mono n n' [] h s = tt
Separated-mono n n' ((k, v) ∷ m) h s = (omega (arith, s.0), s.1, s.2)

pub Separated-erase : (n k : ℕ) (m : Blocks) → Separated n m → Separated n (erase k m)
Separated-erase n k [] s = tt
Separated-erase n k ((j, w) ∷ m) s = ground (
  arith,
  Separated-mono n (suc (j + w)) m (omega (arith, s.0)) s.2,
  Separated-erase (suc (j + w)) k m s.2,
)

pub Separated-emplace :
    (n k v : ℕ) (m : Blocks)
    → n ≤ k
    → 0 < v
    → Separated n m
    → Apart 1 1 k v m
    → Separated n (emplace k v m)
unfolding emplace
Separated-emplace n k v [] h q s a = (h, q, tt)
Separated-emplace n k v ((j, w) ∷ m) h q s a = elim a.0 [
  | inl before ↦
      let rest = Separated-emplace (suc (j + w)) k v m (omega (arith, before)) q s.2 a.1 in
      ground (arith, before, s.1)
  | inr after ↦ ground (arith, after)
]
