-- ===== src/Client/Arena/Split.antt =====
-- What allocate leaves of a free block, on both sides of the bytes it takes.
use ram_vram_sharing.Prelude.{ℕ, ◌+◌, ◌<◌, ◌≡◌, inl, inr, arith, ltb, Bool-cases}
use ram_vram_sharing.Client.Arena.{Blocks, keep}
use ram_vram_sharing.Client.Arena.Blocks.{
  hit, cover, Separated, Apart, cover-emplace, Separated-AllPositive, Separated-emplace,
}
use ram_vram_sharing.Client.Arena.Gaps.{Apart-mono, Apart-emplace, Apart-lookup}

hit_split :
    (x k l b r : ℕ) → hit x k (l + b + r) ≡ hit x k l + hit x (k + l) b + hit x (k + l + b) r
hit_split x k l b r = ground arith

keep_lem :
    (k v : ℕ) (m : Blocks)
    → Separated 0 m
    → Apart 1 1 k v m
    → Separated 0 (keep k v m) × ((x : ℕ) → cover x (keep k v m) ≡ hit x k v + cover x m)
keep_lem k v m s a = elim (Bool-cases (ltb 0 v)) [
  | inl p ↦
      let q : 0 < v = ground arith in
      let free_ = Apart-lookup 1 1 k v m q (Separated-AllPositive 0 m s) a in
      rw p (Separated-emplace 0 k v m (omega arith) q s a, λ x. cover-emplace x k v m free_)
  | inr p ↦ rw p (s, λ x. ground arith)
]

-- What is left on both sides of the bytes taken goes back in order.
pub rest_lem :
    (k lead bytes trail : ℕ) (m : Blocks)
    → 0 < bytes
    → Separated 0 m
    → Apart 1 1 k (lead + bytes + trail) m
    → let m' = keep (k + lead + bytes) trail (keep k lead m) in
      Separated 0 m'
      × ((x : ℕ) → hit x k (lead + bytes + trail) + cover x m ≡ hit x (k + lead) bytes + cover x m')
rest_lem k lead bytes trail m p s a =
    let total : ℕ = lead + bytes + trail in
    let one =
      keep_lem k lead m s (Apart-mono 1 1 k total 1 1 k lead m (omega arith) (omega arith) a) in
    let gap = Apart-mono 1 1 k total 1 1 (k + lead + bytes) trail m (omega arith) (omega arith) a in
    let gap' : Apart 1 1 (k + lead + bytes) trail (keep k lead m) = elim (Bool-cases (ltb 0 lead)) [
      | inl q ↦
          rw q (Apart-emplace 1 1 (k + lead + bytes) trail k lead m (inl (omega (arith, p))) gap)
      | inr q ↦ rw q gap
    ] in
    let two = keep_lem (k + lead + bytes) trail (keep k lead m) one.0 gap' in
    (two.0, λ x. omega (arith, one.1 x, two.1 x, hit_split x k lead bytes trail))
