-- ===== src/Client/Arena/Gaps.antt =====
-- The gaps between blocks, and the merges of insert_free: what is freed fills a gap, and the block
-- that goes back touches no other.
use ram_vram_sharing.Prelude.{
  ℕ, suc, ◌+◌, ◌≤◌, ◌<◌, max, ◌≡◌, refl, ◌⊎◌, inl, inr, none, some, [], ◌∷◌, arith, ◌==◌,
  Bool-cases, lookup, erase,
}
use ram_vram_sharing.Client.Arena.{Blocks, emplace}
use ram_vram_sharing.Client.Arena.Blocks.{cover, AllPositive, Separated, Apart}

pub Apart-mono :
    (l r k v l' r' k' v' : ℕ) (m : Blocks)
    → k + l' ≤ k' + l
    → k' + v' + r' ≤ k + v + r
    → Apart l r k v m
    → Apart l' r' k' v' m
Apart-mono l r k v l' r' k' v' [] p q a = tt
Apart-mono l r k v l' r' k' v' ((j, w) ∷ m) p q a =
    (ground (arith, a.0), Apart-mono l r k v l' r' k' v' m p q a.1)

pub Apart-erase : (l r k v j : ℕ) (m : Blocks) → Apart l r k v m → Apart l r k v (erase j m)
Apart-erase l r k v j [] a = tt
Apart-erase l r k v j ((i, u) ∷ m) a = ground (arith, Apart-erase l r k v j m a.1, a.0, a.1)

pub Apart-emplace :
    (l r k v j w : ℕ) (m : Blocks)
    → (j + w + l ≤ k) ⊎ (k + v + r ≤ j)
    → Apart l r k v m
    → Apart l r k v (emplace j w m)
unfolding emplace
Apart-emplace l r k v j w [] h a = (h, tt)
Apart-emplace l r k v j w ((i, u) ∷ m) h a =
    ground (arith, Apart-emplace l r k v j w m h a.1, a.0, a.1)

pub Separated-lookup : (n k : ℕ) (m : Blocks) {v : ℕ} → Separated n m → lookup k m ≡ some v → n ≤ k
Separated-lookup n k [] s e = cc
Separated-lookup n k ((j, w) ∷ m) {v} s e =
    ground (arith, Separated-lookup (suc (j + w)) k m {v = v} s.2, s.0)

pub beyond-Apart : (l r k v n : ℕ) (m : Blocks) → k + v + r ≤ n → Separated n m → Apart l r k v m
beyond-Apart l r k v n [] h s = tt
beyond-Apart l r k v n ((j, w) ∷ m) h s =
    (inr (omega (arith, s.0)), beyond-Apart l r k v (suc (j + w)) m (omega (arith, s.0)) s.2)

-- What is left when a block is taken out does not touch its place.
pub erased-Apart :
    (n k : ℕ) (m : Blocks) {v : ℕ} → Separated n m → lookup k m ≡ some v → Apart 1 1 k v (erase k m)
erased-Apart n k [] s e = tt
erased-Apart n k ((j, w) ∷ m) {v} s e = elim (Bool-cases (j == k)) [
  | inl q ↦ let rest = beyond-Apart 1 1 j w (suc (j + w)) m (omega arith) s.2 in ground arith
  | inr q ↦
      let e' : lookup k m ≡ some v = ground arith in
      let rest = erased-Apart (suc (j + w)) k m {v = v} s.2 e' in
      let after = Separated-lookup (suc (j + w)) k m s.2 e' in ground arith
]

pub Apart-lookup :
    (l r k v : ℕ) (m : Blocks) → 0 < v → AllPositive m → Apart l r k v m → lookup k m ≡ none
Apart-lookup l r k v [] q p a = refl
Apart-lookup l r k v ((j, w) ∷ m) q p a = ground (arith, Apart-lookup l r k v m q p.1 a.1, a.0, p.0)

-- A block whose bytes are all uncovered overlaps none.
pub cover-Apart :
    (k v : ℕ) (m : Blocks)
    → ((x : ℕ) → k ≤ x → x < k + v → cover x m ≡ 0)
    → 0 < v
    → AllPositive m
    → Apart 0 0 k v m
cover-Apart k v [] h q p = tt
cover-Apart k v ((j, w) ∷ m) h q p =
    (ground (arith, h (max k j), p.0), cover-Apart k v m (λ x a b. omega (arith, h x a b)) q p.1)

pub Apart-right :
    (o l : ℕ) (m : Blocks) → lookup (o + l) m ≡ none → Apart 0 0 o l m → Apart 0 1 o l m
Apart-right o l [] e a = tt
Apart-right o l ((j, w) ∷ m) e a = ground (arith, Apart-right o l m, a.0, a.1)

-- Two neighbours taken as one.
pub Apart-join :
    (l r o u w : ℕ) (m : Blocks) → Apart l 0 o u m → Apart 1 r (o + u) w m → Apart l r o (u + w) m
Apart-join l r o u w [] a b = tt
Apart-join l r o u w ((i, z) ∷ m) a b = (ground (arith, a.0, b.0), Apart-join l r o u w m a.1 b.1)

pub Apart-join_back :
    (l r o u w : ℕ) (m : Blocks) → Apart l 1 o u m → Apart 0 r (o + u) w m → Apart l r o (u + w) m
Apart-join_back l r o u w [] a b = tt
Apart-join_back l r o u w ((i, z) ∷ m) a b =
    (ground (arith, a.0, b.0), Apart-join_back l r o u w m a.1 b.1)
