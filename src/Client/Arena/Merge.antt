-- ===== src/Client/Arena/Merge.antt =====
-- insert_free: a freed block is merged with the free blocks on both sides of it.
use ram_vram_sharing.Prelude.{
  ℕ, suc, ◌+◌, ◌≤◌, ◌<◌, ◌≡◌, refl, ◌≢◌, inl, inr, none, some, [], ◌∷◌, arith, ltb, ◌==◌,
  Bool-cases, Option-cases, lookup, erase,
}
use ram_vram_sharing.Client.Arena.{Blocks, emplace, prev_of, merge_next, merge_prev, insert_free}
use ram_vram_sharing.Client.Arena.Blocks.{
  hit, cover, Separated, Apart, cover-erase, cover-emplace, Separated-AllPositive, Separated-erase,
  Separated-emplace,
}
use ram_vram_sharing.Client.Arena.Gaps.{
  Apart-mono, Apart-erase, Separated-lookup, beyond-Apart, erased-Apart, Apart-lookup, Apart-right,
  Apart-join, Apart-join_back,
}

-- The block of `l` bytes at `o` has been added to the free blocks `m`.
pub record Added (o l : ℕ) (m m' : Blocks) : Type 0 where
  pub separated : Separated 0 m'
  pub covered : (x : ℕ) → cover x m' ≡ hit x o l + cover x m

merge_next_lem :
    (o l : ℕ) (m : Blocks)
    → 0 < l
    → Separated 0 m
    → Apart 0 0 o l m
    → let (l', m') = merge_next o l m in
      (l ≤ l')
      × Separated 0 m'
      × Apart 0 1 o l' m'
      × ((x : ℕ) → hit x o l' + cover x m' ≡ hit x o l + cover x m)
merge_next_lem o l m p s a = elim (Option-cases (lookup (o + l) m)) [
  | inl e ↦ rw (e, merge_next) (omega arith, s, Apart-right o l m e a, λ x. refl)
  | inr (w, e) ↦
      let b =
        Apart-join 0 1 o l w (erase (o + l) m) (Apart-erase 0 0 o l (o + l) m a)
          (erased-Apart 0 (o + l) m s e) in
      rw (e, merge_next)
        (
          omega arith,
          Separated-erase 0 (o + l) m s,
          b,
          λ x. ground (arith, cover-erase x (o + l) m e),
        )
]

prev_none :
    (n o l : ℕ) (m : Blocks)
    → prev_of o m ≡ none
    → Separated n m
    → Apart 0 1 o l m
    → Apart 1 1 o l m
unfolding prev_of
prev_none n o l [] e s a = tt
prev_none n o l ((j, w) ∷ m) e s a = elim (Bool-cases (ltb j o)) [
  | inl lt ↦ elim (Option-cases (prev_of o m)) [
    | inl z ↦ absurd (ground arith)
    | inr (q, z) ↦ absurd (ground arith)
  ]
  | inr ge ↦
      let far : o + l + 1 ≤ j = ground (arith, a.0, s.1) in
      (inr far, beyond-Apart 1 1 o l (suc (j + w)) m (omega arith) s.2)
]

prev_some :
    (n o : ℕ) (m : Blocks) {j w : ℕ}
    → prev_of o m ≡ some (j, w)
    → Separated n m
    → (lookup j m ≡ some w) × (j < o)
unfolding prev_of
prev_some n o [] e s = cc
prev_some n o ((i, u) ∷ m) {j} {w} e s = elim (Option-cases (prev_of o m)) [
  | inl z ↦ ground arith
  | inr (q, z) ↦
      let z' : prev_of o m ≡ some (j, w) = ground arith in
      let ih = prev_some (suc (i + u)) o m {j = j} {w = w} z' s.2 in
      let after = Separated-lookup (suc (i + u)) j m s.2 ih.0 in ground arith
]

prev-Apart :
    (n o l : ℕ) (m : Blocks) {j w : ℕ}
    → prev_of o m ≡ some (j, w)
    → j + w ≢ o
    → Separated n m
    → Apart 0 1 o l m
    → Apart 1 1 o l m
unfolding prev_of
prev-Apart n o l [] e d s a = tt
prev-Apart n o l ((i, u) ∷ m) {j} {w} e d s a = elim (Option-cases (prev_of o m)) [
  | inl z ↦ let rest = prev_none (suc (i + u)) o l m z s.2 a.1 in ground (arith, a.0)
  | inr (q, z) ↦
      let z' : prev_of o m ≡ some (j, w) = ground arith in
      let ih = prev_some (suc (i + u)) o m {j = j} {w = w} z' s.2 in
      let after = Separated-lookup (suc (i + u)) j m s.2 ih.0 in
      let rest = prev-Apart (suc (i + u)) o l m {j = j} {w = w} z' d s.2 a.1 in
      (inl (omega arith), rest)
]

place_lem :
    (o l : ℕ) (m : Blocks) → 0 < l → Separated 0 m → Apart 1 1 o l m → Added o l m (emplace o l m)
place_lem o l m p s a = record {
  separated = Separated-emplace 0 o l m (omega arith) p s a;
  covered = λ x. cover-emplace x o l m (Apart-lookup 1 1 o l m p (Separated-AllPositive 0 m s) a);
}

-- The merge with the block that ends where the freed one starts.
merge_back :
    (o l j w : ℕ) (m : Blocks)
    → 0 < l
    → Separated 0 m
    → Apart 0 1 o l m
    → lookup j m ≡ some w
    → j + w ≡ o
    → Added o l m (emplace j (l + w) (erase j m))
merge_back o l j w m p s a e q =
    let rest = erase j m in
    let two : Apart 0 1 (j + w) l rest =
      Apart-mono 0 1 o l 0 1 (j + w) l rest (omega (arith, q)) (omega (arith, q))
        (Apart-erase 0 1 o l j m a) in
    let one = Apart-join_back 1 1 j w l rest (erased-Apart 0 j m s e) two in
    let gap = Apart-mono 1 1 j (w + l) 1 1 j (l + w) rest (omega arith) (omega arith) one in
    let r = place_lem j (l + w) rest (omega arith) (Separated-erase 0 j m s) gap in
    record {
      separated = r.separated;
      covered = λ x. ground (arith, r.covered x, cover-erase x j m e, q);
    }

merge_prev_lem :
    (o l : ℕ) (m : Blocks)
    → 0 < l
    → Separated 0 m
    → Apart 0 1 o l m
    → Added o l m (merge_prev o l m)
unfolding merge_prev
merge_prev_lem o l m p s a = elim (Option-cases (prev_of o m)) [
  | inl e ↦ rw (e, merge_prev) (place_lem o l m p s (prev_none 0 o l m e s a))
  | inr ((j, w), e) ↦ elim (Bool-cases (j + w == o)) [
    | inr far ↦
        rw (e, merge_prev, far)
          (place_lem o l m p s (prev-Apart 0 o l m e (λ q. ground (arith, q)) s a))
    | inl near ↦
        rw (e, merge_prev, near) (merge_back o l j w m p s a (prev_some 0 o m e s).0 (ground arith))
  ]
]

-- A block that overlaps no free block goes back: its bytes and no others become free, the free
-- blocks stay in order, and no two of them touch.
pub insert_free-Added :
    (o l : ℕ) (m : Blocks)
    → 0 < l
    → Separated 0 m
    → Apart 0 0 o l m
    → Added o l m (insert_free o l m)
unfolding insert_free
insert_free-Added o l m p s a =
    let (l', m') = merge_next o l m in
    let n = merge_next_lem o l m p s a in
    let r = merge_prev_lem o l' m' (omega (arith, n.0)) n.1 n.2 in
    record { separated = r.separated; covered = λ x. omega (arith, r.covered x, n.3 x) }
