-- ===== src/Client/Lru/Invariant.antt =====
-- The invariant of the cache: its byte count is the sum over its blocks and within the limit, and
-- the map has each handle of the list once and no other.
use ram_vram_sharing.Prelude.{
  ℕ, ◌+◌, ◌-◌, ◌≤◌, ◌<◌, ◌≡◌, refl, ap, inl, inr, none, some, List, [], ◌∷◌, ◌++◌, arith, ltb, ◌==◌,
  if◌then◌else◌, Bool-cases, length, count,
}
use ram_vram_sharing.Client.Lru.{
  CacheBlock, Cache, node, unlink, has_key, erase_key, find, forget, split_last, drop_last,
}

abbrev pub total : List CacheBlock → ℕ
total [] = 0
total (b ∷ bs) = length b.bytes + total bs

abbrev pub handles : List CacheBlock → List ℕ
handles [] = []
handles (b ∷ bs) = b.handle ∷ handles bs

pub record IsValid (c : Cache) : Type 0 where
  pub summed : c.current_bytes ≡ total c.list
  pub within : c.current_bytes ≤ c.max_bytes
  pub mapped : (h : ℕ) → count h c.keys ≡ count h (handles c.list)
  pub distinct : (h : ℕ) → count h c.keys ≤ 1

has_key_lem : (h : ℕ) (ks : List ℕ) → has_key h ks ≡ ltb 0 (count h ks)
unfolding has_key
has_key_lem h [] = refl
has_key_lem h (k ∷ ks) = ground (arith, has_key_lem h ks)

count-erase_key :
    (h k : ℕ) (ks : List ℕ) → count k (erase_key h ks) ≡ count k ks - (if h == k then 1 else 0)
unfolding erase_key
count-erase_key h k [] = ground arith
count-erase_key h k (j ∷ ks) = ground (arith, count-erase_key h k ks)

-- What stands at a node, and what is left without it.
pub unlink_lem :
    (h : ℕ) (bs : List CacheBlock) {b : CacheBlock}
    → node h bs ≡ some b
    → (b.handle ≡ h)
      × (total bs ≡ length b.bytes + total (unlink h bs))
      × ((k : ℕ)
          → count k (handles bs) ≡ (if h == k then 1 else 0) + count k (handles (unlink h bs)))
unfolding node unlink
unlink_lem h [] e = cc
unlink_lem h (c ∷ bs) {b} e = elim (Bool-cases (c.handle == h)) [
  | inl m ↦ (ground arith, ground arith, λ k. ground arith)
  | inr m ↦
      let ih = unlink_lem h bs {b = b} (ground arith) in
      (ih.0, ground (arith, ih.1), λ k. ground (arith, ih.2 k))
]

pub node-some :
    (h : ℕ) (bs : List CacheBlock)
    → 0 < count h (handles bs)
    → (b : CacheBlock) × (node h bs ≡ some b)
unfolding node
node-some h [] p = absurd (omega arith)
node-some h (c ∷ bs) p = elim (Bool-cases (c.handle == h)) [
  | inl e ↦ (c, ground arith)
  | inr e ↦ let (b, i) = node-some h bs (ground arith) in (b, ground (arith, i))
]

pub node-none : (h : ℕ) (bs : List CacheBlock) → count h (handles bs) ≡ 0 → node h bs ≡ none
unfolding node
node-none h [] p = refl
node-none h (c ∷ bs) p = ground (arith, node-none h bs)

-- Under the invariant the map finds exactly what stands in the list.
pub find-node : (h : ℕ) (c : Cache) → IsValid c → find h c ≡ node h c.list
unfolding find
find-node h c v = ground (arith, has_key_lem h c.keys, v.mapped h, node-none h c.list)

pub split_last_lem :
    (b : CacheBlock) (bs : List CacheBlock)
    → let r = split_last b bs in
      (b ∷ bs ≡ r.0 ++ r.1 ∷ [])
      × (total (b ∷ bs) ≡ total r.0 + length r.1.bytes)
      × ((k : ℕ)
          → count k (handles (b ∷ bs)) ≡ count k (handles r.0) + (if r.1.handle == k then 1 else 0))
unfolding split_last
split_last_lem b [] = (refl, omega arith, λ k. omega arith)
split_last_lem b (c ∷ cs) =
    let ih = split_last_lem c cs in
    (ap (◌∷◌ b) ih.0, omega (arith, ih.1), λ k. omega (arith, ih.2 k))

pub forget-IsValid :
    (h : ℕ) (b : CacheBlock) (c : Cache)
    → IsValid c
    → node h c.list ≡ some b
    → IsValid (forget h b c)
forget-IsValid h b c v e =
    let u = unlink_lem h c.list e in
    record {
      summed = omega (arith, u.1, v.summed);
      within = omega (arith, v.within);
      mapped = λ k. ground (arith, u.2 k, v.mapped k, count-erase_key h k c.keys);
      distinct = λ k. ground (arith, v.distinct k, count-erase_key h k c.keys);
    }

pub drop_last-IsValid :
    (b : CacheBlock) (bs : List CacheBlock) (c : Cache)
    → IsValid c
    → c.list ≡ b ∷ bs
    → IsValid (drop_last b bs c).1
unfolding drop_last
drop_last-IsValid b bs c v e =
    let s = split_last_lem b bs in
    let last = (split_last b bs).1 in
    let whole = ap total e in
    record {
      summed = omega (arith, s.1, v.summed, whole);
      within = omega (arith, v.within);
      mapped = λ k. ground (
        arith,
        s.2 k,
        v.mapped k,
        count-erase_key last.handle k c.keys,
        ap (λ l. count k (handles l)) e,
      );
      distinct = λ k. ground (arith, v.distinct k, count-erase_key last.handle k c.keys);
    }
