-- ===== src/Client/Lru/Methods.antt =====
-- What put, get, remove and evict_one promise.
use mathlib.Core.Path.{subst}
use ram_vram_sharing.Prelude.{
  ℕ, ◌+◌, ◌≤◌, ◌<◌, ◌≡◌, refl, sym, ap, ◌∙◌, ◌⊎◌, inl, inr, Bool, true, false, none, some, List, [],
  ◌∷◌, ◌++◌, arith, ltb, Bool-cases, Option-cases, length, List-cases, count,
}
use ram_vram_sharing.Client.Lru.{
  CacheBlock, Cache, node, unlink, has_key, find, drop_last, trim, push_front, displaced, put, get,
  remove, evict_one,
}
use ram_vram_sharing.Client.Lru.Invariant.{
  handles, IsValid, unlink_lem, find-node, split_last_lem, forget-IsValid, drop_last-IsValid,
}
use ram_vram_sharing.Client.Lru.Order.{Minimal, trim_lem}

pub unlink-none : (h : ℕ) (bs : List CacheBlock) → node h bs ≡ none → unlink h bs ≡ bs
unfolding node unlink
unlink-none h [] e = refl
unlink-none h (b ∷ bs) e = ground (arith, unlink-none h bs)

unfound : (h : ℕ) (bs : List CacheBlock) → node h bs ≡ none → count h (handles bs) ≡ 0
unfolding node
unfound h [] e = refl
unfound h (b ∷ bs) e = ground (arith, unfound h bs)

-- The cache without the handle: valid, with the other blocks in their order.
displaced_lem :
    (h : ℕ) (c : Cache)
    → IsValid c
    → IsValid (displaced h c)
      × ((displaced h c).list ≡ unlink h c.list)
      × ((displaced h c).max_bytes ≡ c.max_bytes)
      × (count h (handles (displaced h c).list) ≡ 0)
unfolding displaced
displaced_lem h c v = elim (Option-cases (node h c.list)) [
  | inl e ↦
      rw (find-node h c v ∙ e, displaced)
        (v, sym (unlink-none h c.list e), refl, unfound h c.list e)
  | inr (b, e) ↦
      rw (find-node h c v ∙ e, displaced)
        (
          forget-IsValid h b c v e,
          refl,
          refl,
          ground (arith, (unlink_lem h c.list e).2 h, v.mapped h, v.distinct h),
        )
]

pub count-kept :
    (h : ℕ) (kept tail : List CacheBlock)
    → count h (handles (kept ++ tail)) ≡ count h (handles kept) + count h (handles tail)
count-kept h [] tail = omega arith
count-kept h (b ∷ kept) tail = omega (arith, count-kept h kept tail)

push_front-IsValid :
    (b : CacheBlock) (c : Cache)
    → IsValid c
    → c.current_bytes + length b.bytes ≤ c.max_bytes
    → count b.handle (handles c.list) ≡ 0
    → IsValid (push_front b c)
push_front-IsValid b c v room fresh = record {
  summed = omega (arith, v.summed);
  within = room;
  mapped = λ k. omega (arith, v.mapped k);
  distinct = λ k. ground (arith, v.distinct k, v.mapped b.handle);
}

-- put refuses a block larger than the whole cache and changes nothing. Otherwise the cache stays
-- valid, the new block is in front, and behind it stand the other blocks in their order, less the
-- fewest blocks at the back that had to go for it to fit.
pub put_lem :
    (h : ℕ) (bytes : List ℕ) (dirty : Bool) (c : Cache)
    → IsValid c
    → ((c.max_bytes < length bytes) × (put h bytes dirty c ≡ (c, false)))
      ⊎ ((c' : Cache) × (kept : List CacheBlock) × (tail : List CacheBlock) × (put h bytes dirty c
            ≡ (c', true))
          × IsValid c'
          × (c'.max_bytes ≡ c.max_bytes)
          × (c'.list ≡ record { handle = h; bytes = bytes; dirty = dirty } ∷ kept)
          × (unlink h c.list ≡ kept ++ tail)
          × Minimal c.max_bytes (length bytes) kept tail)
put_lem h bytes dirty c v = elim (Bool-cases (ltb c.max_bytes (length bytes))) [
  | inl big ↦ inl (ground arith, unfold put in rw big)
  | inr fits ↦
      let b : CacheBlock = record { handle = h; bytes = bytes; dirty = dirty } in
      let n : ℕ = length bytes in
      let c1 : Cache = displaced h c in
      let d = displaced_lem h c v in
      let (tail, t) = trim_lem (length c1.list) n c1 d.0 (rw d.2 (ground arith)) (omega arith) in
      let c2 : Cache = trim (length c1.list) n c1 in
      let gone : count h (handles c2.list) ≡ 0 =
        omega (arith, count-kept h c2.list tail, ap (λ l. count h (handles l)) t.kept, d.3) in
      inr (
        push_front b c2,
        c2.list,
        tail,
        unfold put in rw fits,
        push_front-IsValid b c2 t.valid t.room gone,
        t.same_max ∙ d.2,
        refl,
        sym d.1 ∙ t.kept,
        subst (λ m. Minimal m n c2.list tail) d.2 t.least,
      )
]

front_found : (h : ℕ) (b : CacheBlock) (c : Cache) → b.handle ≡ h → find h (push_front b c) ≡ some b
unfolding find has_key node
front_found h b c e = ground arith

get_found : (h : ℕ) (b : CacheBlock) (c : Cache) → find h c ≡ some b → (get h c).1 ≡ some b.bytes
unfolding get
get_found h b c e = ground arith

-- What was put is what get returns at once after, for a block that fits the cache, whatever the
-- cache held.
pub get-put :
    (h : ℕ) (bytes : List ℕ) (dirty : Bool) (c : Cache)
    → length bytes ≤ c.max_bytes
    → (get h (put h bytes dirty c).0).1 ≡ some bytes
get-put h bytes dirty c fits =
    let b : CacheBlock = record { handle = h; bytes = bytes; dirty = dirty } in
    let c1 = displaced h c in
    let small : ltb c.max_bytes (length bytes) ≡ false = ground arith in
    let c2 : Cache = trim (length c1.list) (length bytes) c1 in
    unfold put in rw small (get_found h b (push_front b c2) (front_found h b c2 refl))

-- get misses and changes nothing where no block has the handle. Otherwise it returns the bytes of
-- that block and moves it to the front, the others in their order, and the cache stays valid.
pub get_lem :
    (h : ℕ) (c : Cache)
    → IsValid c
    → ((count h (handles c.list) ≡ 0) × (get h c ≡ (c, none)))
      ⊎ ((b : CacheBlock) × (node h c.list ≡ some b)
          × (get h c ≡ (record c { list = b ∷ unlink h c.list }, some b.bytes))
          × IsValid (get h c).0)
unfolding get
get_lem h c v = elim (Option-cases (node h c.list)) [
  | inl e ↦ inl (unfound h c.list e, rw (find-node h c v ∙ e, get) refl)
  | inr (b, e) ↦
      let u = unlink_lem h c.list e in
      inr (
        b,
        e,
        rw (find-node h c v ∙ e, get) refl,
        rw (find-node h c v ∙ e, get)
            (record {
              summed = omega (arith, u.1, v.summed);
              within = v.within;
              mapped = λ k. ground (arith, u.2 k, v.mapped k, u.0);
              distinct = v.distinct;
            }),
      )
]

-- remove takes exactly the block with the handle, and says whether there was one; after it the
-- handle is not in the cache, and the cache stays valid.
pub remove_lem :
    (h : ℕ) (c : Cache)
    → IsValid c
    → let (c', found) = remove h c in
      IsValid c'
      × (c'.list ≡ unlink h c.list)
      × (found ≡ ltb 0 (count h (handles c.list)))
      × (count h (handles c'.list) ≡ 0)
unfolding remove unlink
remove_lem h c v = elim (Option-cases (node h c.list)) [
  | inl e ↦
      rw (find-node h c v ∙ e, remove)
        (v, sym (unlink-none h c.list e), ground (arith, unfound h c.list e), unfound h c.list e)
  | inr (b, e) ↦
      let u = unlink_lem h c.list e in
      rw (find-node h c v ∙ e, remove)
        (
          forget-IsValid h b c v e,
          refl,
          ground (arith, u.2 h),
          ground (arith, u.2 h, v.mapped h, v.distinct h),
        )
]

evict_empty : (c : Cache) → c.list ≡ [] → evict_one c ≡ (c, none)
unfolding evict_one
evict_empty c e = ground arith

evicted :
    (b : CacheBlock) (bs : List CacheBlock) (c : Cache)
    → c.list ≡ b ∷ bs
    → evict_one c ≡ ((drop_last b bs c).1, some (drop_last b bs c).0)
unfolding evict_one drop_last
evicted b bs c e = rw (e, evict_one) refl

dropped :
    (b : CacheBlock) (bs : List CacheBlock) (c : Cache)
    → b ∷ bs ≡ (drop_last b bs c).1.list ++ (drop_last b bs c).0 ∷ []
unfolding drop_last
dropped b bs c = (split_last_lem b bs).0

-- evict_one takes the block at the back, the one that was used least recently, and keeps the
-- others in their order and the cache valid; on an empty cache it does nothing.
pub evict_one_lem :
    (c : Cache)
    → IsValid c
    → ((c.list ≡ []) × (evict_one c ≡ (c, none)))
      ⊎ ((b : CacheBlock) × ((evict_one c).1 ≡ some b)
          × (c.list ≡ (evict_one c).0.list ++ b ∷ [])
          × IsValid (evict_one c).0)
evict_one_lem c v = elim (List-cases c.list) [
  | inl e ↦ inl (e, evict_empty c e)
  | inr (b, bs, e) ↦
      let d : evict_one c ≡ ((drop_last b bs c).1, some (drop_last b bs c).0) = evicted b bs c e in
      inr (
        (drop_last b bs c).0,
        ap (λ r. r.1) d,
        e ∙ dropped b bs c ∙ ap (λ r. r.0.list ++ (drop_last b bs c).0 ∷ []) (sym d),
        subst (λ r. IsValid r.0) (sym d) (drop_last-IsValid b bs c v e),
      )
]
