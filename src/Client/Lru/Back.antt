-- ===== src/Client/Lru/Back.antt =====
-- A block that evict_one took, put back by evict_if_needed when its push to a peer failed.
use mathlib.Core.Path.{subst}
use mathlib.Core.Option.{some-injective, none-ne-some}
use mathlib.Core.List.{append-nil}
use ram_vram_sharing.Prelude.{
  ◌+◌, ◌≡◌, refl, sym, ap, ◌∙◌, inl, inr, true, some, List, [], ◌∷◌, ◌++◌, arith, length,
  List-cases, count,
}
use ram_vram_sharing.Client.Lru.{CacheBlock, Cache, drop_last, put, evict_one}
use ram_vram_sharing.Client.Lru.Invariant.{total, handles, IsValid, node-none}
use ram_vram_sharing.Client.Lru.Order.{Minimal}
use ram_vram_sharing.Client.Lru.Methods.{unlink-none, count-kept, put_lem, evict_one_lem}

evict_one-max_bytes : (c : Cache) → (evict_one c).0.max_bytes ≡ c.max_bytes
unfolding evict_one drop_last
evict_one-max_bytes c = elim (List-cases c.list) [
  | inl e ↦ rw (e, evict_one) refl
  | inr (b, bs, e) ↦ rw (e, evict_one) refl
]

total-append : (front back : List CacheBlock) → total (front ++ back) ≡ total front + total back
total-append [] back = omega arith
total-append (b ∷ front) back = omega (arith, total-append front back)

abbrev Back : Cache → CacheBlock → Type 0
Back c b =
    let c1 = (evict_one c).0 in
    let (c2, stored) = put b.handle b.bytes b.dirty c1 in
    (stored ≡ true) × IsValid c2 × (c2.max_bytes ≡ c.max_bytes) × (c2.list ≡ b ∷ c1.list)

back_lem :
    (c : Cache) (b : CacheBlock)
    → IsValid c
    → c.list ≡ (evict_one c).0.list ++ b ∷ []
    → IsValid (evict_one c).0
    → Back c b
back_lem c b v split v1 =
    let c1 = (evict_one c).0 in
    let same_max = evict_one-max_bytes c in
    let sum : total c.list ≡ total c1.list + total (b ∷ []) =
      ap total split ∙ total-append c1.list (b ∷ []) in
    let absent : count b.handle (handles c1.list) ≡ 0 = ground (
      arith,
      ap (λ l. count b.handle (handles l)) split ∙ count-kept b.handle c1.list (b ∷ []),
      v.mapped b.handle,
      v.distinct b.handle,
    ) in
    let untouched = unlink-none b.handle c1.list (node-none b.handle c1.list absent) in
    elim (put_lem b.handle b.bytes b.dirty c1 v1) [
      | inl (big, e) ↦ absurd (omega (arith, same_max, big, v.summed, v.within, sum))
      | inr (c2, kept, tail, e, v2, m2, l2, apart, least) ↦
          let whole : total c1.list ≡ total kept + total tail =
            ap total (sym untouched ∙ apart) ∙ total-append kept tail in
          elim (List-cases tail) [
            | inl none_gone ↦
                let same : kept ≡ c1.list =
                  sym (append-nil kept)
                  ∙ ap (λ k. kept ++ k) (sym none_gone)
                  ∙ sym apart
                  ∙ untouched in
                (
                  ap (λ r. r.1) e,
                  subst (λ r. IsValid r.0) (sym e) v2,
                  ap (λ r. r.0.max_bytes) e ∙ m2 ∙ same_max,
                  ap (λ r. r.0.list) e ∙ l2 ∙ ap (λ k. b ∷ k) same,
                )
            | inr (x, xs, gone) ↦
                let first_back = subst (Minimal c1.max_bytes (length b.bytes) kept) gone least in
                let first = ap total gone in
                absurd (omega (arith, same_max, v.summed, v.within, sum, whole, first_back, first))
          ]
    ]

-- The block that evict_one took stood at the back.
pub evict_one-some :
    (c : Cache) (b : CacheBlock)
    → IsValid c
    → (evict_one c).1 ≡ some b
    → (c.list ≡ (evict_one c).0.list ++ b ∷ []) × IsValid (evict_one c).0
evict_one-some c b v e = elim (evict_one_lem c v) [
  | inl (empty, none_left) ↦ absurd (none-ne-some b (sym (ap (λ r. r.1) none_left) ∙ e))
  | inr (b', e', split, v1) ↦
      let same : b' ≡ b = some-injective b' b (sym e' ∙ e) in
      (split ∙ ap (λ x. (evict_one c).0.list ++ x ∷ []) same, v1)
]

-- The block that evict_one took fits the cache again: put stores it, in front, and drops no other.
pub put-evict_one : (c : Cache) (b : CacheBlock) → IsValid c → (evict_one c).1 ≡ some b → Back c b
put-evict_one c b v e = let (split, v1) = evict_one-some c b v e in back_lem c b v split v1
