-- ===== src/Client/Lru/Order.antt =====
-- The operations keep the invariant and the recency order: the front is the block used last, and
-- what leaves, leaves from the back.
use mathlib.Core.List.{append_assoc, append-nil}
use ram_vram_sharing.Prelude.{
  ℕ, zero, suc, ◌+◌, ◌≤◌, ◌<◌, ◌≡◌, refl, sym, ap, ◌∙◌, inl, inr, List, [], ◌∷◌, ◌++◌, arith, ltb,
  Bool-cases, length, length-append, List-cases,
}
use ram_vram_sharing.Client.Lru.{CacheBlock, Cache, drop_last, trim}
use ram_vram_sharing.Client.Lru.Invariant.{total, IsValid, split_last_lem, drop_last-IsValid}

-- The blocks `tail` have been taken off the back to make room for `size` bytes, and no more of them
-- than needed: with the first of them back, the limit would be passed.
abbrev pub Minimal : ℕ → ℕ → List CacheBlock → List CacheBlock → Type 0
Minimal limit size kept [] = Unit
Minimal limit size kept (b ∷ bs) = limit < total kept + length b.bytes + size

pub record Trimmed (size : ℕ) (c c' : Cache) (tail : List CacheBlock) : Type 0 where
  pub valid : IsValid c'
  pub same_max : c'.max_bytes ≡ c.max_bytes
  pub room : c'.current_bytes + size ≤ c'.max_bytes
  pub kept : c.list ≡ c'.list ++ tail
  pub least : Minimal c.max_bytes size c'.list tail

trim_stops :
    (f size : ℕ) (c : Cache)
    → IsValid c
    → c.current_bytes + size ≤ c.max_bytes
    → trim (suc f) size c ≡ c
unfolding trim
trim_stops f size c v h = ground arith

trim_step :
    (f size : ℕ) (c : Cache) (b : CacheBlock) (bs : List CacheBlock)
    → c.list ≡ b ∷ bs
    → c.max_bytes < c.current_bytes + size
    → trim (suc f) size c ≡ trim f size (drop_last b bs c).1
unfolding trim
trim_step f size c b bs e h = rw (e, trim) (ground arith)

Minimal-snoc :
    (limit size : ℕ) (kept tail : List CacheBlock) (last : CacheBlock)
    → (tail ≡ [] → limit < total kept + length last.bytes + size)
    → Minimal limit size kept tail
    → Minimal limit size kept (tail ++ last ∷ [])
Minimal-snoc limit size kept [] last h m = h refl
Minimal-snoc limit size kept (b ∷ bs) last h m = m

drop_last_list :
    (b : CacheBlock) (bs : List CacheBlock) (c : Cache)
    → let r = drop_last b bs c in
      (b ∷ bs ≡ r.1.list ++ r.0 ∷ [])
      × (total (b ∷ bs) ≡ total r.1.list + length r.0.bytes)
      × (r.1.max_bytes ≡ c.max_bytes)
unfolding drop_last
drop_last_list b bs c = let s = split_last_lem b bs in (s.0, s.1, refl)

Trimmed-step :
    (size : ℕ) (c c' : Cache) (b : CacheBlock) (bs tail : List CacheBlock)
    → IsValid c
    → c.list ≡ b ∷ bs
    → c.max_bytes < c.current_bytes + size
    → Trimmed size (drop_last b bs c).1 c' tail
    → Trimmed size c c' (tail ++ (drop_last b bs c).0 ∷ [])
Trimmed-step size c c' b bs tail v e over t =
    let d = drop_last_list b bs c in
    let last : CacheBlock = (drop_last b bs c).0 in
    let kept_ = t.kept in
    record {
      valid = t.valid;
      same_max = t.same_max ∙ d.2;
      room = t.room;
      kept = e ∙ d.0 ∙ ap (λ l. l ++ last ∷ []) kept_ ∙ append_assoc c'.list tail (last ∷ []);
      least =
          Minimal-snoc c.max_bytes size c'.list tail last
            (λ z. omega (
              arith,
              v.summed,
              over,
              d.1,
              ap total e,
              ap total (kept_ ∙ ap (λ l. c'.list ++ l) z ∙ append-nil c'.list),
            ))
            (rw d.2 at t.least);
    }

pub trim_lem :
    (f size : ℕ) (c : Cache)
    → IsValid c
    → size ≤ c.max_bytes
    → length c.list ≤ f
    → (tail : List CacheBlock) × Trimmed size c (trim f size c) tail
trim_lem zero size c v fits enough = elim (List-cases c.list) [
  | inl e ↦ (
    [],
    unfold trim in
        record {
          valid = v;
          same_max = refl;
          room = omega (arith, v.summed, ap total e);
          kept = sym (append-nil c.list);
          least = tt;
        },
  )
  | inr (b, bs, e) ↦ absurd (omega (arith, enough, ap length e))
]
trim_lem (suc f) size c v fits enough =
    elim (Bool-cases (ltb c.max_bytes (c.current_bytes + size))) [
      | inr fine ↦ (
        [],
        rw (trim_stops f size c v (ground arith)) (record {
          valid = v;
          same_max = refl;
          room = ground arith;
          kept = sym (append-nil c.list);
          least = tt;
        }),
      )
      | inl over ↦ elim (List-cases c.list) [
        | inl e ↦ absurd (ground (arith, v.summed, ap total e))
        | inr (b, bs, e) ↦
            let lt : c.max_bytes < c.current_bytes + size = ground arith in
            let (tail, t) =
              trim_lem f size (drop_last b bs c).1 (drop_last-IsValid b bs c v e)
                (rw (drop_last_list b bs c).2 fits)
                (omega (
                  arith,
                  enough,
                  ap length e,
                  ap length (drop_last_list b bs c).0,
                  length-append (drop_last b bs c).1.list ((drop_last b bs c).0 ∷ []),
                )) in
            (
              tail ++ (drop_last b bs c).0 ∷ [],
              rw (trim_step f size c b bs e lt)
                  (Trimmed-step size c (trim f size (drop_last b bs c).1) b bs tail v e lt t),
            )
      ]
    ]
