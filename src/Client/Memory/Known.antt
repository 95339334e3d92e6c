-- ===== src/Client/Memory/Known.antt =====
-- One round of evict_if_needed: whatever the peers answer, a handle that a block of the cache or a
-- remote allocation had is not lost.
use mathlib.Core.Path.{subst}
use ram_vram_sharing.Prelude.{
  ℕ, ◌≤◌, ◌<◌, ◌≡◌, refl, sym, ap, ◌∙◌, ◌≢◌, ◌⊎◌, inl, inr, Option, some, List, [], ◌∷◌, ◌++◌,
  arith, ◌==◌, Bool-cases, length, length-append, count, lookup, assign, lookup-assign,
  lookup-erase_ne,
}
use ram_vram_sharing.Memory.Raw.{Exception, Result, ok, throw}
use ram_vram_sharing.Client.Lru.{CacheBlock, put, evict_one}
use ram_vram_sharing.Client.Lru.Invariant.{handles, IsValid}
use ram_vram_sharing.Client.Lru.Methods.{count-kept}
use ram_vram_sharing.Client.Lru.Back.{evict_one-some, put-evict_one}
use ram_vram_sharing.Client.Act.{Result-cases, Thrown-cases}
use ram_vram_sharing.Client.Link.{World}
use ram_vram_sharing.Client.Remote.{RemoteAllocation, allocate_remote}
use ram_vram_sharing.Client.Remote.Placed.{IsPlaced, allocate_remote-IsPlaced}
use ram_vram_sharing.Client.Transfer.{write_remote}
use ram_vram_sharing.Client.Transfer.Ends.{write_remote_ends}
use ram_vram_sharing.Client.Memory.{
  MemoryClient, then_run, with_link, place, allocate_at, push_block, roll_back, or_back,
  evict_block,
}
use ram_vram_sharing.Client.Memory.Sound.{
  AllPlaced, assign-AllPlaced, erase-AllPlaced, lookup-assign_ne, IsSound, IsKnown,
}

module _ {W : Type 0} (net : World W) where
  -- What pushing a block leaves: the cache as it was, and the entry, unless nothing was allocated.
  abbrev Pushed : CacheBlock → MemoryClient W → MemoryClient W × Result (Unit {0}) → Type 0
  Pushed b c (c', r) =
      (c'.cache ≡ c.cache)
      × (((c'.remote_handles ≡ c.remote_handles) × ((e : Exception) × (r ≡ throw e)))
          ⊎ ((a : RemoteAllocation) × IsPlaced a
              × (c'.remote_handles ≡ assign b.handle a c.remote_handles)))

  abbrev then_pushed :
      CacheBlock
      → MemoryClient W × Result RemoteAllocation
      → Option (MemoryClient W × Result (Unit {0}))
  then_pushed b r = then_run (some r) λ a c'. with_link c' (write_remote net a 0 b.bytes c'.link)

  push_block_lem :
      (b : CacheBlock) (c : MemoryClient W)
      → (r : MemoryClient W × Result (Unit {0})) × (push_block net b c ≡ some r) × Pushed b c r
  unfolding push_block allocate_at
  push_block_lem b c =
      let called = allocate_remote net (length b.bytes) c.link in
      elim (Result-cases called) [
        | inl (l, e, failed) ↦ (
          (record c { link = l }, throw e),
          ap (then_pushed b) (ap (place b.handle c) failed),
          (refl, inl (refl, (e, refl))),
        )
        | inr (l, a, granted) ↦
            let sound = allocate_remote-IsPlaced net (length b.bytes) c.link granted in
            let (r, ends) = write_remote_ends net a 0 b.bytes l sound.1 (omega (arith, sound.0)) in
            (
              (record c { link = r.0; remote_handles = assign b.handle a c.remote_handles }, r.1),
              ap (then_pushed b) (ap (place b.handle c) granted)
                  ∙ ap (with_link (place b.handle c (l, ok a)).0) ends,
              (refl, inr (a, sound.1, refl)),
            )
      ]

  -- What evicting the block at the back leaves: it is known still, as all else.
  pub record Evicted (c c' : MemoryClient W) (r : Result (Unit {0})) : Type 0 where
    pub sound : IsSound c'
    pub known : (k : ℕ) → IsKnown k c → IsKnown k c'
    pub shorter : r ≡ ok tt → length c'.cache.list < length c.cache.list

  counted :
      (back : CacheBlock) (whole front : List CacheBlock) (k : ℕ)
      → whole ≡ front ++ back ∷ []
      → 1 ≤ count k (handles whole)
      → 1 ≤ count k (handles (back ∷ front))
  counted back whole front k e h =
      omega (arith, ap (λ l. count k (handles l)) e, count-kept k front (back ∷ []))

  -- The block is in the cache again.
  backed_lem :
      (c c1 : MemoryClient W) (b : CacheBlock) (x : Exception)
      → IsSound c
      → (evict_one c.cache).1 ≡ some b
      → c1.cache ≡ (evict_one c.cache).0
      → AllPlaced c1.remote_handles
      → ((k : ℕ) → b.handle ≢ k → lookup k c1.remote_handles ≡ lookup k c.remote_handles)
      → Evicted c (roll_back net b c1) (throw x)
  unfolding roll_back
  backed_lem c c1 b x v e same placed others =
      let stored =
        subst
          (λ d.
            let d' = (put b.handle b.bytes b.dirty d).0 in
            IsValid d' × (d'.list ≡ b ∷ (evict_one c.cache).0.list))
          (sym same) (let back = put-evict_one c.cache b v.cache_valid e in (back.1, back.3)) in
      let old = evict_one-some c.cache b v.cache_valid e in
      record {
        sound = record {
          cache_valid = stored.0;
          all_placed = erase-AllPlaced b.handle c1.remote_handles placed;
        };
        known = λ k h. elim h [
          | inl here ↦ inl (
              subst (λ l. 1 ≤ count k (handles l)) (sym stored.1)
                (counted b c.cache.list (evict_one c.cache).0.list k old.0 here))
          | inr (a, there) ↦ elim (Bool-cases (b.handle == k)) [
            | inl same_key ↦
                inl (subst (λ l. 1 ≤ count k (handles l)) (sym stored.1) (ground arith))
            | inr apart ↦ inr (
              a,
              lookup-erase_ne b.handle k c1.remote_handles (ground arith)
                  ∙ others k (ground arith)
                  ∙ there,
            )
          ]
        ];
        shorter = λ threw. absurd (ground arith);
      }

  -- The block is on peers now.
  pushed_lem :
      (c c1 : MemoryClient W) (b : CacheBlock) (a : RemoteAllocation)
      → IsSound c
      → (evict_one c.cache).1 ≡ some b
      → c1.cache ≡ (evict_one c.cache).0
      → IsPlaced a
      → c1.remote_handles ≡ assign b.handle a c.remote_handles
      → Evicted c c1 (ok tt)
  pushed_lem c c1 b a v e same placed entered =
      let old = evict_one-some c.cache b v.cache_valid e in
      record {
        sound = record {
          cache_valid = subst IsValid (sym same) old.1;
          all_placed =
              subst AllPlaced (sym entered)
                (assign-AllPlaced b.handle a c.remote_handles placed v.all_placed);
        };
        known = λ k h. elim h [
          | inl here ↦ elim (Bool-cases (b.handle == k)) [
            | inl same_key ↦ inr (
              a,
              ap (lookup k) entered ∙ lookup-assign b.handle k a c.remote_handles ∙ ground arith,
            )
            | inr apart ↦ inl (
                subst (λ d. 1 ≤ count k (handles d.list)) (sym same)
                  (ground (arith, counted b c.cache.list (evict_one c.cache).0.list k old.0 here)))
          ]
          | inr (a', there) ↦ elim (Bool-cases (b.handle == k)) [
            | inl same_key ↦ inr (
              a,
              ap (lookup k) entered ∙ lookup-assign b.handle k a c.remote_handles ∙ ground arith,
            )
            | inr apart ↦ inr (
              a',
              ap (lookup k) entered
                  ∙ lookup-assign_ne b.handle k a c.remote_handles (ground arith)
                  ∙ there,
            )
          ]
        ];
        shorter = λ done. ground (
          arith,
          ap (λ d. length d.list) same,
          ap length old.0,
          length-append (evict_one c.cache).0.list (b ∷ []),
        );
      }

  pub evict_block_lem :
      (c : MemoryClient W) (b : CacheBlock)
      → IsSound c
      → (evict_one c.cache).1 ≡ some b
      → (c' : MemoryClient W) × (r : Result (Unit {0})) × (evict_block net b
            (record c { cache = (evict_one c.cache).0 })
          ≡ some (c', r))
        × Evicted c c' r
  unfolding evict_block roll_back
  evict_block_lem c b v e =
      let ((c1, r), ran, (same_cache, moved)) =
        push_block_lem b (record c { cache = (evict_one c.cache).0 }) in
      let c0 = record c { cache = (evict_one c.cache).0 } in
      let back : (x : Exception)
          → r ≡ throw x
          → AllPlaced c1.remote_handles
          → ((k : ℕ) → b.handle ≢ k → lookup k c1.remote_handles ≡ lookup k c.remote_handles)
          → (c' : MemoryClient W) × (r' : Result (Unit {0})) × (evict_block net b c0
              ≡ some (c', r'))
            × Evicted c c' r' =
        λ x threw placed others. (
          roll_back net b c1,
          throw x,
          ap (or_back net b) ran ∙ ap (λ r. or_back net b (some (c1, r))) threw,
          backed_lem c c1 b x v e same_cache placed others,
        ) in
      elim moved [
        | inl (same_map, (x, threw)) ↦
            back x threw (subst AllPlaced (sym same_map) v.all_placed)
              (λ k ne. ap (lookup k) same_map)
        | inr (a, placed, entered) ↦
            let all =
              subst AllPlaced (sym entered)
                (assign-AllPlaced b.handle a c.remote_handles placed v.all_placed) in
            elim (Thrown-cases r) [
              | inl (x, threw) ↦
                  back x threw all λ k ne.
                    ap (lookup k) entered ∙ lookup-assign_ne b.handle k a c.remote_handles ne
              | inr done ↦ (
                c1,
                ok tt,
                ap (or_back net b) ran ∙ ap (λ r. or_back net b (some (c1, r))) done,
                pushed_lem c c1 b a v e same_cache placed entered,
              )
            ]
      ]
