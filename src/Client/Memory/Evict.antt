-- ===== src/Client/Memory/Evict.antt =====
-- evict_if_needed, the loop.
use ram_vram_sharing.Prelude.{
  ℕ, zero, suc, ◌<◌, ◌≡◌, refl, sym, ◌∙◌, ◌⊎◌, inl, inr, Bool, false, ◌||◌, some, [], arith,
  Bool-cases, length,
}
use ram_vram_sharing.Memory.Raw.{Result, ok}
use ram_vram_sharing.Client.Lru.{needs_eviction}
use ram_vram_sharing.Client.Lru.Methods.{evict_one_lem}
use ram_vram_sharing.Client.Act.{Thrown-cases, thrown}
use ram_vram_sharing.Client.Link.{World}
use ram_vram_sharing.Client.Memory.{MemoryClient, evict_loop, under_pressure, evict_if_needed}
use ram_vram_sharing.Client.Memory.Known.{evict_block_lem}
use ram_vram_sharing.Client.Memory.Sound.{IsSound, IsKnown}

module _ {W : Type 0} where
  -- What the loop leaves: all that was known is known, and without an exception there is room, or
  -- nothing is left to evict.
  pub record Spared (needed : ℕ) (c c' : MemoryClient W) (r : Result (Unit {0})) : Type 0 where
    pub sound : IsSound c'
    pub known : (k : ℕ) → IsKnown k c → IsKnown k c'
    pub room : r ≡ ok tt → (needs_eviction needed c'.cache ≡ false) ⊎ (c'.cache.list ≡ [])

module _ {W : Type 0} (net : World W) where
  evict_loop_lem :
      (f needed : ℕ) (pressure : Bool) (c : MemoryClient W)
      → IsSound c
      → length c.cache.list < f
      → (c' : MemoryClient W) × (r : Result (Unit {0})) × (evict_loop net f needed pressure c
          ≡ some (c', r))
        × Spared needed c c' r
  unfolding evict_loop
  evict_loop_lem zero needed pressure c v enough = absurd (omega arith)
  evict_loop_lem (suc f) needed pressure c v enough =
      elim (Bool-cases (needs_eviction needed c.cache || pressure)) [
        | inr stop ↦ (
          c,
          ok tt,
          rw stop refl,
          record { sound = v; known = λ k h. h; room = λ _. inl (ground arith) },
        )
        | inl go ↦ elim (evict_one_lem c.cache v.cache_valid) [
          | inl (no_block, none_left) ↦ (
            c,
            ok tt,
            rw (go, none_left) refl,
            record { sound = v; known = λ k h. h; room = λ _. inr no_block },
          )
          | inr (b, taken, _, _) ↦
              let (c1, r1, ran, left) = evict_block_lem net c b v taken in
              elim (Thrown-cases r1) [
                | inl (x, threw) ↦ (
                  c1,
                  r1,
                  rw (go, taken, ran, threw) refl,
                  record {
                    sound = left.sound;
                    known = left.known;
                    room = λ done. absurd (thrown x (sym threw ∙ done));
                  },
                )
                | inr done ↦
                    let (c2, r2, ran2, rest) =
                      evict_loop_lem f needed pressure c1 left.sound
                        (omega (arith, left.shorter done)) in
                    (
                      c2,
                      r2,
                      rw (go, taken, ran, done) ran2,
                      record {
                        sound = rest.sound;
                        known = λ k h. rest.known k (left.known k h);
                        room = rest.room;
                      },
                    )
              ]
        ]
      ]

module _ {W : Type 0} (net : World W) (available : W → ℕ) where
  -- From a valid cache and well placed remote blocks, `evict_if_needed` ends, whatever the peers and
  -- the monitor of the system answer. Both invariants hold after it, every handle that was in the
  -- cache or in `remote_handles_` still is in one of them, also after an exception, and if it ends
  -- without one the cache has room for the bytes needed or is empty.
  pub evict_if_needed_lem :
      (needed : ℕ) (c : MemoryClient W)
      → IsSound c
      → (c' : MemoryClient W) × (r : Result (Unit {0})) × (evict_if_needed net available needed c
          ≡ some (c', r))
        × Spared needed c c' r
  unfolding evict_if_needed
  evict_if_needed_lem needed c v =
      evict_loop_lem net (suc (length c.cache.list)) needed (under_pressure net available c) c v
        (omega arith)
