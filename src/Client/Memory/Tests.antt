-- ===== src/Client/Memory/Tests.antt =====
-- A client with three bytes in a cache of four, and a block in stripes.
use ram_vram_sharing.Prelude.{ℕ, ◌≡◌, refl, true, some, [], ◌∷◌, arith}
use ram_vram_sharing.Memory.Raw.{Result}
use ram_vram_sharing.Client.Lru.{Cache}
use ram_vram_sharing.Client.Remote.{striped, placed_as}
use ram_vram_sharing.Client.Memory.{MemoryClient, evict_if_needed, allocate, free, read, write}
use ram_vram_sharing.Client.Memory.Sound.{IsSound}
use ram_vram_sharing.Client.Memory.Evict.{Spared, evict_if_needed_lem}
use ram_vram_sharing.Client.Memory.Runs.{Ends}
use ram_vram_sharing.Client.Memory.Ends.{operations_end}
use ram_vram_sharing.Client.Sample.{granting, link, stripes}

abbrev cache : Cache
cache = record {
  max_bytes = 4;
  current_bytes = 3;
  list = record { handle = 1; bytes = 7 ∷ 8 ∷ 9 ∷ []; dirty = true } ∷ [];
  keys = 1 ∷ [];
}

abbrev client : MemoryClient ℕ
client = record {
  cache = cache;
  remote_handles = (2, placed_as 6 (striped stripes)) ∷ [];
  next_local_handle = 3;
  link = link;
}

client-IsSound : IsSound client
client-IsSound = record {
  cache_valid = record {
    summed = refl;
    within = omega arith;
    mapped = λ h. refl;
    distinct = λ h. ground arith;
  };
  all_placed = ((refl, omega arith, (refl, omega arith, refl)), tt);
}

evict_if_needed_lem_example :
    (c' : MemoryClient ℕ) × (r : Result (Unit {0})) × (evict_if_needed granting (λ n. 0) 2 client
      ≡ some (c', r))
    × Spared 2 client c' r
evict_if_needed_lem_example = evict_if_needed_lem granting (λ n. 0) 2 client client-IsSound

operations_end_example :
    Ends (allocate granting (λ n. 0) 3 client)
    × Ends (read granting (λ n. 0) 2 1 3 client)
    × Ends (write granting (λ n. 0) 2 1 (5 ∷ 6 ∷ []) client)
    × IsSound (free granting 2 client)
operations_end_example = operations_end granting (λ n. 0) 2 1 3 (5 ∷ 6 ∷ []) client client-IsSound
