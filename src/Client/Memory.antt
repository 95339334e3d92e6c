-- ===== src/Client/Memory.antt =====
-- memclient/src/client_api.cpp: the operations of MemoryClient over the local cache and the blocks on
-- peers. `none` is a run that does not end; `available` is what the monitor of the system reports.
pub mod Sound
pub mod Known
pub mod Evict
pub mod Runs
pub mod Ends
mod Tests
use ram_vram_sharing.Prelude.{
  ℕ, zero, suc, ◌+◌, ◌-◌, ◌%◌, Bool, true, false, ◌&&◌, ◌||◌, Option, none, some, List, ltb,
  if◌then◌else◌, u64_mod, length, take, drop, lookup, erase, assign,
}
use ram_vram_sharing.Memory.Raw.{
  Exception, invalid_argument, out_of_range, runtime_error, Result, ok, throw,
}
use ram_vram_sharing.Client.Lru.{CacheBlock, Cache, put, remove, evict_one, needs_eviction}
use ram_vram_sharing.Client.Lru
use ram_vram_sharing.Client.Link.{World, Link}
use ram_vram_sharing.Client.Remote.{RemoteAllocation, free_remote, allocate_remote}
use ram_vram_sharing.Client.Transfer.{overwrite, zeros, write_remote, read_remote}

pub record MemoryClient (W : Type 0) : Type 0 where
  pub cache : Cache
  pub remote_handles : List (ℕ × RemoteAllocation)
  pub next_local_handle : ℕ
  pub link : Link W

abbrev pub Run : Type 0 → Type 0 → Type 0
Run W A = MemoryClient W → Option (MemoryClient W × Result A)

-- What follows a run that ended without an exception.
abbrev pub then_run :
    {W A B : Type 0}
    → Option (MemoryClient W × Result A)
    → (A → Run W B)
    → Option (MemoryClient W × Result B)
then_run none k = none
then_run (some (c, throw e)) k = some (c, throw e)
then_run (some (c, ok a)) k = k a c

infixl 5 ◌>>=◌ ◌>>◌
abbrev pub ◌>>=◌ : {W A B : Type 0} → Run W A → (A → Run W B) → Run W B
◌>>=◌ m k c = then_run (m c) k

abbrev pub ◌>>◌ : {W A B : Type 0} → Run W A → Run W B → Run W B
m >> k = m >>= λ _. k

abbrev pub return : {W A : Type 0} → A → Run W A
return a c = some (c, ok a)

abbrev pub raise : {W A : Type 0} → Exception → Run W A
raise e c = some (c, throw e)

-- A step that works on the link alone.
abbrev pub with_link :
    {W A : Type 0}
    → MemoryClient W
    → Option (Link W × Result A)
    → Option (MemoryClient W × Result A)
with_link c none = none
with_link c (some (l, r)) = some (record c { link = l }, r)

-- A range of a block that is at hand, by the bounds test of read.
abbrev pub slice : {W : Type 0} → ℕ → ℕ → List ℕ → Run W (List ℕ)
slice offset size bytes =
    if ltb (length bytes) offset || ltb (length bytes - offset) size
    then raise out_of_range
    else return (take size (drop offset bytes))

-- A block with a range of it replaced, by the bounds test of write.
abbrev pub update_block : {W : Type 0} → ℕ → ℕ → List ℕ → List ℕ → Run W (Unit {0})
update_block handle offset bytes block c =
    if ltb (length block) offset || ltb (length block - offset) (length bytes)
    then some (c, throw out_of_range)
    else some
        (record c { cache = (put handle (overwrite offset bytes block) true c.cache).0 }, ok tt)

abbrev pub cached : {W : Type 0} → ℕ → MemoryClient W → MemoryClient W × Option (List ℕ)
cached handle c =
    let (cache', found) = Lru.get handle c.cache in (record c { cache = cache' }, found)

-- oversized_remote_alloc
abbrev pub oversized_remote_alloc : {W : Type 0} → ℕ → MemoryClient W → Option RemoteAllocation
oversized_remote_alloc handle c = elim (lookup handle c.remote_handles) [
  | none ↦ none
  | some a ↦ if ltb c.cache.max_bytes a.size then some a else none
]

-- The entry of a new remote allocation, which ends allocate_remote.
abbrev pub place :
    {W : Type 0}
    → ℕ
    → MemoryClient W
    → Link W × Result RemoteAllocation
    → MemoryClient W × Result RemoteAllocation
place handle c (l, throw e) = (record c { link = l }, throw e)
place handle c (l, ok a) =
    (record c { link = l; remote_handles = assign handle a c.remote_handles }, ok a)

module _ {W : Type 0} (net : World W) where
  pub allocate_at : ℕ → ℕ → MemoryClient W → MemoryClient W × Result RemoteAllocation
  allocate_at handle size c = place handle c (allocate_remote net size c.link)

  -- The try block of evict_if_needed for one block.
  pub push_block : CacheBlock → Run W (Unit {0})
  unfolding allocate_at
  push_block b c =
      then_run (some (allocate_at b.handle (length b.bytes) c))
        λ a c'. with_link c' (write_remote net a 0 b.bytes c'.link)

  -- Its catch block, which ends by throwing again.
  pub roll_back : CacheBlock → MemoryClient W → MemoryClient W
  roll_back b c = record c {
    cache = (put b.handle b.bytes b.dirty c.cache).0;
    remote_handles = erase b.handle c.remote_handles;
    link = elim (lookup b.handle c.remote_handles) [
      | none ↦ c.link
      | some a ↦ free_remote net a c.link
    ];
  }

  abbrev pub or_back :
      CacheBlock
      → Option (MemoryClient W × Result (Unit {0}))
      → Option (MemoryClient W × Result (Unit {0}))
  or_back b none = none
  or_back b (some (c, ok u)) = some (c, ok u)
  or_back b (some (c, throw e)) = some (roll_back b c, throw e)

  pub evict_block : CacheBlock → Run W (Unit {0})
  unfolding push_block roll_back
  evict_block b c = or_back b (push_block b c)

  -- The loop of evict_if_needed, on fuel: a round takes a block out of the cache.
  pub evict_loop : ℕ → ℕ → Bool → Run W (Unit {0})
  unfolding evict_block
  evict_loop zero needed pressure c = none
  evict_loop (suc f) needed pressure c =
      let (cache', last) = evict_one c.cache in
      let round : Option (MemoryClient W × Result (Unit {0})) = elim last [
        | none ↦ some (c, ok tt)
        | some b ↦
            then_run (evict_block b (record c { cache = cache' }))
              λ _ c'. evict_loop f needed pressure c'
      ] in
      if needs_eviction needed c.cache || pressure then round else some (c, ok tt)

  unfoldable pub free : ℕ → MemoryClient W → MemoryClient W
  free handle c =
      let (cache', found) = remove handle c.cache in
      let c' = record c { cache = cache' } in
      if found then c' else elim (lookup handle c.remote_handles) [
        | none ↦ c'
        | some a ↦ record c' {
          link = free_remote net a c.link;
          remote_handles = erase handle c.remote_handles;
        }
      ]

module _ {W : Type 0} (net : World W) (available : W → ℕ) where
  abbrev pub under_pressure : MemoryClient W → Bool
  under_pressure c =
      let free_ram = available c.link.world in ltb 0 free_ram && ltb free_ram 104857600

  unfoldable pub evict_if_needed : ℕ → Run W (Unit {0})
  unfolding evict_loop
  evict_if_needed needed c = evict_loop net (suc (length c.cache.list)) needed (under_pressure c) c

  -- The part of load_to_local behind the eviction.
  abbrev pub fetch_block : ℕ → RemoteAllocation → Run W (Unit {0})
  fetch_block handle a c =
      then_run (with_link c (read_remote net a 0 a.size true c.link)) λ bytes c'. some (
        record c' {
          remote_handles = erase handle c'.remote_handles;
          cache = (put handle bytes false c'.cache).0;
        },
        ok tt,
      )

  unfoldable pub load_to_local : ℕ → Run W (Unit {0})
  unfolding evict_if_needed
  load_to_local handle c = elim (lookup handle c.remote_handles) [
    | none ↦ some (c, throw invalid_argument)
    | some a ↦ (do evict_if_needed a.size; fetch_block handle a) c
  ]

  unfoldable pub allocate : ℕ → Run W ℕ
  unfolding evict_if_needed allocate_at
  allocate size c =
      let handle = c.next_local_handle in
      let c0 = record c { next_local_handle = (handle + 1) % u64_mod } in
      if ltb c.cache.max_bytes size
      then then_run (some (allocate_at net handle size c0)) (λ a. return handle)
      else then_run (evict_if_needed size c0) λ _ c1.
        let (cache', stored) = put handle (zeros size) false c1.cache in
        let c2 = record c1 { cache = cache' } in
        if stored then some (c2, ok handle) else some (c2, throw runtime_error)

  -- What follows load_to_local in read and write: the block must be in the cache now.
  abbrev pub loaded : {A : Type 0} → ℕ → (List ℕ → Run W A) → Run W A
  loaded handle k = do
    load_to_local handle
    λ c.
        let (c', found) = cached handle c in
        elim found [ none ↦ some (c', throw runtime_error) | some block ↦ k block c' ]

  unfoldable pub read : ℕ → ℕ → ℕ → Run W (List ℕ)
  unfolding load_to_local
  read handle offset size c =
      let (c', found) = cached handle c in
      elim found [
        | some block ↦ slice offset size block c'
        | none ↦ elim (oversized_remote_alloc handle c') [
          | some a ↦
              if ltb a.size offset || ltb (a.size - offset) size
              then some (c', throw out_of_range)
              else with_link c' (read_remote net a offset size false c'.link)
          | none ↦ loaded handle (slice offset size) c'
        ]
      ]

  unfoldable pub write : ℕ → ℕ → List ℕ → Run W (Unit {0})
  unfolding load_to_local
  write handle offset bytes c =
      let (c', found) = cached handle c in
      elim found [
        | some block ↦ update_block handle offset bytes block c'
        | none ↦ elim (oversized_remote_alloc handle c') [
          | some a ↦
              if ltb a.size offset || ltb (a.size - offset) (length bytes)
              then some (c', throw out_of_range)
              else with_link c' (write_remote net a offset bytes c'.link)
          | none ↦ loaded handle (update_block handle offset bytes) c'
        ]
      ]
