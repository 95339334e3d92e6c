-- ===== src/Client/Memory/Ends.antt =====
-- Every operation of the client ends, and keeps its invariant.
use ram_vram_sharing.Prelude.{
  ℕ, ◌+◌, ◌-◌, ◌%◌, refl, ap, inl, inr, true, false, ◌||◌, none, some, List, arith, ltb,
  if◌then◌else◌, Bool-cases, Option-cases, u64_mod, length, lookup, assign,
}
use ram_vram_sharing.Memory.Raw.{invalid_argument, out_of_range, runtime_error, ok, throw}
use ram_vram_sharing.Client.Lru.{remove}
use ram_vram_sharing.Client.Lru.Methods.{remove_lem}
use ram_vram_sharing.Client.Act.{Result-cases}
use ram_vram_sharing.Client.Link.{World}
use ram_vram_sharing.Client.Remote.{RemoteAllocation, allocate_remote}
use ram_vram_sharing.Client.Remote.Placed.{IsPlaced, allocate_remote-IsPlaced}
use ram_vram_sharing.Client.Transfer.{write_remote, read_remote}
use ram_vram_sharing.Client.Transfer.Ends.{write_remote_ends, read_remote_ends}
use ram_vram_sharing.Client.Memory.{
  MemoryClient, Run, with_link, place, allocate_at, evict_if_needed, load_to_local, fetch_block,
  loaded, slice, update_block, cached, oversized_remote_alloc, allocate, free, read, write,
}
use ram_vram_sharing.Client.Memory.Sound.{
  assign-AllPlaced, erase-AllPlaced, lookup-IsPlaced, IsSound,
}
use ram_vram_sharing.Client.Memory.Evict.{evict_if_needed_lem}
use ram_vram_sharing.Client.Memory.Runs.{
  put-IsValid, Ends, Keeps, branch-Ends, then_run-Ends, with_link-Ends, bounded-Ends,
  oversized-IsPlaced, slice-Ends, update_block-Ends, put-Ends, cached-IsSound,
}

module _ {W : Type 0} (net : World W) (available : W → ℕ) where
  evict_if_needed-Ends : (needed : ℕ) → Keeps (evict_if_needed net available needed)
  evict_if_needed-Ends needed c v =
      let (c', r, e, s) = evict_if_needed_lem net available needed c v in (c', r, e, s.sound)

  allocate_at-Ends :
      (handle size : ℕ) (c : MemoryClient W)
      → IsSound c
      → Ends (some (allocate_at net handle size c))
  unfolding allocate_at
  allocate_at-Ends handle size c v = elim (Result-cases (allocate_remote net size c.link)) [
    | inl (l, e, failed) ↦ (
      record c { link = l },
      throw e,
      ap (λ r. some (place handle c r)) failed,
      record { cache_valid = v.cache_valid; all_placed = v.all_placed },
    )
    | inr (l, a, granted) ↦ (
      record c { link = l; remote_handles = assign handle a c.remote_handles },
      ok a,
      ap (λ r. some (place handle c r)) granted,
      record {
        cache_valid = v.cache_valid;
        all_placed =
            assign-AllPlaced handle a c.remote_handles
              (allocate_remote-IsPlaced net size c.link granted).1 v.all_placed;
      },
    )
  ]

  fetch_block-Ends :
      (handle : ℕ) (a : RemoteAllocation) → IsPlaced a → Keeps (fetch_block net available handle a)
  fetch_block-Ends handle a placed c v =
      then_run-Ends (with_link c (read_remote net a 0 a.size true c.link)) _
        (with_link-Ends c _ v (read_remote_ends net a 0 a.size true c.link placed (omega arith)))
        λ bytes c' v'. (
          _,
          ok tt,
          refl,
          record {
            cache_valid = put-IsValid handle bytes false c'.cache v'.cache_valid;
            all_placed = erase-AllPlaced handle c'.remote_handles v'.all_placed;
          },
        )

  load_to_local-Ends : (handle : ℕ) → Keeps (load_to_local net available handle)
  unfolding load_to_local
  load_to_local-Ends handle c v = elim (Option-cases (lookup handle c.remote_handles)) [
    | inl absent ↦ (c, throw invalid_argument, rw (absent, load_to_local) refl, v)
    | inr (a, there) ↦
        rw (there, load_to_local)
          (then_run-Ends (evict_if_needed net available a.size c) _
            (evict_if_needed-Ends a.size c v)
            λ u.
              fetch_block-Ends handle a
                (lookup-IsPlaced handle c.remote_handles a v.all_placed there))
  ]

  loaded-Ends :
      {A : Type 0} (handle : ℕ) (k : List ℕ → Run W A)
      → ((block : List ℕ) → Keeps (k block))
      → Keeps (loaded net available handle k)
  loaded-Ends handle k next c v =
      then_run-Ends (load_to_local net available handle c) _ (load_to_local-Ends handle c v)
        λ u c1 v1.
          let (c2, found) = cached handle c1 in
          let v2 = cached-IsSound handle c1 v1 in
          branch-Ends found (some (c2, throw runtime_error)) (λ block. k block c2)
            (c2, throw runtime_error, refl, v2) λ block _. next block c2 v2

  -- `read` ends, whatever the peers answer, and keeps the client's invariant.
  read-Ends : (handle offset size : ℕ) → Keeps (read net available handle offset size)
  unfolding read
  read-Ends handle offset size c v =
      let (c', found) = cached handle c in
      let v' = cached-IsSound handle c v in
      let over = oversized_remote_alloc handle c' in
      let missed : Ends (elim over [
        | some a ↦
            if ltb a.size offset || ltb (a.size - offset) size
            then some (c', throw out_of_range)
            else with_link c' (read_remote net a offset size false c'.link)
        | none ↦ loaded net available handle (slice offset size) c'
      ]) =
        branch-Ends over _ _ (loaded-Ends handle (slice offset size) (slice-Ends offset size) c' v')
          λ a e. bounded-Ends c' a.size offset size _ v' (
            read_remote_ends net a offset size false c'.link
              (oversized-IsPlaced handle c' a v' e)) in
      branch-Ends found _ _ missed λ block _. slice-Ends offset size block c' v'

  -- `write` ends, whatever the peers answer, and keeps the client's invariant.
  write-Ends :
      (handle offset : ℕ) (bytes : List ℕ) → Keeps (write net available handle offset bytes)
  unfolding write
  write-Ends handle offset bytes c v =
      let (c', found) = cached handle c in
      let v' = cached-IsSound handle c v in
      let over = oversized_remote_alloc handle c' in
      let missed : Ends (elim over [
        | some a ↦
            if ltb a.size offset || ltb (a.size - offset) (length bytes)
            then some (c', throw out_of_range)
            else with_link c' (write_remote net a offset bytes c'.link)
        | none ↦ loaded net available handle (update_block handle offset bytes) c'
      ]) =
        branch-Ends over _ _
          (loaded-Ends handle (update_block handle offset bytes)
            (update_block-Ends handle offset bytes) c' v')
          λ a e.
            bounded-Ends c' a.size offset (length bytes) _ v' (
              write_remote_ends net a offset bytes c'.link (oversized-IsPlaced handle c' a v' e)) in
      branch-Ends found _ _ missed λ block _. update_block-Ends handle offset bytes block c' v'

  -- `allocate` ends, whatever the peers answer, and keeps the client's invariant.
  allocate-Ends : (size : ℕ) → Keeps (allocate net available size)
  unfolding allocate
  allocate-Ends size c v =
      let handle = c.next_local_handle in
      let c0 = record c { next_local_handle = (handle + 1) % u64_mod } in
      let v0 : IsSound c0 = record { cache_valid = v.cache_valid; all_placed = v.all_placed } in
      elim (Bool-cases (ltb c.cache.max_bytes size)) [
        | inl big ↦
            rw (big, allocate)
              (then_run-Ends (some (allocate_at net handle size c0)) _
                (allocate_at-Ends handle size c0 v0) λ a c' v'. (c', ok handle, refl, v'))
        | inr small ↦
            rw (small, allocate)
              (then_run-Ends (evict_if_needed net available size c0) _
                (evict_if_needed-Ends size c0 v0) λ u c1 v1. put-Ends handle size c1 v1)
      ]

  -- `free` keeps the client's invariant. It always ends: it has no loop of its own.
  free-IsSound : (handle : ℕ) (c : MemoryClient W) → IsSound c → IsSound (free net handle c)
  unfolding free
  free-IsSound handle c v =
      let r = remove_lem handle c.cache v.cache_valid in
      elim (Bool-cases (remove handle c.cache).1) [
        | inl found ↦ rw (found, free) (record { cache_valid = r.0; all_placed = v.all_placed })
        | inr missing ↦ elim (Option-cases (lookup handle c.remote_handles)) [
          | inl absent ↦
              rw (missing, absent, free) (record { cache_valid = r.0; all_placed = v.all_placed })
          | inr (a, there) ↦
              rw (missing, there, free)
                (record {
                  cache_valid = r.0;
                  all_placed = erase-AllPlaced handle c.remote_handles v.all_placed;
                })
        ]
      ]

  -- From a valid cache and well placed remote blocks, `allocate`, `read` and `write` end, with a result
  -- or an exception, whatever the arguments are and whatever the peers and the monitor of the system
  -- answer: no loop of theirs runs for ever. They and `free` leave the cache valid and the remote
  -- blocks well placed.
  pub operations_end :
      (handle offset size : ℕ) (bytes : List ℕ) (c : MemoryClient W)
      → IsSound c
      → Ends (allocate net available size c)
        × Ends (read net available handle offset size c)
        × Ends (write net available handle offset bytes c)
        × IsSound (free net handle c)
  operations_end handle offset size bytes c v = (
    allocate-Ends size c v,
    read-Ends handle offset size c v,
    write-Ends handle offset bytes c v,
    free-IsSound handle c v,
  )
