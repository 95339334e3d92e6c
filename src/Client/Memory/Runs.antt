-- ===== src/Client/Memory/Runs.antt =====
-- Runs that end and keep the client's invariant, by their parts.
use mathlib.Core.Path.{subst}
use ram_vram_sharing.Prelude.{
  ℕ, ◌+◌, ◌-◌, ◌≤◌, ◌≡◌, refl, sym, inl, inr, Bool, true, false, ◌||◌, Option, none, some, List,
  arith, ltb, if◌then◌else◌, Bool-cases, length, take, drop, lookup,
}
use ram_vram_sharing.Memory.Raw.{out_of_range, runtime_error, Result, ok, throw}
use ram_vram_sharing.Client.Lru.{put, remove}
use ram_vram_sharing.Client.Lru
use ram_vram_sharing.Client.Lru.Invariant.{IsValid}
use ram_vram_sharing.Client.Lru.Methods.{put_lem, get_lem}
use ram_vram_sharing.Client.Link.{Link}
use ram_vram_sharing.Client.Remote.{RemoteAllocation}
use ram_vram_sharing.Client.Remote.Placed.{IsPlaced}
use ram_vram_sharing.Client.Transfer.{overwrite, zeros}
use ram_vram_sharing.Client.Memory.{
  MemoryClient, Run, then_run, with_link, slice, update_block, cached, oversized_remote_alloc,
}
use ram_vram_sharing.Client.Memory.Sound.{lookup-IsPlaced, IsSound}

pub put-IsValid :
    (h : ℕ) (bytes : List ℕ) (dirty : Bool) (c : Lru.Cache)
    → IsValid c
    → IsValid (put h bytes dirty c).0
put-IsValid h bytes dirty c v = elim (put_lem h bytes dirty c v) [
  | inl (big, e) ↦ subst (λ r. IsValid r.0) (sym e) v
  | inr (c', kept, tail, e, v', _, _, _, _) ↦ subst (λ r. IsValid r.0) (sym e) v'
]

get-IsValid : (h : ℕ) (c : Lru.Cache) → IsValid c → IsValid (Lru.get h c).0
get-IsValid h c v = elim (get_lem h c v) [
  | inl (absent, e) ↦ subst (λ r. IsValid r.0) (sym e) v
  | inr (b, found, e, v') ↦ v'
]

filtered :
    (o : Option RemoteAllocation) (limit : ℕ) (a : RemoteAllocation)
    → (elim o [ none ↦ none | some b ↦ if ltb limit b.size then some b else none ]) ≡ some a
    → o ≡ some a
filtered none limit a e = e
filtered (some b) limit a e = ground (arith, e)

module _ {W : Type 0} where
  -- The run ends, with or without an exception, and leaves the invariant.
  abbrev pub Ends : {A : Type 0} → Option (MemoryClient W × Result A) → Type 0
  Ends {A} o = (c : MemoryClient W) × (r : Result A) × (o ≡ some (c, r)) × IsSound c

  -- A continuation that keeps the invariant.
  abbrev pub Keeps : {A : Type 0} → Run W A → Type 0
  Keeps m = (c : MemoryClient W) → IsSound c → Ends (m c)

  pub resumed :
      {A B : Type 0} (c : MemoryClient W) (r : Result A) (k : A → Run W B)
      → IsSound c
      → ((a : A) → Keeps (k a))
      → Ends (then_run (some (c, r)) k)
  resumed c (throw x) k v next = (c, throw x, refl, v)
  resumed c (ok a) k v next = next a c v

  pub branch-Ends :
      {A B : Type 0} (o : Option B) (x : Option (MemoryClient W × Result A))
      (k : B → Option (MemoryClient W × Result A))
      → Ends x
      → ((b : B) → o ≡ some b → Ends (k b))
      → Ends (elim o [ none ↦ x | some b ↦ k b ])
  branch-Ends none x k h next = h
  branch-Ends (some b) x k h next = next b refl

  pub then_run-Ends :
      {A B : Type 0} (o : Option (MemoryClient W × Result A)) (k : A → Run W B)
      → Ends o
      → ((a : A) → Keeps (k a))
      → Ends (then_run o k)
  then_run-Ends o k (c, r, e, v) next =
      subst (λ o. Ends (then_run o k)) (sym e) (resumed c r k v next)

  pub with_link-Ends :
      {A : Type 0} (c : MemoryClient W) (o : Option (Link W × Result A))
      → IsSound c
      → (r : Link W × Result A) × (o ≡ some r)
      → Ends (with_link c o)
  with_link-Ends c o v (r, e) =
      subst (λ o. Ends (with_link c o)) (sym e)
        (
          record c { link = r.0 },
          r.1,
          refl,
          record { cache_valid = v.cache_valid; all_placed = v.all_placed },
        )

  -- A transfer of a range of an oversized block, with the bounds test before it.
  pub bounded-Ends :
      {A : Type 0} (c : MemoryClient W) (size offset n : ℕ) (o : Option (Link W × Result A))
      → IsSound c
      → (offset + n ≤ size → (r : Link W × Result A) × (o ≡ some r))
      → Ends (
          if ltb size offset || ltb (size - offset) n
          then some (c, throw out_of_range)
          else with_link c o)
  bounded-Ends c size offset n o v ends =
      elim (Bool-cases (ltb size offset || ltb (size - offset) n)) [
        | inl bad ↦ rw bad (c, throw out_of_range, refl, v)
        | inr good ↦ rw good (with_link-Ends c o v (ends (ground arith)))
      ]

  pub oversized-IsPlaced :
      (handle : ℕ) (c : MemoryClient W) (a : RemoteAllocation)
      → IsSound c
      → oversized_remote_alloc handle c ≡ some a
      → IsPlaced a
  oversized-IsPlaced handle c a v e =
      lookup-IsPlaced handle c.remote_handles a v.all_placed
        (filtered (lookup handle c.remote_handles) c.cache.max_bytes a e)

  pub slice-Ends : (offset size : ℕ) (block : List ℕ) → Keeps (slice offset size block)
  slice-Ends offset size block c v =
      elim (Bool-cases (ltb (length block) offset || ltb (length block - offset) size)) [
        | inl bad ↦ (c, throw out_of_range, rw bad refl, v)
        | inr good ↦ (c, ok (take size (drop offset block)), rw good refl, v)
      ]

  pub update_block-Ends :
      (handle offset : ℕ) (bytes block : List ℕ) → Keeps (update_block handle offset bytes block)
  update_block-Ends handle offset bytes block c v =
      elim (Bool-cases (ltb (length block) offset || ltb (length block - offset) (length bytes))) [
        | inl bad ↦ (c, throw out_of_range, rw bad refl, v)
        | inr good ↦ (
          record c { cache = (put handle (overwrite offset bytes block) true c.cache).0 },
          ok tt,
          rw good refl,
          record {
            cache_valid =
                put-IsValid handle (overwrite offset bytes block) true c.cache v.cache_valid;
            all_placed = v.all_placed;
          },
        )
      ]

  pub put-Ends :
      (handle size : ℕ) (c : MemoryClient W)
      → IsSound c
      → let (cache', stored) = put handle (zeros size) false c.cache in
        let c' = record c { cache = cache' } in
        Ends (if stored then some (c', ok handle) else some (c', throw runtime_error))
  put-Ends handle size c v =
      let (cache', stored) = put handle (zeros size) false c.cache in
      let c' = record c { cache = cache' } in
      let v' : IsSound c' = record {
        cache_valid = put-IsValid handle (zeros size) false c.cache v.cache_valid;
        all_placed = v.all_placed;
      } in
      elim (Bool-cases stored) [
        | inl kept ↦ rw kept (c', ok handle, refl, v')
        | inr refused ↦ rw refused (c', throw runtime_error, refl, v')
      ]

  pub cached-IsSound : (handle : ℕ) (c : MemoryClient W) → IsSound c → IsSound (cached handle c).0
  cached-IsSound handle c v = record {
    cache_valid = get-IsValid handle c.cache v.cache_valid;
    all_placed = v.all_placed;
  }
