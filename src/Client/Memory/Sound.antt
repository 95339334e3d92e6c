-- ===== src/Client/Memory/Sound.antt =====
-- The client's invariant, and when a handle is known to it.
use mathlib.Core.Path.{subst}
use mathlib.Core.Option.{none-ne-some, some-injective}
use ram_vram_sharing.Prelude.{
  ℕ, ◌≤◌, ◌≡◌, ◌≢◌, ◌⊎◌, inl, inr, some, List, [], ◌∷◌, arith, ◌==◌, Bool-cases, count, lookup,
  erase, assign, lookup-assign,
}
use ram_vram_sharing.Client.Lru.Invariant.{handles, IsValid}
use ram_vram_sharing.Client.Remote.{RemoteAllocation}
use ram_vram_sharing.Client.Remote.Placed.{IsPlaced}
use ram_vram_sharing.Client.Memory.{MemoryClient}

abbrev pub AllPlaced : List (ℕ × RemoteAllocation) → Type 0
AllPlaced [] = Unit {0}
AllPlaced ((k, a) ∷ m) = IsPlaced a × AllPlaced m

pub assign-AllPlaced :
    (k : ℕ) (a : RemoteAllocation) (m : List (ℕ × RemoteAllocation))
    → IsPlaced a
    → AllPlaced m
    → AllPlaced (assign k a m)
assign-AllPlaced k a [] p ps = (p, tt)
assign-AllPlaced k a ((j, b) ∷ m) p ps = elim (Bool-cases (j == k)) [
  | inl e ↦ rw e (p, ps.1)
  | inr e ↦ rw e (ps.0, assign-AllPlaced k a m p ps.1)
]

pub erase-AllPlaced :
    (k : ℕ) (m : List (ℕ × RemoteAllocation)) → AllPlaced m → AllPlaced (erase k m)
erase-AllPlaced k [] ps = tt
erase-AllPlaced k ((j, b) ∷ m) ps = elim (Bool-cases (j == k)) [
  | inl e ↦ rw e ps.1
  | inr e ↦ rw e (ps.0, erase-AllPlaced k m ps.1)
]

pub lookup-IsPlaced :
    (k : ℕ) (m : List (ℕ × RemoteAllocation)) (a : RemoteAllocation)
    → AllPlaced m
    → lookup k m ≡ some a
    → IsPlaced a
lookup-IsPlaced k [] a ps e = absurd (none-ne-some a e)
lookup-IsPlaced k ((j, b) ∷ m) a ps e = elim (Bool-cases (j == k)) [
  | inl here ↦ subst IsPlaced (some-injective b a (ground (arith, e))) ps.0
  | inr apart ↦ lookup-IsPlaced k m a ps.1 (ground (arith, e))
]

pub lookup-assign_ne :
    (k j : ℕ) (a : RemoteAllocation) (m : List (ℕ × RemoteAllocation))
    → k ≢ j
    → lookup j (assign k a m) ≡ lookup j m
lookup-assign_ne k j a m ne = ground (arith, lookup-assign k j a m)

module _ {W : Type 0} where
  pub record IsSound (c : MemoryClient W) : Type 0 where
    pub cache_valid : IsValid c.cache
    pub all_placed : AllPlaced c.remote_handles

  -- A block of the cache or a remote allocation has the handle.
  abbrev pub IsKnown : ℕ → MemoryClient W → Type 0
  IsKnown k c =
      (1 ≤ count k (handles c.cache.list))
      ⊎ ((a : RemoteAllocation) × (lookup k c.remote_handles ≡ some a))
