-- ===== src/Memory/Tracker/Invariant.antt =====
-- The invariant of the tracker: every page of the slab is in the free list or belongs to exactly
-- one allocation, never both and never to two, and each allocation has pages enough for its size.
use ram_vram_sharing.Prelude.{
  ℕ, ◌+◌, ◌*◌, ◌≤◌, ◌<◌, ◌≡◌, refl, ◌∙◌, ◌≢◌, ◌⊎◌, none, some, List, [], ◌∷◌, arith, ltb,
  if◌then◌else◌, length, count, lookup, erase, lookup-erase_ne, IsUnique,
}
use ram_vram_sharing.Memory.Slab.{allocated, Slab}
use ram_vram_sharing.Memory.Slab.Invariant
use ram_vram_sharing.Memory.Slab.Invariant.{Tracks, expected}
use ram_vram_sharing.Memory.Tracker.{Allocation, Tracker}
use ram_vram_sharing.Memory.Tracker.Views.{Usable}

-- How often page `q` stands in the allocations of a map.
abbrev pub owned : ℕ → List (ℕ × Allocation) → ℕ
owned q [] = 0
owned q ((h, a) ∷ m) = count q a.pages + owned q m

-- An allocation is not empty, and its pages hold its size.
abbrev pub IsSized : ℕ → Allocation → Type 0
IsSized page_size a = (0 < a.total_size) × (a.total_size ≤ length a.pages * page_size)

abbrev pub AllSized : ℕ → List (ℕ × Allocation) → Type 0
AllSized b [] = Unit
AllSized b ((h, a) ∷ m) = IsSized b a × AllSized b m

-- Handles are positive and below the next one.
abbrev pub AllBelow : ℕ → List (ℕ × Allocation) → Type 0
AllBelow n [] = Unit
AllBelow n ((h, a) ∷ m) = (0 < h) × (h < n) × AllBelow n m

abbrev pub Conserved : Slab → List (ℕ × Allocation) → Type 0
Conserved s m = (q : ℕ) → owned q m + count q s.free_list ≡ (if ltb q s.total_pages then 1 else 0)

pub record IsValid (t : Tracker) : Type 0 where
  pub slab : Invariant.IsValid t.slab
  pub next_pos : 0 < t.next_handle
  pub unique : IsUnique t.allocations
  pub below : AllBelow t.next_handle t.allocations
  pub sized : AllSized t.slab.page_size t.allocations
  pub conserved : Conserved t.slab t.allocations

pub owned-erase :
    (q h : ℕ) (m : List (ℕ × Allocation)) {a : Allocation}
    → lookup h m ≡ some a
    → owned q m ≡ count q a.pages + owned q (erase h m)
owned-erase q h [] e = cc
owned-erase q h ((j, b) ∷ m) {a} e = ground (arith, owned-erase q h m {a = a})

pub IsSized-lookup :
    (b h : ℕ) (m : List (ℕ × Allocation)) {a : Allocation}
    → AllSized b m
    → lookup h m ≡ some a
    → IsSized b a
IsSized-lookup b h [] s e = cc
IsSized-lookup b h ((j, c) ∷ m) {a} s e = ground (arith, IsSized-lookup b h m {a = a} s.1)

pub AllSized-erase : (b h : ℕ) (m : List (ℕ × Allocation)) → AllSized b m → AllSized b (erase h m)
AllSized-erase b h [] s = tt
AllSized-erase b h ((j, c) ∷ m) s = ground (arith, AllSized-erase b h m s.1)

pub AllBelow-erase : (n h : ℕ) (m : List (ℕ × Allocation)) → AllBelow n m → AllBelow n (erase h m)
AllBelow-erase n h [] s = tt
AllBelow-erase n h ((j, c) ∷ m) s = ground (arith, AllBelow-erase n h m s.2)

pub AllBelow-mono : (n k : ℕ) (m : List (ℕ × Allocation)) → n ≤ k → AllBelow n m → AllBelow k m
AllBelow-mono n k [] h s = tt
AllBelow-mono n k ((j, c) ∷ m) h s = (s.0, omega arith, AllBelow-mono n k m h s.2)

pub lookup-above : (n h : ℕ) (m : List (ℕ × Allocation)) → AllBelow n m → n ≤ h → lookup h m ≡ none
lookup-above n h [] s le = refl
lookup-above n h ((j, c) ∷ m) s le = ground (arith, lookup-above n h m s.2)

pub lookup-zero : (n : ℕ) (m : List (ℕ × Allocation)) → AllBelow n m → lookup 0 m ≡ none
lookup-zero n [] s = refl
lookup-zero n ((j, c) ∷ m) s = ground (arith, lookup-zero n m s.2)

module _ (t : Tracker) (v : IsValid t) (h : ℕ) {a : Allocation}
    (found : lookup h t.allocations ≡ some a) where
  page_in_use :
      (q : ℕ) → 0 < count q a.pages → (q < t.slab.total_pages) × (t.slab.page_states q ≡ allocated)
  page_in_use q k =
      ground (arith, v.conserved q, v.slab.tracks q, owned-erase q h t.allocations found)

  -- The pages of an allocation are distinct, in range and marked as allocated.
  pub allocation-Usable : Usable t.slab a.pages
  allocation-Usable = record {
    page_pos = v.slab.page_pos;
    distinct = λ q. ground (arith, v.conserved q, owned-erase q h t.allocations found);
    in_use = page_in_use;
  }

  pub allocation-IsSized : IsSized t.slab.page_size a
  allocation-IsSized = IsSized-lookup t.slab.page_size h t.allocations v.sized found

-- Two handles of a valid tracker share no page.
pub pages_disjoint :
    (t : Tracker) (h k : ℕ) {a b : Allocation} (q : ℕ)
    → IsValid t
    → h ≢ k
    → lookup h t.allocations ≡ some a
    → lookup k t.allocations ≡ some b
    → (count q a.pages ≡ 0) ⊎ (count q b.pages ≡ 0)
pages_disjoint t h k {a} {b} q v d e f =
    let e' : lookup k (erase h t.allocations) ≡ some b = lookup-erase_ne h k t.allocations d ∙ f in
    ground (
      arith,
      v.conserved q,
      owned-erase q h t.allocations e,
      owned-erase q k (erase h t.allocations) e',
    )
