-- ===== src/Memory/Tracker/Sweep.antt =====
-- PageTracker::free_all_for_owner, which runs when a session disconnects.
use ram_vram_sharing.Prelude.{
  ℕ, ◌+◌, ◌<◌, ◌≡◌, refl, ◌∙◌, inl, inr, false, Option, none, some, List, [], ◌∷◌, arith, ◌==◌,
  if◌then◌else◌, Bool-cases, count, lookup, IsUnique,
}
use ram_vram_sharing.Memory.Slab.{Slab, free_pages}
use ram_vram_sharing.Memory.Slab.Invariant
use ram_vram_sharing.Memory.Slab.Invariant.{free_pages-IsValid}
use ram_vram_sharing.Memory.Slab.Pages.{free_pages-Released}
use ram_vram_sharing.Memory.Tracker.{Allocation, Tracker, sweep, free_all_for_owner}
use ram_vram_sharing.Memory.Tracker.Invariant.{owned, AllSized, AllBelow, IsValid}
use ram_vram_sharing.Memory.Tracker.Ownership.{Loose, freed-count}

-- What is left of a lookup once the owner's allocations are gone.
abbrev pub unless_owned : ℕ → Option Allocation → Option Allocation
unless_owned owner none = none
unless_owned owner (some a) = if a.owner_id == owner then none else some a

-- The pages of the owner's allocations.
abbrev pub owned_by : ℕ → ℕ → List (ℕ × Allocation) → ℕ
owned_by owner q [] = 0
owned_by owner q ((h, a) ∷ m) =
    (if a.owner_id == owner then count q a.pages else 0) + owned_by owner q m

sweep-lookup :
    (owner k : ℕ) (m : List (ℕ × Allocation)) (s : Slab)
    → IsUnique m
    → lookup k (sweep owner m s).1 ≡ unless_owned owner (lookup k m)
unfolding sweep
sweep-lookup owner k [] s u = refl
sweep-lookup owner k ((j, a) ∷ m) s u =
    let s1 : Slab = if a.owner_id == owner then free_pages a.pages s else s in
    ground (arith, sweep-lookup owner k m s1 u.1, u.0)

sweep-IsUnique :
    (owner : ℕ) (m : List (ℕ × Allocation)) (s : Slab) → IsUnique m → IsUnique (sweep owner m s).1
unfolding sweep
sweep-IsUnique owner [] s u = tt
sweep-IsUnique owner ((j, a) ∷ m) s u =
    let s1 : Slab = if a.owner_id == owner then free_pages a.pages s else s in
    ground (arith, sweep-IsUnique owner m s1 u.1, sweep-lookup owner j m s1 u.1)

sweep-AllSized :
    (b owner : ℕ) (m : List (ℕ × Allocation)) (s : Slab)
    → AllSized b m
    → AllSized b (sweep owner m s).1
unfolding sweep
sweep-AllSized b owner [] s z = tt
sweep-AllSized b owner ((j, a) ∷ m) s z =
    let s1 : Slab = if a.owner_id == owner then free_pages a.pages s else s in
    ground (arith, sweep-AllSized b owner m s1 z.1)

sweep-AllBelow :
    (n owner : ℕ) (m : List (ℕ × Allocation)) (s : Slab)
    → AllBelow n m
    → AllBelow n (sweep owner m s).1
unfolding sweep
sweep-AllBelow n owner [] s z = tt
sweep-AllBelow n owner ((j, a) ∷ m) s z =
    let s1 : Slab = if a.owner_id == owner then free_pages a.pages s else s in
    ground (arith, sweep-AllBelow n owner m s1 z.2)

-- What the sweep does to the slab.
record Swept (owner : ℕ) (m rest : List (ℕ × Allocation)) (s s' : Slab) : Type 0 where
  valid : Invariant.IsValid s'
  returned : (q : ℕ) → count q s'.free_list ≡ owned_by owner q m + count q s.free_list
  balance : (q : ℕ) → owned q rest + owned_by owner q m ≡ owned q m
  same_bytes : s'.buffer ≡ s.buffer
  same_size : s'.page_size ≡ s.page_size
  same_total : s'.total_pages ≡ s.total_pages

sweep-Swept :
    (owner : ℕ) (m : List (ℕ × Allocation)) (s : Slab)
    → Invariant.IsValid s
    → Loose s (λ q. owned q m)
    → Swept owner m (sweep owner m s).1 s (sweep owner m s).0
unfolding sweep
sweep-Swept owner [] s v l = record {
  valid = v;
  returned = λ q. omega arith;
  balance = λ q. omega arith;
  same_bytes = refl;
  same_size = refl;
  same_total = refl;
}
sweep-Swept owner ((j, a) ∷ m) s v l = elim (Bool-cases (a.owner_id == owner)) [
  | inl mine ↦
      let back = λ (q : ℕ). freed-count a.pages s q v (λ p. omega (arith, l p)) in
      let r = free_pages-Released a.pages s in
      let ih =
        sweep-Swept owner m (free_pages a.pages s) (free_pages-IsValid a.pages s v)
          (λ q. ground (arith, l q, back q, r.same_total)) in
      rw mine (record {
        valid = ih.valid;
        returned = λ q. ground (arith, ih.returned q, back q, mine);
        balance = λ q. ground (arith, ih.balance q, mine);
        same_bytes = ih.same_bytes ∙ r.same_bytes;
        same_size = ih.same_size ∙ r.same_size;
        same_total = ih.same_total ∙ r.same_total;
      })
  | inr other ↦
      let ih = sweep-Swept owner m s v (λ q. omega (arith, l q)) in
      rw other (record {
        valid = ih.valid;
        returned = λ q. ground (arith, ih.returned q, other);
        balance = λ q. ground (arith, ih.balance q, other);
        same_bytes = ih.same_bytes;
        same_size = ih.same_size;
        same_total = ih.same_total;
      })
]

-- When a session with a positive id ends, on a valid tracker each of its handles becomes unknown
-- and every other handle keeps its allocation; the pages of its allocations and no others return
-- to the free list, no byte moves, and the tracker stays valid.
pub free_all_for_owner_lem :
    (t : Tracker) (owner k q : ℕ)
    → IsValid t
    → 0 < owner
    → let t' = free_all_for_owner owner t in
      IsValid t'
      × (lookup k t'.allocations ≡ unless_owned owner (lookup k t.allocations))
      × (count q t'.slab.free_list ≡ owned_by owner q t.allocations + count q t.slab.free_list)
      × (t'.slab.buffer ≡ t.slab.buffer)
unfolding free_all_for_owner
free_all_for_owner_lem t owner k q v p =
    let w = sweep-Swept owner t.allocations t.slab v.slab (λ x. omega (arith, v.conserved x)) in
    let z : (owner == 0) ≡ false = ground arith in
    rw z (
      record {
        slab = w.valid;
        next_pos = v.next_pos;
        unique = sweep-IsUnique owner t.allocations t.slab v.unique;
        below = sweep-AllBelow t.next_handle owner t.allocations t.slab v.below;
        sized = rw w.same_size (sweep-AllSized t.slab.page_size owner t.allocations t.slab v.sized);
        conserved = λ x. rw w.same_total (omega (arith, w.returned x, w.balance x, v.conserved x));
      },
      sweep-lookup owner k t.allocations t.slab v.unique,
      w.returned q,
      w.same_bytes,
    )
