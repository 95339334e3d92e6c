-- ===== src/Memory/Tracker/Ownership.antt =====
-- PageTracker::free, assign_owner and free_all_for_owner.
use ram_vram_sharing.Prelude.{
  suc, ℕ, ◌+◌, ◌≤◌, ◌≡◌, ◌≢◌, ◌⊎◌, inl, inr, true, false, none, some, List, [], ◌∷◌, arith, ltb,
  if◌then◌else◌, Bool-cases, Option-cases, count, lookup, erase, assign, lookup-erase_ne,
  lookup-erase_self, assign-IsUnique, erase-IsUnique,
}
use ram_vram_sharing.Memory.Raw.{invalid_argument, permission_denied, ok, throw}
use ram_vram_sharing.Memory.Slab.{Slab, free_pages}
use ram_vram_sharing.Memory.Slab.Invariant
use ram_vram_sharing.Memory.Slab.Invariant.{free_pages-IsValid}
use ram_vram_sharing.Memory.Slab.Pages.{free_pages-Released}
use ram_vram_sharing.Memory.Tracker.{Allocation, Tracker, denies, free, own, assign_owner}
use ram_vram_sharing.Memory.Tracker.Invariant.{
  owned, AllSized, AllBelow, IsValid, owned-erase, AllSized-erase, AllBelow-erase,
}

-- The pages `ps` are in range, distinct and not in the free list.
abbrev pub Loose : Slab → (ℕ → ℕ) → Type 0
Loose s held = (q : ℕ) → held q + count q s.free_list ≤ (if ltb q s.total_pages then 1 else 0)

-- Such pages all come back to the free list, and nothing else does.
pub freed-count :
    (ps : List ℕ) (s : Slab) (q : ℕ)
    → Invariant.IsValid s
    → Loose s (λ q. count q ps)
    → count q (free_pages ps s).free_list ≡ count q ps + count q s.free_list
freed-count ps s q v l =
    let r = free_pages-Released ps s in
    ground (arith, (free_pages-IsValid ps s v).tracks q, r.marks q, r.same_total, v.tracks q, l q)

-- The tracker without one allocation.
abbrev freed : Tracker → ℕ → Allocation → Tracker
freed t h a = record t { slab = free_pages a.pages t.slab; allocations = erase h t.allocations }

module _ (t : Tracker) (h : ℕ) (a : Allocation) (v : IsValid t)
    (e : lookup h t.allocations ≡ some a) where
  loose : Loose t.slab (λ q. count q a.pages)
  loose q = ground (arith, v.conserved q, owned-erase q h t.allocations e)

  freed-IsValid : IsValid (freed t h a)
  freed-IsValid =
      let r = free_pages-Released a.pages t.slab in
      record {
        slab = free_pages-IsValid a.pages t.slab v.slab;
        next_pos = v.next_pos;
        unique = erase-IsUnique h t.allocations v.unique;
        below = AllBelow-erase t.next_handle h t.allocations v.below;
        sized = rw r.same_size (AllSized-erase t.slab.page_size h t.allocations v.sized);
        conserved = λ q. ground (
          arith,
          freed-count a.pages t.slab q v.slab loose,
          owned-erase q h t.allocations e,
          v.conserved q,
          r.same_total,
        );
      }

-- On a valid tracker free ends in one of three ways. An unknown handle throws invalid_argument and
-- a handle of another session permission_denied, and neither changes anything. Otherwise the
-- handle is unknown afterwards, its pages and no others are back in the free list, no byte is
-- moved, the other handles keep their allocations, and the tracker stays valid.
pub free_lem :
    (t : Tracker) (h owner k q : ℕ)
    → IsValid t
    → h ≢ k
    → ((lookup h t.allocations ≡ none) × (free h owner t ≡ (t, throw invalid_argument)))
      ⊎ ((a : Allocation) × (lookup h t.allocations ≡ some a)
          × (denies a owner ≡ true)
          × (free h owner t ≡ (t, throw permission_denied)))
      ⊎ ((a : Allocation) × (t' : Tracker) × (lookup h t.allocations ≡ some a)
          × (denies a owner ≡ false)
          × (free h owner t ≡ (t', ok tt))
          × (lookup h t'.allocations ≡ none)
          × (lookup k t'.allocations ≡ lookup k t.allocations)
          × (count q t'.slab.free_list ≡ count q a.pages + count q t.slab.free_list)
          × (t'.slab.buffer ≡ t.slab.buffer)
          × IsValid t')
unfolding free
free_lem t h owner k q v d = elim (Option-cases (lookup h t.allocations)) [
  | inl e ↦ inl (e, rw (e, free))
  | inr (a, e) ↦ elim (Bool-cases (denies a owner)) [
    | inl n ↦ inr (inl (a, e, n, rw (e, free) (ground arith)))
    | inr n ↦ inr (
        inr (
          a,
          freed t h a,
          e,
          n,
          rw (e, free) (ground arith),
          lookup-erase_self h t.allocations v.unique,
          lookup-erase_ne h k t.allocations d,
          freed-count a.pages t.slab q v.slab (loose t h a v e),
          (free_pages-Released a.pages t.slab).same_bytes,
          freed-IsValid t h a v e,
        ))
  ]
]

-- assign_owner changes the owner of the handle alone, and keeps the tracker valid.
own-owned :
    (q h owner : ℕ) (m : List (ℕ × Allocation)) (a : Allocation)
    → lookup h m ≡ some a
    → owned q (assign h (record a { owner_id = owner }) m) ≡ owned q m
own-owned q h owner [] a e = cc
own-owned q h owner ((j, b) ∷ m) a e = ground (arith, own-owned q h owner m a)

own-AllSized :
    (b h owner : ℕ) (m : List (ℕ × Allocation)) (a : Allocation)
    → lookup h m ≡ some a
    → AllSized b m
    → AllSized b (assign h (record a { owner_id = owner }) m)
own-AllSized b h owner [] a e s = cc
own-AllSized b h owner ((j, c) ∷ m) a e s = ground (arith, own-AllSized b h owner m a)

own-AllBelow :
    (n h : ℕ) (m : List (ℕ × Allocation)) (a c : Allocation)
    → lookup h m ≡ some a
    → AllBelow n m
    → AllBelow n (assign h c m)
own-AllBelow n h [] a c e s = cc
own-AllBelow n h ((j, d) ∷ m) a c e s = ground (arith, own-AllBelow n h m a c)

own-IsValid :
    (t : Tracker) (h owner : ℕ) (a : Allocation)
    → lookup h t.allocations ≡ some a
    → IsValid t
    → IsValid (record t { allocations = assign h (record a { owner_id = owner }) t.allocations })
own-IsValid t h owner a e v = record {
  slab = v.slab;
  next_pos = v.next_pos;
  unique = assign-IsUnique h _ t.allocations v.unique;
  below = own-AllBelow t.next_handle h t.allocations a _ e v.below;
  sized = own-AllSized t.slab.page_size h owner t.allocations a e v.sized;
  conserved = λ q. omega (arith, own-owned q h owner t.allocations a e, v.conserved q);
}

pub assign_owner-IsValid :
    (t : Tracker) (h owner : ℕ) → IsValid t → IsValid (assign_owner h owner t)
unfolding assign_owner own
assign_owner-IsValid t h owner v = elim (Option-cases (lookup h t.allocations)) [
  | inl e ↦ rw (e, own) v
  | inr (a, e) ↦ rw (e, own) (own-IsValid t h owner a e v)
]

pub free-IsValid : (t : Tracker) (h owner : ℕ) → IsValid t → IsValid (free h owner t).0
free-IsValid t h owner v = elim (free_lem t h owner (suc h) 0 v (λ e. omega arith)) [
  | inl (_, e) ↦ rw e v
  | inr (inl (a, _, _, e)) ↦ rw e v
  | inr (inr (a, t', _, _, e, _, _, _, _, v')) ↦ rw e v'
]

pub free_foreign :
    (t : Tracker) (h owner : ℕ) (a : Allocation)
    → lookup h t.allocations ≡ some a
    → denies a owner ≡ true
    → free h owner t ≡ (t, throw permission_denied)
unfolding free
free_foreign t h owner a e d = rw (e, free) (ground arith)
