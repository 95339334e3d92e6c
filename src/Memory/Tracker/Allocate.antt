-- ===== src/Memory/Tracker/Allocate.antt =====
-- PageTracker::allocate.
use native.Mathlib.Nat.{lt-div-mul-add, mod-eq_of_lt}
use ram_vram_sharing.Prelude.{
  ℕ, ◌+◌, ◌-◌, ◌*◌, ◌/◌, ◌≤◌, ◌<◌, ◌≡◌, refl, ap, ◌∙◌, ◌⊎◌, inl, inr, none, some, List, [], ◌∷◌,
  arith, ltb, Bool-cases, u64_mod, size_max, length, get_or, count, count-get_or, lookup, assign,
  lookup-assign, assign-IsUnique,
}
use ram_vram_sharing.Memory.Raw.{bad_alloc, ok, throw}
use ram_vram_sharing.Memory.Slab.{Slab}
use ram_vram_sharing.Memory.Slab.Invariant
use ram_vram_sharing.Memory.Slab.Allocate.{Granted, allocate_pages_lem}
use ram_vram_sharing.Memory.Tracker.{Allocation, Tracker, allocate}
use ram_vram_sharing.Memory.Tracker.Views.{address, view, Usable, div-lt, address_page}
use ram_vram_sharing.Memory.Tracker.Invariant.{
  owned, IsSized, AllSized, AllBelow, IsValid, AllBelow-mono, lookup-above, allocation-Usable,
  allocation-IsSized,
}

module _ (h : ℕ) (a : Allocation) where
  owned-assign :
      (q : ℕ) (m : List (ℕ × Allocation))
      → lookup h m ≡ none
      → owned q (assign h a m) ≡ count q a.pages + owned q m
  owned-assign q [] e = refl
  owned-assign q ((j, b) ∷ m) e = ground (arith, owned-assign q m)

  AllSized-assign :
      (b : ℕ) (m : List (ℕ × Allocation)) → IsSized b a → AllSized b m → AllSized b (assign h a m)
  AllSized-assign b [] z s = (z, tt)
  AllSized-assign b ((j, c) ∷ m) z s = ground (arith, AllSized-assign b m z s.1)

  AllBelow-assign :
      (n : ℕ) (m : List (ℕ × Allocation)) → 0 < h → h < n → AllBelow n m → AllBelow n (assign h a m)
  AllBelow-assign n [] p l s = (p, l, tt)
  AllBelow-assign n ((j, c) ∷ m) p l s = ground (arith, AllBelow-assign n m p l s.2)

-- Pages needed for `size` bytes.
abbrev pub needed : ℕ → ℕ → ℕ
needed page_size size = (size + page_size - 1) / page_size

needed_enough : (b size : ℕ) → 0 < b → size ≤ needed b size * b
needed_enough b size p = omega (arith, lt-div-mul-add {a = size + b - 1} p)

abbrev pub new_allocation : ℕ → List ℕ → Allocation
new_allocation size ps = record { total_size = size; pages = ps; owner_id = 0 }

-- The tracker after a grant: `next_handle` stays below 2^64 - 1 in any run that can be observed.
abbrev pub grown : Tracker → ℕ → Slab → List ℕ → Tracker
grown t size s ps = record {
  slab = s;
  allocations = assign t.next_handle (new_allocation size ps) t.allocations;
  next_handle = t.next_handle + 1;
}

grown-IsValid :
    (t : Tracker) (size : ℕ) (s : Slab) (ps : List ℕ)
    → IsValid t
    → 0 < size
    → Invariant.IsValid s
    → Granted (needed t.slab.page_size size) t.slab s ps
    → IsValid (grown t size s ps)
grown-IsValid t size s ps v p vs g =
    let h : ℕ = t.next_handle in
    let m = t.allocations in
    let a : Allocation = new_allocation size ps in
    let absent : lookup h m ≡ none = lookup-above h h m v.below (omega arith) in
    let enough : size ≤ length ps * t.slab.page_size =
      rw g.enough (needed_enough t.slab.page_size size v.slab.page_pos) in
    record {
      slab = vs;
      next_pos = omega arith;
      unique = assign-IsUnique h a m v.unique;
      below =
          AllBelow-assign h a (h + 1) m v.next_pos (omega arith)
            (AllBelow-mono h (h + 1) m (omega arith) v.below);
      sized = rw g.same_size (AllSized-assign h a t.slab.page_size m (p, enough) v.sized);
      conserved =
          λ q. ground (arith, owned-assign h a q m absent, g.moved q, v.conserved q, g.same_total);
    }

pub lookup-assign_self {ℓ} :
    {V : Type ℓ} (k : ℕ) (v : V) (m : List (ℕ × V)) → lookup k (assign k v m) ≡ some v
lookup-assign_self k v m = ground (arith, lookup-assign k k v m)

-- The bytes of the new allocation.
grown_zero :
    (s s' : Slab) (n : ℕ) (ps : List ℕ) (x : ℕ)
    → 0 < s.page_size
    → Granted n s s' ps
    → x < length ps * s.page_size
    → view s' ps x ≡ 0
grown_zero s s' n ps x p g h =
    ap (λ b. s'.buffer (address b ps x)) g.same_size
    ∙ ground (
      arith,
      g.bytes (address s.page_size ps x),
      address_page s.page_size ps x p,
      count-get_or ps (x / s.page_size) 0 (div-lt x (length ps) s.page_size p h),
    )

-- The bytes of the pages in use.
grown_keeps :
    (s s' : Slab) (n : ℕ) (ps bs : List ℕ) (x : ℕ)
    → Usable s bs
    → Granted n s s' ps
    → x < length bs * s.page_size
    → view s' bs x ≡ view s bs x
grown_keeps s s' n ps bs x u g h =
    let P : ℕ = get_or bs (x / s.page_size) 0 in
    let here : 0 < count P bs =
      count-get_or bs (x / s.page_size) 0 (div-lt x (length bs) s.page_size u.page_pos h) in
    let use_ = u.in_use P here in
    ap (λ b. s'.buffer (address b bs x)) g.same_size
    ∙ ground (
      arith,
      g.bytes (address s.page_size bs x),
      address_page s.page_size bs x u.page_pos,
      g.origin P,
      use_.1,
    )

-- On a valid tracker an allocation of at least one byte takes whole pages from the free list under
-- a handle not used before, and keeps the tracker valid. It fails with bad_alloc, and changes
-- nothing, when the size would overflow or too few pages are free. The next handle is assumed not
-- to wrap.
pub allocate_lem :
    (t : Tracker) (size : ℕ)
    → IsValid t
    → 0 < size
    → t.next_handle + 1 < u64_mod
    → ((size_max - (t.slab.page_size - 1) < size)
          ⊎ (length t.slab.free_list < needed t.slab.page_size size))
        × (allocate size t ≡ (t, throw bad_alloc))
      ⊎ ((s : Slab) × (ps : List ℕ) × (allocate size t ≡ (grown t size s ps, ok t.next_handle))
          × IsValid (grown t size s ps)
          × Granted (needed t.slab.page_size size) t.slab s ps
          × (lookup t.next_handle t.allocations ≡ none))
unfolding allocate
allocate_lem t size v p w = elim (Bool-cases (ltb (size_max - (t.slab.page_size - 1)) size)) [
  | inl big ↦ inl (inl (ground arith), ground arith)
  | inr fine ↦ elim (allocate_pages_lem (needed t.slab.page_size size) t.slab v.slab) [
    | inl (few, e) ↦ inl (inr few, rw e (ground arith))
    | inr (s, ps, e, vs, g) ↦ inr (
      s,
      ps,
      rw (e, mod-eq_of_lt w) (ground arith),
      grown-IsValid t size s ps v p vs g,
      g,
      lookup-above t.next_handle t.next_handle t.allocations v.below (omega arith),
    )
  ]
]

-- On a valid tracker an allocation of at least one byte fails and changes nothing, or yields the
-- next handle, under which the map now has an unowned allocation of the size asked for that reads
-- as zero. The next handle is assumed not to wrap.
pub allocate_zero :
    (t : Tracker) (size x : ℕ)
    → IsValid t
    → 0 < size
    → t.next_handle + 1 < u64_mod
    → x < size
    → (allocate size t ≡ (t, throw bad_alloc))
      ⊎ ((t' : Tracker) × (a : Allocation) × (allocate size t ≡ (t', ok t.next_handle))
          × (lookup t.next_handle t'.allocations ≡ some a)
          × (a.total_size ≡ size)
          × (a.owner_id ≡ 0)
          × (view t'.slab a.pages x ≡ 0))
allocate_zero t size x v p w l = elim (allocate_lem t size v p w) [
  | inl (_, e) ↦ inl e
  | inr (s, ps, e, v', g, _) ↦
      let enough : size ≤ length ps * t.slab.page_size =
        rw g.enough (needed_enough t.slab.page_size size v.slab.page_pos) in
      inr (
        grown t size s ps,
        new_allocation size ps,
        e,
        lookup-assign_self t.next_handle (new_allocation size ps) t.allocations,
        refl,
        refl,
        grown_zero t.slab s (needed t.slab.page_size size) ps x v.slab.page_pos g (omega arith),
      )
]

-- On a valid tracker an allocation of at least one byte leaves every other allocation and its
-- bytes as they are. The next handle is assumed not to wrap.
allocate_keeps :
    (t : Tracker) (size k x : ℕ) {b : Allocation}
    → IsValid t
    → 0 < size
    → t.next_handle + 1 < u64_mod
    → lookup k t.allocations ≡ some b
    → x < b.total_size
    → let t' = (allocate size t).0 in
      (lookup k t'.allocations ≡ some b) × (view t'.slab b.pages x ≡ view t.slab b.pages x)
allocate_keeps t size k x {b} v p w f l = elim (allocate_lem t size v p w) [
  | inl (_, e) ↦ rw e (f, refl)
  | inr (s, ps, e, v', g, absent) ↦ rw e (
    ground (arith, lookup-assign t.next_handle k (new_allocation size ps) t.allocations),
    grown_keeps t.slab s (needed t.slab.page_size size) ps b.pages x (allocation-Usable t v k f) g
        (omega (arith, allocation-IsSized t v k f)),
  )
]
