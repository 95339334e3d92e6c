-- ===== src/Client/Heap/Faults.antt =====
-- handle_fault and flush.
use native.Mathlib.Nat.{div-mul-le_self}
use ram_vram_sharing.Prelude.{
  ℕ, ◌+◌, ◌-◌, ◌*◌, ◌/◌, ◌≤◌, ◌<◌, ◌≡◌, refl, inl, inr, true, ◌||◌, Option, some, List, [], ◌∷◌,
  arith, ltb, leb, ◌==◌, if◌then◌else◌, Bool-cases, length, length-append,
}
use ram_vram_sharing.Memory.Raw.{Result, ok, throw}
use ram_vram_sharing.Client.Heap.{
  Backing, RemoteHeap, is_in, page_index_of, offset_of, length_of, enter_page, enforce_budget,
  handle_fault,
}
use ram_vram_sharing.Client.Heap.Invariant.{IsValid, enter_page-IsValid}
use ram_vram_sharing.Client.Heap.Loops.{enforce_budget_ends}

-- A page that holds an address of the region starts inside it.
page_inside : (x page capacity : ℕ) → x < capacity → x / page * page < capacity
page_inside x page capacity l = omega (arith, div-mul-le_self x page)

module _ {S : Type 0} (os : Backing S) where
  enter_page-length :
      (i : ℕ) (h : RemoteHeap S)
      → length (enter_page i h).resident_order ≤ length h.resident_order + 1
  unfolding enter_page
  enter_page-length i h = elim (Bool-cases (is_in i h.resident)) [
    | inl known ↦ rw (known, enter_page) (omega arith)
    | inr new ↦ rw (new, enter_page) (omega (arith, length-append h.resident_order (i ∷ [])))
  ]

  -- What handle_fault makes of the bytes it asked for.
  abbrev resolve : ℕ → ℕ → RemoteHeap S → S → Result (List ℕ) → Option (RemoteHeap S)
  resolve f i h w (throw e) = some (record h { world = w })
  resolve f i h w (ok bytes) =
      if length bytes == length_of i h
      then enforce_budget os f
          (enter_page i (record h { world = os.resolve_fault (offset_of i h) bytes w }))
      else some (record h { world = w })

  resolve_ends :
      (f i : ℕ) (h : RemoteHeap S) (w : S) (r : Result (List ℕ))
      → IsValid h
      → length h.resident_order + 1 < f
      → offset_of i h < h.capacity
      → ((at : ℕ) (bytes : List ℕ) (s : S) → (os.client_write at bytes s).1 ≡ ok tt)
      → ((at n : ℕ) (s : S) → (os.evict_pages at n s).1 ≡ true)
      → (h' : RemoteHeap S) × (resolve f i h w r ≡ some h') × IsValid h'
  resolve_ends f i h w (throw e) v enough starts writes takes = (record h { world = w }, refl, v)
  resolve_ends f i h w (ok bytes) v enough starts writes takes =
      elim (Bool-cases (length bytes == length_of i h)) [
        | inr short ↦ (record h { world = w }, rw short refl, v)
        | inl whole ↦
            let h1 : RemoteHeap S = record h { world = os.resolve_fault (offset_of i h) bytes w } in
            let (h', ends, left) =
              enforce_budget_ends os f (enter_page i h1) (enter_page-IsValid i h1 v starts)
                (omega (arith, enter_page-length i h1)) writes takes in
            (h', rw whole ends, left.0)
      ]

  -- When the client takes every write and the system takes every page, `handle_fault` ends for every
  -- address, whatever the client's read gives, within two rounds more than there are resident pages,
  -- and keeps the books.
  pub handle_fault_ends :
      (f addr : ℕ) (h : RemoteHeap S)
      → IsValid h
      → length h.resident_order + 1 < f
      → ((at : ℕ) (bytes : List ℕ) (s : S) → (os.client_write at bytes s).1 ≡ ok tt)
      → ((at n : ℕ) (s : S) → (os.evict_pages at n s).1 ≡ true)
      → (h' : RemoteHeap S) × (handle_fault os f addr h ≡ some h') × IsValid h'
  unfolding handle_fault
  handle_fault_ends f addr h v enough writes takes =
      let i = page_index_of addr h in
      let called = os.client_read (offset_of i h) (length_of i h) h.world in
      elim (Bool-cases (ltb addr h.base || leb (h.base + h.capacity) addr)) [
        | inl outside ↦ (h, rw outside refl, v)
        | inr inside ↦
            let starts : offset_of i h < h.capacity =
              page_inside (addr - h.base) h.page_bytes h.capacity (ground arith) in
            let (h', ends, v') =
              resolve_ends f i h called.0 called.1 v enough starts writes takes in
            (h', rw inside ends, v')
      ]
