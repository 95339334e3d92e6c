-- ===== src/Client/Heap/Invariant.antt =====
-- The books of the heap: the list and the map name the same pages, each once and inside the region,
-- and resident_bytes is the sum of their lengths.
use mathlib.Core.Path.{subst}
use ram_vram_sharing.Prelude.{
  ℕ, suc, ◌+◌, ◌-◌, ◌*◌, ◌≤◌, ◌<◌, min, ◌≡◌, refl, sym, ap, ◌∙◌, inl, inr, List, [], ◌∷◌, ◌++◌,
  arith, ltb, ◌==◌, if◌then◌else◌, Bool-cases, length, count, count-append,
}
use ram_vram_sharing.Client.Heap.{
  RemoteHeap, is_in, without, offset_of, to_back, drop_page, enter_page,
}

abbrev pub page_length : ℕ → ℕ → ℕ → ℕ
page_length page capacity i = min page (capacity - i * page)

abbrev pub bytes_of : ℕ → ℕ → List ℕ → ℕ
bytes_of page capacity [] = 0
bytes_of page capacity (i ∷ is) = page_length page capacity i + bytes_of page capacity is

pub record Ledger (page capacity : ℕ) (order keys : List ℕ) (bytes : ℕ) : Type 0 where
  pub matched : (i : ℕ) → count i keys ≡ count i order
  pub distinct : (i : ℕ) → count i order ≤ 1
  pub inside : (i : ℕ) → 0 < count i order → i * page < capacity
  pub summed : bytes ≡ bytes_of page capacity order

pub is_in_lem : (i : ℕ) (is : List ℕ) → is_in i is ≡ ltb 0 (count i is)
unfolding is_in
is_in_lem i [] = refl
is_in_lem i (j ∷ is) = ground (arith, is_in_lem i is)

count-without :
    (i j : ℕ) (is : List ℕ) → count i (without j is) ≡ count i is - (if j == i then 1 else 0)
unfolding without
count-without i j [] = ground arith
count-without i j (k ∷ is) = ground (arith, count-without i j is)

bytes_of-without :
    (page capacity i : ℕ) (is : List ℕ)
    → 0 < count i is
    → bytes_of page capacity is
      ≡ page_length page capacity i + bytes_of page capacity (without i is)
unfolding without
bytes_of-without page capacity i [] h = absurd (omega arith)
bytes_of-without page capacity i (j ∷ is) h = elim (Bool-cases (j == i)) [
  | inl here ↦
      let same : j ≡ i = ground arith in
      rw here (ap (λ k. page_length page capacity k + bytes_of page capacity is) same)
  | inr apart ↦ rw apart (omega (arith, bytes_of-without page capacity i is (ground arith)))
]

bytes_of-append :
    (page capacity : ℕ) (is js : List ℕ)
    → bytes_of page capacity (is ++ js) ≡ bytes_of page capacity is + bytes_of page capacity js
bytes_of-append page capacity [] js = omega arith
bytes_of-append page capacity (i ∷ is) js = omega (arith, bytes_of-append page capacity is js)

pub length-without :
    (i : ℕ) (is : List ℕ) → 0 < count i is → length is ≡ suc (length (without i is))
unfolding without
length-without i [] h = absurd (omega arith)
length-without i (j ∷ is) h = ground (arith, length-without i is)

module _ (page capacity : ℕ) (order keys : List ℕ) (bytes i : ℕ)
    (v : Ledger page capacity order keys bytes) where
  dropped-Ledger :
      0 < count i order
      → Ledger page capacity
          (without i order)
          (without i keys)
          (bytes - page_length page capacity i)
  dropped-Ledger here = record {
    matched = λ k. omega (arith, v.matched k, count-without k i order, count-without k i keys);
    distinct = λ k. omega (arith, v.distinct k, count-without k i order);
    inside = λ k h. v.inside k (omega (arith, count-without k i order));
    summed = omega (arith, v.summed, bytes_of-without page capacity i order here);
  }

  count-moved : (k : ℕ) → 0 < count i order → count k (without i order ++ i ∷ []) ≡ count k order
  count-moved k here = elim (Bool-cases (i == k)) [
    | inl e ↦
        let same : i ≡ k = ground arith in
        let there = subst (λ k. 0 < count k order) same here in
        ground (arith, there, count-without k i order, count-append k (without i order) (i ∷ []))
    | inr e ↦ ground (arith, count-without k i order, count-append k (without i order) (i ∷ []))
  ]

  moved-Ledger : 0 < count i order → Ledger page capacity (without i order ++ i ∷ []) keys bytes
  moved-Ledger here = record {
    matched = λ k. v.matched k ∙ sym (count-moved k here);
    distinct = λ k. omega (arith, count-moved k here, v.distinct k);
    inside = λ k h. v.inside k (omega (arith, count-moved k here));
    summed = omega (
      arith,
      v.summed,
      bytes_of-without page capacity i order here,
      bytes_of-append page capacity (without i order) (i ∷ []),
    );
  }

  entered-Ledger :
      count i order ≡ 0
      → i * page < capacity
      → Ledger page capacity (order ++ i ∷ []) (i ∷ keys) (bytes + page_length page capacity i)
  entered-Ledger new here = record {
    matched = λ k. omega (arith, v.matched k, count-append k order (i ∷ []));
    distinct = λ k. elim (Bool-cases (i == k)) [
      | inl e ↦
          let same : i ≡ k = ground arith in
          let none_yet = subst (λ k. count k order ≡ 0) same new in
          ground (arith, none_yet, count-append k order (i ∷ []))
      | inr e ↦ ground (arith, v.distinct k, count-append k order (i ∷ []))
    ];
    inside = λ k h. elim (Bool-cases (i == k)) [
      | inl e ↦ let same : i ≡ k = ground arith in subst (λ k. k * page < capacity) same here
      | inr e ↦ v.inside k (ground (arith, count-append k order (i ∷ [])))
    ];
    summed = omega (arith, v.summed, bytes_of-append page capacity order (i ∷ []));
  }

module _ {S : Type 0} where
  abbrev pub IsValid : RemoteHeap S → Type 0
  IsValid h = Ledger h.page_bytes h.capacity h.resident_order h.resident h.stats.resident_bytes

  -- The settings of a heap never change, and methods leave them alone.
  pub record SameShape (h h' : RemoteHeap S) : Type 0 where
    pub same_base : h'.base ≡ h.base
    pub same_capacity : h'.capacity ≡ h.capacity
    pub same_page : h'.page_bytes ≡ h.page_bytes
    pub same_budget : h'.local_budget_bytes ≡ h.local_budget_bytes

  pub drop_page-IsValid :
      (i : ℕ) (h : RemoteHeap S)
      → IsValid h
      → 0 < count i h.resident_order
      → IsValid (drop_page i h)
  unfolding drop_page
  drop_page-IsValid i h v here =
      dropped-Ledger h.page_bytes h.capacity h.resident_order h.resident h.stats.resident_bytes i v
        here

  pub to_back-IsValid :
      (i : ℕ) (h : RemoteHeap S) → IsValid h → 0 < count i h.resident_order → IsValid (to_back i h)
  to_back-IsValid i h v here =
      moved-Ledger h.page_bytes h.capacity h.resident_order h.resident h.stats.resident_bytes i v
        here

  pub enter_page-IsValid :
      (i : ℕ) (h : RemoteHeap S) → IsValid h → offset_of i h < h.capacity → IsValid (enter_page i h)
  unfolding enter_page
  enter_page-IsValid i h v here = elim (Bool-cases (is_in i h.resident)) [
    | inl known ↦ rw (known, enter_page) v
    | inr new ↦
        rw (new, enter_page)
          (entered-Ledger h.page_bytes h.capacity h.resident_order h.resident h.stats.resident_bytes
            i v (ground (arith, is_in_lem i h.resident, v.matched i)) here)
  ]
