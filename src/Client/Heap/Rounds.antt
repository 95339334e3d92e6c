-- ===== src/Client/Heap/Rounds.antt =====
-- One round of the loops of the heap: evict_page at the front of the order.
use ram_vram_sharing.Prelude.{
  ℕ, ◌<◌, ◌≡◌, ap, ◌∙◌, ◌⊎◌, inl, inr, List, [], ◌∷◌, ◌++◌, arith, count,
}
use ram_vram_sharing.Client.Heap.{Backing, RemoteHeap, without, drop_page, evict_page}
use ram_vram_sharing.Client.Heap.Invariant.{IsValid}
use ram_vram_sharing.Client.Heap.Evict.{IsSafe, IsRefused, evict_page_cases, evict_page-IsValid}

front-without : (i : ℕ) (is : List ℕ) → without i (i ∷ is) ≡ is
unfolding without
front-without i is = ground arith

front-count : (i : ℕ) (is js : List ℕ) → is ≡ i ∷ js → 0 < count i is
front-count i is js e = rw e (ground arith)

module _ {S : Type 0} (os : Backing S) where
  -- One round at the front page: it leaves the front, and the rest keeps its order.
  pub record Round (i : ℕ) (rest : List ℕ) (h h' : RemoteHeap S) : Type 0 where
    pub valid : IsValid h'
    pub budget : h'.local_budget_bytes ≡ h.local_budget_bytes
    pub outcome :
        ((h'.resident_order ≡ rest) × IsSafe os i h)
        ⊎ ((h'.resident_order ≡ rest ++ i ∷ [])
            × (h'.stats.resident_bytes ≡ h.stats.resident_bytes)
            × IsRefused os i h)

  pub round_lem :
      (i : ℕ) (rest : List ℕ) (h : RemoteHeap S)
      → IsValid h
      → h.resident_order ≡ i ∷ rest
      → Round i rest h (evict_page os i h)
  unfolding drop_page
  round_lem i rest h v e =
      let here = front-count i h.resident_order rest e in
      let behind : without i h.resident_order ≡ rest = ap (without i) e ∙ front-without i rest in
      let (w, n, outcome) = evict_page_cases os i h v here in
      elim outcome [
        | inl (gone, safe, taken) ↦ record {
          valid = evict_page-IsValid os i h v here;
          budget = ap (λ x. x.local_budget_bytes) gone;
          outcome = inl (ap (λ x. x.resident_order) gone ∙ behind, safe);
        }
        | inr (back, refused) ↦ record {
          valid = evict_page-IsValid os i h v here;
          budget = ap (λ x. x.local_budget_bytes) back;
          outcome = inr (
            ap (λ x. x.resident_order) back ∙ ap (λ r. r ++ i ∷ []) behind,
            ap (λ x. x.stats.resident_bytes) back,
            refused,
          );
        }
      ]
