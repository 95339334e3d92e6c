-- ===== src/Client/Heap/Loops.antt =====
-- The loops of the heap: enforce_budget, which may not end, and flush_and_evict_all.
use mathlib.Core.Bool.{true≢false}
use ram_vram_sharing.Prelude.{
  ℕ, zero, suc, ◌≤◌, ◌<◌, min, ◌≡◌, refl, sym, ap, ◌∙◌, ◌⊎◌, inl, inr, Bool, true, false, ◌&&◌,
  Option, none, some, List, [], ◌∷◌, ◌++◌, arith, ltb, ◌==◌, if◌then◌else◌, Bool-cases, length,
  length-append, List-cases,
}
use ram_vram_sharing.Memory.Raw.{runtime_error, ok, throw}
use ram_vram_sharing.Client.Act.{thrown}
use ram_vram_sharing.Client.Heap.{
  Backing, RemoteHeap, evict_page, enforce_budget, evict_all, flush_and_evict_all,
}
use ram_vram_sharing.Client.Heap.Invariant.{IsValid}
use ram_vram_sharing.Client.Heap.Rounds.{round_lem}
use ram_vram_sharing.Client.Heap.Evict.{IsSafe, IsRefused}

module _ {S : Type 0} (os : Backing S) where
  -- evict_page for one page after another.
  pub evict_each : List ℕ → RemoteHeap S → RemoteHeap S
  evict_each [] h = h
  evict_each (i ∷ is) h = evict_each is (evict_page os i h)

  -- The run stopped at a page that was refused: those in front of it were evicted, it went to the
  -- back, and those behind it were not tried.
  abbrev pub Stopped : RemoteHeap S → RemoteHeap S → Type 0
  Stopped h h' =
      (gone : List ℕ) × (i : ℕ) × (rest : List ℕ) × (h.resident_order ≡ gone ++ i ∷ rest)
      × IsRefused os i (evict_each gone h)
      × (h' ≡ evict_page os i (evict_each gone h))
      × (h'.resident_order ≡ rest ++ i ∷ [])

  -- What flush_and_evict_all leaves: nothing, when each page was evicted, or a page that was refused.
  abbrev pub Emptied : RemoteHeap S → RemoteHeap S → Type 0
  Emptied h h' =
      IsValid h'
      × (((h'.resident_order ≡ []) × (h' ≡ evict_each h.resident_order h)) ⊎ Stopped h h')

  -- A round of evict_all, by the pages that are resident.
  abbrev evict_round : ℕ → RemoteHeap S → List ℕ → Option (RemoteHeap S)
  evict_round f h [] = some h
  evict_round f h (i ∷ rest) =
      let h' = evict_page os i h in
      if length h'.resident_order == length h.resident_order then some h' else evict_all os f h'

  Emptied-front :
      (i : ℕ) (rest : List ℕ) (h h' : RemoteHeap S)
      → h.resident_order ≡ i ∷ rest
      → (evict_page os i h).resident_order ≡ rest
      → ((h'.resident_order ≡ [])
          × (h' ≡ evict_each (evict_page os i h).resident_order (evict_page os i h)))
        ⊎ Stopped (evict_page os i h) h'
      → ((h'.resident_order ≡ []) × (h' ≡ evict_each h.resident_order h)) ⊎ Stopped h h'
  unfolding evict_each
  Emptied-front i rest h h' e gone (inl (empty, q)) = inl (
    empty,
    q ∙ ap (λ is. evict_each is (evict_page os i h)) gone ∙ sym (ap (λ is. evict_each is h) e),
  )
  Emptied-front i rest h h' e gone (inr (before, j, after, split, refused, q, order)) =
      inr (i ∷ before, j, after, e ∙ ap (λ is. i ∷ is) (sym gone ∙ split), refused, q, order)

  evict_all_lem :
      (f : ℕ) (h : RemoteHeap S)
      → IsValid h
      → length h.resident_order < f
      → (h' : RemoteHeap S) × (evict_all os f h ≡ some h') × Emptied h h'
  unfolding evict_all evict_each
  evict_all_lem zero h v enough = absurd (omega arith)
  evict_all_lem (suc f) h v enough = elim (List-cases h.resident_order) [
    | inl none_left ↦ (
      h,
      ap (evict_round f h) none_left,
      (v, inl (none_left, sym (ap (λ is. evict_each is h) none_left))),
    )
    | inr (i, rest, e) ↦
        let h1 = evict_page os i h in
        let r = round_lem os i rest h v e in
        elim r.outcome [
          | inl (gone, _) ↦
              let fewer : length h1.resident_order == length h.resident_order ≡ false =
                ground (arith, ap length gone, ap length e) in
              let (h', ends, left) =
                evict_all_lem f h1 r.valid (omega (arith, ap length gone, ap length e)) in
              (
                h',
                ap (evict_round f h) e ∙ rw fewer ends,
                (left.0, Emptied-front i rest h h' e gone left.1),
              )
          | inr (back, same, refused) ↦
              let stuck : length h1.resident_order == length h.resident_order ≡ true =
                ground (arith, ap length back, length-append rest (i ∷ []), ap length e) in
              (
                h1,
                ap (evict_round f h) e ∙ rw stuck refl,
                (r.valid, inr ([], i, rest, e, refused, refl, back)),
              )
        ]
  ]

  -- `flush_and_evict_all` ends on valid books and keeps them, whatever the client and the backend do:
  -- each resident page was evicted in order and none is resident after it, or it stopped at the first
  -- page that, when its turn came, could not be written back or was not taken by the system; this
  -- page is then the last in the order, behind those that were not tried.
  pub flush_and_evict_all_ends :
      (h : RemoteHeap S)
      → IsValid h
      → (h' : RemoteHeap S) × (flush_and_evict_all os h ≡ some h') × Emptied h h'
  unfolding flush_and_evict_all
  flush_and_evict_all_ends h v =
      let (h', ends, left) = evict_all_lem (suc (length h.resident_order)) h v (omega arith) in
      (h', ends, left)

  abbrev budget_round : ℕ → RemoteHeap S → List ℕ → Option (RemoteHeap S)
  budget_round f h [] = some h
  budget_round f h (i ∷ rest) = enforce_budget os f (evict_page os i h)

  abbrev is_over : RemoteHeap S → Bool
  is_over h = ltb h.local_budget_bytes h.stats.resident_bytes && ltb 1 (length h.resident_order)

  -- What enforce_budget leaves: the budget is kept or one page is left, and the pages that went were
  -- the oldest.
  abbrev pub Kept : RemoteHeap S → RemoteHeap S → Type 0
  Kept h h' =
      IsValid h'
      × (is_over h' ≡ false)
      × ((gone : List ℕ) × (h.resident_order ≡ gone ++ h'.resident_order))
      × (min 1 (length h.resident_order) ≤ length h'.resident_order)

  never-IsRefused :
      (i : ℕ) (h : RemoteHeap S)
      → ((at : ℕ) (bytes : List ℕ) (s : S) → (os.client_write at bytes s).1 ≡ ok tt)
      → ((at n : ℕ) (s : S) → (os.evict_pages at n s).1 ≡ true)
      → ¬ IsRefused os i h
  never-IsRefused i h writes takes (inl (dirty, (x, failed))) = thrown x (sym failed ∙ writes _ _ _)
  never-IsRefused i h writes takes (inr stays) = true≢false (sym (takes _ _ _) ∙ stays)

  never-IsSafe :
      (i : ℕ) (h : RemoteHeap S)
      → ((at n : ℕ) (s : S) → os.is_dirty at n s ≡ true)
      → ((at : ℕ) (bytes : List ℕ) (s : S) → (os.client_write at bytes s).1 ≡ throw runtime_error)
      → ¬ IsSafe os i h
  never-IsSafe i h dirty fails (inl clean) = true≢false (sym (dirty _ _ h.world) ∙ clean)
  never-IsSafe i h dirty fails (inr sent) = thrown runtime_error (sym (fails _ _ _) ∙ sent)

  -- When the client takes every write and the system takes every page, `enforce_budget` ends: the
  -- resident bytes are within the budget or one page is left, the pages that went are the oldest, and
  -- the page that was entered last is still resident.
  pub enforce_budget_ends :
      (f : ℕ) (h : RemoteHeap S)
      → IsValid h
      → length h.resident_order < f
      → ((at : ℕ) (bytes : List ℕ) (s : S) → (os.client_write at bytes s).1 ≡ ok tt)
      → ((at n : ℕ) (s : S) → (os.evict_pages at n s).1 ≡ true)
      → (h' : RemoteHeap S) × (enforce_budget os f h ≡ some h') × Kept h h'
  unfolding enforce_budget
  enforce_budget_ends zero h v enough writes takes = absurd (omega arith)
  enforce_budget_ends (suc f) h v enough writes takes = elim (Bool-cases (is_over h)) [
    | inr within ↦ (h, rw within refl, (v, within, ([], refl), omega arith))
    | inl over ↦ elim (List-cases h.resident_order) [
      | inl none_left ↦ absurd (ground (arith, over, ap length none_left))
      | inr (i, rest, e) ↦
          let h1 = evict_page os i h in
          let r = round_lem os i rest h v e in
          elim r.outcome [
            | inr (back, same, refused) ↦ absurd (never-IsRefused i h writes takes refused)
            | inl (gone, _) ↦
                let (h', ends, left) =
                  enforce_budget_ends f h1 r.valid (omega (arith, ap length gone, ap length e))
                    writes takes in
                (
                  h',
                  rw over (ap (budget_round f h) e ∙ ends),
                  (
                    left.0,
                    left.1,
                    (i ∷ left.2.0, e ∙ ap (λ l. i ∷ l) (sym gone ∙ left.2.1)),
                    ground (arith, over, left.3, ap length gone, ap length e),
                  ),
                )
          ]
    ]
  ]

  -- When every page is dirty and the client refuses every write, `enforce_budget` never ends once it
  -- has to evict one of several pages: no number of rounds is enough.
  pub enforce_budget_spins :
      (f : ℕ) (h : RemoteHeap S)
      → IsValid h
      → is_over h ≡ true
      → ((at n : ℕ) (s : S) → os.is_dirty at n s ≡ true)
      → ((at : ℕ) (bytes : List ℕ) (s : S) → (os.client_write at bytes s).1 ≡ throw runtime_error)
      → enforce_budget os f h ≡ none
  unfolding enforce_budget
  enforce_budget_spins zero h v over dirty fails = refl
  enforce_budget_spins (suc f) h v over dirty fails = elim (List-cases h.resident_order) [
    | inl none_left ↦ absurd (ground (arith, over, ap length none_left))
    | inr (i, rest, e) ↦
        let h1 = evict_page os i h in
        let r = round_lem os i rest h v e in
        elim r.outcome [
          | inl (gone, safe) ↦ absurd (never-IsSafe i h dirty fails safe)
          | inr (back, same, refused) ↦
              let still : is_over h1 ≡ true = ground (
                arith,
                over,
                r.budget,
                same,
                ap length back,
                length-append rest (i ∷ []),
                ap length e,
              ) in
              rw over
                (ap (budget_round f h) e ∙ enforce_budget_spins f h1 r.valid still dirty fails)
        ]
  ]
