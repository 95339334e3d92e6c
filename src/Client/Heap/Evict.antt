-- ===== src/Client/Heap/Evict.antt =====
-- evict_page, on all its branches.
use mathlib.Core.Path.{subst}
use ram_vram_sharing.Prelude.{
  ℕ, ◌+◌, ◌%◌, ◌<◌, ◌≡◌, refl, sym, ap, ◌∙◌, ◌⊎◌, inl, inr, Bool, true, false, arith, Bool-cases,
  u64_mod, count,
}
use ram_vram_sharing.Memory.Raw.{Exception, ok, throw}
use ram_vram_sharing.Client.Act.{Thrown-cases}
use ram_vram_sharing.Client.Heap.{
  Backing, RemoteHeap, is_in, offset_of, length_of, to_back, drop_page, flush_page, release_page,
  evict_page,
}
use ram_vram_sharing.Client.Heap.Invariant.{is_in_lem, IsValid, drop_page-IsValid, to_back-IsValid}

module _ {S : Type 0} (os : Backing S) where
  -- The heap with another world and another count of flushes.
  abbrev pub kept : S → ℕ → RemoteHeap S → RemoteHeap S
  kept w n h = record h { world = w; stats = record h.stats { flushes = n } }

  -- The page is clean, or its bytes were written to the client.
  abbrev pub IsSafe : ℕ → RemoteHeap S → Type 0
  IsSafe i h =
      let at = offset_of i h in
      let n = length_of i h in
      (os.is_dirty at n h.world ≡ false)
      ⊎ ((os.client_write at (os.bytes_at at n h.world) h.world).1 ≡ ok tt)

  -- What the system answers when it is asked to take the page, after the flush.
  abbrev pub takes_page : ℕ → RemoteHeap S → Bool
  takes_page i h = (os.evict_pages (offset_of i h) (length_of i h) (flush_page os i h).0.world).1

  -- The page could not be written back, or the system did not take it.
  abbrev pub IsRefused : ℕ → RemoteHeap S → Type 0
  IsRefused i h =
      let at = offset_of i h in
      let n = length_of i h in
      ((os.is_dirty at n h.world ≡ true)
        × ((e : Exception) × ((os.client_write at (os.bytes_at at n h.world) h.world).1 ≡ throw e)))
      ⊎ (takes_page i h ≡ false)

  pub flush_page_lem :
      (i : ℕ) (h : RemoteHeap S)
      → (w : S) × (n : ℕ) × (((e : Exception) × (flush_page os i h ≡ (kept w n h, throw e))
            × (os.is_dirty (offset_of i h) (length_of i h) h.world ≡ true)
            × ((os.client_write
                  (offset_of i h)
                  (os.bytes_at (offset_of i h) (length_of i h) h.world)
                  h.world).1
                ≡ throw e))
          ⊎ ((flush_page os i h ≡ (kept w n h, ok tt)) × IsSafe i h))
  unfolding flush_page
  flush_page_lem i h =
      let at = offset_of i h in
      let n = length_of i h in
      let called = os.client_write at (os.bytes_at at n h.world) h.world in
      elim (Bool-cases (os.is_dirty at n h.world)) [
        | inr clean ↦ (h.world, h.stats.flushes, inr (rw (clean, flush_page) refl, inl clean))
        | inl dirty ↦ elim (Thrown-cases called.1) [
          | inl (e, failed) ↦ (
            called.0,
            h.stats.flushes,
            inl (e, rw (dirty, failed, flush_page) refl, dirty, failed),
          )
          | inr sent ↦ (
            os.clear_dirty at n called.0,
            (h.stats.flushes + 1) % u64_mod,
            inr (rw (dirty, sent, flush_page) refl, inr sent),
          )
        ]
      ]

  -- What becomes of a resident page: it is dropped, and then it was clean or its bytes were written
  -- to the client, and the system took it; or it goes to the back and stays resident, and then it
  -- could not be written back or the system did not take it.
  pub evict_page_cases :
      (i : ℕ) (h : RemoteHeap S)
      → IsValid h
      → 0 < count i h.resident_order
      → (w : S) × (n : ℕ) × (((evict_page os i h ≡ drop_page i (kept w n h))
            × IsSafe i h
            × (takes_page i h ≡ true))
          ⊎ ((evict_page os i h ≡ to_back i (kept w n h)) × IsRefused i h))
  unfolding evict_page release_page
  evict_page_cases i h v here =
      let known : is_in i h.resident ≡ true = ground (arith, is_in_lem i h.resident, v.matched i) in
      let (w, n, flushed) = flush_page_lem i h in
      elim flushed [
        | inl (e, failed, dirty, unsent) ↦ (
          w,
          n,
          inr (
            rw (known, ap (λ r. r.1) failed, evict_page) (ap (λ r. to_back i r.0) failed),
            inl (dirty, (e, unsent)),
          ),
        )
        | inr (done, safe) ↦
            let h1 = kept w n h in
            let called = os.evict_pages (offset_of i h1) (length_of i h1) w in
            let flushed_then : evict_page os i h ≡ release_page os i h1 =
              rw (known, ap (λ r. r.1) done, evict_page) (ap (λ r. release_page os i r.0) done) in
            let asked : takes_page i h ≡ called.1 =
              ap (λ r. (os.evict_pages (offset_of i h) (length_of i h) r.0.world).1) done in
            elim (Bool-cases called.1) [
              | inl gone ↦ (
                called.0,
                n,
                inl (flushed_then ∙ rw (gone, release_page) refl, safe, asked ∙ gone),
              )
              | inr stays ↦ (
                called.0,
                n,
                inr (flushed_then ∙ rw (stays, release_page) refl, inr (asked ∙ stays)),
              )
            ]
      ]

  -- Evicting a page keeps the books.
  pub evict_page-IsValid :
      (i : ℕ) (h : RemoteHeap S)
      → IsValid h
      → 0 < count i h.resident_order
      → IsValid (evict_page os i h)
  evict_page-IsValid i h v here =
      let (w, n, outcome) = evict_page_cases i h v here in
      elim outcome [
        | inl (e, safe, taken) ↦ subst IsValid (sym e) (drop_page-IsValid i (kept w n h) v here)
        | inr (e, refused) ↦ subst IsValid (sym e) (to_back-IsValid i (kept w n h) v here)
      ]
