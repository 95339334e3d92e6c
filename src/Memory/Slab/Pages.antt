-- ===== src/Memory/Slab/Pages.antt =====
-- Pages given back, and the bytes that write_page and read_page move.
use ram_vram_sharing.Prelude.{
  ℕ, ◌+◌, ◌*◌, ◌≤◌, ◌<◌, ◌≡◌, refl, ◌∙◌, ◌⊎◌, inl, inr, ◌&&◌, List, [], ◌∷◌, arith, ltb, ◌==◌,
  if◌then◌else◌, count,
}
use ram_vram_sharing.Memory.Raw.{Bytes, copy_in, out_of_range, runtime_error, ok, throw}
use ram_vram_sharing.Memory.Slab.{
  PageState, free, allocated, Slab, release, free_pages, write_page, read_page,
}

-- What a return of pages does to the marks; the bytes and the sizes stay.
pub record Released (ps : List ℕ) (s s' : Slab) : Type 0 where
  pub marks :
      (q : ℕ)
      → s'.page_states q
        ≡ (if ltb 0 (count q ps) && ltb q s.total_pages then free else s.page_states q)
  pub same_bytes : s'.buffer ≡ s.buffer
  pub same_size : s'.page_size ≡ s.page_size
  pub same_total : s'.total_pages ≡ s.total_pages

release_step :
    (p : ℕ) (s : Slab)
    → ((q : ℕ)
        → (release p s).page_states q
          ≡ (if p == q && ltb q s.total_pages then free else s.page_states q))
      × ((release p s).buffer ≡ s.buffer)
      × ((release p s).page_size ≡ s.page_size)
      × ((release p s).total_pages ≡ s.total_pages)
unfolding release
release_step p s = (λ q. ground arith, ground arith, ground arith, ground arith)

-- Every page in range that is named is free afterwards, named once or more, free before or not.
pub free_pages-Released : (ps : List ℕ) (s : Slab) → Released ps s (free_pages ps s)
unfolding free_pages
free_pages-Released [] s = record {
  marks = λ q. refl;
  same_bytes = refl;
  same_size = refl;
  same_total = refl;
}
free_pages-Released (p ∷ ps) s =
    let ih = free_pages-Released ps (release p s) in
    let one = release_step p s in
    record {
      marks = λ q. ground (arith, ih.marks q, one.0 q, one.3);
      same_bytes = ih.same_bytes ∙ one.1;
      same_size = ih.same_size ∙ one.2;
      same_total = ih.same_total ∙ one.3;
    }

abbrev pub Inside : Slab → ℕ → ℕ → ℕ → Type 0
Inside s page_idx page_offset size = (page_idx < s.total_pages) × (page_offset + size ≤ s.page_size)

page_end : (p t b o : ℕ) → p < t → o ≤ b → p * b + o ≤ t * b
page_end p t b o h k = grind arith

pub write_page_lem :
    (p o : ℕ) (src : Bytes) (n : ℕ) (s : Slab)
    → Inside s p o n
    → s.page_states p ≡ allocated
    → (write_page p o src n s
        ≡ (record s { buffer = copy_in s.buffer (p * s.page_size + o) src n }, ok tt))
      × (p * s.page_size + o + n ≤ s.total_pages * s.page_size)
unfolding write_page
write_page_lem p o src n s h m =
    (ground arith, ground (arith, page_end p s.total_pages s.page_size (o + n) h.0 h.1))

pub read_page_lem :
    (p o : ℕ) (out : Bytes) (n : ℕ) (s : Slab)
    → Inside s p o n
    → s.page_states p ≡ allocated
    → read_page p o out n s ≡ ok (copy_in out 0 (λ i. s.buffer (p * s.page_size + o + i)) n)
unfolding read_page
read_page_lem p o out n s h m = ground arith

PageState-cases : (m : PageState) → (m ≡ free) ⊎ (m ≡ allocated)
PageState-cases free = inl refl
PageState-cases allocated = inr refl

Inside-cases : (s : Slab) (p o n : ℕ) → (¬ Inside s p o n) ⊎ Inside s p o n
Inside-cases s p o n = ground arith

outside_refused :
    (p o n : ℕ) (src out : Bytes) (s : Slab)
    → ¬ Inside s p o n
    → (write_page p o src n s ≡ (s, throw out_of_range))
      × (read_page p o out n s ≡ throw out_of_range)
unfolding write_page read_page
outside_refused p o n src out s h = (ground arith, ground arith)

free-Refused :
    (p o n : ℕ) (src out : Bytes) (s : Slab)
    → Inside s p o n
    → s.page_states p ≡ free
    → (write_page p o src n s ≡ (s, throw runtime_error))
      × (read_page p o out n s ≡ throw runtime_error)
unfolding write_page read_page
free-Refused p o n src out s h m = (ground arith, ground arith)

-- Every access falls under one of three cases. Out of the page or of the slab, write_page and
-- read_page throw out_of_range; inside a page that is not allocated they throw runtime_error; a
-- failed write changes nothing. Inside an allocated page both succeed and stay inside the buffer:
-- the write stores the bytes given at their place and keeps all else, and the read copies the bytes
-- of the page to the start of `out`.
page_access_cases :
    (p o n : ℕ) (src out : Bytes) (s : Slab)
    → ((¬ Inside s p o n)
        × (write_page p o src n s ≡ (s, throw out_of_range))
        × (read_page p o out n s ≡ throw out_of_range))
      ⊎ (Inside s p o n
          × (s.page_states p ≡ free)
          × (write_page p o src n s ≡ (s, throw runtime_error))
          × (read_page p o out n s ≡ throw runtime_error))
      ⊎ (Inside s p o n
          × (s.page_states p ≡ allocated)
          × (p * s.page_size + o + n ≤ s.total_pages * s.page_size)
          × (write_page p o src n s
              ≡ (record s { buffer = copy_in s.buffer (p * s.page_size + o) src n }, ok tt))
          × (read_page p o out n s
              ≡ ok (copy_in out 0 (λ i. s.buffer (p * s.page_size + o + i)) n)))
page_access_cases p o n src out s = elim (Inside-cases s p o n) [
  | inl h ↦ let r = outside_refused p o n src out s h in inl (h, r.0, r.1)
  | inr h ↦ elim (PageState-cases (s.page_states p)) [
    | inl m ↦ let r = free-Refused p o n src out s h m in inr (inl (h, m, r.0, r.1))
    | inr m ↦
        let w = write_page_lem p o src n s h m in
        inr (inr (h, m, w.1, w.0, read_page_lem p o out n s h m))
  ]
]
