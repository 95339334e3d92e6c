-- ===== src/Memory/Slab/Invariant.antt =====
-- The invariant of the slab: the free list holds each page in range that is marked free once, and
-- nothing else.
use ram_vram_sharing.Prelude.{
  ℕ, zero, suc, ◌+◌, ◌*◌, ◌/◌, ◌≤◌, ◌<◌, ◌≡◌, refl, ◌⊎◌, Option, some, List, [], ◌∷◌, arith, ltb,
  if◌then◌else◌, size_max, length, count,
}
use native.Mathlib.Nat.{div-eq_of_lt, div-mul-le_self, le-div_iff_mul-le}
use ram_vram_sharing.Memory.Raw.{Bytes, update, invalid_argument, ok, throw}
use ram_vram_sharing.Memory.Slab.{
  PageState, free, allocated, Slab, init_pages, create, mark, take_pages, release, free_pages,
  free_pages_count,
}

abbrev pub free_mark : PageState → ℕ
free_mark free = 1
free_mark allocated = 0

-- How often page `q` should stand in the free list.
abbrev pub expected : Slab → ℕ → ℕ
expected s q = if ltb q s.total_pages then free_mark (s.page_states q) else 0

abbrev pub Tracks : List ℕ → Slab → Type 0
Tracks xs s = (q : ℕ) → count q xs ≡ expected s q

pub record IsValid (s : Slab) : Type 0 where
  pub page_pos : 0 < s.page_size
  pub tracks : Tracks s.free_list s

mark-Tracks : (p : ℕ) (xs : List ℕ) (s : Slab) → Tracks (p ∷ xs) s → Tracks xs (mark p s)
unfolding mark
mark-Tracks p xs s t q = ground (arith, t q, t p)

pub take_pages-Tracks :
    (n : ℕ) (xs : List ℕ) (s : Slab)
    → Tracks xs s
    → let r = take_pages n xs s in Tracks r.0.free_list r.0
unfolding take_pages
take_pages-Tracks zero xs s t = t
take_pages-Tracks (suc n) [] s t = t
take_pages-Tracks (suc n) (p ∷ xs) s t = take_pages-Tracks n xs (mark p s) (mark-Tracks p xs s t)

-- The hand-out does not resize the slab.
pub take_pages_sizes :
    (n : ℕ) (xs : List ℕ) (s : Slab)
    → let r = take_pages n xs s in (r.0.page_size ≡ s.page_size) × (r.0.total_pages ≡ s.total_pages)
unfolding take_pages mark
take_pages_sizes zero xs s = (refl, refl)
take_pages_sizes (suc n) [] s = (refl, refl)
take_pages_sizes (suc n) (p ∷ xs) s = take_pages_sizes n xs (mark p s)

pub take_pages-IsValid : (n : ℕ) (s : Slab) → IsValid s → IsValid (take_pages n s.free_list s).0
take_pages-IsValid n s v = record {
  page_pos = rw (take_pages_sizes n s.free_list s).0 v.page_pos;
  tracks = take_pages-Tracks n s.free_list s v.tracks;
}

release-IsValid : (p : ℕ) (s : Slab) → IsValid s → IsValid (release p s)
unfolding release
release-IsValid p s v = record {
  page_pos = ground (arith, v.page_pos);
  tracks = λ q. ground (arith, v.tracks q, v.tracks p);
}

-- A return of any list of pages, with repetitions or out of range, keeps a valid slab valid.
pub free_pages-IsValid : (ps : List ℕ) (s : Slab) → IsValid s → IsValid (free_pages ps s)
unfolding free_pages
free_pages-IsValid [] s v = v
free_pages-IsValid (p ∷ ps) s v = free_pages-IsValid ps (release p s) (release-IsValid p s v)

init_pages_lem :
    (i : ℕ) (states : ℕ → PageState) (xs : List ℕ)
    → ((q : ℕ) → states q ≡ free)
    → let r = init_pages i states xs in
      ((q : ℕ) → (r.0 q ≡ free) × (count q r.1 ≡ (if ltb q i then 1 else 0) + count q xs))
      × (length r.1 ≡ i + length xs)
unfolding init_pages
init_pages_lem zero states xs h = (λ q. (h q, ground arith), omega arith)
init_pages_lem (suc i) states xs h =
    let ih = init_pages_lem i (update states i free) (i ∷ xs) (λ q. ground (arith, h q)) in
    (λ q. ((ih.0 q).0, ground (arith, (ih.0 q).1)), omega (arith, ih.1))

-- What the constructor promises of a slab over `total_size` bytes.
pub record IsFresh (total_size page_size : ℕ) (contents : Bytes) (s : Slab) : Type 0 where
  pub valid : IsValid s
  pub size_of_page : s.page_size ≡ page_size
  pub pages : s.total_pages ≡ total_size / page_size
  pub all_free : free_pages_count s ≡ s.total_pages
  pub within : s.total_pages * s.page_size ≤ total_size
  pub untouched : s.buffer ≡ contents

-- The constructor refuses a page size of 0 and a total below one page, whatever memory there is.
pub create_refuses :
    (total_size page_size : ℕ) (reserved : Option Bytes)
    → (page_size ≡ 0) ⊎ (total_size < page_size)
    → create total_size page_size reserved ≡ throw invalid_argument
unfolding create
create_refuses total_size page_size reserved h =
    ground (arith, div-eq_of_lt {n = total_size} {m = page_size})

div_facts : (a b m : ℕ) → 0 < b → b ≤ a → a ≤ m → (0 < a / b) × (a / b ≤ m / b) × (a / b * b ≤ a)
div_facts a b m p q r =
    let low = div-mul-le_self a b in
    ((le-div_iff_mul-le p).1 (omega arith), (le-div_iff_mul-le p).1 (omega (arith, low)), low)

-- From one page on, when the memory is there, the constructor builds a slab whose pages are all
-- free and fit into the total. Its guard against overflow never fires on 64-bit sizes.
create_lem :
    (total_size page_size : ℕ) (contents : Bytes)
    → 0 < page_size
    → page_size ≤ total_size
    → total_size ≤ size_max
    → (s : Slab) × (create total_size page_size (some contents) ≡ ok s)
      × IsFresh total_size page_size contents s
unfolding create free_pages_count
create_lem total_size page_size contents p q r =
    let d = div_facts total_size page_size size_max p q r in
    let i = init_pages_lem (total_size / page_size) (λ _. free) [] (λ _. refl) in
    (
      record {
        page_size = page_size;
        total_pages = total_size / page_size;
        buffer = contents;
        page_states = (init_pages (total_size / page_size) (λ _. free) []).0;
        free_list = (init_pages (total_size / page_size) (λ _. free) []).1;
      },
      ground arith,
      record {
        valid = record { page_pos = p; tracks = λ x. ground (arith, i.0 x) };
        size_of_page = refl;
        pages = refl;
        all_free = omega (arith, i.1);
        within = d.2;
        untouched = refl;
      },
    )
