-- ===== src/Memory/Slab.antt =====
-- memoryd/src/slab_allocator.cpp and its header. The mutexes are not modelled: each method here is
-- one critical section. `buffer_` and the page states are arrays, functions of the index; the back
-- of `free_list_` is the head of the list.
pub mod Invariant
pub mod Allocate
pub mod Pages
mod Tests
use ram_vram_sharing.Prelude.{
  ℕ, zero, suc, ◌+◌, ◌-◌, ◌*◌, ◌/◌, Bool, true, false, ◌||◌, Option, none, some, List, [], ◌∷◌, ltb,
  leb, ◌==◌, if◌then◌else◌, length, size_max,
}
use ram_vram_sharing.Memory.Raw.{
  Bytes, update, fill, copy_in, Result, ok, throw, bad_alloc, invalid_argument, out_of_range,
  runtime_error,
}

pub data PageState : Type 0 where
  free allocated : PageState

abbrev pub is_allocated : PageState → Bool
is_allocated free = false
is_allocated allocated = true

pub record Slab : Type 0 where
  pub page_size : ℕ
  pub total_pages : ℕ
  pub buffer : Bytes
  pub page_states : ℕ → PageState
  pub free_list : List ℕ

-- The constructor's loop, for i = total_pages_ down to 1.
pub init_pages : ℕ → (ℕ → PageState) → List ℕ → (ℕ → PageState) × List ℕ
init_pages zero states xs = (states, xs)
init_pages (suc i) states xs = init_pages i (update states i free) (i ∷ xs)

-- `reserved` is what `new uint8_t[]` yields: nothing, or memory of unknown contents.
unfoldable pub create : ℕ → ℕ → Option Bytes → Result Slab
unfolding init_pages
create total_size page_size reserved =
    let total = total_size / page_size in
    if page_size == 0
    then throw invalid_argument
    else if total == 0
    then throw invalid_argument
    else if ltb (size_max / page_size) total
    then throw invalid_argument
    else elim reserved [
      | none ↦ throw bad_alloc
      | some contents ↦
          let (states, xs) = init_pages total (λ _. free) [] in
          ok (record {
            page_size = page_size;
            total_pages = total;
            buffer = contents;
            page_states = states;
            free_list = xs;
          })
    ]

-- One round of the loop of allocate_pages: page `p` is marked and cleared.
pub mark : ℕ → Slab → Slab
mark p s = record s {
  buffer = fill s.buffer (p * s.page_size) 0 s.page_size;
  page_states = update s.page_states p allocated;
}

-- The loop of allocate_pages; its caller has checked that the free list is long enough.
pub take_pages : ℕ → List ℕ → Slab → Slab × List ℕ
take_pages zero xs s = (record s { free_list = xs }, [])
take_pages (suc n) [] s = (record s { free_list = [] }, [])
take_pages (suc n) (p ∷ xs) s = let (s', ps) = take_pages n xs (mark p s) in (s', p ∷ ps)

unfoldable pub allocate_pages : ℕ → Slab → Slab × Result (List ℕ)
unfolding take_pages mark
allocate_pages count s =
    if ltb (length s.free_list) count
    then (s, throw bad_alloc)
    else let (s', ps) = take_pages count s.free_list s in (s', ok ps)

-- One round of the loop of free_pages: pages out of range or free already are left alone.
pub release : ℕ → Slab → Slab
release p s =
    if ltb p s.total_pages
    then (if is_allocated (s.page_states p)
        then record s { page_states = update s.page_states p free; free_list = p ∷ s.free_list }
        else s)
    else s

unfoldable pub free_pages : List ℕ → Slab → Slab
unfolding release
free_pages [] s = s
free_pages (p ∷ ps) s = free_pages ps (release p s)

-- The bounds test of write_page and read_page.
abbrev pub outside : Slab → ℕ → ℕ → ℕ → Bool
outside s page_idx page_offset size =
    leb s.total_pages page_idx
    || (ltb s.page_size page_offset || ltb (s.page_size - page_offset) size)

unfoldable pub write_page : ℕ → ℕ → Bytes → ℕ → Slab → Slab × Result (Unit {0})
write_page page_idx page_offset src size s =
    if outside s page_idx page_offset size
    then (s, throw out_of_range)
    else if is_allocated (s.page_states page_idx)
    then (
      record s { buffer = copy_in s.buffer (page_idx * s.page_size + page_offset) src size },
      ok tt,
    )
    else (s, throw runtime_error)

-- The new contents of `out`.
unfoldable pub read_page : ℕ → ℕ → Bytes → ℕ → Slab → Result Bytes
read_page page_idx page_offset out size s =
    if outside s page_idx page_offset size
    then throw out_of_range
    else if is_allocated (s.page_states page_idx)
    then ok (copy_in out 0 (λ i. s.buffer (page_idx * s.page_size + page_offset + i)) size)
    else throw runtime_error

pub free_pages_count : Slab → ℕ
free_pages_count s = length s.free_list
