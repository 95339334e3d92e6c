-- ===== src/Memory/Tracker.antt =====
-- memoryd/src/page_tracker.cpp and its header. A method returns the state that it leaves and its
-- result, also when it throws. The tracker holds the slab that `allocator_` points to; no other
-- part of memoryd changes that slab. The mutex is not modelled: write and read let go of it before
-- they touch pages, so a model with interleaved sessions would have more steps. memoryd runs all
-- sessions on one libuv loop, one request at a time, and that is what is modelled.
pub mod Invariant
pub mod Views
pub mod Transfer
pub mod Fetch
pub mod Allocate
pub mod Access
pub mod Isolation
pub mod Ownership
pub mod Sweep
pub mod Tests
use ram_vram_sharing.Prelude.{
  ℕ, zero, suc, ◌+◌, ◌-◌, ◌/◌, ◌%◌, min, Bool, not, ◌&&◌, ◌||◌, Option, none, some, List, [], ◌∷◌,
  ltb, ◌==◌, if◌then◌else◌, u64_mod, size_max, get_or, lookup, erase, assign,
}
use ram_vram_sharing.Memory.Raw.{
  Bytes, shift, bad_alloc, invalid_argument, out_of_range, permission_denied, Result, ok, throw,
}
use ram_vram_sharing.Memory.Slab.{Slab, allocate_pages, free_pages, write_page, read_page}

pub record Allocation : Type 0 where
  pub total_size : ℕ
  pub pages : List ℕ
  pub owner_id : ℕ

pub record Tracker : Type 0 where
  pub slab : Slab
  pub allocations : List (ℕ × Allocation)
  pub next_handle : ℕ

-- The constructor; `none` is a null allocator.
unfoldable pub create : Option Slab → Result Tracker
create none = throw invalid_argument
create (some s) = ok (record { slab = s; allocations = []; next_handle = 1 })

-- The test of one allocation's owner.
abbrev pub denies : Allocation → ℕ → Bool
denies a owner_id = not (a.owner_id == 0) && not (a.owner_id == owner_id)

-- check_ownership, and the allocation that its callers look up next.
pub check_ownership : ℕ → ℕ → Tracker → Result Allocation
check_ownership handle owner_id t = elim (lookup handle t.allocations) [
  | none ↦ throw invalid_argument
  | some a ↦ if denies a owner_id then throw permission_denied else ok a
]

-- next_handle_ is a uint64_t.
pub record_allocation : ℕ → List ℕ → Tracker → Tracker
record_allocation size ps t = record t {
  allocations =
      assign t.next_handle (record { total_size = size; pages = ps; owner_id = 0 }) t.allocations;
  next_handle = (t.next_handle + 1) % u64_mod;
}

pub finish_allocate : ℕ → Tracker → Slab × Result (List ℕ) → Tracker × Result ℕ
finish_allocate size t (s, throw e) = (record t { slab = s }, throw e)
finish_allocate size t (s, ok ps) =
    (record_allocation size ps (record t { slab = s }), ok t.next_handle)

unfoldable pub allocate : ℕ → Tracker → Tracker × Result ℕ
unfolding finish_allocate record_allocation
allocate size t =
    let page_size = t.slab.page_size in
    if size == 0
    then (t, ok 0)
    else if ltb (size_max - (page_size - 1)) size
    then (t, throw bad_alloc)
    else finish_allocate size t (allocate_pages ((size + page_size - 1) / page_size) t.slab)

unfoldable pub free : ℕ → ℕ → Tracker → Tracker × Result (Unit {0})
unfolding check_ownership
free handle owner_id t = elim (check_ownership handle owner_id t) [
  | throw e ↦ (t, throw e)
  | ok a ↦ (
    record t { slab = free_pages a.pages t.slab; allocations = erase handle t.allocations },
    ok tt,
  )
]

-- An exception leaves the loop with the state reached so far.
abbrev pub and_then :
    Slab × Result (Unit {0}) → (Slab → Slab × Result (Unit {0})) → Slab × Result (Unit {0})
and_then (s, ok _) k = k s
and_then (s, throw e) k = (s, throw e)

abbrev pub ◌>>=◌ {ℓ κ} : {A : Type ℓ} {B : Type κ} → Result A → (A → Result B) → Result B
◌>>=◌ (ok a) k = k a
◌>>=◌ (throw e) k = throw e

-- The loops of write and read, from byte `i` of `size` on. The fuel is the number of rounds
-- allowed. An index past `pages` would be undefined behaviour; 0 stands for what is read there.
unfoldable pub write_loop : ℕ → List ℕ → ℕ → Bytes → ℕ → ℕ → Slab → Slab × Result (Unit {0})
write_loop zero ps offset src size i s = (s, ok tt)
write_loop (suc f) ps offset src size i s =
    let page_idx = (offset + i) / s.page_size in
    let offset_in_page = (offset + i) % s.page_size in
    let n = min (size - i) (s.page_size - offset_in_page) in
    let rest =
      and_then (write_page (get_or ps page_idx 0) offset_in_page (shift src i) n s)
        λ s'. write_loop f ps offset src size (i + n) s' in
    if ltb i size then rest else (s, ok tt)

-- What is read through the pointer `out + i` stands behind the first `i` bytes of `out`.
abbrev pub splice : Bytes → ℕ → Bytes → Bytes
splice out i part a = if ltb a i then out a else part (a - i)

pub read_loop : ℕ → List ℕ → ℕ → Bytes → ℕ → ℕ → Slab → Result Bytes
read_loop zero ps offset out size i s = ok out
read_loop (suc f) ps offset out size i s =
    let page_idx = (offset + i) / s.page_size in
    let offset_in_page = (offset + i) % s.page_size in
    let n = min (size - i) (s.page_size - offset_in_page) in
    let rest =
      ◌>>=◌ (read_page (get_or ps page_idx 0) offset_in_page (shift out i) n s)
        λ part. read_loop f ps offset (splice out i part) size (i + n) s in
    if ltb i size then rest else ok out

-- A round moves at least one byte, so `size` rounds are enough.
unfoldable pub write : ℕ → ℕ → Bytes → ℕ → ℕ → Tracker → Tracker × Result (Unit {0})
unfolding check_ownership
write handle offset src size owner_id t =
    if size == 0 then (t, ok tt) else elim (check_ownership handle owner_id t) [
      | throw e ↦ (t, throw e)
      | ok a ↦
          if ltb a.total_size offset || ltb (a.total_size - offset) size
          then (t, throw out_of_range)
          else let (s, r) = write_loop size a.pages offset src size 0 t.slab in
            (record t { slab = s }, r)
    ]

unfoldable pub read : ℕ → ℕ → Bytes → ℕ → ℕ → Tracker → Result Bytes
unfolding check_ownership
read handle offset out size owner_id t =
    if size == 0 then ok out else elim (check_ownership handle owner_id t) [
      | throw e ↦ throw e
      | ok a ↦
          if ltb a.total_size offset || ltb (a.total_size - offset) size
          then throw out_of_range
          else read_loop size a.pages offset out size 0 t.slab
    ]

pub own : ℕ → Option Allocation → ℕ → List (ℕ × Allocation) → List (ℕ × Allocation)
own handle none owner_id m = m
own handle (some a) owner_id m = assign handle (record a { owner_id = owner_id }) m

unfoldable pub assign_owner : ℕ → ℕ → Tracker → Tracker
unfolding own
assign_owner handle owner_id t = record t {
  allocations = own handle (lookup handle t.allocations) owner_id t.allocations;
}

-- The loop of free_all_for_owner over the map: the slab with the pages of the owner's allocations
-- given back, and the allocations that stay.
pub sweep : ℕ → List (ℕ × Allocation) → Slab → Slab × List (ℕ × Allocation)
sweep owner_id [] s = (s, [])
sweep owner_id ((h, a) ∷ m) s =
    let mine = a.owner_id == owner_id in
    let (s', rest) = sweep owner_id m (if mine then free_pages a.pages s else s) in
    (s', if mine then rest else (h, a) ∷ rest)

unfoldable pub free_all_for_owner : ℕ → Tracker → Tracker
unfolding sweep
free_all_for_owner owner_id t =
    let (s, rest) = sweep owner_id t.allocations t.slab in
    if owner_id == 0 then t else record t { slab = s; allocations = rest }
