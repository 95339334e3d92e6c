-- ===== src/Platform/Pages.antt =====
-- What the page-fault backends of the three systems share, in platform/src/windows/page_fault_win.cpp,
-- platform/src/macos/page_fault_mac.cpp and platform/src/linux/page_fault_linux.cpp: the map of
-- regions, with a state for each page, and the counter of resident pages.
pub mod Layout
pub mod Range
pub mod Visit
pub mod Update
use ram_vram_sharing.Prelude.{
  ℕ, zero, suc, ◌+◌, ◌-◌, ◌*◌, ◌/◌, ◌%◌, Option, none, some, List, [], ◌∷◌, ltb, leb, ◌==◌,
  if◌then◌else◌, size_max, assign,
}

-- `size` bytes, and the state of each page.
pub record Region (P : Type 0) : Type 0 where
  pub size : ℕ
  pub pages : List P

-- regions_, a std::map by the address of the region.
abbrev pub Regions : Type 0 → Type 0
Regions P = List (ℕ × Region P)

pub record Book (P : Type 0) : Type 0 where
  pub regions : Regions P
  pub resident_pages : ℕ

-- The page size is a power of two, so that the masks of page_base and offset_in_page are these.
abbrev pub page_base : ℕ → ℕ → ℕ
page_base page_size addr = addr / page_size * page_size

abbrev pub offset_in_page : ℕ → ℕ → ℕ
offset_in_page page_size addr = addr % page_size

-- The rounds of `for (off = 0; off < len; off += page_size_)`.
abbrev pub rounds_of : ℕ → ℕ → ℕ
rounds_of page_size len = (len + (page_size - 1)) / page_size

-- ++ and -- on the counter; the number of pages is far below the limit of size_t.
abbrev pub up : ℕ → ℕ
up n = n + 1

abbrev pub down : ℕ → ℕ
down n = if n == 0 then size_max else n - 1

module _ {P : Type 0} where
  -- The entry before upper_bound(addr).
  unfoldable pub floor_entry : ℕ → Regions P → Option (ℕ × Region P)
  floor_entry addr [] = none
  floor_entry addr ((b, r) ∷ m) =
      let later = floor_entry addr m in
      if leb b addr then elim later [ none ↦ some (b, r) | some e ↦ some e ] else none

  -- The region that holds an address, and the index of the page in it.
  unfoldable pub region_for : ℕ → ℕ → Regions P → Option (ℕ × Region P × ℕ)
  unfolding floor_entry
  region_for page_size addr m = elim (floor_entry addr m) [
    | none ↦ none
    | some (b, r) ↦ if ltb addr (b + r.size) then some (b, r, (addr - b) / page_size) else none
  ]

  abbrev pub get_elem? : List P → ℕ → Option P
  get_elem? [] i = none
  get_elem? (p ∷ ps) zero = some p
  get_elem? (p ∷ ps) (suc i) = get_elem? ps i

  abbrev pub modify : (P → P) → List P → ℕ → List P
  modify f [] i = []
  modify f (p ∷ ps) zero = f p ∷ ps
  modify f (p ∷ ps) (suc i) = p ∷ modify f ps i

  -- The state of the page at an address.
  unfoldable pub state_of : ℕ → ℕ → Regions P → Option P
  unfolding region_for
  state_of page_size addr m = elim (region_for page_size addr m) [
    | none ↦ none
    | some (b, r, i) ↦ get_elem? r.pages i
  ]

-- fn(region->states[index]), where `f` is what fn does to the state and `g` what it does to the
-- counter.
module _ {P : Type 0} (f : P → P) (g : P → ℕ → ℕ) where
  unfoldable pub touch : ℕ → ℕ → Book P → Book P
  unfolding region_for
  touch page_size addr k = elim (region_for page_size addr k.regions) [
    | none ↦ k
    | some (b, r, i) ↦ record {
      regions = assign b (record r { pages = modify f r.pages i }) k.regions;
      resident_pages = elim (get_elem? r.pages i) [
        | none ↦ k.resident_pages
        | some p ↦ g p k.resident_pages
      ];
    }
  ]

  -- The loop of for_each_page.
  unfoldable pub visit : ℕ → ℕ → ℕ → Book P → Book P
  unfolding touch
  visit page_size addr zero k = k
  visit page_size addr (suc n) k = visit page_size (addr + page_size) n (touch page_size addr k)

  unfoldable pub for_each_page : ℕ → ℕ → ℕ → Book P → Book P
  unfolding visit
  for_each_page page_size addr len k = visit page_size addr (rounds_of page_size len) k

-- A new region, in the order of the addresses; the address is not that of another region.
unfoldable pub insert_region : {P : Type 0} → ℕ → Region P → Regions P → Regions P
insert_region b r [] = (b, r) ∷ []
insert_region b r ((c, s) ∷ m) =
    if ltb b c then (b, r) ∷ (c, s) ∷ m else (c, s) ∷ insert_region b r m
