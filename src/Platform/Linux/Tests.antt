-- ===== src/Platform/Linux/Tests.antt =====
-- A backend with pages of four bytes and one region, of two pages, at 8, the first of which is there.
use mathlib.Core.Option
use ram_vram_sharing.Prelude.{
  ℕ, ◌-◌, ◌≡◌, refl, Bool, true, false, not, ◌&&◌, ◌||◌, Option, none, some, List, [], ◌∷◌, arith,
  if◌then◌else◌,
}
use ram_vram_sharing.Platform.Pages.{floor_entry, region_for, touch, visit, for_each_page}
use ram_vram_sharing.Platform.Pages.Visit.{IsValid}
use ram_vram_sharing.Platform.Pages.Range.{within}
use ram_vram_sharing.Platform.Linux.{
  Userfault, Backend, counted, mark_resident, is_dirty, resolve_fault, perform, perform_all,
  on_page_fault,
}
use ram_vram_sharing.Platform.Linux.Refault.{weight, filler, Exclusive, refault_lost}

-- The kernel: the addresses that have a page, and the bytes.
abbrev Pages : Type 0
Pages = (ℕ → Bool) × (ℕ → ℕ)

-- A call that brings the pages of a range, unless the first is there.
abbrev brought : ℕ → ℕ → (ℕ → ℕ) → Pages → Pages × Bool
brought a n bytes (there, memory) = if there a then ((there, memory), false) else (
  ((λ x. within a n x || there x), λ x. if within a n x then bytes (x - a) else memory x),
  true,
)

abbrev plain : Userfault Pages
plain = record {
  map = λ n k. (k, none);
  register = λ a n k. (k, true);
  unmap = λ a n k. k;
  copy = brought;
  zeropage = λ a n k. brought a n (λ _. 0) k;
  dontneed = λ a n k. (((λ x. not (within a n x) && k.0 x), k.1), true);
  present = λ x k. k.0 x;
  byte_at = λ x k. k.1 x;
}

brought_refused :
    (a n : ℕ) (bytes : ℕ → ℕ) (k : Pages)
    → k.0 a ≡ true
    → ((brought a n bytes k).1 ≡ false)
      × ((brought a n bytes k).0.0 a ≡ true)
      × ((y : ℕ) → (brought a n bytes k).0.1 y ≡ k.1 y)
brought_refused a n bytes (there, memory) h = rw h (refl, h, λ y. refl)

plain-Exclusive : Exclusive plain
plain-Exclusive = record {
  copy_refused = λ x n s k h. brought_refused x n s k h;
  zeropage_refused = λ x n k h. brought_refused x n (λ _. 0) k h;
}

abbrev start : Backend Pages
start = record {
  kernel = ((λ x. within 8 4 x), λ x. 7);
  supported = true;
  page_size = 4;
  book = record {
    regions = (8, record { size = 8; pages = true ∷ false ∷ [] }) ∷ [];
    resident_pages = 1;
  };
  resolved = false;
}

start-IsValid : IsValid weight 4 start.book
start-IsValid = record { ordered = (omega arith, refl, refl, omega arith, tt); counted = refl }

abbrev fetch : Option (ℕ → List ℕ)
fetch = some (λ addr. 1 ∷ 2 ∷ 3 ∷ 4 ∷ [])

-- A first fault makes the page resident.
first_run : (on_page_fault plain (Option.map filler fetch) 13 false start).book.resident_pages ≡ 2
unfolding on_page_fault perform_all perform resolve_fault mark_resident for_each_page visit touch
    region_for floor_entry counted
first_run = refl

refault_lost_example :
    let b' = on_page_fault plain (Option.map filler fetch) 8 true start in
    (is_dirty 8 4 start ≡ true)
    × (plain.present 8 b'.kernel ≡ true)
    × ((y : ℕ) → plain.byte_at y b'.kernel ≡ 7)
    × (is_dirty 8 4 b' ≡ false)
refault_lost_example =
    refault_lost plain fetch 2 true start plain-Exclusive refl (omega arith) (omega arith)
      (omega arith) start-IsValid refl refl
