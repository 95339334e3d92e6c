-- ===== src/Client/Arena.antt =====
-- memclient/src/heap_arena.cpp and its header. Both block maps are lists of offsets and lengths in
-- the order of the std::map; addresses and sizes are 64-bit. The mutex makes each method one step.
pub mod Blocks
pub mod Gaps
pub mod Merge
pub mod Invariant
pub mod Split
pub mod Allocate
pub mod Release
mod Tests
use Prim.Native.Nat.{bit_and}
use ram_vram_sharing.Prelude.{
  ℕ, ◌+◌, ◌-◌, ◌%◌, max, Bool, not, ◌&&◌, ◌||◌, Option, none, some, List, [], ◌∷◌, ltb, leb, ◌==◌,
  if◌then◌else◌, u64_mod, length, lookup, erase,
}

abbrev pub Blocks : Type 0
Blocks = List (ℕ × ℕ)

pub record Arena : Type 0 where
  pub base : ℕ
  pub size : ℕ
  pub free_blocks : Blocks
  pub live_blocks : Blocks
  pub in_use_bytes : ℕ

-- std::map::emplace: an entry with the key is kept.
pub emplace : ℕ → ℕ → Blocks → Blocks
emplace k v [] = (k, v) ∷ []
emplace k v ((j, w) ∷ m) =
    if ltb k j then (k, v) ∷ (j, w) ∷ m else if k == j then (j, w) ∷ m else (j, w) ∷ emplace k v m

-- Subtraction on uintptr_t.
abbrev pub sub_u64 : ℕ → ℕ → ℕ
sub_u64 a b = (a + (u64_mod - b)) % u64_mod

unfoldable pub align_up : ℕ → ℕ → ℕ
align_up value alignment =
    let mask = alignment - 1 in bit_and ((value + mask) % u64_mod) (u64_mod - 1 - mask)

unfoldable pub create : ℕ → ℕ → Arena
create base size = record {
  base = base;
  size = size;
  free_blocks = if base == 0 || size == 0 then [] else (0, size) ∷ [];
  live_blocks = [];
  in_use_bytes = 0;
}

-- The loop of allocate up to the block it takes: its start and length, and the aligned offset.
unfoldable pub first_fit : ℕ → ℕ → ℕ → Blocks → Option (ℕ × ℕ × ℕ)
first_fit base bytes alignment [] = none
first_fit base bytes alignment ((start, len) ∷ m) =
    let aligned = sub_u64 (align_up ((base + start) % u64_mod) alignment) base in
    let lead = sub_u64 aligned start in
    let rest = first_fit base bytes alignment m in
    if ltb len lead || ltb (len - lead) bytes then rest else some (start, len, aligned)

-- What is left of a block goes back to the free blocks, when there is something left.
abbrev pub keep : ℕ → ℕ → Blocks → Blocks
keep k v m = if ltb 0 v then emplace k v m else m

unfoldable pub take_block : ℕ → Arena → ℕ × ℕ × ℕ → Arena × Option ℕ
unfolding emplace
take_block bytes a (start, len, aligned) =
    let lead = sub_u64 aligned start in
    let trail = len - lead - bytes in
    (
      record a {
        free_blocks = keep (aligned + bytes) trail (keep start lead (erase start a.free_blocks));
        live_blocks = emplace aligned bytes a.live_blocks;
        in_use_bytes = a.in_use_bytes + bytes;
      },
      some (a.base + aligned),
    )

-- `none` is the null pointer.
unfoldable pub allocate : ℕ → ℕ → Arena → Arena × Option ℕ
unfolding first_fit take_block
allocate bytes alignment a =
    if bytes == 0 || a.base == 0
    then (a, none)
    else if alignment == 0 || not (bit_and alignment (alignment - 1) == 0)
    then (a, none)
    else elim (first_fit a.base bytes alignment a.free_blocks) [
      | none ↦ (a, none)
      | some found ↦ take_block bytes a found
    ]

abbrev pub owns : ℕ → Arena → Bool
owns ptr a = leb a.base ptr && ltb ptr ((a.base + a.size) % u64_mod)

-- The entry before lower_bound(k).
pub prev_of : ℕ → Blocks → Option (ℕ × ℕ)
prev_of k [] = none
prev_of k ((j, w) ∷ m) =
    let later = prev_of k m in
    if ltb j k then elim later [ none ↦ some (j, w) | some e ↦ some e ] else none

-- The first half of insert_free: the length and the blocks after the merge forward.
abbrev pub merge_next : ℕ → ℕ → Blocks → ℕ × Blocks
merge_next offset len m = elim (lookup (offset + len) m) [
  | none ↦ (len, m)
  | some w ↦ (len + w, erase (offset + len) m)
]

-- The second half: the merge backward, and the insertion.
pub merge_prev : ℕ → ℕ → Blocks → Blocks
unfolding prev_of emplace
merge_prev offset len m = elim (prev_of offset m) [
  | none ↦ emplace offset len m
  | some (j, w) ↦ if j + w == offset then emplace j (len + w) (erase j m) else emplace offset len m
]

pub insert_free : ℕ → ℕ → Blocks → Blocks
unfolding merge_prev
insert_free offset len m = let (len', m') = merge_next offset len m in merge_prev offset len' m'

unfoldable pub deallocate : ℕ → Arena → Arena
unfolding insert_free
deallocate ptr a =
    if ptr == 0 || not (owns ptr a)
    then a
    else let offset = ptr - a.base in
      elim (lookup offset a.live_blocks) [
        | none ↦ a
        | some len ↦ record a {
          live_blocks = erase offset a.live_blocks;
          in_use_bytes = a.in_use_bytes - len;
          free_blocks = insert_free offset len a.free_blocks;
        }
      ]

unfoldable pub block_size : ℕ → Arena → ℕ
block_size ptr a =
    if ptr == 0 || not (owns ptr a)
    then 0
    else elim (lookup (ptr - a.base) a.live_blocks) [ none ↦ 0 | some len ↦ len ]

pub record Stats : Type 0 where
  pub in_use_bytes : ℕ
  pub free_bytes : ℕ
  pub live_blocks : ℕ
  pub largest_free_block : ℕ

abbrev pub total_bytes : Blocks → ℕ
total_bytes [] = 0
total_bytes ((k, v) ∷ m) = v + total_bytes m

abbrev pub largest : Blocks → ℕ
largest [] = 0
largest ((k, v) ∷ m) = max v (largest m)

unfoldable pub stats : Arena → Stats
stats a = record {
  in_use_bytes = a.in_use_bytes;
  free_bytes = total_bytes a.free_blocks;
  live_blocks = length a.live_blocks;
  largest_free_block = largest a.free_blocks;
}
