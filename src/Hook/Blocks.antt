-- ===== src/Hook/Blocks.antt =====
-- Blocks of the arena and the bytes in them, while another block is taken, filled or released.
use ram_vram_sharing.Prelude.{
  ℕ, ◌+◌, ◌-◌, ◌≤◌, ◌<◌, min, ◌≡◌, refl, sym, ap, ◌∙◌, ◌≢◌, ◌⊎◌, inl, inr, Option, none, some,
  arith, lookup, lookup-erase_ne,
}
use ram_vram_sharing.Memory.Raw.{Bytes, fill, copy_in, shift}
use ram_vram_sharing.Client.Arena.{Arena, deallocate}
use ram_vram_sharing.Client.Arena.Invariant.{IsValid, covered_at}
use ram_vram_sharing.Client.Arena.Allocate.{Taken}
use ram_vram_sharing.Client.Arena.Release.{deallocate_lem}

-- Every live block keeps its bytes.
abbrev pub Keeps : Arena → Bytes → Bytes → Type 0
Keeps a m m' =
    (j i v : ℕ) → lookup j a.live_blocks ≡ some v → i < v → m' (a.base + j + i) ≡ m (a.base + j + i)

-- No live block meets the `n` bytes at the address `q`.
abbrev pub Avoids : Arena → ℕ → ℕ → Type 0
Avoids a q n =
    (j i v : ℕ)
    → lookup j a.live_blocks ≡ some v
    → i < v
    → (a.base + j + i < q) ⊎ (q + n ≤ a.base + j + i)

pub copy_in-inside : (m src : Bytes) (at n i : ℕ) → i < n → copy_in m at src n (at + i) ≡ src i
copy_in-inside m src at n i h = let e : at + i - at ≡ i = omega arith in ground (arith, e, ap src e)

pub copy_in-outside :
    (m src : Bytes) (at n x : ℕ) → (x < at) ⊎ (at + n ≤ x) → copy_in m at src n x ≡ m x
copy_in-outside m src at n x h = ground arith

pub fill-inside : (m : Bytes) (at n i : ℕ) → i < n → fill m at 0 n (at + i) ≡ 0
fill-inside m at n i h = ground arith

pub fill-outside : (m : Bytes) (at n x : ℕ) → (x < at) ⊎ (at + n ≤ x) → fill m at 0 n x ≡ m x
fill-outside m at n x h = ground arith

-- A block that was free meets no live block.
pub Taken-Avoids :
    (bytes at : ℕ) (a : Arena) {a' : Arena}
    → IsValid a
    → Taken bytes at a a'
    → Avoids a (a.base + at) bytes
Taken-Avoids bytes at a v t j i w e h = ground (
  arith,
  t.was_free (j + i),
  v.tiled (j + i),
  covered_at j (j + i) a.live_blocks e (omega arith) (omega arith),
)

-- Where a block of `bytes` bytes at `q` stands: it is a live block of the arena `a'` that `a` did not
-- have, or it is what the runtime has `given`.
abbrev pub Placed : Option ℕ → ℕ → ℕ → Arena → Arena → Type 0
Placed given bytes q a a' =
    ((at : ℕ) × (q ≡ a.base + at)
      × (lookup at a.live_blocks ≡ none)
      × (lookup at a'.live_blocks ≡ some bytes))
    ⊎ (given ≡ some q)

-- What a request leaves: a block of `bytes` bytes at `q`, of the arena or of the runtime, that meets
-- no live block, over an arena in which every live block is as it was.
pub record Granted (given : Option ℕ) (bytes q : ℕ) (a a' : Arena) (m m' : Bytes) : Type 0 where
  pub placed : Placed given bytes q a a'
  pub valid : IsValid a'
  pub same_base : a'.base ≡ a.base
  pub same_size : a'.size ≡ a.size
  pub live : (j : ℕ) {v : ℕ} → lookup j a.live_blocks ≡ some v → lookup j a'.live_blocks ≡ some v
  pub keeps : Keeps a m m'
  pub avoids : Avoids a q bytes

pub Taken-Granted :
    (given : Option ℕ) (bytes at : ℕ) (a : Arena) {a' : Arena} (m : Bytes)
    → IsValid a
    → Taken bytes at a a'
    → Granted given bytes (a.base + at) a a' m m
Taken-Granted given bytes at a m v t = record {
  placed = inl (at, refl, t.was_unknown, ground (arith, t.live at));
  valid = t.valid;
  same_base = t.same_base;
  same_size = t.same_size;
  live = λ j e. ground (arith, t.live j, t.was_unknown);
  keeps = λ j i w e h. refl;
  avoids = Taken-Avoids bytes at a v t;
}

-- The block is filled with zeros.
pub Taken-Granted_clear :
    (given : Option ℕ) (bytes at : ℕ) (a : Arena) {a' : Arena} (m : Bytes)
    → IsValid a
    → Taken bytes at a a'
    → Granted given bytes (a.base + at) a a' m (fill m (a.base + at) 0 bytes)
Taken-Granted_clear given bytes at a m v t =
    let g = Taken-Granted given bytes at a m v t in
    record {
      placed = g.placed;
      valid = g.valid;
      same_base = g.same_base;
      same_size = g.same_size;
      live = λ j e. g.live j e;
      keeps = λ j i w e h. fill-outside m (a.base + at) bytes (a.base + j + i) (g.avoids j i w e h);
      avoids = g.avoids;
    }

-- A block was moved from offset `k` to `bytes` bytes at the address `q`, a new block of the arena or
-- one of the runtime, which met no live block: its
-- first `n` bytes are there, it is no longer live, and the other live blocks stay as they were.
pub record Moved (given : Option ℕ) (bytes n k q : ℕ) (a a' : Arena) (m m' : Bytes) : Type 0 where
  pub placed : Placed given bytes q a a'
  pub valid : IsValid a'
  pub same_base : a'.base ≡ a.base
  pub fresh : Avoids a q bytes
  pub copied : (i : ℕ) → i < n → m' (q + i) ≡ m (a.base + k + i)
  pub released : lookup k a'.live_blocks ≡ none
  pub others :
      (j : ℕ) {v : ℕ}
      → j ≢ k
      → lookup j a.live_blocks ≡ some v
      → (lookup j a'.live_blocks ≡ some v)
        × ((i : ℕ) → i < v → m' (a.base + j + i) ≡ m (a.base + j + i))

-- The copy and the release that follow a request.
pub Granted-Moved :
    (given : Option ℕ) (bytes k q : ℕ) (a a1 : Arena) (m m1 : Bytes) {len : ℕ}
    → Granted given bytes q a a1 m m1
    → 0 < a.base
    → lookup k a.live_blocks ≡ some len
    → Moved given bytes
        (min len bytes)
        k
        q
        a
        (deallocate (a.base + k) a1)
        m
        (copy_in m1 q (shift m1 (a.base + k)) (min len bytes))
Granted-Moved given bytes k q a a1 m m1 {len} g b e =
    let at_ : a.base + k - a1.base ≡ k = omega (arith, g.same_base) in
    let known : lookup (a.base + k - a1.base) a1.live_blocks ≡ some len = rw at_ (g.live k e) in
    let apart : (at : ℕ) → lookup at a.live_blocks ≡ none → k ≢ at = λ at z same. cc in
    elim (deallocate_lem (a.base + k) a1 g.valid (omega (arith, g.same_base))) [
      | inl (w, above, f, r) ↦
          let n = min len bytes in
          record {
            placed = elim g.placed [
              | inr runtime ↦ inr runtime
              | inl (at, here, unknown, l) ↦ inl (
                at,
                here,
                unknown,
                rw (r.forgotten, at_)
                    (lookup-erase_ne k at a1.live_blocks (λ same. apart at unknown same) ∙ l),
              )
            ];
            valid = r.valid;
            same_base = r.same_base ∙ g.same_base;
            fresh = g.avoids;
            copied = λ i h.
                copy_in-inside m1 (shift m1 (a.base + k)) q n i h ∙ g.keeps k i len e (omega arith);
            released = rw at_ at r.unknown;
            others = λ j {v} ne l. (
              rw (r.forgotten, at_)
                  (lookup-erase_ne k j a1.live_blocks (λ q. ne (sym q)) ∙ g.live j l),
              λ i h.
                  copy_in-outside m1 (shift m1 (a.base + k)) q n (a.base + j + i)
                    (ground (arith, g.avoids j i v l h))
                  ∙ g.keeps j i v l h,
            );
          }
      | inr (inl below, _) ↦ absurd (omega (arith, g.same_base))
      | inr (inr gone, _) ↦ cc
    ]
