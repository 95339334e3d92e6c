-- ===== src/Hook/Redirect.antt =====
-- What a request for remote memory does once the hook has an arena.
use ram_vram_sharing.Prelude.{
  ℕ, ◌+◌, ◌≤◌, ◌<◌, ◌≡◌, refl, ◌⊎◌, inl, inr, true, Option, none, some, arith, Bool-cases,
}
use ram_vram_sharing.Client.Arena.{Arena}
use ram_vram_sharing.Client.Arena.Invariant.{IsValid, live_block_lem}
use ram_vram_sharing.Hook.Blocks.{Keeps, Granted}
use ram_vram_sharing.Client.Arena.Allocate.{Taken, allocate-Taken}
use ram_vram_sharing.Hook.{
  Config, Process, Hook, plus, ensure_initialized, allocate_in, remote_allocate,
}

-- What an allocation function promises to a process that holds the region of the arena: it leaves
-- the bytes there as they are, and its blocks, of `n` bytes each, lie outside.
pub record Polite {W : Type 0} (alloc : Process W → Process W × Option ℕ) (n : ℕ) (a : Arena)
    : Type 0 where
  pub keeps :
      (s : Process W) (x : ℕ) → a.base ≤ x → x < a.base + a.size → (alloc s).0.memory x ≡ s.memory x
  pub outside :
      (s : Process W) {q : ℕ} → (alloc s).1 ≡ some q → (q + n ≤ a.base) ⊎ (a.base + a.size ≤ q)

module _ {W : Type 0} where
  -- The hook after it has served `bytes` bytes.
  abbrev pub served : ℕ → Arena → Hook W → Hook W
  served bytes a' h = record h {
    arena = some a';
    redirected = plus h.redirected 1;
    redirected_bytes = plus h.redirected_bytes bytes;
  }

  allocate_in_cases :
      (bytes alignment : ℕ) (h : Hook W) {a : Arena}
      → h.arena ≡ some a
      → IsValid a
      → (allocate_in bytes alignment h ≡ (h, none))
        ⊎ ((a' : Arena) × (at : ℕ) × (allocate_in bytes alignment h
              ≡ (served bytes a' h, some (a.base + at)))
            × Taken bytes at a a')
  unfolding allocate_in
  allocate_in_cases bytes alignment h {a} e v = elim (allocate-Taken bytes alignment a v) [
    | inl (_, q) ↦ inl (ground arith)
    | inr (a', at, q, t) ↦ inr (a', at, ground arith, t)
  ]

  ensured :
      (build : Process W → Process W × Option (ℕ × ℕ)) (h : Hook W)
      → h.ready ≡ true
      → ensure_initialized build h ≡ (h, true)
  unfolding ensure_initialized
  ensured build h r = rw r

module _ {W : Type 0} (config : Config) (build : Process W → Process W × Option (ℕ × ℕ)) where
  pub remote_allocate_cases :
      (bytes alignment : ℕ) (h : Hook W) {a : Arena}
      → h.arena ≡ some a
      → h.ready ≡ true
      → IsValid a
      → (remote_allocate config build bytes alignment h ≡ (h, none))
        ⊎ ((a' : Arena) × (at : ℕ) × (remote_allocate config build bytes alignment h
              ≡ (served bytes a' h, some (a.base + at)))
            × Taken bytes at a a')
  unfolding remote_allocate
  remote_allocate_cases bytes alignment h {a} e r v = elim (Bool-cases config.remote_mode) [
    | inl on ↦
        let q = ensured build h r in
        elim (allocate_in_cases bytes alignment h e v) [
          | inl f ↦ inl (ground (arith, f, q))
          | inr (a', at, f, t) ↦ inr (a', at, ground (arith, f, q), t)
        ]
    | inr off ↦ inl (ground arith)
  ]

module _ {W : Type 0} {alloc : Process W → Process W × Option ℕ} (n : ℕ) (a : Arena) (s : Process W)
    (polite : Polite alloc n a) (v : IsValid a) where
  pub real-Keeps : Keeps a s.memory (alloc s).0.memory
  real-Keeps j i w e h =
      polite.keeps s (a.base + j + i) (omega arith) (omega (arith, live_block_lem a j v e))

  pub real_Granted :
      (q : ℕ) → (alloc s).1 ≡ some q → Granted (alloc s).1 n q a a s.memory (alloc s).0.memory
  real_Granted q z = record {
    placed = inr z;
    valid = v;
    same_base = refl;
    same_size = refl;
    live = λ j e. e;
    keeps = real-Keeps;
    avoids = λ j i w e h.
        let (pos, within) = live_block_lem a j v e in
        elim (polite.outside s z) [ inl below ↦ inr (omega arith) | inr above ↦ inl (omega arith) ];
  }
