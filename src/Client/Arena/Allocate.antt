-- ===== src/Client/Arena/Allocate.antt =====
-- What HeapArena::allocate promises.
use Prim.Native.Nat.{bit_and}
use mathlib.Core.Path.{subst}
use ram_vram_sharing.Prelude.{
  ℕ, suc, ◌+◌, ◌-◌, ◌%◌, ◌≤◌, ◌<◌, ◌≡◌, refl, sym, ap, ◌∙◌, ◌≢◌, ◌⊎◌, inl, inr, Bool, false, not,
  ◌||◌, none, some, [], ◌∷◌, arith, leb, ◌==◌, if◌then◌else◌, Bool-cases, Option-cases, u64_mod,
  lookup, erase,
}
use ram_vram_sharing.Client.Arena.{
  Blocks, Arena, sub_u64, align_up, first_fit, keep, take_block, allocate,
}
use ram_vram_sharing.Client.Arena.Blocks.{
  hit, cover, Separated, cover-erase, cover-emplace, total_bytes-emplace, lookup-emplace,
  AllPositive-emplace, uncovered, Separated-erase,
}
use ram_vram_sharing.Client.Arena.Invariant.{IsValid, free_block_lem}
use ram_vram_sharing.Client.Arena.Split.{rest_lem}
use ram_vram_sharing.Client.Arena.Gaps.{Apart-mono, Separated-lookup, erased-Apart}

-- Where a request would start in the block at `start`.
abbrev pub aligned_in : ℕ → ℕ → ℕ → ℕ
aligned_in base alignment start = sub_u64 (align_up ((base + start) % u64_mod) alignment) base

-- Whether the request fits the block of `len` bytes at `start`, alignment included.
abbrev pub Fits : ℕ → ℕ → ℕ → ℕ → ℕ → Type 0
Fits base bytes alignment start len = sub_u64 (aligned_in base alignment start) start + bytes ≤ len

first_fit-some :
    (n base bytes alignment : ℕ) (m : Blocks) {start len aligned : ℕ}
    → Separated n m
    → first_fit base bytes alignment m ≡ some (start, len, aligned)
    → (lookup start m ≡ some len)
      × (aligned ≡ aligned_in base alignment start)
      × Fits base bytes alignment start len
unfolding first_fit
first_fit-some n base bytes alignment [] s e = cc
first_fit-some n base bytes alignment ((j, w) ∷ m) {start} {len} {aligned} s e =
    elim (Bool-cases (leb (sub_u64 (aligned_in base alignment j) j + bytes) w)) [
      | inl f ↦ ground arith
      | inr f ↦
          let e' : first_fit base bytes alignment m ≡ some (start, len, aligned) = ground arith in
          let ih = first_fit-some (suc (j + w)) base bytes alignment m s.2 e' in
          let after = Separated-lookup (suc (j + w)) start m s.2 ih.0 in
          (ground (arith, ih.0), ih.1, ih.2)
    ]

first_fit-none :
    (base bytes alignment k : ℕ) (m : Blocks) {v : ℕ}
    → first_fit base bytes alignment m ≡ none
    → lookup k m ≡ some v
    → ¬ Fits base bytes alignment k v
unfolding first_fit
first_fit-none base bytes alignment k [] e l = cc
first_fit-none base bytes alignment k ((j, w) ∷ m) {v} e l = λ fits. elim (Bool-cases (j == k)) [
  | inl q ↦ ground arith
  | inr q ↦ first_fit-none base bytes alignment k m {v = v} (ground arith) (ground arith) fits
]

-- The request for `bytes` bytes has been served at the offset `at`.
pub record Taken (bytes at : ℕ) (a a' : Arena) : Type 0 where
  pub valid : IsValid a'
  pub same_base : a'.base ≡ a.base
  pub same_size : a'.size ≡ a.size
  pub inside : at + bytes ≤ a.size
  pub was_unknown : lookup at a.live_blocks ≡ none
  pub live :
      (k : ℕ) → lookup k a'.live_blocks ≡ (if at == k then some bytes else lookup k a.live_blocks)
  pub was_free : (x : ℕ) → hit x at bytes ≤ cover x a.free_blocks
  pub freed : (x : ℕ) → cover x a.free_blocks ≡ hit x at bytes + cover x a'.free_blocks

sub_u64_lem :
    (aligned start : ℕ)
    → aligned < u64_mod
    → start + sub_u64 aligned start < u64_mod
    → aligned ≡ start + sub_u64 aligned start
sub_u64_lem aligned start p q = omega arith

take_block_lem :
    (bytes start len aligned : ℕ) (a : Arena)
    → IsValid a
    → 0 < bytes
    → aligned < u64_mod
    → lookup start a.free_blocks ≡ some len
    → sub_u64 aligned start + bytes ≤ len
    → Taken bytes aligned a (take_block bytes a (start, len, aligned)).0
unfolding take_block
take_block_lem bytes start len aligned a v p u e f =
    let lead : ℕ = sub_u64 aligned start in
    let trail : ℕ = len - lead - bytes in
    let rest : Blocks = erase start a.free_blocks in
    let (pos, within) = free_block_lem a start v e in
    let parts : len ≡ lead + bytes + trail = omega (arith, f) in
    let place : aligned ≡ start + lead =
      sub_u64_lem aligned start u (omega (arith, f, within, v.addressable)) in
    let apart =
      Apart-mono 1 1 start len 1 1 start (lead + bytes + trail) rest (omega arith)
        (omega (arith, parts)) (erased-Apart 0 start a.free_blocks v.separated e) in
    let r =
      subst
        (λ z.
          let m' = keep (z + bytes) trail (keep start lead rest) in
          Separated 0 m'
          × ((x : ℕ)
              → hit x start (lead + bytes + trail) + cover x rest ≡ hit x z bytes + cover x m'))
        (sym place)
        (rest_lem start lead bytes trail rest p (Separated-erase 0 start a.free_blocks v.separated)
          apart) in
    let freed_ : (x : ℕ)
        → cover x a.free_blocks
          ≡ hit x aligned bytes + cover x (keep (aligned + bytes) trail (keep start lead rest)) =
      λ x.
        cover-erase x start a.free_blocks e
        ∙ ap (λ n. hit x start n + cover x rest) parts
        ∙ r.1 x in
    let unknown_ : lookup aligned a.live_blocks ≡ none =
      uncovered aligned a.live_blocks v.live_positive
        (ground (arith, v.tiled aligned, freed_ aligned)) in
    record {
      valid = record {
        addressable = v.addressable;
        separated = r.0;
        live_positive = AllPositive-emplace aligned bytes a.live_blocks p v.live_positive;
        tiled = λ x.
            omega
              (arith, v.tiled x, freed_ x, cover-emplace x aligned bytes a.live_blocks unknown_);
        counted =
            omega (arith, v.counted, total_bytes-emplace aligned bytes a.live_blocks unknown_);
      };
      same_base = refl;
      same_size = refl;
      inside = omega (arith, within, place, f);
      was_unknown = unknown_;
      live = λ k. lookup-emplace k aligned bytes a.live_blocks unknown_;
      was_free = λ x. omega (arith, freed_ x);
      freed = freed_;
    }

abbrev refuses : ℕ → ℕ → Arena → Bool
refuses bytes alignment a =
    (bytes == 0 || a.base == 0) || (alignment == 0 || not (bit_and alignment (alignment - 1) == 0))

served :
    (bytes alignment start len aligned : ℕ) (a : Arena)
    → refuses bytes alignment a ≡ false
    → first_fit a.base bytes alignment a.free_blocks ≡ some (start, len, aligned)
    → allocate bytes alignment a
      ≡ ((take_block bytes a (start, len, aligned)).0, some (a.base + aligned))
unfolding allocate take_block
served bytes alignment start len aligned a r e = ground arith

-- allocate yields null and changes nothing when the request is empty, the arena has no region, the
-- code's test takes the alignment for no power of two, or no free block holds the request at its
-- alignment. Otherwise it yields the address of bytes that lie in the region, were free and are free
-- no longer, and form a live block now; every other live block stays, and the arena stays valid.
pub allocate-Taken :
    (bytes alignment : ℕ) (a : Arena)
    → IsValid a
    → (((bytes ≡ 0)
          ⊎ (a.base ≡ 0)
          ⊎ (alignment ≡ 0)
          ⊎ (bit_and alignment (alignment - 1) ≢ 0)
          ⊎ ((start len : ℕ)
              → lookup start a.free_blocks ≡ some len
              → ¬ Fits a.base bytes alignment start len))
        × (allocate bytes alignment a ≡ (a, none)))
      ⊎ ((a' : Arena) × (at : ℕ) × (allocate bytes alignment a ≡ (a', some (a.base + at)))
          × Taken bytes at a a')
unfolding allocate
allocate-Taken bytes alignment a v = elim (Bool-cases (refuses bytes alignment a)) [
  | inl e ↦ inl (ground arith, ground arith)
  | inr ok_ ↦ elim (Option-cases (first_fit a.base bytes alignment a.free_blocks)) [
    | inl e ↦ inl (
      inr (
          inr (
            inr
              (inr λ start len l. first_fit-none a.base bytes alignment start a.free_blocks e l))),
      ground arith,
    )
    | inr ((start, len, aligned), e) ↦
        let (l, w, f) = first_fit-some 0 a.base bytes alignment a.free_blocks v.separated e in
        let f' : sub_u64 aligned start + bytes ≤ len =
          subst (λ z. sub_u64 z start + bytes ≤ len) (sym w) f in
        inr (
          (take_block bytes a (start, len, aligned)).0,
          aligned,
          served bytes alignment start len aligned a ok_ e,
          take_block_lem bytes start len aligned a v (ground arith) (omega (arith, w)) l f',
        )
  ]
]
