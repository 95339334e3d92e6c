-- ===== src/Hook/Realloc.antt =====
-- hooked_realloc on a block of the arena.
use ram_vram_sharing.Prelude.{
  ℕ, ◌+◌, ◌-◌, ◌<◌, min, ◌≡◌, refl, ◌∙◌, ◌⊎◌, inl, inr, Bool, true, Option, none, some, arith,
  Option-cases, lookup,
}
use ram_vram_sharing.Client.Arena.{Arena, deallocate, block_size}
use ram_vram_sharing.Client.Arena.Invariant.{IsValid, live_block_lem}
use ram_vram_sharing.Hook.Redirect.{Polite, served, remote_allocate_cases, real-Keeps, real_Granted}
use ram_vram_sharing.Hook.Blocks.{Keeps, Taken-Granted, Moved, Granted-Moved}
use ram_vram_sharing.Hook.{
  Config, Process, Crt, Hook, enter, leave, arena_owns, size_of, give_back, memcpy, remote_allocate,
  move_owned, hooked_realloc,
}

block_size_live :
    (a : Arena) (k : ℕ) {len : ℕ}
    → IsValid a
    → 0 < a.base
    → lookup k a.live_blocks ≡ some len
    → block_size (a.base + k) a ≡ len
unfolding block_size
block_size_live a k v b e =
    let (pos, within) = live_block_lem a k v e in
    let at_ : a.base + k - a.base ≡ k = omega arith in ground (arith, at_, v.addressable)

module _ {W : Type 0} where
  pub arena_owns_live :
      (h : Hook W) (a : Arena) (k : ℕ) {len : ℕ}
      → h.arena ≡ some a
      → h.ready ≡ true
      → IsValid a
      → lookup k a.live_blocks ≡ some len
      → arena_owns (a.base + k) h ≡ true
  unfolding arena_owns
  arena_owns_live h a k s r v e =
      let (pos, within) = live_block_lem a k v e in ground (arith, v.addressable)

  size_of_live :
      (h : Hook W) (a : Arena) (k : ℕ) {len : ℕ}
      → h.arena ≡ some a
      → IsValid a
      → 0 < a.base
      → lookup k a.live_blocks ≡ some len
      → size_of (a.base + k) h ≡ len
  unfolding size_of
  size_of_live h a k s v b e = ground (arith, block_size_live a k v b e)

  -- The copy and the release at the end.
  abbrev finished : ℕ → ℕ → ℕ → Arena → Hook W → Hook W
  finished n p q a h = leave (record (memcpy q p n h) { arena = some (deallocate p a) })

module _ {W : Type 0} (config : Config) (crt : Crt W) (servicing_fault : Bool)
    (build : Process W → Process W × Option (ℕ × ℕ)) where
  move_owned_served :
      (p bytes q n : ℕ) (h h1 : Hook W) (a1 : Arena)
      → size_of p h ≡ n
      → remote_allocate config build bytes 16 (enter h) ≡ (h1, some q)
      → h1.arena ≡ some a1
      → move_owned config crt servicing_fault build p bytes h
        ≡ (finished (min n bytes) p q a1 h1, some q)
  unfolding move_owned give_back
  move_owned_served p bytes q n h h1 a1 z e s = ground (arith, z, e, s)

  move_owned_refused :
      (p bytes : ℕ) (h : Hook W)
      → remote_allocate config build bytes 16 (enter h) ≡ (enter h, none)
      → (crt.real_malloc bytes h.process).1 ≡ none
      → move_owned config crt servicing_fault build p bytes h
        ≡ (leave (record (enter h) { process = (crt.real_malloc bytes h.process).0 }), none)
  unfolding move_owned
  move_owned_refused p bytes h e f = ground (arith, e, f)

  move_owned_local :
      (p bytes q n : ℕ) (h : Hook W) (a : Arena)
      → size_of p h ≡ n
      → remote_allocate config build bytes 16 (enter h) ≡ (enter h, none)
      → h.arena ≡ some a
      → (crt.real_malloc bytes h.process).1 ≡ some q
      → move_owned config crt servicing_fault build p bytes h ≡ (
        finished
            (min n bytes)
            p
            q
            a
            (record (enter h) { process = (crt.real_malloc bytes h.process).0 }),
        some q,
      )
  unfolding move_owned give_back
  move_owned_local p bytes q n h a z e s f = ground (arith, z, e, f, s)

  reaches_owned :
      (a : Arena) (k bytes : ℕ) (h : Hook W) {len : ℕ}
      → h.arena ≡ some a
      → h.ready ≡ true
      → IsValid a
      → lookup k a.live_blocks ≡ some len
      → 0 < bytes
      → hooked_realloc config crt servicing_fault build (some (a.base + k)) bytes h
        ≡ move_owned config crt servicing_fault build (a.base + k) bytes h
  unfolding hooked_realloc
  reaches_owned a k bytes h s r v e p = ground (arith, arena_owns_live h a k s r v e)

  -- On a hook with a valid arena, realloc of a live block of the arena to a positive size either
  -- yields null, and then no block has ended or lost a byte, or a block of that size, which the
  -- arena now has as a live block and did not have before, or which malloc gave: it meets no block
  -- that was live, starts with the bytes of the old block as far as both sizes go, the old block is
  -- live no longer, and every other live block keeps its size and its bytes. malloc is assumed to
  -- leave the region of the arena alone.
  pub realloc_lem :
      (a : Arena) (k bytes : ℕ) (h : Hook W) {len : ℕ}
      → Polite (crt.real_malloc bytes) bytes a
      → h.arena ≡ some a
      → h.ready ≡ true
      → IsValid a
      → 0 < a.base
      → lookup k a.live_blocks ≡ some len
      → 0 < bytes
      → ((h' : Hook W) × (hooked_realloc config crt servicing_fault build
              (some (a.base + k))
              bytes
              h
            ≡ (h', none))
          × (h'.arena ≡ some a)
          × Keeps a h.process.memory h'.process.memory)
        ⊎ ((h' : Hook W) × (q : ℕ) × (a' : Arena) × (hooked_realloc config crt servicing_fault build
                (some (a.base + k))
                bytes
                h
              ≡ (h', some q))
            × (h'.arena ≡ some a')
            × Moved
                (crt.real_malloc bytes h.process).1
                bytes
                (min len bytes)
                k
                q
                a
                a'
                h.process.memory
                h'.process.memory)
  realloc_lem a k bytes h {len} polite s r v b e p =
      let reached = reaches_owned a k bytes h s r v e p in
      let sized = size_of_live h a k s v b e in
      let m = h.process.memory in
      let tried = (crt.real_malloc bytes h.process).0 in
      elim (remote_allocate_cases config build bytes 16 (enter h) s r v) [
        | inr (a1, at, f, t) ↦
            let g = Taken-Granted (crt.real_malloc bytes h.process).1 bytes at a m v t in
            inr (
              finished (min len bytes) (a.base + k) (a.base + at) a1 (served bytes a1 (enter h)),
              a.base + at,
              deallocate (a.base + k) a1,
              reached ∙ move_owned_served (a.base + k) bytes (a.base + at) len h _ a1 sized f refl,
              refl,
              Granted-Moved (crt.real_malloc bytes h.process).1 bytes k (a.base + at) a a1 m m g b
                  e,
            )
        | inl f ↦ elim (Option-cases (crt.real_malloc bytes h.process).1) [
          | inl z ↦ inl (
            leave (record (enter h) { process = tried }),
            reached ∙ move_owned_refused (a.base + k) bytes h f z,
            s,
            real-Keeps bytes a h.process polite v,
          )
          | inr (q, z) ↦ inr (
            finished (min len bytes) (a.base + k) q a (record (enter h) { process = tried }),
            q,
            deallocate (a.base + k) a,
            reached ∙ move_owned_local (a.base + k) bytes q len h a sized f s z,
            refl,
            Granted-Moved (crt.real_malloc bytes h.process).1 bytes k q a a m tried.memory
                (real_Granted bytes a h.process polite v q z) b e,
          )
        ]
      ]
