-- ===== src/Hook/Calls.antt =====
-- hooked_malloc, hooked_calloc and hooked_free on a hook that has its arena.
use native.Mathlib.Nat.{le-div_iff_mul-le, div-lt_iff_lt-mul, mul_comm}
use ram_vram_sharing.Prelude.{
  ℕ, zero, suc, ◌+◌, ◌*◌, ◌/◌, ◌%◌, ◌≤◌, ◌<◌, ◌≡◌, refl, ap, ◌∙◌, ◌⊎◌, inl, inr, Bool, true, false,
  not, ◌&&◌, ◌||◌, Option, none, some, arith, ltb, ◌==◌, Bool-cases, Option-cases, u64_mod,
  size_max, count,
}
use ram_vram_sharing.Memory.Raw.{fill}
use ram_vram_sharing.Client.Arena.{Arena}
use ram_vram_sharing.Client.Arena.Invariant.{IsValid}
use ram_vram_sharing.Client.Arena.Allocate.{Taken}
use ram_vram_sharing.Hook.Blocks.{Keeps, fill-inside, Granted, Taken-Granted_clear}
use ram_vram_sharing.Hook.Redirect.{Polite, served, remote_allocate_cases, real-Keeps, real_Granted}
use ram_vram_sharing.Hook.{
  Config, Process, Crt, Hook, plus, enter, leave, note_large, clear, hooked_malloc, hooked_calloc,
}

-- The test of hooked_calloc, where the product fits.
no_overflow :
    (count size : ℕ)
    → count * size < u64_mod
    → (not (count == 0) && ltb (size_max / count) size) ≡ false
no_overflow zero size b = refl
no_overflow (suc c) size b =
    let q = (le-div_iff_mul-le {k = suc c} {x = size} {y = size_max} (omega arith)).1 in
    let le : size * suc c ≤ size_max = omega (arith, mul_comm (suc c) size) in ground (arith, q le)

-- And where it does not.
overflow :
    (count size : ℕ)
    → u64_mod ≤ count * size
    → (not (count == 0) && ltb (size_max / count) size) ≡ true
overflow zero size b = absurd (omega arith)
overflow (suc c) size b =
    let q = (div-lt_iff_lt-mul {k = suc c} {x = size_max} {y = size} (omega arith)).1 in
    let lt : size_max < size * suc c = omega (arith, mul_comm (suc c) size) in ground (arith, q lt)

module _ {W : Type 0} (config : Config) (crt : Crt W) (servicing_fault : Bool)
    (build : Process W → Process W × Option (ℕ × ℕ)) where
  -- The block comes from the arena, or the call is one of the runtime.
  pub malloc_cases :
      (a : Arena) (bytes : ℕ) (h : Hook W)
      → h.arena ≡ some a
      → h.ready ≡ true
      → IsValid a
      → ((a' : Arena) × (at : ℕ) × (hooked_malloc config crt servicing_fault build bytes h
            ≡ (leave (served bytes a' (note_large bytes (enter h))), some (a.base + at)))
          × Taken bytes at a a')
        ⊎ ((h' : Hook W) × (hooked_malloc config crt servicing_fault build bytes h
              ≡ (h', (crt.real_malloc bytes h.process).1))
            × (h'.process ≡ (crt.real_malloc bytes h.process).0)
            × (h'.arena ≡ some a))
  unfolding hooked_malloc
  malloc_cases a bytes h s r v =
      let tried = (crt.real_malloc bytes h.process).0 in
      elim (Bool-cases (ltb bytes config.threshold || (ltb 0 h.depth || servicing_fault))) [
        | inl small ↦ inr (
          record h { passed_through = plus h.passed_through 1; process = tried },
          ground arith,
          refl,
          s,
        )
        | inr large ↦
            elim (remote_allocate_cases config build bytes 16 (note_large bytes (enter h)) s r v) [
              | inr (a', at, f, t) ↦ inl (a', at, ground (arith, f), t)
              | inl f ↦ inr (
                leave (record (note_large bytes (enter h)) { process = tried }),
                ground (arith, f),
                refl,
                s,
              )
            ]
      ]

  calloc_cases :
      (a : Arena) (count size : ℕ) (h : Hook W)
      → h.arena ≡ some a
      → h.ready ≡ true
      → IsValid a
      → count * size < u64_mod
      → ((h' : Hook W) × (a' : Arena) × (at : ℕ) × (hooked_calloc config crt servicing_fault build
              count size h
            ≡ (h', some (a.base + at)))
          × (h'.arena ≡ some a')
          × (h'.process.memory ≡ fill h.process.memory (a.base + at) 0 (count * size))
          × Taken (count * size) at a a')
        ⊎ ((h' : Hook W) × (hooked_calloc config crt servicing_fault build count size h
              ≡ (h', (crt.real_calloc count size h.process).1))
            × (h'.process ≡ (crt.real_calloc count size h.process).0)
            × (h'.arena ≡ some a))
  unfolding hooked_calloc
  calloc_cases a count size h s r v b =
      let exact : count * size % u64_mod ≡ count * size = omega arith in
      let fits = no_overflow count size b in
      let tried = (crt.real_calloc count size h.process).0 in
      elim (Bool-cases
        (ltb (count * size) config.threshold || (ltb 0 h.depth || servicing_fault))) [
          | inl small ↦ inr (record h { process = tried }, ground (arith, exact, fits), refl, s)
          | inr large ↦
              elim (remote_allocate_cases config build (count * size) 16
                (note_large (count * size) (enter h)) s r v) [
                  | inr (a', at, f, t) ↦ inl (
                    leave (
                        clear (a.base + at) (count * size)
                          (served (count * size) a' (note_large (count * size) (enter h)))),
                    a',
                    at,
                    ground (arith, f, exact, fits),
                    refl,
                    refl,
                    t,
                  )
                  | inl f ↦ inr (
                    leave (record (note_large (count * size) (enter h)) { process = tried }),
                    ground (arith, f, exact, fits),
                    refl,
                    s,
                  )
                ]
        ]

  refuses_overflow :
      (count size : ℕ) (h : Hook W)
      → u64_mod ≤ count * size
      → hooked_calloc config crt servicing_fault build count size h ≡ (h, none)
  unfolding hooked_calloc
  refuses_overflow count size h b = rw (overflow count size b)

  -- On a hook with a valid arena, calloc yields null, and then no block has ended or lost a byte, or
  -- a block of `count * size` bytes, a product that does not overflow, all of them zero: a live block
  -- of the arena that the arena did not have, or one that the runtime's calloc gave. It meets no
  -- block that was live, and every such block stays, with its bytes. calloc of the runtime is assumed to leave
  -- the region of the arena alone, to zero its blocks, and to be called on no overflow.
  pub calloc_lem :
      (a : Arena) (count size : ℕ) (h : Hook W)
      → Polite (crt.real_calloc count size) (count * size) a
      → ((s : Process W) (q i : ℕ)
          → (crt.real_calloc count size s).1 ≡ some q
          → i < count * size
          → (crt.real_calloc count size s).0.memory (q + i) ≡ 0)
      → h.arena ≡ some a
      → h.ready ≡ true
      → IsValid a
      → ((h' : Hook W) × (hooked_calloc config crt servicing_fault build count size h ≡ (h', none))
          × (h'.arena ≡ some a)
          × Keeps a h.process.memory h'.process.memory)
        ⊎ ((h' : Hook W) × (q : ℕ) × (a' : Arena) × (hooked_calloc config crt servicing_fault build
                count size h
              ≡ (h', some q))
            × (h'.arena ≡ some a')
            × (count * size < u64_mod)
            × ((i : ℕ) → i < count * size → h'.process.memory (q + i) ≡ 0)
            × Granted
                (crt.real_calloc count size h.process).1
                (count * size)
                q
                a
                a'
                h.process.memory
                h'.process.memory)
  calloc_lem a count size h polite zeroes s r v = elim (Bool-cases (ltb (count * size) u64_mod)) [
    | inr big ↦ inl (h, refuses_overflow count size h (ground arith), s, λ j i w e b. refl)
    | inl small ↦
        let fits : count * size < u64_mod = ground arith in
        elim (calloc_cases a count size h s r v fits) [
          | inl (h', a', at, f, s', filled, t) ↦ inr (
            h',
            a.base + at,
            a',
            f,
            s',
            fits,
            λ i b. rw filled (fill-inside h.process.memory (a.base + at) (count * size) i b),
            rw filled (
                Taken-Granted_clear (crt.real_calloc count size h.process).1 (count * size) at a
                  h.process.memory v t),
          )
          | inr (h', f, done, s') ↦ elim (Option-cases (crt.real_calloc count size h.process).1) [
            | inl z ↦ inl (
              h',
              f ∙ ap (λ (o : Option ℕ). (h', o)) z,
              s',
              rw done (real-Keeps (count * size) a h.process polite v),
            )
            | inr (q, z) ↦ inr (
              h',
              q,
              a,
              f ∙ ap (λ (o : Option ℕ). (h', o)) z,
              s',
              fits,
              λ i b. rw done (zeroes h.process q i z b),
              rw done (real_Granted (count * size) a h.process polite v q z),
            )
          ]
        ]
  ]
