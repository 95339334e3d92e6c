-- ===== src/Hook/Free.antt =====
-- hook/meminfo_hook.cpp: hooked_free on blocks of the arena and of the C runtime.
use mathlib.Core.Path.{subst}
use ram_vram_sharing.Prelude.{
  ℕ, ◌+◌, ◌-◌, ◌≤◌, ◌<◌, ◌≡◌, refl, sym, ap, ◌∙◌, ◌⊎◌, inl, inr, Bool, true, Option, some, arith,
  ◌==◌, Bool-cases, lookup, lookup-erase_ne,
}
use ram_vram_sharing.Client.Arena.{Arena, deallocate}
use ram_vram_sharing.Client.Arena.Blocks.{cover}
use ram_vram_sharing.Client.Arena.Invariant.{IsValid}
use ram_vram_sharing.Client.Arena.Allocate.{Taken}
use ram_vram_sharing.Client.Arena.Release.{Released, deallocate_lem}
use ram_vram_sharing.Hook.Redirect.{Polite, served}
use ram_vram_sharing.Hook.Realloc.{arena_owns_live}
use ram_vram_sharing.Hook.Calls.{malloc_cases}
use ram_vram_sharing.Hook.{
  Config, Process, Crt, Hook, enter, leave, note_large, arena_owns, give_back, hooked_free,
  hooked_malloc,
}

module _ {W : Type 0} (crt : Crt W) where
  free_owned :
      (h : Hook W) (a : Arena) (p k : ℕ) {len : ℕ}
      → p ≡ a.base + k
      → h.arena ≡ some a
      → h.ready ≡ true
      → IsValid a
      → lookup k a.live_blocks ≡ some len
      → ((hooked_free crt (some p) h).arena ≡ some (deallocate p a))
        × ((hooked_free crt (some p) h).process ≡ h.process)
  unfolding hooked_free give_back
  free_owned h a p k at_ s r v e =
      let o : arena_owns p h ≡ true = rw at_ (arena_owns_live h a k s r v e) in
      (ground (arith, o), ground (arith, o))

  free_foreign :
      (h : Hook W) (a : Arena) (q : ℕ)
      → h.arena ≡ some a
      → IsValid a
      → (q < a.base) ⊎ (a.base + a.size ≤ q)
      → hooked_free crt (some q) h ≡ record h { process = crt.real_free (some q) h.process }
  unfolding hooked_free arena_owns
  free_foreign h a q s v o = ground (arith, v.addressable)

-- The arena has the live blocks and the free bytes that it had before.
pub record Restored (a a' : Arena) : Type 0 where
  pub valid : IsValid a'
  pub same_live : (k : ℕ) → lookup k a'.live_blocks ≡ lookup k a.live_blocks
  pub same_free : (x : ℕ) → cover x a'.free_blocks ≡ cover x a.free_blocks

Taken-Released :
    (bytes at : ℕ) (a : Arena) {a1 a2 : Arena}
    → Taken bytes at a a1
    → Released at bytes a1 a2
    → Restored a a2
Taken-Released bytes at a {a1} t r = record {
  valid = r.valid;
  same_live = λ k. elim (Bool-cases (at == k)) [
    | inl e ↦ ground (arith, r.unknown, t.was_unknown)
    | inr e ↦
        ap (λ m. lookup k m) r.forgotten
        ∙ lookup-erase_ne at k a1.live_blocks (ground arith)
        ∙ ground (arith, t.live k)
  ];
  same_free = λ x. omega (arith, r.freed x, t.freed x);
}

deallocate-Taken :
    (bytes at : ℕ) (a : Arena) {a1 : Arena}
    → 0 < a.base
    → Taken bytes at a a1
    → Released at bytes a1 (deallocate (a.base + at) a1)
deallocate-Taken bytes at a {a1} b t =
    let at_ : a.base + at - a1.base ≡ at = omega (arith, t.same_base) in
    let known : lookup (a.base + at - a1.base) a1.live_blocks ≡ some bytes =
      rw at_ (ground (arith, t.live at)) in
    elim (deallocate_lem (a.base + at) a1 t.valid (omega (arith, t.same_base))) [
      | inl (w, above, f, r) ↦
          subst (λ z. Released z bytes a1 (deallocate (a.base + at) a1)) at_
            (subst (λ z. Released (a.base + at - a1.base) z a1 (deallocate (a.base + at) a1))
              (ground (arith, f, known)) r)
      | inr (inl below, _) ↦ absurd (omega (arith, t.same_base))
      | inr (inr gone, _) ↦ cc
    ]

module _ {W : Type 0} (config : Config) (crt : Crt W) (servicing_fault : Bool)
    (build : Process W → Process W × Option (ℕ × ℕ)) where
  -- On a hook with a valid arena, a block of malloc that is freed at once goes back to where it came
  -- from. A block of the arena leaves the arena with the live blocks and the free bytes that it had,
  -- and the runtime is not called. Any other block is one that the runtime gave, and is freed by the
  -- runtime alone. malloc of the runtime is assumed to leave the region of the arena alone, and the
  -- block to have at least one byte.
  pub free-malloc :
      (a : Arena) (bytes q : ℕ) (h h1 : Hook W)
      → Polite (crt.real_malloc bytes) bytes a
      → h.arena ≡ some a
      → h.ready ≡ true
      → IsValid a
      → 0 < a.base
      → 0 < bytes
      → hooked_malloc config crt servicing_fault build bytes h ≡ (h1, some q)
      → ((a2 : Arena) × ((hooked_free crt (some q) h1).arena ≡ some a2)
          × ((hooked_free crt (some q) h1).process ≡ h.process)
          × Restored a a2)
        ⊎ (((crt.real_malloc bytes h.process).1 ≡ some q)
            × ((hooked_free crt (some q) h1).arena ≡ some a)
            × ((hooked_free crt (some q) h1).process
                ≡ crt.real_free (some q) (crt.real_malloc bytes h.process).0))
  free-malloc a bytes q h h1 polite s r v b p e =
      elim (malloc_cases config crt servicing_fault build a bytes h s r v) [
        | inl (a', at, f, t) ↦
            let now : Hook W = leave (served bytes a' (note_large bytes (enter h))) in
            let eh : h1 ≡ now = ap (λ (z : Hook W × Option ℕ). z.0) (sym e ∙ f) in
            let eq : q ≡ a.base + at = cc (f, e) in
            let freed =
              free_owned crt now a' q at {len = bytes} (omega (arith, eq, t.same_base)) refl r
                t.valid (ground (arith, t.live at)) in
            inl (
              deallocate q a',
              rw eh freed.0,
              rw eh freed.1,
              Taken-Released bytes at a t (rw eq (deallocate-Taken bytes at a b t)),
            )
        | inr (h', f, done, s') ↦
            let eh : h1 ≡ h' = ap (λ (z : Hook W × Option ℕ). z.0) (sym e ∙ f) in
            let given : (crt.real_malloc bytes h.process).1 ≡ some q =
              ap (λ (z : Hook W × Option ℕ). z.1) (sym f ∙ e) in
            let outside : (q < a.base) ⊎ (a.base + a.size ≤ q) =
              elim (polite.outside h.process given) [
                | inl below ↦ inl (omega arith)
                | inr above ↦ inr above
              ] in
            let freed = free_foreign crt h' a q s' v outside in
            inr (given, rw (eh, freed) s', rw (eh, freed, done) refl)
      ]
