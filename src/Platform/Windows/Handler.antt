-- ===== src/Platform/Windows/Handler.antt =====
-- Windows: traps, what their handler calls, and the tracking of writes.
use ram_vram_sharing.Prelude.{
  ℕ, ◌+◌, ◌-◌, ◌*◌, ◌/◌, ◌%◌, ◌≡◌, refl, sym, ◌∙◌, inl, inr, Bool, true, false, Option, none, some,
  List, [], ◌∷◌, arith, ◌==◌, if◌then◌else◌, Bool-cases, u64_mod, take,
}
use ram_vram_sharing.Platform.Pages.{offset_in_page}
use ram_vram_sharing.Platform.Pages.Visit.{total}
use ram_vram_sharing.Platform.Pages.Range.{round_up_lem, within}
use ram_vram_sharing.Platform.Windows.{
  resident, dirty, VirtualMemory, Backend, counted, set_states, Call, resolve, clear, evict, Found,
  foreign, present, missing, classify, write_bytes, fill_pages, resolve_fault, perform, perform_all,
  mark_stored, promote, serve, answer, vectored_handler,
}
use ram_vram_sharing.Platform.Windows.Tracking.{
  Lawful, Sound, IsSound, counted-Follows, marked-Sound, same-Sound, clear_dirty-IsSound,
  evict_pages-IsSound,
}

-- The bytes that a call of resolve_fault fills, and the number of their pages.
abbrev pub filled : ℕ → ℕ → ℕ → ℕ
filled ps addr len = let span = offset_in_page ps addr + len in if span == 0 then ps else span

abbrev pub filled_pages : ℕ → ℕ → ℕ → ℕ
filled_pages ps addr len = (filled ps addr len + ps - 1) % u64_mod / ps

module _ {K : Type 0} (vm : VirtualMemory K) (law : Lawful vm) where
  write_bytes_lem :
      (page total addr : ℕ) (bytes : Option (List ℕ)) (len z : ℕ) (k : K)
      → vm.writable z (write_bytes vm page total addr bytes len k) ≡ vm.writable z k
  write_bytes_lem page total addr none len z k = law.cleared page total z k
  write_bytes_lem page total addr (some source) len z k = law.copied addr z (take len source) k

  fill_pages-Sound :
      (x n addr : ℕ) (bytes : Option (List ℕ)) (len : ℕ) (k : K) (b : Backend K)
      → Sound vm b.page_size k b.book
      → ((z : ℕ)
          → within (x * b.page_size) (n * b.page_size) z ≡ false
          → vm.writable z b.kernel ≡ true
          → vm.writable z k ≡ true)
      → IsSound vm (fill_pages vm (x * b.page_size) (n * b.page_size) addr bytes len b)
  unfolding fill_pages set_states
  fill_pages-Sound x n addr bytes len k b v kept =
      let ps = b.page_size in
      let a = x * ps in
      let m = n * ps in
      let k1 = write_bytes vm a m addr bytes len b.kernel in
      let k2 = (vm.protect_readonly a m k1).0 in
      let same = λ (z : ℕ). write_bytes_lem a m addr bytes len z b.kernel in
      elim (Bool-cases b.in_write_fault) [
        | inl store ↦ rw store (
            marked-Sound vm (λ _. dirty) (counted dirty) (counted-Follows dirty refl) ps x n k k1
              b.book v (λ z o h. kept z o (sym (same z) ∙ h)) (λ z s i h. refl))
        | inr load ↦ rw load (elim (Bool-cases (vm.protect_readonly a m k1).1) [
          | inl ok_ ↦ rw ok_ (
              marked-Sound vm (λ _. resident) (counted resident) (counted-Follows resident refl) ps
                x n k k2 b.book v
                (λ z o h. kept z o (ground (arith, law.readonly a m z k1, same z)))
                (λ z s i h. ground (arith, law.readonly a m z k1)))
          | inr bad ↦ rw bad (
              marked-Sound vm (λ _. dirty) (counted dirty) (counted-Follows dirty refl) ps x n k k2
                b.book v (λ z o h. kept z o (ground (arith, law.readonly a m z k1, same z)))
                (λ z s i h. refl))
        ])
      ]

  resolve_fault-IsSound :
      (addr : ℕ) (bytes : Option (List ℕ)) (len : ℕ) (b : Backend K)
      → IsSound vm b
      → IsSound vm (resolve_fault vm addr bytes len b)
  unfolding resolve_fault
  resolve_fault-IsSound addr bytes len b v =
      let ps = b.page_size in
      let x = addr / ps in
      let n = filled_pages ps addr len in
      let k' = (vm.commit (x * ps) (n * ps) b.kernel).0 in
      rw (round_up_lem (filled ps addr len) ps) (elim (Bool-cases (addr == 0)) [
        | inl null ↦ rw null v
        | inr given ↦ rw given (elim (Bool-cases (vm.commit (x * ps) (n * ps) b.kernel).1) [
          | inl ok_ ↦ rw ok_ (
              fill_pages-Sound x n addr bytes len b.kernel (record b { kernel = k' }) v
                (λ z o h. sym (law.committed (x * ps) (n * ps) z b.kernel o) ∙ h))
          | inr bad ↦ rw bad (
              same-Sound vm ps b.book b.kernel k' v
                (λ z h. sym (law.not_committed (x * ps) (n * ps) z b.kernel bad) ∙ h))
        ])
      ])

  pub promote-IsSound :
      (addr : ℕ) (is_write : Bool) (b : Backend K)
      → IsSound vm b
      → IsSound vm (promote vm addr is_write b).0
  unfolding promote mark_stored set_states
  promote-IsSound addr false b v = v
  promote-IsSound addr true b v =
      let ps = b.page_size in
      let x = addr / ps in
      let one : 1 * ps ≡ ps = omega arith in
      let k' = (vm.protect_readwrite (x * ps) ps b.kernel).0 in
      elim (Bool-cases (vm.protect_readwrite (x * ps) ps b.kernel).1) [
        | inl ok_ ↦ rw ok_ (
            let m =
              marked-Sound vm (λ _. dirty) (counted dirty) (counted-Follows dirty refl) ps x 1
                b.kernel k' b.book v
                (λ z o h.
                  let o' : within (x * ps) ps z ≡ false = rw one at o in
                  sym (law.readwrite (x * ps) ps z b.kernel (inl o')) ∙ h)
                (λ z s i h. refl) in
            rw one at m)
        | inr bad ↦ rw bad (
            same-Sound vm ps b.book b.kernel k' v
              (λ z h. sym (law.readwrite (x * ps) ps z b.kernel (inr bad)) ∙ h))
      ]

  pub perform-IsSound : (c : Call) (b : Backend K) → IsSound vm b → IsSound vm (perform vm c b)
  unfolding perform
  perform-IsSound (resolve addr bytes len) b v = resolve_fault-IsSound addr bytes len b v
  perform-IsSound (clear addr len) b v = clear_dirty-IsSound vm law addr len b v
  perform-IsSound (evict addr len) b v = evict_pages-IsSound vm law addr len b v

  perform_all-IsSound :
      (cs : List Call) (b : Backend K) → IsSound vm b → IsSound vm (perform_all vm cs b)
  unfolding perform_all
  perform_all-IsSound [] b v = v
  perform_all-IsSound (c ∷ cs) b v = perform_all-IsSound cs (perform vm c b) (perform-IsSound c b v)

  pub serve-IsSound :
      (handler : Option (ℕ → Bool → Backend K → List Call)) (addr : ℕ) (is_write : Bool)
      (b : Backend K)
      → IsSound vm b
      → IsSound vm (serve vm handler addr is_write b).0
  unfolding serve
  serve-IsSound none addr is_write b v = v
  serve-IsSound (some handler) addr is_write b v =
      let b1 = record b { in_write_fault = is_write; resolved = false } in
      perform_all-IsSound (handler addr is_write b1) b1 v

  pub answer-IsSound :
      (handler : Option (ℕ → Bool → Backend K → List Call)) (c : Found) (addr : ℕ) (is_write : Bool)
      (b : Backend K)
      → IsSound vm b
      → IsSound vm (answer vm handler c addr is_write b).0
  unfolding answer
  answer-IsSound handler foreign addr is_write b v = v
  answer-IsSound handler present addr is_write b v = promote-IsSound addr is_write b v
  answer-IsSound handler missing addr is_write b v = serve-IsSound handler addr is_write b v

  pub vectored_handler-IsSound :
      (handler : Option (ℕ → Bool → Backend K → List Call)) (violation : Bool) (addr : ℕ)
      (is_write : Bool) (b : Backend K)
      → IsSound vm b
      → IsSound vm (vectored_handler vm handler violation addr is_write b).0
  unfolding vectored_handler
  vectored_handler-IsSound handler false addr is_write b v = v
  vectored_handler-IsSound handler true addr is_write b v =
      answer-IsSound handler (classify addr b) addr is_write b v
