-- ===== src/Platform/Windows/Race.antt =====
-- Windows: two threads that touch one absent page at the same time.
use mathlib.Core.Path.{subst}
use native.Mathlib.Nat.{div-eq_of_lt-le}
use ram_vram_sharing.Prelude.{
  ℕ, ◌+◌, ◌-◌, ◌*◌, ◌/◌, ◌%◌, ◌≤◌, ◌<◌, ◌≡◌, refl, sym, ◌∙◌, inl, inr, Bool, true, false, some,
  List, [], ◌∷◌, arith, ◌==◌, if◌then◌else◌, Bool-cases, u64_mod,
}
use ram_vram_sharing.Platform.Pages.{Regions, rounds_of, state_of}
use ram_vram_sharing.Platform.Pages.Layout.{page_at, scale_le}
use ram_vram_sharing.Platform.Pages.Visit.{IsValid}
use ram_vram_sharing.Platform.Pages.Range.{
  span_of, pages_of, round_up_lem, span_lem, rounds_lem, within, for_each_page_lem,
  state_of-page_at, boundary_lem, pages_of-pos,
}
use ram_vram_sharing.Platform.Windows.{
  PageState, absent, resident, dirty, VirtualMemory, Backend, is_absent, is_dirty_state, counted,
  set_states, any_dirty, Call, resolve, missing, is_dirty, classify, fill_pages, resolve_fault,
  perform, perform_all, serve, answer,
}
use ram_vram_sharing.Platform.Windows.Tracking.{weight, counted-Follows}
use ram_vram_sharing.Platform.Windows.Handler.{filled, filled_pages}

-- A callback that fills the page of the fault, as RemoteHeap::handle_fault does.
abbrev pub filler : {K : Type 0} → (ℕ → List ℕ) → ℕ → Bool → Backend K → List Call
filler fetch addr is_write b = resolve addr (some (fetch addr)) b.page_size ∷ []

-- The pages of the range of a page that is filled start with that page.
filled_page :
    (ps x : ℕ)
    → 0 < ps
    → ps + ps ≤ u64_mod
    → within (x * ps) (filled_pages ps (x * ps) ps * ps) (x * ps) ≡ true
filled_page ps x p h =
    let z = (boundary_lem ps x p).1 in
    let pos = pages_of-pos ps x ps p p h in
    let n : ℕ = pages_of ps (x * ps) ps in
    let some_ : (x * ps % ps + ps == 0) ≡ false = ground arith in
    let size = scale_le 1 n ps pos in rw some_ (ground (arith, size))

last_page :
    (ps addr : ℕ) (m : Regions PageState) {s : PageState}
    → state_of ps addr m ≡ some s
    → any_dirty ps addr 1 m ≡ is_dirty_state s
unfolding any_dirty
last_page ps addr m {s} e = ground arith

pub one_page :
    {K : Type 0} (ps x : ℕ) (b : Backend K) {s : PageState}
    → b.page_size ≡ ps
    → 0 < ps
    → ps + ps ≤ u64_mod
    → IsValid weight ps b.book
    → page_at ps x b.book.regions ≡ some s
    → is_dirty (x * ps) ps b ≡ is_dirty_state s
unfolding is_dirty any_dirty
one_page ps x b {s} e p h v known =
    let z = (boundary_lem ps x p).1 in
    let at_ = (boundary_lem ps x p).0 in
    let single : pages_of ps (x * ps) ps ≡ 1 =
      let small : (0 + ps + ps - 1) % u64_mod ≡ ps + ps - 1 = omega arith in
      rw (z, small) (div-eq_of_lt-le {k = 1} ps (omega arith) (omega arith)) in
    let here = state_of-page_at ps x b.book.regions p v.ordered ∙ known in
    subst
      (λ n.
        any_dirty n (x * ps / n * n) (rounds_of n (span_of n (x * ps) ps)) b.book.regions
        ≡ is_dirty_state s)
      (sym e)
      (rw (at_, span_lem ps (x * ps) ps, rounds_lem ps (pages_of ps (x * ps) ps) p, single)
        (last_page ps (x * ps) b.book.regions here))

kind : (is_write : Bool) → is_dirty_state (if is_write then dirty else resident) ≡ is_write
unfolding is_dirty_state
kind true = refl
kind false = refl

classify_absent :
    {K : Type 0} (x : ℕ) (b : Backend K)
    → 0 < b.page_size
    → IsValid weight b.page_size b.book
    → page_at b.page_size x b.book.regions ≡ some absent
    → classify (x * b.page_size) b ≡ missing
unfolding classify is_absent
classify_absent x b p v e =
    ground (arith, state_of-page_at b.page_size x b.book.regions p v.ordered)

module _ {K : Type 0} (vm : VirtualMemory K) where
  resolve_page :
      (x : ℕ) (bytes : List ℕ) (b : Backend K)
      → 0 < x
      → 0 < b.page_size
      → ((a n : ℕ) (k : K) → (vm.commit a n k).1 ≡ true)
      → let n = filled_pages b.page_size (x * b.page_size) b.page_size * b.page_size in
        resolve_fault vm (x * b.page_size) (some bytes) b.page_size b
        ≡ fill_pages vm
            (x * b.page_size)
            n
            (x * b.page_size)
            (some bytes)
            b.page_size
            (record b { kernel = (vm.commit (x * b.page_size) n b.kernel).0 })
  unfolding resolve_fault
  resolve_page x bytes b q p commits =
      let ps = b.page_size in
      let n = filled_pages ps (x * ps) ps * ps in
      let given : (x * ps == 0) ≡ false = ground (arith, scale_le 1 x ps q) in
      rw (given, (boundary_lem ps x p).0, round_up_lem (filled ps (x * ps) ps) ps)
        (rw (commits (x * ps) n b.kernel))

  -- A page that is filled gets the state that the kind of the fault asks for.
  filled_state :
      (x : ℕ) (bytes : List ℕ) (b : Backend K) {s : PageState}
      → 0 < x
      → 0 < b.page_size
      → b.page_size + b.page_size ≤ u64_mod
      → IsValid weight b.page_size b.book
      → page_at b.page_size x b.book.regions ≡ some s
      → ((a n : ℕ) (k : K) → (vm.commit a n k).1 ≡ true)
      → ((a n : ℕ) (k : K) → (vm.protect_readonly a n k).1 ≡ true)
      → (page_at b.page_size x
            (resolve_fault vm (x * b.page_size) (some bytes) b.page_size b).book.regions
          ≡ some (if b.in_write_fault then dirty else resident))
        × IsValid weight b.page_size
            (resolve_fault vm (x * b.page_size) (some bytes) b.page_size b).book
        × ((resolve_fault vm (x * b.page_size) (some bytes) b.page_size b).resolved ≡ true)
        × ((resolve_fault vm (x * b.page_size) (some bytes) b.page_size b).page_size ≡ b.page_size)
  unfolding fill_pages set_states
  filled_state x bytes b q p h v known commits protects =
      let ps = b.page_size in
      let n = filled_pages ps (x * ps) ps in
      let hit = filled_page ps x p h in
      let k' = (vm.commit (x * ps) (n * ps) b.kernel).0 in
      let d =
        for_each_page_lem weight (λ _. dirty) (counted dirty) (counted-Follows dirty refl) ps p x n
          b.book v in
      let r =
        for_each_page_lem weight (λ _. resident) (counted resident) (counted-Follows resident refl)
          ps p x n b.book v in
      rw (resolve_page x bytes b q p commits) (elim (Bool-cases b.in_write_fault) [
        | inl store ↦ rw store (ground (arith, d.1 x, hit), d.0, refl, refl)
        | inr load ↦ rw (load, protects) (ground (arith, r.1 x, hit), r.0, refl, refl)
      ])

  -- The handler of one thread, behind its look at the state.
  serve_state :
      (fetch : ℕ → List ℕ) (x : ℕ) (is_write : Bool) (b : Backend K) {s : PageState}
      → 0 < x
      → 0 < b.page_size
      → b.page_size + b.page_size ≤ u64_mod
      → IsValid weight b.page_size b.book
      → page_at b.page_size x b.book.regions ≡ some s
      → ((a n : ℕ) (k : K) → (vm.commit a n k).1 ≡ true)
      → ((a n : ℕ) (k : K) → (vm.protect_readonly a n k).1 ≡ true)
      → let (b', done) = answer vm (some (filler fetch)) missing (x * b.page_size) is_write b in
        (done ≡ true)
        × (page_at b.page_size x b'.book.regions ≡ some (if is_write then dirty else resident))
        × IsValid weight b.page_size b'.book
        × (b'.page_size ≡ b.page_size)
  unfolding answer serve perform_all perform
  serve_state fetch x is_write b {s} q p h v known commits protects =
      let b1 : Backend K = record b { in_write_fault = is_write; resolved = false } in
      let r = filled_state x (fetch (x * b.page_size)) b1 {s = s} q p h v known commits protects in
      (r.2, r.0, r.1, r.3)

  -- After the handler of a fault on page `x`, for the page size `ps`.
  abbrev Served : (ℕ → List ℕ) → ℕ → ℕ → Bool → Backend K → Type 0
  Served fetch ps x is_write b =
      let b' = (answer vm (some (filler fetch)) missing (x * ps) is_write b).0 in
      (page_at ps x b'.book.regions ≡ some (if is_write then dirty else resident))
      × IsValid weight ps b'.book
      × (b'.page_size ≡ ps)

  serve_lem :
      (fetch : ℕ → List ℕ) (ps x : ℕ) (is_write : Bool) (b : Backend K) {s : PageState}
      → b.page_size ≡ ps
      → 0 < x
      → 0 < ps
      → ps + ps ≤ u64_mod
      → IsValid weight ps b.book
      → page_at ps x b.book.regions ≡ some s
      → ((a n : ℕ) (k : K) → (vm.commit a n k).1 ≡ true)
      → ((a n : ℕ) (k : K) → (vm.protect_readonly a n k).1 ≡ true)
      → Served fetch ps x is_write b
  serve_lem fetch ps x is_write b {s} e q p h v known commits protects =
      let back = sym e in
      let r =
        serve_state fetch x is_write b {s = s} q (subst (λ z. 0 < z) back p)
          (subst (λ z. z + z ≤ u64_mod) back h) (subst (λ z. IsValid weight z b.book) back v)
          (subst (λ z. page_at z x b.book.regions ≡ some s) back known) commits protects in
      subst (λ z. Served fetch z x is_write b) e (r.1, r.2, r.3)

  -- On Windows a store is lost when two threads touch an absent page at once. Both look at the page
  -- before it is there, so both have it fetched. The first trap, of a store, leaves the page dirty,
  -- and its thread writes to it. Then the second trap, of a load, fills the page once more, and
  -- leaves it as one that was never written: `is_dirty` no longer reports it, in a range of that
  -- page. The system is assumed to grant each call.
  pub stores_lost :
      (fetch : ℕ → List ℕ) (x : ℕ) (b : Backend K) (after : K)
      → 0 < x
      → 0 < b.page_size
      → b.page_size + b.page_size ≤ u64_mod
      → IsValid weight b.page_size b.book
      → page_at b.page_size x b.book.regions ≡ some absent
      → ((a n : ℕ) (k : K) → (vm.commit a n k).1 ≡ true)
      → ((a n : ℕ) (k : K) → (vm.protect_readonly a n k).1 ≡ true)
      → let found = classify (x * b.page_size) b in
        let b1 = (answer vm (some (filler fetch)) found (x * b.page_size) true b).0 in
        let written = record b1 { kernel = after } in
        let b2 = (answer vm (some (filler fetch)) found (x * b.page_size) false written).0 in
        (is_dirty (x * b.page_size) b.page_size written ≡ true)
        × (is_dirty (x * b.page_size) b.page_size b2 ≡ false)
  stores_lost fetch x b after q p h v e commits protects =
      let ps = b.page_size in
      let found = classify_absent x b p v e in
      let b1 = (answer vm (some (filler fetch)) missing (x * ps) true b).0 in
      let r1 = serve_lem fetch ps x true b refl q p h v e commits protects in
      let b1' : Backend K = record b1 { kernel = after } in
      let r2 = serve_lem fetch ps x false b1' r1.2 q p h r1.1 r1.0 commits protects in
      let b2 = (answer vm (some (filler fetch)) missing (x * ps) false b1').0 in
      rw found (
        one_page ps x b1' r1.2 p h r1.1 r1.0 ∙ kind true,
        one_page ps x b2 r2.2 p h r2.1 r2.0 ∙ kind false,
      )
