-- ===== src/Platform/Linux/Refault.antt =====
-- Linux: a second fault on a page that is there.
use mathlib.Core.Option
use native.Mathlib.Nat.{div-eq_of_lt-le}
use ram_vram_sharing.Prelude.{
  ℕ, ◌+◌, ◌-◌, ◌*◌, ◌%◌, ◌≤◌, ◌<◌, ◌≡◌, refl, ◌∙◌, Bool, true, false, Option, none, some, List, [],
  ◌∷◌, arith, ◌==◌, u64_mod,
}
use ram_vram_sharing.Memory.Raw.{Bytes}
use ram_vram_sharing.Platform.Pages.{Book, for_each_page}
use ram_vram_sharing.Platform.Pages.Layout.{page_at, scale_le}
use ram_vram_sharing.Platform.Pages.Visit.{IsValid, Follows}
use ram_vram_sharing.Platform.Pages.Range.{
  pages_of, span_lem, rounds_lem, within, for_each_page_lem, state_of-page_at, boundary_lem,
  pages_of-pos,
}
use ram_vram_sharing.Platform.Linux.{
  Userfault, Backend, counted, mark_resident, any_resident, Call, resolve, staged, is_dirty,
  resolve_fault, zero_page, perform, perform_all, on_page_fault,
}

abbrev pub weight : Bool → ℕ
weight true = 1
weight false = 0

counted-Follows : (s : Bool) → Follows weight (λ _. s) (counted s)
unfolding counted
counted-Follows true true n h = omega arith
counted-Follows true false n h = omega arith
counted-Follows false true n h = ground arith
counted-Follows false false n h = omega arith

-- A callback that fills the page of the fault, as RemoteHeap::handle_fault does.
abbrev pub filler : {K : Type 0} → (ℕ → List ℕ) → ℕ → Bool → Backend K → List Call
filler fetch addr is_write b = resolve addr (some (fetch addr)) b.page_size ∷ []

-- The documented behaviour: a page that is there is neither copied over nor zeroed (EEXIST). It
-- stays, and the call, which ends at its first page, leaves all bytes as they were.
pub record Exclusive {K : Type 0} (os : Userfault K) : Type 0 where
  pub copy_refused :
      (x n : ℕ) (s : Bytes) (k : K)
      → os.present x k ≡ true
      → ((os.copy x n s k).1 ≡ false)
        × (os.present x (os.copy x n s k).0 ≡ true)
        × ((y : ℕ) → os.byte_at y (os.copy x n s k).0 ≡ os.byte_at y k)
  pub zeropage_refused :
      (x n : ℕ) (k : K)
      → os.present x k ≡ true
      → ((os.zeropage x n k).1 ≡ false)
        × (os.present x (os.zeropage x n k).0 ≡ true)
        × ((y : ℕ) → os.byte_at y (os.zeropage x n k).0 ≡ os.byte_at y k)

one_unit : (n : ℕ) → 1 * n ≡ n
one_unit n = omega arith

-- A range that was marked and unmarked.
abbrev unmarked : ℕ → ℕ → ℕ → Book Bool → Book Bool
unmarked ps a n k = mark_resident ps a n false (mark_resident ps a n true k)

unmarked_lem :
    (ps x n : ℕ) (k : Book Bool) {s : Bool}
    → 0 < ps
    → 0 < n
    → IsValid weight ps k
    → page_at ps x k.regions ≡ some s
    → IsValid weight ps (unmarked ps (x * ps) (n * ps) k)
      × (page_at ps x (unmarked ps (x * ps) (n * ps) k).regions ≡ some false)
unfolding mark_resident
unmarked_lem ps x n k {s} p h v e =
    let t =
      for_each_page_lem weight (λ _. true) (counted true) (counted-Follows true) ps p x n k v in
    let f =
      for_each_page_lem weight (λ _. false) (counted false) (counted-Follows false) ps p x n
        (for_each_page (λ _. true) (counted true) ps (x * ps) (n * ps) k) t.0 in
    let hit : within (x * ps) (n * ps) (x * ps) ≡ true = ground (arith, scale_le 1 n ps h) in
    (f.0, ground (arith, f.1 x, t.1 x, hit))

single_lem : (ps x : ℕ) → 0 < ps → ps + ps ≤ u64_mod → pages_of ps (x * ps) ps ≡ 1
single_lem ps x p h =
    let small : (0 + ps + ps - 1) % u64_mod ≡ ps + ps - 1 = omega arith in
    rw ((boundary_lem ps x p).1, small) (div-eq_of_lt-le {k = 1} ps (omega arith) (omega arith))

one_page :
    {K : Type 0} (x : ℕ) (b : Backend K) {s : Bool}
    → 0 < b.page_size
    → b.page_size + b.page_size ≤ u64_mod
    → IsValid weight b.page_size b.book
    → page_at b.page_size x b.book.regions ≡ some s
    → is_dirty (x * b.page_size) b.page_size b ≡ s
unfolding is_dirty any_resident
one_page x b {s} p h v known =
    let ps = b.page_size in
    let here = state_of-page_at ps x b.book.regions p v.ordered ∙ known in
    let n = pages_of ps (x * ps) ps in
    rw ((boundary_lem ps x p).0, span_lem ps (x * ps) ps, rounds_lem ps n p, single_lem ps x p h)
      (ground (arith, here))

module _ {K : Type 0} (os : Userfault K) where
  resolve_refused :
      (x : ℕ) (bytes : List ℕ) (b : Backend K)
      → Exclusive os
      → b.supported ≡ true
      → 0 < x
      → 0 < b.page_size
      → os.present (x * b.page_size) b.kernel ≡ true
      → let ps = b.page_size in
        let n = pages_of ps (x * ps) ps * ps in
        resolve_fault os (x * ps) (some bytes) ps b ≡ record b {
          kernel = (os.copy (x * ps) n (staged (x * ps % ps) (some bytes) ps) b.kernel).0;
          book = unmarked ps (x * ps) n b.book;
        }
  unfolding resolve_fault
  resolve_refused x bytes b law on q p there =
      let ps = b.page_size in
      let n = pages_of ps (x * ps) ps * ps in
      let given : (x * ps == 0) ≡ false = ground (arith, scale_le 1 x ps q) in
      let some_ : (x * ps % ps + ps == 0) ≡ false = ground arith in
      let refused =
        law.copy_refused (x * ps) n (staged (x * ps % ps) (some bytes) ps) b.kernel there in
      rw
        (
          resolve_fault,
          on,
          given,
          some_,
          (boundary_lem ps x p).0,
          span_lem ps (x * ps) ps,
          refused.0,
        )
        refl

  zero_refused :
      (x : ℕ) (b : Backend K)
      → Exclusive os
      → 0 < b.page_size
      → os.present (x * b.page_size) b.kernel ≡ true
      → let ps = b.page_size in
        zero_page os (x * ps) b ≡ record b {
          kernel = (os.zeropage (x * ps) ps b.kernel).0;
          book = unmarked ps (x * ps) ps b.book;
        }
  unfolding zero_page
  zero_refused x b law p there =
      let ps = b.page_size in
      let refused = law.zeropage_refused (x * ps) ps b.kernel there in
      rw (zero_page, (boundary_lem ps x p).0, refused.0) refl

  -- After zero_page on a page that is there.
  zeroed_lost :
      (x : ℕ) (b : Backend K) {s : Bool}
      → Exclusive os
      → 0 < b.page_size
      → b.page_size + b.page_size ≤ u64_mod
      → IsValid weight b.page_size b.book
      → page_at b.page_size x b.book.regions ≡ some s
      → os.present (x * b.page_size) b.kernel ≡ true
      → (os.present (x * b.page_size) (zero_page os (x * b.page_size) b).kernel ≡ true)
        × ((y : ℕ) → os.byte_at y (zero_page os (x * b.page_size) b).kernel ≡ os.byte_at y b.kernel)
        × (is_dirty (x * b.page_size) b.page_size (zero_page os (x * b.page_size) b) ≡ false)
  zeroed_lost x b {s} law p h v e there =
      let ps = b.page_size in
      let m = rw (one_unit ps) at (unmarked_lem ps x 1 b.book {s = s} p (omega arith) v e) in
      let b' : Backend K = record b {
        kernel = (os.zeropage (x * ps) ps b.kernel).0;
        book = unmarked ps (x * ps) ps b.book;
      } in
      rw (zero_refused x b law p there) (
        (law.zeropage_refused (x * ps) ps b.kernel there).1,
        (law.zeropage_refused (x * ps) ps b.kernel there).2,
        one_page x b' p h m.0 m.1,
      )

  -- On Linux a second fault on a page that is there, as two threads raise that touch an absent page
  -- at once, makes the backend forget the page: it was one that `is_dirty` reports, as each resident
  -- page is, and after the message it is still there, no byte of the memory has changed, and it is
  -- no longer reported. This holds for a callback that fills the page of the fault, and where there
  -- is none. A copy to a page that is there, or its zeroing, is assumed to fail and to leave the
  -- pages and their bytes as they were.
  pub refault_lost :
      (fetch : Option (ℕ → List ℕ)) (x : ℕ) (is_write : Bool) (b : Backend K)
      → Exclusive os
      → b.supported ≡ true
      → 0 < x
      → 0 < b.page_size
      → b.page_size + b.page_size ≤ u64_mod
      → IsValid weight b.page_size b.book
      → page_at b.page_size x b.book.regions ≡ some true
      → os.present (x * b.page_size) b.kernel ≡ true
      → let b' = on_page_fault os (Option.map filler fetch) (x * b.page_size) is_write b in
        (is_dirty (x * b.page_size) b.page_size b ≡ true)
        × (os.present (x * b.page_size) b'.kernel ≡ true)
        × ((y : ℕ) → os.byte_at y b'.kernel ≡ os.byte_at y b.kernel)
        × (is_dirty (x * b.page_size) b.page_size b' ≡ false)
  unfolding on_page_fault perform_all perform
  refault_lost none x is_write b law on q p h v e there =
      let b1 : Backend K = record b { resolved = false } in
      let z = zeroed_lost x b1 {s = true} law p h v e there in (one_page x b p h v e, z.0, z.1, z.2)
  refault_lost (some fetch) x is_write b law on q p h v e there =
      let ps = b.page_size in
      let n = pages_of ps (x * ps) ps in
      let bytes = fetch (x * ps) in
      let image = staged (x * ps % ps) (some bytes) ps in
      let b1 : Backend K = record b { resolved = false } in
      let r = resolve_refused x bytes b1 law on q p there in
      let b2 : Backend K = record b1 {
        kernel = (os.copy (x * ps) (n * ps) image b.kernel).0;
        book = unmarked ps (x * ps) (n * ps) b.book;
      } in
      let m = unmarked_lem ps x n b.book {s = true} p (pages_of-pos ps x ps p p h) v e in
      let still = (law.copy_refused (x * ps) (n * ps) image b.kernel there).1 in
      let same = (law.copy_refused (x * ps) (n * ps) image b.kernel there).2 in
      let z = zeroed_lost x b2 {s = false} law p h m.0 m.1 still in
      (one_page x b p h v e, rw r z.0, λ y. rw r (z.1 y ∙ same y), rw r z.2)
