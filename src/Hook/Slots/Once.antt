-- ===== src/Hook/Slots/Once.antt =====
-- hook/meminfo_hook.cpp: the slots over several scans.
use ram_vram_sharing.Prelude.{
  ℕ, ◌+◌, ◌≤◌, ◌≡◌, refl, ap, inl, inr, Bool, true, false, List, [], ◌∷◌, ◌++◌, arith, leb, ◌==◌,
  if◌then◌else◌, Bool-cases, length, length-append, count,
}
use ram_vram_sharing.Hook.Slots.{
  crt_modules, max_slots, Scan, Slots, no_slots, fill_slot, occupies, find_new, attach_new,
  scan_and_attach, scan_all,
}

abbrev pub names : List (ℕ × Bool) → List ℕ
names [] = []
names ((m, taken) ∷ s) = m ∷ names s

-- The slots that wait to be attached.
abbrev waiting : ℕ → List (ℕ × Bool) → ℕ
waiting m [] = 0
waiting m ((n, taken) ∷ s) = (if taken then 0 else if n == m then 1 else 0) + waiting m s

-- Between two scans every slot has been attached once, and no module has two slots.
pub record IsSettled (g : Slots) : Type 0 where
  pub few : length g.slots ≤ max_slots
  pub distinct : (m : ℕ) → count m (names g.slots) ≤ 1
  pub once : (m : ℕ) → count m g.attached ≡ count m (names g.slots)
  pub all_taken : (m : ℕ) → waiting m g.slots ≡ 0

not_occupied : (m : ℕ) (s : List (ℕ × Bool)) → occupies m s ≡ false → count m (names s) ≡ 0
unfolding occupies
not_occupied m [] h = refl
not_occupied m ((n, t) ∷ s) h = ground (arith, not_occupied m s)

count-names-append :
    (m n : ℕ) (s : List (ℕ × Bool))
    → count m (names (s ++ (n, false) ∷ [])) ≡ count m (names s) + (if n == m then 1 else 0)
count-names-append m n [] = omega arith
count-names-append m n ((k, t) ∷ s) = omega (arith, count-names-append m n s)

waiting-append :
    (m n : ℕ) (s : List (ℕ × Bool))
    → waiting m (s ++ (n, false) ∷ []) ≡ waiting m s + (if n == m then 1 else 0)
waiting-append m n [] = omega arith
waiting-append m n ((k, t) ∷ s) = omega (arith, waiting-append m n s)

-- What a scan finds: new modules wait, the others do not.
record Found (s s' : List (ℕ × Bool)) : Type 0 where
  few : length s' ≤ max_slots
  distinct : (m : ℕ) → count m (names s') ≤ 1
  waits : (m : ℕ) → waiting m s' + count m (names s) ≡ count m (names s') + waiting m s
  longer : length s ≤ length s'
  same : length s' ≡ length s → s' ≡ s

find_new-Found :
    (e : Scan) (ms : List ℕ) (s : List (ℕ × Bool))
    → length s ≤ max_slots
    → ((m : ℕ) → count m (names s) ≤ 1)
    → Found s (find_new e ms s)
unfolding find_new
find_new-Found e [] s f d = record {
  few = f;
  distinct = d;
  waits = λ m. omega arith;
  longer = omega arith;
  same = λ _. refl;
}
find_new-Found e (m ∷ ms) s f d = elim (Bool-cases (leb max_slots (length s))) [
  | inl full ↦ rw full (record {
    few = f;
    distinct = d;
    waits = λ m. omega arith;
    longer = omega arith;
    same = λ _. refl;
  })
  | inr room ↦ rw room (elim (Bool-cases (occupies m s)) [
    | inl there ↦ rw there (find_new-Found e ms s f d)
    | inr new ↦ rw new (elim (Bool-cases (fill_slot e m)) [
      | inr bad ↦ rw bad (find_new-Found e ms s f d)
      | inl good ↦ rw good (
          let ih =
            find_new-Found e ms (s ++ (m, false) ∷ [])
              (ground (arith, length-append s ((m, false) ∷ [])))
              (λ x. ground (arith, count-names-append x m s, d x, not_occupied m s new)) in
          record {
            few = ih.few;
            distinct = ih.distinct;
            waits = λ x. omega (arith, ih.waits x, count-names-append x m s, waiting-append x m s);
            longer = omega (arith, ih.longer, length-append s ((m, false) ∷ []));
            same = λ h. absurd (omega (arith, ih.longer, length-append s ((m, false) ∷ [])));
          })
    ])
  ])
]

attach_new_lem :
    (e : Scan) (m : ℕ) (s : List (ℕ × Bool)) (done : List ℕ)
    → (names (attach_new e s done).0.0 ≡ names s)
      × (waiting m (attach_new e s done).0.0 ≡ 0)
      × (count m (attach_new e s done).0.1 ≡ count m done + waiting m s)
      × (length (attach_new e s done).0.0 ≡ length s)
unfolding attach_new
attach_new_lem e m [] done = (refl, refl, omega arith, refl)
attach_new_lem e m ((n, true) ∷ s) done =
    let (a, b, c, d) = attach_new_lem e m s done in
    (ap (λ l. n ∷ l) a, omega (arith, b), omega (arith, c), omega (arith, d))
attach_new_lem e m ((n, false) ∷ s) done =
    let (a, b, c, d) = attach_new_lem e m s (n ∷ done) in
    (ap (λ l. n ∷ l) a, omega (arith, b), omega (arith, c), omega (arith, d))

scan_and_attach-IsSettled : (e : Scan) (g : Slots) → IsSettled g → IsSettled (scan_and_attach e g).0
unfolding scan_and_attach
scan_and_attach-IsSettled e g v =
    let found = find_new-Found e crt_modules g.slots v.few v.distinct in
    let s : List (ℕ × Bool) = find_new e crt_modules g.slots in
    elim (Bool-cases (length s == length g.slots)) [
      | inl old ↦ rw old (rw (found.same (ground arith)) v)
      | inr new ↦ rw new (
          let after = attach_new_lem e 0 s g.attached in
          record {
            few = omega (arith, after.3, found.few);
            distinct = λ m. rw after.0 (found.distinct m);
            once = λ m. rw after.0 (
                omega (
                  arith,
                  (attach_new_lem e m s g.attached).2,
                  found.waits m,
                  v.once m,
                  v.all_taken m,
                ));
            all_taken = λ m. (attach_new_lem e m s g.attached).1;
          })
    ]

scan_all-IsSettled : (es : List Scan) (g : Slots) → IsSettled g → IsSettled (scan_all es g)
unfolding scan_all
scan_all-IsSettled [] g v = v
scan_all-IsSettled (e ∷ es) g v =
    scan_all-IsSettled es (scan_and_attach e g).0 (scan_and_attach-IsSettled e g v)

-- Whatever the loader and Detours answer, after any scans at most four names of kCrtModules have
-- slots, no name has two, and attach_slot has been called exactly once for each that has one and for
-- no other.
pub scan_all_once :
    (es : List Scan)
    → (length (scan_all es no_slots).slots ≤ max_slots)
      × ((m : ℕ)
          → (count m (names (scan_all es no_slots).slots) ≤ 1)
            × (count m (scan_all es no_slots).attached
                ≡ count m (names (scan_all es no_slots).slots)))
scan_all_once es =
    let v = scan_all-IsSettled es no_slots (record {
      few = omega arith;
      distinct = λ m. omega arith;
      once = λ m. refl;
      all_taken = λ m. refl;
    }) in
    (v.few, λ m. (v.distinct m, v.once m))
