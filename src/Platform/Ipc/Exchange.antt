-- ===== src/Platform/Ipc/Exchange.antt =====
-- A request and its response over a connection that moves any number of bytes at a time.
use ram_vram_sharing.Prelude.{
  ℕ, zero, suc, ◌+◌, ◌-◌, ◌≤◌, min, ◌≡◌, refl, ap, ◌∙◌, true, false, List, [], ◌∷◌, ◌++◌, arith,
  ◌==◌, length, take, drop, length-drop,
}
use ram_vram_sharing.Platform.Ipc.{
  Outcome, moved, interrupted, failed, Read, read_exact, Written, write_exact,
}

-- The calls that move bytes before one fails.
abbrev pub steady : List Outcome → ℕ
steady [] = 0
steady (moved n ∷ os) = suc (steady os)
steady (interrupted ∷ os) = steady os
steady (failed ∷ os) = 0

module _ {A : Type 0} where
  pub take-length : (xs : List A) → take (length xs) xs ≡ xs
  take-length [] = refl
  take-length (x ∷ xs) = ap (λ l. x ∷ l) (take-length xs)

  take-append-drop : (k : ℕ) (xs : List A) → take k xs ++ drop k xs ≡ xs
  take-append-drop zero xs = refl
  take-append-drop (suc k) [] = refl
  take-append-drop (suc k) (x ∷ xs) = ap (λ l. x ∷ l) (take-append-drop k xs)

  take-nil : (n : ℕ) → take {A = A} n [] ≡ []
  take-nil zero = refl
  take-nil (suc n) = refl

  drop-nil : (n : ℕ) → drop {A = A} n [] ≡ []
  drop-nil zero = refl
  drop-nil (suc n) = refl

  take_split : (k n : ℕ) (xs : List A) → k ≤ n → take k xs ++ take (n - k) (drop k xs) ≡ take n xs
  take_split zero n xs h = ground arith
  take_split (suc k) zero xs h = absurd (omega arith)
  take_split (suc k) (suc n) [] h = take-nil (suc n - suc k)
  take_split (suc k) (suc n) (x ∷ xs) h =
      ground (arith, ap (λ l. x ∷ l) (take_split k n xs (omega arith)))

  drop_split : (k n : ℕ) (xs : List A) → k ≤ n → drop (n - k) (drop k xs) ≡ drop n xs
  drop_split zero n xs h = ground arith
  drop_split (suc k) zero xs h = absurd (omega arith)
  drop_split (suc k) (suc n) [] h = drop-nil (suc n - suc k)
  drop_split (suc k) (suc n) (x ∷ xs) h = ground (arith, drop_split k n xs (omega arith))

pub pos : (n : ℕ) → (suc n == 0) ≡ false
pos n = ground arith

-- A read that completes.
pub record ReadsAll (os : List Outcome) (len : ℕ) (incoming : List ℕ) (r : Read) : Type 0 where
  pub complete : r.complete ≡ true
  pub bytes : r.bytes ≡ take len incoming
  pub waiting : r.waiting ≡ drop len incoming
  pub left : steady os ≤ steady r.left + len

pub read_exact_lem :
    (os : List Outcome) (len : ℕ) (incoming : List ℕ)
    → len ≤ steady os
    → len ≤ length incoming
    → ReadsAll os len incoming (read_exact os len incoming)
unfolding read_exact
read_exact_lem [] zero inc h l = ground arith
read_exact_lem [] (suc len) inc h l = absurd (omega arith)
read_exact_lem (o ∷ os) zero inc h l = record {
  complete = refl;
  bytes = refl;
  waiting = refl;
  left = omega arith;
}
read_exact_lem (failed ∷ os) (suc len) inc h l = absurd (omega arith)
read_exact_lem (interrupted ∷ os) (suc len) inc h l =
    let ih = read_exact_lem os (suc len) inc h l in
    rw (pos len) (record {
      complete = ih.complete;
      bytes = ih.bytes;
      waiting = ih.waiting;
      left = omega (arith, ih.left);
    })
read_exact_lem (moved n ∷ os) (suc len) inc h l =
    let k = min (min (suc n) (suc len)) (length inc) in
    let ih =
      read_exact_lem os (suc len - k) (drop k inc) (omega arith)
        (omega (arith, length-drop k inc)) in
    let more : (k == 0) ≡ false = ground arith in
    rw (pos len, more)
      (record {
        complete = ih.complete;
        bytes = ap (λ l'. take k inc ++ l') ih.bytes ∙ take_split k (suc len) inc (omega arith);
        waiting = ih.waiting ∙ drop_split k (suc len) inc (omega arith);
        left = omega (arith, ih.left);
      })

pub record WritesAll (os : List Outcome) (source : List ℕ) (r : Written) : Type 0 where
  pub complete : r.complete ≡ true
  pub sent : r.sent ≡ source
  pub left : steady os ≤ steady r.left + length source

pub write_exact_lem :
    (os : List Outcome) (source : List ℕ)
    → length source ≤ steady os
    → WritesAll os source (write_exact os source)
unfolding write_exact
write_exact_lem [] [] h = record { complete = refl; sent = refl; left = omega arith }
write_exact_lem [] (x ∷ xs) h = absurd (omega arith)
write_exact_lem (o ∷ os) [] h = record { complete = refl; sent = refl; left = omega arith }
write_exact_lem (failed ∷ os) (x ∷ xs) h = absurd (omega arith)
write_exact_lem (interrupted ∷ os) (x ∷ xs) h =
    let ih = write_exact_lem os (x ∷ xs) h in
    rw (pos (length xs))
      (record { complete = ih.complete; sent = ih.sent; left = omega (arith, ih.left) })
write_exact_lem (moved n ∷ os) (x ∷ xs) h =
    let ih = write_exact_lem os (drop n xs) (omega (arith, length-drop n xs)) in
    let some_ = pos (length xs) in
    rw some_ (record {
      complete = ih.complete;
      sent = ap (λ l. x ∷ (take n xs ++ l)) ih.sent ∙ ap (λ l. x ∷ l) (take-append-drop n xs);
      left = omega (arith, ih.left, length-drop n xs);
    })
