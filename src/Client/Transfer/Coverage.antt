-- ===== src/Client/Transfer/Coverage.antt =====
-- The loops of write_remote and read_remote against one walk over the stripes that works out the
-- part of the range in each stripe by itself.
use ram_vram_sharing.Prelude.{
  ℕ, suc, ◌+◌, ◌-◌, ◌≤◌, ◌<◌, min, max, ◌≡◌, refl, sym, ap, ◌∙◌, ◌⊎◌, inl, inr, true, false, some,
  List, [], ◌∷◌, arith, ltb, leb, if◌then◌else◌, Bool-cases, length, take, drop,
}
use ram_vram_sharing.Memory.Raw.{Result, ok, throw}
use ram_vram_sharing.Client.Act.{Act, continue, ◌>>◌, pure}
use ram_vram_sharing.Client.Link.{Reply, World, Link, write_request, sync_remote_call}
use ram_vram_sharing.Client.Remote.{Stripe, striped, placed_as}
use ram_vram_sharing.Client.Remote.Placed.{Tiles}
use ram_vram_sharing.Client.Transfer.{
  in_stripe, rethrow, after_pass, write_pass, write_rounds, write_remote,
}

-- The first byte that a range from `offset` on shares with a stripe, and the end of what they share.
abbrev pub shared_from : ℕ → Stripe → ℕ
shared_from offset s = max offset s.offset

abbrev pub shared_to : ℕ → ℕ → Stripe → ℕ
shared_to offset size s = min (offset + size) (s.offset + s.length)

abbrev pub shared : ℕ → ℕ → Stripe → ℕ
shared offset size s = shared_to offset size s - shared_from offset s

-- The part of `bytes`, which belong at `offset`, that goes to a stripe.
abbrev pub part_of : ℕ → List ℕ → Stripe → List ℕ
part_of offset bytes s =
    take (shared offset (length bytes) s) (drop (shared_from offset s - offset) bytes)

pub continue-continue :
    {S A B C : Type 0} (r : S × Result A) (f : A → Act S B) (g : B → Act S C)
    → continue (continue r f) g ≡ continue r (λ a s. continue (f a s) g)
continue-continue (s, ok a) f g = refl
continue-continue (s, throw e) f g = refl

pub continue_cong :
    {S A B : Type 0} (r : S × Result A) (f g : A → Act S B)
    → ((a : A) (s : S) → f a s ≡ g a s)
    → continue r f ≡ continue r g
continue_cong (s, ok a) f g h = h a s
continue_cong (s, throw e) f g h = refl

-- What the loops do at a stripe, when `done` bytes of `size` are moved.
abbrev pub Visit : ℕ → ℕ → ℕ → Stripe → Type 0
Visit offset size done s =
    let at = offset + done - s.offset in
    let n = min (size - done) (s.length - at) in
    (leb size done ≡ false)
    × (((in_stripe (offset + done) s ≡ true)
          × (ltb 0 (shared offset size s) ≡ true)
          × (at ≡ shared_from offset s - s.offset)
          × (n ≡ shared offset size s)
          × (done ≡ shared_from offset s - offset)
          × (done + n ≡ min size (s.offset + s.length - offset)))
        ⊎ ((in_stripe (offset + done) s ≡ false)
            × (ltb 0 (shared offset size s) ≡ false)
            × (done ≡ min size (s.offset + s.length - offset))))

-- The walk has moved what stands before the stripe: then the stripe is passed, or its part is next.
pub Visit-cases :
    (offset size done : ℕ) (s : Stripe)
    → 0 < s.length
    → done ≡ min size (s.offset - offset)
    → (size ≤ s.offset - offset) ⊎ Visit offset size done s
Visit-cases offset size done s some_bytes e = elim (Bool-cases (leb size (s.offset - offset))) [
  | inl past ↦ inl (ground arith)
  | inr more ↦ elim (Bool-cases (ltb offset (s.offset + s.length))) [
    | inl inside ↦
        let moved : done ≡ s.offset - offset = ground arith in
        inr (
          ground arith,
          inl (ground arith, ground arith, ground arith, ground arith, ground arith, ground arith),
        )
    | inr outside ↦ inr (ground arith, inr (ground arith, ground arith, ground arith))
  ]
]

module _ {W : Type 0} (net : World W) where
  -- Each stripe that shares bytes with the range is sent them, once, in the order of the stripes.
  unfoldable pub write_each : List Stripe → ℕ → List ℕ → Act (Link W) (Unit {0})
  write_each [] offset bytes = pure tt
  write_each (s ∷ ss) offset bytes =
      let rest = write_each ss offset bytes in
      let at = shared_from offset s - s.offset in
      let here = do
        rethrow (
            sync_remote_call net s.peer (write_request s.remote_handle at (part_of offset bytes s)))
        rest
      in if ltb 0 (shared offset (length bytes) s) then here else rest

  write_each_past :
      (from to : ℕ) (ss : List Stripe) (offset : ℕ) (bytes : List ℕ) (l : Link W)
      → Tiles from to ss
      → length bytes ≤ from - offset
      → write_each ss offset bytes l ≡ (l, ok tt)
  unfolding write_each
  write_each_past from to [] offset bytes l t past = refl
  write_each_past from to (s ∷ ss) offset bytes l t past =
      let passed : ltb 0 (shared offset (length bytes) s) ≡ false = ground (arith, t.0) in
      rw passed (write_each_past (from + s.length) to ss offset bytes l t.2 (omega (arith, t.0)))

  write_pass_past :
      (ss : List Stripe) (offset : ℕ) (bytes : List ℕ) (done : ℕ) (l : Link W)
      → length bytes ≤ done
      → write_pass net ss offset bytes done l ≡ (l, ok done)
  unfolding write_pass
  write_pass_past [] offset bytes done l past = refl
  write_pass_past (s ∷ ss) offset bytes done l past =
      let full : leb (length bytes) done ≡ true = ground arith in rw full refl

  write_pass_lem :
      (from to : ℕ) (ss : List Stripe) (offset : ℕ) (bytes : List ℕ) (done : ℕ) (l : Link W)
      → Tiles from to ss
      → offset + length bytes ≤ to
      → done ≡ min (length bytes) (from - offset)
      → write_pass net ss offset bytes done l
        ≡ continue (write_each ss offset bytes l) (λ _. pure (length bytes))
  unfolding write_pass write_each
  write_pass_lem from to [] offset bytes done l t room e = ground (arith, t)
  write_pass_lem from to (s ∷ ss) offset bytes done l t room e =
      elim (Visit-cases offset (length bytes) done s t.1 (omega (arith, e, t.0))) [
        | inl past ↦
            let none_shared : ltb 0 (shared offset (length bytes) s) ≡ false =
              ground (arith, t.0) in
            let full : leb (length bytes) done ≡ true = ground (arith, t.0) in
            rw
              (
                full,
                none_shared,
                write_each_past (from + s.length) to ss offset bytes l t.2 (omega (arith, t.0)),
              )
              (ap (λ d. (l, ok d)) (ground (arith, e, t.0)))
        | inr (more, inl (inside, some_shared, e1, e2, e3, next)) ↦
            let at = offset + done - s.offset in
            let n = min (length bytes - done) (s.length - at) in
            let send : ℕ → List ℕ → Link W × Result Reply = λ at part.
              rethrow (sync_remote_call net s.peer (write_request s.remote_handle at part)) l in
            let part : take n (drop done bytes) ≡ part_of offset bytes s =
              ap (λ m. take m (drop done bytes)) e2
              ∙ ap (λ d. take (shared offset (length bytes) s) (drop d bytes)) e3 in
            let sent : send at (take n (drop done bytes))
                ≡ send (shared_from offset s - s.offset) (part_of offset bytes s) =
              ap (λ a. send a (take n (drop done bytes))) e1
              ∙ ap (send (shared_from offset s - s.offset)) part in
            rw (more, inside, some_shared)
              (continue_cong (send at (take n (drop done bytes))) _ _ (λ u l'.
                  write_pass_lem (from + s.length) to ss offset bytes (done + n) l' t.2 room
                    (omega (arith, next, t.0)))
                ∙ ap
                    (λ r.
                      continue r (λ u l'.
                        continue (write_each ss offset bytes l') (λ v. pure (length bytes))))
                    sent
                ∙ sym (
                    continue-continue
                      (send (shared_from offset s - s.offset) (part_of offset bytes s))
                      (λ u. write_each ss offset bytes) (λ v. pure (length bytes))))
        | inr (more, inr (outside, none_shared, next)) ↦
            rw (more, outside, none_shared)
              (write_pass_lem (from + s.length) to ss offset bytes done l t.2 room
                (omega (arith, next, t.0)))
      ]

  -- A round that moves every byte is the last.
  end_round :
      (f : ℕ) (ss : List Stripe) (offset : ℕ) (bytes : List ℕ) (r : Link W × Result (Unit {0}))
      (p : Link W × Result ℕ)
      → p ≡ continue r (λ u. pure (length bytes))
      → after_pass (λ done l. write_rounds net (suc f) ss offset bytes done l) p ≡ some r
  unfolding write_rounds
  end_round f ss offset bytes (l, throw e) p q = rw q refl
  end_round f ss offset bytes (l, ok tt) p q =
      let over : ltb (length bytes) (length bytes) ≡ false = ground arith in rw (q, over) refl

  -- `write_remote` of a range inside a block in stripes ends, and is the walk that sends each stripe
  -- its part of the bytes: what the peers are sent, in which order, and how it fails.
  pub write_remote-write_each :
      (size : ℕ) (ss : List Stripe) (offset : ℕ) (bytes : List ℕ) (l : Link W)
      → Tiles 0 size ss
      → offset + length bytes ≤ size
      → write_remote net (placed_as size (striped ss)) offset bytes l
        ≡ some (write_each ss offset bytes l)
  unfolding write_remote write_rounds
  write_remote-write_each size ss offset [] l t room =
      ap some (sym (write_each_past 0 size ss offset [] l t (omega arith)))
  write_remote-write_each size ss offset (b ∷ bs) l t room =
      let more : ltb 0 (suc (length bs)) ≡ true = ground arith in
      rw more (
        end_round (length bs) ss offset (b ∷ bs) (write_each ss offset (b ∷ bs) l)
          (write_pass net ss offset (b ∷ bs) 0 l)
          (write_pass_lem 0 size ss offset (b ∷ bs) 0 l t room (omega arith)))
