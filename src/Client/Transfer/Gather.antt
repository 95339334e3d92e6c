-- ===== src/Client/Transfer/Gather.antt =====
-- The loops of read_remote against one walk over the stripes, as for writes.
use ram_vram_sharing.Prelude.{
  ℕ, zero, suc, ◌+◌, ◌-◌, ◌≤◌, min, ◌≡◌, refl, sym, ap, ◌∙◌, inl, inr, Bool, true, false, some,
  List, [], ◌∷◌, arith, ltb, leb, if◌then◌else◌,
}
use ram_vram_sharing.Memory.Raw.{Result, ok, throw}
use ram_vram_sharing.Client.Act.{Act, continue, ◌>>=◌, pure}
use ram_vram_sharing.Client.Link.{World, Link}
use ram_vram_sharing.Client.Remote.{Stripe, striped, placed_as}
use ram_vram_sharing.Client.Remote.Placed.{Tiles}
use ram_vram_sharing.Client.Transfer.{
  overwrite, zeros, rethrow, after_pass, read_part, read_pass, read_rounds, read_remote,
}
use ram_vram_sharing.Client.Transfer.Coverage.{
  shared_from, shared, continue-continue, continue_cong, Visit-cases,
}

module _ {W : Type 0} (net : World W) where
  -- Each stripe that shares bytes with the range is read, once, in the order of the stripes, and what
  -- it answers goes to its place in the result.
  pub read_each : List Stripe → ℕ → ℕ → Bool → List ℕ → Act (Link W) (List ℕ)
  read_each [] offset size release out = pure out
  read_each (s ∷ ss) offset size release out =
      let rest = read_each ss offset size release out in
      let at = shared_from offset s - s.offset in
      let here = do
        bytes ← rethrow (read_part net s.peer s.remote_handle at (shared offset size s) release)
        read_each ss offset size release (overwrite (shared_from offset s - offset) bytes out)
      in if ltb 0 (shared offset size s) then here else rest

  abbrev whole : ℕ → List ℕ → Act (Link W) (ℕ × List ℕ)
  whole size out = pure (size, out)

  read_each_past :
      (from to : ℕ) (ss : List Stripe) (offset size : ℕ) (release : Bool) (out : List ℕ)
      (l : Link W)
      → Tiles from to ss
      → size ≤ from - offset
      → read_each ss offset size release out l ≡ (l, ok out)
  unfolding read_each
  read_each_past from to [] offset size release out l t past = refl
  read_each_past from to (s ∷ ss) offset size release out l t past =
      let passed : ltb 0 (shared offset size s) ≡ false = ground (arith, t.0) in
      rw passed
        (read_each_past (from + s.length) to ss offset size release out l t.2 (omega (arith, t.0)))

  read_pass_lem :
      (from to : ℕ) (ss : List Stripe) (offset size : ℕ) (release : Bool) (done : ℕ) (out : List ℕ)
      (l : Link W)
      → Tiles from to ss
      → offset + size ≤ to
      → done ≡ min size (from - offset)
      → read_pass net ss offset size release done out l
        ≡ continue (read_each ss offset size release out l) (whole size)
  unfolding read_pass read_each
  read_pass_lem from to [] offset size release done out l t room e =
      ap (λ d. (l, ok (d, out))) (ground (arith, t))
  read_pass_lem from to (s ∷ ss) offset size release done out l t room e =
      elim (Visit-cases offset size done s t.1 (omega (arith, e, t.0))) [
        | inl past ↦
            let none_shared : ltb 0 (shared offset size s) ≡ false = ground (arith, t.0) in
            let full : leb size done ≡ true = ground (arith, t.0) in
            rw
              (
                full,
                none_shared,
                read_each_past (from + s.length) to ss offset size release out l t.2
                    (omega (arith, t.0)),
              )
              (ap (λ d. (l, ok (d, out))) (ground (arith, e, t.0)))
        | inr (more, inl (inside, some_shared, e1, e2, e3, next)) ↦
            let at = offset + done - s.offset in
            let n = min (size - done) (s.length - at) in
            let ask : ℕ → ℕ → Link W × Result (List ℕ) =
              λ at n. rethrow (read_part net s.peer s.remote_handle at n release) l in
            let at' = shared_from offset s - s.offset in
            let n' = shared offset size s in
            let asked : ask at n ≡ ask at' n' = ap (λ a. ask a n) e1 ∙ ap (ask at') e2 in
            rw (more, inside, some_shared)
              (continue_cong (ask at n) _ _ (λ bytes l'.
                  read_pass_lem (from + s.length) to ss offset size release (done + n)
                    (overwrite done bytes out) l' t.2 room (omega (arith, next, t.0)))
                ∙ ap
                    (λ r. continue r (λ bytes l'.
                      continue (read_each ss offset size release (overwrite done bytes out) l')
                        (whole size)))
                    asked
                ∙ ap
                    (λ d. continue (ask at' n') (λ bytes l'.
                      continue (read_each ss offset size release (overwrite d bytes out) l')
                        (whole size)))
                    e3
                ∙ sym (
                    continue-continue (ask at' n')
                      (λ bytes.
                        read_each ss offset size release
                          (overwrite (shared_from offset s - offset) bytes out))
                      (whole size)))
        | inr (more, inr (outside, none_shared, next)) ↦
            rw (more, outside, none_shared)
              (read_pass_lem (from + s.length) to ss offset size release done out l t.2 room
                (omega (arith, next, t.0)))
      ]

  -- A round that moves every byte is the last.
  end_round :
      (f : ℕ) (ss : List Stripe) (offset size : ℕ) (release : Bool) (r : Link W × Result (List ℕ))
      (p : Link W × Result (ℕ × List ℕ))
      → p ≡ continue r (whole size)
      → after_pass (λ (done, out) l. read_rounds net (suc f) ss offset size release done out l) p
        ≡ some r
  unfolding read_rounds
  end_round f ss offset size release (l, throw e) p q = rw q refl
  end_round f ss offset size release (l, ok out) p q =
      let over : ltb size size ≡ false = ground arith in rw (q, over) refl

  -- `read_remote` of a range inside a block in stripes ends, and is the walk that asks each stripe for
  -- its part: what the peers are asked, in which order, where the answers go, and how it fails.
  pub read_remote-read_each :
      (size : ℕ) (ss : List Stripe) (offset n : ℕ) (release : Bool) (l : Link W)
      → Tiles 0 size ss
      → offset + n ≤ size
      → read_remote net (placed_as size (striped ss)) offset n release l
        ≡ some (read_each ss offset n release (zeros n) l)
  unfolding read_remote read_rounds
  read_remote-read_each size ss offset zero release l t room =
      ap some (sym (read_each_past 0 size ss offset 0 release (zeros 0) l t (omega arith)))
  read_remote-read_each size ss offset (suc n) release l t room =
      let more : ltb 0 (suc n) ≡ true = ground arith in
      rw more (
        end_round n ss offset (suc n) release
          (read_each ss offset (suc n) release (zeros (suc n)) l)
          (read_pass net ss offset (suc n) release 0 (zeros (suc n)) l)
          (read_pass_lem 0 size ss offset (suc n) release 0 (zeros (suc n)) l t room (omega arith)))
