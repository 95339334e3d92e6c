-- ===== src/Memory/Session/Closing.antt =====
-- A frame that does not verify closes the connection, but the loop goes on with the frames behind it.
use mathlib.Core.List.{append-nil}
use mathlib.Core.Path.{ap₂}
use ram_vram_sharing.Memory.Tracker.{Tracker}
use ram_vram_sharing.Prelude.{
  ℕ, suc, ◌+◌, ◌≤◌, ◌≡◌, refl, sym, ap, ◌∙◌, inl, Option, none, List, [], ◌∷◌, ◌++◌, arith, length,
  take, drop, length-append,
}
use ram_vram_sharing.Memory.Protocol.{Request, max_message_size, process_request}
use ram_vram_sharing.Memory.Session.{
  Session, respond, consume_frame, consume, process_buffer, on_data,
}
use ram_vram_sharing.Memory.Session.Framing.{loop, next, loop_fuel, loop_step, loop_short}

take-whole : (xs ys : List ℕ) → take (length xs) (xs ++ ys) ≡ xs
take-whole [] ys = refl
take-whole (x ∷ xs) ys = ap (◌∷◌ x) (take-whole xs ys)

drop-whole : (xs ys : List ℕ) → drop (length xs) (xs ++ ys) ≡ ys
drop-whole [] ys = refl
drop-whole (x ∷ xs) ys = drop-whole xs ys

malformed_request :
    (decode : List ℕ → Option Request) (id : ℕ) (frame : List ℕ) (t : Tracker)
    → decode frame ≡ none
    → process_request decode frame id t ≡ (t, none)
unfolding process_request
malformed_request decode id frame t e = rw (e, process_request)

module _ (decode : List ℕ → Option Request) (prefix_of : List ℕ → ℕ) (session_id : ℕ)
    (local : (xs ys : List ℕ) → 4 ≤ length xs → prefix_of (xs ++ ys) ≡ prefix_of xs) where
  -- A whole frame of a size that is accepted, and that the verifier refuses.
  abbrev pub IsMalformed : List ℕ → Type 0
  IsMalformed frame =
      (length frame ≡ prefix_of frame + 4)
      × (prefix_of frame ≤ max_message_size)
      × (decode frame ≡ none)

  head_facts :
      (frame rest : List ℕ)
      → IsMalformed frame
      → (4 ≤ length (frame ++ rest))
        × (prefix_of (frame ++ rest) + 4 ≡ length frame)
        × (prefix_of (frame ++ rest) + 4 ≤ length (frame ++ rest))
  head_facts frame rest m =
      let four : 4 ≤ length frame = omega (arith, m.0) in
      let same = local frame rest four in
      (
        omega (arith, length-append frame rest),
        omega (arith, same, m.0),
        omega (arith, same, m.0, length-append frame rest),
      )

  malformed_next :
      (frame rest : List ℕ) (s : Session)
      → IsMalformed frame
      → next decode prefix_of session_id (record s { read_buffer = frame ++ rest })
        ≡ record s { read_buffer = rest; closes = suc s.closes }
  unfolding consume consume_frame
  malformed_next frame rest s m =
      let b : List ℕ = frame ++ rest in
      let s0 : Session = record s { read_buffer = b } in
      let n = (head_facts frame rest m).1 in
      ap₂ (λ x y. consume_frame decode prefix_of session_id x y s0)
        (ap (λ k. take k b) n ∙ take-whole frame rest)
        (ap (λ k. drop k b) n ∙ drop-whole frame rest)
      ∙ ap (λ r. record (respond s0 r) { read_buffer = rest })
          (malformed_request decode session_id frame s.tracker m.2)

  malformed_step :
      (f : ℕ) (frame rest : List ℕ) (s : Session)
      → IsMalformed frame
      → loop decode prefix_of session_id (suc f) (record s { read_buffer = frame ++ rest })
        ≡ loop decode prefix_of session_id f
            (record s { read_buffer = rest; closes = suc s.closes })
  malformed_step f frame rest s m =
      let h = head_facts frame rest m in
      loop_step decode prefix_of session_id f (record s { read_buffer = frame ++ rest }) h.0
        (omega (arith, m.1, h.1, m.0)) h.2
      ∙ ap (loop decode prefix_of session_id f) (malformed_next frame rest s m)

  -- Two malformed frames in one read close the handle twice, when the stream holds nothing else. Of
  -- the length prefix it is assumed that it depends on the first four bytes alone.
  pub closed_twice :
      (s : Session) (frame frame' : List ℕ)
      → s.read_buffer ≡ []
      → IsMalformed frame
      → IsMalformed frame'
      → (on_data decode prefix_of session_id (frame ++ frame') s).closes ≡ s.closes + 2
  unfolding on_data process_buffer
  closed_twice s frame frame' e m m' =
      let b : List ℕ = frame ++ frame' in
      let n : ℕ = length b in
      let s2 : Session = record s { read_buffer = []; closes = suc (suc s.closes) } in
      ap
        (λ c.
          (loop decode prefix_of session_id (length (c ++ b))
            (record s { read_buffer = c ++ b })).closes)
        e
      ∙ ap (λ (x : Session). x.closes)
          (loop_fuel decode prefix_of session_id n (suc (suc (suc n)))
              (record s { read_buffer = b }) (omega arith) (omega arith)
            ∙ malformed_step (suc (suc n)) frame frame' s m
            ∙ ap
                (λ c.
                  loop decode prefix_of session_id (suc (suc n))
                    (record s { read_buffer = c; closes = suc s.closes }))
                (sym (append-nil frame'))
            ∙ malformed_step (suc n) frame' [] (record s { closes = suc s.closes }) m'
            ∙ loop_short decode prefix_of session_id n s2 (inl (omega arith)))
      ∙ omega arith
