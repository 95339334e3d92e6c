-- ===== src/Memory/Session/Framing.antt =====
-- The framing loop: how a stream is cut into reads does not matter, and what closes the connection.
use mathlib.Core.List.{append_assoc}
use ram_vram_sharing.Prelude.{
  ℕ, zero, suc, ◌+◌, ◌-◌, ◌≤◌, ◌<◌, ◌≡◌, refl, sym, ap, ◌∙◌, ◌⊎◌, inl, inr, Option, none, some,
  List, [], ◌∷◌, ◌++◌, arith, length, take, drop, length-append, length-drop,
}
use ram_vram_sharing.Memory.Tracker.{Tracker}
use ram_vram_sharing.Memory.Protocol.{Request, Response, max_message_size, process_request}
use ram_vram_sharing.Memory.Session.{
  consume_frame, Session, send_response, respond, consume, process_loop, process_buffer, on_data,
}

take-append : (n : ℕ) (xs ys : List ℕ) → n ≤ length xs → take n (xs ++ ys) ≡ take n xs
take-append zero xs ys h = refl
take-append (suc n) [] ys h = absurd (omega arith)
take-append (suc n) (x ∷ xs) ys h = ap (◌∷◌ x) (take-append n xs ys (omega arith))

drop-append : (n : ℕ) (xs ys : List ℕ) → n ≤ length xs → drop n (xs ++ ys) ≡ drop n xs ++ ys
drop-append zero xs ys h = refl
drop-append (suc n) [] ys h = absurd (omega arith)
drop-append (suc n) (x ∷ xs) ys h = drop-append n xs ys (omega arith)

-- More bytes behind the buffer.
abbrev pub extend : List ℕ → Session → Session
extend ys s = record s { read_buffer = s.read_buffer ++ ys }

respond_buffer :
    (b : List ℕ) (s : Session) (r : Tracker × Option Response)
    → respond (record s { read_buffer = b }) r ≡ record (respond s r) { read_buffer = b }
unfolding send_response
respond_buffer b s (t, none) = refl
respond_buffer b s (t, some r) = ground arith

module _ (decode : List ℕ → Option Request) (prefix_of : List ℕ → ℕ) (session_id : ℕ) where
  abbrev pub loop : ℕ → Session → Session
  loop = process_loop decode prefix_of session_id

  abbrev pub next : Session → Session
  next = consume decode prefix_of session_id

  consume-length :
      (s : Session)
      → length (next s).read_buffer ≡ length s.read_buffer - (prefix_of s.read_buffer + 4)
  unfolding consume consume_frame
  consume-length s = length-drop (prefix_of s.read_buffer + 4) s.read_buffer

  -- Enough fuel is enough.
  pub loop_fuel :
      (f g : ℕ) (s : Session)
      → length s.read_buffer ≤ f
      → length s.read_buffer ≤ g
      → loop f s ≡ loop g s
  unfolding process_loop
  loop_fuel zero zero s h k = refl
  loop_fuel zero (suc g) s h k = ground arith
  loop_fuel (suc f) zero s h k = ground arith
  loop_fuel (suc f) (suc g) s h k = ground (arith, consume-length s, loop_fuel f g (next s))

  pub loop_step :
      (f : ℕ) (s : Session)
      → 4 ≤ length s.read_buffer
      → prefix_of s.read_buffer ≤ max_message_size
      → prefix_of s.read_buffer + 4 ≤ length s.read_buffer
      → loop (suc f) s ≡ loop f (next s)
  unfolding process_loop
  loop_step f s h m k = ground arith

  -- Too few bytes for the prefix, or for the frame that it announces.
  abbrev pub IsShort : Session → Type 0
  IsShort s =
      (length s.read_buffer < 4)
      ⊎ ((prefix_of s.read_buffer ≤ max_message_size)
          × (length s.read_buffer < prefix_of s.read_buffer + 4))

  pub loop_short : (f : ℕ) (s : Session) → IsShort s → loop (suc f) s ≡ s
  unfolding process_loop
  loop_short f s h = ground arith

  loop_oversized :
      (f : ℕ) (s : Session)
      → 4 ≤ length s.read_buffer
      → max_message_size < prefix_of s.read_buffer
      → (loop (suc f) s).closes ≡ suc s.closes
  unfolding process_loop
  loop_oversized f s h k = ground arith

  buffer_cases :
      (s : Session)
      → IsShort s
        ⊎ ((4 ≤ length s.read_buffer) × (max_message_size < prefix_of s.read_buffer))
        ⊎ ((4 ≤ length s.read_buffer)
            × (prefix_of s.read_buffer ≤ max_message_size)
            × (prefix_of s.read_buffer + 4 ≤ length s.read_buffer))
  buffer_cases s = ground arith

  frame-extend :
      (frame rest : List ℕ) (ys : List ℕ) (s : Session)
      → consume_frame decode prefix_of session_id frame (rest ++ ys) (extend ys s)
        ≡ extend ys (consume_frame decode prefix_of session_id frame rest s)
  unfolding consume_frame
  frame-extend frame rest ys s =
      ap (λ (x : Session). record x { read_buffer = rest ++ ys })
        (respond_buffer (s.read_buffer ++ ys) s (process_request decode frame session_id s.tracker))

  -- On a buffer that starts with a whole frame the loop goes on behind it.
  loop-next :
      (s : Session)
      → 4 ≤ length s.read_buffer
      → prefix_of s.read_buffer ≤ max_message_size
      → prefix_of s.read_buffer + 4 ≤ length s.read_buffer
      → process_buffer decode prefix_of session_id s
        ≡ process_buffer decode prefix_of session_id (next s)
  unfolding process_buffer
  loop-next s h m k =
      loop_fuel (length s.read_buffer) (suc (length s.read_buffer)) s (omega arith) (omega arith)
      ∙ loop_step (length s.read_buffer) s h m k
      ∙ loop_fuel (length s.read_buffer) (length (next s).read_buffer) (next s)
          (omega (arith, consume-length s)) (omega arith)

  module _ (local : (xs ys : List ℕ) → 4 ≤ length xs → prefix_of (xs ++ ys) ≡ prefix_of xs) where
    -- A whole frame is handled the same with more bytes behind it.
    consume-extend :
        (s : Session) (ys : List ℕ)
        → 4 ≤ length s.read_buffer
        → prefix_of s.read_buffer + 4 ≤ length s.read_buffer
        → next (extend ys s) ≡ extend ys (next s)
    unfolding consume
    consume-extend s ys h k =
        rw
          (
            local s.read_buffer ys h,
            take-append (prefix_of s.read_buffer + 4) s.read_buffer ys k,
            drop-append (prefix_of s.read_buffer + 4) s.read_buffer ys k,
          )
          (frame-extend (take (prefix_of s.read_buffer + 4) s.read_buffer)
            (drop (prefix_of s.read_buffer + 4) s.read_buffer) ys s)

    -- The loop's stop, kept apart: the buffer is short, oversized, or holds a whole frame.
    loop-extend :
        (f : ℕ) (s : Session) (ys : List ℕ)
        → length s.read_buffer ≤ f
        → (loop f s).closes ≡ 0
        → process_buffer decode prefix_of session_id (extend ys (loop f s))
          ≡ process_buffer decode prefix_of session_id (extend ys s)
    loop-extend zero s ys h c = unfold process_loop in refl
    loop-extend (suc f) s ys h c = elim (buffer_cases s) [
      | inl short ↦
          ap (λ x. process_buffer decode prefix_of session_id (extend ys x)) (loop_short f s short)
      | inr (inl big) ↦ absurd (omega (arith, sym c ∙ loop_oversized f s big.0 big.1))
      | inr (inr (four, small, whole)) ↦
          let step = loop_step f s four small whole in
          ap (λ x. process_buffer decode prefix_of session_id (extend ys x)) step
          ∙ loop-extend f (next s) ys (omega (arith, consume-length s))
              (ap (λ x. x.closes) (sym step) ∙ c)
          ∙ ap (process_buffer decode prefix_of session_id) (sym (consume-extend s ys four whole))
          ∙ sym (
              loop-next (extend ys s) (omega (arith, length-append s.read_buffer ys))
                (rw (local s.read_buffer ys four) small)
                (omega (arith, local s.read_buffer ys four, length-append s.read_buffer ys, whole)))
    ]

    -- How a stream is cut into reads does not matter: if the connection is open after a first read,
    -- a second one leaves the session as one read of both parts would. Of the length prefix it is
    -- assumed that it depends on the first four bytes alone.
    pub on_data-append :
        (s : Session) (xs ys : List ℕ)
        → (on_data decode prefix_of session_id xs s).closes ≡ 0
        → on_data decode prefix_of session_id ys (on_data decode prefix_of session_id xs s)
          ≡ on_data decode prefix_of session_id (xs ++ ys) s
    unfolding on_data process_buffer
    on_data-append s xs ys c =
        loop-extend (length (s.read_buffer ++ xs)) (extend xs s) ys (omega arith) c
        ∙ ap (λ b. process_buffer decode prefix_of session_id (record s { read_buffer = b }))
            (append_assoc s.read_buffer xs ys)
