-- ===== src/Gpu/Client/Hosted.antt =====
-- A connection of a client to a gpud, whose sessions serve the requests.
use ram_vram_sharing.Prelude.{
  ℕ, zero, suc, ◌+◌, ◌-◌, ◌%◌, ◌≤◌, ◌≡◌, refl, sym, ap, ◌∙◌, inl, inr, Bool, true, false, Option,
  none, some, List, [], ◌∷◌, arith, ltb, leb, ◌==◌, if◌then◌else◌, Bool-cases, u64_mod, length,
  take, drop,
}
use ram_vram_sharing.Memory.Protocol.{max_message_size}
use ram_vram_sharing.Gpu.Protocol.{
  GpuRequest, ErrorCode, GpuResponse, Executor, build_response, process_verified, process_request,
}
use ram_vram_sharing.Gpu.Session.{
  GpuSession, handle_request, consume, process_loop, process_buffer, on_read,
}
use ram_vram_sharing.Gpu.Client.{GpuClient, is_success, sync_remote_call}

-- What FlatBuffers promises of the requests of a client: a request is read back as it was written,
-- behind a prefix that is the number of the bytes that follow, and without a payload it is small.
pub record Framing (encode : GpuRequest → List ℕ) (decode : List ℕ → Option GpuRequest)
    (prefix_of : List ℕ → ℕ) : Type 0 where
  pub decoded : (req : GpuRequest) → decode (encode req) ≡ some req
  pub prefixed : (req : GpuRequest) → length (encode req) ≡ prefix_of (encode req) + 4
  pub small : (req : GpuRequest) → req.payload ≡ none → prefix_of (encode req) ≤ max_message_size

-- What a local caller of the executor is told.
abbrev pub told : ErrorCode → ℕ → ErrorCode × Option ℕ
told err v = (err, if is_success err then some v else none)

-- That a request is too large for a message.
abbrev pub past_limit : (GpuRequest → List ℕ) → (List ℕ → ℕ) → GpuRequest → Bool
past_limit encode prefix_of req = ltb max_message_size (prefix_of (encode req))

take-length : {A : Type 0} (xs : List A) → take (length xs) xs ≡ xs
take-length [] = refl
take-length (x ∷ xs) = ap (λ l. x ∷ l) (take-length xs)

drop-length : {A : Type 0} (xs : List A) → drop (length xs) xs ≡ []
drop-length [] = refl
drop-length (x ∷ xs) = drop-length xs

module _ {E : Type 0} where
  -- A session that is open and waits for a request.
  abbrev pub open_session : List GpuResponse → E → GpuSession E
  open_session sent e = record { read_buffer = []; closes = 0; sent = sent; executor_state = e }

  abbrev pub connected : List GpuResponse → E → ℕ → GpuClient (GpuSession E)
  connected sent e id = record { world = open_session sent e; next_request_id = id }

  -- The client when a call has returned.
  abbrev pub after : List GpuResponse → GpuResponse → E → ℕ → GpuClient (GpuSession E)
  after sent r e id = connected (r ∷ sent) e ((id + 1) % u64_mod)

module _ {E : Type 0} (executor : Executor E) (encode : GpuRequest → List ℕ)
    (decode : List ℕ → Option GpuRequest) (prefix_of : List ℕ → ℕ) where
  -- The response that a session has sent since it was `s`, if there is one.
  abbrev answer_of : GpuSession E → GpuSession E → Option (GpuSession E × GpuResponse)
  answer_of s s' = elim s'.sent [
    | [] ↦ none
    | r ∷ sent ↦ if length sent == length s.sent then some (s', r) else none
  ]

  -- A connection to a gpud, where a request arrives in one read.
  unfoldable pub hosted : GpuRequest → GpuSession E → Option (GpuSession E × GpuResponse)
  hosted req s = answer_of s (on_read executor decode prefix_of (some (encode req)) s)

  idle_lem :
      (f : ℕ) (s : GpuSession E)
      → s.read_buffer ≡ []
      → process_loop executor decode prefix_of f s ≡ s
  unfolding process_loop
  idle_lem zero s e = refl
  idle_lem (suc f) s e =
      let none_left : ltb (length s.read_buffer) 4 ≡ true = rw e refl in rw none_left refl

  -- The session when a whole request has been served.
  abbrev served : GpuRequest → List GpuResponse → E → GpuSession E
  served req sent e = let (e', r) = process_verified executor req e in open_session (r ∷ sent) e'

  consume_lem :
      (req : GpuRequest) (sent : List GpuResponse) (e : E)
      → Framing encode decode prefix_of
      → consume executor decode prefix_of
          (record (open_session sent e) { read_buffer = encode req })
        ≡ served req sent e
  unfolding consume handle_request process_request
  consume_lem req sent e law =
      rw
        (
          sym (law.prefixed req),
          take-length (encode req),
          drop-length (encode req),
          law.decoded req,
          process_request,
        )
        refl

  loop_lem :
      (f : ℕ) (req : GpuRequest) (sent : List GpuResponse) (e : E)
      → Framing encode decode prefix_of
      → let s : GpuSession E = record (open_session sent e) { read_buffer = encode req } in
        process_loop executor decode prefix_of (suc f) s ≡ (
          if ltb max_message_size (prefix_of (encode req))
          then record s { closes = 1 }
          else (served req sent e))
  unfolding process_loop
  loop_lem f req sent e law =
      let s : GpuSession E = record (open_session sent e) { read_buffer = encode req } in
      let long : ltb (length (encode req)) 4 ≡ false = ground (arith, law.prefixed req) in
      let whole : leb (prefix_of (encode req)) (length (encode req) - 4) ≡ true =
        ground (arith, law.prefixed req) in
      rw (long, whole) (rw (consume_lem req sent e law, idle_lem f (served req sent e) refl) refl)

  no_answer :
      (s s' : GpuSession E) (sent : List GpuResponse)
      → s'.sent ≡ sent
      → s.sent ≡ sent
      → answer_of s s' ≡ none
  no_answer s s' [] e f = rw e refl
  no_answer s s' (r ∷ rest) e f =
      let grown : length rest == length s.sent ≡ false = rw f (ground arith) in rw (e, grown) refl

  -- A request is answered, or its connection is closed for its size and no response ever comes.
  hosted_lem :
      (req : GpuRequest) (sent : List GpuResponse) (e : E)
      → Framing encode decode prefix_of
      → hosted req (open_session sent e) ≡ (
          if ltb max_message_size (prefix_of (encode req))
          then none
          else (let (e', r) = process_verified executor req e in
              some (open_session (r ∷ sent) e', r)))
  unfolding hosted on_read process_buffer
  hosted_lem req sent e law =
      let start = open_session sent e in
      let s : GpuSession E = record start { read_buffer = encode req } in
      let n = prefix_of (encode req) + 3 in
      let fuel : length (encode req) ≡ suc n = omega (arith, law.prefixed req) in
      let ran =
        ap (λ f. process_loop executor decode prefix_of f s) fuel ∙ loop_lem n req sent e law in
      elim (Bool-cases (ltb max_message_size (prefix_of (encode req)))) [
        | inl big ↦
            let closed : process_buffer executor decode prefix_of s ≡ record s { closes = 1 } =
              ran ∙ rw big refl in
            rw big (
              ap (answer_of start) closed
              ∙ no_answer start (record s { closes = 1 }) sent refl refl)
        | inr fits ↦
            let done : process_buffer executor decode prefix_of s ≡ served req sent e =
              ran ∙ rw fits refl in
            let one : length sent == length sent ≡ true = ground arith in
            rw fits (ap (answer_of start) done ∙ rw one refl)
      ]

  pub call_lem :
      (req : ℕ → GpuRequest) (id : ℕ) (sent : List GpuResponse) (e : E)
      → Framing encode decode prefix_of
      → sync_remote_call hosted req (connected sent e id) ≡ (
          if past_limit encode prefix_of (req id)
          then none
          else (let (e', r) = process_verified executor (req id) e in some (after sent r e' id, r)))
  unfolding sync_remote_call hosted process_verified on_read build_response
  call_lem req id sent e law =
      let h = hosted_lem (req id) sent e law in
      elim (Bool-cases (past_limit encode prefix_of (req id))) [
        | inl big ↦ rw (h, big) refl
        | inr fits ↦ rw (h, fits) refl
      ]

  -- The call of a request without a payload, which is never too large.
  pub small_call :
      (req : ℕ → GpuRequest) (id : ℕ) (sent : List GpuResponse) (e : E)
      → Framing encode decode prefix_of
      → (req id).payload ≡ none
      → sync_remote_call hosted req (connected sent e id)
        ≡ (let (e', r) = process_verified executor (req id) e in some (after sent r e' id, r))
  small_call req id sent e law bare =
      let fits : past_limit encode prefix_of (req id) ≡ false =
        ground (arith, law.small (req id) bare) in
      call_lem req id sent e law ∙ rw fits refl
