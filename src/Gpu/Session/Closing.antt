-- ===== src/Gpu/Session/Closing.antt =====
-- The handle of a connection is closed at most once.
use ram_vram_sharing.Prelude.{
  ℕ, zero, suc, ◌+◌, ◌-◌, ◌≤◌, ◌≡◌, refl, ◌∙◌, ◌⊎◌, inl, inr, Bool, true, false, Option, none, some,
  List, [], ◌∷◌, ◌++◌, arith, ltb, leb, ◌==◌, if◌then◌else◌, Bool-cases, length, take,
}
use ram_vram_sharing.Memory.Protocol.{max_message_size}
use ram_vram_sharing.Gpu.Protocol.{GpuRequest, GpuResponse, Executor, process_request}
use ram_vram_sharing.Gpu.Session.{
  GpuSession, close_once, respond, handle_request, consume, process_loop, process_buffer, on_read,
}

module _ {E : Type 0} (executor : Executor E) (decode : List ℕ → Option GpuRequest)
    (prefix_of : List ℕ → ℕ) where
  -- What a step of the session does to the handle: it is closed at most once, and once it is closed
  -- nothing more is sent.
  abbrev pub IsQuiet : GpuSession E → GpuSession E → Type 0
  IsQuiet s s' =
      (s.closes ≤ 1 → s'.closes ≤ 1) × (s.closes ≡ 1 → (s'.closes ≡ 1) × (s'.sent ≡ s.sent))

  IsQuiet-trans : (s s1 s2 : GpuSession E) → IsQuiet s s1 → IsQuiet s1 s2 → IsQuiet s s2
  IsQuiet-trans s s1 s2 p q =
      (λ h. q.0 (p.0 h), λ h. let a = p.1 h in let b = q.1 a.0 in (b.0, b.1 ∙ a.1))

  if-IsQuiet :
      (b : Bool) (s x y : GpuSession E) → IsQuiet s x → IsQuiet s y → IsQuiet s (if b then x else y)
  if-IsQuiet true s x y p q = p
  if-IsQuiet false s x y p q = q

  stay-IsQuiet : (s : GpuSession E) → IsQuiet s s
  stay-IsQuiet s = (λ h. h, λ h. (h, refl))

  close_once-IsQuiet : (s : GpuSession E) → IsQuiet s (close_once s)
  close_once-IsQuiet s = ground arith

  respond-IsQuiet : (s : GpuSession E) (r : E × Option GpuResponse) → IsQuiet s (respond s r)
  respond-IsQuiet s (e, none) = ground arith
  respond-IsQuiet s (e, some r) = ground arith

  consume-IsQuiet : (s : GpuSession E) → IsQuiet s (consume executor decode prefix_of s)
  unfolding consume handle_request
  consume-IsQuiet s = respond-IsQuiet s (
      process_request executor decode (take (prefix_of s.read_buffer + 4) s.read_buffer)
        s.executor_state)

  process_loop-IsQuiet :
      (f : ℕ) (s : GpuSession E) → IsQuiet s (process_loop executor decode prefix_of f s)
  unfolding process_loop
  process_loop-IsQuiet zero s = ground arith
  process_loop-IsQuiet (suc f) s =
      let step = consume-IsQuiet s in
      let rest = process_loop-IsQuiet f (consume executor decode prefix_of s) in
      let all =
        IsQuiet-trans s (consume executor decode prefix_of s)
          (process_loop executor decode prefix_of f (consume executor decode prefix_of s)) step
          rest in
      let size = prefix_of s.read_buffer in
      let here =
        if-IsQuiet (leb size (length s.read_buffer - 4)) s
          (process_loop executor decode prefix_of f (consume executor decode prefix_of s)) s all
          (stay-IsQuiet s) in
      let small =
        if-IsQuiet (ltb max_message_size size) s (close_once s) _ (close_once-IsQuiet s) here in
      if-IsQuiet (ltb (length s.read_buffer) 4) s s _ (stay-IsQuiet s) small

  on_read-IsQuiet :
      (ev : Option (List ℕ)) (s : GpuSession E) → IsQuiet s (on_read executor decode prefix_of ev s)
  unfolding on_read process_buffer
  on_read-IsQuiet none s = ground arith
  on_read-IsQuiet (some chunk) s =
      process_loop-IsQuiet (length (s.read_buffer ++ chunk))
        (record s { read_buffer = s.read_buffer ++ chunk })

  -- Reads one after the other: bytes, or an end or error of the stream.
  abbrev pub run : List (Option (List ℕ)) → GpuSession E → GpuSession E
  run [] s = s
  run (ev ∷ evs) s = run evs (on_read executor decode prefix_of ev s)

  run-IsQuiet : (evs : List (Option (List ℕ))) (s : GpuSession E) → IsQuiet s (run evs s)
  run-IsQuiet [] s = stay-IsQuiet s
  run-IsQuiet (ev ∷ evs) s =
      IsQuiet-trans s (on_read executor decode prefix_of ev s) (run (ev ∷ evs) s)
        (on_read-IsQuiet ev s) (run-IsQuiet evs (on_read executor decode prefix_of ev s))

  -- Whatever arrives on an open connection, malformed or oversized frames, several in one read, its
  -- end or an error after them, uv_close is called at most once; and after the call nothing more is
  -- sent.
  pub closed_once :
      (evs later : List (Option (List ℕ))) (s : GpuSession E)
      → s.closes ≡ 0
      → ((run evs s).closes ≤ 1)
        × (((run evs s).closes ≡ 0)
            ⊎ (((run later (run evs s)).closes ≡ 1)
                × ((run later (run evs s)).sent ≡ (run evs s).sent)))
  closed_once evs later s h =
      let r : GpuSession E = run evs s in
      let bound : r.closes ≤ 1 = (run-IsQuiet evs s).0 (omega (arith, h)) in
      elim (Bool-cases (r.closes == 0)) [
        | inl open_ ↦ (bound, inl (ground arith))
        | inr shut ↦ (bound, inr ((run-IsQuiet later r).1 (ground arith)))
      ]
