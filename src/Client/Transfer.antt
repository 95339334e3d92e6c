-- ===== src/Client/Transfer.antt =====
-- memclient/src/client_api.cpp: write_remote and read_remote, which move a range of a block that
-- stands on peers.
pub mod Coverage
pub mod Gather
pub mod Blind
pub mod Ends
mod Tests
use ram_vram_sharing.Prelude.{
  length, ℕ, zero, suc, ◌+◌, ◌-◌, min, Bool, ◌&&◌, Option, none, some, List, [], ◌∷◌, ltb, leb,
  if◌then◌else◌, take, drop,
}
use ram_vram_sharing.Memory.Raw.{runtime_error, Result, ok, throw}
use ram_vram_sharing.Memory.Protocol.{status_ok}
use ram_vram_sharing.Client.Act.{Act, ◌>>=◌, ◌>>◌, pure}
use ram_vram_sharing.Client.Link.{
  Reply, response, World, Link, free_request, write_request, read_request, sync_remote_call,
  is_connected,
}
use ram_vram_sharing.Client.Remote.{Stripe, single, striped, RemoteAllocation}

-- std::vector::operator[] on a range of the result: bytes past its end are not kept.
pub overwrite : ℕ → List ℕ → List ℕ → List ℕ
overwrite at [] out = out
overwrite at (b ∷ bs) [] = []
overwrite zero (b ∷ bs) (x ∷ out) = b ∷ overwrite zero bs out
overwrite (suc at) (b ∷ bs) (x ∷ out) = x ∷ overwrite at (b ∷ bs) out

pub zeros : ℕ → List ℕ
zeros zero = []
zeros (suc n) = 0 ∷ zeros n

-- The bytes of a READ that was answered OK with data; anything else throws.
abbrev pub read_bytes : Reply → Result (List ℕ)
read_bytes (response r) = elim r.status [
  | status_ok ↦ (elim r.payload [ some bytes ↦ ok bytes | none ↦ throw runtime_error ])
  | _ ↦ throw runtime_error
]
read_bytes _ = throw runtime_error

-- Whether byte `x` of the block stands in the stripe.
abbrev pub in_stripe : ℕ → Stripe → Bool
in_stripe x s = leb s.offset x && ltb x (s.offset + s.length)

-- `catch (std::exception) { throw std::runtime_error }`
abbrev pub as_runtime_error : {S A : Type 0} → S × Result A → S × Result A
as_runtime_error (s, ok a) = (s, ok a)
as_runtime_error (s, throw e) = (s, throw runtime_error)

abbrev pub rethrow : {S A : Type 0} → Act S A → Act S A
rethrow m s = as_runtime_error (m s)

-- A round that throws is the last.
abbrev pub after_pass :
    {S A B : Type 0} → (A → S → Option (S × Result B)) → S × Result A → Option (S × Result B)
after_pass next (s, throw e) = some (s, throw e)
after_pass next (s, ok a) = next a s

module _ {W : Type 0} (net : World W) where
  -- The inner loop of write_remote over the stripes: the new data_offset.
  pub write_pass : List Stripe → ℕ → List ℕ → ℕ → Act (Link W) ℕ
  write_pass [] offset bytes done = pure done
  write_pass (s ∷ ss) offset bytes done =
      let at = offset + done - s.offset in
      let n = min (length bytes - done) (s.length - at) in
      let rest = write_pass ss offset bytes done in
      let write_here = do
        rethrow (
            sync_remote_call net s.peer
              (write_request s.remote_handle at (take n (drop done bytes))))
        write_pass ss offset bytes (done + n)
      in if leb (length bytes) done
        then pure done
        else if in_stripe (offset + done) s
        then write_here
        else rest

  -- The outer loop, on fuel. A round that writes nothing would be repeated for ever: `none`.
  pub write_rounds : ℕ → List Stripe → ℕ → List ℕ → ℕ → Link W → Option (Link W × Result (Unit {0}))
  unfolding write_pass
  write_rounds zero ss offset bytes done l = none
  write_rounds (suc f) ss offset bytes done l =
      let next =
        after_pass (λ done' l'. write_rounds f ss offset bytes done' l')
          (write_pass ss offset bytes done l) in
      if ltb done (length bytes) then next else some (l, ok tt)

  -- `none` means that the loop does not end.
  unfoldable pub write_remote :
      RemoteAllocation → ℕ → List ℕ → Link W → Option (Link W × Result (Unit {0}))
  unfolding write_rounds
  write_remote a offset bytes l = elim a.placement [
    | striped ss ↦ write_rounds (suc (length bytes)) ss offset bytes 0 l
    | single peer handle ↦
        if is_connected net peer l
        then some ((do sync_remote_call net peer (write_request handle offset bytes); pure tt) l)
        else some (l, throw runtime_error)
  ]

  -- A READ of part of a block, and its FREE when the block is not to stay on the peer.
  abbrev pub read_part : ℕ → ℕ → ℕ → ℕ → Bool → Act (Link W) (List ℕ)
  read_part peer handle at n release = do
    reply ← sync_remote_call net peer (read_request handle at n)
    bytes ← (λ l. (l, read_bytes reply))
    if release then (do sync_remote_call net peer (free_request handle); pure bytes) else pure bytes

  -- The inner loop of read_remote: the new result_offset and the result.
  pub read_pass : List Stripe → ℕ → ℕ → Bool → ℕ → List ℕ → Act (Link W) (ℕ × List ℕ)
  read_pass [] offset size release done out = pure (done, out)
  read_pass (s ∷ ss) offset size release done out =
      let at = offset + done - s.offset in
      let n = min (size - done) (s.length - at) in
      let rest = read_pass ss offset size release done out in
      let read_here = do
        bytes ← rethrow (read_part s.peer s.remote_handle at n release)
        read_pass ss offset size release (done + n) (overwrite done bytes out)
      in if leb size done
        then pure (done, out)
        else if in_stripe (offset + done) s
        then read_here
        else rest

  pub read_rounds :
      ℕ → List Stripe → ℕ → ℕ → Bool → ℕ → List ℕ → Link W → Option (Link W × Result (List ℕ))
  unfolding read_pass
  read_rounds zero ss offset size release done out l = none
  read_rounds (suc f) ss offset size release done out l =
      let next =
        after_pass (λ (done', out') l'. read_rounds f ss offset size release done' out' l')
          (read_pass ss offset size release done out l) in
      if ltb done size then next else some (l, ok out)

  unfoldable pub read_remote :
      RemoteAllocation → ℕ → ℕ → Bool → Link W → Option (Link W × Result (List ℕ))
  unfolding read_rounds zeros
  read_remote a offset size release l = elim a.placement [
    | striped ss ↦ read_rounds (suc size) ss offset size release 0 (zeros size) l
    | single peer handle ↦
        if is_connected net peer l
        then some (read_part peer handle offset size release l)
        else some (l, throw runtime_error)
  ]
