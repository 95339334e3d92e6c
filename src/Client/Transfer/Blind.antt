-- ===== src/Client/Transfer/Blind.antt =====
-- write_remote does not look at what the peers answer.
use ram_vram_sharing.Prelude.{
  ℕ, ◌+◌, ◌-◌, ◌≤◌, ◌≡◌, refl, ap, ◌∙◌, ◌≢◌, inl, inr, some, List, [], ◌∷◌, ltb, Bool-cases, length,
}
use ram_vram_sharing.Memory.Raw.{ok}
use ram_vram_sharing.Memory.Protocol.{Request}
use ram_vram_sharing.Client.Link.{
  Reply, time_out, empty, malformed, response, World, Link, write_request, awaited,
  sync_remote_call,
}
use ram_vram_sharing.Client.Remote.{Stripe, striped, placed_as}
use ram_vram_sharing.Client.Remote.Placed.{Tiles}
use ram_vram_sharing.Client.Transfer.{write_remote}
use ram_vram_sharing.Client.Transfer.Coverage.{
  shared, shared_from, part_of, write_each, write_remote-write_each,
}

heard : (r : Reply) → r ≢ time_out → (b : Reply) × (awaited r ≡ ok b)
heard time_out h = absurd (h refl)
heard empty h = (empty, refl)
heard malformed h = (malformed, refl)
heard (response r) h = (response r, refl)

module _ {W : Type 0} (net : World W) where
  call_heard :
      (peer : ℕ) (request : ℕ → Request) (l : Link W)
      → ((peer : ℕ) (req : Request) (w : W) → (net.call peer req w).1 ≢ time_out)
      → (b : Reply) × ((sync_remote_call net peer request l).1 ≡ ok b)
  unfolding sync_remote_call
  call_heard peer request l h = heard _ (h peer (request l.next_request_id) l.world)

  write_each_heard :
      (ss : List Stripe) (offset : ℕ) (bytes : List ℕ) (l : Link W)
      → ((peer : ℕ) (req : Request) (w : W) → (net.call peer req w).1 ≢ time_out)
      → (l' : Link W) × (write_each net ss offset bytes l ≡ (l', ok tt))
  unfolding write_each
  write_each_heard [] offset bytes l h = (l, refl)
  write_each_heard (s ∷ ss) offset bytes l h =
      elim (Bool-cases (ltb 0 (shared offset (length bytes) s))) [
        | inr apart ↦ let (l', e) = write_each_heard ss offset bytes l h in (l', rw apart e)
        | inl some_shared ↦
            let request =
              write_request s.remote_handle (shared_from offset s - s.offset)
                (part_of offset bytes s) in
            let (b, came) = call_heard s.peer request l h in
            let l1 = (sync_remote_call net s.peer request l).0 in
            let (l', e) = write_each_heard ss offset bytes l1 h in (l', rw (some_shared, came) e)
      ]

  -- Where a peer answers at all, or drops, `write_remote` of a range inside a block in stripes ends
  -- without an exception: also when the answer is a refusal, so that nothing was stored, when it does
  -- not verify, and when it is the empty buffer that stands for a peer that dropped.
  pub write_remote_heard :
      (size : ℕ) (ss : List Stripe) (offset : ℕ) (bytes : List ℕ) (l : Link W)
      → Tiles 0 size ss
      → offset + length bytes ≤ size
      → ((peer : ℕ) (req : Request) (w : W) → (net.call peer req w).1 ≢ time_out)
      → (l' : Link W) × (write_remote net (placed_as size (striped ss)) offset bytes l
          ≡ some (l', ok tt))
  write_remote_heard size ss offset bytes l t room h =
      let (l', e) = write_each_heard ss offset bytes l h in
      (l', write_remote-write_each net size ss offset bytes l t room ∙ ap some e)
