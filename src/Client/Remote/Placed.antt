-- ===== src/Client/Remote/Placed.antt =====
-- What allocate_remote returns: a block on one peer, or stripes that tile the block.
use mathlib.Core.Path.{subst}
use ram_vram_sharing.Prelude.{
  ℕ, zero, suc, ◌+◌, ◌-◌, ◌≤◌, ◌<◌, ◌≡◌, refl, inl, inr, List, [], ◌∷◌, arith, ltb, ◌==◌,
  Bool-cases, Option-cases, length,
}
use ram_vram_sharing.Memory.Raw.{Result, ok, throw}
use ram_vram_sharing.Client.Peers.{RemotePeer, connected_peers}
use ram_vram_sharing.Client.Link.{World, Link}
use ram_vram_sharing.Client.Remote.{
  Stripe, single, striped, RemoteAllocation, candidates, try_alloc, try_single, chunk_size,
  try_stripes, finish_stripes, allocate_remote,
}

-- The stripes cover the bytes from `from` up to `to`, in order, with no gap, and none is empty.
abbrev pub Tiles : ℕ → ℕ → List Stripe → Type 0
Tiles from to [] = from ≡ to
Tiles from to (s ∷ ss) = (s.offset ≡ from) × (0 < s.length) × Tiles (from + s.length) to ss

abbrev pub IsPlaced : RemoteAllocation → Type 0
IsPlaced a = elim a.placement [ single peer handle ↦ Unit {0} | striped ss ↦ Tiles 0 a.size ss ]

module _ {W : Type 0} (net : World W) where
  chunk_size-le : (remaining i : ℕ) (l : Link W) → chunk_size net remaining i l ≤ remaining
  chunk_size-le remaining i l = ground arith

  -- However many stripes are granted, they tile what they place.
  try_stripes-Tiles :
      (remaining offset : ℕ) (ps : List (ℕ × RemotePeer)) (l : Link W)
      → let r = (try_stripes net remaining offset ps l).1 in
        (r.0 ≤ remaining) × Tiles offset (offset + (remaining - r.0)) r.1
  unfolding try_stripes
  try_stripes-Tiles remaining offset [] l = ground arith
  try_stripes-Tiles remaining offset ((i, p) ∷ ps) l =
      let n = chunk_size net remaining i l in
      let called = try_alloc net n i l in
      elim (Bool-cases (remaining == 0)) [
        | inl full ↦ rw full (ground arith)
        | inr left ↦ elim (Bool-cases (n == 0)) [
          | inl none_free ↦ rw (left, none_free) (try_stripes-Tiles remaining offset ps l)
          | inr some_free ↦ elim (Option-cases called.1) [
            | inl refused ↦
                rw (left, some_free, refused) (try_stripes-Tiles remaining offset ps called.0)
            | inr (h, granted) ↦
                let ih = try_stripes-Tiles (remaining - n) (offset + n) ps called.0 in
                let unplaced = (try_stripes net (remaining - n) (offset + n) ps called.0).1.0 in
                let end : offset + n + (remaining - n - unplaced)
                    ≡ offset + (remaining - unplaced) =
                  omega (arith, ih.0, chunk_size-le remaining i l) in
                rw (left, some_free, granted)
                  (
                    omega (arith, ih.0),
                    (
                      refl,
                      ground arith,
                      subst
                          (λ to.
                            Tiles (offset + n) to
                              (try_stripes net (remaining - n) (offset + n) ps called.0).1.1)
                          end ih.1,
                    ),
                  )
          ]
        ]
      ]

  abbrev IsSound : ℕ → Link W × Result RemoteAllocation → Type 0
  IsSound size (l, throw e) = Unit {0}
  IsSound size (l, ok a) = (a.size ≡ size) × IsPlaced a

  finish_stripes-IsSound :
      (size left : ℕ) (l : Link W) (ss : List Stripe)
      → Tiles 0 (0 + (size - left)) ss
      → IsSound size (finish_stripes net size (l, (left, ss)))
  finish_stripes-IsSound size zero l [] t = tt
  finish_stripes-IsSound size zero l (s ∷ ss) t =
      (refl, subst (λ to. Tiles 0 to (s ∷ ss)) (omega arith) t)
  finish_stripes-IsSound size (suc left) l ss t = tt

  allocate_remote-IsSound : (size : ℕ) (l : Link W) → IsSound size (allocate_remote net size l)
  unfolding allocate_remote
  allocate_remote-IsSound size l =
      let l1 : Link W = elim (connected_peers 0 (net.peers l.world)) [
        | [] ↦ record l { world = net.wait_for_peer l.world }
        | i ∷ rest ↦ l
      ] in
      let ps = candidates 0 (net.peers l1.world) in
      let tried = try_single net size ps l1 in
      elim (Option-cases tried.1) [
        | inr ((h, i), found) ↦ rw (found, allocate_remote) (refl, tt)
        | inl failed ↦ elim (Bool-cases (ltb 1 (length ps))) [
          | inl several ↦
              let s = try_stripes net size 0 ps tried.0 in
              rw (failed, several, allocate_remote)
                (finish_stripes-IsSound size s.1.0 s.0 s.1.1
                  (try_stripes-Tiles size 0 ps tried.0).1)
          | inr one ↦ rw (failed, one, allocate_remote) tt
        ]
      ]

  -- A block that allocate_remote returns has the size that was asked for and stands on one peer, or
  -- in stripes that cover it from its first byte to its last, with no gap and no overlap. This holds
  -- whatever the peers answer.
  pub allocate_remote-IsPlaced :
      (size : ℕ) (l : Link W) {l' : Link W} {a : RemoteAllocation}
      → allocate_remote net size l ≡ (l', ok a)
      → (a.size ≡ size) × IsPlaced a
  allocate_remote-IsPlaced size l {l'} {a} e =
      subst (IsSound size) e (allocate_remote-IsSound size l)
