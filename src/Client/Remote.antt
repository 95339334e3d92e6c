-- ===== src/Client/Remote.antt =====
-- memclient/src/client_api.cpp: blocks on peers. allocate_remote places a block on one peer or in
-- stripes on several; free_remote gives it back.
pub mod Placed
mod Tests
use ram_vram_sharing.Prelude.{
  length, ℕ, zero, ◌+◌, ◌-◌, min, Bool, true, false, Option, none, some, List, [], ◌∷◌, ltb, ◌==◌,
  if◌then◌else◌,
}
use ram_vram_sharing.Memory.Raw.{runtime_error, Result, ok, throw}
use ram_vram_sharing.Memory.Protocol.{status_ok}
use ram_vram_sharing.Client.Act.{Act}
use ram_vram_sharing.Client.Peers.{RemotePeer, may_fit, get_peer, connected_peers}
use ram_vram_sharing.Client.Link.{
  Reply, response, World, Link, alloc_request, free_request, sync_remote_call, is_connected,
}

pub record Stripe : Type 0 where
  pub remote_handle : ℕ
  pub offset : ℕ
  pub length : ℕ
  pub peer : ℕ

-- A block on one peer, or in stripes: the fields of the other kind are unused.
pub data Placement : Type 0 where
  single : ℕ → ℕ → Placement
  striped : List Stripe → Placement

pub record RemoteAllocation : Type 0 where
  pub size : ℕ
  pub placement : Placement

-- The order of std::sort: peers of known capacity first, and of those the one with most free RAM.
abbrev pub before : RemotePeer → RemotePeer → Bool
before a b =
    if a.capacity_known
    then (if b.capacity_known then ltb b.free_ram_bytes a.free_ram_bytes else true)
    else (if b.capacity_known then false else ltb b.free_ram_bytes a.free_ram_bytes)

-- std::sort promises no order among equals; here they keep theirs.
pub sort_in : ℕ × RemotePeer → List (ℕ × RemotePeer) → List (ℕ × RemotePeer)
sort_in x [] = x ∷ []
sort_in x (y ∷ ys) = if before y.1 x.1 then y ∷ sort_in x ys else x ∷ y ∷ ys

-- The connected peers from index `i` on, sorted.
pub candidates : ℕ → List RemotePeer → List (ℕ × RemotePeer)
unfolding sort_in
candidates i [] = []
candidates i (p ∷ ps) =
    if p.connected then sort_in (i, p) (candidates (i + 1) ps) else candidates (i + 1) ps

-- The handle of an ALLOC that was answered OK.
abbrev pub granted_handle : Result Reply → Option ℕ
granted_handle (ok (response r)) = elim r.status [ status_ok ↦ some r.handle | _ ↦ none ]
granted_handle (ok _) = none
granted_handle (throw e) = none

abbrev pub placed_as : ℕ → Placement → RemoteAllocation
placed_as size p = record { size = size; placement = p }

module _ {W : Type 0} (net : World W) where
  -- The capacity of a peer now.
  abbrev pub capacity : ℕ → Link W → Option RemotePeer
  capacity i l = get_peer i (net.peers l.world)

  abbrev pub fits : ℕ → ℕ → Link W → Bool
  fits size i l = elim (capacity i l) [ none ↦ false | some p ↦ may_fit size p ]

  -- One ALLOC, its exceptions caught.
  abbrev pub try_alloc : ℕ → ℕ → Link W → Link W × Option ℕ
  try_alloc size peer l =
      let (l', r) = sync_remote_call net peer (alloc_request size) l in (l', granted_handle r)

  -- The first try: one peer for the whole block.
  pub try_single : ℕ → List (ℕ × RemotePeer) → Link W → Link W × Option (ℕ × ℕ)
  try_single size [] l = (l, none)
  try_single size ((i, p) ∷ ps) l =
      let skip = try_single size ps l in
      let (l', found) = try_alloc size i l in
      let next : Link W × Option (ℕ × ℕ) = elim found [
        | some h ↦ (l', some (h, i))
        | none ↦ try_single size ps l'
      ] in
      if fits size i l then next else skip

  abbrev pub chunk_size : ℕ → ℕ → Link W → ℕ
  chunk_size remaining i l = elim (capacity i l) [
    | none ↦ remaining
    | some p ↦ if p.capacity_known then min remaining p.free_ram_bytes else remaining
  ]

  -- The second try: what is left unplaced, and the stripes in the order of their offsets.
  pub try_stripes : ℕ → ℕ → List (ℕ × RemotePeer) → Link W → Link W × (ℕ × List Stripe)
  try_stripes remaining offset [] l = (l, (remaining, []))
  try_stripes remaining offset ((i, p) ∷ ps) l =
      let skip = try_stripes remaining offset ps l in
      let n = chunk_size remaining i l in
      let (l', found) = try_alloc n i l in
      let next : Link W × (ℕ × List Stripe) = elim found [
        | none ↦ try_stripes remaining offset ps l'
        | some h ↦
            let (l'', (left, stripes)) = try_stripes (remaining - n) (offset + n) ps l' in
            let s : Stripe = record { remote_handle = h; offset = offset; length = n; peer = i } in
            (l'', (left, s ∷ stripes))
      ] in
      if remaining == 0 then (l, (remaining, [])) else if n == 0 then skip else next

  -- One FREE, its exceptions caught.
  pub free_one : ℕ → ℕ → Link W → Link W
  free_one peer handle l =
      if is_connected net peer l then (sync_remote_call net peer (free_request handle) l).0 else l

  pub free_stripes : List Stripe → Link W → Link W
  unfolding free_one
  free_stripes [] l = l
  free_stripes (s ∷ ss) l = free_stripes ss (free_one s.peer s.remote_handle l)

  pub free_remote : RemoteAllocation → Link W → Link W
  unfolding free_stripes
  free_remote a l = elim a.placement [
    | single peer handle ↦ free_one peer handle l
    | striped ss ↦ free_stripes ss l
  ]

  -- What allocate_remote makes of the second try.
  abbrev pub finish_stripes : ℕ → Link W × (ℕ × List Stripe) → Link W × Result RemoteAllocation
  finish_stripes size (l, (zero, s ∷ ss)) = (l, ok (placed_as size (striped (s ∷ ss))))
  finish_stripes size (l, (left, ss)) = (free_stripes ss l, throw runtime_error)

  -- allocate_remote up to the entry in remote_handles_, which its caller makes.
  unfoldable pub allocate_remote : ℕ → Act (Link W) RemoteAllocation
  unfolding try_single try_stripes candidates free_stripes
  allocate_remote size l =
      let none_yet = connected_peers 0 (net.peers l.world) in
      let l1 : Link W = elim none_yet [
        | [] ↦ record l { world = net.wait_for_peer l.world }
        | i ∷ rest ↦ l
      ] in
      let ps = candidates 0 (net.peers l1.world) in
      let (l2, found) = try_single size ps l1 in
      elim found [
        | some (h, i) ↦ (l2, ok (placed_as size (single i h)))
        | none ↦
            if ltb 1 (length ps)
            then finish_stripes size (try_stripes size 0 ps l2)
            else (l2, throw runtime_error)
      ]
