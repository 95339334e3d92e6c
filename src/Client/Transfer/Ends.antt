-- ===== src/Client/Transfer/Ends.antt =====
-- A transfer to or from a placed block, inside its bounds, ends.
use ram_vram_sharing.Prelude.{
  ℕ, ◌+◌, ◌≤◌, ◌≡◌, refl, Bool, true, false, some, List, if◌then◌else◌, length,
}
use ram_vram_sharing.Memory.Raw.{Result}
use ram_vram_sharing.Client.Link.{World, Link, is_connected}
use ram_vram_sharing.Client.Remote.{Placement, single, striped, RemoteAllocation, placed_as}
use ram_vram_sharing.Client.Remote.Placed.{IsPlaced}
use ram_vram_sharing.Client.Transfer.{zeros, write_remote, read_remote}
use ram_vram_sharing.Client.Transfer.Coverage.{write_each, write_remote-write_each}
use ram_vram_sharing.Client.Transfer.Gather.{read_each, read_remote-read_each}

if_ends : {R : Type 0} (b : Bool) (x y : R) → (r : R) × ((if b then some x else some y) ≡ some r)
if_ends true x y = (x, refl)
if_ends false x y = (y, refl)

module _ {W : Type 0} (net : World W) where
  write_remote_ends_at :
      (size : ℕ) (p : Placement) (offset : ℕ) (bytes : List ℕ) (l : Link W)
      → IsPlaced (placed_as size p)
      → offset + length bytes ≤ size
      → (r : Link W × Result (Unit {0})) × (write_remote net (placed_as size p) offset bytes l
          ≡ some r)
  unfolding write_remote
  write_remote_ends_at size (single peer handle) offset bytes l t room =
      if_ends (is_connected net peer l) _ _
  write_remote_ends_at size (striped ss) offset bytes l t room =
      (write_each net ss offset bytes l, write_remote-write_each net size ss offset bytes l t room)

  -- A write into a placed block, inside its bounds, ends.
  pub write_remote_ends :
      (a : RemoteAllocation) (offset : ℕ) (bytes : List ℕ) (l : Link W)
      → IsPlaced a
      → offset + length bytes ≤ a.size
      → (r : Link W × Result (Unit {0})) × (write_remote net a offset bytes l ≡ some r)
  write_remote_ends a offset bytes l p room =
      write_remote_ends_at a.size a.placement offset bytes l p room

  read_remote_ends_at :
      (size : ℕ) (p : Placement) (offset n : ℕ) (release : Bool) (l : Link W)
      → IsPlaced (placed_as size p)
      → offset + n ≤ size
      → (r : Link W × Result (List ℕ)) × (read_remote net (placed_as size p) offset n release l
          ≡ some r)
  unfolding read_remote
  read_remote_ends_at size (single peer handle) offset n release l t room =
      if_ends (is_connected net peer l) _ _
  read_remote_ends_at size (striped ss) offset n release l t room = (
    read_each net ss offset n release (zeros n) l,
    read_remote-read_each net size ss offset n release l t room,
  )

  -- A read from a placed block, inside its bounds, ends.
  pub read_remote_ends :
      (a : RemoteAllocation) (offset n : ℕ) (release : Bool) (l : Link W)
      → IsPlaced a
      → offset + n ≤ a.size
      → (r : Link W × Result (List ℕ)) × (read_remote net a offset n release l ≡ some r)
  read_remote_ends a offset n release l p room =
      read_remote_ends_at a.size a.placement offset n release l p room
