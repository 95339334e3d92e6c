-- ===== src/Client/Remote/Tests.antt =====
-- Six bytes on two peers of four.
use ram_vram_sharing.Prelude.{ℕ, ◌≡◌, refl}
use ram_vram_sharing.Memory.Raw.{ok}
use ram_vram_sharing.Client.Link.{Link, sync_remote_call}
use ram_vram_sharing.Client.Peers.{get_peer, connected_peers}
use ram_vram_sharing.Client.Remote.{
  striped, placed_as, sort_in, candidates, try_single, try_stripes, allocate_remote,
}
use ram_vram_sharing.Client.Remote.Placed.{IsPlaced, allocate_remote-IsPlaced}
use ram_vram_sharing.Client.Sample.{granting, link, stripes}

abbrev linked : Link ℕ
linked = record { world = 2; next_request_id = 3 }

granted_in_stripes : allocate_remote granting 6 link ≡ (linked, ok (placed_as 6 (striped stripes)))
unfolding allocate_remote try_single try_stripes candidates sort_in sync_remote_call connected_peers
    get_peer
granted_in_stripes = refl

allocate_remote-IsPlaced_example :
    let n : ℕ = 6 in (n ≡ n) × IsPlaced (placed_as 6 (striped stripes))
allocate_remote-IsPlaced_example = allocate_remote-IsPlaced granting 6 link granted_in_stripes
