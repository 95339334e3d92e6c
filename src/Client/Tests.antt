-- ===== src/Client/Tests.antt =====
-- A client whose first peer serves the tracker in which session 7 has handle 1.
use ram_vram_sharing.Prelude.{◌≡◌, refl, true, false, some, [], ◌∷◌, arith}
use ram_vram_sharing.Memory.Raw.{ok}
use ram_vram_sharing.Memory.Tracker.Tests.{busy_tracker, busy_tracker-IsValid}
use ram_vram_sharing.Memory.Protocol.Tests.{payload, write_ok}
use ram_vram_sharing.Client.Peers.{get_peer}
use ram_vram_sharing.Client.Link.{Link, is_connected}
use ram_vram_sharing.Client.Remote.{single, placed_as}
use ram_vram_sharing.Client.Transfer.{write_remote, read_remote}
use ram_vram_sharing.Client.Hosted.{Hosts, memory_daemons, read_remote-write_remote}
use ram_vram_sharing.Client.Sample.{small_peer}

abbrev hosts : Link Hosts
hosts = record {
  world = record { trackers = λ p. busy_tracker; peers = small_peer ∷ [] };
  next_request_id = 1;
}

hosts_up : is_connected (memory_daemons 7) 0 hosts ≡ true
unfolding get_peer
hosts_up = refl

read_remote-write_remote_example :
    (l1 : Link Hosts) × (l2 : Link Hosts) × (write_remote
        (memory_daemons 7)
        (placed_as 6 (single 0 1))
        2
        payload
        hosts
      ≡ some (l1, ok tt))
    × (read_remote (memory_daemons 7) (placed_as 6 (single 0 1)) 2 3 false l1
        ≡ some (l2, ok payload))
read_remote-write_remote_example =
    read_remote-write_remote 7 6 0 1 2 65 (66 ∷ 67 ∷ []) hosts hosts_up busy_tracker-IsValid
      (omega arith) write_ok
