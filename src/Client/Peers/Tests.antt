-- ===== src/Client/Peers/Tests.antt =====
-- A list with one peer, and a second one that is announced.
use ram_vram_sharing.Prelude.{◌≡◌, refl, true, some, [], ◌∷◌}
use ram_vram_sharing.Client.Peers.{RemotePeer, get_peer}

abbrev first_peer : RemotePeer
first_peer = record {
  ip = 49 ∷ [];
  port = 9200;
  connected = true;
  free_ram_bytes = 4;
  free_vram_bytes = 0;
  capacity_known = true;
  last_capacity_update = 0;
}

first_peer_found : get_peer 0 (first_peer ∷ []) ≡ some first_peer
unfolding get_peer
first_peer_found = refl
