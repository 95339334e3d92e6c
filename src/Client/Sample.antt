-- ===== src/Client/Sample.antt =====
-- Test data of the client: two connected peers with four free bytes each, which grant every request.
use ram_vram_sharing.Prelude.{ℕ, ◌+◌, true, some, List, [], ◌∷◌}
use ram_vram_sharing.Memory.Protocol.{status_ok, Response, Request}
use ram_vram_sharing.Client.Peers.{RemotePeer}
use ram_vram_sharing.Client.Link.{response, World, Link}
use ram_vram_sharing.Client.Remote.{Stripe}

abbrev pub small_peer : RemotePeer
small_peer = record {
  ip = 49 ∷ [];
  port = 9200;
  connected = true;
  free_ram_bytes = 4;
  free_vram_bytes = 0;
  capacity_known = true;
  last_capacity_update = 0;
}

abbrev pub granted : Request → Response
granted req = record {
  request_id = req.request_id;
  status = status_ok;
  handle = 5;
  payload = some (7 ∷ 7 ∷ []);
  checksum = 0;
}

-- The world counts the requests.
abbrev pub granting : World ℕ
granting = record {
  call = λ peer req n. (n + 1, response (granted req));
  peers = λ n. small_peer ∷ small_peer ∷ [];
  wait_for_peer = λ n. n;
}

abbrev pub link : Link ℕ
link = record { world = 0; next_request_id = 1 }

-- Six bytes: four on the first peer and two on the second.
abbrev pub stripes : List Stripe
stripes =
    record { remote_handle = 5; offset = 0; length = 4; peer = 0 }
    ∷ record { remote_handle = 5; offset = 4; length = 2; peer = 1 }
    ∷ []
