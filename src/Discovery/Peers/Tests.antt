-- ===== src/Discovery/Peers/Tests.antt =====
-- A table with one peer, and the announcement of another.
use ram_vram_sharing.Prelude.{ℕ, ◌≡◌, refl, ◌≢◌, some, [], ◌∷◌, arith, IsUnique}
use ram_vram_sharing.Discovery.Peers.{active, stale, PeerInfo, PeerTable, update, tick, get_peer}
use ram_vram_sharing.Discovery.Peers.Expiry.{announced_tick}

abbrev peer : ℕ → PeerInfo
peer id = record {
  id = id;
  hostname = [];
  address = [];
  free_ram_bytes = 1000;
  free_vram_bytes = 0;
  memory_port = 9000;
  gpu_port = 0;
  last_seen = 5;
  state = active;
}

abbrev table : PeerTable
table = record { peers = (1, peer 1) ∷ []; ttl_seconds = 10 }

one_not_two : ◌≢◌ {A = ℕ} 1 2
one_not_two = λ e. absurd (omega (arith, e))

announced_tick_example :
    let t' = tick 12000000000 (update (peer 2) 0 table) in
    IsUnique t'.peers
    × (get_peer 2 t' ≡ some (record (peer 2) { last_seen = 0; state = stale }))
    × (get_peer 1 t' ≡ get_peer 1 (tick 12000000000 table))
announced_tick_example = announced_tick (peer 2) 0 12000000000 1 table (refl, tt) one_not_two
