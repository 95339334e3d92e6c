-- ===== src/Control/Tests.antt =====
-- A node whose memoryd has two of three pages of four bytes free.
use ram_vram_sharing.Prelude.{
  ℕ, ◌*◌, ◌%◌, refl, true, false, List, [], ◌∷◌, ◌==◌, if◌then◌else◌, u64_mod,
}
use ram_vram_sharing.Memory.Slab.{free, allocated, Slab, free_pages_count}
use ram_vram_sharing.Discovery.Peers.{PeerTable}
use ram_vram_sharing.Control.{DiscoveryDaemon, on_tick}
use ram_vram_sharing.Control.Capacity.{begun, Heard, capacity_lem}

abbrev slab : Slab
slab = record {
  page_size = 4;
  total_pages = 3;
  buffer = λ a. a;
  page_states = λ q. if q == 0 then allocated else free;
  free_list = 2 ∷ 1 ∷ [];
}

abbrev node_id : List ℕ
node_id = 1 ∷ 2 ∷ 3 ∷ 4 ∷ 5 ∷ 6 ∷ 7 ∷ 8 ∷ 9 ∷ 10 ∷ 11 ∷ 12 ∷ 13 ∷ 14 ∷ 15 ∷ 16 ∷ []

abbrev empty_table : PeerTable
empty_table = record { peers = []; ttl_seconds = 10 }

abbrev daemon : DiscoveryDaemon
daemon = record {
  local_id = node_id;
  local_hostname = 97 ∷ [];
  free_ram = 0;
  free_vram = 0;
  pool_joined = true;
  announcer = record {
    local_id = node_id;
    local_hostname = 97 ∷ [];
    listen_address = 98 ∷ [];
    memory_port = 9200;
    gpu_port = 9300;
    free_ram = 0;
    free_vram = 0;
    pool_joined = true;
    is_running = false;
  };
  peer_table = empty_table;
  pool_probe = record { free_bytes = 0; total_bytes = 0; available = false };
}

capacity_lem_example :
    let d1 = begun true slab 1 daemon in
    let d2 = on_tick 20 1000 d1 in
    Heard 0 5 30 d1.announcer empty_table
    × Heard (free_pages_count slab * 4 % u64_mod) 5 30 d2.announcer empty_table
capacity_lem_example = capacity_lem true slab 1 20 1000 5 30 daemon empty_table refl refl refl
