-- ===== src/Control.antt =====
-- The control protocol of the two daemons, over the tables of common/schemas/control.fbs:
-- memoryd/src/memory_control.cpp and discoveryd/src/control_socket.cpp answer it,
-- discoveryd/src/pool_probe.cpp and memclient/src/client_api.cpp ask, and
-- discoveryd/src/discovery_daemon.cpp announces what the probe learns. Buffers that a verifier refuses
-- are `none`; the human-readable text of a response is left out.
pub mod Capacity
mod Tests
use ram_vram_sharing.Prelude.{
  ℕ, ◌+◌, ◌-◌, ◌*◌, ◌/◌, ◌%◌, ◌^◌, Bool, true, false, not, Option, none, some, List, [], ◌∷◌, map,
  ◌==◌, if◌then◌else◌, u64_mod,
}
use ram_vram_sharing.Memory.Slab.{Slab, free_pages_count}
use ram_vram_sharing.Discovery.Peers.{PeerInfo, PeerTable, is_active, get_peers, active_count, tick}
use ram_vram_sharing.Discovery.Announce.{Announcer, update_metrics, start}
use ram_vram_sharing.Client.Peers.{PeerEndpoint}

pub data ControlCommand : Type 0 where
  list_peers get_local_status join_pool_command leave_pool_command get_memory_stats : ControlCommand
  other_command : ℕ → ControlCommand

pub record ControlRequest : Type 0 where
  pub command : ControlCommand
  pub request_id : ℕ

-- A peer in the answer to LIST_PEERS.
pub record ListedPeer : Type 0 where
  pub id : ℕ
  pub hostname : List ℕ
  pub address : Option (List ℕ)
  pub free_ram_bytes : ℕ
  pub free_vram_bytes : ℕ
  pub memory_port : ℕ
  pub gpu_port : ℕ
  pub active : Bool
  pub last_seen_ms : ℕ

pub record LocalStatus : Type 0 where
  pub local_node_id : List ℕ
  pub local_hostname : List ℕ
  pub local_free_ram : ℕ
  pub local_free_vram : ℕ
  pub pool_joined : Bool
  pub peer_count : ℕ

-- Fields that are left out read as 0.
pub record ControlResponse : Type 0 where
  pub request_id : ℕ
  pub success : Bool
  pub peers : Option (List ListedPeer)
  pub local : Option LocalStatus
  pub pool_total_bytes : ℕ
  pub pool_used_bytes : ℕ
  pub pool_free_bytes : ℕ

abbrev pub plain_response : ℕ → Bool → ControlResponse
plain_response id success = record {
  request_id = id;
  success = success;
  peers = none;
  local = none;
  pool_total_bytes = 0;
  pool_used_bytes = 0;
  pool_free_bytes = 0;
}

-- MemoryControlSocket::handle_request; the allocator may be missing.
unfoldable pub answer_memory : Option Slab → Option ControlRequest → Option ControlResponse
answer_memory allocator none = none
answer_memory none (some req) = some (plain_response req.request_id false)
answer_memory (some s) (some req) = elim req.command [
  | get_memory_stats ↦
      let total = s.total_pages * s.page_size % u64_mod in
      let free = free_pages_count s * s.page_size % u64_mod in
      some (record (plain_response req.request_id true) {
        pool_total_bytes = total;
        pool_used_bytes = (total + u64_mod - free) % u64_mod;
        pool_free_bytes = free;
      })
  | _ ↦ some (plain_response req.request_id false)
]

-- The last good answer of memoryd, and whether the last poll had one.
pub record PoolProbe : Type 0 where
  pub free_bytes : ℕ
  pub total_bytes : ℕ
  pub available : Bool

-- poll_once for a probe with a socket name, from what send_request gives: `none` is an exception, a
-- short buffer, or one that the verifier refuses.
unfoldable pub poll_once : Option ControlResponse → PoolProbe → PoolProbe × Bool
poll_once none p = (record p { available = false }, false)
poll_once (some r) p =
    if r.success
    then (
      record { free_bytes = r.pool_free_bytes; total_bytes = r.pool_total_bytes; available = true },
      true,
    )
    else (record p { available = false }, false)

pub record DiscoveryDaemon : Type 0 where
  pub local_id : List ℕ
  pub local_hostname : List ℕ
  pub free_ram : ℕ
  pub free_vram : ℕ
  pub pool_joined : Bool
  pub announcer : Announcer
  pub peer_table : PeerTable
  pub pool_probe : PoolProbe

abbrev pub update_announcer_state : DiscoveryDaemon → DiscoveryDaemon
update_announcer_state d = record d {
  announcer = record d.announcer { pool_joined = d.pool_joined };
}

unfoldable pub join_pool : DiscoveryDaemon → DiscoveryDaemon
join_pool d =
    if not d.pool_joined then update_announcer_state (record d { pool_joined = true }) else d

unfoldable pub leave_pool : DiscoveryDaemon → DiscoveryDaemon
leave_pool d =
    if d.pool_joined then update_announcer_state (record d { pool_joined = false }) else d

-- `os_free` is what the memory monitor of the system reports, 0 where there is none.
abbrev pub current_free_ram : ℕ → DiscoveryDaemon → ℕ
current_free_ram os_free d = if d.pool_probe.available then d.pool_probe.free_bytes else os_free

-- What run does before its loop starts, in a daemon that is not running: the announcer's timer is set
-- to fire at once, and memoryd is asked, which gives `answer`. `bound` says whether the announcer's
-- socket was bound. The daemon's own timer fires a second later.
unfoldable pub begin_run : Bool → Option ControlResponse → DiscoveryDaemon → DiscoveryDaemon
begin_run bound answer d =
    let started = update_announcer_state (record d { announcer = start bound d.announcer }) in
    record started { pool_probe = (poll_once answer d.pool_probe).0 }

-- The timer of run, each second.
unfoldable pub on_tick : ℕ → ℕ → DiscoveryDaemon → DiscoveryDaemon
on_tick now os_free d =
    let free_ram = current_free_ram os_free d in
    record d {
      peer_table = tick now d.peer_table;
      free_ram = free_ram;
      free_vram = 0;
      announcer = update_metrics free_ram 0 d.announcer;
    }

abbrev pub listed : ℕ → PeerInfo → ListedPeer
listed now p = record {
  id = p.id;
  hostname = p.hostname;
  address = some p.address;
  free_ram_bytes = p.free_ram_bytes;
  free_vram_bytes = p.free_vram_bytes;
  memory_port = p.memory_port;
  gpu_port = p.gpu_port;
  active = is_active p.state;
  last_seen_ms = (now - p.last_seen) / 1000000;
}

abbrev pub local_status : DiscoveryDaemon → LocalStatus
local_status d = record {
  local_node_id = d.local_id;
  local_hostname = d.local_hostname;
  local_free_ram = d.free_ram;
  local_free_vram = d.free_vram;
  pool_joined = d.pool_joined;
  peer_count = active_count d.peer_table % 2 ^ 32;
}

-- ControlSocket::handle_request of a daemon, for a buffer that verifies.
unfoldable pub answer_discovery :
    ℕ → ControlRequest → DiscoveryDaemon → DiscoveryDaemon × ControlResponse
answer_discovery now req d =
    let done = plain_response req.request_id true in
    elim req.command [
      | list_peers ↦ (d, record done { peers = some (map (listed now) (get_peers d.peer_table)) })
      | join_pool_command ↦ (join_pool d, done)
      | leave_pool_command ↦ (leave_pool d, done)
      | get_local_status ↦ (d, record done { local = some (local_status d) })
      | _ ↦ (d, plain_response req.request_id false)
    ]

-- The loop of query_discovery over the peers of a response: those without a memory port or an address
-- are passed over.
pub endpoints : List ListedPeer → List PeerEndpoint
endpoints [] = []
endpoints (p ∷ ps) =
    let rest = endpoints ps in
    if p.memory_port == 0 then rest else elim p.address [
      | none ↦ rest
      | some ip ↦
          let ep : PeerEndpoint = record {
            ip = ip;
            port = p.memory_port;
            free_ram_bytes = p.free_ram_bytes;
            free_vram_bytes = p.free_vram_bytes;
          } in
          ep ∷ rest
    ]

-- query_discovery, from what send_request gives.
unfoldable pub query_discovery : Option ControlResponse → List PeerEndpoint
unfolding endpoints
query_discovery none = []
query_discovery (some r) = elim r.peers [ none ↦ [] | some ps ↦ endpoints ps ]
