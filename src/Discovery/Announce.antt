-- ===== src/Discovery/Announce.antt =====
-- discoveryd/src/announcer.cpp and discoveryd/src/listener.cpp: the announcement that a node sends to
-- the multicast group, and what a node that hears it enters in its peer table. The network, the timer
-- and the encoding of FlatBuffers are outside: a message is its fields, `none` those left out.
pub mod Heard
use ram_vram_sharing.Prelude.{
  ℕ, ◌+◌, ◌*◌, Bool, true, false, Option, none, some, List, [], ◌∷◌, ◌==◌, if◌then◌else◌, length,
}
use ram_vram_sharing.Memory.Protocol.{check_protocol_version}
use ram_vram_sharing.Discovery.Peers.{active, PeerInfo, PeerTable, update}

pub record Announcement : Type 0 where
  pub protocol_version : ℕ
  pub node_id : Option (List ℕ)
  pub hostname : Option (List ℕ)
  pub free_ram_bytes : ℕ
  pub free_vram_bytes : ℕ
  pub heartbeat_ts : ℕ
  pub memory_port : ℕ
  pub gpu_port : ℕ
  pub listen_address : Option (List ℕ)

pub record Announcer : Type 0 where
  pub local_id : List ℕ
  pub local_hostname : List ℕ
  pub listen_address : List ℕ
  pub memory_port : ℕ
  pub gpu_port : ℕ
  pub free_ram : ℕ
  pub free_vram : ℕ
  pub pool_joined : Bool
  pub is_running : Bool

abbrev pub update_metrics : ℕ → ℕ → Announcer → Announcer
update_metrics free_ram free_vram a = record a { free_ram = free_ram; free_vram = free_vram }

-- start, where `bound` says whether uv_udp_bind succeeded, and stop.
abbrev pub start : Bool → Announcer → Announcer
start bound a = if a.is_running then a else if bound then record a { is_running = true } else a

abbrev pub stop : Announcer → Announcer
stop a = if a.is_running then record a { is_running = false } else a

-- on_timer: a node that has not joined the pool announces no capacity.
unfoldable pub on_timer : ℕ → Announcer → Announcement
on_timer heartbeat_ts a = record {
  protocol_version = 1;
  node_id = some a.local_id;
  hostname = some a.local_hostname;
  free_ram_bytes = if a.pool_joined then a.free_ram else 0;
  free_vram_bytes = if a.pool_joined then a.free_vram else 0;
  heartbeat_ts = heartbeat_ts;
  memory_port = a.memory_port;
  gpu_port = a.gpu_port;
  listen_address = some a.listen_address;
}

-- The sixteen bytes of a node id as one number.
pub id_number : List ℕ → ℕ
id_number [] = 0
id_number (b ∷ bs) = b + 256 * id_number bs

-- A text that may be left out.
abbrev pub text_or_empty : Option (List ℕ) → List ℕ
text_or_empty none = []
text_or_empty (some t) = t

abbrev pub heard_peer : List ℕ → Announcement → PeerInfo
heard_peer id ann = record {
  id = id_number id;
  hostname = text_or_empty ann.hostname;
  address = text_or_empty ann.listen_address;
  free_ram_bytes = ann.free_ram_bytes;
  free_vram_bytes = ann.free_vram_bytes;
  memory_port = ann.memory_port;
  gpu_port = ann.gpu_port;
  last_seen = 0;
  state = active;
}

-- on_recv: `none` is a datagram that is empty or that the verifier refuses.
unfoldable pub on_recv : Option Announcement → ℕ → PeerTable → PeerTable
unfolding id_number
on_recv none now t = t
on_recv (some ann) now t = elim ann.node_id [
  | none ↦ t
  | some id ↦
      if check_protocol_version ann.protocol_version
      then (if length id == 16 then update (heard_peer id ann) now t else t)
      else t
]
