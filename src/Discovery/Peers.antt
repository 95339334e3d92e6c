-- ===== src/Discovery/Peers.antt =====
-- discoveryd/src/peer_table.cpp and its header. The sixteen bytes of a node id are one number, texts
-- are lists of characters, and the steady clock counts nanoseconds. The mutex makes each method one
-- step, at the time `now`.
pub mod Expiry
mod Tests
use ram_vram_sharing.Prelude.{
  ℕ, ◌+◌, ◌-◌, ◌*◌, ◌/◌, Bool, true, false, Option, none, some, List, [], ◌∷◌, map, ltb,
  if◌then◌else◌, lookup, erase, assign,
}

pub data PeerState : Type 0 where
  active stale evicted : PeerState

pub record PeerInfo : Type 0 where
  pub id : ℕ
  pub hostname : List ℕ
  pub address : List ℕ
  pub free_ram_bytes : ℕ
  pub free_vram_bytes : ℕ
  pub memory_port : ℕ
  pub gpu_port : ℕ
  pub last_seen : ℕ
  pub state : PeerState

pub record PeerTable : Type 0 where
  pub peers : List (ℕ × PeerInfo)
  pub ttl_seconds : ℕ

unfoldable pub update : PeerInfo → ℕ → PeerTable → PeerTable
update info now t = record t {
  peers = assign info.id (record info { last_seen = now; state = active }) t.peers;
}

-- Whole seconds since the peer was seen.
abbrev pub elapsed : ℕ → PeerInfo → ℕ
elapsed now p = (now - p.last_seen) / 1000000000

-- One round of the loop of tick: `none` when the peer is erased.
pub tick_peer : ℕ → ℕ → PeerInfo → Option PeerInfo
tick_peer ttl now p =
    if ltb (ttl * 3) (elapsed now p)
    then none
    else if ltb ttl (elapsed now p)
    then some (record p { state = stale })
    else some (record p { state = active })

-- A peer goes back under its key, or is gone.
abbrev pub put_back : ℕ → Option PeerInfo → List (ℕ × PeerInfo) → List (ℕ × PeerInfo)
put_back k none m = m
put_back k (some p) m = (k, p) ∷ m

pub tick_peers : ℕ → ℕ → List (ℕ × PeerInfo) → List (ℕ × PeerInfo)
unfolding tick_peer
tick_peers ttl now [] = []
tick_peers ttl now ((k, p) ∷ m) = put_back k (tick_peer ttl now p) (tick_peers ttl now m)

unfoldable pub tick : ℕ → PeerTable → PeerTable
unfolding tick_peers
tick now t = record t { peers = tick_peers t.ttl_seconds now t.peers }

unfoldable pub get_peers : PeerTable → List PeerInfo
get_peers t = map (λ e. e.1) t.peers

-- `none` is std::out_of_range.
unfoldable pub get_peer : ℕ → PeerTable → Option PeerInfo
get_peer id t = lookup id t.peers

unfoldable pub remove_peer : ℕ → PeerTable → PeerTable
remove_peer id t = record t { peers = erase id t.peers }

abbrev pub is_active : PeerState → Bool
is_active active = true
is_active stale = false
is_active evicted = false

abbrev pub count_active : List (ℕ × PeerInfo) → ℕ
count_active [] = 0
count_active ((k, p) ∷ m) = (if is_active p.state then 1 else 0) + count_active m

unfoldable pub active_count : PeerTable → ℕ
active_count t = count_active t.peers
