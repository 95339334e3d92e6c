-- ===== src/Client/Peers.antt =====
-- memclient/src/client_api.cpp: the list of peers and its upkeep from what discovery reports. A
-- pointer to a peer is its index: peers are appended, never erased or moved. Times are nanoseconds.
pub mod Upkeep
mod Tests
use ram_vram_sharing.Prelude.{
  ℕ, zero, suc, ◌+◌, ◌-◌, Bool, true, false, not, ◌&&◌, ◌||◌, Option, none, some, List, [], ◌∷◌,
  ◌++◌, ltb, leb, ◌==◌, if◌then◌else◌, length,
}

pub record RemotePeer : Type 0 where
  pub ip : List ℕ
  pub port : ℕ
  pub connected : Bool
  pub free_ram_bytes : ℕ
  pub free_vram_bytes : ℕ
  pub capacity_known : Bool
  pub last_capacity_update : ℕ

-- What discovery reports of a peer.
pub record PeerEndpoint : Type 0 where
  pub ip : List ℕ
  pub port : ℕ
  pub free_ram_bytes : ℕ
  pub free_vram_bytes : ℕ

-- Equality of std::string.
abbrev pub same_text : List ℕ → List ℕ → Bool
same_text [] [] = true
same_text [] (y ∷ ys) = false
same_text (x ∷ xs) [] = false
same_text (x ∷ xs) (y ∷ ys) = x == y && same_text xs ys

abbrev pub may_fit : ℕ → RemotePeer → Bool
may_fit size p = not p.capacity_known || leb size p.free_ram_bytes

-- The search of ensure_peer, from index `i` on.
pub find_peer : List ℕ → ℕ → ℕ → List RemotePeer → Option ℕ
find_peer ip port i [] = none
find_peer ip port i (p ∷ ps) =
    if same_text p.ip ip && p.port == port then some i else find_peer ip port (i + 1) ps

abbrev pub new_peer : List ℕ → ℕ → RemotePeer
new_peer ip port = record {
  ip = ip;
  port = port;
  connected = false;
  free_ram_bytes = 0;
  free_vram_bytes = 0;
  capacity_known = false;
  last_capacity_update = 0;
}

-- The peers, the index of the peer asked for, and whether it was created.
unfoldable pub ensure_peer : List ℕ → ℕ → List RemotePeer → List RemotePeer × ℕ × Bool
unfolding find_peer
ensure_peer ip port ps = elim (find_peer ip port 0 ps) [
  | some i ↦ (ps, i, false)
  | none ↦ (ps ++ new_peer ip port ∷ [], length ps, true)
]

pub change_at : ℕ → (RemotePeer → RemotePeer) → List RemotePeer → List RemotePeer
change_at i f [] = []
change_at zero f (p ∷ ps) = f p ∷ ps
change_at (suc i) f (p ∷ ps) = p ∷ change_at i f ps

unfoldable pub get_peer : ℕ → List RemotePeer → Option RemotePeer
get_peer i [] = none
get_peer zero (p ∷ ps) = some p
get_peer (suc i) (p ∷ ps) = get_peer i ps

abbrev pub reported : PeerEndpoint → ℕ → RemotePeer → RemotePeer
reported ep now p = record p {
  free_ram_bytes = ep.free_ram_bytes;
  free_vram_bytes = ep.free_vram_bytes;
  capacity_known = true;
  last_capacity_update = now;
}

-- Whether the peer at an index is connected.
abbrev pub connected_at : ℕ → List RemotePeer → Bool
connected_at i ps = elim (get_peer i ps) [ none ↦ false | some p ↦ p.connected ]

-- The loop of connect_to_peers over what discovery reports: the peers, and pending_connects_.
pub connect_loop : ℕ → List PeerEndpoint → List RemotePeer × List ℕ → List RemotePeer × List ℕ
unfolding change_at get_peer
connect_loop now [] (ps, pending) = (ps, pending)
connect_loop now (ep ∷ eps) (ps, pending) =
    let (ps', i, created) = ensure_peer ep.ip ep.port ps in
    let ps'' = change_at i (reported ep now) ps' in
    connect_loop now eps (ps'', if connected_at i ps'' then pending else pending ++ i ∷ [])

unfoldable pub connect_to_peers :
    ℕ → List PeerEndpoint → List RemotePeer × List ℕ → List RemotePeer × List ℕ
unfolding connect_loop
connect_to_peers now discovered s = connect_loop now discovered s

-- The indices of the connected peers, from index `i` on.
unfoldable pub connected_peers : ℕ → List RemotePeer → List ℕ
connected_peers i [] = []
connected_peers i (p ∷ ps) =
    if p.connected then i ∷ connected_peers (i + 1) ps else connected_peers (i + 1) ps

abbrev pub capacity_ttl : ℕ
capacity_ttl = 5000000000

-- The first loop of select_best_peer: whether no connected peer has a fresh report.
pub needs_refresh : ℕ → List RemotePeer → Bool
needs_refresh now [] = true
needs_refresh now (p ∷ ps) =
    if p.connected && (p.capacity_known && ltb (now - p.last_capacity_update) capacity_ttl)
    then false
    else needs_refresh now ps

-- The variables of the second loop.
pub record Best : Type 0 where
  pub best_peer : Option ℕ
  pub best_free : ℕ
  pub unknown_peer : Option ℕ

abbrev pub consider : ℕ → ℕ → RemotePeer → Best → Best
consider size i p b =
    if not p.connected
    then b
    else if not p.capacity_known
    then (elim b.unknown_peer [ none ↦ record b { unknown_peer = some i } | some j ↦ b ])
    else if leb size p.free_ram_bytes && ltb b.best_free p.free_ram_bytes
    then record b { best_peer = some i; best_free = p.free_ram_bytes }
    else b

pub best_loop : ℕ → ℕ → List RemotePeer → Best → Best
best_loop size i [] b = b
best_loop size i (p ∷ ps) b = best_loop size (i + 1) ps (consider size i p b)

-- select_best_peer: `discovered` is what discovery reports when it is asked again.
unfoldable pub select_best_peer :
    ℕ → ℕ → List PeerEndpoint → List RemotePeer × List ℕ → (List RemotePeer × List ℕ) × Option ℕ
unfolding best_loop needs_refresh connect_to_peers
select_best_peer size now discovered s =
    let s' = if needs_refresh now s.0 then connect_to_peers now discovered s else s in
    let b =
      best_loop size 0 s'.0 (record { best_peer = none; best_free = 0; unknown_peer = none }) in
    (s', elim b.best_peer [ some i ↦ some i | none ↦ b.unknown_peer ])
