-- ===== src/Discovery/Announce/Heard.antt =====
-- What one node announces is what another hears.
use mathlib.Core.Path.{ap₂}
use ram_vram_sharing.Prelude.{
  ℕ, ◌<◌, ◌≡◌, refl, ap, ◌∙◌, ◌≢◌, true, false, some, List, [], ◌∷◌, arith, ◌==◌, if◌then◌else◌,
  length, lookup, lookup-assign,
}
use ram_vram_sharing.Discovery.Peers.{active, PeerInfo, PeerTable, update, get_peer}
use ram_vram_sharing.Discovery.Announce.{Announcer, on_timer, id_number, heard_peer, on_recv}

-- All elements are bytes.
abbrev pub AreBytes : List ℕ → Type 0
AreBytes [] = Unit {0}
AreBytes (b ∷ bs) = (b < 256) × AreBytes bs

-- Different node ids have different keys: sixteen bytes are determined by their number.
pub id_number-injective :
    (xs ys : List ℕ)
    → length xs ≡ length ys
    → AreBytes xs
    → AreBytes ys
    → id_number xs ≡ id_number ys
    → xs ≡ ys
unfolding id_number
id_number-injective [] [] l bx by e = refl
id_number-injective [] (y ∷ ys) l bx by e = absurd (omega (arith, l))
id_number-injective (x ∷ xs) [] l bx by e = absurd (omega (arith, l))
id_number-injective (x ∷ xs) (y ∷ ys) l bx by e =
    ap₂ ◌∷◌ (omega (arith, e, bx.0, by.0))
      (id_number-injective xs ys (omega (arith, l)) bx.1 by.1 (omega (arith, e, bx.0, by.0)))

-- An announcement of a node with a well-formed id is entered by whoever hears it: the table then has
-- the announcer's name, address and ports under its id, with the RAM and the VRAM that are free if
-- the announcer has joined the pool and none if not, as seen now and active. The entries of other
-- nodes stay as they were.
pub on_recv-on_timer :
    (a : Announcer) (heartbeat_ts now other : ℕ) (t : PeerTable)
    → length a.local_id ≡ 16
    → id_number a.local_id ≢ other
    → let t' = on_recv (some (on_timer heartbeat_ts a)) now t in
      (get_peer (id_number a.local_id) t'
        ≡ some (record {
          id = id_number a.local_id;
          hostname = a.local_hostname;
          address = a.listen_address;
          free_ram_bytes = if a.pool_joined then a.free_ram else 0;
          free_vram_bytes = if a.pool_joined then a.free_vram else 0;
          memory_port = a.memory_port;
          gpu_port = a.gpu_port;
          last_seen = now;
          state = active;
        }))
      × (get_peer other t' ≡ get_peer other t)
unfolding on_recv on_timer update get_peer
on_recv-on_timer a heartbeat_ts now other t whole apart =
    let sized : length a.local_id == 16 ≡ true = ground arith in
    let new = heard_peer a.local_id (on_timer heartbeat_ts a) in
    let id = id_number a.local_id in
    let v : PeerInfo = record new { last_seen = now; state = active } in
    let same : id == id ≡ true = ground arith in
    let differs : id == other ≡ false = ground arith in
    rw sized (
      lookup-assign id id v t.peers ∙ ap (λ b. if b then some v else lookup id t.peers) same,
      lookup-assign id other v t.peers
          ∙ ap (λ b. if b then some v else lookup other t.peers) differs,
    )
