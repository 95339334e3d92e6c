-- ===== src/Control/Capacity.antt =====
-- The free bytes of a pool, from the slab allocator of one host to the peer table of another.
use mathlib.Core.Path.{subst}
use ram_vram_sharing.Prelude.{
  ℕ, suc, ◌*◌, ◌%◌, ◌≡◌, refl, ap, ◌∙◌, inl, inr, Bool, true, some, arith, Bool-cases, u64_mod,
  length,
}
use ram_vram_sharing.Memory.Slab.{Slab, free_pages_count}
use ram_vram_sharing.Discovery.Peers.{active, PeerInfo, PeerTable, get_peer}
use ram_vram_sharing.Discovery.Announce.{Announcer, start, on_timer, id_number, on_recv}
use ram_vram_sharing.Discovery.Announce.Heard.{on_recv-on_timer}
use ram_vram_sharing.Control.{
  get_memory_stats, ControlRequest, answer_memory, poll_once, DiscoveryDaemon, leave_pool,
  begin_run, on_tick,
}

abbrev pub stats_request : ℕ → ControlRequest
stats_request id = record { command = get_memory_stats; request_id = id }

-- The daemon when its loop starts, with memoryd's allocator `s`.
abbrev pub begun : Bool → Slab → ℕ → DiscoveryDaemon → DiscoveryDaemon
begun bound s id = begin_run bound (answer_memory (some s) (some (stats_request id)))

-- That a node which hears the announcement of `a` has it as an active peer with so many free bytes.
abbrev pub Heard : ℕ → ℕ → ℕ → Announcer → PeerTable → Type 0
Heard bytes heartbeat_ts heard_at a t =
    (p : PeerInfo) × (get_peer (id_number a.local_id)
        (on_recv (some (on_timer heartbeat_ts a)) heard_at t)
      ≡ some p)
    × (p.free_ram_bytes ≡ bytes)
    × (p.last_seen ≡ heard_at)
    × (p.state ≡ active)

heard_lem :
    (heartbeat_ts heard_at : ℕ) (a : Announcer) (t : PeerTable)
    → length a.local_id ≡ 16
    → a.pool_joined ≡ true
    → Heard a.free_ram heartbeat_ts heard_at a t
heard_lem heartbeat_ts heard_at a t sized joined =
    let heard =
      on_recv-on_timer a heartbeat_ts heard_at (suc (id_number a.local_id)) t sized (omega arith) in
    (_, heard.0, rw joined refl, refl, refl)

start_lem :
    (bound : Bool) (a : Announcer)
    → ((start bound a).local_id ≡ a.local_id) × ((start bound a).free_ram ≡ a.free_ram)
start_lem bound a = ground arith

begun_lem :
    (bound : Bool) (s : Slab) (id : ℕ) (d : DiscoveryDaemon)
    → let d' = begun bound s id d in
      (d'.announcer ≡ record (start bound d.announcer) { pool_joined = d.pool_joined })
      × (d'.pool_probe.available ≡ true)
      × (d'.pool_probe.free_bytes ≡ free_pages_count s * s.page_size % u64_mod)
unfolding begin_run answer_memory poll_once
begun_lem bound s id d = (refl, refl, refl)

ticked_lem :
    (now os_free : ℕ) (d : DiscoveryDaemon)
    → d.pool_probe.available ≡ true
    → (on_tick now os_free d).announcer
      ≡ record d.announcer { free_ram = d.pool_probe.free_bytes; free_vram = 0 }
unfolding on_tick
ticked_lem now os_free d e = rw e refl

-- A node in the pool whose daemon starts, and which has an answer of memoryd at once, announces no
-- free byte at first, since the answer reaches its announcer only with the daemon's timer: a node that
-- hears it has it as an active peer with 0 free bytes. Once the timer has run, it announces the size
-- of the free pages of memoryd's allocator, whatever the system reports, and a node that hears it has
-- it with that many free bytes.
pub capacity_lem :
    (bound : Bool) (s : Slab) (id now os_free heartbeat_ts heard_at : ℕ) (d : DiscoveryDaemon)
    (t : PeerTable)
    → length d.announcer.local_id ≡ 16
    → d.announcer.free_ram ≡ 0
    → d.pool_joined ≡ true
    → let d1 = begun bound s id d in
      let d2 = on_tick now os_free d1 in
      Heard 0 heartbeat_ts heard_at d1.announcer t
      × Heard (free_pages_count s * s.page_size % u64_mod) heartbeat_ts heard_at d2.announcer t
capacity_lem bound s id now os_free heartbeat_ts heard_at d t sized fresh joined =
    let d1 = begun bound s id d in
    let d2 = on_tick now os_free d1 in
    let b = begun_lem bound s id d in
    let same = start_lem bound d.announcer in
    let k = ticked_lem now os_free d1 b.1 in
    let len1 : length d1.announcer.local_id ≡ 16 =
      ap (λ a. length a.local_id) b.0 ∙ ap length same.0 ∙ sized in
    let in1 : d1.announcer.pool_joined ≡ true = ap (λ a. a.pool_joined) b.0 ∙ joined in
    let free1 : d1.announcer.free_ram ≡ 0 = ap (λ a. a.free_ram) b.0 ∙ same.1 ∙ fresh in
    let free2 : d2.announcer.free_ram ≡ free_pages_count s * s.page_size % u64_mod =
      ap (λ a. a.free_ram) k ∙ b.2 in
    let len2 : length d2.announcer.local_id ≡ 16 = ap (λ a. length a.local_id) k ∙ len1 in
    let in2 : d2.announcer.pool_joined ≡ true = ap (λ a. a.pool_joined) k ∙ in1 in
    (
      subst (λ n. Heard n heartbeat_ts heard_at d1.announcer t) free1
          (heard_lem heartbeat_ts heard_at d1.announcer t len1 in1),
      subst (λ n. Heard n heartbeat_ts heard_at d2.announcer t) free2
          (heard_lem heartbeat_ts heard_at d2.announcer t len2 in2),
    )

-- A daemon that leaves the pool announces no capacity.
pub leave_pool-on_timer :
    (heartbeat_ts : ℕ) (d : DiscoveryDaemon)
    → d.announcer.pool_joined ≡ d.pool_joined
    → let ann = on_timer heartbeat_ts (leave_pool d).announcer in
      (ann.free_ram_bytes ≡ 0) × (ann.free_vram_bytes ≡ 0)
unfolding leave_pool on_timer
leave_pool-on_timer heartbeat_ts d same = elim (Bool-cases d.pool_joined) [
  | inl joined ↦ rw (joined, leave_pool, on_timer) (refl, refl)
  | inr out ↦ rw (out, leave_pool, on_timer, same, out) (refl, refl)
]
