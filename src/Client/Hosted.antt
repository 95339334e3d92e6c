-- ===== src/Client/Hosted.antt =====
-- A client whose peers are memory daemons: memclient/src/client_api.cpp over
-- memoryd/src/memory_protocol.cpp, each peer with the page tracker of its host.
use ram_vram_sharing.Prelude.{
  ℕ, ◌≤◌, ◌≡◌, refl, ap, ◌∙◌, true, false, some, List, ◌∷◌, arith, ◌==◌, if◌then◌else◌, length,
}
use ram_vram_sharing.Memory.Raw.{update, ok}
use ram_vram_sharing.Common.Crc.{crc32c}
use ram_vram_sharing.Memory.Tracker.{Tracker}
use ram_vram_sharing.Memory.Tracker.Invariant.{IsValid}
use ram_vram_sharing.Memory.Protocol.{status_ok, max_message_size, process_verified}
use ram_vram_sharing.Memory.Protocol.Service.{read_back}
use ram_vram_sharing.Client.Peers.{RemotePeer}
use ram_vram_sharing.Client.Act.{continue, pure}
use ram_vram_sharing.Client.Link.{
  response, World, Link, sync_remote_call, write_request, read_request, is_connected,
}
use ram_vram_sharing.Client.Remote.{single, placed_as}
use ram_vram_sharing.Client.Transfer.{write_remote, read_remote, read_part, read_bytes}

pub record Hosts : Type 0 where
  pub trackers : ℕ → Tracker
  pub peers : List RemotePeer

-- Every request reaches the daemon of its peer, in the session `session`, and is answered.
abbrev pub memory_daemons : ℕ → World Hosts
memory_daemons session = record {
  call = λ peer req w.
      let (t, r) = process_verified req session (w.trackers peer) in
      (record w { trackers = update w.trackers peer t }, response r);
  peers = λ w. w.peers;
  wait_for_peer = λ w. w;
}

same_key : (n : ℕ) → (n == n) ≡ true
same_key n = ground arith

read_part_lem :
    (session peer handle offset b : ℕ) (bs : List ℕ) (l : Link Hosts)
    → (process_verified
        (read_request handle offset (length (b ∷ bs)) l.next_request_id)
        session
        (l.world.trackers peer)).1
      ≡ record {
        request_id = l.next_request_id;
        status = status_ok;
        handle = 0;
        payload = some (b ∷ bs);
        checksum = crc32c (b ∷ bs) 0;
      }
    → (read_part (memory_daemons session) peer handle offset (length (b ∷ bs)) false l).1
      ≡ ok (b ∷ bs)
unfolding sync_remote_call
read_part_lem session peer handle offset b bs l e =
    ap
      (λ r.
        (continue
          (
            (sync_remote_call (memory_daemons session) peer
                (read_request handle offset (length (b ∷ bs))) l).0,
            read_bytes (response r),
          )
          λ bytes. pure bytes).1)
      e

-- Bytes that a client writes into a block on a connected peer are what it reads back: when the
-- daemon of the peer, its tracker valid, answers the WRITE of at least one byte and at most the
-- maximal message size with OK, `write_remote` ends without an exception and a `read_remote` of the
-- same range after it ends with those bytes.
pub read_remote-write_remote :
    (session size peer handle offset b : ℕ) (bs : List ℕ) (l : Link Hosts)
    → is_connected (memory_daemons session) peer l ≡ true
    → IsValid (l.world.trackers peer)
    → length (b ∷ bs) ≤ max_message_size
    → (process_verified
        (write_request handle offset (b ∷ bs) l.next_request_id)
        session
        (l.world.trackers peer)).1.status
      ≡ status_ok
    → (l1 : Link Hosts) × (l2 : Link Hosts) × (write_remote
          (memory_daemons session)
          (placed_as size (single peer handle))
          offset
          (b ∷ bs)
          l
        ≡ some (l1, ok tt))
      × (read_remote
            (memory_daemons session)
            (placed_as size (single peer handle))
            offset
            (length (b ∷ bs))
            false
            l1
          ≡ some (l2, ok (b ∷ bs)))
unfolding write_remote read_remote sync_remote_call
read_remote-write_remote session size peer handle offset b bs l up v small done =
    let net = memory_daemons session in
    let bytes = b ∷ bs in
    let t = l.world.trackers peer in
    let l1 = (sync_remote_call net peer (write_request handle offset bytes) l).0 in
    let t1 = (process_verified (write_request handle offset bytes l.next_request_id) session t).0 in
    let stored : l1.world.trackers peer ≡ t1 =
      ap (λ self. if self then t1 else t) (same_key peer) in
    let answer_ =
      ap
        (λ t.
          (process_verified (read_request handle offset (length bytes) l1.next_request_id) session
            t).1)
        stored
      ∙ read_back t session l.next_request_id l1.next_request_id handle offset b bs v small done in
    let l2 = (read_part net peer handle offset (length bytes) false l1).0 in
    (
      l1,
      l2,
      rw up refl,
      rw up (ap (λ r. some (l2, r)) (read_part_lem session peer handle offset b bs l1 answer_)),
    )
