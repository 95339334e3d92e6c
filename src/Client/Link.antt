-- ===== src/Client/Link.antt =====
-- memclient/src/client_api.cpp: calls to the memory daemons of peers. The network, the peers behind
-- it, and the list of peers, which another thread keeps up, are the state `W` of a world.
use ram_vram_sharing.Prelude.{ℕ, ◌+◌, ◌%◌, Bool, none, some, List, u64_mod}
use ram_vram_sharing.Memory.Raw.{runtime_error, Result, ok, throw}
use ram_vram_sharing.Common.Crc.{crc32c}
use ram_vram_sharing.Memory.Protocol.{alloc, write_op, read_op, free_op, Request, Response}
use ram_vram_sharing.Client.Act.{Act}
use ram_vram_sharing.Client.Peers.{RemotePeer, connected_at}

-- The bytes that come back for a request: none before the time is up, an empty buffer when the
-- peer dropped, a buffer that the verifier refuses, or a response.
pub data Reply : Type 0 where
  time_out empty malformed : Reply
  response : Response → Reply

-- `call` is what sync_remote_call waits for; `peers` is peers_ under its mutex. `wait_for_peer` is
-- wait_for_connected_peer, which polls discovery by the clock.
pub record World (W : Type 0) : Type 0 where
  pub call : ℕ → Request → W → W × Reply
  pub peers : W → List RemotePeer
  pub wait_for_peer : W → W

-- What the calls use: the world, and the atomic counter of request ids.
pub record Link (W : Type 0) : Type 0 where
  pub world : W
  pub next_request_id : ℕ

abbrev pub alloc_request : ℕ → ℕ → Request
alloc_request size id = record {
  protocol_version = 1;
  request_id = id;
  op = alloc;
  handle = 0;
  size = size;
  offset = 0;
  payload = none;
  checksum = 0;
}

abbrev pub free_request : ℕ → ℕ → Request
free_request handle id = record {
  protocol_version = 1;
  request_id = id;
  op = free_op;
  handle = handle;
  size = 0;
  offset = 0;
  payload = none;
  checksum = 0;
}

abbrev pub write_request : ℕ → ℕ → List ℕ → ℕ → Request
write_request handle offset bytes id = record {
  protocol_version = 1;
  request_id = id;
  op = write_op;
  handle = handle;
  size = 0;
  offset = offset;
  payload = some bytes;
  checksum = crc32c bytes 0;
}

abbrev pub read_request : ℕ → ℕ → ℕ → ℕ → Request
read_request handle offset size id = record {
  protocol_version = 1;
  request_id = id;
  op = read_op;
  handle = handle;
  size = size;
  offset = offset;
  payload = none;
  checksum = 0;
}

-- A buffer that came back, or the exception after ten seconds.
abbrev pub awaited : Reply → Result Reply
awaited time_out = throw runtime_error
awaited empty = ok empty
awaited malformed = ok malformed
awaited (response r) = ok (response r)

module _ {W : Type 0} (net : World W) where
  -- A request with the next id, and the wait for its answer.
  unfoldable pub sync_remote_call : ℕ → (ℕ → Request) → Act (Link W) Reply
  sync_remote_call peer request l =
      let (w, reply) = net.call peer (request l.next_request_id) l.world in
      (record { world = w; next_request_id = (l.next_request_id + 1) % u64_mod }, awaited reply)

  abbrev pub is_connected : ℕ → Link W → Bool
  is_connected peer l = connected_at peer (net.peers l.world)
