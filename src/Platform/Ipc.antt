-- ===== src/Platform/Ipc.antt =====
-- platform/src/linux/local_ipc_linux.cpp, which stands in platform/src/macos/local_ipc_mac.cpp once
-- more: requests between processes of one host, over a stream with length prefixes. What read() and
-- write() answer is a list of outcomes, which ends where the connection breaks.
pub mod Exchange
pub mod Answer
mod Tests
use ram_vram_sharing.Prelude.{
  ℕ, suc, ◌+◌, ◌-◌, ◌*◌, ◌/◌, ◌%◌, min, Bool, true, false, not, ◌&&◌, ◌||◌, List, [], ◌∷◌, ◌++◌,
  ltb, ◌==◌, if◌then◌else◌, length, get_or, take, drop,
}

abbrev pub max_ipc_message_bytes : ℕ
max_ipc_message_bytes = 67108864

abbrev pub u32_mod : ℕ
u32_mod = 4294967296

-- sizeof(addr.sun_path)
abbrev pub sun_path_size : ℕ
sun_path_size = 108

-- A call moves at most `n + 1` bytes, is interrupted (EINTR), or fails.
pub data Outcome : Type 0 where
  moved : ℕ → Outcome
  interrupted : Outcome
  failed : Outcome

-- What read_exact leaves: its result, the bytes read, those that wait, and the outcomes to come.
pub record Read : Type 0 where
  pub complete : Bool
  pub bytes : List ℕ
  pub waiting : List ℕ
  pub left : List Outcome

-- `incoming` is what the peer has written; behind it the stream has ended.
pub read_exact : List Outcome → ℕ → List ℕ → Read
read_exact [] len incoming = record {
  complete = len == 0;
  bytes = [];
  waiting = incoming;
  left = [];
}
read_exact (o ∷ os) len incoming =
    let broken : Read = record { complete = false; bytes = []; waiting = incoming; left = os } in
    let step : Read = elim o [
      | failed ↦ broken
      | interrupted ↦ read_exact os len incoming
      | moved n ↦
          let k = min (min (suc n) len) (length incoming) in
          let rest = read_exact os (len - k) (drop k incoming) in
          if k == 0 then broken else record rest { bytes = take k incoming ++ rest.bytes }
    ] in
    if len == 0
    then record { complete = true; bytes = []; waiting = incoming; left = o ∷ os }
    else step

pub record Written : Type 0 where
  pub complete : Bool
  pub sent : List ℕ
  pub left : List Outcome

pub write_exact : List Outcome → List ℕ → Written
write_exact [] source = record { complete = length source == 0; sent = []; left = [] }
write_exact (o ∷ os) source =
    let broken : Written = record { complete = false; sent = []; left = os } in
    let step : Written = elim o [
      | failed ↦ broken
      | interrupted ↦ write_exact os source
      | moved n ↦
          let rest = write_exact os (drop (suc n) source) in
          record rest { sent = take (suc n) source ++ rest.sent }
    ] in
    if length source == 0 then record { complete = true; sent = []; left = o ∷ os } else step

-- A uint32_t in memory, on a machine that stores the low byte first.
unfoldable pub encode_u32 : ℕ → List ℕ
encode_u32 n = n % 256 ∷ n / 256 % 256 ∷ n / 65536 % 256 ∷ n / 16777216 % 256 ∷ []

unfoldable pub decode_u32 : List ℕ → ℕ
decode_u32 bytes =
    get_or bytes 0 0
    + get_or bytes 1 0 * 256
    + get_or bytes 2 0 * 65536
    + get_or bytes 3 0 * 16777216

unfoldable pub set_sun_path : List ℕ → Bool
set_sun_path name = not (length name == 0) && ltb (length name) sun_path_size

-- The bytes that serve_client writes; `handler` is handler_, which is set while the loop runs.
unfoldable pub serve_client : List Outcome → (List ℕ → List ℕ) → List ℕ → List ℕ
unfolding read_exact write_exact encode_u32 decode_u32
serve_client os handler incoming =
    let prefix = read_exact os 4 incoming in
    let len = decode_u32 prefix.bytes in
    let body = read_exact prefix.left len prefix.waiting in
    let resp = handler body.bytes in
    let resp_len = length resp % u32_mod in
    let first = write_exact body.left (encode_u32 resp_len) in
    let second = write_exact first.left resp in
    if not prefix.complete
    then []
    else if ltb max_ipc_message_bytes len
    then []
    else if not body.complete
    then []
    else if not first.complete || resp_len == 0
    then first.sent
    else first.sent ++ second.sent

-- `connects` is whether socket() and connect() succeed, and `peer` what the other side writes when
-- it has received some bytes. The empty list also stands for a failure.
unfoldable pub send_request : List Outcome → Bool → (List ℕ → List ℕ) → List ℕ → List ℕ → List ℕ
unfolding read_exact write_exact encode_u32 decode_u32 set_sun_path
send_request os connects peer name req =
    let first = write_exact os (encode_u32 (length req % u32_mod)) in
    let second = write_exact first.left req in
    let incoming = peer (first.sent ++ second.sent) in
    let prefix = read_exact second.left 4 incoming in
    let resp_len = decode_u32 prefix.bytes in
    let body = read_exact prefix.left resp_len prefix.waiting in
    if ltb max_ipc_message_bytes (length req)
    then []
    else if not (set_sun_path name)
    then []
    else if not connects
    then []
    else if not (first.complete && second.complete)
    then []
    else if not prefix.complete
    then []
    else if ltb max_ipc_message_bytes resp_len
    then []
    else if resp_len == 0
    then []
    else if body.complete
    then body.bytes
    else []
