-- ===== src/Peer/Handshake.antt =====
-- src/peer/handshake.rs: the 68 bytes that open a connection. Arrays are lists, their sizes are in
-- `IsSized`; the socket reads and writes are not modelled.
pub mod RoundTrip
use Prim.Native.Nat.{bit_and, bit_or}
use moviehouse.Prelude.{
  ℕ, ◌+◌, ◌-◌, ◌≡◌, List, [], ◌∷◌, ◌++◌, Bool, not, if◌then◌else◌, ◌==◌, length, take, drop, get_or,
  set, replicate, Outcome, ok, err, eq_bytes,
}

-- b"BitTorrent protocol"
abbrev pub protocol_string : List ℕ
protocol_string =
    66 ∷ 105 ∷ 116 ∷ 84 ∷ 111 ∷ 114 ∷ 114 ∷ 101 ∷ 110 ∷ 116 ∷ 32 ∷ 112 ∷ 114 ∷ 111 ∷ 116 ∷ 111 ∷ 99
    ∷ 111 ∷ 108 ∷ []

abbrev pub handshake_size : ℕ
handshake_size = 68

pub record Handshake : Type 0 where
  pub reserved : List ℕ
  pub info_hash : List ℕ
  pub peer_id : List ℕ

pub data HandshakeError : Type 0 where
  invalid_protocol_length : ℕ → HandshakeError
  invalid_protocol_string info_hash_mismatch : HandshakeError

-- `[u8; 8]` and `[u8; 20]`
pub record IsSized (h : Handshake) : Type 0 where
  pub reserved_size : length h.reserved ≡ 8
  pub info_hash_size : length h.info_hash ≡ 20
  pub peer_id_size : length h.peer_id ≡ 20

-- `reserved[5] |= 0x10`
unfoldable pub new : List ℕ → List ℕ → Handshake
new info_hash peer_id =
    let reserved = replicate 8 0 in
    record {
      reserved = set reserved 5 (bit_or (get_or reserved 5 0) 0x10);
      info_hash = info_hash;
      peer_id = peer_id;
    }

unfoldable pub supports_extension_protocol : Handshake → Bool
supports_extension_protocol h = not (bit_and (get_or h.reserved 5 0) 0x10 == 0)

-- The five writes into consecutive ranges of the buffer.
unfoldable pub to_bytes : Handshake → List ℕ
to_bytes h = 19 ∷ (protocol_string ++ (h.reserved ++ (h.info_hash ++ h.peer_id)))

-- `&buf[from..to]`
unfoldable pub slice : List ℕ → ℕ → ℕ → List ℕ
slice buf from to = take (to - from) (drop from buf)

unfoldable pub from_bytes : List ℕ → Outcome HandshakeError Handshake
from_bytes buf =
    if not (get_or buf 0 0 == 19)
    then err (invalid_protocol_length (get_or buf 0 0))
    else if not (eq_bytes (slice buf 1 20) protocol_string)
    then err invalid_protocol_string
    else ok (record {
      reserved = slice buf 20 28;
      info_hash = slice buf 28 48;
      peer_id = slice buf 48 68;
    })
