-- ===== src/Peer/Message.antt =====
-- src/peer/message.rs: the messages of the peer wire protocol, without their length prefix.
-- A `BytesMut` is the list of its bytes. `decode` returns what it leaves of its buffer too.
pub mod RoundTrip
pub mod Canonical
use moviehouse.Prelude.{
  ℕ, ◌+◌, ◌^◌, List, [], ◌∷◌, ◌++◌, Option, none, some, Bool, leb, ltb, ◌==◌, if◌then◌else◌, length,
  Outcome, ok, err, ◌>>=◌, ◌>>◌, ensure, put_u32, get_u32,
}

-- 16 KiB
abbrev pub block_size : ℕ
block_size = 16_384

pub data PeerMessage : Type 0 where
  keep_alive choke unchoke interested not_interested : PeerMessage
  have : ℕ → PeerMessage
  bitfield : List ℕ → PeerMessage
  request : ℕ → ℕ → ℕ → PeerMessage
  piece : ℕ → ℕ → List ℕ → PeerMessage
  cancel : ℕ → ℕ → ℕ → PeerMessage
  extended : ℕ → List ℕ → PeerMessage
  have_all have_none : PeerMessage
  unknown : ℕ → PeerMessage

-- `get_past_end` is the panic of `get_u8` and `get_u32` on a short buffer.
pub data PeerMessageError : Type 0 where
  unknown_message_id : ℕ → PeerMessageError
  too_short : PeerMessageError
  too_large : ℕ → PeerMessageError
  get_past_end : PeerMessageError

abbrev pub msg_choke : ℕ
msg_choke = 0

abbrev pub msg_unchoke : ℕ
msg_unchoke = 1

abbrev pub msg_interested : ℕ
msg_interested = 2

abbrev pub msg_not_interested : ℕ
msg_not_interested = 3

abbrev pub msg_have : ℕ
msg_have = 4

abbrev pub msg_bitfield : ℕ
msg_bitfield = 5

abbrev pub msg_request : ℕ
msg_request = 6

abbrev pub msg_piece : ℕ
msg_piece = 7

abbrev pub msg_cancel : ℕ
msg_cancel = 8

abbrev pub msg_have_all : ℕ
msg_have_all = 14

abbrev pub msg_have_none : ℕ
msg_have_none = 15

abbrev pub msg_extended : ℕ
msg_extended = 20

-- What `encode` appends to its buffer.
unfoldable pub encode : PeerMessage → List ℕ
encode keep_alive = []
encode (unknown _) = []
encode choke = msg_choke ∷ []
encode unchoke = msg_unchoke ∷ []
encode interested = msg_interested ∷ []
encode not_interested = msg_not_interested ∷ []
encode (have piece_index) = msg_have ∷ put_u32 piece_index
encode (bitfield bits) = msg_bitfield ∷ bits
encode (request index begin len) = msg_request ∷ (put_u32 index ++ (put_u32 begin ++ put_u32 len))
encode (piece index begin block) = msg_piece ∷ (put_u32 index ++ (put_u32 begin ++ block))
encode (cancel index begin len) = msg_cancel ∷ (put_u32 index ++ (put_u32 begin ++ put_u32 len))
encode (extended id payload) = msg_extended ∷ id ∷ payload
encode have_all = msg_have_all ∷ []
encode have_none = msg_have_none ∷ []

-- `data.get_u32()` after its length was tested.
unfoldable pub read_u32 : List ℕ → Outcome PeerMessageError (ℕ × List ℕ)
read_u32 bytes = elim (get_u32 bytes) [ none ↦ err get_past_end | some r ↦ ok r ]

unfoldable pub read_u8 : List ℕ → Outcome PeerMessageError (ℕ × List ℕ)
read_u8 [] = err get_past_end
read_u8 (b ∷ rest) = ok (b, rest)

unfoldable pub ensure_len : List ℕ → ℕ → Outcome PeerMessageError (Unit {0})
ensure_len bytes at_least = if ltb (length bytes) at_least then err too_short else ok tt

abbrev pub Decoded : Type 0
Decoded = Outcome PeerMessageError (PeerMessage × List ℕ)

unfoldable pub decode_have : List ℕ → Decoded
decode_have bytes = do
  ensure_len bytes 4
  (piece_index, rest) ← read_u32 bytes
  ok (have piece_index, rest)

-- Three words, for `Request` and `Cancel`.
unfoldable pub decode_triple : (ℕ → ℕ → ℕ → PeerMessage) → List ℕ → Decoded
decode_triple msg bytes = do
  ensure_len bytes 12
  (index, bytes₁) ← read_u32 bytes
  (begin, bytes₂) ← read_u32 bytes₁
  (len, rest) ← read_u32 bytes₂
  ok (msg index begin len, rest)

unfoldable pub decode_piece : List ℕ → Decoded
decode_piece bytes = do
  ensure_len bytes 8
  (index, bytes₁) ← read_u32 bytes
  (begin, bytes₂) ← read_u32 bytes₁
  ok (piece index begin bytes₂, [])

unfoldable pub decode_extended : List ℕ → Decoded
decode_extended bytes = do
  ensure_len bytes 1
  (id, payload) ← read_u8 bytes
  ok (extended id payload, [])

unfoldable pub dispatch : ℕ → List ℕ → Decoded
unfolding decode_have decode_triple decode_piece decode_extended
dispatch id bytes =
    if id == msg_choke
    then ok (choke, bytes)
    else if id == msg_unchoke
    then ok (unchoke, bytes)
    else if id == msg_interested
    then ok (interested, bytes)
    else if id == msg_not_interested
    then ok (not_interested, bytes)
    else if id == msg_have
    then decode_have bytes
    else if id == msg_bitfield
    then ok (bitfield bytes, [])
    else if id == msg_request
    then decode_triple request bytes
    else if id == msg_piece
    then decode_piece bytes
    else if id == msg_cancel
    then decode_triple cancel bytes
    else if id == msg_extended
    then decode_extended bytes
    else if id == msg_have_all
    then ok (have_all, bytes)
    else if id == msg_have_none
    then ok (have_none, bytes)
    else ok (unknown id, [])

unfoldable pub decode : List ℕ → Decoded
unfolding dispatch
decode [] = ok (keep_alive, [])
decode (id ∷ bytes) = dispatch id bytes

unfoldable pub wire_len : PeerMessage → ℕ
wire_len keep_alive = 0
wire_len (have _) = 5
wire_len (bitfield bits) = 1 + length bits
wire_len (request _ _ _) = 13
wire_len (cancel _ _ _) = 13
wire_len (piece _ _ block) = 9 + length block
wire_len (extended _ payload) = 2 + length payload
wire_len _ = 1
