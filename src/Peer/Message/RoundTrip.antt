-- ===== src/Peer/Message/RoundTrip.antt =====
-- src/peer/message.rs: what `encode` writes, `decode` reads, and how long it is.
use moviehouse.Prelude.{
  ℕ, ◌+◌, ◌≤◌, List, [], ◌∷◌, ◌++◌, append-nil, ◌≡◌, refl, arith, length, ok, IsU32, put_u32,
  get_u32-put_u32,
}
use moviehouse.Peer.Message.{
  PeerMessage, keep_alive, choke, have, bitfield, request, piece, cancel, extended, unknown, encode,
  decode, wire_len, read_u32, read_u8, ensure_len, decode_have, decode_triple, decode_piece,
  decode_extended,
}

-- The words of a message fit their four bytes. An unknown message is never sent.
abbrev pub IsSendable : PeerMessage → Type 0
IsSendable (have i) = IsU32 i
IsSendable (request i b l) = IsU32 i × IsU32 b × IsU32 l
IsSendable (cancel i b l) = IsU32 i × IsU32 b × IsU32 l
IsSendable (piece i b _) = IsU32 i × IsU32 b
IsSendable (unknown _) = ⊥
IsSendable _ = Unit

read_u32-put_u32 : (n : ℕ) (rest : List ℕ) → IsU32 n → read_u32 (put_u32 n ++ rest) ≡ ok (n, rest)
unfolding read_u32
read_u32-put_u32 n rest h = rw (get_u32-put_u32 n rest h, read_u32)

read_u32-put_u32_end : (n : ℕ) → IsU32 n → read_u32 (put_u32 n) ≡ ok (n, [])
read_u32-put_u32_end n h = rw append-nil at (read_u32-put_u32 n [] h)

ensure_len_of_le : (bytes : List ℕ) (k : ℕ) → k ≤ length bytes → ensure_len bytes k ≡ ok tt
unfolding ensure_len
ensure_len_of_le bytes k h = ground arith

length-put_u32 : (n : ℕ) (rest : List ℕ) → length (put_u32 n ++ rest) ≡ 4 + length rest
unfolding put_u32
length-put_u32 n rest = omega arith

length-put_u32_end : (n : ℕ) → length (put_u32 n) ≡ 4
unfolding put_u32
length-put_u32_end n = refl

ruleset words = (arith, length-put_u32, length-put_u32_end)

decode_triple-put_u32 :
    (msg : ℕ → ℕ → ℕ → PeerMessage) (i b l : ℕ)
    → IsU32 i × IsU32 b × IsU32 l
    → decode_triple msg (put_u32 i ++ (put_u32 b ++ put_u32 l)) ≡ ok (msg i b l, [])
unfolding decode_triple
decode_triple-put_u32 msg i b l h = simp (
  ensure_len_of_le (put_u32 i ++ (put_u32 b ++ put_u32 l)) 12 (omega words),
  read_u32-put_u32 i (put_u32 b ++ put_u32 l) h.0,
  read_u32-put_u32 b (put_u32 l) h.1,
  read_u32-put_u32_end l h.2,
)

-- Every message that is sent is read back, and nothing is left of the payload.
pub decode-encode : (m : PeerMessage) → IsSendable m → decode (encode m) ≡ ok (m, [])
unfolding decode encode
decode-encode (have i) h =
    unfold decode_have in
    simp (ensure_len_of_le (put_u32 i) 4 (omega words), read_u32-put_u32_end i h)
decode-encode (bitfield bits) h = refl
decode-encode (request i b l) h = decode_triple-put_u32 request i b l h
decode-encode (piece i b block) h =
    unfold decode_piece in
    simp (
      ensure_len_of_le (put_u32 i ++ (put_u32 b ++ block)) 8 (omega words),
      read_u32-put_u32 i (put_u32 b ++ block) h.0,
      read_u32-put_u32 b block h.1,
    )
decode-encode (cancel i b l) h = decode_triple-put_u32 cancel i b l h
decode-encode (extended id payload) h =
    unfold decode_extended read_u8 in simp (ensure_len_of_le (id ∷ payload) 1 (omega arith))
decode-encode (unknown id) h = absurd h
decode-encode keep_alive h = refl
decode-encode choke h = refl
decode-encode _ h = refl

-- The announced length is that of the payload for every message that is sent.
pub wire_len-encode : (m : PeerMessage) → IsSendable m → wire_len m ≡ length (encode m)
unfolding wire_len encode
wire_len-encode (unknown id) h = absurd h
wire_len-encode keep_alive h = refl
wire_len-encode _ h = omega words
