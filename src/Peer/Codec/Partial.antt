-- ===== src/Peer/Codec/Partial.antt =====
-- src/peer/codec.rs: `decode` on parts of frames.
use moviehouse.Prelude.{
  ℕ, ◌+◌, ◌≤◌, ◌<◌, List, [], ◌∷◌, ◌++◌, none, ◌≡◌, refl, ap, arith, length, length-append, ok,
  put_u32, u32_from_be,
}
use moviehouse.Peer.Message
use moviehouse.Peer.Message.{PeerMessage, wire_len}
use moviehouse.Peer.Message.RoundTrip.{IsSendable, wire_len-encode}
use moviehouse.Peer.Codec.{decode, decode_frame, max_frame_size}
use moviehouse.Peer.Codec.Frames.{frame}

module _ (msg : PeerMessage) (fits : wire_len msg ≤ max_frame_size) where
  announced :
      (a b c d : ℕ) (rest payload : List ℕ)
      → put_u32 (wire_len msg) ++ payload ≡ a ∷ b ∷ c ∷ d ∷ rest
      → (u32_from_be a b c d ≡ wire_len msg) × (payload ≡ rest)
  unfolding put_u32 u32_from_be
  announced a b c d rest payload h = ground arith

decode_frame-short :
    (src : List ℕ) (len : ℕ)
    → len ≤ max_frame_size
    → length src < 4 + len
    → decode_frame src len ≡ ok (none, src)
unfolding decode_frame
decode_frame-short src len h k = ground arith

-- While bytes of a frame are missing, `decode` asks for more and leaves its buffer as it is. The frame
-- is that of a message that the program sends, of at most the size that a frame may have.
pub decode-prefix :
    (msg : PeerMessage) (src more : List ℕ) (b : ℕ)
    → IsSendable msg
    → wire_len msg ≤ max_frame_size
    → frame msg ≡ src ++ b ∷ more
    → decode src ≡ ok (none, src)
unfolding decode
decode-prefix msg [] more b h fits e = refl
decode-prefix msg (_ ∷ []) more b h fits e = refl
decode-prefix msg (_ ∷ _ ∷ []) more b h fits e = refl
decode-prefix msg (_ ∷ _ ∷ _ ∷ []) more b h fits e = refl
decode-prefix msg (w ∷ x ∷ y ∷ z ∷ src) more b h fits e =
    let split = announced msg fits w x y z (src ++ b ∷ more) (Message.encode msg) e in
    rw split.0 (
      decode_frame-short (w ∷ x ∷ y ∷ z ∷ src) (wire_len msg) fits
        (omega (arith, wire_len-encode msg h, ap length split.1, length-append src (b ∷ more))))
