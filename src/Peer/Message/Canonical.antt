-- ===== src/Peer/Message/Canonical.antt =====
-- src/peer/message.rs: `decode` on every input. It never reads past the end of its buffer, and what
-- it accepts is what `encode` would have written.
use moviehouse.Prelude.{
  ℕ, ◌+◌, ◌≤◌, ◌<◌, Bool, false, leb, ◌||◌, List, [], ◌∷◌, ◌++◌, ◌≡◌, refl, ap, arith, inl, inr,
  length, ◌==◌, append_assoc, append-nil, ok, err, put_u32, u32_from_be, get_u32, ==_iff,
  Bool-cases, le_or_lt, if◌then◌else◌, AllBytes, IsByte,
}
use moviehouse.Peer.Message.{
  PeerMessage, keep_alive, choke, unchoke, interested, not_interested, have, bitfield, request,
  piece, cancel, extended, have_all, have_none, unknown, encode, decode, Decoded, read_u32, read_u8,
  ensure_len, decode_have, decode_triple, decode_piece, decode_extended, dispatch, too_short,
}

-- The ids of the messages of the protocol that the program knows, and the least length of what
-- follows them.
abbrev pub is_known : ℕ → Bool
is_known id = leb id 8 || id == 14 || id == 15 || id == 20

abbrev pub least : ℕ → ℕ
least id =
    if id == 4
    then 4
    else if id == 6 || id == 8
    then 12
    else if id == 7
    then 8
    else if id == 20
    then 1
    else 0

-- The outcomes of the decoder: nothing on no bytes; a message of which `encode` writes the bytes that
-- were consumed; nothing of a message with an unknown id; and an error if what follows the id is
-- shorter than its message.
pub data Reads : List ℕ → Decoded → Type 0 where
  alive : Reads [] (ok (keep_alive, []))
  exactly :
      {id : ℕ} {bytes : List ℕ} {m : PeerMessage} {rest : List ℕ}
      → 0 < length (encode m)
      → encode m ++ rest ≡ id ∷ bytes
      → Reads (id ∷ bytes) (ok (m, rest))
  skipped :
      {id : ℕ} {bytes : List ℕ} → is_known id ≡ false → Reads (id ∷ bytes) (ok (unknown id, []))
  refused : {id : ℕ} {bytes : List ℕ} → length bytes < least id → Reads (id ∷ bytes) (err too_short)

put_u32-u32_from_be :
    (a b c d : ℕ)
    → IsByte a
    → IsByte b
    → IsByte c
    → IsByte d
    → put_u32 (u32_from_be a b c d) ≡ a ∷ b ∷ c ∷ d ∷ []
unfolding put_u32 u32_from_be
put_u32-u32_from_be a b c d ha hb hc hd = ground arith

-- What a successful `read_u32` says of its buffer.
record Word (bytes : List ℕ) : Type 0 where
  word : ℕ
  left : List ℕ
  reads : read_u32 bytes ≡ ok (word, left)
  writes : put_u32 word ++ left ≡ bytes
  sized : length bytes ≡ 4 + length left
  in_range : AllBytes left

Word-at : (bytes : List ℕ) → AllBytes bytes → 4 ≤ length bytes → Word bytes
unfolding read_u32 get_u32
Word-at [] h n = absurd (omega arith)
Word-at (a ∷ []) h n = absurd (omega arith)
Word-at (a ∷ b ∷ []) h n = absurd (omega arith)
Word-at (a ∷ b ∷ c ∷ []) h n = absurd (omega arith)
Word-at (a ∷ b ∷ c ∷ d ∷ rest) h n = record {
  word = u32_from_be a b c d;
  left = rest;
  reads = refl;
  writes = ap (λ l. l ++ rest) (put_u32-u32_from_be a b c d h.0 h.1.0 h.1.1.0 h.1.1.1.0);
  sized = omega arith;
  in_range = h.1.1.1.1;
}

ensure_len-eq_ok : (bytes : List ℕ) (n : ℕ) → n ≤ length bytes → ensure_len bytes n ≡ ok tt
unfolding ensure_len
ensure_len-eq_ok bytes n h = ground arith

ensure_len-eq_err : (bytes : List ℕ) (n : ℕ) → length bytes < n → ensure_len bytes n ≡ err too_short
unfolding ensure_len
ensure_len-eq_err bytes n h = ground arith

decode_have-Reads : (bytes : List ℕ) → AllBytes bytes → Reads (4 ∷ bytes) (decode_have bytes)
unfolding decode_have encode
decode_have-Reads bytes h = elim (le_or_lt 4 (length bytes)) [
  | inr short ↦ rw (ensure_len-eq_err bytes 4 short) (refused short)
  | inl long ↦
      let w = Word-at bytes h long in
      simp (ensure_len-eq_ok bytes 4 long, w.reads)
        (exactly {m = have w.word} {rest = w.left} (omega arith) (ap (λ l. 4 ∷ l) w.writes))
]

module _ (id : ℕ) (msg : ℕ → ℕ → ℕ → PeerMessage)
    (written : (i b l : ℕ) → encode (msg i b l) ≡ id ∷ (put_u32 i ++ (put_u32 b ++ put_u32 l)))
    (twelve : least id ≡ 12) (bytes : List ℕ) (h : AllBytes bytes) where
  decode_triple-Reads : Reads (id ∷ bytes) (decode_triple msg bytes)
  unfolding decode_triple
  decode_triple-Reads = elim (le_or_lt 12 (length bytes)) [
    | inr short ↦ rw (ensure_len-eq_err bytes 12 short) (refused (rw twelve short))
    | inl long ↦
        let u = Word-at bytes h (omega arith) in
        let v = Word-at u.left u.in_range (omega (arith, u.sized)) in
        let w = Word-at v.left v.in_range (omega (arith, u.sized, v.sized)) in
        simp (ensure_len-eq_ok bytes 12 long, u.reads, v.reads, w.reads)
          (exactly (rw written (omega arith))
            (simp (written, append_assoc, w.writes, v.writes, u.writes)))
  ]

decode_piece-Reads : (bytes : List ℕ) → AllBytes bytes → Reads (7 ∷ bytes) (decode_piece bytes)
unfolding decode_piece encode
decode_piece-Reads bytes h = elim (le_or_lt 8 (length bytes)) [
  | inr short ↦ rw (ensure_len-eq_err bytes 8 short) (refused short)
  | inl long ↦
      let u = Word-at bytes h (omega arith) in
      let v = Word-at u.left u.in_range (omega (arith, u.sized)) in
      simp (ensure_len-eq_ok bytes 8 long, u.reads, v.reads)
        (exactly {m = piece u.word v.word v.left} {rest = []} (omega arith)
          (simp (append-nil, v.writes, u.writes)))
]

decode_extended-Reads : (bytes : List ℕ) → Reads (20 ∷ bytes) (decode_extended bytes)
unfolding decode_extended encode ensure_len read_u8
decode_extended-Reads [] = refused (omega arith)
decode_extended-Reads (id ∷ payload) =
    rw (ensure_len-eq_ok (id ∷ payload) 1 (omega arith))
      (exactly {m = extended id payload} {rest = []} (omega arith) (rw append-nil))

Reads-if :
    {bytes : List ℕ} (id k : ℕ) {x y : Decoded}
    → (id ≡ k → Reads bytes x)
    → ((id == k) ≡ false → Reads bytes y)
    → Reads bytes (if id == k then x else y)
Reads-if {bytes} id k {x} {y} hx hy = elim (Bool-cases (id == k)) [
  | inl e ↦ rw e (hx ((==_iff id k).0 e))
  | inr e ↦ rw e (hy e)
]

dispatch-Reads : (id : ℕ) (bytes : List ℕ) → AllBytes bytes → Reads (id ∷ bytes) (dispatch id bytes)
unfolding dispatch encode
dispatch-Reads id bytes h =
    Reads-if id 0 (λ e. rw e (exactly {m = choke} (omega arith) refl))
      (λ n₀.
        Reads-if id 1 (λ e. rw e (exactly {m = unchoke} (omega arith) refl))
          (λ n₁.
            Reads-if id 2 (λ e. rw e (exactly {m = interested} (omega arith) refl))
              (λ n₂.
                Reads-if id 3 (λ e. rw e (exactly {m = not_interested} (omega arith) refl))
                  (λ n₃.
                    Reads-if id 4 (λ e. rw e (decode_have-Reads bytes h))
                      (λ n₄.
                        Reads-if id 5
                          (λ e. rw e (
                            exactly {m = bitfield bytes} {rest = []} (omega arith) (rw append-nil)))
                          (λ n₅.
                            Reads-if id 6
                              (λ e.
                                rw e (decode_triple-Reads 6 request (λ i b l. refl) refl bytes h))
                              (λ n₆.
                                Reads-if id 7 (λ e. rw e (decode_piece-Reads bytes h))
                                  (λ n₇.
                                    Reads-if id 8
                                      (λ e.
                                        rw e (
                                          decode_triple-Reads 8 cancel (λ i b l. refl) refl bytes
                                            h))
                                      (λ n₈.
                                        Reads-if id 20 (λ e. rw e (decode_extended-Reads bytes))
                                          (λ n₂₀.
                                            Reads-if id 14
                                              (λ e.
                                                rw e (exactly {m = have_all} (omega arith) refl))
                                              (λ n₁₄.
                                                Reads-if id 15
                                                  (λ e.
                                                    rw e
                                                      (exactly {m = have_none} (omega arith) refl))
                                                  (λ n₁₅. skipped (ground arith)))))))))))))

-- On every input of bytes `decode` returns a keep-alive on no bytes; else a message of which `encode`
-- writes just the bytes that were consumed; but an unknown message, of which nothing is left, if the
-- program knows no message with the first byte as its id; and the error that the input is too short
-- only if what follows the id is shorter than the fields of its message. It never reads past the end
-- of its buffer.
pub decode-Reads : (bytes : List ℕ) → AllBytes bytes → Reads bytes (decode bytes)
unfolding decode encode
decode-Reads [] h = alive
decode-Reads (id ∷ bytes) h = dispatch-Reads id bytes h.1
