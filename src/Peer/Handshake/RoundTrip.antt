-- ===== src/Peer/Handshake/RoundTrip.antt =====
-- src/peer/handshake.rs: `to_bytes` against `from_bytes`.
use moviehouse.Prelude.{
  ℕ, ◌+◌, ◌-◌, ◌≤◌, ◌≡◌, refl, arith, List, [], ◌∷◌, ◌++◌, append-nil, length, take, drop,
  take-append, drop-append, take-append-drop, drop-drop, length-drop, ok, get_or, eq_bytes→eq,
}
use moviehouse.Peer.Handshake.{Handshake, IsSized, protocol_string, to_bytes, from_bytes, slice}

take_of_length : (xs ys : List ℕ) (n : ℕ) → length xs ≡ n → take n (xs ++ ys) ≡ xs
take_of_length xs ys n e = rw (← e) (take-append xs ys)

drop_of_length : (xs ys : List ℕ) (n : ℕ) → length xs ≡ n → drop n (xs ++ ys) ≡ ys
drop_of_length xs ys n e = rw (← e) (drop-append xs ys)

length_zero : (xs : List ℕ) → length xs ≡ 0 → xs ≡ []
length_zero [] e = refl
length_zero (x ∷ xs) e = absurd (omega arith)

drop_first : (xs : List ℕ) → 1 ≤ length xs → xs ≡ get_or xs 0 0 ∷ drop 1 xs
drop_first [] h = elim h [ ]
drop_first (x ∷ xs) h = refl

module _ (h : Handshake) (sized : IsSized h) where
  reserved_slice : slice (to_bytes h) 20 28 ≡ h.reserved
  unfolding slice to_bytes
  reserved_slice = take_of_length h.reserved (h.info_hash ++ h.peer_id) 8 sized.reserved_size

  tail_slice : drop 28 (to_bytes h) ≡ h.info_hash ++ h.peer_id
  unfolding to_bytes
  tail_slice = drop_of_length h.reserved (h.info_hash ++ h.peer_id) 8 sized.reserved_size

  info_hash_slice : slice (to_bytes h) 28 48 ≡ h.info_hash
  unfolding slice
  info_hash_slice = rw tail_slice (take_of_length h.info_hash h.peer_id 20 sized.info_hash_size)

  peer_id_slice : slice (to_bytes h) 48 68 ≡ h.peer_id
  unfolding slice
  peer_id_slice = rw (← drop-drop 20 28 (to_bytes h)) (
      rw tail_slice (
        rw (drop_of_length h.info_hash h.peer_id 20 sized.info_hash_size)
          (rw append-nil at (take_of_length h.peer_id [] 20 sized.peer_id_size))))

  protocol_slice : slice (to_bytes h) 1 20 ≡ protocol_string
  unfolding slice to_bytes
  protocol_slice = refl

  first_byte : get_or (to_bytes h) 0 0 ≡ 19
  unfolding to_bytes
  first_byte = refl

  -- A handshake of the right sizes is read back from its bytes.
  pub from_bytes-to_bytes : from_bytes (to_bytes h) ≡ ok h
  unfolding from_bytes
  from_bytes-to_bytes =
      rw (first_byte, protocol_slice, reserved_slice, info_hash_slice, peer_id_slice)

module _ (buf : List ℕ) (h : Handshake) (size : length buf ≡ 68)
    (accepted : from_bytes buf ≡ ok h) where
  accepted_parts :
      (get_or buf 0 0 ≡ 19)
      × (slice buf 1 20 ≡ protocol_string)
      × (slice buf 20 28 ≡ h.reserved)
      × (slice buf 28 48 ≡ h.info_hash)
      × (slice buf 48 68 ≡ h.peer_id)
  unfolding from_bytes
  accepted_parts = ground (arith, eq_bytes→eq (slice buf 1 20) protocol_string)

  slice-append : (a b : ℕ) → slice buf a (a + b) ++ drop (a + b) buf ≡ drop a buf
  unfolding slice
  slice-append a b =
      let e : a + b - a ≡ b = omega arith in
      rw e (rw (← drop-drop b a buf) (take-append-drop b (drop a buf)))

  drop_end : drop 68 buf ≡ []
  drop_end = length_zero (drop 68 buf) (omega (arith, length-drop 68 buf))

  -- What is accepted of 68 bytes is a handshake whose bytes they are.
  pub to_bytes-from_bytes : to_bytes h ≡ buf
  unfolding to_bytes
  to_bytes-from_bytes =
      let parts = accepted_parts in
      cc (
        drop_first buf (omega arith),
        parts.0,
        parts.1,
        parts.2,
        parts.3,
        parts.4,
        slice-append 1 19,
        slice-append 20 8,
        slice-append 28 20,
        slice-append 48 20,
        drop_end,
        append-nil (slice buf 48 68),
      )
