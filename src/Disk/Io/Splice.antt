-- ===== src/Disk/Io/Splice.antt =====
-- src/disk/io.rs: bytes that are written to a file, and read back.
use moviehouse.Prelude.{
  ℕ, ◌+◌, ◌-◌, ◌≤◌, ◌≡◌, sym, ap, ◌∙◌, arith, List, ◌++◌, append_assoc, length, length-append,
  length-take, length-replicate, take, drop, take-append, drop-append, replicate,
}
use moviehouse.Disk.Io.{splice}

module _ (offset : ℕ) (raw old : List ℕ) where
  -- What stands before the bytes that are written.
  front : List ℕ
  front = take offset (old ++ replicate (offset - length old) 0)

  length-front : length front ≡ offset
  unfolding front
  length-front = omega (
    arith,
    length-take offset (old ++ replicate (offset - length old) 0),
    length-append old (replicate (offset - length old) 0),
    length-replicate {A = ℕ} (offset - length old) 0,
  )

  splice_lem : splice offset raw old ≡ front ++ (raw ++ drop (offset + length raw) old)
  unfolding splice front
  splice_lem =
      append_assoc (take offset (old ++ replicate (offset - length old) 0)) raw
        (drop (offset + length raw) old)

  pub length-splice : offset + length raw ≤ length (splice offset raw old)
  length-splice = rw splice_lem (
      omega (
        arith,
        length-append front (raw ++ drop (offset + length raw) old),
        length-append raw (drop (offset + length raw) old),
        length-front,
      ))

  -- What was written is read back.
  pub take-drop-splice : take (length raw) (drop offset (splice offset raw old)) ≡ raw
  take-drop-splice =
      let tail = raw ++ drop (offset + length raw) old in
      let e : drop offset (front ++ tail) ≡ tail =
        ap (λ n. drop n (front ++ tail)) (sym length-front) ∙ drop-append front tail in
      rw (splice_lem, e) (take-append raw (drop (offset + length raw) old))
