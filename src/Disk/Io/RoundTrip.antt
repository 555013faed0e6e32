-- ===== src/Disk/Io/RoundTrip.antt =====
-- src/disk/io.rs: a piece that was written is read back.
use moviehouse.Prelude.{
  ℕ, ◌+◌, ◌≤◌, ◌≡◌, refl, sym, ap, ◌∙◌, arith, List, [], ◌∷◌, ◌++◌, append_assoc, append-nil, Bool,
  true, false, some, ltb, All, length, length-append, length-take, length-drop, length-replicate,
  take, drop, take-append, drop-append, take-append-drop, drop-drop, replicate,
}
use moviehouse.Disk.Mapping.{FileSpan}
use moviehouse.Disk.Io.{
  Files, Calls, written, read, splice, with_file, content_of, write_piece_blocking, read_spans,
  read_piece_blocking,
}
use moviehouse.Disk.Io.Splice.{length-splice, take-drop-splice}

module _ {PathBuf : Type 0} where
  -- Where the bytes of the spans end.
  abbrev pub ends : ℕ → List (FileSpan PathBuf) → ℕ
  ends off [] = off
  ends off (s ∷ spans) = ends (off + s.length) spans

  pub ends-le : (off : ℕ) (spans : List (FileSpan PathBuf)) → off ≤ ends off spans
  ends-le off [] = omega arith
  ends-le off (s ∷ spans) = omega (arith, ends-le (off + s.length) spans)

  -- The bytes from `off` on stand in the spans.
  abbrev Stored : Files PathBuf → List ℕ → ℕ → List (FileSpan PathBuf) → Type 0
  Stored files raw off [] = off ≡ length raw
  Stored files raw off (s ∷ spans) =
      ((content : List ℕ) × (files s.file_path ≡ some content)
        × (s.offset + s.length ≤ length content)
        × (take s.length (drop s.offset content) ≡ take s.length (drop off raw)))
      × (off + s.length ≤ length raw)
      × Stored files raw (off + s.length) spans

  module _ (same : PathBuf → PathBuf → Bool) where
    -- A path that no span has.
    abbrev pub Elsewhere : PathBuf → List (FileSpan PathBuf) → Type 0
    Elsewhere q spans = All (λ s. same s.file_path q ≡ false) spans

    -- No two spans have one path.
    abbrev pub Apart : List (FileSpan PathBuf) → Type 0
    Apart [] = Unit
    Apart (s ∷ spans) = Elsewhere s.file_path spans × Apart spans

  module _ (same : PathBuf → PathBuf → Bool) (calls : Calls PathBuf)
      (works : (p : PathBuf) → calls.succeeds p ≡ true) where
    -- One turn of the loop fills in the next bytes.
    filled :
        (off len : ℕ) (cur raw : List ℕ)
        → length cur ≡ length raw
        → off + len ≤ length raw
        → take (off + len) (take off cur ++ take len (drop off raw) ++ drop (off + len) cur)
            ++ drop (off + len) raw
          ≡ take off cur ++ drop off raw
    filled off len cur raw e h =
        let front = take off cur ++ take len (drop off raw) in
        let size : off + len ≡ length front = omega (
          arith,
          length-append (take off cur) (take len (drop off raw)),
          length-take off cur,
          length-take len (drop off raw),
          length-drop off raw,
        ) in
        let kept : take (off + len) (front ++ drop (off + len) cur) ≡ front =
          ap (λ n. take n (front ++ drop (off + len) cur)) size
          ∙ take-append front (drop (off + len) cur) in
        rw (kept, ← drop-drop len off raw)
          (append_assoc (take off cur) (take len (drop off raw)) (drop len (drop off raw))
            ∙ ap (λ l. take off cur ++ l) (take-append-drop len (drop off raw)))

    read_spans-Stored :
        (files : Files PathBuf) (raw : List ℕ) (off : ℕ) (spans : List (FileSpan PathBuf))
        (cur : List ℕ)
        → length cur ≡ length raw
        → Stored files raw off spans
        → read_spans same calls files spans off cur ≡ read (take off cur ++ drop off raw)
    unfolding read_spans
    read_spans-Stored files raw off [] cur e h =
        let all_taken : take off cur ≡ cur =
          ap (λ n. take n cur) (h ∙ sym e) ∙ (rw append-nil at (take-append cur [])) in
        let all_dropped : drop off raw ≡ [] =
          ap (λ n. drop n raw) h ∙ (rw append-nil at (drop-append raw [])) in
        rw (all_taken, all_dropped, append-nil cur) refl
    read_spans-Stored files raw off (s ∷ spans) cur e
          ((content, there, long, bytes), within, rest) =
        let end = off + s.length in
        let bs = take s.length (drop s.offset content) in
        let cur' = take off cur ++ bs ++ drop end cur in
        let e₁ : ltb (length cur) end ≡ false = ground arith in
        let e₂ : ltb (length content) (s.offset + s.length) ≡ false = ground arith in
        let size : length cur' ≡ length raw = omega (
          arith,
          length-append (take off cur ++ bs) (drop end cur),
          length-append (take off cur) bs,
          length-take off cur,
          length-take s.length (drop s.offset content),
          length-drop s.offset content,
          length-drop end cur,
        ) in
        let later = read_spans-Stored files raw end spans cur' size rest in
        rw (there, works s.file_path, e₁, e₂, read_spans)
          (later
            ∙ ap (λ l. read l)
                (ap (λ b. take end (take off cur ++ b ++ drop end cur) ++ drop end raw) bytes
                  ∙ filled off s.length cur raw e within))

    -- What `write_piece_blocking` comes to: all is written, the bytes are stored, and no other file has
    -- changed.
    record Writes (raw : List ℕ) (off : ℕ) (spans : List (FileSpan PathBuf)) (files : Files PathBuf)
        : Type 0 where
      after : Files PathBuf
      is_written : write_piece_blocking same calls spans off raw files ≡ written after
      stored : Stored after raw off spans
      untouched : (q : PathBuf) → Elsewhere same q spans → after q ≡ files q

    write-Writes :
        ((p : PathBuf) → same p p ≡ true)
        → (raw : List ℕ) (off : ℕ) (spans : List (FileSpan PathBuf)) (files : Files PathBuf)
        → Apart same spans
        → ends off spans ≡ length raw
        → Writes raw off spans files
    unfolding write_piece_blocking
    write-Writes itself raw off [] files apart whole = record {
      after = files;
      is_written = refl;
      stored = whole;
      untouched = λ q h. refl;
    }
    write-Writes itself raw off (s ∷ spans) files apart whole =
        let end = off + s.length in
        let bs = take s.length (drop off raw) in
        let content = splice s.offset bs (content_of same s.file_path files) in
        let files' = with_file same s.file_path content files in
        let w = write-Writes itself raw end spans files' apart.1 whole in
        let within : end ≤ length raw = omega (arith, ends-le end spans) in
        let e₁ : ltb (length raw) end ≡ false = ground arith in
        let size : length bs ≡ s.length =
          omega (arith, length-take s.length (drop off raw), length-drop off raw) in
        let here : w.after s.file_path ≡ some content =
          w.untouched s.file_path apart.0 ∙ (rw (itself s.file_path) refl) in
        record {
          after = w.after;
          is_written = rw (works s.file_path, e₁) w.is_written;
          stored = (
            (
              content,
              here,
              omega (arith, length-splice s.offset bs (content_of same s.file_path files)),
              ap (λ n. take n (drop s.offset content)) (sym size)
                  ∙ take-drop-splice s.offset bs (content_of same s.file_path files),
            ),
            within,
            w.stored,
          );
          untouched = λ q h. w.untouched q h.1 ∙ (rw h.0 refl);
        }

    -- Spans that are written are read back.
    pub read-write :
        ((p : PathBuf) → same p p ≡ true)
        → (raw : List ℕ) (spans : List (FileSpan PathBuf)) (files : Files PathBuf)
        → Apart same spans
        → ends 0 spans ≡ length raw
        → (after : Files PathBuf) × (write_piece_blocking same calls spans 0 raw files
            ≡ written after)
          × (read_piece_blocking same calls after spans (length raw) ≡ read raw)
    unfolding read_piece_blocking
    read-write itself raw spans files apart whole =
        let w = write-Writes itself raw 0 spans files apart whole in
        (
          w.after,
          w.is_written,
          read_spans-Stored w.after raw 0 spans (replicate (length raw) 0)
              (length-replicate {A = ℕ} (length raw) 0) w.stored,
        )
