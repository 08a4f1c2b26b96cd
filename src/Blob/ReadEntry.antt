-- ===== src/Blob/ReadEntry.antt =====
-- What `BlobReader::at` makes of a record that places an entry.
use slangmake.Prelude.{
  ℕ, ◌+◌, ◌-◌, ◌*◌, ◌≡◌, refl, ◌&&◌, Bytes, List, [], ◌∷◌, ◌++◌, All, length, length-append, drop,
  arith, ltb, leb, le→leb, lt→ltb, if◌then◌else◌,
}
use slangmake.Blob.Format.{BlobHeader, EntryRecord, slice}
use slangmake.Blob.Words.{IsWord, words_bytes, length-words_bytes, read_words-words_bytes}
use slangmake.Blob.Writer.Layout.{u32, path_slots}
use slangmake.Blob.Writer.Layout as Layout
use slangmake.Blob.Reader.{Entry, entry_of_record, read_words, in_bounds}
use slangmake.Blob.Placed.{At, At-le, At-drop, At-slice, At-left}
use slangmake.Blob.EntryPlaces.{Places}
use slangmake.Blob.IndexPool.{with_slot}

-- What a caller of the reader sees of an entry of the writer.
abbrev pub entry_of : Layout.Entry → Entry
entry_of e = record { key = e.key; code = e.code; reflection = e.refl; dep_indices = e.dep_indices }

module _ (blob : Bytes) where
  read_key :
      (key : Bytes) (off size : ℕ)
      → At blob off (key ++ (0 ∷ []))
      → size ≡ length key + 1
      → (if ltb 0 size && in_bounds blob off size then slice blob off (size - 1) else []) ≡ key
  read_key key off size a e =
      let m : length key + 1 - 1 ≡ length key = omega arith in
      rw
        (
          e,
          lt→ltb 0 (length key + 1) (omega arith),
          le→leb (off + (length key + 1)) (length blob)
              (omega (arith, At-le a, length-append key (0 ∷ []))),
          m,
        )
        (At-slice (At-left key (0 ∷ []) a))

  read_span :
      (bs : Bytes) (off size : ℕ)
      → At blob off bs
      → size ≡ length bs
      → (if in_bounds blob off size then slice blob off size else []) ≡ bs
  read_span bs off size a e = rw (e, le→leb (off + length bs) (length blob) (At-le a)) (At-slice a)

  read_indices :
      (ns : List ℕ) (off : ℕ)
      → At blob off (words_bytes ns)
      → All IsWord ns
      → (if ltb 0 (length ns) && leb (off + length ns * 4) (length blob)
          then read_words (length ns) (drop off blob)
          else [])
        ≡ ns
  read_indices [] off a words = refl
  read_indices (n ∷ ns) off a words =
      let (rest, e) = At-drop a in
      rw
        (
          lt→ltb 0 (length (n ∷ ns)) (omega arith),
          le→leb (off + length (n ∷ ns) * 4) (length blob)
              (omega (arith, At-le a, length-words_bytes (n ∷ ns))),
          e,
        )
        (read_words-words_bytes (n ∷ ns) rest words)

  -- A record that places its entry, with the slice of the pool that holds its indices.
  pub entry_of_record-Places :
      (hdr : BlobHeader) (r : EntryRecord) (e : Layout.Entry) (first : ℕ)
      → Places blob r e
      → At blob (hdr.entry_deps_idx_offset + first * 4) (words_bytes e.dep_indices)
      → All IsWord e.dep_indices
      → entry_of_record blob hdr (with_slot r first (length e.dep_indices)) ≡ entry_of e
  unfolding entry_of_record
  entry_of_record-Places hdr r e first p pool words = λ i. record {
    key = read_key e.key r.key_offset r.key_size p.key_at p.key_len i;
    code = read_span e.code r.code_offset r.code_size p.code_at p.code_len i;
    reflection = read_span e.refl r.refl_offset r.refl_size p.refl_at p.refl_len i;
    dep_indices = read_indices e.dep_indices (hdr.entry_deps_idx_offset + first * 4) pool words i;
  }
