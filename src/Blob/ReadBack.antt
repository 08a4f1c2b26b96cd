-- ===== src/Blob/ReadBack.antt =====
-- A reader over a buffer that holds the parts of a writer returns what was put in.
use slangmake.Prelude.{
  ℕ, zero, suc, ◌+◌, ◌-◌, ◌*◌, ◌^◌, ◌<◌, ◌≡◌, refl, ap, ◌∙◌, true, Bytes, List, [], ◌∷◌, All, map,
  get_or, length, length-append, arith, lt→ltb, le→ltb, some,
}
use native.Mathlib.Decide.{dec_lt}
use slangmake.Enums.{Target, target_to_blob_code}
use slangmake.Enums.RoundTrip.{blob_code_to_target-target_to_blob_code}
use slangmake.Blob.Format.{BlobHeader, zero_record, dep_bytes, read_record}
use slangmake.Blob.Words.{
  IsWord, IsPacked, IsPackedHeader, length-record_bytes, length-dep_bytes, read_record-record_bytes,
  length-words_bytes,
}
use slangmake.Blob.Writer.Layout.{u32, path_slots}
use slangmake.Blob.Writer.Layout as Layout
use slangmake.Blob.Writer.{BlobWriter, data_start, plan_after, header, emit}
use slangmake.Blob.Reader.{
  BlobReader, entry_of_record, record_at, at, valid, target, options_hash, entry_count,
  dependencies,
}
use slangmake.Blob.Chunks.{dep_chunks, length-chunks}
use slangmake.Blob.Placed.{At-eq, At-le, At-drop}
use slangmake.Blob.EntryPlaces.{no_entry}
use slangmake.Blob.IndexPool.{start, total, with_slot, get_or-dep_slots}
use slangmake.Blob.DepTable.{HasHash, dep_of_info, read_deps-path_slots, length-path_slots}
use slangmake.Blob.Image.{
  the_plan, laid_out, code_canon, refl_canon, length-layout_entries, length-with_indices,
  indices_fit, running-total,
}
use slangmake.Blob.Parts.{Holds, stamped}
use slangmake.Blob.ReadEntry.{entry_of, entry_of_record-Places}

at-inside :
    (blob : Bytes) (hdr : BlobHeader) (j : ℕ)
    → j < hdr.entry_count
    → at (record { blob = blob; hdr = some hdr }) j ≡ entry_of_record blob hdr (record_at blob j)
unfolding at
at-inside blob hdr j h = rw (lt→ltb j hdr.entry_count h)

All-get_or :
    (P : Layout.Entry → Type 0) (es : List Layout.Entry) (j : ℕ)
    → All P es
    → j < length es
    → P (get_or es j no_entry)
All-get_or P [] j a h = elim h [ ]
All-get_or P (e ∷ es) zero a h = a.0
All-get_or P (e ∷ es) (suc j) a h = All-get_or P es j a.1 (omega arith)

-- What the format can hold: the buffer fits 32-bit offsets, and the numbers fit their fields.
pub record IsWritable (w : BlobWriter) : Type 0 where
  pub fits : length (emit w (the_plan w)) < 2 ^ 32
  pub hash : w.options_hash < 2 ^ 64
  pub dep_hashes : All HasHash w.deps
  pub indices : All (λ (e : Layout.Entry). All IsWord e.dep_indices) w.entries

-- The header that a reader of `w` has.
abbrev pub read_header : BlobWriter → ℕ → BlobHeader
read_header w n = stamped (header w (the_plan w)) 0 n

-- A reader that reports what the writer got.
pub record Reads (w : BlobWriter) (r : BlobReader) : Type 0 where
  pub is_valid : valid r ≡ true
  pub target_same : target r ≡ w.target
  pub options_same : options_hash r ≡ w.options_hash
  pub count : entry_count r ≡ length w.entries
  pub entries : (j : ℕ) → j < length w.entries → at r j ≡ entry_of (get_or w.entries j no_entry)
  pub deps : dependencies r ≡ map dep_of_info w.deps

target-IsWord : (t : Target) → IsWord (target_to_blob_code t)
unfolding target_to_blob_code
target-IsWord Target.spirv = omega arith
target-IsWord t = omega arith

module _ (w : BlobWriter) (ok : IsWritable w) where
  total_fits : 0 + total w.entries < 2 ^ 32
  total_fits = omega (arith, length-with_indices w ok.fits, indices_fit w ok.fits)

  -- The record of an entry, as the layout pass and the loop over the indices leave it.
  record_of :
      (j : ℕ)
      → j < length w.entries
      → get_or (the_plan w).records j zero_record
        ≡ with_slot
            (get_or (laid_out w).1 j zero_record)
            (0 + start w.entries j)
            (length (get_or w.entries j no_entry).dep_indices)
  unfolding plan_after
  record_of j h =
      get_or-dep_slots w.entries (laid_out w).1 0 j
        (length-layout_entries (code_canon w) (refl_canon w) 0 w.entries (data_start w) []
          ∙ omega arith)
        total_fits h

  -- The packed header, patched or not.
  pub read_header-IsPackedHeader :
      (n : ℕ) → n < 2 ^ 32 → (c : ℕ) → c < 3 → IsPackedHeader (stamped (header w (the_plan w)) c n)
  unfolding header
  read_header-IsPackedHeader n h c k = record {
    magic = omega arith;
    version = omega arith;
    target = target-IsWord w.target;
    entry_count = omega arith;
    deps_offset = omega arith;
    deps_count = omega arith;
    deps_strings_offset = omega arith;
    deps_strings_size = omega arith;
    entry_deps_idx_offset = omega arith;
    entry_deps_idx_count = omega (arith, running-total w ok.fits, total_fits);
    compression = omega arith;
    uncompressed_payload_size = h;
    options_hash = ok.hash;
  }

  module _ (blob : Bytes) (small : length blob < 2 ^ 32) (holds : Holds w blob) (n : ℕ) where
    abbrev reader : BlobReader
    reader = record { blob = blob; hdr = some (read_header w n) }

    record-IsPacked :
        (j : ℕ) → j < length w.entries → IsPacked (get_or (the_plan w).records j zero_record)
    record-IsPacked j h =
        let p = holds.places j h in
        let e = get_or w.entries j no_entry in
        let i = At-le (holds.pool j h) in
        let l = length-words_bytes e.dep_indices in
        let k = length-append e.key (0 ∷ []) in
        rw (record_of j h) record {
          key_offset = omega (arith, small, At-le p.key_at);
          key_size = omega (arith, small, At-le p.key_at, p.key_len, k);
          code_offset = omega (arith, small, At-le p.code_at);
          code_size = omega (arith, small, At-le p.code_at, p.code_len);
          refl_offset = omega (arith, small, At-le p.refl_at);
          refl_size = omega (arith, small, At-le p.refl_at, p.refl_len);
          deps_idx_off = omega (arith, small, i, l);
          deps_idx_count = omega (arith, small, i, l);
        }

    record_at-Holds :
        (j : ℕ)
        → j < length w.entries
        → record_at blob j ≡ get_or (the_plan w).records j zero_record
    unfolding record_at
    record_at-Holds j h =
        let (rest, e) = At-drop (holds.records j h) in
        ap read_record e
        ∙ read_record-record_bytes (get_or (the_plan w).records j zero_record) rest
            (record-IsPacked j h)

    count_read : (j : ℕ) → j < length w.entries → (read_header w n).entry_count ≡ length w.entries
    unfolding header
    count_read j h =
        let last : length w.entries - 1 < length w.entries = omega (arith, h) in
        omega (
          arith,
          small,
          h,
          At-le (holds.records (length w.entries - 1) last),
          length-record_bytes (get_or (the_plan w).records (length w.entries - 1) zero_record),
        )

    pool_read :
        (j : ℕ)
        → j < length w.entries
        → (read_header w n).entry_deps_idx_offset ≡ (the_plan w).entry_deps_idx_offset
    unfolding header
    pool_read j h = omega (arith, small, At-le (holds.pool j h))

    pub at-Holds :
        (j : ℕ) → j < length w.entries → at reader j ≡ entry_of (get_or w.entries j no_entry)
    at-Holds j h =
        let e = get_or w.entries j no_entry in
        at-inside blob (read_header w n) j (omega (arith, h, count_read j h))
        ∙ rw (record_at-Holds j h, record_of j h)
            (entry_of_record-Places blob (read_header w n) (get_or (laid_out w).1 j zero_record) e
              (0 + start w.entries j) (holds.places j h)
              (At-eq refl (omega (arith, pool_read j h)) (holds.pool j h))
              (All-get_or (λ e. All IsWord e.dep_indices) w.entries j ok.indices h))

    table_size :
        length (dep_chunks (path_slots (the_plan w).deps_strings_offset w.deps))
        ≡ length w.deps * 16
    table_size =
        length-chunks dep_bytes 16 (path_slots (the_plan w).deps_strings_offset w.deps)
          length-dep_bytes
        ∙ ap (λ k. k * 16) (length-path_slots w.deps (the_plan w).deps_strings_offset)

    table_read : (read_header w n).deps_offset ≡ (the_plan w).deps_table_offset
    unfolding header
    table_read = omega (arith, small, At-le holds.table)

    deps_read : (read_header w n).deps_count ≡ length w.deps
    unfolding header
    deps_read = omega (arith, small, At-le holds.table, table_size)

    pub dependencies-Holds : dependencies reader ≡ map dep_of_info w.deps
    unfolding dependencies
    dependencies-Holds =
        let (rest, e) = At-drop holds.table in
        rw
          (
            table_read,
            deps_read,
            le→ltb (length blob) ((the_plan w).deps_table_offset + length w.deps * 16)
                (omega (arith, At-le holds.table, table_size)),
            e,
          )
          (read_deps-path_slots blob w.deps (the_plan w).deps_strings_offset rest small
            ok.dep_hashes holds.strings)

    entry_count-Holds : entry_count reader ≡ length w.entries
    unfolding entry_count
    entry_count-Holds = elim (dec_lt 0 (length w.entries)) [
      | Dec.yes h ↦ count_read 0 h
      | Dec.no h ↦ unfold header in omega (arith, h)
    ]

    pub reader-Reads : Reads w reader
    unfolding valid target options_hash header
    reader-Reads = record {
      is_valid = refl;
      target_same = blob_code_to_target-target_to_blob_code w.target;
      options_same = refl;
      count = entry_count-Holds;
      entries = at-Holds;
      deps = dependencies-Holds;
    }
