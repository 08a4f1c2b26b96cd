-- ===== src/Blob/Parts.antt =====
-- The parts of a finished buffer, whatever its header's two patched fields hold.
use slangmake.Prelude.{
  ℕ, ◌+◌, ◌*◌, ◌^◌, ◌<◌, ◌≤◌, ◌≡◌, refl, sym, ◌∙◌, Bytes, ◌++◌, get_or, length, arith,
}
use slangmake.Enums.{Codec, codec_code}
use slangmake.Blob.Format.{
  BlobHeader, zero_record, header_size, entry_record_size, header_bytes, record_bytes,
}
use slangmake.Blob.Words.{words_bytes, length-header_bytes, length-record_bytes}
use slangmake.Blob.Writer.Layout.{path_slots}
use slangmake.Blob.Writer.Emit.{pad_to8, pad_to4, store32}
use slangmake.Blob.Writer.{BlobWriter, plan_after, header, emit, stamp}
use slangmake.Blob.Placed.{At, Extends, Extends-trans, At-end, At-eq, At-Extends, At-other_front}
use slangmake.Blob.Padding.{length-pad_to8, length-pad_to4}
use slangmake.Blob.EntryPlaces.{no_entry, Places, Places-Extends}
use slangmake.Blob.LaidOut.{emit_entries-Extends}
use slangmake.Blob.Chunks.{
  chunks-At, chunk_offset_fixed, record_chunks, dep_chunks, path_chunks, emit_records-chunks,
  emit_paths-chunks, emit_deps-chunks, emit_indices-chunks,
}
use slangmake.Blob.IndexPool.{start, chunk_offset-start}
use slangmake.Blob.Image.{
  the_plan, laid_out, front, with_records, with_entries, with_paths, with_deps, with_indices,
  length-records, paths_deps, deps_indices, entries_indices, laid, length-with_paths,
  length-with_deps, emit-with_indices, code_canon, refl_canon,
}

-- Where the parts of `w` stand in `blob`.
pub record Holds (w : BlobWriter) (blob : Bytes) : Type 0 where
  pub records :
      (j : ℕ)
      → j < length w.entries
      → At blob
          (header_size + j * entry_record_size)
          (record_bytes (get_or (the_plan w).records j zero_record))
  pub places :
      (j : ℕ)
      → j < length w.entries
      → Places blob (get_or (laid_out w).1 j zero_record) (get_or w.entries j no_entry)
  pub pool :
      (j : ℕ)
      → j < length w.entries
      → At blob
          ((the_plan w).entry_deps_idx_offset + start w.entries j * 4)
          (words_bytes (get_or w.entries j no_entry).dep_indices)
  pub strings : At blob (the_plan w).deps_strings_offset (path_chunks w.deps)
  pub table :
      At blob
        (the_plan w).deps_table_offset
        (dep_chunks (path_slots (the_plan w).deps_strings_offset w.deps))

module _ (w : BlobWriter) (fits : length (emit w (the_plan w)) < 2 ^ 32) where
  entries_records : Extends (with_records w) (with_entries w)
  entries_records = emit_entries-Extends (code_canon w) (refl_canon w) 0 w.entries (with_records w)

  records_At :
      (j : ℕ)
      → j < length w.entries
      → At
          (with_records w)
          (header_size + j * entry_record_size)
          (record_bytes (get_or (the_plan w).records j zero_record))
  records_At j h =
      let l : j < length (the_plan w).records = omega (arith, h, length-records w) in
      At-eq (emit_records-chunks (the_plan w).records (front w))
        (omega (
          arith,
          chunk_offset_fixed record_bytes 32 (the_plan w).records j length-record_bytes l,
          length-header_bytes (header w (the_plan w)),
        ))
        (chunks-At record_bytes (the_plan w).records j zero_record (front w) l)

  pool_At :
      (j : ℕ)
      → j < length w.entries
      → At
          (with_indices w)
          ((the_plan w).entry_deps_idx_offset + start w.entries j * 4)
          (words_bytes (get_or w.entries j no_entry).dep_indices)
  unfolding plan_after
  pool_At j h =
      At-eq (emit_indices-chunks w.entries (pad_to4 (with_deps w)))
        (omega (
          arith,
          chunk_offset-start w.entries j,
          length-pad_to4 (with_deps w),
          length-with_deps w fits,
        ))
        (chunks-At (λ e. words_bytes e.dep_indices) w.entries j no_entry (pad_to4 (with_deps w)) h)

  strings_At : At (with_paths w) (the_plan w).deps_strings_offset (path_chunks w.deps)
  unfolding plan_after
  strings_At =
      At-eq (emit_paths-chunks w.deps (pad_to8 (with_entries w)))
        (omega (arith, length-pad_to8 (with_entries w), (laid w fits).0))
        (At-end (pad_to8 (with_entries w)) (path_chunks w.deps))

  table_At :
      At
        (with_deps w)
        (the_plan w).deps_table_offset
        (dep_chunks (path_slots (the_plan w).deps_strings_offset w.deps))
  unfolding plan_after
  table_At =
      At-eq
        (emit_deps-chunks (path_slots (the_plan w).deps_strings_offset w.deps)
          (pad_to8 (with_paths w)))
        (omega (arith, length-pad_to8 (with_paths w), length-with_paths w fits))
        (At-end (pad_to8 (with_paths w)) _)

  with_indices-Holds : Holds w (with_indices w)
  with_indices-Holds = record {
    records = λ j h.
        At-Extends (Extends-trans _ _ _ entries_records (entries_indices w)) (records_At j h);
    places = λ j h. Places-Extends (entries_indices w) ((laid w fits).1.places j h);
    pool = pool_At;
    strings = At-Extends (Extends-trans _ _ _ (paths_deps w) (deps_indices w)) strings_At;
    table = At-Extends (deps_indices w) table_At;
  }

  pub emit-Holds : Holds w (emit w (the_plan w))
  emit-Holds = rw (emit-with_indices w fits) with_indices-Holds

  -- The header stands in front.
  pub emit-front : Extends (front w) (emit w (the_plan w))
  emit-front = rw (emit-with_indices w fits) (
      Extends-trans (front w) (with_records w) (with_indices w)
        (record_chunks (the_plan w).records, emit_records-chunks (the_plan w).records (front w))
        (Extends-trans (with_records w) (with_entries w) (with_indices w) entries_records
          (entries_indices w)))

-- The header with its two patched fields.
abbrev pub stamped : BlobHeader → ℕ → ℕ → BlobHeader
stamped h c n = record h { compression = c; uncompressed_payload_size = n }

pub stamp-header_bytes :
    (h : BlobHeader) (more : Bytes) (c : Codec) (n : ℕ)
    → stamp (header_bytes h ++ more) c n ≡ header_bytes (stamped h (codec_code c) n) ++ more
unfolding header_bytes store32
stamp-header_bytes h more c n = refl

pub Holds-other_front :
    {w : BlobWriter} (h h' : BlobHeader) (more : Bytes)
    → Holds w (header_bytes h ++ more)
    → header_size ≤ (the_plan w).entry_deps_idx_offset
    → header_size ≤ (the_plan w).deps_strings_offset
    → header_size ≤ (the_plan w).deps_table_offset
    → Holds w (header_bytes h' ++ more)
Holds-other_front {w} h h' more holds far_indices far_strings far_table = record {
  records = λ j l. move (omega arith) (holds.records j l);
  places = λ j l.
      let p = holds.places j l in
      record {
        key_at = move p.key_behind p.key_at;
        key_len = p.key_len;
        code_at = move p.code_behind p.code_at;
        code_len = p.code_len;
        refl_at = move p.refl_behind p.refl_at;
        refl_len = p.refl_len;
        key_behind = p.key_behind;
        code_behind = p.code_behind;
        refl_behind = p.refl_behind;
      };
  pool = λ j l. move (omega (arith, far_indices)) (holds.pool j l);
  strings = move far_strings holds.strings;
  table = move far_table holds.table;
}
  where
    move :
        {bs : Bytes} {off : ℕ}
        → header_size ≤ off
        → At (header_bytes h ++ more) off bs
        → At (header_bytes h' ++ more) off bs
    move far a =
        At-other_front (header_bytes h) (header_bytes h') more
          (length-header_bytes h ∙ sym (length-header_bytes h'))
          (omega (arith, length-header_bytes h, far)) a
