-- ===== src/Blob/Image.antt =====
-- The buffer that `finalize` fills before compression: every part stands where the header and the
-- records say.
use mathlib.Core.Path.{subst}
use slangmake.Prelude.{
  ℕ, suc, ◌+◌, ◌*◌, ◌^◌, ◌<◌, ◌≡◌, refl, sym, ap, ◌∙◌, Bytes, List, [], ◌∷◌, ◌++◌, map, get_or,
  length, length-append, length-map, get_or-map, arith,
}
use slangmake.Blob.Format.{EntryRecord, dep_entry_size, header_bytes, record_bytes, dep_bytes}
use slangmake.Blob.Words.{length-header_bytes, length-record_bytes, length-dep_bytes}
use slangmake.Blob.Writer.Layout.{
  Entry, align8, layout_entry, layout_entries, paths_size, path_slots,
}
use slangmake.Blob.Writer.Dedup.{dedup}
use slangmake.Blob.Writer.Emit.{
  pad_to8, pad_to4, pad_until, emit_records, emit_entries, emit_paths, emit_deps, emit_indices,
}
use slangmake.Blob.Writer.{BlobWriter, Plan, plan_after, data_start, header, emit}
use slangmake.Blob.Placed.{Extends, Extends-trans, Extends-le}
use slangmake.Blob.Padding.{
  length-pad_to8, length-pad_to4, pad_to8-Extends, pad_to4-Extends, pad_until_full,
  pad_until-Extends,
}
use slangmake.Blob.Sharing.{dedup-Shares}
use slangmake.Blob.EntryPlaces.{no_entry}
use slangmake.Blob.LaidOut.{Laid, IsCanonical, layout_entries-Laid}
use slangmake.Blob.Chunks.{
  length-chunks, record_chunks, dep_chunks, index_chunks, path_chunks, emit_records-chunks,
  emit_paths-chunks, emit_deps-chunks, emit_indices-chunks, length-path_chunks,
}
use slangmake.Blob.IndexPool.{total, index_count-total, length-index_chunks, length-dep_slots}
use slangmake.Blob.DepTable.{length-path_slots}

pub length-layout_entries :
    (ccs rcs : List ℕ) (i : ℕ) (es : List Entry) (cursor : ℕ) (recs : List EntryRecord)
    → length (layout_entries ccs rcs i es cursor recs).1 ≡ length recs + length es
unfolding layout_entries
length-layout_entries ccs rcs i [] cursor recs = omega arith
length-layout_entries ccs rcs i (e ∷ es) cursor recs =
    let step = layout_entry i (get_or ccs i 0) (get_or rcs i 0) e cursor recs in
    omega (
      arith,
      length-layout_entries ccs rcs (suc i) es step.0 (recs ++ (step.1 ∷ [])),
      length-append recs (step.1 ∷ []),
    )

dedup-IsCanonical :
    (f : Entry → Bytes) (es : List Entry) → f no_entry ≡ [] → IsCanonical f es (dedup (map f es))
dedup-IsCanonical f es e k h =
    let s = dedup-Shares (map f es) k (omega (arith, h, length-map f es)) in
    (s.le, sym (payload_at (get_or (dedup (map f es)) k 0)) ∙ s.same ∙ payload_at k)
  where
    payload_at : (i : ℕ) → get_or (map f es) i [] ≡ f (get_or es i no_entry)
    payload_at i =
        subst (λ d. get_or (map f es) i d ≡ f (get_or es i no_entry)) e (get_or-map f es i no_entry)

module _ (w : BlobWriter) where
  abbrev pub code_canon : List ℕ
  code_canon = dedup (map (λ e. e.code) w.entries)

  abbrev pub refl_canon : List ℕ
  refl_canon = dedup (map (λ e. e.refl) w.entries)

  abbrev pub laid_out : ℕ × List EntryRecord
  laid_out = layout_entries code_canon refl_canon 0 w.entries (data_start w) []

  abbrev pub the_plan : Plan
  the_plan = plan_after code_canon refl_canon w laid_out

  abbrev pub front : Bytes
  front = header_bytes (header w the_plan)

  -- the buffer behind each part
  abbrev pub with_records : Bytes
  with_records = emit_records the_plan.records front

  abbrev pub with_entries : Bytes
  with_entries = emit_entries code_canon refl_canon 0 w.entries with_records

  abbrev pub with_paths : Bytes
  with_paths = emit_paths w.deps (pad_to8 with_entries)

  abbrev pub with_deps : Bytes
  with_deps = emit_deps (path_slots the_plan.deps_strings_offset w.deps) (pad_to8 with_paths)

  abbrev pub with_indices : Bytes
  with_indices = emit_indices w.entries (pad_to4 with_deps)

  pub length-records : length the_plan.records ≡ length w.entries
  unfolding plan_after
  length-records =
      length-dep_slots w.entries laid_out.1 0
      ∙ length-layout_entries code_canon refl_canon 0 w.entries (data_start w) []
      ∙ omega arith

  pub length-with_records : length with_records ≡ data_start w
  length-with_records = rw (emit_records-chunks the_plan.records front) (
      omega (
        arith,
        length-append front (record_chunks the_plan.records),
        length-header_bytes (header w the_plan),
        length-chunks record_bytes 32 the_plan.records length-record_bytes,
        length-records,
      ))

  with_records-full : pad_until (data_start w) with_records ≡ with_records
  with_records-full =
      pad_until_full (data_start w) with_records (omega (arith, length-with_records))

  emit-pad_until : emit w the_plan ≡ pad_until the_plan.cursor with_indices
  unfolding emit
  emit-pad_until = unfold plan_after in rw with_records-full

  -- Each part extends the one before it.
  pub entries_paths : Extends with_entries with_paths
  entries_paths =
      Extends-trans with_entries (pad_to8 with_entries) with_paths (pad_to8-Extends with_entries)
        (path_chunks w.deps, emit_paths-chunks w.deps (pad_to8 with_entries))

  pub paths_deps : Extends with_paths with_deps
  paths_deps =
      Extends-trans with_paths (pad_to8 with_paths) with_deps (pad_to8-Extends with_paths) (
        dep_chunks (path_slots the_plan.deps_strings_offset w.deps),
        emit_deps-chunks _ (pad_to8 with_paths),
      )

  pub deps_indices : Extends with_deps with_indices
  deps_indices =
      Extends-trans with_deps (pad_to4 with_deps) with_indices (pad_to4-Extends with_deps)
        (index_chunks w.entries, emit_indices-chunks w.entries (pad_to4 with_deps))

  pub entries_indices : Extends with_entries with_indices
  entries_indices =
      Extends-trans with_entries with_paths with_indices entries_paths
        (Extends-trans with_paths with_deps with_indices paths_deps deps_indices)

  module _ (fits : length (emit w the_plan) < 2 ^ 32) where
    pub indices_fit : length with_indices < 2 ^ 32
    indices_fit =
        let e = emit-pad_until in
        omega (
          arith,
          fits,
          ap length e,
          Extends-le with_indices _ (pad_until-Extends the_plan.cursor with_indices),
        )

    pub laid : (length with_entries ≡ laid_out.0) × Laid with_entries laid_out.1 w.entries
    laid =
        layout_entries-Laid code_canon refl_canon w.entries
          (dedup-IsCanonical (λ e. e.code) w.entries refl)
          (dedup-IsCanonical (λ e. e.refl) w.entries refl) w.entries [] 0 with_records
          (data_start w) [] refl refl length-with_records (omega arith)
          (record { count = refl; places = λ j h. elim h [ ] })
          (omega (arith, indices_fit, Extends-le with_entries with_indices entries_indices))

    pub length-with_paths : length with_paths ≡ the_plan.deps_strings_offset + paths_size w.deps
    unfolding plan_after
    length-with_paths = rw (emit_paths-chunks w.deps (pad_to8 with_entries)) (
        omega (
          arith,
          length-append (pad_to8 with_entries) (path_chunks w.deps),
          length-pad_to8 with_entries,
          laid.0,
          length-path_chunks w.deps,
        ))

    pub length-with_deps :
        length with_deps ≡ the_plan.deps_table_offset + length w.deps * dep_entry_size
    unfolding plan_after
    length-with_deps =
        rw (emit_deps-chunks (path_slots (align8 laid_out.0) w.deps) (pad_to8 with_paths)) (
          omega (
            arith,
            length-append (pad_to8 with_paths) (dep_chunks (path_slots (align8 laid_out.0) w.deps)),
            length-pad_to8 with_paths,
            length-with_paths,
            length-chunks dep_bytes 16 (path_slots (align8 laid_out.0) w.deps) length-dep_bytes,
            length-path_slots w.deps (align8 laid_out.0),
          ))

    pub length-with_indices :
        length with_indices ≡ the_plan.entry_deps_idx_offset + total w.entries * 4
    unfolding plan_after
    length-with_indices = rw (emit_indices-chunks w.entries (pad_to4 with_deps)) (
        omega (
          arith,
          length-append (pad_to4 with_deps) (index_chunks w.entries),
          length-pad_to4 with_deps,
          length-with_deps,
          length-index_chunks w.entries,
        ))

    pub running-total : the_plan.running_entry_deps_count ≡ total w.entries
    unfolding plan_after
    running-total =
        index_count-total w.entries 0 (omega (arith, length-with_indices, indices_fit))
        ∙ omega arith

    pub emit-with_indices : emit w the_plan ≡ with_indices
    emit-with_indices =
        emit-pad_until
        ∙ pad_until_full the_plan.cursor with_indices
            (unfold plan_after in omega (arith, length-with_indices, running-total))
