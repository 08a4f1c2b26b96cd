-- ===== src/Tests/Reuse.antt =====
-- Runs with the blob of an earlier run.
use slangmake.Prelude.{
  none, ℕ, ◌≡◌, ◌↔◌, refl, false, Bytes, codes, List, [], ◌∷◌, some, bytes_eq, bytes_lt,
}
use slangmake.Enums.{Target, codec_code, target_to_blob_code, blob_code_to_target}
use slangmake.Permutation.{Permutation, key, join_sorted}
use slangmake.Prelude.Sort.{sort}
use slangmake.Hash.{fnv_offset, fnv1a_mix}
use slangmake.Blob.Format.{
  header_bytes, record_bytes, dep_bytes, load_header, read_record, read_dep,
}
use slangmake.Blob.Writer.Layout.{
  place, layout_entry, layout_entries, path_slots, dep_slots, index_count,
}
use slangmake.Blob.Writer.Dedup.{find_hash, emplace, earlier, dedup_step, dedup_from, dedup}
use slangmake.Blob.Writer.Emit.{
  pad_loop, pad_to8, pad_to4, pad_until_loop, pad_until, emit_records, emit_payload, emit_entry,
  emit_entries, emit_paths, emit_deps, emit_index_list, emit_indices, store32,
}
use slangmake.Blob.Writer.{
  BlobWriter, new, add_entry, set_dependencies, set_options_hash, set_compression, plan_after, plan,
  header, emit, finalize,
}
use slangmake.Batch.Surroundings.{Environment, hash_file_contents}
use slangmake.Batch.Reuse.{reusable, index_of_key, deps_ok}
use slangmake.Batch.Unchanged.{IsReuse, reusable-IsReuse}
use slangmake.Blob.Reader.{
  BlobReader, Entry, at, entry_count, dependencies, entry_of_record, record_at, read_words,
  read_deps, dep_of_entry,
}

program : Unit {0}
unfolding new add_entry set_dependencies set_options_hash set_compression plan_after plan header
    emit finalize place layout_entry layout_entries path_slots dep_slots index_count find_hash
    emplace earlier dedup_step dedup_from dedup pad_loop pad_to8 pad_to4 pad_until_loop pad_until
    emit_records emit_payload emit_entry emit_entries emit_paths emit_deps emit_index_list
    emit_indices store32 header_bytes record_bytes dep_bytes codec_code target_to_blob_code
    blob_code_to_target key join_sorted sort fnv1a_mix bytes_eq bytes_lt load_header read_record
    read_dep reusable index_of_key entry_count at entry_of_record record_at deps_ok read_words
    dependencies read_deps hash_file_contents dep_of_entry
program = tt

abbrev shadows : Permutation
shadows = record { constants = record { name = codes "S"; value = codes "1" } ∷ []; type_args = [] }

-- The blob of a run for which the file `a` held `x`, with these dependency indices of its entry.
abbrev earlier_writer : List ℕ → BlobWriter
earlier_writer is =
    set_dependencies
      (record { path = codes "a"; content_hash = fnv1a_mix fnv_offset (codes "x") } ∷ [])
      (add_entry shadows (1 ∷ 2 ∷ []) [] is (new Target.spirv))

abbrev earlier_reader : List ℕ → BlobReader
earlier_reader is = record {
  blob = emit (earlier_writer is) (plan (earlier_writer is));
  hdr = some (header (earlier_writer is) (plan (earlier_writer is)));
}

-- The file `a` holds `text`.
abbrev holding : Bytes → Environment
holding text = record {
  read = λ p. some text;
  compile = λ opts p. record {
    success = false;
    code = [];
    reflection = [];
    dependencies = [];
    diagnostics = [];
  };
}

abbrev earlier_entry : List ℕ → Entry
earlier_entry is = record {
  key = codes "S=1";
  code = 1 ∷ 2 ∷ [];
  reflection = [];
  dep_indices = is;
}

unchanged_run :
    reusable (holding (codes "x")) (earlier_reader (0 ∷ [])) shadows ≡ some (earlier_entry (0 ∷ []))
unfolding program
unchanged_run = refl

changed_run : reusable (holding (codes "y")) (earlier_reader (0 ∷ [])) shadows ≡ none
unfolding program
changed_run = refl

-- Without dependency indices the change goes unnoticed.
unknown_run : reusable (holding (codes "y")) (earlier_reader []) shadows ≡ some (earlier_entry [])
unfolding program
unknown_run = refl

reusable-IsReuse_example :
    (reusable (holding (codes "x")) (earlier_reader (0 ∷ [])) shadows
      ≡ some (earlier_entry (0 ∷ [])))
    ↔ IsReuse (holding (codes "x")) (earlier_reader (0 ∷ [])) shadows (earlier_entry (0 ∷ []))
reusable-IsReuse_example =
    reusable-IsReuse (holding (codes "x")) (earlier_reader (0 ∷ [])) shadows
      (earlier_entry (0 ∷ []))
