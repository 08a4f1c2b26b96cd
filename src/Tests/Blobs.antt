-- ===== src/Tests/Blobs.antt =====
-- A writer with two entries that share their code, and the readers of its blobs.
use mathlib.Core.Option
use mathlib.Core.List.{Memᴰ}
use mathlib.Core.List.Perm
use slangmake.Prelude.{
  none, ◌+◌, ◌^◌, ◌<◌, ◌≤◌, map, ◌≡◌, ◌≢◌, refl, ap, true, false, Bytes, codes, [], ◌∷◌, some,
  length, All, bytes_eq, bytes_eq_iff, bytes_lt, arith,
}
use slangmake.Enums.{Target, Codec, codec_code, target_to_blob_code, blob_code_to_target}
use slangmake.Permutation.{ShaderConstant, Permutation, key, join_sorted}
use slangmake.Prelude.Sort.{sort}
use slangmake.Hash.{fnv1a_mix}
use slangmake.Blob.Format.{
  header_bytes, record_bytes, dep_bytes, load_header, read_record, read_dep,
}
use slangmake.Blob.Codecs.{CodecLibrary, CodecLibraries, IsLossless}
use slangmake.Blob.Writer.Layout.{
  place, layout_entry, layout_entries, path_slots, dep_slots, index_count,
}
use slangmake.Blob.Writer.Dedup.{find_hash, emplace, earlier, dedup_step, dedup_from, dedup}
use slangmake.Blob.Writer.Emit.{
  pad_loop, pad_to8, pad_to4, pad_until_loop, pad_until, emit_records, emit_payload, emit_entry,
  emit_entries, emit_paths, emit_deps, emit_index_list, emit_indices, store32,
}
use slangmake.Blob.Writer.{
  BlobWriter, new, add_entry, set_dependencies, set_options_hash, set_compression, plan_after, plan,
  header, emit, finalize,
}
use slangmake.Permutation.Key.{IsConsistent, key-perm}
use slangmake.Blob.Writer.Layout as Layout
use slangmake.Blob.Lookup.{first_with, find-first_with, find-add_entry, enumerate-keys}
use slangmake.Blob.Safety.{HasTable, rebind-HasTable, rebind-valid}
use slangmake.Blob.Sharing.{Shares, dedup-Shares}
use slangmake.Blob.Reader.{BlobReader, valid, rebind, find, enumerate}
use slangmake.Blob.Image.{the_plan}
use slangmake.Blob.Rejected.{empty_writer, rebind-finalize_empty}
use slangmake.Blob.ReadEntry.{entry_of}
use slangmake.Blob.ReadBack.{IsWritable, Reads}
use slangmake.Blob.RoundTrip.{finalize_none-Reads, finalize_compressed-Reads}

program : Unit {0}
unfolding new add_entry set_dependencies set_options_hash set_compression plan_after plan header
    emit finalize place layout_entry layout_entries path_slots dep_slots index_count find_hash
    emplace earlier dedup_step dedup_from dedup pad_loop pad_to8 pad_to4 pad_until_loop pad_until
    emit_records emit_payload emit_entry emit_entries emit_paths emit_deps emit_index_list
    emit_indices store32 header_bytes record_bytes dep_bytes codec_code target_to_blob_code
    blob_code_to_target key join_sorted sort fnv1a_mix bytes_eq bytes_lt load_header read_record
    read_dep
program = tt

abbrev shadows : Permutation
shadows = record { constants = record { name = codes "S"; value = codes "1" } ∷ []; type_args = [] }

abbrev no_shadows : Permutation
no_shadows = record {
  constants = record { name = codes "S"; value = codes "0" } ∷ [];
  type_args = [];
}

abbrev writer : BlobWriter
writer = set_dependencies (record { path = codes "a.slang"; content_hash = 77 } ∷ []) (
    add_entry no_shadows (1 ∷ 2 ∷ 3 ∷ []) [] (0 ∷ [])
      (add_entry shadows (1 ∷ 2 ∷ 3 ∷ []) (9 ∷ []) (0 ∷ []) (new Target.dxil)))

-- 56 of header, 64 of records, 24 of entries with padding, 8 of paths, 16 of table, 8 of indices
size : length (emit writer (the_plan writer)) ≡ 176
unfolding program
size = refl

fits : length (emit writer (the_plan writer)) < 2 ^ 32
fits = omega (arith, size)

-- A codec that stores its input.
abbrev stored : CodecLibrary
stored = record { compress = λ b. some b; decompress = λ b n. some b }

abbrev libs : CodecLibraries
libs = record { lz4 = stored; zstd = stored }

stored-IsLossless : IsLossless stored 1000
stored-IsLossless = record {
  compresses = λ b _ _. (b, refl);
  decompress-compress = λ b c _ _ e. ap some (stored_eq b c e);
}
  where
    stored_eq : (b c : Bytes) → stored.compress b ≡ some c → c ≡ b
    stored_eq b c e = cc

writer-IsWritable : IsWritable writer
unfolding new add_entry set_dependencies
writer-IsWritable = record {
  fits = fits;
  hash = omega arith;
  dep_hashes = (omega arith, tt);
  indices = ((omega arith, tt), ((omega arith, tt), tt));
}

finalize_none-Reads_example :
    (blob : Bytes) × (finalize libs writer ≡ some blob) × Reads writer (rebind libs blob)
unfolding program
finalize_none-Reads_example = finalize_none-Reads libs writer refl writer-IsWritable

abbrev lz4_writer : BlobWriter
lz4_writer = set_compression Codec.lz4 writer

lz4_size : length (emit lz4_writer (the_plan lz4_writer)) ≡ 176
unfolding program
lz4_size = refl

lz4_writer-IsWritable : IsWritable lz4_writer
unfolding new add_entry set_dependencies set_compression
lz4_writer-IsWritable = record {
  fits = omega (arith, lz4_size);
  hash = omega arith;
  dep_hashes = (omega arith, tt);
  indices = ((omega arith, tt), ((omega arith, tt), tt));
}

lz4_plan : length (emit lz4_writer (plan lz4_writer)) < 1000
unfolding plan
lz4_plan = omega (arith, lz4_size)

lz4_codec : lz4_writer.compression ≢ Codec.none
unfolding set_compression
lz4_codec e = cc

lz4_full : 0 < length lz4_writer.entries + length lz4_writer.deps
unfolding new add_entry set_dependencies set_compression
lz4_full = omega arith

finalize_compressed-Reads_example :
    (blob : Bytes) × (finalize libs lz4_writer ≡ some blob) × Reads lz4_writer (rebind libs blob)
finalize_compressed-Reads_example =
    finalize_compressed-Reads libs 1000 lz4_writer lz4_codec stored-IsLossless stored-IsLossless
      lz4_writer-IsWritable lz4_full lz4_plan

-- A permutation of two axes, in either order.
abbrev a_b : Permutation
a_b = record {
  constants =
      record { name = codes "A"; value = codes "1" }
      ∷ record { name = codes "B"; value = codes "2" }
      ∷ [];
  type_args = [];
}

abbrev b_a : Permutation
b_a = record {
  constants =
      record { name = codes "B"; value = codes "2" }
      ∷ record { name = codes "A"; value = codes "1" }
      ∷ [];
  type_args = [];
}

abbrev added : BlobWriter
added = add_entry a_b (5 ∷ []) (6 ∷ []) (0 ∷ []) writer

added_size : length (emit added (the_plan added)) ≡ 236
unfolding program
added_size = refl

added-IsWritable : IsWritable added
unfolding new add_entry set_dependencies
added-IsWritable = record {
  fits = omega (arith, added_size);
  hash = omega arith;
  dep_hashes = (omega arith, tt);
  indices = ((omega arith, tt), ((omega arith, tt), ((omega arith, tt), tt)));
}

added_uncompressed : added.compression ≡ Codec.none
unfolding new add_entry set_dependencies
added_uncompressed = refl

two-IsConsistent : (x y : ShaderConstant) → x.name ≢ y.name → IsConsistent (x ∷ y ∷ [])
two-IsConsistent x y n a b (Memᴰ.head p) (Memᴰ.head q) e = cc
two-IsConsistent x y n a b (Memᴰ.head p) (Memᴰ.tail (Memᴰ.head q)) e = absurd (n (cc (e, p, q)))
two-IsConsistent x y n a b (Memᴰ.tail (Memᴰ.head p)) (Memᴰ.head q) e = absurd (n (cc (e, p, q)))
two-IsConsistent x y n a b (Memᴰ.tail (Memᴰ.head p)) (Memᴰ.tail (Memᴰ.head q)) e = cc
two-IsConsistent x y n a b (Memᴰ.tail (Memᴰ.tail m)) k e = elim m [ ]
two-IsConsistent x y n a b m (Memᴰ.tail (Memᴰ.tail k)) e = elim k [ ]

a_b-IsConsistent : IsConsistent a_b.constants
unfolding program
a_b-IsConsistent =
    two-IsConsistent _ _
      λ e. let t : false ≡ true = (bytes_eq_iff (codes "A") (codes "B")).1 e in cc

none-IsConsistent : IsConsistent []
none-IsConsistent a b m k e = elim m [ ]

key-perm_example : key a_b ≡ key b_a
key-perm_example =
    key-perm a_b b_a a_b-IsConsistent none-IsConsistent (Perm.swap _ _ []) (Perm.refl [])

-- The reader of the blob of `added`.
abbrev added_reader : BlobReader
added_reader = rebind libs (finalize_none-Reads libs added added_uncompressed added-IsWritable).0

added-Reads : Reads added added_reader
added-Reads = (finalize_none-Reads libs added added_uncompressed added-IsWritable).2

fresh_key : All (λ (d : Layout.Entry). d.key ≢ key a_b) writer.entries
unfolding program
fresh_key = ((λ e. cc), ((λ e. cc), tt))

find-add_entry_example :
    find added_reader b_a
    ≡ some record { key = key a_b; code = 5 ∷ []; reflection = 6 ∷ []; dep_indices = 0 ∷ [] }
find-add_entry_example =
    find-add_entry writer added_reader a_b b_a (5 ∷ []) (6 ∷ []) (0 ∷ []) added-Reads fresh_key
      a_b-IsConsistent none-IsConsistent (Perm.swap _ _ []) (Perm.refl [])

find-first_with_example :
    find added_reader shadows ≡ Option.map entry_of (first_with (key shadows) added.entries)
find-first_with_example = find-first_with added added_reader shadows added-Reads

enumerate-keys_example : enumerate added_reader ≡ map (λ e. e.key) added.entries
enumerate-keys_example = enumerate-keys added added_reader added-Reads

-- A header that announces two entries, with nothing behind it.
rebind-HasTable_example : HasTable (rebind libs (header_bytes (header writer (plan writer))))
rebind-HasTable_example = rebind-HasTable libs (header_bytes (header writer (plan writer)))

dedup-Shares_example : Shares ((1 ∷ []) ∷ (2 ∷ []) ∷ (1 ∷ []) ∷ []) 2 (1 ∷ []) 0
unfolding program
dedup-Shares_example = dedup-Shares ((1 ∷ []) ∷ (2 ∷ []) ∷ (1 ∷ []) ∷ []) 2 (omega arith)

added_valid : valid added_reader ≡ true
added_valid = added-Reads.is_valid

rebind-valid_example :
    let blob = (finalize_none-Reads libs added added_uncompressed added-IsWritable).0 in
    (56 ≤ length blob) × ((load_header blob).magic ≡ 0x474e4c53) × ((load_header blob).version ≡ 1)
rebind-valid_example =
    rebind-valid libs (finalize_none-Reads libs added added_uncompressed added-IsWritable).0
      added_valid

-- A library that decompresses nothing.
abbrev refusing : CodecLibrary
refusing = record { compress = λ b. some b; decompress = λ b n. none }

abbrev refusing_libs : CodecLibraries
refusing_libs = record { lz4 = refusing; zstd = refusing }

rebind-finalize_empty_example :
    (blob : Bytes) × (finalize refusing_libs (empty_writer Target.spirv 5) ≡ some blob)
    × (valid (rebind refusing_libs blob) ≡ false)
rebind-finalize_empty_example =
    rebind-finalize_empty refusing_libs Target.spirv 5 (omega arith) refl
