-- ===== src/Blob/Writer.antt =====
-- `BlobWriter`: its state, `addEntry` and the setters, and `finalize` in the order of its loops.
pub mod Dedup
pub mod Layout
pub mod Emit
use mathlib.Core.Option
use slangmake.Prelude.{
  ℕ, ◌+◌, ◌*◌, ◌-◌, Bytes, List, [], ◌∷◌, ◌++◌, Option, none, some, length, take, drop, map,
}
use slangmake.Enums.{Target, Codec, target_to_blob_code, codec_code}
use slangmake.Permutation.{Permutation, key}
use slangmake.Hash.{le32}
use slangmake.Blob.Format.{
  BlobHeader, DepEntry, EntryRecord, blob_magic, blob_version, header_size, dep_entry_size,
  entry_record_size, header_bytes, record_bytes, dep_bytes,
}
use slangmake.Blob.Codecs.{CodecLibraries, compress_payload}
use Dedup.{dedup}
use Layout.{
  Entry, DepInfo, u32, align8, align4, layout_entries, paths_size, path_slots, dep_slots,
  index_count,
}
use Emit.{
  pad_to8, pad_to4, pad_until, emit_records, emit_entries, emit_paths, emit_deps, emit_indices,
  store32,
}

pub record BlobWriter : Type 0 where
  pub target : Target
  pub entries : List Entry
  pub deps : List DepInfo
  pub options_hash : ℕ
  pub compression : Codec

unfoldable pub new : Target → BlobWriter
new t = record { target = t; entries = []; deps = []; options_hash = 0; compression = Codec.none }

unfoldable pub add_entry : Permutation → Bytes → Bytes → List ℕ → BlobWriter → BlobWriter
add_entry perm code reflection dep_indices w = record w {
  entries =
      w.entries
      ++ (record { key = key perm; code = code; refl = reflection; dep_indices = dep_indices }
          ∷ []);
}

unfoldable pub set_dependencies : List DepInfo → BlobWriter → BlobWriter
set_dependencies deps w = record w { deps = deps }

unfoldable pub set_options_hash : ℕ → BlobWriter → BlobWriter
set_options_hash h w = record w { options_hash = h }

unfoldable pub set_compression : Codec → BlobWriter → BlobWriter
set_compression c w = record w { compression = c }

-- `dataStart`: the end of the header and the record table.
abbrev pub data_start : BlobWriter → ℕ
data_start w = align8 (header_size + length w.entries * entry_record_size)

-- The locals of `finalize` that the layout pass computes.
pub record Plan : Type 0 where
  pub code_canonical : List ℕ
  pub refl_canonical : List ℕ
  pub records : List EntryRecord
  pub deps_strings_offset : ℕ
  pub deps_strings_size : ℕ
  pub deps_table_offset : ℕ
  pub entry_deps_idx_offset : ℕ
  pub running_entry_deps_count : ℕ
  pub cursor : ℕ

unfoldable pub plan_after : List ℕ → List ℕ → BlobWriter → ℕ × List EntryRecord → Plan
plan_after ccs rcs w (cursor, placed) =
    let strings = align8 cursor in
    let strings_end = strings + paths_size w.deps in
    let table = align8 strings_end in
    let indices = align4 (table + length w.deps * dep_entry_size) in
    let running = index_count 0 w.entries in
    record {
      code_canonical = ccs;
      refl_canonical = rcs;
      records = dep_slots 0 w.entries placed;
      deps_strings_offset = strings;
      deps_strings_size = strings_end - strings;
      deps_table_offset = table;
      entry_deps_idx_offset = indices;
      running_entry_deps_count = running;
      cursor = indices + running * 4;
    }

unfoldable pub plan : BlobWriter → Plan
plan w =
    let ccs = dedup (map (λ e. e.code) w.entries) in
    let rcs = dedup (map (λ e. e.refl) w.entries) in
    plan_after ccs rcs w (layout_entries ccs rcs 0 w.entries (data_start w) [])

unfoldable pub header : BlobWriter → Plan → BlobHeader
header w p = record {
  magic = blob_magic;
  version = blob_version;
  target = target_to_blob_code w.target;
  entry_count = u32 (length w.entries);
  deps_offset = u32 p.deps_table_offset;
  deps_count = u32 (length w.deps);
  deps_strings_offset = u32 p.deps_strings_offset;
  deps_strings_size = u32 p.deps_strings_size;
  entry_deps_idx_offset = u32 p.entry_deps_idx_offset;
  entry_deps_idx_count = p.running_entry_deps_count;
  compression = 0;
  uncompressed_payload_size = 0;
  options_hash = w.options_hash;
}

-- The bytes before compression.
unfoldable pub emit : BlobWriter → Plan → Bytes
emit w p =
    let head = pad_until (data_start w) (emit_records p.records (header_bytes (header w p))) in
    let body = emit_entries p.code_canonical p.refl_canonical 0 w.entries head in
    let strings = pad_to8 (emit_paths w.deps (pad_to8 body)) in
    let table = pad_to4 (emit_deps (path_slots p.deps_strings_offset w.deps) strings) in
    pad_until p.cursor (emit_indices w.entries table)

-- The header's fields `compression` and `uncompressedPayloadSize`.
abbrev pub stamp : Bytes → Codec → ℕ → Bytes
stamp out c n = store32 (store32 out 40 (codec_code c)) 44 n

-- `wrapped`: the header of `out` and the compressed payload behind it.
unfoldable pub wrap : Codec → Bytes → Bytes → Bytes
wrap c out compressed = stamp (take header_size out) c (length (drop header_size out)) ++ compressed

-- The end of `finalize`, on the buffer `out`; `none` is an exception of `compressPayload`.
unfoldable pub compressed : CodecLibraries → Codec → Bytes → Option Bytes
compressed libs Codec.none out = some (stamp out Codec.none (length out - header_size))
compressed libs c out = Option.map (wrap c out) (compress_payload libs c (drop header_size out))

unfoldable pub finalize : CodecLibraries → BlobWriter → Option Bytes
finalize libs w = compressed libs w.compression (emit w (plan w))
