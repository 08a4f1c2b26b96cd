-- ===== src/Blob/Reader.antt =====
-- `BlobReader`. A `span` into the buffer is the list of its bytes, and `m_entries` is the place
-- behind the header.
use slangmake.Prelude.{
  ℕ, zero, suc, ◌+◌, ◌*◌, ◌-◌, Bool, true, false, ◌&&◌, not, Bytes, List, [], ◌∷◌, ◌++◌, Option,
  none, some, length, take, drop, ltb, leb, ◌==◌, bytes_eq, if◌then◌else◌,
}
use slangmake.Enums.{Target, Codec, blob_code_to_target}
use slangmake.Permutation.{ShaderConstant, Permutation, key}
use slangmake.Blob.Format.{
  BlobHeader, DepEntry, EntryRecord, blob_magic, blob_version, header_size, dep_entry_size,
  entry_record_size, load_header, read_record, read_dep, read32, slice,
}
use slangmake.Blob.Codecs.{CodecLibraries, decompress_payload}
use slangmake.Blob.Writer.Emit.{store32}

-- `m_hdr` is `none` for a null pointer.
pub record BlobReader : Type 0 where
  pub blob : Bytes
  pub hdr : Option BlobHeader

-- `static_cast<Codec>`; `none` is a value that no enumerator has.
unfoldable pub codec_of_code : ℕ → Option Codec
codec_of_code c =
    if c == 0
    then some Codec.none
    else if c == 1
    then some Codec.lz4
    else if c == 2
    then some Codec.zstd
    else none

abbrev pub invalid : Bytes → BlobReader
invalid blob = record { blob = blob; hdr = none }

-- The last part of `rebind`: the record table must lie in the buffer.
unfoldable pub check_table : Bytes → BlobHeader → BlobReader
check_table blob hdr =
    if ltb (length blob) (header_size + hdr.entry_count * entry_record_size)
    then invalid blob
    else record { blob = blob; hdr = some hdr }

-- `decompressPayload`, which throws for an unknown codec too.
unfoldable pub decompress_code : CodecLibraries → ℕ → Bytes → ℕ → Option Bytes
decompress_code libs code payload size = elim (codec_of_code code) [
  | none ↦ none
  | some codec ↦ decompress_payload libs codec payload size
]

-- `expanded`: the header, now marked uncompressed, and the decompressed payload.
unfoldable pub expanded : Bytes → Bytes → Bytes
expanded blob payload = store32 (take header_size blob ++ payload) 40 0

unfoldable pub expand_payload : CodecLibraries → Bytes → BlobHeader → BlobReader
expand_payload libs blob hdr =
    elim (decompress_code libs hdr.compression (drop header_size blob)
      hdr.uncompressed_payload_size) [
        | none ↦ invalid []
        | some payload ↦ let out = expanded blob payload in check_table out (load_header out)
      ]

unfoldable pub rebind : CodecLibraries → Bytes → BlobReader
rebind libs blob =
    let hdr = load_header blob in
    if ltb (length blob) header_size
    then invalid blob
    else if not (hdr.magic == blob_magic)
    then invalid blob
    else if not (hdr.version == blob_version)
    then invalid blob
    else if not (hdr.compression == 0)
    then expand_payload libs blob hdr
    else check_table blob hdr

unfoldable pub valid : BlobReader → Bool
valid r = elim r.hdr [ none ↦ false | some h ↦ true ]

unfoldable pub target : BlobReader → Target
target r = elim r.hdr [ none ↦ Target.spirv | some h ↦ blob_code_to_target h.target ]

unfoldable pub entry_count : BlobReader → ℕ
entry_count r = elim r.hdr [ none ↦ 0 | some h ↦ h.entry_count ]

unfoldable pub options_hash : BlobReader → ℕ
options_hash r = elim r.hdr [ none ↦ 0 | some h ↦ h.options_hash ]

-- `BlobReader::Entry`.
pub record Entry : Type 0 where
  pub key : Bytes
  pub code : Bytes
  pub reflection : Bytes
  pub dep_indices : List ℕ

abbrev pub no_entry : Entry
no_entry = record { key = []; code = []; reflection = []; dep_indices = [] }

-- `n` words of 32 bits, from the front of `b`.
unfoldable pub read_words : ℕ → Bytes → List ℕ
read_words zero b = []
read_words (suc n) b = read32 b ∷ read_words n (drop 4 b)

-- The sum is taken in `size_t`, so it does not wrap.
abbrev pub in_bounds : Bytes → ℕ → ℕ → Bool
in_bounds blob off len = leb (off + len) (length blob)

unfoldable pub entry_of_record : Bytes → BlobHeader → EntryRecord → Entry
entry_of_record blob hdr r = record {
  key =
      if ltb 0 r.key_size && in_bounds blob r.key_offset r.key_size
      then slice blob r.key_offset (r.key_size - 1)
      else [];
  code =
      if in_bounds blob r.code_offset r.code_size then slice blob r.code_offset r.code_size else [];
  reflection =
      if in_bounds blob r.refl_offset r.refl_size then slice blob r.refl_offset r.refl_size else [];
  dep_indices =
      if ltb 0 r.deps_idx_count
        && leb (hdr.entry_deps_idx_offset + r.deps_idx_off * 4 + r.deps_idx_count * 4) (length blob)
      then read_words r.deps_idx_count (drop (hdr.entry_deps_idx_offset + r.deps_idx_off * 4) blob)
      else [];
}

-- `m_entries[index]`.
unfoldable pub record_at : Bytes → ℕ → EntryRecord
record_at blob index = read_record (drop (header_size + index * entry_record_size) blob)

unfoldable pub at : BlobReader → ℕ → Entry
at r index = elim r.hdr [
  | none ↦ no_entry
  | some h ↦
      if ltb index h.entry_count
      then entry_of_record r.blob h (record_at r.blob index)
      else no_entry
]

-- The loops of `find` and `enumerate`, from index `i` with `n` rounds left.
unfoldable pub find_from : BlobReader → Bytes → ℕ → ℕ → Option Entry
find_from r k zero i = none
find_from r k (suc n) i =
    let rest = find_from r k n (suc i) in if bytes_eq (at r i).key k then some (at r i) else rest

unfoldable pub find : BlobReader → Permutation → Option Entry
find r p = find_from r (key p) (entry_count r) 0

-- The overload for constants alone.
unfoldable pub find_constants : BlobReader → List ShaderConstant → Option Entry
find_constants r cs = find r (record { constants = cs; type_args = [] })

unfoldable pub enumerate_from : BlobReader → ℕ → ℕ → List Bytes
enumerate_from r zero i = []
enumerate_from r (suc n) i = (at r i).key ∷ enumerate_from r n (suc i)

unfoldable pub enumerate : BlobReader → List Bytes
enumerate r = enumerate_from r (entry_count r) 0

pub record Dep : Type 0 where
  pub path : Bytes
  pub content_hash : ℕ

unfoldable pub dep_of_entry : Bytes → DepEntry → Dep
dep_of_entry blob d = record {
  path =
      if in_bounds blob d.path_offset d.path_size then slice blob d.path_offset d.path_size else [];
  content_hash = d.content_hash;
}

-- The loop over the table at the front of `table`.
unfoldable pub read_deps : Bytes → ℕ → Bytes → List Dep
read_deps blob zero table = []
read_deps blob (suc n) table =
    dep_of_entry blob (read_dep table) ∷ read_deps blob n (drop dep_entry_size table)

unfoldable pub dependencies : BlobReader → List Dep
dependencies r = elim r.hdr [
  | none ↦ []
  | some h ↦
      if ltb (length r.blob) (h.deps_offset + h.deps_count * dep_entry_size)
      then []
      else read_deps r.blob h.deps_count (drop h.deps_offset r.blob)
]

-- What `compression` reports: behind `rebind` the header is marked uncompressed.
unfoldable pub compression : BlobReader → ℕ
compression r = elim r.hdr [ none ↦ 0 | some h ↦ h.compression ]
