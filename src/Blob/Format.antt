-- ===== src/Blob/Format.antt =====
-- The packed structs of namespace `fmt` (include/slangmake.hpp) and their bytes.
use slangmake.Prelude.{ℕ, ◌+◌, ◌*◌, Bytes, ◌∷◌, ◌++◌, drop, take}
use slangmake.Hash.{le32, le64}

abbrev pub blob_magic : ℕ
blob_magic = 0x474e4c53

abbrev pub blob_version : ℕ
blob_version = 1

pub record BlobHeader : Type 0 where
  pub magic : ℕ
  pub version : ℕ
  pub target : ℕ
  pub entry_count : ℕ
  pub deps_offset : ℕ
  pub deps_count : ℕ
  pub deps_strings_offset : ℕ
  pub deps_strings_size : ℕ
  pub entry_deps_idx_offset : ℕ
  pub entry_deps_idx_count : ℕ
  pub compression : ℕ
  pub uncompressed_payload_size : ℕ
  pub options_hash : ℕ

pub record DepEntry : Type 0 where
  pub path_offset : ℕ
  pub path_size : ℕ
  pub content_hash : ℕ

pub record EntryRecord : Type 0 where
  pub key_offset : ℕ
  pub key_size : ℕ
  pub code_offset : ℕ
  pub code_size : ℕ
  pub refl_offset : ℕ
  pub refl_size : ℕ
  pub deps_idx_off : ℕ
  pub deps_idx_count : ℕ

-- `sizeof` of the three structs, fixed by static assertions.
abbrev pub header_size : ℕ
header_size = 56

abbrev pub dep_entry_size : ℕ
dep_entry_size = 16

abbrev pub entry_record_size : ℕ
entry_record_size = 32

-- The value-initialised record.
abbrev pub zero_record : EntryRecord
zero_record = record {
  key_offset = 0;
  key_size = 0;
  code_offset = 0;
  code_size = 0;
  refl_offset = 0;
  refl_size = 0;
  deps_idx_off = 0;
  deps_idx_count = 0;
}

-- What `appendBytes` copies of each struct.
unfoldable pub header_bytes : BlobHeader → Bytes
header_bytes h =
    le32 h.magic
    ++ (le32 h.version
        ++ (le32 h.target
            ++ (le32 h.entry_count
                ++ (le32 h.deps_offset
                    ++ (le32 h.deps_count
                        ++ (le32 h.deps_strings_offset
                            ++ (le32 h.deps_strings_size
                                ++ (le32 h.entry_deps_idx_offset
                                    ++ (le32 h.entry_deps_idx_count
                                        ++ (le32 h.compression
                                            ++ (le32 h.uncompressed_payload_size
                                                ++ le64 h.options_hash)))))))))))

unfoldable pub record_bytes : EntryRecord → Bytes
record_bytes r =
    le32 r.key_offset
    ++ (le32 r.key_size
        ++ (le32 r.code_offset
            ++ (le32 r.code_size
                ++ (le32 r.refl_offset
                    ++ (le32 r.refl_size ++ (le32 r.deps_idx_off ++ le32 r.deps_idx_count))))))

unfoldable pub dep_bytes : DepEntry → Bytes
dep_bytes d = le32 d.path_offset ++ (le32 d.path_size ++ le64 d.content_hash)

-- Reads through a reinterpreted pointer; the bounds are the callers' business.
abbrev pub read32 : Bytes → ℕ
read32 (a ∷ b ∷ c ∷ d ∷ rest) = a + 256 * b + 65536 * c + 16777216 * d
read32 _ = 0

abbrev pub load32 : Bytes → ℕ → ℕ
load32 blob off = read32 (drop off blob)

abbrev pub load64 : Bytes → ℕ → ℕ
load64 blob off = load32 blob off + 4294967296 * load32 blob (off + 4)

unfoldable pub load_header : Bytes → BlobHeader
load_header blob = record {
  magic = load32 blob 0;
  version = load32 blob 4;
  target = load32 blob 8;
  entry_count = load32 blob 12;
  deps_offset = load32 blob 16;
  deps_count = load32 blob 20;
  deps_strings_offset = load32 blob 24;
  deps_strings_size = load32 blob 28;
  entry_deps_idx_offset = load32 blob 32;
  entry_deps_idx_count = load32 blob 36;
  compression = load32 blob 40;
  uncompressed_payload_size = load32 blob 44;
  options_hash = load64 blob 48;
}

-- A struct read at the front of `b`.
unfoldable pub read_record : Bytes → EntryRecord
read_record b = record {
  key_offset = load32 b 0;
  key_size = load32 b 4;
  code_offset = load32 b 8;
  code_size = load32 b 12;
  refl_offset = load32 b 16;
  refl_size = load32 b 20;
  deps_idx_off = load32 b 24;
  deps_idx_count = load32 b 28;
}

unfoldable pub read_dep : Bytes → DepEntry
read_dep b = record { path_offset = load32 b 0; path_size = load32 b 4; content_hash = load64 b 8 }

-- A `span` of `n` bytes at `off`.
abbrev pub slice : Bytes → ℕ → ℕ → Bytes
slice blob off n = take n (drop off blob)
