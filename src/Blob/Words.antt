-- ===== src/Blob/Words.antt =====
-- Words and structs are read back from their bytes.
use slangmake.Prelude.{
  ℕ, ◌+◌, ◌*◌, ◌/◌, ◌^◌, ◌<◌, ◌≡◌, refl, Bytes, List, [], ◌∷◌, ◌++◌, All, length, arith,
}
use slangmake.Hash.{le32, le64}
use slangmake.Blob.Format.{
  BlobHeader, DepEntry, EntryRecord, header_bytes, record_bytes, dep_bytes, read32, load_header,
  read_record, read_dep,
}
use slangmake.Blob.Reader.{read_words}

abbrev pub IsWord : ℕ → Type 0
IsWord n = n < 2 ^ 32

pub read32-le32 : (n : ℕ) (rest : Bytes) → IsWord n → read32 (le32 n ++ rest) ≡ n
read32-le32 n rest h = omega arith

read64-le64 :
    (n : ℕ) (rest : Bytes)
    → n < 2 ^ 64
    → read32 (le64 n ++ rest) + 4294967296 * read32 (le32 (n / 4294967296) ++ rest) ≡ n
read64-le64 n rest h = omega arith

-- Every field fits its type.
pub record IsPacked (r : EntryRecord) : Type 0 where
  pub key_offset : IsWord r.key_offset
  pub key_size : IsWord r.key_size
  pub code_offset : IsWord r.code_offset
  pub code_size : IsWord r.code_size
  pub refl_offset : IsWord r.refl_offset
  pub refl_size : IsWord r.refl_size
  pub deps_idx_off : IsWord r.deps_idx_off
  pub deps_idx_count : IsWord r.deps_idx_count

pub read_record-record_bytes :
    (r : EntryRecord) (rest : Bytes) → IsPacked r → read_record (record_bytes r ++ rest) ≡ r
unfolding read_record record_bytes
read_record-record_bytes r rest p = λ i. record {
  key_offset = read32-le32 r.key_offset rest p.key_offset i;
  key_size = read32-le32 r.key_size rest p.key_size i;
  code_offset = read32-le32 r.code_offset rest p.code_offset i;
  code_size = read32-le32 r.code_size rest p.code_size i;
  refl_offset = read32-le32 r.refl_offset rest p.refl_offset i;
  refl_size = read32-le32 r.refl_size rest p.refl_size i;
  deps_idx_off = read32-le32 r.deps_idx_off rest p.deps_idx_off i;
  deps_idx_count = read32-le32 r.deps_idx_count rest p.deps_idx_count i;
}

pub read_dep-dep_bytes :
    (d : DepEntry) (rest : Bytes)
    → IsWord d.path_offset
    → IsWord d.path_size
    → d.content_hash < 2 ^ 64
    → read_dep (dep_bytes d ++ rest) ≡ d
unfolding read_dep dep_bytes
read_dep-dep_bytes d rest p q r = λ i. record {
  path_offset = read32-le32 d.path_offset rest p i;
  path_size = read32-le32 d.path_size rest q i;
  content_hash = read64-le64 d.content_hash rest r i;
}

pub record IsPackedHeader (h : BlobHeader) : Type 0 where
  pub magic : IsWord h.magic
  pub version : IsWord h.version
  pub target : IsWord h.target
  pub entry_count : IsWord h.entry_count
  pub deps_offset : IsWord h.deps_offset
  pub deps_count : IsWord h.deps_count
  pub deps_strings_offset : IsWord h.deps_strings_offset
  pub deps_strings_size : IsWord h.deps_strings_size
  pub entry_deps_idx_offset : IsWord h.entry_deps_idx_offset
  pub entry_deps_idx_count : IsWord h.entry_deps_idx_count
  pub compression : IsWord h.compression
  pub uncompressed_payload_size : IsWord h.uncompressed_payload_size
  pub options_hash : h.options_hash < 2 ^ 64

pub load_header-header_bytes :
    (h : BlobHeader) (rest : Bytes) → IsPackedHeader h → load_header (header_bytes h ++ rest) ≡ h
unfolding load_header header_bytes
load_header-header_bytes h rest p = λ i. record {
  magic = read32-le32 h.magic rest p.magic i;
  version = read32-le32 h.version rest p.version i;
  target = read32-le32 h.target rest p.target i;
  entry_count = read32-le32 h.entry_count rest p.entry_count i;
  deps_offset = read32-le32 h.deps_offset rest p.deps_offset i;
  deps_count = read32-le32 h.deps_count rest p.deps_count i;
  deps_strings_offset = read32-le32 h.deps_strings_offset rest p.deps_strings_offset i;
  deps_strings_size = read32-le32 h.deps_strings_size rest p.deps_strings_size i;
  entry_deps_idx_offset = read32-le32 h.entry_deps_idx_offset rest p.entry_deps_idx_offset i;
  entry_deps_idx_count = read32-le32 h.entry_deps_idx_count rest p.entry_deps_idx_count i;
  compression = read32-le32 h.compression rest p.compression i;
  uncompressed_payload_size =
      read32-le32 h.uncompressed_payload_size rest p.uncompressed_payload_size i;
  options_hash = read64-le64 h.options_hash rest p.options_hash i;
}

pub length-header_bytes : (h : BlobHeader) → length (header_bytes h) ≡ 56
unfolding header_bytes
length-header_bytes h = refl

pub length-record_bytes : (r : EntryRecord) → length (record_bytes r) ≡ 32
unfolding record_bytes
length-record_bytes r = refl

pub length-dep_bytes : (d : DepEntry) → length (dep_bytes d) ≡ 16
unfolding dep_bytes
length-dep_bytes d = refl

-- The bytes of a list of words.
abbrev pub words_bytes : List ℕ → Bytes
words_bytes [] = []
words_bytes (n ∷ ns) = le32 n ++ words_bytes ns

pub length-words_bytes : (ns : List ℕ) → length (words_bytes ns) ≡ length ns * 4
length-words_bytes [] = refl
length-words_bytes (n ∷ ns) = omega (arith, length-words_bytes ns)

pub read_words-words_bytes :
    (ns : List ℕ) (rest : Bytes)
    → All IsWord ns
    → read_words (length ns) (words_bytes ns ++ rest) ≡ ns
unfolding read_words
read_words-words_bytes [] rest h = refl
read_words-words_bytes (n ∷ ns) rest h =
    λ i. read32-le32 n [] h.0 i ∷ read_words-words_bytes ns rest h.1 i
