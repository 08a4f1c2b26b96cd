-- ===== src/Reflection/Format/Header.antt =====
-- `ReflHeader`: the fixed part of a reflection section (include/slangmake.hpp). Each pair of fields
-- for the offset and the count of a table is one `TableRef`.
use slangmake.Prelude.{ℕ, suc, ◌≡◌, refl, Bytes, List, [], ◌∷◌, ◌++◌, All, get_or, length, ap, ◌∙◌}
use slangmake.Blob.Reader.{read_words}
use slangmake.Blob.Words.{IsWord, words_bytes, length-words_bytes, read_words-words_bytes}

abbrev pub reflection_magic : ℕ
reflection_magic = 0x46524C53

abbrev pub reflection_version : ℕ
reflection_version = 1

abbrev pub invalid_index : ℕ
invalid_index = 0xFFFFFFFF

-- `sizeof(ReflHeader)`.
abbrev pub refl_header_size : ℕ
refl_header_size = 184

pub record TableRef : Type 0 where
  pub off : ℕ
  pub count : ℕ

abbrev pub no_ref : TableRef
no_ref = record { off = 0; count = 0 }

pub record ReflHeader : Type 0 where
  pub magic : ℕ
  pub version : ℕ
  pub size : ℕ
  pub flags : ℕ
  pub entry_point_hash_low : ℕ
  pub entry_point_hash_high : ℕ
  pub global_cb_binding : ℕ
  pub global_cb_size : ℕ
  pub global_params_var_layout_idx : ℕ
  pub bindless_space_index : ℕ
  pub strings : TableRef
  pub hashed_str : TableRef
  pub attr_arg : TableRef
  pub attr : TableRef
  pub modifier : TableRef
  pub type : TableRef
  pub type_layout : TableRef
  pub var : TableRef
  pub var_layout : TableRef
  pub func : TableRef
  pub generic : TableRef
  pub decl : TableRef
  pub entry_point : TableRef
  pub binding_range : TableRef
  pub descriptor_set : TableRef
  pub descriptor_range : TableRef
  pub sub_object_range : TableRef
  pub u32_pool : TableRef

-- The tables in the order of the fields, which is the order of the bytes too.
abbrev pub header_refs : ReflHeader → List TableRef
header_refs h =
    h.strings ∷ h.hashed_str ∷ h.attr_arg ∷ h.attr ∷ h.modifier ∷ h.type ∷ h.type_layout ∷ h.var
    ∷ h.var_layout ∷ h.func ∷ h.generic ∷ h.decl ∷ h.entry_point ∷ h.binding_range
    ∷ h.descriptor_set ∷ h.descriptor_range ∷ h.sub_object_range ∷ h.u32_pool ∷ []

abbrev pub ref_words : List TableRef → List ℕ
ref_words [] = []
ref_words (r ∷ rs) = r.off ∷ r.count ∷ ref_words rs

unfoldable pub refl_header_words : ReflHeader → List ℕ
refl_header_words h =
    h.magic
    ∷ h.version
    ∷ h.size
    ∷ h.flags
    ∷ h.entry_point_hash_low
    ∷ h.entry_point_hash_high
    ∷ h.global_cb_binding
    ∷ h.global_cb_size
    ∷ h.global_params_var_layout_idx
    ∷ h.bindless_space_index
    ∷ ref_words (header_refs h)

abbrev ref_of_words : List ℕ → ℕ → TableRef
ref_of_words ws k = record { off = get_or ws k 0; count = get_or ws (suc k) 0 }

unfoldable pub refl_header_of_words : List ℕ → ReflHeader
refl_header_of_words ws = record {
  magic = get_or ws 0 0;
  version = get_or ws 1 0;
  size = get_or ws 2 0;
  flags = get_or ws 3 0;
  entry_point_hash_low = get_or ws 4 0;
  entry_point_hash_high = get_or ws 5 0;
  global_cb_binding = get_or ws 6 0;
  global_cb_size = get_or ws 7 0;
  global_params_var_layout_idx = get_or ws 8 0;
  bindless_space_index = get_or ws 9 0;
  strings = ref_of_words ws 10;
  hashed_str = ref_of_words ws 12;
  attr_arg = ref_of_words ws 14;
  attr = ref_of_words ws 16;
  modifier = ref_of_words ws 18;
  type = ref_of_words ws 20;
  type_layout = ref_of_words ws 22;
  var = ref_of_words ws 24;
  var_layout = ref_of_words ws 26;
  func = ref_of_words ws 28;
  generic = ref_of_words ws 30;
  decl = ref_of_words ws 32;
  entry_point = ref_of_words ws 34;
  binding_range = ref_of_words ws 36;
  descriptor_set = ref_of_words ws 38;
  descriptor_range = ref_of_words ws 40;
  sub_object_range = ref_of_words ws 42;
  u32_pool = ref_of_words ws 44;
}

unfoldable pub refl_header_bytes : ReflHeader → Bytes
refl_header_bytes h = words_bytes (refl_header_words h)

-- The header seen through a pointer to the front of `bytes`.
unfoldable pub load_refl_header : Bytes → ReflHeader
load_refl_header bytes = refl_header_of_words (read_words 46 bytes)

pub length-refl_header_bytes : (h : ReflHeader) → length (refl_header_bytes h) ≡ 184
unfolding refl_header_bytes refl_header_words
length-refl_header_bytes h = length-words_bytes (refl_header_words h)

header_of_words-words : (h : ReflHeader) → refl_header_of_words (refl_header_words h) ≡ h
unfolding refl_header_words refl_header_of_words
header_of_words-words h = refl

pub load_refl_header-bytes :
    (h : ReflHeader) (rest : Bytes)
    → All IsWord (refl_header_words h)
    → load_refl_header (refl_header_bytes h ++ rest) ≡ h
unfolding load_refl_header refl_header_bytes refl_header_words
load_refl_header-bytes h rest p =
    ap refl_header_of_words (read_words-words_bytes (refl_header_words h) rest p)
    ∙ header_of_words-words h

abbrev pub IsRef : TableRef → Type 0
IsRef r = IsWord r.off × IsWord r.count

pub ref_words-IsWord : (rs : List TableRef) → All IsRef rs → All IsWord (ref_words rs)
ref_words-IsWord [] h = h
ref_words-IsWord (r ∷ rs) h = (h.0.0, (h.0.1, ref_words-IsWord rs h.1))
