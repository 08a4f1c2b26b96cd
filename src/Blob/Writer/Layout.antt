-- ===== src/Blob/Writer/Layout.antt =====
-- The layout pass of `BlobWriter::finalize`: the offsets and sizes of all parts.
use slangmake.Prelude.{
  ℕ, suc, ◌+◌, ◌*◌, ◌/◌, ◌%◌, ◌^◌, Bool, Bytes, List, [], ◌∷◌, ◌++◌, length, get_or, ◌==◌,
  if◌then◌else◌,
}
use slangmake.Blob.Format.{DepEntry, EntryRecord, zero_record}

-- `BlobWriter::Entry`.
pub record Entry : Type 0 where
  pub key : Bytes
  pub code : Bytes
  pub refl : Bytes
  pub dep_indices : List ℕ

pub record DepInfo : Type 0 where
  pub path : Bytes
  pub content_hash : ℕ

-- `static_cast<uint32_t>`.
abbrev pub u32 : ℕ → ℕ
u32 n = n % 2 ^ 32

-- `(n + 7) & ~7` and `(n + 3) & ~3`; no size comes near 2^64.
abbrev pub align8 : ℕ → ℕ
align8 n = (n + 7) / 8 * 8

abbrev pub align4 : ℕ → ℕ
align4 n = (n + 3) / 4 * 4

-- A canonical payload gets the next aligned place; any other the place of its canonical one.
unfoldable pub place : Bool → Bytes → ℕ → ℕ → ℕ → ℕ × ℕ × ℕ
place own payload cursor off size =
    if own
    then (align8 cursor + length payload, u32 (align8 cursor), u32 (length payload))
    else (cursor, off, size)

unfoldable pub layout_entry : ℕ → ℕ → ℕ → Entry → ℕ → List EntryRecord → ℕ × EntryRecord
layout_entry i cc rc e cursor recs =
    let code_at = get_or recs cc zero_record in
    let refl_at = get_or recs rc zero_record in
    let (cursor1, code_off, code_len) =
      place (cc == i) e.code (cursor + (length e.key + 1)) code_at.code_offset code_at.code_size in
    let (cursor2, refl_off, refl_len) =
      place (rc == i) e.refl cursor1 refl_at.refl_offset refl_at.refl_size in
    (
      cursor2,
      record {
        key_offset = u32 cursor;
        key_size = u32 (length e.key + 1);
        code_offset = code_off;
        code_size = code_len;
        refl_offset = refl_off;
        refl_size = refl_len;
        deps_idx_off = 0;
        deps_idx_count = 0;
      },
    )

-- The loop over the entries, from index `i`; `recs` are the records filled so far.
unfoldable pub layout_entries :
    List ℕ → List ℕ → ℕ → List Entry → ℕ → List EntryRecord → ℕ × List EntryRecord
layout_entries ccs rcs i [] cursor recs = (cursor, recs)
layout_entries ccs rcs i (e ∷ es) cursor recs =
    let (cursor', r) = layout_entry i (get_or ccs i 0) (get_or rcs i 0) e cursor recs in
    layout_entries ccs rcs (suc i) es cursor' (recs ++ (r ∷ []))

-- `depPathSlots`: offset and size of each path, with the end of the last.
unfoldable pub path_slots : ℕ → List DepInfo → List DepEntry
path_slots cursor [] = []
path_slots cursor (d ∷ ds) =
    record {
      path_offset = u32 cursor;
      path_size = u32 (length d.path);
      content_hash = d.content_hash;
    }
    ∷ path_slots (cursor + length d.path) ds

abbrev pub paths_size : List DepInfo → ℕ
paths_size [] = 0
paths_size (d ∷ ds) = length d.path + paths_size ds

-- The second loop over the records: slices of the flat index pool. The counter is a `uint32_t`.
unfoldable pub dep_slots : ℕ → List Entry → List EntryRecord → List EntryRecord
dep_slots running (e ∷ es) (r ∷ rs) =
    record r { deps_idx_off = running; deps_idx_count = u32 (length e.dep_indices) }
    ∷ dep_slots (u32 (running + u32 (length e.dep_indices))) es rs
dep_slots running _ rs = rs

-- `runningEntryDepsCount` after that loop.
unfoldable pub index_count : ℕ → List Entry → ℕ
index_count running [] = running
index_count running (e ∷ es) = index_count (u32 (running + u32 (length e.dep_indices))) es
