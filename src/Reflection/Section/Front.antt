-- ===== src/Reflection/Section/Front.antt =====
-- The header of a section fits its fields, and a view that sees it is valid.
use slangmake.Prelude.{
  ℕ, zero, suc, ◌≤◌, ◌≡◌, Bytes, List, [], ◌∷◌, All, Option, none, some, get_or, length, arith,
}
use slangmake.Blob.Words.{IsWord}
use slangmake.Blob.Writer.Layout.{u32}
use slangmake.Reflection.Format.Rows.{Row, IsRow, FitsWords}
use slangmake.Reflection.Format.EntryPoints.{EntryPoint, entry_point_words, entry_point_row}
use slangmake.Reflection.Format.Header.{
  ReflHeader, TableRef, no_ref, IsRef, refl_header_size, load_refl_header, reflection_magic,
  reflection_version, invalid_index,
}
use slangmake.Reflection.Section.{first_hash_low, first_hash_high, table_part}
use slangmake.Reflection.Section.Placed.{IsAt, read_table-IsAt}
use slangmake.Reflection.View.{reflection_view, table_span}

-- The words in front of the references.
abbrev pub fixed_words : ReflHeader → List ℕ
fixed_words h =
    h.magic ∷ h.version ∷ h.size ∷ h.flags ∷ h.entry_point_hash_low ∷ h.entry_point_hash_high
    ∷ h.global_cb_binding ∷ h.global_cb_size ∷ h.global_params_var_layout_idx
    ∷ h.bindless_space_index ∷ []

pub first_hashes-IsWord :
    (es : List EntryPoint)
    → All (FitsWords entry_point_row) es
    → IsWord (first_hash_low es) × IsWord (first_hash_high es)
unfolding entry_point_words
first_hashes-IsWord [] h = (omega arith, omega arith)
first_hashes-IsWord (e ∷ es) h =
    (h.0.1.1.1.1.1.1.1.1.1.1.1.1.1.1.1.1.1.0, h.0.1.1.1.1.1.1.1.1.1.1.1.1.1.1.1.1.1.1.0)

pub bindless-IsWord : (b : Option ℕ) → IsWord (elim b [ none ↦ invalid_index | some n ↦ u32 n ])
bindless-IsWord none = omega arith
bindless-IsWord (some n) = omega arith

pub nth-IsRef : (rs : List TableRef) (i : ℕ) → All IsRef rs → IsRef (get_or rs i no_ref)
nth-IsRef [] i h = (omega arith, omega arith)
nth-IsRef (r ∷ rs) zero h = h.0
nth-IsRef (r ∷ rs) (suc i) h = nth-IsRef rs i h.1

pub table_span-IsAt :
    {A : Type 0} (row : Row A)
    → IsRow row
    → (rows : List A) → All (FitsWords row) rows
    → (bytes : Bytes) (h : ReflHeader) (f : ReflHeader → TableRef)
    → IsAt bytes (f h) (table_part row rows)
    → table_span row f (record { bytes = bytes; hdr = some h }) ≡ rows
unfolding table_span
table_span-IsAt row is_row rows fit bytes h f a = read_table-IsAt row is_row rows fit a

pub view-of_header :
    (bytes : Bytes) (h : ReflHeader)
    → load_refl_header bytes ≡ h
    → refl_header_size ≤ length bytes
    → h.magic ≡ reflection_magic
    → h.version ≡ reflection_version
    → h.size ≤ length bytes
    → reflection_view bytes ≡ record { bytes = bytes; hdr = some h }
unfolding reflection_view
view-of_header bytes h e long m w s = rw e (ground arith)
