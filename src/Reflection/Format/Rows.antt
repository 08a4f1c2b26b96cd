-- ===== src/Reflection/Format/Rows.antt =====
-- A struct of a reflection table as its 32-bit words: the structs are packed, of `uint32_t` fields
-- and of `uint64_t` fields, which are two words, the low one first (include/slangmake.hpp).
use slangmake.Prelude.{
  ℕ, zero, suc, ◌*◌, ◌≤◌, ◌≡◌, refl, ap, ◌∙◌, Bytes, List, [], ◌∷◌, ◌++◌, All, length,
  length-append, get_or, drop, drop-length_append, append_assoc, arith,
}
use slangmake.Blob.Reader.{read_words}
use slangmake.Blob.Chunks.{chunks, length-chunks}
use slangmake.Blob.Words.{IsWord, words_bytes, length-words_bytes, read_words-words_bytes}

-- How a struct stands in memory; `size` is counted in words.
pub record Row (A : Type 0) : Type 0 where
  pub size : ℕ
  pub words : A → List ℕ
  pub of_words : List ℕ → A

-- The words say all of the struct.
pub record IsRow {A : Type 0} (row : Row A) : Type 0 where
  pub of_words-words : (a : A) → row.of_words (row.words a) ≡ a
  pub length-words : (a : A) → length (row.words a) ≡ row.size
  pub positive : 1 ≤ row.size

module _ {A : Type 0} (row : Row A) where
  abbrev pub row_bytes : A → Bytes
  row_bytes a = words_bytes (row.words a)

  -- What `appendBytes` copies of a whole table.
  abbrev pub table_bytes : List A → Bytes
  table_bytes = chunks row_bytes

  -- The rows of a span over `n` structs at the front of `b`.
  unfoldable pub read_table : ℕ → Bytes → List A
  read_table zero b = []
  read_table (suc n) b = row.of_words (read_words row.size b) ∷ read_table n (drop (row.size * 4) b)

  -- Every field fits its type.
  abbrev pub FitsWords : A → Type 0
  FitsWords a = All IsWord (row.words a)

  module _ (is_row : IsRow row) where
    pub length-row_bytes : (a : A) → length (row_bytes a) ≡ row.size * 4
    length-row_bytes a = length-words_bytes (row.words a) ∙ ap (λ n. n * 4) (is_row.length-words a)

    pub length-table_bytes :
        (rows : List A) → length (table_bytes rows) ≡ length rows * (row.size * 4)
    length-table_bytes rows = length-chunks row_bytes (row.size * 4) rows length-row_bytes

    pub length-le-table_bytes : (rows : List A) → length rows ≤ length (table_bytes rows)
    length-le-table_bytes [] = omega arith
    length-le-table_bytes (a ∷ rows) = omega (
      arith,
      is_row.positive,
      length-row_bytes a,
      length-append (row_bytes a) (table_bytes rows),
      length-le-table_bytes rows,
    )

    read_row :
        (a : A) (rest : Bytes)
        → FitsWords a
        → row.of_words (read_words row.size (row_bytes a ++ rest)) ≡ a
    read_row a rest h =
        let e : read_words (length (row.words a)) (row_bytes a ++ rest) ≡ row.words a =
          read_words-words_bytes (row.words a) rest h in
        let f : read_words row.size (row_bytes a ++ rest) ≡ row.words a =
          rw (is_row.length-words a) at e in
        ap row.of_words f ∙ is_row.of_words-words a

    pub read_table-table_bytes :
        (rows : List A) (rest : Bytes)
        → All FitsWords rows
        → read_table (length rows) (table_bytes rows ++ rest) ≡ rows
    unfolding read_table
    read_table-table_bytes [] rest h = refl
    read_table-table_bytes (a ∷ rows) rest h =
        let e : (row_bytes a ++ table_bytes rows) ++ rest
            ≡ row_bytes a ++ (table_bytes rows ++ rest) =
          append_assoc (row_bytes a) (table_bytes rows) rest in
        let f : drop (row.size * 4) (row_bytes a ++ (table_bytes rows ++ rest))
            ≡ table_bytes rows ++ rest =
          rw (← length-row_bytes a) (drop-length_append (row_bytes a) (table_bytes rows ++ rest)) in
        rw (e, f, read_row a (table_bytes rows ++ rest) h.0, read_table-table_bytes rows rest h.1)

-- A pool of `uint32_t`.
abbrev pub u32_row : Row ℕ
u32_row = record { size = 1; words = λ n. n ∷ []; of_words = λ ws. get_or ws 0 0 }

pub u32_row-IsRow : IsRow u32_row
u32_row-IsRow = record {
  of_words-words = λ n. refl;
  length-words = λ n. refl;
  positive = omega arith;
}
