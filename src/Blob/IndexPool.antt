-- ===== src/Blob/IndexPool.antt =====
-- The pool of dependency indices, and the slices of it that the records name.
use slangmake.Prelude.{
  ℕ, zero, suc, ◌+◌, ◌*◌, ◌^◌, ◌<◌, ◌≤◌, ◌≡◌, refl, ap, ◌∙◌, List, [], ◌∷◌, get_or, length,
  length-append, arith,
}
use slangmake.Blob.Format.{EntryRecord, zero_record}
use slangmake.Blob.Words.{words_bytes, length-words_bytes}
use slangmake.Blob.Writer.Layout.{Entry, u32, dep_slots, index_count}
use slangmake.Blob.EntryPlaces.{no_entry}
use slangmake.Blob.Chunks.{chunk_offset, index_chunks}

-- All indices, and those of the first `j` entries.
abbrev pub total : List Entry → ℕ
total [] = 0
total (e ∷ es) = length e.dep_indices + total es

abbrev pub start : List Entry → ℕ → ℕ
start es zero = 0
start [] (suc j) = 0
start (e ∷ es) (suc j) = length e.dep_indices + start es j

pub start-le :
    (es : List Entry) (j : ℕ)
    → j < length es
    → start es j + length (get_or es j no_entry).dep_indices ≤ total es
start-le [] j h = elim h [ ]
start-le (e ∷ es) zero h = omega arith
start-le (e ∷ es) (suc j) h = omega (arith, start-le es j (omega arith))

pub index_count-total :
    (es : List Entry) (running : ℕ)
    → running + total es < 2 ^ 32
    → index_count running es ≡ running + total es
unfolding index_count
index_count-total [] running h = omega arith
index_count-total (e ∷ es) running h =
    let n : u32 (running + u32 (length e.dep_indices)) ≡ running + length e.dep_indices =
      omega arith in
    rw n (index_count-total es (running + length e.dep_indices) (omega arith) ∙ omega arith)

pub length-index_chunks : (es : List Entry) → length (index_chunks es) ≡ total es * 4
length-index_chunks [] = refl
length-index_chunks (e ∷ es) = omega (
  arith,
  length-append (words_bytes e.dep_indices) (index_chunks es),
  length-words_bytes e.dep_indices,
  length-index_chunks es,
)

pub chunk_offset-start :
    (es : List Entry) (j : ℕ) → chunk_offset (λ e. words_bytes e.dep_indices) es j ≡ start es j * 4
chunk_offset-start es zero = omega arith
chunk_offset-start [] (suc j) = omega arith
chunk_offset-start (e ∷ es) (suc j) =
    omega (arith, length-words_bytes e.dep_indices, chunk_offset-start es j)

abbrev pub with_slot : EntryRecord → ℕ → ℕ → EntryRecord
with_slot r off count = record r { deps_idx_off = off; deps_idx_count = count }

pub length-dep_slots :
    (es : List Entry) (rs : List EntryRecord) (running : ℕ)
    → length (dep_slots running es rs) ≡ length rs
unfolding dep_slots
length-dep_slots [] rs running = refl
length-dep_slots (e ∷ es) [] running = refl
length-dep_slots (e ∷ es) (r ∷ rs) running = ap suc (length-dep_slots es rs _)

pub get_or-dep_slots :
    (es : List Entry) (rs : List EntryRecord) (running j : ℕ)
    → length rs ≡ length es
    → running + total es < 2 ^ 32
    → j < length es
    → get_or (dep_slots running es rs) j zero_record
      ≡ with_slot
          (get_or rs j zero_record)
          (running + start es j)
          (length (get_or es j no_entry).dep_indices)
unfolding dep_slots
get_or-dep_slots [] rs running j l h k = elim k [ ]
get_or-dep_slots (e ∷ es) [] running j l h k = absurd (omega arith)
get_or-dep_slots (e ∷ es) (r ∷ rs) running zero l h k =
    let a : running ≡ running + 0 = omega arith in
    let b : u32 (length e.dep_indices) ≡ length e.dep_indices = omega arith in
    λ i. with_slot r (a i) (b i)
get_or-dep_slots (e ∷ es) (r ∷ rs) running (suc j) l h k =
    let n : u32 (running + u32 (length e.dep_indices)) ≡ running + length e.dep_indices =
      omega arith in
    let m : running + length e.dep_indices + start es j
        ≡ running + (length e.dep_indices + start es j) =
      omega arith in
    rw (n, ← m)
      (get_or-dep_slots es rs (running + length e.dep_indices) j (omega arith) (omega arith)
        (omega arith))
