-- ===== src/Blob/Chunks.antt =====
-- Tables and pools: the bytes of the elements of a list, one behind the other.
use slangmake.Prelude.{
  ℕ, zero, suc, ◌+◌, ◌*◌, ◌<◌, ◌≡◌, refl, sym, ◌∙◌, Bytes, List, [], ◌∷◌, ◌++◌, append_assoc,
  append-nil, get_or, length, length-append, arith,
}
use slangmake.Hash.{le32}
use slangmake.Blob.Format.{DepEntry, EntryRecord, record_bytes, dep_bytes}
use slangmake.Blob.Words.{words_bytes}
use slangmake.Blob.Writer.Layout.{Entry, DepInfo, paths_size}
use slangmake.Blob.Writer.Emit.{emit_records, emit_paths, emit_deps, emit_index_list, emit_indices}
use slangmake.Blob.Placed.{At}

module _ {ℓ} {A : Type ℓ} where
  abbrev pub chunks : (A → Bytes) → List A → Bytes
  chunks f [] = []
  chunks f (x ∷ xs) = f x ++ chunks f xs

  -- The total size of the first `j` elements.
  abbrev pub chunk_offset : (A → Bytes) → List A → ℕ → ℕ
  chunk_offset f xs zero = 0
  chunk_offset f [] (suc j) = 0
  chunk_offset f (x ∷ xs) (suc j) = length (f x) + chunk_offset f xs j

  pub chunks-At :
      (f : A → Bytes) (xs : List A) (j : ℕ) (d : A) (out : Bytes)
      → j < length xs
      → At (out ++ chunks f xs) (length out + chunk_offset f xs j) (f (get_or xs j d))
  chunks-At f [] j d out h = elim h [ ]
  chunks-At f (x ∷ xs) zero d out h = record {
    before = out;
    behind = chunks f xs;
    splits = refl;
    offset = omega arith;
  }
  chunks-At f (x ∷ xs) (suc j) d out h =
      let e : length (out ++ f x) + chunk_offset f xs j
          ≡ length out + (length (f x) + chunk_offset f xs j) =
        omega (arith, length-append out (f x)) in
      rw (← e, ← append_assoc out (f x) (chunks f xs))
        (chunks-At f xs j d (out ++ f x) (omega arith))

  pub length-chunks :
      (f : A → Bytes) (k : ℕ) (xs : List A)
      → ((x : A) → length (f x) ≡ k)
      → length (chunks f xs) ≡ length xs * k
  length-chunks f k [] h = omega arith
  length-chunks f k (x ∷ xs) h =
      omega (arith, length-append (f x) (chunks f xs), h x, length-chunks f k xs h)

  pub chunk_offset_fixed :
      (f : A → Bytes) (k : ℕ) (xs : List A) (j : ℕ)
      → ((x : A) → length (f x) ≡ k)
      → j < length xs
      → chunk_offset f xs j ≡ j * k
  chunk_offset_fixed f k xs zero h l = omega arith
  chunk_offset_fixed f k [] (suc j) h l = elim l [ ]
  chunk_offset_fixed f k (x ∷ xs) (suc j) h l =
      omega (arith, h x, chunk_offset_fixed f k xs j h (omega arith))

abbrev pub record_chunks : List EntryRecord → Bytes
record_chunks = chunks record_bytes

abbrev pub dep_chunks : List DepEntry → Bytes
dep_chunks = chunks dep_bytes

abbrev pub index_chunks : List Entry → Bytes
index_chunks = chunks (λ e. words_bytes e.dep_indices)

abbrev pub path_chunks : List DepInfo → Bytes
path_chunks = chunks (λ d. d.path)

pub emit_records-chunks :
    (rs : List EntryRecord) (out : Bytes) → emit_records rs out ≡ out ++ record_chunks rs
unfolding emit_records
emit_records-chunks [] out = sym (append-nil out)
emit_records-chunks (r ∷ rs) out =
    emit_records-chunks rs (out ++ record_bytes r)
    ∙ append_assoc out (record_bytes r) (record_chunks rs)

pub emit_paths-chunks :
    (ds : List DepInfo) (out : Bytes) → emit_paths ds out ≡ out ++ path_chunks ds
unfolding emit_paths
emit_paths-chunks [] out = sym (append-nil out)
emit_paths-chunks (d ∷ ds) out =
    emit_paths-chunks ds (out ++ d.path) ∙ append_assoc out d.path (path_chunks ds)

pub emit_deps-chunks : (ds : List DepEntry) (out : Bytes) → emit_deps ds out ≡ out ++ dep_chunks ds
unfolding emit_deps
emit_deps-chunks [] out = sym (append-nil out)
emit_deps-chunks (d ∷ ds) out =
    emit_deps-chunks ds (out ++ dep_bytes d) ∙ append_assoc out (dep_bytes d) (dep_chunks ds)

emit_index_list-words : (ns : List ℕ) (out : Bytes) → emit_index_list ns out ≡ out ++ words_bytes ns
unfolding emit_index_list
emit_index_list-words [] out = sym (append-nil out)
emit_index_list-words (n ∷ ns) out =
    emit_index_list-words ns (out ++ le32 n) ∙ append_assoc out (le32 n) (words_bytes ns)

pub emit_indices-chunks :
    (es : List Entry) (out : Bytes) → emit_indices es out ≡ out ++ index_chunks es
unfolding emit_indices
emit_indices-chunks [] out = sym (append-nil out)
emit_indices-chunks (e ∷ es) out =
    emit_indices-chunks es (emit_index_list e.dep_indices out)
    ∙ rw (emit_index_list-words e.dep_indices out)
        (append_assoc out (words_bytes e.dep_indices) (index_chunks es))

pub length-path_chunks : (ds : List DepInfo) → length (path_chunks ds) ≡ paths_size ds
length-path_chunks [] = refl
length-path_chunks (d ∷ ds) =
    omega (arith, length-append d.path (path_chunks ds), length-path_chunks ds)
