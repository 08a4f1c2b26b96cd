-- ===== src/Blob/Lookup.antt =====
-- `find` and `enumerate` of a reader, against the writer's entries.
use mathlib.Core.Option
use mathlib.Core.List.{Perm}
use slangmake.Prelude.{
  ◌≢◌, All, ◌++◌, ℕ, suc, ◌+◌, ◌<◌, ◌≡◌, refl, sym, ap, ◌∙◌, Bytes, List, [], ◌∷◌, map, get_or,
  length, arith, Option, none, some, bytes_eq, bytes_eq_iff, if◌then◌else◌, Bool-cases, inl, inr,
}
use slangmake.Permutation.{Permutation, key}
use slangmake.Permutation.Key.{IsConsistent, key-perm}
use slangmake.Blob.Writer.Layout as Layout
use slangmake.Blob.Writer.{BlobWriter, add_entry}
use slangmake.Blob.Reader.{BlobReader, at, find, find_from, enumerate, enumerate_from}
use slangmake.Blob.EntryPlaces.{no_entry}
use slangmake.Blob.ReadEntry.{entry_of}
use slangmake.Blob.ReadBack.{Reads}

-- The first of the entries whose key is `k`.
abbrev pub first_with : Bytes → List Layout.Entry → Option Layout.Entry
first_with k [] = none
first_with k (e ∷ es) = if bytes_eq e.key k then some e else first_with k es

-- From index `i` on, the reader has the entries `es`.
abbrev HasFrom : BlobReader → ℕ → List Layout.Entry → Type 0
HasFrom r i es = (j : ℕ) → j < length es → at r (i + j) ≡ entry_of (get_or es j no_entry)

HasFrom-head :
    (r : BlobReader) (i : ℕ) (e : Layout.Entry) (es : List Layout.Entry)
    → HasFrom r i (e ∷ es)
    → at r i ≡ entry_of e
HasFrom-head r i e es h = let z : i + 0 ≡ i = omega arith in ap (at r) (sym z) ∙ h 0 (omega arith)

HasFrom-tail :
    (r : BlobReader) (i : ℕ) (e : Layout.Entry) (es : List Layout.Entry)
    → HasFrom r i (e ∷ es)
    → HasFrom r (suc i) es
HasFrom-tail r i e es h j l =
    let z : suc i + j ≡ i + suc j = omega arith in ap (at r) z ∙ h (suc j) (omega arith)

find_from-first_with :
    (r : BlobReader) (k : Bytes) (es : List Layout.Entry) (i : ℕ)
    → HasFrom r i es
    → find_from r k (length es) i ≡ Option.map entry_of (first_with k es)
unfolding find_from
find_from-first_with r k [] i h = refl
find_from-first_with r k (e ∷ es) i h =
    rw (HasFrom-head r i e es h, find_from-first_with r k es (suc i) (HasFrom-tail r i e es h))
      (elim (Bool-cases (bytes_eq e.key k)) [ inl b ↦ rw b refl | inr b ↦ rw b refl ])

enumerate_from-keys :
    (r : BlobReader) (es : List Layout.Entry) (i : ℕ)
    → HasFrom r i es
    → enumerate_from r (length es) i ≡ map (λ e. e.key) es
unfolding enumerate_from
enumerate_from-keys r [] i h = refl
enumerate_from-keys r (e ∷ es) i h =
    rw (HasFrom-head r i e es h, enumerate_from-keys r es (suc i) (HasFrom-tail r i e es h))

HasFrom-Reads : (w : BlobWriter) (r : BlobReader) → Reads w r → HasFrom r 0 w.entries
HasFrom-Reads w r h j l = let z : 0 + j ≡ j = omega arith in ap (at r) z ∙ h.entries j l

-- A reader that reports what the writer got finds the writer's first entry with the permutation's
-- key, and nothing exactly where the writer has none.
pub find-first_with :
    (w : BlobWriter) (r : BlobReader) (p : Permutation)
    → Reads w r
    → find r p ≡ Option.map entry_of (first_with (key p) w.entries)
unfolding find
find-first_with w r p h =
    rw (h.count) (find_from-first_with r (key p) w.entries 0 (HasFrom-Reads w r h))

-- A reader that reports what the writer got enumerates the keys of the writer's entries, in order.
pub enumerate-keys :
    (w : BlobWriter) (r : BlobReader) → Reads w r → enumerate r ≡ map (λ e. e.key) w.entries
unfolding enumerate
enumerate-keys w r h = rw (h.count) (enumerate_from-keys r w.entries 0 (HasFrom-Reads w r h))

first_with-last :
    (k : Bytes) (es : List Layout.Entry) (e : Layout.Entry)
    → All (λ (d : Layout.Entry). d.key ≢ k) es
    → e.key ≡ k
    → first_with k (es ++ (e ∷ [])) ≡ some e
first_with-last k [] e n h = rw ((bytes_eq_iff e.key k).1 h) refl
first_with-last k (d ∷ es) e n h = elim (Bool-cases (bytes_eq d.key k)) [
  | inl b ↦ absurd (n.0 ((bytes_eq_iff d.key k).0 b))
  | inr b ↦ rw b (first_with-last k es e n.1 h)
]

-- In a reader that reports what the writer got, the entry that `add_entry` put last, under a
-- permutation whose key no earlier entry has, is found under every reordering of that permutation,
-- if it binds no name to two values.
pub find-add_entry :
    (w : BlobWriter) (r : BlobReader) (p q : Permutation) (code refl_bytes : Bytes) (deps : List ℕ)
    → Reads (add_entry p code refl_bytes deps w) r
    → All (λ (d : Layout.Entry). d.key ≢ key p) w.entries
    → IsConsistent p.constants
    → IsConsistent p.type_args
    → Perm p.constants q.constants
    → Perm p.type_args q.type_args
    → find r q
      ≡ some record { key = key p; code = code; reflection = refl_bytes; dep_indices = deps }
unfolding add_entry
find-add_entry w r p q code refl_bytes deps h fresh hc ht pc pt =
    let e : Layout.Entry = record {
      key = key p;
      code = code;
      refl = refl_bytes;
      dep_indices = deps;
    } in
    find-first_with (add_entry p code refl_bytes deps w) r q h
    ∙ rw (← key-perm p q hc ht pc pt, first_with-last (key p) w.entries e fresh refl) refl
