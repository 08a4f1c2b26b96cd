-- ===== src/Blob/DepTable.antt =====
-- The dependency table is read back.
use slangmake.Prelude.{
  ℕ, suc, ◌+◌, ◌^◌, ◌<◌, ◌≡◌, refl, ap, Bytes, List, [], ◌∷◌, ◌++◌, All, append_assoc, map, length,
  arith, le→leb, drop,
}
use slangmake.Blob.Format.{DepEntry, dep_bytes, dep_entry_size}
use slangmake.Blob.Writer.Layout.{DepInfo, u32, path_slots}
use slangmake.Blob.Reader.{Dep, dep_of_entry, read_deps}
use slangmake.Blob.Words.{read_dep-dep_bytes}
use slangmake.Blob.Placed.{At, At-slice, At-le, At-left, At-right}
use slangmake.Blob.Chunks.{path_chunks, dep_chunks}

-- What the reader reports of a dependency.
abbrev pub dep_of_info : DepInfo → Dep
dep_of_info d = record { path = d.path; content_hash = d.content_hash }

abbrev pub HasHash : DepInfo → Type 0
HasHash d = d.content_hash < 2 ^ 64

dep_of_entry-At :
    (blob : Bytes) (d : DepInfo) (cursor : ℕ)
    → At blob cursor d.path
    → length blob < 2 ^ 32
    → dep_of_entry blob (record {
      path_offset = u32 cursor;
      path_size = u32 (length d.path);
      content_hash = d.content_hash;
    })
      ≡ dep_of_info d
unfolding dep_of_entry
dep_of_entry-At blob d cursor a fits =
    let o : u32 cursor ≡ cursor = omega (arith, At-le a) in
    let s : u32 (length d.path) ≡ length d.path = omega (arith, At-le a) in
    rw (o, s, le→leb _ _ (At-le a), At-slice a)

drop-dep_bytes : (d : DepEntry) (rest : Bytes) → drop dep_entry_size (dep_bytes d ++ rest) ≡ rest
unfolding dep_bytes
drop-dep_bytes d rest = refl

pub read_deps-path_slots :
    (blob : Bytes) (ds : List DepInfo) (cursor : ℕ) (rest : Bytes)
    → length blob < 2 ^ 32
    → All HasHash ds
    → At blob cursor (path_chunks ds)
    → read_deps blob (length ds) (dep_chunks (path_slots cursor ds) ++ rest) ≡ map dep_of_info ds
unfolding read_deps path_slots
read_deps-path_slots blob [] cursor rest fits hs a = refl
read_deps-path_slots blob (d ∷ ds) cursor rest fits hs a =
    let here = At-left d.path (path_chunks ds) a in
    let slot : DepEntry = record {
      path_offset = u32 cursor;
      path_size = u32 (length d.path);
      content_hash = d.content_hash;
    } in
    rw (
      append_assoc (dep_bytes slot) (dep_chunks (path_slots (cursor + length d.path) ds)) rest,
      read_dep-dep_bytes slot (dep_chunks (path_slots (cursor + length d.path) ds) ++ rest)
          (omega arith) (omega arith) hs.0,
      dep_of_entry-At blob d cursor here fits,
      drop-dep_bytes slot (dep_chunks (path_slots (cursor + length d.path) ds) ++ rest),
      read_deps-path_slots blob ds (cursor + length d.path) rest fits hs.1
          (At-right d.path (path_chunks ds) a),
    )

pub length-path_slots : (ds : List DepInfo) (cursor : ℕ) → length (path_slots cursor ds) ≡ length ds
unfolding path_slots
length-path_slots [] cursor = refl
length-path_slots (d ∷ ds) cursor = ap suc (length-path_slots ds _)
