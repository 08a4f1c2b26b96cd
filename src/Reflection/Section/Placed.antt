-- ===== src/Reflection/Section/Placed.antt =====
-- Every table of a section stands where its reference says.
use slangmake.Prelude.{
  ℕ, zero, suc, ◌+◌, ◌*◌, ◌%◌, ◌^◌, ◌≤◌, ◌<◌, ◌≡◌, refl, Bytes, List, [], ◌∷◌, ◌++◌, All, get_or,
  length, length-append, drop, arith,
}
use slangmake.Blob.Writer.Emit.{pad_until_loop, pad_until}
use slangmake.Blob.Writer.Layout.{align8}
use slangmake.Blob.Placed.{
  At, At-end, At-eq, At-Extends, Extends, Extends-refl, Extends-trans, Extends-append, At-drop,
}
use slangmake.Blob.Padding.{pad_until-Extends}
use slangmake.Reflection.Format.Rows.{
  Row, IsRow, FitsWords, read_table, length-table_bytes, length-le-table_bytes,
  read_table-table_bytes,
}
use slangmake.Reflection.Format.Header.{TableRef, no_ref, IsRef}
use slangmake.Reflection.Section.{
  Part, no_part, table_part, layout_table, layout_tables, write_table, write_tables,
}

length-pad_until_loop :
    (fuel n : ℕ) (out : Bytes)
    → length out ≤ n
    → n ≤ length out + fuel
    → length (pad_until_loop fuel n out) ≡ n
unfolding pad_until_loop
length-pad_until_loop zero n out h k = omega arith
length-pad_until_loop (suc fuel) n out h k =
    ground (arith, length-pad_until_loop fuel n (out ++ (0 ∷ [])), length-append out (0 ∷ []))

pub length-pad_until : (n : ℕ) (out : Bytes) → length out ≤ n → length (pad_until n out) ≡ n
unfolding pad_until
length-pad_until n out h = length-pad_until_loop n n out h (omega arith)

-- The size that the layout reserves is that of the bytes.
pub record IsPart (p : Part) : Type 0 where
  pub size : length p.payload ≡ p.count * p.stride
  pub counted : p.count ≤ length p.payload

pub table_part-IsPart :
    {A : Type 0} (row : Row A) → IsRow row → (rows : List A) → IsPart (table_part row rows)
table_part-IsPart row h rows = record {
  size = length-table_bytes row h rows;
  counted = length-le-table_bytes row h rows;
}

-- The bytes of `p` stand where `r` says, and `r` has the count of `p`.
pub record IsAt (out : Bytes) (r : TableRef) (p : Part) : Type 0 where
  pub placed : At out r.off p.payload
  pub count_same : r.count ≡ p.count

IsAt-Extends :
    {out out' : Bytes} {r : TableRef} {p : Part} → Extends out out' → IsAt out r p → IsAt out' r p
IsAt-Extends e a = record { placed = At-Extends e a.placed; count_same = a.count_same }

-- What the layout and the writing of `ps` from `out` on give.
pub record Written (out out' : Bytes) (refs : List TableRef) (last : ℕ) (ps : List Part)
    : Type 0 where
  pub whole : length out' ≡ last
  pub extends : Extends out out'
  pub at : (i : ℕ) → i < length ps → IsAt out' (get_or refs i no_ref) (get_or ps i no_part)

pub layout_tables-le : (cur : ℕ) (ps : List Part) → cur ≤ (layout_tables cur ps).1
unfolding layout_tables layout_table
layout_tables-le cur [] = omega arith
layout_tables-le cur (p ∷ ps) = omega (arith, layout_tables-le (align8 cur + p.count * p.stride) ps)

pub layout_tables-IsRef : (cur : ℕ) (ps : List Part) → All IsRef (layout_tables cur ps).0
unfolding layout_tables layout_table
layout_tables-IsRef cur [] = tt
layout_tables-IsRef cur (p ∷ ps) =
    ((omega arith, omega arith), layout_tables-IsRef (align8 cur + p.count * p.stride) ps)

-- One part: the buffer is padded up to the reference, and the bytes follow.
record Step (cur : ℕ) (p : Part) (out : Bytes) : Type 0 where
  size : length (write_table (layout_table cur p).0 p out) ≡ (layout_table cur p).1
  extends : Extends out (write_table (layout_table cur p).0 p out)
  placed : IsAt (write_table (layout_table cur p).0 p out) (layout_table cur p).0 p

write_table-Step :
    (cur : ℕ) (p : Part) (out : Bytes)
    → length out ≡ cur
    → IsPart p
    → (layout_table cur p).1 < 2 ^ 32
    → Step cur p out
unfolding layout_table write_table
write_table-Step cur p out e h fits =
    let off : align8 cur % 2 ^ 32 ≡ align8 cur = omega (arith, fits, h.size, h.counted) in
    let padded : length (pad_until (align8 cur) out) ≡ align8 cur =
      length-pad_until (align8 cur) out (omega (arith, e)) in
    record {
      size =
          rw off
            (omega (arith, length-append (pad_until (align8 cur) out) p.payload, padded, h.size));
      extends = rw off (
          Extends-trans out (pad_until (align8 cur) out) _ (pad_until-Extends (align8 cur) out)
            (Extends-append (pad_until (align8 cur) out) p.payload));
      placed = record {
        placed = rw off (At-eq refl padded (At-end (pad_until (align8 cur) out) p.payload));
        count_same = omega (arith, fits, h.size, h.counted);
      };
    }

IsAt-cons :
    {out : Bytes} {r : TableRef} {p : Part} (refs : List TableRef) (ps : List Part)
    → IsAt out r p
    → ((i : ℕ) → i < length ps → IsAt out (get_or refs i no_ref) (get_or ps i no_part))
    → (i : ℕ) → i < suc (length ps)
    → IsAt out (get_or (r ∷ refs) i no_ref) (get_or (p ∷ ps) i no_part)
IsAt-cons refs ps a h zero l = a
IsAt-cons refs ps a h (suc i) l = h i (omega arith)

pub write_tables-Written :
    (ps : List Part) (cur : ℕ) (out : Bytes)
    → length out ≡ cur
    → All IsPart ps
    → (layout_tables cur ps).1 < 2 ^ 32
    → Written out
        (write_tables (layout_tables cur ps).0 ps out)
        (layout_tables cur ps).0
        (layout_tables cur ps).1
        ps
unfolding layout_tables write_tables
write_tables-Written [] cur out e h fits = record {
  whole = e;
  extends = Extends-refl out;
  at = λ i l. elim l [ ];
}
write_tables-Written (p ∷ ps) cur out e h fits =
    let laid = layout_table cur p in
    let out1 = write_table laid.0 p out in
    let more = layout_tables-le laid.1 ps in
    let s = write_table-Step cur p out e h.0 (omega (arith, fits, more)) in
    let rest = write_tables-Written ps laid.1 out1 s.size h.1 fits in
    record {
      whole = rest.whole;
      extends = Extends-trans out out1 _ s.extends rest.extends;
      at = IsAt-cons (layout_tables laid.1 ps).0 ps (IsAt-Extends rest.extends s.placed) rest.at;
    }

pub read_table-IsAt :
    {A : Type 0} (row : Row A)
    → IsRow row
    → (rows : List A) → All (FitsWords row) rows
    → {blob : Bytes} {r : TableRef} → IsAt blob r (table_part row rows)
    → read_table row r.count (drop r.off blob) ≡ rows
read_table-IsAt row is_row rows fit {blob} {r} a =
    let (rest, e) = At-drop a.placed in
    rw (e, a.count_same) (read_table-table_bytes row is_row rows rest fit)
