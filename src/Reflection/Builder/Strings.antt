-- ===== src/Reflection/Builder/Strings.antt =====
-- A name that the serializer interns is read back through the view, whatever is interned later.
use slangmake.Prelude.{
  ℕ, ◌+◌, ◌%◌, ◌^◌, ◌<◌, ◌≡◌, ◌≢◌, refl, sym, ap, ◌∙◌, inl, inr, Bytes, List, [], ◌∷◌, ◌++◌, false,
  All, Option, none, some, append_assoc, drop, length, length-append, arith, Bool-cases, bytes_eq,
  bytes_eq_iff, leb, ◌==◌,
}
use slangmake.Blob.Placed.{
  At, At-le, At-drop, At-end, At-eq, At-Extends, Extends, Extends-refl, Extends-append,
}
use slangmake.Reflection.Section.{Tables, ProgramLayout, parts, refl_header, finish_section}
use slangmake.Reflection.Section.Writable.{IsWritable}
use slangmake.Reflection.Section.RoundTrip.{section-IsAt, section_view, section_fits, hdr}
use slangmake.Reflection.View.{c_string, string, reflection_view}
use slangmake.Reflection.Format.Header.{ReflHeader, invalid_index}
use slangmake.Reflection.Builder.{find_string, intern_found, intern_str}

-- Every recorded name stands, with its NUL, at its offset.
abbrev pub IsPlaced : Bytes → Bytes × ℕ → Type 0
IsPlaced strings (k, off) = At strings off (k ++ (0 ∷ []))

abbrev pub IsInterned : Tables → Type 0
IsInterned t = All (IsPlaced t.strings) t.string_idx

find_string-IsPlaced :
    (strings s : Bytes) (off : ℕ) (idx : List (Bytes × ℕ))
    → All (IsPlaced strings) idx
    → find_string idx s ≡ some off
    → At strings off (s ++ (0 ∷ []))
unfolding find_string
find_string-IsPlaced strings s off [] h e = cc
find_string-IsPlaced strings s off ((k, o) ∷ more) h e = elim (Bool-cases (bytes_eq k s)) [
  | inl q ↦
      let same : o ≡ off = cc (rw q at e) in At-eq refl same (rw (← (bytes_eq_iff k s).0 q) h.0)
  | inr q ↦ find_string-IsPlaced strings s off more h.1 (rw q at e)
]

All-Placed-Extends :
    (strings strings' : Bytes) (idx : List (Bytes × ℕ))
    → Extends strings strings'
    → All (IsPlaced strings) idx
    → All (IsPlaced strings') idx
All-Placed-Extends strings strings' [] e h = tt
All-Placed-Extends strings strings' ((k, o) ∷ more) e h =
    (At-Extends e h.0, All-Placed-Extends strings strings' more e h.1)

-- What one call leaves.
pub record Interned (s : Bytes) (t : Tables) (r : ℕ × Tables) : Type 0 where
  pub placed : At r.1.strings r.0 (s ++ (0 ∷ []))
  pub grows : Extends t.strings r.1.strings
  pub kept : IsInterned r.1

pub intern_found-Interned :
    (o : Option ℕ) (s : Bytes) (t : Tables)
    → find_string t.string_idx s ≡ o
    → IsInterned t
    → length t.strings < 2 ^ 32
    → Interned s t (intern_found o s t)
unfolding intern_found
intern_found-Interned (some off) s t e h l = record {
  placed = find_string-IsPlaced t.strings s off t.string_idx h e;
  grows = Extends-refl t.strings;
  kept = h;
}
intern_found-Interned none s t e h l =
    let placed : At (t.strings ++ (s ++ (0 ∷ []))) (length t.strings % 2 ^ 32) (s ++ (0 ∷ [])) =
      At-eq refl (omega (arith, l)) (At-end t.strings (s ++ (0 ∷ []))) in
    let grows = Extends-append t.strings (s ++ (0 ∷ [])) in
    record {
      placed = placed;
      grows = grows;
      kept = (placed, All-Placed-Extends t.strings _ t.string_idx grows h);
    }

pub intern_str-Interned :
    (s : Bytes) (t : Tables)
    → IsInterned t
    → length t.strings < 2 ^ 32
    → Interned s t (intern_str s t)
unfolding intern_str
intern_str-Interned s t h l = intern_found-Interned (find_string t.string_idx s) s t refl h l

-- A name without a NUL in it.
abbrev pub HasNoNul : Bytes → Type 0
HasNoNul = All (λ b. b ≢ 0)

c_string-append : (s rest : Bytes) → HasNoNul s → c_string (s ++ (0 ∷ rest)) ≡ s
unfolding c_string
c_string-append [] rest h = refl
c_string-append (b ∷ s) rest h =
    let e : (b == 0) ≡ false = ground (arith, h.0) in rw (e, c_string-append s rest h.1)

At-inside :
    {blob part bs : Bytes} {start off : ℕ}
    → At blob start part
    → At part off bs
    → At blob (start + off) bs
At-inside {bs = bs} a b = record {
  before = a.before ++ b.before;
  behind = b.behind ++ a.behind;
  splits =
      a.splits
      ∙ ap (λ x. a.before ++ (x ++ a.behind)) b.splits
      ∙ ap (◌++◌ a.before) (append_assoc b.before (bs ++ b.behind) a.behind)
      ∙ sym (append_assoc a.before b.before ((bs ++ b.behind) ++ a.behind))
      ∙ ap (◌++◌ (a.before ++ b.before)) (append_assoc bs b.behind a.behind);
  offset = omega (arith, length-append a.before b.before, a.offset, b.offset);
}

string-inside :
    (bytes : Bytes) (h : ReflHeader) (off : ℕ) (s rest : Bytes)
    → off < invalid_index
    → off < h.strings.count
    → drop (h.strings.off + off) bytes ≡ s ++ (0 ∷ rest)
    → HasNoNul s
    → string (record { bytes = bytes; hdr = some h }) off ≡ s
unfolding string
string-inside bytes h off s rest small inside e n =
    let f : (off == invalid_index) ≡ false = ground (arith, small) in
    let g : leb h.strings.count off ≡ false = ground (arith, inside) in
    rw (f, g, e) (c_string-append s rest n)

-- The name at `off` of the strings of `t`, in the view over the section.
string-At :
    (layout : ProgramLayout) (global_vl : ℕ) (t : Tables) (s : Bytes) (off : ℕ)
    → IsWritable global_vl t
    → HasNoNul s
    → At t.strings off (s ++ (0 ∷ []))
    → string (reflection_view (finish_section layout global_vl t)) off ≡ s
unfolding refl_header parts
string-At layout global_vl t s off ok n a =
    let strings = section-IsAt layout global_vl t ok 0 (omega arith) in
    let (rest, e) = At-drop (At-inside strings.placed a) in
    let len = length-append s (0 ∷ []) in
    let fits = At-le strings.placed in
    ap (λ v. string v off) (section_view layout global_vl t ok)
    ∙ string-inside (finish_section layout global_vl t) (hdr layout global_vl t ok) off s rest
        (omega (arith, At-le a, len, fits, ok.fits, section_fits layout global_vl t ok))
        (omega (arith, At-le a, len, strings.count_same)) (e ∙ append_assoc s (0 ∷ []) rest) n

-- Where the recorded names are in place, the strings are below 2 ^ 32 bytes and the name has no NUL,
-- the view over the section returns the name for the index that `intern_str` gave, whatever is
-- interned behind it: `later` are the tables of the end, which fit the format and whose strings
-- extend those of the call.
pub string-intern_str :
    (layout : ProgramLayout) (global_vl : ℕ) (s : Bytes) (t later : Tables)
    → IsInterned t
    → length t.strings < 2 ^ 32
    → HasNoNul s
    → Extends (intern_str s t).1.strings later.strings
    → IsWritable global_vl later
    → string (reflection_view (finish_section layout global_vl later)) (intern_str s t).0 ≡ s
string-intern_str layout global_vl s t later h l n grows ok =
    string-At layout global_vl later s (intern_str s t).0 ok n
      (At-Extends grows (intern_str-Interned s t h l).placed)
