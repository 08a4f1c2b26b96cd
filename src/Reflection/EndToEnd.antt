-- ===== src/Reflection/EndToEnd.antt =====
-- From Slang's objects through the serializer to the decoded view.
use mathlib.Core.Path.{subst}
use mathlib.Core.Option.{some-injective}
use slangmake.Prelude.{
  ℕ, zero, suc, ◌*◌, ◌^◌, ◌<◌, ◌≡◌, refl, ap, Bytes, List, [], ◌∷◌, All, Option, none, some, length,
  get_or, arith,
}
use slangmake.Blob.Placed.{At-le}
use slangmake.Reflection.Section.{Tables, ProgramLayout, parts, no_part, finish_section}
use slangmake.Reflection.Section.Placed.{IsPart}
use slangmake.Reflection.Section.Writable.{IsWritable, parts-IsPart}
use slangmake.Reflection.Section.RoundTrip.{finish_section-Shows, section-IsAt, section_fits}
use slangmake.Reflection.View.{reflection_view}
use slangmake.Reflection.Decode.{EntryPointInfo, decoded_entry_points}
use slangmake.Reflection.Decode.Safety.{IsDecodable, AllDecoded, decoded_entry_points-AllDecoded}
use slangmake.Reflection.Builder.Ranges.{Fits, IsSound}
use slangmake.Reflection.Slang.{Slang}
use slangmake.Reflection.Walk.State.{Walk, find_index}
use slangmake.Reflection.Walk.{walk_program, start, serialize_reflection}
use slangmake.Reflection.Walk.Unvisited.{missing}
use slangmake.Reflection.Walk.Total.{After, Ends, ends}
use slangmake.Reflection.Walk.Bounded.{IsBounded}
use slangmake.Reflection.Walk.Program.{add_node-Adds, Runs-walk_program}

All-get_or {ℓ κ} :
    {A : Type ℓ} (P : A → Type κ) (d : A) (xs : List A) (i : ℕ)
    → All P xs
    → i < length xs
    → P (get_or xs i d)
All-get_or P d [] i a h = elim h [ ]
All-get_or P d (x ∷ xs) zero a h = a.0
All-get_or P d (x ∷ xs) (suc i) a h = All-get_or P d xs i a.1 (omega arith)

missing-nil : (n : ℕ) → missing n [] ≡ n
unfolding find_index
missing-nil zero = refl
missing-nil (suc n) = omega (arith, missing-nil n)

module _ (g : Slang) (n fuel : ℕ) (b : IsBounded n g) (enough : 7 * n < fuel) where
  walk-Ends : Ends n (λ a w. Unit {0}) start (walk_program g fuel start)
  walk-Ends =
      Runs-walk_program g n fuel (7 * n) (add_node-Adds g n b fuel (7 * n) enough) b start
        (omega (arith, missing-nil n))

-- Where every pointer is null or below `n`, more than `7 * n` rounds of fuel are enough for the
-- serializer to end with a section: the seven kinds of objects are each visited once.
pub serialize_reflection-ends :
    (g : Slang) (n fuel : ℕ)
    → IsBounded n g
    → 7 * n < fuel
    → (section : Bytes) × (serialize_reflection fuel (some g) ≡ some section)
unfolding serialize_reflection
serialize_reflection-ends g n fuel b enough = section_of (walk-Ends g n fuel b enough)
  where
    section_of :
        {r : Option (ℕ × Walk)}
        → Ends n (λ a w. Unit {0}) start r
        → (section : Bytes) × (elim r [
          | none ↦ none
          | some (global_vl, w) ↦ some (finish_section g.layout global_vl w.tables)
        ]
            ≡ some section)
    section_of (ends l q) = (_, refl)

After-of :
    {n : ℕ} {r : Option (ℕ × Walk)} {i : ℕ} {w : Walk}
    → Ends n (λ a w. Unit {0}) start r
    → r ≡ some (i, w)
    → After n start w
After-of {n} {r} {i} {w} e f = here e f
  where
    here :
        {o : Option (ℕ × Walk)}
        → Ends n (λ a w. Unit {0}) start o
        → o ≡ some (i, w)
        → After n start w
    here (ends {a} {w'} l q) f =
        subst (λ x. After n start x) (ap (λ p. p.1) (some-injective _ _ f)) l

module _ (layout : ProgramLayout) (global_vl : ℕ) (t : Tables) (ok : IsWritable global_vl t) where
  part-fits : (i : ℕ) → i < length (parts t) → (get_or (parts t) i no_part).count < 2 ^ 32
  part-fits i l =
      let placed = At-le (section-IsAt layout global_vl t ok i l).placed in
      omega (
        arith,
        placed,
        section_fits layout global_vl t ok,
        (All-get_or IsPart no_part (parts t) i (parts-IsPart t) l).counted,
      )

  tables-Fits : Fits t
  unfolding parts
  tables-Fits = record {
    strings_fit = part-fits 0 (omega arith);
    pool_fits = part-fits 17 (omega arith);
    attrs_fit = part-fits 3 (omega arith);
    args_fit = part-fits 2 (omega arith);
  }

  section-IsDecodable :
      IsSound t → IsDecodable (reflection_view (finish_section layout global_vl t))
  section-IsDecodable s =
      let shows = finish_section-Shows layout global_vl t ok in
      let fits = tables-Fits in
      record {
        pool_fits = rw shows.u32_pool_same fits.pool_fits;
        attrs_fit = rw shows.attributes_same fits.attrs_fit;
        args_fit = rw shows.attribute_args_same fits.args_fit;
        args = rw (shows.attributes_same, shows.attribute_args_same) s.args;
        ranges = rw (shows.entry_points_same, shows.u32_pool_same, shows.attributes_same) s.ranges;
      }

-- Where every pointer is null or below `n` and there is more than `7 * n` fuel, and the tables that
-- the walk leaves fit the format, the section is decoded without a read outside a table: the entry
-- points of the tables come back in order, each with the parameters and the attributes that its
-- runs name.
pub serialize_reflection-AllDecoded :
    (g : Slang) (n fuel global_vl : ℕ) (w : Walk)
    → IsBounded n g
    → 7 * n < fuel
    → walk_program g fuel start ≡ some (global_vl, w)
    → IsWritable global_vl w.tables
    → (infos : List EntryPointInfo) × (decoded_entry_points
          (reflection_view (finish_section g.layout global_vl w.tables))
        ≡ some infos)
      × AllDecoded
          (reflection_view (finish_section g.layout global_vl w.tables))
          w.tables.entry_points
          infos
serialize_reflection-AllDecoded g n fuel global_vl w b enough e ok =
    let view = reflection_view (finish_section g.layout global_vl w.tables) in
    let after = After-of (walk-Ends g n fuel b enough) e in
    let sound =
      after.keeps.sound (tables-Fits g.layout global_vl w.tables ok)
        (record { interned = tt; args = tt; ranges = tt }) in
    let (infos, d, all) =
      decoded_entry_points-AllDecoded view
        (section-IsDecodable g.layout global_vl w.tables ok sound) in
    (
      infos,
      d,
      subst (λ eps. AllDecoded view eps infos)
          (finish_section-Shows g.layout global_vl w.tables ok).entry_points_same all,
    )
