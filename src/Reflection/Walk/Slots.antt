-- ===== src/Reflection/Walk/Slots.antt =====
-- The seven tables with their maps: a new pointer leaves one object less to visit, and no names,
-- pools, attributes or entry points change.
use slangmake.Prelude.{ℕ, ◌≡◌, refl, ap, Bytes, List, length, All, arith}
use mathlib.Core.Path.{subst}
use slangmake.Blob.Placed.{Extends, Extends-refl}
use slangmake.Reflection.Decode.Safety.{HasArgs, HasRanges}
use slangmake.Reflection.Builder.Strings.{IsPlaced}
use slangmake.Reflection.Format.Attributes.{AttrArg, Attribute}
use slangmake.Reflection.Format.EntryPoints.{EntryPoint}
use slangmake.Reflection.Section.{Tables}
use slangmake.Reflection.Builder.Ranges.{Keeps}
use slangmake.Reflection.Walk.State.{
  type_slot, type_layout_slot, variable_slot, var_layout_slot, function_slot, generic_slot,
  decl_slot,
}
use slangmake.Reflection.Walk.Unvisited.{missing-cons}
use slangmake.Reflection.Walk.Total.{IsSlot}

-- What `Keeps` looks at.
record Watched : Type 0 where
  strings : Bytes
  string_idx : List (Bytes × ℕ)
  pool : List ℕ
  attrs : List Attribute
  args : List AttrArg
  entry_points : List EntryPoint

abbrev watched : Tables → Watched
watched t = record {
  strings = t.strings;
  string_idx = t.string_idx;
  pool = t.u32_pool;
  attrs = t.attrs;
  args = t.attr_args;
  entry_points = t.entry_points;
}

pub Keeps-untouched : (t t' : Tables) → watched t ≡ watched t' → Keeps t t'
Keeps-untouched t t' e = record {
  strings_grow = subst (λ x. Extends t.strings x.strings) e (Extends-refl t.strings);
  pool_grows = omega (arith, ap (λ (x : Watched). length x.pool) e);
  attrs_grow = omega (arith, ap (λ (x : Watched). length x.attrs) e);
  args_grow = omega (arith, ap (λ (x : Watched). length x.args) e);
  sound = λ f h. record {
    interned = subst (λ x. All (IsPlaced x.strings) x.string_idx) e h.interned;
    args = subst (λ x. All (HasArgs (length x.args)) x.attrs) e h.args;
    ranges =
        subst (λ x. All (HasRanges (length x.pool) (length x.attrs)) x.entry_points) e h.ranges;
  };
}

pub type_slot-IsSlot : (n : ℕ) → IsSlot n type_slot
type_slot-IsSlot n = record {
  enters = λ p i w l e. omega (arith, missing-cons n p i w.type_idx l e);
  enter_keeps = λ p i w. Keeps-untouched w.tables _ refl;
  stores = λ i a w. record { fewer = omega arith; keeps = Keeps-untouched w.tables _ refl };
}

pub type_layout_slot-IsSlot : (n : ℕ) → IsSlot n type_layout_slot
type_layout_slot-IsSlot n = record {
  enters = λ p i w l e. omega (arith, missing-cons n p i w.type_layout_idx l e);
  enter_keeps = λ p i w. Keeps-untouched w.tables _ refl;
  stores = λ i a w. record { fewer = omega arith; keeps = Keeps-untouched w.tables _ refl };
}

pub variable_slot-IsSlot : (n : ℕ) → IsSlot n variable_slot
variable_slot-IsSlot n = record {
  enters = λ p i w l e. omega (arith, missing-cons n p i w.var_idx l e);
  enter_keeps = λ p i w. Keeps-untouched w.tables _ refl;
  stores = λ i a w. record { fewer = omega arith; keeps = Keeps-untouched w.tables _ refl };
}

pub var_layout_slot-IsSlot : (n : ℕ) → IsSlot n var_layout_slot
var_layout_slot-IsSlot n = record {
  enters = λ p i w l e. omega (arith, missing-cons n p i w.var_layout_idx l e);
  enter_keeps = λ p i w. Keeps-untouched w.tables _ refl;
  stores = λ i a w. record { fewer = omega arith; keeps = Keeps-untouched w.tables _ refl };
}

pub function_slot-IsSlot : (n : ℕ) → IsSlot n function_slot
function_slot-IsSlot n = record {
  enters = λ p i w l e. omega (arith, missing-cons n p i w.func_idx l e);
  enter_keeps = λ p i w. Keeps-untouched w.tables _ refl;
  stores = λ i a w. record { fewer = omega arith; keeps = Keeps-untouched w.tables _ refl };
}

pub generic_slot-IsSlot : (n : ℕ) → IsSlot n generic_slot
generic_slot-IsSlot n = record {
  enters = λ p i w l e. omega (arith, missing-cons n p i w.generic_idx l e);
  enter_keeps = λ p i w. Keeps-untouched w.tables _ refl;
  stores = λ i a w. record { fewer = omega arith; keeps = Keeps-untouched w.tables _ refl };
}

pub decl_slot-IsSlot : (n : ℕ) → IsSlot n decl_slot
decl_slot-IsSlot n = record {
  enters = λ p i w l e. omega (arith, missing-cons n p i w.decl_idx l e);
  enter_keeps = λ p i w. Keeps-untouched w.tables _ refl;
  stores = λ i a w. record { fewer = omega arith; keeps = Keeps-untouched w.tables _ refl };
}
