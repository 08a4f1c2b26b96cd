-- ===== src/Reflection/Walk/State.antt =====
-- The state of the serializer and the steps that visit an object once
-- (src/slangmake_reflection_serialize.cpp).
use slangmake.Prelude.{ℕ, List, [], ◌∷◌, ◌++◌, Option, none, some, length, set, ◌==◌, if◌then◌else◌}
use slangmake.Blob.Writer.Layout.{u32}
use slangmake.Reflection.Format.Attributes.{Decl, decl_of_words}
use slangmake.Reflection.Format.Types.{TypeEntry, type_of_words, TypeLayout, type_layout_of_words}
use slangmake.Reflection.Format.Variables.{
  Variable, variable_of_words, VarLayout, var_layout_of_words, Function, function_of_words, Generic,
  generic_of_words,
}
use slangmake.Reflection.Section.{Tables}

-- The objects that the serializer meets; a declaration comes with the index of its parent.
pub data Node : Type 0 where
  type : ℕ → Node
  type_layout : ℕ → Node
  variable : ℕ → Node
  var_layout : ℕ → Node
  function : ℕ → Node
  generic : ℕ → Node
  decl : ℕ → ℕ → Node

-- The maps from pointers to indices.
pub record Walk : Type 0 where
  pub tables : Tables
  pub type_idx : List (ℕ × ℕ)
  pub type_layout_idx : List (ℕ × ℕ)
  pub var_idx : List (ℕ × ℕ)
  pub var_layout_idx : List (ℕ × ℕ)
  pub func_idx : List (ℕ × ℕ)
  pub generic_idx : List (ℕ × ℕ)
  pub decl_idx : List (ℕ × ℕ)

-- A member function; `none` is a walk that has run out of fuel.
abbrev pub Action : Type 0 → Type 0
Action A = Walk → Option (A × Walk)

abbrev pub go_on : {A B : Type 0} → Option (A × Walk) → (A → Action B) → Option (B × Walk)
go_on none f = none
go_on (some (a, w)) f = f a w

infixl 5 ◌>>=◌ ◌>>◌
abbrev pub ◌>>=◌ : {A B : Type 0} → Action A → (A → Action B) → Action B
◌>>=◌ m f w = go_on (m w) f

abbrev pub ◌>>◌ : {A B : Type 0} → Action A → Action B → Action B
m >> k = m >>= λ _. k

unfoldable pub give : {A : Type 0} → A → Action A
give a w = some (a, w)

-- A step on the tables.
unfoldable pub on_tables : {A : Type 0} → (Tables → A × Tables) → Action A
on_tables f w = let (a, t) = f w.tables in some (a, record w { tables = t })

unfoldable pub change : (Tables → Tables) → Action (Unit {0})
change f w = some (tt, record w { tables = f w.tables })

-- A loop that collects the results.
unfoldable pub each : {A B : Type 0} → (A → Action B) → List A → Action (List B)
each f [] = give []
each f (a ∷ more) = do b ← f a; rest ← each f more; give (b ∷ rest)

unfoldable pub find_index : ℕ → List (ℕ × ℕ) → Option ℕ
find_index p [] = none
find_index p ((q, i) ∷ more) = let rest = find_index p more in if q == p then some i else rest

-- A table with its map: what the functions `add...` share.
pub record Slot (A : Type 0) : Type 0 where
  pub known : Walk → List (ℕ × ℕ)
  pub rows : Walk → List A
  pub enter : ℕ → ℕ → Walk → Walk  -- the pointer and its index, and an empty row
  pub store : ℕ → A → Walk → Walk

module _ {A : Type 0} (slot : Slot A) where
  abbrev pub store_row : ℕ → A → Action ℕ
  store_row i a w = some (i, slot.store i a w)

  abbrev enter_row : ℕ → Action ℕ
  enter_row p w = some (u32 (length (slot.rows w)), slot.enter p (u32 (length (slot.rows w))) w)

  -- The body sees the index of its row.
  unfoldable pub visit_found : Option ℕ → ℕ → (ℕ → Action A) → Action ℕ
  visit_found (some i) p body = give i
  visit_found none p body = do i ← enter_row p; a ← body i; store_row i a

  -- A known pointer has its index; another one gets an empty row, which is filled at the end.
  unfoldable pub visit : ℕ → (ℕ → Action A) → Action ℕ
  visit p body w = visit_found (find_index p (slot.known w)) p body w

-- The seven tables of objects; `{}` is the row of zeros.
abbrev pub type_slot : Slot TypeEntry
type_slot = record {
  known = λ w. w.type_idx;
  rows = λ w. w.tables.types;
  enter = λ p i w. record w {
    tables = record w.tables { types = w.tables.types ++ (type_of_words [] ∷ []) };
    type_idx = (p, i) ∷ w.type_idx;
  };
  store = λ i a w. record w { tables = record w.tables { types = set w.tables.types i a } };
}

abbrev pub type_layout_slot : Slot TypeLayout
type_layout_slot = record {
  known = λ w. w.type_layout_idx;
  rows = λ w. w.tables.type_layouts;
  enter = λ p i w. record w {
    tables = record w.tables {
      type_layouts = w.tables.type_layouts ++ (type_layout_of_words [] ∷ []);
    };
    type_layout_idx = (p, i) ∷ w.type_layout_idx;
  };
  store = λ i a w. record w {
    tables = record w.tables { type_layouts = set w.tables.type_layouts i a };
  };
}

abbrev pub variable_slot : Slot Variable
variable_slot = record {
  known = λ w. w.var_idx;
  rows = λ w. w.tables.vars;
  enter = λ p i w. record w {
    tables = record w.tables { vars = w.tables.vars ++ (variable_of_words [] ∷ []) };
    var_idx = (p, i) ∷ w.var_idx;
  };
  store = λ i a w. record w { tables = record w.tables { vars = set w.tables.vars i a } };
}

abbrev pub var_layout_slot : Slot VarLayout
var_layout_slot = record {
  known = λ w. w.var_layout_idx;
  rows = λ w. w.tables.var_layouts;
  enter = λ p i w. record w {
    tables = record w.tables {
      var_layouts = w.tables.var_layouts ++ (var_layout_of_words [] ∷ []);
    };
    var_layout_idx = (p, i) ∷ w.var_layout_idx;
  };
  store =
      λ i a w. record w { tables = record w.tables { var_layouts = set w.tables.var_layouts i a } };
}

abbrev pub function_slot : Slot Function
function_slot = record {
  known = λ w. w.func_idx;
  rows = λ w. w.tables.funcs;
  enter = λ p i w. record w {
    tables = record w.tables { funcs = w.tables.funcs ++ (function_of_words [] ∷ []) };
    func_idx = (p, i) ∷ w.func_idx;
  };
  store = λ i a w. record w { tables = record w.tables { funcs = set w.tables.funcs i a } };
}

abbrev pub generic_slot : Slot Generic
generic_slot = record {
  known = λ w. w.generic_idx;
  rows = λ w. w.tables.generics;
  enter = λ p i w. record w {
    tables = record w.tables { generics = w.tables.generics ++ (generic_of_words [] ∷ []) };
    generic_idx = (p, i) ∷ w.generic_idx;
  };
  store = λ i a w. record w { tables = record w.tables { generics = set w.tables.generics i a } };
}

abbrev pub decl_slot : Slot Decl
decl_slot = record {
  known = λ w. w.decl_idx;
  rows = λ w. w.tables.decls;
  enter = λ p i w. record w {
    tables = record w.tables { decls = w.tables.decls ++ (decl_of_words [] ∷ []) };
    decl_idx = (p, i) ∷ w.decl_idx;
  };
  store = λ i a w. record w { tables = record w.tables { decls = set w.tables.decls i a } };
}
