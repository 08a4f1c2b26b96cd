-- ===== src/Reflection/Builder/Ranges.antt =====
-- The ranges that the tables name stay inside the tables, and the tables only grow.
use slangmake.Prelude.{
  ℕ, Bool, ◌+◌, ◌^◌, ◌≤◌, ◌<◌, ◌≡◌, refl, Bytes, List, [], ◌∷◌, ◌++◌, All, Option, none, some,
  length, length-append, arith,
}
use slangmake.Blob.Placed.{Extends, Extends-refl, Extends-trans, Extends-le}
use slangmake.Reflection.Format.Attributes.{Attribute}
use slangmake.Reflection.Format.EntryPoints.{EntryPoint}
use slangmake.Reflection.Section.{Tables}
use slangmake.Reflection.Decode.Safety.{HasArgs, HasRanges}
use slangmake.Reflection.Builder.{
  find_string, intern_found, intern_str, intern_c_str, push_u32_list, modifier_ids, push_modifiers,
  add_modifiers,
}
use slangmake.Reflection.Builder.Strings.{IsInterned, intern_found-Interned}

-- The tables do not outgrow 32-bit offsets.
pub record Fits (t : Tables) : Type 0 where
  pub strings_fit : length t.strings < 2 ^ 32
  pub pool_fits : length t.u32_pool < 2 ^ 32
  pub attrs_fit : length t.attrs < 2 ^ 32
  pub args_fit : length t.attr_args < 2 ^ 32

-- Names, arguments, parameters and attributes are where the tables say.
pub record IsSound (t : Tables) : Type 0 where
  pub interned : IsInterned t
  pub args : All (HasArgs (length t.attr_args)) t.attrs
  pub ranges : All (HasRanges (length t.u32_pool) (length t.attrs)) t.entry_points

-- What each step does to the tables.
pub record Keeps (t t' : Tables) : Type 0 where
  pub strings_grow : Extends t.strings t'.strings
  pub pool_grows : length t.u32_pool ≤ length t'.u32_pool
  pub attrs_grow : length t.attrs ≤ length t'.attrs
  pub args_grow : length t.attr_args ≤ length t'.attr_args
  pub sound : Fits t' → IsSound t → IsSound t'

pub Fits-before : {t t' : Tables} → Keeps t t' → Fits t' → Fits t
Fits-before {t} {t'} k f = record {
  strings_fit = omega (arith, f.strings_fit, Extends-le t.strings t'.strings k.strings_grow);
  pool_fits = omega (arith, f.pool_fits, k.pool_grows);
  attrs_fit = omega (arith, f.attrs_fit, k.attrs_grow);
  args_fit = omega (arith, f.args_fit, k.args_grow);
}

pub Keeps-refl : (t : Tables) → Keeps t t
Keeps-refl t = record {
  strings_grow = Extends-refl t.strings;
  pool_grows = omega arith;
  attrs_grow = omega arith;
  args_grow = omega arith;
  sound = λ f s. s;
}

pub Keeps-trans : {a b c : Tables} → Keeps a b → Keeps b c → Keeps a c
Keeps-trans {a} {b} {c} k l = record {
  strings_grow = Extends-trans a.strings b.strings c.strings k.strings_grow l.strings_grow;
  pool_grows = omega (arith, k.pool_grows, l.pool_grows);
  attrs_grow = omega (arith, k.attrs_grow, l.attrs_grow);
  args_grow = omega (arith, k.args_grow, l.args_grow);
  sound = λ f s. l.sound f (k.sound (Fits-before l f) s);
}

pub HasArgs-le :
    (n m : ℕ) (rows : List Attribute) → n ≤ m → All (HasArgs n) rows → All (HasArgs m) rows
HasArgs-le n m [] h a = tt
HasArgs-le n m (r ∷ rows) h a = (omega (arith, h, a.0), HasArgs-le n m rows h a.1)

pub HasRanges-le :
    (n m k l : ℕ) (rows : List EntryPoint)
    → n ≤ m
    → k ≤ l
    → All (HasRanges n k) rows
    → All (HasRanges m l) rows
HasRanges-le n m k l [] h i a = tt
HasRanges-le n m k l (r ∷ rows) h i a = (
  record {
    params_inside = omega (arith, h, a.0.params_inside);
    attrs_inside = omega (arith, i, a.0.attrs_inside);
  },
  HasRanges-le n m k l rows h i a.1,
)

intern_found-Keeps :
    (o : Option ℕ) (s : Bytes) (t : Tables)
    → find_string t.string_idx s ≡ o
    → Keeps t (intern_found o s t).1
unfolding intern_found
intern_found-Keeps (some off) s t e = Keeps-refl t
intern_found-Keeps none s t e = record {
  strings_grow = (s ++ (0 ∷ []), refl);
  pool_grows = omega arith;
  attrs_grow = omega arith;
  args_grow = omega arith;
  sound = λ f h. record {
    interned =
        (intern_found-Interned none s t e h.interned
          (omega (arith, f.strings_fit, length-append t.strings (s ++ (0 ∷ []))))).kept;
    args = h.args;
    ranges = h.ranges;
  };
}

pub intern_str-Keeps : (s : Bytes) (t : Tables) → Keeps t (intern_str s t).1
unfolding intern_str
intern_str-Keeps s t = intern_found-Keeps (find_string t.string_idx s) s t refl

pub intern_c_str-Keeps : (s : Option Bytes) (t : Tables) → Keeps t (intern_c_str s t).1
unfolding intern_c_str
intern_c_str-Keeps none t = Keeps-refl t
intern_c_str-Keeps (some s) t = intern_str-Keeps s t

-- The run that a pushed list got.
pub record Pushed (list : List ℕ) (t : Tables) : Type 0 where
  pub keeps : Keeps t (push_u32_list list t).1
  pub inside :
      Fits (push_u32_list list t).1
      → (push_u32_list list t).0 + length list ≤ length (push_u32_list list t).1.u32_pool

pub push_u32_list-Pushed : (list : List ℕ) (t : Tables) → Pushed list t
unfolding push_u32_list
push_u32_list-Pushed [] t = record { keeps = Keeps-refl t; inside = λ f. omega arith }
push_u32_list-Pushed (n ∷ ns) t =
    let len = length-append t.u32_pool (n ∷ ns) in
    record {
      keeps = record {
        strings_grow = Extends-refl t.strings;
        pool_grows = omega (arith, len);
        attrs_grow = omega arith;
        args_grow = omega arith;
        sound = λ f h. record {
          interned = h.interned;
          args = h.args;
          ranges =
              HasRanges-le (length t.u32_pool) _ (length t.attrs) _ t.entry_points
                (omega (arith, len)) (omega arith) h.ranges;
        };
      };
      inside = λ f. omega (arith, len, f.pool_fits);
    }

push_modifiers-Keeps : (ids : List ℕ) (t : Tables) → Keeps t (push_modifiers ids t).1
unfolding push_modifiers
push_modifiers-Keeps [] t = Keeps-refl t
push_modifiers-Keeps (id ∷ ids) t = record {
  strings_grow = Extends-refl t.strings;
  pool_grows = omega arith;
  attrs_grow = omega arith;
  args_grow = omega arith;
  sound = λ f h. record { interned = h.interned; args = h.args; ranges = h.ranges };
}

pub add_modifiers-Keeps :
    (all : List ℕ) (found : Option (ℕ → Bool)) (t : Tables) → Keeps t (add_modifiers all found t).1
unfolding add_modifiers
add_modifiers-Keeps all none t = Keeps-refl t
add_modifiers-Keeps all (some found) t = push_modifiers-Keeps (modifier_ids all found) t
