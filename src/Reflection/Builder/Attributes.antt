-- ===== src/Reflection/Builder/Attributes.antt =====
-- The attributes of an object: their rows and their arguments stay inside the tables.
use slangmake.Prelude.{
  ℕ, ◌+◌, ◌≤◌, ◌≡◌, refl, ◌∙◌, inl, inr, Bytes, List, [], ◌∷◌, ◌++◌, All-append, Option, none, some,
  length, length-append, arith, Option-cases,
}
use slangmake.Blob.Placed.{Extends-refl}
use slangmake.Reflection.Format.Header.{invalid_index}
use slangmake.Reflection.Format.Attributes.{AttrArg, Attribute}
use slangmake.Reflection.Section.{Tables}
use slangmake.Reflection.Decode.Safety.{HasArgs}
use slangmake.Reflection.Builder.{
  find_string, intern_found, intern_str, SlangArg, SlangAttribute, attr_arg, push_args,
  name_or_empty, push_attr, push_attribute, push_attributes, serialize_attributes, add_attributes,
}
use slangmake.Reflection.Builder.Ranges.{
  Fits, Keeps, Keeps-refl, Keeps-trans, HasArgs-le, HasRanges-le, intern_str-Keeps,
}

-- Arguments are pushed one by one.
record PushedArgs (n : ℕ) (t t' : Tables) : Type 0 where
  keeps : Keeps t t'
  counted : length t'.attr_args ≡ length t.attr_args + n
  rows_same : length t'.attrs ≡ length t.attrs

abbrev push_arg : AttrArg → Tables → Tables
push_arg a t = record t { attr_args = t.attr_args ++ (a ∷ []) }

push_arg-PushedArgs : (a : AttrArg) (t : Tables) → PushedArgs 1 t (push_arg a t)
push_arg-PushedArgs a t =
    let len = length-append t.attr_args (a ∷ []) in
    record {
      keeps = record {
        strings_grow = Extends-refl t.strings;
        pool_grows = omega arith;
        attrs_grow = omega arith;
        args_grow = omega (arith, len);
        sound = λ f h. record {
          interned = h.interned;
          args = HasArgs-le (length t.attr_args) _ t.attrs (omega (arith, len)) h.args;
          ranges = h.ranges;
        };
      };
      counted = omega (arith, len);
      rows_same = refl;
    }

intern_found-counted :
    (o : Option ℕ) (s : Bytes) (t : Tables)
    → (length (intern_found o s t).1.attr_args ≡ length t.attr_args)
      × (length (intern_found o s t).1.attrs ≡ length t.attrs)
unfolding intern_found
intern_found-counted none s t = (refl, refl)
intern_found-counted (some off) s t = (refl, refl)

intern_str-PushedArgs : (s : Bytes) (t : Tables) → PushedArgs 0 t (intern_str s t).1
unfolding intern_str
intern_str-PushedArgs s t = record {
  keeps = intern_str-Keeps s t;
  counted = omega (arith, (intern_found-counted (find_string t.string_idx s) s t).0);
  rows_same = (intern_found-counted (find_string t.string_idx s) s t).1;
}

PushedArgs-refl : (t : Tables) → PushedArgs 0 t t
PushedArgs-refl t = record { keeps = Keeps-refl t; counted = omega arith; rows_same = refl }

PushedArgs-trans :
    {n m : ℕ} {a b c : Tables} → PushedArgs n a b → PushedArgs m b c → PushedArgs (n + m) a c
PushedArgs-trans k l = record {
  keeps = Keeps-trans k.keeps l.keeps;
  counted = omega (arith, k.counted, l.counted);
  rows_same = l.rows_same ∙ k.rows_same;
}

attr_arg-PushedArgs : (a : SlangArg) (t : Tables) → PushedArgs 0 t (attr_arg a t).1
unfolding attr_arg
attr_arg-PushedArgs a t = elim (Option-cases a.int_value) [
  | inr (n, e) ↦ rw (e, attr_arg) (PushedArgs-refl t)
  | inl e ↦ elim (Option-cases a.float_value) [
    | inr (n, f) ↦ rw (e, f, attr_arg) (PushedArgs-refl t)
    | inl f ↦ elim (Option-cases a.string_value) [
      | inl g ↦ rw (e, f, g, attr_arg) (PushedArgs-refl t)
      | inr (s, g) ↦ rw (e, f, g, attr_arg) (intern_str-PushedArgs s t)
    ]
  ]
]

push_args-PushedArgs :
    (list : List SlangArg) (t : Tables) → PushedArgs (length list) t (push_args list t)
unfolding push_args
push_args-PushedArgs [] t = PushedArgs-refl t
push_args-PushedArgs (a ∷ more) t =
    let r = attr_arg a t in
    let whole = PushedArgs-trans (attr_arg-PushedArgs a t) (
      PushedArgs-trans (push_arg-PushedArgs r.0 r.1)
        (push_args-PushedArgs more (push_arg r.0 r.1))) in
    record {
      keeps = whole.keeps;
      counted = omega (arith, whole.counted);
      rows_same = whole.rows_same;
    }

-- An attribute whose arguments are in the table.
push_attr-Keeps :
    (a : Attribute) (t : Tables)
    → (Fits t → HasArgs (length t.attr_args) a)
    → Keeps t (push_attr a t)
push_attr-Keeps a t inside =
    let len = length-append t.attrs (a ∷ []) in
    let grows : length t.attrs ≤ length (push_attr a t).attrs = omega (arith, len) in
    record {
      strings_grow = Extends-refl t.strings;
      pool_grows = omega arith;
      attrs_grow = grows;
      args_grow = omega arith;
      sound = λ f h. record {
        interned = h.interned;
        args = All-append (HasArgs (length t.attr_args)) t.attrs (a ∷ []) h.args (
          inside (record {
            strings_fit = f.strings_fit;
            pool_fits = f.pool_fits;
            attrs_fit = omega (arith, f.attrs_fit, len);
            args_fit = f.args_fit;
          }),
          tt,
        );
        ranges =
            HasRanges-le (length t.u32_pool) _ (length t.attrs) _ t.entry_points (omega arith) grows
              h.ranges;
      };
    }

push_attribute-Keeps : (a : Option SlangAttribute) (t : Tables) → Keeps t (push_attribute a t)
unfolding push_attribute
push_attribute-Keeps none t =
    push_attr-Keeps (record { name_str_idx = invalid_index; arg_off = 0; arg_count = 0 }) t
      (λ f. omega arith)
push_attribute-Keeps (some a) t =
    let named = intern_str (name_or_empty a.name) t in
    let pushed = push_args-PushedArgs a.arguments named.1 in
    Keeps-trans (intern_str-Keeps (name_or_empty a.name) t) (
      Keeps-trans pushed.keeps (
        push_attr-Keeps _ (push_args a.arguments named.1)
          (λ f. omega (arith, pushed.counted, f.args_fit))))

push_attributes-Keeps :
    (list : List (Option SlangAttribute)) (t : Tables) → Keeps t (push_attributes list t)
unfolding push_attributes
push_attributes-Keeps [] t = Keeps-refl t
push_attributes-Keeps (a ∷ more) t =
    Keeps-trans (push_attribute-Keeps a t) (push_attributes-Keeps more (push_attribute a t))

-- One row for each attribute.
push_attribute-counted :
    (a : Option SlangAttribute) (t : Tables)
    → length (push_attribute a t).attrs ≡ length t.attrs + 1
unfolding push_attribute
push_attribute-counted none t = length-append t.attrs _
push_attribute-counted (some a) t =
    let named = intern_str (name_or_empty a.name) t in
    let pushed = push_args-PushedArgs a.arguments named.1 in
    omega (
      arith,
      length-append (push_args a.arguments named.1).attrs _,
      pushed.rows_same,
      (intern_str-PushedArgs (name_or_empty a.name) t).rows_same,
    )

push_attributes-counted :
    (list : List (Option SlangAttribute)) (t : Tables)
    → length (push_attributes list t).attrs ≡ length t.attrs + length list
unfolding push_attributes
push_attributes-counted [] t = omega arith
push_attributes-counted (a ∷ more) t =
    omega (arith, push_attributes-counted more (push_attribute a t), push_attribute-counted a t)

-- The run of attributes that an object got.
pub record Attributed (list : Option (List (Option SlangAttribute))) (t : Tables) : Type 0 where
  pub keeps : Keeps t (add_attributes list t).1
  pub inside :
      Fits (add_attributes list t).1
      → (add_attributes list t).0.0 + (add_attributes list t).0.1
        ≤ length (add_attributes list t).1.attrs

pub add_attributes-Attributed :
    (list : Option (List (Option SlangAttribute))) (t : Tables) → Attributed list t
unfolding add_attributes serialize_attributes
add_attributes-Attributed none t = record { keeps = Keeps-refl t; inside = λ f. omega arith }
add_attributes-Attributed (some []) t = record { keeps = Keeps-refl t; inside = λ f. omega arith }
add_attributes-Attributed (some (a ∷ more)) t = record {
  keeps = push_attributes-Keeps (a ∷ more) t;
  inside = λ f. omega (arith, push_attributes-counted (a ∷ more) t, f.attrs_fit);
}
