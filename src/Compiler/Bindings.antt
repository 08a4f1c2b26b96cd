-- ===== src/Compiler/Bindings.antt =====
-- When the values of a permutation bind the type parameters of a module
-- (src/slangmake_compiler.cpp).
use mathlib.Core.Path.{subst}
use mathlib.Core.List.{Memᴰ}
use slangmake.Prelude.{
  ℕ, suc, true, false, ◌≡◌, ◌≢◌, refl, sym, ◌↔◌, Bytes, bytes_eq, bytes_eq_iff, List, [], ◌∷◌, All,
  Option, none, some, is_empty, length, Bool-cases, inl, inr, ◌==◌, ==_iff, arith,
}
use slangmake.Permutation.{ShaderConstant}
use slangmake.Compiler.Calls.{Library, SpecArg}
use slangmake.Compiler.TypeArgs.{
  Checked, good, bad, ◌>>=◌, value_of, declares, declared_names, strays, refuse_strays, spec_arg,
  required_arg, bind_args, refuse_other_params, type_arguments,
}

-- The names of parameters that are not null; one without a name has the empty name.
pub data Named : List (Option (Option Bytes)) → List Bytes → Type 0 where
  no_more : Named [] []
  unnamed :
      {ps : List (Option (Option Bytes))} {ns : List Bytes}
      → Named ps ns
      → Named (some none ∷ ps) ([] ∷ ns)
  named :
      {n : Bytes} {ps : List (Option (Option Bytes))} {ns : List Bytes}
      → Named ps ns
      → Named (some (some n) ∷ ps) (n ∷ ns)

-- One argument for each name, in order: that of the value which the permutation gives the name.
pub data Bound (lib : Library) (layout : ℕ) (args : List ShaderConstant)
    : List Bytes → List SpecArg → Type 0 where
  all_bound : Bound lib layout args [] []
  binds :
      {n value : Bytes} {ns : List Bytes} {specs : List SpecArg}
      → value_of args n ≡ some value
      → Bound lib layout args ns specs
      → Bound lib layout args (n ∷ ns) (spec_arg lib layout value ∷ specs)

-- Every parameter is a named one that a value binds, and every value is for one of them.
pub record Accepts (lib : Library) (composite layout : ℕ) (args : List ShaderConstant)
    (specs : List SpecArg) : Type 0 where
  pub names : List Bytes
  pub only_types : lib.specialization_params composite ≡ length (lib.type_parameters layout)
  pub are_named : Named (lib.type_parameters layout) names
  pub no_strays : All (λ a. Memᴰ a.name names) args
  pub are_bound : Bound lib layout args names specs

bind-good :
    {A B : Type 0} {b : B} (m : Checked A) (f : A → Checked B)
    → (m >>= f) ≡ good b
    → (a : A) × (m ≡ good a) × (f a ≡ good b)
bind-good (good a) f e = (a, refl, e)
bind-good (bad t) f e = absurd cc

bad-good : {A : Type 0} {t : Bytes} {a : A} → bad t ≢ good a
bad-good e = absurd cc

good_injective : {A : Type 0} {a b : A} → good a ≡ good b → a ≡ b
good_injective e = cc

declared_names-Named :
    (i : ℕ) (ps : List (Option (Option Bytes))) (ns : List Bytes)
    → declared_names i ps ≡ good ns
    → Named ps ns
unfolding declared_names
declared_names-Named i [] ns e = subst (Named []) (good_injective e) no_more
declared_names-Named i (none ∷ ps) ns e = absurd cc
declared_names-Named i (some none ∷ ps) ns e =
    let q = bind-good (declared_names (suc i) ps) (λ ns. good ([] ∷ ns)) e in
    subst (Named _) (good_injective q.2) (unnamed (declared_names-Named (suc i) ps q.0 q.1))
declared_names-Named i (some (some n) ∷ ps) ns e =
    let q = bind-good (declared_names (suc i) ps) (λ ns. good (n ∷ ns)) e in
    subst (Named _) (good_injective q.2) (named (declared_names-Named (suc i) ps q.0 q.1))

Named-declared_names :
    (i : ℕ) {ps : List (Option (Option Bytes))} {ns : List Bytes}
    → Named ps ns
    → declared_names i ps ≡ good ns
unfolding declared_names
Named-declared_names i no_more = refl
Named-declared_names i (unnamed p) = rw (Named-declared_names (suc i) p)
Named-declared_names i (named p) = rw (Named-declared_names (suc i) p)

true-false : true ≢ false
true-false e = grind arith

declares-Memᴰ : (ds : List Bytes) (n : Bytes) → declares ds n ≡ true → Memᴰ n ds
unfolding declares
declares-Memᴰ [] n e = absurd cc
declares-Memᴰ (d ∷ ds) n e = elim (Bool-cases (bytes_eq d n)) [
  | inl same ↦ Memᴰ.head (sym ((bytes_eq_iff d n).0 same))
  | inr other ↦ Memᴰ.tail (declares-Memᴰ ds n (rw other at e))
]

Memᴰ-declares : {n : Bytes} {ds : List Bytes} → Memᴰ n ds → declares ds n ≡ true
unfolding declares
Memᴰ-declares {n = n} {ds = []} m = elim m [ ]
Memᴰ-declares {n = n} {ds = d ∷ ds} (Memᴰ.head p) = rw ((bytes_eq_iff d n).1 (sym p))
Memᴰ-declares {n = n} {ds = d ∷ ds} (Memᴰ.tail m) = elim (Bool-cases (bytes_eq d n)) [
  | inl same ↦ rw same
  | inr other ↦ rw (other, Memᴰ-declares m)
]

strays-known :
    (declared : List Bytes) (args : List ShaderConstant)
    → is_empty (strays declared args) ≡ true
    → All (λ a. Memᴰ a.name declared) args
unfolding strays
strays-known declared [] e = tt
strays-known declared (a ∷ args) e = elim (Bool-cases (declares declared a.name)) [
  | inl known ↦ (declares-Memᴰ declared a.name known, strays-known declared args (rw known at e))
  | inr stray ↦ absurd (true-false (sym (rw stray at e)))
]

known-strays :
    (declared : List Bytes) (args : List ShaderConstant)
    → All (λ a. Memᴰ a.name declared) args
    → is_empty (strays declared args) ≡ true
unfolding strays
known-strays declared [] k = refl
known-strays declared (a ∷ args) k = rw (Memᴰ-declares k.0, known-strays declared args k.1)

required_arg-found :
    (n : Bytes) (o : Option Bytes) (value : Bytes) → required_arg n o ≡ good value → o ≡ some value
unfolding required_arg
required_arg-found n none value e = absurd cc
required_arg-found n (some v) value e = cc

module _ (lib : Library) (layout : ℕ) (args : List ShaderConstant) where
  bind_args-Bound :
      (ns : List Bytes) (specs : List SpecArg)
      → bind_args lib layout args ns ≡ good specs
      → Bound lib layout args ns specs
  unfolding bind_args
  bind_args-Bound [] specs e = subst (Bound lib layout args []) (good_injective e) all_bound
  bind_args-Bound (n ∷ ns) specs e =
      let v = bind-good (required_arg n (value_of args n)) _ e in
      let q = bind-good (bind_args lib layout args ns) _ v.2 in
      subst (Bound lib layout args _) (good_injective q.2)
        (binds (required_arg-found n (value_of args n) v.0 v.1) (bind_args-Bound ns q.0 q.1))

  Bound-bind_args :
      {ns : List Bytes} {specs : List SpecArg}
      → Bound lib layout args ns specs
      → bind_args lib layout args ns ≡ good specs
  unfolding bind_args required_arg
  Bound-bind_args all_bound = refl
  Bound-bind_args (binds found b) = rw (found, Bound-bind_args b)

refuse_strays-known :
    (names : List Bytes) (args : List ShaderConstant) (u : Unit {0})
    → refuse_strays names args ≡ good u
    → All (λ a. Memᴰ a.name names) args
unfolding refuse_strays
refuse_strays-known names args u e = elim (Bool-cases (is_empty (strays names args))) [
  | inl none_stray ↦ strays-known names args none_stray
  | inr some_stray ↦ absurd (bad-good (rw some_stray at e))
]

refuse_other_params-same :
    (total declared : ℕ) (u : Unit {0})
    → refuse_other_params total declared ≡ good u
    → total ≡ declared
unfolding refuse_other_params
refuse_other_params-same total declared u e = elim (Bool-cases (total == declared)) [
  | inl same ↦ (==_iff total declared).0 same
  | inr other ↦ absurd (bad-good (rw other at e))
]

-- The arguments for `specialize` are accepted as `specs` exactly where Slang has no specialization
-- parameters but the module's type parameters, none of which is null, each value of the permutation
-- is for one of these, and `specs` are, in their order, the types or expressions of the values that
-- the permutation gives them.
pub type_arguments-Accepts :
    (lib : Library) (composite layout : ℕ) (args : List ShaderConstant) (specs : List SpecArg)
    → (type_arguments lib composite layout args ≡ good specs)
      ↔ Accepts lib composite layout args specs
unfolding type_arguments refuse_strays refuse_other_params
type_arguments-Accepts lib composite layout args specs = (to, from)
  where
    to :
        type_arguments lib composite layout args ≡ good specs
        → Accepts lib composite layout args specs
    to e =
        let c = bind-good (refuse_other_params _ _) _ e in
        let d = bind-good (declared_names 0 _) _ c.2 in
        let s = bind-good (refuse_strays d.0 args) _ d.2 in
        record {
          names = d.0;
          only_types = refuse_other_params-same _ _ _ c.1;
          are_named = declared_names-Named 0 _ d.0 d.1;
          no_strays = refuse_strays-known d.0 args _ s.1;
          are_bound = bind_args-Bound lib layout args d.0 specs s.2;
        }

    from :
        Accepts lib composite layout args specs
        → type_arguments lib composite layout args ≡ good specs
    from a = rw (
      (==_iff _ _).1 a.only_types,
      Named-declared_names 0 a.are_named,
      known-strays a.names args a.no_strays,
      Bound-bind_args lib layout args a.are_bound,
    )
