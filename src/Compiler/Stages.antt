-- ===== src/Compiler/Stages.antt =====
-- The stages of `Compiler::compile` (src/slangmake_compiler.cpp), where they go on.
use mathlib.Core.Path.{subst}
use slangmake.Prelude.{
  ℕ, Bool, true, false, ◌≡◌, ◌≢◌, refl, Bytes, List, [], ◌∷◌, Option, none, some, is_empty,
  if◌then◌else◌, Bool-cases, inl, inr, arith,
}
use slangmake.Permutation.{Permutation}
use slangmake.Hash.Options.{CompileOptions}
use slangmake.Batch.Surroundings.{Result}
use slangmake.Compiler.{
  Attempt, stopped, going, ◌>>=◌, duplicate_type_args, named_files, required, loaded, named_point,
  all_points, entry_points, or_stop, layout_of, checked, specialized, specialize,
}
use slangmake.Compiler.Calls.{Library}
use slangmake.Compiler.TypeArgs.{Checked, good, bad, find_duplicate_binding_names}
use slangmake.Compiler.Bindings.{type_arguments-Accepts}
use slangmake.Compiler.Built.{IsPoints, all_defined, of_name, IsProgram, plain, bound}

pub bind-going :
    {A B : Type 0} {b : B} (m : Attempt A) (f : A → Attempt B)
    → (m >>= f) ≡ going b
    → (a : A) × (m ≡ going a) × (f a ≡ going b)
bind-going (going a) f e = (a, refl, e)
bind-going (stopped r) f e = absurd cc

pub going_injective : {A : Type 0} {a b : A} → going a ≡ going b → a ≡ b
going_injective e = cc

pub stopped-going : {A : Type 0} {r : Result} {a : A} → stopped r ≢ going a
stopped-going e = absurd cc

pub required-some :
    {A : Type 0} (text : Bytes) (r : Result) (o : Option A) (a : A)
    → required text r o ≡ going a
    → o ≡ some a
unfolding required
required-some text r none a e = absurd cc
required-some text r (some b) a e = cc

pub or_stop-some :
    {A : Type 0} (r : Result) (q : Bytes × Option A) (a : A) → or_stop r q ≡ going a → q.1 ≡ some a
unfolding or_stop
or_stop-some r (diag, none) a e = absurd cc
or_stop-some r (diag, some b) a e = cc

pub checked-good :
    {A : Type 0} (r : Result) (c : Checked A) (a : A) → checked r c ≡ going a → c ≡ good a
unfolding checked
checked-good r (good b) a e = cc
checked-good r (bad text) a e = absurd cc

pub loaded-some :
    (lib : Library) (q : Bytes × Option ℕ) (a : ℕ × Result)
    → loaded lib q ≡ going a
    → (q.1 ≡ some a.0) × (a.1.dependencies ≡ named_files (lib.dependency_files a.0))
unfolding loaded
loaded-some lib (diag, none) a e = absurd (stopped-going e)
loaded-some lib (diag, some m) a e =
    subst (λ x. (some m ≡ some x.0) × (x.1.dependencies ≡ named_files (lib.dependency_files x.0)))
      (going_injective e) (refl, refl)

pub layout_of-some :
    (r : Result) (q : Bytes × Option ℕ) (a : ℕ × Result)
    → layout_of r q ≡ going a
    → (q.1 ≡ some a.0) × (a.1.dependencies ≡ r.dependencies)
unfolding layout_of
layout_of-some r (diag, none) a e = absurd (stopped-going e)
layout_of-some r (diag, some l) a e =
    subst (λ x. (some l ≡ some x.0) × (x.1.dependencies ≡ r.dependencies)) (going_injective e)
      (refl, refl)

-- The two forms of a test before the rest.
pub if-going :
    {A : Type 0} (b : Bool) (r : Result) (a a' : A)
    → (if b then going a else stopped r) ≡ going a'
    → (b ≡ true) × (a ≡ a')
if-going true r a a' e = (refl, going_injective e)
if-going false r a a' e = absurd (stopped-going e)

pub unless-going :
    {A : Type 0} (b : Bool) (r : Result) (a a' : A)
    → (if b then stopped r else going a) ≡ going a'
    → (b ≡ false) × (a ≡ a')
unless-going true r a a' e = absurd (stopped-going e)
unless-going false r a a' e = (refl, going_injective e)

none_left : {A : Type 0} (xs : List A) → is_empty xs ≡ true → xs ≡ []
none_left [] e = refl
none_left (x ∷ xs) e = absurd (grind arith)

pub duplicate_type_args_unique :
    (perm : Permutation) (u : Unit {0})
    → duplicate_type_args perm ≡ going u
    → find_duplicate_binding_names perm.type_args ≡ []
unfolding duplicate_type_args
duplicate_type_args_unique perm u e = none_left _ (if-going _ _ tt u e).0

pub entry_points-IsPoints :
    (lib : Library) (opts : CompileOptions) (m : ℕ) (r : Result) (ps : List ℕ)
    → entry_points lib opts m r ≡ going ps
    → IsPoints lib m opts.entry_point ps
unfolding entry_points all_points named_point
entry_points-IsPoints lib opts m r ps e = elim (Bool-cases (is_empty opts.entry_point)) [
  | inl b ↦
      let q = unless-going _ _ _ ps (rw (b, entry_points) at e) in
      subst (IsPoints lib m opts.entry_point) q.1 (all_defined b q.0)
  | inr b ↦
      let q =
        bind-going (required _ r (lib.find_entry_point m opts.entry_point)) _
          (rw (b, entry_points) at e) in
      subst (IsPoints lib m opts.entry_point) (going_injective q.2)
        (of_name b (required-some _ r _ q.0 q.1))
]

pub specialize-IsProgram :
    (lib : Library) (perm : Permutation) (composite : ℕ) (r : Result) (c : ℕ × Result)
    → specialize lib perm composite r ≡ going c
    → IsProgram lib perm composite c.0 × (c.1.dependencies ≡ r.dependencies)
unfolding specialize specialized
specialize-IsProgram lib perm composite r c e = elim (Bool-cases (is_empty perm.type_args)) [
  | inl b ↦
      subst (λ x. IsProgram lib perm composite x.0 × (x.1.dependencies ≡ r.dependencies))
        (going_injective (rw (b, specialize) at e)) (plain b, refl)
  | inr b ↦
      let l = bind-going (layout_of r (lib.get_layout composite)) _ (rw (b, specialize) at e) in
      let args = bind-going (checked l.0.1 _) _ l.2 in
      let p = bind-going (or_stop l.0.1 (lib.specialize composite args.0)) _ args.2 in
      let made = layout_of-some r _ l.0 l.1 in
      subst (λ x. IsProgram lib perm composite x.0 × (x.1.dependencies ≡ r.dependencies))
        (going_injective p.2)
        (
          bound b made.0
              ((type_arguments-Accepts lib composite l.0.0 perm.type_args args.0).0
                (checked-good l.0.1 _ args.0 args.1))
              (or_stop-some l.0.1 _ p.0 p.1),
          made.1,
        )
]
