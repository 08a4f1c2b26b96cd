-- ===== src/Compiler/Outcomes.antt =====
-- What a result of `Compiler::compile` (src/slangmake_compiler.cpp) that is not a success holds.
use slangmake.Prelude.{
  ℕ, Bool, true, false, ◌≡◌, refl, ap, sym, Bytes, [], ◌∷◌, Option, none, some, is_empty,
  if◌then◌else◌, arith,
}
use mathlib.Core.Path.{subst}
use mathlib.Core.Option.{some-injective, none-ne-some}
use slangmake.Permutation.{Permutation}
use slangmake.Hash.Options.{CompileOptions}
use slangmake.Batch.Surroundings.{Result}
use slangmake.Compiler.{
  Attempt, stopped, going, ◌>>=◌, no_result, say, duplicate_type_args, required, open_session,
  open_input, loaded, load_module, named_point, all_points, found_points, entry_points, or_stop,
  layout_of, checked, specialized, specialize, compile_code, success, reflected, with_reflection,
  compile,
}
use slangmake.Compiler.Calls.{Library}
use slangmake.Compiler.TypeArgs.{Checked, good, bad, find_duplicate_binding_names, type_arguments}

pub record IsEmpty (r : Result) : Type 0 where
  pub no_success : r.success ≡ false
  pub no_code : r.code ≡ []
  pub no_reflection : r.reflection ≡ []

no_result-IsEmpty : IsEmpty no_result
no_result-IsEmpty = record { no_success = refl; no_code = refl; no_reflection = refl }

say-IsEmpty : (text : Bytes) (r : Result) → IsEmpty r → IsEmpty (say text r)
say-IsEmpty text r e = record {
  no_success = e.no_success;
  no_code = e.no_code;
  no_reflection = e.no_reflection;
}

-- An attempt that stops has an empty result.
pub data Stops {A : Type 0} (P : A → Type 0) : Attempt A → Type 0 where
  halts : {r : Result} → IsEmpty r → Stops P (stopped r)
  goes : {a : A} → P a → Stops P (going a)

abbrev Any : {A : Type 0} → A → Type 0
Any a = Unit {0}

bind-Stops :
    {A B : Type 0} {P : A → Type 0} {Q : B → Type 0} {m : Attempt A} {f : A → Attempt B}
    → Stops P m
    → ((a : A) → P a → Stops Q (f a))
    → Stops Q (m >>= f)
bind-Stops (halts e) k = halts e
bind-Stops (goes {a} p) k = k a p

if-Stops :
    {A : Type 0} {P : A → Type 0} {m k : Attempt A} (b : Bool)
    → Stops P m
    → Stops P k
    → Stops P (if b then m else k)
if-Stops true sm sk = sm
if-Stops false sm sk = sk

required-Stops :
    {A : Type 0} (text : Bytes) (r : Result) (o : Option A)
    → IsEmpty r
    → Stops Any (required text r o)
unfolding required
required-Stops text r none e = halts (say-IsEmpty text r e)
required-Stops text r (some a) e = goes tt

or_stop-Stops :
    {A : Type 0} (r : Result) (q : Bytes × Option A) → IsEmpty r → Stops Any (or_stop r q)
unfolding or_stop
or_stop-Stops r (diag, none) e = halts (say-IsEmpty diag r e)
or_stop-Stops r (diag, some a) e = goes tt

layout_of-Stops :
    (r : Result) (q : Bytes × Option ℕ) → IsEmpty r → Stops (λ l. IsEmpty l.1) (layout_of r q)
unfolding layout_of
layout_of-Stops r (diag, none) e = halts (say-IsEmpty _ (say diag r) (say-IsEmpty diag r e))
layout_of-Stops r (diag, some l) e = goes (say-IsEmpty diag r e)

checked-Stops : {A : Type 0} (r : Result) (c : Checked A) → IsEmpty r → Stops Any (checked r c)
unfolding checked
checked-Stops r (good a) e = goes tt
checked-Stops r (bad text) e = halts (say-IsEmpty text r e)

loaded-Stops : (lib : Library) (q : Bytes × Option ℕ) → Stops (λ m. IsEmpty m.1) (loaded lib q)
unfolding loaded
loaded-Stops lib (diag, none) = halts (say-IsEmpty diag no_result no_result-IsEmpty)
loaded-Stops lib (diag, some m) =
    goes (record { no_success = refl; no_code = refl; no_reflection = refl })

-- The results of `compile_code` before `success` is set.
pub record IsPending (p : ℕ × ℕ × Result) : Type 0 where
  pub pending : p.2.success ≡ false
  pub still_no_reflection : p.2.reflection ≡ []

module _ (lib : Library) (opts : CompileOptions) (perm : Permutation) where
  duplicate_type_args-Stops : Stops Any (duplicate_type_args perm)
  unfolding duplicate_type_args
  duplicate_type_args-Stops =
      if-Stops (is_empty (find_duplicate_binding_names perm.type_args)) (goes tt)
        (halts (say-IsEmpty _ no_result no_result-IsEmpty))

  entry_points-Stops : (m : ℕ) (r : Result) → IsEmpty r → Stops Any (entry_points lib opts m r)
  unfolding entry_points all_points named_point
  entry_points-Stops m r e =
      if-Stops (is_empty opts.entry_point)
        (if-Stops (is_empty (found_points (lib.defined_entry_points m))) (halts (say-IsEmpty _ r e))
          (goes tt))
        (bind-Stops (required-Stops _ r (lib.find_entry_point m opts.entry_point) e)
          (λ p u. goes tt))

  specialize-Stops :
      (composite : ℕ) (r : Result)
      → IsEmpty r
      → Stops (λ c. IsEmpty c.1) (specialize lib perm composite r)
  unfolding specialize specialized
  specialize-Stops composite r e = if-Stops (is_empty perm.type_args) (goes e) (
      bind-Stops (layout_of-Stops r (lib.get_layout composite) e) λ l el.
        bind-Stops (checked-Stops l.1 (type_arguments lib composite l.0 perm.type_args) el)
          λ args u.
            bind-Stops (or_stop-Stops l.1 (lib.specialize composite args) el) λ c v. goes el)

  pub compile_code-Stops : Stops IsPending (compile_code lib opts perm)
  unfolding compile_code open_session open_input load_module
  compile_code-Stops = bind-Stops duplicate_type_args-Stops λ u _.
      bind-Stops (required-Stops _ no_result (lib.create_session _) no_result-IsEmpty) λ session _.
        bind-Stops (required-Stops _ no_result (lib.read opts.input_file) no_result-IsEmpty)
          λ source _.
            bind-Stops (loaded-Stops lib (lib.load_module session _ opts.input_file source)) λ m e.
              bind-Stops (entry_points-Stops m.0 m.1 e) λ points _.
                bind-Stops (or_stop-Stops m.1 (lib.create_composite session (m.0 ∷ points)) e)
                  λ composite _. bind-Stops (specialize-Stops composite m.1 e) λ c ec.
                    bind-Stops (or_stop-Stops c.1 (lib.link c.0) ec) λ linked _.
                      bind-Stops (or_stop-Stops c.1 (lib.target_code linked) ec) λ code _.
                        goes (record {
                          pending = ec.no_success;
                          still_no_reflection = ec.no_reflection;
                        })

-- A success shows a reflection only where one was asked for.
pub data Ending (asked : Bool) (r : Result) : Type 0 where
  succeeds : r.success ≡ true → (asked ≡ false → r.reflection ≡ []) → Ending asked r
  fails : IsEmpty r → Ending asked r

reflected-success : (q r : Result) (o : Option Bytes) → reflected q o ≡ some r → r.success ≡ true
unfolding reflected
reflected-success q r none f = absurd (none-ne-some r f)
reflected-success q r (some bytes) f = ap (λ x. x.success) (sym (some-injective _ _ f))

if-Ending :
    (asked : Bool) (q r : Result) (o : Option Bytes)
    → q.reflection ≡ []
    → (if asked then reflected q o else some (success q)) ≡ some r
    → Ending asked r
if-Ending true q r o e f = succeeds (reflected-success q r o f) (λ off. grind arith)
if-Ending false q r o e f = subst (Ending false) (some-injective _ _ f) (succeeds refl (λ off. e))

with_reflection-Ending :
    (lib : Library) (fuel : ℕ) (opts : CompileOptions) (m : Attempt (ℕ × ℕ × Result)) (r : Result)
    → Stops IsPending m
    → with_reflection lib fuel opts m ≡ some r
    → Ending opts.emit_reflection r
unfolding with_reflection
with_reflection-Ending lib fuel opts _ r (halts e) f =
    fails (subst IsEmpty (some-injective _ _ f) e)
with_reflection-Ending lib fuel opts _ r (goes {a = (linked, m, q)} p) f =
    if-Ending opts.emit_reflection q r _ p.still_no_reflection f

-- A result of `compile` is a success, which shows a reflection only where the options ask for one,
-- or it has neither code nor reflection.
pub compile-Ending :
    (lib : Library) (fuel : ℕ) (opts : CompileOptions) (perm : Permutation) (r : Result)
    → compile lib fuel opts perm ≡ some r
    → Ending opts.emit_reflection r
unfolding compile
compile-Ending lib fuel opts perm r =
    with_reflection-Ending lib fuel opts _ r (compile_code-Stops lib opts perm)
