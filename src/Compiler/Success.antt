-- ===== src/Compiler/Success.antt =====
-- What a success of `Compiler::compile` (src/slangmake_compiler.cpp) says.
use mathlib.Core.Path.{subst}
use mathlib.Core.Option.{some-injective, none-ne-some}
use slangmake.Prelude.{
  ℕ, Bool, true, false, ◌≡◌, refl, ◌∙◌, [], ◌∷◌, some, if◌then◌else◌, Option-cases, inl, inr,
}
use slangmake.Permutation.{Permutation}
use slangmake.Hash.Options.{CompileOptions}
use slangmake.Batch.Surroundings.{Result}
use slangmake.Reflection.Walk.{serialize_reflection}
use slangmake.Compiler.{
  Attempt, going, no_result, duplicate_type_args, open_session, open_input, load_module,
  entry_points, or_stop, specialize, compile_code, success, reflected, with_reflection, compile,
}
use slangmake.Compiler.Calls.{Library}
use slangmake.Compiler.Outcomes.{Stops, halts, goes, IsPending, compile_code-Stops}
use slangmake.Compiler.Built.{IsBuild, IsReflected, left_out, written, IsBuilt}
use slangmake.Compiler.Stages.{
  bind-going, going_injective, required-some, or_stop-some, loaded-some, duplicate_type_args_unique,
  entry_points-IsPoints, specialize-IsProgram,
}

module _ (lib : Library) (opts : CompileOptions) (perm : Permutation) where
  compile_code-IsBuild :
      (t : ℕ × ℕ × Result)
      → compile_code lib opts perm ≡ going t
      → IsBuild lib opts perm t.1 t.0 t.2.code t.2.dependencies
  unfolding compile_code open_session open_input load_module
  compile_code-IsBuild t e0 =
      let u = bind-going (duplicate_type_args perm) _ e0 in
      let s = bind-going (open_session lib opts perm) _ u.2 in
      let i = bind-going (open_input lib opts) _ s.2 in
      let m = bind-going (load_module lib opts s.0 i.0) _ i.2 in
      let ps = bind-going (entry_points lib opts m.0.0 m.0.1) _ m.2 in
      let k = bind-going (or_stop m.0.1 (lib.create_composite s.0 (m.0.0 ∷ ps.0))) _ ps.2 in
      let c = bind-going (specialize lib perm k.0 m.0.1) _ k.2 in
      let l = bind-going (or_stop c.0.1 (lib.link c.0.0)) _ c.2 in
      let o = bind-going (or_stop c.0.1 (lib.target_code l.0)) _ l.2 in
      let made = specialize-IsProgram lib perm k.0 m.0.1 c.0 c.1 in
      let read = loaded-some lib _ m.0 m.1 in
      subst (λ x. IsBuild lib opts perm x.1 x.0 x.2.code x.2.dependencies) (going_injective o.2)
        (record {
          session = s.0;
          source = i.0;
          points = ps.0;
          composite = k.0;
          program = c.0.0;
          unique = duplicate_type_args_unique perm u.0 u.1;
          opened = required-some _ no_result _ s.0 s.1;
          input = required-some _ no_result _ i.0 i.1;
          module_loaded = read.0;
          points_found = entry_points-IsPoints lib opts m.0.0 m.0.1 ps.0 ps.1;
          composed = or_stop-some m.0.1 _ k.0 k.1;
          program_made = made.0;
          program_linked = or_stop-some c.0.1 _ l.0 l.1;
          code_made = or_stop-some c.0.1 _ o.0 o.1;
          same_dependencies = made.1 ∙ read.1;
        })

reflected-IsReflected :
    (lib : Library) (fuel : ℕ) (asked : Bool) (linked m : ℕ) (q r : Result)
    → q.reflection ≡ []
    → (if asked
        then reflected q (serialize_reflection fuel (lib.objects linked m))
        else some (success q))
      ≡ some r
    → (r.code ≡ q.code) × (r.dependencies ≡ q.dependencies) × IsReflected lib fuel asked m linked r
unfolding reflected
reflected-IsReflected lib fuel false linked m q r n e =
    subst
      (λ x.
        (x.code ≡ q.code)
        × (x.dependencies ≡ q.dependencies)
        × IsReflected lib fuel false m linked x)
      (some-injective _ _ e) (refl, refl, left_out refl n)
reflected-IsReflected lib fuel true linked m q r n e =
    elim (Option-cases (serialize_reflection fuel (lib.objects linked m))) [
      | inl f ↦ absurd (none-ne-some r (rw (f, reflected) at e))
      | inr (bytes, f) ↦
          subst
            (λ x.
              (x.code ≡ q.code)
              × (x.dependencies ≡ q.dependencies)
              × IsReflected lib fuel true m linked x)
            (some-injective _ _ (rw (f, reflected) at e)) (refl, refl, written refl f)
    ]

with_reflection-IsBuilt :
    (lib : Library) (fuel : ℕ) (opts : CompileOptions) (perm : Permutation)
    (a : Attempt (ℕ × ℕ × Result)) (r : Result)
    → compile_code lib opts perm ≡ a
    → Stops IsPending a
    → with_reflection lib fuel opts a ≡ some r
    → r.success ≡ true
    → IsBuilt lib fuel opts perm r
unfolding with_reflection
with_reflection-IsBuilt lib fuel opts perm _ r c (halts {r = q} empty) e h =
    let off : r.success ≡ false = rw (some-injective _ _ e) at empty.no_success in absurd cc
with_reflection-IsBuilt lib fuel opts perm _ r c (goes {a = (linked, m, q)} pending) e h =
    let shown =
      reflected-IsReflected lib fuel opts.emit_reflection linked m q r pending.still_no_reflection
        e in
    let build = compile_code-IsBuild lib opts perm (linked, m, q) c in
    record {
      slang_module = m;
      linked = linked;
      build = rw (shown.0, shown.1) build;
      reflection = shown.2;
    }

-- A success of `compile` is built of one chain of calls that all succeeded: no type argument has two
-- values; a session with the session's description of the options and the permutation; the input,
-- loaded as a module in it; the entry point that the options name, or else all that the module
-- defines, at least one; the composite of these; that with exactly the module's type parameters
-- bound, where the permutation has values for them; and its linked form, whose code is the
-- result's. The dependencies are the module's files, and the reflection is that of the linked
-- program and the module if the options ask for one, and empty if not.
pub compile-IsBuilt :
    (lib : Library) (fuel : ℕ) (opts : CompileOptions) (perm : Permutation) (r : Result)
    → compile lib fuel opts perm ≡ some r
    → r.success ≡ true
    → IsBuilt lib fuel opts perm r
unfolding compile
compile-IsBuilt lib fuel opts perm r =
    with_reflection-IsBuilt lib fuel opts perm (compile_code lib opts perm) r refl
      (compile_code-Stops lib opts perm)
