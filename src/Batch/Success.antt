-- ===== src/Batch/Success.antt =====
-- A run of `compileFile` (src/slangmake_batch.cpp) that lists no failure.
use mathlib.Core.Path.{subst}
use mathlib.Core.Option.{some-injective}
use slangmake.Prelude.{
  ℕ, suc, if◌then◌else◌, ◌≢◌, ◌+◌, ◌≤◌, ◌≡◌, refl, ap, ◌∙◌, sym, Bool, true, false, Bytes, List, [],
  ◌∷◌, ◌++◌, append-nil, append_assoc, Option, some, bind-some, is_empty, Bool-cases, inl, inr,
  arith, length, length-append, length-map, map,
}
use slangmake.Permutation.{Permutation}
use slangmake.Blob.Writer.Layout.{DepInfo}
use slangmake.Batch.Surroundings.{Environment, Outcome, succeeded}
use slangmake.Batch.Reuse.{outcome_of}
use slangmake.Hash.Options.{CompileOptions}
use slangmake.Batch.Deps.{intern_paths, intern_entries}
use slangmake.Blob.Codecs.{CodecLibraries}
use slangmake.Blob.Writer.{finalize, set_dependencies}
use slangmake.Permutation.Expand.{expand, find_duplicate_names}
use slangmake.Batch.{
  Input, Settings, Output, Stats, finish, compile_perms, compile_file, merged_defines, Assembly,
  assemble, add_success, add_failure, zip_indices,
}

abbrev Job : Type 0
Job = Permutation × Outcome × List ℕ

length-add_failure :
    (p : Permutation) (o : Outcome) (a : Assembly)
    → length (add_failure p o.result a).failures ≡ length a.failures + 1
unfolding add_failure
length-add_failure p o a = length-append a.failures (_ ∷ [])

-- Failures are only added.
assemble-failures :
    (keep_going : Bool) (js : List Job) (a : Assembly)
    → length a.failures ≤ length (assemble keep_going js a).1.failures
unfolding assemble add_success
assemble-failures keep_going [] a = omega arith
assemble-failures true ((p, o, is) ∷ js) a = elim (Bool-cases (succeeded o)) [
  | inl b ↦ rw (b, assemble) (assemble-failures true js (add_success p o is a))
  | inr b ↦
      let rest = assemble-failures true js (add_failure p o.result a) in
      rw (b, assemble) (omega (arith, rest, length-add_failure p o a))
]
assemble-failures false ((p, o, is) ∷ js) a = elim (Bool-cases (succeeded o)) [
  | inl b ↦ rw (b, assemble) (assemble-failures false js (add_success p o is a))
  | inr b ↦ rw (b, assemble) (omega (arith, length-add_failure p o a))
]

some_failure :
    (keep_going : Bool) (p : Permutation) (o : Outcome) (is : List ℕ) (js : List Job) (a : Assembly)
    → succeeded o ≡ false
    → length (assemble keep_going ((p, o, is) ∷ js) a).1.failures ≢ 0
unfolding assemble
some_failure true p o is js a b h =
    let h1 = rw (b, assemble) at h in
    omega
      (arith, h1, assemble-failures true js (add_failure p o.result a), length-add_failure p o a)
some_failure false p o is js a b h =
    let h1 = rw (b, assemble) at h in omega (arith, h1, length-add_failure p o a)

-- Without a failure, the loop reaches its end and has compiled the permutations of all jobs.
assemble-all :
    (keep_going : Bool) (js : List Job) (a : Assembly)
    → length (assemble keep_going js a).1.failures ≡ 0
    → ((assemble keep_going js a).0 ≡ false)
      × ((assemble keep_going js a).1.compiled ≡ a.compiled ++ map (λ j. j.0) js)
unfolding assemble add_success
assemble-all keep_going [] a h = (refl, sym (append-nil a.compiled))
assemble-all keep_going ((p, o, is) ∷ js) a h = elim (Bool-cases (succeeded o)) [
  | inr b ↦ absurd (some_failure keep_going p o is js a b h)
  | inl b ↦
      let rest = assemble-all keep_going js (add_success p o is a) (rw (b, assemble) at h) in
      (
        rw (b, assemble) rest.0,
        rw (b, assemble) (rest.1 ∙ append_assoc a.compiled (p ∷ []) (map (λ j. j.0) js)),
      )
]

length-intern_entries :
    (env : Environment) (os : List Outcome) (deps : List DepInfo)
    → length (intern_entries env os deps).0 ≡ length os
unfolding intern_entries
length-intern_entries env [] deps = refl
length-intern_entries env (o ∷ os) deps = ap suc (
    length-intern_entries env os
      (intern_paths env (if o.result.success then o.dep_paths else []) deps).1)

zip_indices-perms :
    (f : Permutation → Outcome) (ps : List Permutation) (iss : List (List ℕ))
    → length iss ≡ length ps
    → map (λ j. j.0) (zip_indices ps (map f ps) iss) ≡ ps
unfolding zip_indices
zip_indices-perms f [] iss h = refl
zip_indices-perms f (p ∷ ps) [] h = absurd (omega (arith, h))
zip_indices-perms f (p ∷ ps) (is ∷ iss) h =
    ap (λ l. p ∷ l) (zip_indices-perms f ps iss (omega (arith, h)))

-- What `finish` reports of the loop.
record Reports (x : Bool × Assembly) (o : Output) : Type 0 where
  pub same_failures : o.failures ≡ x.1.failures
  pub same_compiled : o.compiled ≡ x.1.compiled
  pub was_written : x.0 ≡ false → o.written ≡ some o.blob

finish-Reports :
    (libs : CodecLibraries) (deps : List DepInfo) (x : Bool × Assembly) (o : Output) (st : Stats)
    → finish libs deps x ≡ some (o, st)
    → Reports x o
unfolding finish
finish-Reports libs deps (true, a) o st e =
    let q = bind-some (finalize libs a.writer) _ _ e in
    subst (Reports (true, a)) (ap (λ p. p.0) (some-injective _ _ q.2))
      (record { same_failures = refl; same_compiled = refl; was_written = λ h. grind arith })
finish-Reports libs deps (false, a) o st e =
    let q = bind-some (finalize libs (set_dependencies deps a.writer)) _ _ e in
    subst (Reports (false, a)) (ap (λ p. p.0) (some-injective _ _ q.2))
      (record { same_failures = refl; same_compiled = refl; was_written = λ h. refl })

compile_perms-all :
    (libs : CodecLibraries) (env : Environment) (s : Settings) (input : Input)
    (opts : CompileOptions) (perms : List Permutation) (old_blob : Option Bytes) (o : Output)
    (st : Stats)
    → compile_perms libs env s input opts perms old_blob ≡ some (o, st)
    → length o.failures ≡ 0
    → (o.compiled ≡ perms) × (o.written ≡ some o.blob)
unfolding compile_perms
compile_perms-all libs env s input opts perms old_blob o st e h =
    let r = finish-Reports libs _ _ o st e in
    let all = assemble-all s.keep_going _ _ (ap length (sym r.same_failures) ∙ h) in
    (
      r.same_compiled
          ∙ all.1
          ∙ zip_indices-perms _ perms _ (
              length-intern_entries env (map (outcome_of env opts _) perms) []
              ∙ length-map _ perms),
      r.was_written all.0,
    )

-- A run of `compileFile` that gives an output without failures has compiled all the permutations
-- that the file's directives and the command line's ask for, in the order of the expansion, and has
-- written the blob that it gives.
pub compile_file-all :
    (libs : CodecLibraries) (env : Environment) (s : Settings) (input : Input)
    (old_blob : Option Bytes) (o : Output) (st : Stats)
    → compile_file libs env s input old_blob ≡ some (o, st)
    → length o.failures ≡ 0
    → (o.compiled ≡ expand (merged_defines input (env.read input.file))) × (o.written ≡ some o.blob)
unfolding compile_file
compile_file-all libs env s input old_blob o st e h = elim (Bool-cases (is_empty duplicates)) [
  | inr some_twice ↦
      let one =
        ap (λ p. length p.0.failures) (some-injective _ _ (rw (some_twice, compile_file) at e)) in
      absurd (omega (arith, one, h))
  | inl unique ↦
      compile_perms-all libs env s input _ _ old_blob o st (rw (unique, compile_file) at e) h
]
  where
    duplicates : List Bytes
    duplicates =
        find_duplicate_names (map (λ d. d.name) (merged_defines input (env.read input.file)))
