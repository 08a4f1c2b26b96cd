-- ===== src/Batch/Directory/Written.antt =====
-- What a run over a directory leaves in the files.
use slangmake.Prelude.{
  ◌≡◌, ◌≢◌, refl, ap, ◌∙◌, sym, true, false, Bytes, bytes_eq, bytes_eq_iff, List, [], ◌∷◌, All,
  Option, none, some, bind-some, is_empty, length, Bool-cases, inl, inr, arith,
}
use mathlib.Core.Path.{subst}
use mathlib.Core.Option.{some-injective}
use slangmake.Batch.{Output, Stats, compile_file}
use slangmake.Batch.Success.{compile_file-all}
use slangmake.Batch.Directory.{
  Files, store, DirEntry, Directory, is_shader, compile_shader, compile_directory, exit_code,
}

-- One output for each shader, in order, whose blob is in the file at its path.
pub data Wrote (d : Directory) (files : Files) : List DirEntry → List Output → Type 0 where
  ended : Wrote d files [] []
  skipped :
      {e : DirEntry} {es : List DirEntry} {os : List Output}
      → is_shader d e ≡ false
      → Wrote d files es os
      → Wrote d files (e ∷ es) os
  wrote :
      {e : DirEntry} {es : List DirEntry} {o : Output} {os : List Output}
      → is_shader d e ≡ true
      → files (d.out_path e.path) ≡ some o.blob
      → Wrote d files es os
      → Wrote d files (e ∷ es) (o ∷ os)

-- The output paths differ.
abbrev pub Apart : Directory → List DirEntry → Type 0
Apart d [] = Unit {0}
Apart d (e ∷ es) = All (λ f. d.out_path f.path ≢ d.out_path e.path) es × Apart d es

store-same : (p : Bytes) (b : Bytes) (files : Files) → store p (some b) files p ≡ some b
unfolding store
store-same p b files = rw ((bytes_eq_iff p p).1 refl)

store-other : (p q : Bytes) (o : Option Bytes) (files : Files) → p ≢ q → store p o files q ≡ files q
unfolding store
store-other p q none files n = refl
store-other p q (some b) files n = elim (Bool-cases (bytes_eq p q)) [
  | inl same ↦ absurd (n ((bytes_eq_iff p q).0 same))
  | inr other ↦ rw other
]

-- The file and the output of one shader.
data Shader (d : Directory) (path : Bytes) (files : Files) (o : Output) : Files → Type 0 where
  compiled :
      {st : Stats}
      → compile_file d.libs
          (record { read = files; compile = d.compile })
          d.settings
          (record { file = path; options = d.base; cli_override = d.cli_override })
          (files (d.out_path path))
        ≡ some (o, st)
      → Shader d path files o (store (d.out_path path) o.written files)

compile_shader-Shader :
    (d : Directory) (path : Bytes) (files files' : Files) (o : Output)
    → compile_shader d path files ≡ some (o, files')
    → Shader d path files o files'
unfolding compile_shader
compile_shader-Shader d path files files' o e =
    let q = bind-some (compile_file d.libs _ d.settings _ _) _ _ e in
    let same = some-injective _ _ q.2 in
    subst (λ r. Shader d path files r.0 r.1) same (compiled {st = q.0.1} q.1)

data Split (d : Directory) (f : DirEntry) (es : List DirEntry) (files : Files)
    : List Output → Files → Type 0 where
  split :
      {o : Output} {files1 files' : Files} {os : List Output}
      → Shader d f.path files o files1
      → compile_directory d es files1 ≡ some (os, files')
      → Split d f es files (o ∷ os) files'

compile_directory-Split :
    (d : Directory) (f : DirEntry) (es : List DirEntry) (files files' : Files) (os : List Output)
    → is_shader d f ≡ true
    → compile_directory d (f ∷ es) files ≡ some (os, files')
    → Split d f es files os files'
unfolding compile_directory
compile_directory-Split d f es files files' os b e =
    let x = bind-some (compile_shader d f.path files) _ _ (rw (b, compile_directory) at e) in
    let y = bind-some (compile_directory d es x.0.1) _ _ x.2 in
    subst (λ r. Split d f es files r.0 r.1) (some-injective _ _ y.2)
      (split (compile_shader-Shader d f.path files x.0.1 x.0.0 x.1) y.1)

-- A path that no entry writes keeps its file.
compile_directory-kept :
    (d : Directory) (p : Bytes) (es : List DirEntry) (files files' : Files) (os : List Output)
    → compile_directory d es files ≡ some (os, files')
    → All (λ f. d.out_path f.path ≢ p) es
    → files' p ≡ files p
unfolding compile_directory
compile_directory-kept d p [] files files' os e n = ap (λ q. q.1 p) (some-injective _ _ (sym e))
compile_directory-kept d p (f ∷ es) files files' os e n = elim (Bool-cases (is_shader d f)) [
  | inr b ↦ compile_directory-kept d p es files files' os (rw (b, compile_directory) at e) n.1
  | inl b ↦
      behind (compile_directory-Split d f es files files' os b e)
        (λ files1 rs rest. compile_directory-kept d p es files1 files' rs rest n.1)
]
  where
    behind :
        {rs : List Output}
        → Split d f es files rs files'
        → ((files1 : Files) (rs : List Output)
            → compile_directory d es files1 ≡ some (rs, files')
            → files' p ≡ files1 p)
        → files' p ≡ files p
    behind (split {os = rs} (compiled {st} c) rest) kept =
        kept _ rs rest ∙ store-other (d.out_path f.path) p _ files n.0

exit_code-all :
    (o : Output) (os : List Output)
    → exit_code (o ∷ os) ≡ 0
    → (length o.failures ≡ 0) × (exit_code os ≡ 0)
unfolding exit_code
exit_code-all o os h = elim (Bool-cases (is_empty o.failures)) [
  | inl b ↦ (no_failure o.failures b, rw (b, exit_code) at h)
  | inr b ↦ absurd (omega (arith, rw (b, exit_code) at h))
]
  where
    no_failure : (fs : List Bytes) → is_empty fs ≡ true → length fs ≡ 0
    no_failure [] e = refl
    no_failure (f ∷ fs) e = absurd (grind arith)

-- When the run over a directory ends and `main` returns 0, and the output paths of the entries
-- differ, there is one output for each shader, in order, and its blob is in the file at its path.
pub compile_directory-Wrote :
    (d : Directory) (es : List DirEntry) (files files' : Files) (os : List Output)
    → compile_directory d es files ≡ some (os, files')
    → Apart d es
    → exit_code os ≡ 0
    → Wrote d files' es os
unfolding compile_directory
compile_directory-Wrote d [] files files' os e a h =
    subst (Wrote d files' []) (ap (λ q. q.0) (some-injective _ _ e)) ended
compile_directory-Wrote d (f ∷ es) files files' os e a h = elim (Bool-cases (is_shader d f)) [
  | inr b ↦
      skipped b
        (compile_directory-Wrote d es files files' os (rw (b, compile_directory) at e) a.1 h)
  | inl b ↦
      behind b (compile_directory-Split d f es files files' os b e) h
        (λ files1 rs rest h1. compile_directory-Wrote d es files1 files' rs rest a.1 h1)
]
  where
    behind :
        {rs : List Output}
        → is_shader d f ≡ true
        → Split d f es files rs files'
        → exit_code rs ≡ 0
        → ((files1 : Files) (rs : List Output)
            → compile_directory d es files1 ≡ some (rs, files')
            → exit_code rs ≡ 0
            → Wrote d files' es rs)
        → Wrote d files' (f ∷ es) rs
    behind b (split {o} {os = rs} (compiled {st} c) rest) h behind_rest =
        let both = exit_code-all o rs h in
        let done = compile_file-all d.libs _ d.settings _ _ o st c both.0 in
        wrote b
          (compile_directory-kept d (d.out_path f.path) es _ files' rs rest a.0
            ∙ ap (λ w. store (d.out_path f.path) w files (d.out_path f.path)) done.1
            ∙ store-same (d.out_path f.path) o.blob files)
          (behind_rest _ rs rest both.1)
