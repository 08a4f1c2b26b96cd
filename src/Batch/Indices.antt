-- ===== src/Batch/Indices.antt =====
-- The dependency indices of the new entries stand for their paths.
use slangmake.Prelude.{
  ℕ, suc, ◌+◌, ◌^◌, ◌<◌, ◌≤◌, ◌≡◌, refl, ap, ◌∙◌, sym, true, false, Bytes, List, [], ◌∷◌, ◌++◌,
  append-nil, append_assoc, All, All-append, get_or, get_or-append_left, get_or-length_append,
  length, length-append, some, bytes_eq, bytes_eq_iff, if◌then◌else◌, Bool-cases, Option-cases, inl,
  inr, arith,
}
use slangmake.Blob.Writer.Layout.{DepInfo, u32}
use slangmake.Batch.Surroundings.{Environment, Outcome, hash_file_contents}
use slangmake.Batch.Deps.{index_of_path, intern_dep, intern_paths, intern_entries}

abbrev pub no_info : DepInfo
no_info = record { path = []; content_hash = 0 }

-- Each index is that of a dependency with the path at the same place.
abbrev pub Indexes : List DepInfo → List ℕ → List Bytes → Type 0
Indexes deps [] [] = Unit {0}
Indexes deps (i ∷ is) (p ∷ ps) =
    ((i < length deps) × ((get_or deps i no_info).path ≡ p)) × Indexes deps is ps
Indexes deps _ _ = true ≡ false

abbrev pub IndexesAll : List DepInfo → List (List ℕ) → List Outcome → Type 0
IndexesAll deps [] [] = Unit {0}
IndexesAll deps (is ∷ iss) (o ∷ os) =
    Indexes deps is (if o.result.success then o.dep_paths else []) × IndexesAll deps iss os
IndexesAll deps _ _ = true ≡ false

-- The hash on record is that of the file.
abbrev pub IsRecorded : Environment → DepInfo → Type 0
IsRecorded env d = d.content_hash ≡ hash_file_contents env d.path

abbrev Grows : List DepInfo → List DepInfo → Type 0
Grows deps deps' = (more : List DepInfo) × (deps' ≡ deps ++ more)

Grows-trans : (a b c : List DepInfo) → Grows a b → Grows b c → Grows a c
Grows-trans a b c (m, e) (n, f) = (m ++ n, f ∙ ap (λ t. t ++ n) e ∙ append_assoc a m n)

Grows-le : (a b : List DepInfo) → Grows a b → length a ≤ length b
Grows-le a b (m, e) = omega (arith, ap length e, length-append a m)

Indexes-append :
    (deps more : List DepInfo) (is : List ℕ) (ps : List Bytes)
    → Indexes deps is ps
    → Indexes (deps ++ more) is ps
Indexes-append deps more [] [] h = tt
Indexes-append deps more [] (p ∷ ps) h = cc
Indexes-append deps more (i ∷ is) [] h = cc
Indexes-append deps more (i ∷ is) (p ∷ ps) h = (
  (
    omega (arith, h.0.0, length-append deps more),
    ap (λ d. d.path) (get_or-append_left deps more i no_info h.0.0) ∙ h.0.1,
  ),
  Indexes-append deps more is ps h.1,
)

Indexes-Grows :
    (deps deps' : List DepInfo) (is : List ℕ) (ps : List Bytes)
    → Grows deps deps'
    → Indexes deps is ps
    → Indexes deps' is ps
Indexes-Grows deps deps' is ps (m, e) h = rw e (Indexes-append deps m is ps h)

index_of_path-some :
    (p : Bytes) (i j : ℕ) (deps : List DepInfo)
    → index_of_path p i deps ≡ some j
    → (k : ℕ) × ((j ≡ i + k) × ((k < length deps) × ((get_or deps k no_info).path ≡ p)))
unfolding index_of_path
index_of_path-some p i j [] e = cc
index_of_path-some p i j (d ∷ deps) e = elim (Bool-cases (bytes_eq d.path p)) [
  | inl b ↦
      let same : i ≡ j = cc (rw (b, index_of_path) at e) in
      (0, (omega (arith, same), (omega arith, (bytes_eq_iff d.path p).0 b)))
  | inr b ↦
      let (k, (f, (l, h))) = index_of_path-some p (suc i) j deps (rw (b, index_of_path) at e) in
      (suc k, (omega (arith, f), (omega (arith, l), h)))
]

-- What a step of the interning keeps and gives.
record Interned (env : Environment) (deps deps' : List DepInfo) : Type 0 where
  grows : Grows deps deps'
  recorded : All (IsRecorded env) deps → All (IsRecorded env) deps'

Interned-trans :
    {env : Environment} (a b c : List DepInfo)
    → Interned env a b
    → Interned env b c
    → Interned env a c
Interned-trans a b c h k = record {
  grows = Grows-trans a b c h.grows k.grows;
  recorded = λ r. k.recorded (h.recorded r);
}

intern_dep-Interned :
    (env : Environment) (p : Bytes) (deps : List DepInfo)
    → length (intern_dep env p deps).1 < 2 ^ 32
    → Interned env deps (intern_dep env p deps).1
      × Indexes (intern_dep env p deps).1 ((intern_dep env p deps).0 ∷ []) (p ∷ [])
unfolding intern_dep
intern_dep-Interned env p deps small = elim (Option-cases (index_of_path p 0 deps)) [
  | inr (j, e) ↦
      let (k, (f, (l, h))) = index_of_path-some p 0 j deps e in
      let g : k ≡ j = omega (arith, f) in
      rw (e, intern_dep)
        (
          record { grows = ([], sym (append-nil deps)); recorded = λ r. r },
          ((omega (arith, l, g), rw (← g) h), tt),
        )
  | inl e ↦
      let d : DepInfo = record { path = p; content_hash = hash_file_contents env p } in
      let l : length (deps ++ (d ∷ [])) ≡ length deps + 1 = length-append deps (d ∷ []) in
      let fits : length (deps ++ (d ∷ [])) < 2 ^ 32 = rw (e, intern_dep) at small in
      let n : u32 (length deps) ≡ length deps = omega (arith, l, fits) in
      rw (e, intern_dep)
        (
          record {
            grows = (d ∷ [], refl);
            recorded = λ r. All-append (IsRecorded env) deps (d ∷ []) r (refl, tt);
          },
          rw n ((omega (arith, l), ap (λ x. x.path) (get_or-length_append deps d [] no_info)), tt),
        )
]

intern_paths-Interned :
    (env : Environment) (ps : List Bytes) (deps : List DepInfo)
    → length (intern_paths env ps deps).1 < 2 ^ 32
    → Interned env deps (intern_paths env ps deps).1
      × Indexes (intern_paths env ps deps).1 (intern_paths env ps deps).0 ps
unfolding intern_paths
intern_paths-Interned env [] deps small =
    (record { grows = ([], sym (append-nil deps)); recorded = λ r. r }, tt)
intern_paths-Interned env (p ∷ ps) deps small =
    let deps1 = (intern_dep env p deps).1 in
    let (later, rest) = intern_paths-Interned env ps deps1 small in
    let (now, here) =
      intern_dep-Interned env p deps (omega (arith, small, Grows-le deps1 _ later.grows)) in
    let kept : Indexes (intern_paths env ps deps1).1 ((intern_dep env p deps).0 ∷ []) (p ∷ []) =
      Indexes-Grows deps1 _ ((intern_dep env p deps).0 ∷ []) (p ∷ []) later.grows here in
    (Interned-trans deps deps1 _ now later, (kept.0, rest))

intern_entries-Interned :
    (env : Environment) (os : List Outcome) (deps : List DepInfo)
    → length (intern_entries env os deps).1 < 2 ^ 32
    → Interned env deps (intern_entries env os deps).1
      × IndexesAll (intern_entries env os deps).1 (intern_entries env os deps).0 os
unfolding intern_entries
intern_entries-Interned env [] deps small =
    (record { grows = ([], sym (append-nil deps)); recorded = λ r. r }, tt)
intern_entries-Interned env (o ∷ os) deps small =
    let ps = if o.result.success then o.dep_paths else [] in
    let deps1 = (intern_paths env ps deps).1 in
    let (later, rest) = intern_entries-Interned env os deps1 small in
    let (now, here) =
      intern_paths-Interned env ps deps (omega (arith, small, Grows-le deps1 _ later.grows)) in
    (
      Interned-trans deps deps1 _ now later,
      (Indexes-Grows deps1 _ (intern_paths env ps deps).0 ps later.grows here, rest),
    )

-- With less than 2 ^ 32 dependencies, the indices of each permutation that did not fail stand for its
-- paths, in order, a failed one has none, and the hash on record for a path is that of its file.
pub intern_entries-Indexes :
    (env : Environment) (os : List Outcome)
    → length (intern_entries env os []).1 < 2 ^ 32
    → IndexesAll (intern_entries env os []).1 (intern_entries env os []).0 os
      × All (IsRecorded env) (intern_entries env os []).1
intern_entries-Indexes env os small =
    let (now, here) = intern_entries-Interned env os [] small in (here, now.recorded tt)
