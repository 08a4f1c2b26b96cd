-- ===== src/Batch/Unchanged.antt =====
-- When an entry of the previous blob is reused (src/slangmake_batch.cpp).
use slangmake.Prelude.{
  ℕ, zero, suc, ◌+◌, ◌<◌, ◌≤◌, ◌≡◌, ◌≢◌, ◌↔◌, refl, ap, ◌∙◌, true, Bytes, List, [], ◌∷◌, All,
  get_or, length, some, bytes_eq, bytes_eq_iff, ltb, ltb→lt, lt→ltb, ◌==◌, ==_iff, Bool-cases,
  Option-cases, inl, inr, arith,
}
use native.Mathlib.Decide.{ℕ_discrete, dec_lt}
use slangmake.Permutation.{Permutation, key}
use slangmake.Blob.Reader.{BlobReader, Entry, Dep, entry_count, at, dependencies}
use slangmake.Batch.Surroundings.{Environment, hash_file_contents}
use slangmake.Batch.Reuse.{index_of_key, no_dep, deps_ok, reusable}

-- A dependency that is listed, and whose file hashes as it did.
abbrev pub IsUnchanged : Environment → List Dep → ℕ → Type 0
IsUnchanged env deps i =
    (i < length deps)
    × (hash_file_contents env (get_or deps i no_dep).path ≡ (get_or deps i no_dep).content_hash)

-- What the dependency indices of an entry say. Without any, nothing is compared: the entry passes
-- whatever has become of the files.
pub data DepsPass (env : Environment) (deps : List Dep) : List ℕ → Type 0 where
  unknown : DepsPass env deps []
  unchanged :
      {i : ℕ} {is : List ℕ} → All (IsUnchanged env deps) (i ∷ is) → DepsPass env deps (i ∷ is)

-- The entry `e` is the first of the previous blob that has the permutation's key.
pub record IsReuse (env : Environment) (r : BlobReader) (p : Permutation) (e : Entry) : Type 0 where
  pub index : ℕ
  pub in_blob : index < entry_count r
  pub same_entry : at r index ≡ e
  pub same_key : e.key ≡ key p
  pub no_earlier : (j : ℕ) → j < index → (at r j).key ≢ key p
  pub deps_pass : DepsPass env (dependencies r) e.dep_indices

-- The first of `n` entries from `i` on with the key.
record IsFirst (r : BlobReader) (k : Bytes) (n i j : ℕ) : Type 0 where
  pub from : i ≤ j
  pub below : j < i + n
  pub has_key : (at r j).key ≡ k
  pub before : (m : ℕ) → i ≤ m → m < j → (at r m).key ≢ k

index_of_key-IsFirst :
    (r : BlobReader) (k : Bytes) (n i j : ℕ) → index_of_key r k n i ≡ some j → IsFirst r k n i j
unfolding index_of_key
index_of_key-IsFirst r k zero i j e = cc
index_of_key-IsFirst r k (suc n) i j e = elim (Bool-cases (bytes_eq (at r i).key k)) [
  | inl b ↦
      let same : i ≡ j = cc (rw (b, index_of_key) at e) in
      record {
        from = omega (arith, same);
        below = omega (arith, same);
        has_key = rw (← same) ((bytes_eq_iff (at r i).key k).0 b);
        before = λ m h l. absurd (omega (arith, same, h, l));
      }
  | inr b ↦
      let rest = index_of_key-IsFirst r k n (suc i) j (rw (b, index_of_key) at e) in
      record {
        from = omega (arith, rest.from);
        below = omega (arith, rest.below);
        has_key = rest.has_key;
        before = λ m h l q. elim (dec_lt i m) [
          | yes later ↦ rest.before m (omega (arith, later)) l q
          | no last ↦
              let same : m ≡ i = omega (arith, h, last) in
              absurd cc ((bytes_eq_iff (at r i).key k).1 (rw same at q))
        ];
      }
]

IsFirst-index_of_key :
    (r : BlobReader) (k : Bytes) (n i j : ℕ) → IsFirst r k n i j → index_of_key r k n i ≡ some j
unfolding index_of_key
IsFirst-index_of_key r k zero i j f = absurd (omega (arith, f.from, f.below))
IsFirst-index_of_key r k (suc n) i j f = elim (ℕ_discrete i j) [
  | yes same ↦
      let found : bytes_eq (at r i).key k ≡ true =
        (bytes_eq_iff (at r i).key k).1 (rw same f.has_key) in
      rw (found, index_of_key) (ap some same)
  | no other ↦ elim (Bool-cases (bytes_eq (at r i).key k)) [
    | inl b ↦ absurd (
        f.before i (omega arith) (omega (arith, f.from, other)) ((bytes_eq_iff (at r i).key k).0 b))
    | inr b ↦
        rw (b, index_of_key)
          (IsFirst-index_of_key r k n (suc i) j (record {
            from = omega (arith, f.from, other);
            below = omega (arith, f.below);
            has_key = f.has_key;
            before = λ m h l. f.before m (omega (arith, h)) l;
          }))
  ]
]

deps_ok-IsUnchanged :
    (env : Environment) (deps : List Dep) (is : List ℕ)
    → deps_ok env deps is ≡ true
    → All (IsUnchanged env deps) is
unfolding deps_ok
deps_ok-IsUnchanged env deps [] e = tt
deps_ok-IsUnchanged env deps (i ∷ is) e = elim (Bool-cases (ltb i (length deps))) [
  | inr b ↦ cc (rw (b, deps_ok) at e)
  | inl b ↦
      elim (Bool-cases (
        hash_file_contents env (get_or deps i no_dep).path
        == (get_or deps i no_dep).content_hash)) [
          | inl h ↦ (
            (ltb→lt i (length deps) b, (==_iff _ _).0 h),
            deps_ok-IsUnchanged env deps is (rw (b, h, deps_ok) at e),
          )
          | inr h ↦ cc (rw (b, h, deps_ok) at e)
        ]
]

deps_ok-DepsPass :
    (env : Environment) (deps : List Dep) (is : List ℕ)
    → deps_ok env deps is ≡ true
    → DepsPass env deps is
unfolding deps_ok
deps_ok-DepsPass env deps [] e = unknown
deps_ok-DepsPass env deps (i ∷ is) e = unchanged (deps_ok-IsUnchanged env deps (i ∷ is) e)

IsUnchanged-deps_ok :
    (env : Environment) (deps : List Dep) (is : List ℕ)
    → All (IsUnchanged env deps) is
    → deps_ok env deps is ≡ true
unfolding deps_ok
IsUnchanged-deps_ok env deps [] u = refl
IsUnchanged-deps_ok env deps (i ∷ is) u =
    rw
      (
        lt→ltb i (length deps) u.0.0,
        (==_iff _ _).1 u.0.1,
        IsUnchanged-deps_ok env deps is u.1,
        deps_ok,
      )
      refl

DepsPass-deps_ok :
    (env : Environment) (deps : List Dep) (is : List ℕ)
    → DepsPass env deps is
    → deps_ok env deps is ≡ true
unfolding deps_ok
DepsPass-deps_ok env deps _ unknown = refl
DepsPass-deps_ok env deps _ (unchanged {i} {is} u) = IsUnchanged-deps_ok env deps (i ∷ is) u

module _ (env : Environment) (r : BlobReader) (p : Permutation) (e : Entry) where
  reusable-some : reusable env r p ≡ some e → IsReuse env r p e
  unfolding reusable
  reusable-some h = elim (Option-cases (index_of_key r (key p) (entry_count r) 0)) [
    | inl n ↦ cc (rw (n, reusable) at h)
    | inr (i, n) ↦ elim (Bool-cases (deps_ok env (dependencies r) (at r i).dep_indices)) [
      | inr b ↦ cc (rw (n, b, reusable) at h)
      | inl b ↦
          let same : at r i ≡ e = cc (rw (n, b, reusable) at h) in
          let first = index_of_key-IsFirst r (key p) (entry_count r) 0 i n in
          record {
            index = i;
            in_blob = omega (arith, first.below);
            same_entry = same;
            same_key = rw (← same) first.has_key;
            no_earlier = λ j l. first.before j (omega arith) l;
            deps_pass = rw (← same) (deps_ok-DepsPass env (dependencies r) (at r i).dep_indices b);
          }
    ]
  ]

  IsReuse-reusable : IsReuse env r p e → reusable env r p ≡ some e
  unfolding reusable
  IsReuse-reusable u =
      let found = IsFirst-index_of_key r (key p) (entry_count r) 0 u.index (record {
        from = omega arith;
        below = omega (arith, u.in_blob);
        has_key = ap (λ x. x.key) u.same_entry ∙ u.same_key;
        before = λ m h l. u.no_earlier m l;
      }) in
      rw
        (
          found,
          u.same_entry,
          DepsPass-deps_ok env (dependencies r) e.dep_indices u.deps_pass,
          reusable,
        )
        refl

-- An entry is reused for a permutation exactly where it is the first of the previous blob with the
-- permutation's key and either it has dependency indices, each in the blob's list and with a file
-- that hashes as it did, or it has none, in which case no file is compared.
pub reusable-IsReuse :
    (env : Environment) (r : BlobReader) (p : Permutation) (e : Entry)
    → (reusable env r p ≡ some e) ↔ IsReuse env r p e
reusable-IsReuse env r p e = (reusable-some env r p e, IsReuse-reusable env r p e)
