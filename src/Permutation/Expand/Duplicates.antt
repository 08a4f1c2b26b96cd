-- ===== src/Permutation/Expand/Duplicates.antt =====
-- What `findDuplicateAxisNames` reports.
use slangmake.Prelude.{
  ℕ, ◌+◌, ◌≡◌, refl, ap, ◌∙◌, sym, Bool, true, false, Bytes, bytes_eq, bytes_eq_iff, bytes_eq_sym,
  bytes_lt, List, [], ◌∷◌, if◌then◌else◌, ltb, Bool-cases, inl, inr, arith, All,
}
use slangmake.Prelude.Sort.{insert, sort}
use slangmake.Permutation.Expand.{
  increment, count_names, repeated, bytes_order, find_duplicate_names,
}

-- How often a name occurs.
abbrev pub occurrences : Bytes → List Bytes → ℕ
occurrences n [] = 0
occurrences n (m ∷ ms) = if bytes_eq m n then 1 + occurrences n ms else occurrences n ms

-- What the map holds for a name; 0 for a missing one.
abbrev pub count_of : Bytes → List (Bytes × ℕ) → ℕ
count_of n [] = 0
count_of n ((m, c) ∷ counts) = if bytes_eq m n then c else count_of n counts

-- No entry of the map has the name.
abbrev Fresh : Bytes → List (Bytes × ℕ) → Type 0
Fresh n = All (λ (e : Bytes × ℕ). bytes_eq e.0 n ≡ false)

abbrev Distinct : List (Bytes × ℕ) → Type 0
Distinct [] = Unit {0}
Distinct (e ∷ counts) = Fresh e.0 counts × Distinct counts

count_of-increment :
    (n m : Bytes) (counts : List (Bytes × ℕ))
    → count_of n (increment m counts) ≡ count_of n counts + (if bytes_eq m n then 1 else 0)
unfolding increment
count_of-increment n m [] = omega arith
count_of-increment n m ((k, c) ∷ counts) = elim (Bool-cases (bytes_eq k m)) [
  | inl b ↦
      let same : bytes_eq m n ≡ bytes_eq k n =
        ap (λ x. bytes_eq x n) (sym ((bytes_eq_iff k m).0 b)) in
      rw (b, same)
        (elim (Bool-cases (bytes_eq k n)) [ inl e ↦ rw e refl | inr e ↦ rw e (omega arith) ])
  | inr b ↦ rw b (elim (Bool-cases (bytes_eq k n)) [
    | inl e ↦
        let other : bytes_eq m n ≡ false = bytes_eq_sym n m (rw ((bytes_eq_iff k n).0 e) at b) in
        rw (e, other) (omega arith)
    | inr e ↦ rw e (count_of-increment n m counts)
  ])
]

pub count_of-count_names :
    (n : Bytes) (names : List Bytes) (counts : List (Bytes × ℕ))
    → count_of n (count_names names counts) ≡ count_of n counts + occurrences n names
unfolding count_names
count_of-count_names n [] counts = omega arith
count_of-count_names n (m ∷ names) counts =
    count_of-count_names n names (increment m counts) ∙ elim (Bool-cases (bytes_eq m n)) [
      | inl b ↦ rw (b, count_of-increment n m counts) (rw b (omega arith))
      | inr b ↦ rw (b, count_of-increment n m counts) (rw b (omega arith))
    ]

increment-Fresh :
    (k m : Bytes) (counts : List (Bytes × ℕ))
    → Fresh k counts
    → bytes_eq m k ≡ false
    → Fresh k (increment m counts)
unfolding increment
increment-Fresh k m [] h e = (e, tt)
increment-Fresh k m ((l, c) ∷ counts) h e = elim (Bool-cases (bytes_eq l m)) [
  | inl b ↦ rw b (h.0, h.1)
  | inr b ↦ rw b (h.0, increment-Fresh k m counts h.1 e)
]

increment-Distinct :
    (m : Bytes) (counts : List (Bytes × ℕ)) → Distinct counts → Distinct (increment m counts)
unfolding increment
increment-Distinct m [] h = (tt, tt)
increment-Distinct m ((l, c) ∷ counts) h = elim (Bool-cases (bytes_eq l m)) [
  | inl b ↦ rw b (h.0, h.1)
  | inr b ↦
      rw b (increment-Fresh l m counts h.0 (bytes_eq_sym l m b), increment-Distinct m counts h.1)
]

count_names-Distinct :
    (names : List Bytes) (counts : List (Bytes × ℕ))
    → Distinct counts
    → Distinct (count_names names counts)
unfolding count_names
count_names-Distinct [] counts h = h
count_names-Distinct (n ∷ names) counts h =
    count_names-Distinct names (increment n counts) (increment-Distinct n counts h)

repeated-Fresh :
    (n : Bytes) (counts : List (Bytes × ℕ)) → Fresh n counts → occurrences n (repeated counts) ≡ 0
unfolding repeated
repeated-Fresh n [] h = refl
repeated-Fresh n ((m, c) ∷ counts) h = elim (Bool-cases (ltb 1 c)) [
  | inl b ↦ rw (b, h.0) (repeated-Fresh n counts h.1)
  | inr b ↦ rw b (repeated-Fresh n counts h.1)
]

abbrev once : Bool → ℕ
once b = if b then 1 else 0

occurrences-repeated :
    (n : Bytes) (counts : List (Bytes × ℕ))
    → Distinct counts
    → occurrences n (repeated counts) ≡ once (ltb 1 (count_of n counts))
unfolding repeated
occurrences-repeated n [] h = refl
occurrences-repeated n ((m, c) ∷ counts) h = elim (Bool-cases (bytes_eq m n)) [
  | inl e ↦
      let rest : occurrences n (repeated counts) ≡ 0 =
        repeated-Fresh n counts (rw ((bytes_eq_iff m n).0 e) at h.0) in
      rw e
        (elim (Bool-cases (ltb 1 c)) [ inl b ↦ rw (b, e, rest) refl | inr b ↦ rw (b, rest) refl ])
  | inr e ↦ rw e (elim (Bool-cases (ltb 1 c)) [
    | inl b ↦ rw (b, e) (occurrences-repeated n counts h.1)
    | inr b ↦ rw b (occurrences-repeated n counts h.1)
  ])
]

swap_tests :
    (a b : Bool) (k : ℕ)
    → (if a then 1 + (if b then 1 + k else k) else (if b then 1 + k else k))
      ≡ (if b then 1 + (if a then 1 + k else k) else (if a then 1 + k else k))
swap_tests true true k = refl
swap_tests true false k = refl
swap_tests false true k = refl
swap_tests false false k = refl

occurrences-insert :
    (n x : Bytes) (l : List Bytes) → occurrences n (insert bytes_order x l) ≡ occurrences n (x ∷ l)
unfolding insert
occurrences-insert n x [] = refl
occurrences-insert n x (y ∷ l) = elim (Bool-cases (bytes_lt y x)) [
  | inl b ↦ rw b (
      ap (λ k. if bytes_eq y n then 1 + k else k) (occurrences-insert n x l)
      ∙ swap_tests (bytes_eq y n) (bytes_eq x n) (occurrences n l))
  | inr b ↦ rw b refl
]

occurrences-sort :
    (n : Bytes) (l : List Bytes) → occurrences n (sort bytes_order l) ≡ occurrences n l
unfolding sort
occurrences-sort n [] = refl
occurrences-sort n (x ∷ l) =
    occurrences-insert n x (sort bytes_order l)
    ∙ ap (λ k. if bytes_eq x n then 1 + k else k) (occurrences-sort n l)

-- A name is reported once if it occurs more than once among the axes, and not at all otherwise.
pub occurrences-find_duplicate_names :
    (n : Bytes) (names : List Bytes)
    → occurrences n (find_duplicate_names names) ≡ (if ltb 1 (occurrences n names) then 1 else 0)
unfolding find_duplicate_names
occurrences-find_duplicate_names n names =
    occurrences-sort n (repeated (count_names names []))
    ∙ occurrences-repeated n (count_names names []) (count_names-Distinct names [] tt)
    ∙ ap (λ c. once (ltb 1 c)) (count_of-count_names n names [] ∙ omega arith)
