-- ===== src/Blob/Sharing.antt =====
-- The canonical index of a payload is the index of an equal payload, not behind it.
use slangmake.Prelude.{
  ℕ, zero, suc, ◌+◌, ◌≤◌, ◌<◌, ◌≡◌, inl, inr, Bytes, List, [], ◌∷◌, some, get_or, length, All,
  is_empty, bytes_eq_iff, arith, Bool-cases, Option-cases,
}
use slangmake.Hash.{fnv_offset, fnv1a_mix}
use slangmake.Blob.Writer.Dedup.{find_hash, emplace, earlier, dedup_step, dedup_from, dedup}

abbrev IsBelow : ℕ → List (ℕ × ℕ) → Type 0
IsBelow i seen = All (λ (e : ℕ × ℕ). e.1 < i) seen

IsBelow-suc : (i : ℕ) (seen : List (ℕ × ℕ)) → IsBelow i seen → IsBelow (suc i) seen
IsBelow-suc i [] b = tt
IsBelow-suc i (e ∷ seen) b = (omega (arith, b.0), IsBelow-suc i seen b.1)

find_hash-lt :
    (h i j : ℕ) (seen : List (ℕ × ℕ)) → IsBelow i seen → find_hash h seen ≡ some j → j < i
unfolding find_hash
find_hash-lt h i j [] b e = cc
find_hash-lt h i j ((k, l) ∷ seen) b e = ground (arith, find_hash-lt h i j seen b.1)

emplace-IsBelow :
    (h i : ℕ) (seen : List (ℕ × ℕ)) → IsBelow i seen → IsBelow (suc i) (emplace h i seen)
unfolding emplace
emplace-IsBelow h i seen b = elim (Option-cases (find_hash h seen)) [
  | inl e ↦ rw (e, emplace) (omega arith, IsBelow-suc i seen b)
  | inr (j, e) ↦ rw (e, emplace) (IsBelow-suc i seen b)
]

-- `c` is the index of a payload equal to `p`, at most `i`.
pub record Shares (payloads : List Bytes) (i : ℕ) (p : Bytes) (c : ℕ) : Type 0 where
  pub le : c ≤ i
  pub same : get_or payloads c [] ≡ p

earlier-some :
    (payloads : List Bytes) (p : Bytes) (seen : List (ℕ × ℕ)) (i j : ℕ)
    → IsBelow i seen
    → earlier payloads p seen ≡ some j
    → (j < i) × (get_or payloads j [] ≡ p)
unfolding earlier
earlier-some payloads p seen i j b e =
    elim (Option-cases (find_hash (fnv1a_mix fnv_offset p) seen)) [
      | inl f ↦ cc (rw (f, earlier) at e)
      | inr (l, f) ↦ earlier_at l f
    ]
  where
    earlier_at :
        (l : ℕ)
        → find_hash (fnv1a_mix fnv_offset p) seen ≡ some l
        → (j < i) × (get_or payloads j [] ≡ p)
    earlier_at l f =
        let g = rw (f, earlier) at e in
        ground (
          arith,
          g,
          bytes_eq_iff (get_or payloads l []) p,
          find_hash-lt (fnv1a_mix fnv_offset p) i l seen b f,
        )

module _ (payloads : List Bytes) (p : Bytes) (i : ℕ) (here : get_or payloads i [] ≡ p)
    (seen : List (ℕ × ℕ)) (b : IsBelow i seen) where
  dedup_step-Shares :
      Shares payloads i p (dedup_step payloads i p seen).0
      × IsBelow (suc i) (dedup_step payloads i p seen).1
  unfolding dedup_step
  dedup_step-Shares = elim (Bool-cases (is_empty p)) [
    | inl e ↦ rw e (record { le = omega arith; same = here }, IsBelow-suc i seen b)
    | inr e ↦ rw e (elim (Option-cases (earlier payloads p seen)) [
      | inl f ↦ rw f (record { le = omega arith; same = here }, emplace-IsBelow _ i seen b)
      | inr (j, f) ↦
          let (lt, same) = earlier-some payloads p seen i j b f in
          rw f (record { le = omega (arith, lt); same = same }, IsBelow-suc i seen b)
    ])
  ]

dedup_from-Shares :
    (payloads : List Bytes) (i : ℕ) (ps : List Bytes) (seen : List (ℕ × ℕ)) (j : ℕ)
    → ((k : ℕ) → get_or payloads (i + k) [] ≡ get_or ps k [])
    → IsBelow i seen
    → j < length ps
    → Shares payloads
        (i + j)
        (get_or payloads (i + j) [])
        (get_or (dedup_from payloads i ps seen) j 0)
unfolding dedup_from
dedup_from-Shares payloads i [] seen j same b h = elim h [ ]
dedup_from-Shares payloads i (p ∷ ps) seen zero same b h =
    let e : i + 0 ≡ i = omega arith in
    let here = rw e at (same 0) in rw (e, here) (dedup_step-Shares payloads p i here seen b).0
dedup_from-Shares payloads i (p ∷ ps) seen (suc j) same b h =
    let e : i + suc j ≡ suc i + j = omega arith in
    rw e (
      dedup_from-Shares payloads (suc i) ps _ j
        (λ k. let f : suc i + k ≡ i + suc k = omega arith in rw f (same (suc k)))
        (dedup_step-Shares payloads p i (let f : i + 0 ≡ i = omega arith in rw f at (same 0)) seen
          b).1
        (omega arith))

-- The canonical index of a payload is at most its own, and the payload there is the same bytes,
-- whatever the hashes are.
pub dedup-Shares :
    (payloads : List Bytes) (j : ℕ)
    → j < length payloads
    → Shares payloads j (get_or payloads j []) (get_or (dedup payloads) j 0)
unfolding dedup
dedup-Shares payloads j h =
    let e : 0 + j ≡ j = omega arith in
    rw e at (
      dedup_from-Shares payloads 0 payloads [] j (λ k. let f : 0 + k ≡ k = omega arith in rw f) tt
        h)
