-- ===== src/Reflection/Walk/Unvisited.antt =====
-- How many objects a walk has not met.
use slangmake.Prelude.{
  ℕ, zero, suc, ◌+◌, ◌≤◌, ◌<◌, ◌≡◌, refl, ap, inl, inr, List, ◌∷◌, Option, none, some, arith,
  Bool-cases, ==_iff, ◌==◌,
}
use native.Mathlib.Decide.{dec_lt}
use slangmake.Reflection.Walk.State.{Walk, find_index}

abbrev unknown : Option ℕ → ℕ
unknown none = 1
unknown (some i) = 0

-- How many of the pointers below `n` the map does not have.
abbrev pub missing : ℕ → List (ℕ × ℕ) → ℕ
missing zero known = 0
missing (suc n) known = missing n known + unknown (find_index n known)

unknown-le : (o : Option ℕ) → unknown o ≤ 1
unknown-le none = omega arith
unknown-le (some i) = omega arith

find_index-cons :
    (p i q : ℕ) (known : List (ℕ × ℕ))
    → unknown (find_index q ((p, i) ∷ known)) ≤ unknown (find_index q known)
unfolding find_index
find_index-cons p i q known = elim (Bool-cases (p == q)) [
  | inl e ↦ rw e (omega arith)
  | inr e ↦ rw e (omega arith)
]

missing-cons-le : (n p i : ℕ) (known : List (ℕ × ℕ)) → missing n ((p, i) ∷ known) ≤ missing n known
missing-cons-le zero p i known = omega arith
missing-cons-le (suc n) p i known =
    omega (arith, missing-cons-le n p i known, find_index-cons p i n known)

found_first :
    (n p i : ℕ) (known : List (ℕ × ℕ)) → p ≡ n → unknown (find_index n ((p, i) ∷ known)) ≡ 0
unfolding find_index
found_first n p i known same = let e = (==_iff p n).1 same in rw e refl

pub missing-cons :
    (n p i : ℕ) (known : List (ℕ × ℕ))
    → p < n
    → find_index p known ≡ none
    → missing n ((p, i) ∷ known) < missing n known
missing-cons zero p i known h e = absurd (omega arith)
missing-cons (suc n) p i known h e = elim (dec_lt p n) [
  | Dec.yes l ↦ omega (arith, missing-cons n p i known l e, find_index-cons p i n known)
  | Dec.no l ↦
      let same : p ≡ n = omega (arith, h, l) in
      let before : find_index n known ≡ none = rw (← same) e in
      omega (arith, missing-cons-le n p i known, ap unknown before, found_first n p i known same)
]

-- How many objects the walk has not met, where pointers are below `n`.
abbrev pub unvisited : ℕ → Walk → ℕ
unvisited n w =
    missing n w.type_idx
    + missing n w.type_layout_idx
    + missing n w.var_idx
    + missing n w.var_layout_idx
    + missing n w.func_idx
    + missing n w.generic_idx
    + missing n w.decl_idx
