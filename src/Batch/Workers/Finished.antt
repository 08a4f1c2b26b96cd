-- ===== src/Batch/Workers/Finished.antt =====
-- When the threads have stopped, in whatever order they ran, the results are those of the loop of a
-- single thread.
use slangmake.Prelude.{
  ℕ, zero, suc, ◌<◌, ◌≤◌, ◌≡◌, refl, sym, ◌∙◌, ◌⊎◌, inl, inr, List, [], ◌∷◌, get_or, length, arith,
}
use native.Mathlib.Decide.{dec_lt, ℕ_discrete}
use slangmake.Batch.Workers.{
  put, compiling, stopped, Pool, job, Step, fetch, leave, write, spawned, Reach, begin, later,
  sequential,
}

module _ {A : Type 0} (compile : ℕ → A) (to_compile : List ℕ) (n : ℕ) (results : ℕ → A) where
  -- The index `i` is one of the jobs before `m`.
  abbrev Among : ℕ → ℕ → Type 0
  Among m i = (k : ℕ) × (k < m) × (k < length to_compile) × (job compile to_compile k ≡ i)

  record Inv (s : Pool compile to_compile) : Type 0 where
    -- a slot is as it was, or has the result of its own permutation
    written : (i : ℕ) → (s.results i ≡ results i) ⊎ ((s.results i ≡ compile i) × Among s.next_idx i)
    -- a job that was fetched is in work or done
    fetched :
        (k : ℕ)
        → k < s.next_idx
        → k < length to_compile
        → ((t : ℕ) × (t < n) × (s.threads t ≡ compiling k))
          ⊎ (s.results (job compile to_compile k) ≡ compile (job compile to_compile k))
    working : (t k : ℕ) → s.threads t ≡ compiling k → (k < s.next_idx) × (k < length to_compile)
    ended : (t : ℕ) → s.threads t ≡ stopped → length to_compile ≤ s.next_idx

  Inv-spawned : Inv (spawned compile to_compile results)
  Inv-spawned = record {
    written = λ i. inl refl;
    fetched = λ k h l. absurd (omega arith);
    working = λ t k e. cc;
    ended = λ t e. cc;
  }

  Step-Inv : {s s' : Pool compile to_compile} → Step compile to_compile n s s' → Inv s → Inv s'
  Step-Inv {s} (fetch t l e h) inv = record {
    written = λ i. ground (arith, inv.written i);
    fetched = λ k p q. elim (dec_lt k s.next_idx) [
      | yes before ↦ elim (inv.fetched k before q) [
        | inl (u, lu, eu) ↦ inl (u, lu, ground arith)
        | inr done ↦ inr done
      ]
      | no last ↦ inl (t, l, ground arith)
    ];
    working = λ u k p. ground (arith, inv.working u k);
    ended = λ u p. ground (arith, inv.ended u);
  }
  Step-Inv {s} (leave t l e h) inv = record {
    written = λ i. ground (arith, inv.written i);
    fetched = λ k p q. elim (inv.fetched k (omega (arith, h, q)) q) [
      | inl (u, lu, eu) ↦ inl (u, lu, ground arith)
      | inr done ↦ inr done
    ];
    working = λ u k p. ground (arith, inv.working u k);
    ended = λ u p. ground (arith, inv.ended u);
  }
  Step-Inv {s} (write t {k} l e) inv = record {
    written = λ i. elim (ℕ_discrete (job compile to_compile k) i) [
      | yes same ↦ let (p, q) = inv.working t k e in inr (ground arith, (k, p, q, same))
      | no other ↦ ground (arith, inv.written i)
    ];
    fetched = λ j p q. elim (ℕ_discrete (job compile to_compile k) (job compile to_compile j)) [
      | yes same ↦ inr (ground arith)
      | no other ↦ elim (inv.fetched j p q) [
        | inl (u, lu, eu) ↦ inl (u, lu, ground arith)
        | inr done ↦ inr (ground arith)
      ]
    ];
    working = λ u j p. ground (arith, inv.working u j);
    ended = λ u p. ground (arith, inv.ended u);
  }

  Reach-Inv :
      {steps : ℕ} {s : Pool compile to_compile} → Reach compile to_compile n results steps s → Inv s
  Reach-Inv begin = Inv-spawned
  Reach-Inv (later r st) = Step-Inv st (Reach-Inv r)

module _ {A : Type 0} (compile : ℕ → A) where
  sequential-done :
      (is : List ℕ) (f : ℕ → A) (i : ℕ) → f i ≡ compile i → sequential compile is f i ≡ compile i
  unfolding sequential
  sequential-done [] f i e = e
  sequential-done (j ∷ is) f i e = sequential-done is (put f j (compile j)) i (ground arith)

  sequential-job :
      (is : List ℕ) (f : ℕ → A) (k : ℕ)
      → k < length is
      → sequential compile is f (get_or is k 0) ≡ compile (get_or is k 0)
  unfolding sequential
  sequential-job [] f k h = elim h [ ]
  sequential-job (j ∷ is) f zero h = sequential-done is (put f j (compile j)) j (ground arith)
  sequential-job (j ∷ is) f (suc k) h = sequential-job is (put f j (compile j)) k (omega arith)

  -- What the loop leaves in a slot.
  sequential-cases :
      (is : List ℕ) (f : ℕ → A) (i : ℕ)
      → (sequential compile is f i ≡ f i) ⊎ ((k : ℕ) × (k < length is) × (get_or is k 0 ≡ i))
  unfolding sequential
  sequential-cases [] f i = inl refl
  sequential-cases (j ∷ is) f i = elim (ℕ_discrete j i) [
    | yes same ↦ inr (0, omega arith, same)
    | no other ↦ elim (sequential-cases is (put f j (compile j)) i) [
      | inl e ↦ inl (e ∙ ground arith)
      | inr (k, l, e) ↦ inr (suc k, omega (arith, l), e)
    ]
  ]

-- Once at least one thread was started and all have stopped, whatever the order of their steps, each
-- slot of the results holds what the loop of a single thread puts there.
pub finished-sequential :
    {A : Type 0} (compile : ℕ → A) (to_compile : List ℕ) (n steps : ℕ) (results : ℕ → A)
    (s : Pool compile to_compile)
    → 0 < n
    → Reach compile to_compile n results steps s
    → ((t : ℕ) → t < n → s.threads t ≡ stopped)
    → (i : ℕ) → s.results i ≡ sequential compile to_compile results i
finished-sequential compile to_compile n steps results s some_thread r all_stopped i =
    elim (inv.written i) [
      | inr (e, (k, p, q, same)) ↦ e ∙ sym (slot_of k q same)
      | inl e ↦ elim (sequential-cases compile to_compile results i) [
        | inl f ↦ e ∙ sym f
        | inr (k, q, same) ↦ done k q same ∙ sym (slot_of k q same)
      ]
    ]
  where
    inv : Inv compile to_compile n results s
    inv = Reach-Inv compile to_compile n results r

    slot_of :
        (k : ℕ)
        → k < length to_compile
        → get_or to_compile k 0 ≡ i
        → sequential compile to_compile results i ≡ compile i
    slot_of k q same = rw (← same) (sequential-job compile to_compile results k q)

    done : (k : ℕ) → k < length to_compile → get_or to_compile k 0 ≡ i → s.results i ≡ compile i
    done k q same =
        elim (inv.fetched k (omega (arith, q, inv.ended 0 (all_stopped 0 some_thread))) q) [
          | inl (t, l, e) ↦ cc (all_stopped t l)
          | inr e ↦ rw same at e
        ]
