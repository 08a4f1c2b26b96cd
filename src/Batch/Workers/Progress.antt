-- ===== src/Batch/Workers/Progress.antt =====
-- The threads stop, whatever the order of their steps.
use slangmake.Prelude.{
  ℕ, zero, suc, ◌+◌, ◌*◌, ◌-◌, ◌<◌, ◌≤◌, ◌≡◌, refl, ap, ◌⊎◌, inl, inr, List, length, arith,
}
use native.Mathlib.Decide.{dec_lt}
use slangmake.Batch.Workers.{
  put, Stage, fetching, compiling, stopped, Pool, Step, fetch, leave, write, Reach, begin, later,
}

-- The steps that a thread has left before it needs another job.
abbrev left : Stage → ℕ
left fetching = 1
left (compiling k) = 2
left stopped = 0

abbrev all_left : ℕ → (ℕ → Stage) → ℕ
all_left zero threads = 0
all_left (suc n) threads = all_left n threads + left (threads n)

all_left-put_behind :
    (n : ℕ) (threads : ℕ → Stage) (t : ℕ) (g : Stage)
    → n ≤ t
    → all_left n (put threads t g) ≡ all_left n threads
all_left-put_behind zero threads t g h = refl
all_left-put_behind (suc n) threads t g h = ground (arith, all_left-put_behind n threads t g)

-- A step of thread `t` changes its own share only.
all_left-put :
    (n : ℕ) (threads : ℕ → Stage) (t : ℕ) (g : Stage)
    → t < n
    → all_left n (put threads t g) + left (threads t) ≡ all_left n threads + left g
all_left-put zero threads t g h = absurd (omega arith)
all_left-put (suc n) threads t g h = elim (dec_lt t n) [
  | yes before ↦ ground (arith, all_left-put n threads t g before)
  | no last ↦ ground (arith, all_left-put_behind n threads t g)
]

all_left-fetching : (n : ℕ) → all_left n (λ t. fetching) ≡ n
all_left-fetching zero = refl
all_left-fetching (suc n) = omega (arith, all_left-fetching n)

module _ {A : Type 0} (compile : ℕ → A) (to_compile : List ℕ) (n : ℕ) where
  -- Two steps for each job that is not fetched, and those of the threads.
  measure : Pool compile to_compile → ℕ
  measure s = (length to_compile - s.next_idx) * 2 + all_left n s.threads

  Step-measure :
      {s s' : Pool compile to_compile} → Step compile to_compile n s s' → measure s' < measure s
  unfolding measure
  Step-measure {s} (fetch t l e h) =
      let share = all_left-put n s.threads t (compiling s.next_idx) l in
      omega (arith, share, ap left e, h)
  Step-measure {s} (leave t l e h) =
      let share = all_left-put n s.threads t stopped l in omega (arith, share, ap left e)
  Step-measure {s} (write t {k} l e) =
      let share = all_left-put n s.threads t fetching l in omega (arith, share, ap left e)

  Reach-measure :
      {results : ℕ → A} {steps : ℕ} {s : Pool compile to_compile}
      → Reach compile to_compile n results steps s
      → steps + measure s ≤ 2 * length to_compile + n
  unfolding measure
  Reach-measure begin = omega (arith, all_left-fetching n)
  Reach-measure (later r st) = omega (arith, Reach-measure r, Step-measure st)

  -- A thread that has not stopped can take a step.
  Step-of :
      (s : Pool compile to_compile) (t : ℕ)
      → t < n
      → (s.threads t ≡ stopped) ⊎ ((s' : Pool compile to_compile) × Step compile to_compile n s s')
  Step-of s t l = at_stage (s.threads t) refl
    where
      at_stage :
          (g : Stage)
          → s.threads t ≡ g
          → (s.threads t ≡ stopped)
            ⊎ ((s' : Pool compile to_compile) × Step compile to_compile n s s')
      at_stage stopped e = inl e
      at_stage (compiling k) e = inr (_, write t l e)
      at_stage fetching e = elim (dec_lt s.next_idx (length to_compile)) [
        | yes more ↦ inr (_, fetch t l e more)
        | no none_left ↦ inr (_, leave t l e (omega (arith, none_left)))
      ]

  Steps-below :
      (s : Pool compile to_compile) (m : ℕ)
      → m ≤ n
      → ((t : ℕ) → t < m → s.threads t ≡ stopped)
        ⊎ ((s' : Pool compile to_compile) × Step compile to_compile n s s')
  Steps-below s zero h = inl (λ t l. absurd (omega arith))
  Steps-below s (suc m) h = elim (Step-of s m (omega (arith, h))) [
    | inr step ↦ inr step
    | inl e ↦ elim (Steps-below s m (omega (arith, h))) [
      | inr step ↦ inr step
      | inl es ↦ inl (λ t l. elim (dec_lt t m) [
        | yes below ↦ es t below
        | no last ↦ let same : m ≡ t = omega (arith, l, last) in rw same at e
      ])
    ]
  ]

-- However the threads are scheduled, they take at most two steps for each job and one for each
-- thread, and as long as one has not stopped, some thread can take a step.
pub workers-stop :
    {A : Type 0} (compile : ℕ → A) (to_compile : List ℕ) (n steps : ℕ) (results : ℕ → A)
    (s : Pool compile to_compile)
    → Reach compile to_compile n results steps s
    → (steps ≤ 2 * length to_compile + n)
      × (((t : ℕ) → t < n → s.threads t ≡ stopped)
          ⊎ ((s' : Pool compile to_compile) × Step compile to_compile n s s'))
workers-stop compile to_compile n steps results s r = (
  omega (arith, Reach-measure compile to_compile n r),
  Steps-below compile to_compile n s n (omega arith),
)
