-- ===== src/Batch/Workers.antt =====
-- The worker threads of `BatchCompiler::compileFile` (src/slangmake_batch.cpp): each takes the next
-- index of the shared counter, compiles that permutation, and writes its own slot of the results.
pub mod Finished
pub mod Progress
use slangmake.Prelude.{
  ℕ, zero, suc, ◌+◌, ◌-◌, ◌<◌, ◌≤◌, ◌≡◌, List, [], ◌∷◌, get_or, length, ltb, if◌then◌else◌,
}
use mathlib.Core.Logic.{ite}
use native.Mathlib.Decide.{ℕ_discrete}

-- A write to one slot, of the results or of the threads' states.
abbrev pub put {ℓ} : {A : Type ℓ} → (ℕ → A) → ℕ → A → ℕ → A
put f i a j = ite (ℕ_discrete i j) a (f j)

-- `std::max(1, std::min(m_jobs, nCompile))`.
abbrev pub thread_count : ℕ → ℕ → ℕ
thread_count jobs n_compile =
    let least = if ltb jobs n_compile then jobs else n_compile in if ltb least 1 then 1 else least

-- Where a thread stands: before `fetch_add`, with the number `k` it fetched, or behind the loop.
pub data Stage : Type 0 where
  fetching : Stage
  compiling : (k : ℕ) → Stage
  stopped : Stage

module _ {A : Type 0} (compile : ℕ → A) (to_compile : List ℕ) where
  -- The shared counter, the results by index, and the threads; those from `n` on do not exist.
  pub record Pool : Type 0 where
    pub next_idx : ℕ
    pub results : ℕ → A
    pub threads : ℕ → Stage

  -- `toCompile[k]`.
  abbrev pub job : ℕ → ℕ
  job k = get_or to_compile k 0

  -- One step of one thread, in any order.
  pub data Step (n : ℕ) (s : Pool) : Pool → Type 0 where
    fetch :
        (t : ℕ)
        → t < n
        → s.threads t ≡ fetching
        → s.next_idx < length to_compile
        → Step n s (record {
          next_idx = s.next_idx + 1;
          results = s.results;
          threads = put s.threads t (compiling s.next_idx);
        })
    leave :
        (t : ℕ)
        → t < n
        → s.threads t ≡ fetching
        → length to_compile ≤ s.next_idx
        → Step n s (record {
          next_idx = s.next_idx + 1;
          results = s.results;
          threads = put s.threads t stopped;
        })
    write :
        (t : ℕ) {k : ℕ}
        → t < n
        → s.threads t ≡ compiling k
        → Step n s (record {
          next_idx = s.next_idx;
          results = put s.results (job k) (compile (job k));
          threads = put s.threads t fetching;
        })

  abbrev pub spawned : (ℕ → A) → Pool
  spawned results = record { next_idx = 0; results = results; threads = λ t. fetching }

  -- The states after `steps` steps of the threads together.
  pub data Reach (n : ℕ) (results : ℕ → A) : ℕ → Pool → Type 0 where
    begin : Reach n results 0 (spawned results)
    later :
        {steps : ℕ} {s s' : Pool}
        → Reach n results steps s
        → Step n s s'
        → Reach n results (suc steps) s'

-- The loop of a single thread.
unfoldable pub sequential : {A : Type 0} → (ℕ → A) → List ℕ → (ℕ → A) → ℕ → A
sequential compile [] results = results
sequential compile (i ∷ is) results = sequential compile is (put results i (compile i))
