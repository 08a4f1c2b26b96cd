-- ===== src/Batch/Complete.antt =====
-- What a run leaves in the blob.
use slangmake.Prelude.{
  ℕ, ◌+◌, ◌≡◌, refl, ap, ◌∙◌, sym, Bool, true, false, List, [], ◌∷◌, ◌++◌, append-nil, append_assoc,
  Bool-cases, inl, inr, arith, length, length-append, map,
}
use slangmake.Permutation.{Permutation, key}
use slangmake.Blob.Writer.Layout as Layout
use slangmake.Blob.Writer.{add_entry}
use slangmake.Batch.Surroundings.{Outcome, succeeded}
use slangmake.Batch.{Assembly, Stats, assemble, add_success, add_failure, count}

abbrev Job : Type 0
Job = Permutation × Outcome × List ℕ

-- The jobs that did not fail, and their entries.
abbrev pub successes : List Job → List Job
successes [] = []
successes ((p, o, is) ∷ js) = elim (succeeded o) [
  | true ↦ (p, o, is) ∷ successes js
  | false ↦ successes js
]

abbrev pub entry_of_job : Job → Layout.Entry
entry_of_job (p, o, is) = record {
  key = key p;
  code = o.result.code;
  refl = o.result.reflection;
  dep_indices = is;
}

-- The entries, the list, the counters and the failures behind the loop.
pub record IsComplete (js : List Job) (a b : Assembly) : Type 0 where
  pub entries : b.writer.entries ≡ a.writer.entries ++ map entry_of_job (successes js)
  pub compiled : b.compiled ≡ a.compiled ++ map (λ j. j.0) (successes js)
  pub counted :
      b.stats.compiled + b.stats.reused ≡ a.stats.compiled + a.stats.reused + length (successes js)
  pub failed : length b.failures + length (successes js) ≡ length a.failures + length js

successes-true :
    (p : Permutation) (o : Outcome) (is : List ℕ) (js : List Job)
    → succeeded o ≡ true
    → successes ((p, o, is) ∷ js) ≡ (p, o, is) ∷ successes js
successes-true p o is js b = rw (b, successes) refl

successes-false :
    (p : Permutation) (o : Outcome) (is : List ℕ) (js : List Job)
    → succeeded o ≡ false
    → successes ((p, o, is) ∷ js) ≡ successes js
successes-false p o is js b = rw (b, successes) refl

count-total :
    (b : Bool) (s : Stats) → (count b s).compiled + (count b s).reused ≡ s.compiled + s.reused + 1
unfolding count
count-total true s = omega arith
count-total false s = omega arith

add_success-IsComplete :
    (p : Permutation) (o : Outcome) (is : List ℕ) (js : List Job) (a b : Assembly)
    → succeeded o ≡ true
    → IsComplete js (add_success p o is a) b
    → IsComplete ((p, o, is) ∷ js) a b
unfolding add_success add_entry
add_success-IsComplete p o is js a b e h =
    let s = successes-true p o is js e in
    let n = ap length s in
    record {
      entries =
          h.entries
          ∙ append_assoc a.writer.entries (entry_of_job (p, o, is) ∷ [])
              (map entry_of_job (successes js))
          ∙ ap (λ l. a.writer.entries ++ map entry_of_job l) (sym s);
      compiled =
          h.compiled
          ∙ append_assoc a.compiled (p ∷ []) (map (λ j. j.0) (successes js))
          ∙ ap (λ l. a.compiled ++ map (λ j. j.0) l) (sym s);
      counted = omega (arith, h.counted, count-total o.reused a.stats, n);
      failed = omega (arith, h.failed, n);
    }

add_failure-IsComplete :
    (p : Permutation) (o : Outcome) (is : List ℕ) (js : List Job) (a b : Assembly)
    → succeeded o ≡ false
    → IsComplete js (add_failure p o.result a) b
    → IsComplete ((p, o, is) ∷ js) a b
unfolding add_failure
add_failure-IsComplete p o is js a b e h =
    let s = successes-false p o is js e in
    record {
      entries = h.entries ∙ ap (λ l. a.writer.entries ++ map entry_of_job l) (sym s);
      compiled = h.compiled ∙ ap (λ l. a.compiled ++ map (λ j. j.0) l) (sym s);
      counted = omega (arith, h.counted, ap length s);
      failed = omega (arith, h.failed, ap length s, length-append a.failures (_ ∷ []));
    }

-- A run that keeps going puts one entry for each permutation that did not fail into the writer, in
-- order, under the permutation's key and with its code and reflection; it lists those permutations as
-- compiled, counts each of them once, and lists a failure for each other.
pub assemble-IsComplete : (js : List Job) (a : Assembly) → IsComplete js a (assemble true js a).1
unfolding assemble
assemble-IsComplete [] a = record {
  entries = sym (append-nil a.writer.entries);
  compiled = sym (append-nil a.compiled);
  counted = omega arith;
  failed = omega arith;
}
assemble-IsComplete ((p, o, is) ∷ js) a = elim (Bool-cases (succeeded o)) [
  | inl b ↦
      rw (b, assemble)
        (add_success-IsComplete p o is js a _ b (assemble-IsComplete js (add_success p o is a)))
  | inr b ↦
      rw (b, assemble)
        (add_failure-IsComplete p o is js a _ b (assemble-IsComplete js (add_failure p o.result a)))
]
