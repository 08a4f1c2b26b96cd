-- ===== src/Tests/Runs.antt =====
-- A run of the batch compiler with two permutations, and arguments of the command line.
use slangmake.Prelude.{
  ℕ, ◌≡◌, ◌≢◌, refl, true, false, codes, List, [], ◌∷◌, some, All, length, arith, bytes_eq,
  bytes_lt,
}
use slangmake.Prelude.Sort.{sort}
use slangmake.Enums.{Target}
use slangmake.Permutation.{Permutation, PermutationDefine, Kind, key, join_sorted}
use slangmake.Hash.{fnv1a_mix}
use slangmake.Blob.Writer.{new}
use slangmake.Batch.Surroundings.{Environment, Outcome, hash_file_contents, succeeded}
use slangmake.Batch.Deps.{index_of_path, intern_dep, intern_paths, intern_entries}
use slangmake.Batch.{Assembly, assemble, add_success, add_failure}
use slangmake.Batch.Complete.{IsComplete, assemble-IsComplete}
use slangmake.Batch.Indices.{IndexesAll, IsRecorded, intern_entries-Indexes}
use slangmake.Directives.Nesting.{advance_quoted, advance_plain, advance}
use slangmake.Directives.Values.{
  is_space, trim_front, trim_cons, trim_end, trim, flush_token, separates, all_closed, values_from,
  parse_values,
}
use slangmake.Directives.WellFormed.{IsValue}
use slangmake.Cli.{
  split_at, parse_define, is_blank, copy_front, copy_cons, copy_end, trim_copy, before_brace,
  inside_braces, parse_permutation, parse_bind_shift,
}
use slangmake.Cli.Values.{parse_define-name, parse_permutation-IsValue}

program : Unit {0}
unfolding key join_sorted sort fnv1a_mix hash_file_contents succeeded index_of_path intern_dep
    intern_paths intern_entries assemble add_success add_failure advance_quoted advance_plain
    advance is_space trim_front trim_cons trim_end trim flush_token separates all_closed values_from
    parse_values split_at parse_define is_blank copy_front copy_cons copy_end trim_copy before_brace
    inside_braces parse_permutation parse_bind_shift bytes_eq bytes_lt
program = tt

abbrev on : Permutation
on = record { constants = record { name = codes "S"; value = codes "1" } ∷ []; type_args = [] }

abbrev off : Permutation
off = record { constants = record { name = codes "S"; value = codes "0" } ∷ []; type_args = [] }

abbrev good : Outcome
good = record {
  reused = false;
  result = record {
    success = true;
    code = 1 ∷ [];
    reflection = [];
    dependencies = codes "a" ∷ [];
    diagnostics = [];
  };
  dep_paths = codes "a" ∷ [];
}

abbrev bad : Outcome
bad = record {
  reused = false;
  result = record {
    success = false;
    code = [];
    reflection = [];
    dependencies = [];
    diagnostics = codes "no";
  };
  dep_paths = [];
}

abbrev start : Assembly
start = record {
  writer = new Target.spirv;
  compiled = [];
  failures = [];
  stats = record { compiled = 0; reused = 0 };
}

abbrev jobs : List (Permutation × Outcome × List ℕ)
jobs = (on, good, 0 ∷ []) ∷ (off, bad, []) ∷ []

-- the failure is listed under its key
failures_run : (assemble true jobs start).1.failures ≡ codes "S=0: no" ∷ []
unfolding program
failures_run = refl

assemble-IsComplete_example : IsComplete jobs start (assemble true jobs start).1
assemble-IsComplete_example = assemble-IsComplete jobs start

abbrev env : Environment
env = record {
  read = λ p. some p;
  compile = λ opts p. record {
    success = false;
    code = [];
    reflection = [];
    dependencies = [];
    diagnostics = [];
  };
}

one_dep : length (intern_entries env (good ∷ bad ∷ good ∷ []) []).1 ≡ 1
unfolding program
one_dep = refl

intern_entries-Indexes_example :
    IndexesAll
      (intern_entries env (good ∷ bad ∷ good ∷ []) []).1
      (intern_entries env (good ∷ bad ∷ good ∷ []) []).0
      (good ∷ bad ∷ good ∷ [])
    × All (IsRecorded env) (intern_entries env (good ∷ bad ∷ good ∷ []) []).1
intern_entries-Indexes_example =
    intern_entries-Indexes env (good ∷ bad ∷ good ∷ []) (omega (arith, one_dep))

parse_define-name_example :
    parse_define (codes "A=b=c") ≡ some record { name = codes "A"; value = codes "b=c" }
parse_define-name_example = parse_define-name b'A' [] (codes "b=c") (refl, tt)

abbrev axis : PermutationDefine
axis = record { name = codes "Q"; values = codes "0" ∷ codes "1" ∷ []; kind = Kind.constant }

parse_permutation_run : parse_permutation false Kind.constant (codes "Q = {0, 1}") ≡ some axis
unfolding program
parse_permutation_run = refl

bind_shift_run :
    parse_bind_shift (λ s. some (length s)) (codes "t:0:16")
    ≡ some record { kind = b't'; space = 1; shift = 2 }
unfolding program
bind_shift_run = refl

parse_permutation-IsValue_example :
    (axis.kind ≡ Kind.constant)
    × ((axis.name ≢ []) × ((axis.values ≢ []) × All IsValue axis.values))
parse_permutation-IsValue_example =
    parse_permutation-IsValue false Kind.constant (codes "Q = {0, 1}") axis parse_permutation_run
