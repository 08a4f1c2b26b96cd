-- ===== src/Blob/Writer/Dedup.antt =====
-- The deduplication loops of `BlobWriter::finalize`; the one for reflections and the one for bytecode
-- are the same.
use slangmake.Prelude.{
  ℕ, suc, Bytes, List, [], ◌∷◌, Option, none, some, get_or, is_empty, ◌==◌, bytes_eq, if◌then◌else◌,
}
use slangmake.Hash.{fnv_offset, fnv1a_mix}

-- `reflHashToCanonical`, `codeHashToCanonical`: hash to index; `emplace` keeps an old entry.
unfoldable pub find_hash : ℕ → List (ℕ × ℕ) → Option ℕ
find_hash h [] = none
find_hash h ((k, i) ∷ seen) = if k == h then some i else find_hash h seen

unfoldable pub emplace : ℕ → ℕ → List (ℕ × ℕ) → List (ℕ × ℕ)
emplace h i seen = elim (find_hash h seen) [ none ↦ (h, i) ∷ seen | some j ↦ seen ]

-- The index found under the payload's hash, if the payload there is the same.
unfoldable pub earlier : List Bytes → Bytes → List (ℕ × ℕ) → Option ℕ
earlier payloads p seen = elim (find_hash (fnv1a_mix fnv_offset p) seen) [
  | none ↦ none
  | some j ↦ if bytes_eq (get_or payloads j []) p then some j else none
]

-- One round: the canonical index, and the table.
unfoldable pub dedup_step : List Bytes → ℕ → Bytes → List (ℕ × ℕ) → ℕ × List (ℕ × ℕ)
dedup_step payloads i p seen = if is_empty p then (i, seen) else elim (earlier payloads p seen) [
  | some j ↦ (j, seen)
  | none ↦ (i, emplace (fnv1a_mix fnv_offset p) i seen)
]

unfoldable pub dedup_from : List Bytes → ℕ → List Bytes → List (ℕ × ℕ) → List ℕ
dedup_from payloads i [] seen = []
dedup_from payloads i (p ∷ ps) seen =
    let (c, seen') = dedup_step payloads i p seen in c ∷ dedup_from payloads (suc i) ps seen'

-- `reflCanonical` or `codeCanonical` of all entries.
unfoldable pub dedup : List Bytes → List ℕ
dedup payloads = dedup_from payloads 0 payloads []
