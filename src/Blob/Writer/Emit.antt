-- ===== src/Blob/Writer/Emit.antt =====
-- The emission pass of `BlobWriter::finalize`: the bytes, in order.
use slangmake.Prelude.{
  ℕ, zero, suc, ◌+◌, ◌/◌, ◌%◌, Bool, Bytes, List, [], ◌∷◌, ◌++◌, length, get_or, set, ltb, ◌==◌,
  if◌then◌else◌,
}
use slangmake.Hash.{le32}
use slangmake.Blob.Format.{DepEntry, EntryRecord, record_bytes, dep_bytes}
use slangmake.Blob.Writer.Layout.{Entry, DepInfo}

-- `while (out.size() % k) out.push_back(0)`: fewer than `k` rounds.
unfoldable pub pad_loop : ℕ → ℕ → Bytes → Bytes
pad_loop k zero out = out
pad_loop k (suc fuel) out =
    let rest = pad_loop k fuel (out ++ (0 ∷ [])) in if length out % k == 0 then out else rest

unfoldable pub pad_to8 : Bytes → Bytes
pad_to8 out = pad_loop 8 8 out

unfoldable pub pad_to4 : Bytes → Bytes
pad_to4 out = pad_loop 4 4 out

-- `while (out.size() < n) out.push_back(0)`: at most `n` rounds.
unfoldable pub pad_until_loop : ℕ → ℕ → Bytes → Bytes
pad_until_loop zero n out = out
pad_until_loop (suc fuel) n out =
    let rest = pad_until_loop fuel n (out ++ (0 ∷ [])) in if ltb (length out) n then rest else out

unfoldable pub pad_until : ℕ → Bytes → Bytes
pad_until n out = pad_until_loop n n out

-- `appendBytes(out, records.data(), tableSize)`.
unfoldable pub emit_records : List EntryRecord → Bytes → Bytes
emit_records [] out = out
emit_records (r ∷ rs) out = emit_records rs (out ++ record_bytes r)

unfoldable pub emit_payload : Bool → Bytes → Bytes → Bytes
emit_payload own payload out = if own then pad_to8 out ++ payload else out

unfoldable pub emit_entry : ℕ → ℕ → ℕ → Entry → Bytes → Bytes
emit_entry i cc rc e out =
    emit_payload (rc == i) e.refl (emit_payload (cc == i) e.code (out ++ (e.key ++ (0 ∷ []))))

unfoldable pub emit_entries : List ℕ → List ℕ → ℕ → List Entry → Bytes → Bytes
emit_entries ccs rcs i [] out = out
emit_entries ccs rcs i (e ∷ es) out =
    emit_entries ccs rcs (suc i) es (emit_entry i (get_or ccs i 0) (get_or rcs i 0) e out)

unfoldable pub emit_paths : List DepInfo → Bytes → Bytes
emit_paths [] out = out
emit_paths (d ∷ ds) out = emit_paths ds (out ++ d.path)

unfoldable pub emit_deps : List DepEntry → Bytes → Bytes
emit_deps [] out = out
emit_deps (d ∷ ds) out = emit_deps ds (out ++ dep_bytes d)

unfoldable pub emit_index_list : List ℕ → Bytes → Bytes
emit_index_list [] out = out
emit_index_list (i ∷ is) out = emit_index_list is (out ++ le32 i)

unfoldable pub emit_indices : List Entry → Bytes → Bytes
emit_indices [] out = out
emit_indices (e ∷ es) out = emit_indices es (emit_index_list e.dep_indices out)

-- A store of a `uint32_t` through a pointer into the buffer.
unfoldable pub store32 : Bytes → ℕ → ℕ → Bytes
store32 out off n =
    set (set (set (set out off (n % 256)) (off + 1) (n / 256 % 256)) (off + 2) (n / 65536 % 256))
      (off + 3) (n / 16777216 % 256)
