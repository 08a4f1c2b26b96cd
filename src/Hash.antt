-- ===== src/Hash.antt =====
-- FNV-1a over 64-bit words (src/slangmake_internal_rt.h).
pub mod Options
use slangmake.Prelude.{ℕ, ◌+◌, ◌*◌, ◌/◌, ◌%◌, ◌^◌, bit_xor, Bytes, List, [], ◌∷◌, ◌++◌, length}

abbrev pub fnv_offset : ℕ
fnv_offset = 0xcbf29ce484222325

abbrev pub fnv_prime : ℕ
fnv_prime = 0x00000100000001b3

-- The loop over the bytes; the product wraps in `uint64_t`.
unfoldable pub fnv1a_mix : ℕ → Bytes → ℕ
fnv1a_mix h [] = h
fnv1a_mix h (b ∷ bs) = fnv1a_mix (bit_xor h b * fnv_prime % 2 ^ 64) bs

-- The bytes of a `uint32_t` and of a `uint64_t` on a little-endian machine. A larger value is
-- truncated, as `static_cast<uint32_t>` does.
abbrev pub le32 : ℕ → Bytes
le32 n = n % 256 ∷ (n / 256 % 256) ∷ (n / 65536 % 256) ∷ (n / 16777216 % 256) ∷ []

abbrev pub le64 : ℕ → Bytes
le64 n = le32 n ++ le32 (n / 4294967296)

-- `fnv1aMixStr`: the length in front of the text.
unfoldable pub fnv1a_mix_str : ℕ → Bytes → ℕ
unfolding fnv1a_mix
fnv1a_mix_str h s = fnv1a_mix (fnv1a_mix h (le32 (length s))) s
