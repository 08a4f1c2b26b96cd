-- ===== src/Blob/Codecs.antt =====
-- `compressPayload` and `decompressPayload`. LZ4 and zstd are other people's libraries: the section
-- below takes their calls as parameters.
use slangmake.Prelude.{
  ℕ, ◌<◌, ◌≡◌, ◌≢◌, Bytes, [], Option, none, some, length, is_empty, ◌==◌, if◌then◌else◌,
}
use slangmake.Enums.{Codec}

-- `compress` is the bytes that the library wrote, or `none` for its error result; `decompress` gets
-- the size of the output buffer, and returns the bytes written, or `none`.
pub record CodecLibrary : Type 0 where
  pub compress : Bytes → Option Bytes
  pub decompress : Bytes → ℕ → Option Bytes

pub record CodecLibraries : Type 0 where
  pub lz4 : CodecLibrary
  pub zstd : CodecLibrary

-- What the libraries document: compression into a buffer of the bound's size succeeds, and a buffer
-- of the original size takes the original bytes back.
-- (LZ4 takes at most 0x7E000000 bytes and refuses an empty output buffer.)
pub record IsLossless (l : CodecLibrary) (max_size : ℕ) : Type 0 where
  pub compresses :
      (b : Bytes) → b ≢ [] → length b < max_size → (c : Bytes) × (l.compress b ≡ some c)
  pub decompress-compress :
      (b c : Bytes)
      → b ≢ []
      → length b < max_size
      → l.compress b ≡ some c
      → l.decompress c (length b) ≡ some b

-- A throw of `std::runtime_error` is `none`.
unfoldable pub compress_payload : CodecLibraries → Codec → Bytes → Option Bytes
compress_payload libs Codec.none input = some input
compress_payload libs Codec.lz4 input =
    if is_empty input then some input else libs.lz4.compress input
compress_payload libs Codec.zstd input =
    if is_empty input then some input else libs.zstd.compress input

-- The test behind a library's call: all of the buffer was filled.
unfoldable pub exact_size : ℕ → Option Bytes → Option Bytes
exact_size n none = none
exact_size n (some out) = if length out == n then some out else none

unfoldable pub decompress_payload : CodecLibraries → Codec → Bytes → ℕ → Option Bytes
decompress_payload libs Codec.none input out_size =
    if length input == out_size then some input else none
decompress_payload libs Codec.lz4 input out_size =
    exact_size out_size (libs.lz4.decompress input out_size)
decompress_payload libs Codec.zstd input out_size =
    exact_size out_size (libs.zstd.decompress input out_size)
