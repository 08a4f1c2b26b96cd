-- ===== src/Blob/Rejected.antt =====
-- A blob that `finalize` writes and `rebind` does not take: LZ4 with nothing to compress.
use slangmake.Prelude.{ℕ, ◌^◌, ◌<◌, ◌≡◌, refl, ap, false, Bytes, [], drop, none, some, arith}
use slangmake.Enums.{Target, Codec, codec_code}
use slangmake.Blob.Format.{BlobHeader, header_bytes}
use slangmake.Blob.Codecs.{CodecLibraries, compress_payload, decompress_payload, exact_size}
use slangmake.Blob.Writer.Layout.{layout_entries, path_slots, dep_slots, index_count}
use slangmake.Blob.Writer.Dedup.{dedup, dedup_from}
use slangmake.Blob.Writer.Emit.{
  pad_loop, pad_to8, pad_to4, pad_until_loop, pad_until, emit_records, emit_entries, emit_paths,
  emit_deps, emit_indices, store32,
}
use slangmake.Blob.Writer.{
  BlobWriter, new, set_options_hash, set_compression, plan_after, plan, header, emit, finalize,
  compressed, wrap,
}
use slangmake.Blob.Reader.{rebind, expand_payload, decompress_code, codec_of_code, valid, invalid}
use slangmake.Blob.Image.{the_plan}
use slangmake.Blob.Parts.{stamped}
use slangmake.Blob.Rebind.{buffer, drop-buffer, rebind-compressed}
use slangmake.Blob.ReadBack.{IsWritable, read_header-IsPackedHeader}

program : Unit {0}
unfolding new set_options_hash set_compression plan_after plan header emit finalize compressed wrap
    layout_entries path_slots dep_slots index_count dedup dedup_from pad_loop pad_to8 pad_to4
    pad_until_loop pad_until emit_records emit_entries emit_paths emit_deps emit_indices store32
    header_bytes compress_payload codec_code
program = tt

-- A writer that compresses with LZ4 and has got neither an entry nor a dependency.
abbrev pub empty_writer : Target → ℕ → BlobWriter
empty_writer t h = set_compression Codec.lz4 (set_options_hash h (new t))

empty-IsWritable : (t : Target) (h : ℕ) → h < 2 ^ 64 → IsWritable (empty_writer t h)
unfolding program
empty-IsWritable t h l = record { fits = omega arith; hash = l; dep_hashes = tt; indices = tt }

abbrev empty_header : Target → ℕ → BlobHeader
empty_header t h = stamped (header (empty_writer t h) (the_plan (empty_writer t h))) 1 0

finalize-empty_writer :
    (libs : CodecLibraries) (t : Target) (h : ℕ)
    → finalize libs (empty_writer t h) ≡ some (buffer (empty_header t h) [])
unfolding program
finalize-empty_writer libs t h = refl

decompress-empty :
    (libs : CodecLibraries) → libs.lz4.decompress [] 0 ≡ none → decompress_code libs 1 [] 0 ≡ none
unfolding decompress_code codec_of_code decompress_payload exact_size
decompress-empty libs e = ap (exact_size 0) e

expand_payload-none :
    (libs : CodecLibraries) (blob : Bytes) (h : BlobHeader)
    → decompress_code libs h.compression (drop 56 blob) h.uncompressed_payload_size ≡ none
    → valid (expand_payload libs blob h) ≡ false
unfolding expand_payload valid
expand_payload-none libs blob h e =
    let i : expand_payload libs blob h ≡ invalid [] = rw (e, expand_payload) refl in ap valid i

expand-empty :
    (libs : CodecLibraries) (t : Target) (h : ℕ)
    → libs.lz4.decompress [] 0 ≡ none
    → valid (expand_payload libs (buffer (empty_header t h) []) (empty_header t h)) ≡ false
expand-empty libs t h e =
    expand_payload-none libs (buffer (empty_header t h) []) (empty_header t h)
      (rw (drop-buffer (empty_header t h) []) (decompress-empty libs e))

-- If LZ4 refuses to decompress into an empty buffer, `finalize` of a writer that compresses with LZ4
-- and has neither an entry nor a dependency returns a blob, and a reader of that blob is not valid.
pub rebind-finalize_empty :
    (libs : CodecLibraries) (t : Target) (h : ℕ)
    → h < 2 ^ 64
    → libs.lz4.decompress [] 0 ≡ none
    → (blob : Bytes) × (finalize libs (empty_writer t h) ≡ some blob)
      × (valid (rebind libs blob) ≡ false)
unfolding header
rebind-finalize_empty libs t h l e =
    let packed =
      read_header-IsPackedHeader (empty_writer t h) (empty-IsWritable t h l) 0 (omega arith) 1
        (omega arith) in
    (
      buffer (empty_header t h) [],
      finalize-empty_writer libs t h,
      rw (rebind-compressed libs (empty_header t h) [] packed refl refl refl)
          (expand-empty libs t h e),
    )
