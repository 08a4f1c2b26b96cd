-- ===== src/Blob/RoundTrip.antt =====
-- What `BlobWriter::finalize` writes, `BlobReader` reads back, compressed or not.
use slangmake.Prelude.{
  ℕ, ◌+◌, ◌-◌, ◌*◌, ◌^◌, ◌<◌, ◌≤◌, ◌≡◌, ◌≢◌, refl, ap, ◌∙◌, Bytes, [], length, arith, some,
}
use slangmake.Enums.{Codec, codec_code}
use slangmake.Blob.Words.{IsPackedHeader, load_header-header_bytes}
use slangmake.Blob.Codecs.{CodecLibraries, IsLossless, compress_payload}
use slangmake.Blob.Writer.{
  BlobWriter, plan_after, plan, data_start, header, emit, finalize, compressed, stamp,
}
use slangmake.Blob.Reader.{rebind}
use slangmake.Blob.Placed.{Extends-le}
use slangmake.Blob.LaidOut.{emit_entries-Extends}
use slangmake.Blob.Image.{
  the_plan, laid_out, with_records, with_entries, emit-with_indices, length-with_records, laid,
  length-with_indices, code_canon, refl_canon,
}
use slangmake.Blob.Parts.{
  Holds, Holds-other_front, emit-Holds, emit-front, stamped, stamp-header_bytes,
}
use slangmake.Blob.ReadBack.{
  IsWritable, Reads, reader-Reads, read_header, read_header-IsPackedHeader,
}
use slangmake.Blob.Rebind.{
  buffer, length-buffer, check_table-buffer, rebind-plain, rebind-compressed, expand_payload-buffer,
  decompress-compress, codec_code-lt, codec_code-nonzero, compress_payload-some, compressed-buffer,
}

module _ (w : BlobWriter) (ok : IsWritable w) where
  payload_of : Bytes
  payload_of = (emit-front w ok.fits).0

  emit-buffer : emit w (plan w) ≡ buffer (header w (the_plan w)) payload_of
  unfolding plan payload_of
  emit-buffer = (emit-front w ok.fits).1

  length-emit : length (emit w (the_plan w)) ≡ 56 + length payload_of
  unfolding payload_of
  length-emit =
      ap length (emit-front w ok.fits).1 ∙ length-buffer (header w (the_plan w)) payload_of

  records_le : data_start w ≤ (laid_out w).0
  records_le = omega (
    arith,
    length-with_records w,
    (laid w ok.fits).0,
    Extends-le (with_records w) (with_entries w)
        (emit_entries-Extends (code_canon w) (refl_canon w) 0 w.entries (with_records w)),
  )

  payload_le : length w.entries * 32 + length w.deps * 16 ≤ length payload_of
  unfolding plan_after
  payload_le = omega (
    arith,
    length-emit,
    ap length (emit-with_indices w ok.fits),
    length-with_indices w ok.fits,
    records_le,
  )

  buffer-Holds : (c n : ℕ) → Holds w (buffer (stamped (header w (the_plan w)) c n) payload_of)
  unfolding payload_of plan_after
  buffer-Holds c n =
      Holds-other_front (header w (the_plan w)) _ payload_of
        (rw (← (emit-front w ok.fits).1) (emit-Holds w ok.fits)) (omega (arith, records_le))
        (omega (arith, records_le)) (omega (arith, records_le))

  buffer-Reads :
      (n : ℕ)
      → n < 2 ^ 32
      → Reads w
          (record { blob = buffer (read_header w n) payload_of; hdr = some (read_header w n) })
  buffer-Reads n h =
      reader-Reads w ok (buffer (read_header w n) payload_of)
        (omega (arith, length-buffer (read_header w n) payload_of, length-emit, ok.fits))
        (buffer-Holds 0 n) n

  payload_fits : length payload_of < 2 ^ 32
  payload_fits = omega (arith, length-emit, ok.fits)

  packed : (c : ℕ) → c < 3 → IsPackedHeader (stamped (header w (the_plan w)) c (length payload_of))
  packed = read_header-IsPackedHeader w ok (length payload_of) payload_fits

  table_le : (header w (the_plan w)).entry_count * 32 ≤ length payload_of
  unfolding header
  table_le = omega (arith, payload_le)

  rebind-plain_of :
      (libs : CodecLibraries)
      → rebind libs (buffer (read_header w (length payload_of)) payload_of) ≡ record {
        blob = buffer (read_header w (length payload_of)) payload_of;
        hdr = some (read_header w (length payload_of));
      }
  unfolding header
  rebind-plain_of libs =
      rebind-plain libs (read_header w (length payload_of)) payload_of (packed 0 (omega arith)) refl
        refl refl table_le

  -- The uncompressed form of the blob is read back.
  rebind-Reads :
      (libs : CodecLibraries)
      → Reads w (rebind libs (buffer (read_header w (length payload_of)) payload_of))
  rebind-Reads libs = rw (rebind-plain_of libs) (buffer-Reads (length payload_of) payload_fits)

  stamp-emit :
      (c : Codec) (n : ℕ)
      → stamp (emit w (plan w)) c n
        ≡ buffer (stamped (header w (the_plan w)) (codec_code c) n) payload_of
  stamp-emit c n =
      ap (λ out. stamp out c n) emit-buffer
      ∙ stamp-header_bytes (header w (the_plan w)) payload_of c n

  finalize-none :
      (libs : CodecLibraries)
      → w.compression ≡ Codec.none
      → finalize libs w ≡ some (buffer (read_header w (length payload_of)) payload_of)
  unfolding finalize compressed codec_code
  finalize-none libs e =
      let n : length (emit w (plan w)) - 56 ≡ length payload_of =
        omega (arith, ap length emit-buffer, length-buffer (header w (the_plan w)) payload_of) in
      ap (λ c. compressed libs c (emit w (plan w))) e
      ∙ ap some
          (ap (stamp (emit w (plan w)) Codec.none) n ∙ stamp-emit Codec.none (length payload_of))

  finalize-squeezed :
      (libs : CodecLibraries) (q : Bytes)
      → w.compression ≢ Codec.none
      → compress_payload libs w.compression payload_of ≡ some q
      → finalize libs w
        ≡ some (
            buffer
              (stamped (header w (the_plan w)) (codec_code w.compression) (length payload_of))
              q)
  unfolding finalize
  finalize-squeezed libs q c e =
      rw (emit-buffer)
        (compressed-buffer libs w.compression (header w (the_plan w)) payload_of q c e)

  -- Decompression leads to the reader of the uncompressed form.
  rebind-squeezed :
      (libs : CodecLibraries) (n : ℕ) (c : Codec) (q : Bytes)
      → IsLossless libs.lz4 n
      → IsLossless libs.zstd n
      → c ≢ Codec.none
      → payload_of ≢ []
      → length payload_of < n
      → compress_payload libs c payload_of ≡ some q
      → Reads w (
          rebind libs
            (buffer (stamped (header w (the_plan w)) (codec_code c) (length payload_of)) q))
  unfolding header
  rebind-squeezed libs n c q l z some_codec full small e =
      let h = stamped (header w (the_plan w)) (codec_code c) (length payload_of) in
      rw
        (
          rebind-compressed libs h q (packed (codec_code c) (codec_code-lt c)) refl refl
              (codec_code-nonzero c some_codec),
          expand_payload-buffer libs h q (packed (codec_code c) (codec_code-lt c)) refl refl
              payload_of (decompress-compress libs n c payload_of q l z full small e),
          load_header-header_bytes (read_header w (length payload_of)) payload_of
              (packed 0 (omega arith)),
          check_table-buffer (read_header w (length payload_of)) payload_of table_le,
        )
        (buffer-Reads (length payload_of) payload_fits)

-- An uncompressed writer whose parts fit the format's fields: `finalize` returns a blob, and a reader
-- of it is valid and reports the writer's target, options hash, entries in order and dependencies.
pub finalize_none-Reads :
    (libs : CodecLibraries) (w : BlobWriter)
    → w.compression ≡ Codec.none
    → IsWritable w
    → (blob : Bytes) × (finalize libs w ≡ some blob) × Reads w (rebind libs blob)
finalize_none-Reads libs w e ok = (
  buffer (read_header w (length (payload_of w ok))) (payload_of w ok),
  finalize-none w ok libs e,
  rebind-Reads w ok libs,
)

-- A compressing writer whose parts fit the format's fields and that has an entry or a dependency: if
-- the codec libraries take every non-empty payload below `n` bytes and give it back, and the
-- uncompressed buffer is below `n` bytes, `finalize` returns a blob, and a reader of it is valid and
-- reports the writer's target, options hash, entries in order and dependencies.
pub finalize_compressed-Reads :
    (libs : CodecLibraries) (n : ℕ) (w : BlobWriter)
    → w.compression ≢ Codec.none
    → IsLossless libs.lz4 n
    → IsLossless libs.zstd n
    → IsWritable w
    → 0 < length w.entries + length w.deps
    → length (emit w (plan w)) < n
    → (blob : Bytes) × (finalize libs w ≡ some blob) × Reads w (rebind libs blob)
finalize_compressed-Reads libs n w c l z ok full small =
    let raw = payload_of w ok in
    let m : length raw < n =
      omega
        (arith, small, ap length (emit-buffer w ok), length-buffer (header w (the_plan w)) raw) in
    let f : raw ≢ [] = λ e. absurd (omega (arith, full, payload_le w ok, ap length e)) in
    let (q, e) = compress_payload-some libs n w.compression raw l z f m in
    (
      buffer (stamped (header w (the_plan w)) (codec_code w.compression) (length raw)) q,
      finalize-squeezed w ok libs q c e,
      rebind-squeezed w ok libs n w.compression q l z c f m e,
    )
