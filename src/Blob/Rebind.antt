-- ===== src/Blob/Rebind.antt =====
-- `rebind` on a buffer whose header is known, compressed or not.
use mathlib.Core.Option
use slangmake.Prelude.{
  ℕ, ◌+◌, ◌*◌, ◌<◌, ◌≤◌, ◌≡◌, ◌≢◌, refl, ap, ◌∙◌, true, false, Bytes, [], ◌∷◌, ◌++◌, length,
  length-append, drop, take, arith, le→ltb, some, ◌==◌,
}
use slangmake.Enums.{Codec, codec_code}
use slangmake.Blob.Format.{
  BlobHeader, header_size, header_bytes, load_header, blob_magic, blob_version,
}
use slangmake.Blob.Words.{IsPackedHeader, load_header-header_bytes, length-header_bytes}
use slangmake.Blob.Codecs.{
  CodecLibraries, IsLossless, compress_payload, decompress_payload, exact_size,
}
use slangmake.Blob.Writer.Emit.{store32}
use slangmake.Blob.Writer.{compressed, wrap}
use slangmake.Blob.Reader.{
  rebind, check_table, expand_payload, decompress_code, codec_of_code, expanded,
}
use slangmake.Blob.Parts.{stamped}

-- A buffer of a header and what stands behind it.
abbrev pub buffer : BlobHeader → Bytes → Bytes
buffer h more = header_bytes h ++ more

pub length-buffer : (h : BlobHeader) (more : Bytes) → length (buffer h more) ≡ 56 + length more
length-buffer h more = omega (arith, length-append (header_bytes h) more, length-header_bytes h)

take-buffer : (h : BlobHeader) (more : Bytes) → take 56 (buffer h more) ≡ header_bytes h
unfolding header_bytes
take-buffer h more = refl

pub drop-buffer : (h : BlobHeader) (more : Bytes) → drop 56 (buffer h more) ≡ more
unfolding header_bytes
drop-buffer h more = refl

pub check_table-buffer :
    (h : BlobHeader) (more : Bytes)
    → h.entry_count * 32 ≤ length more
    → check_table (buffer h more) h ≡ record { blob = buffer h more; hdr = some h }
unfolding check_table
check_table-buffer h more fits = rw (
    le→ltb (length (buffer h more)) (56 + h.entry_count * 32)
      (omega (arith, length-buffer h more, fits)))

unstamped :
    (h : BlobHeader) (more raw : Bytes)
    → expanded (buffer h more) raw ≡ buffer (record h { compression = 0 }) raw
unfolding expanded header_bytes store32
unstamped h more raw = refl

module _ (libs : CodecLibraries) (h : BlobHeader) (more : Bytes) (p : IsPackedHeader h)
    (m : (h.magic == blob_magic) ≡ true) (v : (h.version == blob_version) ≡ true) where
  pub rebind-plain :
      (h.compression == 0) ≡ true
      → h.entry_count * 32 ≤ length more
      → rebind libs (buffer h more) ≡ record { blob = buffer h more; hdr = some h }
  unfolding rebind
  rebind-plain c fits =
      rw
        (
          load_header-header_bytes h more p,
          le→ltb (length (buffer h more)) 56 (omega (arith, length-buffer h more)),
          m,
          v,
          c,
        )
        (check_table-buffer h more fits)

  pub rebind-compressed :
      (h.compression == 0) ≡ false
      → rebind libs (buffer h more) ≡ expand_payload libs (buffer h more) h
  unfolding rebind
  rebind-compressed c = rw (
    load_header-header_bytes h more p,
    le→ltb (length (buffer h more)) 56 (omega (arith, length-buffer h more)),
    m,
    v,
    c,
  )

  pub expand_payload-buffer :
      (raw : Bytes)
      → decompress_code libs h.compression more h.uncompressed_payload_size ≡ some raw
      → expand_payload libs (buffer h more) h
        ≡ check_table
            (buffer (record h { compression = 0 }) raw)
            (load_header (buffer (record h { compression = 0 }) raw))
  unfolding expand_payload
  expand_payload-buffer raw e =
      let d : decompress_code libs h.compression (drop header_size (buffer h more))
            h.uncompressed_payload_size
          ≡ some raw =
        rw (drop-buffer h more) e in
      rw (← unstamped h more raw) (rw (d, expand_payload) refl)

pub wrap-buffer :
    (h : BlobHeader) (c : Codec) (more q : Bytes)
    → wrap c (buffer h more) q ≡ buffer (stamped h (codec_code c) (length more)) q
unfolding wrap header_bytes store32
wrap-buffer h c more q = refl

pub compressed-buffer :
    (libs : CodecLibraries) (c : Codec) (h : BlobHeader) (more q : Bytes)
    → c ≢ Codec.none
    → compress_payload libs c more ≡ some q
    → compressed libs c (buffer h more) ≡ some (buffer (stamped h (codec_code c) (length more)) q)
unfolding compressed header_bytes
compressed-buffer libs Codec.none h more q n e = absurd (n refl)
compressed-buffer libs c h more q n e =
    ap (Option.map (wrap c (buffer h more))) e ∙ ap some (wrap-buffer h c more q)

pub compress_payload-some :
    (libs : CodecLibraries) (n : ℕ) (c : Codec) (raw : Bytes)
    → IsLossless libs.lz4 n
    → IsLossless libs.zstd n
    → raw ≢ []
    → length raw < n
    → (q : Bytes) × (compress_payload libs c raw ≡ some q)
unfolding compress_payload
compress_payload-some libs n c [] l z full h = absurd (full refl)
compress_payload-some libs n Codec.none (b ∷ raw) l z full h = (b ∷ raw, refl)
compress_payload-some libs n Codec.lz4 (b ∷ raw) l z full h = l.compresses (b ∷ raw) full h
compress_payload-some libs n Codec.zstd (b ∷ raw) l z full h = z.compresses (b ∷ raw) full h

exact_size-full : (raw : Bytes) → exact_size (length raw) (some raw) ≡ some raw
unfolding exact_size
exact_size-full raw = let e : (length raw == length raw) ≡ true = ground arith in rw e

-- A codec's library gives the payload back; the reader asks for the size in the header.
pub decompress-compress :
    (libs : CodecLibraries) (n : ℕ) (c : Codec) (raw q : Bytes)
    → IsLossless libs.lz4 n
    → IsLossless libs.zstd n
    → raw ≢ []
    → length raw < n
    → compress_payload libs c raw ≡ some q
    → decompress_code libs (codec_code c) q (length raw) ≡ some raw
unfolding decompress_code codec_of_code codec_code decompress_payload compress_payload exact_size
decompress-compress libs n c [] q l z full h e = absurd (full refl)
decompress-compress libs n Codec.none (b ∷ raw) q l z full h e =
    let same : b ∷ raw ≡ q = cc in rw (← same) (exact_size-full (b ∷ raw))
decompress-compress libs n Codec.lz4 (b ∷ raw) q l z full h e =
    rw (l.decompress-compress (b ∷ raw) q full h e) (exact_size-full (b ∷ raw))
decompress-compress libs n Codec.zstd (b ∷ raw) q l z full h e =
    rw (z.decompress-compress (b ∷ raw) q full h e) (exact_size-full (b ∷ raw))

pub codec_code-lt : (c : Codec) → codec_code c < 3
unfolding codec_code
codec_code-lt Codec.none = omega arith
codec_code-lt c = omega arith

pub codec_code-nonzero : (c : Codec) → c ≢ Codec.none → (codec_code c == 0) ≡ false
unfolding codec_code
codec_code-nonzero Codec.none n = absurd (n refl)
codec_code-nonzero c n = refl
