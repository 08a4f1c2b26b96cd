-- ===== src/Blob/Safety.antt =====
-- `rebind` on bytes from anywhere.
use slangmake.Prelude.{
  ◌+◌, ◌*◌, ◌≤◌, ◌≡◌, refl, true, false, not, Bytes, [], some, length, ltb, ◌==◌, ==_iff,
  if◌then◌else◌, Option-cases, inl, inr, drop, arith, Bool,
}
use slangmake.Blob.Format.{
  BlobHeader, header_size, entry_record_size, blob_magic, blob_version, load_header,
}
use slangmake.Blob.Codecs.{CodecLibraries}
use slangmake.Blob.Reader.{
  BlobReader, rebind, check_table, expand_payload, decompress_code, expanded, valid, invalid,
}

-- The record table that the header announces lies in the buffer, or there is no header.
abbrev pub HasTable : BlobReader → Type 0
HasTable r =
    (h : BlobHeader)
    → r.hdr ≡ some h
    → header_size + h.entry_count * entry_record_size ≤ length r.blob

invalid-HasTable : (blob : Bytes) → HasTable (invalid blob)
invalid-HasTable blob h e = cc

header-HasTable :
    (blob : Bytes) (hdr : BlobHeader)
    → header_size + hdr.entry_count * entry_record_size ≤ length blob
    → HasTable (record { blob = blob; hdr = some hdr })
header-HasTable blob hdr fits h e = let same : hdr ≡ h = cc in rw (← same) fits

-- Either branch of a test.
HasTable-if :
    (b : Bool) (r s : BlobReader)
    → HasTable r
    → (b ≡ false → HasTable s)
    → HasTable (if b then r else s)
HasTable-if true r s p q = p
HasTable-if false r s p q = q refl

check_table-HasTable : (blob : Bytes) (hdr : BlobHeader) → HasTable (check_table blob hdr)
unfolding check_table
check_table-HasTable blob hdr =
    HasTable-if (ltb (length blob) (header_size + hdr.entry_count * entry_record_size)) _ _
      (invalid-HasTable blob) λ b. header-HasTable blob hdr (ground (arith, b))

expand_payload-HasTable :
    (libs : CodecLibraries) (blob : Bytes) (hdr : BlobHeader)
    → HasTable (expand_payload libs blob hdr)
unfolding expand_payload
expand_payload-HasTable libs blob hdr =
    elim (Option-cases (
      decompress_code libs hdr.compression (drop header_size blob) hdr.uncompressed_payload_size)) [
        | inl e ↦ rw (e, expand_payload) (invalid-HasTable [])
        | inr (raw, e) ↦
            rw (e, expand_payload)
              (check_table-HasTable (expanded blob raw) (load_header (expanded blob raw)))
      ]

-- Whatever the bytes are and whatever the codec libraries return, a reader that `rebind` leaves with
-- a header has the whole record table of that header inside its buffer.
pub rebind-HasTable : (libs : CodecLibraries) (blob : Bytes) → HasTable (rebind libs blob)
unfolding rebind
rebind-HasTable libs blob =
    let hdr = load_header blob in
    HasTable-if (ltb (length blob) header_size) _ _ (invalid-HasTable blob) λ _.
      HasTable-if (not (hdr.magic == blob_magic)) _ _ (invalid-HasTable blob) λ _.
        HasTable-if (not (hdr.version == blob_version)) _ _ (invalid-HasTable blob) λ _.
          HasTable-if (not (hdr.compression == 0)) _ _ (expand_payload-HasTable libs blob hdr)
            λ _. check_table-HasTable blob hdr

-- A valid reader behind a test that leads to an invalid one.
valid-if :
    (b : Bool) (blob : Bytes) (s : BlobReader)
    → valid (if b then invalid blob else s) ≡ true
    → (b ≡ false) × (valid s ≡ true)
unfolding valid
valid-if true blob s e = cc
valid-if false blob s e = (refl, e)

not-false : (b : Bool) → not b ≡ false → b ≡ true
not-false true e = refl
not-false false e = cc

-- A reader has a header only if the bytes are at least a header long and begin with the format's
-- magic number and version.
pub rebind-valid :
    (libs : CodecLibraries) (blob : Bytes)
    → valid (rebind libs blob) ≡ true
    → (header_size ≤ length blob)
      × ((load_header blob).magic ≡ blob_magic)
      × ((load_header blob).version ≡ blob_version)
unfolding rebind
rebind-valid libs blob v =
    let hdr = load_header blob in
    let (long, v1) = valid-if (ltb (length blob) header_size) blob _ v in
    let (magic, v2) = valid-if (not (hdr.magic == blob_magic)) blob _ v1 in
    let (version, _) = valid-if (not (hdr.version == blob_version)) blob _ v2 in
    (
      ground (arith, long),
      (==_iff hdr.magic blob_magic).0 (not-false (hdr.magic == blob_magic) magic),
      (==_iff hdr.version blob_version).0 (not-false (hdr.version == blob_version) version),
    )
