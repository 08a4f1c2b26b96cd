-- ===== src/Blob/EntryPlaces.antt =====
-- One entry in the two passes of `finalize`: its bytes stand where its record says.
use slangmake.Prelude.{
  ℕ, ◌+◌, ◌^◌, ◌≤◌, ◌<◌, ◌≡◌, refl, ap, ◌∙◌, Bool, true, false, Bytes, List, [], ◌∷◌, ◌++◌, get_or,
  length, length-append, arith, ◌==◌,
}
use slangmake.Blob.Format.{EntryRecord, zero_record, header_size}
use slangmake.Blob.Writer.Layout.{Entry, u32, align8, place, layout_entry}
use slangmake.Blob.Writer.Emit.{pad_to8, emit_payload, emit_entry}
use slangmake.Blob.Placed.{
  At, Extends, Extends-refl, Extends-trans, Extends-append, Extends-le, At-end, At-Extends,
}
use slangmake.Blob.Padding.{length-pad_to8, pad_to8-Extends}

abbrev pub no_entry : Entry
no_entry = record { key = []; code = []; refl = []; dep_indices = [] }

-- What a record says of its entry.
pub record Places (out : Bytes) (r : EntryRecord) (e : Entry) : Type 0 where
  pub key_at : At out r.key_offset (e.key ++ (0 ∷ []))
  pub key_len : r.key_size ≡ length e.key + 1
  pub code_at : At out r.code_offset e.code
  pub code_len : r.code_size ≡ length e.code
  pub refl_at : At out r.refl_offset e.refl
  pub refl_len : r.refl_size ≡ length e.refl
  -- nothing stands in the header
  pub key_behind : header_size ≤ r.key_offset
  pub code_behind : header_size ≤ r.code_offset
  pub refl_behind : header_size ≤ r.refl_offset

pub Places-Extends :
    {out out' : Bytes} {r : EntryRecord} {e : Entry}
    → Extends out out'
    → Places out r e
    → Places out' r e
Places-Extends x p = record {
  key_at = At-Extends x p.key_at;
  key_len = p.key_len;
  code_at = At-Extends x p.code_at;
  code_len = p.code_len;
  refl_at = At-Extends x p.refl_at;
  refl_len = p.refl_len;
  key_behind = p.key_behind;
  code_behind = p.code_behind;
  refl_behind = p.refl_behind;
}

u32-eq : (n : ℕ) → n < 2 ^ 32 → u32 n ≡ n
u32-eq n h = omega arith

emit_payload-Extends : (own : Bool) (p out : Bytes) → Extends out (emit_payload own p out)
unfolding emit_payload
emit_payload-Extends true p out =
    Extends-trans out (pad_to8 out) _ (pad_to8-Extends out) (Extends-append (pad_to8 out) p)
emit_payload-Extends false p out = Extends-refl out

-- What `place` returns fits the buffer that `emit_payload` makes.
record Fits (out p : Bytes) (t : ℕ × ℕ × ℕ) : Type 0 where
  cursor : length out ≡ t.0
  stands : At out t.1 p
  size : t.2 ≡ length p
  behind : header_size ≤ t.1

place-Fits :
    (own : Bool) (p out : Bytes) (cursor off size : ℕ)
    → length out ≡ cursor
    → header_size ≤ cursor
    → length (emit_payload own p out) < 2 ^ 32
    → (own ≡ false → At out off p × (size ≡ length p) × (header_size ≤ off))
    → Fits (emit_payload own p out) p (place own p cursor off size)
unfolding emit_payload place
place-Fits true p out cursor off size e far fits shared =
    let l : length (pad_to8 out) ≡ align8 cursor = length-pad_to8 out ∙ ap align8 e in
    let n = length-append (pad_to8 out) p in
    record {
      cursor = omega (arith, l, n);
      stands =
          rw (u32-eq (align8 cursor) (omega (arith, l, n, fits)), ← l) (At-end (pad_to8 out) p);
      size = omega (arith, n, fits);
      behind = omega (arith, l, n, fits, far);
    }
place-Fits false p out cursor off size e far fits shared = record {
  cursor = e;
  stands = (shared refl).0;
  size = (shared refl).1;
  behind = (shared refl).2;
}

pub emit_entry-Extends :
    (i cc rc : ℕ) (e : Entry) (out : Bytes)
    → Extends (out ++ (e.key ++ (0 ∷ []))) (emit_entry i cc rc e out)
unfolding emit_entry
emit_entry-Extends i cc rc e out =
    Extends-trans _ _ _ (emit_payload-Extends (cc == i) e.code _)
      (emit_payload-Extends (rc == i) e.refl _)

-- One entry: `recs` fit the entries before it, and each canonical index is its own or that of an
-- earlier entry with the same payload.
module _ (i cc rc : ℕ) (e : Entry) (out : Bytes) (cursor : ℕ) (recs : List EntryRecord)
    (at_end : length out ≡ cursor) (far : header_size ≤ cursor)
    (fits : length (emit_entry i cc rc e out) < 2 ^ 32)
    (code_shared : (cc == i) ≡ false
      → At out (get_or recs cc zero_record).code_offset e.code
        × ((get_or recs cc zero_record).code_size ≡ length e.code)
        × (header_size ≤ (get_or recs cc zero_record).code_offset))
    (refl_shared : (rc == i) ≡ false
      → At out (get_or recs rc zero_record).refl_offset e.refl
        × ((get_or recs rc zero_record).refl_size ≡ length e.refl)
        × (header_size ≤ (get_or recs rc zero_record).refl_offset)) where
  abbrev with_key : Bytes
  with_key = out ++ (e.key ++ (0 ∷ []))

  abbrev with_code : Bytes
  with_code = emit_payload (cc == i) e.code with_key

  length-with_key : length with_key ≡ cursor + (length e.key + 1)
  length-with_key =
      omega (arith, at_end, length-append out (e.key ++ (0 ∷ [])), length-append e.key (0 ∷ []))

  with_code-le : length with_code ≤ length (emit_entry i cc rc e out)
  unfolding emit_entry
  with_code-le = Extends-le _ _ (emit_payload-Extends (rc == i) e.refl with_code)

  with_key-le : length with_key ≤ length with_code
  with_key-le = Extends-le _ _ (emit_payload-Extends (cc == i) e.code with_key)

  code_Fits : Fits with_code e.code (
      place
        (cc == i)
        e.code
        (cursor + (length e.key + 1))
        (get_or recs cc zero_record).code_offset
        (get_or recs cc zero_record).code_size)
  code_Fits =
      place-Fits (cc == i) e.code with_key _ _ _ length-with_key (omega (arith, far))
        (omega (arith, with_code-le, fits))
        (λ h. (
          At-Extends (Extends-append out _) (code_shared h).0,
          (code_shared h).1,
          (code_shared h).2,
        ))

  pub layout_entry-Places :
      (length (emit_entry i cc rc e out) ≡ (layout_entry i cc rc e cursor recs).0)
      × Places (emit_entry i cc rc e out) (layout_entry i cc rc e cursor recs).1 e
  unfolding layout_entry emit_entry
  layout_entry-Places =
      let c = code_Fits in
      let r =
        place-Fits (rc == i) e.refl with_code _ _ _ c.cursor
          (omega (arith, c.cursor, far, length-with_key, with_key-le)) fits
          (λ h. (
            At-Extends (emit_payload-Extends (cc == i) e.code with_key)
                (At-Extends (Extends-append out _) (refl_shared h).0),
            (refl_shared h).1,
            (refl_shared h).2,
          )) in
      let whole = emit_entry-Extends i cc rc e out in
      let small : cursor < 2 ^ 32 = omega (arith, fits, Extends-le _ _ whole, length-with_key) in
      (
        r.cursor,
        record {
          key_at =
              rw (u32-eq cursor small, ← at_end)
                (At-Extends whole (At-end out (e.key ++ (0 ∷ []))));
          key_len = omega (arith, fits, Extends-le _ _ whole, length-with_key);
          code_at = At-Extends (emit_payload-Extends (rc == i) e.refl with_code) c.stands;
          code_len = c.size;
          refl_at = r.stands;
          refl_len = r.size;
          key_behind = omega (arith, far, small);
          code_behind = c.behind;
          refl_behind = r.behind;
        },
      )
