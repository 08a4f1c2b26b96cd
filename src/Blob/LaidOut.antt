-- ===== src/Blob/LaidOut.antt =====
-- The two passes of `finalize` agree on all entries.
use mathlib.Core.Path.{subst}
use slangmake.Prelude.{
  ℕ, suc, ◌^◌, ◌≤◌, ◌<◌, ◌≡◌, sym, ap, ◌∙◌, false, Bytes, List, [], ◌∷◌, ◌++◌, append_assoc,
  append-nil, get_or, length, length-append, get_or-append_left, get_or-length_append, arith, ◌==◌,
}
use native.Mathlib.Decide.{dec_lt}
use slangmake.Blob.Format.{EntryRecord, zero_record, header_size}
use slangmake.Blob.Writer.Layout.{Entry, layout_entries}
use slangmake.Blob.Writer.Emit.{emit_entry, emit_entries}
use slangmake.Blob.Placed.{At, Extends, Extends-refl, Extends-trans, Extends-append, Extends-le}
use slangmake.Blob.EntryPlaces.{
  no_entry, Places, Places-Extends, emit_entry-Extends, layout_entry-Places,
}

-- The entries written so far, and the records filled so far.
pub record Laid (out : Bytes) (recs : List EntryRecord) (done : List Entry) : Type 0 where
  pub count : length recs ≡ length done
  pub places :
      (j : ℕ) → j < length done → Places out (get_or recs j zero_record) (get_or done j no_entry)

Laid-Extends :
    {out out' : Bytes} {recs : List EntryRecord} {done : List Entry}
    → Extends out out'
    → Laid out recs done
    → Laid out' recs done
Laid-Extends x l = record { count = l.count; places = λ j h. Places-Extends x (l.places j h) }

Laid-concat :
    {out : Bytes} {recs : List EntryRecord} {done : List Entry} {r : EntryRecord} {e : Entry}
    → Laid out recs done
    → Places out r e
    → Laid out (recs ++ (r ∷ [])) (done ++ (e ∷ []))
Laid-concat {out} {recs} {done} {r} {e} l p = record {
  count = omega (arith, l.count, length-append recs (r ∷ []), length-append done (e ∷ []));
  places = λ j h. elim (dec_lt j (length done)) [
    | yes k ↦
        rw
          (
            get_or-append_left done (e ∷ []) j no_entry k,
            get_or-append_left recs (r ∷ []) j zero_record (omega (arith, k, l.count)),
          )
          (l.places j k)
    | no k ↦
        let last : j ≡ length done = omega (arith, h, k, length-append done (e ∷ [])) in
        rw
          (
            last,
            get_or-length_append done e [] no_entry,
            ← l.count,
            get_or-length_append recs r [] zero_record,
          )
          p
  ];
}

-- Each index of `canon` is at most its place, and leads to an entry with the same payload.
abbrev pub IsCanonical : (Entry → Bytes) → List Entry → List ℕ → Type 0
IsCanonical payload all canon =
    (k : ℕ)
    → k < length all
    → (get_or canon k 0 ≤ k)
      × (payload (get_or all (get_or canon k 0) no_entry) ≡ payload (get_or all k no_entry))

-- An index that is not its own leads to an entry written before.
canonical_earlier :
    (payload : Entry → Bytes) (all : List Entry) (canon : List ℕ)
    → IsCanonical payload all canon
    → (done : List Entry) (e : Entry) (es : List Entry) (i : ℕ) → all ≡ done ++ (e ∷ es)
    → i ≡ length done
    → (get_or canon i 0 == i) ≡ false
    → (get_or canon i 0 < length done)
      × (payload (get_or done (get_or canon i 0) no_entry) ≡ payload e)
canonical_earlier payload all canon canonical done e es i split here other =
    let inside : i < length all =
      omega (arith, here, ap length split, length-append done (e ∷ es)) in
    let (le, same) = canonical i inside in
    let lt : get_or canon i 0 < length done = ground arith in
    let here_e : get_or all i no_entry ≡ e =
      rw (split, here) (get_or-length_append done e es no_entry) in
    let there : get_or all (get_or canon i 0) no_entry ≡ get_or done (get_or canon i 0) no_entry =
      rw split (get_or-append_left done (e ∷ es) (get_or canon i 0) no_entry lt) in
    (lt, ap payload (sym there) ∙ same ∙ ap payload here_e)

pub emit_entries-Extends :
    (ccs rcs : List ℕ) (i : ℕ) (es : List Entry) (out : Bytes)
    → Extends out (emit_entries ccs rcs i es out)
unfolding emit_entries
emit_entries-Extends ccs rcs i [] out = Extends-refl out
emit_entries-Extends ccs rcs i (e ∷ es) out =
    let out' = emit_entry i (get_or ccs i 0) (get_or rcs i 0) e out in
    Extends-trans out _ _ (Extends-append out (e.key ++ (0 ∷ []))) (
      Extends-trans _ out' _ (emit_entry-Extends i (get_or ccs i 0) (get_or rcs i 0) e out)
        (emit_entries-Extends ccs rcs (suc i) es out'))

module _ (ccs rcs : List ℕ) (all : List Entry) (code_canon : IsCanonical (λ e. e.code) all ccs)
    (refl_canon : IsCanonical (λ e. e.refl) all rcs) where
  pub layout_entries-Laid :
      (es done : List Entry) (i : ℕ) (out : Bytes) (cursor : ℕ) (recs : List EntryRecord)
      → all ≡ done ++ es
      → i ≡ length done
      → length out ≡ cursor
      → header_size ≤ cursor
      → Laid out recs done
      → length (emit_entries ccs rcs i es out) < 2 ^ 32
      → (length (emit_entries ccs rcs i es out) ≡ (layout_entries ccs rcs i es cursor recs).0)
        × Laid (emit_entries ccs rcs i es out) (layout_entries ccs rcs i es cursor recs).1 all
  unfolding layout_entries emit_entries
  layout_entries-Laid [] done i out cursor recs split here at_end far laid fits =
      (at_end, rw (split, append-nil) laid)
  layout_entries-Laid (e ∷ es) done i out cursor recs split here at_end far laid fits =
      let out' = emit_entry i (get_or ccs i 0) (get_or rcs i 0) e out in
      let small : length out' < 2 ^ 32 =
        omega (arith, fits, Extends-le _ _ (emit_entries-Extends ccs rcs (suc i) es out')) in
      let (length_out', placed) =
        layout_entry-Places i (get_or ccs i 0) (get_or rcs i 0) e out cursor recs at_end far small
          (λ other.
            let (lt, same) =
              canonical_earlier (λ x. x.code) all ccs code_canon done e es i split here other in
            let p = laid.places (get_or ccs i 0) lt in
            (subst (At out _) same p.code_at, p.code_len ∙ ap length same, p.code_behind))
          (λ other.
            let (lt, same) =
              canonical_earlier (λ x. x.refl) all rcs refl_canon done e es i split here other in
            let p = laid.places (get_or rcs i 0) lt in
            (subst (At out _) same p.refl_at, p.refl_len ∙ ap length same, p.refl_behind)) in
      let whole =
        Extends-trans out _ out' (Extends-append out (e.key ++ (0 ∷ [])))
          (emit_entry-Extends i (get_or ccs i 0) (get_or rcs i 0) e out) in
      layout_entries-Laid es (done ++ (e ∷ [])) (suc i) out' _ _
        (split ∙ sym (append_assoc done (e ∷ []) es))
        (omega (arith, here, length-append done (e ∷ []))) length_out'
        (omega (arith, length_out', Extends-le out out' whole, at_end, far))
        (Laid-concat (Laid-Extends whole laid) placed) fits
