-- ===== src/Blob/Placed.antt =====
-- Where a run of bytes stands in a buffer that grows at its end.
use slangmake.Prelude.{
  ℕ, ◌-◌, ◌+◌, ◌≤◌, ◌≡◌, refl, sym, ap, ◌∙◌, Bytes, [], ◌++◌, append-nil, append_assoc, length,
  length-append, drop, take, take-append-drop, length-take, drop-append, take-length_append,
  drop-length_append, arith,
}
use slangmake.Blob.Format.{slice}

-- `bs` stands at offset `off` of `blob`.
pub record At (blob : Bytes) (off : ℕ) (bs : Bytes) : Type 0 where
  pub before : Bytes
  pub behind : Bytes
  pub splits : blob ≡ before ++ (bs ++ behind)
  pub offset : length before ≡ off

-- `out'` is `out` with bytes behind it.
abbrev pub Extends : Bytes → Bytes → Type 0
Extends out out' = (more : Bytes) × (out' ≡ out ++ more)

pub Extends-refl : (out : Bytes) → Extends out out
Extends-refl out = ([], sym (append-nil out))

pub Extends-trans : (a b c : Bytes) → Extends a b → Extends b c → Extends a c
Extends-trans a b c (m, e) (n, f) = (m ++ n, f ∙ ap (λ t. t ++ n) e ∙ append_assoc a m n)

pub Extends-append : (a b : Bytes) → Extends a (a ++ b)
Extends-append a b = (b, refl)

pub Extends-le : (a b : Bytes) → Extends a b → length a ≤ length b
Extends-le a b (m, e) = omega (arith, ap length e, length-append a m)

pub At-end : (out bs : Bytes) → At (out ++ bs) (length out) bs
At-end out bs = record {
  before = out;
  behind = [];
  splits = ap (◌++◌ out) (sym (append-nil bs));
  offset = refl;
}

pub At-Extends : {out out' bs : Bytes} {off : ℕ} → Extends out out' → At out off bs → At out' off bs
At-Extends {bs = bs} (m, e) a = record {
  before = a.before;
  behind = a.behind ++ m;
  splits =
      e
      ∙ ap (λ t. t ++ m) a.splits
      ∙ append_assoc a.before (bs ++ a.behind) m
      ∙ ap (◌++◌ a.before) (append_assoc bs a.behind m);
  offset = a.offset;
}

-- The same place in an equal buffer.
pub At-eq :
    {blob blob' bs : Bytes} {off off' : ℕ}
    → blob' ≡ blob
    → off ≡ off'
    → At blob off bs
    → At blob' off' bs
At-eq e f a = record {
  before = a.before;
  behind = a.behind;
  splits = e ∙ a.splits;
  offset = a.offset ∙ f;
}

pub At-le : {blob bs : Bytes} {off : ℕ} → At blob off bs → off + length bs ≤ length blob
At-le {bs = bs} a = omega (
  arith,
  ap length a.splits,
  a.offset,
  length-append a.before (bs ++ a.behind),
  length-append bs a.behind,
)

pub At-drop :
    {blob bs : Bytes} {off : ℕ} → At blob off bs → (rest : Bytes) × (drop off blob ≡ bs ++ rest)
At-drop {bs = bs} a =
    (a.behind, rw (← a.offset, a.splits) (drop-length_append a.before (bs ++ a.behind)))

pub At-slice : {blob bs : Bytes} {off : ℕ} → At blob off bs → slice blob off (length bs) ≡ bs
At-slice {bs = bs} a = let (rest, e) = At-drop a in rw e (take-length_append bs rest)

pub At-left : {blob : Bytes} {off : ℕ} (a b : Bytes) → At blob off (a ++ b) → At blob off a
At-left a b h = record {
  before = h.before;
  behind = b ++ h.behind;
  splits = h.splits ∙ ap (◌++◌ h.before) (append_assoc a b h.behind);
  offset = h.offset;
}

pub At-right :
    {blob : Bytes} {off : ℕ} (a b : Bytes) → At blob off (a ++ b) → At blob (off + length a) b
At-right a b h = record {
  before = h.before ++ a;
  behind = h.behind;
  splits =
      h.splits
      ∙ ap (◌++◌ h.before) (append_assoc a b h.behind)
      ∙ sym (append_assoc h.before a (b ++ h.behind));
  offset = omega (arith, length-append h.before a, h.offset);
}

At-of_drop :
    (blob bs rest : Bytes) (off : ℕ)
    → off ≤ length blob
    → drop off blob ≡ bs ++ rest
    → At blob off bs
At-of_drop blob bs rest off h e = record {
  before = take off blob;
  behind = rest;
  splits = sym (take-append-drop off blob) ∙ ap (◌++◌ (take off blob)) e;
  offset = length-take off blob h;
}

-- Another front of the same length leaves what stands behind it in its place.
pub At-other_front :
    (h h' more : Bytes) {bs : Bytes} {off : ℕ}
    → length h ≡ length h'
    → length h ≤ off
    → At (h ++ more) off bs
    → At (h' ++ more) off bs
At-other_front h h' more {bs} {off} same inside a =
    let (rest, e) = At-drop a in
    let tail : drop (off - length h) more ≡ bs ++ rest = sym (drop-append h more off inside) ∙ e in
    At-of_drop (h' ++ more) bs rest off
      (omega (arith, At-le a, length-append h more, length-append h' more, same))
      (drop-append h' more off (omega (arith, same, inside)) ∙ rw (← same) tail)
