-- ===== src/Blob/Padding.antt =====
-- The padding loops end: the buffer grows to the next multiple, or to the asked size.
use slangmake.Prelude.{
  ℕ, zero, suc, ◌+◌, ◌%◌, ◌≤◌, ◌≡◌, refl, inl, inr, Bytes, [], ◌∷◌, ◌++◌, length, length-append,
  arith, Bool-cases, ◌==◌, ltb,
}
use slangmake.Blob.Placed.{Extends, Extends-refl, Extends-trans, Extends-append}
use slangmake.Blob.Writer.Layout.{align8, align4}
use slangmake.Blob.Writer.Emit.{pad_loop, pad_to8, pad_to4, pad_until_loop, pad_until}

pad_loop-Extends : (k fuel : ℕ) (out : Bytes) → Extends out (pad_loop k fuel out)
unfolding pad_loop
pad_loop-Extends k zero out = Extends-refl out
pad_loop-Extends k (suc fuel) out = elim (Bool-cases (length out % k == 0)) [
  | inl e ↦ rw e (Extends-refl out)
  | inr e ↦ rw e (
      Extends-trans out (out ++ (0 ∷ [])) _ (Extends-append out (0 ∷ []))
        (pad_loop-Extends k fuel (out ++ (0 ∷ []))))
]

length-pad_loop_8 :
    (fuel : ℕ) (out : Bytes)
    → align8 (length out) ≤ length out + fuel
    → length (pad_loop 8 fuel out) ≡ align8 (length out)
unfolding pad_loop
length-pad_loop_8 zero out h = omega arith
length-pad_loop_8 (suc fuel) out h =
    ground (arith, length-pad_loop_8 fuel (out ++ (0 ∷ [])), length-append out (0 ∷ []))

length-pad_loop_4 :
    (fuel : ℕ) (out : Bytes)
    → align4 (length out) ≤ length out + fuel
    → length (pad_loop 4 fuel out) ≡ align4 (length out)
unfolding pad_loop
length-pad_loop_4 zero out h = omega arith
length-pad_loop_4 (suc fuel) out h =
    ground (arith, length-pad_loop_4 fuel (out ++ (0 ∷ [])), length-append out (0 ∷ []))

pub length-pad_to8 : (out : Bytes) → length (pad_to8 out) ≡ align8 (length out)
unfolding pad_to8
length-pad_to8 out = length-pad_loop_8 8 out (omega arith)

pub length-pad_to4 : (out : Bytes) → length (pad_to4 out) ≡ align4 (length out)
unfolding pad_to4
length-pad_to4 out = length-pad_loop_4 4 out (omega arith)

pub pad_to8-Extends : (out : Bytes) → Extends out (pad_to8 out)
unfolding pad_to8
pad_to8-Extends out = pad_loop-Extends 8 8 out

pub pad_to4-Extends : (out : Bytes) → Extends out (pad_to4 out)
unfolding pad_to4
pad_to4-Extends out = pad_loop-Extends 4 4 out

pub pad_until_full : (n : ℕ) (out : Bytes) → n ≤ length out → pad_until n out ≡ out
unfolding pad_until pad_until_loop
pad_until_full zero out h = refl
pad_until_full (suc n) out h = ground arith

pad_until_loop-Extends : (fuel n : ℕ) (out : Bytes) → Extends out (pad_until_loop fuel n out)
unfolding pad_until_loop
pad_until_loop-Extends zero n out = Extends-refl out
pad_until_loop-Extends (suc fuel) n out = elim (Bool-cases (ltb (length out) n)) [
  | inl e ↦ rw e (
      Extends-trans out (out ++ (0 ∷ [])) _ (Extends-append out (0 ∷ []))
        (pad_until_loop-Extends fuel n (out ++ (0 ∷ []))))
  | inr e ↦ rw e (Extends-refl out)
]

pub pad_until-Extends : (n : ℕ) (out : Bytes) → Extends out (pad_until n out)
unfolding pad_until
pad_until-Extends n out = pad_until_loop-Extends n n out
