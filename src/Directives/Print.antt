-- ===== src/Directives/Print.antt =====
-- Value lists as text, and how the scanners read them.
use slangmake.Prelude.{
  ℕ, ◌+◌, ◌≡◌, refl, ap, ◌∙◌, sym, Bool, true, false, not, ◌&&◌, ◌||◌, Bytes, codes, List, [], ◌∷◌,
  ◌++◌, append-nil, append_assoc, some, ◌==◌, All, All-append, arith, length, take-length_append,
}
use slangmake.Permutation.{Kind, PermutationDefine}
use slangmake.Directives.Nesting.{
  flat, advance, advance_plain, at_end, find_end, find_value_list_end,
}
use slangmake.Directives.Values.{flush_token, separates, all_closed, values_from, parse_values}
use slangmake.Directives.{parse_braced, marker_constant, marker_type}
use slangmake.Directives.WellFormed.{IsValue}

-- A byte that neither ends a line nor opens a comment behind a `/`.
abbrev pub is_text : ℕ → Bool
is_text c = not ((c == b'*') || (c == 10))

-- A byte of text that is no bracket, no quote and no comma.
abbrev pub is_plain : ℕ → Bool
is_plain c =
    is_text c
    && not (
        (c == 34)
        || ((c == 39)
            || ((c == b'<')
                || ((c == b'>')
                    || ((c == b'(')
                        || ((c == b')')
                            || ((c == b'[')
                                || ((c == b']')
                                    || ((c == b'{') || ((c == b'}') || (c == b',')))))))))))

abbrev pub AllBytes : (ℕ → Bool) → Bytes → Type 0
AllBytes p = All (λ (c : ℕ). p c ≡ true)

abbrev pub IsPlain : Bytes → Type 0
IsPlain = AllBytes is_plain

-- The values between the braces.
abbrev pub print_values : List Bytes → Bytes
print_values [] = []
print_values (v ∷ []) = v
print_values (v ∷ w ∷ vs) = v ++ (b',' ∷ print_values (w ∷ vs))

abbrev pub marker_of : Kind → Bytes
marker_of Kind.constant = marker_constant
marker_of Kind.type = marker_type

abbrev pub print_line : PermutationDefine → Bytes
print_line d =
    codes "// "
    ++ (marker_of d.kind ++ (b' ' ∷ d.name ++ (b'=' ∷ b'{' ∷ print_values d.values ++ (b'}' ∷ []))))

abbrev pub print : List PermutationDefine → Bytes
print [] = []
print (d ∷ ds) = print_line d ++ (10 ∷ print ds)

advance-plain :
    (allow_angle : Bool) (c : ℕ) → is_plain c ≡ true → advance allow_angle c flat ≡ some flat
unfolding advance advance_plain
advance-plain allow_angle c h = ground arith

separates-plain : (c : ℕ) → is_plain c ≡ true → separates c flat ≡ false
unfolding separates
separates-plain c h = ground arith

values_from-plain :
    (allow_angle : Bool) (v s token : Bytes) (values : List Bytes)
    → IsPlain v
    → values_from allow_angle (v ++ s) flat token values
      ≡ values_from allow_angle s flat (token ++ v) values
unfolding values_from
values_from-plain allow_angle [] s token values h =
    ap (λ t. values_from allow_angle s flat t values) (sym (append-nil token))
values_from-plain allow_angle (c ∷ v) s token values h =
    rw (separates-plain c h.0, advance-plain allow_angle c h.0, values_from)
      (values_from-plain allow_angle v s (token ++ (c ∷ [])) values h.1
        ∙ ap (λ t. values_from allow_angle s flat t values) (append_assoc token (c ∷ []) v))

flush_token-value :
    (v : Bytes) (values : List Bytes) → IsValue v → flush_token v values ≡ values ++ (v ∷ [])
unfolding flush_token
flush_token-value [] values h = absurd (h.full refl)
flush_token-value (c ∷ v) values h = rw h.trimmed refl

values_from-print_values :
    (allow_angle : Bool) (v : Bytes) (vs values : List Bytes)
    → All IsValue (v ∷ vs)
    → All IsPlain (v ∷ vs)
    → values_from allow_angle (print_values (v ∷ vs)) flat [] values ≡ some (values ++ (v ∷ vs))
unfolding values_from separates all_closed
values_from-print_values allow_angle v [] values h p =
    ap (λ t. values_from allow_angle t flat [] values) (sym (append-nil v))
    ∙ values_from-plain allow_angle v [] [] values p.0
    ∙ ap some (flush_token-value v values h.0)
values_from-print_values allow_angle v (w ∷ vs) values h p =
    values_from-plain allow_angle v (b',' ∷ print_values (w ∷ vs)) [] values p.0
    ∙ ap (values_from allow_angle (print_values (w ∷ vs)) flat []) (flush_token-value v values h.0)
    ∙ values_from-print_values allow_angle w vs (values ++ (v ∷ [])) h.1 p.1
    ∙ ap some (append_assoc values (v ∷ []) (w ∷ vs))

-- The bytes of a printed value list.
abbrev pub is_inner : ℕ → Bool
is_inner c = is_plain c || (c == b',')

advance-inner :
    (allow_angle : Bool) (c : ℕ) → is_inner c ≡ true → advance allow_angle c flat ≡ some flat
unfolding advance advance_plain
advance-inner allow_angle c h = ground arith

at_end-inner : (c : ℕ) → is_inner c ≡ true → at_end c flat ≡ false
unfolding at_end
at_end-inner c h = ground arith

pub AllBytes-append :
    (p : ℕ → Bool) (a b : Bytes) → AllBytes p a → AllBytes p b → AllBytes p (a ++ b)
AllBytes-append p = All-append (λ c. p c ≡ true)

pub AllBytes-weaken :
    (p q : ℕ → Bool) (s : Bytes) → ((c : ℕ) → p c ≡ true → q c ≡ true) → AllBytes p s → AllBytes q s
AllBytes-weaken p q [] f h = tt
AllBytes-weaken p q (c ∷ s) f h = (f c h.0, AllBytes-weaken p q s f h.1)

pub print_values-inner : (vs : List Bytes) → All IsPlain vs → AllBytes is_inner (print_values vs)
print_values-inner [] h = tt
print_values-inner (v ∷ []) h = AllBytes-weaken is_plain is_inner v (λ c e. ground arith) h.0
print_values-inner (v ∷ w ∷ vs) h =
    AllBytes-append is_inner v (b',' ∷ print_values (w ∷ vs))
      (AllBytes-weaken is_plain is_inner v (λ c e. ground arith) h.0)
      (refl, print_values-inner (w ∷ vs) h.1)

find_end-inner :
    (allow_angle : Bool) (i : ℕ) (v s : Bytes)
    → AllBytes is_inner v
    → find_end allow_angle i (v ++ s) flat ≡ find_end allow_angle (i + length v) s flat
unfolding find_end
find_end-inner allow_angle i [] s h = ap (λ k. find_end allow_angle k s flat) (omega arith)
find_end-inner allow_angle i (c ∷ v) s h =
    rw (at_end-inner c h.0, advance-inner allow_angle c h.0, find_end)
      (find_end-inner allow_angle (i + 1) v s h.1
        ∙ ap (λ k. find_end allow_angle k s flat) (omega arith))

find_value_list_end-print_values :
    (allow_angle : Bool) (vs : List Bytes) (s : Bytes)
    → All IsPlain vs
    → find_value_list_end allow_angle (print_values vs ++ (b'}' ∷ s))
      ≡ some (length (print_values vs))
unfolding find_value_list_end find_end at_end
find_value_list_end-print_values allow_angle vs s h =
    find_end-inner allow_angle 0 (print_values vs) (b'}' ∷ s) (print_values-inner vs h)
    ∙ ap some (omega arith)

pub parse_braced-print_values :
    (allow_angle : Bool) (v : Bytes) (vs : List Bytes) (s : Bytes)
    → All IsValue (v ∷ vs)
    → All IsPlain (v ∷ vs)
    → parse_braced allow_angle (print_values (v ∷ vs) ++ (b'}' ∷ s)) ≡ some (v ∷ vs)
unfolding parse_braced parse_values
parse_braced-print_values allow_angle v vs s h p =
    rw
      (
        find_value_list_end-print_values allow_angle (v ∷ vs) s p,
        take-length_append (print_values (v ∷ vs)) (b'}' ∷ s),
        values_from-print_values allow_angle v vs [] h p,
      )
      refl
