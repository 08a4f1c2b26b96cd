-- ===== src/Permutation/Key.antt =====
-- The key of a permutation does not depend on the order in which its bindings are listed.
use mathlib.Core.List.{Permᴰ, Memᴰ, Perm, is_set}
use mathlib.Core.Logic.{∥∥₁_elim}
use native.Mathlib.Nat.{ℕ_set}
use slangmake.Prelude.{◌≡◌, refl, ap, ◌∙◌, List, is_empty, bytes_lt_connex}
use slangmake.Prelude.Sort.{sort-Permᴰ, Separates}
use slangmake.Permutation.{ShaderConstant, Permutation, by_name, join, join_sorted, type_part, key}

-- No name is bound to two values.
abbrev pub IsConsistent : List ShaderConstant → Type 0
IsConsistent cs = (a b : ShaderConstant) → Memᴰ a cs → Memᴰ b cs → a.name ≡ b.name → a ≡ b

IsConsistent-Separates : (cs : List ShaderConstant) → IsConsistent cs → Separates by_name cs
IsConsistent-Separates cs h a b m n p q = h a b m n (bytes_lt_connex a.name b.name p q)

join_sorted-Permᴰ :
    {xs ys : List ShaderConstant} → IsConsistent xs → Permᴰ xs ys → join_sorted xs ≡ join_sorted ys
unfolding join_sorted
join_sorted-Permᴰ {xs} h p = ap join (sort-Permᴰ by_name p (IsConsistent-Separates xs h))

is_empty-Permᴰ : {xs ys : List ShaderConstant} → Permᴰ xs ys → is_empty xs ≡ is_empty ys
is_empty-Permᴰ Permᴰ.nil = refl
is_empty-Permᴰ (Permᴰ.cons e p) = refl
is_empty-Permᴰ (Permᴰ.swap e f) = refl
is_empty-Permᴰ (Permᴰ.trans p q) = is_empty-Permᴰ p ∙ is_empty-Permᴰ q

type_part-Permᴰ :
    {xs ys : List ShaderConstant} → IsConsistent xs → Permᴰ xs ys → type_part xs ≡ type_part ys
unfolding type_part
type_part-Permᴰ h p = rw (is_empty-Permᴰ p, join_sorted-Permᴰ h p)

-- Two permutations with the same bindings, in whatever order they are listed, have one key,
-- as long as neither list binds one name to two values.
pub key-perm :
    (p q : Permutation)
    → IsConsistent p.constants
    → IsConsistent p.type_args
    → Perm p.constants q.constants
    → Perm p.type_args q.type_args
    → key p ≡ key q
key-perm p q hc ht pc pt =
    ∥∥₁_elim pc (is_set ℕ_set _ _) λ c. ∥∥₁_elim pt (is_set ℕ_set _ _) λ t. go c t
  where
    go : Permᴰ p.constants q.constants → Permᴰ p.type_args q.type_args → key p ≡ key q
    go c t = unfold key in cc (join_sorted-Permᴰ hc c, type_part-Permᴰ ht t)
