-- ===== src/Reflection/Decode/Safety.antt =====
-- Decoding reads inside the spans wherever the ranges that the tables name lie inside them.
use mathlib.Core.Option.{some-injective}
use mathlib.Core.Path.{subst}
use slangmake.Prelude.{
  ℕ, zero, suc, ◌+◌, ◌^◌, ◌≤◌, ◌<◌, ◌≡◌, refl, ap, ◌∙◌, inl, inr, List, [], ◌∷◌, All, some, Bytes,
  map, Option-cases, get_elem?, length, arith, Bool-cases, leb, take, drop,
}
use slangmake.Blob.Writer.Layout.{u32}
use slangmake.Reflection.Format.Attributes.{AttrArg, Attribute, Decl}
use slangmake.Reflection.Format.EntryPoints.{EntryPoint}
use slangmake.Reflection.View.{
  ReflectionView, string, entry_points, attributes, attribute_args, u32_pool, decls,
}
use slangmake.Reflection.Decode.{
  read_run, decode_attributes, EntryPointInfo, entry_point_info, decode_entry_point, decode_all,
  decoded_entry_points, params_of, subspan, decl_children, no_node, DeclNode, node_of, decl,
}

-- The elements from index `off` on.
pub get_elem?-inside {ℓ} :
    {A : Type ℓ} (xs : List A) (i : ℕ)
    → i < length xs
    → (x : A) × (get_elem? xs i ≡ some x) × (drop i xs ≡ x ∷ drop (suc i) xs)
get_elem?-inside [] i h = elim h [ ]
get_elem?-inside (x ∷ xs) zero h = (x, refl, refl)
get_elem?-inside (x ∷ xs) (suc i) h = get_elem?-inside xs i (omega arith)

-- A run inside the span is the slice of the list.
pub read_run-inside {ℓ} :
    {A : Type ℓ} (xs : List A) (off k n : ℕ)
    → off + k + n ≤ length xs
    → length xs < 2 ^ 32
    → read_run xs off k n ≡ some (take n (drop (off + k) xs))
unfolding read_run
read_run-inside xs off k zero h l = refl
read_run-inside xs off k (suc n) h l =
    let (x, e, f) = get_elem?-inside xs (off + k) (omega (arith, h)) in
    let same : u32 (off + k) ≡ off + k = omega (arith, h, l) in
    let next : off + suc k ≡ suc (off + k) = omega arith in
    let more = read_run-inside xs off (suc k) n (omega (arith, h)) l in rw (same, e, f, more, next)

pub read_run-start {ℓ} :
    {A : Type ℓ} (xs : List A) (off n : ℕ)
    → off + n ≤ length xs
    → length xs < 2 ^ 32
    → read_run xs off 0 n ≡ some (take n (drop off xs))
read_run-start xs off n h l =
    let same : off + 0 ≡ off = omega arith in
    read_run-inside xs off 0 n (omega (arith, h)) l ∙ ap (λ k. some (take n (drop k xs))) same

-- The arguments of an attribute lie in the table of arguments.
abbrev pub HasArgs : ℕ → Attribute → Type 0
HasArgs n a = a.arg_off + a.arg_count ≤ n

-- The parameters and the attributes of an entry point lie in their tables.
pub record HasRanges (pool attrs : ℕ) (ep : EntryPoint) : Type 0 where
  pub params_inside : ep.param_var_layout_off + ep.param_var_layout_count ≤ pool
  pub attrs_inside : ep.attr_off + ep.attr_count ≤ attrs

-- What `decodedEntryPoints` takes for granted.
pub record IsDecodable (v : ReflectionView) : Type 0 where
  pub pool_fits : length (u32_pool v) < 2 ^ 32
  pub attrs_fit : length (attributes v) < 2 ^ 32
  pub args_fit : length (attribute_args v) < 2 ^ 32
  pub args : All (HasArgs (length (attribute_args v))) (attributes v)
  pub ranges : All (HasRanges (length (u32_pool v)) (length (attributes v))) (entry_points v)

All-slice {ℓ κ} :
    {A : Type ℓ} (P : A → Type κ) (xs : List A) (n off : ℕ)
    → All P xs
    → All P (take n (drop off xs))
All-slice P xs zero off h = tt
All-slice P [] (suc n) zero h = tt
All-slice P [] (suc n) (suc off) h = tt
All-slice P (x ∷ xs) (suc n) zero h = (h.0, All-slice P xs n zero h.1)
All-slice P (x ∷ xs) (suc n) (suc off) h = All-slice P xs (suc n) off h.1

decode_attributes-defined :
    (v : ReflectionView) (found : List Attribute)
    → length (attribute_args v) < 2 ^ 32
    → All (HasArgs (length (attribute_args v))) found
    → (r : List (Bytes × List AttrArg)) × (decode_attributes v found ≡ some r)
      × (map (λ p. p.0) r ≡ map (λ (a : Attribute). string v a.name_str_idx) found)
unfolding decode_attributes
decode_attributes-defined v [] l h = ([], refl, refl)
decode_attributes-defined v (a ∷ more) l h =
    let (rest, e, f) = decode_attributes-defined v more l h.1 in
    let args = take a.arg_count (drop a.arg_off (attribute_args v)) in
    let run = read_run-start (attribute_args v) a.arg_off a.arg_count h.0 l in
    ((string v a.name_str_idx, args) ∷ rest, rw (run, e) refl, ap (◌∷◌ (string v a.name_str_idx)) f)

-- What the decoded entry point shows: its parameters are those that the slice of the pool names.
pub record Decoded (v : ReflectionView) (ep : EntryPoint) (info : EntryPointInfo) : Type 0 where
  pub name : info.name ≡ string v ep.name_str_idx
  pub parameters :
      info.parameters
      ≡ params_of v (take ep.param_var_layout_count (drop ep.param_var_layout_off (u32_pool v)))
  pub attributes :
      map (λ p. p.0) info.attributes
      ≡ map
          (λ (a : Attribute). string v a.name_str_idx)
          (take ep.attr_count (drop ep.attr_off (attributes v)))

decode_entry_point-Decoded :
    (v : ReflectionView) (ep : EntryPoint)
    → IsDecodable v
    → HasRanges (length (u32_pool v)) (length (attributes v)) ep
    → (info : EntryPointInfo) × (decode_entry_point v ep ≡ some info) × Decoded v ep info
unfolding decode_entry_point entry_point_info
decode_entry_point-Decoded v ep ok h =
    let indices = take ep.param_var_layout_count (drop ep.param_var_layout_off (u32_pool v)) in
    let found = take ep.attr_count (drop ep.attr_off (attributes v)) in
    let (attrs, e, names) = decode_attributes-defined v found ok.args_fit (
      All-slice (HasArgs (length (attribute_args v))) (attributes v) ep.attr_count ep.attr_off
        ok.args) in
    (
      entry_point_info v ep indices attrs,
      rw
          (
            read_run-start (u32_pool v) ep.param_var_layout_off ep.param_var_layout_count
                h.params_inside ok.pool_fits,
            read_run-start (attributes v) ep.attr_off ep.attr_count h.attrs_inside ok.attrs_fit,
            e,
          )
          refl,
      record { name = refl; parameters = refl; attributes = names },
    )

-- The lists correspond element by element.
abbrev pub AllDecoded : ReflectionView → List EntryPoint → List EntryPointInfo → Type 0
AllDecoded v [] [] = Unit
AllDecoded v (ep ∷ eps) (i ∷ is) = Decoded v ep i × AllDecoded v eps is
AllDecoded v _ _ = ⊥

decode_all-AllDecoded :
    (v : ReflectionView) (eps : List EntryPoint)
    → IsDecodable v
    → All (HasRanges (length (u32_pool v)) (length (attributes v))) eps
    → (infos : List EntryPointInfo) × (decode_all v eps ≡ some infos) × AllDecoded v eps infos
unfolding decode_all
decode_all-AllDecoded v [] ok h = ([], refl, tt)
decode_all-AllDecoded v (ep ∷ eps) ok h =
    let (info, e, d) = decode_entry_point-Decoded v ep ok h.0 in
    let (rest, f, ds) = decode_all-AllDecoded v eps ok h.1 in (info ∷ rest, rw (e, f) refl, (d, ds))

-- A view whose tables name ranges inside one another is decoded without a read outside a span, and
-- every entry point is decoded, in order.
pub decoded_entry_points-AllDecoded :
    (v : ReflectionView)
    → IsDecodable v
    → (infos : List EntryPointInfo) × (decoded_entry_points v ≡ some infos)
      × AllDecoded v (entry_points v) infos
unfolding decoded_entry_points
decoded_entry_points-AllDecoded v ok = decode_all-AllDecoded v (entry_points v) ok ok.ranges

-- The children of a declaration are read inside the pool wherever their range does not wrap.
pub decl_children-defined :
    (pool : List ℕ) (d : Decl)
    → d.child_off + d.child_count < 2 ^ 32
    → (cs : List ℕ) × (decl_children pool d ≡ some cs)
unfolding decl_children subspan
decl_children-defined pool d h =
    let same : u32 (d.child_off + d.child_count) ≡ d.child_off + d.child_count = omega (arith, h) in
    elim (Bool-cases (leb (d.child_off + d.child_count) (length pool))) [
      | inl e ↦ (take d.child_count (drop d.child_off pool), rw (same, e) refl)
      | inr e ↦ ([], rw (same, e) refl)
    ]

get_elem?-All {ℓ κ} :
    {A : Type ℓ} (P : A → Type κ) (xs : List A) (i : ℕ) (x : A)
    → All P xs
    → get_elem? xs i ≡ some x
    → P x
get_elem?-All P [] i x a e = cc
get_elem?-All P (y ∷ ys) zero x a e = subst P (some-injective _ _ e) a.0
get_elem?-All P (y ∷ ys) (suc i) x a e = get_elem?-All P ys i x a.1 e

node_of-defined :
    (v : ReflectionView) (d : Decl)
    → d.child_off + d.child_count < 2 ^ 32
    → (node : DeclNode) × (node_of v d ≡ some node)
unfolding node_of
node_of-defined v d h =
    let (cs, e) = decl_children-defined (u32_pool v) d h in
    (
      record {
        kind = d.kind;
        name = string v d.name_str_idx;
        children = cs;
        payload_idx = d.payload_idx;
        parent_decl_idx = d.parent_decl_idx;
      },
      rw e refl,
    )

-- A declaration of the view is read inside the pool, whichever its index, where the ranges of the
-- declarations do not wrap in 32 bits.
pub decl-defined :
    (v : ReflectionView) (i : ℕ)
    → All (λ (d : Decl). d.child_off + d.child_count < 2 ^ 32) (decls v)
    → (node : DeclNode) × (decl v i ≡ some node)
unfolding decl
decl-defined v i a = elim (Option-cases (get_elem? (decls v) i)) [
  | inl e ↦ (no_node, rw (e, decl) refl)
  | inr (d, e) ↦
      let (node, f) = node_of-defined v d (get_elem?-All _ (decls v) i d a e) in
      (node, rw (e, decl) f)
]
