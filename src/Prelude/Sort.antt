-- ===== src/Prelude/Sort.antt =====
-- `std::ranges::sort` over a strict weak order. The library does not fix the order of elements of
-- which neither is less; here they keep their order, and the laws below do not depend on it.
use mathlib.Core.Path.{◌≡◌, refl, sym, ◌∙◌}
use mathlib.Core.Bool.{Bool, true, false}
use mathlib.Core.List.{List, [], ◌∷◌, Permᴰ, Memᴰ}
use mathlib.Core.Logic.{inl, inr}
use native.Mathlib.Omega.{arith}
use slangmake.Prelude.Tests.{if◌then◌else◌, Bool-cases}

pub record Order {ℓ} (A : Type ℓ) : Type ℓ where
  pub less : A → A → Bool
  pub asymm : (a b : A) → less a b ≡ true → less b a ≡ false
  pub cotrans : (a b c : A) → less a c ≡ true → less b c ≡ false → less a b ≡ true

module _ {ℓ} {A : Type ℓ} (o : Order A) where
  unfoldable pub insert : A → List A → List A
  insert x [] = x ∷ []
  insert x (y ∷ ys) = if o.less y x then y ∷ insert x ys else x ∷ y ∷ ys

  unfoldable pub sort : List A → List A
  unfolding insert
  sort [] = []
  sort (x ∷ xs) = insert x (sort xs)

  -- Elements that the order does not tell apart are one element.
  abbrev pub Separates : List A → Type ℓ
  Separates xs = (a b : A) → Memᴰ a xs → Memᴰ b xs → o.less a b ≡ false → o.less b a ≡ false → a ≡ b

  insert_comm_eq : (x y : A) (l : List A) → x ≡ y → insert x (insert y l) ≡ insert y (insert x l)
  insert_comm_eq x y l e = cc

  insert_comm :
      (x y : A) (l : List A)
      → (o.less x y ≡ false → o.less y x ≡ false → x ≡ y)
      → insert x (insert y l) ≡ insert y (insert x l)
  unfolding insert
  insert_comm x y [] h = elim (Bool-cases (o.less x y)) [
    | inl p ↦ ground (arith, o.asymm x y)
    | inr p ↦ elim (Bool-cases (o.less y x)) [
      | inl q ↦ ground arith
      | inr q ↦ insert_comm_eq x y [] (h p q)
    ]
  ]
  insert_comm x y (z ∷ l) h = elim (Bool-cases (o.less x y)) [
    | inl p ↦ ground (arith, o.asymm x y, o.cotrans z x y, o.cotrans z y x, insert_comm x y l h)
    | inr p ↦ elim (Bool-cases (o.less y x)) [
      | inl q ↦ ground (arith, o.cotrans z x y, o.cotrans z y x, insert_comm x y l h)
      | inr q ↦ insert_comm_eq x y (z ∷ l) (h p q)
    ]
  ]

  Permᴰ-mem : {xs ys : List A} {a : A} → Permᴰ xs ys → Memᴰ a ys → Memᴰ a xs
  Permᴰ-mem Permᴰ.nil m = m
  Permᴰ-mem (Permᴰ.cons e p) (Memᴰ.head h) = Memᴰ.head (h ∙ sym e)
  Permᴰ-mem (Permᴰ.cons e p) (Memᴰ.tail m) = Memᴰ.tail (Permᴰ-mem p m)
  Permᴰ-mem (Permᴰ.swap e f) (Memᴰ.head h) = Memᴰ.tail (Memᴰ.head (h ∙ sym f))
  Permᴰ-mem (Permᴰ.swap e f) (Memᴰ.tail (Memᴰ.head h)) = Memᴰ.head (h ∙ sym e)
  Permᴰ-mem (Permᴰ.swap e f) (Memᴰ.tail (Memᴰ.tail m)) = Memᴰ.tail (Memᴰ.tail m)
  Permᴰ-mem (Permᴰ.trans p q) m = Permᴰ-mem p (Permᴰ-mem q m)

  -- Rearranging the input does not change the sorted list.
  pub sort-Permᴰ : {xs ys : List A} → Permᴰ xs ys → Separates xs → sort xs ≡ sort ys
  unfolding sort
  sort-Permᴰ Permᴰ.nil s = refl
  sort-Permᴰ (Permᴰ.cons {a} {b} e p) s =
      cc (e, sort-Permᴰ p (λ x y m n. s x y (Memᴰ.tail m) (Memᴰ.tail n)))
  sort-Permᴰ (Permᴰ.swap {a} {b} {a'} {b'} {l} e f) s =
      insert_comm a b (sort l) (s a b (Memᴰ.head refl) (Memᴰ.tail (Memᴰ.head refl))) ∙ cc (e, f)
  sort-Permᴰ (Permᴰ.trans p q) s =
      sort-Permᴰ p s ∙ sort-Permᴰ q (λ x y m n. s x y (Permᴰ-mem p m) (Permᴰ-mem p n))
