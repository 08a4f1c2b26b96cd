-- ===== src/Prelude/FlatMap.antt =====
-- Laws of `flat_map`.
use mathlib.Core.List.{List, [], ◌∷◌, ◌++◌, map, flat_map, map-append, append_assoc}
use mathlib.Core.Path.{◌≡◌, refl, ap, ◌∙◌}

module _ {ℓ κ} {A : Type ℓ} {B : Type κ} where
  pub flat_map-append :
      (f : A → List B) (xs ys : List A) → flat_map f (xs ++ ys) ≡ flat_map f xs ++ flat_map f ys
  unfolding flat_map
  flat_map-append f [] ys = refl
  flat_map-append f (x ∷ xs) ys = simp (flat_map-append f xs ys, append_assoc)

pub flat_map_single {ℓ} : {A : Type ℓ} (xs : List A) → flat_map (λ x. x ∷ []) xs ≡ xs
unfolding flat_map
flat_map_single [] = refl
flat_map_single (x ∷ xs) = simp (flat_map_single xs)

module _ {ℓ κ μ} {A : Type ℓ} {B : Type κ} {C : Type μ} where
  pub map-flat_map :
      (g : B → C) (f : A → List B) (xs : List A)
      → map g (flat_map f xs) ≡ flat_map (λ x. map g (f x)) xs
  unfolding flat_map
  map-flat_map g f [] = refl
  map-flat_map g f (x ∷ xs) = simp (map-append, map-flat_map g f xs)

  pub flat_map-map :
      (f : B → List C) (g : A → B) (xs : List A)
      → flat_map f (map g xs) ≡ flat_map (λ x. f (g x)) xs
  unfolding flat_map
  flat_map-map f g [] = refl
  flat_map-map f g (x ∷ xs) = simp (flat_map-map f g xs)

  pub map-map : (f : B → C) (g : A → B) (xs : List A) → map f (map g xs) ≡ map (λ x. f (g x)) xs
  map-map f g [] = refl
  map-map f g (x ∷ xs) = simp (map-map f g xs)

  pub flat_map-flat_map :
      (f : B → List C) (g : A → List B) (xs : List A)
      → flat_map f (flat_map g xs) ≡ flat_map (λ x. flat_map f (g x)) xs
  unfolding flat_map
  flat_map-flat_map f g [] = refl
  flat_map-flat_map f g (x ∷ xs) =
      flat_map-append f (g x) (flat_map g xs)
      ∙ ap (◌++◌ (flat_map f (g x))) (flat_map-flat_map f g xs)
