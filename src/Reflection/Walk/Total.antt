-- ===== src/Reflection/Walk/Total.antt =====
-- A reasoning rule for each combinator of the walk: with fuel for the objects that are left, an
-- action ends, visits no object again, and keeps what is said of the tables.
use slangmake.Prelude.{
  ℕ, suc, ◌≤◌, ◌<◌, ◌≡◌, refl, ap, List, [], ◌∷◌, All, Option, none, some, length, arith,
}
use slangmake.Blob.Writer.Layout.{u32}
use slangmake.Reflection.Format.Header.{invalid_index}
use slangmake.Reflection.Section.{Tables}
use slangmake.Reflection.Builder.Ranges.{Keeps, Keeps-refl, Keeps-trans}
use slangmake.Reflection.Slang.{Slang}
use slangmake.Reflection.Walk.State.{
  Node, type, type_layout, variable, var_layout, function, generic, decl, Walk, Action, ◌>>=◌, give,
  on_tables, change, go_on, each, find_index, Slot, visit_found, visit,
}
use slangmake.Reflection.Walk.Types.{add}
use slangmake.Reflection.Walk.Unvisited.{unvisited}

abbrev pub pointer : Node → ℕ
pointer (type p) = p
pointer (type_layout p) = p
pointer (variable p) = p
pointer (var_layout p) = p
pointer (function p) = p
pointer (generic p) = p
pointer (decl p parent) = p

pub record After (n : ℕ) (w w' : Walk) : Type 0 where
  pub fewer : unvisited n w' ≤ unvisited n w
  pub keeps : Keeps w.tables w'.tables

pub After-refl : (n : ℕ) (w : Walk) → After n w w
After-refl n w = record { fewer = omega arith; keeps = Keeps-refl w.tables }

pub After-trans : {n : ℕ} {a b c : Walk} → After n a b → After n b c → After n a c
After-trans {n} {a} {b} {c} k l = record {
  fewer = omega (arith, k.fewer, l.fewer);
  keeps = Keeps-trans k.keeps l.keeps;
}

-- The action has ended, with a result of which `Q` holds.
pub data Ends (n : ℕ) {A : Type 0} (Q : A → Walk → Type 0) (w : Walk)
    : Option (A × Walk) → Type 0 where
  ends : {a : A} {w' : Walk} → After n w w' → Q a w' → Ends n Q w (some (a, w'))

-- With at most `m` objects left, the action ends.
abbrev pub Runs : {A : Type 0} → ℕ → ℕ → Action A → Type 0
Runs {A} n m f = (w : Walk) → unvisited n w ≤ m → Ends n (λ (a : A) w'. Unit {0}) w (f w)

Ends-After :
    {n : ℕ} {A : Type 0} {Q : A → Walk → Type 0} {w w' : Walk} {r : Option (A × Walk)}
    → After n w w'
    → Ends n Q w' r
    → Ends n Q w r
Ends-After k (ends l q) = ends (After-trans k l) q

module _ {n : ℕ} {A B : Type 0} where
  pub Ends-bind :
      {Q : A → Walk → Type 0} {R : B → Walk → Type 0} {w : Walk} {r : Option (A × Walk)}
      (k : A → Action B)
      → Ends n Q w r
      → ((a : A) (w' : Walk) → After n w w' → Q a w' → Ends n R w' (k a w'))
      → Ends n R w (go_on r k)
  Ends-bind k (ends {a} {w'} l q) next = Ends-After l (next a w' l q)

  pub Runs-bind :
      {m : ℕ} (f : Action A) (k : A → Action B)
      → Runs n m f
      → ((a : A) → Runs n m (k a))
      → Runs n m (f >>= k)
  Runs-bind f k r next w h =
      Ends-bind k (r w h) (λ a w' after q. next a w' (omega (arith, h, after.fewer)))

pub Runs-give : {n m : ℕ} {A : Type 0} (a : A) → Runs n m (give a)
unfolding give
Runs-give {n} a w h = ends (After-refl n w) tt

pub Runs-on_tables :
    {n m : ℕ} {A : Type 0} (f : Tables → A × Tables)
    → ((t : Tables) → Keeps t (f t).1)
    → Runs n m (on_tables f)
unfolding on_tables
Runs-on_tables f k w h = ends (record { fewer = omega arith; keeps = k w.tables }) tt

pub Runs-change :
    {n m : ℕ} (f : Tables → Tables) → ((t : Tables) → Keeps t (f t)) → Runs n m (change f)
unfolding change
Runs-change f k w h = ends (record { fewer = omega arith; keeps = k w.tables }) tt

-- A loop ends with as many results as it had rounds.
pub each-Ends :
    {n m : ℕ} {A B : Type 0} (P : A → Type 0) (f : A → Action B)
    → ((a : A) → P a → Runs n m (f a))
    → (list : List A) → All P list
    → (w : Walk) → unvisited n w ≤ m
    → Ends n (λ bs w'. length bs ≡ length list) w (each f list w)
unfolding each give
each-Ends {n} P f r [] a w h = ends (After-refl n w) refl
each-Ends P f r (x ∷ more) a w h = Ends-bind _ (r x a.0 w h) λ b w' after q.
    Ends-bind _ (each-Ends P f r more a.1 w' (omega (arith, h, after.fewer)))
      λ bs w'' after' q'. ends (After-refl _ w'') (ap suc q')

pub Runs-each :
    {n m : ℕ} {A B : Type 0} (P : A → Type 0) (f : A → Action B)
    → ((a : A) → P a → Runs n m (f a))
    → (list : List A) → All P list
    → Runs n m (each f list)
Runs-each P f r list a w h = weaken (each-Ends P f r list a w h)
  where
    weaken :
        {B : Type 0} {n : ℕ} {Q : B → Walk → Type 0} {w : Walk} {o : Option (B × Walk)}
        → Ends n Q w o
        → Ends n (λ b w'. Unit {0}) w o
    weaken (ends l q) = ends l tt

-- A pointer that is null or below `n`.
abbrev pub Below : ℕ → Option ℕ → Type 0
Below n none = Unit
Below n (some p) = p < n

-- What the functions `add...` do for the pointers below `n`.
abbrev pub Adds : ℕ → ℕ → (Node → Action ℕ) → Type 0
Adds n m rec = (x : Node) → pointer x < n → Runs n m (rec x)

pub Runs-add :
    {n m : ℕ} (g : Slang) (rec : Node → Action ℕ) (kind : ℕ → Node)
    → Adds n m rec
    → ((p : ℕ) → pointer (kind p) ≡ p)
    → (o : Option ℕ) → Below n o
    → Runs n m (add g rec kind o)
Runs-add g rec kind r e none b = Runs-give invalid_index
Runs-add g rec kind r e (some p) b = r (kind p) (omega (arith, e p, b))

-- What a table with its map must do.
pub record IsSlot (n : ℕ) {A : Type 0} (slot : Slot A) : Type 0 where
  pub enters :
      (p i : ℕ) (w : Walk)
      → p < n
      → find_index p (slot.known w) ≡ none
      → unvisited n (slot.enter p i w) < unvisited n w
  pub enter_keeps : (p i : ℕ) (w : Walk) → Keeps w.tables (slot.enter p i w).tables
  pub stores : (i : ℕ) (a : A) (w : Walk) → After n w (slot.store i a w)

module _ {n m : ℕ} {A : Type 0} (slot : Slot A) (p : ℕ) (body : ℕ → Action A) where
  Ends-visit_found :
      (o : Option ℕ) (w : Walk)
      → find_index p (slot.known w) ≡ o
      → IsSlot n slot
      → p < n
      → ((k : ℕ) → k < m → (i : ℕ) → Runs n k (body i))
      → unvisited n w ≤ m
      → Ends n (λ a w'. Unit {0}) w (visit_found slot o p body w)
  unfolding visit_found give
  Ends-visit_found (some i) w e s l r h = ends (After-refl n w) tt
  Ends-visit_found none w e s l r h =
      let i = u32 (length (slot.rows w)) in
      let fewer = s.enters p i w l e in
      Ends-After (record { fewer = omega (arith, fewer); keeps = s.enter_keeps p i w })
        (Ends-bind _
          (r (unvisited n (slot.enter p i w)) (omega (arith, fewer, h)) i (slot.enter p i w)
            (omega arith))
          λ a w' after q. ends (s.stores i a w') tt)

  -- A visit leaves fewer objects for its body.
  pub Runs-visit :
      IsSlot n slot
      → p < n
      → ((k : ℕ) → k < m → (i : ℕ) → Runs n k (body i))
      → Runs n m (visit slot p body)
  unfolding visit
  Runs-visit s l r w h = Ends-visit_found (find_index p (slot.known w)) w refl s l r h
