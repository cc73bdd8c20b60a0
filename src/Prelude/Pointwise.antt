-- ===== src/Prelude/Pointwise.antt =====
-- A relation between two lists, index by index.
use mathlib.Core.Path.{◌≡◌}
use mathlib.Core.Logic.{inl, inr}
use mathlib.Core.Bool.{Bool, true}
use mathlib.Core.List.{List, [], ◌∷◌}
use crates.Prelude.Tests.{Bool-cases}
use crates.Prelude.Search.{modify_first}

module _ {A : Type 0} where
  -- The lists have one length, and the relation holds between the elements at one index.
  abbrev pub Pointwise : (A → A → Type 0) → List A → List A → Type 0
  Pointwise R [] [] = Unit {0}
  Pointwise R (x ∷ xs) (y ∷ ys) = R x y × Pointwise R xs ys
  Pointwise R _ _ = ⊥

  pub Pointwise-refl : (R : A → A → Type 0) (xs : List A) → ((x : A) → R x x) → Pointwise R xs xs
  Pointwise-refl R [] r = tt
  Pointwise-refl R (x ∷ xs) r = (r x, Pointwise-refl R xs r)

  pub Pointwise-map :
      (R S : A → A → Type 0) (xs ys : List A)
      → ((x y : A) → R x y → S x y)
      → Pointwise R xs ys
      → Pointwise S xs ys
  Pointwise-map R S [] [] f h = tt
  Pointwise-map R S [] (y ∷ ys) f h = absurd h
  Pointwise-map R S (x ∷ xs) [] f h = absurd h
  Pointwise-map R S (x ∷ xs) (y ∷ ys) f (r, h) = (f x y r, Pointwise-map R S xs ys f h)

  pub Pointwise-trans :
      (R S T : A → A → Type 0) (xs ys zs : List A)
      → ((x y z : A) → R x y → S y z → T x z)
      → Pointwise R xs ys
      → Pointwise S ys zs
      → Pointwise T xs zs
  Pointwise-trans R S T [] [] [] f h k = tt
  Pointwise-trans R S T [] [] (z ∷ zs) f h k = absurd k
  Pointwise-trans R S T [] (y ∷ ys) zs f h k = absurd h
  Pointwise-trans R S T (x ∷ xs) [] zs f h k = absurd h
  Pointwise-trans R S T (x ∷ xs) (y ∷ ys) [] f h k = absurd k
  Pointwise-trans R S T (x ∷ xs) (y ∷ ys) (z ∷ zs) f (r, h) (s, k) =
      (f x y z r s, Pointwise-trans R S T xs ys zs f h k)

  pub Pointwise-modify_first :
      (R : A → A → Type 0) (p : A → Bool) (f : A → A) (xs : List A)
      → ((x : A) → R x x)
      → ((x : A) → p x ≡ true → R x (f x))
      → Pointwise R xs (modify_first p f xs)
  unfolding modify_first
  Pointwise-modify_first R p f [] r h = tt
  Pointwise-modify_first R p f (x ∷ xs) r h = elim (Bool-cases (p x)) [
    | inl t ↦ rw t (h x t, Pointwise-refl R xs r)
    | inr n ↦ rw n (r x, Pointwise-modify_first R p f xs r h)
  ]
