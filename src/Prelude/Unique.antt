-- ===== src/Prelude/Unique.antt =====
-- Lists of numbers without repetition, and elements that a unique number names.
use Prim.Native.Nat.{ℕ}
use mathlib.Core.Path.{◌≡◌, ap, sym, ◌∙◌}
use mathlib.Core.Logic.{inl, inr}
use mathlib.Core.Bool.{Bool}
use mathlib.Core.Option.{some}
use mathlib.Core.List.{List, [], ◌∷◌, map}
use native.Mathlib.Omega.{arith}
use crates.Prelude.Tests.{◌==◌, ==_iff, Bool-cases}
use crates.Prelude.Search.{In, In-map_image, find, retain}

abbrev pub IsUnique : List ℕ → Type 0
IsUnique [] = Unit {0}
IsUnique (n ∷ ns) = (In n ns → ⊥) × IsUnique ns

module _ {A : Type 0} (number : A → ℕ) where
  -- A unique number names one element, and the search by it finds that element.
  pub IsUnique-find :
      (xs : List A) (a : A)
      → IsUnique (map number xs)
      → In a xs
      → find (λ x. number x == number a) xs ≡ some a
  unfolding find
  IsUnique-find [] a u m = absurd m
  IsUnique-find (x ∷ xs) a u (inl e) = rw e (ground arith)
  IsUnique-find (x ∷ xs) a (new, u) (inr m) = elim (Bool-cases (number x == number a)) [
    | inl t ↦ absurd (new (rw ((==_iff _ _).0 t) (In-map_image number xs a m)))
    | inr f ↦ rw (f, find) (IsUnique-find xs a u m)
  ]

  pub IsUnique-same :
      (xs : List A) (a b : A)
      → IsUnique (map number xs)
      → In a xs
      → In b xs
      → number a ≡ number b
      → a ≡ b
  IsUnique-same (x ∷ xs) a b (new, u) (inl e) (inl f) h = e ∙ sym f
  IsUnique-same (x ∷ xs) a b (new, u) (inl e) (inr j) h =
      absurd (new (rw (sym (ap number e) ∙ h) (In-map_image number xs b j)))
  IsUnique-same (x ∷ xs) a b (new, u) (inr i) (inl f) h =
      absurd (new (rw (sym (ap number f) ∙ sym h) (In-map_image number xs a i)))
  IsUnique-same (x ∷ xs) a b (new, u) (inr i) (inr j) h = IsUnique-same xs a b u i j h
  IsUnique-same [] a b u i j h = absurd i

  pub In-map-retain :
      (q : A → Bool) (xs : List A) (n : ℕ) → In n (map number (retain q xs)) → In n (map number xs)
  unfolding retain
  In-map-retain q [] n i = i
  In-map-retain q (x ∷ xs) n i = elim (Bool-cases (q x)) [
    | inl t ↦ here (In-map-retain q xs n) (rw (t, In, retain, map) at i)
    | inr f ↦ inr (In-map-retain q xs n (rw (f, In, retain, map) at i))
  ]
    where
      here :
          (In n (map number (retain q xs)) → In n (map number xs))
          → In n (number x ∷ map number (retain q xs))
          → In n (number x ∷ map number xs)
      here ih (inl e) = inl e
      here ih (inr j) = inr (ih j)

  pub IsUnique-retain :
      (q : A → Bool) (xs : List A) → IsUnique (map number xs) → IsUnique (map number (retain q xs))
  unfolding retain
  IsUnique-retain q [] u = tt
  IsUnique-retain q (x ∷ xs) (new, u) = elim (Bool-cases (q x)) [
    | inl t ↦
        rw (t, retain, map) ((λ i. new (In-map-retain q xs (number x) i)), IsUnique-retain q xs u)
    | inr f ↦ rw (f, retain, map) (IsUnique-retain q xs u)
  ]
