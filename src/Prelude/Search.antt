-- ===== src/Prelude/Search.antt =====
-- The iterator adapters of the source over a Boolean test: `find`, `any`, `filter` and the update
-- through `iter_mut().find`.

use mathlib.Core.Path.{◌≡◌, refl, ap}
use mathlib.Core.Logic.{◌⊎◌, inl, inr}
use mathlib.Core.Bool.{Bool, true, false, ◌||◌}
use mathlib.Core.Option.{Option, none, some}
use mathlib.Core.List.{List, [], ◌∷◌, ◌++◌, map}
use native.Mathlib.Omega.{arith}
use crates.Prelude.Tests.{if◌then◌else◌, Bool-cases, none-ne-some}

module _ {A : Type 0} where
  -- `a` stands in the list.
  abbrev pub In : A → List A → Type 0
  In a [] = ⊥
  In a (x ∷ xs) = (a ≡ x) ⊎ In a xs

  unfoldable pub find : (A → Bool) → List A → Option A
  find p [] = none
  find p (x ∷ xs) = if p x then some x else find p xs

  unfoldable pub any : (A → Bool) → List A → Bool
  any p [] = false
  any p (x ∷ xs) = p x || any p xs

  -- `iter().filter(p)`, and `retain(p)` in place.
  unfoldable pub retain : (A → Bool) → List A → List A
  retain p [] = []
  retain p (x ∷ xs) = let rest = retain p xs in if p x then x ∷ rest else rest

  -- What `if let Some(x) = xs.iter_mut().find(p) { *x = f(x) }` leaves.
  unfoldable pub modify_first : (A → Bool) → (A → A) → List A → List A
  modify_first p f [] = []
  modify_first p f (x ∷ xs) = let rest = modify_first p f xs in if p x then f x ∷ xs else x ∷ rest

  pub find-In : (p : A → Bool) (xs : List A) (a : A) → find p xs ≡ some a → In a xs × (p a ≡ true)
  unfolding find
  find-In p [] a h = absurd (none-ne-some h)
  find-In p (x ∷ xs) a h = ground (arith, find-In p xs a)

  pub find-none : (p : A → Bool) (xs : List A) (a : A) → find p xs ≡ none → In a xs → p a ≡ false
  unfolding find
  find-none p [] a h m = absurd m
  find-none p (x ∷ xs) a h m = ground (arith, find-none p xs a)

  -- What `find` meets first, it meets first in any longer list.
  pub find-append :
      (p : A → Bool) (xs ys : List A) (a : A) → find p xs ≡ some a → find p (xs ++ ys) ≡ some a
  unfolding find
  find-append p [] ys a h = absurd (none-ne-some h)
  find-append p (x ∷ xs) ys a h = ground (arith, find-append p xs ys a)

  pub find-append_none :
      (p : A → Bool) (xs ys : List A) → find p xs ≡ none → find p (xs ++ ys) ≡ find p ys
  unfolding find
  find-append_none p [] ys h = refl
  find-append_none p (x ∷ xs) ys h = ground (arith, find-append_none p xs ys)

  pub any-In : (p : A → Bool) (xs : List A) → any p xs ≡ true → (a : A) × In a xs × (p a ≡ true)
  unfolding any
  any-In p [] h = absurd (cc)
  any-In p (x ∷ xs) h = elim (Bool-cases (p x)) [
    | inl t ↦ (x, inl refl, t)
    | inr f ↦ let (a, m, t) = any-In p xs (rw f at h) in (a, inr m, t)
  ]

  pub In-any : (p : A → Bool) (xs : List A) (a : A) → In a xs → p a ≡ true → any p xs ≡ true
  unfolding any
  In-any p [] a m t = absurd m
  In-any p (x ∷ xs) a m t = ground (arith, In-any p xs a)

  pub retain-In : (p : A → Bool) (xs : List A) (a : A) → In a (retain p xs) → In a xs × (p a ≡ true)
  unfolding retain
  retain-In p [] a m = absurd m
  retain-In p (x ∷ xs) a m = elim (Bool-cases (p x)) [
    | inl t ↦ ground (arith, retain-In p xs a, rw t at m)
    | inr f ↦ ground (arith, retain-In p xs a, rw f at m)
  ]

  pub In-retain : (p : A → Bool) (xs : List A) (a : A) → In a xs → p a ≡ true → In a (retain p xs)
  unfolding retain
  In-retain p [] a m t = absurd m
  In-retain p (x ∷ xs) a m t = ground (arith, In-retain p xs a)

  -- A member of the modified list is the modified element or was there before.
  pub modify_first-In :
      (p : A → Bool) (f : A → A) (xs : List A) (a : A)
      → In a (modify_first p f xs)
      → In a xs ⊎ ((x : A) × In x xs × (p x ≡ true) × (a ≡ f x))
  unfolding modify_first
  modify_first-In p f [] a m = absurd m
  modify_first-In p f (x ∷ xs) a m = elim (Bool-cases (p x)) [
    | inl t ↦ changed t (rw t at m)
    | inr n ↦ kept (modify_first-In p f xs a) (rw n at m)
  ]
    where
      changed :
          p x ≡ true
          → In a (f x ∷ xs)
          → In a (x ∷ xs) ⊎ ((y : A) × In y (x ∷ xs) × (p y ≡ true) × (a ≡ f y))
      changed t (inl e) = inr (x, inl refl, t, e)
      changed t (inr k) = inl (inr k)

      kept :
          (In a (modify_first p f xs) → In a xs ⊎ ((y : A) × In y xs × (p y ≡ true) × (a ≡ f y)))
          → In a (x ∷ modify_first p f xs)
          → In a (x ∷ xs) ⊎ ((y : A) × In y (x ∷ xs) × (p y ≡ true) × (a ≡ f y))
      kept ih (inl e) = inl (inl e)
      kept ih (inr k) = elim (ih k) [
        | inl old ↦ inl (inr old)
        | inr (y, k', t, e) ↦ inr (y, inr k', t, e)
      ]

  pub map-modify_first :
      {B : Type 0} (g : A → B) (p : A → Bool) (f : A → A) (xs : List A)
      → ((x : A) → p x ≡ true → g (f x) ≡ g x)
      → map g (modify_first p f xs) ≡ map g xs
  unfolding modify_first
  map-modify_first g p f [] h = refl
  map-modify_first g p f (x ∷ xs) h = ground (arith, h x, map-modify_first g p f xs h)

  pub In-left : (xs ys : List A) (a : A) → In a xs → In a (xs ++ ys)
  In-left [] ys a m = absurd m
  In-left (x ∷ xs) ys a (inl e) = inl e
  In-left (x ∷ xs) ys a (inr m) = inr (In-left xs ys a m)

  pub In-append : (xs ys : List A) (a : A) → In a (xs ++ ys) → In a xs ⊎ In a ys
  In-append [] ys a m = inr m
  In-append (x ∷ xs) ys a (inl e) = inl (inl e)
  In-append (x ∷ xs) ys a (inr m) = elim (In-append xs ys a m) [
    | inl k ↦ inl (inr k)
    | inr k ↦ inr k
  ]

module _ {A : Type 0} where
  pub In-right : (xs ys : List A) (a : A) → In a ys → In a (xs ++ ys)
  In-right [] ys a i = i
  In-right (x ∷ xs) ys a i = inr (In-right xs ys a i)

  -- A filter that keeps what the search looks for does not change what it meets first.
  pub find-retain :
      (p q : A → Bool) (xs : List A)
      → ((x : A) → p x ≡ true → q x ≡ true)
      → find p (retain q xs) ≡ find p xs
  unfolding find retain
  find-retain p q [] h = refl
  find-retain p q (x ∷ xs) h = elim (Bool-cases (p x)) [
    | inl t ↦ ground (arith, t, h x t)
    | inr n ↦ elim (Bool-cases (q x)) [
      | inl k ↦ ground (arith, n, k, find-retain p q xs h)
      | inr k ↦ ground (arith, n, k, find-retain p q xs h)
    ]
  ]

module _ {A B : Type 0} where
  pub In-map : (f : B → A) (xs : List B) (a : A) → In a (map f xs) → (x : B) × In x xs × (a ≡ f x)
  In-map f [] a m = absurd m
  In-map f (x ∷ xs) a (inl e) = (x, inl refl, e)
  In-map f (x ∷ xs) a (inr m) = let (y, k, e) = In-map f xs a m in (y, inr k, e)

  pub In-map_image : (f : B → A) (xs : List B) (x : B) → In x xs → In (f x) (map f xs)
  In-map_image f [] x m = absurd m
  In-map_image f (y ∷ ys) x (inl e) = inl (ap f e)
  In-map_image f (y ∷ ys) x (inr m) = inr (In-map_image f ys x m)
