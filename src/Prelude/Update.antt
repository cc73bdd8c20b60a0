-- ===== src/Prelude/Update.antt =====
-- What a search and a membership see after `modify_first`.
use mathlib.Core.Path.{◌≡◌, refl, ap, sym, ◌∙◌}
use mathlib.Core.Logic.{◌⊎◌, inl, inr}
use mathlib.Core.Bool.{Bool, true, false}
use mathlib.Core.Option.{some}
use mathlib.Core.List.{List, [], ◌∷◌}
use native.Mathlib.Omega.{arith}
use crates.Prelude.Tests.{Bool-cases, none-ne-some, some_inj}
use crates.Prelude.Search.{In, find, modify_first}
use crates.Prelude.Lists.{length}

module _ {A : Type 0} where
  pub find-modify_first :
      (p : A → Bool) (f : A → A) (xs : List A) (a : A)
      → find p xs ≡ some a
      → p (f a) ≡ true
      → find p (modify_first p f xs) ≡ some (f a)
  unfolding find modify_first
  find-modify_first p f [] a h k = absurd (none-ne-some h)
  find-modify_first p f (x ∷ xs) a h k = elim (Bool-cases (p x)) [
    | inl t ↦
        let e = some_inj (rw (t, find) at h) in ground (arith, t, k, e, ap f e, ap (λ y. p (f y)) e)
    | inr n ↦ ground (arith, n, find-modify_first p f xs a (rw (n, find) at h) k)
  ]

  pub find-modify_first_other :
      (p q : A → Bool) (f : A → A) (xs : List A)
      → ((x : A) → p x ≡ true → (q x ≡ false) × (q (f x) ≡ false))
      → find q (modify_first p f xs) ≡ find q xs
  unfolding find modify_first
  find-modify_first_other p q f [] h = refl
  find-modify_first_other p q f (x ∷ xs) h = elim (Bool-cases (p x)) [
    | inl t ↦ ground (arith, t, h x t)
    | inr n ↦ elim (Bool-cases (q x)) [
      | inl k ↦ ground (arith, n, k)
      | inr k ↦ ground (arith, n, k, find-modify_first_other p q f xs h)
    ]
  ]

  -- A member stays, or is the one that was modified.
  pub In-modify_first :
      (p : A → Bool) (f : A → A) (xs : List A) (a : A)
      → In a xs
      → (b : A) × In b (modify_first p f xs) × ((b ≡ a) ⊎ (p a ≡ true) × (b ≡ f a))
  unfolding modify_first
  In-modify_first p f [] a m = absurd m
  In-modify_first p f (x ∷ xs) a (inl e) = elim (Bool-cases (p x)) [
    | inl t ↦ rw (t, In) (f x, inl refl, inr (ap p e ∙ t, ap f (sym e)))
    | inr n ↦ rw (n, In) (x, inl refl, inl (sym e))
  ]
  In-modify_first p f (x ∷ xs) a (inr m) = elim (Bool-cases (p x)) [
    | inl t ↦ rw (t, In) (a, inr m, inl refl)
    | inr n ↦ let (b, i, c) = In-modify_first p f xs a m in rw (n, In) (b, inr i, c)
  ]

  pub length-modify_first :
      (p : A → Bool) (f : A → A) (xs : List A) → length (modify_first p f xs) ≡ length xs
  unfolding modify_first
  length-modify_first p f [] = refl
  length-modify_first p f (x ∷ xs) = ground (arith, length-modify_first p f xs)
