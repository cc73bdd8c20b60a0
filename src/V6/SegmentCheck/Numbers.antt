-- ===== src/V6/SegmentCheck/Numbers.antt =====
-- The test for repeated generation numbers, `sort_unstable` and then `dedup`, against `IsUnique`.
use crates.Prelude.{
  ℕ, ◌+◌, ◌≤◌, ◌<◌, ◌≡◌, ◌↔◌, inl, inr, refl, arith, ◌∙◌, sym, ap, false, ◌==◌, leb,
}
use crates.Prelude.{List, [], ◌∷◌, Bool-cases, length}
use crates.Prelude.Search.{In}
use crates.Prelude.Unique.{IsUnique}
use crates.V6.SegmentCheck.{insert_number, sort_unstable, dedup_after, dedup}

insert_number-In : (n : ℕ) (xs : List ℕ) (y : ℕ) → In y (n ∷ xs) → In y (insert_number n xs)
unfolding insert_number
insert_number-In n [] y i = i
insert_number-In n (x ∷ xs) y i = elim (Bool-cases (leb n x)) [
  | inl t ↦ rw (t, In, insert_number) i
  | inr f ↦ rw (f, In, insert_number) (turn i (insert_number-In n xs y))
]
  where
    turn :
        In y (n ∷ x ∷ xs)
        → (In y (n ∷ xs) → In y (insert_number n xs))
        → In y (x ∷ insert_number n xs)
    turn (inl e) ih = inr (ih (inl e))
    turn (inr (inl e)) ih = inl e
    turn (inr (inr m)) ih = inr (ih (inr m))

In-insert_number : (n : ℕ) (xs : List ℕ) (y : ℕ) → In y (insert_number n xs) → In y (n ∷ xs)
unfolding insert_number
In-insert_number n [] y i = i
In-insert_number n (x ∷ xs) y i = elim (Bool-cases (leb n x)) [
  | inl t ↦ rw (t, In, insert_number) at i
  | inr f ↦ turn (rw (f, In, insert_number) at i) (In-insert_number n xs y)
]
  where
    turn :
        In y (x ∷ insert_number n xs)
        → (In y (insert_number n xs) → In y (n ∷ xs))
        → In y (n ∷ x ∷ xs)
    turn (inl e) ih = inr (inl e)
    turn (inr m) ih = elim (ih m) [ inl e ↦ inl e | inr k ↦ inr (inr k) ]

sort_unstable-In : (xs : List ℕ) (y : ℕ) → In y xs → In y (sort_unstable xs)
unfolding sort_unstable
sort_unstable-In (x ∷ xs) y (inl e) = insert_number-In x (sort_unstable xs) y (inl e)
sort_unstable-In (x ∷ xs) y (inr m) =
    insert_number-In x (sort_unstable xs) y (inr (sort_unstable-In xs y m))
sort_unstable-In [] y m = m

In-sort_unstable : (xs : List ℕ) (y : ℕ) → In y (sort_unstable xs) → In y xs
unfolding sort_unstable
In-sort_unstable [] y i = i
In-sort_unstable (x ∷ xs) y i = elim (In-insert_number x (sort_unstable xs) y i) [
  | inl e ↦ inl e
  | inr m ↦ inr (In-sort_unstable xs y m)
]

insert_number-IsUnique :
    (n : ℕ) (xs : List ℕ) → IsUnique (insert_number n xs) → (In n xs → ⊥) × IsUnique xs
unfolding insert_number
insert_number-IsUnique n [] u = ((λ i. i), tt)
insert_number-IsUnique n (x ∷ xs) u = elim (Bool-cases (leb n x)) [
  | inl t ↦ rw (t, insert_number, IsUnique) at u
  | inr f ↦
      let (h, v) = rw (f, insert_number, IsUnique) at u in
      let (new, w) = insert_number-IsUnique n xs v in
      (
        (λ i. elim i [ inl e ↦ h (insert_number-In n xs x (inl (sym e))) | inr m ↦ new m ]),
        ((λ i. h (insert_number-In n xs x (inr i))), w),
      )
]

IsUnique-insert_number :
    (n : ℕ) (xs : List ℕ) → (In n xs → ⊥) → IsUnique xs → IsUnique (insert_number n xs)
unfolding insert_number
IsUnique-insert_number n [] new u = (new, tt)
IsUnique-insert_number n (x ∷ xs) new (h, u) = elim (Bool-cases (leb n x)) [
  | inl t ↦ rw (t, insert_number, IsUnique) (new, (h, u))
  | inr f ↦
      rw (f, insert_number, IsUnique)
        (
          (λ i. elim (In-insert_number n xs x i) [ inl e ↦ new (inl (sym e)) | inr m ↦ h m ]),
          IsUnique-insert_number n xs (λ i. new (inr i)) u,
        )
]

sort_unstable-IsUnique : (xs : List ℕ) → IsUnique (sort_unstable xs) → IsUnique xs
unfolding sort_unstable
sort_unstable-IsUnique [] u = tt
sort_unstable-IsUnique (x ∷ xs) u =
    let (new, v) = insert_number-IsUnique x (sort_unstable xs) u in
    ((λ i. new (sort_unstable-In xs x i)), sort_unstable-IsUnique xs v)

IsUnique-sort_unstable : (xs : List ℕ) → IsUnique xs → IsUnique (sort_unstable xs)
unfolding sort_unstable
IsUnique-sort_unstable [] u = tt
IsUnique-sort_unstable (x ∷ xs) (new, u) =
    IsUnique-insert_number x (sort_unstable xs) (λ i. new (In-sort_unstable xs x i))
      (IsUnique-sort_unstable xs u)

-- In order, from a lower bound on.
abbrev IsSorted : ℕ → List ℕ → Type 0
IsSorted b [] = Unit {0}
IsSorted b (x ∷ xs) = (b ≤ x) × IsSorted x xs

insert_number-IsSorted :
    (b n : ℕ) (xs : List ℕ) → b ≤ n → IsSorted b xs → IsSorted b (insert_number n xs)
unfolding insert_number
insert_number-IsSorted b n [] h s = (h, tt)
insert_number-IsSorted b n (x ∷ xs) h (k, s) = ground (arith, insert_number-IsSorted x n xs)

sort_unstable-IsSorted : (xs : List ℕ) → IsSorted 0 (sort_unstable xs)
unfolding sort_unstable
sort_unstable-IsSorted [] = tt
sort_unstable-IsSorted (x ∷ xs) =
    insert_number-IsSorted 0 x (sort_unstable xs) (omega arith) (sort_unstable-IsSorted xs)

IsSorted-In : (b : ℕ) (xs : List ℕ) (y : ℕ) → IsSorted b xs → In y xs → b ≤ y
IsSorted-In b [] y s i = absurd i
IsSorted-In b (x ∷ xs) y (k, s) (inl e) = ground arith
IsSorted-In b (x ∷ xs) y (k, s) (inr m) = ground (arith, IsSorted-In x xs y s m)

length-dedup_after : (y : ℕ) (xs : List ℕ) → length (dedup_after y xs) ≤ length xs
unfolding dedup_after
length-dedup_after y [] = omega arith
length-dedup_after y (x ∷ xs) = ground (arith, length-dedup_after x xs)

-- A sorted list from which `dedup` drops nothing has no repetition.
dedup_after-IsUnique :
    (y : ℕ) (xs : List ℕ)
    → IsSorted y xs
    → length (dedup_after y xs) ≡ length xs
    → ((z : ℕ) → In z xs → y < z) × IsUnique xs
unfolding dedup_after
dedup_after-IsUnique y [] s h = ((λ z i. absurd i), tt)
dedup_after-IsUnique y (x ∷ xs) (k, s) h = elim (Bool-cases (y == x)) [
  | inl t ↦ absurd (ground (arith, t, h, length-dedup_after x xs))
  | inr f ↦
      let (above, u) = dedup_after-IsUnique x xs s (ground (arith, f, h)) in
      (higher f above, ((λ i. ground (arith, above x i)), u))
]
  where
    higher : (y == x) ≡ false → ((z : ℕ) → In z xs → x < z) → (z : ℕ) → In z (x ∷ xs) → y < z
    higher f above z (inl e) = ground (arith, f, k, e)
    higher f above z (inr m) = ground (arith, f, k, above z m)

dedup-IsUnique : (xs : List ℕ) → IsSorted 0 xs → length (dedup xs) ≡ length xs → IsUnique xs
unfolding dedup
dedup-IsUnique [] s h = tt
dedup-IsUnique (x ∷ xs) (_, s) h =
    let (above, u) = dedup_after-IsUnique x xs s (ground arith) in
    ((λ i. ground (arith, above x i)), u)

IsUnique-dedup_after : (y : ℕ) (xs : List ℕ) → IsUnique (y ∷ xs) → dedup_after y xs ≡ xs
unfolding dedup_after
IsUnique-dedup_after y [] u = refl
IsUnique-dedup_after y (x ∷ xs) (new, u) = ground (arith, new, IsUnique-dedup_after x xs u)

IsUnique-dedup : (xs : List ℕ) → IsUnique xs → dedup xs ≡ xs
unfolding dedup
IsUnique-dedup [] u = refl
IsUnique-dedup (x ∷ xs) u = ap (λ ys. x ∷ ys) (IsUnique-dedup_after x xs u)

length-insert_number : (n : ℕ) (xs : List ℕ) → length (insert_number n xs) ≡ length xs + 1
unfolding insert_number
length-insert_number n [] = refl
length-insert_number n (x ∷ xs) = ground (arith, length-insert_number n xs)

length-sort_unstable : (xs : List ℕ) → length (sort_unstable xs) ≡ length xs
unfolding sort_unstable
length-sort_unstable [] = refl
length-sort_unstable (x ∷ xs) =
    ground (arith, length-insert_number x (sort_unstable xs), length-sort_unstable xs)

-- What the comparison of the two lengths in `check_segment_coherence` says.
pub dedup-sort_unstable_lem :
    (xs : List ℕ) → (length (dedup (sort_unstable xs)) ≡ length xs) ↔ IsUnique xs
dedup-sort_unstable_lem xs = (
  (λ h. sort_unstable-IsUnique xs (
      dedup-IsUnique (sort_unstable xs) (sort_unstable-IsSorted xs)
        (h ∙ sym (length-sort_unstable xs)))),
  (λ u.
      ap length (IsUnique-dedup (sort_unstable xs) (IsUnique-sort_unstable xs u))
      ∙ length-sort_unstable xs),
)
