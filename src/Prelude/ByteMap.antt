-- ===== src/Prelude/ByteMap.antt =====
-- `BTreeMap<Vec<u8>, V>`: the entries in the order of their keys, which is that of the bytes.
pub mod Extensional
use Prim.Native.Nat.{ℕ, ◌<◌}
use mathlib.Core.Path.{◌≡◌, refl}
use mathlib.Core.Logic.{◌⊎◌, inl, inr}
use mathlib.Core.Bool.{Bool, true, false}
use mathlib.Core.Option.{Option, none, some}
use mathlib.Core.List.{List, [], ◌∷◌}
use native.Mathlib.Omega.{arith}
use crates.Prelude.Tests.{ltb, ◌==◌, if◌then◌else◌}
use crates.Prelude.Bytes.{bytes_eq, bytes_eq_refl, bytes_eq_sound}
use crates.Prelude.Lists.{All}

unfoldable pub bytes_lt : List ℕ → List ℕ → Bool
bytes_lt xs [] = false
bytes_lt [] (y ∷ ys) = true
bytes_lt (x ∷ xs) (y ∷ ys) =
    let rest = bytes_lt xs ys in if ltb x y then true else if x == y then rest else false

pub bytes_lt_irrefl : (a : List ℕ) → bytes_lt a a ≡ false
unfolding bytes_lt
bytes_lt_irrefl [] = refl
bytes_lt_irrefl (x ∷ a) = ground (arith, bytes_lt_irrefl a)

pub bytes_lt_trans :
    (a b c : List ℕ) → bytes_lt a b ≡ true → bytes_lt b c ≡ true → bytes_lt a c ≡ true
unfolding bytes_lt
bytes_lt_trans a [] c h k = absurd (cc)
bytes_lt_trans a (y ∷ b) [] h k = absurd (cc)
bytes_lt_trans [] (y ∷ b) (z ∷ c) h k = refl
bytes_lt_trans (x ∷ a) (y ∷ b) (z ∷ c) h k = ground (arith, bytes_lt_trans a b c)

pub bytes_lt_total :
    (a b : List ℕ) → bytes_eq a b ≡ false → bytes_lt a b ≡ false → bytes_lt b a ≡ true
unfolding bytes_lt bytes_eq
bytes_lt_total [] [] h k = absurd (cc)
bytes_lt_total [] (y ∷ b) h k = absurd (cc)
bytes_lt_total (x ∷ a) [] h k = refl
bytes_lt_total (x ∷ a) (y ∷ b) h k = ground (arith, bytes_lt_total a b)

module _ {ℓ} {V : Type ℓ} where
  unfoldable pub get : List ℕ → List (List ℕ × V) → Option V
  get key [] = none
  get key ((k, v) ∷ m) = let rest = get key m in if bytes_eq key k then some v else rest

  -- `BTreeMap::insert`; a value that was there is replaced.
  unfoldable pub insert : List ℕ → V → List (List ℕ × V) → List (List ℕ × V)
  insert key val [] = (key, val) ∷ []
  insert key val ((k, v) ∷ m) =
      let rest = insert key val m in
      if bytes_eq key k
      then (key, val) ∷ m
      else if bytes_lt key k
      then (key, val) ∷ (k, v) ∷ m
      else (k, v) ∷ rest

  unfoldable pub remove : List ℕ → List (List ℕ × V) → List (List ℕ × V)
  remove key [] = []
  remove key ((k, v) ∷ m) = let rest = remove key m in if bytes_eq key k then m else (k, v) ∷ rest

  abbrev pub IsAbove : List ℕ → List (List ℕ × V) → Type 0
  IsAbove key [] = Unit
  IsAbove key ((k, v) ∷ m) = (bytes_lt key k ≡ true) × IsAbove key m

  -- Each key is below all that follow it.
  abbrev pub IsSorted : List (List ℕ × V) → Type 0
  IsSorted [] = Unit
  IsSorted ((k, v) ∷ m) = IsAbove k m × IsSorted m

  pub get_cons :
      (j k : List ℕ) (v : V) (m : List (List ℕ × V))
      → get j ((k, v) ∷ m) ≡ (if bytes_eq j k then some v else get j m)
  unfolding get
  get_cons j k v m = refl

  insert_cons :
      (j k : List ℕ) (v w : V) (m : List (List ℕ × V))
      → insert j w ((k, v) ∷ m) ≡ (
          if bytes_eq j k
          then (j, w) ∷ m
          else if bytes_lt j k
          then (j, w) ∷ (k, v) ∷ m
          else (k, v) ∷ insert j w m)
  unfolding insert
  insert_cons j k v w m = refl

  remove_cons :
      (j k : List ℕ) (v : V) (m : List (List ℕ × V))
      → remove j ((k, v) ∷ m) ≡ (if bytes_eq j k then m else (k, v) ∷ remove j m)
  unfolding remove
  remove_cons j k v m = refl

  pub get-insert :
      (j k : List ℕ) (v : V) (m : List (List ℕ × V))
      → get j (insert k v m) ≡ (if bytes_eq j k then some v else get j m)
  get-insert j k v [] = unfold get insert in refl
  get-insert j k v ((k', v') ∷ m) = ground (
    arith,
    get-insert j k v m,
    bytes_eq_sound k k',
    bytes_eq_sound j k,
    bytes_eq_sound j k',
    bytes_eq_refl k,
    insert_cons k k' v' v m,
    get_cons j k' v' m,
    get_cons j k' v' (insert k v m),
    get_cons j k v m,
    get_cons j k v ((k', v') ∷ m),
  )

  pub IsAbove-trans :
      (j k : List ℕ) (m : List (List ℕ × V)) → bytes_lt j k ≡ true → IsAbove k m → IsAbove j m
  IsAbove-trans j k [] h a = tt
  IsAbove-trans j k ((l, v) ∷ m) h (p, a) = (bytes_lt_trans j k l h p, IsAbove-trans j k m h a)

  pub get-IsAbove : (j : List ℕ) (m : List (List ℕ × V)) → IsAbove j m → get j m ≡ none
  unfolding get
  get-IsAbove j [] a = refl
  get-IsAbove j ((k, v) ∷ m) (p, a) =
      ground (arith, get-IsAbove j m a, bytes_eq_sound j k, bytes_lt_irrefl j)

  IsAbove-insert :
      (j k : List ℕ) (v : V) (m : List (List ℕ × V))
      → bytes_lt j k ≡ true
      → IsAbove j m
      → IsAbove j (insert k v m)
  unfolding insert
  IsAbove-insert j k v [] h a = (h, tt)
  IsAbove-insert j k v ((l, w) ∷ m) h (p, a) = ground (arith, IsAbove-insert j k v m h a)

  IsAbove-remove : (j k : List ℕ) (m : List (List ℕ × V)) → IsAbove j m → IsAbove j (remove k m)
  unfolding remove
  IsAbove-remove j k [] a = tt
  IsAbove-remove j k ((l, w) ∷ m) (p, a) = ground (arith, IsAbove-remove j k m a)

  pub insert-IsSorted :
      (k : List ℕ) (v : V) (m : List (List ℕ × V)) → IsSorted m → IsSorted (insert k v m)
  unfolding insert
  insert-IsSorted k v [] s = (tt, tt)
  insert-IsSorted k v ((l, w) ∷ m) (a, s) = ground (
    arith,
    insert-IsSorted k v m s,
    IsAbove-insert l k v m,
    IsAbove-trans k l m,
    bytes_eq_sound k l,
    bytes_lt_total k l,
  )

  pub remove-IsSorted : (k : List ℕ) (m : List (List ℕ × V)) → IsSorted m → IsSorted (remove k m)
  unfolding remove
  remove-IsSorted k [] s = tt
  remove-IsSorted k ((l, w) ∷ m) (a, s) =
      ground (arith, remove-IsSorted k m s, IsAbove-remove l k m a)

  pub get-remove :
      (j k : List ℕ) (m : List (List ℕ × V))
      → IsSorted m
      → get j (remove k m) ≡ (if bytes_eq j k then none else get j m)
  get-remove j k [] s = unfold get remove in ground arith
  get-remove j k ((l, w) ∷ m) (a, s) = ground (
    arith,
    get-remove j k m s,
    get-IsAbove l m a,
    bytes_eq_sound k l,
    bytes_eq_sound j k,
    remove_cons k l w m,
    get_cons j l w m,
    get_cons j l w (remove k m),
  )
