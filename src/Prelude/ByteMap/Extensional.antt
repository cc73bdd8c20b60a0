-- ===== src/Prelude/ByteMap/Extensional.antt =====
-- Tables in the order of their keys, compared by what they hold.
use Prim.Native.Nat.{ℕ}
use mathlib.Core.Path.{◌≡◌, refl, ap, sym, ◌∙◌}
use mathlib.Core.Logic.{inl, inr}
use mathlib.Core.Bool.{true}
use mathlib.Core.Option.{none, some}
use mathlib.Core.List.{List, [], ◌∷◌}
use native.Mathlib.Omega.{arith}
use crates.Prelude.Tests.{Bool-cases, some_inj, none-ne-some}
use crates.Prelude.Bytes.{bytes_eq, bytes_eq_refl, bytes_eq_sound}
use crates.Prelude.ByteMap.{bytes_lt, bytes_lt_total, get, get_cons, IsAbove, IsSorted}
use crates.Prelude.ByteMap.{IsAbove-trans, get-IsAbove}

module _ {ℓ} {V : Type ℓ} where
  get-IsAbove_first :
      (j k : List ℕ) (v : V) (m : List (List ℕ × V))
      → bytes_lt j k ≡ true
      → IsAbove k m
      → get j ((k, v) ∷ m) ≡ none
  get-IsAbove_first j k v m h a = get-IsAbove j ((k, v) ∷ m) (h, IsAbove-trans j k m h a)

  get_nil : (k : List ℕ) → get {V = V} k [] ≡ none
  unfolding get
  get_nil k = refl

  get_first : (k : List ℕ) (v : V) (m : List (List ℕ × V)) → get k ((k, v) ∷ m) ≡ some v
  get_first k v m = ground (arith, get_cons k k v m, bytes_eq_refl k)

  -- Below the same first entry the two tables agree too.
  get-rest :
      (j k : List ℕ) (v w : V) (m n : List (List ℕ × V))
      → IsAbove k m
      → IsAbove k n
      → get j ((k, v) ∷ m) ≡ get j ((k, w) ∷ n)
      → get j m ≡ get j n
  get-rest j k v w m n a b h = ground (
    arith,
    get_cons j k v m,
    get_cons j k w n,
    bytes_eq_sound j k,
    get-IsAbove k m a,
    get-IsAbove k n b,
  )

  -- A table is what it holds: the order of the entries leaves no choice.
  pub IsSorted-extensional :
      (m n : List (List ℕ × V))
      → IsSorted m
      → IsSorted n
      → ((j : List ℕ) → get j m ≡ get j n)
      → m ≡ n
  IsSorted-extensional [] [] s t h = refl
  IsSorted-extensional [] ((l, w) ∷ n) s t h =
      absurd (none-ne-some (sym (get_nil l) ∙ h l ∙ get_first l w n))
  IsSorted-extensional ((k, v) ∷ m) [] s t h =
      absurd (none-ne-some (sym (get_nil k) ∙ sym (h k) ∙ get_first k v m))
  IsSorted-extensional ((k, v) ∷ m) ((l, w) ∷ n) (a, s) (b, t) h =
      let pk = h k in
      let pl = h l in
      elim (Bool-cases (bytes_eq k l)) [
        | inl e ↦
            let q : k ≡ l = bytes_eq_sound k l e in
            let b' : IsAbove k n = rw q b in
            let h' : (j : List ℕ) → get j ((k, v) ∷ m) ≡ get j ((k, w) ∷ n) =
              λ (j : List ℕ). h j ∙ ap (λ (x : List ℕ). get j ((x, w) ∷ n)) (sym q) in
            let r : m ≡ n =
              IsSorted-extensional m n s t (λ (j : List ℕ). get-rest j k v w m n a b' (h' j)) in
            let x : v ≡ w = some_inj (sym (get_first k v m) ∙ h' k ∙ get_first k w n) in cc
        | inr e ↦ elim (Bool-cases (bytes_lt k l)) [
          | inl f ↦
              absurd
                (none-ne-some (sym (get-IsAbove_first k l w n f b) ∙ sym (h k) ∙ get_first k v m))
          | inr f ↦ absurd (
              none-ne-some (
                sym (get-IsAbove_first l k v m (bytes_lt_total k l e f) a) ∙ h l ∙ get_first l w n))
        ]
      ]
