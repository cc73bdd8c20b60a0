-- ===== src/V6/Merkle/Batch.antt =====
-- The tree of merkle.rs level by level, independent of the accumulator: neighbours are joined and
-- an odd last node is promoted. `batch f` makes `f` such passes, enough for 2 ^ f leaves.
use crates.Prelude.{ℕ, zero, suc, ◌+◌, ◌≤◌, ◌≡◌, refl, arith, ap, ◌++◌}
use crates.Prelude.{List, [], ◌∷◌, Option, none, some, length, replicate}
use crates.V6.Merkle.{Digest, merkle_node, seal_root}
use mathlib.Core.Option

abbrev pub first : List Digest → Option Digest
first [] = none
first (x ∷ xs) = some x

abbrev pub last_if : Option Digest → List Digest
last_if none = []
last_if (some x) = x ∷ []

module _ (hash : List ℕ → Digest) where
  unfoldable pub pair_level : List Digest → List Digest
  pair_level [] = []
  pair_level (a ∷ []) = a ∷ []
  pair_level (a ∷ b ∷ level) = merkle_node hash a b ∷ pair_level level

  unfoldable pub batch : ℕ → List Digest → Option Digest
  batch zero level = first level
  batch (suc f) level = batch f (pair_level level)

  -- The joined pairs of a level, and the node that is left over.
  unfoldable pub full_pairs : List Digest → List Digest
  full_pairs [] = []
  full_pairs (a ∷ []) = []
  full_pairs (a ∷ b ∷ level) = merkle_node hash a b ∷ full_pairs level

  pub length-pair_level :
      (xs : List Digest) → (length (pair_level xs) + length (pair_level xs) ≤ length xs + 1)
  unfolding pair_level
  length-pair_level [] = omega arith
  length-pair_level (a ∷ []) = omega arith
  length-pair_level (a ∷ b ∷ xs) = omega (arith, length-pair_level xs)

  pub length-full_pairs :
      (xs : List Digest) → length (full_pairs xs) + length (full_pairs xs) ≤ length xs
  unfolding full_pairs
  length-full_pairs [] = omega arith
  length-full_pairs (a ∷ []) = omega arith
  length-full_pairs (a ∷ b ∷ xs) = omega (arith, length-full_pairs xs)

  pub batch_single : (f : ℕ) (x : Digest) → batch f (x ∷ []) ≡ some x
  unfolding batch pair_level
  batch_single zero x = refl
  batch_single (suc f) x = batch_single f x

abbrev pub odd_last : List Digest → Option Digest
odd_last [] = none
odd_last (a ∷ []) = some a
odd_last (a ∷ b ∷ level) = odd_last level

module _ (hash : List ℕ → Digest) where
  -- A carry on the right is one more node at the end of the level.
  unfoldable pub combine : Option Digest → Option Digest → Option Digest
  combine none carry = carry
  combine (some node) none = some node
  combine (some node) (some right) = some (merkle_node hash node right)

  pub pair_level-append :
      (xs : List Digest) (carry : Option Digest)
      → pair_level hash (xs ++ last_if carry)
        ≡ full_pairs hash xs ++ last_if (combine (odd_last xs) carry)
  unfolding pair_level full_pairs combine
  pair_level-append [] none = refl
  pair_level-append [] (some c) = refl
  pair_level-append (a ∷ []) none = refl
  pair_level-append (a ∷ []) (some c) = refl
  pair_level-append (a ∷ b ∷ xs) carry =
      ap (λ zs. merkle_node hash a b ∷ zs) (pair_level-append xs carry)

  -- The root of a segment, over its leaves at once.
  unfoldable pub batch_root : List Digest → Digest
  batch_root leaves =
      seal_root hash (length leaves) (Option.get_or (batch hash 64 leaves) (replicate 32 0))
