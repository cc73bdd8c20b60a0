-- ===== src/V6/Merkle/Streaming.antt =====
-- The streaming accumulator computes the root of the level-by-level tree.
use crates.Prelude.{ℕ, zero, suc, ◌+◌, ◌%◌, ◌^◌, ◌<◌, ◌≡◌, refl, arith, ap, ◌∙◌, ◌++◌, sym}
use crates.Prelude.{
  List, [], ◌∷◌, Option, none, some, length, replicate, map, append-nil, length-map, Option-cases,
  inl, inr,
}
use crates.Prelude.{none-ne-some}
use crates.V6.Merkle.{
  Digest, MerkleAccumulatorV1, new, merkle_leaf, merkle_node, push_levels, push_leaf,
  push_record_hash, push_all, fold_levels, finalize, root_of_record_hashes,
}
use crates.V6.Merkle.Batch.{
  last_if, odd_last, combine, full_pairs, batch, pair_level-append, length-full_pairs, batch_root,
}
use mathlib.Core.Option
use native.Mathlib.Nat.{two-pow-succ, mod-eq_of_lt}

module _ (hash : List ℕ → Digest) where
  push_many : List Digest → List (Option Digest) → Option (List (Option Digest))
  push_many [] levels = some levels
  push_many (x ∷ xs) levels = elim (push_levels hash x levels) [
    | none ↦ none
    | some levels' ↦ push_many xs levels'
  ]

  -- Each pair of leaves enters the lowest level and leaves it as one node for the levels above.
  push_many_split :
      (xs : List Digest) (levels : List (Option Digest))
      → push_many xs (none ∷ levels)
        ≡ Option.map (λ ls. odd_last xs ∷ ls) (push_many (full_pairs hash xs) levels)
  unfolding push_many push_levels full_pairs
  push_many_split [] levels = refl
  push_many_split (a ∷ []) levels = refl
  push_many_split (a ∷ b ∷ xs) levels =
      elim (Option-cases (push_levels hash (merkle_node hash a b) levels)) [
        | inl e ↦ rw (e, push_many)
        | inr (levels', e) ↦ rw (e, push_many) (push_many_split xs levels')
      ]

  fold_levels_step :
      (c : Option Digest) (levels : List (Option Digest)) (carry : Option Digest)
      → fold_levels hash (c ∷ levels) carry ≡ fold_levels hash levels (combine hash c carry)
  unfolding fold_levels combine
  fold_levels_step none levels carry = refl
  fold_levels_step (some n) levels none = refl
  fold_levels_step (some n) levels (some r) = refl

  -- On `k` empty levels fewer than 2 ^ k leaves find room, and folding the levels onto a carry is
  -- the tree of the leaves followed by the carry.
  record Streamed (k : ℕ) (xs : List Digest) : Type 0 where
    levels : List (Option Digest)
    pushed : push_many xs (replicate k none) ≡ some levels
    folded :
        (carry : Option Digest) → fold_levels hash levels carry ≡ batch hash k (xs ++ last_if carry)

  first_last_if : (carry : Option Digest) → batch hash zero (last_if carry) ≡ carry
  unfolding batch
  first_last_if none = refl
  first_last_if (some c) = refl

  streamed : (k : ℕ) (xs : List Digest) → length xs < 2 ^ k → Streamed k xs
  streamed zero [] h = record {
    levels = [];
    pushed = unfold push_many in refl;
    folded = λ carry. unfold fold_levels in sym (first_last_if carry);
  }
  streamed zero (x ∷ xs) h = absurd (omega arith)
  streamed (suc k) xs h =
      let s =
        streamed k (full_pairs hash xs)
          (omega (arith, length-full_pairs hash xs, two-pow-succ k)) in
      record {
        levels = odd_last xs ∷ s.levels;
        pushed = rw (push_many_split xs (replicate k none), s.pushed);
        folded = λ carry.
            fold_levels_step (odd_last xs) s.levels carry
            ∙ s.folded (combine hash (odd_last xs) carry)
            ∙ sym (unfold batch in ap (batch hash k) (pair_level-append hash xs carry));
      }

  push_all-many :
      (hs : List Digest) (acc : MerkleAccumulatorV1) {levels : List (Option Digest)}
      → acc.leaf_count + length hs < 2 ^ 64
      → push_many (map (merkle_leaf hash) hs) acc.levels ≡ some levels
      → push_all hash hs acc
        ≡ some (record { levels = levels; leaf_count = acc.leaf_count + length hs })
  unfolding push_all push_many push_record_hash push_leaf
  push_all-many [] acc {levels} h e = ground arith
  push_all-many (x ∷ hs) acc {levels} h e =
      elim (Option-cases (push_levels hash (merkle_leaf hash x) acc.levels)) [
        | inl p ↦ absurd (none-ne-some (rw (p, push_many) at e))
        | inr (levels', p) ↦
            let count : (acc.leaf_count + 1) % 2 ^ 64 ≡ acc.leaf_count + 1 =
              mod-eq_of_lt (omega arith) in
            let total : acc.leaf_count + suc (length hs) ≡ acc.leaf_count + 1 + length hs =
              omega arith in
            rw (p, push_all)
              (rw (count, total)
                (push_all-many hs (record { levels = levels'; leaf_count = acc.leaf_count + 1 })
                  (omega arith) (rw (p, push_many) at e)))
      ]

  -- For fewer than 2 ^ 64 records the accumulator never runs out of levels, counts every record,
  -- and closes on the root of the tree built level by level, with odd nodes promoted.
  pub root_of_record_hashes-batch :
      (hs : List Digest)
      → length hs < 2 ^ 64
      → root_of_record_hashes hash hs ≡ some (batch_root hash (map (merkle_leaf hash) hs))
  unfolding root_of_record_hashes finalize batch_root new
  root_of_record_hashes-batch hs h =
      let leaves = map (merkle_leaf hash) hs in
      let s = streamed 64 leaves (rw length-map h) in
      let zero-length : 0 + length hs ≡ length hs = omega arith in
      let folded : fold_levels hash s.levels none ≡ batch hash 64 leaves =
        rw append-nil at (s.folded none) in
      rw (push_all-many hs new (omega arith) s.pushed, folded, zero-length, length-map)
