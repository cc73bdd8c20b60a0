-- ===== src/V6/Merkle/Binding.antt =====
-- What a root commits to: the whole sequence of record hashes.
use crates.Prelude.{ℕ, zero, suc, ◌^◌, ◌≤◌, ◌<◌, ◌≡◌, ◌⊎◌, inl, inr, refl, arith, ap, ◌∙◌, sym}
use crates.Prelude.{List, [], ◌∷◌, some, length, map, All}
use crates.Prelude.{length-map}
use crates.Prelude.{some_inj}
use crates.V6.Merkle.{Digest, merkle_leaf, merkle_node, root_of_record_hashes}
use crates.V6.Merkle.Batch.{pair_level, batch, batch_root, length-pair_level}
use crates.V6.Merkle.Streaming.{root_of_record_hashes-batch}
use native.Mathlib.Nat.{two-pow-succ}
use crates.Prelude.{replicate}
use crates.V6.Merkle.Collision.{IsDigest, Collision, leaf_inj, node_inj, root_inj}
use crates.V6.Merkle.Proofs.{batch_total}
use mathlib.Core.Option

-- BLAKE3 returns 32 bytes.
module _ (hash : List ℕ → Digest) (hash_len : (x : List ℕ) → IsDigest (hash x)) where
  pub node-IsDigest : (a b : Digest) → IsDigest (merkle_node hash a b)
  unfolding merkle_node
  node-IsDigest a b = hash_len _

  pub pair_level-IsDigest : (xs : List Digest) → All IsDigest xs → All IsDigest (pair_level hash xs)
  unfolding pair_level
  pair_level-IsDigest [] h = tt
  pair_level-IsDigest (a ∷ []) h = h
  pair_level-IsDigest (a ∷ b ∷ xs) (ha, (hb, hxs)) = (node-IsDigest a b, pair_level-IsDigest xs hxs)

  pub leaves-IsDigest : (hs : List Digest) → All IsDigest (map (merkle_leaf hash) hs)
  unfolding merkle_leaf
  leaves-IsDigest [] = tt
  leaves-IsDigest (h ∷ hs) = (hash_len _, leaves-IsDigest hs)

  pair_level_inj :
      (xs ys : List Digest)
      → All IsDigest xs
      → All IsDigest ys
      → length xs ≡ length ys
      → pair_level hash xs ≡ pair_level hash ys
      → (xs ≡ ys) ⊎ Collision hash
  unfolding pair_level
  pair_level_inj [] [] hx hy l e = inl refl
  pair_level_inj [] (y ∷ ys) hx hy l e = absurd (omega arith)
  pair_level_inj (x ∷ xs) [] hx hy l e = absurd (omega arith)
  pair_level_inj (x ∷ []) (y ∷ []) hx hy l e = inl e
  pair_level_inj (x ∷ []) (y ∷ y' ∷ ys) hx hy l e = absurd (omega arith)
  pair_level_inj (x ∷ x' ∷ xs) (y ∷ []) hx hy l e = absurd (omega arith)
  pair_level_inj (x ∷ x' ∷ xs) (y ∷ y' ∷ ys) (hx, (hx', hxs)) (hy, (hy', hys)) l e =
      join_inj x x' y y' xs ys (node_inj hash x x' y y' hx hy (cc))
        (pair_level_inj xs ys hxs hys (omega arith) (cc))
    where
      join_inj :
          (x x' y y' : Digest) (xs ys : List Digest)
          → (x ≡ y) × (x' ≡ y') ⊎ Collision hash
          → (xs ≡ ys) ⊎ Collision hash
          → (x ∷ x' ∷ xs ≡ y ∷ y' ∷ ys) ⊎ Collision hash
      join_inj x x' y y' xs ys (inl (p, q)) (inl r) = inl (cc)
      join_inj x x' y y' xs ys (inl _) (inr c) = inr c
      join_inj x x' y y' xs ys (inr c) _ = inr c

  length-pair_level_eq :
      (xs ys : List Digest)
      → length xs ≡ length ys
      → length (pair_level hash xs) ≡ length (pair_level hash ys)
  unfolding pair_level
  length-pair_level_eq [] [] l = refl
  length-pair_level_eq [] (y ∷ ys) l = absurd (omega arith)
  length-pair_level_eq (x ∷ xs) [] l = absurd (omega arith)
  length-pair_level_eq (x ∷ []) (y ∷ []) l = refl
  length-pair_level_eq (x ∷ []) (y ∷ y' ∷ ys) l = absurd (omega arith)
  length-pair_level_eq (x ∷ x' ∷ xs) (y ∷ []) l = absurd (omega arith)
  length-pair_level_eq (x ∷ x' ∷ xs) (y ∷ y' ∷ ys) l =
      ap suc (length-pair_level_eq xs ys (omega arith))

  batch_inj :
      (f : ℕ) (xs ys : List Digest)
      → All IsDigest xs
      → All IsDigest ys
      → length xs ≡ length ys
      → length xs ≤ 2 ^ f
      → batch hash f xs ≡ batch hash f ys
      → (xs ≡ ys) ⊎ Collision hash
  unfolding batch
  batch_inj zero [] [] hx hy l b e = inl refl
  batch_inj zero [] (y ∷ ys) hx hy l b e = absurd (omega arith)
  batch_inj zero (x ∷ xs) [] hx hy l b e = absurd (omega arith)
  batch_inj zero (x ∷ []) (y ∷ []) hx hy l b e = inl (cc)
  batch_inj zero (x ∷ []) (y ∷ y' ∷ ys) hx hy l b e = absurd (omega arith)
  batch_inj zero (x ∷ x' ∷ xs) ys hx hy l b e = absurd (omega arith)
  batch_inj (suc f) xs ys hx hy l b e =
      elim (batch_inj f (pair_level hash xs) (pair_level hash ys) (pair_level-IsDigest xs hx)
        (pair_level-IsDigest ys hy) (length-pair_level_eq xs ys l)
        (omega (arith, length-pair_level hash xs, two-pow-succ f)) e) [
          | inl p ↦ pair_level_inj xs ys hx hy l p
          | inr c ↦ inr c
        ]

  leaves_inj :
      (xs ys : List Digest)
      → map (merkle_leaf hash) xs ≡ map (merkle_leaf hash) ys
      → (xs ≡ ys) ⊎ Collision hash
  leaves_inj [] [] e = inl refl
  leaves_inj [] (y ∷ ys) e = absurd (cc)
  leaves_inj (x ∷ xs) [] e = absurd (cc)
  leaves_inj (x ∷ xs) (y ∷ ys) e =
      join_inj x y xs ys (leaf_inj hash x y (cc)) (leaves_inj xs ys (cc))
    where
      join_inj :
          (x y : Digest) (xs ys : List Digest)
          → (x ≡ y) ⊎ Collision hash
          → (xs ≡ ys) ⊎ Collision hash
          → (x ∷ xs ≡ y ∷ ys) ⊎ Collision hash
      join_inj x y xs ys (inl p) (inl r) = inl (cc)
      join_inj x y xs ys (inl _) (inr c) = inr c
      join_inj x y xs ys (inr c) _ = inr c

  same_tree :
      (xs ys : List Digest)
      → length (map (merkle_leaf hash) xs) ≡ length (map (merkle_leaf hash) ys)
      → length xs < 2 ^ 64
      → Option.get_or (batch hash 64 (map (merkle_leaf hash) xs)) (replicate 32 0)
        ≡ Option.get_or (batch hash 64 (map (merkle_leaf hash) ys)) (replicate 32 0)
      → (xs ≡ ys) ⊎ Collision hash
  same_tree [] [] l b e = inl refl
  same_tree [] (y ∷ ys) l b e = absurd (omega arith)
  same_tree (x ∷ xs) [] l b e = absurd (omega arith)
  same_tree (x ∷ xs) (y ∷ ys) l b e =
      let (rx, tx) = batch_total hash 64 (merkle_leaf hash x) (map (merkle_leaf hash) xs) in
      let (ry, ty) = batch_total hash 64 (merkle_leaf hash y) (map (merkle_leaf hash) ys) in
      let tops : rx ≡ ry = rw (tx, ty) at e in
      elim (batch_inj 64 (map (merkle_leaf hash) (x ∷ xs)) (map (merkle_leaf hash) (y ∷ ys))
        (leaves-IsDigest (x ∷ xs)) (leaves-IsDigest (y ∷ ys)) l
        (omega (arith, length-map (x ∷ xs) (merkle_leaf hash))) (tx ∙ ap some tops ∙ sym ty)) [
          | inl p ↦ leaves_inj (x ∷ xs) (y ∷ ys) p
          | inr c ↦ inr c
        ]

  -- Two segments of fewer than 2 ^ 64 records with one root hold the same record hashes in the same
  -- order, or exhibit two inputs on which the hash collides.
  pub root_of_record_hashes_binds :
      (xs ys : List Digest) (root : Digest)
      → length xs < 2 ^ 64
      → length ys < 2 ^ 64
      → root_of_record_hashes hash xs ≡ some root
      → root_of_record_hashes hash ys ≡ some root
      → (xs ≡ ys) ⊎ Collision hash
  unfolding batch_root
  root_of_record_hashes_binds xs ys root hx hy rx ry =
      elim (root_inj hash (length xs') (length ys') _ _ (rw length-map hx) (rw length-map hy) (
        some_inj (
          sym (root_of_record_hashes-batch hash xs hx)
          ∙ rx
          ∙ sym ry
          ∙ root_of_record_hashes-batch hash ys hy))) [
            | inl (counts, accs) ↦ same_tree xs ys counts hx accs
            | inr c ↦ inr c
          ]
    where
      xs' : List Digest
      xs' = map (merkle_leaf hash) xs

      ys' : List Digest
      ys' = map (merkle_leaf hash) ys
