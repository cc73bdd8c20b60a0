-- ===== src/V6/Merkle.antt =====
-- heraclitus-log/src/v6/merkle.rs: the streaming Merkle accumulator of a segment and its inclusion
-- proofs. BLAKE3 is a parameter `hash` from byte strings to digests; a digest is a list of bytes.
mod Tests
pub mod Batch
pub mod Streaming
pub mod Proofs
pub mod Collision
pub mod Binding
pub mod Soundness
use crates.Prelude.{ℕ, zero, suc, ◌+◌, ◌%◌, ◌/◌, ◌^◌, ◌<◌, Bool, true, false, ◌||◌, ◌&&◌}
use crates.Prelude.{List, [], ◌∷◌, ◌++◌, map, Option, none, some, ltb, leb, ◌==◌, if◌then◌else◌}
use crates.Prelude.{length, get_elem?, replicate}
use crates.Prelude.Bytes.{bytes_eq}
use mathlib.Core.Option

abbrev pub Digest : Type 0
Digest = List ℕ

-- b"HRKL6:MERKLE:LEAF" and its siblings; they differ from the thirteenth byte on.
abbrev pub domain_prefix : List ℕ → List ℕ
domain_prefix tail =
    b'H' ∷ b'R' ∷ b'K' ∷ b'L' ∷ b'6' ∷ b':' ∷ b'M' ∷ b'E' ∷ b'R' ∷ b'K' ∷ b'L' ∷ b'E' ∷ b':' ∷ tail

abbrev pub domain_leaf : List ℕ
domain_leaf = domain_prefix (b'L' ∷ b'E' ∷ b'A' ∷ b'F' ∷ [])

abbrev pub domain_node : List ℕ
domain_node = domain_prefix (b'N' ∷ b'O' ∷ b'D' ∷ b'E' ∷ [])

abbrev pub domain_root : List ℕ
domain_root = domain_prefix (b'R' ∷ b'O' ∷ b'O' ∷ b'T' ∷ [])

abbrev pub max_levels : ℕ
max_levels = 64

-- `x.to_le_bytes()` of an integer of `w` bytes.
unfoldable pub to_le_bytes : ℕ → ℕ → List ℕ
to_le_bytes zero x = []
to_le_bytes (suc w) x = (x % 256) ∷ to_le_bytes w (x / 256)

pub record MerkleAccumulatorV1 : Type 0 where
  pub levels : List (Option Digest)
  pub leaf_count : ℕ

-- A step of a proof: the sibling, and whether it is the left one.
pub record ProofStep : Type 0 where
  pub sibling : Digest
  pub sibling_is_left : Bool

pub record InclusionProof : Type 0 where
  pub leaf_index : ℕ
  pub leaf_count : ℕ
  pub path : List ProofStep

unfoldable pub new : MerkleAccumulatorV1
new = record { levels = replicate max_levels none; leaf_count = 0 }

module _ (hash : List ℕ → Digest) where
  unfoldable pub merkle_leaf : Digest → Digest
  merkle_leaf h = hash (domain_leaf ++ h)

  unfoldable pub merkle_node : Digest → Digest → Digest
  merkle_node left right = hash (domain_node ++ (left ++ right))

  unfoldable pub seal_root : ℕ → Digest → Digest
  seal_root leaf_count acc = hash (domain_root ++ (to_le_bytes 8 leaf_count ++ acc))

  -- The loop of `push_leaf` from one level up; past the last level the index panics: `none`.
  unfoldable pub push_levels : Digest → List (Option Digest) → Option (List (Option Digest))
  push_levels carry [] = none
  push_levels carry (none ∷ levels) = some (some carry ∷ levels)
  push_levels carry (some pending ∷ levels) =
      Option.map (λ rest. none ∷ rest) (push_levels (merkle_node pending carry) levels)

  unfoldable pub push_leaf : Digest → MerkleAccumulatorV1 → Option MerkleAccumulatorV1
  push_leaf leaf acc =
      Option.map (λ levels. record { levels = levels; leaf_count = (acc.leaf_count + 1) % 2 ^ 64 })
        (push_levels leaf acc.levels)

  unfoldable pub push_record_hash : Digest → MerkleAccumulatorV1 → Option MerkleAccumulatorV1
  push_record_hash h acc = push_leaf (merkle_leaf h) acc

  -- The loop of `finalize` over the levels that hold a subtree.
  unfoldable pub fold_levels : List (Option Digest) → Option Digest → Option Digest
  fold_levels [] carry = carry
  fold_levels (none ∷ levels) carry = fold_levels levels carry
  fold_levels (some node ∷ levels) none = fold_levels levels (some node)
  fold_levels (some node ∷ levels) (some right) = fold_levels levels (some (merkle_node node right))

  unfoldable pub finalize : MerkleAccumulatorV1 → Digest
  finalize acc =
      seal_root acc.leaf_count (Option.get_or (fold_levels acc.levels none) (replicate 32 0))

  unfoldable pub push_all : List Digest → MerkleAccumulatorV1 → Option MerkleAccumulatorV1
  push_all [] acc = some acc
  push_all (h ∷ hs) acc = elim (push_record_hash h acc) [
    | none ↦ none
    | some acc' ↦ push_all hs acc'
  ]

  unfoldable pub root_of_record_hashes : List Digest → Option Digest
  root_of_record_hashes hashes = Option.map finalize (push_all hashes new)

  -- The inner loop of `build_inclusion_proof`, on the part of `level` from index `i` on.
  unfoldable pub pass :
      List Digest → ℕ → ℕ → List ProofStep → List Digest → ℕ × List ProofStep × List Digest
  pass [] i idx path next = (idx, path, next)
  pass (a ∷ []) i idx path next = (if idx == i then length next else idx, path, next ++ (a ∷ []))
  pass (a ∷ b ∷ level) i idx path next =
      pass level (i + 2) (if idx == i || idx == i + 1 then length next else idx)
        (if idx == i
          then path ++ (record { sibling = b; sibling_is_left = false } ∷ [])
          else if idx == i + 1
          then path ++ (record { sibling = a; sibling_is_left = true } ∷ [])
          else path)
        (next ++ (merkle_node a b ∷ []))

  -- The outer loop, on fuel; each round about halves the level.
  unfoldable pub climb : ℕ → List Digest → ℕ → List ProofStep → List ProofStep
  climb zero level idx path = path
  climb (suc fuel) level idx path =
      let (idx', path', next) = pass level 0 idx path [] in
      let rest = climb fuel next idx' path' in if ltb 1 (length level) then rest else path

  unfoldable pub build_inclusion_proof : List Digest → ℕ → Option InclusionProof
  build_inclusion_proof hashes index =
      if leb (length hashes) index
      then none
      else some (record {
        leaf_index = index;
        leaf_count = length hashes;
        path = climb (length hashes) (map merkle_leaf hashes) index [];
      })

  unfoldable pub apply_step : Digest → ProofStep → Digest
  apply_step acc step =
      if step.sibling_is_left then merkle_node step.sibling acc else merkle_node acc step.sibling

  unfoldable pub apply_path : Digest → List ProofStep → Digest
  apply_path acc [] = acc
  apply_path acc (step ∷ path) = apply_path (apply_step acc step) path

  -- The digest comparison of the source is on 32-byte arrays.
  unfoldable pub verify_inclusion_proof : Digest → InclusionProof → Digest → Bool
  verify_inclusion_proof h proof root =
      bytes_eq (seal_root proof.leaf_count (apply_path (merkle_leaf h) proof.path)) root
