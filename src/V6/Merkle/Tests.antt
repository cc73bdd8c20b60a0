-- ===== src/V6/Merkle/Tests.antt =====
-- merkle.rs at a toy hash, the weighted sum of the bytes in the first place of 32.
use crates.Prelude.{ℕ, ◌+◌, ◌*◌, ◌≡◌, ◌⊎◌, refl, arith, List, [], ◌∷◌, some, length, map}
use crates.Prelude.{true, replicate}
use crates.V6.Merkle.{Digest, InclusionProof, merkle_leaf, root_of_record_hashes}
use crates.V6.Merkle.{build_inclusion_proof, verify_inclusion_proof}
use crates.V6.Merkle.{climb, pass, merkle_node, apply_path, apply_step, seal_root, to_le_bytes}
use crates.Prelude.Bytes.{bytes_eq}
use crates.V6.Merkle.Batch.{batch_root, batch, pair_level}
use crates.V6.Merkle.Streaming.{root_of_record_hashes-batch}
use crates.V6.Merkle.Proofs.{build_inclusion_proof-verifies}
use crates.V6.Merkle.Collision.{IsDigest, Collision}
use crates.V6.Merkle.Binding.{root_of_record_hashes_binds}
use crates.V6.Merkle.Soundness.{Member, verify_inclusion_proof_sound}

abbrev weigh : ℕ → List ℕ → ℕ
weigh k [] = 0
weigh k (b ∷ bs) = k * (b + 1) + weigh (k + 1) bs

abbrev toy : List ℕ → Digest
toy bs = weigh 1 bs ∷ replicate 31 0

toy-IsDigest : (x : List ℕ) → IsDigest (toy x)
toy-IsDigest x = refl

abbrev record_hash : ℕ → Digest
record_hash n = n ∷ replicate 31 0

abbrev three : List Digest
three = record_hash 1 ∷ record_hash 2 ∷ record_hash 3 ∷ []

abbrev three_root : Digest
three_root = batch_root toy (map (merkle_leaf toy) three)

root_of_record_hashes-batch_example :
    root_of_record_hashes toy three ≡ some (batch_root toy (map (merkle_leaf toy) three))
root_of_record_hashes-batch_example = root_of_record_hashes-batch toy three (omega arith)

build_inclusion_proof-verifies_example :
    (p : InclusionProof) × (build_inclusion_proof toy three 2 ≡ some p)
    × (p.leaf_index ≡ 2)
    × (p.leaf_count ≡ length three)
    × (verify_inclusion_proof toy (record_hash 3) p three_root ≡ true)
build_inclusion_proof-verifies_example =
    build_inclusion_proof-verifies toy three 2 (record_hash 3) three_root (omega arith) refl
      (root_of_record_hashes-batch toy three (omega arith))

root_of_record_hashes_binds_example : (three ≡ three) ⊎ Collision toy
root_of_record_hashes_binds_example =
    root_of_record_hashes_binds toy toy-IsDigest three three three_root (omega arith) (omega arith)
      (root_of_record_hashes-batch toy three (omega arith))
      (root_of_record_hashes-batch toy three (omega arith))

-- The third record is promoted once and then joined on the right.
abbrev third_proof : InclusionProof
third_proof = record {
  leaf_index = 2;
  leaf_count = 3;
  path = record { sibling = 827875 ∷ replicate 31 0; sibling_is_left = true } ∷ [];
}

third_built : build_inclusion_proof toy three 2 ≡ some third_proof
unfolding build_inclusion_proof climb pass merkle_node merkle_leaf
third_built = refl

third_accepted : verify_inclusion_proof toy (record_hash 3) third_proof three_root ≡ true
unfolding verify_inclusion_proof batch_root batch pair_level apply_path apply_step merkle_node
    merkle_leaf seal_root bytes_eq to_le_bytes
third_accepted = refl

verify_inclusion_proof_sound_example :
    (third_proof.leaf_count ≡ length three) × Member (record_hash 3) three ⊎ Collision toy
verify_inclusion_proof_sound_example =
    verify_inclusion_proof_sound toy toy-IsDigest (record_hash 1)
      (record_hash 2 ∷ record_hash 3 ∷ []) (record_hash 3) three_root third_proof (omega arith)
      (omega arith) (refl, tt) (root_of_record_hashes-batch toy three (omega arith)) third_accepted
