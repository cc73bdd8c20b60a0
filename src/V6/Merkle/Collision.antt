-- ===== src/V6/Merkle/Collision.antt =====
-- The hashes of merkle.rs as commitments. BLAKE3 is not assumed to be injective: each lemma ends in
-- its claim or in two byte strings that hash to the same digest.
use crates.Prelude.{ℕ, zero, suc, ◌/◌, ◌^◌, ◌<◌, ◌≡◌, ◌≢◌, ◌⊎◌, inl, inr, refl, arith, ◌++◌}
use crates.Prelude.{List, [], ◌∷◌, length}
use crates.Prelude.{ℕ_discrete}
use crates.V6.Merkle.{
  Digest, domain_leaf, domain_node, domain_root, to_le_bytes, merkle_leaf, merkle_node, seal_root,
}
use native.Mathlib.Nat.{pow-suc}

abbrev pub IsDigest : Digest → Type 0
IsDigest d = length d ≡ 32

-- Two different inputs with one digest.
pub record Collision (hash : List ℕ → Digest) : Type 0 where
  pub left : List ℕ
  pub right : List ℕ
  pub differ : left ≢ right
  pub agree : hash left ≡ hash right

Bytes-discrete : Discrete (List ℕ)
Bytes-discrete = hlevel ℕ_discrete

pub append_inj : (a b c d : List ℕ) → length a ≡ length c → a ++ b ≡ c ++ d → (a ≡ c) × (b ≡ d)
append_inj [] b [] d l e = (refl, e)
append_inj [] b (y ∷ c) d l e = absurd (omega arith)
append_inj (x ∷ a) b [] d l e = absurd (omega arith)
append_inj (x ∷ a) b (y ∷ c) d l e =
    let (h, t) = append_inj a b c d (omega arith) (ground arith) in (ground arith, t)

pub length-to_le_bytes : (w x : ℕ) → length (to_le_bytes w x) ≡ w
unfolding to_le_bytes
length-to_le_bytes zero x = refl
length-to_le_bytes (suc w) x = omega (arith, length-to_le_bytes w (x / 256))

pub to_le_bytes_inj :
    (w x y : ℕ) → x < 256 ^ w → y < 256 ^ w → to_le_bytes w x ≡ to_le_bytes w y → x ≡ y
unfolding to_le_bytes
to_le_bytes_inj zero x y h k e = omega arith
to_le_bytes_inj (suc w) x y h k e =
    ground (arith, pow-suc 256 w, to_le_bytes_inj w (x / 256) (y / 256))

module _ (hash : List ℕ → Digest) where
  hash_inj : (x y : List ℕ) → hash x ≡ hash y → (x ≡ y) ⊎ Collision hash
  hash_inj x y e = elim (Bytes-discrete x y) [
    | yes p ↦ inl p
    | no n ↦ inr (record { left = x; right = y; differ = n; agree = e })
  ]

  pub leaf_inj : (x y : Digest) → merkle_leaf hash x ≡ merkle_leaf hash y → (x ≡ y) ⊎ Collision hash
  unfolding merkle_leaf
  leaf_inj x y e = elim (hash_inj _ _ e) [
    | inl p ↦ inl (append_inj domain_leaf x domain_leaf y refl p).1
    | inr c ↦ inr c
  ]

  pub node_inj :
      (a b c d : Digest)
      → IsDigest a
      → IsDigest c
      → merkle_node hash a b ≡ merkle_node hash c d
      → (a ≡ c) × (b ≡ d) ⊎ Collision hash
  unfolding merkle_node
  node_inj a b c d ha hc e = elim (hash_inj _ _ e) [
    | inl p ↦ inl (
        append_inj a b c d (omega arith)
          (append_inj domain_node (a ++ b) domain_node (c ++ d) refl p).1)
    | inr c ↦ inr c
  ]

  pub leaf_ne_node : (x a b : Digest) → merkle_leaf hash x ≡ merkle_node hash a b → Collision hash
  unfolding merkle_leaf merkle_node
  leaf_ne_node x a b e = record {
    left = domain_leaf ++ x;
    right = domain_node ++ (a ++ b);
    differ = λ p. ground arith;
    agree = e;
  }

  pub root_inj :
      (n m : ℕ) (a b : Digest)
      → n < 2 ^ 64
      → m < 2 ^ 64
      → seal_root hash n a ≡ seal_root hash m b
      → (n ≡ m) × (a ≡ b) ⊎ Collision hash
  unfolding seal_root
  root_inj n m a b hn hm e = elim (hash_inj _ _ e) [
    | inl p ↦
        let (counts, accs) =
          append_inj (to_le_bytes 8 n) a (to_le_bytes 8 m) b
            (omega (arith, length-to_le_bytes 8 n, length-to_le_bytes 8 m))
            (append_inj domain_root _ domain_root _ refl p).1 in
        inl (to_le_bytes_inj 8 n m (omega arith) (omega arith) counts, accs)
    | inr c ↦ inr c
  ]
