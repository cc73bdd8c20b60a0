-- ===== src/V6/Merkle/Soundness.antt =====
-- What an accepted inclusion proof shows.
use crates.Prelude.{ℕ, zero, suc, ◌^◌, ◌<◌, ◌≡◌, ◌⊎◌, inl, inr, refl, arith, ap, ◌∙◌, ◌++◌, sym}
use crates.Prelude.{List, [], ◌∷◌, some, length, map, All}
use crates.Prelude.{true}
use crates.Prelude.{some_inj}
use crates.V6.Merkle.{
  Digest, ProofStep, InclusionProof, merkle_leaf, merkle_node, seal_root, apply_step, apply_path,
  verify_inclusion_proof, root_of_record_hashes,
}
use crates.V6.Merkle.Batch.{pair_level, batch}
use crates.V6.Merkle.Streaming.{root_of_record_hashes-batch}
use crates.Prelude.Bytes.{bytes_eq_sound}
use crates.V6.Merkle.Collision.{IsDigest, Collision, leaf_inj, node_inj, leaf_ne_node, root_inj}
use crates.V6.Merkle.Binding.{node-IsDigest, pair_level-IsDigest, leaves-IsDigest}
use crates.V6.Merkle.Proofs.{batch_root-some}
use mathlib.Core.Path.{subst}
use crates.Prelude.{Bool-cases}

-- `d` stands in the list.
abbrev pub Member : Digest → List Digest → Type 0
Member d [] = ⊥
Member d (x ∷ xs) = (d ≡ x) ⊎ Member d xs

-- A list is empty or has a last element.
snoc_cases {ℓ} :
    {A : Type ℓ} (xs : List A)
    → (xs ≡ []) ⊎ ((init : List A) × (last : A) × (xs ≡ init ++ (last ∷ [])))
snoc_cases [] = inl refl
snoc_cases (x ∷ xs) = elim (snoc_cases xs) [
  | inl e ↦ inr ([], x, ap (λ zs. x ∷ zs) e)
  | inr (init, last, e) ↦ inr (x ∷ init, last, ap (λ zs. x ∷ zs) e)
]

abbrev pub StepIsDigest : ProofStep → Type 0
StepIsDigest s = IsDigest s.sibling

All-init {ℓ κ} :
    {A : Type ℓ} (P : A → Type κ) (xs : List A) (y : A) → All P (xs ++ (y ∷ [])) → All P xs × P y
All-init P [] y h = (tt, h.0)
All-init P (x ∷ xs) y (hx, h) = let (a, b) = All-init P xs y h in ((hx, a), b)

module _ (hash : List ℕ → Digest) (hash_len : (x : List ℕ) → IsDigest (hash x)) where
  apply_path_snoc :
      (p : List ProofStep) (s : ProofStep) (x : Digest)
      → apply_path hash x (p ++ (s ∷ [])) ≡ apply_step hash (apply_path hash x p) s
  unfolding apply_path
  apply_path_snoc [] s x = refl
  apply_path_snoc (t ∷ p) s x = apply_path_snoc p s (apply_step hash x t)

  apply_step-IsDigest : (x : Digest) (s : ProofStep) → IsDigest (apply_step hash x s)
  unfolding apply_step
  apply_step-IsDigest x s =
      ground
        (arith, node-IsDigest hash hash_len s.sibling x, node-IsDigest hash hash_len x s.sibling)

  apply_path-IsDigest :
      (x : Digest) (p : List ProofStep) → IsDigest x → IsDigest (apply_path hash x p)
  unfolding apply_path
  apply_path-IsDigest x [] h = h
  apply_path-IsDigest x (s ∷ p) h =
      apply_path-IsDigest (apply_step hash x s) p (apply_step-IsDigest x s)

  -- A member of a level was there before the pass, or joins two that were.
  record Joined (d : Digest) (xs : List Digest) : Type 0 where
    left : Digest
    right : Digest
    left_in : Member left xs
    right_in : Member right xs
    left_len : IsDigest left
    joined : d ≡ merkle_node hash left right

  Member-pair_level :
      (xs : List Digest) (d : Digest)
      → All IsDigest xs
      → Member d (pair_level hash xs)
      → Member d xs ⊎ Joined d xs
  unfolding pair_level
  Member-pair_level [] d h m = absurd m
  Member-pair_level (a ∷ []) d h m = inl m
  Member-pair_level (a ∷ b ∷ xs) d (ha, (hb, hxs)) (inl e) = inr (record {
    left = a;
    right = b;
    left_in = inl refl;
    right_in = inr (inl refl);
    left_len = ha;
    joined = e;
  })
  Member-pair_level (a ∷ b ∷ xs) d (ha, (hb, hxs)) (inr m) = elim (Member-pair_level xs d hxs m) [
    | inl old ↦ inl (inr (inr old))
    | inr j ↦ inr (record {
      left = j.left;
      right = j.right;
      left_in = inr (inr j.left_in);
      right_in = inr (inr j.right_in);
      left_len = j.left_len;
      joined = j.joined;
    })
  ]

  module _ (h : Digest) (hs : List Digest) where
    abbrev Found : Type 0
    Found = Member h hs ⊎ Collision hash

    -- Whatever path leads from `h` into the list, `h` is a record of the segment.
    abbrev Reaches : List Digest → Type 0
    Reaches xs =
        (path : List ProofStep)
        → All StepIsDigest path
        → Member (apply_path hash (merkle_leaf hash h) path) xs
        → Found

    leaf-IsDigest : IsDigest (merkle_leaf hash h)
    unfolding merkle_leaf
    leaf-IsDigest = hash_len _

    -- The last step of a path that ends in a joined node comes from one of its children.
    last_step :
        (acc : Digest) (s : ProofStep) (xs : List Digest)
        → IsDigest acc
        → StepIsDigest s
        → Joined (apply_step hash acc s) xs
        → Member acc xs ⊎ Collision hash
    unfolding apply_step
    last_step acc s xs ha hs' j = elim (Bool-cases s.sibling_is_left) [
      | inl left ↦
          elim (node_inj hash s.sibling acc j.left j.right hs' j.left_len (rw left at j.joined)) [
            | inl (p, q) ↦ inl (subst (λ x. Member x xs) (sym q) j.right_in)
            | inr c ↦ inr c
          ]
      | inr right ↦
          elim (node_inj hash acc s.sibling j.left j.right ha j.left_len (rw right at j.joined)) [
            | inl (p, q) ↦ inl (subst (λ x. Member x xs) (sym p) j.left_in)
            | inr c ↦ inr c
          ]
    ]

    Reaches-up : (xs : List Digest) → All IsDigest xs → Reaches xs → Reaches (pair_level hash xs)
    unfolding apply_path
    Reaches-up xs hx r path hp m = elim (Member-pair_level xs _ hx m) [
      | inl old ↦ r path hp old
      | inr j ↦ elim (snoc_cases path) [
        | inl e ↦ inr (
            leaf_ne_node hash h j.left j.right (
              subst (λ p. apply_path hash (merkle_leaf hash h) p ≡ merkle_node hash j.left j.right)
                e j.joined))
        | inr (init, s, e) ↦
            last init s (subst (All StepIsDigest) e hp)
              (subst (λ p. Joined (apply_path hash (merkle_leaf hash h) p) xs) e j)
      ]
    ]
      where
        last :
            (init : List ProofStep) (s : ProofStep)
            → All StepIsDigest (init ++ (s ∷ []))
            → Joined (apply_path hash (merkle_leaf hash h) (init ++ (s ∷ []))) xs
            → Found
        last init s hp' j =
            let (hi, hs') = All-init StepIsDigest init s hp' in
            let acc = apply_path hash (merkle_leaf hash h) init in
            elim (last_step acc s xs (apply_path-IsDigest _ init leaf-IsDigest) hs'
              (subst (λ d. Joined d xs) (apply_path_snoc init s (merkle_leaf hash h)) j)) [
                | inl below ↦ r init hi below
                | inr c ↦ inr c
              ]

    Member-leaves :
        (d : Digest) (zs : List Digest)
        → Member d (map (merkle_leaf hash) zs)
        → (z : Digest) × (d ≡ merkle_leaf hash z) × Member z zs
    Member-leaves d [] m = absurd m
    Member-leaves d (z ∷ zs) (inl e) = (z, e, inl refl)
    Member-leaves d (z ∷ zs) (inr m) = let (y, e, k) = Member-leaves d zs m in (y, e, inr k)

    step_is_node :
        (x : Digest) (s : ProofStep)
        → (a : Digest) × (b : Digest) × (apply_step hash x s ≡ merkle_node hash a b)
    unfolding apply_step
    step_is_node x s = elim (Bool-cases s.sibling_is_left) [
      | inl left ↦ (s.sibling, x, rw left)
      | inr right ↦ (x, s.sibling, rw right)
    ]

    Reaches-leaves : Reaches (map (merkle_leaf hash) hs)
    Reaches-leaves path hp m =
        let (z, e, k) = Member-leaves _ hs m in
        elim (snoc_cases path) [
          | inl p ↦
              at_leaf z k
                (subst (λ q. apply_path hash (merkle_leaf hash h) q ≡ merkle_leaf hash z) p e)
          | inr (init, s, p) ↦
              let (a, b, n) = step_is_node (apply_path hash (merkle_leaf hash h) init) s in
              inr (
                leaf_ne_node hash z a b (
                  sym (subst (λ q. apply_path hash (merkle_leaf hash h) q ≡ merkle_leaf hash z) p e)
                  ∙ apply_path_snoc init s (merkle_leaf hash h)
                  ∙ n))
        ]
      where
        at_leaf :
            (z : Digest)
            → Member z hs
            → apply_path hash (merkle_leaf hash h) [] ≡ merkle_leaf hash z
            → Found
        at_leaf z k e = elim (leaf_inj hash h z (unfold apply_path in e)) [
          | inl p ↦ inl (subst (λ x. Member x hs) (sym p) k)
          | inr c ↦ inr c
        ]

    reached :
        (f : ℕ) (xs : List Digest) (top : Digest) (path : List ProofStep)
        → All IsDigest xs
        → Reaches xs
        → batch hash f xs ≡ some top
        → All StepIsDigest path
        → apply_path hash (merkle_leaf hash h) path ≡ top
        → Found
    unfolding batch
    reached zero [] top path hx r b hp e = absurd (cc)
    reached zero (x ∷ xs) top path hx r b hp e = r path hp (inl (e ∙ sym (some_inj b)))
    reached (suc f) xs top path hx r b hp e =
        reached f (pair_level hash xs) top path (pair_level-IsDigest hash hash_len xs hx)
          (Reaches-up xs hx r) b hp e

  -- An inclusion proof that is accepted against the root of a segment with at least one record shows
  -- that the proof's count is the segment's and that the record hash is one of the segment's, unless
  -- the hash collides.
  pub verify_inclusion_proof_sound :
      (x : Digest) (xs : List Digest) (h root : Digest) (proof : InclusionProof)
      → length (x ∷ xs) < 2 ^ 64
      → proof.leaf_count < 2 ^ 64
      → All StepIsDigest proof.path
      → root_of_record_hashes hash (x ∷ xs) ≡ some root
      → verify_inclusion_proof hash h proof root ≡ true
      → (proof.leaf_count ≡ length (x ∷ xs)) × Member h (x ∷ xs) ⊎ Collision hash
  unfolding verify_inclusion_proof
  verify_inclusion_proof_sound x xs h root proof small count hp r v =
      let (top, total, sealed) = batch_root-some hash (x ∷ xs) 0 x refl in
      let leaves = map (merkle_leaf hash) (x ∷ xs) in
      let is_root : seal_root hash (length (x ∷ xs)) top ≡ root =
        some_inj
          (sym (ap some sealed) ∙ sym (root_of_record_hashes-batch hash (x ∷ xs) small) ∙ r) in
      elim (root_inj hash proof.leaf_count (length (x ∷ xs)) _ top count small
        (bytes_eq_sound _ root v ∙ sym is_root)) [
          | inl (n, acc) ↦
              elim (reached h (x ∷ xs) 64 leaves top proof.path
                (leaves-IsDigest hash hash_len (x ∷ xs)) (Reaches-leaves h (x ∷ xs)) total hp acc) [
                  | inl m ↦ inl (n, m)
                  | inr c ↦ inr c
                ]
          | inr c ↦ inr c
        ]
