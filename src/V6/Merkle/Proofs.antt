-- ===== src/V6/Merkle/Proofs.antt =====
-- `build_inclusion_proof` gives proofs that `verify_inclusion_proof` accepts.
use crates.Prelude.{ℕ, zero, suc, ◌+◌, ◌*◌, ◌^◌, ◌≤◌, ◌<◌, ◌≡◌, refl, arith, ap, ◌∙◌, ◌++◌, sym}
use crates.Prelude.{List, [], ◌∷◌, some, length, map, append-nil, append_assoc, get_elem?}
use crates.Prelude.{true, false, length-append, length-map}
use crates.Prelude.{some_inj}
use crates.Prelude.Bytes.{bytes_eq_refl}
use crates.V6.Merkle.{
  Digest, ProofStep, InclusionProof, merkle_leaf, merkle_node, seal_root, pass, climb,
  build_inclusion_proof, apply_step, apply_path, verify_inclusion_proof, root_of_record_hashes,
}
use crates.V6.Merkle.Batch.{pair_level, length-pair_level, batch, batch_single, batch_root}
use crates.V6.Merkle.Streaming.{root_of_record_hashes-batch}
use native.Mathlib.Nat.{two-pow-succ}

get_elem?-middle {ℓ} :
    {A : Type ℓ} (front back : List A) (y : A)
    → get_elem? (front ++ (y ∷ back)) (length front) ≡ some y
get_elem?-middle [] back y = refl
get_elem?-middle (x ∷ front) back y = get_elem?-middle front back y

module _ (hash : List ℕ → Digest) where
  apply_path-append :
      (p q : List ProofStep) (x : Digest)
      → apply_path hash x (p ++ q) ≡ apply_path hash (apply_path hash x p) q
  unfolding apply_path
  apply_path-append [] q x = refl
  apply_path-append (s ∷ p) q x = apply_path-append p q (apply_step hash x s)

  pass-next :
      (level : List Digest) (i idx : ℕ) (path : List ProofStep) (next : List Digest)
      → (pass hash level i idx path next).2 ≡ next ++ pair_level hash level
  unfolding pass pair_level
  pass-next [] i idx path next = sym (append-nil next)
  pass-next (a ∷ []) i idx path next = refl
  pass-next (a ∷ b ∷ level) i idx path next =
      pass-next level (i + 2) _ _ (next ++ (merkle_node hash a b ∷ [])) ∙ append_assoc next _ _

  -- Behind the index nothing changes any more.
  pass_behind :
      (level : List Digest) (i idx : ℕ) (path : List ProofStep) (next : List Digest)
      → idx < i
      → ((pass hash level i idx path next).0 ≡ idx) × ((pass hash level i idx path next).1 ≡ path)
  unfolding pass
  pass_behind [] i idx path next h = (refl, refl)
  pass_behind (a ∷ []) i idx path next h = ground arith
  pass_behind (a ∷ b ∷ level) i idx path next h =
      ground (arith, pass_behind level (i + 2) idx path (next ++ (merkle_node hash a b ∷ [])))

  module _ (a b : Digest) (level : List Digest) (i idx : ℕ) (path : List ProofStep)
      (next : List Digest) where
    abbrev joined : List Digest
    joined = next ++ (merkle_node hash a b ∷ [])

    pass_left :
        idx ≡ i
        → pass hash (a ∷ b ∷ level) i idx path next
          ≡ pass hash level
              (i + 2)
              (length next)
              (path ++ (record { sibling = b; sibling_is_left = false } ∷ []))
              joined
    unfolding pass
    pass_left e = ground arith

    pass_right :
        idx ≡ i + 1
        → pass hash (a ∷ b ∷ level) i idx path next
          ≡ pass hash level
              (i + 2)
              (length next)
              (path ++ (record { sibling = a; sibling_is_left = true } ∷ []))
              joined
    unfolding pass
    pass_right e = ground arith

    pass_skip :
        i + 1 < idx
        → pass hash (a ∷ b ∷ level) i idx path next ≡ pass hash level (i + 2) idx path joined
    unfolding pass
    pass_skip e = ground arith

  -- One round takes a node to its parent, with the steps that lead there.
  record Passed (level : List Digest) (i idx : ℕ) (path : List ProofStep) (next : List Digest)
      (x : Digest) : Type 0 where
    ext : List ProofStep
    path_eq : (pass hash level i idx path next).1 ≡ path ++ ext
    parent :
        get_elem? (next ++ pair_level hash level) (pass hash level i idx path next).0
        ≡ some (apply_path hash x ext)

  passed :
      (level : List Digest) (j i idx : ℕ) (path : List ProofStep) (next : List Digest) (x : Digest)
      → get_elem? level j ≡ some x
      → idx ≡ i + j
      → i ≡ 2 * length next
      → Passed level i idx path next x
  unfolding pair_level apply_path apply_step
  passed [] j i idx path next x g e n = absurd (cc)
  passed (a ∷ []) zero i idx path next x g e n =
      unfold pass in
      record {
        ext = [];
        path_eq = sym (append-nil path);
        parent = ground (arith, get_elem?-middle next [] a);
      }
  passed (a ∷ []) (suc j) i idx path next x g e n = absurd (cc)
  passed (a ∷ b ∷ level) zero i idx path next x g e n =
      let q = path ++ (record { sibling = b; sibling_is_left = false } ∷ []) in
      let behind =
        pass_behind level (i + 2) (length next) q (joined a b level i idx path next)
          (omega arith) in
      let left = pass_left a b level i idx path next (omega arith) in
      record {
        ext = record { sibling = b; sibling_is_left = false } ∷ [];
        path_eq = rw left behind.1;
        parent =
            rw (left, behind.0)
              (get_elem?-middle next (pair_level hash level) (merkle_node hash a b) ∙ ground arith);
      }
  passed (a ∷ b ∷ level) (suc zero) i idx path next x g e n =
      let q = path ++ (record { sibling = a; sibling_is_left = true } ∷ []) in
      let behind =
        pass_behind level (i + 2) (length next) q (joined a b level i idx path next)
          (omega arith) in
      let right = pass_right a b level i idx path next (omega arith) in
      record {
        ext = record { sibling = a; sibling_is_left = true } ∷ [];
        path_eq = rw right behind.1;
        parent =
            rw (right, behind.0)
              (get_elem?-middle next (pair_level hash level) (merkle_node hash a b) ∙ ground arith);
      }
  passed (a ∷ b ∷ level) (suc (suc j)) i idx path next x g e n =
      let more = joined a b level i idx path next in
      let skip = pass_skip a b level i idx path next (omega arith) in
      let p =
        passed level j (i + 2) idx path more x g (omega arith)
          (omega (arith, length-append next (merkle_node hash a b ∷ []))) in
      record {
        ext = p.ext;
        path_eq = rw skip p.path_eq;
        parent = rw skip (rw append_assoc at p.parent);
      }

  record Climbed (fuel : ℕ) (level : List Digest) (idx : ℕ) (path : List ProofStep)
      (x root : Digest) : Type 0 where
    ext : List ProofStep
    path_eq : climb hash fuel level idx path ≡ path ++ ext
    reaches : apply_path hash x ext ≡ root

  climb_more :
      (fuel : ℕ) (level : List Digest) (idx : ℕ) (path : List ProofStep)
      → 1 < length level
      → climb hash (suc fuel) level idx path
        ≡ climb hash fuel
            (pair_level hash level)
            (pass hash level 0 idx path []).0
            (pass hash level 0 idx path []).1
  unfolding climb
  climb_more fuel level idx path h = ground (arith, pass-next level 0 idx path [])

  climb_done :
      (fuel : ℕ) (x : Digest) (idx : ℕ) (path : List ProofStep)
      → climb hash fuel (x ∷ []) idx path ≡ path
  unfolding climb
  climb_done zero x idx path = refl
  climb_done (suc fuel) x idx path = refl

  climbed :
      (fuel f : ℕ) (level : List Digest) (idx : ℕ) (path : List ProofStep) (x root : Digest)
      → get_elem? level idx ≡ some x
      → length level ≤ fuel + 1
      → length level ≤ 2 ^ f
      → batch hash f level ≡ some root
      → Climbed fuel level idx path x root
  climbed fuel f [] idx path x root g hf hl e = absurd (cc)
  climbed fuel f (a ∷ []) (suc idx) path x root g hf hl e = absurd (cc)
  climbed fuel f (a ∷ []) zero path x root g hf hl e = record {
    ext = [];
    path_eq = climb_done fuel a zero path ∙ sym (append-nil path);
    reaches = unfold apply_path in ground (arith, batch_single hash f a);
  }
  climbed zero f (a ∷ b ∷ level) idx path x root g hf hl e = absurd (omega arith)
  climbed (suc fuel) zero (a ∷ b ∷ level) idx path x root g hf hl e = absurd (omega arith)
  climbed (suc fuel) (suc f) (a ∷ b ∷ level) idx path x root g hf hl e =
      let here = a ∷ b ∷ level in
      let p = passed here idx 0 idx path [] x g (omega arith) (omega arith) in
      let small = length-pair_level hash here in
      let c =
        climbed fuel f (pair_level hash here) (pass hash here 0 idx path []).0 (path ++ p.ext)
          (apply_path hash x p.ext) root p.parent (omega (arith, small))
          (omega (arith, small, two-pow-succ f)) (unfold batch in e) in
      record {
        ext = p.ext ++ c.ext;
        path_eq =
            climb_more fuel here idx path (omega arith)
            ∙ rw p.path_eq (c.path_eq ∙ append_assoc path p.ext c.ext);
        reaches = apply_path-append p.ext c.ext x ∙ c.reaches;
      }

  get_elem?-map :
      (hs : List Digest) (i : ℕ) (h : Digest)
      → get_elem? hs i ≡ some h
      → get_elem? (map (merkle_leaf hash) hs) i ≡ some (merkle_leaf hash h)
  get_elem?-map [] i h e = absurd (cc)
  get_elem?-map (x ∷ hs) zero h e = cc
  get_elem?-map (x ∷ hs) (suc i) h e = get_elem?-map hs i h e

  get_elem?-lt : (hs : List Digest) (i : ℕ) (h : Digest) → get_elem? hs i ≡ some h → i < length hs
  get_elem?-lt [] i h e = absurd (cc)
  get_elem?-lt (x ∷ hs) zero h e = omega arith
  get_elem?-lt (x ∷ hs) (suc i) h e = omega (arith, get_elem?-lt hs i h e)

  pub batch_total :
      (f : ℕ) (x : Digest) (level : List Digest)
      → (root : Digest) × (batch hash f (x ∷ level) ≡ some root)
  unfolding batch pair_level
  batch_total zero x level = (x, refl)
  batch_total (suc f) x [] = batch_total f x []
  batch_total (suc f) x (y ∷ level) = batch_total f (merkle_node hash x y) (pair_level hash level)

  -- The root of a segment that has a record closes over the node that its tree reduces to.
  pub batch_root-some :
      (hs : List Digest) (i : ℕ) (h : Digest)
      → get_elem? hs i ≡ some h
      → (root : Digest) × (batch hash 64 (map (merkle_leaf hash) hs) ≡ some root)
        × (batch_root hash (map (merkle_leaf hash) hs) ≡ seal_root hash (length hs) root)
  unfolding batch_root
  batch_root-some [] i h e = absurd (cc)
  batch_root-some (x ∷ hs) i h e =
      let (root, total) = batch_total 64 (merkle_leaf hash x) (map (merkle_leaf hash) hs) in
      (root, total, rw (total, length-map))

  -- For every record of a segment, `build_inclusion_proof` gives a proof that names the record's
  -- index and the segment's length, and `verify_inclusion_proof` accepts it against the root that
  -- the streaming accumulator computed.
  pub build_inclusion_proof-verifies :
      (hs : List Digest) (i : ℕ) (h root : Digest)
      → length hs < 2 ^ 64
      → get_elem? hs i ≡ some h
      → root_of_record_hashes hash hs ≡ some root
      → (p : InclusionProof) × (build_inclusion_proof hash hs i ≡ some p)
        × (p.leaf_index ≡ i)
        × (p.leaf_count ≡ length hs)
        × (verify_inclusion_proof hash h p root ≡ true)
  unfolding build_inclusion_proof verify_inclusion_proof
  build_inclusion_proof-verifies hs i h root small e r =
      let (top, total, sealed) = batch_root-some hs i h e in
      let leaves = map (merkle_leaf hash) hs in
      let fuel = length hs in
      let bound : length leaves ≤ fuel = omega (arith, length-map hs (merkle_leaf hash)) in
      let c =
        climbed fuel 64 leaves i [] (merkle_leaf hash h) top (get_elem?-map hs i h e) (omega arith)
          (omega arith) total in
      let inside = get_elem?-lt hs i h e in
      let is_root : seal_root hash (length hs) top ≡ root =
        some_inj (sym (ap some sealed) ∙ sym (root_of_record_hashes-batch hash hs small) ∙ r) in
      (
        record { leaf_index = i; leaf_count = length hs; path = climb hash fuel leaves i [] },
        ground arith,
        refl,
        refl,
        rw (c.path_eq, c.reaches, is_root) (bytes_eq_refl root),
      )
