-- ===== src/V6/Gc/Removal.antt =====
-- What the removals of `apply_gc` leave of each segment.
use crates.Prelude.{ℕ, ◌≡◌, ◌≢◌, inl, inr, refl, arith, ◌∙◌, sym, true, not, ◌==◌, ==_iff}
use crates.Prelude.{List, [], ◌∷◌, map}
use crates.Prelude.Search.{In, find-retain, retain-In, In-retain}
use crates.Prelude.Pointwise.{Pointwise, Pointwise-refl, Pointwise-trans, Pointwise-modify_first}
use crates.Core.Runtime.{PhysicalGeneration, SegmentDescriptorV2, generation, numbered, identified}
use crates.V6.Gc.{
  GcCandidate, ArtifactKind, StaleArtifact, drop_generation, drop_artifact, drop_kind,
  remove_candidates, remove_artifacts,
}
use crates.Prelude.Unique.{IsUnique, IsUnique-retain}

-- No candidate of the list takes generation `n` of segment `id`.
abbrev pub Spared : List GcCandidate → ℕ → ℕ → Type 0
Spared cs id n = (c : GcCandidate) → In c cs → c.segment_id ≡ id → c.generation ≢ n

-- `t` is what the candidates leave of `s`.
pub record Remains (cs : List GcCandidate) (s t : SegmentDescriptorV2) : Type 0 where
  pub same_id : t.segment_id ≡ s.segment_id
  pub same_active : t.active_generation ≡ s.active_generation
  pub same_root : t.logical_root ≡ s.logical_root
  pub same_retention : t.retention ≡ s.retention
  pub same_lsn :
      (t.first_lsn ≡ s.first_lsn) × (t.last_lsn ≡ s.last_lsn) × (t.record_count ≡ s.record_count)
  pub same_hlc : (t.min_hlc ≡ s.min_hlc) × (t.max_hlc ≡ s.max_hlc)
  pub numbers :
      IsUnique (map (λ g. g.generation) s.generations)
      → IsUnique (map (λ g. g.generation) t.generations)
  pub only : (g : PhysicalGeneration) → In g t.generations → In g s.generations
  pub kept :
      (g : PhysicalGeneration)
      → In g s.generations
      → Spared cs s.segment_id g.generation
      → In g t.generations
  pub found : (n : ℕ) → Spared cs s.segment_id n → generation t n ≡ generation s n

Remains-refl : (cs : List GcCandidate) (s : SegmentDescriptorV2) → Remains cs s s
Remains-refl cs s = record {
  same_id = refl;
  same_active = refl;
  same_root = refl;
  same_retention = refl;
  same_lsn = (refl, refl, refl);
  same_hlc = (refl, refl);
  numbers = λ u. u;
  only = λ g i. i;
  kept = λ g i _. i;
  found = λ n _. refl;
}

pub Remains-trans :
    (cs ds es : List GcCandidate) (x y z : SegmentDescriptorV2)
    → ((c : GcCandidate) → In c cs → In c es)
    → ((c : GcCandidate) → In c ds → In c es)
    → Remains cs x y
    → Remains ds y z
    → Remains es x z
Remains-trans cs ds es x y z f g r q = record {
  same_id = q.same_id ∙ r.same_id;
  same_active = q.same_active ∙ r.same_active;
  same_root = q.same_root ∙ r.same_root;
  same_retention = q.same_retention ∙ r.same_retention;
  same_lsn =
      (q.same_lsn.0 ∙ r.same_lsn.0, q.same_lsn.1 ∙ r.same_lsn.1, q.same_lsn.2 ∙ r.same_lsn.2);
  same_hlc = (q.same_hlc.0 ∙ r.same_hlc.0, q.same_hlc.1 ∙ r.same_hlc.1);
  numbers = λ u. q.numbers (r.numbers u);
  only = λ h i. r.only h (q.only h i);
  kept =
      λ h i sp. q.kept h (r.kept h i (λ c j. sp c (f c j))) (λ c j e. sp c (g c j) (e ∙ r.same_id));
  found =
      λ n sp. q.found n (λ c j e. sp c (g c j) (e ∙ r.same_id)) ∙ r.found n (λ c j. sp c (f c j));
}

differs : (n k : ℕ) → k ≢ n → not (n == k) ≡ true
differs n k h = ground arith

Remains-drop_generation :
    (c : GcCandidate) (s : SegmentDescriptorV2)
    → identified c.segment_id s ≡ true
    → Remains (c ∷ []) s (drop_generation c s)
unfolding drop_generation generation
Remains-drop_generation c s h = record {
  same_id = refl;
  same_active = refl;
  same_root = refl;
  same_retention = refl;
  same_lsn = (refl, refl, refl);
  same_hlc = (refl, refl);
  numbers =
      IsUnique-retain (λ g. g.generation) (λ g. not (g.generation == c.generation)) s.generations;
  only = λ g i. (retain-In (λ g. not (g.generation == c.generation)) s.generations g i).0;
  kept = λ g i sp.
      In-retain (λ g. not (g.generation == c.generation)) s.generations g i
        (differs g.generation c.generation
          (sp c (inl refl) (sym ((==_iff s.segment_id c.segment_id).0 h))));
  found = λ n sp.
      find-retain (numbered n) (λ g. not (g.generation == c.generation)) s.generations
        (λ x e. rw ((==_iff x.generation n).0 e) (
          differs n c.generation (sp c (inl refl) (sym ((==_iff s.segment_id c.segment_id).0 h)))));
}

Remains-drop_kind : (k : ArtifactKind) (s : SegmentDescriptorV2) → Remains [] s (drop_kind k s)
unfolding drop_kind generation
Remains-drop_kind ArtifactKind.hrki s = record {
  same_id = refl;
  same_active = refl;
  same_root = refl;
  same_retention = refl;
  same_lsn = (refl, refl, refl);
  same_hlc = (refl, refl);
  numbers = λ u. u;
  only = λ g i. i;
  kept = λ g i _. i;
  found = λ n _. refl;
}
Remains-drop_kind ArtifactKind.parquet s = record {
  same_id = refl;
  same_active = refl;
  same_root = refl;
  same_retention = refl;
  same_lsn = (refl, refl, refl);
  same_hlc = (refl, refl);
  numbers = λ u. u;
  only = λ g i. i;
  kept = λ g i _. i;
  found = λ n _. refl;
}

In-first :
    (c : GcCandidate) (cs : List GcCandidate) (d : GcCandidate) → In d (c ∷ []) → In d (c ∷ cs)
In-first c cs d (inl e) = inl e
In-first c cs d (inr m) = absurd m

pub remove_candidates-Remains :
    (cs : List GcCandidate) (ss : List SegmentDescriptorV2)
    → Pointwise (Remains cs) ss (remove_candidates cs ss)
unfolding remove_candidates
remove_candidates-Remains [] ss = Pointwise-refl (Remains []) ss (Remains-refl [])
remove_candidates-Remains (c ∷ cs) ss =
    Pointwise-trans (Remains (c ∷ [])) (Remains cs) (Remains (c ∷ cs)) ss _ _
      (λ x y z. Remains-trans (c ∷ []) cs (c ∷ cs) x y z (In-first c cs) (λ d i. inr i))
      (Pointwise-modify_first (Remains (c ∷ [])) (identified c.segment_id) (drop_generation c) ss
        (Remains-refl (c ∷ [])) (Remains-drop_generation c))
      (remove_candidates-Remains cs _)

pub remove_artifacts-Remains :
    (as' : List StaleArtifact) (ss : List SegmentDescriptorV2)
    → Pointwise (Remains []) ss (remove_artifacts as' ss)
unfolding remove_artifacts drop_artifact
remove_artifacts-Remains [] ss = Pointwise-refl (Remains []) ss (Remains-refl [])
remove_artifacts-Remains (a ∷ as') ss =
    Pointwise-trans (Remains []) (Remains []) (Remains []) ss _ _
      (λ x y z. Remains-trans [] [] [] x y z (λ d i. i) (λ d i. i))
      (Pointwise-modify_first (Remains []) (identified a.segment_id) (drop_artifact a) ss
        (Remains-refl []) (λ x _. Remains-drop_kind a.kind x))
      (remove_artifacts-Remains as' _)
