-- ===== src/V6/Gc/Apply.antt =====
-- `apply_gc`: what is left of each segment.
use crates.Prelude.{ℕ, ◌≡◌, inl, inr, refl, arith, ◌∙◌, sym, Bool, true, false, not, ◌==◌, ==_iff}
use crates.Prelude.{List, [], ◌∷◌, map, length}
use crates.Prelude.Search.{In, In-map_image, In-any, any, retain, retain-In, In-retain, any-In}
use crates.Prelude.Pointwise.{Pointwise, Pointwise-trans}
use crates.Core.Runtime.{
  PhysicalGeneration, SegmentDescriptorV2, DatabaseManifest, has_authority, active_of, generation,
  canonical_authorities,
}
use crates.V6.Error.{V6Result-cases, ok}
use crates.V6.Gc.{
  GcCandidate, GcPlan, a_remover, contains, check_segments, assert_gc_invariant, apply_gc,
}
use mathlib.Core.Path.{subst}
use crates.V6.Manifest.Catalogue.{IsHealthy, IsCatalogue}
use crates.V6.SegmentCheck.Coherence.{IsCoherent}
use crates.V6.Gc.Removal.{
  Spared, Remains, Remains-trans, remove_candidates-Remains, remove_artifacts-Remains,
}
use crates.V6.Gc.Check.{Spares, In-length, IsEmpty-or-In}

-- `t` is `s` without generations that the segment can do without.
pub record IsTrimmed (s t : SegmentDescriptorV2) : Type 0 where
  pub same_id : t.segment_id ≡ s.segment_id
  pub same_root : t.logical_root ≡ s.logical_root
  pub same_retention : t.retention ≡ s.retention
  pub same_active : active_of t ≡ active_of s
  pub coherent : IsCoherent s → IsCoherent t
  pub only : (g : PhysicalGeneration) → In g t.generations → In g s.generations
  pub authority : any has_authority s.generations ≡ true → any has_authority t.generations ≡ true

clash : {b : Bool} → b ≡ false → b ≡ true → ⊥
clash h k = cc

not-true : (b : Bool) → not b ≡ true → b ≡ false
not-true b h = ground arith

Spared-contains :
    (plan : GcPlan) (s : SegmentDescriptorV2) (n : ℕ)
    → contains (a_remover plan s) n ≡ false
    → Spared plan.generations s.segment_id n
unfolding a_remover contains
Spared-contains plan s n h c i e = λ same. clash h (
    In-any (λ k. k == n) _ c.generation
      (In-map_image (λ d. d.generation) _ c
        (In-retain (λ d. d.segment_id == s.segment_id) _ c i ((==_iff _ _).1 e)))
      ((==_iff _ _).1 same))

check_segments-Spares :
    (plan : GcPlan) (s : SegmentDescriptorV2) (ss : List SegmentDescriptorV2)
    → check_segments plan (s ∷ ss) ≡ ok tt
    → Spares plan s × (check_segments plan ss ≡ ok tt)
unfolding check_segments
check_segments-Spares plan s ss h = ground arith

-- What the check counts is still there.
Remains-authority :
    (plan : GcPlan) (s t : SegmentDescriptorV2)
    → Spares plan s
    → Remains plan.generations s t
    → any has_authority s.generations ≡ true
    → any has_authority t.generations ≡ true
unfolding canonical_authorities
Remains-authority plan s t (_, inl z) r h =
    let (g, i, e) = any-In has_authority s.generations h in
    absurd (ground (arith, In-length _ g (In-retain has_authority s.generations g i e)))
Remains-authority plan s t (_, inr pos) r h =
    elim (IsEmpty-or-In
      (retain (λ g. not (contains (a_remover plan s) g.generation)) (canonical_authorities s))) [
        | inl z ↦ absurd (omega arith)
        | inr (g, i) ↦
            let (j, keep) =
              retain-In (λ g. not (contains (a_remover plan s) g.generation))
                (canonical_authorities s) g i in
            let (k, e) = retain-In has_authority s.generations g j in
            In-any has_authority t.generations g
              (r.kept g k (Spared-contains plan s g.generation (not-true _ keep))) e
      ]

IsEmpty-only :
    {A : Type 0} → (xs ys : List A) → ((a : A) → In a ys → In a xs) → length xs ≡ 0 → length ys ≡ 0
IsEmpty-only xs ys h z = elim (IsEmpty-or-In ys) [
  | inl e ↦ e
  | inr (a, i) ↦ absurd (ground (arith, z, In-length xs a (h a i)))
]

Remains-IsCoherent :
    (cs : List GcCandidate) (s t : SegmentDescriptorV2)
    → Remains cs s t
    → active_of t ≡ active_of s
    → IsCoherent s
    → IsCoherent t
Remains-IsCoherent cs s t r same c = record {
  lsn = rw (r.same_lsn.0, r.same_lsn.1, r.same_lsn.2) c.lsn;
  hlc = rw (r.same_hlc.0, r.same_hlc.1, r.same_lsn.2) c.hlc;
  fits = rw (r.same_lsn.0, r.same_lsn.1, r.same_lsn.2) c.fits;
  unique = r.numbers c.unique;
  active = elim c.active [
    | inl z ↦ inl (IsEmpty-only s.generations t.generations r.only z)
    | inr (g, e) ↦ inr (g, same ∙ e)
  ];
}

Remains-IsTrimmed :
    (plan : GcPlan) (s t : SegmentDescriptorV2)
    → Spares plan s
    → Remains plan.generations s t
    → IsTrimmed s t
unfolding active_of generation
Remains-IsTrimmed plan s t (act, auth) r = record {
  same_id = r.same_id;
  same_root = r.same_root;
  same_retention = r.same_retention;
  same_active =
      rw r.same_active
        (r.found s.active_generation (Spared-contains plan s s.active_generation act));
  only = r.only;
  authority = Remains-authority plan s t (act, auth) r;
  coherent = Remains-IsCoherent plan.generations s t r (
      rw r.same_active
        (r.found s.active_generation (Spared-contains plan s s.active_generation act)));
}

check_segments-IsTrimmed :
    (plan : GcPlan) (ss ts : List SegmentDescriptorV2)
    → check_segments plan ss ≡ ok tt
    → Pointwise (Remains plan.generations) ss ts
    → Pointwise IsTrimmed ss ts
check_segments-IsTrimmed plan [] [] h p = tt
check_segments-IsTrimmed plan [] (t ∷ ts) h p = absurd p
check_segments-IsTrimmed plan (s ∷ ss) [] h p = absurd p
check_segments-IsTrimmed plan (s ∷ ss) (t ∷ ts) h (r, p) =
    let (sp, rest) = check_segments-Spares plan s ss h in
    (Remains-IsTrimmed plan s t sp r, check_segments-IsTrimmed plan ss ts rest p)

-- An application of any plan that returns `Ok` goes through the catalogue segment by segment: each
-- keeps its identity, its logical root, its retention and its active generation, gains no
-- generation, and still has a canonical authority if it had one.
pub apply_gc-IsTrimmed :
    (m : DatabaseManifest) (plan : GcPlan)
    → (apply_gc m plan).1 ≡ ok tt
    → Pointwise IsTrimmed m.segments_v2 (apply_gc m plan).0.segments_v2
unfolding apply_gc assert_gc_invariant
apply_gc-IsTrimmed m plan h = elim (V6Result-cases (assert_gc_invariant m plan)) [
  | inl (e, bad) ↦ absurd (ground (arith, bad, h))
  | inr (u, good) ↦
      rw (good, apply_gc)
        (check_segments-IsTrimmed plan m.segments_v2 _ good (
          Pointwise-trans (Remains plan.generations) (Remains []) (Remains plan.generations)
            m.segments_v2 _ _
            (λ x y z.
              Remains-trans plan.generations [] plan.generations x y z (λ c i. i) (λ c i. absurd i))
            (remove_candidates-Remains plan.generations m.segments_v2)
            (remove_artifacts-Remains plan.stale_artifacts _)))
]

-- What a trimming preserves of the invariant of the catalogue.
IsTrimmed-IsHealthy : (s t : SegmentDescriptorV2) → IsTrimmed s t → IsHealthy s → IsHealthy t
IsTrimmed-IsHealthy s t r (c, served) = (
  r.coherent c,
  λ g i auth. let (a, e, h) = served g (r.only g i) auth in (a, r.same_active ∙ e, h),
)

trimmed-ids :
    (ss ts : List SegmentDescriptorV2)
    → Pointwise IsTrimmed ss ts
    → map (λ s. s.segment_id) ts ≡ map (λ s. s.segment_id) ss
trimmed-ids [] [] p = refl
trimmed-ids [] (t ∷ ts) p = absurd p
trimmed-ids (s ∷ ss) [] p = absurd p
trimmed-ids (s ∷ ss) (t ∷ ts) (r, p) = ground (arith, r.same_id, trimmed-ids ss ts p)

IsTrimmed-In :
    (ss ts : List SegmentDescriptorV2) (t : SegmentDescriptorV2)
    → Pointwise IsTrimmed ss ts
    → In t ts
    → (s : SegmentDescriptorV2) × In s ss × IsTrimmed s t
IsTrimmed-In [] [] t p i = absurd i
IsTrimmed-In [] (y ∷ ts) t p i = absurd p
IsTrimmed-In (s ∷ ss) [] t p i = absurd p
IsTrimmed-In (s ∷ ss) (y ∷ ts) t (r, p) (inl e) = (s, inl refl, subst (IsTrimmed s) (sym e) r)
IsTrimmed-In (s ∷ ss) (y ∷ ts) t (r, p) (inr i) =
    let (x, j, q) = IsTrimmed-In ss ts t p i in (x, inr j, q)

pub apply_gc-IsCatalogue :
    (m : DatabaseManifest) (plan : GcPlan) → IsCatalogue m → IsCatalogue (apply_gc m plan).0
unfolding apply_gc
apply_gc-IsCatalogue m plan w = elim (V6Result-cases (assert_gc_invariant m plan)) [
  | inl (e, bad) ↦ rw (apply_gc, bad) w
  | inr (u, good) ↦ trimmed (apply_gc-IsTrimmed m plan (rw (apply_gc, good) refl))
]
  where
    trimmed :
        Pointwise IsTrimmed m.segments_v2 (apply_gc m plan).0.segments_v2
        → IsCatalogue (apply_gc m plan).0
    trimmed p = record {
      unique = rw (trimmed-ids _ _ p) w.unique;
      healthy = λ t i.
          let (s, j, r) = IsTrimmed-In _ _ t p i in IsTrimmed-IsHealthy s t r (w.healthy s j);
    }
