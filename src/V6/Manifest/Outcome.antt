-- ===== src/V6/Manifest/Outcome.antt =====
-- `quarantine_generation` on the whole catalogue: each of its four outcomes.
use crates.Prelude.{ℕ, ◌≡◌, ◌≢◌, inl, inr, refl, arith, ◌∙◌, sym, ap, ==_iff}
use crates.Prelude.{none, some, Option-cases}
use mathlib.Core.Path.{subst}
use crates.Prelude.Search.{In, find-In}
use crates.Prelude.Update.{find-modify_first, find-modify_first_other}
use crates.Core.Runtime.{
  PhysicalGeneration, SegmentDescriptorV2, DatabaseManifest, generation, segment, identified,
  canonical_authorities,
}
use crates.V6.Error.{V6Error, V6Result, ok, err}
use crates.V6.Manifest.{best, with_quarantined, with_active, update_segment, quarantine_generation}
use crates.V6.SegmentCheck.Coherence.{IsCoherent}
use crates.V6.Manifest.Catalogue.{IsHealthy, IsCatalogue, IsCatalogue-update_segment}
use crates.V6.Manifest.Quarantine.{IsFallback, best-IsFallback, fallback-IsHealthy, held-IsHealthy}

pub segment-In :
    (m : DatabaseManifest) (id : ℕ) (d : SegmentDescriptorV2)
    → segment m id ≡ some d
    → In d m.segments_v2 × (d.segment_id ≡ id)
unfolding segment
segment-In m id d h =
    let (i, t) = find-In (identified id) m.segments_v2 d h in (i, (==_iff d.segment_id id).0 t)

-- A segment that is written back is read back.
pub segment-update_segment :
    (m : DatabaseManifest) (id : ℕ) (d s : SegmentDescriptorV2)
    → segment m id ≡ some d
    → s.segment_id ≡ id
    → segment (update_segment m id (λ _. s)) id ≡ some s
unfolding segment
segment-update_segment m id d s h same =
    find-modify_first (identified id) (λ _. s) m.segments_v2 d h ((==_iff s.segment_id id).1 same)

-- The writes to one segment are not seen in another.
pub segment-update_segment_other :
    (m : DatabaseManifest) (id other : ℕ) (s : SegmentDescriptorV2)
    → s.segment_id ≡ id
    → other ≢ id
    → segment (update_segment m id (λ _. s)) other ≡ segment m other
unfolding segment
segment-update_segment_other m id other s same apart =
    find-modify_first_other (identified id) (identified other) (λ _. s) m.segments_v2
      (λ x t. ground (arith, t, same, apart))

-- The ways in which `quarantine_generation` ends on a segment that is catalogued.
module _ (m : DatabaseManifest) (id n now_hlc : ℕ) (d : SegmentDescriptorV2)
    (found : segment m id ≡ some d) where
  quarantine_generation_unknown :
      generation d n ≡ none → (e : V6Error) × (quarantine_generation m id n now_hlc ≡ (m, err e))
  unfolding quarantine_generation
  quarantine_generation_unknown k = rw (quarantine_generation, found, k) (_, refl)

  quarantine_generation_ok :
      (q g : PhysicalGeneration)
      → generation d n ≡ some q
      → best (canonical_authorities (with_quarantined n now_hlc d)) ≡ some g
      → quarantine_generation m id n now_hlc ≡ (
        update_segment m id (λ _. with_active g.generation (with_quarantined n now_hlc d)),
        ok g.generation,
      )
  unfolding quarantine_generation
  quarantine_generation_ok q g k b = rw (quarantine_generation, found, k, b) refl

  quarantine_generation_last :
      (q : PhysicalGeneration)
      → generation d n ≡ some q
      → best (canonical_authorities (with_quarantined n now_hlc d)) ≡ none
      → (e : V6Error) × (quarantine_generation m id n now_hlc
          ≡ (update_segment m id (λ _. with_quarantined n now_hlc d), err e))
  unfolding quarantine_generation
  quarantine_generation_last q k b = rw (quarantine_generation, found, k, b) (_, refl)

pub err-not-ok : {A : Type 0} {x : V6Result A} {e : V6Error} {a : A} → x ≡ err e → x ≡ ok a → ⊥
err-not-ok h k = cc

ok_inj : {A : Type 0} {a b : A} → ok a ≡ ok b → a ≡ b
ok_inj h = cc

fallback :
    (m : DatabaseManifest) (id n now_hlc k : ℕ) (d : SegmentDescriptorV2) (q g : PhysicalGeneration)
    → IsCoherent d
    → segment m id ≡ some d
    → generation d n ≡ some q
    → best (canonical_authorities (with_quarantined n now_hlc d)) ≡ some g
    → (quarantine_generation m id n now_hlc).1 ≡ ok k
    → (s : SegmentDescriptorV2) × (segment (quarantine_generation m id n now_hlc).0 id ≡ some s)
      × IsFallback n k d s
unfolding with_active with_quarantined
fallback m id n now_hlc k d q g w found known b h =
    let run = quarantine_generation_ok m id n now_hlc d found q g known b in
    (
      with_active g.generation (with_quarantined n now_hlc d),
      ap (λ r. segment r.0 id) run
          ∙ segment-update_segment m id d _ found (segment-In m id d found).1,
      subst (λ j. IsFallback n j d (with_active g.generation (with_quarantined n now_hlc d)))
          (ok_inj (sym (ap (λ r. r.1) run) ∙ h)) (best-IsFallback d n now_hlc w q known g b),
    )

-- A successful call takes the generation out of service and serves the segment from another
-- generation, an authority: the packed layout before the raw one, and then the highest number.
pub quarantine_generation-IsFallback :
    (m : DatabaseManifest) (id n now_hlc k : ℕ) (d : SegmentDescriptorV2)
    → IsCatalogue m
    → segment m id ≡ some d
    → (quarantine_generation m id n now_hlc).1 ≡ ok k
    → (s : SegmentDescriptorV2) × (segment (quarantine_generation m id n now_hlc).0 id ≡ some s)
      × IsFallback n k d s
quarantine_generation-IsFallback m id n now_hlc k d w found h =
    elim (Option-cases (generation d n)) [
      | inl u ↦
          let (e, run) = quarantine_generation_unknown m id n now_hlc d found u in
          absurd (err-not-ok (ap (λ r. r.1) run) h)
      | inr (q, known) ↦
          elim (Option-cases (best (canonical_authorities (with_quarantined n now_hlc d)))) [
            | inl b ↦
                let (e, run) = quarantine_generation_last m id n now_hlc d found q known b in
                absurd (err-not-ok (ap (λ r. r.1) run) h)
            | inr (g, b) ↦
                fallback m id n now_hlc k d q g (w.healthy d (segment-In m id d found).0).0 found
                  known b h
          ]
    ]

pub rewritten-IsCatalogue :
    (m : DatabaseManifest) (id : ℕ) (s : SegmentDescriptorV2)
    → IsCatalogue m
    → s.segment_id ≡ id
    → IsHealthy s
    → IsCatalogue (update_segment m id (λ _. s))
rewritten-IsCatalogue m id s w same h =
    IsCatalogue-update_segment m id (λ _. s) w (λ _ _. same) (λ _ _ _. h)

-- Whatever it returns, the catalogue that it leaves is sound.
pub quarantine_generation-IsCatalogue :
    (m : DatabaseManifest) (id n now_hlc : ℕ)
    → IsCatalogue m
    → IsCatalogue (quarantine_generation m id n now_hlc).0
unfolding quarantine_generation with_active with_quarantined
quarantine_generation-IsCatalogue m id n now_hlc w = elim (Option-cases (segment m id)) [
  | inl u ↦ rw (quarantine_generation, u) w
  | inr (d, found) ↦ elim (Option-cases (generation d n)) [
    | inl u ↦ rw (quarantine_generation, found, u) w
    | inr (q, known) ↦
        let (i, same) = segment-In m id d found in
        let c = (w.healthy d i).0 in
        elim (Option-cases (best (canonical_authorities (with_quarantined n now_hlc d)))) [
          | inl b ↦
              rw (quarantine_generation, found, known, b)
                (rewritten-IsCatalogue m id _ w same (held-IsHealthy d n now_hlc c q known b))
          | inr (g, b) ↦
              rw (quarantine_generation, found, known, b)
                (rewritten-IsCatalogue m id _ w same (fallback-IsHealthy d n now_hlc c q known g b))
        ]
  ]
]
