-- ===== src/V6/Manifest/Writes.antt =====
-- The other operations on the catalogue: sealing, derived artefacts, retention and copies.
use crates.Prelude.{
  ℕ, String, ◌≡◌, inl, inr, refl, ◌∙◌, sym, ap, Bool, true, false, ◌==◌, if◌then◌else◌,
}
use crates.Prelude.{List, Option, some, Option-cases, Bool-cases}
use crates.Prelude.Search.{find, modify_first, modify_first-In}
use crates.Prelude.Bytes.{bytes_eq}
use crates.Core.Runtime.{
  RetentionPolicy, DerivedArtifactRef, PhysicalGeneration, SegmentDescriptorV2, DatabaseManifest,
  generation, segment, has_authority, active_of, numbered,
}
use crates.V6.Error.{V6Result-cases}
use crates.V6.Manifest.{
  sealed_descriptor, admit_sealed, register_sealed_raw, update_segment, attach_sidecar,
  attach_parquet, set_legal_hold, set_verified_copies,
}
use crates.V6.Receipts.{FooterV6}
use crates.V6.SegmentCheck.{check_segment_coherence}
use crates.V6.SegmentCheck.Coherence.{check_segment_coherence-IsCoherent}
use crates.V6.Manifest.Catalogue.{
  IsServed, IsHealthy, IsCatalogue, IsCatalogue-update_segment, IsCatalogue-upsert_segment,
}
use crates.V6.Manifest.Quarantine.{find-numbered, IsCoherent-modify_first}

sealed-IsServed :
    (id : ℕ) (footer : FooterV6) (codec : ℕ) (location : String) (size : ℕ) (digest : List ℕ)
    (now_hlc : ℕ)
    → IsServed (sealed_descriptor id footer codec location size digest now_hlc)
unfolding active_of find
sealed-IsServed id footer codec location size digest now_hlc g i auth = (_, refl, refl)

admit_sealed-IsCatalogue :
    (m : DatabaseManifest) (d : SegmentDescriptorV2) (max_lsn : ℕ)
    → IsCatalogue m
    → IsServed d
    → IsCatalogue (admit_sealed m d max_lsn).0
unfolding admit_sealed
admit_sealed-IsCatalogue m d max_lsn w served = elim (V6Result-cases (check_segment_coherence d)) [
  | inl (e, bad) ↦ rw (admit_sealed, bad) w
  | inr (u, good) ↦
      rw (admit_sealed, good)
        (let c =
            IsCatalogue-upsert_segment m d w
              ((check_segment_coherence-IsCoherent d).0 good, served) in
          record { unique = c.unique; healthy = c.healthy })
]

pub register_sealed_raw-IsCatalogue :
    (m : DatabaseManifest) (id : ℕ) (footer : FooterV6) (codec : ℕ) (location : String) (size : ℕ)
    (digest : List ℕ) (now_hlc : ℕ)
    → IsCatalogue m
    → IsCatalogue (register_sealed_raw m id footer codec location size digest now_hlc).0
unfolding register_sealed_raw
register_sealed_raw-IsCatalogue m id footer codec location size digest now_hlc w =
    let admitted =
      admit_sealed-IsCatalogue m (sealed_descriptor id footer codec location size digest now_hlc)
        footer.max_lsn w (sealed-IsServed id footer codec location size digest now_hlc) in
    elim (Option-cases (segment m id)) [
      | inl e ↦ rw (register_sealed_raw, e) admitted
      | inr (d, e) ↦ elim (Bool-cases (bytes_eq d.logical_root footer.logical_root)) [
        | inl t ↦ rw (register_sealed_raw, e, t) admitted
        | inr f ↦ rw (register_sealed_raw, e, f) w
      ]
    ]

-- The fields that the invariant reads are the same.
annotated-IsCatalogue :
    (m : DatabaseManifest) (id : ℕ) (f : SegmentDescriptorV2 → SegmentDescriptorV2)
    → IsCatalogue m
    → ((s : SegmentDescriptorV2) → (f s).segment_id ≡ s.segment_id)
    → ((s : SegmentDescriptorV2) → IsHealthy s → IsHealthy (f s))
    → IsCatalogue (update_segment m id f)
annotated-IsCatalogue m id f w same h =
    IsCatalogue-update_segment m id f w (λ s e. same s ∙ e) (λ s i _. h s (w.healthy s i))

-- No write to these three fields is seen by the invariant.
annotated-IsHealthy :
    (s : SegmentDescriptorV2) (h p : Option DerivedArtifactRef) (r : RetentionPolicy)
    → IsHealthy s
    → IsHealthy (record s { hrki = h; parquet = p; retention = r })
unfolding active_of
annotated-IsHealthy s h p r (c, served) = (
  record { lsn = c.lsn; hlc = c.hlc; fits = c.fits; unique = c.unique; active = c.active },
  served,
)

pub attach_sidecar-IsCatalogue :
    (m : DatabaseManifest) (id : ℕ) (a : DerivedArtifactRef)
    → IsCatalogue m
    → IsCatalogue (attach_sidecar m id a).0
unfolding attach_sidecar
attach_sidecar-IsCatalogue m id a w = elim (Option-cases (segment m id)) [
  | inl e ↦ rw (attach_sidecar, e) w
  | inr (d, e) ↦ elim (Bool-cases (bytes_eq a.logical_root d.logical_root)) [
    | inl t ↦
        rw (attach_sidecar, e, t)
          (annotated-IsCatalogue m id _ w (λ _. refl)
            (λ s h. annotated-IsHealthy s (some a) s.parquet s.retention h))
    | inr f ↦ rw (attach_sidecar, e, f) w
  ]
]

pub attach_parquet-IsCatalogue :
    (m : DatabaseManifest) (id : ℕ) (a : DerivedArtifactRef)
    → IsCatalogue m
    → IsCatalogue (attach_parquet m id a).0
unfolding attach_parquet
attach_parquet-IsCatalogue m id a w = elim (Option-cases (segment m id)) [
  | inl e ↦ rw (attach_parquet, e) w
  | inr (d, e) ↦ elim (Bool-cases (bytes_eq a.logical_root d.logical_root)) [
    | inl t ↦
        rw (attach_parquet, e, t)
          (let c =
              annotated-IsCatalogue m id (λ s. record s { parquet = some a }) w (λ _. refl)
                (λ s h. annotated-IsHealthy s s.hrki (some a) s.retention h) in
            record { unique = c.unique; healthy = c.healthy })
    | inr f ↦ rw (attach_parquet, e, f) w
  ]
]

pub set_legal_hold-IsCatalogue :
    (m : DatabaseManifest) (id : ℕ) (hold : Bool)
    → IsCatalogue m
    → IsCatalogue (set_legal_hold m id hold).0
unfolding set_legal_hold
set_legal_hold-IsCatalogue m id hold w = elim (Option-cases (segment m id)) [
  | inl e ↦ rw (set_legal_hold, e) w
  | inr (d, e) ↦
      rw (set_legal_hold, e)
        (annotated-IsCatalogue m id _ w (λ _. refl)
          (λ s h.
            let r = s.retention in
            annotated-IsHealthy s s.hrki s.parquet (record r { legal_hold = hold }) h))
]

-- A count of copies says nothing of the authority.
copied-IsHealthy :
    (s : SegmentDescriptorV2) (n copies : ℕ)
    → IsHealthy s
    → IsHealthy (record s {
      generations =
          modify_first (numbered n) (λ g. record g { verified_copies = copies }) s.generations;
    })
unfolding active_of
copied-IsHealthy s n copies (c, served) = (
  IsCoherent-modify_first s n (λ g. record g { verified_copies = copies }) (λ _. refl) c,
  served',
)
  where
    set : PhysicalGeneration → PhysicalGeneration
    set g = record g { verified_copies = copies }

    same :
        (b : Bool) (a : PhysicalGeneration)
        → has_authority a ≡ true
        → has_authority (if b then set a else a) ≡ true
    same true a h = h
    same false a h = h

    find_one :
        (a : PhysicalGeneration) × (active_of s ≡ some a) × (has_authority a ≡ true)
        → (a : PhysicalGeneration) × (active_of
              (record s { generations = modify_first (numbered n) set s.generations })
            ≡ some a)
          × (has_authority a ≡ true)
    find_one (a, e, h) = (
      _,
      find-numbered n s.active_generation set s.generations a (λ _. refl) e,
      same (s.active_generation == n) a h,
    )

    served' : IsServed (record s { generations = modify_first (numbered n) set s.generations })
    served' g i auth = elim (modify_first-In (numbered n) set s.generations g i) [
      | inl j ↦ find_one (served g j auth)
      | inr (x, j, _, e) ↦ find_one (served x j (sym (ap has_authority e) ∙ auth))
    ]

pub set_verified_copies-IsCatalogue :
    (m : DatabaseManifest) (id n copies : ℕ)
    → IsCatalogue m
    → IsCatalogue (set_verified_copies m id n copies).0
unfolding set_verified_copies
set_verified_copies-IsCatalogue m id n copies w = elim (Option-cases (segment m id)) [
  | inl e ↦ rw (set_verified_copies, e) w
  | inr (d, e) ↦ elim (Option-cases (generation d n)) [
    | inl u ↦ rw (set_verified_copies, e, u) w
    | inr (g, u) ↦
        rw (set_verified_copies, e, u)
          (annotated-IsCatalogue m id _ w (λ _. refl) (λ s h. copied-IsHealthy s n copies h))
  ]
]
