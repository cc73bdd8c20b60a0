-- ===== src/V6/Manifest/Pack.antt =====
-- `record_pack`: the segment after a verified packing.
use crates.Prelude.{
  ℕ, String, ◌≡◌, inl, inr, refl, arith, ◌∙◌, sym, ap, Bool, true, false, ◌==◌, if◌then◌else◌,
}
use crates.Prelude.{[], ◌∷◌, none, some, Option-cases, Bool-cases}
use crates.Prelude.Search.{In, In-left, find, find-append_none}
use crates.Prelude.Bytes.{bytes_eq, bytes_eq_sound}
use crates.Prelude.Update.{In-modify_first}
use crates.Core.Runtime.{
  PhysicalGeneration, SegmentDescriptorV2, DatabaseManifest, generation, segment, has_authority,
  is_packed, active_of, numbered,
}
use crates.V6.Error.{ok}
use crates.V6.Manifest.{
  packed_generation, packed_descriptor, supersede, update_segment, record_pack,
}
use crates.V6.Receipts.{PackReceipt}
use crates.V6.SegmentCheck.{check_segment_coherence}
use crates.V6.SegmentCheck.Coherence.{IsCoherent, check_segment_coherence-IsCoherent}
use crates.V6.Manifest.Catalogue.{IsCatalogue}
use crates.V6.Manifest.Quarantine.{find-numbered}
use crates.V6.Manifest.Outcome.{segment-In, segment-update_segment, rewritten-IsCatalogue}

supersede-generation :
    (now_hlc : ℕ) (g : PhysicalGeneration) → (supersede now_hlc g).generation ≡ g.generation
unfolding supersede
supersede-generation now_hlc g = ground arith

supersede-has_authority :
    (now_hlc : ℕ) (g : PhysicalGeneration)
    → has_authority g ≡ true
    → has_authority (supersede now_hlc g) ≡ true
unfolding supersede
supersede-has_authority now_hlc g h = ground arith

-- A generation that is superseded keeps its bytes.
supersede-digest :
    (now_hlc : ℕ) (g : PhysicalGeneration)
    → ((supersede now_hlc g).physical_digest ≡ g.physical_digest)
      × ((supersede now_hlc g).layout ≡ g.layout)
unfolding supersede
supersede-digest now_hlc g = ground arith

-- `s` is `d` served from the packed generation of the receipt. All that could rebuild the records
-- before still can.
pub record IsPacked (r : PackReceipt) (d s : SegmentDescriptorV2) : Type 0 where
  pub certified : d.logical_root ≡ r.logical_root
  pub same_root : s.logical_root ≡ d.logical_root
  pub serving : s.active_generation ≡ r.target_generation
  pub active :
      (a : PhysicalGeneration) × (active_of s ≡ some a)
      × (has_authority a ≡ true)
      × (is_packed a.layout ≡ true)
      × (a.physical_digest ≡ r.target_physical_digest)
  pub kept :
      (g : PhysicalGeneration)
      → In g d.generations
      → (h : PhysicalGeneration) × In h s.generations
        × (h.generation ≡ g.generation)
        × (h.physical_digest ≡ g.physical_digest)
        × (has_authority g ≡ true → has_authority h ≡ true)

module _ (r : PackReceipt) (location : String) (now_hlc : ℕ) (d : SegmentDescriptorV2)
    (fresh : generation d r.target_generation ≡ none) where
  packed_fields :
      (b : Bool)
      → (has_authority (
            if b
            then supersede now_hlc (packed_generation r location now_hlc)
            else packed_generation r location now_hlc)
          ≡ true)
        × (is_packed
              (if b
                then supersede now_hlc (packed_generation r location now_hlc)
                else packed_generation r location now_hlc).layout
            ≡ true)
        × ((if b
              then supersede now_hlc (packed_generation r location now_hlc)
              else packed_generation r location now_hlc).physical_digest
            ≡ r.target_physical_digest)
  unfolding packed_generation supersede
  packed_fields true = (refl, refl, refl)
  packed_fields false = (refl, refl, refl)

  last_found :
      find (numbered r.target_generation) (packed_generation r location now_hlc ∷ [])
      ≡ some (packed_generation r location now_hlc)
  unfolding packed_generation find
  last_found = ground arith

  packed-active :
      (a : PhysicalGeneration) × (active_of (packed_descriptor r location now_hlc d) ≡ some a)
      × (has_authority a ≡ true)
      × (is_packed a.layout ≡ true)
      × (a.physical_digest ≡ r.target_physical_digest)
  unfolding active_of packed_descriptor packed_generation generation find
  packed-active =
      let p = packed_generation r location now_hlc in
      (
        (if r.target_generation == r.source_generation then supersede now_hlc p else p),
        find-numbered r.source_generation r.target_generation (supersede now_hlc) _ p
            (supersede-generation now_hlc)
            (find-append_none (numbered r.target_generation) d.generations (p ∷ []) fresh
              ∙ last_found),
        (packed_fields (r.target_generation == r.source_generation)).0,
        (packed_fields (r.target_generation == r.source_generation)).1,
        (packed_fields (r.target_generation == r.source_generation)).2,
      )

  packed-kept :
      (g : PhysicalGeneration)
      → In g d.generations
      → (h : PhysicalGeneration) × In h (packed_descriptor r location now_hlc d).generations
        × (h.generation ≡ g.generation)
        × (h.physical_digest ≡ g.physical_digest)
        × (has_authority g ≡ true → has_authority h ≡ true)
  unfolding packed_descriptor
  packed-kept g i =
      let (b, j, c) =
        In-modify_first (numbered r.source_generation) (supersede now_hlc) _ g (In-left _ _ g i) in
      elim c [
        | inl e ↦ (
          b,
          j,
          ap (λ x. x.generation) e,
          ap (λ x. x.physical_digest) e,
          (λ k. ap has_authority e ∙ k),
        )
        | inr (_, e) ↦ (
          b,
          j,
          ap (λ x. x.generation) e ∙ supersede-generation now_hlc g,
          ap (λ x. x.physical_digest) e ∙ (supersede-digest now_hlc g).0,
          (λ k. ap has_authority e ∙ supersede-has_authority now_hlc g k),
        )
      ]

-- What a successful call met on its way.
record_pack_run :
    (m : DatabaseManifest) (r : PackReceipt) (location : String) (now_hlc : ℕ)
    → (record_pack m r location now_hlc).1 ≡ ok tt
    → (d : SegmentDescriptorV2) × (segment m r.segment_id ≡ some d)
      × (generation d r.target_generation ≡ none)
      × (d.logical_root ≡ r.logical_root)
      × (record_pack m r location now_hlc ≡ (
        update_segment m r.segment_id (λ _. packed_descriptor r location now_hlc d),
        check_segment_coherence (packed_descriptor r location now_hlc d),
      ))
unfolding record_pack
record_pack_run m r location now_hlc h = elim (Option-cases (segment m r.segment_id)) [
  | inl u ↦ absurd (ground (arith, h, u))
  | inr (d, found) ↦ elim (Bool-cases (bytes_eq d.logical_root r.logical_root)) [
    | inl t ↦ elim (Option-cases (generation d r.target_generation)) [
      | inl fresh ↦ (d, found, fresh, bytes_eq_sound _ _ t, rw (record_pack, found, t, fresh) refl)
      | inr (g, u) ↦ absurd (ground (arith, h, found, t, u))
    ]
    | inr f ↦ absurd (ground (arith, h, found, f))
  ]
]

-- A successful `record_pack` names a receipt for the segment's own logical root. It leaves the
-- segment served from the packed generation of the receipt, with its root unchanged, and each
-- earlier generation in place with its bytes and its authority.
pub record_pack-IsPacked :
    (m : DatabaseManifest) (r : PackReceipt) (location : String) (now_hlc : ℕ)
    → (record_pack m r location now_hlc).1 ≡ ok tt
    → (d s : SegmentDescriptorV2) × (segment m r.segment_id ≡ some d)
      × (segment (record_pack m r location now_hlc).0 r.segment_id ≡ some s)
      × IsPacked r d s
      × IsCoherent s
unfolding record_pack packed_descriptor
record_pack-IsPacked m r location now_hlc h =
    let (d, found, fresh, same, run) = record_pack_run m r location now_hlc h in
    (
      d,
      packed_descriptor r location now_hlc d,
      found,
      ap (λ x. segment x.0 r.segment_id) run
          ∙ segment-update_segment m r.segment_id d _ found (segment-In m r.segment_id d found).1,
      record {
        certified = same;
        same_root = refl;
        serving = refl;
        active = packed-active r location now_hlc d fresh;
        kept = packed-kept r location now_hlc d fresh;
      },
      (check_segment_coherence-IsCoherent _).0 (sym (ap (λ x. x.1) run) ∙ h),
    )

pub record_pack-IsCatalogue :
    (m : DatabaseManifest) (r : PackReceipt) (location : String) (now_hlc : ℕ)
    → IsCatalogue m
    → (record_pack m r location now_hlc).1 ≡ ok tt
    → IsCatalogue (record_pack m r location now_hlc).0
unfolding packed_descriptor
record_pack-IsCatalogue m r location now_hlc w h =
    let (d, found, fresh, same, run) = record_pack_run m r location now_hlc h in
    let (a, e, auth, _, _) = packed-active r location now_hlc d fresh in
    rw (ap (λ x. x.0) run) (
      rewritten-IsCatalogue m r.segment_id (packed_descriptor r location now_hlc d) w
        (segment-In m r.segment_id d found).1
        (
          (check_segment_coherence-IsCoherent _).0 (sym (ap (λ x. x.1) run) ∙ h),
          (λ _ _ _. (a, e, auth)),
        ))
