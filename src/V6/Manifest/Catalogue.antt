-- ===== src/V6/Manifest/Catalogue.antt =====
-- The invariant of the catalogue, and the two ways in which its operations write to it.
use crates.Prelude.{ℕ, ◌≡◌, ◌⊎◌, inl, inr, refl, arith, ◌∙◌, sym, ap, true, false, ==_iff, ltb}
use crates.Prelude.{List, [], ◌∷◌, map, some, Bool-cases}
use crates.Prelude.Search.{In, any, modify_first-In, map-modify_first, In-map, In-map_image, In-any}
use crates.Prelude.Unique.{IsUnique}
use crates.Core.Runtime.{
  PhysicalGeneration, SegmentDescriptorV2, DatabaseManifest, has_authority, active_of, identified,
  insert_by_lsn, upsert_list, upsert_segment,
}
use crates.V6.Manifest.{update_segment}
use crates.V6.SegmentCheck.Coherence.{IsCoherent}

-- A segment with a canonical authority is served by one.
abbrev pub IsServed : SegmentDescriptorV2 → Type 0
IsServed s =
    (g : PhysicalGeneration)
    → In g s.generations
    → has_authority g ≡ true
    → (a : PhysicalGeneration) × (active_of s ≡ some a) × (has_authority a ≡ true)

abbrev pub IsHealthy : SegmentDescriptorV2 → Type 0
IsHealthy s = IsCoherent s × IsServed s

-- Each segment is named once, coherent, and served from an authority if it has one.
pub record IsCatalogue (m : DatabaseManifest) : Type 0 where
  pub unique : IsUnique (map (λ s. s.segment_id) m.segments_v2)
  pub healthy : (s : SegmentDescriptorV2) → In s m.segments_v2 → IsHealthy s

pub IsCatalogue-update_segment :
    (m : DatabaseManifest) (id : ℕ) (f : SegmentDescriptorV2 → SegmentDescriptorV2)
    → IsCatalogue m
    → ((s : SegmentDescriptorV2) → s.segment_id ≡ id → (f s).segment_id ≡ id)
    → ((s : SegmentDescriptorV2) → In s m.segments_v2 → s.segment_id ≡ id → IsHealthy (f s))
    → IsCatalogue (update_segment m id f)
IsCatalogue-update_segment m id f w same h = record {
  unique =
      rw
        (map-modify_first (λ s. s.segment_id) (identified id) f m.segments_v2
          (λ s t. let e = (==_iff s.segment_id id).0 t in same s e ∙ sym e))
        w.unique;
  healthy = λ s i. elim (modify_first-In (identified id) f m.segments_v2 s i) [
    | inl old ↦ w.healthy s old
    | inr (x, j, t, e) ↦ rw e (h x j ((==_iff x.segment_id id).0 t))
  ];
}

In-insert_by_lsn :
    (d : SegmentDescriptorV2) (ss : List SegmentDescriptorV2) (s : SegmentDescriptorV2)
    → In s (insert_by_lsn d ss)
    → (s ≡ d) ⊎ In s ss
unfolding insert_by_lsn
In-insert_by_lsn d [] s i = i
In-insert_by_lsn d (x ∷ ss) s i = elim (Bool-cases (ltb x.first_lsn d.first_lsn)) [
  | inl t ↦ turn (rw (t, In, insert_by_lsn) at i) (In-insert_by_lsn d ss s)
  | inr f ↦ rw (f, In, insert_by_lsn) at i
]
  where
    turn :
        In s (x ∷ insert_by_lsn d ss)
        → (In s (insert_by_lsn d ss) → (s ≡ d) ⊎ In s ss)
        → (s ≡ d) ⊎ In s (x ∷ ss)
    turn (inl e) ih = inr (inl e)
    turn (inr m) ih = elim (ih m) [ inl e ↦ inl e | inr k ↦ inr (inr k) ]

IsUnique-insert_by_lsn :
    (d : SegmentDescriptorV2) (ss : List SegmentDescriptorV2)
    → (In d.segment_id (map (λ s. s.segment_id) ss) → ⊥)
    → IsUnique (map (λ s. s.segment_id) ss)
    → IsUnique (map (λ s. s.segment_id) (insert_by_lsn d ss))
unfolding insert_by_lsn
IsUnique-insert_by_lsn d [] new u = (new, tt)
IsUnique-insert_by_lsn d (x ∷ ss) new (h, u) = elim (Bool-cases (ltb x.first_lsn d.first_lsn)) [
  | inl t ↦
      rw (t, insert_by_lsn, map, IsUnique) (apart, IsUnique-insert_by_lsn d ss (λ i. new (inr i)) u)
  | inr f ↦ rw (f, insert_by_lsn, map, IsUnique) (new, (h, u))
]
  where
    apart : In x.segment_id (map (λ s. s.segment_id) (insert_by_lsn d ss)) → ⊥
    apart i =
        let (y, j, e) = In-map (λ s. s.segment_id) (insert_by_lsn d ss) x.segment_id i in
        elim (In-insert_by_lsn d ss y j) [
          | inl k ↦ new (inl (sym (e ∙ ap (λ s. s.segment_id) k)))
          | inr k ↦ h (rw e (In-map_image (λ s. s.segment_id) ss y k))
        ]

IsCatalogue-insert_by_lsn :
    (m : DatabaseManifest) (d : SegmentDescriptorV2)
    → any (identified d.segment_id) m.segments_v2 ≡ false
    → IsCatalogue m
    → IsHealthy d
    → IsCatalogue (record m { segments_v2 = insert_by_lsn d m.segments_v2 })
IsCatalogue-insert_by_lsn m d f w h = record {
  unique = IsUnique-insert_by_lsn d m.segments_v2 fresh w.unique;
  healthy =
      λ s i. elim (In-insert_by_lsn d m.segments_v2 s i) [ inl e ↦ rw e h | inr k ↦ w.healthy s k ];
}
  where
    fresh : In d.segment_id (map (λ s. s.segment_id) m.segments_v2) → ⊥
    fresh i =
        let (y, j, e) = In-map (λ s. s.segment_id) m.segments_v2 d.segment_id i in
        let found = In-any (identified d.segment_id) m.segments_v2 y j ((==_iff _ _).1 (sym e)) in
        ground (arith, f, found)

pub IsCatalogue-upsert_segment :
    (m : DatabaseManifest) (d : SegmentDescriptorV2)
    → IsCatalogue m
    → IsHealthy d
    → IsCatalogue (upsert_segment m d)
unfolding upsert_segment upsert_list
IsCatalogue-upsert_segment m d w h =
    elim (Bool-cases (any (identified d.segment_id) m.segments_v2)) [
      | inl t ↦
          rw (t, upsert_segment, upsert_list)
            (IsCatalogue-update_segment m d.segment_id (λ _. d) w (λ _ _. refl) (λ _ _ _. h))
      | inr f ↦ rw (f, upsert_segment, upsert_list) (IsCatalogue-insert_by_lsn m d f w h)
    ]
