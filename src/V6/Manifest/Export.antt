-- ===== src/V6/Manifest/Export.antt =====
-- `contiguous_exported_lsn` and `attach_parquet`: the watermark of the export.
use crates.Prelude.{
  ℕ, ◌≤◌, ◌<◌, ◌≡◌, ◌⊎◌, inl, inr, refl, arith, ◌∙◌, sym, ap, Bool, true, ==_iff, min, max,
}
use crates.Prelude.{List, [], ◌∷◌, some, Bool-cases, Option-cases, map}
use crates.Prelude.Unique.{IsUnique, IsUnique-same}
use crates.Prelude.Search.{In, modify_first, modify_first-In}
use crates.Prelude.Bytes.{bytes_eq}
use crates.Core.Runtime.{
  DerivedArtifactRef, SegmentDescriptorV2, DatabaseManifest, segment, identified,
}
use crates.Core.Runtime.Order.{IsOrdered, IsOrdered-In, Behind}
use crates.V6.Manifest.Outcome.{segment-In}
use crates.V6.Manifest.{
  is_exported, exported_from, contiguous_exported_lsn, attach_parquet, update_segment,
}

-- No segment of the list that ends at or below `lsn` lacks its export. The watermark 0 says nothing.
abbrev pub Exported : ℕ → List SegmentDescriptorV2 → Type 0
Exported lsn ss =
    (s : SegmentDescriptorV2) → In s ss → 0 < lsn → s.last_lsn ≤ lsn → is_exported s ≡ true

exported_from-Behind :
    (w : ℕ) (ss : List SegmentDescriptorV2)
    → IsOrdered ss
    → Behind w ss
    → (s : SegmentDescriptorV2) → In s ss
    → s.last_lsn ≤ exported_from w ss
    → is_exported s ≡ true
unfolding exported_from
exported_from-Behind w [] o b s i h = absurd i
exported_from-Behind w (x ∷ ss) (k, c, o) b s i h = elim (Bool-cases (is_exported x)) [
  | inl t ↦ elim i [
    | inl e ↦ ap is_exported e ∙ t
    | inr j ↦ exported_from-Behind x.last_lsn ss o c s j (rw (t, exported_from) at h)
  ]
  | inr f ↦ absurd (ground (arith, f, h, b s i, IsOrdered-In (x ∷ ss) s (k, c, o) i))
]

exported_from-Exported :
    (ss : List SegmentDescriptorV2) → IsOrdered ss → Exported (exported_from 0 ss) ss
unfolding exported_from
exported_from-Exported [] o s i n h = absurd i
exported_from-Exported (x ∷ ss) (k, c, o) s i n h = elim (Bool-cases (is_exported x)) [
  | inl t ↦ elim i [
    | inl e ↦ ap is_exported e ∙ t
    | inr j ↦ exported_from-Behind x.last_lsn ss o c s j (rw (t, exported_from) at h)
  ]
  | inr f ↦ absurd (ground (arith, f, n))
]

module _ (p : SegmentDescriptorV2 → Bool) (f : SegmentDescriptorV2 → SegmentDescriptorV2)
    (same : (s : SegmentDescriptorV2)
      → ((f s).first_lsn ≡ s.first_lsn) × ((f s).last_lsn ≡ s.last_lsn)) where
  Behind-modify_first :
      (w : ℕ) (ss : List SegmentDescriptorV2) → Behind w ss → Behind w (modify_first p f ss)
  Behind-modify_first w ss b t i = elim (modify_first-In p f ss t i) [
    | inl j ↦ b t j
    | inr (x, j, _, e) ↦ rw (e, (same x).0) (b x j)
  ]

  IsOrdered-modify_first :
      (ss : List SegmentDescriptorV2) → IsOrdered ss → IsOrdered (modify_first p f ss)
  unfolding modify_first
  IsOrdered-modify_first [] o = tt
  IsOrdered-modify_first (s ∷ ss) (k, b, o) = elim (Bool-cases (p s)) [
    | inl t ↦ rw (t, IsOrdered) (rw ((same s).0, (same s).1) k, rw (same s).1 b, o)
    | inr n ↦
        rw (n, IsOrdered) (k, Behind-modify_first s.last_lsn ss b, IsOrdered-modify_first ss o)
  ]

below :
    (x c e l : ℕ)
    → 0 < max c (min e l)
    → x ≤ max c (min e l)
    → ((0 < c) × (x ≤ c)) ⊎ ((0 < e) × (x ≤ e))
below x c e l n h = ground arith

-- The watermark of the export stays honest: after `attach_parquet`, whatever it returns, and where
-- `exported_through_lsn` is not 0, no segment that ends at or below it lacks its export, if that was
-- so before, the segments follow one another, and each is named once.
pub attach_parquet-Exported :
    (m : DatabaseManifest) (id : ℕ) (a : DerivedArtifactRef)
    → IsUnique (map (λ s. s.segment_id) m.segments_v2)
    → IsOrdered m.segments_v2
    → Exported m.exported_through_lsn m.segments_v2
    → Exported (attach_parquet m id a).0.exported_through_lsn (attach_parquet m id a).0.segments_v2
unfolding attach_parquet contiguous_exported_lsn
attach_parquet-Exported m id a u o ex = elim (Option-cases (segment m id)) [
  | inl e ↦ rw (attach_parquet, e) ex
  | inr (d, e) ↦ elim (Bool-cases (bytes_eq a.logical_root d.logical_root)) [
    | inl t ↦ rw (attach_parquet, e, t) (exported d e t)
    | inr f ↦ rw (attach_parquet, e, f) ex
  ]
]
  where
    set : SegmentDescriptorV2 → SegmentDescriptorV2
    set s = record s { parquet = some a }

    m' : DatabaseManifest
    m' = update_segment m id set

    exported :
        (d : SegmentDescriptorV2)
        → segment m id ≡ some d
        → bytes_eq a.logical_root d.logical_root ≡ true
        → Exported
            (max (contiguous_exported_lsn m') (min m.exported_through_lsn d.last_lsn))
            m'.segments_v2
    exported d e t s i n h = elim (below s.last_lsn _ m.exported_through_lsn d.last_lsn n h) [
      | inl (q, k) ↦
          exported_from-Exported m'.segments_v2
            (IsOrdered-modify_first (identified id) set (λ _. (refl, refl)) m.segments_v2 o) s i q k
      | inr (q, k) ↦ elim (modify_first-In (identified id) set m.segments_v2 s i) [
        | inl j ↦ ex s j q k
        | inr (x, j, p, es) ↦
            ap is_exported es ∙ ap (λ y. bytes_eq a.logical_root y.logical_root) (same x j p) ∙ t
      ]
    ]
      where
        same : (x : SegmentDescriptorV2) → In x m.segments_v2 → identified id x ≡ true → x ≡ d
        same x j p =
            let (k, at_id) = segment-In m id d e in
            IsUnique-same (λ s. s.segment_id) m.segments_v2 x d u j k
              ((==_iff x.segment_id id).0 p ∙ sym at_id)
