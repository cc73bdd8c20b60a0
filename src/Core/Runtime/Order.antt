-- ===== src/Core/Runtime/Order.antt =====
-- `find_segment_for_lsn` on a catalogue whose segments follow one another.
use crates.Prelude.{ℕ, ◌≤◌, ◌<◌, ◌≡◌, ◌↔◌, inl, inr, arith, sym, ap, ltb, leb, if◌then◌else◌, ◌&&◌}
use crates.Prelude.{List, [], ◌∷◌, none, some, Bool-cases, Option-cases, some_inj, none-ne-some}
use mathlib.Core.Path.{subst}
use crates.Prelude.Search.{In}
use crates.Core.Runtime.{SegmentDescriptorV2, DatabaseManifest, at_partition, find_segment_for_lsn}

-- All segments of the list start behind `lsn`.
abbrev pub Behind : ℕ → List SegmentDescriptorV2 → Type 0
Behind lsn ss = (t : SegmentDescriptorV2) → In t ss → lsn < t.first_lsn

-- The segments follow one another: none is reversed, and each starts behind those before it.
abbrev pub IsOrdered : List SegmentDescriptorV2 → Type 0
IsOrdered [] = Unit {0}
IsOrdered (s ∷ ss) = (s.first_lsn ≤ s.last_lsn) × Behind s.last_lsn ss × IsOrdered ss

-- `s` holds records, and `lsn` lies in its range.
abbrev pub Covers : SegmentDescriptorV2 → ℕ → Type 0
Covers s lsn = (0 < s.record_count) × (s.first_lsn ≤ lsn) × (lsn ≤ s.last_lsn)

pub IsOrdered-In :
    (ss : List SegmentDescriptorV2) (s : SegmentDescriptorV2)
    → IsOrdered ss
    → In s ss
    → s.first_lsn ≤ s.last_lsn
IsOrdered-In [] s o i = absurd i
IsOrdered-In (x ∷ ss) s (h, b, o) (inl e) = rw e h
IsOrdered-In (x ∷ ss) s (h, b, o) (inr i) = IsOrdered-In ss s o i

at_partition-In :
    (lsn : ℕ) (ss : List SegmentDescriptorV2) (s : SegmentDescriptorV2)
    → at_partition lsn ss ≡ some s
    → In s ss
unfolding at_partition
at_partition-In lsn [] s h = absurd (none-ne-some h)
at_partition-In lsn (x ∷ ss) s h = elim (Bool-cases (ltb x.last_lsn lsn)) [
  | inl t ↦ inr (at_partition-In lsn ss s (rw (t, at_partition) at h))
  | inr f ↦ inl (sym (some_inj (rw (f, at_partition) at h)))
]

at_partition-some :
    (lsn : ℕ) (ss : List SegmentDescriptorV2) (s : SegmentDescriptorV2)
    → IsOrdered ss
    → In s ss
    → Covers s lsn
    → at_partition lsn ss ≡ some s
unfolding at_partition
at_partition-some lsn [] s o i c = absurd i
at_partition-some lsn (x ∷ ss) s (h, b, o) (inl e) (n, lo, hi) =
    let k = ap (λ y. y.last_lsn) e in ground (arith, hi, k, sym e)
at_partition-some lsn (x ∷ ss) s (h, b, o) (inr i) c =
    ground (arith, h, b s i, IsOrdered-In ss s o i, at_partition-some lsn ss s o i c)

-- On segments that follow one another, the lookup of an LSN finds a segment exactly where one of
-- them holds records around that LSN.
pub find_segment_for_lsn-Covers :
    (m : DatabaseManifest) (lsn : ℕ) (s : SegmentDescriptorV2)
    → IsOrdered m.segments_v2
    → (find_segment_for_lsn m lsn ≡ some s) ↔ (In s m.segments_v2 × Covers s lsn)
unfolding find_segment_for_lsn
find_segment_for_lsn-Covers m lsn s o = (forward, backward)
  where
    covered :
        (t : SegmentDescriptorV2)
        → In t m.segments_v2
        → (if ltb 0 t.record_count && (leb t.first_lsn lsn && leb lsn t.last_lsn)
            then some t
            else none)
          ≡ some s
        → In s m.segments_v2 × Covers s lsn
    covered t i k =
        elim (Bool-cases (ltb 0 t.record_count && (leb t.first_lsn lsn && leb lsn t.last_lsn))) [
          | inl pos ↦
              subst (λ x. In x m.segments_v2 × Covers x lsn) (some_inj (rw pos at k))
                (i, (ground (arith, pos)))
          | inr neg ↦ absurd (none-ne-some (rw neg at k))
        ]

    forward : find_segment_for_lsn m lsn ≡ some s → In s m.segments_v2 × Covers s lsn
    forward h = elim (Option-cases (at_partition lsn m.segments_v2)) [
      | inl e ↦ absurd (none-ne-some (rw (e, find_segment_for_lsn) at h))
      | inr (t, e) ↦
          let i = at_partition-In lsn m.segments_v2 t e in
          covered t i (rw (e, find_segment_for_lsn) at h)
    ]

    backward : In s m.segments_v2 × Covers s lsn → find_segment_for_lsn m lsn ≡ some s
    backward (i, c) = let e = at_partition-some lsn m.segments_v2 s o i c in ground (arith, e, c)
