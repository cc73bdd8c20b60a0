-- ===== src/V6/Hrkm/Accepted.antt =====
-- What `decode_manifest` of heraclitus-log/src/v6/manifest.rs accepts.
use crates.Prelude.{ℕ, zero, suc, ◌-◌, ◌≤◌, ◌≡◌, refl, ap, arith, inl, inr, Bool, true, false, not}
use crates.Prelude.{List, [], ◌∷◌, All, length, ltb, Bool-cases, ◌==◌}
use crates.Core.Runtime.{SegmentDescriptorV2, DatabaseManifest}
use crates.V6.Platform.{Platform}
use crates.V6.Error.{
  ok, bind-eq-ok, ok_inj, Fault, too_many_segments, trailing_bytes, segments_unordered,
}
use crates.V6.SegmentCheck.{check_segment_coherence}
use crates.V6.SegmentCheck.Coherence.{IsCoherent, check_segment_coherence-IsCoherent}
use crates.V6.Hrkm.Decode.{decode_fields, decode_segment, from_le_bytes}
use crates.V6.Hrkm.Frame.{
  slice, some_unordered, decode_segments, decode_body, decode_manifest, check_header, check_footer,
  check_body, hard_max_segments, refuse,
}
use crates.V6.Hrkm.Layout.{Ascending}

passed-IsCoherent :
    (d s : SegmentDescriptorV2) (u : Unit {0})
    → check_segment_coherence d ≡ ok u
    → d ≡ s
    → IsCoherent s
passed-IsCoherent d s u c e = rw (← e) ((check_segment_coherence-IsCoherent d).0 c)

decode_segment-IsCoherent :
    (p : Platform) (buf : List ℕ) (pos pos' : ℕ) (s : SegmentDescriptorV2)
    → decode_segment p buf pos ≡ ok (s, pos')
    → IsCoherent s
unfolding decode_segment
decode_segment-IsCoherent p buf pos pos' s h =
    let ((d, q), _, k) = bind-eq-ok (decode_fields p buf pos) _ h in
    let (_, c, e) = bind-eq-ok (check_segment_coherence d) _ k in
    passed-IsCoherent d s _ c (ap (λ (x : SegmentDescriptorV2 × ℕ). x.0) (ok_inj e))

decode_segments-IsCoherent :
    (p : Platform) (buf : List ℕ) (n pos pos' : ℕ) (ss : List SegmentDescriptorV2)
    → decode_segments p buf n pos ≡ ok (ss, pos')
    → All IsCoherent ss × (length ss ≡ n)
unfolding decode_segments
decode_segments-IsCoherent p buf zero pos pos' ss h =
    let e : [] ≡ ss = ap (λ (x : List SegmentDescriptorV2 × ℕ). x.0) (ok_inj h) in
    rw (← e) (tt, refl)
decode_segments-IsCoherent p buf (suc n) pos pos' ss h =
    let ((s, q), k, h1) = bind-eq-ok (decode_segment p buf pos) _ h in
    let ((ts, q'), k', h2) = bind-eq-ok (decode_segments p buf n q) _ h1 in
    let e : s ∷ ts ≡ ss = ap (λ (x : List SegmentDescriptorV2 × ℕ). x.0) (ok_inj h2) in
    let (all, l) = decode_segments-IsCoherent p buf n q q' ts k' in
    rw (← e) ((decode_segment-IsCoherent p buf pos q s k, all), ap suc l)

Ascending-some_unordered :
    (ss : List SegmentDescriptorV2) → some_unordered ss ≡ false → Ascending ss
unfolding some_unordered
Ascending-some_unordered [] h = tt
Ascending-some_unordered (s ∷ []) h = tt
Ascending-some_unordered (s ∷ t ∷ ss) h = elim (Bool-cases (ltb t.first_lsn s.first_lsn)) [
  | inl e ↦ absurd (ground (arith, h, e))
  | inr e ↦ (ground (arith, e), Ascending-some_unordered (t ∷ ss) (rw e at h))
]

refuse-ok : (b : Bool) (fault : Fault) (u : Unit {0}) → refuse b fault ≡ ok u → b ≡ false
refuse-ok true fault u h = cc
refuse-ok false fault u h = refl

at_most : (a b : ℕ) → ltb a b ≡ false → b ≤ a
at_most a b h = ground (arith, h)

decode_body-IsCoherent :
    (p : Platform) (body : List ℕ) (n : ℕ) (ss : List SegmentDescriptorV2)
    → decode_body p body n ≡ ok ss
    → All IsCoherent ss × Ascending ss × (length ss ≡ n) × (n ≤ hard_max_segments)
unfolding decode_body
decode_body-IsCoherent p body n ss h =
    let (_, few, h1) = bind-eq-ok (refuse (ltb hard_max_segments n) too_many_segments) _ h in
    let ((ts, pos), read, h2) = bind-eq-ok (decode_segments p body n 0) _ h1 in
    let (_, _, h3) = bind-eq-ok (refuse (not (pos == length body)) trailing_bytes) _ h2 in
    let (_, ordered, h4) = bind-eq-ok (refuse (some_unordered ts) segments_unordered) _ h3 in
    let (all, l) = decode_segments-IsCoherent p body n 0 pos ts read in
    let asc = Ascending-some_unordered ts (refuse-ok _ _ _ ordered) in
    rw (← ok_inj h4) ((all, asc, l, at_most _ _ (refuse-ok _ _ _ few)))

-- A file that is accepted holds coherent segments in order of their first LSN, no more than the limit.
pub decode_manifest-IsCoherent :
    (p : Platform) (file : List ℕ) (m : DatabaseManifest)
    → decode_manifest p file ≡ ok m
    → All IsCoherent m.segments_v2
      × Ascending m.segments_v2
      × (length m.segments_v2 ≤ hard_max_segments)
unfolding decode_manifest
decode_manifest-IsCoherent p file m h =
    let (_, _, h1) = bind-eq-ok (check_header p file) _ h in
    let (_, _, h2) = bind-eq-ok (check_footer p file) _ h1 in
    let (_, _, h3) = bind-eq-ok (check_body p file) _ h2 in
    let (ss, body, h4) =
      bind-eq-ok
        (decode_body p (slice file 64 (length file - 96)) (from_le_bytes (slice file 48 52))) _
        h3 in
    let (all, asc, l, few) =
      decode_body-IsCoherent p (slice file 64 (length file - 96)) _ ss body in
    let e : ss ≡ m.segments_v2 = ap (λ (d : DatabaseManifest). d.segments_v2) (ok_inj h4) in
    rw (← e) ((all, asc, omega (arith, l, few)))
