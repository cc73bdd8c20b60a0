-- ===== src/V6/Hrkm/Body.antt =====
-- The segments in the body of a `.hrkm` file of heraclitus-log/src/v6/manifest.rs.
use crates.Prelude.{ℕ, ◌^◌, ◌≤◌, ◌<◌, ◌≡◌, refl, arith}
use crates.Prelude.{List, [], ◌∷◌, length}
use crates.Prelude.{All, false}
use crates.V6.Varint.{IsU64}
use crates.V6.Hrkm.Segments.{IsSegment, not_below, decode_segment-Reads}
use crates.Core.Runtime.{SegmentDescriptorV2}
use crates.V6.Platform.{Platform, IsPlatform}
use crates.V6.Error.{ok}
use crates.V6.Hrkm.Reading.{IsAt, IsAt-start, Reads, Reads-bind}
use crates.V6.Hrkm.Frame.{hard_max_segments, some_unordered, decode_segments, decode_body}
use crates.V6.Hrkm.Layout.{Ascending, segments_then}
use crates.V6.Hrkm.Checks.{numbers_same}

some_unordered-Ascending :
    (ss : List SegmentDescriptorV2) → Ascending ss → some_unordered ss ≡ false
unfolding some_unordered
some_unordered-Ascending [] a = refl
some_unordered-Ascending (s ∷ []) a = refl
some_unordered-Ascending (s ∷ t ∷ ss) (h, a) =
    rw (not_below _ _ h) (some_unordered-Ascending (t ∷ ss) a)

-- The body's buffer, short enough for positions in it.
module _ (p : Platform) (buf : List ℕ) (lawful : IsPlatform p)
    (short : length buf < 2 ^ p.usize_bits) (u64 : IsU64 (length buf)) where
  decode_segments-Reads :
      (ss : List SegmentDescriptorV2) (rest : List ℕ) (pos : ℕ)
      → All (IsSegment p) ss
      → IsAt buf pos (segments_then p ss rest)
      → Reads buf (decode_segments p buf (length ss) pos) ss rest
  unfolding decode_segments
  decode_segments-Reads [] rest pos w h = (pos, refl, h)
  decode_segments-Reads (s ∷ ss) rest pos (w, ws) h =
      Reads-bind _ (decode_segment-Reads p buf lawful short u64 s _ _ w h)
        λ _ h. Reads-bind _ (decode_segments-Reads ss rest _ ws h) λ q h. (q, refl, h)

  pub decode_body-segments :
      (ss : List SegmentDescriptorV2)
      → All (IsSegment p) ss
      → Ascending ss
      → length ss ≤ hard_max_segments
      → buf ≡ segments_then p ss []
      → decode_body p buf (length ss) ≡ ok ss
  unfolding decode_body
  decode_body-segments ss w a few e =
      let (pos, r, (_, l)) = decode_segments-Reads ss [] 0 w (IsAt-start buf _ e) in
      let all_read : pos ≡ length buf = omega (arith, l) in
      rw (not_below _ _ few)
        (rw r (rw (numbers_same _ _ all_read) (rw (some_unordered-Ascending ss a) refl)))
