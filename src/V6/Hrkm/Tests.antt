-- ===== src/V6/Hrkm/Tests.antt =====
-- The `.hrkm` codec of heraclitus-log/src/v6/manifest.rs on a small manifest.
use crates.Prelude.{ℕ, ◌≡◌, List}
use crates.Prelude.{length, All, ◌≤◌}
use crates.V6.Error.{ok}
use crates.V6.SegmentCheck.Coherence.{IsCoherent}
use crates.V6.Hrkm.Frame.{encode_manifest, decode_manifest, hard_max_segments}
use crates.V6.Hrkm.Layout.{Ascending}
use crates.V6.Hrkm.RoundTrip.{as_read, decode_manifest-encode_manifest}
use crates.V6.Hrkm.Accepted.{decode_manifest-IsCoherent}
use crates.V6.Hrkm.Samples.{
  small_platform, stored_manifest, small_platform-IsPlatform, stored_manifest-IsManifest,
}

decode_manifest-encode_manifest_example :
    (file : List ℕ) × (encode_manifest small_platform stored_manifest ≡ ok file)
    × (decode_manifest small_platform file ≡ ok (as_read stored_manifest))
decode_manifest-encode_manifest_example =
    decode_manifest-encode_manifest small_platform stored_manifest small_platform-IsPlatform
      stored_manifest-IsManifest

decode_manifest-IsCoherent_example :
    All IsCoherent stored_manifest.segments_v2
    × Ascending stored_manifest.segments_v2
    × (length stored_manifest.segments_v2 ≤ hard_max_segments)
decode_manifest-IsCoherent_example =
    decode_manifest-IsCoherent small_platform decode_manifest-encode_manifest_example.0
      (as_read stored_manifest) decode_manifest-encode_manifest_example.2
