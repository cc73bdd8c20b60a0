-- ===== src/V6/Hrkm/Samples.antt =====
-- A platform and a manifest that the tests of heraclitus-log/src/v6/manifest.rs run on.
use crates.Prelude.{ℕ, ◌≡◌, refl, ap, String, List, [], ◌∷◌, Option, none, some, ◌⊎◌, inl, inr}
use crates.Prelude.{arith, replicate, length, ◌%◌, false}
use crates.Core.Runtime.{
  DatabaseManifest, SegmentDescriptorV2, PhysicalGeneration, DerivedArtifactRef,
}
use crates.Prelude.Search.{find}
use crates.V6.Merkle.{to_le_bytes}
use crates.V6.Hrkm.{varint_bytes}
use crates.Log.Crc.{Cpu}
use crates.V6.Platform.{Platform, IsPlatform}
use crates.V6.Samples.{original, packed, one_segment, one_manifest}
use crates.V6.SegmentCheck.{check_segment_coherence}
use crates.V6.SegmentCheck.Coherence.{check_segment_coherence-IsCoherent}
use crates.V6.Hrkm.Generations.{IsGeneration}
use crates.V6.Hrkm.Segments.{IsSegment}
use crates.V6.Hrkm.Frame.{encode_segments}
use crates.V6.Hrkm.Layout.{IsManifest}
use Prim.Native.Char.{Char, char, code, IsLt, IsScalar}
use Prim.Native.Nat.{Ordering, compare}
use text.Mathlib.TextEquality.{Char-path}

-- The test of `IsScalar`, with its clauses.
abbrev BothLt : Ordering → Ordering → Type 0
BothLt Ordering.lt o = IsLt o
BothLt Ordering.eq _ = ⊥
BothLt Ordering.gt _ = ⊥

abbrev Scalar : Ordering → Ordering → Ordering → Type 0
Scalar Ordering.lt _ _ = Unit
Scalar Ordering.eq o p = BothLt o p
Scalar Ordering.gt o p = BothLt o p

abbrev both_lt_dec : (o p : Ordering) → BothLt o p ⊎ ¬ BothLt o p
both_lt_dec Ordering.lt Ordering.lt = inl tt
both_lt_dec Ordering.lt Ordering.eq = inr (λ h. h)
both_lt_dec Ordering.lt Ordering.gt = inr (λ h. h)
both_lt_dec Ordering.eq _ = inr (λ h. h)
both_lt_dec Ordering.gt _ = inr (λ h. h)

abbrev scalar_dec : (o p q : Ordering) → Scalar o p q ⊎ ¬ Scalar o p q
scalar_dec Ordering.lt _ _ = inl tt
scalar_dec Ordering.eq p q = both_lt_dec p q
scalar_dec Ordering.gt p q = both_lt_dec p q

abbrev char_if : (n : ℕ) → IsScalar n ⊎ ¬ IsScalar n → Option Char
char_if n (inl h) = some (char n h)
char_if n (inr _) = none

abbrev of_code : ℕ → Option Char
of_code n = char_if n (scalar_dec (compare n 55296) (compare 57343 n) (compare n 1114112))

char_if-code :
    (c : Char) (d : IsScalar (code c) ⊎ ¬ IsScalar (code c)) → char_if (code c) d ≡ some c
char_if-code (char n h) (inl k) = ap some (Char-path (char n k) (char n h) refl)
char_if-code (char n h) (inr k) = absurd (k h)

-- A text as the numbers of its characters.
abbrev codes : String → List ℕ
codes String.[] = []
codes (String.◌∷◌ c s) = code c ∷ codes s

abbrev text_behind : Char → Option String → Option String
text_behind c none = none
text_behind c (some s) = some (String.◌∷◌ c s)

abbrev text_of : List ℕ → Option String
text_of [] = some String.[]
text_of (n ∷ ns) = elim (of_code n) [ none ↦ none | some c ↦ text_behind c (text_of ns) ]

text_of-codes : (s : String) → text_of (codes s) ≡ some s
text_of-codes String.[] = refl
text_of-codes (String.◌∷◌ c s) =
    let e : of_code (code c) ≡ some c =
      char_if-code c
        (scalar_dec (compare (code c) 55296) (compare 57343 (code c)) (compare (code c) 1114112)) in
    rw (text_of, e) (rw (text_of-codes s) refl)

abbrev old_cpu : Cpu
old_cpu = record {
  sse42 = false;
  mm_crc32_u8 = λ c b. c;
  mm_crc32_u64 = λ c w. c;
  align_to = λ bytes. (bytes, [], []);
}

abbrev pub small_platform : Platform
small_platform = record {
  usize_bits = 32;
  as_bytes = codes;
  from_utf8 = text_of;
  blake3 = λ bytes. replicate 32 (length bytes % 256);
  cpu = old_cpu;
}

pub small_platform-IsPlatform : IsPlatform small_platform
small_platform-IsPlatform = record {
  at_least = omega arith;
  utf8 = text_of-codes;
  digest = λ bytes. refl;
}

abbrev zero_digest : List ℕ
zero_digest = replicate 32 0

abbrev raw_copy : PhysicalGeneration
raw_copy = record original { physical_digest = zero_digest }

abbrev packed_copy : PhysicalGeneration
packed_copy = record packed { physical_digest = zero_digest }

abbrev sidecar : DerivedArtifactRef
sidecar = record {
  location = "seg-1.hrki";
  size = 300;
  digest = zero_digest;
  logical_root = zero_digest;
  created_hlc = 5;
}

abbrev stored : SegmentDescriptorV2
stored = record one_segment {
  logical_root = zero_digest;
  generations = raw_copy ∷ packed_copy ∷ [];
  hrki = some sidecar;
}

abbrev pub stored_manifest : DatabaseManifest
stored_manifest = record one_manifest {
  segments_v2 = stored ∷ [];
  storage_namespace_id = replicate 16 9;
  statistics_root_hash = zero_digest;
}

stored-IsSegment : IsSegment small_platform stored
unfolding check_segment_coherence find
stored-IsSegment = record {
  segment_id = omega arith;
  first_lsn = omega arith;
  last_lsn = omega arith;
  record_count = omega arith;
  canonical_codec = omega arith;
  logical_root = refl;
  min_hlc = omega arith;
  max_hlc = omega arith;
  active_generation = omega arith;
  generations = (raw_copy-IsGeneration, (packed_copy-IsGeneration, tt));
  hrki = record {
    location = omega arith;
    size = omega arith;
    digest = refl;
    logical_root = refl;
    created_hlc = omega arith;
  };
  parquet = tt;
  gc_grace_seconds = omega arith;
  min_verified_copies = omega arith;
  coherent = (check_segment_coherence-IsCoherent stored).0 refl;
}
  where
    raw_copy-IsGeneration : IsGeneration small_platform raw_copy
    raw_copy-IsGeneration = record {
      generation = omega arith;
      location = omega arith;
      physical_size = omega arith;
      physical_digest = refl;
      created_hlc = omega arith;
      verified_hlc = omega arith;
      superseded_hlc = omega arith;
      verified_copies = omega arith;
    }

    packed_copy-IsGeneration : IsGeneration small_platform packed_copy
    packed_copy-IsGeneration = record {
      generation = omega arith;
      location = omega arith;
      physical_size = omega arith;
      physical_digest = refl;
      created_hlc = omega arith;
      verified_hlc = omega arith;
      superseded_hlc = omega arith;
      verified_copies = omega arith;
    }

pub stored_manifest-IsManifest : IsManifest small_platform stored_manifest
unfolding encode_segments varint_bytes to_le_bytes
stored_manifest-IsManifest = record {
  manifest_generation = omega arith;
  storage_namespace_id = refl;
  cumulative_watermark = omega arith;
  exported_through_lsn = omega arith;
  statistics_root_hash = refl;
  segments = (stored-IsSegment, tt);
  ascending = tt;
  few = omega arith;
  short = omega arith;
}
