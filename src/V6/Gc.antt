-- ===== src/V6/Gc.antt =====
-- heraclitus-log/src/v6/gc.rs: which physical generations may be collected, the independent check
-- of a plan, and its application to the manifest in memory.
pub mod Copies
pub mod Safety
pub mod Plan
pub mod Check
pub mod Removal
pub mod Apply
pub mod Pins
pub mod Tests
use crates.Prelude.{
  ℕ, zero, suc, ◌+◌, ◌-◌, ◌*◌, ◌/◌, ◌%◌, ◌^◌, Bool, true, false, ◌||◌, ◌&&◌, not, String, min, max,
}
use crates.Prelude.{
  List, [], ◌∷◌, ◌++◌, map, Option, none, some, ltb, leb, ◌==◌, if◌then◌else◌, length,
}
use crates.Prelude.Search.{find, any, retain, modify_first}
use crates.Prelude.Bytes.{bytes_eq}
use crates.Core.Runtime.{
  PhysicalLayout, GenerationState, PhysicalGeneration, DerivedArtifactRef, SegmentDescriptorV2,
  DatabaseManifest, is_quarantined, is_superseded, has_authority, identified, canonical_authorities,
}
use crates.V6.Pins.{PinRegistry, count}
use crates.V6.Error.{V6Result, ok, err, corrupt, plan_takes_authority, plan_takes_active}

unfoldable pub hlc_millis : ℕ → ℕ
hlc_millis hlc = hlc / 2 ^ 16

abbrev pub canonical_codec_legacy : ℕ
canonical_codec_legacy = 0

pub record GcOptions : Type 0 where
  pub now_hlc : ℕ
  pub keep_manifests : ℕ
  pub collect_quarantined : Bool

pub data GcBlockReason : Type 0 where
  not_superseded legal_hold last_canonical_authority : GcBlockReason
  reader_pinned : ℕ → GcBlockReason
  grace_period : ℕ → GcBlockReason
  insufficient_verified_copies : ℕ → ℕ → GcBlockReason
  quarantined legacy_original_preserved : GcBlockReason

pub record GcCandidate : Type 0 where
  pub segment_id : ℕ
  pub generation : ℕ
  pub location : String
  pub physical_size : ℕ
  pub layout : PhysicalLayout

pub record GcBlocked : Type 0 where
  pub segment_id : ℕ
  pub generation : ℕ
  pub location : String
  pub reason : GcBlockReason

pub data ArtifactKind : Type 0 where
  hrki parquet : ArtifactKind

pub record StaleArtifact : Type 0 where
  pub segment_id : ℕ
  pub location : String
  pub size : ℕ
  pub kind : ArtifactKind

pub record GcPlan : Type 0 where
  pub generations : List GcCandidate
  pub blocked : List GcBlocked
  pub stale_artifacts : List StaleArtifact

max_copies : List PhysicalGeneration → ℕ
max_copies [] = 0
max_copies (g ∷ gs) = max g.verified_copies (max_copies gs)

-- The most verified copies among the other authorities of the segment.
unfoldable pub melhor_contagem : SegmentDescriptorV2 → ℕ → ℕ
unfolding max_copies
melhor_contagem s excluir =
    max_copies (retain (λ g. not (g.generation == excluir) && has_authority g) s.generations)

-- `u64::saturating_mul(1_000)`.
abbrev saturating_thousand : ℕ → ℕ
saturating_thousand n = min (n * 1000) (2 ^ 64 - 1)

unfoldable pub grace_remaining : ℕ → ℕ → ℕ → Option ℕ
unfolding hlc_millis
grace_remaining superseded_hlc now_hlc grace_seconds =
    if superseded_hlc == 0
    then some grace_seconds
    else (let decorrido_ms = hlc_millis now_hlc - hlc_millis superseded_hlc in
        let necessario_ms = saturating_thousand grace_seconds in
        if leb necessario_ms decorrido_ms
        then none
        else some ((necessario_ms - decorrido_ms + 999) / 1000))

pub contains : List ℕ → ℕ → Bool
contains ns n = any (λ m. m == n) ns

pub authority_numbers : SegmentDescriptorV2 → List ℕ
unfolding canonical_authorities
authority_numbers s = map (λ g. g.generation) (canonical_authorities s)

-- The part of the ladder behind the authority test.
block_by_use :
    PinRegistry → GcOptions → SegmentDescriptorV2 → PhysicalGeneration → Option GcBlockReason
unfolding count grace_remaining melhor_contagem
block_by_use pins opts s g =
    let pinned = count pins s.segment_id g.generation in
    if ltb 0 pinned
    then some (reader_pinned pinned)
    else elim (grace_remaining g.superseded_hlc opts.now_hlc s.retention.gc_grace_seconds) [
      | some faltam ↦ some (grace_period faltam)
      | none ↦
          if ltb (melhor_contagem s g.generation) s.retention.min_verified_copies
          then some (
              insufficient_verified_copies (melhor_contagem s g.generation)
                s.retention.min_verified_copies)
          else none
    ]

-- `bloqueio`: why a generation is not collected.
unfoldable pub block_reason :
    PinRegistry → GcOptions → SegmentDescriptorV2 → PhysicalGeneration → Option GcBlockReason
unfolding authority_numbers contains block_by_use
block_reason pins opts s g =
    let autoridades = authority_numbers s in
    if g.generation == s.active_generation
    then some not_superseded
    else if is_quarantined g.state && not opts.collect_quarantined
    then some quarantined
    else if not (is_superseded g.state || is_quarantined g.state)
    then some not_superseded
    else if s.retention.legal_hold
    then some legal_hold
    else if s.retention.preserve_legacy_original
        && (s.canonical_codec == canonical_codec_legacy && g.generation == 0)
    then some legacy_original_preserved
    else if contains autoridades g.generation && leb (length autoridades) 1
    then some last_canonical_authority
    else block_by_use pins opts s g

abbrev candidate : SegmentDescriptorV2 → PhysicalGeneration → GcCandidate
candidate s g = record {
  segment_id = s.segment_id;
  generation = g.generation;
  location = g.location;
  physical_size = g.physical_size;
  layout = g.layout;
}

-- The loop over the generations of one segment: what it appends to the plan.
unfoldable pub plan_generations :
    PinRegistry
    → GcOptions
    → SegmentDescriptorV2
    → List PhysicalGeneration
    → List GcCandidate × List GcBlocked
plan_generations pins opts s [] = ([], [])
plan_generations pins opts s (g ∷ gs) =
    let (candidates, blocked) = plan_generations pins opts s gs in
    elim (block_reason pins opts s g) [
      | none ↦ (candidate s g ∷ candidates, blocked)
      | some reason ↦ (
        candidates,
        record {
          segment_id = s.segment_id;
          generation = g.generation;
          location = g.location;
          reason = reason;
        }
            ∷ blocked,
      )
    ]

stale_artifact : SegmentDescriptorV2 → ArtifactKind → Option DerivedArtifactRef → List StaleArtifact
stale_artifact s kind none = []
stale_artifact s kind (some a) =
    if not (bytes_eq a.logical_root s.logical_root)
    then record { segment_id = s.segment_id; location = a.location; size = a.size; kind = kind }
      ∷ []
    else []

plan_segments : PinRegistry → GcOptions → List SegmentDescriptorV2 → GcPlan
unfolding plan_generations stale_artifact
plan_segments pins opts [] = record { generations = []; blocked = []; stale_artifacts = [] }
plan_segments pins opts (s ∷ ss) =
    let rest = plan_segments pins opts ss in
    let (candidates, blocked) = plan_generations pins opts s s.generations in
    record {
      generations = candidates ++ rest.generations;
      blocked = blocked ++ rest.blocked;
      stale_artifacts =
          stale_artifact s hrki s.hrki
          ++ (stale_artifact s parquet s.parquet ++ rest.stale_artifacts);
    }

unfoldable pub plan_gc : DatabaseManifest → PinRegistry → GcOptions → GcPlan
unfolding plan_segments
plan_gc m pins opts = plan_segments pins opts m.segments_v2

-- The generations of a segment that a plan removes.
unfoldable pub a_remover : GcPlan → SegmentDescriptorV2 → List ℕ
a_remover plan s =
    map (λ c. c.generation) (retain (λ c. c.segment_id == s.segment_id) plan.generations)

check_segments : GcPlan → List SegmentDescriptorV2 → V6Result (Unit {0})
unfolding a_remover contains canonical_authorities
check_segments plan [] = ok tt
check_segments plan (s ∷ ss) =
    let rest = check_segments plan ss in
    let antes = length (canonical_authorities s) in
    let sobram =
      length
        (retain (λ g. not (contains (a_remover plan s) g.generation)) (canonical_authorities s)) in
    if ltb 0 antes && sobram == 0
    then err (corrupt "hrkl v6 gc" plan_takes_authority)
    else if contains (a_remover plan s) s.active_generation
    then err (corrupt "hrkl v6 gc" plan_takes_active)
    else rest

unfoldable pub assert_gc_invariant : DatabaseManifest → GcPlan → V6Result (Unit {0})
unfolding check_segments
assert_gc_invariant m plan = check_segments plan m.segments_v2

drop_generation : GcCandidate → SegmentDescriptorV2 → SegmentDescriptorV2
drop_generation c s = record s {
  generations = retain (λ g. not (g.generation == c.generation)) s.generations;
}

drop_kind : ArtifactKind → SegmentDescriptorV2 → SegmentDescriptorV2
drop_kind ArtifactKind.hrki s = record s { hrki = none }
drop_kind ArtifactKind.parquet s = record s { parquet = none }

drop_artifact : StaleArtifact → SegmentDescriptorV2 → SegmentDescriptorV2
unfolding drop_kind
drop_artifact a s = drop_kind a.kind s

pub remove_candidates : List GcCandidate → List SegmentDescriptorV2 → List SegmentDescriptorV2
unfolding drop_generation
remove_candidates [] ss = ss
remove_candidates (c ∷ cs) ss =
    remove_candidates cs (modify_first (identified c.segment_id) (drop_generation c) ss)

pub remove_artifacts : List StaleArtifact → List SegmentDescriptorV2 → List SegmentDescriptorV2
unfolding drop_artifact
remove_artifacts [] ss = ss
remove_artifacts (a ∷ as') ss =
    remove_artifacts as' (modify_first (identified a.segment_id) (drop_artifact a) ss)

unfoldable pub apply_gc : DatabaseManifest → GcPlan → DatabaseManifest × V6Result (Unit {0})
unfolding assert_gc_invariant remove_candidates remove_artifacts
apply_gc m plan = elim (assert_gc_invariant m plan) [
  | err e ↦ (m, err e)
  | ok _ ↦ (
    record m {
      segments_v2 =
          remove_artifacts plan.stale_artifacts (remove_candidates plan.generations m.segments_v2);
    },
    ok tt,
  )
]
