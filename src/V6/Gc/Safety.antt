-- ===== src/V6/Gc/Safety.antt =====
-- heraclitus-log/src/v6/gc.rs: which generation of a segment has no reason to stay.
use crates.Prelude.{ℕ, ◌-◌, ◌*◌, ◌/◌, ◌^◌, ◌≡◌, ◌≢◌, ◌≤◌, ◌↔◌, ◌⊎◌, inl, inr, arith, ◌&&◌}
use crates.Prelude.{none, true, false, Option-cases, leb, length, min}
use crates.Core.Runtime.{PhysicalGeneration, SegmentDescriptorV2, is_quarantined, is_superseded}
use crates.V6.Gc.{
  GcOptions, hlc_millis, grace_remaining, melhor_contagem, block_by_use, block_reason, contains,
  authority_numbers,
}
use crates.V6.Pins.{PinRegistry, count}
use crates.V6.Gc.Copies.{
  CopiedElsewhere, melhor_contagem-CopiedElsewhere, KeepsAuthority, contains-KeepsAuthority,
}

-- Everything that has to hold before a generation of a segment may be collected. The upper 48 bits
-- of a timestamp are milliseconds; a clock that went back counts as no time.
pub record IsCollectable (pins : PinRegistry) (opts : GcOptions) (s : SegmentDescriptorV2)
    (g : PhysicalGeneration) : Type 0 where
  pub not_active : g.generation ≢ s.active_generation
  pub replaced :
      (is_superseded g.state ≡ true)
      ⊎ (is_quarantined g.state ≡ true) × (opts.collect_quarantined ≡ true)
  pub no_hold : s.retention.legal_hold ≡ false
  pub not_original :
      s.retention.preserve_legacy_original ≡ true → s.canonical_codec ≡ 0 → g.generation ≢ 0
  pub keeps : KeepsAuthority s g.generation
  pub unread : count pins s.segment_id g.generation ≡ 0
  pub stamped : g.superseded_hlc ≢ 0
  pub grace_over :
      min (s.retention.gc_grace_seconds * 1000) (2 ^ 64 - 1)
      ≤ opts.now_hlc / 2 ^ 16 - g.superseded_hlc / 2 ^ 16
  pub copies :
      (s.retention.min_verified_copies ≡ 0)
      ⊎ CopiedElsewhere s g.generation s.retention.min_verified_copies

grace_remaining-none :
    (superseded now grace : ℕ)
    → (grace_remaining superseded now grace ≡ none)
      ↔ ((superseded ≢ 0) × (min (grace * 1000) (2 ^ 64 - 1) ≤ now / 2 ^ 16 - superseded / 2 ^ 16))
unfolding grace_remaining hlc_millis
grace_remaining-none superseded now grace = ground arith

block_by_use-none :
    (pins : PinRegistry) (opts : GcOptions) (s : SegmentDescriptorV2) (g : PhysicalGeneration)
    → (block_by_use pins opts s g ≡ none) ↔ (
        (count pins s.segment_id g.generation ≡ 0)
        × (grace_remaining g.superseded_hlc opts.now_hlc s.retention.gc_grace_seconds ≡ none)
        × (s.retention.min_verified_copies ≤ melhor_contagem s g.generation))
unfolding block_by_use
block_by_use-none pins opts s g =
    elim (Option-cases
      (grace_remaining g.superseded_hlc opts.now_hlc s.retention.gc_grace_seconds)) [
        | inl e ↦ ground (arith, e)
        | inr (n, e) ↦ ground (arith, e)
      ]

-- No guard of the ladder before the use of the generation stops it.
abbrev Passes : PinRegistry → GcOptions → SegmentDescriptorV2 → PhysicalGeneration → Type 0
Passes pins opts s g =
    (g.generation ≢ s.active_generation)
    × ((is_superseded g.state ≡ true)
        ⊎ (is_quarantined g.state ≡ true) × (opts.collect_quarantined ≡ true))
    × (s.retention.legal_hold ≡ false)
    × (s.retention.preserve_legacy_original ≡ true → s.canonical_codec ≡ 0 → g.generation ≢ 0)
    × ((contains (authority_numbers s) g.generation && leb (length (authority_numbers s)) 1)
        ≡ false)
    × (block_by_use pins opts s g ≡ none)

block_reason-Passes :
    (pins : PinRegistry) (opts : GcOptions) (s : SegmentDescriptorV2) (g : PhysicalGeneration)
    → block_reason pins opts s g ≡ none
    → Passes pins opts s g
unfolding block_reason
block_reason-Passes pins opts s g h = ground arith

Passes-block_reason :
    (pins : PinRegistry) (opts : GcOptions) (s : SegmentDescriptorV2) (g : PhysicalGeneration)
    → Passes pins opts s g
    → block_reason pins opts s g ≡ none
unfolding block_reason
Passes-block_reason pins opts s g (a, r, h, o, k, u) = ground (arith, a, r, h, o, k, u)

pub block_reason-IsCollectable :
    (pins : PinRegistry) (opts : GcOptions) (s : SegmentDescriptorV2) (g : PhysicalGeneration)
    → (block_reason pins opts s g ≡ none) ↔ IsCollectable pins opts s g
block_reason-IsCollectable pins opts s g = (to, back)
  where
    to : block_reason pins opts s g ≡ none → IsCollectable pins opts s g
    to h =
        let (a, r, l, o, k, u) = block_reason-Passes pins opts s g h in
        let (n, t, c) = (block_by_use-none pins opts s g).0 u in
        let (stamped, over) =
          (grace_remaining-none g.superseded_hlc opts.now_hlc s.retention.gc_grace_seconds).0 t in
        record {
          not_active = a;
          replaced = r;
          no_hold = l;
          not_original = o;
          keeps = (contains-KeepsAuthority s g.generation).0 k;
          unread = n;
          stamped = stamped;
          grace_over = over;
          copies =
              (melhor_contagem-CopiedElsewhere s g.generation s.retention.min_verified_copies).0 c;
        }

    back : IsCollectable pins opts s g → block_reason pins opts s g ≡ none
    back w = Passes-block_reason pins opts s g (
      w.not_active,
      w.replaced,
      w.no_hold,
      w.not_original,
      (contains-KeepsAuthority s g.generation).1 w.keeps,
      (block_by_use-none pins opts s g).1 (
        w.unread,
        (grace_remaining-none g.superseded_hlc opts.now_hlc s.retention.gc_grace_seconds).1
            (w.stamped, w.grace_over),
        (melhor_contagem-CopiedElsewhere s g.generation s.retention.min_verified_copies).1 w.copies,
      ),
    )
