-- ===== src/V6/Gc/Plan.antt =====
-- `plan_gc`: what is on a plan.
use crates.Prelude.{◌≡◌, ◌↔◌, inl, inr, refl, sym, ap, ◌∙◌}
use mathlib.Core.Path.{subst}
use crates.Prelude.{List, [], ◌∷◌, none, Option-cases}
use crates.Prelude.Search.{In, In-append, In-left, In-right}
use crates.Core.Runtime.{PhysicalGeneration, SegmentDescriptorV2, DatabaseManifest}
use crates.V6.Gc.{
  GcOptions, GcCandidate, block_reason, candidate, plan_generations, plan_segments, plan_gc,
}
use crates.V6.Pins.{PinRegistry}
use crates.V6.Gc.Safety.{IsCollectable, block_reason-IsCollectable}

-- The candidate `c` stands for a generation of `s` that may go.
abbrev pub Chosen :
    PinRegistry → GcOptions → GcCandidate → SegmentDescriptorV2 → List PhysicalGeneration → Type 0
Chosen pins opts c s gs =
    (g : PhysicalGeneration) × In g gs × (c ≡ candidate s g) × (block_reason pins opts s g ≡ none)

plan_generations-Chosen :
    (pins : PinRegistry) (opts : GcOptions) (s : SegmentDescriptorV2) (gs : List PhysicalGeneration)
    (c : GcCandidate)
    → In c (plan_generations pins opts s gs).0
    → Chosen pins opts c s gs
unfolding plan_generations
plan_generations-Chosen pins opts s [] c m = absurd m
plan_generations-Chosen pins opts s (g ∷ gs) c m =
    elim (Option-cases (block_reason pins opts s g)) [
      | inl e ↦
          first e (plan_generations-Chosen pins opts s gs c) (rw (e, In, plan_generations) at m)
      | inr (r, e) ↦
          later (plan_generations-Chosen pins opts s gs c (rw (e, In, plan_generations) at m))
    ]
  where
    later : Chosen pins opts c s gs → Chosen pins opts c s (g ∷ gs)
    later (h, k, e, n) = (h, inr k, e, n)

    first :
        block_reason pins opts s g ≡ none
        → (In c (plan_generations pins opts s gs).0 → Chosen pins opts c s gs)
        → In c (candidate s g ∷ (plan_generations pins opts s gs).0)
        → Chosen pins opts c s (g ∷ gs)
    first n ih (inl e) = (g, inl refl, e, n)
    first n ih (inr k) = later (ih k)

plan_segments-Chosen :
    (pins : PinRegistry) (opts : GcOptions) (ss : List SegmentDescriptorV2) (c : GcCandidate)
    → In c (plan_segments pins opts ss).generations
    → (s : SegmentDescriptorV2) × In s ss × Chosen pins opts c s s.generations
unfolding plan_segments
plan_segments-Chosen pins opts [] c m = absurd m
plan_segments-Chosen pins opts (s ∷ ss) c m = elim (In-append _ _ c m) [
  | inl k ↦ (s, inl refl, plan_generations-Chosen pins opts s s.generations c k)
  | inr k ↦ let (t, j, h) = plan_segments-Chosen pins opts ss c k in (t, inr j, h)
]

In-plan_generations :
    (pins : PinRegistry) (opts : GcOptions) (s : SegmentDescriptorV2) (gs : List PhysicalGeneration)
    (g : PhysicalGeneration)
    → In g gs
    → block_reason pins opts s g ≡ none
    → In (candidate s g) (plan_generations pins opts s gs).0
unfolding plan_generations
In-plan_generations pins opts s [] g i n = absurd i
In-plan_generations pins opts s (x ∷ gs) g (inl e) n =
    let h : block_reason pins opts s x ≡ none = ap (block_reason pins opts s) (sym e) ∙ n in
    rw (h, In, plan_generations) (inl (ap (candidate s) e))
In-plan_generations pins opts s (x ∷ gs) g (inr i) n =
    let ih = In-plan_generations pins opts s gs g i n in
    elim (Option-cases (block_reason pins opts s x)) [
      | inl h ↦ rw (h, In, plan_generations) (inr ih)
      | inr (r, h) ↦ rw (h, In, plan_generations) ih
    ]

In-plan_segments :
    (pins : PinRegistry) (opts : GcOptions) (ss : List SegmentDescriptorV2)
    (s : SegmentDescriptorV2) (g : PhysicalGeneration)
    → In s ss
    → In g s.generations
    → block_reason pins opts s g ≡ none
    → In (candidate s g) (plan_segments pins opts ss).generations
unfolding plan_segments
In-plan_segments pins opts [] s g i j n = absurd i
In-plan_segments pins opts (x ∷ ss) s g (inl e) j n =
    let here = In-plan_generations pins opts s s.generations g j n in
    In-left (plan_generations pins opts x x.generations).0 _ (candidate s g)
      (subst (λ y. In (candidate s g) (plan_generations pins opts y y.generations).0) e here)
In-plan_segments pins opts (x ∷ ss) s g (inr i) j n =
    In-right (plan_generations pins opts x x.generations).0 _ (candidate s g)
      (In-plan_segments pins opts ss s g i j n)

pub plan_gc-IsCollectable :
    (m : DatabaseManifest) (pins : PinRegistry) (opts : GcOptions) (c : GcCandidate)
    → In c (plan_gc m pins opts).generations ↔ (
        (s : SegmentDescriptorV2) × (g : PhysicalGeneration) × In s m.segments_v2
        × In g s.generations
        × (c ≡ candidate s g)
        × IsCollectable pins opts s g)
unfolding plan_gc
plan_gc-IsCollectable m pins opts c = (to, back)
  where
    Found : Type 0
    Found =
        (s : SegmentDescriptorV2) × (g : PhysicalGeneration) × In s m.segments_v2
        × In g s.generations
        × (c ≡ candidate s g)
        × IsCollectable pins opts s g

    to : In c (plan_segments pins opts m.segments_v2).generations → Found
    to k =
        let (s, j, (g, i, e, n)) = plan_segments-Chosen pins opts m.segments_v2 c k in
        (s, g, j, i, e, (block_reason-IsCollectable pins opts s g).0 n)

    back : Found → In c (plan_segments pins opts m.segments_v2).generations
    back (s, g, j, i, e, w) =
        subst (λ d. In d (plan_segments pins opts m.segments_v2).generations) (sym e)
          (In-plan_segments pins opts m.segments_v2 s g j i
            ((block_reason-IsCollectable pins opts s g).1 w))
