-- ===== src/V6/Gc/Check.antt =====
-- `assert_gc_invariant`: the second opinion on a plan before it is applied.
use crates.Prelude.{
  ℕ, ◌≡◌, ◌≢◌, ◌<◌, ◌⊎◌, inl, inr, refl, arith, ◌∙◌, sym, ap, true, false, ◌==◌, ==_iff,
}
use crates.Prelude.{List, [], ◌∷◌, Bool-cases, length, not}
use crates.Prelude.Search.{In, In-map, any-In, retain, find-In, retain-In, In-retain}
use crates.Core.Runtime.{
  SegmentDescriptorV2, DatabaseManifest, has_authority, active_of, numbered, canonical_authorities,
}
use crates.V6.Error.{ok}
use crates.V6.Gc.{
  GcOptions, GcPlan, a_remover, contains, check_segments, assert_gc_invariant, plan_gc,
}
use crates.V6.Pins.{PinRegistry}
use crates.V6.Manifest.Catalogue.{IsCatalogue}
use crates.Prelude.Unique.{IsUnique-same}
use crates.V6.Gc.Plan.{plan_gc-IsCollectable}

pub contains-In : (ns : List ℕ) (n : ℕ) → contains ns n ≡ true → In n ns
unfolding contains
contains-In ns n h = let (k, i, e) = any-In (λ k. k == n) ns h in rw ((==_iff k n).0 e) at i

pub In-length : {A : Type 0} → (xs : List A) (a : A) → In a xs → 0 < length xs
In-length [] a m = absurd m
In-length (x ∷ xs) a m = omega arith

pub IsEmpty-or-In : {A : Type 0} → (xs : List A) → (length xs ≡ 0) ⊎ ((a : A) × In a xs)
IsEmpty-or-In [] = inl refl
IsEmpty-or-In (x ∷ xs) = inr (x, inl refl)

-- What the check asks of one segment.
abbrev pub Spares : GcPlan → SegmentDescriptorV2 → Type 0
Spares plan s =
    (contains (a_remover plan s) s.active_generation ≡ false)
    × ((length (canonical_authorities s) ≡ 0)
        ⊎ (0
            < length (
                retain (λ g. not (contains (a_remover plan s) g.generation))
                  (canonical_authorities s))))

check_segments_ok :
    (plan : GcPlan) (ss : List SegmentDescriptorV2)
    → ((s : SegmentDescriptorV2) → In s ss → Spares plan s)
    → check_segments plan ss ≡ ok tt
unfolding check_segments
check_segments_ok plan [] h = refl
check_segments_ok plan (s ∷ ss) h =
    ground (arith, h s (inl refl), check_segments_ok plan ss (λ t k. h t (inr k)))

removed-not_active :
    (m : DatabaseManifest) (pins : PinRegistry) (opts : GcOptions) (s : SegmentDescriptorV2) (n : ℕ)
    → IsCatalogue m
    → In s m.segments_v2
    → In n (a_remover (plan_gc m pins opts) s)
    → n ≢ s.active_generation
unfolding a_remover
removed-not_active m pins opts s n w i k =
    let (c, j, e) = In-map (λ c. c.generation) _ n k in
    let (j', same) =
      retain-In (λ c. c.segment_id == s.segment_id) (plan_gc m pins opts).generations c j in
    let (t, g, it, ig, ec, col) = (plan_gc-IsCollectable m pins opts c).0 j' in
    let id = ap (λ d. d.segment_id) ec in
    let eq =
      IsUnique-same (λ d. d.segment_id) m.segments_v2 t s w.unique it i
        (sym id ∙ (==_iff c.segment_id s.segment_id).0 same) in
    λ bad.
      col.not_active
        (sym (ap (λ d. d.generation) ec) ∙ sym e ∙ bad ∙ sym (ap (λ d. d.active_generation) eq))

active-spared :
    (m : DatabaseManifest) (pins : PinRegistry) (opts : GcOptions) (s : SegmentDescriptorV2)
    → IsCatalogue m
    → In s m.segments_v2
    → contains (a_remover (plan_gc m pins opts) s) s.active_generation ≡ false
active-spared m pins opts s w i =
    elim (Bool-cases (contains (a_remover (plan_gc m pins opts) s) s.active_generation)) [
      | inl t ↦
          absurd (removed-not_active m pins opts s s.active_generation w i (contains-In _ _ t) refl)
      | inr f ↦ f
    ]

plan-Spares :
    (m : DatabaseManifest) (pins : PinRegistry) (opts : GcOptions) (s : SegmentDescriptorV2)
    → IsCatalogue m
    → In s m.segments_v2
    → Spares (plan_gc m pins opts) s
unfolding canonical_authorities active_of
plan-Spares m pins opts s w i = (
  active-spared m pins opts s w i,
  elim (IsEmpty-or-In (canonical_authorities s)) [
    | inl z ↦ inl z
    | inr (g, k) ↦
        let (j, auth) = retain-In has_authority s.generations g k in
        let (a, found, serves) = (w.healthy s i).1 g j auth in
        let (ia, num) = find-In (numbered s.active_generation) s.generations a found in
        inr (
          In-length _ a (
            In-retain _ _ a (In-retain has_authority s.generations a ia serves)
              (ground (arith, num, active-spared m pins opts s w i))))
  ],
)

-- In a catalogue that names each segment once and serves each from an authority, the independent
-- check accepts whatever `plan_gc` proposes: the plan leaves every segment with an authority that
-- segment that had one, and takes no active generation.
pub plan_gc-assert_gc_invariant :
    (m : DatabaseManifest) (pins : PinRegistry) (opts : GcOptions)
    → IsCatalogue m
    → assert_gc_invariant m (plan_gc m pins opts) ≡ ok tt
unfolding assert_gc_invariant
plan_gc-assert_gc_invariant m pins opts w =
    check_segments_ok (plan_gc m pins opts) m.segments_v2 (λ s i. plan-Spares m pins opts s w i)
