-- ===== src/V6/Manifest/Quarantine.antt =====
-- `quarantine_generation`: what a segment serves after it.
use crates.Prelude.{
  ℕ, ◌≤◌, ◌≡◌, ◌≢◌, inl, inr, refl, arith, ◌∙◌, sym, ap, true, false, ◌==◌, ==_iff, if◌then◌else◌,
}
use crates.Prelude.{List, [], ◌∷◌, none, some, Bool-cases, none-ne-some, some_inj}
use mathlib.Core.Path.{subst}
use crates.Prelude.Search.{In, find, find-In, retain-In, In-retain, modify_first, map-modify_first}
use crates.Prelude.Update.{
  In-modify_first, find-modify_first, find-modify_first_other, length-modify_first,
}
use crates.Prelude.Unique.{IsUnique-find}
use crates.Core.Runtime.{
  PhysicalGeneration, SegmentDescriptorV2, has_authority, is_quarantined, is_packed, active_of,
  generation, numbered, canonical_authorities,
}
use crates.V6.Manifest.{better, best, quarantine, reactivate, with_quarantined, with_active}
use crates.V6.Manifest.Best.{best-In, best-none, best-better}
use crates.V6.SegmentCheck.Coherence.{IsCoherent}
use crates.V6.Manifest.Catalogue.{IsHealthy}

-- A change to generation `n` that keeps its number.
pub find-numbered :
    (n a : ℕ) (f : PhysicalGeneration → PhysicalGeneration) (gs : List PhysicalGeneration)
    (g : PhysicalGeneration)
    → ((h : PhysicalGeneration) → (f h).generation ≡ h.generation)
    → find (numbered a) gs ≡ some g
    → find (numbered a) (modify_first (numbered n) f gs) ≡ some (if a == n then f g else g)
unfolding find modify_first
find-numbered n a f [] g same h = absurd (none-ne-some h)
find-numbered n a f (x ∷ gs) g same h = elim (Bool-cases (x.generation == a)) [
  | inl t ↦ found t (some_inj (rw (t, find) at h))
  | inr u ↦ ground (arith, u, same x, find-numbered n a f gs g same (rw (u, find) at h))
]
  where
    found :
        (x.generation == a) ≡ true
        → x ≡ g
        → find (numbered a) (modify_first (numbered n) f (x ∷ gs))
          ≡ some (if a == n then f g else g)
    found t e = rw (sym e) (ground (arith, t, same x))

-- A change to generation `n` that keeps its number keeps a segment coherent.
pub IsCoherent-modify_first :
    (s : SegmentDescriptorV2) (n : ℕ) (f : PhysicalGeneration → PhysicalGeneration)
    → ((h : PhysicalGeneration) → (f h).generation ≡ h.generation)
    → IsCoherent s
    → IsCoherent (record s { generations = modify_first (numbered n) f s.generations })
unfolding active_of
IsCoherent-modify_first s n f same w = record {
  lsn = w.lsn;
  hlc = w.hlc;
  fits = w.fits;
  unique =
      rw (map-modify_first (λ g. g.generation) (numbered n) f s.generations (λ g _. same g))
        w.unique;
  active = elim w.active [
    | inl z ↦ inl (length-modify_first (numbered n) f s.generations ∙ z)
    | inr (g, e) ↦ inr (_, find-numbered n s.active_generation f s.generations g same e)
  ];
}

-- `a` comes before `h` where one of them has to serve: packed before raw, and of one layout the
-- higher number.
abbrev pub IsPreferred : PhysicalGeneration → PhysicalGeneration → Type 0
IsPreferred a h =
    (is_packed h.layout ≡ true → is_packed a.layout ≡ true)
    × (is_packed h.layout ≡ is_packed a.layout → h.generation ≤ a.generation)

-- `s` is `d` with generation `n` out of service. It serves generation `k`, an authority that is
-- preferred to every other authority that `d` had.
pub record IsFallback (n k : ℕ) (d s : SegmentDescriptorV2) : Type 0 where
  pub other : k ≢ n
  pub serving : s.active_generation ≡ k
  pub held : (h : PhysicalGeneration) × (generation s n ≡ some h) × (is_quarantined h.state ≡ true)
  pub authority :
      (a : PhysicalGeneration) × (active_of s ≡ some a)
      × (has_authority a ≡ true)
      × ((h : PhysicalGeneration)
          → In h d.generations
          → h.generation ≢ n
          → has_authority h ≡ true
          → IsPreferred a h)

IsPreferred-better : (a h : PhysicalGeneration) → better h a ≡ false → IsPreferred a h
unfolding better
IsPreferred-better a h e = ground arith

IsPreferred-reactivate : (a h : PhysicalGeneration) → IsPreferred a h → IsPreferred (reactivate a) h
unfolding reactivate
IsPreferred-reactivate a h p = ground arith

reactivate-generation : (g : PhysicalGeneration) → (reactivate g).generation ≡ g.generation
unfolding reactivate
reactivate-generation g = ground arith

reactivate-has_authority :
    (g : PhysicalGeneration) → has_authority g ≡ true → has_authority (reactivate g) ≡ true
unfolding reactivate
reactivate-has_authority g h = ground arith

quarantine-is_quarantined :
    (now_hlc : ℕ) (g : PhysicalGeneration) → is_quarantined (quarantine now_hlc g).state ≡ true
unfolding quarantine
quarantine-is_quarantined now_hlc g = refl

quarantine_without_authority :
    (now_hlc : ℕ) (g : PhysicalGeneration) → has_authority (quarantine now_hlc g) ≡ false
unfolding quarantine
quarantine_without_authority now_hlc g = refl

module _ (d : SegmentDescriptorV2) (n now_hlc : ℕ) (w : IsCoherent d) (q : PhysicalGeneration)
    (known : generation d n ≡ some q) where
  held-generation : generation (with_quarantined n now_hlc d) n ≡ some (quarantine now_hlc q)
  unfolding generation with_quarantined
  held-generation =
      find-modify_first (numbered n) (quarantine now_hlc) d.generations q known
        (find-In (numbered n) d.generations q known).1

  held-IsCoherent : IsCoherent (with_quarantined n now_hlc d)
  unfolding with_quarantined
  held-IsCoherent = IsCoherent-modify_first d n (quarantine now_hlc) (λ h. refl) w

  held-In :
      (h : PhysicalGeneration)
      → In h d.generations
      → h.generation ≢ n
      → In h (with_quarantined n now_hlc d).generations
  unfolding with_quarantined
  held-In h i apart =
      let (b, j, c) = In-modify_first (numbered n) (quarantine now_hlc) d.generations h i in
      elim c [
        | inl e ↦
            subst (λ y. In y (modify_first (numbered n) (quarantine now_hlc) d.generations)) e j
        | inr (t, _) ↦ absurd (apart ((==_iff h.generation n).0 t))
      ]

  module _ (g : PhysicalGeneration)
      (chosen : best (canonical_authorities (with_quarantined n now_hlc d)) ≡ some g) where
    chosen-In : In g (with_quarantined n now_hlc d).generations × (has_authority g ≡ true)
    unfolding canonical_authorities
    chosen-In = retain-In has_authority _ g (best-In _ g chosen)

    chosen-generation : generation (with_quarantined n now_hlc d) g.generation ≡ some g
    unfolding generation
    chosen-generation = IsUnique-find (λ h. h.generation) _ g held-IsCoherent.unique chosen-In.0

    chosen_other : g.generation ≢ n
    chosen_other same =
        let e = some_inj (
          sym chosen-generation
          ∙ ap (generation (with_quarantined n now_hlc d)) same
          ∙ held-generation) in
        ground (arith, ap has_authority e, chosen-In.1, quarantine_without_authority now_hlc q)

    chosen-IsPreferred :
        (h : PhysicalGeneration)
        → In h d.generations
        → h.generation ≢ n
        → has_authority h ≡ true
        → IsPreferred g h
    unfolding canonical_authorities
    chosen-IsPreferred h i apart auth =
        IsPreferred-better g h
          (best-better _ g h chosen (In-retain has_authority _ h (held-In h i apart) auth))

    -- The best authority serves, and is not the one that is out of service.
    pub best-IsFallback :
        IsFallback n g.generation d (with_active g.generation (with_quarantined n now_hlc d))
    unfolding with_active generation active_of
    best-IsFallback = record {
      other = chosen_other;
      serving = refl;
      held = (
        quarantine now_hlc q,
        find-modify_first_other (numbered g.generation) (numbered n) reactivate _
              (λ x t. ground (arith, t, chosen_other, reactivate-generation x))
            ∙ held-generation,
        quarantine-is_quarantined now_hlc q,
      );
      authority = (
        reactivate g,
        find-modify_first (numbered g.generation) reactivate _ g chosen-generation
            (ground (arith, reactivate-generation g)),
        reactivate-has_authority g chosen-In.1,
        (λ h i apart auth. IsPreferred-reactivate g h (chosen-IsPreferred h i apart auth)),
      );
    }

    pub fallback-IsHealthy : IsHealthy (with_active g.generation (with_quarantined n now_hlc d))
    unfolding with_active with_quarantined
    fallback-IsHealthy =
        let (a, found, serves, _) = best-IsFallback.authority in
        (
          record {
            lsn = w.lsn;
            hlc = w.hlc;
            fits = w.fits;
            unique =
                rw
                  (map-modify_first (λ h. h.generation) (numbered g.generation) reactivate
                    (with_quarantined n now_hlc d).generations (λ h _. reactivate-generation h))
                  held-IsCoherent.unique;
            active = inr (a, found);
          },
          (λ _ _ _. (a, found, serves)),
        )

  -- Without an authority there is none to serve from.
  pub held-IsHealthy :
      best (canonical_authorities (with_quarantined n now_hlc d)) ≡ none
      → IsHealthy (with_quarantined n now_hlc d)
  unfolding canonical_authorities
  held-IsHealthy empty = (
    held-IsCoherent,
    (λ g i auth. absurd (best-none _ g empty (In-retain has_authority _ g i auth))),
  )
