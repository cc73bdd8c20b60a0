-- ===== src/V6/Gc/Copies.antt =====
-- heraclitus-log/src/v6/gc.rs: the counts of `plan_gc` over the generations of a segment.
use crates.Prelude.{ℕ, zero, suc, ◌≡◌, ◌≢◌, ◌≤◌, ◌↔◌, ◌⊎◌, inl, inr, refl, arith, ◌==◌, ==_iff, not}
use crates.Prelude.{List, [], ◌∷◌, true, false, ◌&&◌, max, Bool-cases, leb, length, length-map}
use crates.Prelude.{map, sym, ◌∙◌, ap}
use crates.Prelude.Search.{In, any-In, In-any, In-map, retain-In, In-retain}
use crates.Core.Runtime.{
  PhysicalGeneration, SegmentDescriptorV2, has_authority, canonical_authorities,
}
use crates.V6.Gc.{max_copies, melhor_contagem, contains, authority_numbers}

-- Another authority of the segment than the generation `n` has `k` verified copies.
abbrev pub CopiedElsewhere : SegmentDescriptorV2 → ℕ → ℕ → Type 0
CopiedElsewhere s n k =
    (h : PhysicalGeneration) × In h s.generations
    × (h.generation ≢ n)
    × (has_authority h ≡ true)
    × (k ≤ h.verified_copies)

abbrev Copied : ℕ → List PhysicalGeneration → Type 0
Copied k gs = (h : PhysicalGeneration) × In h gs × (k ≤ h.verified_copies)

either : (k a b : ℕ) → k ≤ max a b → (k ≤ a) ⊎ (k ≤ b)
either k a b h = omega arith

max_copies-Copied :
    (k : ℕ) (gs : List PhysicalGeneration) → suc k ≤ max_copies gs → Copied (suc k) gs
unfolding max_copies
max_copies-Copied k [] h = absurd (omega arith)
max_copies-Copied k (g ∷ gs) h = elim (either (suc k) g.verified_copies (max_copies gs) h) [
  | inl a ↦ (g, inl refl, a)
  | inr b ↦ let (x, i, c) = max_copies-Copied k gs b in (x, inr i, c)
]

Copied-max_copies :
    (k : ℕ) (gs : List PhysicalGeneration) (h : PhysicalGeneration)
    → In h gs
    → k ≤ h.verified_copies
    → k ≤ max_copies gs
unfolding max_copies
Copied-max_copies k [] h i c = absurd i
Copied-max_copies k (g ∷ gs) h (inl e) c = let same = ap (λ x. x.verified_copies) e in omega arith
Copied-max_copies k (g ∷ gs) h (inr i) c = let rest = Copied-max_copies k gs h i c in omega arith

other_authority :
    (n : ℕ) (h : PhysicalGeneration)
    → ((not (h.generation == n) && has_authority h) ≡ true)
      ↔ ((h.generation ≢ n) × (has_authority h ≡ true))
other_authority n h = ground arith

-- `melhor_contagem` reaches `k` where another authority does.
pub melhor_contagem-CopiedElsewhere :
    (s : SegmentDescriptorV2) (n k : ℕ)
    → (k ≤ melhor_contagem s n) ↔ ((k ≡ 0) ⊎ CopiedElsewhere s n k)
unfolding melhor_contagem
melhor_contagem-CopiedElsewhere s n zero = ((λ _. inl refl), (λ _. omega arith))
melhor_contagem-CopiedElsewhere s n (suc k) = (to, back)
  where
    to : suc k ≤ melhor_contagem s n → (suc k ≡ 0) ⊎ CopiedElsewhere s n (suc k)
    to b =
        let (h, i, c) = max_copies-Copied k _ b in
        let (j, t) =
          retain-In (λ g. not (g.generation == n) && has_authority g) s.generations h i in
        let (e, a) = (other_authority n h).0 t in inr (h, j, e, a, c)

    back : (suc k ≡ 0) ⊎ CopiedElsewhere s n (suc k) → suc k ≤ melhor_contagem s n
    back (inl z) = absurd (omega arith)
    back (inr (h, j, e, a, c)) =
        Copied-max_copies (suc k) _ h
          (In-retain (λ g. not (g.generation == n) && has_authority g) s.generations h j
            ((other_authority n h).1 (e, a)))
          c

-- If the generation with the number `n` is an authority, the segment has two at least.
abbrev pub KeepsAuthority : SegmentDescriptorV2 → ℕ → Type 0
KeepsAuthority s n =
    (h : PhysicalGeneration)
    → In h s.generations
    → h.generation ≡ n
    → has_authority h ≡ true
    → 2 ≤ length (canonical_authorities s)

contains-authority :
    (s : SegmentDescriptorV2) (n : ℕ)
    → contains (authority_numbers s) n ≡ true
    → (h : PhysicalGeneration) × In h s.generations × (h.generation ≡ n) × (has_authority h ≡ true)
unfolding contains authority_numbers canonical_authorities
contains-authority s n t =
    let (k, i, e) = any-In (λ k. k == n) (authority_numbers s) t in
    let (h, j, same) = In-map (λ g. g.generation) _ k i in
    let (l, a) = retain-In has_authority s.generations h j in (h, l, sym same ∙ (==_iff k n).0 e, a)

In-mapped :
    (gs : List PhysicalGeneration) (h : PhysicalGeneration)
    → In h gs
    → In h.generation (map (λ g. g.generation) gs)
In-mapped [] h i = absurd i
In-mapped (g ∷ gs) h (inl e) = inl (ap (λ x. x.generation) e)
In-mapped (g ∷ gs) h (inr i) = inr (In-mapped gs h i)

authority-contains :
    (s : SegmentDescriptorV2) (n : ℕ) (h : PhysicalGeneration)
    → In h s.generations
    → h.generation ≡ n
    → has_authority h ≡ true
    → contains (authority_numbers s) n ≡ true
unfolding contains authority_numbers canonical_authorities
authority-contains s n h i e a =
    In-any (λ k. k == n) (authority_numbers s) h.generation
      (In-mapped _ h (In-retain has_authority s.generations h i a)) ((==_iff h.generation n).1 e)

length-authority_numbers :
    (s : SegmentDescriptorV2) → length (authority_numbers s) ≡ length (canonical_authorities s)
unfolding authority_numbers
length-authority_numbers s = length-map (canonical_authorities s) (λ g. g.generation)

pub contains-KeepsAuthority :
    (s : SegmentDescriptorV2) (n : ℕ)
    → ((contains (authority_numbers s) n && leb (length (authority_numbers s)) 1) ≡ false)
      ↔ KeepsAuthority s n
contains-KeepsAuthority s n = (to, back)
  where
    same : length (authority_numbers s) ≡ length (canonical_authorities s)
    same = length-authority_numbers s

    to :
        (contains (authority_numbers s) n && leb (length (authority_numbers s)) 1) ≡ false
        → KeepsAuthority s n
    to f h i e a = ground (arith, f, same, authority-contains s n h i e a)

    back :
        KeepsAuthority s n
        → (contains (authority_numbers s) n && leb (length (authority_numbers s)) 1) ≡ false
    back keeps = elim (Bool-cases (contains (authority_numbers s) n)) [
      | inl t ↦
          let (h, i, e, a) = contains-authority s n t in
          let two = keeps h i e a in ground (arith, same, two)
      | inr f ↦ ground (arith, f)
    ]
