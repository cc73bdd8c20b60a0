-- ===== src/V6/Manifest/Best.antt =====
-- `best`: the `max_by_key` of `quarantine_generation`.
use crates.Prelude.{◌≡◌, ◌⊎◌, inl, inr, arith, sym, true, false}
use crates.Prelude.{List, [], ◌∷◌, none, some, Bool-cases, Option-cases, none-ne-some, some_inj}
use mathlib.Core.Path.{subst}
use crates.Prelude.Search.{In}
use crates.Core.Runtime.{PhysicalGeneration}
use crates.V6.Manifest.{better, best}

best_step :
    (x : PhysicalGeneration) (gs : List PhysicalGeneration) (g : PhysicalGeneration)
    → best (x ∷ gs) ≡ some g
    → ((best gs ≡ none) × (g ≡ x))
      ⊎ ((b : PhysicalGeneration) × (best gs ≡ some b)
          × ((better x b ≡ true) × (g ≡ x) ⊎ (better x b ≡ false) × (g ≡ b)))
unfolding best
best_step x gs g h = elim (Option-cases (best gs)) [
  | inl e ↦ inl (e, sym (some_inj (rw (e, best) at h)))
  | inr (b, e) ↦ elim (Bool-cases (better x b)) [
    | inl t ↦ inr (b, e, inl (t, sym (some_inj (rw (e, best, t) at h))))
    | inr f ↦ inr (b, e, inr (f, sym (some_inj (rw (e, best, f) at h))))
  ]
]

pub best-In : (gs : List PhysicalGeneration) (g : PhysicalGeneration) → best gs ≡ some g → In g gs
unfolding best
best-In [] g h = absurd (none-ne-some h)
best-In (x ∷ gs) g h = elim (best_step x gs g h) [
  | inl (_, e) ↦ inl e
  | inr (b, e, inl (_, k)) ↦ inl k
  | inr (b, e, inr (_, k)) ↦ inr (subst (λ y. In y gs) (sym k) (best-In gs b e))
]

pub best-none :
    (gs : List PhysicalGeneration) (g : PhysicalGeneration) → best gs ≡ none → In g gs → ⊥
unfolding best
best-none [] g h i = i
best-none (x ∷ gs) g h i = cc

better_irrefl : (g : PhysicalGeneration) → better g g ≡ false
unfolding better
better_irrefl g = ground arith

better_trans :
    (x y z : PhysicalGeneration) → better x y ≡ false → better y z ≡ false → better x z ≡ false
unfolding better
better_trans x y z h k = ground arith

better_asym : (x y : PhysicalGeneration) → better x y ≡ true → better y x ≡ false
unfolding better
better_asym x y h = ground arith

-- Nothing in the list is better than the best.
pub best-better :
    (gs : List PhysicalGeneration) (g h : PhysicalGeneration)
    → best gs ≡ some g
    → In h gs
    → better h g ≡ false
unfolding best
best-better [] g h e i = absurd i
best-better (x ∷ gs) g h e i = elim (best_step x gs g e) [
  | inl (n, k) ↦ alone n k i
  | inr (b, n, inl (t, k)) ↦ rw k (first b t (best-better gs b h n) i)
  | inr (b, n, inr (f, k)) ↦ rw k (later b f (best-better gs b h n) i)
]
  where
    alone : best gs ≡ none → g ≡ x → In h (x ∷ gs) → better h g ≡ false
    alone n k (inl j) = rw (k, j) (better_irrefl x)
    alone n k (inr j) = absurd (best-none gs h n j)

    first :
        (b : PhysicalGeneration)
        → better x b ≡ true
        → (In h gs → better h b ≡ false)
        → In h (x ∷ gs)
        → better h x ≡ false
    first b t ih (inl j) = rw j (better_irrefl x)
    first b t ih (inr j) = better_trans h b x (ih j) (better_asym x b t)

    later :
        (b : PhysicalGeneration)
        → better x b ≡ false
        → (In h gs → better h b ≡ false)
        → In h (x ∷ gs)
        → better h b ≡ false
    later b f ih (inl j) = rw j f
    later b f ih (inr j) = ih j
