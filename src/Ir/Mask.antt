-- ===== src/Ir/Mask.antt =====
-- `interpret_mask`: the indices of the rows whose result is true.
use crates.Prelude.{ℕ, ◌+◌, ◌%◌, ◌^◌, ◌≤◌, ◌≡◌, refl, ap, arith}
use crates.Prelude.{true, false, List, [], ◌∷◌, some}
use crates.Prelude.{length}
use crates.Prelude.Outcome.{ok}
use crates.Ir.{Ty, Val, Function, verify}
use crates.Ir.Interpreter.{Floats, ColumnData, as_bool, survivors, interpret_mask}
use crates.Ir.Soundness.{IsSupplied, meaning, interpret-meaning}

-- The indices, without a wrap: those of the true values, the first one first.
abbrev pub true_at : ℕ → List Val → List ℕ
true_at i [] = []
true_at i (Val.bool true ∷ vs) = i ∷ true_at (i + 1) vs
true_at i (Val.bool false ∷ vs) = true_at (i + 1) vs
true_at i (Val.i64 x ∷ vs) = true_at (i + 1) vs
true_at i (Val.f64 x ∷ vs) = true_at (i + 1) vs

survivors-true_at : (i : ℕ) (vs : List Val) → i + length vs ≤ 2 ^ 32 → survivors i vs ≡ true_at i vs
unfolding survivors as_bool
survivors-true_at i [] h = refl
survivors-true_at i (Val.bool true ∷ vs) h =
    let e : i % 2 ^ 32 ≡ i = omega arith in rw (e, survivors-true_at (i + 1) vs (omega arith)) refl
survivors-true_at i (Val.bool false ∷ vs) h = survivors-true_at (i + 1) vs (omega arith)
survivors-true_at i (Val.i64 x ∷ vs) h = survivors-true_at (i + 1) vs (omega arith)
survivors-true_at i (Val.f64 x ∷ vs) h = survivors-true_at (i + 1) vs (omega arith)

-- On a verified function and at most 2 ^ 32 supplied rows, the mask is the ascending list of the rows
-- in which the function's meaning is true.
pub interpret_mask-true_at :
    (ops : Floats) (f : Function) (types : List Ty) (cols : List ColumnData) (n : ℕ)
    → verify f ≡ ok types
    → IsSupplied cols n f
    → n ≤ 2 ^ 32
    → (out : List Val) × (meaning ops cols f 0 n ≡ some out)
      × (interpret_mask ops f cols n ≡ some (ok (true_at 0 out)))
unfolding interpret_mask
interpret_mask-true_at ops f types cols n h s b =
    let (out, p, q, l, _) = interpret-meaning ops cols n f types h s in
    (out, q, rw p (ap (λ (z : List ℕ). some (ok z)) (survivors-true_at 0 out (omega arith))))
