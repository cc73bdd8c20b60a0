-- ===== src/Ir/Tests.antt =====
-- The expressions of the unit tests of hume-ir, and the theorems there. The floats of these tests are
-- toy operations on bits.
use crates.Prelude.{ℕ, zero, suc, ◌+◌, ◌*◌, ltb, ◌==◌, ◌<◌, ◌≡◌, ◌≢◌, refl, arith, false}
use crates.Prelude.{List, [], ◌∷◌, some, length, All}
use crates.Prelude.Outcome.{ok, err}
use crates.Ir.{
  Ty, Const, Val, Op, constant, column, add, mul, cmp_gt, cmp_eq, and_op, Inst, Function,
}
use crates.Ir.{bad_numbering, use_before_def, verify}
use crates.Ir.Interpreter.{Floats, ColumnData, interpret, interpret_mask, cell}
use crates.Ir.Soundness.{meaning, IsSupplied, IsResult, interpret-meaning}
use crates.Ir.Typing.{val_ty}
use crates.Ir.Mask.{interpret_mask-true_at, true_at}
use crates.Ir.Builder.{Builder, new, push, finish, IsBuilt, empty, column_built, not_built}
use crates.Ir.Builder.Numbering.{finish-numbering}
use crates.Ir.Builder as Build
use crates.Ir.Passes.{optimize}
use crates.Ir.Passes.Optimize.{optimize-interpret}

abbrev toy : Floats
toy = record {
  fadd = λ x y. x + y;
  fsub = λ x y. x;
  fmul = λ x y. x * y;
  fgt = λ x y. ltb y x;
  flt = λ x y. ltb x y;
  feq = λ x y. x == y;
}

abbrev inst : ℕ → Op → Inst
inst i op = record { result = i; op = op }

-- `(2 + 3) * col0 > 900 && col1 == 5`, with a product that nothing uses.
abbrev score_and_kind : Function
score_and_kind = record {
  n_columns = 2;
  insts =
      inst 0 (constant (Const.i64 2))
      ∷ inst 1 (constant (Const.i64 3))
      ∷ inst 2 (add 0 1)
      ∷ inst 3 (column 0 Ty.i64)
      ∷ inst 4 (mul 2 3)
      ∷ inst 5 (mul 3 3)
      ∷ inst 6 (constant (Const.i64 900))
      ∷ inst 7 (cmp_gt 4 6)
      ∷ inst 8 (column 1 Ty.i64)
      ∷ inst 9 (constant (Const.i64 5))
      ∷ inst 10 (cmp_eq 8 9)
      ∷ inst 11 (and_op 7 10)
      ∷ [];
  ret = 11;
}

abbrev its_types : List Ty
its_types =
    Ty.i64 ∷ Ty.i64 ∷ Ty.i64 ∷ Ty.i64 ∷ Ty.i64 ∷ Ty.i64 ∷ Ty.i64 ∷ Ty.bool ∷ Ty.i64 ∷ Ty.i64
    ∷ Ty.bool ∷ Ty.bool ∷ []

abbrev two_columns : List ColumnData
two_columns = ColumnData.i64 (901 ∷ 5 ∷ []) ∷ ColumnData.i64 (5 ∷ 5 ∷ []) ∷ []

verified : verify score_and_kind ≡ ok its_types
unfolding verify
verified = refl

run_both : interpret_mask toy score_and_kind two_columns 2 ≡ some (ok (0 ∷ []))
unfolding interpret_mask verify
run_both = refl

refused :
    verify record { n_columns = 1; insts = inst 0 (Op.not_op 1) ∷ []; ret = 0 }
    ≡ err (use_before_def 0 1)
unfolding verify
refused = refl

-- The cell of a column, in both rows.
first_fed :
    (row : ℕ)
    → row < 2
    → (v : Val) × (cell (ColumnData.i64 (901 ∷ 5 ∷ [])) row ≡ some v) × (val_ty v ≡ Ty.i64)
unfolding cell
first_fed zero h = (Val.i64 901, refl, refl)
first_fed (suc zero) h = (Val.i64 5, refl, refl)
first_fed (suc (suc row)) h = absurd (omega arith)

second_fed :
    (row : ℕ)
    → row < 2
    → (v : Val) × (cell (ColumnData.i64 (5 ∷ 5 ∷ [])) row ≡ some v) × (val_ty v ≡ Ty.i64)
unfolding cell
second_fed zero h = (Val.i64 5, refl, refl)
second_fed (suc zero) h = (Val.i64 5, refl, refl)
second_fed (suc (suc row)) h = absurd (omega arith)

supplied : IsSupplied two_columns 2 score_and_kind
supplied = (
  tt,
  (
    tt,
    (
      tt,
      (
        λ (row : ℕ) h.
            (let (v, p, q) = first_fed row h in (ColumnData.i64 (901 ∷ 5 ∷ []), v, refl, p, q)),
        (
          tt,
          (
            tt,
            (
              tt,
              (
                tt,
                (
                  λ (row : ℕ) h.
                      (let (v, p, q) = second_fed row h in
                        (ColumnData.i64 (5 ∷ 5 ∷ []), v, refl, p, q)),
                  (tt, (tt, (tt, tt))),
                ),
              ),
            ),
          ),
        ),
      ),
    ),
  ),
)

interpret-meaning_example :
    (out : List Val) × (interpret toy score_and_kind two_columns 2 ≡ some (ok out))
    × (meaning toy two_columns score_and_kind 0 2 ≡ some out)
    × (length out ≡ 2)
    × All (IsResult its_types score_and_kind) out
interpret-meaning_example =
    interpret-meaning toy two_columns 2 score_and_kind its_types verified supplied

interpret_mask-true_at_example :
    (out : List Val) × (meaning toy two_columns score_and_kind 0 2 ≡ some out)
    × (interpret_mask toy score_and_kind two_columns 2 ≡ some (ok (true_at 0 out)))
interpret_mask-true_at_example =
    interpret_mask-true_at toy score_and_kind its_types two_columns 2 verified supplied
      (omega arith)

optimize-interpret_example :
    (g : Function) × (types' : List Ty) × (optimize toy score_and_kind ≡ some g)
    × (verify g ≡ ok types')
    × (interpret toy g two_columns 2 ≡ interpret toy score_and_kind two_columns 2)
optimize-interpret_example =
    optimize-interpret toy score_and_kind its_types two_columns 2 verified supplied

abbrev one_column : Builder
one_column = (Build.column new 0 Ty.i64).0

finish-numbering_example : verify (finish one_column 1 0) ≢ err (bad_numbering 0 0)
finish-numbering_example = finish-numbering one_column 1 0 0 0 (column_built new 0 Ty.i64 empty)

-- A column that is declared i64 and holds f64 passes `verify`, and the sum over it is no number.
abbrev mistyped : Function
mistyped = record {
  n_columns = 1;
  insts = inst 0 (column 0 Ty.i64) ∷ inst 1 (constant (Const.i64 1)) ∷ inst 2 (add 0 1) ∷ [];
  ret = 2;
}

mistyped_verified : verify mistyped ≡ ok (Ty.i64 ∷ Ty.i64 ∷ Ty.i64 ∷ [])
unfolding verify
mistyped_verified = refl

mistyped_sum :
    interpret toy mistyped (ColumnData.f64 (5 ∷ []) ∷ []) 1 ≡ some (ok (Val.bool false ∷ []))
unfolding interpret verify
mistyped_sum = refl
