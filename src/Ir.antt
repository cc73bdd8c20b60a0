-- ===== src/Ir.antt =====
-- hume-ir/src/lib.rs: scalar expressions as straight-line code in SSA form, and their verifier. An
-- i64 is its 64-bit pattern, an f64 its bits. A value id is a number, and a function has at most
-- 2 ^ 32 instructions, so that `i as ValueId` is the index itself.
pub mod Interpreter
pub mod Typing
pub mod Valuation
pub mod Soundness
pub mod Passes
pub mod Builder
pub mod Mask
mod Tests
use crates.Prelude.{ℕ, ◌+◌, leb, ◌==◌, if◌then◌else◌, Bool, true, false, ◌||◌, not}
use crates.Prelude.{List, [], ◌∷◌, ◌++◌, Option, none, some, length, get_elem?}
use crates.Prelude.Outcome.{Outcome, ok, err, ◌>>=◌}

pub data Ty : Type 0 where
  i64 f64 bool : Ty

pub data Const : Type 0 where
  i64 : ℕ → Const
  f64 : ℕ → Const
  bool : Bool → Const

-- The values of the interpreter.
pub data Val : Type 0 where
  i64 : ℕ → Val
  f64 : ℕ → Val
  bool : Bool → Val

-- `Const::ty`, and `const_ty` of passes.rs.
unfoldable pub const_ty : Const → Ty
const_ty (Const.i64 v) = Ty.i64
const_ty (Const.f64 v) = Ty.f64
const_ty (Const.bool v) = Ty.bool

unfoldable pub to_val : Const → Val
to_val (Const.i64 v) = Val.i64 v
to_val (Const.f64 v) = Val.f64 v
to_val (Const.bool v) = Val.bool v

pub data Op : Type 0 where
  constant : Const → Op
  column : (idx : ℕ) (ty : Ty) → Op
  add sub mul cmp_gt cmp_lt cmp_eq and_op or_op : (a b : ℕ) → Op
  not_op : (a : ℕ) → Op

pub record Inst : Type 0 where
  pub result : ℕ
  pub op : Op

pub record Function : Type 0 where
  pub n_columns : ℕ
  pub insts : List Inst
  pub ret : ℕ

-- What a `TypeMismatch` says.
pub data Detail : Type 0 where
  arithmetic comparison logic negation : Detail

pub data IrError : Type 0 where
  bad_numbering : (index result : ℕ) → IrError
  use_before_def : (at_inst used : ℕ) → IrError
  type_mismatch : (at_inst : ℕ) → Detail → IrError
  column_oob : (at_inst idx n_columns : ℕ) → IrError
  ret_oob : (ret n_values : ℕ) → IrError

-- `==` on types.
unfoldable pub same_ty : Ty → Ty → Bool
same_ty Ty.i64 Ty.i64 = true
same_ty Ty.i64 Ty.f64 = false
same_ty Ty.i64 Ty.bool = false
same_ty Ty.f64 Ty.i64 = false
same_ty Ty.f64 Ty.f64 = true
same_ty Ty.f64 Ty.bool = false
same_ty Ty.bool Ty.i64 = false
same_ty Ty.bool Ty.f64 = false
same_ty Ty.bool Ty.bool = true

-- `types` has an entry for each instruction before this one: the lookup is the test `v >= i`.
unfoldable pub operand_ty : List Ty → ℕ → Outcome IrError Ty
operand_ty types v = elim (get_elem? types v) [
  | none ↦ err (use_before_def (length types) v)
  | some ty ↦ ok ty
]

-- Two operands that are numbers of one type.
unfoldable pub numeric_ty : List Ty → Detail → ℕ → ℕ → Outcome IrError Ty
unfolding operand_ty same_ty
numeric_ty types detail a b = do
  ta ← operand_ty types a
  tb ← operand_ty types b
  if not (same_ty ta tb) || same_ty ta Ty.bool
      then err (type_mismatch (length types) detail)
      else ok ta

unfoldable pub logic_ty : List Ty → ℕ → ℕ → Outcome IrError Ty
unfolding operand_ty same_ty
logic_ty types a b = do
  ta ← operand_ty types a
  tb ← operand_ty types b
  if not (same_ty ta Ty.bool) || not (same_ty tb Ty.bool)
      then err (type_mismatch (length types) logic)
      else ok Ty.bool

unfoldable pub compare_ty : List Ty → ℕ → ℕ → Outcome IrError Ty
unfolding numeric_ty
compare_ty types a b = do ta ← numeric_ty types comparison a b; ok Ty.bool

unfoldable pub not_ty : List Ty → ℕ → Outcome IrError Ty
unfolding operand_ty same_ty
not_ty types a = do
  ta ← operand_ty types a
  if not (same_ty ta Ty.bool) then err (type_mismatch (length types) negation) else ok Ty.bool

unfoldable pub op_ty : ℕ → List Ty → Op → Outcome IrError Ty
unfolding const_ty numeric_ty compare_ty logic_ty not_ty
op_ty n_columns types (constant c) = ok (const_ty c)
op_ty n_columns types (column idx ty) =
    if leb n_columns idx then err (column_oob (length types) idx n_columns) else ok ty
op_ty n_columns types (add a b) = numeric_ty types arithmetic a b
op_ty n_columns types (sub a b) = numeric_ty types arithmetic a b
op_ty n_columns types (mul a b) = numeric_ty types arithmetic a b
op_ty n_columns types (cmp_gt a b) = compare_ty types a b
op_ty n_columns types (cmp_lt a b) = compare_ty types a b
op_ty n_columns types (cmp_eq a b) = compare_ty types a b
op_ty n_columns types (and_op a b) = logic_ty types a b
op_ty n_columns types (or_op a b) = logic_ty types a b
op_ty n_columns types (not_op a) = not_ty types a

-- The loop of `verify` over the instructions.
unfoldable pub verify_insts : ℕ → List Ty → List Inst → Outcome IrError (List Ty)
unfolding op_ty
verify_insts n_columns types [] = ok types
verify_insts n_columns types (inst ∷ insts) =
    if inst.result == length types
    then op_ty n_columns types inst.op >>= (λ ty. verify_insts n_columns (types ++ (ty ∷ [])) insts)
    else err (bad_numbering (length types) inst.result)

unfoldable pub verify : Function → Outcome IrError (List Ty)
unfolding verify_insts
verify f = do
  types ← verify_insts f.n_columns [] f.insts
  if leb (length types) f.ret then err (ret_oob f.ret (length types)) else ok types
