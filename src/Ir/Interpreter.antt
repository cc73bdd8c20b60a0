-- ===== src/Ir/Interpreter.antt =====
-- `interpret` and `interpret_mask` of hume-ir/src/lib.rs. The arithmetic of f64 is the hardware's
-- and a parameter. That of i64 wraps around, as in a build without overflow checks. `none` is a
-- panic: an index that is out of bounds.
use crates.Prelude.{ℕ, zero, suc, ◌+◌, ◌-◌, ◌*◌, ◌%◌, ◌^◌, ltb, ◌==◌, if◌then◌else◌}
use crates.Prelude.{Bool, false, ◌&&◌, ◌||◌, not, List, [], ◌∷◌, Option, none, some}
use crates.Prelude.{length, get_elem?, set, replicate}
use crates.Prelude.Partial.{◌>>=◌}
use crates.Prelude.Outcome.{Outcome, ok, err}
use crates.Ir.{Val, to_val, Op, constant, column, add, sub, mul, cmp_gt, cmp_lt, cmp_eq}
use crates.Ir.{and_op, or_op, not_op, Inst, Function, IrError, verify}

-- The operations on f64, on their bits.
pub record Floats : Type 0 where
  pub fadd : ℕ → ℕ → ℕ
  pub fsub : ℕ → ℕ → ℕ
  pub fmul : ℕ → ℕ → ℕ
  pub fgt : ℕ → ℕ → Bool
  pub flt : ℕ → ℕ → Bool
  pub feq : ℕ → ℕ → Bool

pub data ColumnData : Type 0 where
  i64 : List ℕ → ColumnData
  f64 : List ℕ → ColumnData

unfoldable pub as_bool : Val → Bool
as_bool (Val.i64 v) = false
as_bool (Val.f64 v) = false
as_bool (Val.bool v) = v

-- `ColumnData::get`.
unfoldable pub cell : ColumnData → ℕ → Option Val
cell (ColumnData.i64 s) row = get_elem? s row >>= (λ v. some (Val.i64 v))
cell (ColumnData.f64 s) row = get_elem? s row >>= (λ v. some (Val.f64 v))

unfoldable pub arith_op : (ℕ → ℕ → ℕ) → (ℕ → ℕ → ℕ) → Val → Val → Val
arith_op fi ff (Val.i64 x) (Val.i64 y) = Val.i64 (fi x y)
arith_op fi ff (Val.f64 x) (Val.f64 y) = Val.f64 (ff x y)
arith_op fi ff a b = Val.bool false

unfoldable pub compare_op : (ℕ → ℕ → Bool) → (ℕ → ℕ → Bool) → Val → Val → Val
compare_op fi ff (Val.i64 x) (Val.i64 y) = Val.bool (fi x y)
compare_op fi ff (Val.f64 x) (Val.f64 y) = Val.bool (ff x y)
compare_op fi ff a b = Val.bool false

-- The operators of i64, on two's complement patterns.
abbrev pub iadd : ℕ → ℕ → ℕ
iadd x y = (x + y) % 2 ^ 64

abbrev pub isub : ℕ → ℕ → ℕ
isub x y = (x + (2 ^ 64 - y)) % 2 ^ 64

abbrev pub imul : ℕ → ℕ → ℕ
imul x y = x * y % 2 ^ 64

abbrev pub ilt : ℕ → ℕ → Bool
ilt x y = ltb ((x + 2 ^ 63) % 2 ^ 64) ((y + 2 ^ 63) % 2 ^ 64)

abbrev pub igt : ℕ → ℕ → Bool
igt x y = ilt y x

abbrev pub ieq : ℕ → ℕ → Bool
ieq x y = x == y

-- An instruction that reads two values of the environment.
unfoldable pub binary : List Val → ℕ → ℕ → (Val → Val → Val) → Option Val
binary env a b f = do x ← get_elem? env a; y ← get_elem? env b; some (f x y)

abbrev pub and_val : Val → Val → Val
and_val x y = Val.bool (as_bool x && as_bool y)

abbrev pub or_val : Val → Val → Val
or_val x y = Val.bool (as_bool x || as_bool y)

-- `env[inst.result as usize] = v`.
unfoldable pub store_value : List Val → ℕ → Val → Option (List Val)
store_value env i v = if ltb i (length env) then some (set env i v) else none

unfoldable pub survivors : ℕ → List Val → List ℕ
unfolding as_bool
survivors i [] = []
survivors i (v ∷ vs) =
    let rest = survivors (i + 1) vs in if as_bool v then (i % 2 ^ 32) ∷ rest else rest

module _ (ops : Floats) where
  unfoldable pub eval_op : List ColumnData → ℕ → List Val → Op → Option Val
  unfolding cell arith_op compare_op binary as_bool to_val
  eval_op cols row env (constant c) = some (to_val c)
  eval_op cols row env (column idx ty) = get_elem? cols idx >>= (λ col. cell col row)
  eval_op cols row env (add a b) = binary env a b (arith_op iadd ops.fadd)
  eval_op cols row env (sub a b) = binary env a b (arith_op isub ops.fsub)
  eval_op cols row env (mul a b) = binary env a b (arith_op imul ops.fmul)
  eval_op cols row env (cmp_gt a b) = binary env a b (compare_op igt ops.fgt)
  eval_op cols row env (cmp_lt a b) = binary env a b (compare_op ilt ops.flt)
  eval_op cols row env (cmp_eq a b) = binary env a b (compare_op ieq ops.feq)
  eval_op cols row env (and_op a b) = binary env a b and_val
  eval_op cols row env (or_op a b) = binary env a b or_val
  eval_op cols row env (not_op a) = get_elem? env a >>= (λ x. some (Val.bool (not (as_bool x))))

  -- The loop over the instructions of a row.
  unfoldable pub eval_insts : List ColumnData → ℕ → List Inst → List Val → Option (List Val)
  unfolding eval_op store_value
  eval_insts cols row [] env = some env
  eval_insts cols row (inst ∷ insts) env = do
    v ← eval_op cols row env inst.op
    env' ← store_value env inst.result v
    eval_insts cols row insts env'

  -- The loop over the rows; the environment of a row is left to the next.
  unfoldable pub eval_rows : List ColumnData → Function → ℕ → ℕ → List Val → Option (List Val)
  unfolding eval_insts
  eval_rows cols f row zero env = some []
  eval_rows cols f row (suc n) env = do
    env' ← eval_insts cols row f.insts env
    v ← get_elem? env' f.ret
    out ← eval_rows cols f (row + 1) n env'
    some (v ∷ out)

  unfoldable pub interpret : Function → List ColumnData → ℕ → Option (Outcome IrError (List Val))
  unfolding eval_rows
  interpret f cols n = elim (verify f) [
    | err e ↦ some (err e)
    | ok types ↦ do
      out ← eval_rows cols f 0 n (replicate (length f.insts) (Val.bool false))
      some (ok out)
  ]

  unfoldable pub interpret_mask : Function → List ColumnData → ℕ → Option (Outcome IrError (List ℕ))
  unfolding interpret survivors
  interpret_mask f cols n = do
    r ← interpret f cols n
    some (elim r [ err e ↦ err e | ok vals ↦ ok (survivors 0 vals) ])
