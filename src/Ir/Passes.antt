-- ===== src/Ir/Passes.antt =====
-- hume-ir/src/passes.rs: constant folding and the elimination of dead code. `none` is a panic: an
-- operand or a result that is no instruction of the function.
pub mod FoldValues
pub mod FoldTypes
pub mod FoldSound
pub mod Renaming
pub mod RenamedTypes
pub mod Liveness
pub mod DeadCode
pub mod Optimize
use crates.Prelude.{
  ℕ, zero, suc, ◌+◌, ◌%◌, ◌^◌, if◌then◌else◌, ltb, Bool, true, false, ◌&&◌, ◌||◌, not,
}
use crates.Prelude.{List, [], ◌∷◌, ◌++◌, Option, none, some, length, get_elem?, set, replicate}
use crates.Prelude.Partial.{◌>>=◌}
use crates.Ir.{Ty, Const, const_ty, same_ty, Op, constant, column, add, sub, mul, cmp_gt, cmp_lt}
use crates.Ir.{cmp_eq, and_op, or_op, not_op, Inst, Function}
use crates.Ir.Interpreter.{Floats, iadd, isub, imul, igt, ilt, ieq}

unfoldable pub fold_arith : (ℕ → ℕ → ℕ) → (ℕ → ℕ → ℕ) → Const → Const → Option Const
fold_arith fi ff (Const.i64 x) (Const.i64 y) = some (Const.i64 (fi x y))
fold_arith fi ff (Const.f64 x) (Const.f64 y) = some (Const.f64 (ff x y))
fold_arith fi ff a b = none

unfoldable pub fold_compare : (ℕ → ℕ → Bool) → (ℕ → ℕ → Bool) → Const → Const → Option Const
fold_compare fi ff (Const.i64 x) (Const.i64 y) = some (Const.bool (fi x y))
fold_compare fi ff (Const.f64 x) (Const.f64 y) = some (Const.bool (ff x y))
fold_compare fi ff a b = none

unfoldable pub fold_logic : (Bool → Bool → Bool) → Const → Const → Option Const
fold_logic f (Const.bool x) (Const.bool y) = some (Const.bool (f x y))
fold_logic f a b = none

unfoldable pub fold_not : Option Const → Option Const
fold_not (some (Const.bool x)) = some (Const.bool (not x))
fold_not c = none

-- `.filter(|_| const_ty(a) == const_ty(b))`.
unfoldable pub same_typed : Const → Const → Option Const → Option Const
unfolding const_ty same_ty
same_typed a b folded = if same_ty (const_ty a) (const_ty b) then folded else none

unfoldable pub folded_op : Op → Option Const → Op
folded_op op (some c) = constant c
folded_op op none = op

module _ (ops : Floats) where
  unfoldable pub fold_pair : Op → Const → Const → Option Const
  unfolding fold_arith fold_compare fold_logic
  fold_pair (add _ _) a b = fold_arith iadd ops.fadd a b
  fold_pair (sub _ _) a b = fold_arith isub ops.fsub a b
  fold_pair (mul _ _) a b = fold_arith imul ops.fmul a b
  fold_pair (cmp_gt _ _) a b = fold_compare igt ops.fgt a b
  fold_pair (cmp_lt _ _) a b = fold_compare ilt ops.flt a b
  fold_pair (cmp_eq _ _) a b = fold_compare ieq ops.feq a b
  fold_pair (and_op _ _) a b = fold_logic (λ x y. x && y) a b
  fold_pair (or_op _ _) a b = fold_logic (λ x y. x || y) a b
  fold_pair (constant _) a b = none
  fold_pair (column _ _) a b = none
  fold_pair (not_op _) a b = none

  unfoldable pub fold_binop : Op → Const → Const → Option Const
  unfolding fold_pair same_typed
  fold_binop op a b = same_typed a b (fold_pair op a b)

  unfoldable pub both_known : Op → Option Const → Option Const → Option Const
  unfolding fold_binop
  both_known op (some x) (some y) = fold_binop op x y
  both_known op (some x) none = none
  both_known op none y = none

  unfoldable pub fold_binary : List (Option Const) → Op → ℕ → ℕ → Option (Option Const)
  unfolding both_known
  fold_binary known op a b = do
    x ← get_elem? known a
    y ← get_elem? known b
    some (both_known op x y)

  -- `folded` of an instruction.
  unfoldable pub fold_op : List (Option Const) → Op → Option (Option Const)
  unfolding fold_binary fold_not
  fold_op known (constant c) = some (some c)
  fold_op known (column idx ty) = some none
  fold_op known (not_op a) = get_elem? known a >>= (λ x. some (fold_not x))
  fold_op known (add a b) = fold_binary known (add a b) a b
  fold_op known (sub a b) = fold_binary known (sub a b) a b
  fold_op known (mul a b) = fold_binary known (mul a b) a b
  fold_op known (cmp_gt a b) = fold_binary known (cmp_gt a b) a b
  fold_op known (cmp_lt a b) = fold_binary known (cmp_lt a b) a b
  fold_op known (cmp_eq a b) = fold_binary known (cmp_eq a b) a b
  fold_op known (and_op a b) = fold_binary known (and_op a b) a b
  fold_op known (or_op a b) = fold_binary known (or_op a b) a b

  -- The loop of `constant_fold`, at instruction `i`.
  unfoldable pub fold_insts : ℕ → List (Option Const) → List Inst → Option (List Inst)
  unfolding fold_op folded_op
  fold_insts i known [] = some []
  fold_insts i known (inst ∷ insts) = do
    folded ← fold_op known inst.op
    rest ← fold_insts (i + 1) (set known i folded) insts
    some (record { result = i; op = folded_op inst.op folded } ∷ rest)

  unfoldable pub constant_fold : Function → Option Function
  unfolding fold_insts
  constant_fold f = do
    insts ← fold_insts 0 (replicate (length f.insts) none) f.insts
    some record { n_columns = f.n_columns; insts = insts; ret = f.ret }

unfoldable pub operands : Op → List ℕ
operands (constant c) = []
operands (column idx ty) = []
operands (not_op a) = a ∷ []
operands (add a b) = a ∷ b ∷ []
operands (sub a b) = a ∷ b ∷ []
operands (mul a b) = a ∷ b ∷ []
operands (cmp_gt a b) = a ∷ b ∷ []
operands (cmp_lt a b) = a ∷ b ∷ []
operands (cmp_eq a b) = a ∷ b ∷ []
operands (and_op a b) = a ∷ b ∷ []
operands (or_op a b) = a ∷ b ∷ []

-- `live[op as usize] = true`.
unfoldable pub mark : List Bool → ℕ → Option (List Bool)
mark live v = if ltb v (length live) then some (set live v true) else none

unfoldable pub mark_all : List Bool → List ℕ → Option (List Bool)
unfolding mark
mark_all live [] = some live
mark_all live (v ∷ vs) = mark live v >>= (λ live'. mark_all live' vs)

-- A round of the backward loop: an instruction that is live makes its operands live.
unfoldable pub mark_operands : List Bool → ℕ → Inst → Option (List Bool)
unfolding mark_all operands
mark_operands live i inst = do
  l ← get_elem? live i
  if l then mark_all live (operands inst.op) else some live

-- The backward loop: the instructions from `i` on, the last one first.
unfoldable pub mark_live : List Bool → ℕ → List Inst → Option (List Bool)
unfolding mark_operands
mark_live live i [] = some live
mark_live live i (inst ∷ insts) = do
  live' ← mark_live live (i + 1) insts
  mark_operands live' i inst

-- The new ids: a live instruction takes the next one, and a dead one keeps 0.
unfoldable pub remap_from : ℕ → List Bool → List ℕ
remap_from next [] = []
remap_from next (true ∷ live) = next ∷ remap_from (next + 1) live
remap_from next (false ∷ live) = 0 ∷ remap_from next live

unfoldable pub remap_two : (ℕ → ℕ → Op) → List ℕ → ℕ → ℕ → Option Op
remap_two op remap a b = do x ← get_elem? remap a; y ← get_elem? remap b; some (op x y)

unfoldable pub remap_op : Op → List ℕ → Option Op
unfolding remap_two
remap_op (constant c) remap = some (constant c)
remap_op (column idx ty) remap = some (column idx ty)
remap_op (not_op a) remap = get_elem? remap a >>= (λ x. some (not_op x))
remap_op (add a b) remap = remap_two add remap a b
remap_op (sub a b) remap = remap_two sub remap a b
remap_op (mul a b) remap = remap_two mul remap a b
remap_op (cmp_gt a b) remap = remap_two cmp_gt remap a b
remap_op (cmp_lt a b) remap = remap_two cmp_lt remap a b
remap_op (cmp_eq a b) remap = remap_two cmp_eq remap a b
remap_op (and_op a b) remap = remap_two and_op remap a b
remap_op (or_op a b) remap = remap_two or_op remap a b

-- The live instructions under their new ids; `live` and `ids` are read along with `insts`.
unfoldable pub rebuild : List ℕ → List Bool → List ℕ → List Inst → Option (List Inst)
unfolding remap_op
rebuild remap live ids [] = some []
rebuild remap (true ∷ live) (id ∷ ids) (inst ∷ insts) = do
  op ← remap_op inst.op remap
  rest ← rebuild remap live ids insts
  some (record { result = id; op = op } ∷ rest)
rebuild remap (false ∷ live) (id ∷ ids) (inst ∷ insts) = rebuild remap live ids insts
rebuild remap [] ids (inst ∷ insts) = none
rebuild remap (l ∷ live) [] (inst ∷ insts) = none

unfoldable pub dead_code_elimination : Function → Option Function
unfolding mark mark_live remap_from rebuild
dead_code_elimination f = do
  start ← mark (replicate (length f.insts) false) f.ret
  live ← mark_live start 0 f.insts
  insts ← rebuild (remap_from 0 live) live (remap_from 0 live) f.insts
  ret ← get_elem? (remap_from 0 live) f.ret
  some record { n_columns = f.n_columns; insts = insts; ret = ret }

unfoldable pub optimize : Floats → Function → Option Function
unfolding constant_fold dead_code_elimination
optimize ops f = constant_fold ops f >>= dead_code_elimination
