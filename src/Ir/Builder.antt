-- ===== src/Ir/Builder.antt =====
-- `Builder` of hume-ir/src/lib.rs, which numbers the instructions as it takes them.
pub mod Numbering
use crates.Prelude.{ℕ, List, [], ◌∷◌, ◌++◌, length}
use crates.Ir.{Ty, Const, Op, Inst, Function}

pub record Builder : Type 0 where
  pub insts : List Inst

abbrev pub new : Builder
new = record { insts = [] }

unfoldable pub push : Builder → Op → Builder × ℕ
push b op =
    let id = length b.insts in
    (record { insts = b.insts ++ (record { result = id; op = op } ∷ []) }, id)

unfoldable pub constant : Builder → Const → Builder × ℕ
unfolding push
constant b c = push b (Op.constant c)

unfoldable pub column : Builder → ℕ → Ty → Builder × ℕ
unfolding push
column b idx ty = push b (Op.column idx ty)

unfoldable pub add : Builder → ℕ → ℕ → Builder × ℕ
unfolding push
add b x y = push b (Op.add x y)

unfoldable pub sub : Builder → ℕ → ℕ → Builder × ℕ
unfolding push
sub b x y = push b (Op.sub x y)

unfoldable pub mul : Builder → ℕ → ℕ → Builder × ℕ
unfolding push
mul b x y = push b (Op.mul x y)

unfoldable pub cmp_gt : Builder → ℕ → ℕ → Builder × ℕ
unfolding push
cmp_gt b x y = push b (Op.cmp_gt x y)

unfoldable pub cmp_lt : Builder → ℕ → ℕ → Builder × ℕ
unfolding push
cmp_lt b x y = push b (Op.cmp_lt x y)

unfoldable pub cmp_eq : Builder → ℕ → ℕ → Builder × ℕ
unfolding push
cmp_eq b x y = push b (Op.cmp_eq x y)

unfoldable pub and : Builder → ℕ → ℕ → Builder × ℕ
unfolding push
and b x y = push b (Op.and_op x y)

unfoldable pub or : Builder → ℕ → ℕ → Builder × ℕ
unfolding push
or b x y = push b (Op.or_op x y)

unfoldable pub not : Builder → ℕ → Builder × ℕ
unfolding push
not b x = push b (Op.not_op x)

unfoldable pub finish : Builder → ℕ → ℕ → Function
finish b n_columns ret = record { n_columns = n_columns; insts = b.insts; ret = ret }

-- A builder that some calls have filled.
pub data IsBuilt : Builder → Type 0 where
  empty : IsBuilt new
  constant_built : (b : Builder) (c : Const) → IsBuilt b → IsBuilt (constant b c).0
  column_built : (b : Builder) (idx : ℕ) (ty : Ty) → IsBuilt b → IsBuilt (column b idx ty).0
  add_built : (b : Builder) (x y : ℕ) → IsBuilt b → IsBuilt (add b x y).0
  sub_built : (b : Builder) (x y : ℕ) → IsBuilt b → IsBuilt (sub b x y).0
  mul_built : (b : Builder) (x y : ℕ) → IsBuilt b → IsBuilt (mul b x y).0
  cmp_gt_built : (b : Builder) (x y : ℕ) → IsBuilt b → IsBuilt (cmp_gt b x y).0
  cmp_lt_built : (b : Builder) (x y : ℕ) → IsBuilt b → IsBuilt (cmp_lt b x y).0
  cmp_eq_built : (b : Builder) (x y : ℕ) → IsBuilt b → IsBuilt (cmp_eq b x y).0
  and_built : (b : Builder) (x y : ℕ) → IsBuilt b → IsBuilt (and b x y).0
  or_built : (b : Builder) (x y : ℕ) → IsBuilt b → IsBuilt (or b x y).0
  not_built : (b : Builder) (x : ℕ) → IsBuilt b → IsBuilt (not b x).0
