-- ===== src/Ir/Passes/RenamedTypes.antt =====
-- Operations of hume-ir/src/passes.rs under their new ids, as `verify` sees them.
use crates.Prelude.{ℕ, ◌≡◌, refl, sym, ap, arith, Bool, true, false}
use crates.Prelude.{List, [], ◌∷◌, length, ◌<◌, All, get_elem?-lt}
use crates.Prelude.Outcome.{ok, ok_inj}
use crates.Ir.{Ty, Op, constant, column, add, sub, mul, cmp_gt, cmp_lt, cmp_eq, and_op, or_op}
use crates.Ir.{not_op, Detail, same_ty, operand_ty, numeric_ty, compare_ty, logic_ty, not_ty, op_ty}
use crates.Ir.Typing.{operand_ty_inv, numeric_ty_inv, compare_ty_inv, logic_ty_inv, not_ty_inv}
use crates.Ir.Passes.{operands}
use crates.Ir.Passes.Renaming.{select, rank, IsLive, get_elem?-select, renamed, HasLive}

same_ty_refl : (t : Ty) → same_ty t t ≡ true
unfolding same_ty
same_ty_refl Ty.i64 = refl
same_ty_refl Ty.f64 = refl
same_ty_refl Ty.bool = refl

numeric_ty_ok :
    (types : List Ty) (d : Detail) (a b : ℕ) (ty : Ty)
    → operand_ty types a ≡ ok ty
    → operand_ty types b ≡ ok ty
    → same_ty ty Ty.bool ≡ false
    → numeric_ty types d a b ≡ ok ty
unfolding numeric_ty
numeric_ty_ok types d a b ty p q n = rw (p, q) (rw (same_ty_refl ty, n) refl)

module _ (live : List Bool) (types : List Ty) where
  operand_ty-select :
      (a : ℕ) (ty : Ty)
      → IsLive live a
      → operand_ty types a ≡ ok ty
      → operand_ty (select live types) (rank live a) ≡ ok ty
  unfolding operand_ty
  operand_ty-select a ty l h =
      rw (get_elem?-select live types a ty l (operand_ty_inv types a ty h), operand_ty) refl

  numeric_ty-select :
      (d : Detail) (a b : ℕ) (ty : Ty)
      → IsLive live a
      → IsLive live b
      → numeric_ty types d a b ≡ ok ty
      → numeric_ty (select live types) d (rank live a) (rank live b) ≡ ok ty
  numeric_ty-select d a b ty la lb h =
      let (p, q, n) = numeric_ty_inv types d a b ty h in
      numeric_ty_ok (select live types) d (rank live a) (rank live b) ty
        (operand_ty-select a ty la p) (operand_ty-select b ty lb q) n

  compare_ty-select :
      (a b : ℕ) (ty : Ty)
      → IsLive live a
      → IsLive live b
      → compare_ty types a b ≡ ok ty
      → compare_ty (select live types) (rank live a) (rank live b) ≡ ok ty
  unfolding compare_ty
  compare_ty-select a b ty la lb h =
      let (t, p, q, n, e) = compare_ty_inv types a b ty h in
      rw
        (numeric_ty_ok (select live types) Detail.comparison (rank live a) (rank live b) t
          (operand_ty-select a t la p) (operand_ty-select b t lb q) n)
        (ap ok (sym e))

  logic_ty-select :
      (a b : ℕ) (ty : Ty)
      → IsLive live a
      → IsLive live b
      → logic_ty types a b ≡ ok ty
      → logic_ty (select live types) (rank live a) (rank live b) ≡ ok ty
  unfolding logic_ty
  logic_ty-select a b ty la lb h =
      let (p, q, e) = logic_ty_inv types a b ty h in
      rw (operand_ty-select a Ty.bool la p, operand_ty-select b Ty.bool lb q) (ap ok (sym e))

  not_ty-select :
      (a : ℕ) (ty : Ty)
      → IsLive live a
      → not_ty types a ≡ ok ty
      → not_ty (select live types) (rank live a) ≡ ok ty
  unfolding not_ty
  not_ty-select a ty la h =
      let (p, e) = not_ty_inv types a ty h in rw (operand_ty-select a Ty.bool la p) (ap ok (sym e))

  pub op_ty-renamed :
      (nc : ℕ) (op : Op) (ty : Ty)
      → HasLive live op
      → op_ty nc types op ≡ ok ty
      → op_ty nc (select live types) (renamed live op) ≡ ok ty
  unfolding operands op_ty
  op_ty-renamed nc (constant c) ty k h = ap ok (ok_inj h)
  op_ty-renamed nc (column idx t) ty k h = ground arith
  op_ty-renamed nc (not_op a) ty (p, k) h = not_ty-select a ty p h
  op_ty-renamed nc (add a b) ty (p, (q, k)) h = numeric_ty-select Detail.arithmetic a b ty p q h
  op_ty-renamed nc (sub a b) ty (p, (q, k)) h = numeric_ty-select Detail.arithmetic a b ty p q h
  op_ty-renamed nc (mul a b) ty (p, (q, k)) h = numeric_ty-select Detail.arithmetic a b ty p q h
  op_ty-renamed nc (cmp_gt a b) ty (p, (q, k)) h = compare_ty-select a b ty p q h
  op_ty-renamed nc (cmp_lt a b) ty (p, (q, k)) h = compare_ty-select a b ty p q h
  op_ty-renamed nc (cmp_eq a b) ty (p, (q, k)) h = compare_ty-select a b ty p q h
  op_ty-renamed nc (and_op a b) ty (p, (q, k)) h = logic_ty-select a b ty p q h
  op_ty-renamed nc (or_op a b) ty (p, (q, k)) h = logic_ty-select a b ty p q h

-- The verifier accepts only operands that are there.
module _ (types : List Ty) where
  operand_below : (a : ℕ) (ty : Ty) → operand_ty types a ≡ ok ty → a < length types
  operand_below a ty h = get_elem?-lt types a ty (operand_ty_inv types a ty h)

  numeric_below :
      (d : Detail) (a b : ℕ) (ty : Ty)
      → numeric_ty types d a b ≡ ok ty
      → All (λ (v : ℕ). v < length types) (a ∷ b ∷ [])
  numeric_below d a b ty h =
      let (p, q, n) = numeric_ty_inv types d a b ty h in
      (operand_below a ty p, (operand_below b ty q, tt))

  compare_below :
      (a b : ℕ) (ty : Ty)
      → compare_ty types a b ≡ ok ty
      → All (λ (v : ℕ). v < length types) (a ∷ b ∷ [])
  compare_below a b ty h =
      let (t, p, q, n, e) = compare_ty_inv types a b ty h in
      (operand_below a t p, (operand_below b t q, tt))

  logic_below :
      (a b : ℕ) (ty : Ty)
      → logic_ty types a b ≡ ok ty
      → All (λ (v : ℕ). v < length types) (a ∷ b ∷ [])
  logic_below a b ty h =
      let (p, q, e) = logic_ty_inv types a b ty h in
      (operand_below a Ty.bool p, (operand_below b Ty.bool q, tt))

  pub operands_below :
      (nc : ℕ) (op : Op) (ty : Ty)
      → op_ty nc types op ≡ ok ty
      → All (λ (v : ℕ). v < length types) (operands op)
  unfolding operands op_ty
  operands_below nc (constant c) ty h = tt
  operands_below nc (column idx t) ty h = tt
  operands_below nc (not_op a) ty h =
      let (p, e) = not_ty_inv types a ty h in (operand_below a Ty.bool p, tt)
  operands_below nc (add a b) ty h = numeric_below Detail.arithmetic a b ty h
  operands_below nc (sub a b) ty h = numeric_below Detail.arithmetic a b ty h
  operands_below nc (mul a b) ty h = numeric_below Detail.arithmetic a b ty h
  operands_below nc (cmp_gt a b) ty h = compare_below a b ty h
  operands_below nc (cmp_lt a b) ty h = compare_below a b ty h
  operands_below nc (cmp_eq a b) ty h = compare_below a b ty h
  operands_below nc (and_op a b) ty h = logic_below a b ty h
  operands_below nc (or_op a b) ty h = logic_below a b ty h
