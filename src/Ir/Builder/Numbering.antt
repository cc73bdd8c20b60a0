-- ===== src/Ir/Builder/Numbering.antt =====
-- The numbers that `Builder` of hume-ir/src/lib.rs gives, as `verify` sees them.
use crates.Prelude.{ℕ, ◌+◌, ◌≡◌, ◌≢◌, refl, ap, ◌∙◌, arith, ◌==◌, if◌then◌else◌, true}
use crates.Prelude.{inl, inr, Option-cases, get_elem?, List, [], ◌∷◌, ◌++◌, length, length-append}
use crates.Prelude.Outcome.{err, ◌>>=◌, Outcome-cases, err_inj}
use crates.Ir.{Ty, Op, Inst, bad_numbering, op_ty, verify_insts, verify, Detail}
use crates.Ir.{operand_ty, numeric_ty, compare_ty, logic_ty, not_ty}
use crates.Ir.Builder.{
  Builder, push, constant, column, add, sub, mul, cmp_gt, cmp_lt, cmp_eq, and, or,
}
use crates.Ir.Builder.{
  not, finish, IsBuilt, empty, constant_built, column_built, add_built, sub_built,
}
use crates.Ir.Builder.{mul_built, cmp_gt_built, cmp_lt_built, cmp_eq_built, and_built, or_built}
use crates.Ir.Builder.{not_built}

-- The instructions are numbered from `i` on, without a gap.
abbrev pub IsDense : ℕ → List Inst → Type 0
IsDense i [] = Unit
IsDense i (inst ∷ insts) = (inst.result ≡ i) × IsDense (i + 1) insts

IsDense-append :
    (i : ℕ) (insts : List Inst) (inst : Inst)
    → IsDense i insts
    → inst.result ≡ i + length insts
    → IsDense i (insts ++ (inst ∷ []))
IsDense-append i [] inst h e = (omega arith, tt)
IsDense-append i (x ∷ insts) inst (h, hs) e =
    (h, IsDense-append (i + 1) insts inst hs (omega arith))

push-IsDense : (b : Builder) (op : Op) → IsDense 0 b.insts → IsDense 0 (push b op).0.insts
unfolding push
push-IsDense b op h =
    IsDense-append 0 b.insts record { result = length b.insts; op = op } h (omega arith)

pub IsBuilt-IsDense : (b : Builder) → IsBuilt b → IsDense 0 b.insts
unfolding constant column add sub mul cmp_gt cmp_lt cmp_eq and or not
IsBuilt-IsDense b empty = tt
IsBuilt-IsDense b (constant_built a c h) = push-IsDense a (Op.constant c) (IsBuilt-IsDense a h)
IsBuilt-IsDense b (column_built a i t h) = push-IsDense a (Op.column i t) (IsBuilt-IsDense a h)
IsBuilt-IsDense b (add_built a x y h) = push-IsDense a (Op.add x y) (IsBuilt-IsDense a h)
IsBuilt-IsDense b (sub_built a x y h) = push-IsDense a (Op.sub x y) (IsBuilt-IsDense a h)
IsBuilt-IsDense b (mul_built a x y h) = push-IsDense a (Op.mul x y) (IsBuilt-IsDense a h)
IsBuilt-IsDense b (cmp_gt_built a x y h) = push-IsDense a (Op.cmp_gt x y) (IsBuilt-IsDense a h)
IsBuilt-IsDense b (cmp_lt_built a x y h) = push-IsDense a (Op.cmp_lt x y) (IsBuilt-IsDense a h)
IsBuilt-IsDense b (cmp_eq_built a x y h) = push-IsDense a (Op.cmp_eq x y) (IsBuilt-IsDense a h)
IsBuilt-IsDense b (and_built a x y h) = push-IsDense a (Op.and_op x y) (IsBuilt-IsDense a h)
IsBuilt-IsDense b (or_built a x y h) = push-IsDense a (Op.or_op x y) (IsBuilt-IsDense a h)
IsBuilt-IsDense b (not_built a x h) = push-IsDense a (Op.not_op x) (IsBuilt-IsDense a h)

-- The verifier's word on an instruction is no word on its number.
module _ (types : List Ty) (index result : ℕ) where
  operand_ty-numbering : (v : ℕ) → operand_ty types v ≢ err (bad_numbering index result)
  unfolding operand_ty
  operand_ty-numbering v h = elim (Option-cases (get_elem? types v)) [
    | inl e ↦ ground arith
    | inr (t, e) ↦ ground arith
  ]

  numeric_ty-numbering :
      (d : Detail) (a b : ℕ) → numeric_ty types d a b ≢ err (bad_numbering index result)
  unfolding numeric_ty
  numeric_ty-numbering d a b h = elim (Outcome-cases (operand_ty types a)) [
    | inl (e, p) ↦ ground (arith, operand_ty-numbering a)
    | inr (ta, p) ↦ elim (Outcome-cases (operand_ty types b)) [
      | inl (e, q) ↦ ground (arith, operand_ty-numbering b)
      | inr (tb, q) ↦ ground arith
    ]
  ]

  logic_ty-numbering : (a b : ℕ) → logic_ty types a b ≢ err (bad_numbering index result)
  unfolding logic_ty
  logic_ty-numbering a b h = elim (Outcome-cases (operand_ty types a)) [
    | inl (e, p) ↦ ground (arith, operand_ty-numbering a)
    | inr (ta, p) ↦ elim (Outcome-cases (operand_ty types b)) [
      | inl (e, q) ↦ ground (arith, operand_ty-numbering b)
      | inr (tb, q) ↦ ground arith
    ]
  ]

  compare_ty-numbering : (a b : ℕ) → compare_ty types a b ≢ err (bad_numbering index result)
  unfolding compare_ty
  compare_ty-numbering a b h = elim (Outcome-cases (numeric_ty types Detail.comparison a b)) [
    | inl (e, p) ↦ ground (arith, numeric_ty-numbering Detail.comparison a b)
    | inr (t, p) ↦ ground arith
  ]

  not_ty-numbering : (a : ℕ) → not_ty types a ≢ err (bad_numbering index result)
  unfolding not_ty
  not_ty-numbering a h = elim (Outcome-cases (operand_ty types a)) [
    | inl (e, p) ↦ ground (arith, operand_ty-numbering a)
    | inr (t, p) ↦ ground arith
  ]

  op_ty-numbering : (nc : ℕ) (op : Op) → op_ty nc types op ≢ err (bad_numbering index result)
  unfolding op_ty
  op_ty-numbering nc (Op.constant c) h = absurd (ground arith)
  op_ty-numbering nc (Op.column idx t) h = absurd (ground arith)
  op_ty-numbering nc (Op.add a b) h = numeric_ty-numbering Detail.arithmetic a b h
  op_ty-numbering nc (Op.sub a b) h = numeric_ty-numbering Detail.arithmetic a b h
  op_ty-numbering nc (Op.mul a b) h = numeric_ty-numbering Detail.arithmetic a b h
  op_ty-numbering nc (Op.cmp_gt a b) h = compare_ty-numbering a b h
  op_ty-numbering nc (Op.cmp_lt a b) h = compare_ty-numbering a b h
  op_ty-numbering nc (Op.cmp_eq a b) h = compare_ty-numbering a b h
  op_ty-numbering nc (Op.and_op a b) h = logic_ty-numbering a b h
  op_ty-numbering nc (Op.or_op a b) h = logic_ty-numbering a b h
  op_ty-numbering nc (Op.not_op a) h = not_ty-numbering a h

verify_insts_cons :
    (nc : ℕ) (types : List Ty) (inst : Inst) (insts : List Inst)
    → verify_insts nc types (inst ∷ insts) ≡ (
        if inst.result == length types
        then op_ty nc types inst.op >>= (λ ty. verify_insts nc (types ++ (ty ∷ [])) insts)
        else err (bad_numbering (length types) inst.result))
unfolding verify_insts
verify_insts_cons nc types inst insts = refl

verify_insts-numbering :
    (nc index result : ℕ) (types : List Ty) (insts : List Inst)
    → IsDense (length types) insts
    → verify_insts nc types insts ≢ err (bad_numbering index result)
verify_insts-numbering nc index result types [] d h = unfold verify_insts in absurd (ground arith)
verify_insts-numbering nc index result types (inst ∷ insts) (e, d) h =
    let t : (inst.result == length types) ≡ true = ground arith in
    let h' = rw (verify_insts_cons nc types inst insts, t) at h in
    elim (Outcome-cases (op_ty nc types inst.op)) [
      | inl (x, p) ↦
          op_ty-numbering types index result nc inst.op (p ∙ ap err (err_inj (rw p at h')))
      | inr (ty, p) ↦
          verify_insts-numbering nc index result (types ++ (ty ∷ [])) insts
            (rw (length-append types (ty ∷ [])) d) (rw p at h')
    ]

-- `verify` finds no fault in the numbering of a function that a Builder has made.
pub finish-numbering :
    (b : Builder) (n_columns ret index result : ℕ)
    → IsBuilt b
    → verify (finish b n_columns ret) ≢ err (bad_numbering index result)
unfolding verify finish
finish-numbering b n_columns ret index result built h =
    elim (Outcome-cases (verify_insts n_columns [] b.insts)) [
      | inl (e, p) ↦
          verify_insts-numbering n_columns index result [] b.insts (IsBuilt-IsDense b built)
            (rw p (rw p at h))
      | inr (types, p) ↦ ground arith
    ]
