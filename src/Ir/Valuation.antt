-- ===== src/Ir/Valuation.antt =====
-- The meaning of the instructions of hume-ir/src/lib.rs without an environment: each adds its value to
-- those before it. Then the environment of `interpret`, left from row to row, against it.
use crates.Prelude.{ℕ, ◌<◌, ◌≡◌, refl, sym, ap, ◌∙◌, arith, ◌==◌}
use crates.Prelude.{inl, inr, Option-cases, Bool-cases, true, ltb, append-nil}
use crates.Prelude.{List, [], ◌∷◌, ◌++◌, map, Option, some, length, get_elem?, All}
use crates.Prelude.{get_elem?-append, set-append_at, map-append}
use crates.Prelude.{length-append, length-map, append_assoc}
use crates.Prelude.Outcome.{ok, Outcome-cases}
use crates.Prelude.Partial.{◌>>=◌}
use crates.Ir.{Ty, Val, Op, constant, column, add, sub, mul, cmp_gt, cmp_lt, cmp_eq, and_op, or_op}
use crates.Ir.{not_op, Inst, op_ty, verify_insts}
use crates.Ir.Interpreter.{Floats, ColumnData, binary, eval_op, store_value, eval_insts}
use crates.Ir.Typing.{val_ty, IsFed, eval_op-typed}

binary-append :
    (env junk : List Val) (a b : ℕ) (f : Val → Val → Val) (v : Val)
    → binary env a b f ≡ some v
    → binary (env ++ junk) a b f ≡ some v
unfolding binary
binary-append env junk a b f v h = elim (Option-cases (get_elem? env a)) [
  | inl p ↦ absurd (ground arith)
  | inr (x, p) ↦ elim (Option-cases (get_elem? env b)) [
    | inl q ↦ absurd (ground arith)
    | inr (y, q) ↦ ground (arith, get_elem?-append env junk a x p, get_elem?-append env junk b y q)
  ]
]

-- What an instruction gives does not depend on what stands behind the values that it reads.
eval_op-append :
    (ops : Floats) (cols : List ColumnData) (row : ℕ) (env junk : List Val) (op : Op) (v : Val)
    → eval_op ops cols row env op ≡ some v
    → eval_op ops cols row (env ++ junk) op ≡ some v
unfolding eval_op
eval_op-append ops cols row env junk (constant c) v h = h
eval_op-append ops cols row env junk (column idx ty) v h = h
eval_op-append ops cols row env junk (add a b) v h = binary-append env junk a b _ v h
eval_op-append ops cols row env junk (sub a b) v h = binary-append env junk a b _ v h
eval_op-append ops cols row env junk (mul a b) v h = binary-append env junk a b _ v h
eval_op-append ops cols row env junk (cmp_gt a b) v h = binary-append env junk a b _ v h
eval_op-append ops cols row env junk (cmp_lt a b) v h = binary-append env junk a b _ v h
eval_op-append ops cols row env junk (cmp_eq a b) v h = binary-append env junk a b _ v h
eval_op-append ops cols row env junk (and_op a b) v h = binary-append env junk a b _ v h
eval_op-append ops cols row env junk (or_op a b) v h = binary-append env junk a b _ v h
eval_op-append ops cols row env junk (not_op a) v h = elim (Option-cases (get_elem? env a)) [
  | inl p ↦ absurd (ground arith)
  | inr (x, p) ↦ ground (arith, get_elem?-append env junk a x p)
]

-- The values of the instructions, after those that are there.
abbrev pub valuation : Floats → List ColumnData → ℕ → List Inst → List Val → Option (List Val)
valuation ops cols row [] vals = some vals
valuation ops cols row (inst ∷ insts) vals =
    eval_op ops cols row vals inst.op >>= (λ v. valuation ops cols row insts (vals ++ (v ∷ [])))

-- A round of the verifier that passes.
pub verify_insts_inv :
    (nc : ℕ) (types : List Ty) (inst : Inst) (insts : List Inst) (out : List Ty)
    → verify_insts nc types (inst ∷ insts) ≡ ok out
    → (inst.result ≡ length types)
      × (ty : Ty) × (op_ty nc types inst.op ≡ ok ty)
      × (verify_insts nc (types ++ (ty ∷ [])) insts ≡ ok out)
unfolding verify_insts
verify_insts_inv nc types inst insts out h = elim (Bool-cases (inst.result == length types)) [
  | inl e ↦ elim (Outcome-cases (op_ty nc types inst.op)) [
    | inl (x, p) ↦ absurd (ground arith)
    | inr (ty, p) ↦ (ground arith, ty, p, ground arith)
  ]
  | inr e ↦ absurd (ground arith)
]

pub verify_insts_cons :
    (nc : ℕ) (types out : List Ty) (inst : Inst) (insts : List Inst) (ty : Ty)
    → inst.result ≡ length types
    → op_ty nc types inst.op ≡ ok ty
    → verify_insts nc (types ++ (ty ∷ [])) insts ≡ ok out
    → verify_insts nc types (inst ∷ insts) ≡ ok out
unfolding verify_insts
verify_insts_cons nc types out inst insts ty e p q =
    let t : (inst.result == length types) ≡ true = ground arith in rw (t, p) q

pub verify_insts_nil :
    (nc : ℕ) (types out : List Ty) → verify_insts nc types [] ≡ ok out → types ≡ out
unfolding verify_insts
verify_insts_nil nc types out h = cc

-- The types of the values so far and of one value more.
pub types-snoc :
    (vals : List Val) (v : Val) (ty : Ty)
    → val_ty v ≡ ty
    → map val_ty vals ++ (ty ∷ []) ≡ map val_ty (vals ++ (v ∷ []))
types-snoc vals v ty e = rw (sym e) (sym (map-append val_ty vals (v ∷ [])))

module _ (ops : Floats) (cols : List ColumnData) (n row nc : ℕ) where
  -- Verified instructions have values, of the verifier's types.
  pub valuation-typed :
      (insts : List Inst) (vals : List Val) (types : List Ty)
      → row < n
      → All (λ (inst : Inst). IsFed cols n inst.op) insts
      → verify_insts nc (map val_ty vals) insts ≡ ok types
      → (vs : List Val) × (valuation ops cols row insts vals ≡ some vs) × (map val_ty vs ≡ types)
  valuation-typed [] vals types r f h = (vals, refl, verify_insts_nil nc (map val_ty vals) types h)
  valuation-typed (inst ∷ insts) vals types r (f, fs) h =
      let (e, ty, p, q) = verify_insts_inv nc (map val_ty vals) inst insts types h in
      let (v, ev, tv) = eval_op-typed ops cols n row nc vals inst.op ty r f p in
      let q' : verify_insts nc (map val_ty (vals ++ (v ∷ []))) insts ≡ ok types =
        ap (λ (t : List Ty). verify_insts nc t insts) (sym (types-snoc vals v ty tv)) ∙ q in
      let (vs, a, b) = valuation-typed insts (vals ++ (v ∷ [])) types r fs q' in (vs, rw ev a, b)

  -- The environment holds the values so far and, behind them, what an earlier row has left.
  pub eval_insts-valuation :
      (insts : List Inst) (vals junk vs : List Val) (types : List Ty)
      → verify_insts nc (map val_ty vals) insts ≡ ok types
      → length junk ≡ length insts
      → row < n
      → All (λ (inst : Inst). IsFed cols n inst.op) insts
      → valuation ops cols row insts vals ≡ some vs
      → eval_insts ops cols row insts (vals ++ junk) ≡ some vs
  unfolding eval_insts store_value
  eval_insts-valuation [] vals [] vs types h l r f e = ap some (append-nil vals) ∙ e
  eval_insts-valuation [] vals (j ∷ junk) vs types h l r f e = absurd (omega arith)
  eval_insts-valuation (inst ∷ insts) vals [] vs types h l r f e = absurd (omega arith)
  eval_insts-valuation (inst ∷ insts) vals (j ∷ junk) vs types h l r (f, fs) e =
      let (k, ty, p, q) = verify_insts_inv nc (map val_ty vals) inst insts types h in
      let (v, ev, tv) = eval_op-typed ops cols n row nc vals inst.op ty r f p in
      let q' : verify_insts nc (map val_ty (vals ++ (v ∷ []))) insts ≡ ok types =
        ap (λ (t : List Ty). verify_insts nc t insts) (sym (types-snoc vals v ty tv)) ∙ q in
      let k' : inst.result ≡ length vals = k ∙ length-map vals val_ty in
      let e' : valuation ops cols row insts (vals ++ (v ∷ [])) ≡ some vs = rw ev at e in
      let rest : eval_insts ops cols row insts ((vals ++ (v ∷ [])) ++ junk) ≡ some vs =
        eval_insts-valuation insts (vals ++ (v ∷ [])) junk vs types q' (omega arith) r fs e' in
      let inside : ltb (length vals) (length (vals ++ (j ∷ junk))) ≡ true =
        ground (arith, length-append vals (j ∷ junk)) in
      let a : eval_op ops cols row (vals ++ (j ∷ junk)) inst.op ≡ some v =
        eval_op-append ops cols row vals (j ∷ junk) inst.op v ev in
      rw a (
        rw (k', inside)
          (rw (set-append_at vals junk j v) (rw (append_assoc vals (v ∷ []) junk) at rest)))
