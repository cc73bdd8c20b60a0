-- ===== src/Ir/Passes/FoldSound.antt =====
-- `constant_fold` of hume-ir/src/passes.rs as a whole, against `verify` and `interpret`.
use crates.Prelude.{ℕ, suc, ◌<◌, ◌+◌, ◌≤◌, ◌≡◌, refl, sym, ap, ◌∙◌, arith}
use crates.Prelude.{
  inl, inr, none-ne-some, some_inj, zero, false, List, [], ◌∷◌, ◌++◌, Option, none, some, leb,
}
use crates.Prelude.{
  length, get_elem?, set, get_elem?-set, get_elem?-append, get_elem?-append_at, All,
}
use crates.Prelude.{length-append, length-set, replicate, length-replicate, get_elem?-replicate}
use crates.Prelude.Outcome.{ok}
use crates.Prelude.Partial.{◌>>=◌}
use crates.Ir.{Ty, Val, Const, const_ty, Op, Inst, Function, op_ty, verify_insts, verify}
use crates.Ir.Interpreter.{Floats, ColumnData, interpret}
use crates.Ir.Typing.{IsFed}
use crates.Ir.Valuation.{verify_insts_inv, verify_insts_cons}
use crates.Ir.Soundness.{IsSupplied, row_value, meaning, interpret-meaning, verify_inv}
use crates.Ir.Passes.{fold_op, folded_op, fold_insts, constant_fold}
use crates.Ir.Passes.FoldValues.{IsKnown, fold_insts-valuation}
use crates.Ir.Passes.FoldTypes.{IsTyped, fold_op-Folds}

module _ (ops : Floats) (nc : ℕ) where
  folded_op-op_ty :
      (types : List Ty) (op : Op) (folded : Option Const) (ty : Ty)
      → op_ty nc types op ≡ ok ty
      → ((c : Const) → folded ≡ some c → const_ty c ≡ ty)
      → op_ty nc types (folded_op op folded) ≡ ok ty
  unfolding folded_op
  folded_op-op_ty types op none ty h same = h
  folded_op-op_ty types op (some c) ty h same = unfold op_ty in ap ok (same c refl)

  IsTyped-set :
      (known : List (Option Const)) (types : List Ty) (i : ℕ) (folded : Option Const) (ty : Ty)
      → i ≡ length types
      → IsTyped known types
      → ((c : Const) → folded ≡ some c → const_ty c ≡ ty)
      → IsTyped (set known i folded) (types ++ (ty ∷ []))
  IsTyped-set known types i folded ty l k h j c e =
      elim (get_elem?-set known i j (some c) folded e) [
        | inl (m, p) ↦ rw (sym m, l) (get_elem?-append_at types [] ty ∙ ap some (sym (h c p)))
        | inr p ↦ get_elem?-append types (ty ∷ []) j (const_ty c) (k j c p)
      ]

  fold_insts_cons :
      (i : ℕ) (known : List (Option Const)) (inst : Inst) (insts rest : List Inst)
      (folded : Option Const)
      → fold_op ops known inst.op ≡ some folded
      → fold_insts ops (i + 1) (set known i folded) insts ≡ some rest
      → fold_insts ops i known (inst ∷ insts)
        ≡ some (record { result = i; op = folded_op inst.op folded } ∷ rest)
  unfolding fold_insts
  fold_insts_cons i known inst insts rest folded p q = rw p (rw q refl)

  folded_op-IsFed :
      (cols : List ColumnData) (n : ℕ) (op : Op) (folded : Option Const)
      → IsFed cols n op
      → IsFed cols n (folded_op op folded)
  unfolding folded_op
  folded_op-IsFed cols n op none h = h
  folded_op-IsFed cols n op (some c) h = tt

  -- The pass over verified instructions.
  fold_insts-verify_insts :
      (i : ℕ) (known : List (Option Const)) (insts : List Inst) (types out : List Ty)
      → i ≡ length types
      → length known ≡ length types + length insts
      → IsTyped known types
      → verify_insts nc types insts ≡ ok out
      → (insts' : List Inst) × (fold_insts ops i known insts ≡ some insts')
        × (verify_insts nc types insts' ≡ ok out)
        × ((cols : List ColumnData) (n : ℕ)
            → All (λ (inst : Inst). IsFed cols n inst.op) insts
            → All (λ (inst : Inst). IsFed cols n inst.op) insts')
  fold_insts-verify_insts i known [] types out e l t h =
      ([], unfold fold_insts in refl, h, λ (cols : List ColumnData) (n : ℕ) s. s)
  fold_insts-verify_insts i known (inst ∷ insts) types out e l t h =
      let (r, ty, p, q) = verify_insts_inv nc types inst insts out h in
      let (folded, g, same) = fold_op-Folds ops nc known types inst.op ty (omega arith) t p in
      let t' : IsTyped (set known i folded) (types ++ (ty ∷ [])) =
        IsTyped-set known types i folded ty e t same in
      let (rest, a, b, c) =
        fold_insts-verify_insts (i + 1) (set known i folded) insts (types ++ (ty ∷ [])) out
          (omega (arith, length-append types (ty ∷ [])))
          (omega (arith, length-append types (ty ∷ []), length-set known i folded)) t' q in
      (
        record { result = i; op = folded_op inst.op folded } ∷ rest,
        fold_insts_cons i known inst insts rest folded g a,
        verify_insts_cons nc types out record { result = i; op = folded_op inst.op folded } rest ty
            e (folded_op-op_ty types inst.op folded ty p same) b,
        λ (cols : List ColumnData) (n : ℕ) s.
            (folded_op-IsFed cols n inst.op folded s.0, c cols n s.1),
      )

-- Two functions with the same value in each of `n` rows mean the same there.
pub meaning-same :
    (ops : Floats) (cols : List ColumnData) (f g : Function) (n k row : ℕ)
    → ((r : ℕ) → r < n → row_value ops cols g r ≡ row_value ops cols f r)
    → row + k ≤ n
    → meaning ops cols g row k ≡ meaning ops cols f row k
meaning-same ops cols f g n zero row same h = refl
meaning-same ops cols f g n (suc k) row same h =
    rw (same row (omega arith))
      (rw (meaning-same ops cols f g n k (row + 1) same (omega arith)) refl)

-- Two verified functions with the same value in each row are run to the same values.
pub interpret-same :
    (ops : Floats) (cols : List ColumnData) (n : ℕ) (f g : Function) (types types' : List Ty)
    → verify f ≡ ok types
    → verify g ≡ ok types'
    → IsSupplied cols n f
    → IsSupplied cols n g
    → ((r : ℕ) → r < n → row_value ops cols g r ≡ row_value ops cols f r)
    → interpret ops g cols n ≡ interpret ops f cols n
interpret-same ops cols n f g types types' vf vg sf sg same =
    let (out, p, q, _, _) = interpret-meaning ops cols n f types vf sf in
    let (out', p', q', _, _) = interpret-meaning ops cols n g types' vg sg in
    let e : out' ≡ out =
      some_inj (sym q' ∙ meaning-same ops cols f g n n 0 same (omega arith) ∙ q) in
    p' ∙ ap (λ (z : List Val). some (ok z)) e ∙ sym p

module _ (ops : Floats) (f : Function) where
  IsTyped-start : IsTyped (replicate (length f.insts) none) []
  IsTyped-start j c h =
      absurd (none-ne-some (sym (get_elem?-replicate (length f.insts) j none (some c) h)))

  IsKnown-start : IsKnown (replicate (length f.insts) none) []
  IsKnown-start j c h =
      absurd (none-ne-some (sym (get_elem?-replicate (length f.insts) j none (some c) h)))

  -- The folded function, which does not depend on the columns.
  pub constant_fold-verify :
      (types : List Ty)
      → verify f ≡ ok types
      → (g : Function) × (constant_fold ops f ≡ some g)
        × (verify g ≡ ok types)
        × ((cols : List ColumnData) (n : ℕ) → IsSupplied cols n f → IsSupplied cols n g)
        × ((cols : List ColumnData) (row : ℕ) → row_value ops cols g row ≡ row_value ops cols f row)
  constant_fold-verify types h =
      let start = replicate (length f.insts) none in
      let (vi, below) = verify_inv f types h in
      let (insts, a, b, c) =
        fold_insts-verify_insts ops f.n_columns 0 start f.insts [] types refl
          (omega (arith, length-replicate {A = Option Const} (length f.insts) none)) IsTyped-start
          vi in
      let outside : leb (length types) f.ret ≡ false = ground arith in
      (
        record { n_columns = f.n_columns; insts = insts; ret = f.ret },
        unfold constant_fold in rw a refl,
        unfold verify in rw b (rw outside refl),
        c,
        λ (cols : List ColumnData) (row : ℕ).
            ap (λ (vs : Option (List Val)). vs >>= (λ vs. get_elem? vs f.ret))
              (fold_insts-valuation ops cols row 0 start f.insts insts [] refl IsKnown-start a),
      )

  -- `constant_fold` of a verified function does not panic and gives a function of the same types,
  -- which `interpret` runs to the same values, whatever the columns that supply the function.
  pub constant_fold-interpret :
      (types : List Ty) (cols : List ColumnData) (n : ℕ)
      → verify f ≡ ok types
      → IsSupplied cols n f
      → (g : Function) × (constant_fold ops f ≡ some g)
        × (verify g ≡ ok types)
        × (interpret ops g cols n ≡ interpret ops f cols n)
  constant_fold-interpret types cols n h s =
      let (g, a, b, c, d) = constant_fold-verify types h in
      (
        g,
        a,
        b,
        interpret-same ops cols n f g types types h b s (c cols n s) (λ (r : ℕ) l. d cols r),
      )
