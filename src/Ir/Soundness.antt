-- ===== src/Ir/Soundness.antt =====
-- `interpret` of hume-ir/src/lib.rs on verified functions, against a meaning row by row.
use crates.Prelude.{ℕ, zero, suc, ◌+◌, ◌<◌, ◌≤◌, ◌≡◌, refl, sym, ap, ◌∙◌, arith, leb}
use crates.Prelude.{
  inl, inr, Bool-cases, Option-cases, none-ne-some, length-append, length-replicate, false, List,
  [], ◌∷◌, ◌++◌, Option, some,
}
use crates.Prelude.{
  length, get_elem?, All, replicate, length-map, get_elem?-below, get_elem?-map_inv,
}
use crates.Prelude.Outcome.{ok, Outcome-cases}
use crates.Prelude.Partial.{◌>>=◌}
use crates.Ir.{Ty, Val, Inst, Function, verify_insts, verify}
use crates.Ir.Interpreter.{Floats, ColumnData, eval_op, eval_rows, interpret}
use crates.Ir.Typing.{val_ty, IsFed}
use crates.Ir.Valuation.{valuation, valuation-typed, eval_insts-valuation}

-- A verified function has a type for each instruction, and its result is one of them.
pub verify_inv :
    (f : Function) (types : List Ty)
    → verify f ≡ ok types
    → (verify_insts f.n_columns [] f.insts ≡ ok types) × (f.ret < length types)
unfolding verify
verify_inv f types h = elim (Outcome-cases (verify_insts f.n_columns [] f.insts)) [
  | inl (e, p) ↦ absurd (ground arith)
  | inr (ts, p) ↦ elim (Bool-cases (leb (length ts) f.ret)) [
    | inl q ↦ absurd (ground arith)
    | inr q ↦ ground arith
  ]
]

length-valuation :
    (ops : Floats) (cols : List ColumnData) (row : ℕ) (insts : List Inst) (vals vs : List Val)
    → valuation ops cols row insts vals ≡ some vs
    → length vs ≡ length vals + length insts
length-valuation ops cols row [] vals vs h = ground arith
length-valuation ops cols row (inst ∷ insts) vals vs h =
    elim (Option-cases (eval_op ops cols row vals inst.op)) [
      | inl p ↦ absurd (none-ne-some (rw p at h))
      | inr (v, p) ↦
          let l = length-valuation ops cols row insts (vals ++ (v ∷ [])) vs (rw p at h) in
          omega (arith, length-append vals (v ∷ []), l)
    ]

-- The columns supply what the function loads, over `n` rows.
abbrev pub IsSupplied : List ColumnData → ℕ → Function → Type 0
IsSupplied cols n f = All (λ (inst : Inst). IsFed cols n inst.op) f.insts

abbrev pub row_value : Floats → List ColumnData → Function → ℕ → Option Val
row_value ops cols f row = valuation ops cols row f.insts [] >>= (λ vs. get_elem? vs f.ret)

-- The values of `k` rows from `row` on, each row on its own.
abbrev pub meaning : Floats → List ColumnData → Function → ℕ → ℕ → Option (List Val)
meaning ops cols f row zero = some []
meaning ops cols f row (suc k) =
    row_value ops cols f row >>= (λ v. meaning ops cols f (row + 1) k >>= (λ out. some (v ∷ out)))

-- A value of the type that the verifier gives the result.
abbrev pub IsResult : List Ty → Function → Val → Type 0
IsResult types f v = get_elem? types f.ret ≡ some (val_ty v)

module _ (ops : Floats) (cols : List ColumnData) (n : ℕ) (f : Function) (types : List Ty) where
  eval_rows-meaning :
      (k row : ℕ) (env : List Val)
      → verify f ≡ ok types
      → IsSupplied cols n f
      → row + k ≤ n
      → length env ≡ length f.insts
      → (out : List Val) × (eval_rows ops cols f row k env ≡ some out)
        × (meaning ops cols f row k ≡ some out)
        × (length out ≡ k)
        × All (IsResult types f) out
  unfolding eval_rows
  eval_rows-meaning zero row env h s r l = ([], refl, refl, refl, tt)
  eval_rows-meaning (suc k) row env h s r l =
      let (vi, below) = verify_inv f types h in
      let (vs, e, t) =
        valuation-typed ops cols n row f.n_columns f.insts [] types (omega arith) s vi in
      let run =
        eval_insts-valuation ops cols n row f.n_columns f.insts [] env vs types vi l (omega arith) s
          e in
      let sizes : length vs ≡ length types = sym (length-map vs val_ty) ∙ ap length t in
      let (ty, te) = get_elem?-below types f.ret below in
      let (v, ve, vt) = get_elem?-map_inv val_ty vs f.ret ty (rw t te) in
      let total = length-valuation ops cols row f.insts [] vs e in
      let (out, a, b, c, d) = eval_rows-meaning k (row + 1) vs h s (omega arith) (omega arith) in
      (
        v ∷ out,
        rw run (rw ve (rw a refl)),
        rw e (rw ve (rw b refl)),
        ap suc c,
        (te ∙ ap some (sym vt), d),
      )

  interpret-ok :
      (out : List Val)
      → verify f ≡ ok types
      → eval_rows ops cols f 0 n (replicate (length f.insts) (Val.bool false)) ≡ some out
      → interpret ops f cols n ≡ some (ok out)
  unfolding interpret
  interpret-ok out h e = rw (h, interpret) (rw e refl)

  -- A verified function over columns that supply it: `interpret` gives `n` values and panics
  -- nowhere, each is the value of `ret` in its own row, computed afresh, and has the type that
  -- `verify` gave it.
  pub interpret-meaning :
      verify f ≡ ok types
      → IsSupplied cols n f
      → (out : List Val) × (interpret ops f cols n ≡ some (ok out))
        × (meaning ops cols f 0 n ≡ some out)
        × (length out ≡ n)
        × All (IsResult types f) out
  interpret-meaning h s =
      let (out, a, b, c, d) =
        eval_rows-meaning n 0 (replicate (length f.insts) (Val.bool false)) h s (omega arith)
          (length-replicate (length f.insts) (Val.bool false)) in
      (out, interpret-ok out h a, b, c, d)
