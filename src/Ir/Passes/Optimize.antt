-- ===== src/Ir/Passes/Optimize.antt =====
-- `dead_code_elimination` and `optimize` of hume-ir/src/passes.rs as a whole, against `verify` and
-- `interpret`.
use crates.Prelude.{ℕ, ◌<◌, ◌≡◌, refl, sym, ap, ◌∙◌, arith, Bool, true, false}
use crates.Prelude.{leb, ltb, List, [], ◌∷◌, some, replicate, set}
use crates.Prelude.{
  length, length-set, length-replicate, get_elem?, get_elem?-lt, get_elem?-below, get_elem?-map_inv,
}
use crates.Prelude.Outcome.{ok}
use crates.Ir.{Ty, Val, Function, verify}
use crates.Ir.Interpreter.{Floats, ColumnData, interpret}
use crates.Ir.Valuation.{valuation-typed}
use crates.Ir.Typing.{val_ty}
use crates.Ir.Soundness.{IsSupplied, row_value, verify_inv}
use crates.Ir.Passes.{mark, remap_from, dead_code_elimination, optimize}
use crates.Ir.Passes.FoldSound.{interpret-same, constant_fold-verify}
use crates.Ir.Passes.Renaming.{select, rank, IsLive, get_elem?-select, remap_from-rank}
use crates.Ir.Passes.Liveness.{IsClosed, mark_live-IsClosed, get_elem?-set_at}
use crates.Ir.Passes.DeadCode.{rebuilt, rebuild-rebuilt, rebuilt-verify_insts, rebuilt-valuation}
use crates.Ir.Passes.DeadCode.{rebuilt-IsFed, verify_insts-IsCausal}

select_nil {ℓ} : {A : Type ℓ} (live : List Bool) → select {A = A} live [] ≡ []
select_nil [] = refl
select_nil (true ∷ live) = refl
select_nil (false ∷ live) = refl

module _ (f : Function) where
  -- The function that is left where `live` marks the instructions.
  abbrev pub trimmed : List Bool → Function
  trimmed live = record {
    n_columns = f.n_columns;
    insts = rebuilt live 0 live f.insts;
    ret = rank live f.ret;
  }

  -- The marking ends with flags that hold the result and are closed under operands.
  dead_code_elimination-trimmed :
      (types : List Ty)
      → verify f ≡ ok types
      → (live : List Bool) × (dead_code_elimination f ≡ some (trimmed live))
        × (length live ≡ length f.insts)
        × IsLive live f.ret
        × IsClosed live 0 f.insts
  unfolding dead_code_elimination mark
  dead_code_elimination-trimmed types h =
      let zeros = replicate (length f.insts) false in
      let start = set zeros f.ret true in
      let (vi, below) = verify_inv f types h in
      let (causal, sizes) = verify_insts-IsCausal f.n_columns [] types f.insts vi in
      let lz = length-replicate (length f.insts) false in
      let ls = length-set zeros f.ret true in
      let (live, m, size, grows, closed) =
        mark_live-IsClosed start 0 f.insts causal (omega arith) in
      let inside : ltb f.ret (length zeros) ≡ true = ground arith in
      let here = grows f.ret (get_elem?-set_at zeros f.ret true (omega arith)) in
      let r = rebuild-rebuilt live [] live 0 f.insts refl (omega arith) closed in
      let last : get_elem? (remap_from 0 live) f.ret ≡ some (rank live f.ret) =
        remap_from-rank 0 live f.ret here ∙ ap some (omega arith) in
      (live, rw inside (rw m (rw r (rw last refl))), omega arith, here, closed)

  trimmed-verify :
      (types : List Ty) (live : List Bool)
      → verify f ≡ ok types
      → length live ≡ length f.insts
      → IsLive live f.ret
      → IsClosed live 0 f.insts
      → verify (trimmed live) ≡ ok (select live types)
  unfolding verify
  trimmed-verify types live h l here closed =
      let (vi, below) = verify_inv f types h in
      let v =
        rebuilt-verify_insts f.n_columns live [] live 0 f.insts [] types refl l refl
          (sym (ap length (select_nil {A = Ty} live))) closed vi in
      let (ty, te) = get_elem?-below types f.ret below in
      let k =
        get_elem?-lt (select live types) (rank live f.ret) ty
          (get_elem?-select live types f.ret ty here te) in
      let inside : leb (length (select live types)) (rank live f.ret) ≡ false = ground arith in
      rw (rw (select_nil {A = Ty} live) at v) (rw inside refl)

  trimmed-row_value :
      (ops : Floats) (cols : List ColumnData) (n row : ℕ) (types : List Ty) (live : List Bool)
      → verify f ≡ ok types
      → IsSupplied cols n f
      → row < n
      → length live ≡ length f.insts
      → IsLive live f.ret
      → IsClosed live 0 f.insts
      → row_value ops cols (trimmed live) row ≡ row_value ops cols f row
  trimmed-row_value ops cols n row types live h s r l here closed =
      let (vi, below) = verify_inv f types h in
      let (vs, e, t) = valuation-typed ops cols n row f.n_columns f.insts [] types r s vi in
      let v = rebuilt-valuation ops cols row live [] live 0 f.insts [] vs refl l refl closed e in
      let (ty, te) = get_elem?-below types f.ret below in
      let (x, xe, xt) = get_elem?-map_inv val_ty vs f.ret ty (rw t te) in
      rw (rw (select_nil {A = Val} live) at v, e)
        (get_elem?-select live vs f.ret x here xe ∙ sym xe)

  -- `dead_code_elimination` of a verified function does not panic. It gives a function that verifies,
  -- with the types of the live instructions in their order and the type of the result unchanged,
  -- and that `interpret` runs to the same values.
  pub dead_code_elimination-interpret :
      (ops : Floats) (types : List Ty) (cols : List ColumnData) (n : ℕ)
      → verify f ≡ ok types
      → IsSupplied cols n f
      → (g : Function) × (live : List Bool) × (dead_code_elimination f ≡ some g)
        × (verify g ≡ ok (select live types))
        × (get_elem? (select live types) g.ret ≡ get_elem? types f.ret)
        × (interpret ops g cols n ≡ interpret ops f cols n)
  dead_code_elimination-interpret ops types cols n h s =
      let (live, e, l, here, closed) = dead_code_elimination-trimmed types h in
      let v = trimmed-verify types live h l here closed in
      let (vi, below) = verify_inv f types h in
      let (ty, te) = get_elem?-below types f.ret below in
      (
        trimmed live,
        live,
        e,
        v,
        get_elem?-select live types f.ret ty here te ∙ sym te,
        interpret-same ops cols n f (trimmed live) types (select live types) h v s
            (rebuilt-IsFed cols n live live 0 f.insts s)
            (λ (row : ℕ) r. trimmed-row_value ops cols n row types live h s r l here closed),
      )

-- `optimize` of a verified function does not panic, and gives a function that verifies and that
-- `interpret` runs to the same values.
pub optimize-interpret :
    (ops : Floats) (f : Function) (types : List Ty) (cols : List ColumnData) (n : ℕ)
    → verify f ≡ ok types
    → IsSupplied cols n f
    → (g : Function) × (types' : List Ty) × (optimize ops f ≡ some g)
      × (verify g ≡ ok types')
      × (interpret ops g cols n ≡ interpret ops f cols n)
unfolding optimize
optimize-interpret ops f types cols n h s =
    let (g, a, b, c, d) = constant_fold-verify ops f types h in
    let (k, live, p, q, _, r) = dead_code_elimination-interpret g ops types cols n b (c cols n s) in
    (
      k,
      select live types,
      rw a p,
      q,
      r ∙ interpret-same ops cols n f g types types h b s (c cols n s) (λ (row : ℕ) l. d cols row),
    )
