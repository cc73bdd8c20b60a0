-- ===== src/Ir/Passes/DeadCode.antt =====
-- `dead_code_elimination` of hume-ir/src/passes.rs: the instructions that it rebuilds, their types and
-- their values, against those of the live ones.
use crates.Prelude.{ℕ, ◌+◌, ◌≡◌, refl, sym, ap, ◌∙◌, arith, Bool, true, false}
use crates.Prelude.{inl, inr, Option-cases, none-ne-some, some_inj, List, [], ◌∷◌, ◌++◌, some}
use crates.Prelude.{append_assoc, length, All, length-append}
use crates.Prelude.{get_elem?-append_at}
use crates.Prelude.Outcome.{ok}
use crates.Ir.{Ty, Val, Inst, verify_insts}
use crates.Ir.Interpreter.{Floats, ColumnData, eval_op}
use crates.Ir.Typing.{IsFed}
use crates.Ir.Valuation.{valuation, verify_insts_inv, verify_insts_cons, verify_insts_nil}
use crates.Ir.Passes.{remap_from, rebuild}
use crates.Ir.Passes.Renaming.{select, IsLive, select_live, select_dead}
use crates.Ir.Passes.Renaming.{renamed, remap_op-renamed, eval_op-renamed, IsFed-renamed}
use crates.Ir.Passes.RenamedTypes.{op_ty-renamed, operands_below}
use crates.Ir.Passes.Liveness.{IsClosed, IsCausal}

-- The live instructions, renamed, from the id `next` on.
abbrev pub rebuilt : List Bool → ℕ → List Bool → List Inst → List Inst
rebuilt live next ls [] = []
rebuilt live next [] (inst ∷ insts) = []
rebuilt live next (true ∷ ls) (inst ∷ insts) =
    record { result = next; op = renamed live inst.op } ∷ rebuilt live (next + 1) ls insts
rebuilt live next (false ∷ ls) (inst ∷ insts) = rebuilt live next ls insts

next_tail :
    (live lp ls : List Bool) (b : Bool) → lp ++ (b ∷ ls) ≡ live → (lp ++ (b ∷ [])) ++ ls ≡ live
next_tail live lp ls b e = append_assoc lp (b ∷ []) ls ∙ e

IsLive-here : (live lp ls : List Bool) → lp ++ (true ∷ ls) ≡ live → IsLive live (length lp)
IsLive-here live lp ls e = rw (sym e) (get_elem?-append_at lp ls true)

IsClosed-next :
    (live lp : List Bool) (b : Bool) (insts : List Inst)
    → IsClosed live (length lp + 1) insts
    → IsClosed live (length (lp ++ (b ∷ []))) insts
IsClosed-next live lp b insts h = rw (length-append lp (b ∷ [])) h

pub rebuild-rebuilt :
    (live lp ls : List Bool) (next : ℕ) (insts : List Inst)
    → lp ++ ls ≡ live
    → length ls ≡ length insts
    → IsClosed live (length lp) insts
    → rebuild (remap_from 0 live) ls (remap_from next ls) insts ≡ some (rebuilt live next ls insts)
unfolding rebuild remap_from
rebuild-rebuilt live lp ls next [] e l h = refl
rebuild-rebuilt live lp [] next (inst ∷ insts) e l h = absurd (omega arith)
rebuild-rebuilt live lp (true ∷ ls) next (inst ∷ insts) e l (h, hs) =
    rw (remap_op-renamed live inst.op (h (IsLive-here live lp ls e))) (
      rw
        (rebuild-rebuilt live (lp ++ (true ∷ [])) ls (next + 1) insts (next_tail live lp ls true e)
          (omega arith) (IsClosed-next live lp true insts hs))
        refl)
rebuild-rebuilt live lp (false ∷ ls) next (inst ∷ insts) e l (h, hs) =
    rebuild-rebuilt live (lp ++ (false ∷ [])) ls next insts (next_tail live lp ls false e)
      (omega arith) (IsClosed-next live lp false insts hs)

pub rebuilt-verify_insts :
    (nc : ℕ) (live lp ls : List Bool) (next : ℕ) (insts : List Inst) (types out : List Ty)
    → lp ++ ls ≡ live
    → length ls ≡ length insts
    → length lp ≡ length types
    → next ≡ length (select live types)
    → IsClosed live (length lp) insts
    → verify_insts nc types insts ≡ ok out
    → verify_insts nc (select live types) (rebuilt live next ls insts) ≡ ok (select live out)
rebuilt-verify_insts nc live lp ls next [] types out e l m k h v =
    unfold verify_insts in
    ap (λ (t : List Ty). ok (select live t)) (verify_insts_nil nc types out v)
rebuilt-verify_insts nc live lp [] next (inst ∷ insts) types out e l m k h v = absurd (omega arith)
rebuilt-verify_insts nc live lp (true ∷ ls) next (inst ∷ insts) types out e l m k (h, hs) v =
    let (r, ty, p, q) = verify_insts_inv nc types inst insts out v in
    let s : select live (types ++ (ty ∷ [])) ≡ select live types ++ (ty ∷ []) =
      rw (sym e) (select_live lp ls types ty m) in
    let ih =
      rebuilt-verify_insts nc live (lp ++ (true ∷ [])) ls (next + 1) insts (types ++ (ty ∷ [])) out
        (next_tail live lp ls true e) (omega arith)
        (omega (arith, length-append lp (true ∷ []), length-append types (ty ∷ [])))
        (rw s (omega (arith, length-append (select live types) (ty ∷ []))))
        (IsClosed-next live lp true insts hs) q in
    verify_insts_cons nc (select live types) (select live out)
      record { result = next; op = renamed live inst.op } (rebuilt live (next + 1) ls insts) ty k
      (op_ty-renamed live types nc inst.op ty (h (IsLive-here live lp ls e)) p) (rw s at ih)
rebuilt-verify_insts nc live lp (false ∷ ls) next (inst ∷ insts) types out e l m k (h, hs) v =
    let (r, ty, p, q) = verify_insts_inv nc types inst insts out v in
    let s : select live (types ++ (ty ∷ [])) ≡ select live types =
      rw (sym e) (select_dead lp ls types ty m) in
    rw s at (
      rebuilt-verify_insts nc live (lp ++ (false ∷ [])) ls next insts (types ++ (ty ∷ [])) out
        (next_tail live lp ls false e) (omega arith)
        (omega (arith, length-append lp (false ∷ []), length-append types (ty ∷ [])))
        (k ∙ ap length (sym s)) (IsClosed-next live lp false insts hs) q)

pub rebuilt-valuation :
    (ops : Floats) (cols : List ColumnData) (row : ℕ) (live lp ls : List Bool) (next : ℕ)
    (insts : List Inst) (vals vs : List Val)
    → lp ++ ls ≡ live
    → length ls ≡ length insts
    → length lp ≡ length vals
    → IsClosed live (length lp) insts
    → valuation ops cols row insts vals ≡ some vs
    → valuation ops cols row (rebuilt live next ls insts) (select live vals) ≡ some (select live vs)
rebuilt-valuation ops cols row live lp ls next [] vals vs e l m h v =
    ap (λ (t : List Val). some (select live t)) (some_inj v)
rebuilt-valuation ops cols row live lp [] next (inst ∷ insts) vals vs e l m h v =
    absurd (omega arith)
rebuilt-valuation ops cols row live lp (true ∷ ls) next (inst ∷ insts) vals vs e l m (h, hs) v =
    elim (Option-cases (eval_op ops cols row vals inst.op)) [
      | inl n ↦ absurd (none-ne-some (rw n at v))
      | inr (x, n) ↦
          let s : select live (vals ++ (x ∷ [])) ≡ select live vals ++ (x ∷ []) =
            rw (sym e) (select_live lp ls vals x m) in
          let ih =
            rebuilt-valuation ops cols row live (lp ++ (true ∷ [])) ls (next + 1) insts
              (vals ++ (x ∷ [])) vs (next_tail live lp ls true e) (omega arith)
              (omega (arith, length-append lp (true ∷ []), length-append vals (x ∷ [])))
              (IsClosed-next live lp true insts hs) (rw n at v) in
          rw (eval_op-renamed live ops cols row vals inst.op x (h (IsLive-here live lp ls e)) n)
            (rw s at ih)
    ]
rebuilt-valuation ops cols row live lp (false ∷ ls) next (inst ∷ insts) vals vs e l m (h, hs) v =
    elim (Option-cases (eval_op ops cols row vals inst.op)) [
      | inl n ↦ absurd (none-ne-some (rw n at v))
      | inr (x, n) ↦
          let s : select live (vals ++ (x ∷ [])) ≡ select live vals =
            rw (sym e) (select_dead lp ls vals x m) in
          rw s at (
            rebuilt-valuation ops cols row live (lp ++ (false ∷ [])) ls next insts
              (vals ++ (x ∷ [])) vs (next_tail live lp ls false e) (omega arith)
              (omega (arith, length-append lp (false ∷ []), length-append vals (x ∷ [])))
              (IsClosed-next live lp false insts hs) (rw n at v))
    ]

pub rebuilt-IsFed :
    (cols : List ColumnData) (n : ℕ) (live ls : List Bool) (next : ℕ) (insts : List Inst)
    → All (λ (inst : Inst). IsFed cols n inst.op) insts
    → All (λ (inst : Inst). IsFed cols n inst.op) (rebuilt live next ls insts)
rebuilt-IsFed cols n live ls next [] h = tt
rebuilt-IsFed cols n live [] next (inst ∷ insts) h = tt
rebuilt-IsFed cols n live (true ∷ ls) next (inst ∷ insts) (h, hs) =
    (IsFed-renamed live cols n inst.op h, rebuilt-IsFed cols n live ls (next + 1) insts hs)
rebuilt-IsFed cols n live (false ∷ ls) next (inst ∷ insts) (h, hs) =
    rebuilt-IsFed cols n live ls next insts hs

pub verify_insts-IsCausal :
    (nc : ℕ) (types out : List Ty) (insts : List Inst)
    → verify_insts nc types insts ≡ ok out
    → IsCausal (length types) insts × (length out ≡ length types + length insts)
verify_insts-IsCausal nc types out [] h =
    (tt, omega (arith, ap length (verify_insts_nil nc types out h)))
verify_insts-IsCausal nc types out (inst ∷ insts) h =
    let (r, ty, p, q) = verify_insts_inv nc types inst insts out h in
    let (a, b) = verify_insts-IsCausal nc (types ++ (ty ∷ [])) out insts q in
    let l = length-append types (ty ∷ []) in
    ((operands_below types nc inst.op ty p, rw l at a), omega arith)
