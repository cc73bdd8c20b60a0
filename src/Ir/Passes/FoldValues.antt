-- ===== src/Ir/Passes/FoldValues.antt =====
-- `constant_fold` of hume-ir/src/passes.rs: the literals against the values of the instructions.
use crates.Prelude.{ℕ, ◌+◌, ◌≡◌, refl, sym, ap, ◌∙◌, arith, Bool, not, Bool-cases}
use crates.Prelude.{
  inl, inr, Option-cases, some_inj, none-ne-some, List, [], ◌∷◌, ◌++◌, Option, none, some,
}
use crates.Prelude.{length, get_elem?, set, get_elem?-set, get_elem?-append, get_elem?-append_at}
use crates.Prelude.{length-append}
use crates.Ir.{
  Const, Val, to_val, const_ty, same_ty, Op, constant, column, add, sub, mul, cmp_gt, cmp_lt,
}
use crates.Ir.{cmp_eq, and_op, or_op, not_op, Inst}
use crates.Ir.Interpreter.{Floats, ColumnData, arith_op, compare_op, as_bool, binary, eval_op}
use crates.Ir.Interpreter.{and_val, or_val}
use crates.Ir.Valuation.{valuation}
use crates.Ir.Passes.{
  fold_arith, fold_compare, fold_logic, fold_not, same_typed, fold_pair, fold_binop,
}
use crates.Ir.Passes.{both_known, fold_binary, fold_op, folded_op, fold_insts}

-- What is known of a value is its value.
abbrev pub IsKnown : List (Option Const) → List Val → Type 0
IsKnown known vals =
    (j : ℕ) (c : Const) → get_elem? known j ≡ some (some c) → get_elem? vals j ≡ some (to_val c)

fold_arith-value :
    (fi ff : ℕ → ℕ → ℕ) (x y c : Const)
    → fold_arith fi ff x y ≡ some c
    → arith_op fi ff (to_val x) (to_val y) ≡ to_val c
unfolding fold_arith arith_op to_val
fold_arith-value fi ff (Const.i64 x) (Const.i64 y) c h = rw (sym (some_inj h)) refl
fold_arith-value fi ff (Const.i64 x) (Const.f64 y) c h = absurd (cc)
fold_arith-value fi ff (Const.i64 x) (Const.bool y) c h = absurd (cc)
fold_arith-value fi ff (Const.f64 x) (Const.i64 y) c h = absurd (cc)
fold_arith-value fi ff (Const.f64 x) (Const.f64 y) c h = rw (sym (some_inj h)) refl
fold_arith-value fi ff (Const.f64 x) (Const.bool y) c h = absurd (cc)
fold_arith-value fi ff (Const.bool x) y c h = absurd (cc)

fold_compare-value :
    (fi ff : ℕ → ℕ → Bool) (x y c : Const)
    → fold_compare fi ff x y ≡ some c
    → compare_op fi ff (to_val x) (to_val y) ≡ to_val c
unfolding fold_compare compare_op to_val
fold_compare-value fi ff (Const.i64 x) (Const.i64 y) c h = rw (sym (some_inj h)) refl
fold_compare-value fi ff (Const.i64 x) (Const.f64 y) c h = absurd (cc)
fold_compare-value fi ff (Const.i64 x) (Const.bool y) c h = absurd (cc)
fold_compare-value fi ff (Const.f64 x) (Const.i64 y) c h = absurd (cc)
fold_compare-value fi ff (Const.f64 x) (Const.f64 y) c h = rw (sym (some_inj h)) refl
fold_compare-value fi ff (Const.f64 x) (Const.bool y) c h = absurd (cc)
fold_compare-value fi ff (Const.bool x) y c h = absurd (cc)

fold_logic-value :
    (f : Bool → Bool → Bool) (x y c : Const)
    → fold_logic f x y ≡ some c
    → Val.bool (f (as_bool (to_val x)) (as_bool (to_val y))) ≡ to_val c
unfolding fold_logic as_bool to_val
fold_logic-value f (Const.bool x) (Const.bool y) c h = rw (sym (some_inj h)) refl
fold_logic-value f (Const.bool x) (Const.i64 y) c h = absurd (cc)
fold_logic-value f (Const.bool x) (Const.f64 y) c h = absurd (cc)
fold_logic-value f (Const.i64 x) y c h = absurd (cc)
fold_logic-value f (Const.f64 x) y c h = absurd (cc)

pub fold_not_inv :
    (k : Option Const) (c : Const)
    → fold_not k ≡ some c
    → (x : Bool) × (k ≡ some (Const.bool x)) × (c ≡ Const.bool (not x))
unfolding fold_not
fold_not_inv (some (Const.bool x)) c h = (x, refl, sym (some_inj h))
fold_not_inv (some (Const.i64 x)) c h = absurd (cc)
fold_not_inv (some (Const.f64 x)) c h = absurd (cc)
fold_not_inv none c h = absurd (cc)

module _ (ops : Floats) where
  -- A folded binary operation had two known operands.
  pub fold_binary_inv :
      (known : List (Option Const)) (op : Op) (a b : ℕ) (c : Const)
      → fold_binary ops known op a b ≡ some (some c)
      → (x y : Const) × (get_elem? known a ≡ some (some x))
        × (get_elem? known b ≡ some (some y))
        × (fold_pair ops op x y ≡ some c)
  unfolding fold_binary both_known fold_binop same_typed
  fold_binary_inv known op a b c h = elim (Option-cases (get_elem? known a)) [
    | inl p ↦ absurd (ground arith)
    | inr (none, p) ↦ elim (Option-cases (get_elem? known b)) [
      | inl q ↦ absurd (ground arith)
      | inr (y, q) ↦ absurd (ground arith)
    ]
    | inr (some x, p) ↦ elim (Option-cases (get_elem? known b)) [
      | inl q ↦ absurd (ground arith)
      | inr (none, q) ↦ absurd (ground arith)
      | inr (some y, q) ↦ (
        x,
        y,
        p,
        q,
        elim (Bool-cases (same_ty (const_ty x) (const_ty y))) [
          | inl e ↦ ground arith
          | inr e ↦ absurd (ground arith)
        ],
      )
    ]
  ]

  binary-value :
      (known : List (Option Const)) (vals : List Val) (op : Op) (a b : ℕ) (c : Const)
      (f : Val → Val → Val)
      → IsKnown known vals
      → ((x y : Const) → fold_pair ops op x y ≡ some c → f (to_val x) (to_val y) ≡ to_val c)
      → fold_binary ops known op a b ≡ some (some c)
      → binary vals a b f ≡ some (to_val c)
  unfolding binary
  binary-value known vals op a b c f k same h =
      let (x, y, p, q, r) = fold_binary_inv known op a b c h in
      rw (k a x p, k b y q) (ap some (same x y r))

  -- An instruction that is folded has the value of its literal.
  pub fold_op-value :
      (cols : List ColumnData) (row : ℕ) (known : List (Option Const)) (vals : List Val) (op : Op)
      (c : Const)
      → IsKnown known vals
      → fold_op ops known op ≡ some (some c)
      → eval_op ops cols row vals op ≡ some (to_val c)
  unfolding fold_op eval_op fold_pair
  fold_op-value cols row known vals (constant d) c k h =
      ap (λ (z : Const). some (to_val z)) (some_inj (some_inj h))
  fold_op-value cols row known vals (column idx ty) c k h = absurd (cc)
  fold_op-value cols row known vals (add a b) c k h =
      binary-value known vals (add a b) a b c _ k (λ (x y : Const) p. fold_arith-value _ _ x y c p)
        h
  fold_op-value cols row known vals (sub a b) c k h =
      binary-value known vals (sub a b) a b c _ k (λ (x y : Const) p. fold_arith-value _ _ x y c p)
        h
  fold_op-value cols row known vals (mul a b) c k h =
      binary-value known vals (mul a b) a b c _ k (λ (x y : Const) p. fold_arith-value _ _ x y c p)
        h
  fold_op-value cols row known vals (cmp_gt a b) c k h =
      binary-value known vals (cmp_gt a b) a b c _ k
        (λ (x y : Const) p. fold_compare-value _ _ x y c p) h
  fold_op-value cols row known vals (cmp_lt a b) c k h =
      binary-value known vals (cmp_lt a b) a b c _ k
        (λ (x y : Const) p. fold_compare-value _ _ x y c p) h
  fold_op-value cols row known vals (cmp_eq a b) c k h =
      binary-value known vals (cmp_eq a b) a b c _ k
        (λ (x y : Const) p. fold_compare-value _ _ x y c p) h
  fold_op-value cols row known vals (and_op a b) c k h =
      binary-value known vals (and_op a b) a b c and_val k
        (λ (x y : Const) p. fold_logic-value _ x y c p) h
  fold_op-value cols row known vals (or_op a b) c k h =
      binary-value known vals (or_op a b) a b c or_val k
        (λ (x y : Const) p. fold_logic-value _ x y c p) h
  fold_op-value cols row known vals (not_op a) c k h = elim (Option-cases (get_elem? known a)) [
    | inl p ↦ absurd (ground arith)
    | inr (z, p) ↦
        let (x, e, f) = fold_not_inv z c (ground arith) in
        rw (k a (Const.bool x) (p ∙ ap some e), f) (unfold as_bool to_val in refl)
  ]

  IsKnown-set :
      (known : List (Option Const)) (vals : List Val) (folded : Option Const) (v : Val)
      → IsKnown known vals
      → ((c : Const) → folded ≡ some c → v ≡ to_val c)
      → IsKnown (set known (length vals) folded) (vals ++ (v ∷ []))
  IsKnown-set known vals folded v k h j c e =
      elim (get_elem?-set known (length vals) j (some c) folded e) [
        | inl (i, p) ↦ rw (sym i) (get_elem?-append_at vals [] v ∙ ap some (h c p))
        | inr p ↦ get_elem?-append vals (v ∷ []) j (to_val c) (k j c p)
      ]

  folded_op-value :
      (cols : List ColumnData) (row : ℕ) (vals : List Val) (op : Op) (folded : Option Const)
      → ((c : Const) → folded ≡ some c → eval_op ops cols row vals op ≡ some (to_val c))
      → eval_op ops cols row vals (folded_op op folded) ≡ eval_op ops cols row vals op
  unfolding folded_op
  folded_op-value cols row vals op none h = refl
  folded_op-value cols row vals op (some c) h = unfold eval_op in sym (h c refl)

  pub fold_insts_nil :
      (i : ℕ) (known : List (Option Const)) (out : List Inst)
      → fold_insts ops i known [] ≡ some out
      → out ≡ []
  unfolding fold_insts
  fold_insts_nil i known out h = sym (some_inj h)

  -- A round of the pass that does not panic.
  pub fold_insts_inv :
      (i : ℕ) (known : List (Option Const)) (inst : Inst) (insts out : List Inst)
      → fold_insts ops i known (inst ∷ insts) ≡ some out
      → (folded : Option Const) × (rest : List Inst) × (fold_op ops known inst.op ≡ some folded)
        × (fold_insts ops (i + 1) (set known i folded) insts ≡ some rest)
        × (out ≡ record { result = i; op = folded_op inst.op folded } ∷ rest)
  unfolding fold_insts
  fold_insts_inv i known inst insts out h = elim (Option-cases (fold_op ops known inst.op)) [
    | inl p ↦ absurd (none-ne-some (rw p at h))
    | inr (folded, p) ↦
        let h' = rw p at h in
        elim (Option-cases (fold_insts ops (i + 1) (set known i folded) insts)) [
          | inl q ↦ absurd (none-ne-some (rw q at h'))
          | inr (rest, q) ↦ (folded, rest, p, q, sym (some_inj (rw q at h')))
        ]
  ]

  -- The folded instructions have the values of the original ones.
  pub fold_insts-valuation :
      (cols : List ColumnData) (row i : ℕ) (known : List (Option Const)) (insts insts' : List Inst)
      (vals : List Val)
      → i ≡ length vals
      → IsKnown known vals
      → fold_insts ops i known insts ≡ some insts'
      → valuation ops cols row insts' vals ≡ valuation ops cols row insts vals
  fold_insts-valuation cols row i known [] insts' vals e k h =
      rw (fold_insts_nil i known insts' h) refl
  fold_insts-valuation cols row i known (inst ∷ insts) insts' vals e k h =
      let (folded, rest, p, q, o) = fold_insts_inv i known inst insts insts' h in
      let same : (c : Const)
          → folded ≡ some c
          → eval_op ops cols row vals inst.op ≡ some (to_val c) =
        λ (c : Const) z. fold_op-value cols row known vals inst.op c k (p ∙ ap some z) in
      let first = folded_op-value cols row vals inst.op folded same in
      rw (o, first)
        (elim (Option-cases (eval_op ops cols row vals inst.op)) [
          | inl n ↦ rw n refl
          | inr (v, n) ↦ rw n (
              fold_insts-valuation cols row (i + 1) (set known i folded) insts rest
                (vals ++ (v ∷ [])) (omega (arith, length-append vals (v ∷ []), e))
                (rw (sym e) at (
                  IsKnown-set known vals folded v k (λ (c : Const) z. some_inj (sym n ∙ same c z))))
                q)
        ])
