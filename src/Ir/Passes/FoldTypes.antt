-- ===== src/Ir/Passes/FoldTypes.antt =====
-- `constant_fold` of hume-ir/src/passes.rs: the literals against the types of the instructions.
use crates.Prelude.{ℕ, ◌≤◌, ◌≡◌, refl, sym, ap, ◌∙◌, arith, Bool}
use crates.Prelude.{some_inj, none-ne-some, List, Option, none, some}
use crates.Prelude.{length, get_elem?}
use crates.Prelude.{get_elem?-below, get_elem?-lt}
use crates.Prelude.Outcome.{ok, ok_inj}
use crates.Ir.{Ty, Const, const_ty, Op, constant, column, add, sub, mul, cmp_gt, cmp_lt, Detail}
use crates.Ir.{cmp_eq, and_op, or_op, not_op, op_ty, operand_ty, numeric_ty}
use crates.Ir.{compare_ty, logic_ty}
use crates.Ir.Interpreter.{Floats}
use crates.Ir.Typing.{operand_ty_inv, numeric_ty_inv, compare_ty_inv, logic_ty_inv, not_ty_inv}
use crates.Ir.Passes.{fold_arith, fold_compare, fold_logic, fold_not, fold_pair}
use crates.Ir.Passes.{both_known, fold_binary, fold_op}
use crates.Ir.Passes.FoldValues.{fold_binary_inv, fold_not_inv}

-- What is known of a value has the value's type.
abbrev pub IsTyped : List (Option Const) → List Ty → Type 0
IsTyped known types =
    (j : ℕ) (c : Const) → get_elem? known j ≡ some (some c) → get_elem? types j ≡ some (const_ty c)

fold_arith-const_ty :
    (fi ff : ℕ → ℕ → ℕ) (x y c : Const) → fold_arith fi ff x y ≡ some c → const_ty c ≡ const_ty x
unfolding fold_arith const_ty
fold_arith-const_ty fi ff (Const.i64 x) (Const.i64 y) c h = rw (sym (some_inj h)) refl
fold_arith-const_ty fi ff (Const.i64 x) (Const.f64 y) c h = absurd (cc)
fold_arith-const_ty fi ff (Const.i64 x) (Const.bool y) c h = absurd (cc)
fold_arith-const_ty fi ff (Const.f64 x) (Const.i64 y) c h = absurd (cc)
fold_arith-const_ty fi ff (Const.f64 x) (Const.f64 y) c h = rw (sym (some_inj h)) refl
fold_arith-const_ty fi ff (Const.f64 x) (Const.bool y) c h = absurd (cc)
fold_arith-const_ty fi ff (Const.bool x) y c h = absurd (cc)

fold_compare-const_ty :
    (fi ff : ℕ → ℕ → Bool) (x y c : Const) → fold_compare fi ff x y ≡ some c → const_ty c ≡ Ty.bool
unfolding fold_compare const_ty
fold_compare-const_ty fi ff (Const.i64 x) (Const.i64 y) c h = rw (sym (some_inj h)) refl
fold_compare-const_ty fi ff (Const.i64 x) (Const.f64 y) c h = absurd (cc)
fold_compare-const_ty fi ff (Const.i64 x) (Const.bool y) c h = absurd (cc)
fold_compare-const_ty fi ff (Const.f64 x) (Const.i64 y) c h = absurd (cc)
fold_compare-const_ty fi ff (Const.f64 x) (Const.f64 y) c h = rw (sym (some_inj h)) refl
fold_compare-const_ty fi ff (Const.f64 x) (Const.bool y) c h = absurd (cc)
fold_compare-const_ty fi ff (Const.bool x) y c h = absurd (cc)

fold_logic-const_ty :
    (f : Bool → Bool → Bool) (x y c : Const) → fold_logic f x y ≡ some c → const_ty c ≡ Ty.bool
unfolding fold_logic const_ty
fold_logic-const_ty f (Const.bool x) (Const.bool y) c h = rw (sym (some_inj h)) refl
fold_logic-const_ty f (Const.bool x) (Const.i64 y) c h = absurd (cc)
fold_logic-const_ty f (Const.bool x) (Const.f64 y) c h = absurd (cc)
fold_logic-const_ty f (Const.i64 x) y c h = absurd (cc)
fold_logic-const_ty f (Const.f64 x) y c h = absurd (cc)

-- A fold that does not panic, and gives at most a literal of the type.
abbrev pub Folds : Option (Option Const) → Ty → Type 0
Folds r ty =
    (folded : Option Const) × (r ≡ some folded) × ((c : Const) → folded ≡ some c → const_ty c ≡ ty)

module _ (ops : Floats) (nc : ℕ) (known : List (Option Const)) (types : List Ty) where
  operand_known :
      (a : ℕ) (ty : Ty)
      → length types ≤ length known
      → operand_ty types a ≡ ok ty
      → (k : Option Const) × (get_elem? known a ≡ some k)
  operand_known a ty l h =
      get_elem?-below known a (omega (arith, get_elem?-lt types a ty (operand_ty_inv types a ty h)))

  fold_binary-Folds :
      (op : Op) (a b : ℕ) (ta tb ty : Ty)
      → length types ≤ length known
      → IsTyped known types
      → operand_ty types a ≡ ok ta
      → operand_ty types b ≡ ok tb
      → ((x y c : Const) → const_ty x ≡ ta → fold_pair ops op x y ≡ some c → const_ty c ≡ ty)
      → Folds (fold_binary ops known op a b) ty
  fold_binary-Folds op a b ta tb ty l t p q same =
      let (x, ex) = operand_known a ta l p in
      let (y, ey) = operand_known b tb l q in
      let e : fold_binary ops known op a b ≡ some (both_known ops op x y) =
        unfold fold_binary in rw (ex, ey) refl in
      (
        both_known ops op x y,
        e,
        λ (c : Const) z.
            (let (u, w, pu, pw, f) = fold_binary_inv ops known op a b c (e ∙ ap some z) in
              same u w c (some_inj (sym (t a u pu) ∙ operand_ty_inv types a ta p)) f),
      )

  arith_lem :
      (op : Op) (a b : ℕ) (ty : Ty)
      → length types ≤ length known
      → IsTyped known types
      → (fi ff : ℕ → ℕ → ℕ) → ((x y : Const) → fold_pair ops op x y ≡ fold_arith fi ff x y)
      → numeric_ty types Detail.arithmetic a b ≡ ok ty
      → Folds (fold_binary ops known op a b) ty
  arith_lem op a b ty l t fi ff same h =
      let (p, q, n) = numeric_ty_inv types Detail.arithmetic a b ty h in
      fold_binary-Folds op a b ty ty ty l t p q
        (λ (x y c : Const) e f. fold_arith-const_ty fi ff x y c (sym (same x y) ∙ f) ∙ e)

  compare_lem :
      (op : Op) (a b : ℕ) (ty : Ty)
      → length types ≤ length known
      → IsTyped known types
      → (fi ff : ℕ → ℕ → Bool) → ((x y : Const) → fold_pair ops op x y ≡ fold_compare fi ff x y)
      → compare_ty types a b ≡ ok ty
      → Folds (fold_binary ops known op a b) ty
  compare_lem op a b ty l t fi ff same h =
      let (u, p, q, n, k) = compare_ty_inv types a b ty h in
      fold_binary-Folds op a b u u ty l t p q
        (λ (x y c : Const) e f. fold_compare-const_ty fi ff x y c (sym (same x y) ∙ f) ∙ sym k)

  logic_lem :
      (op : Op) (a b : ℕ) (ty : Ty)
      → length types ≤ length known
      → IsTyped known types
      → (g : Bool → Bool → Bool) → ((x y : Const) → fold_pair ops op x y ≡ fold_logic g x y)
      → logic_ty types a b ≡ ok ty
      → Folds (fold_binary ops known op a b) ty
  logic_lem op a b ty l t g same h =
      let (p, q, k) = logic_ty_inv types a b ty h in
      fold_binary-Folds op a b Ty.bool Ty.bool ty l t p q
        (λ (x y c : Const) e f. fold_logic-const_ty g x y c (sym (same x y) ∙ f) ∙ sym k)

  pub fold_op-Folds :
      (op : Op) (ty : Ty)
      → length types ≤ length known
      → IsTyped known types
      → op_ty nc types op ≡ ok ty
      → Folds (fold_op ops known op) ty
  unfolding fold_op op_ty fold_pair
  fold_op-Folds (constant d) ty l t h =
      (some d, refl, λ (c : Const) z. ap const_ty (sym (some_inj z)) ∙ ok_inj h)
  fold_op-Folds (column idx u) ty l t h = (none, refl, λ (c : Const) z. absurd (none-ne-some z))
  fold_op-Folds (add a b) ty l t h = arith_lem (add a b) a b ty l t _ _ (λ (x y : Const). refl) h
  fold_op-Folds (sub a b) ty l t h = arith_lem (sub a b) a b ty l t _ _ (λ (x y : Const). refl) h
  fold_op-Folds (mul a b) ty l t h = arith_lem (mul a b) a b ty l t _ _ (λ (x y : Const). refl) h
  fold_op-Folds (cmp_gt a b) ty l t h =
      compare_lem (cmp_gt a b) a b ty l t _ _ (λ (x y : Const). refl) h
  fold_op-Folds (cmp_lt a b) ty l t h =
      compare_lem (cmp_lt a b) a b ty l t _ _ (λ (x y : Const). refl) h
  fold_op-Folds (cmp_eq a b) ty l t h =
      compare_lem (cmp_eq a b) a b ty l t _ _ (λ (x y : Const). refl) h
  fold_op-Folds (and_op a b) ty l t h =
      logic_lem (and_op a b) a b ty l t _ (λ (x y : Const). refl) h
  fold_op-Folds (or_op a b) ty l t h = logic_lem (or_op a b) a b ty l t _ (λ (x y : Const). refl) h
  fold_op-Folds (not_op a) ty l t h =
      let (p, n) = not_ty_inv types a ty h in
      let (x, ex) = operand_known a Ty.bool l p in
      (
        fold_not x,
        rw ex refl,
        λ (c : Const) z.
            (let (b, _, e) = fold_not_inv x c z in ap const_ty e ∙ unfold const_ty in sym n),
      )
