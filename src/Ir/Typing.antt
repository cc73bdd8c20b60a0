-- ===== src/Ir/Typing.antt =====
-- The types of `verify` in hume-ir/src/lib.rs against the values of `interpret`, one operation at a time.
use crates.Prelude.{ℕ, ◌<◌, ◌≡◌, refl, sym, ◌∙◌, arith}
use crates.Prelude.{Bool, true, false, not, inl, inr, Option-cases}
use crates.Prelude.{List, map, Option, some, get_elem?}
use crates.Prelude.{get_elem?-map_inv}
use crates.Prelude.Outcome.{ok, Outcome-cases}
use crates.Ir.{
  Ty, Const, Val, to_val, const_ty, Op, constant, column, add, sub, mul, cmp_gt, cmp_lt,
}
use crates.Ir.{cmp_eq, and_op, or_op, not_op, Detail, same_ty, operand_ty}
use crates.Ir.{numeric_ty, logic_ty, compare_ty, not_ty, op_ty}
use crates.Ir.Interpreter.{Floats, ColumnData, cell, arith_op, compare_op, binary, as_bool}
use crates.Ir.Interpreter.{and_val, or_val, eval_op}

abbrev pub val_ty : Val → Ty
val_ty (Val.i64 v) = Ty.i64
val_ty (Val.f64 v) = Ty.f64
val_ty (Val.bool v) = Ty.bool

-- The columns have, in each of `n` rows, the value that a load declares.
abbrev pub IsFed : List ColumnData → ℕ → Op → Type 0
IsFed cols n (column idx ty) =
    (row : ℕ)
    → row < n
    → (col : ColumnData) × (v : Val) × (get_elem? cols idx ≡ some col)
      × (cell col row ≡ some v)
      × (val_ty v ≡ ty)
IsFed cols n _ = Unit

-- The value of an operation is there, and has the type.
abbrev pub Gives : Option Val → Ty → Type 0
Gives r ty = (v : Val) × (r ≡ some v) × (val_ty v ≡ ty)

same_ty_sound : (a b : Ty) → same_ty a b ≡ true → a ≡ b
unfolding same_ty
same_ty_sound Ty.i64 Ty.i64 h = refl
same_ty_sound Ty.i64 Ty.f64 h = absurd (cc)
same_ty_sound Ty.i64 Ty.bool h = absurd (cc)
same_ty_sound Ty.f64 Ty.i64 h = absurd (cc)
same_ty_sound Ty.f64 Ty.f64 h = refl
same_ty_sound Ty.f64 Ty.bool h = absurd (cc)
same_ty_sound Ty.bool Ty.i64 h = absurd (cc)
same_ty_sound Ty.bool Ty.f64 h = absurd (cc)
same_ty_sound Ty.bool Ty.bool h = refl

pub operand_ty_inv :
    (types : List Ty) (v : ℕ) (ty : Ty) → operand_ty types v ≡ ok ty → get_elem? types v ≡ some ty
unfolding operand_ty
operand_ty_inv types v ty h = elim (Option-cases (get_elem? types v)) [
  | inl e ↦ absurd (ground arith)
  | inr (t, e) ↦ ground arith
]

pub operand :
    (vals : List Val) (v : ℕ) (ty : Ty)
    → operand_ty (map val_ty vals) v ≡ ok ty
    → Gives (get_elem? vals v) ty
operand vals v ty h = get_elem?-map_inv val_ty vals v ty (operand_ty_inv (map val_ty vals) v ty h)

pub numeric_ty_inv :
    (types : List Ty) (d : Detail) (a b : ℕ) (ty : Ty)
    → numeric_ty types d a b ≡ ok ty
    → (operand_ty types a ≡ ok ty) × (operand_ty types b ≡ ok ty) × (same_ty ty Ty.bool ≡ false)
unfolding numeric_ty
numeric_ty_inv types d a b ty h = elim (Outcome-cases (operand_ty types a)) [
  | inl (e, p) ↦ absurd (ground arith)
  | inr (ta, p) ↦ elim (Outcome-cases (operand_ty types b)) [
    | inl (e, q) ↦ absurd (ground arith)
    | inr (tb, q) ↦ ground (arith, same_ty_sound ta tb)
  ]
]

pub logic_ty_inv :
    (types : List Ty) (a b : ℕ) (ty : Ty)
    → logic_ty types a b ≡ ok ty
    → (operand_ty types a ≡ ok Ty.bool) × (operand_ty types b ≡ ok Ty.bool) × (ty ≡ Ty.bool)
unfolding logic_ty
logic_ty_inv types a b ty h = elim (Outcome-cases (operand_ty types a)) [
  | inl (e, p) ↦ absurd (ground arith)
  | inr (ta, p) ↦ elim (Outcome-cases (operand_ty types b)) [
    | inl (e, q) ↦ absurd (ground arith)
    | inr (tb, q) ↦ ground (arith, same_ty_sound ta Ty.bool, same_ty_sound tb Ty.bool)
  ]
]

pub compare_ty_inv :
    (types : List Ty) (a b : ℕ) (ty : Ty)
    → compare_ty types a b ≡ ok ty
    → (t : Ty) × (operand_ty types a ≡ ok t)
      × (operand_ty types b ≡ ok t)
      × (same_ty t Ty.bool ≡ false)
      × (ty ≡ Ty.bool)
unfolding compare_ty
compare_ty_inv types a b ty h = elim (Outcome-cases (numeric_ty types Detail.comparison a b)) [
  | inl (e, p) ↦ absurd (ground arith)
  | inr (t, p) ↦
      let (q, r, s) = numeric_ty_inv types Detail.comparison a b t p in (t, q, r, s, ground arith)
]

pub not_ty_inv :
    (types : List Ty) (a : ℕ) (ty : Ty)
    → not_ty types a ≡ ok ty
    → (operand_ty types a ≡ ok Ty.bool) × (ty ≡ Ty.bool)
unfolding not_ty
not_ty_inv types a ty h = elim (Outcome-cases (operand_ty types a)) [
  | inl (e, p) ↦ absurd (ground arith)
  | inr (ta, p) ↦ ground (arith, same_ty_sound ta Ty.bool)
]

arith_op-typed :
    (fi ff : ℕ → ℕ → ℕ) (x y : Val)
    → val_ty x ≡ val_ty y
    → same_ty (val_ty x) Ty.bool ≡ false
    → val_ty (arith_op fi ff x y) ≡ val_ty x
unfolding arith_op same_ty
arith_op-typed fi ff (Val.i64 x) (Val.i64 y) e h = refl
arith_op-typed fi ff (Val.i64 x) (Val.f64 y) e h = absurd (cc)
arith_op-typed fi ff (Val.i64 x) (Val.bool y) e h = absurd (cc)
arith_op-typed fi ff (Val.f64 x) (Val.i64 y) e h = absurd (cc)
arith_op-typed fi ff (Val.f64 x) (Val.f64 y) e h = refl
arith_op-typed fi ff (Val.f64 x) (Val.bool y) e h = absurd (cc)
arith_op-typed fi ff (Val.bool x) y e h = absurd (cc)

compare_op-typed : (fi ff : ℕ → ℕ → Bool) (x y : Val) → val_ty (compare_op fi ff x y) ≡ Ty.bool
unfolding compare_op
compare_op-typed fi ff (Val.i64 x) (Val.i64 y) = refl
compare_op-typed fi ff (Val.i64 x) (Val.f64 y) = refl
compare_op-typed fi ff (Val.i64 x) (Val.bool y) = refl
compare_op-typed fi ff (Val.f64 x) (Val.i64 y) = refl
compare_op-typed fi ff (Val.f64 x) (Val.f64 y) = refl
compare_op-typed fi ff (Val.f64 x) (Val.bool y) = refl
compare_op-typed fi ff (Val.bool x) y = refl

numeric_typed :
    (vals : List Val) (d : Detail) (a b : ℕ) (ty : Ty) (fi ff : ℕ → ℕ → ℕ)
    → numeric_ty (map val_ty vals) d a b ≡ ok ty
    → Gives (binary vals a b (arith_op fi ff)) ty
unfolding binary
numeric_typed vals d a b ty fi ff h =
    let (p, q, n) = numeric_ty_inv (map val_ty vals) d a b ty h in
    let (x, ex, tx) = operand vals a ty p in
    let (y, ey, ty') = operand vals b ty q in
    (arith_op fi ff x y, rw (ex, ey) refl, arith_op-typed fi ff x y (tx ∙ sym ty') (rw tx n) ∙ tx)

compare_typed :
    (vals : List Val) (a b : ℕ) (ty : Ty) (fi ff : ℕ → ℕ → Bool)
    → compare_ty (map val_ty vals) a b ≡ ok ty
    → Gives (binary vals a b (compare_op fi ff)) ty
unfolding binary
compare_typed vals a b ty fi ff h =
    let (t, p, q, n, e) = compare_ty_inv (map val_ty vals) a b ty h in
    let (x, ex, tx) = operand vals a t p in
    let (y, ey, ty') = operand vals b t q in
    (compare_op fi ff x y, rw (ex, ey) refl, compare_op-typed fi ff x y ∙ sym e)

logic_typed :
    (vals : List Val) (a b : ℕ) (ty : Ty) (f : Val → Val → Val)
    → ((x y : Val) → val_ty (f x y) ≡ Ty.bool)
    → logic_ty (map val_ty vals) a b ≡ ok ty
    → Gives (binary vals a b f) ty
unfolding binary
logic_typed vals a b ty f bf h =
    let (p, q, e) = logic_ty_inv (map val_ty vals) a b ty h in
    let (x, ex, tx) = operand vals a Ty.bool p in
    let (y, ey, ty') = operand vals b Ty.bool q in (f x y, rw (ex, ey) refl, bf x y ∙ sym e)

pub const_ty-to_val : (c : Const) → val_ty (to_val c) ≡ const_ty c
unfolding to_val const_ty
const_ty-to_val (Const.i64 v) = refl
const_ty-to_val (Const.f64 v) = refl
const_ty-to_val (Const.bool v) = refl

-- A checked operation, over values of the types that it was checked with, gives a value of its type.
pub eval_op-typed :
    (ops : Floats) (cols : List ColumnData) (n row n_columns : ℕ) (vals : List Val) (op : Op)
    (ty : Ty)
    → row < n
    → IsFed cols n op
    → op_ty n_columns (map val_ty vals) op ≡ ok ty
    → Gives (eval_op ops cols row vals op) ty
unfolding eval_op op_ty
eval_op-typed ops cols n row nc vals (constant c) ty r f h =
    (to_val c, refl, const_ty-to_val c ∙ (cc))
eval_op-typed ops cols n row nc vals (column idx t) ty r f h =
    let (col, v, p, q, e) = f row r in let k : t ≡ ty = ground arith in (v, rw p q, e ∙ k)
eval_op-typed ops cols n row nc vals (add a b) ty r f h = numeric_typed vals _ a b ty _ _ h
eval_op-typed ops cols n row nc vals (sub a b) ty r f h = numeric_typed vals _ a b ty _ _ h
eval_op-typed ops cols n row nc vals (mul a b) ty r f h = numeric_typed vals _ a b ty _ _ h
eval_op-typed ops cols n row nc vals (cmp_gt a b) ty r f h = compare_typed vals a b ty _ _ h
eval_op-typed ops cols n row nc vals (cmp_lt a b) ty r f h = compare_typed vals a b ty _ _ h
eval_op-typed ops cols n row nc vals (cmp_eq a b) ty r f h = compare_typed vals a b ty _ _ h
eval_op-typed ops cols n row nc vals (and_op a b) ty r f h =
    logic_typed vals a b ty and_val (λ (x y : Val). refl) h
eval_op-typed ops cols n row nc vals (or_op a b) ty r f h =
    logic_typed vals a b ty or_val (λ (x y : Val). refl) h
eval_op-typed ops cols n row nc vals (not_op a) ty r f h =
    let (p, e) = not_ty_inv (map val_ty vals) a ty h in
    let (x, ex, tx) = operand vals a Ty.bool p in (Val.bool (not (as_bool x)), rw ex refl, sym e)
