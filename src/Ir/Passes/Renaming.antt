-- ===== src/Ir/Passes/Renaming.antt =====
-- The live part of a list, the new id of a live instruction, and an operation under the new ids.
use crates.Prelude.{ℕ, zero, suc, ◌+◌, ◌≡◌, refl, ap, ◌∙◌, arith, Bool, true, false}
use crates.Prelude.{List, [], ◌∷◌, ◌++◌, some, length, get_elem?, All}
use crates.Prelude.{inl, inr, Option-cases}
use crates.Ir.{Val, Op, constant, column, add, sub, mul, cmp_gt, cmp_lt, cmp_eq, and_op, or_op}
use crates.Ir.{not_op}
use crates.Ir.Interpreter.{Floats, ColumnData, binary, eval_op}
use crates.Ir.Typing.{IsFed}
use crates.Ir.Passes.{operands, remap_from, remap_two, remap_op}

module _ {ℓ} {A : Type ℓ} where
  abbrev pub select : List Bool → List A → List A
  select [] xs = []
  select (l ∷ live) [] = []
  select (true ∷ live) (x ∷ xs) = x ∷ select live xs
  select (false ∷ live) (x ∷ xs) = select live xs

-- The live entries before an index.
abbrev pub rank : List Bool → ℕ → ℕ
rank [] i = 0
rank (l ∷ live) zero = 0
rank (true ∷ live) (suc i) = suc (rank live i)
rank (false ∷ live) (suc i) = rank live i

abbrev pub IsLive : List Bool → ℕ → Type 0
IsLive live v = get_elem? live v ≡ some true

pub remap_from-rank :
    (next : ℕ) (live : List Bool) (a : ℕ)
    → IsLive live a
    → get_elem? (remap_from next live) a ≡ some (next + rank live a)
unfolding remap_from
remap_from-rank next [] a h = absurd (cc)
remap_from-rank next (true ∷ live) zero h = ap some (omega arith)
remap_from-rank next (false ∷ live) zero h = absurd (cc)
remap_from-rank next (true ∷ live) (suc a) h =
    remap_from-rank (next + 1) live a h ∙ ap some (omega arith)
remap_from-rank next (false ∷ live) (suc a) h = remap_from-rank next live a h

pub get_elem?-select {ℓ} :
    {A : Type ℓ} (live : List Bool) (xs : List A) (a : ℕ) (x : A)
    → IsLive live a
    → get_elem? xs a ≡ some x
    → get_elem? (select live xs) (rank live a) ≡ some x
get_elem?-select [] xs a x l h = absurd (cc)
get_elem?-select (b ∷ live) [] a x l h = absurd (cc)
get_elem?-select (true ∷ live) (y ∷ xs) zero x l h = h
get_elem?-select (false ∷ live) (y ∷ xs) zero x l h = absurd (cc)
get_elem?-select (true ∷ live) (y ∷ xs) (suc a) x l h = get_elem?-select live xs a x l h
get_elem?-select (false ∷ live) (y ∷ xs) (suc a) x l h = get_elem?-select live xs a x l h

pub select_live {ℓ} :
    {A : Type ℓ} (lp ls : List Bool) (xs : List A) (x : A)
    → length lp ≡ length xs
    → select (lp ++ (true ∷ ls)) (xs ++ (x ∷ [])) ≡ select (lp ++ (true ∷ ls)) xs ++ (x ∷ [])
select_live [] [] [] x e = refl
select_live [] (l ∷ ls) [] x e = refl
select_live [] ls (y ∷ xs) x e = absurd (omega arith)
select_live (l ∷ lp) ls [] x e = absurd (omega arith)
select_live (true ∷ lp) ls (y ∷ xs) x e = ap (λ zs. y ∷ zs) (select_live lp ls xs x (omega arith))
select_live (false ∷ lp) ls (y ∷ xs) x e = select_live lp ls xs x (omega arith)

pub select_dead {ℓ} :
    {A : Type ℓ} (lp ls : List Bool) (xs : List A) (x : A)
    → length lp ≡ length xs
    → select (lp ++ (false ∷ ls)) (xs ++ (x ∷ [])) ≡ select (lp ++ (false ∷ ls)) xs
select_dead [] [] [] x e = refl
select_dead [] (l ∷ ls) [] x e = refl
select_dead [] ls (y ∷ xs) x e = absurd (omega arith)
select_dead (l ∷ lp) ls [] x e = absurd (omega arith)
select_dead (true ∷ lp) ls (y ∷ xs) x e = ap (λ zs. y ∷ zs) (select_dead lp ls xs x (omega arith))
select_dead (false ∷ lp) ls (y ∷ xs) x e = select_dead lp ls xs x (omega arith)

abbrev pub renamed : List Bool → Op → Op
renamed live (constant c) = constant c
renamed live (column idx ty) = column idx ty
renamed live (not_op a) = not_op (rank live a)
renamed live (add a b) = add (rank live a) (rank live b)
renamed live (sub a b) = sub (rank live a) (rank live b)
renamed live (mul a b) = mul (rank live a) (rank live b)
renamed live (cmp_gt a b) = cmp_gt (rank live a) (rank live b)
renamed live (cmp_lt a b) = cmp_lt (rank live a) (rank live b)
renamed live (cmp_eq a b) = cmp_eq (rank live a) (rank live b)
renamed live (and_op a b) = and_op (rank live a) (rank live b)
renamed live (or_op a b) = or_op (rank live a) (rank live b)

abbrev pub HasLive : List Bool → Op → Type 0
HasLive live op = All (IsLive live) (operands op)

module _ (live : List Bool) where
  remap_rank : (a : ℕ) → IsLive live a → get_elem? (remap_from 0 live) a ≡ some (rank live a)
  remap_rank a h = remap_from-rank 0 live a h ∙ ap some (omega arith)

  remap_two-rank :
      (op : ℕ → ℕ → Op) (a b : ℕ)
      → IsLive live a
      → IsLive live b
      → remap_two op (remap_from 0 live) a b ≡ some (op (rank live a) (rank live b))
  unfolding remap_two
  remap_two-rank op a b p q = rw (remap_rank a p, remap_rank b q) refl

  pub remap_op-renamed :
      (op : Op) → HasLive live op → remap_op op (remap_from 0 live) ≡ some (renamed live op)
  unfolding operands remap_op
  remap_op-renamed (constant c) h = refl
  remap_op-renamed (column idx ty) h = refl
  remap_op-renamed (not_op a) (p, h) = rw (remap_rank a p) refl
  remap_op-renamed (add a b) (p, (q, h)) = remap_two-rank add a b p q
  remap_op-renamed (sub a b) (p, (q, h)) = remap_two-rank sub a b p q
  remap_op-renamed (mul a b) (p, (q, h)) = remap_two-rank mul a b p q
  remap_op-renamed (cmp_gt a b) (p, (q, h)) = remap_two-rank cmp_gt a b p q
  remap_op-renamed (cmp_lt a b) (p, (q, h)) = remap_two-rank cmp_lt a b p q
  remap_op-renamed (cmp_eq a b) (p, (q, h)) = remap_two-rank cmp_eq a b p q
  remap_op-renamed (and_op a b) (p, (q, h)) = remap_two-rank and_op a b p q
  remap_op-renamed (or_op a b) (p, (q, h)) = remap_two-rank or_op a b p q

  pub IsFed-renamed :
      (cols : List ColumnData) (n : ℕ) (op : Op) → IsFed cols n op → IsFed cols n (renamed live op)
  IsFed-renamed cols n (constant c) h = tt
  IsFed-renamed cols n (column idx ty) h = h
  IsFed-renamed cols n (not_op a) h = tt
  IsFed-renamed cols n (add a b) h = tt
  IsFed-renamed cols n (sub a b) h = tt
  IsFed-renamed cols n (mul a b) h = tt
  IsFed-renamed cols n (cmp_gt a b) h = tt
  IsFed-renamed cols n (cmp_lt a b) h = tt
  IsFed-renamed cols n (cmp_eq a b) h = tt
  IsFed-renamed cols n (and_op a b) h = tt
  IsFed-renamed cols n (or_op a b) h = tt

  binary-select :
      (vals : List Val) (a b : ℕ) (f : Val → Val → Val) (v : Val)
      → IsLive live a
      → IsLive live b
      → binary vals a b f ≡ some v
      → binary (select live vals) (rank live a) (rank live b) f ≡ some v
  unfolding binary
  binary-select vals a b f v p q h = elim (Option-cases (get_elem? vals a)) [
    | inl e ↦ absurd (ground arith)
    | inr (x, e) ↦ elim (Option-cases (get_elem? vals b)) [
      | inl g ↦ absurd (ground arith)
      | inr (y, g) ↦
          rw (get_elem?-select live vals a x p e, get_elem?-select live vals b y q g) (ground arith)
    ]
  ]

  -- A live instruction over the live values gives what it gave over all.
  pub eval_op-renamed :
      (ops : Floats) (cols : List ColumnData) (row : ℕ) (vals : List Val) (op : Op) (v : Val)
      → HasLive live op
      → eval_op ops cols row vals op ≡ some v
      → eval_op ops cols row (select live vals) (renamed live op) ≡ some v
  unfolding operands eval_op
  eval_op-renamed ops cols row vals (constant c) v k h = h
  eval_op-renamed ops cols row vals (column idx ty) v k h = h
  eval_op-renamed ops cols row vals (not_op a) v (p, k) h = elim (Option-cases (get_elem? vals a)) [
    | inl e ↦ absurd (ground arith)
    | inr (x, e) ↦ rw (get_elem?-select live vals a x p e) (ground arith)
  ]
  eval_op-renamed ops cols row vals (add a b) v (p, (q, k)) h = binary-select vals a b _ v p q h
  eval_op-renamed ops cols row vals (sub a b) v (p, (q, k)) h = binary-select vals a b _ v p q h
  eval_op-renamed ops cols row vals (mul a b) v (p, (q, k)) h = binary-select vals a b _ v p q h
  eval_op-renamed ops cols row vals (cmp_gt a b) v (p, (q, k)) h = binary-select vals a b _ v p q h
  eval_op-renamed ops cols row vals (cmp_lt a b) v (p, (q, k)) h = binary-select vals a b _ v p q h
  eval_op-renamed ops cols row vals (cmp_eq a b) v (p, (q, k)) h = binary-select vals a b _ v p q h
  eval_op-renamed ops cols row vals (and_op a b) v (p, (q, k)) h = binary-select vals a b _ v p q h
  eval_op-renamed ops cols row vals (or_op a b) v (p, (q, k)) h = binary-select vals a b _ v p q h
