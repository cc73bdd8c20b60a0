-- ===== src/Memtable/Adjacency.antt =====
-- The rows of the adjacency overlay of heraclitus-memtable/src/lib.rs, as children are added and
-- forgotten.
use crates.Prelude.{ℕ, ◌≡◌, ◌≢◌, refl, sym, ap, ◌∙◌, arith, ◌==◌, not}
use crates.Prelude.{true, inl, inr, Bool-cases, List, [], ◌∷◌, ◌++◌, none, some, if◌then◌else◌}
use crates.Prelude.{length, All, All-append, append_assoc, append-nil}
use crates.Prelude.Search.{retain}
use crates.Memtable.{Episode, row, add_child, add_children, forget_child}
use crates.Memtable.{default_row}

abbrev pub children : ℕ → List (ℕ × List ℕ) → List ℕ
children p rows = default_row (row p rows)

-- The child, as often as `p` is among its parents.
abbrev pub named : ℕ → List ℕ → ℕ → List ℕ
named p [] child = []
named p (x ∷ parents) child =
    let rest = named p parents child in if x == p then child ∷ rest else rest

abbrev pub named_by : ℕ → List (ℕ × Episode) → List ℕ
named_by p [] = []
named_by p ((lsn, e) ∷ entries) = named p e.parents e.id ++ named_by p entries

-- No id has two rows.
abbrev pub IsKeyed : List (ℕ × List ℕ) → Type 0
IsKeyed [] = Unit
IsKeyed ((p, cs) ∷ rows) = (row p rows ≡ none) × IsKeyed rows

-- No two entries have one id.
abbrev pub IsFresh : ℕ → List (ℕ × Episode) → Type 0
IsFresh id entries = All (λ (x : ℕ × Episode). x.1.id ≢ id) entries

abbrev pub IsDistinct : List (ℕ × Episode) → Type 0
IsDistinct [] = Unit
IsDistinct ((lsn, e) ∷ entries) = IsFresh e.id entries × IsDistinct entries

row-add_child :
    (p parent child : ℕ) (rows : List (ℕ × List ℕ))
    → row p (add_child parent child rows)
      ≡ (if parent == p then some (children p rows ++ (child ∷ [])) else row p rows)
unfolding row add_child
row-add_child p parent child [] = ground arith
row-add_child p parent child ((q, cs) ∷ rows) = ground (arith, row-add_child p parent child rows)

IsKeyed-add_child :
    (parent child : ℕ) (rows : List (ℕ × List ℕ))
    → IsKeyed rows
    → IsKeyed (add_child parent child rows)
unfolding add_child
IsKeyed-add_child parent child [] h = (unfold row in refl, tt)
IsKeyed-add_child parent child ((q, cs) ∷ rows) (k, h) =
    ground (arith, IsKeyed-add_child parent child rows h, row-add_child q parent child rows)

pub add_children-named :
    (p child : ℕ) (parents : List ℕ) (rows : List (ℕ × List ℕ))
    → children p (add_children parents child rows) ≡ children p rows ++ named p parents child
unfolding add_children
add_children-named p child [] rows = sym (append-nil (children p rows))
add_children-named p child (x ∷ parents) rows = elim (Bool-cases (x == p)) [
  | inl e ↦
      add_children-named p child parents (add_child x child rows)
      ∙ rw (row-add_child p x child rows, e)
          (append_assoc (children p rows) (child ∷ []) (named p parents child))
  | inr e ↦
      add_children-named p child parents (add_child x child rows)
      ∙ rw (row-add_child p x child rows, e) refl
]

pub IsKeyed-add_children :
    (child : ℕ) (parents : List ℕ) (rows : List (ℕ × List ℕ))
    → IsKeyed rows
    → IsKeyed (add_children parents child rows)
unfolding add_children
IsKeyed-add_children child [] rows h = h
IsKeyed-add_children child (x ∷ parents) rows h =
    IsKeyed-add_children child parents (add_child x child rows) (IsKeyed-add_child x child rows h)

-- The children but one.
abbrev pub others : ℕ → List ℕ → List ℕ
others child [] = []
others child (c ∷ cs) = let rest = others child cs in if c == child then rest else c ∷ rest

retain-others :
    (child : ℕ) (cs : List ℕ) → retain (λ (c : ℕ). not (c == child)) cs ≡ others child cs
unfolding retain
retain-others child [] = refl
retain-others child (c ∷ cs) = elim (Bool-cases (c == child)) [
  | inl e ↦ rw e (retain-others child cs)
  | inr e ↦ rw e (ap (λ zs. c ∷ zs) (retain-others child cs))
]

pub others-others : (child : ℕ) (cs : List ℕ) → others child (others child cs) ≡ others child cs
others-others child [] = refl
others-others child (c ∷ cs) = ground (arith, others-others child cs)

pub All-others : (P : ℕ → Type 0) (child : ℕ) (cs : List ℕ) → All P cs → All P (others child cs)
All-others P child [] h = tt
All-others P child (c ∷ cs) (h, hs) = elim (Bool-cases (c == child)) [
  | inl e ↦ rw e (All-others P child cs hs)
  | inr e ↦ rw e (h, All-others P child cs hs)
]

pub named-append :
    (p child : ℕ) (ps qs : List ℕ) → named p (ps ++ qs) child ≡ named p ps child ++ named p qs child
named-append p child [] qs = refl
named-append p child (x ∷ ps) qs = ground (arith, named-append p child ps qs)

pub All-named :
    (P : ℕ → Type 0) (p child : ℕ) (parents : List ℕ) → P child → All P (named p parents child)
All-named P p child [] h = tt
All-named P p child (x ∷ parents) h = elim (Bool-cases (x == p)) [
  | inl e ↦ rw e (h, All-named P p child parents h)
  | inr e ↦ rw e (All-named P p child parents h)
]

pub All-named_by :
    (P : ℕ → Type 0) (p : ℕ) (entries : List (ℕ × Episode))
    → All (λ (x : ℕ × Episode). P x.1.id) entries
    → All P (named_by p entries)
All-named_by P p [] h = tt
All-named_by P p ((lsn, e) ∷ entries) (h, hs) =
    All-append P (named p e.parents e.id) (named_by p entries) (All-named P p e.id e.parents h)
      (All-named_by P p entries hs)

pub others-append :
    (child : ℕ) (as' bs : List ℕ) → others child (as' ++ bs) ≡ others child as' ++ others child bs
others-append child [] bs = refl
others-append child (c ∷ as') bs = ground (arith, others-append child as' bs)

pub others-named : (p child : ℕ) (parents : List ℕ) → others child (named p parents child) ≡ []
others-named p child [] = refl
others-named p child (x ∷ parents) = ground (arith, others-named p child parents)

others-named_other :
    (p id child : ℕ) (parents : List ℕ)
    → id ≢ child
    → others child (named p parents id) ≡ named p parents id
others-named_other p id child [] h = refl
others-named_other p id child (x ∷ parents) h =
    ground (arith, others-named_other p id child parents h)

pub others-named_by :
    (p child : ℕ) (entries : List (ℕ × Episode))
    → IsFresh child entries
    → others child (named_by p entries) ≡ named_by p entries
others-named_by p child [] h = refl
others-named_by p child ((lsn, e) ∷ entries) (k, h) =
    others-append child (named p e.parents e.id) (named_by p entries)
    ∙ rw (others-named_other p e.id child e.parents k, others-named_by p child entries h) refl

row-forget_child-none :
    (p parent child : ℕ) (rows : List (ℕ × List ℕ))
    → row p rows ≡ none
    → row p (forget_child parent child rows) ≡ none
unfolding row forget_child
row-forget_child-none p parent child [] h = refl
row-forget_child-none p parent child ((q, cs) ∷ rows) h =
    ground (arith, row-forget_child-none p parent child rows)

pub IsKeyed-forget_child :
    (parent child : ℕ) (rows : List (ℕ × List ℕ))
    → IsKeyed rows
    → IsKeyed (forget_child parent child rows)
unfolding forget_child
IsKeyed-forget_child parent child [] h = tt
IsKeyed-forget_child parent child ((q, cs) ∷ rows) (k, h) =
    ground
      (arith, IsKeyed-forget_child parent child rows h, row-forget_child-none q parent child rows)

length_zero : (cs : List ℕ) → (length cs == 0) ≡ true → cs ≡ []
length_zero [] h = refl
length_zero (c ∷ cs) h = absurd (ground arith)

pub children-forget_child :
    (p parent child : ℕ) (rows : List (ℕ × List ℕ))
    → IsKeyed rows
    → children p (forget_child parent child rows)
      ≡ (if parent == p then others child (children p rows) else children p rows)
unfolding row forget_child
children-forget_child p parent child [] h = ground arith
children-forget_child p parent child ((q, cs) ∷ rows) (k, h) =
    let r = retain-others child cs in
    elim (Bool-cases (q == parent)) [
      | inl e ↦ elim (Bool-cases (length (others child cs) == 0)) [
        | inl z ↦ rw (e, r, z) (let w = length_zero (others child cs) z in ground arith)
        | inr z ↦ rw (e, r, z) (ground arith)
      ]
      | inr e ↦ rw e (ground (arith, children-forget_child p parent child rows h))
    ]
