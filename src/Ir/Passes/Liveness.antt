-- ===== src/Ir/Passes/Liveness.antt =====
-- The backward marking of `dead_code_elimination` in hume-ir/src/passes.rs.
use crates.Prelude.{ℕ, zero, suc, ◌+◌, ◌<◌, ◌≤◌, ◌≡◌, refl, sym, ap, ◌∙◌, arith, Bool, true}
use crates.Prelude.{ltb, inl, inr, Bool-cases, List, [], ◌∷◌, some, length, get_elem?, set, All}
use crates.Prelude.{get_elem?-below, length-set, ◌≢◌}
use crates.Ir.{Inst}
use crates.Ir.Passes.{operands, mark, mark_all, mark_operands, mark_live}
use crates.Ir.Passes.Renaming.{IsLive, HasLive}

pub get_elem?-set_at :
    (xs : List Bool) (i : ℕ) (b : Bool) → i < length xs → get_elem? (set xs i b) i ≡ some b
get_elem?-set_at [] i b h = absurd (omega arith)
get_elem?-set_at (x ∷ xs) zero b h = refl
get_elem?-set_at (x ∷ xs) (suc i) b h = get_elem?-set_at xs i b (omega arith)

get_elem?-set_other :
    (xs : List Bool) (i j : ℕ) (b : Bool) → i ≢ j → get_elem? (set xs i b) j ≡ get_elem? xs j
get_elem?-set_other [] i j b h = refl
get_elem?-set_other (x ∷ xs) zero zero b h = absurd (h refl)
get_elem?-set_other (x ∷ xs) zero (suc j) b h = refl
get_elem?-set_other (x ∷ xs) (suc i) zero b h = refl
get_elem?-set_other (x ∷ xs) (suc i) (suc j) b h = get_elem?-set_other xs i j b (λ e. h (ap suc e))

-- From `live` to `live'` marks below `i` were added and nothing else changed.
pub record IsMarked (i : ℕ) (live live' : List Bool) : Type 0 where
  pub size : length live' ≡ length live
  pub grows : (j : ℕ) → IsLive live j → IsLive live' j
  pub keeps : (j : ℕ) → i ≤ j → get_elem? live' j ≡ get_elem? live j

IsMarked-refl : (i : ℕ) (live : List Bool) → IsMarked i live live
IsMarked-refl i live = record { size = refl; grows = λ (j : ℕ) h. h; keeps = λ (j : ℕ) h. refl }

IsMarked-trans : (i : ℕ) (a b c : List Bool) → IsMarked i a b → IsMarked i b c → IsMarked i a c
IsMarked-trans i a b c m n = record {
  size = n.size ∙ m.size;
  grows = λ (j : ℕ) h. n.grows j (m.grows j h);
  keeps = λ (j : ℕ) h. n.keeps j h ∙ m.keeps j h;
}

IsLive-set : (xs : List Bool) (i j : ℕ) → IsLive xs j → IsLive (set xs i true) j
IsLive-set [] i j h = h
IsLive-set (x ∷ xs) zero zero h = refl
IsLive-set (x ∷ xs) zero (suc j) h = h
IsLive-set (x ∷ xs) (suc i) zero h = h
IsLive-set (x ∷ xs) (suc i) (suc j) h = IsLive-set xs i j h

mark-IsMarked :
    (i : ℕ) (live : List Bool) (v : ℕ)
    → v < i
    → i ≤ length live
    → (live' : List Bool) × (mark live v ≡ some live') × IsMarked i live live' × IsLive live' v
unfolding mark
mark-IsMarked i live v h k =
    let e : ltb v (length live) ≡ true = ground arith in
    (
      set live v true,
      rw e refl,
      record {
        size = length-set live v true;
        grows = λ (j : ℕ) l. IsLive-set live v j l;
        keeps = λ (j : ℕ) l. get_elem?-set_other live v j true (λ (p : v ≡ j). omega arith);
      },
      get_elem?-set_at live v true (omega arith),
    )

All-grows :
    (i : ℕ) (live live' : List Bool) (vs : List ℕ)
    → IsMarked i live live'
    → All (IsLive live) vs
    → All (IsLive live') vs
All-grows i live live' [] m h = tt
All-grows i live live' (v ∷ vs) m (h, hs) = (m.grows v h, All-grows i live live' vs m hs)

mark_all-IsMarked :
    (i : ℕ) (live : List Bool) (vs : List ℕ)
    → All (λ (v : ℕ). v < i) vs
    → i ≤ length live
    → (live' : List Bool) × (mark_all live vs ≡ some live')
      × IsMarked i live live'
      × All (IsLive live') vs
unfolding mark_all
mark_all-IsMarked i live [] h k = (live, refl, IsMarked-refl i live, tt)
mark_all-IsMarked i live (v ∷ vs) (h, hs) k =
    let (l1, e, m, p) = mark-IsMarked i live v h k in
    let (l2, e', m', ps) = mark_all-IsMarked i l1 vs hs (omega (arith, m.size)) in
    (l2, rw e e', IsMarked-trans i live l1 l2 m m', (m'.grows v p, ps))

-- An instruction that is live has live operands.
abbrev pub IsClosedAt : List Bool → ℕ → Inst → Type 0
IsClosedAt live i inst = IsLive live i → HasLive live inst.op

abbrev pub IsClosed : List Bool → ℕ → List Inst → Type 0
IsClosed live i [] = Unit
IsClosed live i (inst ∷ insts) = IsClosedAt live i inst × IsClosed live (i + 1) insts

mark_operands-IsMarked :
    (live : List Bool) (i : ℕ) (inst : Inst)
    → All (λ (v : ℕ). v < i) (operands inst.op)
    → i < length live
    → (live' : List Bool) × (mark_operands live i inst ≡ some live')
      × IsMarked i live live'
      × IsClosedAt live' i inst
unfolding mark_operands
mark_operands-IsMarked live i inst h k =
    let (b, e) = get_elem?-below live i k in
    elim (Bool-cases b) [
      | inl t ↦
          let (l', p, m, a) = mark_all-IsMarked i live (operands inst.op) h (omega arith) in
          (l', rw e (rw t p), m, λ q. a)
      | inr t ↦ (live, rw e (rw t refl), IsMarked-refl i live, λ q. absurd (ground arith))
    ]

IsClosed-marked :
    (i j : ℕ) (live live' : List Bool) (insts : List Inst)
    → i ≤ j
    → IsMarked i live live'
    → IsClosed live j insts
    → IsClosed live' j insts
IsClosed-marked i j live live' [] k m h = tt
IsClosed-marked i j live live' (inst ∷ insts) k m (h, hs) = (
  λ q. All-grows i live live' (operands inst.op) m (h (sym (m.keeps j k) ∙ q)),
  IsClosed-marked i (j + 1) live live' insts (omega arith) m hs,
)

-- The operands of the instructions from `i` on stand before them.
abbrev pub IsCausal : ℕ → List Inst → Type 0
IsCausal i [] = Unit
IsCausal i (inst ∷ insts) = All (λ (v : ℕ). v < i) (operands inst.op) × IsCausal (i + 1) insts

-- The whole backward loop.
pub mark_live-IsClosed :
    (live : List Bool) (i : ℕ) (insts : List Inst)
    → IsCausal i insts
    → i + length insts ≤ length live
    → (live' : List Bool) × (mark_live live i insts ≡ some live')
      × (length live' ≡ length live)
      × ((j : ℕ) → IsLive live j → IsLive live' j)
      × IsClosed live' i insts
unfolding mark_live
mark_live-IsClosed live i [] h k = (live, refl, refl, λ (j : ℕ) q. q, tt)
mark_live-IsClosed live i (inst ∷ insts) (h, hs) k =
    let (l1, e, s, g, c) = mark_live-IsClosed live (i + 1) insts hs (omega arith) in
    let (l2, e', m, c') = mark_operands-IsMarked l1 i inst h (omega arith) in
    (
      l2,
      rw e e',
      m.size ∙ s,
      λ (j : ℕ) q. m.grows j (g j q),
      (c', IsClosed-marked i (i + 1) l1 l2 insts (omega arith) m c),
    )
