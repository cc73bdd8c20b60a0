-- ===== src/Txn/Active.antt =====
-- The map of SnapshotManager in heraclitus-txn/src/lib.rs against the list of the live targets.
use crates.Prelude.{ℕ, suc, ◌-◌, ◌≤◌, ◌<◌, ◌≡◌, refl, arith, ◌==◌, if◌then◌else◌}
use crates.Prelude.{inl, inr, Bool-cases, List, [], ◌∷◌}
use crates.Txn.{retain_head, release_head, oldest}

-- How many live snapshots have a target.
abbrev pub outstanding : ℕ → List ℕ → ℕ
outstanding t [] = 0
outstanding t (x ∷ live) = let rest = outstanding t live in if x == t then suc rest else rest

-- `live` without one occurrence of `t`.
abbrev pub without : ℕ → List ℕ → List ℕ
without t [] = []
without t (x ∷ live) = let rest = without t live in if x == t then live else x ∷ rest

-- The count that the manager keeps.
abbrev pub kept : ℕ → List (ℕ × ℕ) → ℕ
kept t [] = 0
kept t ((lsn, c) ∷ active) = let rest = kept t active in if lsn == t then c else rest

abbrev pub IsAbove : ℕ → List (ℕ × ℕ) → Type 0
IsAbove low [] = Unit
IsAbove low ((lsn, c) ∷ active) = (low < lsn) × IsAbove low active

-- The heads rise, stay at or below `top`, and have counts that are not 0.
abbrev pub IsRising : ℕ → List (ℕ × ℕ) → Type 0
IsRising top [] = Unit
IsRising top ((lsn, c) ∷ active) = (lsn ≤ top) × (0 < c) × IsAbove lsn active × IsRising top active

pub kept-IsAbove :
    (t low : ℕ) (active : List (ℕ × ℕ)) → IsAbove low active → t ≤ low → kept t active ≡ 0
kept-IsAbove t low [] h k = refl
kept-IsAbove t low ((lsn, c) ∷ active) (a, h) k = ground (arith, kept-IsAbove t low active h)

pub IsAbove-below : (a b : ℕ) (active : List (ℕ × ℕ)) → a ≤ b → IsAbove b active → IsAbove a active
IsAbove-below a b [] l h = tt
IsAbove-below a b ((lsn, c) ∷ active) l (k, h) = (omega arith, IsAbove-below a b active l h)

pub IsRising-below :
    (a b : ℕ) (active : List (ℕ × ℕ)) → a ≤ b → IsRising a active → IsRising b active
IsRising-below a b [] l h = tt
IsRising-below a b ((lsn, c) ∷ active) l (k, p, q, h) =
    (omega arith, p, q, IsRising-below a b active l h)

pub kept-retain_head :
    (t target : ℕ) (active : List (ℕ × ℕ)) (top : ℕ)
    → IsRising top active
    → kept t (retain_head target active)
      ≡ (if target == t then suc (kept t active) else kept t active)
unfolding retain_head
kept-retain_head t target [] top h = ground arith
kept-retain_head t target ((lsn, c) ∷ active) top (a, b, d, h) =
    ground (arith, kept-retain_head t target active top h, kept-IsAbove t lsn active d)

pub IsAbove-retain_head :
    (low target : ℕ) (active : List (ℕ × ℕ))
    → low < target
    → IsAbove low active
    → IsAbove low (retain_head target active)
unfolding retain_head
IsAbove-retain_head low target [] l h = (l, tt)
IsAbove-retain_head low target ((lsn, c) ∷ active) l (k, h) =
    ground (arith, IsAbove-retain_head low target active l h)

pub IsRising-retain_head :
    (target top : ℕ) (active : List (ℕ × ℕ))
    → target ≤ top
    → IsRising top active
    → IsRising top (retain_head target active)
unfolding retain_head
IsRising-retain_head target top [] l h = (l, omega arith, tt, tt)
IsRising-retain_head target top ((lsn, c) ∷ active) l (a, b, d, h) = ground (
  arith,
  IsRising-retain_head target top active l h,
  IsAbove-retain_head lsn target active,
  IsAbove-below target lsn active,
)

pub kept-release_head :
    (t target : ℕ) (active : List (ℕ × ℕ)) (top : ℕ)
    → IsRising top active
    → kept t (release_head target active)
      ≡ (if target == t then kept t active - 1 else kept t active)
unfolding release_head
kept-release_head t target [] top h = ground arith
kept-release_head t target ((lsn, c) ∷ active) top (a, b, d, h) =
    elim (Bool-cases (lsn == target)) [
      | inl e ↦ elim (Bool-cases (c - 1 == 0)) [
        | inl z ↦ rw (e, z) (ground (arith, kept-IsAbove t lsn active d))
        | inr z ↦ rw (e, z) (ground arith)
      ]
      | inr e ↦ rw e (ground (arith, kept-release_head t target active top h))
    ]

pub IsAbove-release_head :
    (low target : ℕ) (active : List (ℕ × ℕ))
    → IsAbove low active
    → IsAbove low (release_head target active)
unfolding release_head
IsAbove-release_head low target [] h = tt
IsAbove-release_head low target ((lsn, c) ∷ active) (k, h) =
    ground (arith, IsAbove-release_head low target active h)

pub IsRising-release_head :
    (target top : ℕ) (active : List (ℕ × ℕ))
    → IsRising top active
    → IsRising top (release_head target active)
unfolding release_head
IsRising-release_head target top [] h = tt
IsRising-release_head target top ((lsn, c) ∷ active) (a, b, d, h) =
    ground
      (arith, IsRising-release_head target top active h, IsAbove-release_head lsn target active d)

pub outstanding-without :
    (t target : ℕ) (live : List ℕ)
    → outstanding t (without target live)
      ≡ (if target == t then outstanding t live - 1 else outstanding t live)
outstanding-without t target [] = ground arith
outstanding-without t target (x ∷ live) = ground (arith, outstanding-without t target live)

-- The oldest pinned head is at or below every head that is pinned.
pub oldest-le :
    (t top : ℕ) (active : List (ℕ × ℕ))
    → IsRising top active
    → 0 < kept t active
    → oldest top active ≤ t
unfolding oldest
oldest-le t top [] h k = absurd (omega arith)
oldest-le t top ((lsn, c) ∷ active) (a, b, d, h) k = ground (arith, kept-IsAbove t lsn active d)

pub oldest-top : (top : ℕ) (active : List (ℕ × ℕ)) → IsRising top active → oldest top active ≤ top
unfolding oldest
oldest-top top [] h = omega arith
oldest-top top ((lsn, c) ∷ active) (a, b, d, h) = a

pub oldest-grows : (a b : ℕ) (active : List (ℕ × ℕ)) → a ≤ b → oldest a active ≤ oldest b active
unfolding oldest
oldest-grows a b [] h = h
oldest-grows a b ((lsn, c) ∷ active) h = omega arith

pub oldest-retain_head :
    (top : ℕ) (active : List (ℕ × ℕ))
    → IsRising top active
    → oldest top (retain_head top active) ≡ oldest top active
unfolding oldest retain_head
oldest-retain_head top [] h = refl
oldest-retain_head top ((lsn, c) ∷ active) (a, b, d, h) = ground arith

pub IsAbove-oldest :
    (low top : ℕ) (active : List (ℕ × ℕ)) → low ≤ top → IsAbove low active → low ≤ oldest top active
unfolding oldest
IsAbove-oldest low top [] l h = l
IsAbove-oldest low top ((lsn, c) ∷ active) l (k, h) = omega arith

pub oldest-release_head :
    (target top : ℕ) (active : List (ℕ × ℕ))
    → IsRising top active
    → oldest top active ≤ oldest top (release_head target active)
unfolding oldest release_head
oldest-release_head target top [] h = omega arith
oldest-release_head target top ((lsn, c) ∷ active) (a, b, d, h) =
    let k = IsAbove-oldest lsn top active a d in ground arith
