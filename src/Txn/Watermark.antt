-- ===== src/Txn/Watermark.antt =====
-- The watermark of SnapshotManager in heraclitus-txn/src/lib.rs, in the states that threads can bring
-- it to.
use crates.Prelude.{ℕ, ◌≤◌, ◌<◌, ◌≡◌, refl, arith}
use crates.Prelude.{List, [], ◌∷◌, max, All}
use crates.Txn.{TransactionSnapshot, SnapshotManager, new, advance_head, bump_epoch, begin, release}
use crates.Txn.{oldest, watermark, head}
use crates.Txn.Active.{outstanding, without, kept}
use crates.Txn.Active.{IsRising, IsRising-below}
use crates.Txn.Active.{kept-retain_head, IsRising-retain_head, kept-release_head}
use crates.Txn.Active.{IsRising-release_head, outstanding-without, oldest-le}
use crates.Txn.Active.{oldest-top, oldest-grows, oldest-retain_head}
use crates.Txn.Active.{oldest-release_head}

-- The states of a manager, with the targets of the snapshots that are out. A snapshot is released
-- once.
pub data IsReachable (initial_lsn initial_epoch : ℕ) : SnapshotManager → List ℕ → Type 0 where
  start : IsReachable initial_lsn initial_epoch (new initial_lsn initial_epoch) []
  advanced :
      (m : SnapshotManager) (live : List ℕ) (head : ℕ)
      → IsReachable initial_lsn initial_epoch m live
      → IsReachable initial_lsn initial_epoch (advance_head head m) live
  bumped :
      (m : SnapshotManager) (live : List ℕ)
      → IsReachable initial_lsn initial_epoch m live
      → IsReachable initial_lsn initial_epoch (bump_epoch m).1 live
  begun :
      (m : SnapshotManager) (live : List ℕ)
      → IsReachable initial_lsn initial_epoch m live
      → IsReachable initial_lsn initial_epoch (begin m).1 ((begin m).0.target_lsn ∷ live)
  released :
      (m : SnapshotManager) (live : List ℕ) (snap : TransactionSnapshot)
      → 0 < outstanding snap.target_lsn live
      → IsReachable initial_lsn initial_epoch m live
      → IsReachable initial_lsn initial_epoch (release snap m) (without snap.target_lsn live)

pub record IsSound (m : SnapshotManager) (live : List ℕ) : Type 0 where
  pub rising : IsRising m.current_lsn m.active
  pub counts : (t : ℕ) → kept t m.active ≡ outstanding t live
  pub floor : m.watermark_lsn ≤ oldest m.current_lsn m.active

start-IsSound : (lsn epoch : ℕ) → IsSound (new lsn epoch) []
start-IsSound lsn epoch = record {
  rising = tt;
  counts = λ (t : ℕ). refl;
  floor = unfold oldest in omega arith;
}

advance_head-IsSound :
    (m : SnapshotManager) (live : List ℕ) (h : ℕ) → IsSound m live → IsSound (advance_head h m) live
unfolding advance_head
advance_head-IsSound m live h s = record {
  rising = IsRising-below m.current_lsn (max m.current_lsn h) m.active (omega arith) s.rising;
  counts = s.counts;
  floor =
      omega
        (arith, s.floor, oldest-grows m.current_lsn (max m.current_lsn h) m.active (omega arith));
}

bump_epoch-IsSound :
    (m : SnapshotManager) (live : List ℕ) → IsSound m live → IsSound (bump_epoch m).1 live
unfolding bump_epoch
bump_epoch-IsSound m live s = record { rising = s.rising; counts = s.counts; floor = s.floor }

begin-IsSound :
    (m : SnapshotManager) (live : List ℕ)
    → IsSound m live
    → IsSound (begin m).1 ((begin m).0.target_lsn ∷ live)
unfolding begin
begin-IsSound m live s = record {
  rising = IsRising-retain_head m.current_lsn m.current_lsn m.active (omega arith) s.rising;
  counts = λ (t : ℕ).
      ground (arith, kept-retain_head t m.current_lsn m.active m.current_lsn s.rising, s.counts t);
  floor = omega arith;
}

release-IsSound :
    (m : SnapshotManager) (live : List ℕ) (snap : TransactionSnapshot)
    → IsSound m live
    → IsSound (release snap m) (without snap.target_lsn live)
unfolding release
release-IsSound m live snap s = record {
  rising = IsRising-release_head snap.target_lsn m.current_lsn m.active s.rising;
  counts = λ (t : ℕ). ground (
    arith,
    kept-release_head t snap.target_lsn m.active m.current_lsn s.rising,
    outstanding-without t snap.target_lsn live,
    s.counts t,
  );
  floor = omega arith;
}

pub IsReachable-IsSound :
    (lsn epoch : ℕ) (m : SnapshotManager) (live : List ℕ)
    → IsReachable lsn epoch m live
    → IsSound m live
IsReachable-IsSound lsn epoch m live start = start-IsSound lsn epoch
IsReachable-IsSound lsn epoch m live (advanced a l h r) =
    advance_head-IsSound a l h (IsReachable-IsSound lsn epoch a l r)
IsReachable-IsSound lsn epoch m live (bumped a l r) =
    bump_epoch-IsSound a l (IsReachable-IsSound lsn epoch a l r)
IsReachable-IsSound lsn epoch m live (begun a l r) =
    begin-IsSound a l (IsReachable-IsSound lsn epoch a l r)
IsReachable-IsSound lsn epoch m live (released a l snap p r) =
    release-IsSound a l snap (IsReachable-IsSound lsn epoch a l r)

All-outstanding :
    (low : ℕ) (live : List ℕ)
    → ((t : ℕ) → 0 < outstanding t live → low ≤ t)
    → All (λ (t : ℕ). low ≤ t) live
All-outstanding low [] h = tt
All-outstanding low (x ∷ live) h =
    (h x (ground arith), All-outstanding low live (λ (t : ℕ) k. h t (ground arith)))

-- In every state that threads can bring a manager to, with snapshots that are released once each, the
-- watermark is at or below the head and the target of every live snapshot, and neither `begin` nor
-- `release` takes it back.
pub watermark-le :
    (lsn epoch : ℕ) (m : SnapshotManager) (live : List ℕ) (snap : TransactionSnapshot)
    → IsReachable lsn epoch m live
    → All (λ (t : ℕ). watermark m ≤ t) live
      × (watermark m ≤ head m)
      × (watermark m ≤ watermark (begin m).1)
      × (watermark m ≤ watermark (release snap m))
unfolding watermark head begin release
watermark-le lsn epoch m live snap r =
    let s = IsReachable-IsSound lsn epoch m live r in
    let f = s.floor in
    (
      All-outstanding m.watermark_lsn live (λ (t : ℕ) k.
          (let c = s.counts t in
            omega (arith, oldest-le t m.current_lsn m.active s.rising (omega arith)))),
      omega (arith, oldest-top m.current_lsn m.active s.rising),
      omega (arith, oldest-retain_head m.current_lsn m.active s.rising),
      omega (arith, oldest-release_head snap.target_lsn m.current_lsn m.active s.rising),
    )
