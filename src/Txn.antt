-- ===== src/Txn.antt =====
-- heraclitus-txn/src/lib.rs: read points, and the manager that counts the live ones. The lock makes
-- `begin` and `release` one step each; the head is read inside it, once. The log, of another crate,
-- gives its head, an argument. Fewer than 2 ^ 64 snapshots are live, so that counts do not wrap.
pub mod Active
pub mod Watermark
mod Tests
use crates.Prelude.{ℕ, ◌+◌, ◌-◌, ◌%◌, ◌^◌, max, min, ltb, ◌==◌, if◌then◌else◌, Bool, List, [], ◌∷◌}

-- `Snapshot`, by the head that it has captured.
pub record Snapshot : Type 0 where
  pub head_lsn : ℕ

unfoldable pub sees : Snapshot → ℕ → Bool
sees s lsn = ltb lsn s.head_lsn

-- heraclitus-core/src/consistency.rs.
pub data IsolationLevel : Type 0 where
  historical_snapshot repeatable_snapshot read_committed_snapshot : ℕ → IsolationLevel
  streaming_snapshot : ℕ → IsolationLevel

unfoldable pub begin_snapshot : ℕ → Snapshot
begin_snapshot head = record { head_lsn = head }

unfoldable pub begin_with : ℕ → IsolationLevel → Snapshot
begin_with head (historical_snapshot lsn) = record { head_lsn = min lsn head }
begin_with head (repeatable_snapshot l) = record { head_lsn = head }
begin_with head (read_committed_snapshot l) = record { head_lsn = head }
begin_with head (streaming_snapshot l) = record { head_lsn = head }

pub record TransactionSnapshot : Type 0 where
  pub target_lsn : ℕ
  pub watermark_lsn : ℕ
  pub catalog_epoch : ℕ

unfoldable pub contains : TransactionSnapshot → ℕ → Bool
contains s lsn = ltb lsn s.target_lsn

-- `active` is the BTreeMap from a head to the count of its live snapshots, in the order of the heads.
pub record SnapshotManager : Type 0 where
  pub current_lsn : ℕ
  pub watermark_lsn : ℕ
  pub current_epoch : ℕ
  pub active : List (ℕ × ℕ)

abbrev pub new : ℕ → ℕ → SnapshotManager
new initial_lsn initial_epoch = record {
  current_lsn = initial_lsn;
  watermark_lsn = initial_lsn;
  current_epoch = initial_epoch;
  active = [];
}

unfoldable pub advance_head : ℕ → SnapshotManager → SnapshotManager
advance_head head m = record {
  current_lsn = max m.current_lsn head;
  watermark_lsn = m.watermark_lsn;
  current_epoch = m.current_epoch;
  active = m.active;
}

-- The epoch that is returned, and the manager.
unfoldable pub bump_epoch : SnapshotManager → ℕ × SnapshotManager
bump_epoch m =
    let epoch = (m.current_epoch + 1) % 2 ^ 64 in
    (
      epoch,
      record {
        current_lsn = m.current_lsn;
        watermark_lsn = m.watermark_lsn;
        current_epoch = epoch;
        active = m.active;
      },
    )

-- `*active.entry(target).or_insert(0) += 1`.
unfoldable pub retain_head : ℕ → List (ℕ × ℕ) → List (ℕ × ℕ)
retain_head target [] = (target, 1) ∷ []
retain_head target ((lsn, count) ∷ active) =
    let rest = retain_head target active in
    if lsn == target
    then (lsn, count + 1) ∷ active
    else if ltb target lsn
    then (target, 1) ∷ (lsn, count) ∷ active
    else (lsn, count) ∷ rest

-- The count of a head less one, and the entry away where that is 0.
unfoldable pub release_head : ℕ → List (ℕ × ℕ) → List (ℕ × ℕ)
release_head target [] = []
release_head target ((lsn, count) ∷ active) =
    let rest = release_head target active in
    if lsn == target
    then if count - 1 == 0 then active else (lsn, count - 1) ∷ active
    else (lsn, count) ∷ rest

-- The oldest head that is pinned, or `lsn` where none is.
unfoldable pub oldest : ℕ → List (ℕ × ℕ) → ℕ
oldest lsn [] = lsn
oldest lsn ((first, count) ∷ active) = first

unfoldable pub begin : SnapshotManager → TransactionSnapshot × SnapshotManager
unfolding retain_head oldest
begin m =
    let target = m.current_lsn in
    let active = retain_head target m.active in
    let wm = oldest target active in
    (
      record { target_lsn = target; watermark_lsn = wm; catalog_epoch = m.current_epoch },
      record {
        current_lsn = m.current_lsn;
        watermark_lsn = wm;
        current_epoch = m.current_epoch;
        active = active;
      },
    )

unfoldable pub release : TransactionSnapshot → SnapshotManager → SnapshotManager
unfolding release_head oldest
release snap m =
    let active = release_head snap.target_lsn m.active in
    record {
      current_lsn = m.current_lsn;
      watermark_lsn = oldest m.current_lsn active;
      current_epoch = m.current_epoch;
      active = active;
    }

unfoldable pub watermark : SnapshotManager → ℕ
watermark m = m.watermark_lsn

unfoldable pub head : SnapshotManager → ℕ
head m = m.current_lsn
