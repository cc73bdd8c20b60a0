-- ===== src/Txn/Tests.antt =====
-- SnapshotManager of heraclitus-txn/src/lib.rs with two readers and a growing head.
use crates.Prelude.{ℕ, ◌≤◌, ◌≡◌, refl, [], ◌∷◌, All}
use crates.Txn.{
  SnapshotManager, TransactionSnapshot, new, advance_head, begin, release, watermark, head,
}
use crates.Txn.{begin_with, historical_snapshot}
use crates.Txn.Watermark.{start, advanced, begun, watermark-le}

abbrev one_reader : SnapshotManager
one_reader = (begin (new 10 1)).1

abbrev grown : SnapshotManager
grown = advance_head 25 one_reader

abbrev two_readers : SnapshotManager
two_readers = (begin grown).1

abbrev first : TransactionSnapshot
first = (begin (new 10 1)).0

clamped : begin_with 40 (historical_snapshot 99) ≡ record { head_lsn = 40 }
unfolding begin_with
clamped = refl

-- The older reader holds the watermark, and its release gives it to the younger one.
pinned : ◌≡◌ {A = ℕ} (watermark two_readers) 10
unfolding watermark begin advance_head
pinned = refl

freed : ◌≡◌ {A = ℕ} (watermark (release first two_readers)) 25
unfolding watermark begin advance_head release
freed = refl

watermark-le_example :
    All (λ (t : ℕ). watermark two_readers ≤ t) (25 ∷ 10 ∷ [])
    × (watermark two_readers ≤ head two_readers)
    × (watermark two_readers ≤ watermark (begin two_readers).1)
    × (watermark two_readers ≤ watermark (release first two_readers))
unfolding begin advance_head
watermark-le_example =
    watermark-le 10 1 two_readers (25 ∷ 10 ∷ []) first
      (begun grown (10 ∷ []) (advanced one_reader (10 ∷ []) 25 (begun (new 10 1) [] start)))
