-- ===== src/Tx/Validation/Tests.antt =====
-- Witnesses and tests for the backward validation and its lock.
use pipefabric.Prelude.{
  ℕ, ◌<◌, ◌≡◌, ◌↔◌, ◌⊎◌, refl, true, false, some, List, [], ◌∷◌, All, ◌>>=◌, arith,
}
use pipefabric.Prelude.Eq.{nat_eq}
use pipefabric.Tx.Validation.{BoccTable, conflicts, read_commit}
use pipefabric.Tx.Validation.Cleaning.{Commit, commit, commit_each, entry, read_commit-commits}
use pipefabric.Tx.Validation.Lock.{
  free, shared, exclusive, exclusive_end, Step, lock_shared, lock_exclusive, unlock_exclusive,
  OneWriter, here, next, OneWriter-exclusive,
}

abbrev new_table : BoccTable ℕ ℕ
new_table = record { write_set = []; committed_wss = []; tbl = [] }

-- Transactions 2 and 5 write the keys 1 and 2 while transaction 6 reads, which began before the end
-- of the second one.
abbrev two_commits : List (Commit ℕ ℕ)
two_commits =
    record { writes = (1, 10) ∷ []; txn_id = 2; oldest = 2; val_ts = 3; end_ts = 4 }
    ∷ record { writes = (2, 20) ∷ []; txn_id = 5; oldest = 3; val_ts = 7; end_ts = 8 }
    ∷ []

read_commit-commits_example :
    (s' : BoccTable ℕ ℕ) × (commit_each two_commits new_table ≡ some s')
    × ((read_commit 6 10 (2 ∷ []) s' ≡ true)
        ↔ All (λ (c : Commit ℕ ℕ). conflicts 6 11 (2 ∷ []) (entry c) ≡ false) two_commits)
read_commit-commits_example =
    read_commit-commits new_table two_commits 6 10 (2 ∷ []) refl (omega arith, (omega arith, tt))
      (omega arith, (omega arith, tt))

-- Transaction 8 reads key 1, which transaction 5 has overwritten since 8 began. Then transaction 7
-- commits, the oldest one that is active, and the clean-up of the log removes the write set of 5.
abbrev lost_commits : List (Commit ℕ ℕ)
lost_commits =
    record { writes = (1, 10) ∷ []; txn_id = 5; oldest = 5; val_ts = 9; end_ts = 10 }
    ∷ record { writes = (2, 20) ∷ []; txn_id = 7; oldest = 7; val_ts = 11; end_ts = 12 }
    ∷ []

conflict_lost :
    (commit_each lost_commits new_table >>= λ s. some (read_commit 8 13 (1 ∷ []) s)) ≡ some true
unfolding commit_each commit read_commit
conflict_lost = refl

conflict_there :
    conflicts {K = ℕ} 8 14 (1 ∷ []) (record { keys = 1 ∷ []; val_ts = 9; end_ts = 10 }) ≡ true
unfolding conflicts
conflict_there = refl

written_once : OneWriter free (shared (exclusive_end (exclusive free)))
unfolding free exclusive exclusive_end shared
written_once =
    next
      (next (next here (lock_exclusive free refl) (omega arith))
        (unlock_exclusive (exclusive free) (omega arith)) (omega arith))
      (lock_shared (exclusive_end (exclusive free)) refl) (omega arith)

OneWriter-exclusive_example :
    ((shared (exclusive_end (exclusive free))).writers < 2)
    × (((shared (exclusive_end (exclusive free))).active_readers ≡ 0)
        ⊎ ((shared (exclusive_end (exclusive free))).writers ≡ 0))
OneWriter-exclusive_example = OneWriter-exclusive written_once

-- With a second writer the lock is given to a reader while one of them still writes.
overlap :
    Step
      (exclusive_end (exclusive (exclusive free)))
      (shared (exclusive_end (exclusive (exclusive free))))
unfolding exclusive_end
overlap = lock_shared (exclusive_end (exclusive (exclusive free))) refl

overlap_counts :
    ((shared (exclusive_end (exclusive (exclusive free)))).writers ≡ 1)
    × ((shared (exclusive_end (exclusive (exclusive free)))).active_readers ≡ 1)
unfolding free exclusive exclusive_end shared
overlap_counts = (refl, refl)
