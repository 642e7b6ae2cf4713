-- ===== src/Tx/Locking/Tests.antt =====
-- A writer of two keys beside readers.
use pipefabric.Prelude.{ℕ, ◌≡◌, refl, true, false, Option, none, some, List, [], ◌∷◌}
use pipefabric.Prelude.Int.{◌+ℤ◌, ◌-ℤ◌}
use pipefabric.Prelude.Eq.{nat_eq}
use pipefabric.Prelude.Assoc.{lookup}
use pipefabric.Tx.Locking.{
  comes, leaves, S2plTable, new_table, Call, inserts, deletes, reads, cleans, commits, run,
  get_by_key, insert, delete_by_key, transaction_abort, is_open,
}
use pipefabric.Tx.Locking.Held.{is_abort}
use pipefabric.Tx.Locking.Undo
use pipefabric.Tx.Locking.Undo.{write_each, answer_of, latest}
use pipefabric.Tx.Locking.Blocked

-- A reader of key 1 leaves while the writer of key 1 waits.
abbrev calls : List (Call ℕ ℕ)
calls =
    inserts [] 1 10 ∷ commits ∷ reads 1 ∷ inserts (comes 2 ∷ leaves 1 ∷ []) 1 11 ∷ deletes [] 3 ∷ []

-- The reads are over, and the keys unlocked.
abbrev quiet_calls : List (Call ℕ ℕ)
quiet_calls = inserts [] 1 10 ∷ inserts [] 2 20 ∷ commits ∷ reads 1 ∷ cleans (1 ∷ []) ∷ []

abbrev or_empty : Option (S2plTable ℕ ℕ) → S2plTable ℕ ℕ
or_empty none = new_table
or_empty (some t) = t

abbrev busy : S2plTable ℕ ℕ
busy = or_empty (run calls new_table)

abbrev quiet : S2plTable ℕ ℕ
quiet = or_empty (run quiet_calls new_table)

busy-run : run calls new_table ≡ some busy
unfolding run ◌+ℤ◌ ◌-ℤ◌
busy-run = refl

open_key_aborts_example : is_abort (get_by_key 1 busy).1 ≡ is_open 1 calls false
open_key_aborts_example = Undo.open_key_aborts calls busy busy-run 1

busy_abort : is_abort (get_by_key 1 busy).1 ≡ true
unfolding run get_by_key ◌+ℤ◌ ◌-ℤ◌
busy_abort = refl

quiet-run : run quiet_calls new_table ≡ some quiet
unfolding run ◌+ℤ◌ ◌-ℤ◌
quiet-run = refl

aborted_writes_stay_example :
    (t : S2plTable ℕ ℕ) × (write_each ((1, 11) ∷ (3, 30) ∷ (1, 12) ∷ []) quiet ≡ some t)
    × ((k : ℕ)
        → (get_by_key k (transaction_abort t)).1
          ≡ answer_of (latest k ((1, 11) ∷ (3, 30) ∷ (1, 12) ∷ []) (lookup k quiet.tbl)))
unfolding run ◌+ℤ◌ ◌-ℤ◌
aborted_writes_stay_example =
    Undo.aborted_writes_stay quiet_calls ((1, 11) ∷ (3, 30) ∷ (1, 12) ∷ []) quiet quiet-run
      (refl, (refl, (refl, tt)))

own_read_blocks_example :
    (insert (comes 1 ∷ leaves 2 ∷ []) 1 11 (get_by_key 1 quiet).0 ≡ none)
    × (delete_by_key (comes 1 ∷ leaves 2 ∷ []) 1 (get_by_key 1 quiet).0 ≡ none)
unfolding run get_by_key ◌+ℤ◌ ◌-ℤ◌
own_read_blocks_example =
    Blocked.own_read_blocks 1 11 10 (comes 1 ∷ leaves 2 ∷ []) quiet (0, refl) refl (tt, (refl, tt))
