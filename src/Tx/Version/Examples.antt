-- ===== src/Tx/Version/Examples.antt =====
-- Commits at concrete records.
use pipefabric.Prelude.{
  ℕ, ◌≡◌, ◌≤◌, refl, true, false, some, List, [], ◌∷◌, arith, length, get_elem?,
}
use pipefabric.Tx.Version.{
  Slot, dts_inf, update_version, read_version, first_version, new_entry, find_slot, get_current,
  first_free, clean_up_versions,
}
use pipefabric.Tx.Version.Latest
use pipefabric.Tx.Version.Progress
use pipefabric.Tx.Version.History

-- A record that transaction 3 inserts with the value 7, with two further slots.
abbrev inserted : List (Slot ℕ)
inserted = first_version 3 7 2 0

abbrev five_writes_eight : List (Slot ℕ)
five_writes_eight =
    record { cts = 3; dts = 5; used = true; value = 7 }
    ∷ record { cts = 5; dts = dts_inf; used = true; value = 8 }
    ∷ record { cts = dts_inf; dts = 0; used = false; value = 0 }
    ∷ []

commit_trace : update_version 5 (3 ∷ []) 8 inserted ≡ some five_writes_eight
unfolding update_version first_version new_entry find_slot get_current first_free clean_up_versions
commit_trace = refl

inserted-IsVersioned : Latest.IsVersioned 3 inserted
inserted-IsVersioned = History.first_version-IsVersioned 3 7 2 0 (omega arith)

inserted-at :
    get_elem? inserted 0 ≡ some (record { cts = 3; dts = dts_inf; used = true; value = 7 })
unfolding first_version
inserted-at = refl

inserted-length : 2 ≤ length inserted
unfolding first_version
inserted-length = omega arith

update_version-total_example :
    (o' : List (Slot ℕ)) × (update_version 5 (3 ∷ []) 8 inserted ≡ some o')
update_version-total_example =
    Progress.update_version-total 3 5 3 8 inserted 0
      (record { cts = 3; dts = dts_inf; used = true; value = 7 }) inserted-IsVersioned
      inserted-length (omega arith) (omega arith) (omega arith) inserted-at refl refl

abbrev one_commit : List (History.Commit ℕ)
one_commit = record { txn = 5; rounds = 3 ∷ []; written = 8 } ∷ []

one_commit_trace : History.commit_all one_commit inserted ≡ some five_writes_eight
unfolding History.commit_all update_version first_version new_entry find_slot get_current first_free
    clean_up_versions
one_commit_trace = refl

read_version-commits_example :
    read_version 4 five_writes_eight ≡ some (History.last_written 4 7 one_commit)
read_version-commits_example =
    History.read_version-commits 3 7 2 0 one_commit five_writes_eight 4 (omega arith) (omega arith)
      (omega arith, omega arith, ((omega arith, omega arith), tt), tt) one_commit_trace
