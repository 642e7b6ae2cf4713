-- ===== src/Table.antt =====
-- table/HashMapTable.hpp, qop/ToTable.hpp and qop/FromTable.hpp: a table, its observers, and the
-- operators between streams and tables. The table is a list with one entry for each key, whose order
-- stands for the unspecified order of the hash table. An operation gives the notifications that it
-- sends to the observers. A fault (`none`) is the exception of getByKey, or the use of an iterator to
-- an entry that was erased.
pub mod Mirror
pub mod Streams
pub mod Tests
use pipefabric.Prelude.{
  ℕ, ◌+◌, ◌≡◌, Bool, true, false, not, Option, none, some, List, [], ◌∷◌, ◌++◌, ◌==◌, if◌then◌else◌,
  ◌>>=◌, length, map,
}
use pipefabric.Prelude.Eq.{Eq}
use pipefabric.Prelude.Assoc.{lookup, put, without}
use pipefabric.Stream.{Event, element, punctuation}

-- TableParams::ModificationMode
pub data ModificationMode : Type 0 where
  inserted updated deleted : ModificationMode

abbrev pub Notifications {ℓ} : Type ℓ → Type ℓ
Notifications R = List (R × ModificationMode)

module _ {ℓ} {K R : Type ℓ} ⦃key_eq : Eq K⦄ where
  -- The entry of a key that is there is erased first.
  unfoldable pub insert : K → R → List (K × R) → List (K × R) × Notifications R
  unfolding lookup without
  insert key rec table = (
    elim (lookup key table) [
      | some old ↦ (key, rec) ∷ without key table
      | none ↦ (key, rec) ∷ table
    ],
    (rec, inserted) ∷ [],
  )

  -- The table, the number of deleted tuples, and the notifications.
  unfoldable pub delete_by_key : K → List (K × R) → List (K × R) × ℕ × Notifications R
  unfolding lookup without
  delete_by_key key table = elim (lookup key table) [
    | some rec ↦ (without key table, 1, (rec, deleted) ∷ [])
    | none ↦ (table, 0, [])
  ]

  unfoldable pub delete_where : (R → Bool) → List (K × R) → List (K × R) × ℕ × Notifications R
  delete_where func [] = ([], 0, [])
  delete_where func ((key, rec) ∷ table) =
      let (table', num, notes) = delete_where func table in
      if func rec
      then (table', num + 1, (rec, deleted) ∷ notes)
      else ((key, rec) ∷ table', num, notes)

  -- The updater changes the tuple in place and says whether it is kept; else the entry is erased. The
  -- observers are given the tuple of the iterator `res`, whose entry may be gone: a fault.
  unfoldable pub update_or_delete_by_key :
      K → (R → R × Bool) → Option R → List (K × R) → Option (List (K × R) × ℕ × Notifications R)
  unfolding lookup put without insert
  update_or_delete_by_key key ufunc ifunc table = elim (lookup key table) [
    | some rec ↦
        let changed = put key (ufunc rec).0 table in
        let table' = if (ufunc rec).1 then changed else without key changed in
        let mode = if (ufunc rec).1 then updated else deleted in
        elim (lookup key table') [ some res ↦ some (table', 1, (res, mode) ∷ []) | none ↦ none ]
    | none ↦ elim ifunc [
      | some rec ↦ let (table', notes) = insert key rec table in some (table', 1, notes)
      | none ↦ some (table, 0, [])
    ]
  ]

  unfoldable pub update_by_key : K → (R → R) → List (K × R) → List (K × R) × ℕ × Notifications R
  unfolding lookup put
  update_by_key key ufunc table = elim (lookup key table) [
    | some rec ↦ (put key (ufunc rec) table, 1, (ufunc rec, updated) ∷ [])
    | none ↦ (table, 0, [])
  ]

  unfoldable pub update_where :
      (R → Bool) → (R → R) → List (K × R) → List (K × R) × ℕ × Notifications R
  update_where pfunc ufunc [] = ([], 0, [])
  update_where pfunc ufunc ((key, rec) ∷ table) =
      let (table', num, notes) = update_where pfunc ufunc table in
      if pfunc rec
      then ((key, ufunc rec) ∷ table', num + 1, (ufunc rec, updated) ∷ notes)
      else ((key, rec) ∷ table', num, notes)

  unfoldable pub drop : List (K × R) → List (K × R)
  drop table = []

  unfoldable pub truncate : List (K × R) → List (K × R)
  truncate table = []

  unfoldable pub get_by_key : K → List (K × R) → Option R
  unfolding lookup
  get_by_key key table = lookup key table

  -- ToTable: the table afterwards, what the observers are told, and what is published.
  unfoldable pub to_table :
      (R → K) → List (K × R) → Event R → List (K × R) × Notifications R × List (Event R)
  unfolding insert delete_by_key
  to_table key_func table (element x true) =
      let (table', nres, notes) = delete_by_key (key_func x) table in
      (table', notes, element x true ∷ [])
  to_table key_func table (element x false) =
      let (table', notes) = insert (key_func x) x table in (table', notes, element x false ∷ [])
  to_table key_func table (punctuation p) = (table, [], punctuation p ∷ [])

-- FromTable: tableCallback puts the tuple behind the queue, with the flag of an insertion.
unfoldable pub table_callback {ℓ} :
    {R : Type ℓ} → List (R × Bool) → R × ModificationMode → List (R × Bool)
table_callback queue (rec, inserted) = queue ++ (rec, true) ∷ []
table_callback queue (rec, updated) = queue ++ (rec, false) ∷ []
table_callback queue (rec, deleted) = queue ++ (rec, false) ∷ []

-- The inner loop of producer: the queue is published to its end.
unfoldable pub producer {ℓ} : {R : Type ℓ} → List (R × Bool) → List (Event R)
producer [] = []
producer ((rec, flag) ∷ queue) = element rec flag ∷ producer queue
