-- ===== src/Table/Tests.antt =====
-- Witnesses and tests for tables.
use pipefabric.Prelude.{ℕ, ◌+◌, ◌≡◌, refl, Bool, true, false, some, List, [], ◌∷◌, ltb, All}
use pipefabric.Prelude.Eq.{nat_eq}
use pipefabric.Prelude.Assoc.{lookup}
use pipefabric.Table.{Notifications, inserted, updated, deleted}
use pipefabric.Table.Mirror.{replay, IsTable, SameEntries}
use pipefabric.Table.Mirror.Operations.{
  Operation, insertion, deletion, deletions, change_or_deletion, change, changes, perform_each,
  IsKeyed, Notifies, perform_each-mirrored,
}

abbrev Row : Type 0
Row = ℕ × ℕ

abbrev row_key : Row → ℕ
row_key r = r.0

abbrev rows : List (ℕ × Row)
rows = (1, (1, 10)) ∷ (2, (2, 20)) ∷ []

-- A larger value, and whether it is still small.
abbrev grown : Row → Row × Bool
grown r = ((r.0, r.1 + 1), true)

abbrev calls : List (Operation ℕ Row)
calls =
    insertion 3 (3, 5)
    ∷ change 1 (λ r. (r.0, r.1 + 7))
    ∷ change_or_deletion 2 grown (some (2, 0))
    ∷ changes (λ r. ltb r.1 10) (λ r. (r.0, 0))
    ∷ deletion 1
    ∷ deletions (λ r. ltb 20 r.1)
    ∷ []

calls-IsKeyed : All (IsKeyed row_key) calls
calls-IsKeyed = (refl, (λ r. refl, ((λ r. (refl, refl), λ r e. cc), (λ r. refl, (tt, (tt, tt))))))

calls-Notify : All (Notifies row_key) calls
calls-Notify = (tt, (tt, (tt, (tt, (tt, (tt, tt))))))

rows-IsTable : IsTable row_key rows
unfolding lookup
rows-IsTable = (refl, refl, (refl, refl, tt))

perform_each-mirrored_example :
    (table' : List (ℕ × Row)) × (notes : Notifications Row) × (perform_each calls rows
      ≡ some (table', notes))
    × IsTable row_key table'
    × SameEntries (replay row_key rows notes) table'
perform_each-mirrored_example =
    perform_each-mirrored row_key calls rows calls-IsKeyed calls-Notify rows-IsTable

calls_result :
    perform_each calls rows
    ≡ some (
      (3, (3, 0)) ∷ [],
      ((3, 5), inserted)
          ∷ ((1, 17), updated)
          ∷ ((2, 21), updated)
          ∷ ((3, 0), updated)
          ∷ ((1, 17), deleted)
          ∷ ((2, 21), deleted)
          ∷ [],
    )
unfolding perform_each
calls_result = refl

abbrev let_go : Row → Row × Bool
let_go r = (r, false)
