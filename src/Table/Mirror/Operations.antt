-- ===== src/Table/Mirror/Operations.antt =====
-- HashMapTable: every operation on the table, and a copy of the table that follows its notifications.
use pipefabric.Prelude.{
  ◌≡◌, refl, ap, sym, subst, ◌∙◌, Bool, true, Option, none, some, List, [], ◌∷◌, ◌++◌,
  if◌then◌else◌, ◌>>=◌, All, Bool-cases, Option-cases, inl, inr,
}
use pipefabric.Prelude.Eq.{Eq, beq_refl}
use pipefabric.Prelude.Assoc.{lookup, put, without, lookup-put, lookup-without}
use pipefabric.Table.{
  inserted, updated, deleted, Notifications, insert, delete_by_key, delete_where,
  update_or_delete_by_key, update_by_key, update_where, drop, truncate,
}
use pipefabric.Table.Mirror.{
  replay, replay-SameEntries, SameEntries, IsTable, lookup-insert, lookup-delete_where,
  lookup-update_where, delete_where-replay, update_where-replay, put-IsTable, without-IsTable,
  delete_where-IsTable, update_where-IsTable, left_lem, changed_lem,
}
use pipefabric.Table.Mirror.Branches.{
  insert-there, insert-missing, delete_by_key-there, delete_by_key-missing, update_by_key-there,
  update_by_key-missing, update_or_delete-kept, update_or_delete-missing, update_or_delete-new,
}

-- A call of an operation that changes the table.
pub data Operation {ℓ} (K R : Type ℓ) : Type ℓ where
  insertion : K → R → Operation K R
  deletion : K → Operation K R
  deletions : (R → Bool) → Operation K R
  change_or_deletion : K → (R → R × Bool) → Option R → Operation K R
  change : K → (R → R) → Operation K R
  changes : (R → Bool) → (R → R) → Operation K R
  dropping : Operation K R
  truncation : Operation K R

module _ {ℓ} {K R : Type ℓ} ⦃key_eq : Eq K⦄ where
  unfoldable pub perform : Operation K R → List (K × R) → Option (List (K × R) × Notifications R)
  unfolding insert delete_by_key delete_where update_or_delete_by_key update_by_key update_where
      drop truncate
  perform (insertion key rec) table = some (insert key rec table)
  perform (deletion key) table =
      let (table', num, notes) = delete_by_key key table in some (table', notes)
  perform (deletions func) table =
      let (table', num, notes) = delete_where func table in some (table', notes)
  perform (change_or_deletion key ufunc ifunc) table = do
    (table', num, notes) ← update_or_delete_by_key key ufunc ifunc table
    some (table', notes)
  perform (change key ufunc) table =
      let (table', num, notes) = update_by_key key ufunc table in some (table', notes)
  perform (changes pfunc ufunc) table =
      let (table', num, notes) = update_where pfunc ufunc table in some (table', notes)
  perform dropping table = some (drop table, [])
  perform truncation table = some (truncate table, [])

  unfoldable pub perform_each :
      List (Operation K R) → List (K × R) → Option (List (K × R) × Notifications R)
  unfolding perform
  perform_each [] table = some (table, [])
  perform_each (o ∷ os) table = do
    (table', notes) ← perform o table
    (table'', later) ← perform_each os table'
    some (table'', notes ++ later)

module _ {ℓ} {K R : Type ℓ} ⦃key_eq : Eq K⦄ (key_of : R → K) where
  -- An operation that puts each tuple under its own key, and does not ask for a deletion where
  -- updateOrDeleteByKey would fault.
  abbrev pub IsKeyed : Operation K R → Type ℓ
  IsKeyed (insertion key rec) = key_of rec ≡ key
  IsKeyed (deletion key) = Unit
  IsKeyed (deletions func) = Unit
  IsKeyed (change_or_deletion key ufunc ifunc) =
      ((rec : R) → (key_of (ufunc rec).0 ≡ key_of rec) × ((ufunc rec).1 ≡ true))
      × ((rec : R) → ifunc ≡ some rec → key_of rec ≡ key)
  IsKeyed (change key ufunc) = (rec : R) → key_of (ufunc rec) ≡ key_of rec
  IsKeyed (changes pfunc ufunc) = (rec : R) → key_of (ufunc rec) ≡ key_of rec
  IsKeyed dropping = Unit
  IsKeyed truncation = Unit

  -- drop() and truncate() tell the observers nothing.
  abbrev pub Notifies : Operation K R → Type 0
  Notifies (insertion key rec) = Unit
  Notifies (deletion key) = Unit
  Notifies (deletions func) = Unit
  Notifies (change_or_deletion key ufunc ifunc) = Unit
  Notifies (change key ufunc) = Unit
  Notifies (changes pfunc ufunc) = Unit
  Notifies dropping = ⊥
  Notifies truncation = ⊥

  -- What a mirror of the table needs of an operation: the table stays one, and a copy of it that
  -- follows the notifications has the entries of the new table.
  abbrev Mirrors : List (K × R) → List (K × R) × Notifications R → Type ℓ
  Mirrors table (table', notes) =
      IsTable key_of table' × SameEntries (replay key_of table notes) table'

  key_of_entry :
      (key : K) (rec : R) (table : List (K × R))
      → IsTable key_of table
      → lookup key table ≡ some rec
      → key_of rec ≡ key
  unfolding lookup
  key_of_entry key rec [] u there = cc
  key_of_entry key rec ((j, r) ∷ table) (own, new, u) there = elim (Bool-cases (key_eq.beq j key)) [
    | inl hit ↦
        let same : some r ≡ some rec = rw hit at there in
        ap key_of (cc) ∙ own ∙ (key_eq.beq_iff j key).0 hit
    | inr miss ↦ key_of_entry key rec table u (rw miss at there)
  ]

  same_entries : (table : List (K × R)) → IsTable key_of table → Mirrors table (table, [])
  unfolding replay
  same_entries table u = (u, λ k. refl)

  put-Mirrors :
      (key : K) (rec : R) (table : List (K × R))
      → key_of rec ≡ key
      → IsTable key_of table
      → Mirrors table (put key rec table, (rec, updated) ∷ [])
  unfolding replay
  put-Mirrors key rec table own u =
      (put-IsTable key_of key rec table own u, λ k. ap (λ j. lookup k (put j rec table)) own)

  without-Mirrors :
      (key : K) (rec : R) (table : List (K × R))
      → key_of rec ≡ key
      → IsTable key_of table
      → Mirrors table (without key table, (rec, deleted) ∷ [])
  unfolding replay
  without-Mirrors key rec table own u =
      (without-IsTable key_of key table u, λ k. ap (λ j. lookup k (without j table)) own)

  insert-Mirrors :
      (key : K) (rec : R) (table : List (K × R))
      → key_of rec ≡ key
      → IsTable key_of table
      → Mirrors table (insert key rec table)
  unfolding replay
  insert-Mirrors key rec table own u = elim (Option-cases (lookup key table)) [
    | inl missing ↦
        subst (Mirrors table) (sym (insert-missing key rec table missing))
          ((own, missing, u), copied (insert-missing key rec table missing))
    | inr (old, there) ↦ subst (Mirrors table) (sym (insert-there key rec old table there)) (
      (
        own,
        lookup-without key key table ∙ rw (beq_refl key) refl,
        without-IsTable key_of key table u,
      ),
      copied (insert-there key rec old table there),
    )
  ]
    where
      copied :
          {r : List (K × R) × Notifications R}
          → insert key rec table ≡ r
          → SameEntries (put (key_of rec) rec table) r.0
      copied e k =
          lookup-put (key_of rec) k rec table
          ∙ ap (λ j. if key_eq.beq j k then some rec else lookup k table) own
          ∙ sym (lookup-insert key_of key rec table k)
          ∙ ap (λ z. lookup k z.0) e

  delete_where-Mirrors :
      (func : R → Bool) (table : List (K × R))
      → IsTable key_of table
      → Mirrors table ((delete_where func table).0, (delete_where func table).2)
  delete_where-Mirrors func table u = (
    delete_where-IsTable key_of func table u,
    λ k.
        delete_where-replay key_of func table table k u
        ∙ left_lem func (lookup k table)
        ∙ sym (lookup-delete_where key_of func table k u),
  )

  update_where-Mirrors :
      (pfunc : R → Bool) (ufunc : R → R) (table : List (K × R))
      → ((rec : R) → key_of (ufunc rec) ≡ key_of rec)
      → IsTable key_of table
      → Mirrors table ((update_where pfunc ufunc table).0, (update_where pfunc ufunc table).2)
  update_where-Mirrors pfunc ufunc table same u = (
    update_where-IsTable key_of pfunc ufunc table same u,
    λ k.
        update_where-replay key_of pfunc ufunc table table k same u
        ∙ changed_lem pfunc ufunc (lookup k table)
        ∙ sym (lookup-update_where key_of pfunc ufunc table k),
  )

  -- The table after an operation, and what the observers are told.
  abbrev Performs : Operation K R → List (K × R) → Type ℓ
  Performs o table =
      (r : List (K × R) × Notifications R) × (perform o table ≡ some r) × Mirrors table r

  perform-Mirrors :
      (o : Operation K R) (table : List (K × R))
      → IsKeyed o
      → Notifies o
      → IsTable key_of table
      → Performs o table
  unfolding perform
  perform-Mirrors (insertion key rec) table keyed told u =
      (insert key rec table, refl, insert-Mirrors key rec table keyed u)
  perform-Mirrors (deletion key) table keyed told u = elim (Option-cases (lookup key table)) [
    | inl missing ↦ (
      (table, []),
      ap (λ r. some (r.0, r.2)) (delete_by_key-missing key table missing),
      same_entries table u,
    )
    | inr (rec, there) ↦ (
      (without key table, (rec, deleted) ∷ []),
      ap (λ r. some (r.0, r.2)) (delete_by_key-there key rec table there),
      without-Mirrors key rec table (key_of_entry key rec table u there) u,
    )
  ]
  perform-Mirrors (deletions func) table keyed told u = (
    ((delete_where func table).0, (delete_where func table).2),
    refl,
    delete_where-Mirrors func table u,
  )
  perform-Mirrors (change key ufunc) table keyed told u = elim (Option-cases (lookup key table)) [
    | inl missing ↦ (
      (table, []),
      ap (λ r. some (r.0, r.2)) (update_by_key-missing key ufunc table missing),
      same_entries table u,
    )
    | inr (rec, there) ↦ (
      (put key (ufunc rec) table, (ufunc rec, updated) ∷ []),
      ap (λ r. some (r.0, r.2)) (update_by_key-there key ufunc rec table there),
      put-Mirrors key (ufunc rec) table (keyed rec ∙ key_of_entry key rec table u there) u,
    )
  ]
  perform-Mirrors (changes pfunc ufunc) table keyed told u = (
    ((update_where pfunc ufunc table).0, (update_where pfunc ufunc table).2),
    refl,
    update_where-Mirrors pfunc ufunc table keyed u,
  )
  perform-Mirrors (change_or_deletion key ufunc ifunc) table keyed told u =
      elim (Option-cases (lookup key table)) [
        | inl missing ↦ not_there ifunc keyed.1 missing
        | inr (rec, there) ↦ (
          (put key (ufunc rec).0 table, ((ufunc rec).0, updated) ∷ []),
          rw (update_or_delete-kept key ufunc ifunc rec table there (keyed.0 rec).1) refl,
          put-Mirrors key (ufunc rec).0 table ((keyed.0 rec).0 ∙ key_of_entry key rec table u there)
              u,
        )
      ]
    where
      not_there :
          (i : Option R)
          → ((rec : R) → i ≡ some rec → key_of rec ≡ key)
          → lookup key table ≡ none
          → Performs (change_or_deletion key ufunc i) table
      not_there none own missing = (
        (table, []),
        rw (update_or_delete-missing key ufunc table missing) refl,
        same_entries table u,
      )
      not_there (some rec) own missing = (
        insert key rec table,
        rw (update_or_delete-new key ufunc rec table missing) refl,
        insert-Mirrors key rec table (own rec refl) u,
      )
  perform-Mirrors dropping table keyed told u = absurd told
  perform-Mirrors truncation table keyed told u = absurd told

  replay-append :
      (copy : List (K × R)) (notes later : Notifications R)
      → replay key_of copy (notes ++ later) ≡ replay key_of (replay key_of copy notes) later
  unfolding replay
  replay-append copy [] later = refl
  replay-append copy ((rec, inserted) ∷ notes) later =
      replay-append (put (key_of rec) rec copy) notes later
  replay-append copy ((rec, updated) ∷ notes) later =
      replay-append (put (key_of rec) rec copy) notes later
  replay-append copy ((rec, deleted) ∷ notes) later =
      replay-append (without (key_of rec) copy) notes later

  -- Any calls but drop() and truncate() that keep each tuple under its own key, and do not ask
  -- updateOrDeleteByKey for a deletion, are performed without a fault on a table with one entry for each key. Afterwards it is
  -- such a table again, and a copy of the old table that inserts, replaces and deletes tuples as the
  -- notifications say, has the entries of the new one.
  pub perform_each-mirrored :
      (os : List (Operation K R)) (table : List (K × R))
      → All IsKeyed os
      → All Notifies os
      → IsTable key_of table
      → (table' : List (K × R)) × (notes : Notifications R) × (perform_each os table
          ≡ some (table', notes))
        × IsTable key_of table'
        × SameEntries (replay key_of table notes) table'
  unfolding perform_each
  perform_each-mirrored [] table keyed told u = (table, [], refl, u, (same_entries table u).1)
  perform_each-mirrored (o ∷ os) table (keyed, rest) (told, more) u =
      let ((table₁, notes₁), e₁, (u₁, copy₁)) = perform-Mirrors o table keyed told u in
      let (table₂, notes₂, e₂, u₂, copy₂) = perform_each-mirrored os table₁ rest more u₁ in
      (
        table₂,
        notes₁ ++ notes₂,
        rw (e₁, e₂) refl,
        u₂,
        λ k.
            ap (lookup k) (replay-append table notes₁ notes₂)
            ∙ replay-SameEntries key_of (replay key_of table notes₁) table₁ notes₂ copy₁ k
            ∙ copy₂ k,
      )
