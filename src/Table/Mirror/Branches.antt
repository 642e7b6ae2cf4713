-- ===== src/Table/Mirror/Branches.antt =====
-- HashMapTable: what each operation on one key returns, on each of its branches.
use pipefabric.Prelude.{◌≡◌, Bool, true, false, Option, none, some, List, [], ◌∷◌, arith}
use pipefabric.Prelude.Eq.{Eq, beq_refl}
use pipefabric.Prelude.Assoc.{lookup, put, without, lookup-put, lookup-without}
use pipefabric.Table.{
  inserted, updated, deleted, insert, delete_by_key, update_or_delete_by_key, update_by_key,
}

module _ {ℓ} {K R : Type ℓ} ⦃key_eq : Eq K⦄ where
  pub insert-there :
      (key : K) (rec old : R) (table : List (K × R))
      → lookup key table ≡ some old
      → insert key rec table ≡ ((key, rec) ∷ without key table, (rec, inserted) ∷ [])
  unfolding insert
  insert-there key rec old table e = ground arith

  pub insert-missing :
      (key : K) (rec : R) (table : List (K × R))
      → lookup key table ≡ none
      → insert key rec table ≡ ((key, rec) ∷ table, (rec, inserted) ∷ [])
  unfolding insert
  insert-missing key rec table e = ground arith

  pub delete_by_key-there :
      (key : K) (rec : R) (table : List (K × R))
      → lookup key table ≡ some rec
      → delete_by_key key table ≡ (without key table, 1, (rec, deleted) ∷ [])
  unfolding delete_by_key
  delete_by_key-there key rec table e = ground arith

  pub delete_by_key-missing :
      (key : K) (table : List (K × R))
      → lookup key table ≡ none
      → delete_by_key key table ≡ (table, 0, [])
  unfolding delete_by_key
  delete_by_key-missing key table e = ground arith

  pub update_by_key-there :
      (key : K) (ufunc : R → R) (rec : R) (table : List (K × R))
      → lookup key table ≡ some rec
      → update_by_key key ufunc table ≡ (put key (ufunc rec) table, 1, (ufunc rec, updated) ∷ [])
  unfolding update_by_key
  update_by_key-there key ufunc rec table e = ground arith

  pub update_by_key-missing :
      (key : K) (ufunc : R → R) (table : List (K × R))
      → lookup key table ≡ none
      → update_by_key key ufunc table ≡ (table, 0, [])
  unfolding update_by_key
  update_by_key-missing key ufunc table e = ground arith

  pub update_or_delete-kept :
      (key : K) (ufunc : R → R × Bool) (ifunc : Option R) (rec : R) (table : List (K × R))
      → lookup key table ≡ some rec
      → (ufunc rec).1 ≡ true
      → update_or_delete_by_key key ufunc ifunc table
        ≡ some (put key (ufunc rec).0 table, 1, ((ufunc rec).0, updated) ∷ [])
  unfolding update_or_delete_by_key
  update_or_delete-kept key ufunc ifunc rec table e kept =
      ground (arith, lookup-put key key (ufunc rec).0 table, beq_refl key)

  pub update_or_delete-gone :
      (key : K) (ufunc : R → R × Bool) (ifunc : Option R) (rec : R) (table : List (K × R))
      → lookup key table ≡ some rec
      → (ufunc rec).1 ≡ false
      → update_or_delete_by_key key ufunc ifunc table ≡ none
  unfolding update_or_delete_by_key
  update_or_delete-gone key ufunc ifunc rec table e gone =
      ground (arith, lookup-without key key (put key (ufunc rec).0 table), beq_refl key)

  pub update_or_delete-missing :
      (key : K) (ufunc : R → R × Bool) (table : List (K × R))
      → lookup key table ≡ none
      → update_or_delete_by_key key ufunc none table ≡ some (table, 0, [])
  unfolding update_or_delete_by_key
  update_or_delete-missing key ufunc table e = ground arith

  pub update_or_delete-new :
      (key : K) (ufunc : R → R × Bool) (rec : R) (table : List (K × R))
      → lookup key table ≡ none
      → update_or_delete_by_key key ufunc (some rec) table
        ≡ some ((insert key rec table).0, 1, (insert key rec table).1)
  unfolding update_or_delete_by_key
  update_or_delete-new key ufunc rec table e = ground arith
