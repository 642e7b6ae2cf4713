-- ===== src/Tx/Locking/Flags.antt =====
-- What each call does to the writer's flag of a lock.
use pipefabric.Prelude.{
  ◌≡◌, refl, ◌∙◌, Bool, true, false, ◌||◌, ◌&&◌, not, some, List, [], ◌∷◌, arith, if◌then◌else◌,
}
use pipefabric.Prelude.Int.{◌+ℤ◌, pos}
use pipefabric.Prelude.Eq.{Eq}
use pipefabric.Prelude.Assoc.{put, lookup-put}
use pipefabric.Tx.Locking.{
  RowLock, Reader, comes, leaves, lock_of, lock_shared, unlock_shared, unlock_exclusive,
  unlock_each, reader_step, wait_readers, lock_exclusive,
}
use pipefabric.Tx.Validation.{contains}

module _ {ℓ} {K : Type ℓ} ⦃key_eq : Eq K⦄ where
  abbrev pub writer : K → List (K × RowLock) → Bool
  writer k locks = (lock_of k locks).active_writer

  pub lock_of-put :
      (k j : K) (rl : RowLock) (locks : List (K × RowLock))
      → lock_of j (put k rl locks) ≡ (if key_eq.beq k j then rl else lock_of j locks)
  unfolding lock_of
  lock_of-put k j rl locks = ground (arith, lookup-put k j rl locks)

  -- A lock is put back with the flag of the one that is there.
  put-writer :
      (k j : K) (rl : RowLock) (locks : List (K × RowLock))
      → rl.active_writer ≡ writer k locks
      → writer j (put k rl locks) ≡ writer j locks
  put-writer k j rl locks h = grind (arith, lock_of-put k j rl locks, key_eq.beq_iff k j)

  pub lock_shared-writer :
      (k j : K) (locks : List (K × RowLock)) → writer j (lock_shared k locks).0 ≡ writer j locks
  unfolding lock_shared
  lock_shared-writer k j locks = ground (
    arith,
    put-writer k j (lock_of k locks) locks refl,
    put-writer k j
        (record (lock_of k locks) { active_readers = (lock_of k locks).active_readers +ℤ pos 1 })
        locks refl,
  )

  pub unlock_shared-writer :
      (k j : K) (locks : List (K × RowLock)) → writer j (unlock_shared k locks) ≡ writer j locks
  unfolding unlock_shared
  unlock_shared-writer k j locks = put-writer k j _ locks refl

  pub reader_step-writer :
      (r : Reader K) (j : K) (locks : List (K × RowLock))
      → writer j (reader_step r locks) ≡ writer j locks
  unfolding reader_step
  reader_step-writer (comes k) j locks = lock_shared-writer k j locks
  reader_step-writer (leaves k) j locks = unlock_shared-writer k j locks

  wait_readers-writer :
      (k j : K) (rs : List (Reader K)) (locks l : List (K × RowLock))
      → wait_readers k rs locks ≡ some l
      → writer j l ≡ writer j locks
  unfolding wait_readers
  wait_readers-writer k j [] locks l h = ground arith
  wait_readers-writer k j (r ∷ rs) locks l h =
      ground
        (arith, wait_readers-writer k j rs (reader_step r locks) l, reader_step-writer r j locks)

  pub lock_exclusive-writer :
      (k j : K) (rs : List (Reader K)) (locks l : List (K × RowLock))
      → lock_exclusive k rs locks ≡ some l
      → writer j l ≡ (key_eq.beq k j || writer j locks)
  unfolding lock_exclusive
  lock_exclusive-writer k j rs locks l h =
      wait_readers-writer k j rs _ l h
      ∙ ground (arith, lock_of-put k j (record (lock_of k locks) { active_writer = true }) locks)

  unlock_exclusive-writer :
      (k j : K) (locks : List (K × RowLock))
      → writer j (unlock_exclusive k locks) ≡ (not (key_eq.beq k j) && writer j locks)
  unfolding unlock_exclusive
  unlock_exclusive-writer k j locks =
      ground (arith, lock_of-put k j (record (lock_of k locks) { active_writer = false }) locks)

  -- The loop at the end of a transaction resets the flags of its keys, and of no other key.
  pub unlock_each-writer :
      (ks : List K) (j : K) (locks : List (K × RowLock))
      → writer j (unlock_each ks locks) ≡ (not (contains ks j) && writer j locks)
  unfolding unlock_each contains
  unlock_each-writer [] j locks = refl
  unlock_each-writer (k ∷ ks) j locks =
      ground (
        arith,
        unlock_each-writer ks j (unlock_exclusive k locks),
        unlock_exclusive-writer k j locks,
      )
