-- ===== src/Tx/Locking/Undo.antt =====
-- What S2PLTable gives for the keys of a transaction, while it runs and after its end.
use pipefabric.Prelude.{
  ◌≡◌, refl, ◌∙◌, sym, ap, subst, true, false, ◌++◌, Option, none, some, List, [], ◌∷◌, arith,
  if◌then◌else◌, ◌>>=◌,
}
use pipefabric.Prelude.Eq.{Eq, beq_refl}
use pipefabric.Prelude.Assoc.{lookup, put, lookup-put}
use pipefabric.Tx.Locking.{
  RowLock, no_readers, Answer, not_found, success, S2plTable, new_table, Call, inserts, insert,
  read_locked, get_by_key, transaction_abort, perform, run, is_open, lock_of, lock_shared,
  wait_readers, lock_exclusive,
}
use pipefabric.Tx.Locking.Flags.{writer, lock_of-put, unlock_each-writer}
use pipefabric.Tx.Locking.Held.{
  is_abort, IsHeld, get_by_key-is_abort, perform-IsHeld, run-IsHeld_and_writer,
}
use pipefabric.Tx.Validation.{contains}

abbrev pub answer_of {ℓ} : {R : Type ℓ} → Option R → Answer R
answer_of none = not_found
answer_of (some r) = success r

module _ {ℓ} {K : Type ℓ} ⦃key_eq : Eq K⦄ where
  abbrev pub locked : K → List (K × RowLock) → List (K × RowLock)
  locked k locks = put k (record (lock_of k locks) { active_writer = true }) locks

  pub locked-lock_of :
      (k : K) (locks : List (K × RowLock))
      → lock_of k (locked k locks) ≡ record (lock_of k locks) { active_writer = true }
  locked-lock_of k locks =
      ground (
        arith,
        lock_of-put k k (record (lock_of k locks) { active_writer = true }) locks,
        beq_refl k,
      )

  locked-returns :
      (k : K) (locks : List (K × RowLock))
      → no_readers (lock_of k locks) ≡ true
      → lock_exclusive k [] locks ≡ some (locked k locks)
  unfolding lock_exclusive wait_readers
  locked-returns k locks h = ground (arith, locked-lock_of k locks)

module _ {ℓ} {K R : Type ℓ} ⦃key_eq : Eq K⦄ where
  -- Writes of one transaction, none of which has to wait.
  abbrev pub write_each : List (K × R) → S2plTable K R → Option (S2plTable K R)
  write_each [] t = some t
  write_each ((k, r) ∷ ws) t = insert [] k r t >>= write_each ws

  -- The last record that is written for the key, or the one before.
  abbrev pub latest : K → List (K × R) → Option R → Option R
  latest k [] o = o
  latest k ((j, r) ∷ ws) o = latest k ws (if key_eq.beq j k then some r else o)

  -- No reader has one of the keys.
  abbrev pub AreIdle : List (K × R) → List (K × RowLock) → Type 0
  AreIdle [] locks = Unit
  AreIdle ((k, r) ∷ ws) locks = (no_readers (lock_of k locks) ≡ true) × AreIdle ws locks

  run_new :
      (cs : List (Call K R)) (t : S2plTable K R)
      → run cs new_table ≡ some t
      → IsHeld t × ((k : K) → writer k t.locks ≡ is_open k cs false)
  unfolding lock_of lookup contains
  run_new cs t h = run-IsHeld_and_writer cs new_table t (λ k. refl) h

  -- After any calls that return, on a new table, a read aborts exactly for a key that has been
  -- written or deleted since the last commit or abort, the reader's own writes among them.
  pub open_key_aborts :
      (cs : List (Call K R)) (t : S2plTable K R)
      → run cs new_table ≡ some t
      → (k : K) → is_abort (get_by_key k t).1 ≡ is_open k cs false
  open_key_aborts cs t h k = get_by_key-is_abort k t ∙ (run_new cs t h).1 k

  get_by_key-answer :
      (k : K) (t : S2plTable K R)
      → writer k t.locks ≡ false
      → (get_by_key k t).1 ≡ answer_of (lookup k t.tbl)
  unfolding get_by_key read_locked lock_shared
  get_by_key-answer k t h = ground arith

  abort-writer :
      (k : K) (t : S2plTable K R) → IsHeld t → writer k (transaction_abort t).locks ≡ false
  unfolding transaction_abort
  abort-writer k t i = ground (arith, unlock_each-writer t.w_keys_locked k t.locks, i k)

  -- A write of a key that no reader has.
  insert-returns :
      (k : K) (r : R) (t : S2plTable K R)
      → no_readers (lock_of k t.locks) ≡ true
      → (u : S2plTable K R) × (insert [] k r t ≡ some u)
        × (u.locks ≡ locked k t.locks)
        × (u.tbl ≡ put k r t.tbl)
  unfolding insert
  insert-returns k r t h =
      let next : List (K × RowLock) → Option (S2plTable K R) = λ l.
        some
          (record { locks = l; w_keys_locked = t.w_keys_locked ++ k ∷ []; tbl = put k r t.tbl }) in
      (_, ap (λ o. o >>= next) (locked-returns k t.locks h), refl, refl)

  locked-AreIdle :
      (ws : List (K × R)) (j : K) (locks : List (K × RowLock))
      → AreIdle ws locks
      → AreIdle ws (locked j locks)
  locked-AreIdle [] j locks i = i
  locked-AreIdle ((k, r) ∷ ws) j locks (i, more) = (
    ground (
      arith,
      lock_of-put j k (record (lock_of j locks) { active_writer = true }) locks,
      key_eq.beq_iff j k,
    ),
    locked-AreIdle ws j locks more,
  )

  write_each-returns :
      (ws : List (K × R)) (s : S2plTable K R)
      → IsHeld s
      → AreIdle ws s.locks
      → (t : S2plTable K R) × (write_each ws s ≡ some t)
        × IsHeld t
        × ((k : K) → lookup k t.tbl ≡ latest k ws (lookup k s.tbl))
  unfolding perform insert
  write_each-returns [] s i a = (s, refl, i, λ k. refl)
  write_each-returns ((j, r) ∷ ws) s i (a, more) =
      let (u, e, el, et) = insert-returns j r s a in
      let (t, f, it, g) =
        write_each-returns ws u (perform-IsHeld (inserts [] j r) s u i e)
          (subst (AreIdle ws) (sym el) (locked-AreIdle ws j s.locks more)) in
      (
        t,
        ap (λ o. o >>= write_each ws) e ∙ f,
        it,
        λ k. g k ∙ ap (latest k ws) (ap (lookup k) et ∙ lookup-put j k r s.tbl),
      )

  abort-tbl : (t : S2plTable K R) (k : K) → lookup k (transaction_abort t).tbl ≡ lookup k t.tbl
  unfolding transaction_abort
  abort-tbl t k = refl

  -- After any calls that return, on a new table, writes of keys that no reader has return, and an
  -- abort behind them undoes none: a read of any key then succeeds with the last record that was
  -- written, for a key that was not written with the record that was there, and gives NOT_FOUND
  -- where there was none.
  pub aborted_writes_stay :
      (cs : List (Call K R)) (ws : List (K × R)) (s : S2plTable K R)
      → run cs new_table ≡ some s
      → AreIdle ws s.locks
      → (t : S2plTable K R) × (write_each ws s ≡ some t)
        × ((k : K)
            → (get_by_key k (transaction_abort t)).1 ≡ answer_of (latest k ws (lookup k s.tbl)))
  aborted_writes_stay cs ws s h a =
      let (t, e, i, g) = write_each-returns ws s (run_new cs s h).0 a in
      (
        t,
        e,
        λ k.
            get_by_key-answer k (transaction_abort t) (abort-writer k t i)
            ∙ ap answer_of (abort-tbl t k ∙ g k),
      )
