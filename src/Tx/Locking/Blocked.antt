-- ===== src/Tx/Locking/Blocked.antt =====
-- A write of a key that a reader has, while S2PLTable's writer waits.
use pipefabric.Prelude.{
  ℕ, ◌≡◌, ◌∙◌, sym, ap, subst, Bool, true, false, Option, none, List, [], ◌∷◌, arith, ◌>>=◌,
}
use pipefabric.Prelude.Int.{ℤ, pos, ◌+ℤ◌, ◌-ℤ◌}
use pipefabric.Prelude.Eq.{Eq, beq_refl}
use pipefabric.Tx.Locking.{
  RowLock, Reader, comes, leaves, no_readers, success, S2plTable, insert, delete_by_key,
  read_locked, get_by_key, lock_of, lock_shared, unlock_shared, reader_step, wait_readers,
  lock_exclusive,
}
use pipefabric.Tx.Locking.Undo.{locked, locked-lock_of}
use pipefabric.Tx.Locking.Flags.{writer, lock_of-put}

module _ {ℓ} {K : Type ℓ} ⦃key_eq : Eq K⦄ where
  -- The other thread does not give a lock on the key back.
  abbrev pub Stays : K → Reader K → Type 0
  Stays k (comes j) = Unit
  Stays k (leaves j) = key_eq.beq j k ≡ false

  abbrev pub AllStay : K → List (Reader K) → Type 0
  AllStay k [] = Unit
  AllStay k (r ∷ rs) = Stays k r × AllStay k rs

  -- With the flag of a key set, another thread that does not give the lock back leaves it.
  reader_step-lock :
      (r : Reader K) (k : K) (locks : List (K × RowLock))
      → Stays k r
      → writer k locks ≡ true
      → lock_of k (reader_step r locks) ≡ lock_of k locks
  unfolding reader_step lock_shared unlock_shared
  reader_step-lock (comes j) k locks s w = grind (
    arith,
    lock_of-put j k (lock_of j locks) locks,
    lock_of-put j k
        (record (lock_of j locks) { active_readers = (lock_of j locks).active_readers +ℤ pos 1 })
        locks,
    key_eq.beq_iff j k,
  )
  reader_step-lock (leaves j) k locks s w = ground (
    arith,
    lock_of-put j k
        (record (lock_of j locks) { active_readers = (lock_of j locks).active_readers -ℤ pos 1 })
        locks,
  )

  wait_readers-blocked :
      (k : K) (rs : List (Reader K)) (locks : List (K × RowLock))
      → AllStay k rs
      → writer k locks ≡ true
      → no_readers (lock_of k locks) ≡ false
      → wait_readers k rs locks ≡ none
  unfolding wait_readers
  wait_readers-blocked k [] locks s w h = ground arith
  wait_readers-blocked k (r ∷ rs) locks (s, more) w h =
      let e = reader_step-lock r k locks s w in
      ground (
        arith,
        wait_readers-blocked k rs (reader_step r locks) more (ap (λ rl. rl.active_writer) e ∙ w)
            (ap no_readers e ∙ h),
      )

  lock_exclusive-blocked :
      (k : K) (rs : List (Reader K)) (locks : List (K × RowLock))
      → AllStay k rs
      → no_readers (lock_of k locks) ≡ false
      → lock_exclusive k rs locks ≡ none
  unfolding lock_exclusive
  lock_exclusive-blocked k rs locks s h =
      let e = locked-lock_of k locks in
      wait_readers-blocked k rs (locked k locks) s (ap (λ rl. rl.active_writer) e)
        (ap no_readers e ∙ h)

none-bind {ℓ κ} :
    {A : Type ℓ} {B : Type κ} (o : Option A) (f : A → Option B) → o ≡ none → o >>= f ≡ none
none-bind o f h = ap (λ p. p >>= f) h

-- A count of readers that is not negative.
abbrev pub IsCount : ℤ → Type 0
IsCount n = (m : ℕ) × (n ≡ pos m)

count-busy :
    (n : ℤ) (b : Bool)
    → IsCount n
    → no_readers (record { active_readers = n +ℤ pos 1; active_writer = b }) ≡ false
unfolding ◌+ℤ◌
count-busy n b (m, e) =
    subst (λ x. no_readers (record { active_readers = x +ℤ pos 1; active_writer = b }) ≡ false)
      (sym e) (ground arith)

module _ {ℓ} {K R : Type ℓ} ⦃key_eq : Eq K⦄ where
  read-busy :
      (k : K) (v : R) (s : S2plTable K R)
      → IsCount (lock_of k s.locks).active_readers
      → (get_by_key k s).1 ≡ success v
      → no_readers (lock_of k (get_by_key k s).0.locks) ≡ false
  unfolding get_by_key read_locked lock_shared
  read-busy k v s c e = ground (
    arith,
    lock_of-put k k
        (record (lock_of k s.locks) {
          active_readers = (lock_of k s.locks).active_readers +ℤ pos 1;
        })
        s.locks,
    beq_refl k,
    count-busy (lock_of k s.locks).active_readers (lock_of k s.locks).active_writer c,
  )

  -- After a read of a key that has succeeded, where the count of its readers was not negative, an
  -- insertion and a deletion of the same key do not return, whatever locks for reading other
  -- threads take and give back while it waits, as long as none gives back a lock on this key: a
  -- transaction that writes what it has read waits for itself.
  pub own_read_blocks :
      (k : K) (r v : R) (rs : List (Reader K)) (s : S2plTable K R)
      → IsCount (lock_of k s.locks).active_readers
      → (get_by_key k s).1 ≡ success v
      → AllStay k rs
      → (insert rs k r (get_by_key k s).0 ≡ none) × (delete_by_key rs k (get_by_key k s).0 ≡ none)
  unfolding insert delete_by_key
  own_read_blocks k r v rs s c e st =
      let t = (get_by_key k s).0 in
      let b = lock_exclusive-blocked k rs t.locks st (read-busy k v s c e) in
      (none-bind _ _ b, none-bind _ _ b)
