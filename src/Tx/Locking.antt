-- ===== src/Tx/Locking.antt =====
-- table/S2PLTable.hpp: strict two-phase locking with one lock for each key (S2PLLocks) above a
-- plain table. A writer that waits for the readers of its key gives `none` where they do not leave.
pub mod Flags
pub mod Held
pub mod Undo
pub mod Blocked
pub mod Tests
use pipefabric.Prelude.{
  ℕ, ◌≡◌, Bool, true, false, ◌||◌, Option, none, some, List, [], ◌∷◌, ◌++◌, ◌==◌, if◌then◌else◌,
  ◌>>=◌,
}
use pipefabric.Prelude.Int.{ℤ, pos, negsuc, ◌+ℤ◌, ◌-ℤ◌}
use pipefabric.Prelude.Eq.{Eq}
use pipefabric.Prelude.Assoc.{lookup, put, without}

-- active_readers is an int that no call checks before it counts down.
pub record RowLock : Type 0 where
  pub active_readers : ℤ
  pub active_writer : Bool

abbrev pub new_lock : RowLock
new_lock = record { active_readers = pos 0; active_writer = false }

abbrev pub no_readers : RowLock → Bool
no_readers rl = elim rl.active_readers [ pos n ↦ n == 0 | negsuc n ↦ false ]

-- What another thread does while a writer waits: lockShared or unlockShared.
pub data Reader {ℓ} (K : Type ℓ) : Type ℓ where
  comes : K → Reader K
  leaves : K → Reader K

abbrev pub or_new : Option RowLock → RowLock
or_new none = new_lock
or_new (some rl) = rl

module _ {ℓ} {K : Type ℓ} ⦃key_eq : Eq K⦄ where
  -- locks[key], which makes a lock for a new key
  unfoldable pub lock_of : K → List (K × RowLock) → RowLock
  unfolding lookup
  lock_of key locks = or_new (lookup key locks)

  -- The Boolean is false for the result -1.
  unfoldable pub lock_shared : K → List (K × RowLock) → List (K × RowLock) × Bool
  unfolding lock_of put
  lock_shared key locks =
      let rl = lock_of key locks in
      if rl.active_writer
      then (put key rl locks, false)
      else (put key (record rl { active_readers = rl.active_readers +ℤ pos 1 }) locks, true)

  unfoldable pub unlock_shared : K → List (K × RowLock) → List (K × RowLock)
  unfolding lock_of put
  unlock_shared key locks =
      let rl = lock_of key locks in
      put key (record rl { active_readers = rl.active_readers -ℤ pos 1 }) locks

  unfoldable pub unlock_exclusive : K → List (K × RowLock) → List (K × RowLock)
  unfolding lock_of put
  unlock_exclusive key locks = put key (record (lock_of key locks) { active_writer = false }) locks

  unfoldable pub reader_step : Reader K → List (K × RowLock) → List (K × RowLock)
  unfolding lock_shared unlock_shared
  reader_step (comes k) locks = (lock_shared k locks).0
  reader_step (leaves k) locks = unlock_shared k locks

  -- The wait for the readers of the key, with what the other threads do in the meantime.
  unfoldable pub wait_readers :
      K → List (Reader K) → List (K × RowLock) → Option (List (K × RowLock))
  unfolding reader_step
  wait_readers key [] locks = if no_readers (lock_of key locks) then some locks else none
  wait_readers key (r ∷ rs) locks =
      let rest = wait_readers key rs (reader_step r locks) in
      if no_readers (lock_of key locks) then some locks else rest

  unfoldable pub lock_exclusive :
      K → List (Reader K) → List (K × RowLock) → Option (List (K × RowLock))
  unfolding lock_of put wait_readers
  lock_exclusive key rs locks =
      wait_readers key rs (put key (record (lock_of key locks) { active_writer = true }) locks)

  -- The loop over wKeysLocked.
  unfoldable pub unlock_each : List K → List (K × RowLock) → List (K × RowLock)
  unfolding unlock_exclusive
  unlock_each [] locks = locks
  unlock_each (k ∷ ks) locks = unlock_each ks (unlock_exclusive k locks)

-- S2PLTable; `tbl` is the table below.
pub record S2plTable {ℓ} (K R : Type ℓ) : Type ℓ where
  pub locks : List (K × RowLock)
  pub w_keys_locked : List K
  pub tbl : List (K × R)

-- The result of a read, with the record it gives out.
pub data Answer {ℓ} (R : Type ℓ) : Type ℓ where
  abort : Answer R
  not_found : Answer R
  success : R → Answer R

abbrev pub new_table {ℓ} : {K R : Type ℓ} → S2plTable K R
new_table = record { locks = []; w_keys_locked = []; tbl = [] }

abbrev pub found {ℓ} : {R : Type ℓ} → Option R → ℕ
found none = 0
found (some r) = 1

module _ {ℓ} {K R : Type ℓ} ⦃key_eq : Eq K⦄ where
  -- `rs` is what readers do while the call waits, here and in delete_by_key.
  unfoldable pub insert : List (Reader K) → K → R → S2plTable K R → Option (S2plTable K R)
  unfolding lock_exclusive put
  insert rs key rec t = do
    l ← lock_exclusive key rs t.locks
    some
        (record { locks = l; w_keys_locked = t.w_keys_locked ++ key ∷ []; tbl = put key rec t.tbl })

  unfoldable pub delete_by_key : List (Reader K) → K → S2plTable K R → Option (S2plTable K R × ℕ)
  unfolding lock_exclusive without lookup
  delete_by_key rs key t = do
    l ← lock_exclusive key rs t.locks
    some (
      record { locks = l; w_keys_locked = t.w_keys_locked ++ key ∷ []; tbl = without key t.tbl },
      found (lookup key t.tbl),
    )

  -- tbl.getByKey below a lock that is taken; a missing key gives the lock back.
  unfoldable pub read_locked : K → Option R → S2plTable K R → S2plTable K R × Answer R
  unfolding unlock_shared
  read_locked key none t = (record t { locks = unlock_shared key t.locks }, not_found)
  read_locked key (some r) t = (t, success r)

  unfoldable pub get_by_key : K → S2plTable K R → S2plTable K R × Answer R
  unfolding lock_shared read_locked lookup
  get_by_key key t =
      let l = lock_shared key t.locks in
      let t' = record t { locks = l.0 } in
      if l.1 then read_locked key (lookup key t.tbl) t' else (t', abort)

  unfoldable pub transaction_commit : S2plTable K R → S2plTable K R
  unfolding unlock_each
  transaction_commit t = record t {
    locks = unlock_each t.w_keys_locked t.locks;
    w_keys_locked = [];
  }

  unfoldable pub transaction_abort : S2plTable K R → S2plTable K R
  unfolding unlock_each
  transaction_abort t = record t { locks = unlock_each t.w_keys_locked t.locks; w_keys_locked = [] }

  -- `keys` are the keys before `until`.
  unfoldable pub clean_up_reads : List K → S2plTable K R → S2plTable K R
  unfolding unlock_shared
  clean_up_reads [] t = t
  clean_up_reads (k ∷ ks) t = clean_up_reads ks (record t { locks = unlock_shared k t.locks })

-- A call of the table by any transaction.
pub data Call {ℓ} (K R : Type ℓ) : Type ℓ where
  inserts : List (Reader K) → K → R → Call K R
  deletes : List (Reader K) → K → Call K R
  reads : K → Call K R
  cleans : List K → Call K R
  commits : Call K R
  aborts : Call K R

module _ {ℓ} {K R : Type ℓ} ⦃key_eq : Eq K⦄ where
  unfoldable pub perform : Call K R → S2plTable K R → Option (S2plTable K R)
  unfolding insert delete_by_key get_by_key clean_up_reads transaction_commit transaction_abort
  perform (inserts rs k r) t = insert rs k r t
  perform (deletes rs k) t = do d ← delete_by_key rs k t; some d.0
  perform (reads k) t = some (get_by_key k t).0
  perform (cleans ks) t = some (clean_up_reads ks t)
  perform commits t = some (transaction_commit t)
  perform aborts t = some (transaction_abort t)

  unfoldable pub run : List (Call K R) → S2plTable K R → Option (S2plTable K R)
  unfolding perform
  run [] t = some t
  run (c ∷ cs) t = perform c t >>= run cs

  -- Whether a call leaves the key written by a transaction that has not ended, from whether it is
  -- so before.
  unfoldable pub open_after : K → Call K R → Bool → Bool
  open_after k (inserts rs j r) b = key_eq.beq j k || b
  open_after k (deletes rs j) b = key_eq.beq j k || b
  open_after k (reads j) b = b
  open_after k (cleans js) b = b
  open_after k commits b = false
  open_after k aborts b = false

  -- Whether the key has been written since the last end of a transaction.
  unfoldable pub is_open : K → List (Call K R) → Bool → Bool
  unfolding open_after
  is_open k [] b = b
  is_open k (c ∷ cs) b = is_open k cs (open_after k c b)
