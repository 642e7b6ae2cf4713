-- ===== src/Tx/Validation/Lock.antt =====
-- BOCCTable::RWLock, as the steps of threads that take and give it back. Beside the fields of the
-- lock the state counts the threads that hold it for writing.
use pipefabric.Prelude.{ℕ, ◌+◌, ◌-◌, ◌<◌, ◌≡◌, ◌⊎◌, Bool, true, false, arith}

pub record RwLock : Type 0 where
  pub active_readers : ℕ
  pub active_writer : Bool
  pub writers : ℕ

unfoldable pub free : RwLock
free = record { active_readers = 0; active_writer = false; writers = 0 }

unfoldable pub shared : RwLock → RwLock
shared s = record s { active_readers = s.active_readers + 1 }

unfoldable pub exclusive : RwLock → RwLock
exclusive s = record s { active_writer = true; writers = s.writers + 1 }

unfoldable pub shared_end : RwLock → RwLock
shared_end s = record s { active_readers = s.active_readers - 1 }

unfoldable pub exclusive_end : RwLock → RwLock
exclusive_end s = record s { active_writer = false; writers = s.writers - 1 }

-- A step with the condition that its thread waits for, or with a lock that it holds.
pub data Step : RwLock → RwLock → Type 0 where
  lock_shared : (s : RwLock) → s.active_writer ≡ false → Step s (shared s)
  lock_exclusive : (s : RwLock) → s.active_readers ≡ 0 → Step s (exclusive s)
  unlock_shared : (s : RwLock) → 0 < s.active_readers → Step s (shared_end s)
  unlock_exclusive : (s : RwLock) → 0 < s.writers → Step s (exclusive_end s)

-- Runs in which no thread asks for the lock to write while another one writes.
pub data OneWriter (s : RwLock) : RwLock → Type 0 where
  here : OneWriter s s
  next : {t u : RwLock} → OneWriter s t → Step t u → u.writers < 2 → OneWriter s u

record IsExclusive (s : RwLock) : Type 0 where
  pub few : s.writers < 2
  pub flag : (s.active_writer ≡ true) ⊎ (s.writers ≡ 0)
  pub apart : (s.active_readers ≡ 0) ⊎ (s.active_writer ≡ false)

Step-IsExclusive : {s t : RwLock} → Step s t → t.writers < 2 → IsExclusive s → IsExclusive t
unfolding shared exclusive shared_end exclusive_end
Step-IsExclusive (lock_shared s h) w i = ground arith
Step-IsExclusive (lock_exclusive s h) w i = ground arith
Step-IsExclusive (unlock_shared s h) w i = ground arith
Step-IsExclusive (unlock_exclusive s h) w i = ground arith

-- As long as no thread asks to write while another one writes, at most one thread writes, and then
-- none reads.
pub OneWriter-exclusive :
    {t : RwLock} → OneWriter free t → (t.writers < 2) × ((t.active_readers ≡ 0) ⊎ (t.writers ≡ 0))
OneWriter-exclusive r = let i = kept r in (i.few, ground arith)
  where
    kept : {t : RwLock} → OneWriter free t → IsExclusive t
    kept here = unfold free in ground arith
    kept (next r st w) = Step-IsExclusive st w (kept r)
