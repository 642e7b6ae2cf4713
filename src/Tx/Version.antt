-- ===== src/Tx/Version.antt =====
-- table/MVCCTable.hpp, MVCCObject: the versions of one record. A slot stands for headers[i], bit i
-- of usedSlots, and values[i]. A fault (`none`) is an index out of range, as headers[-1].
pub mod Access
pub mod Snapshot
pub mod Latest
pub mod Progress
pub mod History
pub mod Examples
use mathlib.Core.Option
use pipefabric.Prelude.{
  ℕ, zero, suc, ◌+◌, ◌-◌, ◌≤◌, ◌<◌, ◌^◌, ◌≡◌, Bool, true, false, ◌&&◌, Option, none, some, List, [],
  ◌∷◌, map, length, get_elem?, set, replicate, ltb, leb, if◌then◌else◌, ◌>>=◌,
}

-- std::numeric_limits<TransactionID>::max()
abbrev pub dts_inf : ℕ
dts_inf = 2 ^ 64 - 1

pub record Slot {ℓ} (A : Type ℓ) : Type ℓ where
  pub cts : ℕ
  pub dts : ℕ
  pub used : Bool
  pub value : A

module _ {ℓ} {A : Type ℓ} where
  -- The test of getCurrent on one slot.
  abbrev pub visible : ℕ → Slot A → Bool
  visible txn s = s.used && (ltb txn s.dts && leb s.cts txn)

  -- getCurrent; `none` is -1
  unfoldable pub get_current : ℕ → List (Slot A) → Option ℕ
  get_current txn [] = none
  get_current txn (s ∷ ss) =
      let rest = Option.map suc (get_current txn ss) in if visible txn s then some 0 else rest

  unfoldable pub new_entry : ℕ → ℕ → Option ℕ → A → List (Slot A) → Option (List (Slot A))
  new_entry txn i_pos d_pos value o = do
    inserted ← get_elem? o i_pos
    let o₁ = set o i_pos (record inserted { value = value; cts = txn; dts = dts_inf })
    d ← d_pos
    deleted ← get_elem? o₁ d
    let o₂ = set o₁ d (record deleted { dts = txn })
    inserted' ← get_elem? o₂ i_pos
    some (set o₂ i_pos (record inserted' { used = true }))

  abbrev pub clean_slot : ℕ → Slot A → Slot A
  clean_slot oldest s =
      if leb s.dts oldest then record s { used = false; cts = dts_inf; dts = 0 } else s

  unfoldable pub clean_up_versions : ℕ → List (Slot A) → List (Slot A)
  clean_up_versions oldest o = map (clean_slot oldest) o

  -- getFreePos(usedSlots), for as many bits as there are slots
  unfoldable pub first_free : List (Slot A) → ℕ
  first_free [] = 0
  first_free (s ∷ ss) = let rest = suc (first_free ss) in if s.used then rest else 0

  -- The loop of transactionCommit that waits for a free slot. Each round cleans up to the oldest
  -- version that is visible then; the list gives those, and `none` is a loop that goes on.
  unfoldable pub find_slot : List ℕ → List (Slot A) → Option (List (Slot A) × ℕ)
  find_slot [] o = if ltb (first_free o) (length o) then some (o, first_free o) else none
  find_slot (oldest ∷ rounds) o =
      let again = find_slot rounds (clean_up_versions oldest o) in
      if ltb (first_free o) (length o) then some (o, first_free o) else again

  -- What transactionCommit does to a record that is there.
  unfoldable pub update_version : ℕ → List ℕ → A → List (Slot A) → Option (List (Slot A))
  update_version txn rounds value o = do
    (o', i_pos) ← find_slot rounds o
    new_entry txn i_pos (get_current txn o) value o'

  -- What transactionCommit inserts for a key that is new. A default-constructed slot is given.
  unfoldable pub first_version : ℕ → A → ℕ → A → List (Slot A)
  first_version txn value versions dummy =
      record { cts = txn; dts = dts_inf; used = true; value = value }
      ∷ replicate versions (record { cts = dts_inf; dts = 0; used = false; value = dummy })

  -- getByKey for a snapshot.
  unfoldable pub read_version : ℕ → List (Slot A) → Option A
  read_version read_cts o = do i ← get_current read_cts o; s ← get_elem? o i; some s.value
