-- ===== src/Tx/Commit/Records.antt =====
-- The record that transactionCommit writes: what it makes visible, and to whom.
use pipefabric.Prelude.{
  ℕ, zero, suc, ◌≡◌, ◌≤◌, ◌<◌, refl, subst, false, Option, none, some, List, arith, ◌>>=◌, All,
  replicate,
}
use pipefabric.Tx.Version.{Slot, dts_inf, first_version, read_version, get_current}
use pipefabric.Tx.Version.Snapshot.{update_version-snapshot}
use pipefabric.Tx.Version.Latest.{IsVersioned, update_version-IsVersioned, read_version-update}
use pipefabric.Tx.Version.History.{first_version-IsVersioned, read-first_version}
use pipefabric.Tx.Commit.{written_record}
use pipefabric.Prelude.{some_same}

pub hidden_slots {ℓ} :
    {V : Type ℓ} (n t : ℕ) (d : Slot V) → d.used ≡ false → get_current t (replicate n d) ≡ none
unfolding get_current
hidden_slots zero t d u = refl
hidden_slots (suc n) t d u = ground (arith, hidden_slots n t d u)

module _ {ℓ} {V : Type ℓ} (versions : ℕ) (dummy : V) where
  pub read-first_none :
      (txn : ℕ) (v : V) (t : ℕ)
      → t < txn
      → read_version t (first_version txn v versions dummy) ≡ none
  unfolding first_version read_version get_current
  read-first_none txn v t lt = ground (
    arith,
    hidden_slots versions t (record { cts = dts_inf; dts = 0; used = false; value = dummy }) refl,
  )

  -- A snapshot before the transaction.
  pub written_record-snapshot :
      (txn : ℕ) (rounds : List ℕ) (v : V) (o : Option (List (Slot V))) (o' : List (Slot V)) (t : ℕ)
      → written_record versions dummy txn rounds v o ≡ some o'
      → All (λ r. r ≤ t) rounds
      → t < txn
      → read_version t o' ≡ (o >>= read_version t)
  unfolding written_record
  written_record-snapshot txn rounds v none o' t e le lt =
      subst (λ x. read_version t x ≡ none) (some_same e) (read-first_none txn v t lt)
  written_record-snapshot txn rounds v (some o) o' t e le lt =
      update_version-snapshot txn rounds v o o' t e le lt

  -- The record is in order again.
  pub written_record-IsVersioned :
      (now txn : ℕ) (rounds : List ℕ) (v : V) (o : Option (List (Slot V))) (o' : List (Slot V))
      → ((x : List (Slot V)) → o ≡ some x → IsVersioned now x)
      → now < txn
      → txn < dts_inf
      → All (λ r. r ≤ txn) rounds
      → written_record versions dummy txn rounds v o ≡ some o'
      → IsVersioned txn o'
  unfolding written_record
  written_record-IsVersioned now txn rounds v none o' inv later below le e =
      subst (IsVersioned txn) (some_same e) (first_version-IsVersioned txn v versions dummy below)
  written_record-IsVersioned now txn rounds v (some o) o' inv later below le e =
      update_version-IsVersioned now txn rounds v o o' (inv o refl) later below le e

  -- A snapshot from the transaction on.
  pub written_record-reads :
      (now txn : ℕ) (rounds : List ℕ) (v : V) (o : Option (List (Slot V))) (o' : List (Slot V))
      (t : ℕ)
      → ((x : List (Slot V)) → o ≡ some x → IsVersioned now x)
      → now < txn
      → txn ≤ t
      → t < dts_inf
      → All (λ r. r ≤ txn) rounds
      → written_record versions dummy txn rounds v o ≡ some o'
      → read_version t o' ≡ some v
  unfolding written_record
  written_record-reads now txn rounds v none o' t inv later from below le e =
      subst (λ x. read_version t x ≡ some v) (some_same e)
        (read-first_version txn v versions dummy t from below)
  written_record-reads now txn rounds v (some o) o' t inv later from below le e =
      read_version-update now txn rounds v o o' t (inv o refl) later (omega arith) le e from below
