-- ===== src/Tx/Commit.antt =====
-- table/MVCCTable.hpp: a table of records with versions and the write set of its transaction, and
-- transactionPreCommit over the two tables of a topology group. The table below it is an
-- association list; each wait for a free slot has the list of the versions that
-- recalcOldestVisible returns in its rounds. A fault (`none`) is one of the records or of the table
-- of transactions.
pub mod Records
pub mod Votes
pub mod Writes
pub mod Snapshots
pub mod TwoPhase
pub mod Tests
use pipefabric.Prelude.{
  ℕ, ◌≡◌, Bool, true, false, not, Option, none, some, List, [], ◌∷◌, get_elem?, set, ◌==◌,
  if◌then◌else◌, ◌>>=◌,
}
use pipefabric.Prelude.Eq.{Eq}
use pipefabric.Prelude.Assoc.{lookup, put}
use pipefabric.Aggr.Counters.{Comparator}
use pipefabric.Tx.Version.{Slot, update_version, first_version, read_version}
use pipefabric.Tx.WriteSet.{insert_write, committed_writes}
use pipefabric.Tx.Context.{
  Status, active, commit, abort, ActiveTx, Context, get_pos, set_read_cts, remove_tx,
}

pub record MvccTable {ℓ} (K V : Type ℓ) : Type ℓ where
  pub write_txn : ℕ
  pub write_set : List (K × V)
  pub tbl : List (K × List (Slot V))

pub record States {ℓ} (K V : Type ℓ) : Type ℓ where
  pub context : Context
  pub first : MvccTable K V
  pub second : MvccTable K V

-- getWriteStatus and the assignment to what it returns; the first table has the id 0.
abbrev pub status_of : Bool → ActiveTx → Status
status_of true t = t.first_state
status_of false t = t.second_state

abbrev pub with_status : Bool → Status → ActiveTx → ActiveTx
with_status true s t = record t { first_state = s }
with_status false s t = record t { second_state = s }

unfoldable pub get_write_status : Context → ℕ → Bool → Option Status
get_write_status c txn is_first = do
  pos ← get_pos txn c.active_txs
  t ← get_elem? c.active_txs pos
  some (status_of is_first t)

unfoldable pub set_write_status : Context → ℕ → Bool → Status → Option Context
set_write_status c txn is_first s = do
  pos ← get_pos txn c.active_txs
  t ← get_elem? c.active_txs pos
  some (record c { active_txs = set c.active_txs pos (with_status is_first s t) })

abbrev pub is_commit : Status → Bool
is_commit active = false
is_commit commit = true
is_commit abort = false

-- The snapshot that a transaction reads; the first read takes the last commit.
unfoldable pub take_snapshot : ℕ → Context → Option (Context × ℕ)
take_snapshot txn c = do
  pos ← get_pos txn c.active_txs
  t ← get_elem? c.active_txs pos
  if t.read_cts == 0
      then (do c' ← set_read_cts c txn c.last_cts; some (c', c.last_cts))
      else some (c, t.read_cts)

module _ {ℓ} {K V : Type ℓ} where
  unfoldable pub transaction_begin : ℕ → MvccTable K V → MvccTable K V
  transaction_begin txn t = record t { write_txn = txn }

  unfoldable pub insert : K → V → MvccTable K V → MvccTable K V
  insert key rec t = record t { write_set = insert_write t.write_set key rec }

  -- WriteSet::clean
  unfoldable pub clean : MvccTable K V → MvccTable K V
  clean t = record t { write_txn = 0; write_set = [] }

  unfoldable pub transaction_abort : MvccTable K V → MvccTable K V
  unfolding clean
  transaction_abort t = clean t

  abbrev pub state_of : Bool → States K V → MvccTable K V
  state_of true s = s.first
  state_of false s = s.second

  abbrev pub with_state : Bool → MvccTable K V → States K V → States K V
  with_state true t s = record s { first = t }
  with_state false t s = record s { second = t }

-- A value of the write set comes first.
unfoldable pub own_or {ℓ} :
    {V : Type ℓ} → Option (Context × Option V) → Context → Option V → Option (Context × Option V)
own_or committed c none = committed
own_or committed c (some v) = some (c, some v)

-- Reading the record that was found, if there is one; `none` inside is NOT_FOUND.
unfoldable pub read_found {ℓ} :
    {V : Type ℓ} → ℕ → Context → Option (List (Slot V)) → Option (Context × Option V)
unfolding take_snapshot
read_found txn c none = some (c, none)
read_found txn c (some o) = do
  (c', read_cts) ← take_snapshot txn c
  some (c', read_version read_cts o)

-- The record that transactionCommit writes: the one that is found, updated, or a new one.
unfoldable pub written_record {ℓ} :
    {V : Type ℓ} → ℕ → V → ℕ → List ℕ → V → Option (List (Slot V)) → Option (List (Slot V))
written_record versions dummy txn rounds v none = some (first_version txn v versions dummy)
written_record versions dummy txn rounds v (some o) = update_version txn rounds v o

module _ {ℓ} {K V : Type ℓ} ⦃key_eq : Eq K⦄ where
  -- std::find_if over the write set
  unfoldable pub find_write : K → List (K × V) → Option V
  find_write k [] = none
  find_write k ((a, v) ∷ ws) = if key_eq.beq a k then some v else find_write k ws

  -- Behind the write set.
  unfoldable pub get_committed : ℕ → K → MvccTable K V → Context → Option (Context × Option V)
  unfolding read_found
  get_committed txn k t c = read_found txn c (lookup k t.tbl)

  unfoldable pub get_by_key : ℕ → K → MvccTable K V → Context → Option (Context × Option V)
  unfolding find_write get_committed own_or
  get_by_key txn k t c =
      if t.write_txn == txn
      then own_or (get_committed txn k t c) c (find_write k t.write_set)
      else get_committed txn k t c

  module _ (by_key : Comparator K) (by_value : Comparator V) (versions : ℕ) (dummy : V) where
    unfoldable pub commit_write :
        ℕ → List ℕ → K → V → List (K × List (Slot V)) → Option (List (K × List (Slot V)))
    unfolding written_record
    commit_write txn rounds k v tbl = do
      o' ← written_record versions dummy txn rounds v (lookup k tbl)
      some (put k o' tbl)

    unfoldable pub commit_writes :
        ℕ
        → (K → List ℕ)
        → List (K × V)
        → List (K × List (Slot V))
        → Option (List (K × List (Slot V)))
    unfolding commit_write
    commit_writes txn rounds [] tbl = some tbl
    commit_writes txn rounds ((k, v) ∷ ws) tbl =
        commit_write txn (rounds k) k v tbl >>= commit_writes txn rounds ws

    unfoldable pub transaction_commit : ℕ → (K → List ℕ) → MvccTable K V → Option (MvccTable K V)
    unfolding commit_writes clean
    transaction_commit txn rounds t = do
      tbl' ← commit_writes txn rounds (committed_writes by_key by_value t.write_set) t.tbl
      some (clean (record t { tbl = tbl' }))

    -- One of the two tables commits.
    unfoldable pub commit_state : Bool → ℕ → (K → List ℕ) → States K V → Option (States K V)
    unfolding transaction_commit
    commit_state is_first txn rounds s = do
      t ← transaction_commit txn rounds (state_of is_first s)
      some (with_state is_first t s)

    -- What the second of the two tables to be asked does.
    unfoldable pub commit_both :
        Bool → ℕ → (K → List ℕ) → (K → List ℕ) → States K V → Option (States K V)
    unfolding commit_state
    commit_both is_first txn rounds others s = do
      s₁ ← commit_state is_first txn rounds s
      s₂ ← commit_state (not is_first) txn others s₁
      c ← remove_tx (record s₂.context { last_cts = txn }) txn
      some (record s₂ { context = c })

    -- `rounds` are those of this table, and `others` those of the other one.
    unfoldable pub transaction_pre_commit :
        Bool → ℕ → (K → List ℕ) → (K → List ℕ) → States K V → Option (States K V)
    unfolding commit_both get_write_status set_write_status
    transaction_pre_commit is_first txn rounds others s = do
      c ← set_write_status s.context txn is_first commit
      other ← get_write_status c txn (not is_first)
      if is_commit other
          then commit_both is_first txn rounds others (record s { context = c })
          else some (record s { context = c })
