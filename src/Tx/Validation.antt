-- ===== src/Tx/Validation.antt =====
-- table/BOCCTable.hpp: optimistic concurrency control with backward validation. The log holds the
-- keys of each committed write set with its validation and completion timestamps, the newest in
-- front. StateContext's clock (getNewTS) and its oldest active transaction are arguments.
pub mod Lock
pub mod Cleaning
pub mod Tests
use pipefabric.Prelude.{
  ℕ, ◌+◌, ◌≡◌, Bool, true, false, ◌&&◌, ◌||◌, not, Option, none, some, List, [], ◌∷◌, ◌++◌, ltb,
  leb, ◌==◌, if◌then◌else◌, ◌>>=◌,
}
use pipefabric.Prelude.Eq.{Eq}
use pipefabric.Prelude.Assoc.{put}
use pipefabric.Tx.Version.{dts_inf}

-- WriteSet
pub record Committed {ℓ} (K : Type ℓ) : Type ℓ where
  pub keys : List K
  pub val_ts : ℕ
  pub end_ts : ℕ

-- BOCCTable; `write_set` is the ActiveWriteSet.
pub record BoccTable {ℓ} (K R : Type ℓ) : Type ℓ where
  pub write_set : List (K × R)
  pub committed_wss : List (Committed K)
  pub tbl : List (K × R)

-- The bound of the clean-up: the oldest active transaction, or the validation of the write set
-- where the oldest one is the transaction itself.
abbrev pub clean_bound : ℕ → ℕ → ℕ → ℕ
clean_bound txn_id oldest val_ts = if oldest == txn_id then val_ts else oldest

module _ {ℓ} {K : Type ℓ} ⦃key_eq : Eq K⦄ where
  unfoldable pub contains : List K → K → Bool
  contains [] k = false
  contains (j ∷ js) k = key_eq.beq j k || contains js k

  -- The loop over the keys that were read, for one committed write set.
  unfoldable pub any_read : List K → List K → Bool
  unfolding contains
  any_read [] written = false
  any_read (k ∷ ks) written = contains written k || any_read ks written

  -- The conditions under which a committed write set aborts a reader.
  unfoldable pub conflicts : ℕ → ℕ → List K → Committed K → Bool
  unfolding any_read
  conflicts txn_id val_ts keys ws =
      ltb txn_id ws.end_ts && ltb ws.val_ts val_ts && any_read keys ws.keys

  -- The loop over the log: whether the transaction may commit.
  unfoldable pub validate : ℕ → ℕ → List K → List (Committed K) → Bool
  unfolding conflicts
  validate txn_id val_ts keys [] = true
  validate txn_id val_ts keys (ws ∷ wss) =
      let rest = validate txn_id val_ts keys wss in
      if conflicts txn_id val_ts keys ws then false else rest

module _ {ℓ} {K : Type ℓ} where
  unfoldable pub clean_up : ℕ → List (Committed K) → List (Committed K)
  clean_up oldest [] = []
  clean_up oldest (ws ∷ wss) =
      let rest = clean_up oldest wss in if leb ws.end_ts oldest then [] else ws ∷ rest

  -- The end of a commit in the log.
  abbrev pub finish : ℕ → ℕ → ℕ → List (Committed K) → Option (List (Committed K))
  finish txn_id oldest clock [] = none
  finish txn_id oldest clock (ws ∷ wss) =
      some (clean_up (clean_bound txn_id oldest ws.val_ts) (record ws { end_ts = clock } ∷ wss))

module _ {ℓ} {K R : Type ℓ} ⦃key_eq : Eq K⦄ where
  abbrev pub keys_of : List (K × R) → List K
  keys_of [] = []
  keys_of ((k, r) ∷ ws) = k ∷ keys_of ws

  insert_each : List (K × R) → List (K × R) → List (K × R)
  unfolding put
  insert_each [] tbl = tbl
  insert_each ((k, r) ∷ ws) tbl = insert_each ws (put k r tbl)

  unfoldable pub insert : K → R → BoccTable K R → BoccTable K R
  insert key rec s = record s { write_set = s.write_set ++ (key, rec) ∷ [] }

  unfoldable pub save_write_set : ℕ → BoccTable K R → BoccTable K R
  save_write_set clock s = record s {
    committed_wss =
        record { keys = keys_of s.write_set; val_ts = clock; end_ts = dts_inf } ∷ s.committed_wss;
  }

  -- A fault (`none`) takes the front of an empty log.
  unfoldable pub transaction_commit : ℕ → ℕ → ℕ → BoccTable K R → Option (BoccTable K R)
  unfolding clean_up insert_each
  transaction_commit txn_id oldest clock s = do
    wss ← finish txn_id oldest clock s.committed_wss
    some (record { write_set = []; committed_wss = wss; tbl = insert_each s.write_set s.tbl })

  unfoldable pub transaction_abort : BoccTable K R → BoccTable K R
  transaction_abort s = record s { write_set = [] }

  -- readCommit takes two timestamps, and validates with the second one.
  unfoldable pub read_commit : ℕ → ℕ → List K → BoccTable K R → Bool
  unfolding validate
  read_commit txn_id clock keys s = validate txn_id (clock + 1) keys s.committed_wss
