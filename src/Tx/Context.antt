-- ===== src/Tx/Context.antt =====
-- table/StateContext.hpp: the table of active transactions. An entry of activeTxs stands for its
-- tuple and its bit of usedSlots. A fault (`none`) is the shift by 64 where no slot is free, or the
-- search of a transaction that runs out of the array.
pub mod Oldest
pub mod Slots
pub mod Examples
use mathlib.Core.Option
use pipefabric.Prelude.{
  ℕ, zero, suc, ◌+◌, ◌≡◌, Bool, true, false, ◌&&◌, Option, none, some, List, [], ◌∷◌, get_elem?,
  set, ltb, ◌==◌, if◌then◌else◌, ◌>>=◌, not,
}
use pipefabric.Tx.Version.{dts_inf}

pub data Status : Type 0 where
  active : Status
  commit : Status
  abort : Status

pub record ActiveTx : Type 0 where
  pub in_use : Bool
  pub txn : ℕ
  pub first_state : Status
  pub second_state : Status
  pub read_cts : ℕ

pub record Context : Type 0 where
  pub next_tx_id : ℕ
  pub active_txs : List ActiveTx
  pub oldest_visible_version : ℕ
  pub last_cts : ℕ

-- getFreePos of usedSlots; `none` is 64
unfoldable pub free_pos : List ActiveTx → Option ℕ
free_pos [] = none
free_pos (t ∷ ts) = let rest = Option.map suc (free_pos ts) in if t.in_use then rest else some 0

-- getPosFromTxnID
unfoldable pub get_pos : ℕ → List ActiveTx → Option ℕ
get_pos id [] = none
get_pos id (t ∷ ts) =
    let rest = Option.map suc (get_pos id ts) in if t.txn == id then some 0 else rest

unfoldable pub new_tx : Context → Option (Context × ℕ)
new_tx c = do
  pos ← free_pos c.active_txs
  let entry : ActiveTx = record {
    in_use = true;
    txn = c.next_tx_id;
    first_state = active;
    second_state = active;
    read_cts = 0;
  }
  some (
    record c { next_tx_id = c.next_tx_id + 1; active_txs = set c.active_txs pos entry },
    c.next_tx_id,
  )

unfoldable pub set_read_cts : Context → ℕ → ℕ → Option Context
set_read_cts c id read = do
  pos ← get_pos id c.active_txs
  t ← get_elem? c.active_txs pos
  some (record c { active_txs = set c.active_txs pos (record t { read_cts = read }) })

unfoldable pub remove_tx : Context → ℕ → Option Context
remove_tx c id = do
  c' ← set_read_cts c id 0
  pos ← get_pos id c'.active_txs
  t ← get_elem? c'.active_txs pos
  some (record c' { active_txs = set c'.active_txs pos (record t { in_use = false }) })

-- The loop of getOldestActiveTx.
unfoldable pub oldest_active : ℕ → List ActiveTx → ℕ
oldest_active oldest [] = oldest
oldest_active oldest (t ∷ ts) =
    oldest_active (if t.in_use && ltb t.txn oldest then t.txn else oldest) ts

unfoldable pub get_oldest_active_tx : Context → ℕ
unfolding oldest_active
get_oldest_active_tx c = oldest_active dts_inf c.active_txs

-- The loop of recalcOldestVisible.
unfoldable pub least_read : ℕ → List ActiveTx → ℕ
least_read new_min [] = new_min
least_read new_min (t ∷ ts) =
    least_read
      (if t.in_use && (not (t.read_cts == 0) && ltb t.read_cts new_min)
        then t.read_cts
        else new_min)
      ts

unfoldable pub recalc_oldest_visible : Context → Context × ℕ
unfolding least_read
recalc_oldest_visible c =
    let least = least_read dts_inf c.active_txs in
    let new_min = if least == dts_inf then c.last_cts else least in
    if c.oldest_visible_version == 0
    then (record c { oldest_visible_version = c.last_cts }, c.last_cts)
    else (
      record c {
        oldest_visible_version =
            if ltb c.oldest_visible_version new_min then new_min else c.oldest_visible_version;
      },
      new_min,
    )
