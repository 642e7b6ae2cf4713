-- ===== src/Tx/Context/Slots.antt =====
-- StateContext: newTx and removeTx, and the slots that they take and release.

use pipefabric.Prelude.{
  ℕ, zero, suc, ◌+◌, ◌<◌, ◌≡◌, refl, ap, sym, ◌∙◌, true, false, some, List, [], ◌∷◌, map, All,
  get_elem?, set, arith,
}
use pipefabric.Tx.Context.{
  ActiveTx, active, Context, free_pos, get_pos, new_tx, set_read_cts, remove_tx,
}

set-twice {ℓ} : {A : Type ℓ} (l : List A) (i : ℕ) (a b : A) → set (set l i a) i b ≡ set l i b
set-twice [] i a b = refl
set-twice (x ∷ l) zero a b = refl
set-twice (x ∷ l) (suc i) a b = ap (◌∷◌ x) (set-twice l i a b)

free_pos-suc :
    (t : ActiveTx) (ts : List ActiveTx) (pos : ℕ)
    → free_pos (t ∷ ts) ≡ some (suc pos)
    → free_pos ts ≡ some pos
unfolding free_pos
free_pos-suc t ts pos f = ground arith

free_pos-zero : (t : ActiveTx) (ts : List ActiveTx) → free_pos (t ∷ ts) ≡ some 0 → t.in_use ≡ false
unfolding free_pos
free_pos-zero t ts f = ground arith

-- A transaction that is newer than all in the table is found in the free slot that it is put in.
put_found :
    (ts : List ActiveTx) (pos : ℕ) (e : ActiveTx) (id : ℕ)
    → free_pos ts ≡ some pos
    → All (λ t. t.txn < id) ts
    → e.txn ≡ id
    → (get_pos id (set ts pos e) ≡ some pos) × (get_elem? (set ts pos e) pos ≡ some e)
unfolding get_pos free_pos
put_found [] pos e id f below same = absurd (cc f)
put_found (t ∷ ts) zero e id f below same = (ground arith, refl)
put_found (t ∷ ts) (suc pos) e id f below same =
    let (at, there) = put_found ts pos e id (free_pos-suc t ts pos f) below.1 same in
    (ground (arith, below.0), there)

-- The slots in use are again the same when the slot is released.
released :
    (ts : List ActiveTx) (pos : ℕ) (e : ActiveTx)
    → free_pos ts ≡ some pos
    → e.in_use ≡ false
    → map (λ t. t.in_use) (set ts pos e) ≡ map (λ t. t.in_use) ts
released [] pos e f u = refl
released (t ∷ ts) zero e f u = ap (λ b. b ∷ map (λ t. t.in_use) ts) (u ∙ sym (free_pos-zero t ts f))
released (t ∷ ts) (suc pos) e f u =
    ap (◌∷◌ t.in_use) (released ts pos e (free_pos-suc t ts pos f) u)

-- Where a slot is free and the next number is greater than those in the table, newTx and removeTx
-- of that transaction are made without a fault; in between, the transaction is found in the free
-- slot; and afterwards the slots in use are those from before.
pub new_tx-remove_tx :
    (c : Context) (pos : ℕ)
    → free_pos c.active_txs ≡ some pos
    → All (λ t. t.txn < c.next_tx_id) c.active_txs
    → (c₁ c₂ : Context) × (new_tx c ≡ some (c₁, c.next_tx_id))
      × (get_pos c.next_tx_id c₁.active_txs ≡ some pos)
      × (remove_tx c₁ c.next_tx_id ≡ some c₂)
      × (map (λ t. t.in_use) c₂.active_txs ≡ map (λ t. t.in_use) c.active_txs)
unfolding new_tx remove_tx set_read_cts
new_tx-remove_tx c pos f below =
    let entry : ActiveTx = record {
      in_use = true;
      txn = c.next_tx_id;
      first_state = active;
      second_state = active;
      read_cts = 0;
    } in
    let gone : ActiveTx = record entry { in_use = false } in
    let (found, there) = put_found c.active_txs pos entry c.next_tx_id f below refl in
    let same : set (set c.active_txs pos entry) pos entry ≡ set c.active_txs pos entry =
      set-twice c.active_txs pos entry entry in
    (
      record c { next_tx_id = c.next_tx_id + 1; active_txs = set c.active_txs pos entry },
      record c { next_tx_id = c.next_tx_id + 1; active_txs = set c.active_txs pos gone },
      rw f refl,
      found,
      rw (found, there, same, found, there, set-twice c.active_txs pos entry gone) refl,
      released c.active_txs pos gone f refl,
    )
