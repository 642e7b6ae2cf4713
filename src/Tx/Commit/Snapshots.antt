-- ===== src/Tx/Commit/Snapshots.antt =====
-- MVCCTable::getByKey: what a transaction reads, while others commit.
use pipefabric.Prelude.{
  ℕ, zero, suc, ◌≡◌, ◌≢◌, refl, sym, ap, ◌∙◌, false, Option, none, some, List, [], ◌∷◌, ◌++◌,
  append_assoc, append-nil, arith, ◌>>=◌, ◌==◌, get_elem?, set, get_elem?-set_ne, Bool-cases, inl,
  inr,
}
use pipefabric.Prelude.Eq.{Eq, beq_refl}
use pipefabric.Prelude.Assoc.{lookup}
use pipefabric.Tx.Context.{ActiveTx, Context, get_pos}
use pipefabric.Tx.WriteSet.{insert_write}
use pipefabric.Tx.Commit.{
  MvccTable, insert, transaction_begin, find_write, own_or, take_snapshot, read_found,
  get_committed, get_by_key,
}
use pipefabric.Tx.Version.{Slot, read_version}
use pipefabric.Tx.Commit.Writes.{read_key}

-- The entry that getPosFromTxnID finds is that of the transaction.
get_pos-txn :
    (id pos : ℕ) (ts : List ActiveTx) (t : ActiveTx)
    → get_pos id ts ≡ some pos
    → get_elem? ts pos ≡ some t
    → t.txn ≡ id
unfolding get_pos
get_pos-txn id pos [] t p e = absurd (cc p)
get_pos-txn id zero (x ∷ ts) t p e = ground arith
get_pos-txn id (suc pos) (x ∷ ts) t p e = get_pos-txn id pos ts t (ground arith) e

get_pos-set_other :
    (id pos : ℕ) (ts : List ActiveTx) (t t' : ActiveTx)
    → get_elem? ts pos ≡ some t
    → t'.txn ≡ t.txn
    → get_pos id (set ts pos t') ≡ get_pos id ts
unfolding get_pos
get_pos-set_other id pos [] t t' e same = refl
get_pos-set_other id zero (x ∷ ts) t t' e same = ground arith
get_pos-set_other id (suc pos) (x ∷ ts) t t' e same =
    ground (arith, get_pos-set_other id pos ts t t' e same)

-- A transaction that reads the snapshot `t`, or has not read yet, where it is 0.
pub record HasSnapshot (id t : ℕ) (ts : List ActiveTx) : Type 0 where
  pub at : ℕ
  pub entry : ActiveTx
  pub found : get_pos id ts ≡ some at
  pub there : get_elem? ts at ≡ some entry
  pub snapshot : entry.read_cts ≡ t

-- Changes of the entry of another transaction leave the snapshot as it is.
pub set-HasSnapshot :
    (id other t pos : ℕ) (ts : List ActiveTx) (x x' : ActiveTx)
    → id ≢ other
    → get_pos other ts ≡ some pos
    → get_elem? ts pos ≡ some x
    → x'.txn ≡ x.txn
    → HasSnapshot id t ts
    → HasSnapshot id t (set ts pos x')
set-HasSnapshot id other t pos ts x x' apart p e same h = record {
  at = h.at;
  entry = h.entry;
  found = get_pos-set_other id pos ts x x' e same ∙ h.found;
  there = get_elem?-set_ne ts x' elsewhere ∙ h.there;
  snapshot = h.snapshot;
}
  where
    same_entry : pos ≡ h.at → h.entry ≡ x
    same_entry q = cc (ap (get_elem? ts) q, h.there, e)

    elsewhere : pos ≢ h.at
    elsewhere q = apart (
        sym (get_pos-txn id h.at ts h.entry h.found h.there)
        ∙ ap (λ (y : ActiveTx). y.txn) (same_entry q)
        ∙ get_pos-txn other pos ts x p e)

read_found-snapshot {ℓ} :
    {V : Type ℓ} (id t : ℕ) (c : Context) (o : Option (List (Slot V)))
    → HasSnapshot id t c.active_txs
    → t ≢ 0
    → read_found id c o ≡ some (c, o >>= read_version t)
unfolding read_found take_snapshot
read_found-snapshot id t c none h set_already = refl
read_found-snapshot id t c (some o) h set_already =
    let taken : (h.entry.read_cts == 0) ≡ false = ground (arith, h.snapshot) in
    rw (h.found, h.there, taken, h.snapshot) refl

module _ {ℓ} {K V : Type ℓ} ⦃key_eq : Eq K⦄ where
  pub get_committed-snapshot :
      (id t : ℕ) (k : K) (tb : MvccTable K V) (c : Context)
      → HasSnapshot id t c.active_txs
      → t ≢ 0
      → get_committed id k tb c ≡ some (c, read_key t k tb.tbl)
  unfolding get_committed read_key
  get_committed-snapshot id t k tb c h set_already =
      read_found-snapshot id t c (lookup k tb.tbl) h set_already

  -- A transaction that reads a snapshot already gets from a table that it does not write the value
  -- of the snapshot, and its snapshot stays.
  pub get_by_key-snapshot :
      (id t : ℕ) (k : K) (tb : MvccTable K V) (c : Context)
      → HasSnapshot id t c.active_txs
      → t ≢ 0
      → tb.write_txn ≢ id
      → get_by_key id k tb c ≡ some (c, read_key t k tb.tbl)
  unfolding get_by_key
  get_by_key-snapshot id t k tb c h set_already reader =
      let other : (tb.write_txn == id) ≡ false = ground arith in
      rw other (get_committed-snapshot id t k tb c h set_already)

  unfoldable pub insert_all : List (K × V) → MvccTable K V → MvccTable K V
  unfolding insert
  insert_all [] tb = tb
  insert_all ((k, v) ∷ ws) tb = insert_all ws (insert k v tb)

  insert_all-write_set :
      (ws : List (K × V)) (tb : MvccTable K V)
      → ((insert_all ws tb).write_set ≡ tb.write_set ++ ws)
        × ((insert_all ws tb).write_txn ≡ tb.write_txn)
  unfolding insert_all insert insert_write
  insert_all-write_set [] tb = (sym (append-nil tb.write_set), refl)
  insert_all-write_set ((k, v) ∷ ws) tb =
      let (e, i) = insert_all-write_set ws (insert k v tb) in
      (e ∙ append_assoc tb.write_set ((k, v) ∷ []) ws, i)

  find_write-append :
      (k : K) (v : V) (us ws : List (K × V))
      → find_write k us ≡ none
      → find_write k (us ++ (k, v) ∷ ws) ≡ some v
  unfolding find_write
  find_write-append k v [] ws e = rw (beq_refl k) refl
  find_write-append k v ((a, w) ∷ us) ws e = elim (Bool-cases (key_eq.beq a k)) [
    | inl hit ↦ absurd (cc (rw hit at e))
    | inr miss ↦ rw miss (find_write-append k v us ws (rw miss at e))
  ]

  -- A transaction that inserts a value for a key that it has not written yet, and then any others,
  -- reads that first value, also where it has written the key again.
  pub own_read_first :
      (id : ℕ) (k : K) (v : V) (more : List (K × V)) (tb : MvccTable K V) (c : Context)
      → find_write k tb.write_set ≡ none
      → get_by_key id k (insert_all ((k, v) ∷ more) (transaction_begin id tb)) c ≡ some (c, some v)
  unfolding get_by_key transaction_begin own_or
  own_read_first id k v more tb c e =
      let (ws, txn) = insert_all-write_set ((k, v) ∷ more) (transaction_begin id tb) in
      rw (txn, ws, find_write-append k v tb.write_set more e) (ground arith)
