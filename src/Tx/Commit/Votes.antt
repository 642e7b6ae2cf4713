-- ===== src/Tx/Commit/Votes.antt =====
-- The votes of a transaction in its slot, and the release of the slot.
use pipefabric.Prelude.{
  ℕ, zero, suc, ◌≡◌, ◌≢◌, refl, Bool, true, false, some, List, [], ◌∷◌, arith, get_elem?, set,
}
use pipefabric.Tx.Context.{commit, ActiveTx, Context, get_pos, set_read_cts, remove_tx}
use pipefabric.Tx.Commit.{status_of, with_status, get_write_status, set_write_status}
use pipefabric.Tx.Commit.Snapshots.{HasSnapshot, set-HasSnapshot}

-- The entry of a transaction stays in its place when it is changed.
pub get_pos-set :
    (id pos : ℕ) (ts : List ActiveTx) (t t' : ActiveTx)
    → get_pos id ts ≡ some pos
    → get_elem? ts pos ≡ some t
    → t'.txn ≡ t.txn
    → (get_pos id (set ts pos t') ≡ some pos) × (get_elem? (set ts pos t') pos ≡ some t')
unfolding get_pos
get_pos-set id pos [] t t' p e same = absurd (cc p)
get_pos-set id zero (x ∷ ts) t t' p e same = (ground arith, refl)
get_pos-set id (suc pos) (x ∷ ts) t t' p e same =
    let (at, there) = get_pos-set id pos ts t t' (ground arith) e same in (ground arith, there)

module _ (c : Context) (txn pos : ℕ) (t : ActiveTx) (at : get_pos txn c.active_txs ≡ some pos)
    (there : get_elem? c.active_txs pos ≡ some t) where
  abbrev pub voted : Bool → Context
  voted b = record c { active_txs = set c.active_txs pos (with_status b commit t) }

  pub with_status-txn : (b : Bool) → (with_status b commit t).txn ≡ t.txn
  with_status-txn true = refl
  with_status-txn false = refl

  pub set_write_status-voted : (b : Bool) → set_write_status c txn b commit ≡ some (voted b)
  unfolding set_write_status
  set_write_status-voted b = rw (at, there) refl

  pub voted-at :
      (b : Bool)
      → (get_pos txn (voted b).active_txs ≡ some pos)
        × (get_elem? (voted b).active_txs pos ≡ some (with_status b commit t))
  voted-at b =
      get_pos-set txn pos c.active_txs t (with_status b commit t) at there (with_status-txn b)

  pub get_write_status-voted :
      (b d : Bool) → get_write_status (voted b) txn d ≡ some (status_of d (with_status b commit t))
  unfolding get_write_status
  get_write_status-voted b d = let (p, e) = voted-at b in rw (p, e) refl

  pub voted-HasSnapshot :
      (b : Bool) (r t' : ℕ)
      → r ≢ txn
      → HasSnapshot r t' c.active_txs
      → HasSnapshot r t' (voted b).active_txs
  voted-HasSnapshot b r t' apart h =
      set-HasSnapshot r txn t' pos c.active_txs t (with_status b commit t) apart at there
        (with_status-txn b) h

  pub remove_tx-total :
      (c' : Context) × (remove_tx c txn ≡ some c')
      × (c'.last_cts ≡ c.last_cts)
      × ((r t' : ℕ) → r ≢ txn → HasSnapshot r t' c.active_txs → HasSnapshot r t' c'.active_txs)
  unfolding remove_tx set_read_cts
  remove_tx-total =
      let quiet : ActiveTx = record t { read_cts = 0 } in
      let (p, e) = get_pos-set txn pos c.active_txs t quiet at there refl in
      (
        record c {
          active_txs = set (set c.active_txs pos quiet) pos (record quiet { in_use = false });
        },
        rw (at, there, p, e) refl,
        refl,
        λ r t' apart h.
            set-HasSnapshot r txn t' pos (set c.active_txs pos quiet) quiet
              (record quiet { in_use = false }) apart p e refl
              (set-HasSnapshot r txn t' pos c.active_txs t quiet apart at there refl h),
      )
