-- ===== src/Tx/Commit/Tests.antt =====
-- A transaction that writes two tables, and a reader of an older snapshot.
use pipefabric.Prelude.{
  ℕ, ◌≡◌, refl, true, false, none, some, [], ◌∷◌, subst, arith, ◌==◌, Bool-cases, inl, inr,
}
use pipefabric.Prelude.Eq.{nat_eq}
use pipefabric.Prelude.Assoc.{lookup}
use pipefabric.Tx.Version.{dts_inf, first_version}
use pipefabric.Tx.Version.History.{first_version-IsVersioned}
use pipefabric.Tx.WriteSet.Examples.{number_order}
use pipefabric.Tx.Context.{active, ActiveTx, get_pos}
use pipefabric.Tx.Commit.{
  MvccTable, States, find_write, get_by_key, transaction_begin, transaction_pre_commit,
}
use pipefabric.Tx.Commit.Writes
use pipefabric.Prelude.{some_same}
use pipefabric.Tx.Commit.Writes.{AllLive, IsLive}
use pipefabric.Tx.Commit.Snapshots
use pipefabric.Tx.Commit.Snapshots.{HasSnapshot, insert_all}
use pipefabric.Tx.Commit.TwoPhase
use pipefabric.Tx.Commit.TwoPhase.{HasCommitted, KeepsSnapshots, Repeats}

abbrev writer : ActiveTx
writer = record {
  in_use = true;
  txn = 9;
  first_state = active;
  second_state = active;
  read_cts = 0;
}

abbrev reader : ActiveTx
reader = record {
  in_use = true;
  txn = 5;
  first_state = active;
  second_state = active;
  read_cts = 4;
}

-- The key 1 was inserted by transaction 3; the writer updates it, and inserts the key 2.
abbrev written : MvccTable ℕ ℕ
written = record {
  write_txn = 9;
  write_set = (1, 8) ∷ (2, 5) ∷ [];
  tbl = (1, first_version 3 7 2 0) ∷ [];
}

abbrev both : States ℕ ℕ
both = record {
  context = record {
    next_tx_id = 10;
    active_txs = reader ∷ writer ∷ [];
    oldest_visible_version = 3;
    last_cts = 4;
  };
  first = written;
  second = record written { write_set = (1, 6) ∷ [] };
}

inserted-IsLive : IsLive number_order number_order 2 0 4 (first_version 3 7 2 0)
unfolding first_version
inserted-IsLive = record {
  versioned =
      Writes.later-IsVersioned number_order number_order 2 0 3 4 (first_version 3 7 2 0)
        (omega arith) (omega arith) (first_version-IsVersioned 3 7 2 0 (omega arith));
  slots = omega arith;
  at = 0;
  live = record { cts = 3; dts = dts_inf; used = true; value = 7 };
  found = refl;
  is_used = refl;
  endless = refl;
}

all_live : AllLive number_order number_order 2 0 4 written.tbl
unfolding lookup
all_live k o found = elim (Bool-cases (1 == k)) [
  | inl hit ↦
      subst (IsLive number_order number_order 2 0 4) (some_same (rw hit at found)) inserted-IsLive
  | inr miss ↦ absurd (cc (rw miss at found))
]

writer_found : get_pos 9 both.context.active_txs ≡ some 1
unfolding get_pos
writer_found = refl

reader-HasSnapshot : HasSnapshot 5 4 both.context.active_txs
unfolding get_pos
reader-HasSnapshot = record { at = 0; entry = reader; found = refl; there = refl; snapshot = refl }

two_votes_example :
    (s₁ s₂ : States ℕ ℕ) × (transaction_pre_commit number_order number_order 2 0 true 9
        (λ k. 4 ∷ [])
        (λ k. 4 ∷ [])
        both
      ≡ some s₁)
    × (transaction_pre_commit number_order number_order 2 0 false 9 (λ k. 4 ∷ []) (λ k. 4 ∷ []) s₁
        ≡ some s₂)
    × (s₁.first ≡ both.first)
    × (s₁.second ≡ both.second)
    × (s₁.context.last_cts ≡ 4)
    × (s₂.context.last_cts ≡ 9)
    × HasCommitted number_order number_order 2 0 9 4 both.first s₂.first
    × HasCommitted number_order number_order 2 0 9 4 both.second s₂.second
    × KeepsSnapshots 9 both.context s₂.context
two_votes_example =
    TwoPhase.two_votes number_order number_order 2 0 true 4 9 4 1 both writer writer_found refl refl
      refl all_live all_live (omega arith) (omega arith) (omega arith) (omega arith)

repeatable_read_example :
    (s₁ s₂ : States ℕ ℕ) × (transaction_pre_commit number_order number_order 2 0 false 9
        (λ k. 4 ∷ [])
        (λ k. 4 ∷ [])
        both
      ≡ some s₁)
    × (transaction_pre_commit number_order number_order 2 0 true 9 (λ k. 4 ∷ []) (λ k. 4 ∷ []) s₁
        ≡ some s₂)
    × ((k : ℕ) → Repeats 5 k both s₂)
repeatable_read_example =
    TwoPhase.repeatable_read number_order number_order 2 0 false 4 9 4 1 5 4 both writer
      writer_found refl refl refl all_live all_live (omega arith) (omega arith) (omega arith)
      (omega arith) reader-HasSnapshot (λ e. absurd (omega arith)) (λ e. absurd (omega arith))
      (λ e. absurd (omega arith)) (omega arith) (omega arith) (λ e. absurd (omega arith))
      (λ e. absurd (omega arith))

nothing_written : find_write 3 written.write_set ≡ none
unfolding find_write
nothing_written = refl

own_read_first_example :
    get_by_key 9 3 (insert_all ((3, 1) ∷ (3, 2) ∷ []) (transaction_begin 9 written)) both.context
    ≡ some (both.context, some 1)
own_read_first_example =
    Snapshots.own_read_first 9 3 1 ((3, 2) ∷ []) written both.context nothing_written
