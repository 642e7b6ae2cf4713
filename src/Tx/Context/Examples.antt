-- ===== src/Tx/Context/Examples.antt =====
-- Contexts with few transactions.
use pipefabric.Prelude.{◌≡◌, ◌≢◌, ◌↔◌, ◌⊎◌, refl, true, false, some, [], ◌∷◌, arith, map}
use pipefabric.Tx.Context.{
  active, Context, new_tx, remove_tx, get_pos, free_pos, recalc_oldest_visible,
}
use pipefabric.Tx.Context.Slots.{new_tx-remove_tx}
use pipefabric.Tx.Context.Oldest.{IsVisible, recalc_oldest_visible-IsVisible}

-- A reader of the snapshot 4, after the commit 6 and before any clean-up.
abbrev first_reader : Context
first_reader = record {
  next_tx_id = 9;
  active_txs =
      record { in_use = true; txn = 5; first_state = active; second_state = active; read_cts = 4 }
      ∷ [];
  oldest_visible_version = 0;
  last_cts = 6;
}

recalc_oldest_visible-IsVisible_example :
    IsVisible (recalc_oldest_visible first_reader).1 first_reader.active_txs ↔ (
      (first_reader.oldest_visible_version ≢ 0)
      ⊎ IsVisible first_reader.last_cts first_reader.active_txs)
recalc_oldest_visible-IsVisible_example =
    recalc_oldest_visible-IsVisible first_reader (omega arith, tt)

-- The first slot is taken, the second one is free.
abbrev second_free : Context
second_free = record {
  next_tx_id = 9;
  active_txs =
      record { in_use = true; txn = 5; first_state = active; second_state = active; read_cts = 4 }
      ∷ record {
        in_use = false;
        txn = 3;
        first_state = active;
        second_state = active;
        read_cts = 0;
      }
      ∷ [];
  oldest_visible_version = 2;
  last_cts = 6;
}

second_free-free_pos : free_pos second_free.active_txs ≡ some 1
unfolding free_pos
second_free-free_pos = refl

new_tx-remove_tx_example :
    (c₁ c₂ : Context) × (new_tx second_free ≡ some (c₁, 9))
    × (get_pos 9 c₁.active_txs ≡ some 1)
    × (remove_tx c₁ 9 ≡ some c₂)
    × (map (λ t. t.in_use) c₂.active_txs ≡ true ∷ false ∷ [])
new_tx-remove_tx_example =
    new_tx-remove_tx second_free 1 second_free-free_pos (omega arith, (omega arith, tt))
