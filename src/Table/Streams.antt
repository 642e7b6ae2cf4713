-- ===== src/Table/Streams.antt =====
-- ToTable and FromTable on one table.
use pipefabric.Prelude.{
  ◌≡◌, refl, ap, sym, append-nil, append_assoc, ◌∙◌, Bool, true, List, [], ◌∷◌, ◌++◌,
}
use pipefabric.Prelude.Eq.{Eq}
use pipefabric.Stream.{Event, element, all_fresh, all_stale}
use pipefabric.Table.{Notifications, to_table, insert, table_callback, producer}

module _ {ℓ} {K R : Type ℓ} ⦃key_eq : Eq K⦄ (key_func : R → K) where
  -- A stream into a table, and what the observers of the table are told meanwhile.
  unfoldable pub fill : List (K × R) → List (Event R) → List (K × R) × Notifications R
  unfolding to_table
  fill table [] = (table, [])
  fill table (e ∷ es) =
      let (table', notes, out) = to_table key_func table e in
      let (table'', later) = fill table' es in (table'', notes ++ later)

  -- An observer's queue after some notifications.
  unfoldable pub queued : List (R × Bool) → Notifications R → List (R × Bool)
  unfolding table_callback
  queued queue [] = queue
  queued queue (note ∷ notes) = queued (table_callback queue note) notes

  flagged : List R → List (R × Bool)
  flagged [] = []
  flagged (x ∷ xs) = (x, true) ∷ flagged xs

  queued-fill :
      (table : List (K × R)) (queue : List (R × Bool)) (xs : List R)
      → queued queue (fill table (all_fresh xs)).1 ≡ queue ++ flagged xs
  unfolding queued fill to_table insert table_callback flagged
  queued-fill table queue [] = sym (append-nil queue)
  queued-fill table queue (x ∷ xs) =
      queued-fill (insert (key_func x) x table).0 (queue ++ (x, true) ∷ []) xs
      ∙ append_assoc queue ((x, true) ∷ []) (flagged xs)

  producer-flagged : (xs : List R) → producer (flagged xs) ≡ all_stale xs
  unfolding producer flagged
  producer-flagged [] = refl
  producer-flagged (x ∷ xs) = ap (◌∷◌ (element x true)) (producer-flagged xs)

  -- When a ToTable operator puts new tuples into a table, a FromTable operator on that table
  -- publishes every one of them as outdated, in their order.
  pub insertions_outdated :
      (table : List (K × R)) (xs : List R)
      → producer (queued [] (fill table (all_fresh xs)).1) ≡ all_stale xs
  insertions_outdated table xs = ap producer (queued-fill table [] xs) ∙ producer-flagged xs
