-- ===== src/Routing/Tests.antt =====
-- Witnesses for the queue and the partitions.
use pipefabric.Prelude.{ℕ, ◌≡◌, ◌%◌, refl, none, some, true, false, map, All, List, [], ◌∷◌, ◌++◌}
use pipefabric.Prelude.Eq.{nat_eq}
use pipefabric.Prelude.Assoc.{lookup}
use pipefabric.Stream.{Event, fresh, stale, punctuation, end_of_stream, tx_commit}
use pipefabric.Routing.Queue.{
  Message, tuple, signal, System, new_system, receive, dequeue_tuple, ready, receives, dequeues,
  Reach, here, next, Drains,
}
use pipefabric.Routing.Queue.Order.{published_queue, delivery, essence, event_of_item, IsBare}
use pipefabric.Routing.Partition.{Partitions, handle_each, followed, part, partition_run}

-- The commit of transaction 7.
abbrev committed : Message ℕ ℕ
committed = signal (record { ptype = some tx_commit; data_of = some 7; tstamp = 30 })

-- Two tuples arrive, one of them is taken, and a punctuation arrives.
abbrev arrived : System ℕ ℕ
arrived = receive (receive new_system (tuple (some 4) false)) (tuple (some 7) true)

abbrev busy : System ℕ ℕ
busy = receive (dequeue_tuple 25 arrived) committed

busy_reached : Reach new_system busy
unfolding new_system receive ready
busy_reached =
    next
      (next
        (next (next here (receives new_system (tuple (some 4) false)))
          (receives _ (tuple (some 7) true)))
        (dequeues 25 arrived refl))
      (receives _ committed)

published_queue_example :
    (map essence busy.published ++ map event_of_item busy.shared.queue ≡ map essence busy.received)
    × All IsBare busy.published
published_queue_example = published_queue busy_reached

delivery_example :
    (t : System ℕ ℕ) × Drains busy t
    × (map essence t.published ≡ map essence busy.received)
    × (t.shared.queue ≡ [])
    × (t.received ≡ busy.received)
unfolding new_system receive dequeue_tuple
delivery_example = delivery busy_reached refl

-- The commit comes out without its transaction.
bare_commit :
    (dequeue_tuple 40 (receive new_system committed)).published
    ≡ signal (record { ptype = some tx_commit; data_of = none; tstamp = 40 }) ∷ []
unfolding dequeue_tuple receive new_system
bare_commit = refl

abbrev halves : Partitions ℕ
halves = (0, []) ∷ (1, fresh 1 ∷ []) ∷ []

abbrev mixed : List (Event ℕ)
mixed = fresh 5 ∷ stale 2 ∷ fresh 8 ∷ punctuation end_of_stream ∷ stale 5 ∷ []

partition_run_example :
    lookup 1 (handle_each (λ x. x % 3) halves mixed)
    ≡ followed (part (λ x. x % 3) 1 mixed) (lookup 1 halves)
partition_run_example = partition_run (λ x. x % 3) halves mixed 1

third_part :
    part (λ x. x % 3) 2 mixed
    ≡ fresh 5 ∷ stale 2 ∷ fresh 8 ∷ punctuation end_of_stream ∷ stale 5 ∷ []
third_part = refl
