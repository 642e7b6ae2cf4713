-- ===== src/Batch/Examples.antt =====
-- Small runs of the batcher, and the theorems about it at concrete inputs.
use pipefabric.Prelude.{ℕ, ◌≡◌, refl, true, false, some, List, [], ◌∷◌, arith}
use pipefabric.Stream.{Event, element, punctuation, end_of_stream, fresh, stale, try_run}
use pipefabric.Batch
use pipefabric.Batch.{Batcher, size_max}
use pipefabric.Batch.RoundTrip.{IsFilled, Batches, batch_round_trip}

abbrev pairs : Batcher ℕ
pairs = record { batch_size = 2; pos = 0; buf = (0, false) ∷ (0, false) ∷ [] }

abbrev events : List (Event ℕ)
events = fresh 5 ∷ stale 6 ∷ fresh 7 ∷ punctuation end_of_stream ∷ []

batch_trace :
    try_run (Batch.handle (0, false) 100) pairs events
    ≡ some (
      record pairs { pos = 1; buf = (7, false) ∷ (0, false) ∷ [] },
      element ((5, false) ∷ (6, true) ∷ []) false ∷ punctuation end_of_stream ∷ [],
    )
unfolding try_run Batch.handle Batch.process_data_element Batch.process_punctuation Batch.write
    Batch.publish_batch Batch.resize
batch_trace = refl

pairs-IsFilled : IsFilled (0, false) 100 2 [] pairs
pairs-IsFilled = record {
  sized = refl;
  counted = refl;
  unused = (0, false) ∷ (0, false) ∷ [];
  holds = refl;
  long = refl;
  pending = omega arith;
  bounded = omega arith;
  fits = omega arith;
}

batch_round_trip_example :
    Batches (0, false) 100 2 [] events (try_run (Batch.handle (0, false) 100) pairs events)
batch_round_trip_example = batch_round_trip (0, false) 100 2 [] pairs events pairs-IsFilled

abbrev gathering : Batcher ℕ
gathering = record { batch_size = size_max; pos = 1; buf = (5, false) ∷ [] }
