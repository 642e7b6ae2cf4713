-- ===== src/Batch/Unbounded.antt =====
-- The batcher without a batch size (SIZE_MAX, the default), which is to publish its batch at a
-- punctuation.
use pipefabric.Prelude.{ℕ, ◌<◌, ◌≡◌, Bool, none, arith}
use pipefabric.Stream.{punctuation, Punctuation}
use pipefabric.Batch.{Batcher, size_max, resize, publish_batch, process_punctuation, handle}

module _ {ℓ} {A : Type ℓ} (dummy : A × Bool) (max_size : ℕ) where
  -- Where a vector cannot have SIZE_MAX entries, the batcher without a batch size faults at every
  -- punctuation, whatever it has gathered: publishBatch resizes the vector to SIZE_MAX.
  pub punctuation_faults :
      (b : Batcher A) (p : Punctuation)
      → b.batch_size ≡ size_max
      → max_size < size_max
      → handle dummy max_size b (punctuation p) ≡ none
  unfolding handle process_punctuation publish_batch resize
  punctuation_faults b p s h = ground arith
