-- ===== src/Batch.antt =====
-- qop/Batcher.hpp: the batcher, which gathers tuples into batches, and the unbatcher. A fault
-- (`none`) is the std::length_error of a vector that is to grow past its max_size(), or a write
-- behind the end of a vector. A default-constructed tuple and max_size() are parameters.
pub mod RoundTrip
pub mod Unbounded
pub mod Examples
use pipefabric.Prelude.{
  ℕ, ◌+◌, ◌-◌, ◌%◌, ◌^◌, ◌≡◌, Bool, true, false, Option, none, some, List, [], ◌∷◌, ◌++◌, length,
  take, replicate, set, ltb, leb, ◌==◌, if◌then◌else◌, ◌>>=◌, map,
}
use pipefabric.Stream.{Event, element, punctuation, Punctuation}

-- SIZE_MAX of a 64-bit size_t
abbrev pub size_max : ℕ
size_max = 2 ^ 64 - 1

pub record Batcher {ℓ} (A : Type ℓ) : Type ℓ where
  pub batch_size : ℕ
  pub pos : ℕ
  pub buf : List (A × Bool)

module _ {ℓ} {A : Type ℓ} (dummy : A × Bool) (max_size : ℕ) where
  -- std::vector::resize
  unfoldable pub resize : List (A × Bool) → ℕ → Option (List (A × Bool))
  resize v n = if leb n max_size then some (take n v ++ replicate (n - length v) dummy) else none

  unfoldable pub construct : ℕ → Option (Batcher A)
  construct n = do
    buf ← resize [] (if n == size_max then 0 else n)
    some (record { batch_size = n; pos = 0; buf = buf })

  -- The published vector is moved from, so the resized one begins empty.
  unfoldable pub publish_batch : Batcher A → Option (Batcher A × List (Event (List (A × Bool))))
  publish_batch b = do
    buf ← resize [] b.batch_size
    some (record b { pos = 0; buf = buf }, element b.buf false ∷ [])

  -- mBuf[mPos++] = tuple
  unfoldable pub write : Batcher A → A × Bool → Option (Batcher A)
  write b tuple =
      if ltb b.pos (length b.buf)
      then some (record b { pos = (b.pos + 1) % 2 ^ 64; buf = set b.buf b.pos tuple })
      else none

  unfoldable pub process_data_element :
      Batcher A → A → Bool → Option (Batcher A × List (Event (List (A × Bool))))
  process_data_element b a outdated = do
    buf ← (if b.batch_size == size_max then resize b.buf (b.pos + 1) else some b.buf)
    b' ← write (record b { buf = buf }) (a, outdated)
    (if b'.pos == b'.batch_size then publish_batch b' else some (b', []))

  unfoldable pub process_punctuation :
      Batcher A → Punctuation → Option (Batcher A × List (Event (List (A × Bool))))
  process_punctuation b p = do
    (b', out) ← (if b.batch_size == size_max then publish_batch b else some (b, []))
    some (b', out ++ punctuation p ∷ [])

  unfoldable pub handle : Batcher A → Event A → Option (Batcher A × List (Event (List (A × Bool))))
  handle b (element a outdated) = process_data_element b a outdated
  handle b (punctuation p) = process_punctuation b p

module _ {ℓ} {A : Type ℓ} where
  -- UnBatcher, which keeps no state and ignores the flag of a batch.
  abbrev pub release : List (A × Bool) → List (Event A)
  release [] = []
  release ((a, outdated) ∷ vec) = element a outdated ∷ release vec

  unfoldable pub unbatch : Event (List (A × Bool)) → List (Event A)
  unbatch (element vec outdated) = release vec
  unbatch (punctuation p) = punctuation p ∷ []

  unfoldable pub unbatch_all : List (Event (List (A × Bool))) → List (Event A)
  unfolding unbatch
  unbatch_all [] = []
  unbatch_all (e ∷ es) = unbatch e ++ unbatch_all es
