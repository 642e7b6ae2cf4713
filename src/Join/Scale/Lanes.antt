-- ===== src/Join/Scale/Lanes.antt =====
-- Pipe.hpp, scaleJoin: the instances of a ScaleJoin, each behind a Queue for its left input, whose
-- thread hands the tuples on in its own time. The right stream, and its punctuations, reach the
-- instances directly. One tuple that comes reaches all queues, or all instances, in one step. The
-- queue behind the instances takes their results in any order.
use pipefabric.Prelude.{ℕ, zero, suc, List, [], ◌∷◌, ◌++◌}
use pipefabric.Prelude.Eq.{Eq}
use pipefabric.Stream.{Event}
use pipefabric.Join.Reference.{Joining}
use pipefabric.Join.Symmetric.{Input}
use pipefabric.Join.Scale.{ScaleJoin, handle, construct}

-- An instance, and what waits in the queue for its left input.
pub record Lane {ℓ} (L R K : Type ℓ) : Type ℓ where
  pub instance_of : ScaleJoin L R K
  pub waiting : List (Input L R)

-- What happens next: an input of the left stream comes, one of the right stream, or the thread of
-- the queue with this number hands one on.
pub data Turn {ℓ} (L R : Type ℓ) : Type ℓ where
  left_comes : Input L R → Turn L R
  right_comes : Input L R → Turn L R
  queue_turn : ℕ → Turn L R

module _ {ℓ} {L R K : Type ℓ} where
  abbrev pub idle : ScaleJoin L R K → Lane L R K
  idle s = record { instance_of = s; waiting = [] }

  -- CREATE_LINK(pOp, qu)
  unfoldable pub enqueue_each : Input L R → List (Lane L R K) → List (Lane L R K)
  enqueue_each i [] = []
  enqueue_each i (l ∷ ls) = record l { waiting = l.waiting ++ i ∷ [] } ∷ enqueue_each i ls

module _ {ℓ} {L R K Q : Type ℓ} ⦃key_eq : Eq K⦄ ⦃left_eq : Eq L⦄ ⦃right_eq : Eq R⦄ (narrow : K → K)
    (j : Joining L R K Q) where
  -- The queue's output goes to its instance.
  unfoldable pub hand_on : ScaleJoin L R K → List (Input L R) → Lane L R K × List (Event Q)
  unfolding handle
  hand_on s [] = (idle s, [])
  hand_on s (i ∷ q) =
      let (s', out) = handle narrow j s i in (record { instance_of = s'; waiting = q }, out)

  unfoldable pub take_turn : ℕ → List (Lane L R K) → List (Lane L R K) × List (Event Q)
  unfolding hand_on
  take_turn k [] = ([], [])
  take_turn zero (l ∷ ls) = let (l', out) = hand_on l.instance_of l.waiting in (l' ∷ ls, out)
  take_turn (suc k) (l ∷ ls) = let (ls', out) = take_turn k ls in (l ∷ ls', out)

  -- The right stream's publisher calls the instances one after the other.
  unfoldable pub handle_each : Input L R → List (Lane L R K) → List (Lane L R K) × List (Event Q)
  unfolding handle
  handle_each i [] = ([], [])
  handle_each i (l ∷ ls) =
      let (s', out) = handle narrow j l.instance_of i in
      let (ls', rest) = handle_each i ls in (record l { instance_of = s' } ∷ ls', out ++ rest)

  unfoldable pub act : List (Lane L R K) → Turn L R → List (Lane L R K) × List (Event Q)
  unfolding enqueue_each take_turn handle_each
  act ls (left_comes i) = (enqueue_each i ls, [])
  act ls (right_comes i) = handle_each i ls
  act ls (queue_turn k) = take_turn k ls

-- The loop of scaleJoin that makes the instances, from an id on.
unfoldable pub instances {ℓ} : {L R K : Type ℓ} → ℕ → ℕ → ℕ → List (Lane L R K)
instances id zero thread_num = []
instances id (suc n) thread_num = idle (construct id thread_num) ∷ instances (suc id) n thread_num
