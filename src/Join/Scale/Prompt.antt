-- ===== src/Join/Scale/Prompt.antt =====
-- Pipe.hpp, scaleJoin: the instances behind their queues, whose threads take turns in any order,
-- against instances that are handed every input at once.
use pipefabric.Prelude.{ℕ, ◌+◌, ◌≡◌, ◌⊎◌, map, inl, inr, false, List, [], ◌∷◌, ◌++◌, All}
use pipefabric.Prelude.Eq.{Eq}
use pipefabric.Stream.{Event, run}
use pipefabric.Join.Reference.{Joining}
use pipefabric.Join.Symmetric.{Input, left, right}
use pipefabric.Join.Scale.{ScaleJoin, handle, handle_all}
use pipefabric.Join.Scale.Lanes.{Lane, Turn, left_comes, right_comes, queue_turn, idle, act}

module _ {ℓ} {L R K : Type ℓ} where
  abbrev pub AllIdle : List (Lane L R K) → Type ℓ
  AllIdle ls = All (λ (l : Lane L R K). l.waiting ≡ []) ls

abbrev pub inputs_of {ℓ} : {L R : Type ℓ} → List (Turn L R) → List (Input L R)
inputs_of [] = []
inputs_of (left_comes i ∷ ts) = i ∷ inputs_of ts
inputs_of (right_comes i ∷ ts) = i ∷ inputs_of ts
inputs_of (queue_turn k ∷ ts) = inputs_of ts

module _ {ℓ} {L R K Q : Type ℓ} ⦃key_eq : Eq K⦄ ⦃left_eq : Eq L⦄ ⦃right_eq : Eq R⦄ (narrow : K → K)
    (j : Joining L R K Q) where
  -- Whenever an input of the right stream comes, the queues are empty, and so they are at the end.
  abbrev pub IsPrompt : List (Lane L R K) → List (Turn L R) → Type ℓ
  IsPrompt ls [] = AllIdle ls
  IsPrompt ls (left_comes i ∷ ts) = IsPrompt (act narrow j ls (left_comes i)).0 ts
  IsPrompt ls (right_comes i ∷ ts) = AllIdle ls × IsPrompt (act narrow j ls (right_comes i)).0 ts
  IsPrompt ls (queue_turn k ∷ ts) = IsPrompt (act narrow j ls (queue_turn k)).0 ts

  -- The instances once their queues are empty, and what they publish until then.
  abbrev drained : List (Lane L R K) → List (ScaleJoin L R K) × List (Event Q)
  drained [] = ([], [])
  drained (l ∷ ls) =
      let (s, out) = run (handle narrow j) l.instance_of l.waiting in
      let (ss, rest) = drained ls in (s ∷ ss, out ++ rest)

  -- For a number of events that is added up along a list.
  module _ (m : List (Event Q) → ℕ) (empty : m [] ≡ 0)
      (add : (es fs : List (Event Q)) → m (es ++ fs) ≡ m es + m fs) where
    -- One step against the drained instances: `i` is the input that comes with it.
    abbrev Follows : List (Lane L R K) → Input L R → List (Lane L R K) × List (Event Q) → Type ℓ
    Follows ls i x =
        ((drained x.0).0 ≡ (handle_all narrow j (drained ls).0 i).0)
        × (m x.1 + m (drained x.0).1
            ≡ m (drained ls).1 + m (handle_all narrow j (drained ls).0 i).1)

    -- Where a run ends, and how much it publishes, against the drained instances.
    abbrev Ends : List (Lane L R K) → List (Turn L R) → Type ℓ
    Ends ls ts =
        ((run (act narrow j) ls ts).0
          ≡ map idle (run (handle_all narrow j) (drained ls).0 (inputs_of ts)).0)
        × (m (run (act narrow j) ls ts).1
            ≡ m (drained ls).1 + m (run (handle_all narrow j) (drained ls).0 (inputs_of ts)).1)

  -- New tuples of either stream, and turns of the queues' threads.
  abbrev pub turn : (L ⊎ R) ⊎ ℕ → Turn L R
  turn (inl (inl l)) = left_comes (left l false)
  turn (inl (inr r)) = right_comes (right r false)
  turn (inr k) = queue_turn k

  abbrev pub arrivals_of : List ((L ⊎ R) ⊎ ℕ) → List (L ⊎ R)
  arrivals_of [] = []
  arrivals_of (inl i ∷ ts) = i ∷ arrivals_of ts
  arrivals_of (inr k ∷ ts) = arrivals_of ts
