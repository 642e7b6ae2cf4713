-- ===== src/Cep/Tests.antt =====
-- Witnesses and tests for the pattern matching.
use pipefabric.Prelude.{
  ℕ, ◌≡◌, refl, Bool, Option, some, none, List, [], ◌∷◌, ◌==◌, ◌/◌, ◌+◌, drop, take, length, ◌>>=◌,
  SameItems,
}
use pipefabric.Stream.{try_run, all_fresh, Event, news}
use pipefabric.Cep.{start, negation, normal, final, Nfa, construct_nfa, new_structure}
use pipefabric.Cep.Engine.{
  WindowStruct, no_constraint, set_window_constraint, one_by_one, Engine, new_engine, first_match,
  next_match, run_gc_structures,
}
use pipefabric.Cep.Pattern.First.{first_match_run}
use pipefabric.Cep.Search.{all_matches, overlapping_matches}
use pipefabric.Cep.Pattern.Next.Run.{next_match_run}
use pipefabric.Cep.Collect.{run_gc_structures-half, without_each}

-- The related value is the event before.
abbrev follows : ℕ → ℕ → Option ℕ → Bool
follows n x values = x == n

abbrev last_event : ℕ → ℕ → ℕ → ℕ
last_event d n x = x

abbrev stream : List ℕ
stream = 5 ∷ 1 ∷ 4 ∷ 2 ∷ 1 ∷ 3 ∷ 1 ∷ 2 ∷ 3 ∷ []

-- The window of length 0 does not keep the match apart.
first_match_run_example :
    (s' : Engine ℕ ℕ) × (try_run
        (first_match
          (construct_nfa 0 last_event (follows 1) (follows 2 ∷ follows 3 ∷ []))
          (set_window_constraint 0 none none)
          one_by_one)
        new_engine
        stream
      ≡ some (
        s',
        all_fresh (
            all_matches 0 last_event
              (length stream)
              (follows 1)
              (follows 2 ∷ follows 3 ∷ [])
              stream),
      ))
first_match_run_example =
    first_match_run 0 last_event (follows 1) (follows 2) (follows 3 ∷ [])
      (set_window_constraint 0 none none) stream

matches_found :
    all_matches 0 last_event (length stream) (follows 1) (follows 2 ∷ follows 3 ∷ []) stream
    ≡ 1 ∷ 2 ∷ 3 ∷ 1 ∷ 2 ∷ 3 ∷ []
unfolding all_matches
matches_found = refl

-- 1, then no 2, then 3.
abbrev no_two : Nfa ℕ ℕ
no_two = record {
  states =
      start (record { edge_id = 0; predicate = follows 1; dest_state = 1 } ∷ [])
      ∷ negation (record { edge_id = 1; predicate = follows 2; dest_state = 2 } ∷ [])
      ∷ normal (record { edge_id = 2; predicate = follows 3; dest_state = 3 } ∷ [])
      ∷ final
      ∷ [];
  init = 0;
  update = last_event;
}

abbrev two_to_delete : Engine ℕ ℕ
two_to_delete = record {
  pool = (0, new_structure no_two) ∷ (1, new_structure no_two) ∷ (2, new_structure no_two) ∷ [];
  deleted_structures = 0 ∷ 2 ∷ [];
  sequence = 3;
  counter = 0;
}

run_gc_structures-half_example : run_gc_structures two_to_delete ≡ record two_to_delete {
  deleted_structures =
      drop ((length two_to_delete.deleted_structures + 1) / 2) two_to_delete.deleted_structures;
  pool =
      without_each
        (take ((length two_to_delete.deleted_structures + 1) / 2) two_to_delete.deleted_structures)
        two_to_delete.pool;
}
run_gc_structures-half_example = run_gc_structures-half two_to_delete

abbrev no_constraints : WindowStruct
no_constraints = record { window = no_constraint; event_from = none; event_to = none; period = 0 }

-- Of the two structures that a 2 rules out one is left, and becomes a match.
ruled_out_matched :
    (try_run (next_match no_two no_constraints one_by_one) new_engine (1 ∷ 1 ∷ 2 ∷ 3 ∷ []) >>= λ r.
    some r.1)
    ≡ some (all_fresh (1 ∷ 3 ∷ []))
unfolding next_match try_run new_engine
ruled_out_matched = refl

next_match_run_example :
    (s' : Engine ℕ ℕ) × (out : List (Event ℕ)) × (try_run
        (next_match
          (construct_nfa 0 last_event (follows 1) (follows 2 ∷ follows 3 ∷ []))
          no_constraints
          one_by_one)
        new_engine
        stream
      ≡ some (s', out))
    × SameItems
        (news out)
        (overlapping_matches 0 last_event (follows 1) (follows 2 ∷ follows 3 ∷ []) stream)
next_match_run_example =
    next_match_run 0 last_event (follows 1) (follows 2) (follows 3 ∷ []) no_constraints stream

overlapping_found :
    overlapping_matches 0 last_event
      (follows 1)
      (follows 2 ∷ follows 3 ∷ [])
      (1 ∷ 1 ∷ 2 ∷ 3 ∷ 1 ∷ [])
    ≡ 1 ∷ 2 ∷ 3 ∷ 1 ∷ 2 ∷ 3 ∷ []
unfolding overlapping_matches
overlapping_found = refl
