-- ===== src/Cep/Engine.antt =====
-- cep/CEPEngine.hpp, its two subclasses in cep/engine, cep/StructurePool.hpp, and the publishing of
-- matches in cep/Matcher.hpp. The pool is a list of structures under the values of their
-- SequencePartition, all different; its order stands for the unspecified order of the hash table. A
-- structure is named by that value, as the pointers in deletedStructures name it. The static counter
-- of SequencePartition belongs to one engine here, and does not overflow.
use pipefabric.Prelude.{
  ℕ, suc, ◌+◌, Bool, true, false, Option, none, some, List, [], ◌∷◌, ◌++◌, ltb, if◌then◌else◌,
  ◌>>=◌, get_elem?, length,
}
use pipefabric.Prelude.Eq.{nat_eq}
use pipefabric.Prelude.Assoc.{without}
use pipefabric.Stream.{Event, element, punctuation, all_fresh}
use pipefabric.Cep.{
  Nfa, Structure, Outcome, forward, stay, violated, new_structure, forward_edges, add_forward,
  first_edge, check_predicate,
}

-- WindowStruct; the events are -1 where they are not given, `none` here.
pub data WindowConstraint : Type 0 where
  first_last_events from_last_events from_to_events no_constraint : WindowConstraint

pub record WindowStruct : Type 0 where
  pub window : WindowConstraint
  pub event_from : Option ℕ
  pub event_to : Option ℕ
  pub period : ℕ

unfoldable pub set_window_constraint : ℕ → Option ℕ → Option ℕ → WindowStruct
set_window_constraint period none none = record {
  window = first_last_events;
  event_from = none;
  event_to = none;
  period = period;
}
set_window_constraint period (some from) none = record {
  window = from_last_events;
  event_from = some from;
  event_to = none;
  period = period;
}
set_window_constraint period from (some to) = record {
  window = from_to_events;
  event_from = from;
  event_to = some to;
  period = period;
}

abbrev pub has_window : WindowStruct → Bool
has_window w = elim w.window [ no_constraint ↦ false | _ ↦ true ]

-- Matcher::OutputStrategy
pub data OutputStrategy : Type 0 where
  one_by_one combined : OutputStrategy

pub record Engine {ℓ} (A D : Type ℓ) : Type ℓ where
  pub pool : List (ℕ × Structure A D)
  pub deleted_structures : List ℕ
  pub sequence : ℕ
  pub counter : ℕ

-- A structure after engineProcess: whether it goes, and whether it was a match.
pub record Processed {ℓ} (A D : Type ℓ) : Type ℓ where
  pub structure : Structure A D
  pub goes : Bool
  pub matched : Bool

module _ {ℓ} {A D : Type ℓ} where
  unfoldable pub new_engine : Engine A D
  new_engine = record { pool = []; deleted_structures = []; sequence = 0; counter = 0 }

  -- Its body is commented out.
  unfoldable pub check_window_time : WindowStruct → A → Structure A D → Bool
  check_window_time w event s = true

  unfoldable pub publish_result_matches : OutputStrategy → Structure A D → List (Event A)
  publish_result_matches one_by_one s = all_fresh s.events
  publish_result_matches combined s = []

  -- engineProcess after checkPredicate
  unfoldable pub advance_structure :
      Nfa A D → WindowStruct → A → Structure A D → Outcome → Option (Processed A D)
  unfolding check_window_time add_forward
  advance_structure nfa w event s stay =
      some (record { structure = s; goes = false; matched = false })
  advance_structure nfa w event s violated =
      some (record { structure = s; goes = true; matched = false })
  advance_structure nfa w event s (forward i) =
      let wind : Bool = if has_window w then check_window_time w event s else true in
      if wind
      then (do
        state ← get_elem? nfa.states s.current_state
        edges ← forward_edges state
        edge ← get_elem? edges i
        s' ← add_forward nfa s event edge
        some (record { structure = s'; goes = s'.complete; matched = s'.complete }))
      else some (record { structure = s; goes = true; matched = false })

  unfoldable pub engine_process :
      Nfa A D → WindowStruct → A → Structure A D → Option (Processed A D)
  unfolding check_predicate advance_structure
  engine_process nfa w event s = do
    (s', outcome) ← check_predicate nfa event s
    advance_structure nfa w event s' outcome

  unfoldable pub create_start_structure : Nfa A D → Engine A D → A → Option (Engine A D)
  unfolding first_edge new_structure add_forward
  create_start_structure nfa s event = do
    state ← get_elem? nfa.states 0
    edges ← forward_edges state
    elim (first_edge event none 0 edges) [
      | none ↦ some s
      | some i ↦ do
        edge ← get_elem? edges i
        str ← add_forward nfa (new_structure nfa) event edge
        some (record s { pool = s.pool ++ (s.sequence, str) ∷ []; sequence = s.sequence + 1 })
    ]

  -- The loop from its counter i on, over the structures to delete and the pool.
  unfoldable pub gc_loop : ℕ → List ℕ → List (ℕ × Structure A D) → List ℕ × List (ℕ × Structure A D)
  unfolding without
  gc_loop i [] pool = ([], pool)
  gc_loop i (key ∷ keys) pool =
      let rest = gc_loop (i + 1) keys (without key pool) in
      if ltb i (suc (length keys)) then rest else (key ∷ keys, pool)

  unfoldable pub run_gc_structures : Engine A D → Engine A D
  unfolding gc_loop
  run_gc_structures s =
      let (keys, pool) = gc_loop 0 s.deleted_structures s.pool in
      record s { deleted_structures = keys; pool = pool }

  -- runEngine of FirstMatchEngine
  unfoldable pub first_match :
      Nfa A D
      → WindowStruct
      → OutputStrategy
      → Engine A D
      → A
      → Option (Engine A D × List (Event A))
  unfolding engine_process create_start_structure publish_result_matches
  first_match nfa w strategy s event = elim s.pool [
    | [] ↦ do s' ← create_start_structure nfa s event; some (s', [])
    | (key, str) ∷ rest ↦ do
      r ← engine_process nfa w event str
      some (
        record s {
          pool = if r.goes then [] else (key, r.structure) ∷ rest;
          counter = if r.matched then s.counter + 1 else s.counter;
        },
        if r.matched then publish_result_matches strategy r.structure else [],
      )
  ]

  -- The loop of NextMatchEngine over the pool: its structures, those to delete, the number of matches,
  -- and what is published.
  unfoldable pub process_pool :
      Nfa A D
      → WindowStruct
      → OutputStrategy
      → A
      → List (ℕ × Structure A D)
      → Option (List (ℕ × Structure A D) × List ℕ × ℕ × List (Event A))
  unfolding engine_process publish_result_matches
  process_pool nfa w strategy event [] = some ([], [], 0, [])
  process_pool nfa w strategy event ((key, str) ∷ pool) = do
    r ← engine_process nfa w event str
    (pool', keys, matches, out) ← process_pool nfa w strategy event pool
    some (
      (key, r.structure) ∷ pool',
      if r.goes then key ∷ keys else keys,
      if r.matched then matches + 1 else matches,
      if r.matched then publish_result_matches strategy r.structure ++ out else out,
    )

  -- runEngine of NextMatchEngine
  unfoldable pub next_match :
      Nfa A D
      → WindowStruct
      → OutputStrategy
      → Engine A D
      → A
      → Option (Engine A D × List (Event A))
  unfolding process_pool create_start_structure run_gc_structures
  next_match nfa w strategy s event = do
    (pool, keys, matches, out) ← process_pool nfa w strategy event s.pool
    s' ←
        create_start_structure nfa
          record s {
            pool = pool;
            deleted_structures = s.deleted_structures ++ keys;
            counter = s.counter + matches;
          }
          event
    some (run_gc_structures s', out)

-- Matcher: processDataElement runs the engine, whether the tuple is outdated or not.
unfoldable pub handle {ℓ} :
    {A D : Type ℓ}
    → (Engine A D → A → Option (Engine A D × List (Event A)))
    → Engine A D
    → Event A
    → Option (Engine A D × List (Event A))
handle run_engine s (element event outdated) = run_engine s event
handle run_engine s (punctuation p) = some (s, punctuation p ∷ [])
