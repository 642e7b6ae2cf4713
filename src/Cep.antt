-- ===== src/Cep.antt =====
-- cep/state, cep/edge and cep/NFAStructure.hpp: the automaton of a pattern, and the structures, each
-- of which is a sequence of events that the automaton has taken so far.
-- The automaton does not change while events are matched: its states are the indices of a list, and
-- state 0 is the start state. A fault (`none`) is the use of a state, an edge or a counter that is
-- not there, or a walk along the negation states that never ends.
pub mod Engine
pub mod Search
pub mod Pool
pub mod Pattern
pub mod Collect
pub mod Tests
use pipefabric.Prelude.{
  ℕ, zero, suc, ◌+◌, ◌%◌, ◌^◌, ◌≡◌, Bool, true, false, not, ◌&&◌, ◌||◌, Option, none, some, List,
  [], ◌∷◌, ◌++◌, ◌==◌, ltb, leb, if◌then◌else◌, ◌>>=◌, get_elem?, length,
}
use pipefabric.Prelude.Eq.{nat_eq}
use pipefabric.Prelude.Assoc.{lookup, put}

-- NFAEdge and ForwardEdge: the predicate reads the event and the related values of a structure, of
-- which there are none for the first event.
pub record Edge {ℓ} (A D : Type ℓ) : Type ℓ where
  pub edge_id : ℕ
  pub predicate : A → Option D → Bool
  pub dest_state : ℕ

pub record LoopEdge {ℓ} (A D : Type ℓ) : Type ℓ where
  pub edge_id : ℕ
  pub predicate : A → Option D → Bool
  pub num_of_loop : ℕ

-- KleeneState::KleeneSpecification
pub data KleeneSpecification : Type 0 where
  star plus question restricted : KleeneSpecification

-- NFAState and its subclasses, with their forward edges
pub data State {ℓ} (A D : Type ℓ) : Type ℓ where
  start normal negation : List (Edge A D) → State A D
  kleene : List (Edge A D) → LoopEdge A D → KleeneSpecification → State A D
  final : State A D

-- NFAController: the states, and the functions of setDependency.
pub record Nfa {ℓ} (A D : Type ℓ) : Type ℓ where
  pub states : List (State A D)
  pub init : D
  pub update : D → ℕ → A → D

-- NFAStructure; `kleene_state` has a count for each Kleene state.
pub record Structure {ℓ} (A D : Type ℓ) : Type ℓ where
  pub events : List A
  pub current_state : ℕ
  pub complete : Bool
  pub related_values : D
  pub kleene_state : List (ℕ × ℕ)

-- What checkPredicate finds: the index of a forward edge, a negated event, or neither.
pub data Outcome : Type 0 where
  forward : ℕ → Outcome
  stay violated : Outcome

-- forwardOK; a short is negative from 2 ^ 15 on.
unfoldable pub forward_ok : KleeneSpecification → ℕ → ℕ → Bool
forward_ok star count loops = true
forward_ok question count loops = true
forward_ok plus count loops = count == 1
forward_ok restricted count loops = ltb count (2 ^ 15) && leb loops count

-- The second switch: whether the loop edge takes the event.
unfoldable pub loop_ok : KleeneSpecification → ℕ → ℕ → Bool
loop_ok star count loops = true
loop_ok question count loops = true
loop_ok plus count loops = count == 0
loop_ok restricted count loops = leb (2 ^ 15) count || ltb count loops

module _ {ℓ} {A D : Type ℓ} where
  -- The constructor of NFAStructure; a structure is made in the start state.
  count_kleene : ℕ → List (State A D) → List (ℕ × ℕ)
  count_kleene q [] = []
  count_kleene q (kleene edges loop spec ∷ qs) = (q, 0) ∷ count_kleene (q + 1) qs
  count_kleene q (start edges ∷ qs) = count_kleene (q + 1) qs
  count_kleene q (normal edges ∷ qs) = count_kleene (q + 1) qs
  count_kleene q (negation edges ∷ qs) = count_kleene (q + 1) qs
  count_kleene q (final ∷ qs) = count_kleene (q + 1) qs

  unfoldable pub new_structure : Nfa A D → Structure A D
  unfolding count_kleene
  new_structure nfa = record {
    events = [];
    current_state = 0;
    complete = false;
    related_values = nfa.init;
    kleene_state = count_kleene 0 nfa.states;
  }

  -- The forward edges of a state; a final state is no NormalState.
  abbrev pub forward_edges : State A D → Option (List (Edge A D))
  forward_edges (start edges) = some edges
  forward_edges (normal edges) = some edges
  forward_edges (negation edges) = some edges
  forward_edges (kleene edges loop spec) = some edges
  forward_edges final = none

  abbrev pub is_final : State A D → Bool
  is_final final = true
  is_final _ = false

  -- addEvent along a forward edge
  unfoldable pub add_forward : Nfa A D → Structure A D → A → Edge A D → Option (Structure A D)
  add_forward nfa s event edge = do
    dest ← get_elem? nfa.states edge.dest_state
    some record s {
      events = s.events ++ event ∷ [];
      current_state = edge.dest_state;
      complete = is_final dest || s.complete;
      related_values = nfa.update s.related_values edge.edge_id event;
    }

  -- addEvent along a loop edge; the counter is a short.
  unfoldable pub add_loop : Nfa A D → Structure A D → A → LoopEdge A D → Option (Structure A D)
  unfolding lookup put
  add_loop nfa s event loop = do
    count ← lookup s.current_state s.kleene_state
    some record s {
      events = s.events ++ event ∷ [];
      related_values = nfa.update s.related_values loop.edge_id event;
      kleene_state = put s.current_state ((count + 1) % 2 ^ 16) s.kleene_state;
    }

  -- The loops over the forward edges, from the index i: the first one that evaluates to true.
  unfoldable pub first_edge : A → Option D → ℕ → List (Edge A D) → Option ℕ
  first_edge event values i [] = none
  first_edge event values i (edge ∷ edges) =
      let rest = first_edge event values (i + 1) edges in
      if edge.predicate event values then some i else rest

  unfoldable pub try_loop :
      Nfa A D
      → A
      → Structure A D
      → LoopEdge A D
      → KleeneSpecification
      → ℕ
      → Option (Structure A D × Outcome)
  unfolding loop_ok add_loop
  try_loop nfa event s loop spec count =
      if loop.predicate event (some s.related_values) && loop_ok spec count loop.num_of_loop
      then (do s' ← add_loop nfa s event loop; some (s', stay))
      else some (s, stay)

  unfoldable pub check_kleene :
      Nfa A D
      → A
      → Structure A D
      → List (Edge A D)
      → LoopEdge A D
      → KleeneSpecification
      → Option (Structure A D × Outcome)
  unfolding first_edge forward_ok try_loop lookup
  check_kleene nfa event s edges loop spec = do
    count ← lookup s.current_state s.kleene_state
    let next =
        if forward_ok spec count loop.num_of_loop
        then first_edge event (some s.related_values) 0 edges
        else none
    elim next [ some i ↦ some (s, forward i) | none ↦ try_loop nfa event s loop spec count ]

  -- The loop over the edges of the state behind the negation states, with setCurrentState.
  unfoldable pub enter : ℕ → Structure A D → Option ℕ → Structure A D × Outcome
  enter q s none = (s, stay)
  enter q s (some i) = (record s { current_state = q }, forward i)

  -- What follows the do loop, and its condition. Before a final state the structure is left where it
  -- is, whatever the event.
  unfoldable pub behind_negation :
      (List (Edge A D) → Option (Structure A D × Outcome))
      → ℕ
      → State A D
      → A
      → Structure A D
      → Option (Structure A D × Outcome)
  unfolding first_edge enter
  behind_negation again q (negation edges) event s = again edges
  behind_negation again q final event s = some (s, forward 0)
  behind_negation again q (start edges) event s =
      some (enter q s (first_edge event (some s.related_values) 0 edges))
  behind_negation again q (normal edges) event s =
      some (enter q s (first_edge event (some s.related_values) 0 edges))
  behind_negation again q (kleene edges loop spec) event s =
      some (enter q s (first_edge event (some s.related_values) 0 edges))

  -- The do loop. A walk over more negation states than there are states goes round for ever.
  unfoldable pub check_negation :
      ℕ → Nfa A D → A → Structure A D → List (Edge A D) → Option (Structure A D × Outcome)
  unfolding first_edge behind_negation
  check_negation zero nfa event s edges = none
  check_negation (suc fuel) nfa event s edges =
      elim (first_edge event (some s.related_values) 0 edges) [
        | some i ↦ some (s, violated)
        | none ↦ do
          edge ← get_elem? edges 0
          dest ← get_elem? nfa.states edge.dest_state
          behind_negation (check_negation fuel nfa event s) edge.dest_state dest event s
      ]

  unfoldable pub check_state :
      Nfa A D → A → Structure A D → State A D → Option (Structure A D × Outcome)
  unfolding first_edge check_kleene check_negation
  check_state nfa event s (normal edges) = elim (first_edge event (some s.related_values) 0 edges) [
    | some i ↦ some (s, forward i)
    | none ↦ some (s, stay)
  ]
  check_state nfa event s (kleene edges loop spec) = check_kleene nfa event s edges loop spec
  check_state nfa event s (negation edges) = check_negation (length nfa.states) nfa event s edges
  check_state nfa event s (start edges) = some (s, stay)
  check_state nfa event s final = some (s, stay)

  unfoldable pub check_predicate : Nfa A D → A → Structure A D → Option (Structure A D × Outcome)
  unfolding check_state
  check_predicate nfa event s = do
    state ← get_elem? nfa.states s.current_state
    check_state nfa event s state

-- createForwardTransition for a chain of states, as constructNFA makes it of SEQ: each predicate is
-- on the edge into its own state, and the edges have the numbers of their order.
module _ {ℓ} {A D : Type ℓ} where
  unfoldable pub edge_into : ℕ → (A → Option D → Bool) → Edge A D
  edge_into n p = record { edge_id = n; predicate = p; dest_state = n + 1 }

  unfoldable pub states_from : ℕ → List (A → Option D → Bool) → List (State A D)
  unfolding edge_into
  states_from n [] = final ∷ []
  states_from n (p ∷ ps) = normal (edge_into n p ∷ []) ∷ states_from (n + 1) ps

  unfoldable pub construct_nfa :
      D → (D → ℕ → A → D) → (A → Option D → Bool) → List (A → Option D → Bool) → Nfa A D
  unfolding states_from edge_into
  construct_nfa init update p ps = record {
    states = start (edge_into 0 p ∷ []) ∷ states_from 1 ps;
    init = init;
    update = update;
  }
