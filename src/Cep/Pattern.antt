-- ===== src/Cep/Pattern.antt =====
-- Matcher::constructNFA and FirstMatchEngine on a sequence of predicates: the states of the automaton,
-- and what one event does to a structure and to the engine.
pub mod First
pub mod Next
use pipefabric.Prelude.{
  ℕ, zero, suc, ◌+◌, ◌≤◌, ◌≡◌, refl, ap, sym, subst, ◌∙◌, Bool, true, false, Option, none, some,
  List, [], ◌∷◌, ◌++◌, if◌then◌else◌, ◌>>=◌, get_elem?, length, length-append, append-nil,
  append_assoc, arith, Bool-cases, Option-cases, inl, inr,
}
use pipefabric.Stream.{Event, all_fresh, all_fresh-append, try_run, try_run-nil, try_run-cons}
use pipefabric.Cep.Search
use pipefabric.Cep.Search.{match_from, all_matches}
use pipefabric.Cep.{
  State, normal, new_structure, final, Nfa, Structure, add_forward, first_edge, check_predicate,
  check_state, edge_into, states_from, construct_nfa,
}
use pipefabric.Cep.Engine.{
  WindowStruct, one_by_one, Engine, new_engine, check_window_time, publish_result_matches,
  advance_structure, engine_process, create_start_structure, first_match, has_window,
}

abbrev is_nil {ℓ} : {A : Type ℓ} → List A → Bool
is_nil [] = true
is_nil (x ∷ xs) = false

state_of {ℓ} : {A D : Type ℓ} → ℕ → List (A → Option D → Bool) → State A D
state_of n [] = final
state_of n (p ∷ ps) = normal (edge_into n p ∷ [])

get_elem?-states_from {ℓ} :
    {A D : Type ℓ} (before rest : List (A → Option D → Bool)) (n m : ℕ)
    → m ≡ n + length before
    → get_elem? (states_from n (before ++ rest)) (length before) ≡ some (state_of m rest)
unfolding states_from state_of
get_elem?-states_from [] [] n m e = refl
get_elem?-states_from [] (p ∷ ps) n m e = ap (λ k. some (normal (edge_into k p ∷ []))) (omega arith)
get_elem?-states_from (p ∷ before) rest n m e =
    get_elem?-states_from before rest (n + 1) m (omega arith)

module _ {ℓ} {A D : Type ℓ} (init : D) (update : D → ℕ → A → D) (p q : A → Option D → Bool)
    (ps : List (A → Option D → Bool)) (w : WindowStruct) where
  abbrev nfa : Nfa A D
  nfa = construct_nfa init update p (q ∷ ps)

  -- A structure that has taken the predicates up to `before` and has `rest` to take.
  record At (before rest : List (A → Option D → Bool)) (s : Structure A D) : Type ℓ where
    pub pattern : q ∷ ps ≡ before ++ rest
    pub state : s.current_state ≡ suc (length before)
    pub complete : s.complete ≡ false

  state_at :
      (before rest : List (A → Option D → Bool))
      → q ∷ ps ≡ before ++ rest
      → get_elem? nfa.states (suc (length before)) ≡ some (state_of (suc (length before)) rest)
  unfolding construct_nfa
  state_at before rest e =
      ap (λ l. get_elem? (states_from 1 l) (length before)) e
      ∙ get_elem?-states_from before rest 1 (suc (length before)) (omega arith)

  state_behind :
      (before rest : List (A → Option D → Bool)) (r : A → Option D → Bool)
      → q ∷ ps ≡ before ++ r ∷ rest
      → get_elem? nfa.states (suc (length before) + 1)
        ≡ some (state_of (suc (length before) + 1) rest)
  state_behind before rest r e =
      let longer : length (before ++ r ∷ []) ≡ length before + 1 = length-append before (r ∷ []) in
      let n : suc (length before) + 1 ≡ suc (length (before ++ r ∷ [])) = omega (arith, longer) in
      rw n (state_at (before ++ r ∷ []) rest (e ∙ sym (append_assoc before (r ∷ []) rest)))

  moved :
      (before : List (A → Option D → Bool))
      → Structure A D
      → A
      → (A → Option D → Bool)
      → Bool
      → Structure A D
  moved before s e r done = record s {
    events = s.events ++ e ∷ [];
    current_state = suc (length before) + 1;
    complete = done;
    related_values = nfa.update s.related_values (suc (length before)) e;
  }

  process-miss :
      (before rest : List (A → Option D → Bool)) (r : A → Option D → Bool) (s : Structure A D)
      (e : A)
      → At before (r ∷ rest) s
      → r e (some s.related_values) ≡ false
      → engine_process nfa w e s ≡ some (record { structure = s; goes = false; matched = false })
  unfolding engine_process check_predicate check_state advance_structure state_of first_edge
      edge_into
  process-miss before rest r s e a miss =
      rw (a.state, state_at before (r ∷ rest) a.pattern, miss) refl

  process-hit :
      (before rest : List (A → Option D → Bool)) (r : A → Option D → Bool) (s : Structure A D)
      (e : A)
      → At before (r ∷ rest) s
      → r e (some s.related_values) ≡ true
      → engine_process nfa w e s
        ≡ some record {
          structure = moved before s e r (is_nil rest);
          goes = is_nil rest;
          matched = is_nil rest;
        }
  unfolding engine_process check_predicate check_state advance_structure state_of first_edge
      edge_into add_forward moved check_window_time
  process-hit before [] r s e a hit = elim (Bool-cases (has_window w)) [
    | inl bound ↦
        rw
          (
            a.state,
            state_at before (r ∷ []) a.pattern,
            hit,
            bound,
            state_at before (r ∷ []) a.pattern,
            state_behind before [] r a.pattern,
          )
          refl
    | inr free ↦
        rw
          (
            a.state,
            state_at before (r ∷ []) a.pattern,
            hit,
            free,
            state_at before (r ∷ []) a.pattern,
            state_behind before [] r a.pattern,
          )
          refl
  ]
  process-hit before (r' ∷ rest) r s e a hit = elim (Bool-cases (has_window w)) [
    | inl bound ↦
        rw
          (
            a.state,
            state_at before (r ∷ r' ∷ rest) a.pattern,
            hit,
            bound,
            state_at before (r ∷ r' ∷ rest) a.pattern,
            state_behind before (r' ∷ rest) r a.pattern,
            a.complete,
          )
          refl
    | inr free ↦
        rw
          (
            a.state,
            state_at before (r ∷ r' ∷ rest) a.pattern,
            hit,
            free,
            state_at before (r ∷ r' ∷ rest) a.pattern,
            state_behind before (r' ∷ rest) r a.pattern,
            a.complete,
          )
          refl
  ]

  abbrev step : Engine A D → A → Option (Engine A D × List (Event A))
  step = first_match nfa w one_by_one

  -- A step from a pool to a pool.
  abbrev Steps : Engine A D → A → List (ℕ × Structure A D) → List (Event A) → Type ℓ
  Steps s e pool out = (s' : Engine A D) × (step s e ≡ some (s', out)) × (s'.pool ≡ pool)

  started : A → Structure A D
  unfolding new_structure
  started e = record (new_structure nfa) {
    events = e ∷ [];
    current_state = 1;
    related_values = nfa.update nfa.init 0 e;
  }

  idle-miss : (s : Engine A D) (e : A) → s.pool ≡ [] → p e none ≡ false → Steps s e [] []
  unfolding first_match create_start_structure construct_nfa first_edge edge_into
  idle-miss s e i miss = (s, rw (i, miss) refl, i)

  idle-hit :
      (s : Engine A D) (e : A)
      → s.pool ≡ []
      → p e none ≡ true
      → Steps s e ((s.sequence, started e) ∷ []) []
  unfolding first_match create_start_structure construct_nfa first_edge edge_into states_from
      started new_structure add_forward
  idle-hit s e i hit = (
    record s { pool = (s.sequence, started e) ∷ []; sequence = s.sequence + 1 },
    rw (i, hit) refl,
    refl,
  )

  active-miss :
      (before rest : List (A → Option D → Bool)) (r : A → Option D → Bool) (s : Engine A D) (k : ℕ)
      (str : Structure A D) (e : A)
      → s.pool ≡ (k, str) ∷ []
      → At before (r ∷ rest) str
      → r e (some str.related_values) ≡ false
      → Steps s e ((k, str) ∷ []) []
  unfolding first_match
  active-miss before rest r s k str e i a miss = (
    record s { pool = (k, str) ∷ []; counter = s.counter },
    rw (i, process-miss before rest r str e a miss) refl,
    refl,
  )

  active-hit :
      (before rest : List (A → Option D → Bool)) (r : A → Option D → Bool) (s : Engine A D) (k : ℕ)
      (str : Structure A D) (e : A)
      → s.pool ≡ (k, str) ∷ []
      → At before (r ∷ rest) str
      → r e (some str.related_values) ≡ true
      → Steps s e
          (if is_nil rest then [] else (k, moved before str e r (is_nil rest)) ∷ [])
          (if is_nil rest then all_fresh (str.events ++ e ∷ []) else [])
  unfolding first_match publish_result_matches moved
  active-hit before rest r s k str e i a hit = (
    record s {
      pool = if is_nil rest then [] else (k, moved before str e r (is_nil rest)) ∷ [];
      counter = if is_nil rest then s.counter + 1 else s.counter;
    },
    rw (i, process-hit before rest r str e a hit) refl,
    refl,
  )

  started-At : (e : A) → At [] (q ∷ ps) (started e)
  unfolding started new_structure
  started-At e = record { pattern = refl; state = refl; complete = refl }

  moved-At :
      (before rest : List (A → Option D → Bool)) (r r' : A → Option D → Bool) (str : Structure A D)
      (e : A)
      → At before (r ∷ r' ∷ rest) str
      → At (before ++ r ∷ []) (r' ∷ rest) (moved before str e r false)
  unfolding moved
  moved-At before rest r r' str e a = record {
    pattern = a.pattern ∙ sym (append_assoc before (r ∷ []) (r' ∷ rest));
    state = omega (arith, length-append before (r ∷ []));
    complete = refl;
  }
