-- ===== src/Cep/Pattern/Next.antt =====
-- NextMatchEngine on a sequence of predicates: what engineProcess does to a structure, and what the
-- structure is still to publish.
pub mod Pool
pub mod Run
use pipefabric.Prelude.{
  ℕ, suc, ◌+◌, ◌-◌, ◌<◌, ◌≡◌, ◌⊎◌, refl, ap, sym, subst, ◌∙◌, Bool, true, false, Option, none, some,
  List, [], ◌∷◌, ◌++◌, ◌==◌, if◌then◌else◌, get_elem?, length, length-append, drop, append-nil,
  append_assoc, arith, Bool-cases, Option-cases, inl, inr, count_if, count_if-append, All, All-map,
  All-append, SameItems, ltb,
}
use pipefabric.Prelude.Eq.{nat_eq}
use pipefabric.Prelude.Assoc.{without}
use pipefabric.Stream.{Event, all_fresh, news, news-append, try_run, try_run-nil, try_run-cons}
use pipefabric.Cep.{
  final, Nfa, Structure, new_structure, check_predicate, check_state, add_forward, first_edge,
  edge_into, states_from, construct_nfa,
}
use pipefabric.Cep.Engine.{
  WindowStruct, one_by_one, Engine, Processed, new_engine, advance_structure, engine_process,
  create_start_structure, gc_loop, run_gc_structures, process_pool, publish_result_matches,
  next_match,
}
use pipefabric.Cep.Search
use pipefabric.Cep.Search.{match_from, first_of, followed_by, match_here, overlapping_matches}
use pipefabric.Cep.Pool.{
  Rising, Safe, mem, mem-append, without-Rising, Rising-snoc, without-Safe, Safe-snoc, Safe-below,
}
use pipefabric.Cep.Pattern

drop-append {ℓ} : {A : Type ℓ} (xs ys : List A) → drop (length xs) (xs ++ ys) ≡ ys
drop-append [] ys = refl
drop-append (x ∷ xs) ys = drop-append xs ys

module _ {ℓ} {A D : Type ℓ} (init : D) (update : D → ℕ → A → D) (p q : A → Option D → Bool)
    (ps : List (A → Option D → Bool)) (w : WindowStruct) (test : A → Bool) where
  abbrev automaton : Nfa A D
  automaton = construct_nfa init update p (q ∷ ps)

  -- The tuples that pass the test in a match whose first events are found already.
  abbrev tuples_of : List A → Option (List A × List A) → ℕ
  tuples_of found none = 0
  tuples_of found (some (more, rest)) = count_if test (found ++ more)

  -- The same for the match that a structure is to become.
  pub weight : List A → Structure A D → ℕ
  weight es s =
      if s.complete
      then 0
      else tuples_of s.events (
          match_from init update s.related_values s.current_state
            (drop (s.current_state - 1) (q ∷ ps)) es)

  pub weights : List A → List (ℕ × Structure A D) → ℕ
  weights es [] = 0
  weights es ((k, s) ∷ pool) = weight es s + weights es pool

  -- A structure is complete in the final state, or on its way.
  abbrev Good : Structure A D → Type ℓ
  Good s =
      ((s.complete ≡ true) × (get_elem? automaton.states s.current_state ≡ some final))
      ⊎ ((before : List (A → Option D → Bool)) × (rest : List (A → Option D → Bool)) × (r : A
            → Option D
            → Bool)
          × Pattern.At init update p q ps w before (r ∷ rest) s)

  abbrev AllGood : List (ℕ × Structure A D) → Type ℓ
  AllGood [] = Unit
  AllGood ((k, s) ∷ pool) = Good s × AllGood pool

  weight-At :
      (before rest : List (A → Option D → Bool)) (r : A → Option D → Bool) (s : Structure A D)
      (es : List A)
      → Pattern.At init update p q ps w before (r ∷ rest) s
      → weight es s
        ≡ tuples_of s.events
            (match_from init update s.related_values (suc (length before)) (r ∷ rest) es)
  unfolding weight
  weight-At before rest r s es a =
      let one_less : suc (length before) - 1 ≡ length before = omega arith in
      rw (a.complete, a.state, one_less, a.pattern, drop-append before (r ∷ rest)) refl

  weight-complete : (s : Structure A D) (es : List A) → s.complete ≡ true → weight es s ≡ 0
  unfolding weight
  weight-complete s es c = rw c refl

  tuples-hit :
      (d : D) (m : ℕ) (r : A → Option D → Bool) (rest : List (A → Option D → Bool)) (found : List A)
      (e : A) (es : List A)
      → r e (some d) ≡ true
      → tuples_of found (match_from init update d m (r ∷ rest) (e ∷ es))
        ≡ tuples_of (found ++ e ∷ []) (match_from init update (update d m e) (m + 1) rest es)
  unfolding match_from first_of
  tuples-hit d m r rest found e es hit =
      elim (Option-cases (match_from init update (update d m e) (m + 1) rest es)) [
        | inl no_more ↦ rw (hit, no_more) refl
        | inr ((more, later), e₁) ↦
            rw (hit, e₁) (ap (count_if test) (sym (append_assoc found (e ∷ []) more)))
      ]

  tuples-last :
      (d : D) (m : ℕ) (found es : List A)
      → tuples_of found (match_from init update d m [] es) ≡ count_if test found
  unfolding match_from
  tuples-last d m found es = ap (count_if test) (append-nil found)

  -- What engineProcess does to a structure.
  record Processing (e : A) (s : Structure A D) (r : Processed A D) : Type ℓ where
    pub runs : engine_process automaton w e s ≡ some r
    pub good : Good r.structure
    pub same : r.goes ≡ r.matched
    pub final_match : r.matched ≡ true → r.structure.complete ≡ true
    pub stays_complete : s.complete ≡ true → r.structure.complete ≡ true
    pub published :
        (es : List A)
        → weight (e ∷ es) s
          ≡ (if r.matched then count_if test r.structure.events else 0) + weight es r.structure

  process-complete :
      (e : A) (s : Structure A D)
      → s.complete ≡ true
      → get_elem? automaton.states s.current_state ≡ some final
      → Processing e s (record { structure = s; goes = false; matched = false })
  unfolding engine_process check_predicate check_state advance_structure
  process-complete e s c f = record {
    runs = rw f refl;
    good = inl (c, f);
    same = refl;
    final_match = λ h. cc;
    stays_complete = λ h. h;
    published = λ es. weight-complete s (e ∷ es) c ∙ sym (omega (arith, weight-complete s es c));
  }

  process-waits :
      (before rest : List (A → Option D → Bool)) (r : A → Option D → Bool) (e : A)
      (s : Structure A D)
      → Pattern.At init update p q ps w before (r ∷ rest) s
      → r e (some s.related_values) ≡ false
      → Processing e s (record { structure = s; goes = false; matched = false })
  process-waits before rest r e s a miss = record {
    runs = Pattern.process-miss init update p q ps w before rest r s e a miss;
    good = inr (before, rest, r, a);
    same = refl;
    final_match = λ h. cc;
    stays_complete = λ h. h;
    published = λ es.
        weight-At before rest r s (e ∷ es) a
        ∙ ap (tuples_of s.events) (
            Search.match_from-miss init update p (q ∷ ps) s.related_values (suc (length before)) r
              rest e es miss)
        ∙ sym (weight-At before rest r s es a)
        ∙ sym (omega arith);
  }

  process-last :
      (before : List (A → Option D → Bool)) (r : A → Option D → Bool) (e : A) (s : Structure A D)
      → Pattern.At init update p q ps w before (r ∷ []) s
      → r e (some s.related_values) ≡ true
      → Processing e s (record {
        structure = Pattern.moved init update p q ps w before s e r true;
        goes = true;
        matched = true;
      })
  unfolding Pattern.moved Pattern.state_of
  process-last before r e s a hit = record {
    runs = Pattern.process-hit init update p q ps w before [] r s e a hit;
    good = inl (refl, Pattern.state_behind init update p q ps w before [] r a.pattern);
    same = refl;
    final_match = λ h. refl;
    stays_complete = λ h. refl;
    published = λ es.
        weight-At before [] r s (e ∷ es) a
        ∙ tuples-hit s.related_values (suc (length before)) r [] s.events e es hit
        ∙ tuples-last (update s.related_values (suc (length before)) e) (suc (length before) + 1)
            (s.events ++ e ∷ []) es
        ∙ sym (
            omega (
              arith,
              weight-complete (Pattern.moved init update p q ps w before s e r true) es refl,
            ));
  }

  moved-number :
      (before rest : List (A → Option D → Bool)) (r r' : A → Option D → Bool) (e : A)
      (s : Structure A D) (es : List A)
      → tuples_of (Pattern.moved init update p q ps w before s e r false).events (
          match_from init update
            (Pattern.moved init update p q ps w before s e r false).related_values
            (suc (length (before ++ r ∷ [])))
            (r' ∷ rest)
            es)
        ≡ tuples_of (s.events ++ e ∷ []) (
            match_from init update
              (update s.related_values (suc (length before)) e)
              (suc (length before) + 1)
              (r' ∷ rest)
              es)
  unfolding Pattern.moved construct_nfa
  moved-number before rest r r' e s es =
      let longer : length (before ++ r ∷ []) ≡ length before + 1 = length-append before (r ∷ []) in
      let same : suc (length (before ++ r ∷ [])) ≡ suc (length before) + 1 =
        omega (arith, longer) in
      ap
        (λ m. tuples_of (s.events ++ e ∷ []) (
          match_from init update (update s.related_values (suc (length before)) e) m (r' ∷ rest)
            es))
        same

  moved-weight :
      (before rest : List (A → Option D → Bool)) (r r' : A → Option D → Bool) (e : A)
      (s : Structure A D) (es : List A)
      → Pattern.At init update p q ps w before (r ∷ r' ∷ rest) s
      → weight es (Pattern.moved init update p q ps w before s e r false)
        ≡ tuples_of (s.events ++ e ∷ []) (
            match_from init update
              (update s.related_values (suc (length before)) e)
              (suc (length before) + 1)
              (r' ∷ rest)
              es)
  moved-weight before rest r r' e s es a =
      weight-At (before ++ r ∷ []) rest r' (Pattern.moved init update p q ps w before s e r false)
        es (Pattern.moved-At init update p q ps w before rest r r' s e a)
      ∙ moved-number before rest r r' e s es

  process-next :
      (before rest : List (A → Option D → Bool)) (r r' : A → Option D → Bool) (e : A)
      (s : Structure A D)
      → Pattern.At init update p q ps w before (r ∷ r' ∷ rest) s
      → r e (some s.related_values) ≡ true
      → Processing e s (record {
        structure = Pattern.moved init update p q ps w before s e r false;
        goes = false;
        matched = false;
      })
  process-next before rest r r' e s a hit = record {
    runs = Pattern.process-hit init update p q ps w before (r' ∷ rest) r s e a hit;
    good =
        inr (
          before ++ r ∷ [],
          rest,
          r',
          Pattern.moved-At init update p q ps w before rest r r' s e a,
        );
    same = refl;
    final_match = λ h. cc;
    stays_complete = λ h. cc (a.complete);
    published = λ es.
        weight-At before (r' ∷ rest) r s (e ∷ es) a
        ∙ tuples-hit s.related_values (suc (length before)) r (r' ∷ rest) s.events e es hit
        ∙ sym (moved-weight before rest r r' e s es a)
        ∙ sym (omega arith);
  }

  process-Good : (e : A) (s : Structure A D) → Good s → (r : Processed A D) × Processing e s r
  process-Good e s (inl (c, f)) =
      (record { structure = s; goes = false; matched = false }, process-complete e s c f)
  process-Good e s (inr (before, [], r, a)) = elim (Bool-cases (r e (some s.related_values))) [
    | inl hit ↦ (
      record {
        structure = Pattern.moved init update p q ps w before s e r true;
        goes = true;
        matched = true;
      },
      process-last before r e s a hit,
    )
    | inr miss ↦ (
      record { structure = s; goes = false; matched = false },
      process-waits before [] r e s a miss,
    )
  ]
  process-Good e s (inr (before, r' ∷ rest, r, a)) =
      elim (Bool-cases (r e (some s.related_values))) [
        | inl hit ↦ (
          record {
            structure = Pattern.moved init update p q ps w before s e r false;
            goes = false;
            matched = false;
          },
          process-next before rest r r' e s a hit,
        )
        | inr miss ↦ (
          record { structure = s; goes = false; matched = false },
          process-waits before (r' ∷ rest) r e s a miss,
        )
      ]
