-- ===== src/Cep/Pattern/Next/Run.antt =====
-- NextMatchEngine on a sequence of predicates: what it publishes, whatever the order of its pool and
-- whatever its clean-up leaves behind.
use pipefabric.Prelude.{
  ℕ, ◌+◌, ◌<◌, ◌≡◌, refl, ap, sym, ◌∙◌, Bool, true, false, Option, none, some, List, [], ◌∷◌, ◌++◌,
  append-nil, arith, Bool-cases, Option-cases, inl, inr, count_if, count_if-append, All-map,
  All-append, SameItems,
}
use pipefabric.Prelude.Eq.{nat_eq}
use pipefabric.Stream.{Event, news, try_run, try_run-nil, try_run-cons}
use pipefabric.Cep.{
  Structure, new_structure, add_forward, first_edge, edge_into, states_from, construct_nfa,
}
use pipefabric.Cep.Engine.{
  WindowStruct, one_by_one, Engine, new_engine, create_start_structure, run_gc_structures,
  next_match,
}
use pipefabric.Cep.Search.{match_from, first_of, followed_by, match_here, overlapping_matches}
use pipefabric.Cep.Pool.{Rising-snoc, Safe-snoc}
use pipefabric.Cep.Pattern
use pipefabric.Cep.Pattern.Next
use pipefabric.Cep.Pattern.Next.Pool

published_same {ℓ κ} :
    {S : Type ℓ} {F : Type κ} {s t : S} {out later : F}
    → ◌≡◌ {A = Option (S × F)} (some (s, out)) (some (t, later))
    → out ≡ later
published_same h = cc

below_next : {d n : ℕ} → d < n → d < n + 1
below_next h = omega arith

module _ {ℓ} {A D : Type ℓ} (init : D) (update : D → ℕ → A → D) (p q : A → Option D → Bool)
    (ps : List (A → Option D → Bool)) (w : WindowStruct) (test : A → Bool) where
  -- The tuples that pass the test in the match that begins with an event.
  begun : A → List A → ℕ
  begun e es = count_if test (followed_by (λ rest. []) (match_here init update p (q ∷ ps) e es))

  begun-miss : (e : A) (es : List A) → p e none ≡ false → begun e es ≡ 0
  unfolding begun match_here
  begun-miss e es miss = rw miss refl

  begun-hit :
      (e : A) (es : List A)
      → p e none ≡ true
      → begun e es
        ≡ Next.tuples_of init update p q ps w test
            (e ∷ [])
            (match_from init update (update init 0 e) 1 (q ∷ ps) es)
  unfolding begun match_here
  begun-hit e es hit =
      elim (Option-cases (match_from init update (update init 0 e) 1 (q ∷ ps) es)) [
        | inl no_match ↦ rw (hit, no_match) refl
        | inr ((found, rest), e₁) ↦
            rw (hit, e₁) (ap (λ l. count_if test (e ∷ l)) (append-nil found))
      ]

  abbrev first_structure : A → Structure A D
  first_structure = Pattern.started init update p q ps w

  started-weight :
      (e : A) (es : List A)
      → p e none ≡ true
      → Next.weight init update p q ps w test es (first_structure e) ≡ begun e es
  unfolding Pattern.started construct_nfa
  started-weight e es hit =
      Next.weight-At init update p q ps w test [] ps q (first_structure e) es
        (Pattern.started-At init update p q ps w e)
      ∙ sym (begun-hit e es hit)

  create-miss :
      (s : Engine A D) (e : A)
      → p e none ≡ false
      → create_start_structure (Next.automaton init update p q ps w test) s e ≡ some s
  unfolding create_start_structure construct_nfa first_edge edge_into
  create-miss s e miss = rw miss refl

  create-hit :
      (s : Engine A D) (e : A)
      → p e none ≡ true
      → create_start_structure (Next.automaton init update p q ps w test) s e
        ≡ some (record s {
          pool = s.pool ++ (s.sequence, first_structure e) ∷ [];
          sequence = s.sequence + 1;
        })
  unfolding create_start_structure construct_nfa first_edge edge_into states_from Pattern.started
      new_structure add_forward
  create-hit s e hit = rw hit refl

  created :
      (s : Engine A D) (e : A)
      → Pool.Sound init update p q ps w test s
      → (s' : Engine A D) × (create_start_structure (Next.automaton init update p q ps w test) s e
          ≡ some s')
        × Pool.Sound init update p q ps w test s'
        × ((es : List A)
            → Next.weights init update p q ps w test es s'.pool
              ≡ Next.weights init update p q ps w test es s.pool + begun e es)
  created s e o = elim (Bool-cases (p e none)) [
    | inl hit ↦ (
      record s { pool = s.pool ++ (s.sequence, first_structure e) ∷ []; sequence = s.sequence + 1 },
      create-hit s e hit,
      record {
        good =
            Pool.AllGood-append init update p q ps w test s.sequence (first_structure e) s.pool
              o.good (inr ([], ps, q, Pattern.started-At init update p q ps w e));
        rising = Rising-snoc 0 s.sequence (first_structure e) s.pool (omega arith) o.rising;
        below = All-map (λ d h. below_next h) s.deleted_structures o.below;
        safe = Safe-snoc s.deleted_structures s.sequence (first_structure e) s.pool o.safe o.below;
      },
      λ es.
          Pool.weights-append init update p q ps w test es s.sequence (first_structure e) s.pool
          ∙ ap (◌+◌ (Next.weights init update p q ps w test es s.pool)) (started-weight e es hit),
    )
    | inr miss ↦ (s, create-miss s e miss, o, λ es. sym (omega (arith, begun-miss e es miss)))
  ]

  -- One event.
  handled :
      (s : Engine A D) (e : A)
      → Pool.Sound init update p q ps w test s
      → (s' : Engine A D) × (out : List (Event A)) × (next_match
            (Next.automaton init update p q ps w test)
            w
            one_by_one
            s
            e
          ≡ some (s', out))
        × Pool.Sound init update p q ps w test s'
        × ((es : List A)
            → Pool.published_tuples init update p q ps w test out
                + Next.weights init update p q ps w test es s'.pool
              ≡ Next.weights init update p q ps w test (e ∷ es) s.pool + begun e es)
  unfolding next_match Pool.Pooled
  handled s e o =
      let (pool', keys, n, out, g) =
        Pool.pool_processed init update p q ps w test e 0 s.sequence s.pool o.good o.rising in
      let mid : Engine A D = record s {
        pool = pool';
        deleted_structures = s.deleted_structures ++ keys;
        counter = s.counter + n;
      } in
      let (s₁, e₁, o₁, w₁) = created mid e (record {
        good = g.good;
        rising = g.rising;
        below = All-append _ s.deleted_structures keys o.below g.below;
        safe = g.safe s.deleted_structures o.safe;
      }) in
      let (o₂, w₂) = Pool.gc-Sound init update p q ps w test s₁ o₁ in
      (
        run_gc_structures s₁,
        out,
        rw (g.runs, e₁) refl,
        o₂,
        λ es. omega (arith, w₂ es, w₁ es, g.published es),
      )

  nothing_left :
      (pool : List (ℕ × Structure A D))
      → Next.AllGood init update p q ps w test pool
      → Next.weights init update p q ps w test [] pool ≡ 0
  unfolding Next.weights match_from first_of
  nothing_left [] g = refl
  nothing_left ((k, s) ∷ pool) (inl (c, f), g) =
      omega (arith, Next.weight-complete init update p q ps w test s [] c, nothing_left pool g)
  nothing_left ((k, s) ∷ pool) (inr (before, rest, r, a), g) =
      omega
        (arith, Next.weight-At init update p q ps w test before rest r s [] a, nothing_left pool g)

  begun-append :
      (e : A) (es : List A)
      → count_if test (overlapping_matches init update p (q ∷ ps) (e ∷ es))
        ≡ begun e es + count_if test (overlapping_matches init update p (q ∷ ps) es)
  unfolding begun overlapping_matches
  begun-append e es =
      count_if-append test (followed_by (λ rest. []) (match_here init update p (q ∷ ps) e es))
        (overlapping_matches init update p (q ∷ ps) es)

  new_engine-Sound : Pool.Sound init update p q ps w test new_engine
  unfolding new_engine
  new_engine-Sound = record { good = tt; rising = tt; below = tt; safe = tt }

  going_on :
      (s : Engine A D) (es : List A)
      → Pool.Sound init update p q ps w test s
      → (s' : Engine A D) × (out : List (Event A)) × (try_run
            (next_match (Next.automaton init update p q ps w test) w one_by_one)
            s
            es
          ≡ some (s', out))
        × (Pool.published_tuples init update p q ps w test out
            ≡ Next.weights init update p q ps w test es s.pool
              + count_if test (overlapping_matches init update p (q ∷ ps) es))
  unfolding overlapping_matches Pool.published_tuples
  going_on s [] o = (
    s,
    [],
    try_run-nil (next_match (Next.automaton init update p q ps w test) w one_by_one) s,
    sym (omega (arith, nothing_left s.pool o.good)),
  )
  going_on s (e ∷ es) o =
      let (s₁, out₁, e₁, o₁, w₁) = handled s e o in
      let (s₂, out₂, e₂, w₂) = going_on s₁ es o₁ in
      (
        s₂,
        out₁ ++ out₂,
        try_run-cons (next_match (Next.automaton init update p q ps w test) w one_by_one) e es e₁
            e₂,
        omega (
          arith,
          w₁ es,
          w₂,
          Pool.published-append init update p q ps w test out₁ out₂,
          begun-append e es,
        ),
      )

  counted_run :
      (es : List A) (s' : Engine A D) (out : List (Event A))
      → try_run (next_match (Next.automaton init update p q ps w test) w one_by_one) new_engine es
        ≡ some (s', out)
      → count_if test (news out) ≡ count_if test (overlapping_matches init update p (q ∷ ps) es)
  unfolding Next.weights Pool.published_tuples new_engine
  counted_run es s' out run =
      let (s₁, out₁, e₁, w₁) = going_on new_engine es new_engine-Sound in
      let same : out₁ ≡ out = published_same (sym e₁ ∙ run) in
      ap (λ l. count_if test (news l)) (sym same) ∙ w₁ ∙ omega arith

module _ {ℓ} {A D : Type ℓ} (init : D) (update : D → ℕ → A → D) (p q : A → Option D → Bool)
    (ps : List (A → Option D → Bool)) (w : WindowStruct) where
  -- The engine for the sequence of at least two predicates, with any window constraint, handles any
  -- tuples without a fault. In some order it publishes, as new, exactly the tuples of the matches that
  -- begin with each event that passes the first predicate and go on with the first event behind it that
  -- passes the second one, and so on, if there are such; a tuple is published once for each of these
  -- matches that it is in.
  pub next_match_run :
      (es : List A)
      → (s' : Engine A D) × (out : List (Event A)) × (try_run
            (next_match (construct_nfa init update p (q ∷ ps)) w one_by_one)
            new_engine
            es
          ≡ some (s', out))
        × SameItems (news out) (overlapping_matches init update p (q ∷ ps) es)
  next_match_run es =
      let (s', out, run, c) =
        going_on init update p q ps w (λ x. true) new_engine es
          (new_engine-Sound init update p q ps w (λ x. true)) in
      (s', out, run, λ test. counted_run init update p q ps w test es s' out run)
