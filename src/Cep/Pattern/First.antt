-- ===== src/Cep/Pattern/First.antt =====
-- FirstMatchEngine on a sequence of predicates, against the matches that a search through the stream
-- finds.
use pipefabric.Prelude.{
  ℕ, zero, suc, ◌+◌, ◌≤◌, ◌≡◌, refl, ap, sym, subst, ◌∙◌, Bool, false, Option, none, some, List, [],
  ◌∷◌, ◌++◌, length, length-append, arith, Bool-cases, inl, inr,
}
use pipefabric.Stream.{all_fresh, all_fresh-append, try_run, try_run-nil, try_run-cons}
use pipefabric.Cep.Search
use pipefabric.Cep.Search.{match_from, all_matches}
use pipefabric.Cep.{Structure, construct_nfa}
use pipefabric.Cep.Engine.{WindowStruct, one_by_one, Engine, new_engine, first_match}
use pipefabric.Cep.Pattern

module _ {ℓ} {A D : Type ℓ} (init : D) (update : D → ℕ → A → D) (p q : A → Option D → Bool)
    (ps : List (A → Option D → Bool)) (w : WindowStruct) where
  abbrev matches : ℕ → List A → List A
  matches = Search.matches init update p (q ∷ ps)

  abbrev continued : ℕ → List A → Option (List A × List A) → List A
  continued = Search.continued init update p (q ∷ ps)

  -- A run from here on publishes these tuples.
  abbrev Publishes : Engine A D → List A → List A → Type ℓ
  Publishes s es out =
      (s' : Engine A D) × (try_run (Pattern.step init update p q ps w) s es
        ≡ some (s', all_fresh out))

  Publishes-cons :
      (s : Engine A D) (e : A) (es : List A) (pool : List (ℕ × Structure A D)) (now later : List A)
      (st : Pattern.Steps init update p q ps w s e pool (all_fresh now))
      → Publishes st.0 es later
      → Publishes s (e ∷ es) (now ++ later)
  Publishes-cons s e es pool now later (s₁, es₁, ps₁) (s₂, r) = (
    s₂,
    try_run-cons (Pattern.step init update p q ps w) e es es₁ r
        ∙ ap (λ l. some (s₂, l)) (sym (all_fresh-append now later)),
  )

  ends : (s : Engine A D) (out : List A) → out ≡ [] → Publishes s [] out
  ends s out o = (
    s,
    try_run-nil (Pattern.step init update p q ps w) s ∙ ap (λ l. some (s, all_fresh l)) (sym o),
  )

  missed :
      (n : ℕ) (before rest : List (A → Option D → Bool)) (r : A → Option D → Bool) (s : Engine A D)
      (k : ℕ) (str : Structure A D) (e : A) (es : List A) (i : s.pool ≡ (k, str) ∷ [])
      (a : Pattern.At init update p q ps w before (r ∷ rest) str)
      (miss : r e (some str.related_values) ≡ false)
      → Publishes (Pattern.active-miss init update p q ps w before rest r s k str e i a miss).0 es (
          continued n str.events
            (match_from init update str.related_values (suc (length before)) (r ∷ rest) es))
      → Publishes s (e ∷ es) (
          continued n str.events
            (match_from init update str.related_values (suc (length before)) (r ∷ rest) (e ∷ es)))
  missed n before rest r s k str e es i a miss later =
      subst (λ m. Publishes s (e ∷ es) (continued n str.events m))
        (sym (
          Search.match_from-miss init update p (q ∷ ps) str.related_values (suc (length before)) r
            rest e es miss))
        (Publishes-cons s e es ((k, str) ∷ []) [] _
          (Pattern.active-miss init update p q ps w before rest r s k str e i a miss) later)

  started-Publishes :
      (n : ℕ) (s : Engine A D) (e : A) (es : List A)
      → Publishes s es (
          continued n (Pattern.started init update p q ps w e).events (
            match_from init update
              (Pattern.started init update p q ps w e).related_values
              1
              (q ∷ ps)
              es))
      → Publishes s es
          (continued n (e ∷ []) (match_from init update (update init 0 e) 1 (q ∷ ps) es))
  unfolding Pattern.started construct_nfa
  started-Publishes n s e es h = h

  moved-Publishes :
      (n : ℕ) (s : Engine A D) (before rest : List (A → Option D → Bool))
      (r r' : A → Option D → Bool) (str : Structure A D) (e : A) (es : List A)
      → Publishes s es (
          continued n (Pattern.moved init update p q ps w before str e r false).events (
            match_from init update
              (Pattern.moved init update p q ps w before str e r false).related_values
              (suc (length (before ++ r ∷ [])))
              (r' ∷ rest)
              es))
      → Publishes s es (
          continued n (str.events ++ e ∷ []) (
            match_from init update
              (update str.related_values (suc (length before)) e)
              (suc (length before) + 1)
              (r' ∷ rest)
              es))
  unfolding Pattern.moved construct_nfa
  moved-Publishes n s before rest r r' str e es h =
      let longer : length (before ++ r ∷ []) ≡ length before + 1 = length-append before (r ∷ []) in
      let same : suc (length (before ++ r ∷ [])) ≡ suc (length before) + 1 =
        omega (arith, longer) in
      subst
        (λ m. Publishes s es (
          continued n (str.events ++ e ∷ []) (
            match_from init update (update str.related_values (suc (length before)) e) m (r' ∷ rest)
              es)))
        same h

  mutual
    idle :
        (n : ℕ) (s : Engine A D) (es : List A)
        → s.pool ≡ []
        → length es ≤ n
        → Publishes s es (matches n es)
    idle n s [] i l = ends s (matches n []) (Search.matches-nil init update p (q ∷ ps) n)
    idle zero s (e ∷ es) i l = absurd (omega arith)
    idle (suc n) s (e ∷ es) i l = elim (Bool-cases (p e none)) [
      | inl hit ↦
          let st = Pattern.idle-hit init update p q ps w s e i hit in
          let later = started-Publishes n st.0 e es (
            active n [] ps q st.0 s.sequence (Pattern.started init update p q ps w e) es st.2
              (Pattern.started-At init update p q ps w e) (omega arith)) in
          subst (Publishes s (e ∷ es)) (sym (Search.matches-hit init update p (q ∷ ps) n e es hit))
            (Publishes-cons s e es ((s.sequence, Pattern.started init update p q ps w e) ∷ []) [] _
              st later)
      | inr miss ↦
          let st = Pattern.idle-miss init update p q ps w s e i miss in
          subst (Publishes s (e ∷ es))
            (sym (Search.matches-miss init update p (q ∷ ps) n e es miss))
            (Publishes-cons s e es [] [] _ st (idle (suc n) st.0 es st.2 (omega arith)))
    ]

    active :
        (n : ℕ) (before rest : List (A → Option D → Bool)) (r : A → Option D → Bool)
        (s : Engine A D) (k : ℕ) (str : Structure A D) (es : List A)
        → s.pool ≡ (k, str) ∷ []
        → Pattern.At init update p q ps w before (r ∷ rest) str
        → length es ≤ n
        → Publishes s es (
            continued n str.events
              (match_from init update str.related_values (suc (length before)) (r ∷ rest) es))
    active n before rest r s k str [] i a l =
        ends s
          (continued n str.events
            (match_from init update str.related_values (suc (length before)) (r ∷ rest) []))
          (ap (continued n str.events) (
            Search.match_from-nil init update p (q ∷ ps) str.related_values (suc (length before)) r
              rest))
    active n before [] r s k str (e ∷ es) i a l =
        elim (Bool-cases (r e (some str.related_values))) [
          | inl hit ↦
              let st = Pattern.active-hit init update p q ps w before [] r s k str e i a hit in
              subst (Publishes s (e ∷ es))
                (sym (
                  Search.continued-hit init update p (q ∷ ps) n (suc (length before))
                    str.related_values r [] str.events e es hit
                  ∙ Search.continued-last init update p (q ∷ ps) n (suc (length before) + 1)
                      (update str.related_values (suc (length before)) e) (str.events ++ e ∷ [])
                      es))
                (Publishes-cons s e es [] (str.events ++ e ∷ []) (matches n es) st
                  (idle n st.0 es st.2 (omega arith)))
          | inr miss ↦ missed n before [] r s k str e es i a miss (
              active n before [] r
                (Pattern.active-miss init update p q ps w before [] r s k str e i a miss).0 k str es
                (Pattern.active-miss init update p q ps w before [] r s k str e i a miss).2 a
                (omega arith))
        ]
    active n before (r' ∷ rest) r s k str (e ∷ es) i a l =
        elim (Bool-cases (r e (some str.related_values))) [
          | inl hit ↦
              subst (Publishes s (e ∷ es))
                (sym (
                  Search.continued-hit init update p (q ∷ ps) n (suc (length before))
                    str.related_values r (r' ∷ rest) str.events e es hit))
                (Publishes-cons s e es
                  ((k, Pattern.moved init update p q ps w before str e r false) ∷ []) [] _
                  (Pattern.active-hit init update p q ps w before (r' ∷ rest) r s k str e i a hit)
                  (moved-Publishes n
                    (Pattern.active-hit init update p q ps w before (r' ∷ rest) r s k str e i a
                      hit).0
                    before rest r r' str e es
                    (active n (before ++ r ∷ []) rest r'
                      (Pattern.active-hit init update p q ps w before (r' ∷ rest) r s k str e i a
                        hit).0
                      k (Pattern.moved init update p q ps w before str e r false) es
                      (Pattern.active-hit init update p q ps w before (r' ∷ rest) r s k str e i a
                        hit).2
                      (Pattern.moved-At init update p q ps w before rest r r' str e a)
                      (omega arith))))
          | inr miss ↦ missed n before (r' ∷ rest) r s k str e es i a miss (
              active n before (r' ∷ rest) r
                (Pattern.active-miss init update p q ps w before (r' ∷ rest) r s k str e i a miss).0
                k str es
                (Pattern.active-miss init update p q ps w before (r' ∷ rest) r s k str e i a miss).2
                a (omega arith))
        ]

  -- The engine for the sequence of at least two predicates, with any window constraint, handles any
  -- tuples without a fault, and publishes the matches that a search finds one after the other: each
  -- is the first event that passes the first predicate, behind it the first one that passes the
  -- second, and so on, and the search for the next match starts behind the last event of the one
  -- before.
  pub first_match_run :
      (es : List A)
      → (s' : Engine A D) × (try_run
            (first_match (construct_nfa init update p (q ∷ ps)) w one_by_one)
            new_engine
            es
          ≡ some (s', all_fresh (all_matches init update (length es) p (q ∷ ps) es)))
  unfolding new_engine
  first_match_run es = idle (length es) new_engine es refl (omega arith)
