-- ===== src/Cep/Search.antt =====
-- A search for the matches of a sequence of predicates in a list of events.
use pipefabric.Prelude.{
  ℕ, zero, suc, ◌+◌, ◌≡◌, refl, ap, sym, ◌∙◌, Bool, true, false, Option, none, some, List, [], ◌∷◌,
  ◌++◌, if◌then◌else◌, ◌>>=◌, append-nil, append_assoc, Option-cases, inl, inr,
}

-- The first item that passes the test, and the items behind it.
unfoldable pub first_of {ℓ} : {A : Type ℓ} → (A → Bool) → List A → Option (A × List A)
first_of test [] = none
first_of test (x ∷ xs) = let rest = first_of test xs in if test x then some (x, xs) else rest

-- A match, and what is found behind it.
abbrev pub followed_by {ℓ} : {A : Type ℓ} → (List A → List A) → Option (List A × List A) → List A
followed_by search none = []
followed_by search (some (found, rest)) = found ++ search rest

module _ {ℓ} {A D : Type ℓ} (init : D) (update : D → ℕ → A → D) where
  -- From the n-th predicate on: the first event that passes the first predicate, behind it the first
  -- event that passes the second one, and so on; and the events behind them.
  unfoldable pub match_from : D → ℕ → List (A → Option D → Bool) → List A → Option (List A × List A)
  unfolding first_of
  match_from d n [] es = some ([], es)
  match_from d n (p ∷ ps) es = do
    (e, later) ← first_of (λ x. p x (some d)) es
    (found, rest) ← match_from (update d n e) (n + 1) ps later
    some (e ∷ found, rest)

  -- The same for the whole pattern, whose first predicate gets no related values.
  unfoldable pub match_pattern :
      (A → Option D → Bool) → List (A → Option D → Bool) → List A → Option (List A × List A)
  unfolding first_of match_from
  match_pattern p ps es = do
    (e, later) ← first_of (λ x. p x none) es
    (found, rest) ← match_from (update init 0 e) 1 ps later
    some (e ∷ found, rest)

  -- At most so many matches, each of them searched for behind the one before.
  unfoldable pub all_matches :
      ℕ → (A → Option D → Bool) → List (A → Option D → Bool) → List A → List A
  unfolding match_pattern
  all_matches zero p ps es = []
  all_matches (suc n) p ps es = followed_by (all_matches n p ps) (match_pattern p ps es)

  -- The match that begins with an event, if the event passes the first predicate.
  unfoldable pub match_here :
      (A → Option D → Bool) → List (A → Option D → Bool) → A → List A → Option (List A × List A)
  unfolding match_from
  match_here p ps e es =
      if p e none
      then (do (found, rest) ← match_from (update init 0 e) 1 ps es; some (e ∷ found, rest))
      else none

  -- The matches that begin with each of the events, one behind the other.
  unfoldable pub overlapping_matches :
      (A → Option D → Bool) → List (A → Option D → Bool) → List A → List A
  unfolding match_here
  overlapping_matches p ps [] = []
  overlapping_matches p ps (e ∷ es) =
      followed_by (λ rest. []) (match_here p ps e es) ++ overlapping_matches p ps es

module _ {ℓ} {A D : Type ℓ} (init : D) (update : D → ℕ → A → D) (p : A → Option D → Bool)
    (ps : List (A → Option D → Bool)) where
  abbrev pub matches : ℕ → List A → List A
  matches n = all_matches init update n p ps

  -- What is published once a search that has `found` these events already is over.
  abbrev pub continued : ℕ → List A → Option (List A × List A) → List A
  continued n found none = []
  continued n found (some (more, rest)) = (found ++ more) ++ matches n rest

  pub match_from-miss :
      (d : D) (n : ℕ) (r : A → Option D → Bool) (rest : List (A → Option D → Bool)) (e : A)
      (es : List A)
      → r e (some d) ≡ false
      → match_from init update d n (r ∷ rest) (e ∷ es) ≡ match_from init update d n (r ∷ rest) es
  unfolding match_from first_of
  match_from-miss d n r rest e es miss = rw miss refl

  -- The search for the rest of the pattern behind one more event.
  pub continued-hit :
      (n m : ℕ) (d : D) (r : A → Option D → Bool) (rest : List (A → Option D → Bool))
      (found : List A) (e : A) (es : List A)
      → r e (some d) ≡ true
      → continued n found (match_from init update d m (r ∷ rest) (e ∷ es))
        ≡ continued n (found ++ e ∷ []) (match_from init update (update d m e) (m + 1) rest es)
  unfolding match_from first_of
  continued-hit n m d r rest found e es hit =
      elim (Option-cases (match_from init update (update d m e) (m + 1) rest es)) [
        | inl no_more ↦ rw (hit, no_more) refl
        | inr ((more, later), e₁) ↦
            rw (hit, e₁) (ap (λ l. l ++ matches n later) (sym (append_assoc found (e ∷ []) more)))
      ]

  match_pattern-hit :
      (e : A) (es : List A)
      → p e none ≡ true
      → match_pattern init update p ps (e ∷ es) ≡ (do
        (found, rest) ← match_from init update (update init 0 e) 1 ps es
        some (e ∷ found, rest))
  unfolding match_pattern first_of
  match_pattern-hit e es hit = rw hit refl

  match_pattern-miss :
      (e : A) (es : List A)
      → p e none ≡ false
      → match_pattern init update p ps (e ∷ es) ≡ match_pattern init update p ps es
  unfolding match_pattern first_of
  match_pattern-miss e es miss = rw miss refl

  first_found :
      (n : ℕ) (e : A) (m : Option (List A × List A))
      → followed_by (matches n) (do (found, rest) ← m; some (e ∷ found, rest))
        ≡ continued n (e ∷ []) m
  first_found n e none = refl
  first_found n e (some (found, rest)) = refl

  pub matches-hit :
      (n : ℕ) (e : A) (es : List A)
      → p e none ≡ true
      → matches (suc n) (e ∷ es)
        ≡ continued n (e ∷ []) (match_from init update (update init 0 e) 1 ps es)
  unfolding all_matches
  matches-hit n e es hit =
      ap (followed_by (matches n)) (match_pattern-hit e es hit)
      ∙ first_found n e (match_from init update (update init 0 e) 1 ps es)

  pub matches-miss :
      (n : ℕ) (e : A) (es : List A)
      → p e none ≡ false
      → matches (suc n) (e ∷ es) ≡ matches (suc n) es
  unfolding all_matches
  matches-miss n e es miss = ap (followed_by (matches n)) (match_pattern-miss e es miss)

  pub match_from-nil :
      (d : D) (n : ℕ) (r : A → Option D → Bool) (rest : List (A → Option D → Bool))
      → match_from init update d n (r ∷ rest) [] ≡ none
  unfolding match_from first_of
  match_from-nil d n r rest = refl

  -- The last predicate of the pattern.
  pub continued-last :
      (n m : ℕ) (d : D) (found : List A) (es : List A)
      → continued n found (match_from init update d m [] es) ≡ found ++ matches n es
  unfolding match_from
  continued-last n m d found es = ap (λ l. l ++ matches n es) (append-nil found)

  pub matches-nil : (n : ℕ) → matches n [] ≡ []
  unfolding all_matches match_pattern first_of
  matches-nil zero = refl
  matches-nil (suc n) = refl
