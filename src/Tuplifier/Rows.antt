-- ===== src/Tuplifier/Rows.antt =====
-- The row that a Tuplifier makes of the triples of a subject.
use mathlib.Core.Option
use pipefabric.Prelude.{
  ℕ, zero, suc, ◌+◌, ◌<◌, ◌≡◌, refl, ap, ◌∙◌, subst, Bool, true, false, Option, none, some, List,
  [], ◌∷◌, map, length, replicate, set, ltb, if◌then◌else◌, arith, All, Bool-cases, Option-cases,
  inl, inr, lt→ltb, length-map,
}
use pipefabric.Prelude.Eq.{Eq, beq_comm}
use pipefabric.Prelude.Assoc.{lookup, put, lookup-put}
use pipefabric.Tuplifier.{Triple, insert_predicate, number_predicates, fill, produce_tuple}

-- The first of two that is there.
abbrev or_else : Option ℕ → Option ℕ → Option ℕ
or_else (some j) rest = some j
or_else none rest = rest

or_else-none : (o : Option ℕ) → o ≡ or_else o none
or_else-none none = refl
or_else-none (some j) = refl

map-none : (o : Option ℕ) → Option.map suc o ≡ none → o ≡ none
map-none none e = refl
map-none (some d) e = cc

map-some :
    (o : Option ℕ) (d : ℕ) → Option.map suc o ≡ some d → (d' : ℕ) × (o ≡ some d') × (d ≡ suc d')
map-some none d e = absurd (cc e)
map-some (some d') d e = (d', refl, ground arith)

module _ {ℓ} {S : Type ℓ} ⦃key_eq : Eq S⦄ where
  unfoldable pub position : S → List S → Option ℕ
  position q [] = none
  position q (p ∷ ps) =
      let rest = Option.map suc (position q ps) in if key_eq.beq p q then some 0 else rest

  -- No predicate is named twice.
  abbrev pub IsSchema : List S → Type 0
  IsSchema [] = Unit
  IsSchema (p ∷ ps) = (◌≡◌ {A = Option ℕ} (position p ps) none) × IsSchema ps

  -- The object of the last triple with the predicate.
  unfoldable pub last_object : S → S → List (Triple S) → S
  last_object q d [] = d
  last_object q d (t ∷ ts) = last_object q (if key_eq.beq q t.predicate then t.object else d) ts

  unfoldable pub row_of : S → List S → S → List (Triple S) → List S
  unfolding last_object
  row_of empty ps subj ts = subj ∷ map (λ q. last_object q empty ts) ps

  lookup-insert_predicate :
      (q p : S) (i : ℕ) (m : List (S × ℕ))
      → lookup q (insert_predicate p i m (lookup p m))
        ≡ or_else (lookup q m) (if key_eq.beq p q then some (i + 1) else none)
  lookup-insert_predicate q p i m = elim (Option-cases (lookup p m)) [
    | inl new ↦ elim (Bool-cases (key_eq.beq p q)) [
      | inl hit ↦
          let at_q : lookup q m ≡ none =
            subst (λ x. lookup x m ≡ none) ((key_eq.beq_iff p q).0 hit) new in
          rw (new, lookup-put p q (i + 1) m, hit, at_q) refl
      | inr miss ↦ rw (new, lookup-put p q (i + 1) m, miss) (or_else-none (lookup q m))
    ]
    | inr (j, old) ↦ elim (Bool-cases (key_eq.beq p q)) [
      | inl hit ↦
          let at_q : lookup q m ≡ some j =
            subst (λ x. lookup x m ≡ some j) ((key_eq.beq_iff p q).0 hit) old in
          rw (old, at_q) refl
      | inr miss ↦ rw (old, miss) (or_else-none (lookup q m))
    ]
  ]

  lookup-number_predicates :
      (q : S) (i : ℕ) (ps : List S) (m : List (S × ℕ))
      → lookup q (number_predicates i ps m)
        ≡ or_else (lookup q m) (Option.map (λ d. suc (i + d)) (position q ps))
  unfolding number_predicates position
  lookup-number_predicates q i [] m = or_else-none (lookup q m)
  lookup-number_predicates q i (p ∷ ps) m =
      lookup-number_predicates q (i + 1) ps (insert_predicate p i m (lookup p m))
      ∙ rw (lookup-insert_predicate q p i m) (joined (lookup q m) (position q ps) (key_eq.beq p q))
    where
      joined :
          (o r : Option ℕ) (b : Bool)
          → or_else
              (or_else o (if b then some (i + 1) else none))
              (Option.map (λ d. suc (i + 1 + d)) r)
            ≡ or_else o (Option.map (λ d. suc (i + d)) (if b then some 0 else Option.map suc r))
      joined (some j) r b = refl
      joined none r true = ground arith
      joined none none false = refl
      joined none (some d) false = ground arith

  length-put :
      (p : S) (i : ℕ) (m : List (S × ℕ))
      → ◌≡◌ {A = Option ℕ} (lookup p m) none
      → length (put p i m) ≡ length m + 1
  unfolding put lookup
  length-put p i [] e = omega arith
  length-put p i ((k, j) ∷ m) e = elim (Bool-cases (key_eq.beq k p)) [
    | inl hit ↦ absurd (cc (rw hit at e))
    | inr miss ↦ rw miss (omega (arith, length-put p i m (rw miss at e)))
  ]

  length-insert_predicate :
      (p : S) (i : ℕ) (m : List (S × ℕ))
      → ◌≡◌ {A = Option ℕ} (lookup p m) none
      → length (insert_predicate p i m (lookup p m)) ≡ length m + 1
  length-insert_predicate p i m new = rw new (length-put p (i + 1) m new)

  length-number_predicates :
      (i : ℕ) (ps : List S) (m : List (S × ℕ))
      → IsSchema ps
      → All (λ p. ◌≡◌ {A = Option ℕ} (lookup p m) none) ps
      → length (number_predicates i ps m) ≡ length m + length ps
  unfolding number_predicates position
  length-number_predicates i [] m h new = omega arith
  length-number_predicates i (p ∷ ps) m h new =
      length-number_predicates (i + 1) ps (insert_predicate p i m (lookup p m)) h.1
        (still_new ps h.0 new.1)
      ∙ omega (arith, length-insert_predicate p i m new.0)
    where
      still_new :
          (qs : List S)
          → ◌≡◌ {A = Option ℕ} (position p qs) none
          → All (λ q. ◌≡◌ {A = Option ℕ} (lookup q m) none) qs
          → All (λ q. ◌≡◌ {A = Option ℕ} (lookup q (insert_predicate p i m (lookup p m))) none) qs
      still_new [] e a = tt
      still_new (q ∷ qs) e a = elim (Bool-cases (key_eq.beq q p)) [
        | inl hit ↦ absurd (cc (rw (position, hit) at e))
        | inr miss ↦ (
          lookup-insert_predicate q p i m ∙ rw (a.0, beq_comm p q, miss) refl,
          still_new qs (map-none (position p qs) (rw (position, miss) at e)) a.1,
        )
      ]

  map-absent :
      (f : S → S) (p o : S) (ps : List S)
      → ◌≡◌ {A = Option ℕ} (position p ps) none
      → map f ps ≡ map (λ q. if key_eq.beq q p then o else f q) ps
  unfolding position
  map-absent f p o [] e = refl
  map-absent f p o (q ∷ ps) e = elim (Bool-cases (key_eq.beq q p)) [
    | inl hit ↦ absurd (cc (rw hit at e))
    | inr miss ↦
        rw miss (ap (◌∷◌ (f q)) (map-absent f p o ps (map-none (position p ps) (rw miss at e))))
  ]

  set-map :
      (f : S → S) (p o : S) (ps : List S) (d : ℕ)
      → IsSchema ps
      → position p ps ≡ some d
      → set (map f ps) d o ≡ map (λ q. if key_eq.beq q p then o else f q) ps
  unfolding position
  set-map f p o [] d h e = absurd (cc e)
  set-map f p o (q ∷ ps) d h e = elim (Bool-cases (key_eq.beq q p)) [
    | inl hit ↦
        let zero_at : d ≡ 0 = ground (arith, hit, e) in
        let absent : ◌≡◌ {A = Option ℕ} (position p ps) none =
          subst (λ x. ◌≡◌ {A = Option ℕ} (position x ps) none) ((key_eq.beq_iff q p).0 hit) h.0 in
        rw (hit, zero_at) (ap (◌∷◌ o) (map-absent f p o ps absent))
    | inr miss ↦
        let (d', at, is_suc) = map-some (position p ps) d (rw miss at e) in
        rw (miss, is_suc) (ap (◌∷◌ (f q)) (set-map f p o ps d' h.1 at))
  ]

  position-lt : (p : S) (ps : List S) (d : ℕ) → position p ps ≡ some d → d < length ps
  unfolding position
  position-lt p [] d e = absurd (cc e)
  position-lt p (q ∷ ps) zero e = omega arith
  position-lt p (q ∷ ps) (suc d) e = elim (Bool-cases (key_eq.beq q p)) [
    | inl hit ↦ absurd (cc (rw hit at e))
    | inr miss ↦ omega (arith, position-lt p ps d (ground arith))
  ]

  -- The triples have predicates of the schema.
  abbrev pub AllNeeded : List S → List (Triple S) → Type ℓ
  AllNeeded ps [] = Unit
  AllNeeded ps (t ∷ ts) = ((d : ℕ) × (position t.predicate ps ≡ some d)) × AllNeeded ps ts

  fill-row :
      (ps : List S) (P : List (S × ℕ)) (subj : S) (f : S → S) (ts : List (Triple S))
      → IsSchema ps
      → ((q : S) → lookup q P ≡ Option.map suc (position q ps))
      → AllNeeded ps ts
      → fill P ts (subj ∷ map f ps) ≡ some (subj ∷ map (λ q. last_object q (f q) ts) ps)
  unfolding fill last_object
  fill-row ps P subj f [] h at a = refl
  fill-row ps P subj f (t ∷ ts) h at ((d, e), a) =
      let found : lookup t.predicate P ≡ some (suc d) = at t.predicate ∙ ap (Option.map suc) e in
      let inside : ltb (suc d) (length (subj ∷ map f ps)) ≡ true =
        lt→ltb _ _ (omega (arith, position-lt t.predicate ps d e, length-map ps f)) in
      rw (found, inside, set-map f t.predicate t.object ps d h e)
        (fill-row ps P subj (λ q. if key_eq.beq q t.predicate then t.object else f q) ts h at a)

  -- The table of a schema.
  pub schema-lookup :
      (ps : List S) (q : S) → lookup q (number_predicates 0 ps []) ≡ Option.map suc (position q ps)
  schema-lookup ps q = lookup-number_predicates q 0 ps [] ∙ rw nothing (same (position q ps))
    where
      nothing : ◌≡◌ {A = Option ℕ} (lookup q []) none
      nothing = unfold lookup in refl

      same : (o : Option ℕ) → Option.map (λ d. suc (0 + d)) o ≡ Option.map suc o
      same none = refl
      same (some d) = ground arith

  map-constant : (e : S) (ps : List S) → replicate (length ps) e ≡ map (λ q. e) ps
  map-constant e [] = refl
  map-constant e (p ∷ ps) = ap (◌∷◌ e) (map-constant e ps)

  -- The tuple of a subject's triples is their row.
  pub produce_tuple-row_of :
      (empty : S) (ps : List S) (t : Triple S) (ts : List (Triple S))
      → IsSchema ps
      → AllNeeded ps (t ∷ ts)
      → produce_tuple empty (number_predicates 0 ps []) (t ∷ ts)
        ≡ some (row_of empty ps t.subject (t ∷ ts))
  unfolding produce_tuple row_of
  produce_tuple-row_of empty ps t ts h a =
      let size : length (number_predicates 0 ps []) ≡ length ps =
        length-number_predicates 0 ps [] h (nothing ps) ∙ omega arith in
      rw (size, map-constant empty ps)
        (fill-row ps (number_predicates 0 ps []) t.subject (λ q. empty) (t ∷ ts) h
          (schema-lookup ps) a)
    where
      nothing : (qs : List S) → All (λ q. ◌≡◌ {A = Option ℕ} (lookup q []) none) qs
      nothing [] = tt
      nothing (q ∷ qs) = ((unfold lookup in refl), nothing qs)
