-- ===== src/Tuplifier/Run.antt =====
-- The Tuplifier in its ordered mode: what it publishes up to a punctuation.
use mathlib.Core.Option
use pipefabric.Prelude.{
  ℕ, suc, ◌≡◌, refl, sym, ap, ◌∙◌, subst, true, false, ◌||◌, Option, none, some, List, [], ◌∷◌,
  ◌++◌, arith, All, Bool-cases, Option-cases, inl, inr, append_assoc, append-nil, inc32, length,
  replicate, length-replicate, ltb, ◌≤◌,
}
use pipefabric.Prelude.Eq.{Eq, beq_refl}
use pipefabric.Prelude.Assoc.{lookup, put, without}
use pipefabric.Stream.{
  Punctuation, fresh, punctuation, all_fresh, all_fresh-append, try_run, try_run-one, try_run-cons,
}
use pipefabric.Tuplifier.{
  TuplifyMode, Triple, BufferItem, Tuplifier, is_some, is_ordered, number_predicates, construct,
  grown, add_to_buffer, produce_tuple, produce_found, fill, produce_tuple_for_subject, follow,
  process_data_element, process_punctuation, handle,
}
use pipefabric.Tuplifier.Rows.{
  position, IsSchema, AllNeeded, row_of, produce_tuple-row_of, schema-lookup,
}
use pipefabric.Tuplifier.Ordered
use pipefabric.Tuplifier.Ordered.{groups, needed, rows_of, group_rows, chunk}

module _ {ℓ} {S : Type ℓ} ⦃key_eq : Eq S⦄ (empty : S) (ps : List S) where
  -- The buffer holds the needed triples of the current subject.
  abbrev Pending : S → List (Triple S) → List (S × BufferItem S) → Type ℓ
  Pending k [] m = m ≡ []
  Pending k (t ∷ ts) m = (item : BufferItem S) × (m ≡ (k, item) ∷ []) × (item.triple_list ≡ t ∷ ts)

  record Holds (k : S) (pend : List (Triple S)) (s : Tuplifier S) : Type ℓ where
    pub mode : s.mode ≡ TuplifyMode.ordered
    pub schema : s.predicates ≡ number_predicates 0 ps []
    pub current : s.current_subj ≡ k
    pub pending : Pending k pend s.tuple_buffer
    pub are_needed : AllNeeded ps pend

  needs :
      (t : Triple S) (s : Tuplifier S)
      → s.predicates ≡ number_predicates 0 ps []
      → is_some (lookup t.predicate s.predicates) ≡ is_some (position t.predicate ps)
  needs t s e =
      ap (λ m. is_some (lookup t.predicate m)) e
      ∙ ap is_some (schema-lookup ps t.predicate)
      ∙ some_map (position t.predicate ps)
    where
      some_map : (o : Option ℕ) → is_some (Option.map suc o) ≡ is_some o
      some_map none = refl
      some_map (some d) = refl

  put-Pending :
      (k : S) (pend : List (Triple S)) (t : Triple S) (ex : Option (Triple S → ℕ))
      (m : List (S × BufferItem S))
      → Pending k pend m
      → Pending k (pend ++ t ∷ []) (put k (grown ex t (lookup k m)) m)
  unfolding put lookup grown
  put-Pending k [] t none m e =
      rw e (record { triple_list = t ∷ []; matches = 1; arrival_time = 0 }, refl, refl)
  put-Pending k [] t (some extract) m e =
      rw e (record { triple_list = t ∷ []; matches = 1; arrival_time = extract t }, refl, refl)
  put-Pending k (u ∷ us) t ex m (item, e, l) =
      rw (e, beq_refl k)
        (
          record item { matches = inc32 item.matches; triple_list = item.triple_list ++ t ∷ [] },
          refl,
          ap (λ ts. ts ++ t ∷ []) l,
        )

  AllNeeded-snoc :
      (ts : List (Triple S)) (t : Triple S) (d : ℕ)
      → AllNeeded ps ts
      → position t.predicate ps ≡ some d
      → AllNeeded ps (ts ++ t ∷ [])
  AllNeeded-snoc [] t d a e = ((d, e), tt)
  AllNeeded-snoc (u ∷ us) t d a e = (a.0, AllNeeded-snoc us t d a.1 e)

  -- One more triple of the current subject.
  add-Holds :
      (k : S) (pend : List (Triple S)) (t : Triple S) (s : Tuplifier S)
      → Holds k pend s
      → t.subject ≡ k
      → Holds k (pend ++ needed empty ps (t ∷ [])) (add_to_buffer t s)
  unfolding add_to_buffer needed
  add-Holds k pend t s h same = elim (Option-cases (position t.predicate ps)) [
    | inl out ↦
        let is_out : is_some (lookup t.predicate s.predicates) ≡ false =
          needs t s h.schema ∙ ap is_some out in
        rw (is_out, out, append-nil pend) h
    | inr (d, at) ↦
        let is_in : is_some (lookup t.predicate s.predicates) ≡ true =
          needs t s h.schema ∙ ap is_some at in
        rw (is_in, at)
          (record {
            mode = h.mode;
            schema = h.schema;
            current = h.current;
            pending =
                subst
                  (λ x. Pending k (pend ++ t ∷ []) (
                    put x (grown s.timestamp_extractor t (lookup x s.tuple_buffer)) s.tuple_buffer))
                  (sym same) (put-Pending k pend t s.timestamp_extractor s.tuple_buffer h.pending);
            are_needed = AllNeeded-snoc pend t d h.are_needed at;
          })
  ]

  without_one : (k : S) (item : BufferItem S) → without k ((k, item) ∷ []) ≡ []
  unfolding without
  without_one k item = rw (beq_refl k) refl

  -- The tuple of the current subject.
  produce-Holds :
      (k : S) (pend : List (Triple S)) (s : Tuplifier S)
      → IsSchema ps
      → Holds k pend s
      → (s' : Tuplifier S) × (produce_tuple_for_subject empty k s
          ≡ some (s', rows_of empty ps pend))
        × (s'.tuple_buffer ≡ [])
        × ((j : S) → Holds j [] (record s' { current_subj = j }))
  unfolding produce_tuple_for_subject produce_found rows_of lookup
  produce-Holds k [] s distinct h = (
    s,
    rw h.pending refl,
    h.pending,
    λ j. record {
      mode = h.mode;
      schema = h.schema;
      current = refl;
      pending = h.pending;
      are_needed = tt;
    },
  )
  produce-Holds k (t ∷ ts) s distinct h =
      let (item, e, l) = h.pending in
      let row : produce_tuple empty s.predicates item.triple_list
          ≡ some (row_of empty ps t.subject (t ∷ ts)) =
        ap (λ m. produce_tuple empty m item.triple_list) h.schema
        ∙ ap (produce_tuple empty (number_predicates 0 ps [])) l
        ∙ produce_tuple-row_of empty ps t ts distinct h.are_needed in
      (
        record s { tuple_buffer = [] },
        rw (e, beq_refl k, row) (rw (without_one k item) refl),
        refl,
        λ j. record {
          mode = h.mode;
          schema = h.schema;
          current = refl;
          pending = refl;
          are_needed = tt;
        },
      )

  IsGiven : List (Triple S) → Type 0
  IsGiven ts = All (λ (t : Triple S). key_eq.beq t.subject empty ≡ false) ts

  add-current : (t : Triple S) (s : Tuplifier S) → (add_to_buffer t s).current_subj ≡ s.current_subj
  unfolding add_to_buffer
  add-current t s = elim (Bool-cases (is_some (lookup t.predicate s.predicates))) [
    | inl hit ↦ rw hit refl
    | inr miss ↦ rw miss refl
  ]

  renamed :
      (t : Triple S) (s : Tuplifier S) (k : S)
      → add_to_buffer t (record s { current_subj = k })
        ≡ record (add_to_buffer t s) { current_subj = k }
  unfolding add_to_buffer
  renamed t s k = elim (Bool-cases (is_some (lookup t.predicate s.predicates))) [
    | inl hit ↦ rw hit refl
    | inr miss ↦ rw miss refl
  ]

  -- A triple of the current subject, and one of another subject.
  follow-same :
      (k : S) (pend : List (Triple S)) (t : Triple S) (s : Tuplifier S)
      → Holds k pend s
      → key_eq.beq k empty ≡ false
      → key_eq.beq t.subject k ≡ true
      → (s' : Tuplifier S) × (handle empty s (fresh t) ≡ some (s', []))
        × Holds k (pend ++ needed empty ps (t ∷ [])) s'
  unfolding handle process_data_element follow
  follow-same k pend t s h given hit =
      let a = add-Holds k pend t s h ((key_eq.beq_iff t.subject k).0 hit) in
      let in_order : is_ordered s.mode ≡ true = ap is_ordered h.mode in
      let goes_on : (key_eq.beq s.current_subj empty || key_eq.beq t.subject s.current_subj)
          ≡ true =
        ap (λ x. key_eq.beq x empty || key_eq.beq t.subject x) h.current ∙ rw (given, hit) refl in
      let named : key_eq.beq (add_to_buffer t s).current_subj empty ≡ false =
        ap (λ x. key_eq.beq x empty) a.current ∙ given in
      (add_to_buffer t s, rw (in_order, goes_on, named) refl, a)

  follow-other :
      (k : S) (pend : List (Triple S)) (t : Triple S) (s : Tuplifier S)
      → IsSchema ps
      → Holds k pend s
      → key_eq.beq k empty ≡ false
      → key_eq.beq t.subject k ≡ false
      → (s' : Tuplifier S) × (handle empty s (fresh t)
          ≡ some (s', all_fresh (rows_of empty ps pend)))
        × Holds t.subject (needed empty ps (t ∷ [])) s'
  unfolding handle process_data_element follow
  follow-other k pend t s distinct h given miss =
      let (s', done, emptied, next) = produce-Holds k pend s distinct h in
      let started : Tuplifier S = record s' { current_subj = t.subject } in
      let in_order : is_ordered s.mode ≡ true = ap is_ordered h.mode in
      let goes_on : (key_eq.beq s.current_subj empty || key_eq.beq t.subject s.current_subj)
          ≡ false =
        ap (λ x. key_eq.beq x empty || key_eq.beq t.subject x) h.current ∙ rw (given, miss) refl in
      let produced = ap (λ x. produce_tuple_for_subject empty x s) h.current ∙ done in
      (
        add_to_buffer t started,
        rw (in_order, goes_on, produced) refl,
        add-Holds t.subject [] t started (next t.subject) refl,
      )

  -- The first triple.
  follow-first :
      (t : Triple S) (s : Tuplifier S)
      → Holds empty [] s
      → (s' : Tuplifier S) × (handle empty s (fresh t) ≡ some (s', []))
        × Holds t.subject (needed empty ps (t ∷ [])) s'
  unfolding handle process_data_element follow
  follow-first t s h =
      let in_order : is_ordered s.mode ≡ true = ap is_ordered h.mode in
      let goes_on : (key_eq.beq s.current_subj empty || key_eq.beq t.subject s.current_subj)
          ≡ true =
        ap (λ x. key_eq.beq x empty || key_eq.beq t.subject x) h.current
        ∙ rw (beq_refl empty) refl in
      let unnamed : key_eq.beq (add_to_buffer t s).current_subj empty ≡ true =
        ap (λ x. key_eq.beq x empty) (add-current t s ∙ h.current) ∙ beq_refl empty in
      (
        record (add_to_buffer t s) { current_subj = t.subject },
        rw (in_order, goes_on, unnamed) refl,
        subst (Holds t.subject (needed empty ps (t ∷ []))) (renamed t s t.subject) (
            add-Holds t.subject [] t (record s { current_subj = t.subject })
              (record {
                mode = h.mode;
                schema = h.schema;
                current = refl;
                pending = h.pending;
                are_needed = tt;
              })
              refl),
      )

  finish-Holds :
      (k : S) (pend : List (Triple S)) (s : Tuplifier S) (p : Punctuation)
      → IsSchema ps
      → Holds k pend s
      → (s' : Tuplifier S) × (try_run (handle empty) s (punctuation p ∷ [])
          ≡ some (s', all_fresh (rows_of empty ps pend) ++ punctuation p ∷ []))
        × (s'.tuple_buffer ≡ [])
  finish-Holds k pend s p distinct h =
      let (s', done, emptied, next) = produce-Holds k pend s distinct h in
      let in_order : is_ordered s.mode ≡ true = ap is_ordered h.mode in
      let produced = ap (λ x. produce_tuple_for_subject empty x s) h.current ∙ done in
      (
        s',
        try_run-one (handle empty) (punctuation p)
            (unfold handle in unfold process_punctuation in rw (in_order, produced) refl),
        emptied,
      )

  running :
      (k : S) (pend ts : List (Triple S)) (s : Tuplifier S) (p : Punctuation)
      → IsSchema ps
      → Holds k pend s
      → key_eq.beq k empty ≡ false
      → IsGiven ts
      → (s' : Tuplifier S) × (try_run (handle empty) s (all_fresh ts ++ punctuation p ∷ [])
          ≡ some (s', all_fresh (chunk empty ps k pend ts) ++ punctuation p ∷ []))
        × (s'.tuple_buffer ≡ [])
  unfolding chunk IsGiven
  running k pend [] s p distinct h given all = finish-Holds k pend s p distinct h
  running k pend (t ∷ ts) s p distinct h given all = elim (Bool-cases (key_eq.beq t.subject k)) [
    | inl hit ↦
        let (s₁, e₁, h₁) = follow-same k pend t s h given hit in
        let (s₂, e₂, emptied) =
          running k (pend ++ needed empty ps (t ∷ [])) ts s₁ p distinct h₁ given all.1 in
        rw hit (
          s₂,
          try_run-cons (handle empty) (fresh t) (all_fresh ts ++ punctuation p ∷ []) e₁ e₂,
          emptied,
        )
    | inr miss ↦
        let (s₁, e₁, h₁) = follow-other k pend t s distinct h given miss in
        let (s₂, e₂, emptied) =
          running t.subject (needed empty ps (t ∷ [])) ts s₁ p distinct h₁ all.0 all.1 in
        rw miss (
          s₂,
          try_run-cons (handle empty) (fresh t) (all_fresh ts ++ punctuation p ∷ []) e₁ e₂
              ∙ ap (λ l. some (s₂, l))
                  (sym (
                      append_assoc (all_fresh (rows_of empty ps pend))
                        (all_fresh (chunk empty ps t.subject (needed empty ps (t ∷ [])) ts))
                        (punctuation p ∷ []))
                    ∙ ap (λ l. l ++ punctuation p ∷ [])
                        (sym (
                          all_fresh-append (rows_of empty ps pend)
                            (chunk empty ps t.subject (needed empty ps (t ∷ [])) ts)))),
          emptied,
        )
  ]

  constructed :
      (ex : Option (Triple S → ℕ)) → Holds empty [] (construct ex ps TuplifyMode.ordered empty)
  unfolding construct
  constructed ex = record {
    mode = refl;
    schema = refl;
    current = refl;
    pending = refl;
    are_needed = tt;
  }

  -- A field behind the end of the row.
  outside :
      (t : Triple S) (d : ℕ) (s : Tuplifier S) (p : Punctuation)
      → Holds t.subject (t ∷ []) s
      → position t.predicate ps ≡ some d
      → length (number_predicates 0 ps []) ≤ d
      → handle empty s (punctuation p) ≡ none
  unfolding handle process_punctuation produce_tuple_for_subject produce_found produce_tuple fill
      lookup
  outside t d s p h at short =
      let (item, e, l) = h.pending in
      let in_order : is_ordered s.mode ≡ true = ap is_ordered h.mode in
      let field : lookup t.predicate (number_predicates 0 ps []) ≡ some (suc d) =
        schema-lookup ps t.predicate ∙ ap (Option.map suc) at in
      let no_field : ltb (suc d)
            (length (t.subject ∷ replicate (length (number_predicates 0 ps [])) empty))
          ≡ false =
        ground (arith, length-replicate (length (number_predicates 0 ps [])) empty) in
      let no_row : produce_tuple empty s.predicates item.triple_list ≡ none =
        ap (λ m. produce_tuple empty m item.triple_list) h.schema
        ∙ ap (produce_tuple empty (number_predicates 0 ps [])) l
        ∙ rw (field, no_field) refl in
      let found : lookup s.current_subj s.tuple_buffer ≡ some item =
        ap (λ x. lookup x s.tuple_buffer) h.current ∙ rw e (rw (beq_refl t.subject) refl) in
      rw (in_order, found, no_row) refl

  -- From its construction for a schema of different predicates on, the Tuplifier in its ordered mode
  -- handles new triples with non-empty subjects and a punctuation behind them without a fault. It
  -- publishes, before the punctuation, a row for each group of neighbouring triples with one subject
  -- that has a predicate of the schema: the subject, and for each predicate the object of the last
  -- triple of the group with it, or the empty string. Its buffer is empty again.
  pub ordered_run :
      (ex : Option (Triple S → ℕ)) (ts : List (Triple S)) (p : Punctuation)
      → IsSchema ps
      → All (λ (t : Triple S). key_eq.beq t.subject empty ≡ false) ts
      → (s' : Tuplifier S) × (try_run
            (handle empty)
            (construct ex ps TuplifyMode.ordered empty)
            (all_fresh ts ++ punctuation p ∷ [])
          ≡ some (s', all_fresh (group_rows empty ps (groups ts)) ++ punctuation p ∷ []))
        × (s'.tuple_buffer ≡ [])
  unfolding IsGiven group_rows rows_of groups
  ordered_run ex [] p distinct all =
      finish-Holds empty [] (construct ex ps TuplifyMode.ordered empty) p distinct (constructed ex)
  ordered_run ex (t ∷ ts) p distinct all =
      let (s₁, e₁, h₁) =
        follow-first t (construct ex ps TuplifyMode.ordered empty) (constructed ex) in
      let (s₂, e₂, emptied) =
        running t.subject (needed empty ps (t ∷ [])) ts s₁ p distinct h₁ all.0 all.1 in
      (
        s₂,
        try_run-cons (handle empty) (fresh t) (all_fresh ts ++ punctuation p ∷ []) e₁ e₂
            ∙ ap (λ l. some (s₂, all_fresh l ++ punctuation p ∷ []))
                (Ordered.chunk-groups empty ps t ts),
        emptied,
      )

  -- In the ordered mode, where a predicate stands in the schema behind a repeated one, so far back
  -- that its place is not below the number of different predicates, a triple with it faults at the
  -- next punctuation: the field of its object is not in the row.
  pub repeated_predicate_faults :
      (ex : Option (Triple S → ℕ)) (t : Triple S) (d : ℕ) (p : Punctuation)
      → position t.predicate ps ≡ some d
      → length (number_predicates 0 ps []) ≤ d
      → try_run
          (handle empty)
          (construct ex ps TuplifyMode.ordered empty)
          (fresh t ∷ punctuation p ∷ [])
        ≡ none
  unfolding try_run needed
  repeated_predicate_faults ex t d p at short =
      let (s, e, h) = follow-first t (construct ex ps TuplifyMode.ordered empty) (constructed ex) in
      rw e (rw (punctuation_faults s h) refl)
    where
      punctuation_faults :
          (s : Tuplifier S)
          → Holds t.subject (needed empty ps (t ∷ [])) s
          → handle empty s (punctuation p) ≡ none
      punctuation_faults s h =
          outside t d s p (subst (λ ts. Holds t.subject ts s) (rw at refl) h) at short
