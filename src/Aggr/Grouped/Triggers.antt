-- ===== src/Aggr/Grouped/Triggers.antt =====
-- GroupedAggregation: its types of trigger that publish nothing but deadlock.
use pipefabric.Prelude.{
  ℕ, suc, ◌+◌, ◌≤◌, ◌<◌, ◌≡◌, ◌↔◌, refl, Bool, true, false, Option, none, some, List, [], ◌∷◌, ◌==◌,
  if◌then◌else◌, inc32, u32_mod, arith, Bool-cases, Option-cases, inl, inr, ==_iff,
}
use pipefabric.Prelude.Eq.{Eq}
use pipefabric.Prelude.Assoc.{lookup}
use pipefabric.Stream.{Event, element, punctuation, Punctuation, try_run}
use pipefabric.Aggr.Operator.{trigger_by_count, tuples}
use pipefabric.Aggr.Grouped.{
  Group, GroupedAggregation, construct, process_new_aggregation_group, update_aggregation_group,
  update_groups, trigger, process_data_element, process_punctuation, handle,
}

-- The number of tuples on a stream, new or outdated.
abbrev pub tuple_count {ℓ} : {A : Type ℓ} → List (Event A) → ℕ
tuple_count [] = 0
tuple_count (element x outdated ∷ es) = suc (tuple_count es)
tuple_count (punctuation p ∷ es) = tuple_count es

through {ℓ κ μ} : {P : Type ℓ} {Q : Type κ} {R : Type μ} → P ↔ Q → Q ↔ R → P ↔ R
through f g = (λ p. g.0 (f.0 p), λ r. f.1 (g.1 r))

module _ {ℓ} {A K S B : Type ℓ} ⦃key_eq : Eq K⦄ (groupby_fun : A → K)
    (it_fun : A → K → S → Bool → S) (final_fun : Group S → B) (timestamp_extractor : Option (A → ℕ))
    (new_state : S) where
  -- A TriggerByCount operator with the interval n.
  record Counts (n : ℕ) (s : GroupedAggregation K S) : Type ℓ where
    pub by_count : s.trigger_type ≡ trigger_by_count
    pub at_n : s.trigger_interval ≡ tuples n

  update_groups-Counts :
      (n : ℕ) (g : Option (Group S)) (s : GroupedAggregation K S) (key : K) (x : A)
      (outdated : Bool)
      → Counts n s
      → Counts n
          (update_groups groupby_fun it_fun final_fun timestamp_extractor new_state g s key x
            outdated).0
        × ((update_groups groupby_fun it_fun final_fun timestamp_extractor new_state g s key x
              outdated).0.counter
            ≡ s.counter)
  unfolding update_groups process_new_aggregation_group update_aggregation_group
  update_groups-Counts n none s key x true c = (c, refl)
  update_groups-Counts n none s key x false c =
      (record { by_count = c.by_count; at_n = c.at_n }, refl)
  update_groups-Counts n (some g) s key x outdated c =
      (record { by_count = c.by_count; at_n = c.at_n }, refl)

  trigger-count :
      (n : ℕ) (s : GroupedAggregation K S) (x : A)
      → Counts n s
      → trigger groupby_fun it_fun final_fun timestamp_extractor new_state s.trigger_type s x
        ≡ (if inc32 s.counter == n then none else some (record s { counter = inc32 s.counter }))
  unfolding trigger
  trigger-count n s x c = rw (c.by_count, c.at_n) refl

  abbrev process :
      GroupedAggregation K S → Event A → Option (GroupedAggregation K S × List (Event B))
  process = handle groupby_fun it_fun final_fun timestamp_extractor new_state

  abbrev with_count : GroupedAggregation K S → A → Bool → GroupedAggregation K S × List (Event B)
  with_count s x outdated =
      let r =
        update_groups groupby_fun it_fun final_fun timestamp_extractor new_state
          (lookup (groupby_fun x) s.aggregate_table) s (groupby_fun x) x outdated in
      (record r.0 { counter = inc32 s.counter }, r.1)

  element-last :
      (n : ℕ) (s : GroupedAggregation K S) (x : A) (outdated : Bool)
      → Counts n s
      → inc32 s.counter ≡ n
      → process s (element x outdated) ≡ none
  unfolding handle process_data_element
  element-last n s x outdated c e =
      let r =
        update_groups groupby_fun it_fun final_fun timestamp_extractor new_state
          (lookup (groupby_fun x) s.aggregate_table) s (groupby_fun x) x outdated in
      let (c', same) =
        update_groups-Counts n (lookup (groupby_fun x) s.aggregate_table) s (groupby_fun x) x
          outdated c in
      rw (trigger-count n r.0 x c', same, (==_iff (inc32 s.counter) n).1 e) refl

  element-earlier :
      (n : ℕ) (s : GroupedAggregation K S) (x : A) (outdated : Bool)
      → Counts n s
      → (inc32 s.counter == n) ≡ false
      → process s (element x outdated) ≡ some (with_count s x outdated)
  unfolding handle process_data_element
  element-earlier n s x outdated c e =
      let r =
        update_groups groupby_fun it_fun final_fun timestamp_extractor new_state
          (lookup (groupby_fun x) s.aggregate_table) s (groupby_fun x) x outdated in
      let (c', same) =
        update_groups-Counts n (lookup (groupby_fun x) s.aggregate_table) s (groupby_fun x) x
          outdated c in
      rw (trigger-count n r.0 x c', same, e) refl

  with_count-Counts :
      (n : ℕ) (s : GroupedAggregation K S) (x : A) (outdated : Bool)
      → Counts n s
      → Counts n (with_count s x outdated).0
  with_count-Counts n s x outdated c =
      let (c', same) =
        update_groups-Counts n (lookup (groupby_fun x) s.aggregate_table) s (groupby_fun x) x
          outdated c in
      record { by_count = c'.by_count; at_n = c'.at_n }

  try_run-fault :
      (s : GroupedAggregation K S) (e : Event A) (es : List (Event A))
      → process s e ≡ none
      → try_run process s (e ∷ es) ≡ none
  unfolding try_run
  try_run-fault s e es f = rw f refl

  try_run-goes :
      (s s' : GroupedAggregation K S) (e : Event A) (es : List (Event A)) (out : List (Event B))
      → process s e ≡ some (s', out)
      → (try_run process s (e ∷ es) ≡ none) ↔ (try_run process s' es ≡ none)
  unfolding try_run
  try_run-goes s s' e es out f = elim (Option-cases (try_run process s' es)) [
    | inl h ↦ rw (f, h) (λ _. refl, λ _. refl)
    | inr (r, h) ↦ rw (f, h) (λ z. cc, λ z. cc)
  ]

  punctuation-goes :
      (s : GroupedAggregation K S) (p : Punctuation)
      → process s (punctuation p) ≡ some (s, punctuation p ∷ [])
  unfolding handle process_punctuation
  punctuation-goes s p = refl

  counting :
      (n : ℕ) (s : GroupedAggregation K S) (es : List (Event A))
      → Counts n s
      → s.counter < n
      → n < u32_mod
      → (try_run process s es ≡ none) ↔ (n ≤ s.counter + tuple_count es)
  unfolding try_run
  counting n s [] c low w = (λ h. absurd (cc), λ h. absurd (omega arith))
  counting n s (punctuation p ∷ es) c low w =
      through (try_run-goes s s (punctuation p) es (punctuation p ∷ []) (punctuation-goes s p))
        (counting n s es c low w)
  counting n s (element x outdated ∷ es) c low w = elim (Bool-cases (inc32 s.counter == n)) [
    | inl last ↦ (
      λ _. ground arith,
      λ _.
          try_run-fault s (element x outdated) es
            (element-last n s x outdated c ((==_iff _ n).0 last)),
    )
    | inr more ↦
        let next = with_count s x outdated in
        let later = counting n next.0 es (with_count-Counts n s x outdated c) (ground arith) w in
        let moved : inc32 s.counter ≡ s.counter + 1 = ground arith in
        through
          (try_run-goes s next.0 (element x outdated) es next.1
            (element-earlier n s x outdated c more))
          (λ h. omega (arith, later.0 h, moved), λ h. later.1 (omega (arith, moved)))
  ]

  -- With the type of trigger TriggerByCount and an interval n between 1 and 2^32 - 1, the operator
  -- deadlocks exactly on the streams that carry at least n tuples, new or outdated.
  pub count_deadlock :
      (n : ℕ) (es : List (Event A))
      → 0 < n
      → n < u32_mod
      → (try_run
            (handle groupby_fun it_fun final_fun timestamp_extractor new_state)
            (construct trigger_by_count n)
            es
          ≡ none)
        ↔ (n ≤ tuple_count es)
  unfolding construct
  count_deadlock n es pos w =
      through
        (counting n (construct trigger_by_count n) es (record { by_count = refl; at_n = refl }) pos
          w)
        (λ h. omega arith, λ h. omega arith)
