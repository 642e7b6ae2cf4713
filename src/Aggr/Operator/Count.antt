-- ===== src/Aggr/Operator/Count.antt =====
-- Aggregation.hpp with the trigger TriggerByCount.
use pipefabric.Prelude.{
  ℕ, zero, suc, ◌+◌, ◌-◌, ◌*◌, ◌<◌, ◌≡◌, refl, ap, sym, ◌∙◌, Bool, false, Option, some, List, [],
  ◌∷◌, arith, length, get_elem?, take, ◌==◌, if◌then◌else◌, inc32, u32_mod, Bool-cases, inl, inr,
}
use pipefabric.Stream.{
  Event, news, outs, fresh, all_fresh, try_run, try_run-cons, punctuation, slide_expired,
}
use pipefabric.Aggr.Operator.{
  TriggerType, trigger_by_count, Interval, tuples, Aggregation, notification_callback, trigger,
  process_data_element, handle,
}

module _ {ℓ κ μ} {A : Type ℓ} {S : Type κ} {B : Type μ} (iterate_fun : A → S → Bool → S)
    (final_fun : S → B) (timestamp_extractor : Option (A → ℕ)) where
  -- The state after new tuples.
  unfoldable pub aggregated : S → List A → S
  aggregated s [] = s
  aggregated s (x ∷ xs) = aggregated (iterate_fun x s false) xs

  -- An operator that is triggered by every `n`-th tuple.
  pub record IsCounting (n : ℕ) (s : Aggregation S) : Type κ where
    pub by_count : s.trigger_type ≡ trigger_by_count
    pub each : s.trigger_interval ≡ tuples n
    pub before : s.counter < n
    pub small : n < u32_mod

  abbrev pub Counts :
      ℕ → Aggregation S → List A → Option (Aggregation S × List (Event B)) → Type (κ ⊔ μ)
  Counts n s xs r =
      (s' : Aggregation S) × (out : List (Event B)) × (r ≡ some (s', out))
      × IsCounting n s'
      × (s'.aggr_state ≡ aggregated s.aggr_state xs)
      × (outs out ≡ [])
      × (length (news out) * n + s'.counter ≡ s.counter + length xs)
      × ((k : ℕ) (b : B)
          → get_elem? (news out) k ≡ some b
          → b ≡ final_fun (aggregated s.aggr_state (take ((k + 1) * n - s.counter) xs)))

  trigger-counting :
      (n c : ℕ) (i : Interval) (t : TriggerType) (s : Aggregation S) (x : A)
      → t ≡ trigger_by_count
      → s.trigger_interval ≡ tuples n
      → inc32 s.counter ≡ c
      → trigger iterate_fun final_fun timestamp_extractor t s x
        ≡ some (
            if c == n
            then (
              record s { counter = 0 },
              fresh (final_fun s.aggr_state) ∷ punctuation slide_expired ∷ [],
            )
            else (record s { counter = c }, []))
  unfolding trigger notification_callback
  trigger-counting n c i t s x e₁ e₂ e₃ = ground arith

  process-counting :
      (n : ℕ) (s : Aggregation S) (x : A)
      → IsCounting n s
      → process_data_element iterate_fun final_fun timestamp_extractor s x false ≡ (
          let s' : Aggregation S = record s { aggr_state = iterate_fun x s.aggr_state false } in
          some (
            if s.counter + 1 == n
            then (
              record s' { counter = 0 },
              fresh (final_fun s'.aggr_state) ∷ punctuation slide_expired ∷ [],
            )
            else (record s' { counter = s.counter + 1 }, [])))
  unfolding process_data_element
  process-counting n s x v =
      trigger-counting n (s.counter + 1) s.trigger_interval s.trigger_type
        (record s { aggr_state = iterate_fun x s.aggr_state false }) x v.by_count v.each
        (omega (arith, v.before, v.small))

  -- One more tuple in front.
  aggregated-take :
      (s : S) (x : A) (xs : List A) (m k : ℕ)
      → m ≡ suc k
      → aggregated s (take m (x ∷ xs)) ≡ aggregated (iterate_fun x s false) (take k xs)
  unfolding aggregated
  aggregated-take s x xs m k e = ap (λ i. aggregated s (take i (x ∷ xs))) e

  published_next :
      (n c : ℕ) (s : S) (x : A) (xs : List A) (bs : List B)
      → c + 1 ≡ n
      → ((k : ℕ) (b : B)
          → get_elem? bs k ≡ some b
          → b ≡ final_fun (aggregated (iterate_fun x s false) (take ((k + 1) * n - 0) xs)))
      → (k : ℕ) (b : B) → get_elem? (final_fun (iterate_fun x s false) ∷ bs) k ≡ some b
      → b ≡ final_fun (aggregated s (take ((k + 1) * n - c) (x ∷ xs)))
  unfolding aggregated
  published_next n c s x xs bs full at zero b e =
      let here : b ≡ final_fun (iterate_fun x s false) = ground arith in
      here ∙ ap final_fun (sym (aggregated-take s x xs ((zero + 1) * n - c) 0 (omega arith)))
  published_next n c s x xs bs full at (suc k) b e =
      at k b e
      ∙ ap final_fun
          (sym (aggregated-take s x xs ((suc k + 1) * n - c) ((k + 1) * n - 0) (omega arith)))

  -- The aggregate operator that is triggered by every `n`-th tuple, `n` below 2^32, handles new
  -- tuples without a fault, and its state is then that of all of them. It publishes nothing as
  -- outdated, one aggregate for every `n` tuples, counted from those that its counter has, and its
  -- counter has the rest; each aggregate is the one of the state after the tuples up to it.
  pub count_run :
      (n : ℕ) (s : Aggregation S) (xs : List A)
      → IsCounting n s
      → Counts n s xs (try_run (handle iterate_fun final_fun timestamp_extractor) s (all_fresh xs))
  unfolding try_run handle aggregated
  count_run n s [] v = (s, [], refl, v, refl, refl, omega arith, λ k b e. absurd (cc e))
  count_run n s (x ∷ xs) v = elim (Bool-cases (s.counter + 1 == n)) [
    | inl full ↦
        let s₁ : Aggregation S = record s {
          aggr_state = iterate_fun x s.aggr_state false;
          counter = 0;
        } in
        let full_eq : s.counter + 1 ≡ n = ground arith in
        let e₁ = process-counting n s x v in
        let v₁ : IsCounting n s₁ = record {
          by_count = v.by_count;
          each = v.each;
          before = ground (arith, v.before);
          small = v.small;
        } in
        let (s₂, out₂, e₂, v₂, st₂, outs₂, len₂, at₂) = count_run n s₁ xs v₁ in
        (
          s₂,
          fresh (final_fun s₁.aggr_state) ∷ punctuation slide_expired ∷ out₂,
          try_run-cons (handle iterate_fun final_fun timestamp_extractor) (fresh x) (all_fresh xs)
              (rw full at e₁) e₂,
          v₂,
          st₂,
          outs₂,
          omega (arith, len₂, v.before, full_eq),
          published_next n s.counter s.aggr_state x xs (news out₂) full_eq at₂,
        )
    | inr more ↦
        let s₁ : Aggregation S = record s {
          aggr_state = iterate_fun x s.aggr_state false;
          counter = s.counter + 1;
        } in
        let e₁ = process-counting n s x v in
        let v₁ : IsCounting n s₁ = record {
          by_count = v.by_count;
          each = v.each;
          before = ground (arith, v.before);
          small = v.small;
        } in
        let (s₂, out₂, e₂, v₂, st₂, outs₂, len₂, at₂) = count_run n s₁ xs v₁ in
        (
          s₂,
          out₂,
          try_run-cons (handle iterate_fun final_fun timestamp_extractor) (fresh x) (all_fresh xs)
              (rw more at e₁) e₂,
          v₂,
          st₂,
          outs₂,
          omega (arith, len₂),
          λ k b e.
              at₂ k b e
              ∙ ap final_fun (
                  sym (
                    aggregated-take s.aggr_state x xs ((k + 1) * n - s.counter)
                      ((k + 1) * n - (s.counter + 1)) (omega (arith, v.before)))),
        )
  ]
