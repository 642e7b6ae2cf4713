-- ===== src/Aggr/Grouped/Groups.antt =====
-- GroupedAggregation: each group by itself, for the types of trigger that never fault.
use pipefabric.Prelude.{
  ℕ, ◌≡◌, refl, ap, sym, subst, ◌∙◌, Bool, true, false, ◌⊎◌, inl, inr, Option, none, some, List, [],
  ◌∷◌, ◌++◌, ◌==◌, if◌then◌else◌, arith, Bool-cases,
}
use pipefabric.Prelude.Eq.{Eq}
use pipefabric.Prelude.Assoc.{lookup, lookup-put, lookup-without}
use pipefabric.Stream.{Event, element, punctuation, try_run, try_run-cons}
use pipefabric.Aggr.Operator.{TriggerType, trigger_all, trigger_by_time}
use pipefabric.Aggr.Grouped.{
  Group, GroupedAggregation, new_group, updated_group, process_new_aggregation_group,
  update_aggregation_group, update_groups, trigger, process_data_element, process_punctuation,
  handle,
}

module _ {ℓ} {A K S B : Type ℓ} ⦃key_eq : Eq K⦄ (groupby_fun : A → K)
    (it_fun : A → K → S → Bool → S) (final_fun : Group S → B) (timestamp_extractor : Option (A → ℕ))
    (new_state : S) where
  -- One group by itself: it is made by a new tuple, and vanishes when its counter is 0.
  unfoldable pub advance : K → Option (Group S) → A → Bool → Option (Group S)
  advance key none x true = none
  advance key none x false =
      some (new_group groupby_fun it_fun final_fun timestamp_extractor new_state key x)
  advance key (some g) x outdated =
      let g' =
        updated_group groupby_fun it_fun final_fun timestamp_extractor new_state key x outdated g in
      if g'.counter == 0 then none else some g'

  -- A group over the events of a stream, of which it takes the tuples with its key.
  unfoldable pub group_run : K → Option (Group S) → List (Event A) → Option (Group S)
  unfolding advance
  group_run key g [] = g
  group_run key g (element x outdated ∷ es) =
      group_run key (if key_eq.beq (groupby_fun x) key then advance key g x outdated else g) es
  group_run key g (punctuation p ∷ es) = group_run key g es

  -- Triggers that processDataElement does not switch on.
  abbrev pub IsQuiet : TriggerType → Type 0
  IsQuiet t = (t ≡ trigger_all) ⊎ (t ≡ trigger_by_time)

  update_groups-lookup :
      (g : Option (Group S)) (s : GroupedAggregation K S) (key k : K) (x : A) (outdated : Bool)
      → lookup key s.aggregate_table ≡ g
      → lookup k
          (update_groups groupby_fun it_fun final_fun timestamp_extractor new_state g s key x
            outdated).0.aggregate_table
        ≡ (if key_eq.beq key k then advance key g x outdated else lookup k s.aggregate_table)
  unfolding update_groups process_new_aggregation_group update_aggregation_group advance
  update_groups-lookup none s key k x true e = elim (Bool-cases (key_eq.beq key k)) [
    | inl hit ↦ rw (hit, sym ((key_eq.beq_iff key k).0 hit)) e
    | inr miss ↦ rw miss refl
  ]
  update_groups-lookup none s key k x false e = lookup-put key k _ s.aggregate_table
  update_groups-lookup (some g) s key k x outdated e =
      let g' : Group S =
        updated_group groupby_fun it_fun final_fun timestamp_extractor new_state key x outdated g in
      elim (Bool-cases (g'.counter == 0)) [
        | inl gone ↦ rw gone (lookup-without key k s.aggregate_table)
        | inr left ↦ rw left (lookup-put key k g' s.aggregate_table)
      ]

  update_groups-trigger_type :
      (g : Option (Group S)) (s : GroupedAggregation K S) (key : K) (x : A) (outdated : Bool)
      → (update_groups groupby_fun it_fun final_fun timestamp_extractor new_state g s key x
          outdated).0.trigger_type
        ≡ s.trigger_type
  unfolding update_groups process_new_aggregation_group update_aggregation_group
  update_groups-trigger_type none s key x true = refl
  update_groups-trigger_type none s key x false = refl
  update_groups-trigger_type (some g) s key x outdated = refl

  of_key :
      (s : GroupedAggregation K S) (key k : K) (x : A) (outdated : Bool)
      → (if key_eq.beq key k
          then advance key (lookup key s.aggregate_table) x outdated
          else lookup k s.aggregate_table)
        ≡ (if key_eq.beq key k
            then advance k (lookup k s.aggregate_table) x outdated
            else lookup k s.aggregate_table)
  of_key s key k x outdated = elim (Bool-cases (key_eq.beq key k)) [
    | inl hit ↦
        rw hit (
          ap (λ z. advance z (lookup z s.aggregate_table) x outdated)
            ((key_eq.beq_iff key k).0 hit))
    | inr miss ↦ rw miss refl
  ]

  trigger-quiet :
      (t : TriggerType) (s : GroupedAggregation K S) (x : A)
      → IsQuiet t
      → trigger groupby_fun it_fun final_fun timestamp_extractor new_state t s x ≡ some s
  unfolding trigger
  trigger-quiet t s x q = ground arith

  process-quiet :
      (s : GroupedAggregation K S) (x : A) (outdated : Bool)
      → IsQuiet s.trigger_type
      → process_data_element groupby_fun it_fun final_fun timestamp_extractor new_state s x outdated
        ≡ some (
            update_groups groupby_fun it_fun final_fun timestamp_extractor new_state
              (lookup (groupby_fun x) s.aggregate_table)
              s
              (groupby_fun x)
              x
              outdated)
  unfolding process_data_element
  process-quiet s x outdated q =
      let r =
        update_groups groupby_fun it_fun final_fun timestamp_extractor new_state
          (lookup (groupby_fun x) s.aggregate_table) s (groupby_fun x) x outdated in
      let same : r.0.trigger_type ≡ s.trigger_type =
        update_groups-trigger_type (lookup (groupby_fun x) s.aggregate_table) s (groupby_fun x) x
          outdated in
      rw (trigger-quiet r.0.trigger_type r.0 x (subst IsQuiet (sym same) q)) refl

  -- With the types of trigger TriggerAll and TriggerByTime, any stream is handled without a fault,
  -- and afterwards the table has for each key what the group of that key, by itself, makes of the
  -- stream's tuples with that key.
  pub groups_run :
      (s : GroupedAggregation K S) (es : List (Event A))
      → IsQuiet s.trigger_type
      → (s' : GroupedAggregation K S) × (out : List (Event B)) × (try_run
            (handle groupby_fun it_fun final_fun timestamp_extractor new_state)
            s
            es
          ≡ some (s', out))
        × (s'.trigger_type ≡ s.trigger_type)
        × ((key : K)
            → lookup key s'.aggregate_table ≡ group_run key (lookup key s.aggregate_table) es)
  unfolding try_run group_run handle process_punctuation
  groups_run s [] q = (s, [], refl, refl, λ key. refl)
  groups_run s (punctuation p ∷ es) q =
      let (s', out, e, t, l) = groups_run s es q in
      (
        s',
        punctuation p ∷ out,
        try_run-cons (handle groupby_fun it_fun final_fun timestamp_extractor new_state)
            (punctuation p) es refl e,
        t,
        l,
      )
  groups_run s (element x outdated ∷ es) q =
      let key : K = groupby_fun x in
      let r =
        update_groups groupby_fun it_fun final_fun timestamp_extractor new_state
          (lookup key s.aggregate_table) s key x outdated in
      let same : r.0.trigger_type ≡ s.trigger_type =
        update_groups-trigger_type (lookup key s.aggregate_table) s key x outdated in
      let (s', out, e, t, l) = groups_run r.0 es (subst IsQuiet (sym same) q) in
      (
        s',
        r.1 ++ out,
        try_run-cons (handle groupby_fun it_fun final_fun timestamp_extractor new_state)
            (element x outdated) es (process-quiet s x outdated q) e,
        t ∙ same,
        λ k.
            l k
            ∙ ap (λ g. group_run k g es)
                (update_groups-lookup (lookup key s.aggregate_table) s key k x outdated refl
                  ∙ of_key s key k x outdated),
      )
