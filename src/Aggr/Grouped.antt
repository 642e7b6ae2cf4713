-- ===== src/Aggr/Grouped.antt =====
-- qop/GroupedAggregation.hpp: an aggregate state for each group, in a hash table from grouping keys
-- to states. A fault (`none`) is the exception of boost::get on the other type of interval, the
-- call of a timestamp extractor that is not there, or the second lock of the mutex by the thread
-- that holds it already, which never returns.
pub mod Groups
pub mod Triggers
pub mod Tests
use pipefabric.Prelude.{
  ℕ, ◌+◌, ◌≡◌, Bool, true, false, Option, none, some, List, [], ◌∷◌, ◌++◌, ◌==◌, leb, if◌then◌else◌,
  ◌>>=◌, inc32, dec32,
}
use pipefabric.Prelude.Eq.{Eq}
use pipefabric.Prelude.Assoc.{lookup, put, without}
use pipefabric.Stream.{Event, element, punctuation, Punctuation, fresh, stale}
use pipefabric.Aggr.Operator.{
  TriggerType, trigger_all, trigger_by_count, trigger_by_time, trigger_by_timestamp, Interval,
  tuples, count_interval, time_interval,
}

-- AggregateStateBase, with the state of the aggregate functions that a subclass adds.
pub record Group {ℓ} (S : Type ℓ) : Type ℓ where
  pub aggr_state : S
  pub tstmp : ℕ
  pub counter : ℕ

pub record GroupedAggregation {ℓ} (K S : Type ℓ) : Type ℓ where
  pub aggregate_table : List (K × Group S)
  pub last_trigger_time : ℕ
  pub trigger_type : TriggerType
  pub trigger_interval : Interval
  pub counter : ℕ

-- The constructors; they store the interval as an unsigned int, whatever the type of trigger.
unfoldable pub construct {ℓ} : {K S : Type ℓ} → TriggerType → ℕ → GroupedAggregation K S
construct t interval = record {
  aggregate_table = [];
  last_trigger_time = 0;
  trigger_type = t;
  trigger_interval = tuples interval;
  counter = 0;
}

-- The parameters: groupby_fun, it_fun, final_fun, the timestamp extractor, and the state that the
-- factory or the default constructor makes.
module _ {ℓ} {A K S B : Type ℓ} ⦃key_eq : Eq K⦄ (groupby_fun : A → K)
    (it_fun : A → K → S → Bool → S) (final_fun : Group S → B) (timestamp_extractor : Option (A → ℕ))
    (new_state : S) where
  abbrev pub element_time : A → ℕ
  element_time x = elim timestamp_extractor [ some time ↦ time x | none ↦ 0 ]

  -- The state of a group that its first tuple makes; AggregateStateBase starts its counter at 1.
  unfoldable pub new_group : K → A → Group S
  new_group key x = record {
    aggr_state = it_fun x key new_state false;
    tstmp = element_time x;
    counter = 1;
  }

  -- setTimestamp, updateCounter and the iterate function
  unfoldable pub updated_group : K → A → Bool → Group S → Group S
  updated_group key x outdated g = record {
    aggr_state = it_fun x key g.aggr_state outdated;
    tstmp = element_time x;
    counter = if outdated then dec32 g.counter else inc32 g.counter;
  }

  -- produceAggregate behind its test of the type of trigger
  unfoldable pub produce_aggregate : TriggerType → Group S → Bool → List (Event B)
  produce_aggregate trigger_all g outdated = element (final_fun g) outdated ∷ []
  produce_aggregate trigger_by_count g outdated = []
  produce_aggregate trigger_by_time g outdated = []
  produce_aggregate trigger_by_timestamp g outdated = []

  unfoldable pub process_new_aggregation_group :
      GroupedAggregation K S → K → A → GroupedAggregation K S × List (Event B)
  unfolding new_group produce_aggregate
  process_new_aggregation_group s key x = (
    record s { aggregate_table = put key (new_group key x) s.aggregate_table },
    produce_aggregate s.trigger_type (new_group key x) false,
  )

  -- The aggregate of the group before the update is not published again.
  unfoldable pub update_aggregation_group :
      GroupedAggregation K S → K → A → Bool → Group S → GroupedAggregation K S × List (Event B)
  unfolding updated_group produce_aggregate
  update_aggregation_group s key x outdated g =
      let g' = updated_group key x outdated g in
      (
        record s {
          aggregate_table =
              if g'.counter == 0
              then without key s.aggregate_table
              else put key g' s.aggregate_table;
        },
        produce_aggregate s.trigger_type g' outdated,
      )

  -- The part of processDataElement before the switch.
  unfoldable pub update_groups :
      Option (Group S)
      → GroupedAggregation K S
      → K
      → A
      → Bool
      → GroupedAggregation K S × List (Event B)
  unfolding process_new_aggregation_group update_aggregation_group
  update_groups none s key x true = (s, [])
  update_groups none s key x false = process_new_aggregation_group s key x
  update_groups (some g) s key x outdated = update_aggregation_group s key x outdated g

  -- The switch. notificationCallback locks the mutex that processDataElement holds.
  unfoldable pub trigger :
      TriggerType → GroupedAggregation K S → A → Option (GroupedAggregation K S)
  trigger trigger_all s x = some s
  trigger trigger_by_time s x = some s
  trigger trigger_by_count s x = do
    n ← count_interval s.trigger_interval
    if inc32 s.counter == n then none else some (record s { counter = inc32 s.counter })
  trigger trigger_by_timestamp s x = do
    time ← timestamp_extractor
    interval ← time_interval s.trigger_interval
    if leb (s.last_trigger_time + interval) (time x) then none else some s

  unfoldable pub process_data_element :
      GroupedAggregation K S → A → Bool → Option (GroupedAggregation K S × List (Event B))
  unfolding update_groups trigger
  process_data_element s x outdated = do
    let key = groupby_fun x
    let (s₁, out) = update_groups (lookup key s.aggregate_table) s key x outdated
    s₂ ← trigger s₁.trigger_type s₁ x
    some (s₂, out)

  unfoldable pub process_punctuation :
      GroupedAggregation K S → Punctuation → Option (GroupedAggregation K S × List (Event B))
  process_punctuation s p = some (s, punctuation p ∷ [])

  unfoldable pub handle :
      GroupedAggregation K S → Event A → Option (GroupedAggregation K S × List (Event B))
  unfolding process_data_element process_punctuation
  handle s (element x outdated) = process_data_element s x outdated
  handle s (punctuation p) = process_punctuation s p
