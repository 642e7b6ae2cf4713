-- ===== src/Aggr/Operator.antt =====
-- qop/Aggregation.hpp: the operator that keeps an aggregate state, and publishes aggregates when it
-- is triggered. A fault (`none`) is boost::get on the other type of interval, or a call of a
-- timestamp extractor that is not there.
pub mod Count
use pipefabric.Prelude.{
  ℕ, ◌+◌, ◌≡◌, Bool, true, false, Option, none, some, List, [], ◌∷◌, ◌==◌, leb, if◌then◌else◌,
  ◌>>=◌, inc32,
}
use pipefabric.Stream.{Event, element, punctuation, Punctuation, slide_expired, fresh, stale}

pub data TriggerType : Type 0 where
  trigger_all : TriggerType
  trigger_by_count : TriggerType
  trigger_by_time : TriggerType
  trigger_by_timestamp : TriggerType

-- boost::variant<Timestamp, unsigned int>
pub data Interval : Type 0 where
  micros : ℕ → Interval
  tuples : ℕ → Interval

pub record Aggregation {ℓ} (S : Type ℓ) : Type ℓ where
  pub aggr_state : S
  pub last_trigger_time : ℕ
  pub trigger_type : TriggerType
  pub trigger_interval : Interval
  pub counter : ℕ

-- The constructor that takes the type of trigger.
unfoldable pub construct {ℓ} : {S : Type ℓ} → S → TriggerType → ℕ → Aggregation S
construct s t interval = record {
  aggr_state = s;
  last_trigger_time = 0;
  trigger_type = t;
  trigger_interval = tuples interval;
  counter = 0;
}

-- The constructor that takes a timestamp extractor and an interval.
unfoldable pub construct_by_timestamp {ℓ} : {S : Type ℓ} → S → ℕ → Aggregation S
construct_by_timestamp s interval = record {
  aggr_state = s;
  last_trigger_time = 0;
  trigger_type = trigger_by_timestamp;
  trigger_interval = micros interval;
  counter = 0;
}

abbrev pub count_interval : Interval → Option ℕ
count_interval (micros t) = none
count_interval (tuples n) = some n

abbrev pub time_interval : Interval → Option ℕ
time_interval (micros t) = some t
time_interval (tuples n) = none

module _ {ℓ κ μ} {A : Type ℓ} {S : Type κ} {B : Type μ} (iterate_fun : A → S → Bool → S)
    (final_fun : S → B) (timestamp_extractor : Option (A → ℕ)) where
  -- notificationCallback, with produceAggregates
  unfoldable pub notification_callback : S → List (Event B)
  notification_callback s = fresh (final_fun s) ∷ punctuation slide_expired ∷ []

  -- The switch on the type of trigger, for a new tuple; the state has it already.
  unfoldable pub trigger : TriggerType → Aggregation S → A → Option (Aggregation S × List (Event B))
  unfolding notification_callback
  trigger trigger_all s x = some (s, fresh (final_fun s.aggr_state) ∷ [])
  trigger trigger_by_time s x = some (s, [])
  trigger trigger_by_count s x = do
    n ← count_interval s.trigger_interval
    some (
        if inc32 s.counter == n
        then (record s { counter = 0 }, notification_callback s.aggr_state)
        else (record s { counter = inc32 s.counter }, []))
  trigger trigger_by_timestamp s x = do
    time ← timestamp_extractor
    interval ← time_interval s.trigger_interval
    some (
        if leb (s.last_trigger_time + interval) (time x)
        then (record s { last_trigger_time = time x }, notification_callback s.aggr_state)
        else (s, []))

  unfoldable pub process_data_element :
      Aggregation S → A → Bool → Option (Aggregation S × List (Event B))
  unfolding trigger
  process_data_element s x false =
      trigger s.trigger_type (record s { aggr_state = iterate_fun x s.aggr_state false }) x
  process_data_element s x true =
      let state = iterate_fun x s.aggr_state true in
      some (record s { aggr_state = state }, stale (final_fun state) ∷ [])

  unfoldable pub process_punctuation :
      Aggregation S → Punctuation → Option (Aggregation S × List (Event B))
  process_punctuation s p = some (s, punctuation p ∷ [])

  unfoldable pub handle : Aggregation S → Event A → Option (Aggregation S × List (Event B))
  unfolding process_data_element process_punctuation
  handle s (element x outdated) = process_data_element s x outdated
  handle s (punctuation p) = process_punctuation s p
