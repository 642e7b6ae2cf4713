-- ===== src/Aggr/Grouped/Tests.antt =====
-- Witnesses and tests for the grouped aggregation.
use pipefabric.Prelude.{
  ℕ, ◌+◌, ◌%◌, ◌≡◌, ◌≤◌, ◌↔◌, refl, inl, Bool, some, none, List, [], ◌∷◌, arith, ◌>>=◌,
}
use pipefabric.Prelude.Eq.{nat_eq}
use pipefabric.Prelude.Assoc.{lookup, put}
use pipefabric.Stream.{Event, fresh, stale, punctuation, slide_expired, try_run}
use pipefabric.Aggr.Operator.{trigger_all, trigger_by_count}
use pipefabric.Aggr.Grouped.{Group, GroupedAggregation, construct, handle}
use pipefabric.Aggr.Grouped.Groups.{groups_run, group_run}
use pipefabric.Aggr.Grouped.Triggers.{count_deadlock, tuple_count}

-- The sum of the tuples with the same remainder.
abbrev digit : ℕ → ℕ
digit x = x % 10

abbrev summed : ℕ → ℕ → ℕ → Bool → ℕ
summed x key sum outdated = sum + x

abbrev sum_of : Group ℕ → ℕ
sum_of g = g.aggr_state

abbrev numbers : List (Event ℕ)
numbers = fresh 13 ∷ fresh 5 ∷ fresh 23 ∷ stale 5 ∷ punctuation slide_expired ∷ fresh 3 ∷ []

groups_run_example :
    (s' : GroupedAggregation ℕ ℕ) × (out : List (Event ℕ)) × (try_run
        (handle digit summed sum_of none 0)
        (construct trigger_all 0)
        numbers
      ≡ some (s', out))
    × (s'.trigger_type ≡ trigger_all)
    × ((key : ℕ)
        → lookup key s'.aggregate_table ≡ group_run digit summed sum_of none 0 key none numbers)
unfolding construct lookup
groups_run_example =
    groups_run digit summed sum_of none 0 (construct trigger_all 0) numbers (inl refl)

-- An outdated tuple has the new aggregate published as outdated, and the old one is left standing.
published_sums :
    (try_run
        (handle digit summed sum_of none 0)
        (construct trigger_all 0)
        (fresh 13 ∷ fresh 23 ∷ stale 13 ∷ [])
      >>= λ r. some r.1)
    ≡ some (fresh 13 ∷ fresh 36 ∷ stale 49 ∷ [])
unfolding try_run handle construct lookup put
published_sums = refl

count_deadlock_example :
    (try_run (handle digit summed sum_of none 0) (construct trigger_by_count 3) numbers ≡ none)
    ↔ (3 ≤ tuple_count numbers)
count_deadlock_example =
    count_deadlock digit summed sum_of none 0 3 numbers (omega arith) (omega arith)
