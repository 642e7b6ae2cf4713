-- ===== src/Aggr/Median/Tests.antt =====
-- AggrMedian at concrete streams.
use pipefabric.Prelude.{
  ℕ, ◌+◌, ◌*◌, ◌≡◌, refl, none, some, List, [], ◌∷◌, arith, All, count_if, ◌>>=◌,
}
use pipefabric.Stream.{Event, fresh, stale, news, outs}
use pipefabric.Aggr.Counters.{same_key, IsOrdered, count_of, find, insert, erase}
use pipefabric.Aggr.Median.{
  Median, init, median_value, median_iterate, put_in, step_after_insertion, read_key, take_found,
  step_before_removal, increment_map, take_out, decrement_map, move_back,
}
use pipefabric.Aggr.Median.Run
use pipefabric.Aggr.Median.Run.{median_all, IsSetStream, middle}
use pipefabric.Aggr.Median.Faults
use pipefabric.Tx.WriteSet.Examples.{number_order}

-- Twice the median, so that it is a number.
abbrev twice : ℕ → ℕ
twice n = 2 * n

abbrev changing : List (Event ℕ)
changing = fresh 5 ∷ fresh 9 ∷ fresh 2 ∷ fresh 7 ∷ stale 5 ∷ fresh 4 ∷ []

changing-IsSetStream : IsSetStream number_order [] changing
unfolding find insert erase
changing-IsSetStream = (refl, (refl, (refl, (refl, (refl, omega arith, (refl, tt))))))

median_run_example :
    (s : Median ℕ) × (median_all number_order init changing ≡ some s)
    × IsOrdered number_order s.map_element
    × All (λ e. e.1 ≡ 1) s.map_element
    × ((a : ℕ)
        → count_of number_order a s.map_element + count_if (same_key number_order a) (outs changing)
          ≡ count_if (same_key number_order a) (news changing))
    × (median_value number_order 0 twice twice ◌+◌ s
        ≡ middle number_order 0 twice twice ◌+◌ s.map_element)
median_run_example = Run.median_run number_order 0 twice twice ◌+◌ changing changing-IsSetStream

-- Of 2, 4, 7 and 9 the median is 5.5.
changing_median :
    (median_all number_order init changing >>= median_value number_order 0 twice twice ◌+◌)
    ≡ some 11
unfolding median_all init median_value median_iterate put_in find insert step_after_insertion
    read_key take_found step_before_removal increment_map take_out erase decrement_map move_back
changing_median = refl

equal_elements_fault_example :
    (s : Median ℕ) × (median_all number_order init (fresh 4 ∷ fresh 4 ∷ fresh 4 ∷ []) ≡ some s)
    × (median_value number_order 0 twice twice ◌+◌ s ≡ none)
    × (median_all number_order s (fresh 6 ∷ []) ≡ none)
equal_elements_fault_example = Faults.equal_elements_fault number_order 0 twice twice ◌+◌ 4 6 []
