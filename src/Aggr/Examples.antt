-- ===== src/Aggr/Examples.antt =====
-- The aggregate functions at concrete streams.
use pipefabric.Prelude.{
  ℕ, ◌≡◌, ◌<◌, refl, Bool, true, false, none, some, List, [], ◌∷◌, ◌++◌, arith, length, count_if,
  ltb, zero, suc, get_elem?,
}
use Prim.Native.Nat.{min}
use pipefabric.Prelude.Eq.{nat_eq}
use pipefabric.Prelude.Int.{ℤ, pos, negsuc, ◌+ℤ◌}
use pipefabric.Stream.{Event, news, outs, fresh, stale, all_fresh, try_run}
use pipefabric.Window.{Window, row_window, rows}
use pipefabric.Window.Sliding
use pipefabric.Window.Sliding.Count.{IsRow}
use pipefabric.Aggr.Sums
use pipefabric.Aggr.Sums.Window as moving
use pipefabric.Aggr.Counters.{Comparator, same_key}
use pipefabric.Aggr.MinMax
use pipefabric.Aggr.Recent
use pipefabric.Aggr.Distinct
use pipefabric.Aggr.Operator
use pipefabric.Aggr.Operator.Count
use pipefabric.Aggr.MinMax.Least

abbrev two_ints : Window ℤ
two_ints = record {
  timestamp_extractor = none;
  win_type = row_window;
  win_size = rows 2;
  window_op = none;
  evict_interval = 0;
  tuple_buf = [];
  curr_size = 0;
}

two_ints-IsRow : IsRow 2 two_ints
two_ints-IsRow = record {
  by_rows = refl;
  sized = refl;
  no_thread = refl;
  counted = refl;
  bounded = omega arith;
  room = omega arith;
}

abbrev three_ints : List ℤ
three_ints = pos 4 ∷ negsuc 4 ∷ negsuc 2 ∷ []

three_ints-SumsAreInt : moving.SumsAreInt three_ints
unfolding moving.SumsAreInt Sums.total ◌+ℤ◌
three_ints-SumsAreInt = (omega arith, (omega arith, (omega arith, tt)))

-- The average of -2 and -4 is not -3.
negative_average : moving.average_of (negsuc 1 ∷ negsuc 3 ∷ []) ≡ some (pos 2147483645)
unfolding moving.average_of Sums.total ◌+ℤ◌
negative_average = refl

moving_average_example :
    (old last : List ℤ) × (w' : Window ℤ) × (out : List (Event ℤ)) × (try_run Sliding.handle
        two_ints
        (all_fresh three_ints)
      ≡ some (w', out))
    × (w'.tuple_buf ≡ last)
    × (old ++ last ≡ three_ints)
    × (length last ≡ min 2 (length three_ints))
    × (Sums.avg_value (Sums.avg_all Sums.avg_init out) ≡ moving.average_of last)
moving_average_example =
    moving.moving_average 2 two_ints three_ints two_ints-IsRow refl refl three_ints-SumsAreInt

ltb_irrefl : (a : ℕ) → ltb a a ≡ false
ltb_irrefl a = ground arith

ltb_trans : (a b c : ℕ) → ltb a b ≡ true → ltb b c ≡ true → ltb a c ≡ true
ltb_trans a b c p q = ground arith

ltb_total : (a b : ℕ) → ltb a b ≡ false → ltb b a ≡ false → a ≡ b
ltb_total a b p q = ground arith

-- std::less on numbers
abbrev by_less : Comparator ℕ
by_less = record {
  less = ltb;
  less_irrefl = ltb_irrefl;
  less_trans = ltb_trans;
  less_total = ltb_total;
}

abbrev four_five : List (Event ℕ)
four_five = fresh 4 ∷ fresh 5 ∷ stale 4 ∷ []

four_five-IsCovered : Least.IsCovered by_less four_five
four_five-IsCovered zero k = ground arith
four_five-IsCovered (suc zero) k = ground arith
four_five-IsCovered (suc (suc zero)) k = ground arith
four_five-IsCovered (suc (suc (suc zero))) k = ground arith
four_five-IsCovered (suc (suc (suc (suc n)))) k = ground arith

minmax_value-least_example :
    (x : ℕ) × (MinMax.minmax_value by_less (MinMax.minmax_all by_less [] four_five) ≡ some x)
    × (count_if (same_key by_less x) (outs four_five)
        < count_if (same_key by_less x) (news four_five))
    × (ltb 5 x ≡ false)
minmax_value-least_example =
    Least.minmax_value-least by_less four_five four_five-IsCovered (λ k. ground arith) 5
      (omega arith)

-- An AggrCount that is published for every second tuple.
abbrev every_second : Operator.Aggregation ℕ
every_second = Operator.construct 0 Operator.trigger_by_count 2

every_second-IsCounting :
    Count.IsCounting {A = ℕ} {B = ℕ}
      (λ x s outdated. Sums.count_iterate s outdated)
      (λ s. s)
      none
      2
      every_second
unfolding Operator.construct
every_second-IsCounting = record {
  by_count = refl;
  each = refl;
  before = omega arith;
  small = omega arith;
}

count_run_example :
    Count.Counts {A = ℕ} {B = ℕ}
      (λ x s outdated. Sums.count_iterate s outdated)
      (λ s. s)
      none
      2
      every_second
      (5 ∷ 6 ∷ 7 ∷ [])
      (try_run
        (Operator.handle {A = ℕ} {B = ℕ}
          (λ x s outdated. Sums.count_iterate s outdated)
          (λ s. s)
          none)
        every_second
        (all_fresh (5 ∷ 6 ∷ 7 ∷ [])))
count_run_example =
    Count.count_run {A = ℕ} {B = ℕ} (λ x s outdated. Sums.count_iterate s outdated) (λ s. s) none 2
      every_second (5 ∷ 6 ∷ 7 ∷ []) every_second-IsCounting

four_five-IsBalanced : Recent.IsBalanced [] four_five
four_five-IsBalanced zero = omega arith
four_five-IsBalanced (suc zero) = omega arith
four_five-IsBalanced (suc (suc zero)) = omega arith
four_five-IsBalanced (suc (suc (suc zero))) = omega arith
four_five-IsBalanced (suc (suc (suc (suc n)))) = omega arith

l_recent_all-value_example :
    (m : List ℕ) × (Recent.l_recent_all [] four_five ≡ some m)
    × (Recent.l_recent_value m ≡ get_elem? (4 ∷ 5 ∷ []) 1)
l_recent_all-value_example = Recent.l_recent_all-value four_five four_five-IsBalanced

abbrev changing : List (ℕ × Bool)
changing = (4, false) ∷ (7, false) ∷ (4, false) ∷ (7, true) ∷ (9, false) ∷ (4, true) ∷ []

dcount_value-Lists_example :
    (m : List (ℕ × ℕ)) × (Distinct.dcount_all changing [] ≡ some m)
    × ((vs : List ℕ)
        → Distinct.Lists (Distinct.counts (λ x. 0) changing) vs
        → Distinct.dcount_value m ≡ length vs)
dcount_value-Lists_example =
    Distinct.dcount_value-Lists changing (omega arith, (omega arith, tt)) (omega arith)

distinct_left : Distinct.dcount_all changing [] ≡ some ((4, 1) ∷ (9, 1) ∷ [])
unfolding Distinct.dcount_all Distinct.dcount_iterate
distinct_left = refl
