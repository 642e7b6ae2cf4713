-- ===== src/Aggr/Median/Faults.antt =====
-- AggrMedian where it leaves its map.
use pipefabric.Prelude.{
  ℕ, ◌≡◌, refl, true, false, Option, none, some, List, [], ◌∷◌, Bool-cases, inl, inr,
}
use pipefabric.Stream.{Event, fresh, stale}
use pipefabric.Aggr.Counters.{Comparator, same_key, find, insert, assign}
use pipefabric.Aggr.Median.{
  Median, init, next_of, move_back, previous_of, decrement_map, increment_map, read_key,
  step_before_removal, step_after_insertion, put_in, take_found, median_iterate, median_value,
}
use pipefabric.Aggr.Median.Run.{median_all}

module _ {ℓ} {A : Type ℓ} (cmp : Comparator A) where
  -- The states behind one, two and three insertions of an element.
  counted : ℕ → Option A → A → Median A
  counted n it x = record { total = n; map_element = (x, n) ∷ []; map_it = it; elem_before = 0 }

  first_time : (x : A) → median_iterate cmp init x false ≡ some (counted 1 (some x) x)
  unfolding median_iterate put_in init counted find insert
  first_time x = refl

  second_time :
      (x : A) → median_iterate cmp (counted 1 (some x) x) x false ≡ some (counted 2 (some x) x)
  unfolding median_iterate put_in counted find assign step_after_insertion read_key
  second_time x = simp (cmp.less_irrefl x) refl

  third_time : (x : A) → median_iterate cmp (counted 2 (some x) x) x false ≡ some (counted 3 none x)
  unfolding median_iterate put_in counted find assign step_after_insertion read_key increment_map
      next_of
  third_time x = simp (cmp.less_irrefl x) refl

  fourth_time : (x y : A) → median_iterate cmp (counted 3 none x) y false ≡ none
  unfolding median_iterate put_in counted find step_after_insertion read_key
  fourth_time x y = elim (Bool-cases (same_key cmp y x)) [
    | inl hit ↦ rw hit refl
    | inr miss ↦ rw miss refl
  ]

  module _ {κ} {R : Type κ} (no_value : R) (converted quotient : A → R) (half_sum : A → A → R) where
    -- An element that is put in three times moves the iterator to the end of the map; then value()
    -- faults, and so does the next insertion, whatever it is.
    pub equal_elements_fault :
        (x y : A) (es : List (Event A))
        → (s : Median A) × (median_all cmp init (fresh x ∷ fresh x ∷ fresh x ∷ []) ≡ some s)
          × (median_value cmp no_value converted quotient half_sum s ≡ none)
          × (median_all cmp s (fresh y ∷ es) ≡ none)
    unfolding median_all median_value counted
    equal_elements_fault x y es = (
      counted 3 none x,
      rw (first_time x, second_time x, third_time x) refl,
      refl,
      rw (fourth_time x y) refl,
    )

  out_of_map : (x : A) → median_iterate cmp (counted 1 (some x) x) x true ≡ none
  unfolding median_iterate take_found counted find step_before_removal read_key decrement_map
      move_back previous_of
  out_of_map x = simp (cmp.less_irrefl x) refl

  -- To take the only element out moves the iterator in front of the map.
  only_element_faults :
      (x : A) (es : List (Event A)) → median_all cmp init (fresh x ∷ stale x ∷ es) ≡ none
  unfolding median_all
  only_element_faults x es = rw (first_time x, out_of_map x) refl
