-- ===== src/Aggr/Median.antt =====
-- qop/aggr_functions/AggrMedian.hpp: counters for the elements in the order of the comparator, and
-- an iterator that is kept at the median. The iterator is the key that it points to, or `none` for
-- end(). A fault (`none`) is an iterator that is moved out of the map, or read where it points to no
-- entry.
pub mod Places
pub mod Middle
pub mod Run
pub mod Faults
pub mod Tests
use pipefabric.Prelude.{
  ℕ, zero, suc, ◌+◌, ◌-◌, ◌%◌, ◌≡◌, Bool, true, false, not, ◌&&◌, Option, none, some, List, [], ◌∷◌,
  leb, ◌==◌, if◌then◌else◌, ◌>>=◌, inc32,
}
use pipefabric.Aggr.Counters.{Comparator, same_key, find, assign, erase, insert}

pub record Median {ℓ} (A : Type ℓ) : Type ℓ where
  pub total : ℕ
  pub map_element : List (A × ℕ)
  pub map_it : Option A
  pub elem_before : ℕ

unfoldable pub init {ℓ} : {A : Type ℓ} → Median A
init = record { total = 0; map_element = []; map_it = none; elem_before = 0 }

abbrev pub is_even : ℕ → Bool
is_even n = n % 2 == 0

abbrev pub begin {ℓ} : {A : Type ℓ} → List (A × ℕ) → Option A
begin [] = none
begin ((k, c) ∷ m) = some k

module _ {ℓ} {A : Type ℓ} (cmp : Comparator A) where
  -- ++it
  unfoldable pub next_of : A → List (A × ℕ) → Option (Option A)
  next_of a [] = none
  next_of a ((k, c) ∷ m) = if same_key cmp a k then some (begin m) else next_of a m

  -- --it, where `before` is the entry in front of the list
  unfoldable pub previous_of : Option A → A → List (A × ℕ) → Option A
  previous_of before a [] = none
  previous_of before a ((k, c) ∷ m) = if same_key cmp a k then before else previous_of (some k) a m

  abbrev pub last_key : Option A → List (A × ℕ) → Option A
  last_key before [] = before
  last_key before ((k, c) ∷ m) = last_key (some k) m

  unfoldable pub move_back : Option A → List (A × ℕ) → Option A
  unfolding previous_of
  move_back none m = last_key none m
  move_back (some a) m = previous_of none a m

  unfoldable pub decrement_map : Median A → Option (Median A)
  decrement_map s = do
    a ← move_back s.map_it s.map_element
    if leb s.elem_before 0
        then (do
          c ← find cmp a s.map_element
          some (record s { map_it = some a; elem_before = c - 1 }))
        else some (record s { map_it = some a })

  unfoldable pub increment_map : Median A → Option (Median A)
  increment_map s = do
    a ← s.map_it
    c ← find cmp a s.map_element
    it ← next_of a s.map_element
    some (record s {
      map_it = it;
      elem_before = if leb c (s.elem_before + 1) then 0 else s.elem_before;
    })

  -- mapIt->first
  unfoldable pub read_key : Median A → Option A
  read_key s = do a ← s.map_it; there ← find cmp a s.map_element; some a

  -- The iterator before an element is taken out, which is counted `c` times.
  unfoldable pub step_before_removal : A → ℕ → Median A → Option (Median A)
  step_before_removal x c s = do
    a ← read_key s
    if same_key cmp x a
        then (if not (is_even s.total)
            then decrement_map s
            else if leb c (s.elem_before + 1)
            then increment_map s
            else some s)
        else (if not (is_even s.total) && not (cmp.less x a)
            then decrement_map s
            else if is_even s.total && cmp.less x a
            then increment_map s
            else some s)

  -- The map without one of the elements.
  unfoldable pub take_out : A → ℕ → Median A → Median A
  take_out x c s =
      if c == 1
      then (if s.total == 1
          then record s {
            map_element = erase cmp x s.map_element;
            total = 0;
            map_it = none;
            elem_before = 0;
          }
          else record s { map_element = erase cmp x s.map_element; total = s.total - 1 })
      else record s { map_element = assign cmp x (c - 1) s.map_element; total = s.total - 1 }

  -- The iterator after an element was put in.
  unfoldable pub step_after_insertion : A → Median A → Option (Median A)
  step_after_insertion x s = do
    a ← read_key s
    if is_even s.total && cmp.less x a
        then decrement_map s
        else if not (is_even s.total) && not (cmp.less x a)
        then increment_map s
        else some s

  unfoldable pub put_in : A → Median A → Option ℕ → Option (Median A)
  put_in x s (some c) =
      step_after_insertion x
        (record s { map_element = assign cmp x (inc32 c) s.map_element; total = s.total + 1 })
  put_in x s none =
      if s.total == 0
      then some (record s {
        map_element = insert cmp x 1 s.map_element;
        total = 1;
        map_it = begin (insert cmp x 1 s.map_element);
        elem_before = 0;
      })
      else step_after_insertion x
          (record s { map_element = insert cmp x 1 s.map_element; total = s.total + 1 })

  unfoldable pub take_found : A → Median A → Option ℕ → Option (Median A)
  take_found x s none = some s
  take_found x s (some c) = do s' ← step_before_removal x c s; some (take_out x c s')

  unfoldable pub median_iterate : Median A → A → Bool → Option (Median A)
  median_iterate s x true = take_found x s (find cmp x s.map_element)
  median_iterate s x false = put_in x s (find cmp x s.map_element)

  module _ {κ} {R : Type κ} (no_value : R) (converted quotient : A → R) (half_sum : A → A → R) where
    -- `none` is the end of the map.
    unfoldable pub median_value : Median A → Option R
    unfolding next_of
    median_value s =
        if s.total == 0
        then some no_value
        else if is_even s.total
        then (do
          a ← s.map_it
          c ← find cmp a s.map_element
          if leb c (s.elem_before + 1)
              then (do it ← next_of a s.map_element; b ← it; some (half_sum a b))
              else some (converted a))
        else (do a ← s.map_it; c ← find cmp a s.map_element; some (quotient a))
