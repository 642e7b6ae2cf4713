-- ===== src/Aggr/MinMax.antt =====
-- AggrMinMax.hpp: the least value under the comparator, of counted values.
pub mod Step
pub mod Least
use pipefabric.Prelude.{
  ℕ, zero, suc, ◌+◌, ◌-◌, ◌≤◌, ◌<◌, ◌≡◌, ◌≢◌, refl, sym, ap, Bool, true, false, Option, none, some,
  List, [], ◌∷◌, ◌++◌, arith, if◌then◌else◌, ◌==◌, All, Bool-cases, inl, inr, Option-cases, inc32,
  dec32, u32_mod, count_if,
}
use pipefabric.Stream.{Event, element, punctuation, news, outs}
use pipefabric.Aggr.Counters.{
  Comparator, same_key, same_key_iff, find, assign, erase, insert, IsOrdered, count_of,
  assign-IsOrdered, erase-IsOrdered, insert-IsOrdered, All-assign, All-erase, All-insert,
}
use pipefabric.Aggr.Counters.Counts.{
  count_of-find, count_of-unfound, count_of-assign, count_of-erase, count_of-insert, same_key_comm,
  same_key_swap, first_least,
}

module _ {ℓ} {A : Type ℓ} (cmp : Comparator A) where
  -- it->second is an unsigned int and never negative: the test <= 0 is a test for zero.
  unfoldable pub renew : A → Bool → Option ℕ → List (A × ℕ) → List (A × ℕ)
  renew x outdated (some count) m =
      let count' = if outdated then dec32 count else inc32 count in
      if count' == 0 then erase cmp x m else assign cmp x count' m
  renew x outdated none m = insert cmp x 1 m

  unfoldable pub minmax_iterate : List (A × ℕ) → A → Bool → List (A × ℕ)
  unfolding renew
  minmax_iterate m x outdated = renew x outdated (find cmp x m) m

  -- `none` is the failed assertion.
  unfoldable pub minmax_value : List (A × ℕ) → Option A
  minmax_value [] = none
  minmax_value ((k, c) ∷ m) = some k

  unfoldable pub minmax_all : List (A × ℕ) → List (Event A) → List (A × ℕ)
  minmax_all m [] = m
  minmax_all m (element x outdated ∷ es) = minmax_all (minmax_iterate m x outdated) es
  minmax_all m (punctuation p ∷ es) = minmax_all m es
