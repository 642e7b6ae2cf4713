-- ===== src/Tx/WriteSet.antt =====
-- table/MVCCTable.hpp: the write set of a transaction, and how transactionCommit sorts it and drops
-- all but one write to each key. Keys and values have the total orders of their operator<.
pub mod Least
pub mod Examples
use pipefabric.Prelude.{
  ◌≡◌, Bool, true, false, ◌&&◌, Option, none, some, List, [], ◌∷◌, ◌++◌, if◌then◌else◌,
}
use pipefabric.Aggr.Counters.{Comparator, same_key}

module _ {ℓ κ} {K : Type ℓ} {V : Type κ} where
  -- WriteSet::insert
  unfoldable pub insert_write : List (K × V) → K → V → List (K × V)
  insert_write set k r = set ++ (k, r) ∷ []

module _ {ℓ κ} {K : Type ℓ} {V : Type κ} (by_key : Comparator K) (by_value : Comparator V) where
  -- operator< of std::pair
  unfoldable pub pair_less : K × V → K × V → Bool
  pair_less (a, v) (b, w) =
      if by_key.less a b then true else same_key by_key a b && by_value.less v w

  -- std::sort
  unfoldable pub sort_insert : K × V → List (K × V) → List (K × V)
  sort_insert e [] = e ∷ []
  sort_insert e (x ∷ set) =
      let rest = x ∷ sort_insert e set in if pair_less e x then e ∷ x ∷ set else rest

  unfoldable pub sort : List (K × V) → List (K × V)
  unfolding sort_insert
  sort [] = []
  sort (e ∷ set) = sort_insert e (sort set)

  -- std::unique and erase: of neighbours with one key the first stays.
  unfoldable pub unique_behind : K → List (K × V) → List (K × V)
  unique_behind k [] = []
  unique_behind k ((a, v) ∷ set) =
      let same = unique_behind k set in
      let other = (a, v) ∷ unique_behind a set in if same_key by_key k a then same else other

  unfoldable pub unique : List (K × V) → List (K × V)
  unfolding unique_behind
  unique [] = []
  unique ((a, v) ∷ set) = (a, v) ∷ unique_behind a set

  -- The writes that transactionCommit applies.
  unfoldable pub committed_writes : List (K × V) → List (K × V)
  unfolding sort unique
  committed_writes set = unique (sort set)
