-- ===== src/Tx/WriteSet/Examples.antt =====
-- A write set at concrete writes.
use pipefabric.Prelude.{ℕ, ◌≡◌, true, false, List, [], ltb, arith}
use pipefabric.Aggr.Counters.{Comparator}
use pipefabric.Tx.WriteSet.{insert_write, committed_writes}
use pipefabric.Tx.WriteSet.Least.{IsAscending, value_of, least_written, committed_writes-least}

pub ltb_irreflexive : (a : ℕ) → ltb a a ≡ false
ltb_irreflexive a = ground arith

pub ltb_transitive : (a b c : ℕ) → ltb a b ≡ true → ltb b c ≡ true → ltb a c ≡ true
ltb_transitive a b c p q = ground arith

pub ltb_connex : (a b : ℕ) → ltb a b ≡ false → ltb b a ≡ false → a ≡ b
ltb_connex a b p q = ground arith

-- operator< on numbers
abbrev pub number_order : Comparator ℕ
number_order = record {
  less = ltb;
  less_irrefl = ltb_irreflexive;
  less_trans = ltb_transitive;
  less_total = ltb_connex;
}

-- The key 1 is written with 9, and then with 4 and 6.
abbrev three_writes : List (ℕ × ℕ)
three_writes = insert_write (insert_write (insert_write [] 1 9) 1 4) 1 6

committed_writes-least_example :
    IsAscending number_order number_order (committed_writes number_order number_order three_writes)
    × ((k : ℕ)
        → value_of number_order number_order k
            (committed_writes number_order number_order three_writes)
          ≡ least_written number_order number_order k three_writes)
committed_writes-least_example = committed_writes-least number_order number_order three_writes
