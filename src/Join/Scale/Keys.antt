-- ===== src/Join/Scale/Keys.antt =====
-- qop/ScaleJoin.hpp, updateHashTable: its parameter `key` is a key_t, not a KeyType.
use pipefabric.Prelude.{◌≡◌, ◌≢◌, false, arith}
use pipefabric.Prelude.Eq.{Eq}
use pipefabric.Join.Table.{equal_range, update_hash_table}
use pipefabric.Join.Reference.{Joining}
use pipefabric.Join.Scale.{ScaleJoin, store_left}

module _ {ℓ} {L R K Q : Type ℓ} ⦃key_eq : Eq K⦄ ⦃left_eq : Eq L⦄ ⦃right_eq : Eq R⦄ (narrow : K → K)
    (j : Joining L R K Q) where
  -- A new left tuple whose key changes on the way through key_t is lost: whatever the instance, the
  -- elements found under its key are those that were found before it was stored.
  pub wide_key_lost :
      (s : ScaleJoin L R K) (l : L)
      → narrow (j.left_key l) ≢ j.left_key l
      → equal_range (j.left_key l) (store_left narrow j s l false).l_table
        ≡ equal_range (j.left_key l) s.l_table
  unfolding store_left update_hash_table equal_range
  wide_key_lost s l wide =
      ground (arith, key_eq.beq_iff (narrow (j.left_key l)) (j.left_key l), wide)
