-- ===== src/Join/Symmetric.antt =====
-- qop/SHJoin.hpp. The mutex makes each handler atomic.
pub mod Maintains
use pipefabric.Prelude.{◌≡◌, Bool, true, false, List, [], ◌∷◌, ◌++◌, if◌then◌else◌}
use pipefabric.Prelude.Eq.{Eq}
use pipefabric.Stream.{Event, element, punctuation, Punctuation}
use pipefabric.Join.Table.{equal_range, update_hash_table}
use pipefabric.Join.Reference.{Joining}

-- What arrives on the three input channels.
pub data Input {ℓ} (L R : Type ℓ) : Type ℓ where
  left : L → Bool → Input L R
  right : R → Bool → Input L R
  mark : Punctuation → Input L R

pub record HashJoin {ℓ} (L R K : Type ℓ) : Type ℓ where
  pub l_table : List (K × L)
  pub r_table : List (K × R)

module _ {ℓ} {L R K Q : Type ℓ} (j : Joining L R K Q) where
  -- joinTuples, for the elements of one equal_range
  unfoldable pub join_left : L → List R → Bool → List (Event Q)
  join_left l [] outdated = []
  join_left l (r ∷ rs) outdated =
      let rest = join_left l rs outdated in
      if j.predicate l r then element (j.join_elements l r) outdated ∷ rest else rest

  unfoldable pub join_right : List L → R → Bool → List (Event Q)
  join_right [] r outdated = []
  join_right (l ∷ ls) r outdated =
      let rest = join_right ls r outdated in
      if j.predicate l r then element (j.join_elements l r) outdated ∷ rest else rest

module _ {ℓ} {L R K Q : Type ℓ} ⦃key_eq : Eq K⦄ ⦃left_eq : Eq L⦄ ⦃right_eq : Eq R⦄
    (j : Joining L R K Q) where
  unfoldable pub process_left : HashJoin L R K → L → Bool → HashJoin L R K × List (Event Q)
  process_left s l outdated =
      let key = j.left_key l in
      (
        record s { l_table = update_hash_table s.l_table key l outdated },
        join_left j l (equal_range key s.r_table) outdated,
      )

  unfoldable pub process_right : HashJoin L R K → R → Bool → HashJoin L R K × List (Event Q)
  process_right s r outdated =
      let key = j.right_key r in
      (
        record s { r_table = update_hash_table s.r_table key r outdated },
        join_right j (equal_range key s.l_table) r outdated,
      )

  unfoldable pub handle : HashJoin L R K → Input L R → HashJoin L R K × List (Event Q)
  handle s (left l outdated) = process_left s l outdated
  handle s (right r outdated) = process_right s r outdated
  handle s (mark p) = (s, punctuation p ∷ [])
