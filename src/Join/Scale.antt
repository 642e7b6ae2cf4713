-- ===== src/Join/Scale.antt =====
-- qop/ScaleJoin.hpp: the hash join for several threads. Every instance is handed every tuple, and
-- stores those whose turn is its own. The counters are shorts, which do not overflow for up to
-- 32767 threads. updateHashTable takes its key as key_t, an int of the C library, and not as
-- KeyType: `narrow` is the conversion to key_t and back, a parameter.
pub mod Fleet
pub mod Whole
pub mod Lanes
pub mod Prompt
pub mod Keys
use pipefabric.Prelude.{ℕ, ◌+◌, ◌%◌, Bool, true, false, List, [], ◌∷◌, ◌++◌, ◌==◌, if◌then◌else◌}
use pipefabric.Prelude.Eq.{Eq}
use pipefabric.Stream.{Event, punctuation}
use pipefabric.Join.Table.{equal_range, update_hash_table}
use pipefabric.Join.Reference.{Joining}
use pipefabric.Join.Symmetric.{Input, left, right, mark, join_left, join_right}

pub record ScaleJoin {ℓ} (L R K : Type ℓ) : Type ℓ where
  pub l_table : List (K × L)
  pub r_table : List (K × R)
  pub id : ℕ
  pub thread_num : ℕ
  pub l_cntr : ℕ
  pub r_cntr : ℕ
  pub lo_cntr : ℕ
  pub ro_cntr : ℕ

-- cntr++; cntr %= threadnum;
abbrev pub next_turn : ℕ → ℕ → ℕ
next_turn cntr thread_num = (cntr + 1) % thread_num

module _ {ℓ} {L R K Q : Type ℓ} ⦃key_eq : Eq K⦄ ⦃left_eq : Eq L⦄ ⦃right_eq : Eq R⦄ (narrow : K → K)
    (j : Joining L R K Q) where
  -- The part of processLeftDataElement before the probe.
  unfoldable pub store_left : ScaleJoin L R K → L → Bool → ScaleJoin L R K
  store_left s l true =
      let table = update_hash_table s.l_table (narrow (j.left_key l)) l true in
      record s {
        l_table = if s.lo_cntr == s.id then table else s.l_table;
        lo_cntr = next_turn s.lo_cntr s.thread_num;
      }
  store_left s l false =
      let table = update_hash_table s.l_table (narrow (j.left_key l)) l false in
      record s {
        l_table = if s.l_cntr == s.id then table else s.l_table;
        l_cntr = next_turn s.l_cntr s.thread_num;
      }

  unfoldable pub store_right : ScaleJoin L R K → R → Bool → ScaleJoin L R K
  store_right s r true =
      let table = update_hash_table s.r_table (narrow (j.right_key r)) r true in
      record s {
        r_table = if s.ro_cntr == s.id then table else s.r_table;
        ro_cntr = next_turn s.ro_cntr s.thread_num;
      }
  store_right s r false =
      let table = update_hash_table s.r_table (narrow (j.right_key r)) r false in
      record s {
        r_table = if s.r_cntr == s.id then table else s.r_table;
        r_cntr = next_turn s.r_cntr s.thread_num;
      }

  unfoldable pub process_left : ScaleJoin L R K → L → Bool → ScaleJoin L R K × List (Event Q)
  process_left s l outdated =
      (store_left s l outdated, join_left j l (equal_range (j.left_key l) s.r_table) outdated)

  unfoldable pub process_right : ScaleJoin L R K → R → Bool → ScaleJoin L R K × List (Event Q)
  process_right s r outdated =
      (store_right s r outdated, join_right j (equal_range (j.right_key r) s.l_table) r outdated)

  unfoldable pub handle : ScaleJoin L R K → Input L R → ScaleJoin L R K × List (Event Q)
  handle s (left l outdated) = process_left s l outdated
  handle s (right r outdated) = process_right s r outdated
  handle s (mark p) = (s, punctuation p ∷ [])

  -- All instances handle one input; what they publish is merged.
  unfoldable pub handle_all :
      List (ScaleJoin L R K) → Input L R → List (ScaleJoin L R K) × List (Event Q)
  handle_all [] i = ([], [])
  handle_all (s ∷ ss) i =
      let (s', out) = handle s i in let (ss', rest) = handle_all ss i in (s' ∷ ss', out ++ rest)

-- The constructor.
unfoldable pub construct {ℓ} : {L R K : Type ℓ} → ℕ → ℕ → ScaleJoin L R K
construct id thread_num = record {
  l_table = [];
  r_table = [];
  id = id;
  thread_num = thread_num;
  l_cntr = 0;
  r_cntr = 0;
  lo_cntr = 0;
  ro_cntr = 0;
}
