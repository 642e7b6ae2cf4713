-- ===== src/Aggr/Sums.antt =====
-- AggrSum.hpp, AggrAvg.hpp and AggrCount.hpp, for a column of integers. The sums do not overflow;
-- the counters, of type unsigned int, wrap.
pub mod Window
use pipefabric.Prelude.{
  ℕ, zero, suc, ◌+◌, ◌-◌, ◌*◌, ◌%◌, ◌/◌, ◌≤◌, ◌<◌, ◌≡◌, ◌≢◌, refl, ap, ◌∙◌, Bool, true, false,
  Option, none, some, List, [], ◌∷◌, ◌++◌, arith, if◌then◌else◌, inc32, dec32, u32_mod, length,
  ◌==◌, ltb, ◌^◌,
}
use pipefabric.Prelude.Int.{ℤ, pos, negsuc, pos_part, neg_part, ◌+ℤ◌, ◌-ℤ◌, int_laws}
use pipefabric.Stream.{Event, element, punctuation, news, outs}

-- AggrSum: mSum
unfoldable pub sum_iterate : ℤ → ℤ → Bool → ℤ
sum_iterate m_sum x outdated = if outdated then m_sum -ℤ x else m_sum +ℤ x

-- AggrCount: mCount
unfoldable pub count_iterate : ℕ → Bool → ℕ
count_iterate m_count outdated = if outdated then dec32 m_count else inc32 m_count

pub record Average : Type 0 where
  pub m_count : ℕ
  pub m_sum : ℤ

unfoldable pub avg_init : Average
avg_init = record { m_count = 0; m_sum = pos 0 }

unfoldable pub avg_iterate : Average → ℤ → Bool → Average
unfolding sum_iterate count_iterate
avg_iterate s x outdated = record {
  m_count = count_iterate s.m_count outdated;
  m_sum = sum_iterate s.m_sum x outdated;
}

-- The conversions of int to unsigned int, and back.
unfoldable pub to_unsigned : ℤ → ℕ
to_unsigned (pos a) = a % u32_mod
to_unsigned (negsuc a) = u32_mod - 1 - a % u32_mod

unfoldable pub to_int : ℕ → ℤ
to_int n = if ltb n (2 ^ 31) then pos n else negsuc (u32_mod - 1 - n)

-- mSum / mCount, where Tres is int: mCount is unsigned, so the sum is converted to unsigned int
-- before it is divided. The division by zero is undefined.
unfoldable pub avg_value : Average → Option ℤ
unfolding to_unsigned to_int
avg_value s = if s.m_count == 0 then none else some (to_int (to_unsigned s.m_sum / s.m_count))

-- The three functions over the events of a stream.
unfoldable pub sum_all : ℤ → List (Event ℤ) → ℤ
sum_all s [] = s
sum_all s (element x outdated ∷ es) = sum_all (sum_iterate s x outdated) es
sum_all s (punctuation p ∷ es) = sum_all s es

unfoldable pub count_all {ℓ} : {A : Type ℓ} → ℕ → List (Event A) → ℕ
count_all c [] = c
count_all c (element x outdated ∷ es) = count_all (count_iterate c outdated) es
count_all c (punctuation p ∷ es) = count_all c es

unfoldable pub avg_all : Average → List (Event ℤ) → Average
avg_all s [] = s
avg_all s (element x outdated ∷ es) = avg_all (avg_iterate s x outdated) es
avg_all s (punctuation p ∷ es) = avg_all s es

-- The sum of a list, as a specification.
unfoldable pub total : List ℤ → ℤ
total [] = pos 0
total (x ∷ xs) = x +ℤ total xs

-- From any sum on, the sum over a stream is that sum with the new values added, and those that
-- were outdated subtracted, in whatever order they came.
pub sum_all-total :
    (s : ℤ) (es : List (Event ℤ)) → sum_all s es ≡ s +ℤ total (news es) -ℤ total (outs es)
unfolding sum_all sum_iterate total
sum_all-total s [] = omega int_laws
sum_all-total s (element x true ∷ es) = sum_all-total (s -ℤ x) es ∙ omega int_laws
sum_all-total s (element x false ∷ es) = sum_all-total (s +ℤ x) es ∙ omega int_laws
sum_all-total s (punctuation p ∷ es) = sum_all-total s es

-- From a counter below 2^32 on, the counter over a stream is that counter with one more for each new tuple
-- and one less for each outdated one, modulo 2^32.
pub count_all-length {ℓ} :
    {A : Type ℓ} (c : ℕ) (es : List (Event A))
    → c < u32_mod
    → count_all c es ≡ (c + length (news es) + (u32_mod - 1) * length (outs es)) % u32_mod
unfolding count_all count_iterate
count_all-length c [] h = omega arith
count_all-length c (element x true ∷ es) h =
    omega (arith, count_all-length (dec32 c) es (omega arith))
count_all-length c (element x false ∷ es) h =
    omega (arith, count_all-length (inc32 c) es (omega arith))
count_all-length c (punctuation p ∷ es) h = count_all-length c es h

-- AggrAvg keeps the sum and the counter side by side.
pub avg_all-parts : (s : Average) (es : List (Event ℤ)) → (avg_all s es).m_sum ≡ sum_all s.m_sum es
unfolding avg_all avg_iterate sum_all
avg_all-parts s [] = refl
avg_all-parts s (element x outdated ∷ es) = avg_all-parts (avg_iterate s x outdated) es
avg_all-parts s (punctuation p ∷ es) = avg_all-parts s es

pub avg_all-count :
    (s : Average) (es : List (Event ℤ)) → (avg_all s es).m_count ≡ count_all s.m_count es
unfolding avg_all avg_iterate count_all
avg_all-count s [] = refl
avg_all-count s (element x outdated ∷ es) = avg_all-count (avg_iterate s x outdated) es
avg_all-count s (punctuation p ∷ es) = avg_all-count s es
