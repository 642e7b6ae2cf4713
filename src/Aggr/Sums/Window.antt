-- ===== src/Aggr/Sums/Window.antt =====
-- qop/SlidingWindow.hpp in front of AggrSum, AggrCount and AggrAvg.
use Prim.Native.Nat.{min}
use native.Mathlib.Nat.{mul-div-le, div-le_self, div-one}
use pipefabric.Prelude.{
  ℕ, ◌+◌, ◌-◌, ◌*◌, ◌/◌, ◌^◌, ◌≤◌, ◌<◌, subst, ◌≡◌, refl, ap, sym, ◌∙◌, Option, none, some, List,
  [], ◌∷◌, ◌++◌, arith, if◌then◌else◌, u32_mod, length, ◌==◌, ltb, lt→ltb, ==_iff, zero, suc,
  Bool-cases, inl, inr, true, false, length-append, ◌%◌,
}
use pipefabric.Prelude.Int.{ℤ, pos, negsuc, ◌+ℤ◌, ◌-ℤ◌, int_laws}
use pipefabric.Stream.{Event, news, outs, all_fresh, try_run}
use pipefabric.Window.{Window}
use pipefabric.Window.Sliding.{handle}
use pipefabric.Window.Sliding.Count.{IsRow, row_window_run}
use pipefabric.Aggr.Sums.{
  avg_init, avg_value, avg_all, to_int, to_unsigned, total, sum_all, count_all, sum_all-total,
  count_all-length, avg_all-parts, avg_all-count,
}

total-append : (xs ys : List ℤ) → total (xs ++ ys) ≡ total xs +ℤ total ys
unfolding total
total-append [] ys = omega int_laws
total-append (x ∷ xs) ys = ap (◌+ℤ◌ x) (total-append xs ys) ∙ omega int_laws

-- The sum and the count over a stream whose new tuples are those outdated and a rest.
sum_rest :
    (es : List (Event ℤ)) (rest : List ℤ)
    → outs es ++ rest ≡ news es
    → sum_all (pos 0) es ≡ total rest
sum_rest es rest e =
    sum_all-total (pos 0) es
    ∙ ap (λ l. pos 0 +ℤ total l -ℤ total (outs es)) (sym e)
    ∙ ap (λ z. pos 0 +ℤ z -ℤ total (outs es)) (total-append (outs es) rest)
    ∙ omega int_laws

count_rest :
    (es : List (Event ℤ)) (rest : List ℤ)
    → outs es ++ rest ≡ news es
    → length rest < u32_mod
    → count_all 0 es ≡ length rest
count_rest es rest e h =
    omega (arith, count_all-length 0 es (omega arith), ap length e, length-append (outs es) rest)

-- A value of type int.
abbrev pub IsInt : ℤ → Type 0
IsInt (pos a) = a < 2 ^ 31
IsInt (negsuc a) = a < 2 ^ 31

-- The sum of the last values is an int, for any number of them.
unfoldable pub SumsAreInt : List ℤ → Type 0
unfolding total
SumsAreInt [] = Unit
SumsAreInt (x ∷ xs) = IsInt (total (x ∷ xs)) × SumsAreInt xs

-- What AggrAvg gives for a sum and a number of values: a sum below zero is divided as the sum of it
-- and 2^32, and is itself again where it is the sum of one value.
abbrev pub quotient : ℤ → ℕ → ℤ
quotient (pos a) n = pos (a / n)
quotient (negsuc a) n = if n == 1 then negsuc a else pos ((u32_mod - 1 - a) / n)

unfoldable pub average_of : List ℤ → Option ℤ
unfolding total
average_of xs = if length xs == 0 then none else some (quotient (total xs) (length xs))

last_IsInt :
    (old : List ℤ) (x : ℤ) (last : List ℤ) → SumsAreInt (old ++ x ∷ last) → IsInt (total (x ∷ last))
unfolding SumsAreInt
last_IsInt [] x last h = h.0
last_IsInt (y ∷ old) x last h = last_IsInt old x last h.1

half_below : (m n : ℕ) → m < u32_mod → 2 ≤ n → m / n < 2 ^ 31
half_below m zero h two = absurd (omega arith)
half_below m (suc zero) h two = absurd (omega arith)
half_below m (suc (suc k)) h two =
    let q = m / suc (suc k) in
    let below : suc (suc k) * q ≤ m = mul-div-le m (suc (suc k)) in
    let parts : suc (suc k) * q ≡ 2 * q + k * q = omega arith in omega arith

one_value :
    (a n : ℕ)
    → IsInt (negsuc a)
    → n ≡ 1
    → to_int (to_unsigned (negsuc a) / n) ≡ quotient (negsuc a) n
unfolding to_int to_unsigned
one_value a n h e =
    subst (λ k. to_int (to_unsigned (negsuc a) / k) ≡ quotient (negsuc a) k) (sym e)
      (let same : (u32_mod - 1 - a % u32_mod) / 1 ≡ u32_mod - 1 - a =
          div-one (u32_mod - 1 - a % u32_mod) ∙ omega arith in
        let back : u32_mod - 1 - (u32_mod - 1 - a) ≡ a = omega arith in
        let big : ltb (u32_mod - 1 - a) (2 ^ 31) ≡ false = ground arith in
        rw (same, big, back) refl)

quotient_lem : (z : ℤ) (n : ℕ) → IsInt z → 0 < n → to_int (to_unsigned z / n) ≡ quotient z n
unfolding to_int to_unsigned
quotient_lem (pos a) n h p =
    let same : a % u32_mod ≡ a = omega arith in
    let small : ltb (a / n) (2 ^ 31) ≡ true =
      lt→ltb (a / n) (2 ^ 31) (omega (arith, div-le_self a n)) in
    rw (same, small) refl
quotient_lem (negsuc a) n h p = elim (Bool-cases (n == 1)) [
  | inl one ↦ one_value a n h ((==_iff n 1).0 one)
  | inr more ↦
      let same : a % u32_mod ≡ a = omega arith in
      let small : ltb ((u32_mod - 1 - a) / n) (2 ^ 31) ≡ true =
        lt→ltb ((u32_mod - 1 - a) / n) (2 ^ 31)
          (half_below (u32_mod - 1 - a) n (omega arith) (ground arith)) in
      rw (same, small, more) refl
]

avg_rest :
    (es : List (Event ℤ)) (old rest : List ℤ)
    → outs es ++ rest ≡ news es
    → length rest < u32_mod
    → SumsAreInt (old ++ rest)
    → avg_value (avg_all avg_init es) ≡ average_of rest
unfolding avg_value average_of avg_init
avg_rest es old rest e h fit =
    rw
      (
        avg_all-parts avg_init es,
        avg_all-count avg_init es,
        sum_rest es rest e,
        count_rest es rest e h,
      )
      (quotients rest fit)
  where
    quotients :
        (xs : List ℤ)
        → SumsAreInt (old ++ xs)
        → (if length xs == 0 then none else some (to_int (to_unsigned (total xs) / length xs)))
          ≡ (if length xs == 0 then none else some (quotient (total xs) (length xs)))
    quotients [] f = refl
    quotients (x ∷ xs) f =
        ap (λ q. if length (x ∷ xs) == 0 then none else some q)
          (quotient_lem (total (x ∷ xs)) (length (x ∷ xs)) (last_IsInt old x xs f) (omega arith))

-- The moving average of integers: behind an empty row window of `n` tuples without a window
-- function, for new tuples of which any number of the last ones has a sum of type int, an AggrAvg
-- with results of type int gives, for the tuples in the window's buffer, which is empty or holds the
-- last `n` of them, or all if there were fewer: nothing for no tuples (a division by zero), their
-- average, rounded down, for a sum that is not negative, and for a negative one their sum if it is
-- one tuple, and else the quotient of the sum of it and 2^32.
pub moving_average :
    (n : ℕ) (w : Window ℤ) (xs : List ℤ)
    → IsRow n w
    → w.window_op ≡ none
    → w.tuple_buf ≡ []
    → SumsAreInt xs
    → (old last : List ℤ) × (w' : Window ℤ) × (out : List (Event ℤ)) × (try_run handle w
          (all_fresh xs)
        ≡ some (w', out))
      × (w'.tuple_buf ≡ last)
      × (old ++ last ≡ xs)
      × (length last ≡ min n (length xs))
      × (avg_value (avg_all avg_init out) ≡ average_of last)
moving_average n w xs v op empty fit =
    let (w', out, e, v', split, new, len) = row_window_run n w xs v op in
    let whole : outs out ++ w'.tuple_buf ≡ xs = split ∙ ap (λ l. l ++ xs) empty in
    (
      outs out,
      w'.tuple_buf,
      w',
      out,
      e,
      refl,
      whole,
      omega (arith, len, ap length empty),
      avg_rest out (outs out) w'.tuple_buf (whole ∙ sym new) (omega (arith, len, v.room))
          (subst SumsAreInt (sym whole) fit),
    )
