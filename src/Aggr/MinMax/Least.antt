-- ===== src/Aggr/MinMax/Least.antt =====
-- AggrMinMax: what value() returns after a run.
use pipefabric.Prelude.{
  ℕ, suc, ◌+◌, ◌≤◌, ◌<◌, ◌≡◌, refl, ap, Bool, true, false, some, List, [], ◌∷◌, arith, Bool-cases,
  inl, inr, u32_mod, count_if, take,
}
use pipefabric.Stream.{Event, element, punctuation, news, outs}
use pipefabric.Aggr.Counters.{Comparator, same_key, same_key_iff, IsOrdered, count_of}
use pipefabric.Aggr.Counters.Counts.{first_least}
use pipefabric.Aggr.MinMax.{minmax_iterate, minmax_value, minmax_all}
use pipefabric.Aggr.MinMax.Step.{
  IsPositive, minmax_iterate-IsOrdered, minmax_iterate-IsPositive, minmax_iterate-count_of,
}

module _ {ℓ} {A : Type ℓ} (cmp : Comparator A) where
  -- In each prefix of the events a key is removed at most as often as it was added.
  abbrev pub IsCovered : List (Event A) → Type ℓ
  IsCovered es =
      (n : ℕ) (k : A)
      → count_if (same_key cmp k) (outs (take n es)) ≤ count_if (same_key cmp k) (news (take n es))

  -- The same, for a map that holds what earlier events left.
  Continues : List (A × ℕ) → List (Event A) → Type ℓ
  Continues m es =
      (n : ℕ) (k : A)
      → count_if (same_key cmp k) (outs (take n es))
        ≤ count_of cmp k m + count_if (same_key cmp k) (news (take n es))

  same_key_refl : (x : A) → same_key cmp x x ≡ true
  same_key_refl x = (same_key_iff cmp x x).1 refl

  IsSmall : List (A × ℕ) → List (Event A) → Type ℓ
  IsSmall m es = (k : A) → count_of cmp k m + count_if (same_key cmp k) (news es) < u32_mod

  -- The counts after one more event of such a run.
  next-count_of :
      (m : List (A × ℕ)) (x : A) (b : Bool) (es : List (Event A))
      → IsOrdered cmp m
      → IsSmall m (element x b ∷ es)
      → Continues m (element x b ∷ es)
      → (k : A)
      → count_of cmp k (minmax_iterate cmp m x b)
          + count_if (same_key cmp k) (outs (element x b ∷ []))
        ≡ count_of cmp k m + count_if (same_key cmp k) (news (element x b ∷ []))
  unfolding Continues IsSmall
  next-count_of m x true es o small con k =
      let one : 1 ≤ count_of cmp x m = ground (arith, con 1 x, same_key_refl x) in
      let now = minmax_iterate-count_of cmp m x k true o (ground (arith, small x)) (λ _. one) in
      elim (Bool-cases (same_key cmp k x)) [
        | inl hit ↦
            let same : count_of cmp k m ≡ count_of cmp x m =
              ap (λ y. count_of cmp y m) ((same_key_iff cmp k x).0 hit) in
            ground (arith, now, hit)
        | inr miss ↦ ground (arith, now, miss)
      ]
  next-count_of m x false es o small con k =
      let now =
        minmax_iterate-count_of cmp m x k false o (ground (arith, small x, same_key_refl x))
          (λ h. absurd (cc h)) in
      elim (Bool-cases (same_key cmp k x)) [
        | inl hit ↦
            let same : count_of cmp k m ≡ count_of cmp x m =
              ap (λ y. count_of cmp y m) ((same_key_iff cmp k x).0 hit) in
            ground (arith, now, hit)
        | inr miss ↦ ground (arith, now, miss)
      ]

  count_if-outs :
      (p : A → Bool) (x : A) (b : Bool) (es : List (Event A))
      → count_if p (outs (element x b ∷ es))
        ≡ count_if p (outs (element x b ∷ [])) + count_if p (outs es)
  count_if-outs p x true es = omega arith
  count_if-outs p x false es = omega arith

  count_if-news :
      (p : A → Bool) (x : A) (b : Bool) (es : List (Event A))
      → count_if p (news (element x b ∷ es))
        ≡ count_if p (news (element x b ∷ [])) + count_if p (news es)
  count_if-news p x true es = omega arith
  count_if-news p x false es = omega arith

  -- The order and the counts after a run.
  minmax_all-count_of :
      (m : List (A × ℕ)) (es : List (Event A))
      → IsOrdered cmp m
      → IsPositive cmp m
      → IsSmall m es
      → Continues m es
      → IsOrdered cmp (minmax_all cmp m es)
        × IsPositive cmp (minmax_all cmp m es)
        × ((k : A)
            → count_of cmp k (minmax_all cmp m es) + count_if (same_key cmp k) (outs es)
              ≡ count_of cmp k m + count_if (same_key cmp k) (news es))
  unfolding minmax_all Continues IsSmall
  minmax_all-count_of m [] o p small con = (o, p, λ k. refl)
  minmax_all-count_of m (punctuation q ∷ es) o p small con =
      minmax_all-count_of m es o p small (λ n k. con (suc n) k)
  minmax_all-count_of m (element x b ∷ es) o p small con =
      let now = next-count_of m x b es o small con in
      let m' : List (A × ℕ) = minmax_iterate cmp m x b in
      let small' : IsSmall m' es = λ k. omega (
        arith,
        now k,
        small k,
        count_if-outs (same_key cmp k) x b es,
        count_if-news (same_key cmp k) x b es,
      ) in
      let con' : Continues m' es = λ n k. omega (
        arith,
        now k,
        con (suc n) k,
        count_if-outs (same_key cmp k) x b (take n es),
        count_if-news (same_key cmp k) x b (take n es),
      ) in
      let rest =
        minmax_all-count_of m' es (minmax_iterate-IsOrdered cmp m x b o)
          (minmax_iterate-IsPositive cmp m x b p) small' con' in
      (
        rest.0,
        rest.1,
        λ k. omega (
          arith,
          now k,
          rest.2 k,
          count_if-outs (same_key cmp k) x b es,
          count_if-news (same_key cmp k) x b es,
        ),
      )

  value-first :
      (k : A) (m : List (A × ℕ))
      → IsOrdered cmp m
      → IsPositive cmp m
      → 0 < count_of cmp k m
      → (x : A) × (minmax_value cmp m ≡ some x) × (0 < count_of cmp x m) × (cmp.less k x ≡ false)
  unfolding minmax_value
  value-first k [] o p present = absurd (omega arith)
  value-first k ((x, c) ∷ m) o p present =
      (x, refl, rw (same_key_refl x) p.0, first_least cmp k x c m o present)

  -- Where each prefix of the events removes a key at most as often as it added it, and fewer than
  -- 2^32 elements were added: if some key `k` was added more often than it was removed, value()
  -- returns a key that was added more often than it was removed, and `k` is not less than it.
  pub minmax_value-least :
      (es : List (Event A))
      → IsCovered es
      → ((k : A) → count_if (same_key cmp k) (news es) < u32_mod)
      → (k : A) → count_if (same_key cmp k) (outs es) < count_if (same_key cmp k) (news es)
      → (x : A) × (minmax_value cmp (minmax_all cmp [] es) ≡ some x)
        × (count_if (same_key cmp x) (outs es) < count_if (same_key cmp x) (news es))
        × (cmp.less k x ≡ false)
  unfolding IsSmall Continues
  minmax_value-least es covered small k left =
      let (ordered, positive, counts) =
        minmax_all-count_of [] es tt tt (λ a. omega (arith, small a))
          (λ n a. omega (arith, covered n a)) in
      let (x, e, present, least) =
        value-first k (minmax_all cmp [] es) ordered positive (omega (arith, counts k)) in
      (x, e, omega (arith, counts x), least)
