-- ===== src/Aggr/MinMax/Step.antt =====
-- AggrMinMax::iterate: one element and the counters.
use pipefabric.Prelude.{
  ℕ, ◌+◌, ◌-◌, ◌≤◌, ◌<◌, ◌≡◌, refl, Bool, true, false, some, List, [], ◌∷◌, arith, if◌then◌else◌,
  ◌==◌, All, Bool-cases, inl, inr, Option-cases, inc32, dec32, u32_mod,
}
use pipefabric.Aggr.Counters.{
  Comparator, same_key, find, assign, erase, IsOrdered, count_of, assign-IsOrdered, erase-IsOrdered,
  insert-IsOrdered, All-erase, All-insert,
}
use pipefabric.Aggr.Counters.Counts.{
  count_of-find, count_of-unfound, count_of-assign, count_of-erase, count_of-insert,
}
use pipefabric.Aggr.MinMax.{minmax_iterate, renew}

module _ {ℓ} {A : Type ℓ} (cmp : Comparator A) where
  pub minmax_iterate-IsOrdered :
      (m : List (A × ℕ)) (x : A) (outdated : Bool)
      → IsOrdered cmp m
      → IsOrdered cmp (minmax_iterate cmp m x outdated)
  unfolding minmax_iterate renew
  minmax_iterate-IsOrdered m x outdated o = elim (Option-cases (find cmp x m)) [
    | inl e ↦ rw e (insert-IsOrdered cmp x 1 m e o)
    | inr (c, e) ↦ rw e (either_way ((if outdated then dec32 c else inc32 c) == 0) _)
  ]
    where
      either_way :
          (b : Bool) (n : ℕ) → IsOrdered cmp (if b then erase cmp x m else assign cmp x n m)
      either_way true n = erase-IsOrdered cmp x m o
      either_way false n = assign-IsOrdered cmp x n m o

  abbrev pub IsPositive : List (A × ℕ) → Type 0
  IsPositive = All (λ e. 0 < e.1)

  pub assign-IsPositive :
      (x : A) (n : ℕ) (l : List (A × ℕ)) → 0 < n → IsPositive l → IsPositive (assign cmp x n l)
  unfolding assign
  assign-IsPositive x n [] lt q = tt
  assign-IsPositive x n ((k, c) ∷ l) lt q = elim (Bool-cases (same_key cmp x k)) [
    | inl hit ↦ rw hit (lt, q.1)
    | inr miss ↦ rw miss (q.0, assign-IsPositive x n l lt q.1)
  ]

  pub minmax_iterate-IsPositive :
      (m : List (A × ℕ)) (x : A) (outdated : Bool)
      → IsPositive m
      → IsPositive (minmax_iterate cmp m x outdated)
  unfolding minmax_iterate renew
  minmax_iterate-IsPositive m x outdated p = elim (Option-cases (find cmp x m)) [
    | inl e ↦ rw e (All-insert cmp _ x 1 m (omega arith) p)
    | inr (c, e) ↦ rw e (either_way (if outdated then dec32 c else inc32 c))
  ]
    where
      either_way : (n : ℕ) → IsPositive (if n == 0 then erase cmp x m else assign cmp x n m)
      either_way n = elim (Bool-cases (n == 0)) [
        | inl gone ↦ rw gone (All-erase cmp _ x m p)
        | inr left ↦ rw left (assign-IsPositive x n m (ground arith) p)
      ]

  -- What one element does to the count of a key.
  pub minmax_iterate-count_of :
      (m : List (A × ℕ)) (x k : A) (outdated : Bool)
      → IsOrdered cmp m
      → count_of cmp x m + (if outdated then 0 else 1) < u32_mod
      → (outdated ≡ true → 1 ≤ count_of cmp x m)
      → count_of cmp k (minmax_iterate cmp m x outdated) ≡ (
          if same_key cmp k x
          then (if outdated then count_of cmp x m - 1 else count_of cmp x m + 1)
          else count_of cmp k m)
  unfolding minmax_iterate renew
  minmax_iterate-count_of m x k outdated o below there = elim (Option-cases (find cmp x m)) [
    | inl e ↦
        let zero_yet = count_of-unfound cmp x m e in
        rw (e, count_of-insert cmp k x 1 m e) (ground arith)
    | inr (c, e) ↦
        let had = count_of-find cmp x c m e in
        rw (e, renewed c e _) (new_count c outdated below there had)
  ]
    where
      renewed :
          (c : ℕ)
          → find cmp x m ≡ some c
          → (n : ℕ)
          → count_of cmp k (if n == 0 then erase cmp x m else assign cmp x n m)
            ≡ (if same_key cmp k x then n else count_of cmp k m)
      renewed c e n = elim (Bool-cases (n == 0)) [
        | inl gone ↦ rw gone (ground (arith, count_of-erase cmp k x c m e o))
        | inr left ↦ rw left (count_of-assign cmp k x c n m e)
      ]

      new_count :
          (c : ℕ) (b : Bool)
          → count_of cmp x m + (if b then 0 else 1) < u32_mod
          → (b ≡ true → 1 ≤ count_of cmp x m)
          → count_of cmp x m ≡ c
          → (if same_key cmp k x then (if b then dec32 c else inc32 c) else count_of cmp k m) ≡ (
              if same_key cmp k x
              then (if b then count_of cmp x m - 1 else count_of cmp x m + 1)
              else count_of cmp k m)
      new_count c true room some_there had =
          let one : 1 ≤ count_of cmp x m = some_there refl in ground arith
      new_count c false room some_there had = ground arith
