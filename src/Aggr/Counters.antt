-- ===== src/Aggr/Counters.antt =====
-- std::map<Tin, unsigned int, Comparator>, as AggrMinMax.hpp and AggrMedian.hpp use it: entries in
-- the order of the comparator, found by neither key being less than the other.
pub mod Counts
use pipefabric.Prelude.{
  ℕ, zero, suc, ◌+◌, ◌-◌, ◌≤◌, ◌<◌, ◌≡◌, ◌≢◌, refl, sym, ap, subst, Bool, true, false, not, ◌&&◌,
  Option, none, some, List, [], ◌∷◌, arith, if◌then◌else◌, All, All-map, Bool-cases, inl, inr, ltb,
}

-- What a comparator is to be: the standard wants a strict weak order, and for keys whose
-- equivalence is equality that is a strict total order.
pub record Comparator {ℓ} (A : Type ℓ) : Type ℓ where
  pub less : A → A → Bool
  pub less_irrefl : (a : A) → less a a ≡ false
  pub less_trans : (a b c : A) → less a b ≡ true → less b c ≡ true → less a c ≡ true
  pub less_total : (a b : A) → less a b ≡ false → less b a ≡ false → a ≡ b

module _ {ℓ} {A : Type ℓ} (cmp : Comparator A) where
  abbrev pub same_key : A → A → Bool
  same_key a b = not (cmp.less a b) && not (cmp.less b a)

  unfoldable pub find : A → List (A × ℕ) → Option ℕ
  find a [] = none
  find a ((k, c) ∷ m) = if same_key a k then some c else find a m

  -- it->second = count
  unfoldable pub assign : A → ℕ → List (A × ℕ) → List (A × ℕ)
  assign a n [] = []
  assign a n ((k, c) ∷ m) = if same_key a k then (k, n) ∷ m else (k, c) ∷ assign a n m

  unfoldable pub erase : A → List (A × ℕ) → List (A × ℕ)
  erase a [] = []
  erase a ((k, c) ∷ m) = if same_key a k then m else (k, c) ∷ erase a m

  -- insert, for a key that is not there
  unfoldable pub insert : A → ℕ → List (A × ℕ) → List (A × ℕ)
  insert a n [] = (a, n) ∷ []
  insert a n ((k, c) ∷ m) = if cmp.less a k then (a, n) ∷ (k, c) ∷ m else (k, c) ∷ insert a n m

  -- The order of the entries.
  abbrev pub IsOrdered : List (A × ℕ) → Type 0
  IsOrdered [] = Unit
  IsOrdered ((k, c) ∷ m) = All (λ e. cmp.less k e.0 ≡ true) m × IsOrdered m

  -- How often a key is counted.
  abbrev pub count_of : A → List (A × ℕ) → ℕ
  count_of a [] = 0
  count_of a ((k, c) ∷ m) = if same_key a k then c else count_of a m

  pub same_key_iff : (a b : A) → (same_key a b ≡ true → a ≡ b) × (a ≡ b → same_key a b ≡ true)
  same_key_iff a b = (
    λ h. ground (arith, cmp.less_total a b),
    λ e. subst (λ x. same_key a x ≡ true) e (ground (arith, cmp.less_irrefl a)),
  )

  pub All-assign :
      (P : A × ℕ → Type 0) (a : A) (n : ℕ) (m : List (A × ℕ))
      → ((k : A) → (c d : ℕ) → P (k, c) → P (k, d))
      → All P m
      → All P (assign a n m)
  unfolding assign
  All-assign P a n [] f h = tt
  All-assign P a n ((k, c) ∷ m) f h = elim (Bool-cases (same_key a k)) [
    | inl hit ↦ rw hit (f k c n h.0, h.1)
    | inr miss ↦ rw miss (h.0, All-assign P a n m f h.1)
  ]

  pub All-erase : (P : A × ℕ → Type 0) (a : A) (m : List (A × ℕ)) → All P m → All P (erase a m)
  unfolding erase
  All-erase P a [] h = tt
  All-erase P a ((k, c) ∷ m) h = elim (Bool-cases (same_key a k)) [
    | inl hit ↦ rw hit h.1
    | inr miss ↦ rw miss (h.0, All-erase P a m h.1)
  ]

  pub All-insert :
      (P : A × ℕ → Type 0) (a : A) (n : ℕ) (m : List (A × ℕ))
      → P (a, n)
      → All P m
      → All P (insert a n m)
  unfolding insert
  All-insert P a n [] p h = (p, tt)
  All-insert P a n ((k, c) ∷ m) p h = elim (Bool-cases (cmp.less a k)) [
    | inl before ↦ rw before (p, h)
    | inr behind ↦ rw behind (h.0, All-insert P a n m p h.1)
  ]

  pub assign-IsOrdered : (a : A) (n : ℕ) (m : List (A × ℕ)) → IsOrdered m → IsOrdered (assign a n m)
  unfolding assign
  assign-IsOrdered a n [] h = tt
  assign-IsOrdered a n ((k, c) ∷ m) h = elim (Bool-cases (same_key a k)) [
    | inl hit ↦ rw hit h
    | inr miss ↦ rw miss (All-assign _ a n m (λ _ _ _ p. p) h.0, assign-IsOrdered a n m h.1)
  ]

  pub erase-IsOrdered : (a : A) (m : List (A × ℕ)) → IsOrdered m → IsOrdered (erase a m)
  unfolding erase
  erase-IsOrdered a [] h = tt
  erase-IsOrdered a ((k, c) ∷ m) h = elim (Bool-cases (same_key a k)) [
    | inl hit ↦ rw hit h.1
    | inr miss ↦ rw miss (All-erase _ a m h.0, erase-IsOrdered a m h.1)
  ]

  pub insert-IsOrdered :
      (a : A) (n : ℕ) (m : List (A × ℕ)) → find a m ≡ none → IsOrdered m → IsOrdered (insert a n m)
  unfolding insert find
  insert-IsOrdered a n [] none_yet h = (tt, tt)
  insert-IsOrdered a n ((k, c) ∷ m) none_yet h = elim (Bool-cases (cmp.less a k)) [
    | inl before ↦ rw before ((before, All-map (λ e lt. cmp.less_trans a k e.0 before lt) m h.0), h)
    | inr behind ↦
        let after : cmp.less k a ≡ true = ground arith in
        rw behind (All-insert _ a n m after h.0, insert-IsOrdered a n m (ground arith) h.1)
  ]
