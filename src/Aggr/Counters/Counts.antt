-- ===== src/Aggr/Counters/Counts.antt =====
-- What the operations of the map do to the counts, and the first entry.
use pipefabric.Prelude.{
  ℕ, ◌<◌, ◌≡◌, refl, sym, ap, subst, true, false, none, some, List, [], ◌∷◌, arith, if◌then◌else◌,
  All, All-map, Bool-cases, inl, inr,
}
use pipefabric.Aggr.Counters.{
  Comparator, same_key, same_key_iff, find, assign, erase, insert, IsOrdered, count_of,
}

module _ {ℓ} {A : Type ℓ} (cmp : Comparator A) where
  pub same_key_comm : (a b : A) → same_key cmp a b ≡ same_key cmp b a
  same_key_comm a b = ground arith

  -- A key that differs from an entry is not the key of that entry.
  same_key_apart :
      (a x k : A) → same_key cmp a x ≡ false → same_key cmp k x ≡ true → same_key cmp k a ≡ false
  same_key_apart a x k miss hit = elim (Bool-cases (same_key cmp k a)) [
    | inl both ↦ absurd (cc (hit, miss, (same_key_iff cmp k a).0 both))
    | inr differ ↦ differ
  ]

  pub same_key_swap : (a b k : A) → same_key cmp a b ≡ true → same_key cmp k a ≡ same_key cmp k b
  same_key_swap a b k h = ap (same_key cmp k) ((same_key_iff cmp a b).0 h)

  pub count_of-find :
      (a : A) (c : ℕ) (m : List (A × ℕ)) → find cmp a m ≡ some c → count_of cmp a m ≡ c
  unfolding find
  count_of-find a c [] h = absurd (cc h)
  count_of-find a c ((k, d) ∷ m) h = elim (Bool-cases (same_key cmp a k)) [
    | inl hit ↦ rw hit (ground arith)
    | inr miss ↦ rw miss (count_of-find a c m (rw miss at h))
  ]

  pub count_of-unfound : (a : A) (m : List (A × ℕ)) → find cmp a m ≡ none → count_of cmp a m ≡ 0
  unfolding find
  count_of-unfound a [] h = refl
  count_of-unfound a ((k, d) ∷ m) h = elim (Bool-cases (same_key cmp a k)) [
    | inl hit ↦ absurd (cc (rw hit at h))
    | inr miss ↦ rw miss (count_of-unfound a m (rw miss at h))
  ]

  -- A key before all entries is not counted.
  pub count_of-before :
      (a : A) (m : List (A × ℕ)) → All (λ e. cmp.less a e.0 ≡ true) m → count_of cmp a m ≡ 0
  count_of-before a [] h = refl
  count_of-before a ((k, d) ∷ m) h = rw h.0 (count_of-before a m h.1)

  pub count_of-assign :
      (k a : A) (c n : ℕ) (m : List (A × ℕ))
      → find cmp a m ≡ some c
      → count_of cmp k (assign cmp a n m) ≡ (if same_key cmp k a then n else count_of cmp k m)
  unfolding find assign
  count_of-assign k a c n [] h = absurd (cc h)
  count_of-assign k a c n ((x, d) ∷ m) h = elim (Bool-cases (same_key cmp a x)) [
    | inl hit ↦ rw (hit, same_key_swap a x k hit) (ground arith)
    | inr miss ↦ elim (Bool-cases (same_key cmp k x)) [
      | inl other ↦ rw (miss, other, same_key_apart a x k miss other) refl
      | inr further ↦ rw (miss, further) (count_of-assign k a c n m (rw miss at h))
    ]
  ]

  pub count_of-erase :
      (k a : A) (c : ℕ) (m : List (A × ℕ))
      → find cmp a m ≡ some c
      → IsOrdered cmp m
      → count_of cmp k (erase cmp a m) ≡ (if same_key cmp k a then 0 else count_of cmp k m)
  unfolding find erase
  count_of-erase k a c [] h o = absurd (cc h)
  count_of-erase k a c ((x, d) ∷ m) h o = elim (Bool-cases (same_key cmp a x)) [
    | inl hit ↦ elim (Bool-cases (same_key cmp k x)) [
      | inl same ↦
          rw (hit, same_key_swap a x k hit, same)
            (count_of-before k m (
              All-map
                (λ e lt.
                  subst (λ y. cmp.less y e.0 ≡ true) (sym ((same_key_iff cmp k x).0 same)) lt)
                m o.0))
      | inr other ↦ rw (hit, same_key_swap a x k hit, other) refl
    ]
    | inr miss ↦ elim (Bool-cases (same_key cmp k x)) [
      | inl other ↦ rw (miss, other, same_key_apart a x k miss other) refl
      | inr further ↦ rw (miss, further) (count_of-erase k a c m (rw miss at h) o.1)
    ]
  ]

  pub count_of-insert :
      (k a : A) (n : ℕ) (m : List (A × ℕ))
      → find cmp a m ≡ none
      → count_of cmp k (insert cmp a n m) ≡ (if same_key cmp k a then n else count_of cmp k m)
  unfolding find insert
  count_of-insert k a n [] h = refl
  count_of-insert k a n ((x, d) ∷ m) h = elim (Bool-cases (same_key cmp a x)) [
    | inl hit ↦ absurd (cc (rw hit at h))
    | inr miss ↦ elim (Bool-cases (cmp.less a x)) [
      | inl before ↦ rw before refl
      | inr behind ↦ elim (Bool-cases (same_key cmp k x)) [
        | inl other ↦ rw (behind, other, same_key_apart a x k miss other) refl
        | inr further ↦ rw (behind, further) (count_of-insert k a n m (rw miss at h))
      ]
    ]
  ]

  -- No counted key is less than the first one.
  pub first_least :
      (k x : A) (c : ℕ) (m : List (A × ℕ))
      → IsOrdered cmp ((x, c) ∷ m)
      → 0 < count_of cmp k ((x, c) ∷ m)
      → cmp.less k x ≡ false
  first_least k x c m o counted = elim (Bool-cases (cmp.less k x)) [
    | inr differ ↦ differ
    | inl before ↦
        let nowhere : count_of cmp k ((x, c) ∷ m) ≡ 0 =
          count_of-before k ((x, c) ∷ m)
            (before, All-map (λ e lt. cmp.less_trans k x e.0 before lt) m o.0) in
        absurd (omega arith)
  ]
