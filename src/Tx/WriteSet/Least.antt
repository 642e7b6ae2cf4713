-- ===== src/Tx/WriteSet/Least.antt =====
-- transactionCommit: which of the writes to a key is committed.
use pipefabric.Prelude.{
  ◌≡◌, refl, sym, ap, ◌∙◌, subst, true, false, Option, none, some, List, [], ◌∷◌, if◌then◌else◌,
  All, All-map, Bool-cases, inl, inr, arith,
}
use pipefabric.Aggr.Counters.{Comparator, same_key, same_key_iff}
use pipefabric.Aggr.Counters.Counts.{same_key_swap}
use pipefabric.Tx.WriteSet.{pair_less, sort_insert, sort, unique_behind, unique, committed_writes}

module _ {ℓ κ} {K : Type ℓ} {V : Type κ} (by_key : Comparator K) (by_value : Comparator V) where
  -- The first value of a key.
  unfoldable pub value_of : K → List (K × V) → Option V
  value_of k [] = none
  value_of k ((a, v) ∷ set) =
      let rest = value_of k set in if same_key by_key k a then some v else rest

  -- The lesser of a value and one that may be there.
  unfoldable pub lesser : V → Option V → V
  lesser v none = v
  lesser v (some w) = if by_value.less v w then v else w

  -- The least value that was written to a key.
  unfoldable pub least_written : K → List (K × V) → Option V
  unfolding lesser
  least_written k [] = none
  least_written k ((a, v) ∷ set) =
      let rest = least_written k set in if same_key by_key k a then some (lesser v rest) else rest

  IsSorted : List (K × V) → Type 0
  IsSorted [] = Unit
  IsSorted (e ∷ set) = All (λ x. pair_less by_key by_value x e ≡ false) set × IsSorted set

  pair_less_trans :
      (x y z : K × V)
      → pair_less by_key by_value x y ≡ true
      → pair_less by_key by_value y z ≡ true
      → pair_less by_key by_value x z ≡ true
  unfolding pair_less
  pair_less_trans (a, v) (b, w) (c, u) p q = elim (Bool-cases (by_key.less a b)) [
    | inl ab ↦ elim (Bool-cases (by_key.less b c)) [
      | inl bc ↦ rw (by_key.less_trans a b c ab bc) refl
      | inr not_bc ↦
          let b_is_c : same_key by_key b c ≡ true = ground arith in
          rw (subst (λ x. by_key.less a x ≡ true) ((same_key_iff by_key b c).0 b_is_c) ab) refl
    ]
    | inr not_ab ↦
        let a_is_b : same_key by_key a b ≡ true = ground arith in
        let b_after_a = sym ((same_key_iff by_key a b).0 a_is_b) in
        elim (Bool-cases (by_key.less b c)) [
          | inl bc ↦ rw (subst (λ x. by_key.less x c ≡ true) b_after_a bc) refl
          | inr not_bc ↦
              let b_is_c : same_key by_key b c ≡ true = ground arith in
              let a_is_c : same_key by_key a c ≡ true =
                subst (λ x. same_key by_key x c ≡ true) b_after_a b_is_c in
              let vw : by_value.less v w ≡ true = ground arith in
              let wu : by_value.less w u ≡ true = ground arith in
              ground (arith, a_is_c, by_value.less_trans v w u vw wu)
        ]
  ]

  -- Under one key the values decide.
  pair_less-same :
      (a b : K) (v w : V)
      → same_key by_key a b ≡ true
      → pair_less by_key by_value (a, v) (b, w) ≡ by_value.less v w
  unfolding pair_less
  pair_less-same a b v w same = ground arith

  same_key_both :
      (k a b : K)
      → same_key by_key k a ≡ true
      → same_key by_key k b ≡ true
      → same_key by_key a b ≡ true
  same_key_both k a b p q =
      subst (λ x. same_key by_key x b ≡ true) ((same_key_iff by_key k a).0 p) q

  pair_less_irrefl : (x : K × V) → pair_less by_key by_value x x ≡ false
  unfolding pair_less
  pair_less_irrefl (a, v) = rw (by_key.less_irrefl a, by_value.less_irrefl v) refl

  -- What is before a pair is before what is not before that pair.
  not_before :
      (e x y : K × V)
      → pair_less by_key by_value e x ≡ true
      → pair_less by_key by_value y x ≡ false
      → pair_less by_key by_value y e ≡ false
  not_before e x y p q = elim (Bool-cases (pair_less by_key by_value y e)) [
    | inl before ↦ absurd (cc (pair_less_trans y e x before p, q))
    | inr behind ↦ behind
  ]

  front_before_rest :
      (e x : K × V) (set : List (K × V))
      → pair_less by_key by_value e x ≡ true
      → IsSorted (x ∷ set)
      → All (λ y. pair_less by_key by_value y e ≡ false) (x ∷ set)
  unfolding IsSorted
  front_before_rest e x set p s =
      (not_before e x x p (pair_less_irrefl x), All-map (λ y q. not_before e x y p q) set s.0)

  All-sort_insert :
      (P : K × V → Type 0) (e : K × V) (set : List (K × V))
      → P e
      → All P set
      → All P (sort_insert by_key by_value e set)
  unfolding sort_insert
  All-sort_insert P e [] p h = (p, tt)
  All-sort_insert P e (x ∷ set) p h = elim (Bool-cases (pair_less by_key by_value e x)) [
    | inl before ↦ rw before (p, h)
    | inr behind ↦ rw behind (h.0, All-sort_insert P e set p h.1)
  ]

  sort_insert-IsSorted :
      (e : K × V) (set : List (K × V)) → IsSorted set → IsSorted (sort_insert by_key by_value e set)
  unfolding sort_insert IsSorted
  sort_insert-IsSorted e [] s = (tt, tt)
  sort_insert-IsSorted e (x ∷ set) s = elim (Bool-cases (pair_less by_key by_value e x)) [
    | inl before ↦ rw before (front_before_rest e x set before s, s)
    | inr behind ↦ rw behind (All-sort_insert _ e set behind s.0, sort_insert-IsSorted e set s.1)
  ]

  sort-IsSorted : (set : List (K × V)) → IsSorted (sort by_key by_value set)
  unfolding sort IsSorted
  sort-IsSorted [] = tt
  sort-IsSorted (e ∷ set) = sort_insert-IsSorted e (sort by_key by_value set) (sort-IsSorted set)

  IsSorted-tail : (e : K × V) (set : List (K × V)) → IsSorted (e ∷ set) → IsSorted set
  unfolding IsSorted
  IsSorted-tail e set s = s.1

  -- The value of a pair that is before all others is the least one.
  lesser-first :
      (k a : K) (v : V) (set : List (K × V))
      → same_key by_key k a ≡ true
      → All (λ y. pair_less by_key by_value y (a, v) ≡ false) set
      → lesser v (value_of k set) ≡ v
  unfolding lesser value_of
  lesser-first k a v [] same h = refl
  lesser-first k a v ((b, w) ∷ set) same h = elim (Bool-cases (same_key by_key k b)) [
    | inl hit ↦
        let lt : by_value.less w v ≡ false =
          sym (pair_less-same b a w v (same_key_both k b a hit same)) ∙ h.0 in
        rw hit (elim (Bool-cases (by_value.less v w)) [
          | inl less ↦ rw less refl
          | inr not_less ↦ rw not_less (by_value.less_total w v lt not_less)
        ])
    | inr miss ↦ rw miss (lesser-first k a v set same h.1)
  ]

  value_of-sort_insert :
      (k a : K) (v : V) (set : List (K × V))
      → IsSorted set
      → value_of k (sort_insert by_key by_value (a, v) set)
        ≡ (if same_key by_key k a then some (lesser v (value_of k set)) else value_of k set)
  unfolding value_of sort_insert lesser
  value_of-sort_insert k a v [] s = refl
  value_of-sort_insert k a v ((b, w) ∷ set) s =
      elim (Bool-cases (pair_less by_key by_value (a, v) (b, w))) [
        | inl before ↦ elim (Bool-cases (same_key by_key k a)) [
          | inl hit ↦
              rw (before, hit)
                (sym (
                  ap some (
                    lesser-first k a v ((b, w) ∷ set) hit
                      (front_before_rest (a, v) (b, w) set before s))))
          | inr miss ↦ rw (before, miss) refl
        ]
        | inr behind ↦ elim (Bool-cases (same_key by_key k b)) [
          | inl hit ↦ elim (Bool-cases (same_key by_key k a)) [
            | inl both ↦
                let not_less : by_value.less v w ≡ false =
                  sym (pair_less-same a b v w (same_key_both k a b both hit)) ∙ behind in
                rw (behind, hit, both, not_less) refl
            | inr other ↦ rw (behind, hit, other) refl
          ]
          | inr miss ↦
              rw (behind, miss) (value_of-sort_insert k a v set (IsSorted-tail (b, w) set s))
        ]
      ]

  value_of-unique_behind :
      (k a : K) (set : List (K × V))
      → same_key by_key k a ≡ false
      → value_of k (unique_behind by_key by_value a set) ≡ value_of k set
  unfolding value_of unique_behind
  value_of-unique_behind k a [] miss = refl
  value_of-unique_behind k a ((b, v) ∷ set) miss = elim (Bool-cases (same_key by_key a b)) [
    | inl dup ↦
        rw (dup, sym (same_key_swap by_key a b k dup), miss) (value_of-unique_behind k a set miss)
    | inr other ↦ elim (Bool-cases (same_key by_key k b)) [
      | inl hit ↦ rw (other, hit) refl
      | inr further ↦ rw (other, further) (value_of-unique_behind k b set further)
    ]
  ]

  value_of-unique :
      (k : K) (set : List (K × V)) → value_of k (unique by_key by_value set) ≡ value_of k set
  unfolding value_of unique
  value_of-unique k [] = refl
  value_of-unique k ((a, v) ∷ set) = elim (Bool-cases (same_key by_key k a)) [
    | inl hit ↦ rw hit refl
    | inr miss ↦ rw miss (value_of-unique_behind k a set miss)
  ]

  value_of-sort :
      (k : K) (set : List (K × V)) → value_of k (sort by_key by_value set) ≡ least_written k set
  unfolding sort least_written value_of
  value_of-sort k [] = refl
  value_of-sort k ((a, v) ∷ set) =
      rw
        (
          value_of-sort_insert k a v (sort by_key by_value set) (sort-IsSorted set),
          value_of-sort k set,
        )
        refl

  -- The keys ascend, so that each is there once.
  abbrev pub IsAscending : List (K × V) → Type 0
  IsAscending [] = Unit
  IsAscending (e ∷ set) = All (λ x. by_key.less e.0 x.0 ≡ true) set × IsAscending set

  key_not_before :
      (x e : K × V) → pair_less by_key by_value x e ≡ false → by_key.less x.0 e.0 ≡ false
  unfolding pair_less
  key_not_before x e h = ground arith

  unique_behind-IsAscending :
      (a : K) (set : List (K × V))
      → IsSorted set
      → All (λ e. by_key.less e.0 a ≡ false) set
      → All (λ e. by_key.less a e.0 ≡ true) (unique_behind by_key by_value a set)
        × IsAscending (unique_behind by_key by_value a set)
  unfolding unique_behind IsSorted
  unique_behind-IsAscending a [] s h = (tt, tt)
  unique_behind-IsAscending a ((b, v) ∷ set) s h = elim (Bool-cases (same_key by_key a b)) [
    | inl dup ↦ rw dup (unique_behind-IsAscending a set s.1 h.1)
    | inr other ↦
        let above : by_key.less a b ≡ true = ground (arith, h.0, other) in
        let rest =
          unique_behind-IsAscending b set s.1
            (All-map (λ x q. key_not_before x (b, v) q) set s.0) in
        rw other (
          (
            above,
            All-map (λ x q. by_key.less_trans a b x.0 above q) (unique_behind by_key by_value b set)
                rest.0,
          ),
          rest,
        )
  ]

  unique-IsAscending :
      (set : List (K × V)) → IsSorted set → IsAscending (unique by_key by_value set)
  unfolding unique IsSorted
  unique-IsAscending [] s = tt
  unique-IsAscending ((a, v) ∷ set) s =
      unique_behind-IsAscending a set s.1 (All-map (λ x q. key_not_before x (a, v) q) set s.0)

  -- Of the writes of a transaction to a key, transactionCommit keeps the one with the least value:
  -- the keys that it keeps ascend, so each is there once, and the value that it keeps for a key is
  -- the least of those written to it, or none if it was not written, whatever the writes' order.
  pub committed_writes-least :
      (set : List (K × V))
      → IsAscending (committed_writes by_key by_value set)
        × ((k : K) → value_of k (committed_writes by_key by_value set) ≡ least_written k set)
  unfolding committed_writes
  committed_writes-least set = (
    unique-IsAscending (sort by_key by_value set) (sort-IsSorted set),
    λ k. value_of-unique k (sort by_key by_value set) ∙ value_of-sort k set,
  )
