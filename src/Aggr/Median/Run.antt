-- ===== src/Aggr/Median/Run.antt =====
-- AggrMedian behind an operator that keeps different elements: value() is the median of these.
use pipefabric.Prelude.{
  ℕ, suc, ◌+◌, ◌-◌, ◌/◌, ◌≡◌, ◌≢◌, ◌≤◌, refl, sym, ap, ◌∙◌, subst, Bool, true, false, Option, none,
  some, List, [], ◌∷◌, get_elem?, length, arith, if◌then◌else◌, ◌>>=◌, ◌==◌, leb, All, Bool-cases,
  inl, inr, count_if,
}
use pipefabric.Stream.{Event, element, punctuation, news, outs}
use pipefabric.Aggr.Counters.{
  Comparator, same_key, same_key_iff, find, erase, insert, IsOrdered, count_of, All-insert,
  All-erase, insert-IsOrdered, erase-IsOrdered,
}
use pipefabric.Aggr.Counters.Counts.{
  count_of-insert, count_of-erase, count_of-unfound, count_of-find,
}
use pipefabric.Aggr.Median.{
  Median, init, is_even, take_out, put_in, take_found, median_iterate, median_value,
}
use pipefabric.Aggr.Median.Places.{find-at, next_of-at, length-insert, length-erase}
use pipefabric.Aggr.Median.Middle
use pipefabric.Aggr.Median.Middle.{
  IsOnes, entry_at, Points, IsMedian, insertion_step, removal_odd, removal_even,
}

module _ {ℓ} {A : Type ℓ} (cmp : Comparator A) where
  -- iterate for each element of a stream
  unfoldable pub median_all : Median A → List (Event A) → Option (Median A)
  median_all s [] = some s
  median_all s (element x b ∷ es) = median_iterate cmp s x b >>= λ s'. median_all s' es
  median_all s (punctuation p ∷ es) = median_all s es

  -- A new element is not in the map yet; an outdated one is, and is not the only one.
  abbrev pub IsSetStream : List (A × ℕ) → List (Event A) → Type ℓ
  IsSetStream m [] = Unit
  IsSetStream m (element x false ∷ es) =
      (◌≡◌ {A = Option ℕ} (find cmp x m) none) × IsSetStream (insert cmp x 1 m) es
  IsSetStream m (element x true ∷ es) =
      (◌≡◌ {A = Option ℕ} (find cmp x m) (some 1)) × (2 ≤ length m) × IsSetStream (erase cmp x m) es
  IsSetStream m (punctuation p ∷ es) = IsSetStream m es

  -- An element was put into the map or taken out.
  abbrev moved : Bool → A → List (A × ℕ) → List (A × ℕ)
  moved true x m = erase cmp x m
  moved false x m = insert cmp x 1 m

  insertion-IsMedian :
      (x : A) (s : Median A)
      → IsMedian cmp s
      → find cmp x s.map_element ≡ none
      → (s' : Median A) × (median_iterate cmp s x false ≡ some s')
        × IsMedian cmp s'
        × (s'.map_element ≡ insert cmp x 1 s.map_element)
  unfolding median_iterate put_in
  insertion-IsMedian x s v new = elim (Bool-cases (s.total == 0)) [
    | inl first ↦
        let empty : s.map_element ≡ [] = nothing s.map_element (ground (arith, v.size)) in
        (
          record { total = 1; map_element = (x, 1) ∷ []; map_it = some x; elem_before = 0 },
          rw (new, first, empty, insert-nil) refl,
          record {
            ordered = (tt, tt);
            ones = (refl, tt);
            size = refl;
            points = λ h. record { key = x; map = refl; there = refl; at = refl; start = refl };
          },
          sym (ap (insert cmp x 1) empty ∙ insert-nil),
        )
    | inr more ↦
        let some_there : s.total ≢ 0 = λ e. absurd (ground arith) in
        let (s', e, p, t) = insertion_step cmp x s v some_there new in
        (
          s',
          rw (new, more) e,
          record {
            ordered =
                subst (IsOrdered cmp) (sym p.map)
                  (insert-IsOrdered cmp x 1 s.map_element new v.ordered);
            ones =
                subst (IsOnes cmp) (sym p.map)
                  (All-insert cmp (λ e. e.1 ≡ 1) x 1 s.map_element refl v.ones);
            size =
                t
                ∙ sym
                    (ap length p.map ∙ omega (arith, length-insert cmp x 1 s.map_element, v.size));
            points = λ h.
                subst (λ i. Points cmp s' s'.map_element i) (omega (arith, t))
                  (subst (λ l. Points cmp s' l (s.total / 2)) (sym p.map) p);
          },
          p.map,
        )
  ]
    where
      nothing : (m : List (A × ℕ)) → length m ≡ 0 → m ≡ []
      nothing [] h = refl
      nothing (y ∷ m) h = absurd (omega (arith, h))

      insert-nil : insert cmp x 1 [] ≡ (x, 1) ∷ []
      insert-nil = unfold insert in refl

  removal-IsMedian :
      (x : A) (s : Median A)
      → IsMedian cmp s
      → find cmp x s.map_element ≡ some 1
      → 2 ≤ length s.map_element
      → (s' : Median A) × (median_iterate cmp s x true ≡ some s')
        × IsMedian cmp s'
        × (s'.map_element ≡ erase cmp x s.map_element)
  unfolding median_iterate take_found
  removal-IsMedian x s v found two =
      let (s', e, p, n, k) = removed in
      (
        take_out cmp x 1 s',
        rw (found, e) refl,
        record {
          ordered = subst (IsOrdered cmp) (sym k) (erase-IsOrdered cmp x s.map_element v.ordered);
          ones = subst (IsOnes cmp) (sym k) (All-erase cmp (λ e. e.1 ≡ 1) x s.map_element v.ones);
          size =
              n
              ∙ sym (ap length k ∙ omega (arith, length-erase cmp x 1 s.map_element found, v.size));
          points = λ h.
              subst (λ i. Points cmp (take_out cmp x 1 s') (take_out cmp x 1 s').map_element i)
                (omega (arith, n))
                (subst (λ l. Points cmp (take_out cmp x 1 s') l ((s.total - 2) / 2)) (sym k) p);
        },
        k,
      )
    where
      removed : Middle.Removes cmp x s
      removed = elim (Bool-cases (is_even s.total)) [
        | inl even ↦ removal_even cmp x s v (omega (arith, v.size, two)) even found
        | inr odd ↦ removal_odd cmp x s v (omega (arith, v.size, two)) odd found
      ]

  module _ {κ} {R : Type κ} (no_value : R) (converted quotient : A → R) (half_sum : A → A → R) where
    -- The middle entry, or what the two middle ones make together.
    abbrev pub middle : List (A × ℕ) → Option R
    middle m =
        if length m == 0
        then some no_value
        else if is_even (length m)
        then (do
          a ← get_elem? m (length m / 2 - 1)
          b ← get_elem? m (length m / 2)
          some (half_sum a.0 b.0))
        else (do a ← get_elem? m (length m / 2); some (quotient a.0))

    value-middle :
        (s : Median A)
        → IsMedian cmp s
        → median_value cmp no_value converted quotient half_sum s ≡ middle s.map_element
    unfolding median_value
    value-middle s v = rw (← v.size) (elim (Bool-cases (s.total == 0)) [
      | inl none_there ↦ rw none_there refl
      | inr more ↦
          let some_there : s.total ≢ 0 = λ e. absurd (ground arith) in
          let p = v.points some_there in
          let one : find cmp p.key s.map_element ≡ some 1 =
            find-at cmp s.map_element ((s.total - 1) / 2) p.key 1 v.ordered p.there in
          let start : leb 1 (s.elem_before + 1) ≡ true = ground (arith, p.start) in
          elim (Bool-cases (is_even s.total)) [
            | inl even ↦
                let low : (s.total - 1) / 2 ≡ s.total / 2 - 1 = ground arith in
                let high : suc ((s.total - 1) / 2) ≡ s.total / 2 = ground arith in
                let at_low : get_elem? s.map_element (s.total / 2 - 1) ≡ some (p.key, 1) =
                  ap (get_elem? s.map_element) (sym low) ∙ p.there in
                let (b, at_b) =
                  entry_at cmp s.map_element (s.total / 2) (ground (arith, v.size)) v.ones in
                let next =
                  next_of-at cmp s.map_element ((s.total - 1) / 2) p.key b 1 1 v.ordered p.there
                    (ap (get_elem? s.map_element) high ∙ at_b) in
                rw (more, even, p.at, one, start, next, at_low, at_b) refl
            | inr odd ↦
                let mid : (s.total - 1) / 2 ≡ s.total / 2 = ground arith in
                let at_mid : get_elem? s.map_element (s.total / 2) ≡ some (p.key, 1) =
                  ap (get_elem? s.map_element) (sym mid) ∙ p.there in
                rw (more, odd, p.at, one, at_mid) refl
          ]
    ])

    median_from :
        (s : Median A) (es : List (Event A))
        → IsMedian cmp s
        → IsSetStream s.map_element es
        → (s' : Median A) × (median_all s es ≡ some s')
          × IsMedian cmp s'
          × ((a : A)
              → count_of cmp a s'.map_element + count_if (same_key cmp a) (outs es)
                ≡ count_of cmp a s.map_element + count_if (same_key cmp a) (news es))
    unfolding median_all
    median_from s [] v h = (s, refl, v, λ a. refl)
    median_from s (punctuation p ∷ es) v h = median_from s es v h
    median_from s (element x false ∷ es) v h =
        let (s₁, e₁, v₁, m₁) = insertion-IsMedian x s v h.0 in
        let (s₂, e₂, v₂, c₂) = median_from s₁ es v₁ (subst (λ m. IsSetStream m es) (sym m₁) h.1) in
        (
          s₂,
          rw (e₁, e₂) refl,
          v₂,
          λ a.
              let now = ap (count_of cmp a) m₁ ∙ count_of-insert cmp a x 1 s.map_element h.0 in
              let before : same_key cmp a x ≡ true → count_of cmp a s.map_element ≡ 0 = λ same.
                ap (λ y. count_of cmp y s.map_element) ((same_key_iff cmp a x).0 same)
                ∙ count_of-unfound cmp x s.map_element h.0 in
              elim (Bool-cases (same_key cmp a x)) [
                | inl same ↦ ground (arith, c₂ a, now, before same, same)
                | inr other ↦ ground (arith, c₂ a, now, other)
              ],
        )
    median_from s (element x true ∷ es) v h =
        let (s₁, e₁, v₁, m₁) = removal-IsMedian x s v h.0 h.1 in
        let (s₂, e₂, v₂, c₂) = median_from s₁ es v₁ (subst (λ m. IsSetStream m es) (sym m₁) h.2) in
        (
          s₂,
          rw (e₁, e₂) refl,
          v₂,
          λ a.
              let now =
                ap (count_of cmp a) m₁ ∙ count_of-erase cmp a x 1 s.map_element h.0 v.ordered in
              let before : same_key cmp a x ≡ true → count_of cmp a s.map_element ≡ 1 = λ same.
                ap (λ y. count_of cmp y s.map_element) ((same_key_iff cmp a x).0 same)
                ∙ count_of-find cmp x 1 s.map_element h.0 in
              elim (Bool-cases (same_key cmp a x)) [
                | inl same ↦ ground (arith, c₂ a, now, before same, same)
                | inr other ↦ ground (arith, c₂ a, now, other)
              ],
        )

    -- Over a stream in which each new element is one that is not kept already, and each outdated one
    -- is kept and not the only one, no iterator leaves the map, and value() is the median of the
    -- elements that are kept: these stand once each in the map, in the comparator's order, and of an
    -- odd number the middle one is taken, of an even number what the two middle ones make together.
    pub median_run :
        (es : List (Event A))
        → IsSetStream [] es
        → (s : Median A) × (median_all init es ≡ some s)
          × IsOrdered cmp s.map_element
          × All (λ e. e.1 ≡ 1) s.map_element
          × ((a : A)
              → count_of cmp a s.map_element + count_if (same_key cmp a) (outs es)
                ≡ count_if (same_key cmp a) (news es))
          × (median_value cmp no_value converted quotient half_sum s ≡ middle s.map_element)
    unfolding init
    median_run es h =
        let (s, e, v, c) = median_from init es start h in
        (s, e, v.ordered, v.ones, λ a. omega (arith, c a), value-middle s v)
      where
        start : IsMedian cmp init
        start = record { ordered = tt; ones = tt; size = refl; points = λ e. absurd (e refl) }
