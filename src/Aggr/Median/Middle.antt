-- ===== src/Aggr/Median/Middle.antt =====
-- AggrMedian over different elements: its iterator stays at the middle of the ordered elements.
use pipefabric.Prelude.{
  ℕ, zero, suc, ◌+◌, ◌-◌, ◌/◌, ◌≡◌, ◌≢◌, ◌≤◌, ◌<◌, refl, ap, ◌∙◌, subst, true, false, none, some,
  List, [], ◌∷◌, get_elem?, length, arith, ◌==◌, leb, All, Bool-cases, inl, inr,
}
use pipefabric.Aggr.Counters.{
  Comparator, same_key, same_key_iff, find, erase, insert, IsOrdered, All-insert, insert-IsOrdered,
}
use pipefabric.Aggr.Median.{
  Median, is_even, next_of, move_back, decrement_map, increment_map, step_before_removal, take_out,
  read_key, step_after_insertion,
}
use pipefabric.Aggr.Median.Places.{
  find-at, next_of-at, previous_of-at, length-insert, insert-below, insert-above, erase-below,
  erase-above, less-at,
}

module _ {ℓ} {A : Type ℓ} (cmp : Comparator A) where
  abbrev pub IsOnes : List (A × ℕ) → Type 0
  IsOnes m = All (λ e. e.1 ≡ 1) m

  pub entry_at :
      (m : List (A × ℕ)) (i : ℕ) → i < length m → IsOnes m → (a : A) × (get_elem? m i ≡ some (a, 1))
  entry_at [] i h ones = elim h [ ]
  entry_at ((k, c) ∷ m) zero h ones = (k, ap (λ n. some (k, n)) ones.0)
  entry_at ((k, c) ∷ m) (suc i) h ones = entry_at m i (omega arith) ones.1

  -- The iterator is at the entry `i`.
  pub record Points (s : Median A) (m : List (A × ℕ)) (i : ℕ) : Type ℓ where
    pub key : A
    pub map : s.map_element ≡ m
    pub there : get_elem? m i ≡ some (key, 1)
    pub at : s.map_it ≡ some key
    pub start : s.elem_before ≡ 0

  decrement-Points :
      (s : Median A) (m : List (A × ℕ)) (i : ℕ)
      → IsOrdered cmp m
      → IsOnes m
      → suc i < length m
      → Points s m (suc i)
      → (s' : Median A) × (decrement_map cmp s ≡ some s') × Points s' m i × (s'.total ≡ s.total)
  unfolding decrement_map move_back
  decrement-Points s m i o ones lt p =
      let (b, at_b) = entry_at m i (omega arith) ones in
      let back : move_back cmp s.map_it s.map_element ≡ some b =
        ap (λ it. move_back cmp it s.map_element) p.at
        ∙ ap (λ l. move_back cmp (some p.key) l) p.map
        ∙ previous_of-at cmp m i none p.key b 1 1 o at_b p.there in
      let zero_before : leb s.elem_before 0 ≡ true = ground (arith, p.start) in
      let one : find cmp b s.map_element ≡ some 1 =
        ap (find cmp b) p.map ∙ find-at cmp m i b 1 o at_b in
      (
        record s { map_it = some b; elem_before = 0 },
        rw (back, zero_before, one) refl,
        record { key = b; map = p.map; there = at_b; at = refl; start = refl },
        refl,
      )

  increment-Points :
      (s : Median A) (m : List (A × ℕ)) (i : ℕ)
      → IsOrdered cmp m
      → IsOnes m
      → suc i < length m
      → Points s m i
      → (s' : Median A) × (increment_map cmp s ≡ some s')
        × Points s' m (suc i)
        × (s'.total ≡ s.total)
  unfolding increment_map
  increment-Points s m i o ones lt p =
      let (b, at_b) = entry_at m (suc i) lt ones in
      let one : find cmp p.key s.map_element ≡ some 1 =
        ap (find cmp p.key) p.map ∙ find-at cmp m i p.key 1 o p.there in
      let next : next_of cmp p.key s.map_element ≡ some (some b) =
        ap (next_of cmp p.key) p.map ∙ next_of-at cmp m i p.key b 1 1 o p.there at_b in
      (
        record s { map_it = some b; elem_before = 0 },
        moved one next,
        record { key = b; map = p.map; there = at_b; at = refl; start = refl },
        refl,
      )
    where
      moved :
          {b : A}
          → find cmp p.key s.map_element ≡ some 1
          → next_of cmp p.key s.map_element ≡ some (some b)
          → increment_map cmp s ≡ some (record s { map_it = some b; elem_before = 0 })
      moved one next =
          let last : leb 1 (s.elem_before + 1) ≡ true = ground arith in
          rw (p.at, one, next, last) refl

  read-Points :
      (s : Median A) (m : List (A × ℕ)) (i : ℕ)
      → IsOrdered cmp m
      → (p : Points s m i) → read_key cmp s ≡ some p.key
  unfolding read_key
  read-Points s m i o p =
      let found : find cmp p.key s.map_element ≡ some 1 =
        ap (find cmp p.key) p.map ∙ find-at cmp m i p.key 1 o p.there in
      rw (p.at, found) refl

  -- The entries are in order, each counted once, and the iterator is at the middle one.
  pub record IsMedian (s : Median A) : Type ℓ where
    pub ordered : IsOrdered cmp s.map_element
    pub ones : IsOnes s.map_element
    pub size : s.total ≡ length s.map_element
    pub points : s.total ≢ 0 → Points s s.map_element ((s.total - 1) / 2)

  pub insertion_step :
      (x : A) (s : Median A)
      → IsMedian s
      → s.total ≢ 0
      → find cmp x s.map_element ≡ none
      → (s' : Median A) × (step_after_insertion cmp x
            (record s { map_element = insert cmp x 1 s.map_element; total = s.total + 1 })
          ≡ some s')
        × Points s' (insert cmp x 1 s.map_element) (s.total / 2)
        × (s'.total ≡ s.total + 1)
  unfolding step_after_insertion
  insertion_step x s v some_there new =
      let p = v.points some_there in
      let m' = insert cmp x 1 s.map_element in
      let s₁ : Median A = record s { map_element = m'; total = s.total + 1 } in
      let i = (s.total - 1) / 2 in
      let o' = insert-IsOrdered cmp x 1 s.map_element new v.ordered in
      let ones' : IsOnes m' = All-insert cmp (λ e. e.1 ≡ 1) x 1 s.map_element refl v.ones in
      let size' : length m' ≡ s.total + 1 =
        omega (arith, length-insert cmp x 1 s.map_element, v.size) in
      elim (Bool-cases (cmp.less x p.key)) [
        | inl below ↦
            let there' = insert-below cmp x 1 s.map_element i p.key 1 v.ordered p.there below in
            let q : Points s₁ m' (suc i) = record {
              key = p.key;
              map = refl;
              there = there';
              at = p.at;
              start = p.start;
            } in
            let read = read-Points s₁ m' (suc i) o' q in
            elim (Bool-cases (is_even (s.total + 1))) [
              | inl even ↦
                  let (s₂, e, r, t) = decrement-Points s₁ m' i o' ones' (omega arith) q in
                  (s₂, rw (read, even, below) e, subst (Points s₂ m') (ground arith) r, t)
              | inr odd ↦
                  (s₁, rw (read, odd, below) refl, subst (Points s₁ m') (ground arith) q, refl)
            ]
        | inr above ↦
            let there' = insert-above cmp x 1 s.map_element i p.key 1 v.ordered p.there above in
            let q : Points s₁ m' i = record {
              key = p.key;
              map = refl;
              there = there';
              at = p.at;
              start = p.start;
            } in
            let read = read-Points s₁ m' i o' q in
            elim (Bool-cases (is_even (s.total + 1))) [
              | inl even ↦
                  (s₁, rw (read, even, above) refl, subst (Points s₁ m') (ground arith) q, refl)
              | inr odd ↦
                  let (s₂, e, r, t) = increment-Points s₁ m' i o' ones' (omega arith) q in
                  (s₂, rw (read, odd, above) e, subst (Points s₂ m') (ground arith) r, t)
            ]
      ]

  -- The element is taken out, where the iterator was moved to an entry that stays.
  taken :
      (x : A) (s : Median A) (m : List (A × ℕ)) (j h : ℕ)
      → (p : Points s m j) → 2 ≤ s.total
      → get_elem? (erase cmp x m) h ≡ some (p.key, 1)
      → Points (take_out cmp x 1 s) (erase cmp x m) h
        × ((take_out cmp x 1 s).total ≡ s.total - 1)
        × ((take_out cmp x 1 s).map_element ≡ erase cmp x m)
  unfolding take_out
  taken x s m j h p two there =
      let more : (s.total == 1) ≡ false = ground arith in
      rw more (
        record {
          key = p.key;
          map = ap (erase cmp x) p.map;
          there = there;
          at = p.at;
          start = p.start;
        },
        refl,
        ap (erase cmp x) p.map,
      )

  abbrev pub Removes : A → Median A → Type ℓ
  Removes x s =
      (s' : Median A) × (step_before_removal cmp x 1 s ≡ some s')
      × Points (take_out cmp x 1 s') (erase cmp x s.map_element) ((s.total - 2) / 2)
      × ((take_out cmp x 1 s').total ≡ s.total - 1)
      × ((take_out cmp x 1 s').map_element ≡ erase cmp x s.map_element)

  -- An odd number of elements: the iterator goes back, unless a lesser element leaves.
  pub removal_odd :
      (x : A) (s : Median A)
      → IsMedian s
      → 2 ≤ s.total
      → is_even s.total ≡ false
      → find cmp x s.map_element ≡ some 1
      → Removes x s
  unfolding step_before_removal
  removal_odd x s v two odd found =
      let h = (s.total - 2) / 2 in
      let m = s.map_element in
      let half : (s.total - 1) / 2 ≡ suc h = ground arith in
      let inside : suc h < length m = ground (arith, v.size) in
      let q : Points s m (suc h) =
        subst (Points s m) half (v.points (λ e. absurd (omega (arith, e)))) in
      let read = read-Points s m (suc h) v.ordered q in
      let (s₂, e, r, t) = decrement-Points s m h v.ordered v.ones inside q in
      let before = less-at cmp m h r.key q.key 1 1 v.ordered r.there q.there in
      let two₂ : 2 ≤ s₂.total = omega (arith, t) in
      elim (Bool-cases (cmp.less x q.key)) [
        | inl below ↦
            let other : same_key cmp x q.key ≡ false = ground arith in
            let (p', n, k) =
              taken x s m (suc h) h q two
                (erase-below cmp x m h q.key 1 1 v.ordered found q.there below) in
            (s, rw (read, other, odd, below) refl, p', n, k)
        | inr above ↦
            let less_x : cmp.less r.key x ≡ true =
              ground
                (arith, before, cmp.less_trans r.key q.key x before, same_key_iff cmp x q.key) in
            let (p', n, k) =
              taken x s₂ m h h r two₂ (erase-above cmp x m h r.key 1 v.ordered r.there less_x) in
            (s₂, back read odd above e, p', n ∙ ap (λ i. i - 1) t, k)
      ]
    where
      back :
          {a : A} {s₂ : Median A}
          → read_key cmp s ≡ some a
          → is_even s.total ≡ false
          → cmp.less x a ≡ false
          → decrement_map cmp s ≡ some s₂
          → step_before_removal cmp x 1 s ≡ some s₂
      back {a} read odd above e = elim (Bool-cases (same_key cmp x a)) [
        | inl same ↦ rw (read, same, odd) e
        | inr other ↦ rw (read, other, odd, above) e
      ]

  -- An even number of elements: the iterator goes on, unless a greater element leaves.
  pub removal_even :
      (x : A) (s : Median A)
      → IsMedian s
      → 2 ≤ s.total
      → is_even s.total ≡ true
      → find cmp x s.map_element ≡ some 1
      → Removes x s
  unfolding step_before_removal
  removal_even x s v two even found =
      let h = (s.total - 2) / 2 in
      let m = s.map_element in
      let half : (s.total - 1) / 2 ≡ h = ground arith in
      let inside : suc h < length m = ground (arith, v.size) in
      let q : Points s m h = subst (Points s m) half (v.points (λ e. absurd (omega (arith, e)))) in
      let read = read-Points s m h v.ordered q in
      let (s₂, e, r, t) = increment-Points s m h v.ordered v.ones inside q in
      let before = less-at cmp m h q.key r.key 1 1 v.ordered q.there r.there in
      let two₂ : 2 ≤ s₂.total = omega (arith, t) in
      let start : leb 1 (s.elem_before + 1) ≡ true = ground arith in
      elim (Bool-cases (cmp.less q.key x)) [
        | inl above ↦
            let not_below : cmp.less x q.key ≡ false =
              ground (arith, cmp.less_trans x q.key x, cmp.less_irrefl x) in
            let other : same_key cmp x q.key ≡ false = ground arith in
            let (p', n, k) =
              taken x s m h h q two (erase-above cmp x m h q.key 1 v.ordered q.there above) in
            (s, rw (read, other, even, not_below) refl, p', n, k)
        | inr below ↦
            let x_less : cmp.less x r.key ≡ true =
              ground (arith, before, cmp.less_trans x q.key r.key, same_key_iff cmp x q.key) in
            let (p', n, k) =
              taken x s₂ m (suc h) h r two₂
                (erase-below cmp x m h r.key 1 1 v.ordered found r.there x_less) in
            (s₂, on read even below start e, p', n ∙ ap (λ i. i - 1) t, k)
      ]
    where
      on :
          {a : A} {s₂ : Median A}
          → read_key cmp s ≡ some a
          → is_even s.total ≡ true
          → cmp.less a x ≡ false
          → leb 1 (s.elem_before + 1) ≡ true
          → increment_map cmp s ≡ some s₂
          → step_before_removal cmp x 1 s ≡ some s₂
      on {a} read even below start e = elim (Bool-cases (same_key cmp x a)) [
        | inl same ↦ rw (read, same, even, start) e
        | inr other ↦
            let under : cmp.less x a ≡ true = ground arith in rw (read, other, even, under) e
      ]
