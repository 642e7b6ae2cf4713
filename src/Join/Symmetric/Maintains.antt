-- ===== src/Join/Symmetric/Maintains.antt =====
-- The symmetric hash join maintains the nested-loop join of what its tables hold: what it publishes
-- as new and as outdated is the change of that join.
use pipefabric.Prelude.{
  ℕ, ◌+◌, ◌*◌, ◌≡◌, refl, ap, sym, ◌∙◌, Bool-cases, inl, inr, Bool, true, false, List, [], ◌∷◌,
  arith, count_if, count_if-append,
}
use pipefabric.Prelude.Eq.{Eq, beq_comm}
use pipefabric.Stream.{news, outs, news-append, outs-append, run}
use pipefabric.Join.Table.{
  equal_range, erase_equal, update_hash_table, elements, IsKeyed, update_hash_table-IsKeyed,
}
use pipefabric.Join.Reference.{Joining, row, column, joins, count-joins-left, count-joins-right}
use pipefabric.Join.Symmetric.{
  Input, left, right, mark, HashJoin, join_left, join_right, process_left, process_right, handle,
}

-- How often an element is stored.
abbrev pub copies {ℓ} : {A : Type ℓ} ⦃e : Eq A⦄ → A → List A → ℕ
copies ⦃e⦄ a xs = count_if (e.beq a) xs

module _ {ℓ} {L R K Q : Type ℓ} ⦃key_eq : Eq K⦄ ⦃left_eq : Eq L⦄ ⦃right_eq : Eq R⦄
    (j : Joining L R K Q) where
  pub news-join_left :
      (l : L) (t : List (K × R))
      → IsKeyed j.right_key t
      → (news (join_left j l (equal_range (j.left_key l) t) false) ≡ row j l (elements t))
        × (outs (join_left j l (equal_range (j.left_key l) t) false) ≡ [])
  unfolding join_left equal_range
  news-join_left l [] h = (refl, refl)
  news-join_left l ((k, r) ∷ t) h =
      ground (arith, news-join_left l t h.1, beq_comm (j.left_key l) (j.right_key r))

  pub outs-join_left :
      (l : L) (t : List (K × R))
      → IsKeyed j.right_key t
      → (outs (join_left j l (equal_range (j.left_key l) t) true) ≡ row j l (elements t))
        × (news (join_left j l (equal_range (j.left_key l) t) true) ≡ [])
  unfolding join_left equal_range
  outs-join_left l [] h = (refl, refl)
  outs-join_left l ((k, r) ∷ t) h =
      ground (arith, outs-join_left l t h.1, beq_comm (j.left_key l) (j.right_key r))

  pub news-join_right :
      (r : R) (t : List (K × L))
      → IsKeyed j.left_key t
      → (news (join_right j (equal_range (j.right_key r) t) r false) ≡ column j (elements t) r)
        × (outs (join_right j (equal_range (j.right_key r) t) r false) ≡ [])
  unfolding join_right equal_range
  news-join_right r [] h = (refl, refl)
  news-join_right r ((k, l) ∷ t) h = ground (arith, news-join_right r t h.1)

  pub outs-join_right :
      (r : R) (t : List (K × L))
      → IsKeyed j.left_key t
      → (outs (join_right j (equal_range (j.right_key r) t) r true) ≡ column j (elements t) r)
        × (news (join_right j (equal_range (j.right_key r) t) r true) ≡ [])
  unfolding join_right equal_range
  outs-join_right r [] h = (refl, refl)
  outs-join_right r ((k, l) ∷ t) h = ground (arith, outs-join_right r t h.1)

  -- Erasing an element erases all its copies.
  erase-left :
      (p : Q → Bool) (l : L) (t : List (K × L)) (rs : List R)
      → IsKeyed j.left_key t
      → count_if p (joins j (elements t) rs)
        ≡ count_if p (joins j (elements (erase_equal (j.left_key l) l t)) rs)
          + copies l (elements t) * count_if p (row j l rs)
  unfolding erase_equal
  erase-left p l [] rs h = omega arith
  erase-left p l ((k, x) ∷ t) rs h = elim (Bool-cases (left_eq.beq l x)) [
    | inl same ↦
        let e : l ≡ x = (left_eq.beq_iff l x).0 same in
        let hit : key_eq.beq k (j.left_key l) ≡ true =
          (key_eq.beq_iff k (j.left_key l)).1 (h.0 ∙ ap j.left_key (sym e)) in
        let line : count_if p (row j x rs) ≡ count_if p (row j l rs) =
          ap (λ y. count_if p (row j y rs)) (sym e) in
        rw (hit, same)
          (omega (arith, line, count-joins-left j p x (elements t) rs, erase-left p l t rs h.1))
    | inr other ↦ ground (
      arith,
      count-joins-left j p x (elements t) rs,
      count-joins-left j p x (elements (erase_equal (j.left_key l) l t)) rs,
      erase-left p l t rs h.1,
    )
  ]

  erase-right :
      (p : Q → Bool) (r : R) (t : List (K × R)) (ls : List L)
      → IsKeyed j.right_key t
      → count_if p (joins j ls (elements t))
        ≡ count_if p (joins j ls (elements (erase_equal (j.right_key r) r t)))
          + copies r (elements t) * count_if p (column j ls r)
  unfolding erase_equal
  erase-right p r [] ls h = omega arith
  erase-right p r ((k, x) ∷ t) ls h = elim (Bool-cases (right_eq.beq r x)) [
    | inl same ↦
        let e : r ≡ x = (right_eq.beq_iff r x).0 same in
        let hit : key_eq.beq k (j.right_key r) ≡ true =
          (key_eq.beq_iff k (j.right_key r)).1 (h.0 ∙ ap j.right_key (sym e)) in
        let line : count_if p (column j ls x) ≡ count_if p (column j ls r) =
          ap (λ y. count_if p (column j ls y)) (sym e) in
        rw (hit, same)
          (omega (arith, line, count-joins-right j p ls x (elements t), erase-right p r t ls h.1))
    | inr other ↦ ground (
      arith,
      count-joins-right j p ls x (elements t),
      count-joins-right j p ls x (elements (erase_equal (j.right_key r) r t)),
      erase-right p r t ls h.1,
    )
  ]

  pub record IsKeyedJoin (s : HashJoin L R K) : Type ℓ where
    pub left_keyed : IsKeyed j.left_key s.l_table
    pub right_keyed : IsKeyed j.right_key s.r_table

  -- The nested-loop join of the elements that the tables hold.
  abbrev pub joined : HashJoin L R K → List Q
  joined s = joins j (elements s.l_table) (elements s.r_table)

  -- How many stored elements an input takes away, where it publishes the results of one.
  abbrev pub multiplicity : HashJoin L R K → Input L R → ℕ
  multiplicity s (left l false) = 1
  multiplicity s (left l true) = copies l (elements s.l_table)
  multiplicity s (right r false) = 1
  multiplicity s (right r true) = copies r (elements s.r_table)
  multiplicity s (mark p) = 1

  -- On every input, the join of the tables grows by what is published as new, and shrinks by what
  -- is published as outdated, taken as often as the outdated element was stored.
  pub handle-maintains :
      (p : Q → Bool) (s : HashJoin L R K) (i : Input L R)
      → IsKeyedJoin s
      → count_if p (news (handle j s i).1) + count_if p (joined s)
        ≡ count_if p (joined (handle j s i).0)
          + multiplicity s i * count_if p (outs (handle j s i).1)
  unfolding handle process_left process_right update_hash_table
  handle-maintains p s (left l false) v =
      let (new, old) = news-join_left l s.r_table v.right_keyed in
      rw (new, old)
        (omega (arith, count-joins-left j p l (elements s.l_table) (elements s.r_table)))
  handle-maintains p s (left l true) v =
      let (old, new) = outs-join_left l s.r_table v.right_keyed in
      rw (new, old) (omega (arith, erase-left p l s.l_table (elements s.r_table) v.left_keyed))
  handle-maintains p s (right r false) v =
      let (new, old) = news-join_right r s.l_table v.left_keyed in
      rw (new, old)
        (omega (arith, count-joins-right j p (elements s.l_table) r (elements s.r_table)))
  handle-maintains p s (right r true) v =
      let (old, new) = outs-join_right r s.l_table v.left_keyed in
      rw (new, old) (omega (arith, erase-right p r s.r_table (elements s.l_table) v.right_keyed))
  handle-maintains p s (mark q) v = omega arith

  handle-IsKeyedJoin :
      (s : HashJoin L R K) (i : Input L R) → IsKeyedJoin s → IsKeyedJoin (handle j s i).0
  unfolding handle process_left process_right
  handle-IsKeyedJoin s (left l o) v = record {
    left_keyed = update_hash_table-IsKeyed j.left_key s.l_table l o v.left_keyed;
    right_keyed = v.right_keyed;
  }
  handle-IsKeyedJoin s (right r o) v = record {
    left_keyed = v.left_keyed;
    right_keyed = update_hash_table-IsKeyed j.right_key s.r_table r o v.right_keyed;
  }
  handle-IsKeyedJoin s (mark p) v = v

  -- A run in which every outdated element is stored once when it arrives.
  abbrev pub IsClean : HashJoin L R K → List (Input L R) → Type 0
  IsClean s [] = Unit
  IsClean s (i ∷ is) = (multiplicity s i ≡ 1) × IsClean (handle j s i).0 is

  -- Over a run in which every outdated element is stored exactly once when it arrives, each result
  -- is published as new and stood in the join of the old tables as often as it was published as
  -- outdated and stands in the join of the new tables.
  pub run-maintains :
      (p : Q → Bool) (s : HashJoin L R K) (is : List (Input L R))
      → IsKeyedJoin s
      → IsClean s is
      → count_if p (news (run (handle j) s is).1) + count_if p (joined s)
        ≡ count_if p (joined (run (handle j) s is).0) + count_if p (outs (run (handle j) s is).1)
  unfolding run
  run-maintains p s [] v c = omega arith
  run-maintains p s (i ∷ is) v c =
      let s' = (handle j s i).0 in
      let out = (handle j s i).1 in
      let rest = (run (handle j) s' is).1 in
      let once : multiplicity s i * count_if p (outs out) ≡ count_if p (outs out) =
        ap (λ m. m * count_if p (outs out)) c.0 ∙ omega arith in
      rw (news-append out rest, outs-append out rest)
        (omega (
          arith,
          once,
          count_if-append p (news out) (news rest),
          count_if-append p (outs out) (outs rest),
          handle-maintains p s i v,
          run-maintains p s' is (handle-IsKeyedJoin s i v) c.1,
        ))
