-- ===== src/Join/Reference.antt =====
-- What a join is to publish, without hash tables: the joined pairs of two lists of elements.
use pipefabric.Prelude.{
  ◌+◌, ◌≡◌, Bool, ◌&&◌, List, [], ◌∷◌, ◌++◌, arith, if◌then◌else◌, count_if, count_if-append,
}
use pipefabric.Prelude.Eq.{Eq}

-- The key extractors, the join predicate, and ElementJoin::joinElements.
pub record Joining {ℓ} (L R K Q : Type ℓ) : Type ℓ where
  pub left_key : L → K
  pub right_key : R → K
  pub predicate : L → R → Bool
  pub join_elements : L → R → Q

module _ {ℓ} {L R K Q : Type ℓ} ⦃key_eq : Eq K⦄ (j : Joining L R K Q) where
  abbrev pub matches : L → R → Bool
  matches l r = key_eq.beq (j.left_key l) (j.right_key r) && j.predicate l r

  -- The results of one left element, and of one right element.
  abbrev pub row : L → List R → List Q
  row l [] = []
  row l (r ∷ rs) = let rest = row l rs in if matches l r then j.join_elements l r ∷ rest else rest

  abbrev pub column : List L → R → List Q
  column [] r = []
  column (l ∷ ls) r =
      let rest = column ls r in if matches l r then j.join_elements l r ∷ rest else rest

  -- The nested-loop join.
  abbrev pub joins : List L → List R → List Q
  joins [] rs = []
  joins (l ∷ ls) rs = row l rs ++ joins ls rs

  module _ (p : Q → Bool) where
    -- Another right element adds its column.
    pub count-joins-right :
        (ls : List L) (r : R) (rs : List R)
        → count_if p (joins ls (r ∷ rs)) ≡ count_if p (joins ls rs) + count_if p (column ls r)
    count-joins-right [] r rs = omega arith
    count-joins-right (l ∷ ls) r rs = ground (
      arith,
      count_if-append p (row l (r ∷ rs)) (joins ls (r ∷ rs)),
      count_if-append p (row l rs) (joins ls rs),
      count-joins-right ls r rs,
    )

    pub count-joins-left :
        (l : L) (ls : List L) (rs : List R)
        → count_if p (joins (l ∷ ls) rs) ≡ count_if p (joins ls rs) + count_if p (row l rs)
    count-joins-left l ls rs = omega (arith, count_if-append p (row l rs) (joins ls rs))

    -- The joins of two parts of either side.
    pub count-joins-append :
        (ls ms : List L) (rs : List R)
        → count_if p (joins (ls ++ ms) rs) ≡ count_if p (joins ls rs) + count_if p (joins ms rs)
    count-joins-append [] ms rs = omega arith
    count-joins-append (l ∷ ls) ms rs = omega (
      arith,
      count_if-append p (row l rs) (joins (ls ++ ms) rs),
      count_if-append p (row l rs) (joins ls rs),
      count-joins-append ls ms rs,
    )

    pub count-row-append :
        (l : L) (rs ss : List R)
        → count_if p (row l (rs ++ ss)) ≡ count_if p (row l rs) + count_if p (row l ss)
    count-row-append l [] ss = omega arith
    count-row-append l (r ∷ rs) ss = ground (arith, count-row-append l rs ss)

    pub count-column-append :
        (ls ms : List L) (r : R)
        → count_if p (column (ls ++ ms) r) ≡ count_if p (column ls r) + count_if p (column ms r)
    count-column-append [] ms r = omega arith
    count-column-append (l ∷ ls) ms r = ground (arith, count-column-append ls ms r)

    pub count-joins-append_right :
        (ls : List L) (rs ss : List R)
        → count_if p (joins ls (rs ++ ss)) ≡ count_if p (joins ls rs) + count_if p (joins ls ss)
    count-joins-append_right [] rs ss = omega arith
    count-joins-append_right (l ∷ ls) rs ss = omega (
      arith,
      count_if-append p (row l (rs ++ ss)) (joins ls (rs ++ ss)),
      count_if-append p (row l rs) (joins ls rs),
      count_if-append p (row l ss) (joins ls ss),
      count-row-append l rs ss,
      count-joins-append_right ls rs ss,
    )
