-- ===== src/Aggr/Median/Places.antt =====
-- The entries of an ordered map by their places, when an entry comes or goes.

use pipefabric.Prelude.{
  ℕ, zero, suc, ◌+◌, ◌≡◌, refl, sym, subst, true, false, Option, none, some, List, [], ◌∷◌,
  get_elem?, length, arith, All, All-map,
}
use pipefabric.Aggr.Counters.{Comparator, same_key, find, erase, insert, IsOrdered}
use pipefabric.Aggr.Median.{next_of, previous_of}

module _ {ℓ} {A : Type ℓ} (cmp : Comparator A) where
  same_key_refl : (a : A) → same_key cmp a a ≡ true
  same_key_refl a = ground (arith, cmp.less_irrefl a)

  All-at :
      (P : A × ℕ → Type 0) (m : List (A × ℕ)) (i : ℕ) (a : A) (c : ℕ)
      → All P m
      → get_elem? m i ≡ some (a, c)
      → P (a, c)
  All-at P [] i a c h e = absurd (cc e)
  All-at P (x ∷ m) zero a c h e = subst P (some_entry e) h.0
    where
      some_entry : ◌≡◌ {A = Option (A × ℕ)} (some x) (some (a, c)) → x ≡ (a, c)
      some_entry e = cc
  All-at P (x ∷ m) (suc i) a c h e = All-at P m i a c h.1 e

  less_asym : (a b : A) → cmp.less a b ≡ true → cmp.less b a ≡ false
  less_asym a b h = ground (arith, cmp.less_trans a b a h, cmp.less_irrefl a)

  pub find-at :
      (m : List (A × ℕ)) (i : ℕ) (a : A) (c : ℕ)
      → IsOrdered cmp m
      → get_elem? m i ≡ some (a, c)
      → find cmp a m ≡ some c
  unfolding find
  find-at [] i a c o e = absurd (cc e)
  find-at ((k, d) ∷ m) zero a c o e = ground (arith, same_key_refl a)
  find-at ((k, d) ∷ m) (suc i) a c o e =
      let before : cmp.less k a ≡ true = All-at (λ x. cmp.less k x.0 ≡ true) m i a c o.0 e in
      ground (arith, before, find-at m i a c o.1 e)

  pub next_of-at :
      (m : List (A × ℕ)) (i : ℕ) (a b : A) (c d : ℕ)
      → IsOrdered cmp m
      → get_elem? m i ≡ some (a, c)
      → get_elem? m (suc i) ≡ some (b, d)
      → next_of cmp a m ≡ some (some b)
  unfolding next_of
  next_of-at [] i a b c d o e f = absurd (cc e)
  next_of-at ((k, x) ∷ []) i a b c d o e f = absurd (cc f)
  next_of-at ((k, x) ∷ (j, y) ∷ m) zero a b c d o e f = ground (arith, same_key_refl a)
  next_of-at ((k, x) ∷ (j, y) ∷ m) (suc i) a b c d o e f =
      let before : cmp.less k a ≡ true =
        All-at (λ x. cmp.less k x.0 ≡ true) ((j, y) ∷ m) i a c o.0 e in
      ground (arith, before, next_of-at ((j, y) ∷ m) i a b c d o.1 e f)

  pub previous_of-at :
      (m : List (A × ℕ)) (i : ℕ) (p : Option A) (a b : A) (c d : ℕ)
      → IsOrdered cmp m
      → get_elem? m i ≡ some (b, d)
      → get_elem? m (suc i) ≡ some (a, c)
      → previous_of cmp p a m ≡ some b
  unfolding previous_of
  previous_of-at [] i p a b c d o e f = absurd (cc e)
  previous_of-at ((k, x) ∷ []) i p a b c d o e f = absurd (cc f)
  previous_of-at ((k, x) ∷ (j, y) ∷ m) zero p a b c d o e f =
      let before : cmp.less k a ≡ true =
        All-at (λ x. cmp.less k x.0 ≡ true) ((j, y) ∷ m) 0 a c o.0 f in
      ground (arith, before, same_key_refl a)
  previous_of-at ((k, x) ∷ (j, y) ∷ m) (suc i) p a b c d o e f =
      let before : cmp.less k a ≡ true =
        All-at (λ x. cmp.less k x.0 ≡ true) ((j, y) ∷ m) (suc i) a c o.0 f in
      ground (arith, before, previous_of-at ((j, y) ∷ m) i (some k) a b c d o.1 e f)

  pub length-insert : (x : A) (n : ℕ) (m : List (A × ℕ)) → length (insert cmp x n m) ≡ length m + 1
  unfolding insert
  length-insert x n [] = omega arith
  length-insert x n ((k, c) ∷ m) = ground (arith, length-insert x n m)

  pub length-erase :
      (x : A) (c : ℕ) (m : List (A × ℕ))
      → find cmp x m ≡ some c
      → length (erase cmp x m) + 1 ≡ length m
  unfolding erase find
  length-erase x c [] e = absurd (cc e)
  length-erase x c ((k, d) ∷ m) e = ground (arith, length-erase x c m)

  pub insert-below :
      (x : A) (n : ℕ) (m : List (A × ℕ)) (i : ℕ) (a : A) (c : ℕ)
      → IsOrdered cmp m
      → get_elem? m i ≡ some (a, c)
      → cmp.less x a ≡ true
      → get_elem? (insert cmp x n m) (suc i) ≡ some (a, c)
  unfolding insert
  insert-below x n [] i a c o e lt = absurd (cc e)
  insert-below x n ((k, d) ∷ m) zero a c o e lt = ground arith
  insert-below x n ((k, d) ∷ m) (suc i) a c o e lt =
      ground (arith, insert-below x n m i a c o.1 e lt)

  pub insert-above :
      (x : A) (n : ℕ) (m : List (A × ℕ)) (i : ℕ) (a : A) (c : ℕ)
      → IsOrdered cmp m
      → get_elem? m i ≡ some (a, c)
      → cmp.less x a ≡ false
      → get_elem? (insert cmp x n m) i ≡ some (a, c)
  unfolding insert
  insert-above x n [] i a c o e ge = absurd (cc e)
  insert-above x n ((k, d) ∷ m) zero a c o e ge = ground arith
  insert-above x n ((k, d) ∷ m) (suc i) a c o e ge =
      let before : cmp.less k a ≡ true = All-at (λ x. cmp.less k x.0 ≡ true) m i a c o.0 e in
      ground (arith, insert-above x n m i a c o.1 e ge, cmp.less_trans x k a)

  find-below : (x : A) (m : List (A × ℕ)) → All (λ e. cmp.less x e.0 ≡ true) m → find cmp x m ≡ none
  unfolding find
  find-below x [] h = refl
  find-below x ((k, c) ∷ m) h = ground (arith, find-below x m h.1, h.0)

  not_before_head :
      (x a : A) (c d : ℕ) (m : List (A × ℕ))
      → IsOrdered cmp m
      → get_elem? m 0 ≡ some (a, c)
      → cmp.less x a ≡ true
      → find cmp x m ≡ none
  not_before_head x a c d [] o e lt = absurd (cc e)
  not_before_head x a c d ((k, y) ∷ m) o e lt =
      let head : k ≡ a = ground arith in
      let under : cmp.less x k ≡ true = subst (λ z. cmp.less x z ≡ true) (sym head) lt in
      find-below x ((k, y) ∷ m) (under, All-map (λ z q. cmp.less_trans x k z.0 under q) m o.0)

  pub erase-below :
      (x : A) (m : List (A × ℕ)) (i : ℕ) (a : A) (c d : ℕ)
      → IsOrdered cmp m
      → find cmp x m ≡ some d
      → get_elem? m (suc i) ≡ some (a, c)
      → cmp.less x a ≡ true
      → get_elem? (erase cmp x m) i ≡ some (a, c)
  unfolding erase find
  erase-below x [] i a c d o f e lt = absurd (cc f)
  erase-below x ((k, y) ∷ m) zero a c d o f e lt =
      ground (arith, not_before_head x a c d m o.1 e lt)
  erase-below x ((k, y) ∷ m) (suc i) a c d o f e lt = ground (arith, erase-below x m i a c d o.1)

  pub erase-above :
      (x : A) (m : List (A × ℕ)) (i : ℕ) (a : A) (c : ℕ)
      → IsOrdered cmp m
      → get_elem? m i ≡ some (a, c)
      → cmp.less a x ≡ true
      → get_elem? (erase cmp x m) i ≡ some (a, c)
  unfolding erase
  erase-above x [] i a c o e lt = absurd (cc e)
  erase-above x ((k, y) ∷ m) zero a c o e lt =
      ground (arith, cmp.less_trans a x a lt, cmp.less_irrefl a)
  erase-above x ((k, y) ∷ m) (suc i) a c o e lt =
      let before : cmp.less k a ≡ true = All-at (λ x. cmp.less k x.0 ≡ true) m i a c o.0 e in
      ground (arith, erase-above x m i a c o.1 e lt, cmp.less_trans k a x before lt)

  pub less-at :
      (m : List (A × ℕ)) (i : ℕ) (a b : A) (c d : ℕ)
      → IsOrdered cmp m
      → get_elem? m i ≡ some (a, c)
      → get_elem? m (suc i) ≡ some (b, d)
      → cmp.less a b ≡ true
  less-at [] i a b c d o e f = absurd (cc e)
  less-at ((k, x) ∷ m) zero a b c d o e f =
      let head : k ≡ a = ground arith in
      subst (λ z. cmp.less z b ≡ true) head (All-at (λ y. cmp.less k y.0 ≡ true) m 0 b d o.0 f)
  less-at ((k, x) ∷ m) (suc i) a b c d o e f = less-at m i a b c d o.1 e f
