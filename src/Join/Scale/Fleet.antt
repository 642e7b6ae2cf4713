-- ===== src/Join/Scale/Fleet.antt =====
-- The instances of a ScaleJoin, and what one new tuple does to all of them.
use pipefabric.Prelude.{
  ℕ, zero, suc, ◌+◌, ◌*◌, ◌≤◌, ◌<◌, ◌≡◌, refl, ap, ap₂, Bool, false, List, [], ◌∷◌, ◌++◌, arith,
  length, ◌==◌, if◌then◌else◌, count_if, count_if-append,
}
use pipefabric.Prelude.Eq.{Eq}
use pipefabric.Stream.{news, outs, news-append, outs-append}
use pipefabric.Join.Table.{equal_range, update_hash_table, elements, IsKeyed}
use pipefabric.Join.Reference.{
  Joining, row, column, joins, count-joins-left, count-joins-right, count-joins-append,
  count-joins-append_right, count-row-append, count-column-append,
}
use pipefabric.Join.Symmetric.{left, right, join_left, join_right}
use pipefabric.Join.Symmetric.Maintains.{news-join_left, news-join_right}
use pipefabric.Join.Scale.{
  ScaleJoin, next_turn, store_left, store_right, process_left, process_right, handle, handle_all,
}

-- How many of `m` consecutive ids from `k` on have their turn.
abbrev pub hits : ℕ → ℕ → ℕ → ℕ
hits turn k zero = 0
hits turn k (suc m) = (if turn == k then 1 else 0) + hits turn (k + 1) m

pub turn-lt : (turn n : ℕ) → turn < n → next_turn turn n < n
turn-lt turn n h = grind arith

hits-none : (turn k m : ℕ) → turn < k → hits turn k m ≡ 0
hits-none turn k zero h = refl
hits-none turn k (suc m) h = ground (arith, hits-none turn (k + 1) m)

pub hits-one : (turn k m : ℕ) → k ≤ turn → turn < k + m → hits turn k m ≡ 1
hits-one turn k zero h lt = absurd (omega arith)
hits-one turn k (suc m) h lt = ground (arith, hits-none turn (k + 1) m, hits-one turn (k + 1) m)

module _ {ℓ} {L R K Q : Type ℓ} ⦃key_eq : Eq K⦄ ⦃left_eq : Eq L⦄ ⦃right_eq : Eq R⦄ (narrow : K → K)
    (j : Joining L R K Q) where
  -- One of `n` instances, with its id and the turns that all instances agree on.
  pub record IsInstance (n a b k : ℕ) (s : ScaleJoin L R K) : Type ℓ where
    pub numbered : s.id ≡ k
    pub threads : s.thread_num ≡ n
    pub left_turn : s.l_cntr ≡ a
    pub right_turn : s.r_cntr ≡ b
    pub left_keyed : IsKeyed j.left_key s.l_table
    pub right_keyed : IsKeyed j.right_key s.r_table

  abbrev pub IsFleet : ℕ → ℕ → ℕ → ℕ → List (ScaleJoin L R K) → Type ℓ
  IsFleet n a b k [] = Unit
  IsFleet n a b k (s ∷ ss) = IsInstance n a b k s × IsFleet n a b (k + 1) ss

  -- What the instances store, together.
  abbrev pub lefts : List (ScaleJoin L R K) → List L
  lefts [] = []
  lefts (s ∷ ss) = elements s.l_table ++ lefts ss

  abbrev pub rights : List (ScaleJoin L R K) → List R
  rights [] = []
  rights (s ∷ ss) = elements s.r_table ++ rights ss

  -- What the instances publish for a left tuple is its row, cut into the shares.
  pub news-left :
      (p : Q → Bool) (n a b k : ℕ) (ss : List (ScaleJoin L R K)) (l : L)
      → IsFleet n a b k ss
      → (count_if p (news (handle_all narrow j ss (left l false)).1)
          ≡ count_if p (row j l (rights ss)))
        × (outs (handle_all narrow j ss (left l false)).1 ≡ [])
  unfolding handle_all handle process_left
  news-left p n a b k [] l f = (refl, refl)
  news-left p n a b k (s ∷ ss) l f =
      let out = join_left j l (equal_range (j.left_key l) s.r_table) false in
      let rest = (handle_all narrow j ss (left l false)).1 in
      let (new, old) = news-join_left j l s.r_table f.0.right_keyed in
      let (counted, olds) = news-left p n a b (k + 1) ss l f.1 in
      (
        rw (news-append out rest, new)
            (omega (
              arith,
              counted,
              count_if-append p (row j l (elements s.r_table)) (news rest),
              count-row-append j p l (elements s.r_table) (rights ss),
            )),
        rw (outs-append out rest, old) olds,
      )

  pub news-right :
      (p : Q → Bool) (n a b k : ℕ) (ss : List (ScaleJoin L R K)) (r : R)
      → IsFleet n a b k ss
      → (count_if p (news (handle_all narrow j ss (right r false)).1)
          ≡ count_if p (column j (lefts ss) r))
        × (outs (handle_all narrow j ss (right r false)).1 ≡ [])
  unfolding handle_all handle process_right
  news-right p n a b k [] r f = (refl, refl)
  news-right p n a b k (s ∷ ss) r f =
      let out = join_right j (equal_range (j.right_key r) s.l_table) r false in
      let rest = (handle_all narrow j ss (right r false)).1 in
      let (new, old) = news-join_right j r s.l_table f.0.left_keyed in
      let (counted, olds) = news-right p n a b (k + 1) ss r f.1 in
      (
        rw (news-append out rest, new)
            (omega (
              arith,
              counted,
              count_if-append p (column j (elements s.l_table) r) (news rest),
              count-column-append j p (elements s.l_table) (lefts ss) r,
            )),
        rw (outs-append out rest, old) olds,
      )

  left_share :
      (p : Q → Bool) (others : List R) (s : ScaleJoin L R K) (l : L)
      → count_if p (joins j (elements (store_left narrow j s l false).l_table) others)
        ≡ count_if p (joins j (elements s.l_table) others)
          + (if s.l_cntr == s.id then 1 else 0) * count_if p (row j l others)
  unfolding store_left update_hash_table
  left_share p others s l = ground (arith, count-joins-left j p l (elements s.l_table) others)

  -- The other side's tables stay, and the turn passes on in every instance.
  pub left-keeps :
      (n a b k : ℕ) (ss : List (ScaleJoin L R K)) (l : L)
      → narrow (j.left_key l) ≡ j.left_key l
      → IsFleet n a b k ss
      → (rights (handle_all narrow j ss (left l false)).0 ≡ rights ss)
        × IsFleet n (next_turn a n) b k (handle_all narrow j ss (left l false)).0
  unfolding handle_all handle process_left store_left update_hash_table
  left-keeps n a b k [] l w f = (refl, tt)
  left-keeps n a b k (s ∷ ss) l w f =
      let (same, fleet) = left-keeps n a b (k + 1) ss l w f.1 in
      (
        ap (◌++◌ (elements s.r_table)) same,
        (
          record {
            numbered = f.0.numbered;
            threads = f.0.threads;
            left_turn = ap₂ next_turn f.0.left_turn f.0.threads;
            right_turn = f.0.right_turn;
            left_keyed = ground (arith, f.0.left_keyed);
            right_keyed = f.0.right_keyed;
          },
          fleet,
        ),
      )

  -- Each instance whose turn it is stores the tuple.
  pub left-stores :
      (p : Q → Bool) (others : List R) (n a b k : ℕ) (ss : List (ScaleJoin L R K)) (l : L)
      → IsFleet n a b k ss
      → count_if p (joins j (lefts (handle_all narrow j ss (left l false)).0) others)
        ≡ count_if p (joins j (lefts ss) others)
          + hits a k (length ss) * count_if p (row j l others)
  unfolding handle_all handle process_left store_left update_hash_table
  left-stores p others n a b k [] l f = omega arith
  left-stores p others n a b k (s ∷ ss) l f =
      let stored = store_left narrow j s l false in
      let ss' = (handle_all narrow j ss (left l false)).0 in
      let share : count_if p (joins j (elements stored.l_table) others)
          ≡ count_if p (joins j (elements s.l_table) others)
            + (if a == k then 1 else 0) * count_if p (row j l others) =
        rw (← f.0.left_turn, ← f.0.numbered) (left_share p others s l) in
      omega (
        arith,
        share,
        count-joins-append j p (elements stored.l_table) (lefts ss') others,
        count-joins-append j p (elements s.l_table) (lefts ss) others,
        left-stores p others n a b (k + 1) ss l f.1,
      )

  right_share :
      (p : Q → Bool) (others : List L) (s : ScaleJoin L R K) (r : R)
      → count_if p (joins j others (elements (store_right narrow j s r false).r_table))
        ≡ count_if p (joins j others (elements s.r_table))
          + (if s.r_cntr == s.id then 1 else 0) * count_if p (column j others r)
  unfolding store_right update_hash_table
  right_share p others s r = ground (arith, count-joins-right j p others r (elements s.r_table))

  -- The other side's tables stay, and the turn passes on in every instance.
  pub right-keeps :
      (n a b k : ℕ) (ss : List (ScaleJoin L R K)) (r : R)
      → narrow (j.right_key r) ≡ j.right_key r
      → IsFleet n a b k ss
      → (lefts (handle_all narrow j ss (right r false)).0 ≡ lefts ss)
        × IsFleet n a (next_turn b n) k (handle_all narrow j ss (right r false)).0
  unfolding handle_all handle process_right store_right update_hash_table
  right-keeps n a b k [] r w f = (refl, tt)
  right-keeps n a b k (s ∷ ss) r w f =
      let (same, fleet) = right-keeps n a b (k + 1) ss r w f.1 in
      (
        ap (◌++◌ (elements s.l_table)) same,
        (
          record {
            numbered = f.0.numbered;
            threads = f.0.threads;
            left_turn = f.0.left_turn;
            right_turn = ap₂ next_turn f.0.right_turn f.0.threads;
            left_keyed = f.0.left_keyed;
            right_keyed = ground (arith, f.0.right_keyed);
          },
          fleet,
        ),
      )

  -- Each instance whose turn it is stores the tuple.
  pub right-stores :
      (p : Q → Bool) (others : List L) (n a b k : ℕ) (ss : List (ScaleJoin L R K)) (r : R)
      → IsFleet n a b k ss
      → count_if p (joins j others (rights (handle_all narrow j ss (right r false)).0))
        ≡ count_if p (joins j others (rights ss))
          + hits b k (length ss) * count_if p (column j others r)
  unfolding handle_all handle process_right store_right update_hash_table
  right-stores p others n a b k [] r f = omega arith
  right-stores p others n a b k (s ∷ ss) r f =
      let stored = store_right narrow j s r false in
      let ss' = (handle_all narrow j ss (right r false)).0 in
      let share : count_if p (joins j others (elements stored.r_table))
          ≡ count_if p (joins j others (elements s.r_table))
            + (if b == k then 1 else 0) * count_if p (column j others r) =
        rw (← f.0.right_turn, ← f.0.numbered) (right_share p others s r) in
      omega (
        arith,
        share,
        count-joins-append_right j p others (elements stored.r_table) (rights ss'),
        count-joins-append_right j p others (elements s.r_table) (rights ss),
        right-stores p others n a b (k + 1) ss r f.1,
      )
