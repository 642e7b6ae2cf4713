-- ===== src/Join/Scale/Whole.antt =====
-- Pipe.hpp, scaleJoin: all instances of a ScaleJoin together, on streams of new tuples.
use pipefabric.Prelude.{
  ℕ, suc, ◌+◌, ◌*◌, ◌<◌, ◌≡◌, refl, ap, ◌∙◌, ◌⊎◌, map, inl, inr, Bool, false, List, [], ◌∷◌, arith,
  length, count_if, count_if-append, All,
}
use pipefabric.Prelude.Eq.{Eq}
use pipefabric.Stream.{Event, news, outs, news-append, outs-append, run}
use pipefabric.Join.Reference.{Joining, row, column, joins}
use pipefabric.Join.Symmetric.{Input, left, right}
use pipefabric.Join.Scale.{ScaleJoin, next_turn, handle_all}
use pipefabric.Join.Scale.Fleet.{
  IsFleet, lefts, rights, hits-one, turn-lt, news-left, news-right, left-stores, right-stores,
  left-keeps, right-keeps,
}

module _ {ℓ} {L R K Q : Type ℓ} ⦃key_eq : Eq K⦄ ⦃left_eq : Eq L⦄ ⦃right_eq : Eq R⦄ (narrow : K → K)
    (j : Joining L R K Q) where
  -- A new tuple of either side, and that its key is one of type key_t.
  abbrev pub arrival : L ⊎ R → Input L R
  arrival (inl l) = left l false
  arrival (inr r) = right r false

  abbrev pub HasShortKey : L ⊎ R → Type ℓ
  HasShortKey (inl l) = narrow (j.left_key l) ≡ j.left_key l
  HasShortKey (inr r) = narrow (j.right_key r) ≡ j.right_key r

  -- The nested-loop join of all that the instances store.
  abbrev pub joined : List (ScaleJoin L R K) → List Q
  joined ss = joins j (lefts narrow j ss) (rights narrow j ss)

  -- One input: the join of what is stored grows by what is published, and the fleet stays one.
  abbrev pub Grows :
      (Q → Bool) → ℕ → List (ScaleJoin L R K) → List (ScaleJoin L R K) × List (Event Q) → Type ℓ
  Grows p n ss r =
      (count_if p (news r.1) + count_if p (joined ss) ≡ count_if p (joined r.0))
      × (outs r.1 ≡ [])
      × (a b : ℕ) × (a < n)
      × (b < n)
      × (length r.0 ≡ n)
      × IsFleet narrow j n a b 0 r.0

  length-handle_all :
      (ss : List (ScaleJoin L R K)) (i : Input L R)
      → length (handle_all narrow j ss i).0 ≡ length ss
  unfolding handle_all
  length-handle_all [] i = refl
  length-handle_all (s ∷ ss) i = ap suc (length-handle_all ss i)

  handle_all-Grows :
      (p : Q → Bool) (n a b : ℕ) (ss : List (ScaleJoin L R K)) (i : L ⊎ R)
      → a < n
      → b < n
      → length ss ≡ n
      → IsFleet narrow j n a b 0 ss
      → HasShortKey i
      → Grows p n ss (handle_all narrow j ss (arrival i))
  handle_all-Grows p n a b ss (inl l) ha hb len f w =
      let (new, old) = news-left narrow j p n a b 0 ss l f in
      let (same, fleet) = left-keeps narrow j n a b 0 ss l w f in
      let one = hits-one a 0 (length ss) (omega arith) (omega arith) in
      (
        rw same (
            omega (
              arith,
              new,
              left-stores narrow j p (rights narrow j ss) n a b 0 ss l f,
              ap (λ h. h * count_if p (row j l (rights narrow j ss))) one,
            )),
        old,
        next_turn a n,
        b,
        turn-lt a n ha,
        hb,
        length-handle_all ss (left l false) ∙ len,
        fleet,
      )
  handle_all-Grows p n a b ss (inr r) ha hb len f w =
      let (new, old) = news-right narrow j p n a b 0 ss r f in
      let (same, fleet) = right-keeps narrow j n a b 0 ss r w f in
      let one = hits-one b 0 (length ss) (omega arith) (omega arith) in
      (
        rw same (
            omega (
              arith,
              new,
              right-stores narrow j p (lefts narrow j ss) n a b 0 ss r f,
              ap (λ h. h * count_if p (column j (lefts narrow j ss) r)) one,
            )),
        old,
        a,
        next_turn b n,
        ha,
        turn-lt b n hb,
        length-handle_all ss (right r false) ∙ len,
        fleet,
      )

  -- `n` instances with the ids 0 to n - 1, which agree on whose turn it is, are handed the same new
  -- tuples, whose keys are keys of type key_t. Together they then publish nothing as outdated, and
  -- each result as often as it stands in the join of all that they store afterwards and did not
  -- stand in the join of what they stored before.
  pub run-joins_whole :
      (p : Q → Bool) (n a b : ℕ) (ss : List (ScaleJoin L R K)) (is : List (L ⊎ R))
      → a < n
      → b < n
      → length ss ≡ n
      → IsFleet narrow j n a b 0 ss
      → All HasShortKey is
      → Grows p n ss (run (handle_all narrow j) ss (map arrival is))
  unfolding run
  run-joins_whole p n a b ss [] ha hb len f w = (omega arith, refl, a, b, ha, hb, len, f)
  run-joins_whole p n a b ss (i ∷ is) ha hb len f w =
      let ss₁ = (handle_all narrow j ss (arrival i)).0 in
      let out₁ = (handle_all narrow j ss (arrival i)).1 in
      let out₂ = (run (handle_all narrow j) ss₁ (map arrival is)).1 in
      let (new₁, old₁, a₁, b₁, ha₁, hb₁, len₁, f₁) =
        handle_all-Grows p n a b ss i ha hb len f w.0 in
      let (new₂, old₂, a₂, b₂, ha₂, hb₂, len₂, f₂) =
        run-joins_whole p n a₁ b₁ ss₁ is ha₁ hb₁ len₁ f₁ w.1 in
      (
        rw (news-append out₁ out₂)
            (omega (arith, new₁, new₂, count_if-append p (news out₁) (news out₂))),
        rw (outs-append out₁ out₂, old₁) old₂,
        a₂,
        b₂,
        ha₂,
        hb₂,
        len₂,
        f₂,
      )
