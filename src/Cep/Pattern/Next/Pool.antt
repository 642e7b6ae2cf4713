-- ===== src/Cep/Pattern/Next/Pool.antt =====
-- The loop of NextMatchEngine over its pool, and the clean-up behind it.
use pipefabric.Prelude.{
  ℕ, suc, ◌+◌, ◌<◌, ◌≡◌, refl, ap, subst, ◌∙◌, Bool, true, false, Option, some, List, [], ◌∷◌, ◌++◌,
  ◌==◌, if◌then◌else◌, length, append_assoc, arith, Bool-cases, inl, inr, count_if, count_if-append,
  All, ltb,
}
use pipefabric.Prelude.Eq.{nat_eq}
use pipefabric.Prelude.Assoc.{without}
use pipefabric.Stream.{Event, all_fresh, news, news-append}
use pipefabric.Cep.{Structure}
use pipefabric.Cep.Engine.{
  WindowStruct, one_by_one, Engine, Processed, gc_loop, run_gc_structures, process_pool,
  publish_result_matches,
}
use pipefabric.Cep.Pool.{Rising, Safe, mem, mem-append, without-Rising, without-Safe, Safe-below}
use pipefabric.Cep.Pattern.Next

module _ {ℓ} {A D : Type ℓ} (init : D) (update : D → ℕ → A → D) (p q : A → Option D → Bool)
    (ps : List (A → Option D → Bool)) (w : WindowStruct) (test : A → Bool) where
  count_fresh : (xs : List A) → count_if test (news (all_fresh xs)) ≡ count_if test xs
  count_fresh [] = refl
  count_fresh (x ∷ xs) = ap (◌+◌ (if test x then 1 else 0)) (count_fresh xs)

  unfoldable pub published_tuples : List (Event A) → ℕ
  published_tuples out = count_if test (news out)

  fresh_tuples : (xs : List A) → published_tuples (all_fresh xs) ≡ count_if test xs
  unfolding published_tuples
  fresh_tuples xs = count_fresh xs

  pub published-append :
      (out later : List (Event A))
      → published_tuples (out ++ later) ≡ published_tuples out + published_tuples later
  unfolding published_tuples
  published-append out later =
      ap (count_if test) (news-append out later) ∙ count_if-append test (news out) (news later)

  -- The loop over the pool.
  pub record Pooling (e : A) (lo hi : ℕ) (pool pool' : List (ℕ × Structure A D)) (keys : List ℕ)
      (n : ℕ) (out : List (Event A)) : Type ℓ where
    pub runs :
        process_pool (Next.automaton init update p q ps w test) w one_by_one e pool
        ≡ some (pool', keys, n, out)
    pub good : Next.AllGood init update p q ps w test pool'
    pub rising : Rising lo hi pool'
    pub below : All (λ d. d < hi) keys
    pub above : (k : ℕ) → k < lo → mem k keys ≡ false
    pub safe : (ds : List ℕ) → Safe ds pool → Safe (ds ++ keys) pool'
    pub published :
        (es : List A)
        → Next.weights init update p q ps w test (e ∷ es) pool
          ≡ published_tuples out + Next.weights init update p q ps w test es pool'

  unfoldable pub Pooled : (e : A) (lo hi : ℕ) (pool : List (ℕ × Structure A D)) → Type ℓ
  Pooled e lo hi pool =
      (pool' : List (ℕ × Structure A D)) × (keys : List ℕ) × (n : ℕ) × (out : List (Event A))
      × Pooling e lo hi pool pool' keys n out

  pool_stays :
      (e : A) (lo hi k : ℕ) (s : Structure A D) (pool : List (ℕ × Structure A D))
      (r : Processed A D)
      → Rising lo hi ((k, s) ∷ pool)
      → Next.Processing init update p q ps w test e s r
      → r.matched ≡ false
      → Pooled e (k + 1) hi pool
      → Pooled e lo hi ((k, s) ∷ pool)
  unfolding process_pool Next.weights Pooled
  pool_stays e lo hi k s pool r ri pr quiet (pool', keys, n, out, g) = (
    (k, r.structure) ∷ pool',
    keys,
    n,
    out,
    record {
      runs = rw (pr.runs, g.runs, pr.same, quiet) refl;
      good = (pr.good, g.good);
      rising = (ri.0, ri.1, g.rising);
      below = g.below;
      above = λ j h. g.above j (omega (arith, ri.0));
      safe = λ ds h. (
        λ m.
            pr.stays_complete (h.0 (ground (arith, mem-append k ds keys, g.above k (omega arith)))),
        g.safe ds h.1,
      );
      published = λ es. omega (arith, kept es, g.published es);
    },
  )
    where
      kept :
          (es : List A)
          → Next.weight init update p q ps w test (e ∷ es) s
            ≡ Next.weight init update p q ps w test es r.structure
      kept es = ground (arith, pr.published es)

  pool_matches :
      (e : A) (lo hi k : ℕ) (s : Structure A D) (pool : List (ℕ × Structure A D))
      (r : Processed A D)
      → Rising lo hi ((k, s) ∷ pool)
      → Next.Processing init update p q ps w test e s r
      → r.matched ≡ true
      → Pooled e (k + 1) hi pool
      → Pooled e lo hi ((k, s) ∷ pool)
  unfolding process_pool Next.weights Pooled publish_result_matches
  pool_matches e lo hi k s pool r ri pr hit (pool', keys, n, out, g) = (
    (k, r.structure) ∷ pool',
    k ∷ keys,
    n + 1,
    all_fresh r.structure.events ++ out,
    record {
      runs = rw (pr.runs, g.runs, pr.same, hit) refl;
      good = (pr.good, g.good);
      rising = (ri.0, ri.1, g.rising);
      below = (ri.1, g.below);
      above = λ j h. ground (arith, g.above j (omega (arith, ri.0)), ri.0);
      safe = λ ds h. (
        λ m. pr.final_match hit,
        subst (λ l. Safe l pool') (append_assoc ds (k ∷ []) keys)
            (g.safe (ds ++ k ∷ []) (Safe-below ds k (k + 1) hi pool (omega arith) ri.2 h.1)),
      );
      published = λ es. omega (
        arith,
        gained es,
        g.published es,
        published-append (all_fresh r.structure.events) out,
        fresh_tuples r.structure.events,
      );
    },
  )
    where
      gained :
          (es : List A)
          → Next.weight init update p q ps w test (e ∷ es) s
            ≡ count_if test r.structure.events
              + Next.weight init update p q ps w test es r.structure
      gained es = ground (arith, pr.published es, hit)

  pub pool_processed :
      (e : A) (lo hi : ℕ) (pool : List (ℕ × Structure A D))
      → Next.AllGood init update p q ps w test pool
      → Rising lo hi pool
      → Pooled e lo hi pool
  unfolding process_pool Next.weights Pooled published_tuples
  pool_processed e lo hi [] good ri = (
    [],
    [],
    0,
    [],
    record {
      runs = refl;
      good = tt;
      rising = tt;
      below = tt;
      above = λ k h. refl;
      safe = λ ds h. tt;
      published = λ es. refl;
    },
  )
  pool_processed e lo hi ((k, s) ∷ pool) good ri =
      let (r, pr) = Next.process-Good init update p q ps w test e s good.0 in
      elim (Bool-cases r.matched) [
        | inl hit ↦
            pool_matches e lo hi k s pool r ri pr hit (pool_processed e (k + 1) hi pool good.1 ri.2)
        | inr quiet ↦
            pool_stays e lo hi k s pool r ri pr quiet (pool_processed e (k + 1) hi pool good.1 ri.2)
      ]

  pub weights-append :
      (es : List A) (k : ℕ) (s : Structure A D) (pool : List (ℕ × Structure A D))
      → Next.weights init update p q ps w test es (pool ++ (k, s) ∷ [])
        ≡ Next.weights init update p q ps w test es pool
          + Next.weight init update p q ps w test es s
  unfolding Next.weights
  weights-append es k s [] = omega arith
  weights-append es k s ((j, t) ∷ pool) = omega (arith, weights-append es k s pool)

  pub AllGood-append :
      (k : ℕ) (s : Structure A D) (pool : List (ℕ × Structure A D))
      → Next.AllGood init update p q ps w test pool
      → Next.Good init update p q ps w test s
      → Next.AllGood init update p q ps w test (pool ++ (k, s) ∷ [])
  AllGood-append k s [] g h = (h, tt)
  AllGood-append k s ((j, t) ∷ pool) g h = (g.0, AllGood-append k s pool g.1 h)

  -- What is to be deleted weighs nothing.
  weights-without :
      (es : List A) (d : ℕ) (ds : List ℕ) (pool : List (ℕ × Structure A D))
      → Safe (d ∷ ds) pool
      → Next.weights init update p q ps w test es (without d pool)
        ≡ Next.weights init update p q ps w test es pool
  unfolding Next.weights without
  weights-without es d ds [] h = refl
  weights-without es d ds ((k, s) ∷ pool) h = elim (Bool-cases (k == d)) [
    | inl hit ↦ rw hit (
        omega (
          arith,
          weights-without es d ds pool h.1,
          Next.weight-complete init update p q ps w test s es (h.0 (ground arith)),
        ))
    | inr miss ↦ rw miss (omega (arith, weights-without es d ds pool h.1))
  ]

  AllGood-without :
      (d : ℕ) (pool : List (ℕ × Structure A D))
      → Next.AllGood init update p q ps w test pool
      → Next.AllGood init update p q ps w test (without d pool)
  unfolding without
  AllGood-without d [] g = tt
  AllGood-without d ((k, s) ∷ pool) g = elim (Bool-cases (k == d)) [
    | inl hit ↦ rw hit (AllGood-without d pool g.1)
    | inr miss ↦ rw miss (g.0, AllGood-without d pool g.1)
  ]

  -- The engine between two events.
  pub record Sound (s : Engine A D) : Type ℓ where
    pub good : Next.AllGood init update p q ps w test s.pool
    pub rising : Rising 0 s.sequence s.pool
    pub below : All (λ d. d < s.sequence) s.deleted_structures
    pub safe : Safe s.deleted_structures s.pool

  gc_loop-keeps :
      (i hi : ℕ) (ds : List ℕ) (pool : List (ℕ × Structure A D))
      → Next.AllGood init update p q ps w test pool
      → Rising 0 hi pool
      → All (λ d. d < hi) ds
      → Safe ds pool
      → Next.AllGood init update p q ps w test (gc_loop i ds pool).1
        × Rising 0 hi (gc_loop i ds pool).1
        × All (λ d. d < hi) (gc_loop i ds pool).0
        × Safe (gc_loop i ds pool).0 (gc_loop i ds pool).1
        × ((es : List A)
            → Next.weights init update p q ps w test es (gc_loop i ds pool).1
              ≡ Next.weights init update p q ps w test es pool)
  unfolding gc_loop
  gc_loop-keeps i hi [] pool g r b h = (g, r, tt, h, λ es. refl)
  gc_loop-keeps i hi (d ∷ ds) pool g r b h = elim (Bool-cases (ltb i (suc (length ds)))) [
    | inl more ↦
        let (g', r', b', h', w') =
          gc_loop-keeps (i + 1) hi ds (without d pool) (AllGood-without d pool g)
            (without-Rising d 0 hi pool r) b.1 (without-Safe d ds pool h) in
        rw more (g', r', b', h', λ es. w' es ∙ weights-without es d ds pool h)
    | inr done ↦ rw done (g, r, b, h, λ es. refl)
  ]

  pub gc-Sound :
      (s : Engine A D)
      → Sound s
      → Sound (run_gc_structures s)
        × ((es : List A)
            → Next.weights init update p q ps w test es (run_gc_structures s).pool
              ≡ Next.weights init update p q ps w test es s.pool)
  unfolding run_gc_structures
  gc-Sound s o =
      let (g, r, b, h, w') =
        gc_loop-keeps 0 s.sequence s.deleted_structures s.pool o.good o.rising o.below o.safe in
      (record { good = g; rising = r; below = b; safe = h }, w')
