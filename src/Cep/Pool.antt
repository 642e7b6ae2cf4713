-- ===== src/Cep/Pool.antt =====
-- The pool of the structures under their keys, and the keys of those that are to be deleted.
use pipefabric.Prelude.{
  ℕ, ◌+◌, ◌≤◌, ◌<◌, ◌≡◌, refl, Bool, true, false, ◌||◌, List, [], ◌∷◌, ◌++◌, ◌==◌, arith,
  Bool-cases, inl, inr, All,
}
use pipefabric.Prelude.Eq.{nat_eq}
use pipefabric.Prelude.Assoc.{without}
use pipefabric.Cep.{Structure}

-- Keys in rising order, from lo on and below hi.
abbrev pub Rising {ℓ} : {S : Type ℓ} → ℕ → ℕ → List (ℕ × S) → Type 0
Rising lo hi [] = Unit
Rising lo hi ((k, s) ∷ pool) = (lo ≤ k) × (k < hi) × Rising (k + 1) hi pool

abbrev pub mem : ℕ → List ℕ → Bool
mem k [] = false
mem k (j ∷ js) = j == k || mem k js

pub not-mem : (k : ℕ) (ds : List ℕ) → All (λ d. d < k) ds → mem k ds ≡ false
not-mem k [] h = refl
not-mem k (d ∷ ds) h = ground (arith, not-mem k ds h.1)

module _ {ℓ} {A D : Type ℓ} where
  -- The structures that are to be deleted are complete.
  abbrev pub Safe : List ℕ → List (ℕ × Structure A D) → Type 0
  Safe ds [] = Unit
  Safe ds ((k, s) ∷ pool) = (mem k ds ≡ true → s.complete ≡ true) × Safe ds pool

  pub Rising-lower :
      (lo lo' hi : ℕ) (pool : List (ℕ × Structure A D))
      → lo' ≤ lo
      → Rising lo hi pool
      → Rising lo' hi pool
  Rising-lower lo lo' hi [] h r = tt
  Rising-lower lo lo' hi ((k, s) ∷ pool) h r = (omega (arith, r.0), r.1, r.2)

  pub Rising-higher :
      (lo hi hi' : ℕ) (pool : List (ℕ × Structure A D))
      → hi ≤ hi'
      → Rising lo hi pool
      → Rising lo hi' pool
  Rising-higher lo hi hi' [] h r = tt
  Rising-higher lo hi hi' ((k, s) ∷ pool) h r =
      (r.0, omega (arith, r.1), Rising-higher (k + 1) hi hi' pool h r.2)

  pub without-Rising :
      (d lo hi : ℕ) (pool : List (ℕ × Structure A D))
      → Rising lo hi pool
      → Rising lo hi (without d pool)
  unfolding without
  without-Rising d lo hi [] r = tt
  without-Rising d lo hi ((k, s) ∷ pool) r = elim (Bool-cases (k == d)) [
    | inl hit ↦ rw hit (
        Rising-lower (k + 1) lo hi (without d pool) (omega (arith, r.0))
          (without-Rising d (k + 1) hi pool r.2))
    | inr miss ↦ rw miss (r.0, r.1, without-Rising d (k + 1) hi pool r.2)
  ]

  pub without-Safe :
      (d : ℕ) (ds : List ℕ) (pool : List (ℕ × Structure A D))
      → Safe (d ∷ ds) pool
      → Safe ds (without d pool)
  unfolding without
  without-Safe d ds [] h = tt
  without-Safe d ds ((k, s) ∷ pool) h = elim (Bool-cases (k == d)) [
    | inl hit ↦ rw hit (without-Safe d ds pool h.1)
    | inr miss ↦ rw miss ((λ m. h.0 (ground arith)), without-Safe d ds pool h.1)
  ]

  pub Rising-snoc :
      (lo k : ℕ) (s : Structure A D) (pool : List (ℕ × Structure A D))
      → lo ≤ k
      → Rising lo k pool
      → Rising lo (k + 1) (pool ++ (k, s) ∷ [])
  Rising-snoc lo k s [] h r = (h, omega arith, tt)
  Rising-snoc lo k s ((j, t) ∷ pool) h r =
      (r.0, omega (arith, r.1), Rising-snoc (j + 1) k s pool (omega (arith, r.1)) r.2)

  pub Safe-snoc :
      (ds : List ℕ) (k : ℕ) (s : Structure A D) (pool : List (ℕ × Structure A D))
      → Safe ds pool
      → All (λ d. d < k) ds
      → Safe ds (pool ++ (k, s) ∷ [])
  Safe-snoc ds k s [] h b = ((λ m. cc (not-mem k ds b)), tt)
  Safe-snoc ds k s ((j, t) ∷ pool) h b = (h.0, Safe-snoc ds k s pool h.1 b)

pub mem-append : (k : ℕ) (ds es : List ℕ) → mem k (ds ++ es) ≡ (mem k ds || mem k es)
mem-append k [] es = refl
mem-append k (d ∷ ds) es = ground (arith, mem-append k ds es)

module _ {ℓ} {A D : Type ℓ} where
  pub Safe-fewer :
      (ds ds' : List ℕ) (pool : List (ℕ × Structure A D))
      → ((k : ℕ) → mem k ds' ≡ true → mem k ds ≡ true)
      → Safe ds pool
      → Safe ds' pool
  Safe-fewer ds ds' [] f h = tt
  Safe-fewer ds ds' ((k, s) ∷ pool) f h = (λ m. h.0 (f k m), Safe-fewer ds ds' pool f h.1)

  -- One more key, below all the keys of the pool.
  pub Safe-below :
      (ds : List ℕ) (d lo hi : ℕ) (pool : List (ℕ × Structure A D))
      → d < lo
      → Rising lo hi pool
      → Safe ds pool
      → Safe (ds ++ d ∷ []) pool
  Safe-below ds d lo hi [] b r h = tt
  Safe-below ds d lo hi ((k, s) ∷ pool) b r h = (
    λ m. h.0 (ground (arith, mem-append k ds (d ∷ []), r.0)),
    Safe-below ds d (k + 1) hi pool (omega (arith, r.0)) r.2 h.1,
  )
