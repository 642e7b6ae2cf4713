-- ===== src/Cep/Collect.antt =====
-- CEPEngine::runGCstructures: how many of the structures to delete it deletes.
use pipefabric.Prelude.{
  ℕ, suc, ◌+◌, ◌-◌, ◌/◌, ◌≡◌, refl, ap, subst, List, [], ◌∷◌, ltb, length, take, drop, arith,
  Bool-cases, inl, inr, ltb→lt,
}
use pipefabric.Prelude.Eq.{nat_eq}
use pipefabric.Prelude.Assoc.{without}
use pipefabric.Cep.{Structure}
use pipefabric.Cep.Engine.{Engine, gc_loop, run_gc_structures}

module _ {ℓ} {A D : Type ℓ} where
  -- The pool without the structures of some keys.
  unfoldable pub without_each : List ℕ → List (ℕ × Structure A D) → List (ℕ × Structure A D)
  unfolding without
  without_each [] pool = pool
  without_each (key ∷ keys) pool = without_each keys (without key pool)

  -- The loop counter goes up while the list gets shorter.
  gc_loop-half :
      (i : ℕ) (keys : List ℕ) (pool : List (ℕ × Structure A D))
      → gc_loop i keys pool ≡ (
        drop ((length keys + 1 - i) / 2) keys,
        without_each (take ((length keys + 1 - i) / 2) keys) pool,
      )
  unfolding gc_loop without_each
  gc_loop-half i [] pool = let nothing : (1 - i) / 2 ≡ 0 = omega arith in rw nothing refl
  gc_loop-half i (key ∷ keys) pool = elim (Bool-cases (ltb i (suc (length keys)))) [
    | inl more ↦
        let half : (suc (length keys) + 1 - i) / 2 ≡ suc ((length keys + 1 - (i + 1)) / 2) =
          omega (arith, ltb→lt i (suc (length keys)) more) in
        rw (more, half) (gc_loop-half (i + 1) keys (without key pool))
    | inr done ↦
        let none_left : (suc (length keys) + 1 - i) / 2 ≡ 0 = ground arith in
        rw (done, none_left) refl
  ]

  -- A run deletes the first half of the structures that are to be deleted, rounded up, from the
  -- pool, and leaves the others in the pool and in the list of those to delete.
  pub run_gc_structures-half :
      (s : Engine A D)
      → run_gc_structures s ≡ record s {
        deleted_structures = drop ((length s.deleted_structures + 1) / 2) s.deleted_structures;
        pool =
            without_each (take ((length s.deleted_structures + 1) / 2) s.deleted_structures) s.pool;
      }
  unfolding run_gc_structures
  run_gc_structures-half s =
      let all : length s.deleted_structures + 1 - 0 ≡ length s.deleted_structures + 1 =
        omega arith in
      ap (λ r. record s { deleted_structures = r.0; pool = r.1 })
        (subst
          (λ n. gc_loop 0 s.deleted_structures s.pool ≡ (
            drop (n / 2) s.deleted_structures,
            without_each (take (n / 2) s.deleted_structures) s.pool,
          ))
          all (gc_loop-half 0 s.deleted_structures s.pool))
