-- ===== src/Join/Examples.antt =====
-- Small runs of the joins, and the theorems about them at concrete inputs.
use pipefabric.Prelude.{
  ℕ, ◌+◌, ◌-◌, ◌%◌, ◌^◌, ◌≡◌, refl, true, false, List, [], ◌∷◌, ◌==◌, ltb, inl, inr, if◌then◌else◌,
  count_if, ◌⊎◌, map, ◌*◌,
}
use pipefabric.Prelude.Eq.{nat_eq}
use pipefabric.Stream.{fresh, stale, news, outs, run}
use pipefabric.Join.Table.{equal_range, update_hash_table}
use pipefabric.Join.Reference.{Joining}
use pipefabric.Join.Symmetric
use pipefabric.Join.Symmetric.{Input, left, right, HashJoin}
use pipefabric.Join.Symmetric.Maintains
use pipefabric.Join.Scale
use pipefabric.Join.Scale.{ScaleJoin}
use pipefabric.Join.Scale.Fleet
use pipefabric.Join.Scale.Whole
use pipefabric.Join.Scale.Lanes
use pipefabric.Join.Scale.Lanes.{idle}
use pipefabric.Join.Scale.Prompt

-- Numbers are joined with those of the same rest modulo 10, into their sum.
abbrev mod_ten : Joining ℕ ℕ ℕ ℕ
mod_ten = record {
  left_key = λ n. n % 10;
  right_key = λ n. n % 10;
  predicate = λ l r. true;
  join_elements = λ l r. l + r;
}

abbrev nothing : HashJoin ℕ ℕ ℕ
nothing = record { l_table = []; r_table = [] }

abbrev inputs : List (Input ℕ ℕ)
inputs = left 11 false ∷ right 21 false ∷ right 32 false ∷ left 42 false ∷ left 11 true ∷ []

join_trace : (run (Symmetric.handle mod_ten) nothing inputs).1 ≡ fresh 32 ∷ fresh 74 ∷ stale 32 ∷ []
unfolding run Symmetric.handle Symmetric.process_left Symmetric.process_right Symmetric.join_left
    Symmetric.join_right equal_range update_hash_table
join_trace = refl

nothing-IsKeyedJoin : Maintains.IsKeyedJoin mod_ten nothing
nothing-IsKeyedJoin = record { left_keyed = tt; right_keyed = tt }

abbrev stored_twice : HashJoin ℕ ℕ ℕ
stored_twice = record { l_table = (1, 11) ∷ (1, 11) ∷ []; r_table = (1, 21) ∷ [] }

-- Two equal tuples go, and the result of one is published as outdated.
handle-maintains_example :
    count_if (λ q. true) (news (Symmetric.handle mod_ten stored_twice (left 11 true)).1)
      + count_if (λ q. true) (Maintains.joined mod_ten stored_twice)
    ≡ count_if
        (λ q. true)
        (Maintains.joined mod_ten (Symmetric.handle mod_ten stored_twice (left 11 true)).0)
      + 2 * count_if (λ q. true) (outs (Symmetric.handle mod_ten stored_twice (left 11 true)).1)
handle-maintains_example =
    Maintains.handle-maintains mod_ten (λ q. true) stored_twice (left 11 true)
      (record { left_keyed = (refl, (refl, tt)); right_keyed = (refl, tt) })

inputs-IsClean : Maintains.IsClean mod_ten nothing inputs
unfolding Symmetric.handle Symmetric.process_left Symmetric.process_right update_hash_table
inputs-IsClean = (refl, (refl, (refl, (refl, (refl, tt)))))

run-maintains_example :
    count_if (λ q. q == 32) (news (run (Symmetric.handle mod_ten) nothing inputs).1)
      + count_if (λ q. q == 32) (Maintains.joined mod_ten nothing)
    ≡ count_if
        (λ q. q == 32)
        (Maintains.joined mod_ten (run (Symmetric.handle mod_ten) nothing inputs).0)
      + count_if (λ q. q == 32) (outs (run (Symmetric.handle mod_ten) nothing inputs).1)
run-maintains_example =
    Maintains.run-maintains mod_ten (λ q. q == 32) nothing inputs nothing-IsKeyedJoin inputs-IsClean

-- unsigned long to int and back: the upper half of the range of int is sign-extended.
abbrev through_key_t : ℕ → ℕ
through_key_t k = let low = k % 2 ^ 32 in if ltb low (2 ^ 31) then low else low + 2 ^ 64 - 2 ^ 32

abbrev two_instances : List (ScaleJoin ℕ ℕ ℕ)
two_instances = Scale.construct 0 2 ∷ Scale.construct 1 2 ∷ []

made_instances : Lanes.instances 0 2 2 ≡ map idle two_instances
unfolding Lanes.instances Scale.construct
made_instances = refl

-- The second queue hands both left tuples on before the first one does.
abbrev turns : List ((ℕ ⊎ ℕ) ⊎ ℕ)
turns = inl (inl 11) ∷ inl (inl 21) ∷ inr 1 ∷ inr 1 ∷ inr 0 ∷ inr 0 ∷ inl (inr 31) ∷ []

-- The left tuple reaches the instance that stores 31 before 31 does, and the one that stores itself
-- behind 31: the two are never joined.
lost_result :
    (run (Lanes.act through_key_t mod_ten) (map idle two_instances) (
      map
        (Prompt.turn through_key_t mod_ten)
        (inl (inl 11) ∷ inr 1 ∷ inl (inr 42) ∷ inl (inr 31) ∷ inr 0 ∷ []))).1
    ≡ []
unfolding run Lanes.act Scale.construct Scale.handle Scale.process_left Scale.process_right
    Symmetric.join_left Symmetric.join_right equal_range update_hash_table Scale.store_left
    Scale.store_right
lost_result = refl

abbrev by_itself : Joining ℕ ℕ ℕ ℕ
by_itself = record mod_ten { left_key = λ n. n; right_key = λ n. n }
