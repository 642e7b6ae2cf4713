-- ===== src/Tuplifier/Tests.antt =====
-- The Tuplifier at concrete triples; a string is a number, and the empty string is 0.
use pipefabric.Prelude.{ℕ, length, ◌≤◌, ◌≡◌, refl, none, some, List, [], ◌∷◌, ◌++◌, arith, ◌>>=◌}
use pipefabric.Prelude.Eq.{nat_eq}
use pipefabric.Stream.{end_of_stream, window_expired, punctuation, all_fresh, fresh, try_run}
use pipefabric.Tuplifier.{
  TuplifyMode, Triple, Tuplifier, construct, handle, process_data_element, produce_complete_tuples,
  add_to_buffer, produce_tuple, number_predicates,
}
use pipefabric.Tuplifier.Ordered.{groups, group_rows, rows_of, needed}
use pipefabric.Tuplifier.Rows.{position, IsSchema, row_of}
use pipefabric.Tuplifier.Run.{ordered_run, repeated_predicate_faults}

abbrev triple : ℕ → ℕ → ℕ → Triple ℕ
triple s p o = record { subject = s; predicate = p; object = o }

-- The subject 1 with both predicates, 2 with one, and 1 again; the predicate 9 is not in the schema.
abbrev triples : List (Triple ℕ)
triples =
    triple 1 7 11
    ∷ triple 1 8 12
    ∷ triple 1 7 13
    ∷ triple 2 8 14
    ∷ triple 3 9 15
    ∷ triple 1 9 16
    ∷ triple 1 8 17
    ∷ []

schema : IsSchema {S = ℕ} (7 ∷ 8 ∷ [])
unfolding position
schema = (refl, (refl, tt))

ordered_run_example :
    (s' : Tuplifier ℕ) × (try_run
        (handle 0)
        (construct none (7 ∷ 8 ∷ []) TuplifyMode.ordered 0)
        (all_fresh triples ++ punctuation window_expired ∷ [])
      ≡ some (
        s',
        all_fresh (group_rows 0 (7 ∷ 8 ∷ []) (groups triples)) ++ punctuation window_expired ∷ [],
      ))
    × (s'.tuple_buffer ≡ [])
ordered_run_example =
    ordered_run 0 (7 ∷ 8 ∷ []) none triples window_expired schema
      (refl, (refl, (refl, (refl, (refl, (refl, (refl, tt)))))))

ordered_rows :
    group_rows 0 (7 ∷ 8 ∷ []) (groups triples)
    ≡ (1 ∷ 13 ∷ 12 ∷ []) ∷ (2 ∷ 0 ∷ 14 ∷ []) ∷ (1 ∷ 0 ∷ 17 ∷ []) ∷ []
unfolding group_rows groups rows_of needed position row_of
ordered_rows = refl

-- Two triples with one predicate count as a complete subject of two predicates.
incomplete_row :
    (try_run
        (handle 0)
        (construct none (7 ∷ 8 ∷ []) TuplifyMode.completed 0)
        (all_fresh (triple 1 7 11 ∷ triple 1 7 12 ∷ []))
      >>= λ r. some r.1)
    ≡ some (all_fresh ((1 ∷ 12 ∷ 0 ∷ []) ∷ []))
unfolding try_run handle construct process_data_element produce_complete_tuples add_to_buffer
    produce_tuple
incomplete_row = refl

-- The schema names 7 twice, so that the row has no field for 8.
repeated_predicate_faults_example :
    try_run
      (handle 0)
      (construct none (7 ∷ 7 ∷ 8 ∷ []) TuplifyMode.ordered 0)
      (fresh (triple 1 8 12) ∷ punctuation end_of_stream ∷ [])
    ≡ none
repeated_predicate_faults_example =
    repeated_predicate_faults 0 (7 ∷ 7 ∷ 8 ∷ []) none (triple 1 8 12) 2 end_of_stream third short
  where
    third : position {S = ℕ} 8 (7 ∷ 7 ∷ 8 ∷ []) ≡ some 2
    third = unfold position in refl

    short : length (number_predicates {S = ℕ} 0 (7 ∷ 7 ∷ 8 ∷ []) []) ≤ 2
    short = unfold number_predicates in omega arith
