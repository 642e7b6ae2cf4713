-- ===== src/Window/Examples.antt =====
-- Runs of small windows, and the theorems about windows at concrete inputs.
use pipefabric.Window
use pipefabric.Prelude.{ℕ, ◌≡◌, refl, [], ◌∷◌, none, some, arith}
use pipefabric.Stream.{punctuation, window_expired, fresh, stale, all_fresh, try_run}
use pipefabric.Window.{
  Window, WinType, invalid_window, construct_rows, get_duration, range_window, row_window, WinSize,
  duration, rows, construct,
}
use pipefabric.Window.Sliding
use pipefabric.Window.Sliding.Count
use pipefabric.Window.Sliding.Time
use pipefabric.Window.Duration
use pipefabric.Window.Tumbling
use pipefabric.Window.Tumbling.Blocks

-- A row window of two numbers, and a range window of ten microseconds over timestamps.
abbrev two_rows : Window ℕ
two_rows = record {
  timestamp_extractor = none;
  win_type = row_window;
  win_size = rows 2;
  window_op = none;
  evict_interval = 0;
  tuple_buf = [];
  curr_size = 0;
}

abbrev ten_micros : Window ℕ
ten_micros = record {
  timestamp_extractor = some (λ t. t);
  win_type = range_window;
  win_size = duration 10;
  window_op = none;
  evict_interval = 0;
  tuple_buf = [];
  curr_size = 0;
}

sliding_trace :
    try_run Sliding.handle two_rows (all_fresh (5 ∷ 6 ∷ 7 ∷ []))
    ≡ some (
      record two_rows { tuple_buf = 6 ∷ 7 ∷ []; curr_size = 2 },
      fresh 5 ∷ fresh 6 ∷ stale 5 ∷ fresh 7 ∷ [],
    )
unfolding try_run Sliding.handle Sliding.process_data_element Sliding.evict_fun
    Sliding.evict_by_count Sliding.count_loop Window.push_tuple Window.forwarded
sliding_trace = refl

two_rows-IsRow : Count.IsRow 2 two_rows
two_rows-IsRow = record {
  by_rows = refl;
  sized = refl;
  no_thread = refl;
  counted = refl;
  bounded = omega arith;
  room = omega arith;
}

row_window_run_example :
    Count.SlidesOver 2 two_rows
      (5 ∷ 6 ∷ 7 ∷ [])
      (try_run Sliding.handle two_rows (all_fresh (5 ∷ 6 ∷ 7 ∷ [])))
row_window_run_example = Count.row_window_run 2 two_rows (5 ∷ 6 ∷ 7 ∷ []) two_rows-IsRow refl

ten_micros-IsRange : Time.IsRange (λ t. t) 10 ten_micros
ten_micros-IsRange = record {
  by_time = refl;
  timed = refl;
  sized = refl;
  no_thread = refl;
  counted = refl;
}

range_window_run_example :
    Time.Ranges
      (λ t. t)
      10
      ten_micros
      (1 ∷ 5 ∷ 12 ∷ [])
      12
      (try_run Sliding.handle ten_micros (all_fresh (1 ∷ 5 ∷ 12 ∷ [])))
range_window_run_example =
    Time.range_window_run (λ t. t) 10 ten_micros (1 ∷ 5 ∷ []) 12 ten_micros-IsRange (omega arith)
      (omega arith)

two_rows-IsTumbling : Blocks.IsTumbling 2 two_rows
two_rows-IsTumbling = record {
  by_rows = refl;
  sized = refl;
  plain = refl;
  counted = refl;
  room = omega arith;
}

tumbling_window_run_example :
    try_run Tumbling.handle two_rows (all_fresh (5 ∷ 6 ∷ 7 ∷ []))
    ≡ some (
      record two_rows { tuple_buf = 7 ∷ []; curr_size = 1 },
      fresh 5 ∷ stale 5 ∷ stale 6 ∷ punctuation window_expired ∷ fresh 6 ∷ fresh 7 ∷ [],
    )
tumbling_window_run_example =
    Blocks.tumbling_window_run 2 two_rows ((5 ∷ [], 6) ∷ []) (7 ∷ []) two_rows-IsTumbling (refl, tt)
      (omega arith)

-- Two rows with an eviction interval: the window evicts by its thread alone.
abbrev two_rows_thread : Window ℕ
two_rows_thread = record two_rows { evict_interval = 1 }

two_rows_thread-constructed : construct_rows {A = ℕ} row_window 2 none 1 ≡ some two_rows_thread
unfolding construct_rows
two_rows_thread-constructed = refl

thread_trace :
    try_run Sliding.handle two_rows_thread (all_fresh (5 ∷ []))
    ≡ some (record two_rows_thread { tuple_buf = 5 ∷ []; curr_size = 1 }, fresh 5 ∷ [])
unfolding try_run Sliding.handle Sliding.process_data_element Sliding.evict_fun
    Sliding.evict_by_count Sliding.count_loop Window.push_tuple Window.forwarded
thread_trace = refl
