-- ===== src/Window/Tumbling.antt =====
-- qop/TumblingWindow.hpp. Evictions happen in processDataElement alone: no thread is started.
pub mod Blocks
use pipefabric.Prelude.{
  ℕ, ◌+◌, ◌-◌, ◌≡◌, Bool, true, false, Option, none, some, List, [], ◌∷◌, ◌++◌, last?, leb, ◌==◌,
  if◌then◌else◌, ◌>>=◌,
}
use pipefabric.Stream.{Event, element, punctuation, window_expired, fresh, stale, all_stale}
use pipefabric.Window.{
  Window, WinType, invalid_window, range_window, row_window, get_duration, get_rows, push_tuple,
}

module _ {ℓ} {A : Type ℓ} where
  -- A full window is published as outdated, and emptied.
  unfoldable pub evict_by_count : Window A → Option (Window A × List (Event A))
  evict_by_count w = do
    size ← get_rows w.win_size
    some (
        if w.curr_size == size
        then (
          record w { tuple_buf = []; curr_size = 0 },
          all_stale w.tuple_buf ++ punctuation window_expired ∷ [],
        )
        else (w, []))

  -- All tuples but the newest, as the iterator --end() bounds them.
  unfoldable pub but_last : List A → List A
  but_last [] = []
  but_last (x ∷ []) = []
  but_last (x ∷ y ∷ ys) = x ∷ but_last (y ∷ ys)

  abbrev head? : List A → Option A
  head? [] = none
  head? (x ∷ xs) = some x

  unfoldable pub evict_by_time : Window A → Option (Window A × List (Event A))
  unfolding but_last
  evict_by_time w = do
    last ← last? w.tuple_buf
    time ← w.timestamp_extractor
    size ← get_duration w.win_size
    tup ← head? w.tuple_buf
    some (
        if leb size (time last)
        then (if leb (time tup) (time last - size)
            then (
              record w { tuple_buf = last ∷ []; curr_size = 1 },
              all_stale (but_last w.tuple_buf) ++ punctuation window_expired ∷ [],
            )
            else (w, []))
        else (w, []))

  -- setupEviction
  unfoldable pub evict_fun : WinType → Window A → Option (Window A × List (Event A))
  evict_fun row_window w = evict_by_count w
  evict_fun range_window w = evict_by_time w
  evict_fun invalid_window w = evict_by_time w

  -- With a window function the tuple is forwarded before the eviction, and without one behind it.
  unfoldable pub forward_and_evict :
      Option (List A → A → A) → Window A → A → Option (Window A × List (Event A))
  forward_and_evict (some op) w a = do
    (w', out) ← evict_fun w.win_type w
    some (w', fresh (op w.tuple_buf a) ∷ out)
  forward_and_evict none w a = do (w', out) ← evict_fun w.win_type w; some (w', out ++ fresh a ∷ [])

  unfoldable pub process_data_element : Window A → A → Bool → Option (Window A × List (Event A))
  process_data_element w a true = some (w, stale a ∷ [])
  process_data_element w a false = forward_and_evict w.window_op (push_tuple w a) a

  unfoldable pub process_punctuation : Window A → Option (Window A × List (Event A))
  process_punctuation w = some (w, [])

  unfoldable pub handle : Window A → Event A → Option (Window A × List (Event A))
  unfolding process_punctuation
  handle w (element a outdated) = process_data_element w a outdated
  handle w (punctuation p) = process_punctuation w
