-- ===== src/Window/Sliding.antt =====
-- qop/SlidingWindow.hpp. The mutex makes each call of an eviction function atomic, so a run is a
-- sequence of handler calls and of ticks of the eviction thread.
pub mod Count
pub mod Time
pub mod Thread
use pipefabric.Prelude.{
  ℕ, zero, suc, ◌+◌, ◌-◌, ◌≡◌, Bool, true, false, Option, none, some, List, [], ◌∷◌, ◌++◌, last?,
  ltb, leb, ◌==◌, if◌then◌else◌, dec32, ◌>>=◌,
}
use pipefabric.Stream.{Event, element, punctuation, fresh, stale}
use pipefabric.Window.{
  Window, WinType, invalid_window, range_window, row_window, get_duration, get_rows, push_tuple,
  forwarded,
}

module _ {ℓ} {A : Type ℓ} where
  -- The loop of evictByCount: what is left in the buffer, the counter, and what was published.
  unfoldable pub count_loop : ℕ → List A → ℕ → Option (List A × ℕ × List (Event A))
  count_loop size [] curr = if ltb size curr then none else some ([], curr, [])
  count_loop size (tup ∷ buf) curr =
      let rest = do
        (buf', curr', out) ← count_loop size buf (dec32 curr)
        some (buf', curr', stale tup ∷ out)
      in if ltb size curr then rest else some (tup ∷ buf, curr, [])

  unfoldable pub evict_by_count : Window A → Option (Window A × List (Event A))
  evict_by_count w = do
    size ← get_rows w.win_size
    (buf, curr, out) ← count_loop size w.tuple_buf w.curr_size
    some (record w { tuple_buf = buf; curr_size = curr }, out)

  -- The loop of evictByTime.
  unfoldable pub time_loop : (A → ℕ) → ℕ → List A → ℕ → List A × ℕ × List (Event A)
  time_loop time accepted_time [] curr = ([], curr, [])
  time_loop time accepted_time (tup ∷ buf) curr =
      let rest : List A × ℕ × List (Event A) =
        let (buf', curr', out) = time_loop time accepted_time buf (dec32 curr) in
        (buf', curr', stale tup ∷ out) in
      if leb (time tup) accepted_time then rest else (tup ∷ buf, curr, [])

  unfoldable pub evict_by_time : Window A → Option (Window A × List (Event A))
  evict_by_time w = do
    last ← last? w.tuple_buf
    time ← w.timestamp_extractor
    size ← get_duration w.win_size
    let (buf, curr, out) = time_loop time (time last - size) w.tuple_buf w.curr_size
    some (
        if leb size (time last)
        then (record w { tuple_buf = buf; curr_size = curr }, out)
        else (w, []))

  -- setupEviction without a thread: the function that an incoming tuple calls.
  unfoldable pub evict_fun : WinType → Window A → Option (Window A × List (Event A))
  evict_fun range_window w = evict_by_time w
  evict_fun row_window w = evict_by_count w
  evict_fun invalid_window w = evict_by_count w

  unfoldable pub process_data_element : Window A → A → Bool → Option (Window A × List (Event A))
  process_data_element w a true = some (w, stale a ∷ [])
  process_data_element w a false =
      let pushed = push_tuple w a in
      do
        (w', out) ←
            (if w.evict_interval == 0 then evict_fun w.win_type pushed else some (pushed, []))
        some (w', out ++ fresh (forwarded w.window_op w'.tuple_buf a) ∷ [])

  -- A window generates its own punctuations, and drops those that arrive.
  unfoldable pub process_punctuation : Window A → Option (Window A × List (Event A))
  process_punctuation w = some (w, [])

  unfoldable pub handle : Window A → Event A → Option (Window A × List (Event A))
  unfolding process_punctuation
  handle w (element a outdated) = process_data_element w a outdated
  handle w (punctuation p) = process_punctuation w

  -- One round of the EvictionNotifier's thread, which always evicts by time.
  unfoldable pub tick : Window A → Option (Window A × List (Event A))
  tick w = evict_by_time w
