-- ===== src/Window.antt =====
-- qop/Window.hpp: the state that the sliding and the tumbling window share, its constructors, and
-- the part of processDataElement that both begin with. A fault (`none`) is an empty std::function
-- that is called, boost::get on the other alternative, or back() and front() of an empty list.
pub mod Sliding
pub mod Tumbling
pub mod Duration
pub mod Examples
use pipefabric.Prelude.{
  ℕ, ◌+◌, ◌*◌, ◌%◌, ◌^◌, ◌≡◌, Bool, true, false, Option, none, some, List, [], ◌∷◌, ◌++◌, not, ◌==◌,
  inc32, u32_mod, length, ◌<◌,
}

-- WindowParams::WinType
pub data WinType : Type 0 where
  invalid_window range_window row_window : WinType

-- boost::variant<Timestamp, unsigned int>; a duration is in microseconds.
pub data WinSize : Type 0 where
  duration : ℕ → WinSize
  rows : ℕ → WinSize

pub record Window {ℓ} (A : Type ℓ) : Type ℓ where
  pub timestamp_extractor : Option (A → ℕ)
  pub win_type : WinType
  pub win_size : WinSize
  pub window_op : Option (List A → A → A)
  pub evict_interval : ℕ
  pub tuple_buf : List A
  pub curr_size : ℕ

abbrev pub get_duration : WinSize → Option ℕ
get_duration (duration d) = some d
get_duration (rows n) = none

abbrev pub get_rows : WinSize → Option ℕ
get_rows (duration d) = none
get_rows (rows n) = some n

-- The constructor that takes seconds multiplies in `unsigned int`, before the conversion.
unfoldable pub window_size : WinType → ℕ → WinSize
window_size range_window sz = duration (sz * 1000 * 1000 % u32_mod)
window_size row_window sz = rows sz
window_size invalid_window sz = rows sz

module _ {ℓ} {A : Type ℓ} where
  -- Window(func, wt, sz, winOpFunc, ei)
  unfoldable pub construct : (A → ℕ) → WinType → ℕ → Option (List A → A → A) → ℕ → Window A
  construct func wt sz op ei = record {
    timestamp_extractor = some func;
    win_type = wt;
    win_size = window_size wt sz;
    window_op = op;
    evict_interval = ei;
    tuple_buf = [];
    curr_size = 0;
  }

  -- Window(wt, sz, winOpFunc, ei), whose assertion wants a row window
  unfoldable pub construct_rows : WinType → ℕ → Option (List A → A → A) → ℕ → Option (Window A)
  construct_rows row_window sz op ei = some (record {
    timestamp_extractor = none;
    win_type = row_window;
    win_size = rows sz;
    window_op = op;
    evict_interval = ei;
    tuple_buf = [];
    curr_size = 0;
  })
  construct_rows range_window sz op ei = none
  construct_rows invalid_window sz op ei = none

  -- mTupleBuf.push_back(data); mCurrSize++;
  unfoldable pub push_tuple : Window A → A → Window A
  push_tuple w a = record w { tuple_buf = w.tuple_buf ++ a ∷ []; curr_size = inc32 w.curr_size }

  -- What is forwarded for an incoming tuple: the window function's result, if there is one.
  unfoldable pub forwarded : Option (List A → A → A) → List A → A → A
  forwarded none buf a = a
  forwarded (some op) buf a = op buf a
