-- ===== src/Window/Duration.antt =====
-- qop/Window.hpp: the size of a range window given in seconds, in microseconds.
use pipefabric.Prelude.{ℕ}
use pipefabric.Window.{WinSize, duration, rows}

abbrev duration_or : WinSize → ℕ → ℕ
duration_or (duration d) e = d
duration_or (rows n) e = e
