-- ===== src/Window/Sliding/Thread.antt =====
-- qop/SlidingWindow.hpp with an eviction interval: the EvictionNotifier's thread of qop/Window.cpp
-- calls evictByTime on whatever the window holds.
use pipefabric.Prelude.{
  ℕ, true, false, ◌≡◌, ◌⊎◌, inl, inr, ◌↔◌, Option, none, some, List, [], ◌∷◌, ◌++◌, subst,
  last?-eq-none, refl, arith, Option-cases, ◌>>=◌, ◌∙◌,
}
use pipefabric.Stream.{Event, element, punctuation, try_run}
use pipefabric.Window.{Window, row_window, construct_rows, get_duration, push_tuple}
use pipefabric.Window.Sliding.{
  evict_by_count, evict_by_time, evict_fun, process_data_element, handle, tick,
}

module _ {ℓ} {A : Type ℓ} where
  -- A round of the eviction thread faults exactly when the buffer is empty, or the window has no
  -- timestamp extractor, or its size is a number of rows.
  pub tick_faults :
      (w : Window A)
      → (tick w ≡ none)
        ↔ ((w.tuple_buf ≡ []) ⊎ (w.timestamp_extractor ≡ none) ⊎ (get_duration w.win_size ≡ none))
  unfolding tick evict_by_time
  tick_faults w = ground (arith, last?-eq-none w.tuple_buf)

  -- A call that returns leaves the timestamp extractor alone.
  abbrev Keeps : Window A → Option (Window A × List (Event A)) → Type ℓ
  Keeps w none = Unit
  Keeps w (some (w', out)) = w'.timestamp_extractor ≡ w.timestamp_extractor

  evict_by_count-Keeps : (w : Window A) → Keeps w (evict_by_count w)
  unfolding evict_by_count
  evict_by_count-Keeps w = ground arith

  evict_by_time-Keeps : (w : Window A) → Keeps w (evict_by_time w)
  unfolding evict_by_time
  evict_by_time-Keeps w = ground arith

  process_data_element-Keeps : (w : Window A) (a : A) → Keeps w (process_data_element w a false)
  unfolding process_data_element evict_fun push_tuple
  process_data_element-Keeps w a =
      ground (arith, evict_by_count-Keeps (push_tuple w a), evict_by_time-Keeps (push_tuple w a))

  handle-Keeps : (w : Window A) (e : Event A) → Keeps w (handle w e)
  unfolding handle process_data_element
  handle-Keeps w (element a true) = refl
  handle-Keeps w (element a false) = process_data_element-Keeps w a
  handle-Keeps w (punctuation p) = refl

  then-Keeps :
      (w w₁ : Window A) (out : List (Event A)) (r : Option (Window A × List (Event A)))
      → w₁.timestamp_extractor ≡ w.timestamp_extractor
      → Keeps w₁ r
      → Keeps w (do (w₂, rest) ← r; some (w₂, out ++ rest))
  then-Keeps w w₁ out none e k = tt
  then-Keeps w w₁ out (some (w₂, rest)) e k = k ∙ e

  run-Keeps : (w : Window A) (es : List (Event A)) → Keeps w (try_run handle w es)
  unfolding try_run
  run-Keeps w [] = refl
  run-Keeps w (e ∷ es) = elim (Option-cases (handle w e)) [
    | inl fault ↦ rw fault tt
    | inr ((w₁, out), eq) ↦
        rw eq (then-Keeps w w₁ out _ (subst (Keeps w) eq (handle-Keeps w e)) (run-Keeps w₁ es))
  ]

  -- A row window built without a timestamp extractor, whatever its eviction interval and whatever
  -- it has handled, faults at the first round of an eviction thread.
  pub tick-construct_rows :
      (sz ei : ℕ) (op : Option (List A → A → A)) (es : List (Event A)) (w w' : Window A)
      → (out : List (Event A)) → construct_rows row_window sz op ei ≡ some w
      → try_run handle w es ≡ some (w', out)
      → tick w' ≡ none
  unfolding construct_rows
  tick-construct_rows sz ei op es w w' out c e =
      (tick_faults w').1 (inr (inl (subst (Keeps w) e (run-Keeps w es) ∙ ground arith)))
