-- ===== src/Window/Tumbling/Blocks.antt =====
-- qop/TumblingWindow.hpp, evictByCount: a row window of `n` tuples cuts its stream into blocks.
use pipefabric.Prelude.{
  ℕ, subst, ◌+◌, ◌<◌, ◌≡◌, refl, ap, sym, ◌∙◌, false, none, some, List, [], ◌∷◌, ◌++◌, length,
  inc32, u32_mod, arith, All, length-append, append_assoc, append-nil,
}
use pipefabric.Stream.{
  Event, punctuation, window_expired, fresh, all_fresh, all_stale, try_run, try_run-cons,
  try_run-nil,
}
use pipefabric.Window.{Window, row_window, rows, push_tuple}
use pipefabric.Window.Tumbling.{
  evict_by_count, evict_fun, forward_and_evict, process_data_element, handle,
}

module _ {ℓ} {A : Type ℓ} where
  -- A row window of `n` tuples that forwards its tuples unchanged.
  pub record IsTumbling (n : ℕ) (w : Window A) : Type ℓ where
    pub by_rows : w.win_type ≡ row_window
    pub sized : w.win_size ≡ rows n
    pub plain : w.window_op ≡ none
    pub counted : w.curr_size ≡ length w.tuple_buf
    pub room : n < u32_mod

  -- The same window with another buffer.
  abbrev pub holding : Window A → List A → Window A
  holding w buf = record w { tuple_buf = buf; curr_size = length buf }

  holding-IsTumbling :
      (n : ℕ) (w : Window A) (buf : List A) → IsTumbling n w → IsTumbling n (holding w buf)
  holding-IsTumbling n w buf v = record {
    by_rows = v.by_rows;
    sized = v.sized;
    plain = v.plain;
    counted = refl;
    room = v.room;
  }

  -- The eviction function's part of one call.
  evicts :
      (w : Window A) (n : ℕ)
      → w.win_size ≡ rows n
      → w.curr_size ≡ n
      → evict_by_count w
        ≡ some (holding w [], all_stale w.tuple_buf ++ punctuation window_expired ∷ [])
  unfolding evict_by_count
  evicts w n s c = ground arith

  keeps :
      (w : Window A) (n : ℕ)
      → w.win_size ≡ rows n
      → w.curr_size < n
      → evict_by_count w ≡ some (w, [])
  unfolding evict_by_count
  keeps w n s c = ground arith

  process_plain :
      (w w' : Window A) (a : A) (out : List (Event A))
      → w.window_op ≡ none
      → w.win_type ≡ row_window
      → evict_by_count (push_tuple w a) ≡ some (w', out)
      → process_data_element w a false ≡ some (w', out ++ fresh a ∷ [])
  unfolding process_data_element forward_and_evict evict_fun push_tuple
  process_plain w w' a out o t e = ground arith

  grown :
      (n : ℕ) (w : Window A) (a : A)
      → IsTumbling n w
      → length w.tuple_buf < n
      → push_tuple w a ≡ holding w (w.tuple_buf ++ a ∷ [])
  unfolding push_tuple
  grown n w a v h =
      let same : inc32 w.curr_size ≡ length (w.tuple_buf ++ a ∷ []) =
        omega (arith, v.counted, v.room, length-append w.tuple_buf (a ∷ [])) in
      ap (λ c. record w { tuple_buf = w.tuple_buf ++ a ∷ []; curr_size = c }) same

  step_below :
      (n : ℕ) (w : Window A) (a : A)
      → IsTumbling n w
      → length w.tuple_buf + 1 < n
      → process_data_element w a false ≡ some (holding w (w.tuple_buf ++ a ∷ []), fresh a ∷ [])
  step_below n w a v h = process_plain w _ a [] v.plain v.by_rows (
      rw (grown n w a v (omega arith))
        (keeps _ n v.sized (omega (arith, length-append w.tuple_buf (a ∷ [])))))

  step_full :
      (n : ℕ) (w : Window A) (a : A)
      → IsTumbling n w
      → length w.tuple_buf + 1 ≡ n
      → process_data_element w a false
        ≡ some (
          holding w [],
          (all_stale (w.tuple_buf ++ a ∷ []) ++ punctuation window_expired ∷ []) ++ fresh a ∷ [],
        )
  step_full n w a v h = process_plain w _ a _ v.plain v.by_rows (
      rw (grown n w a v (omega arith))
        (evicts _ n v.sized (omega (arith, length-append w.tuple_buf (a ∷ [])))))

  held : {n : ℕ} (w : Window A) → IsTumbling n w → holding w (w.tuple_buf ++ []) ≡ w
  held w v =
      ap (holding w) (append-nil w.tuple_buf) ∙ ap (λ c. record w { curr_size = c }) (sym v.counted)

  -- Tuples that do not fill the block are forwarded, and the run goes on behind them.
  fill :
      (n : ℕ) (w : Window A) (xs : List A) {w' : Window A} (es : List (Event A))
      {out : List (Event A)}
      → IsTumbling n w
      → length w.tuple_buf + length xs < n
      → try_run handle (holding w (w.tuple_buf ++ xs)) es ≡ some (w', out)
      → try_run handle w (all_fresh xs ++ es) ≡ some (w', all_fresh xs ++ out)
  unfolding handle
  fill n w [] {w'} es {out} v h p = subst (λ z. try_run handle z es ≡ some (w', out)) (held w v) p
  fill n w (x ∷ xs) {w'} es {out} v h p =
      try_run-cons handle (fresh x) (all_fresh xs ++ es) (step_below n w x v (omega arith)) (
        fill n (holding w (w.tuple_buf ++ x ∷ [])) xs es (holding-IsTumbling n w _ v)
          (omega (arith, length-append w.tuple_buf (x ∷ [])))
          (subst (λ b. try_run handle (holding w b) es ≡ some (w', out))
            (sym (append_assoc w.tuple_buf (x ∷ []) xs)) p))

  -- A stream cut into blocks, each given by its tuples but the last and the last, with a rest.
  abbrev pub blocks_in : List (List A × A) → List A → List (Event A)
  blocks_in [] rest = all_fresh rest
  blocks_in ((xs, a) ∷ bs) rest = all_fresh xs ++ fresh a ∷ blocks_in bs rest

  abbrev pub blocks_out : List (List A × A) → List A → List (Event A)
  blocks_out [] rest = all_fresh rest
  blocks_out ((xs, a) ∷ bs) rest =
      all_fresh xs
      ++ (((all_stale (xs ++ a ∷ []) ++ punctuation window_expired ∷ []) ++ fresh a ∷ [])
          ++ blocks_out bs rest)

  -- From an empty row window of `n` tuples without a window function, a stream of blocks of `n`
  -- tuples and a rest of fewer is handled without a fault. In each block the tuples but the last
  -- are forwarded; then the whole block is published as outdated with one WindowExpired; and only
  -- then the last tuple is forwarded. The buffer ends with the rest.
  pub tumbling_window_run :
      (n : ℕ) (w : Window A) (bs : List (List A × A)) (rest : List A)
      → IsTumbling n w
      → All (λ b. length b.0 + 1 ≡ n) bs
      → length rest < n
      → try_run handle (holding w []) (blocks_in bs rest)
        ≡ some (holding w rest, blocks_out bs rest)
  unfolding handle
  tumbling_window_run n w [] rest v full h = simp append-nil at (
      fill n (holding w []) rest [] (holding-IsTumbling n w [] v) (omega arith)
        (try_run-nil handle _))
  tumbling_window_run n w ((xs, a) ∷ bs) rest v full h =
      fill n (holding w []) xs (fresh a ∷ blocks_in bs rest) (holding-IsTumbling n w [] v)
        (omega arith)
        (try_run-cons handle (fresh a) (blocks_in bs rest)
          (step_full n (holding w xs) a (holding-IsTumbling n w xs v) full.0)
          (tumbling_window_run n w bs rest v full.1 h))
