-- ===== src/Window/Sliding/Count.antt =====
-- qop/SlidingWindow.hpp, evictByCount: a row window holds the last tuples of its stream.
use Prim.Native.Nat.{min}
use pipefabric.Prelude.{
  ℕ, suc, ◌+◌, ◌≤◌, ◌<◌, ◌≡◌, refl, ap, ◌∙◌, sym, Bool-cases, inl, inr, false, Option, none, some,
  List, [], ◌∷◌, ◌++◌, length, ltb, dec32, inc32, u32_mod, arith, length-append, append-nil,
}
use pipefabric.Stream.{
  Event, fresh, news, outs, all_fresh, all_stale, try_run, news-append, outs-append, try_run-cons,
  outs_through, news-all_stale, outs-all_stale,
}
use pipefabric.Window.{Window, row_window, rows, push_tuple, forwarded}
use pipefabric.Window.Sliding.{count_loop, evict_by_count, evict_fun, process_data_element, handle}

module _ {ℓ} {A : Type ℓ} where
  -- A buffer is trimmed to `size` tuples, and the older ones are published as outdated.
  abbrev Trims : ℕ → List A → Option (List A × ℕ × List (Event A)) → Type ℓ
  Trims size buf r =
      (gone kept : List A) × (r ≡ some (kept, length kept, all_stale gone))
      × (gone ++ kept ≡ buf)
      × (length kept ≡ min size (length buf))

  count_loop-Trims :
      (size : ℕ) (buf : List A)
      → length buf < u32_mod
      → Trims size buf (count_loop size buf (length buf))
  unfolding count_loop
  count_loop-Trims size [] h = ([], [], ground arith, refl, omega arith)
  count_loop-Trims size (tup ∷ buf) h = elim (Bool-cases (ltb size (suc (length buf)))) [
    | inl over ↦
        let (gone, kept, e, split, len) = count_loop-Trims size buf (omega arith) in
        let same : dec32 (suc (length buf)) ≡ length buf = omega arith in
        (tup ∷ gone, kept, rw (over, same, e), ap (◌∷◌ tup) split, ground arith)
    | inr fits ↦ ([], tup ∷ buf, rw fits, refl, ground arith)
  ]

  -- A row window over `n` tuples whose eviction is done by the incoming tuple.
  pub record IsRow (n : ℕ) (w : Window A) : Type 0 where
    pub by_rows : w.win_type ≡ row_window
    pub sized : w.win_size ≡ rows n
    pub no_thread : w.evict_interval ≡ 0
    pub counted : w.curr_size ≡ length w.tuple_buf
    pub bounded : length w.tuple_buf ≤ n
    pub room : n + 1 < u32_mod

  -- What an eviction does to a row window: the oldest tuples leave it and are published.
  abbrev Evicts : ℕ → Window A → Option (Window A × List (Event A)) → Type ℓ
  Evicts n w r =
      (gone kept : List A) × (r
        ≡ some (record w { tuple_buf = kept; curr_size = length kept }, all_stale gone))
      × (gone ++ kept ≡ w.tuple_buf)
      × (length kept ≡ min n (length w.tuple_buf))

  evict_by_count-Evicts :
      (n : ℕ) (w : Window A)
      → w.win_size ≡ rows n
      → w.curr_size ≡ length w.tuple_buf
      → length w.tuple_buf < u32_mod
      → Evicts n w (evict_by_count w)
  unfolding evict_by_count
  evict_by_count-Evicts n w s c h =
      let (gone, kept, e, split, len) = count_loop-Trims n w.tuple_buf h in
      (gone, kept, rw (s, c, e), split, len)

  process_by_rows :
      (w w' : Window A) (a : A) (out : List (Event A))
      → w.evict_interval ≡ 0
      → w.win_type ≡ row_window
      → evict_by_count (push_tuple w a) ≡ some (w', out)
      → process_data_element w a false
        ≡ some (w', out ++ fresh (forwarded w.window_op w'.tuple_buf a) ∷ [])
  unfolding process_data_element evict_fun
  process_by_rows w w' a out i t e = ground (arith)

  forwarded_raw :
      (op : Option (List A → A → A)) (buf : List A) (a : A) → op ≡ none → forwarded op buf a ≡ a
  unfolding forwarded
  forwarded_raw op buf a e = rw e

  -- One tuple that arrives at a row window without an eviction thread.
  abbrev pub Slides : ℕ → Window A → A → Option (Window A × List (Event A)) → Type ℓ
  Slides n w a r =
      (w' : Window A) × (out : List (Event A)) × (r ≡ some (w', out))
      × IsRow n w'
      × (w'.window_op ≡ w.window_op)
      × (outs out ++ w'.tuple_buf ≡ w.tuple_buf ++ a ∷ [])
      × (news out ≡ forwarded w.window_op w'.tuple_buf a ∷ [])
      × (length w'.tuple_buf ≡ min n (length w.tuple_buf + 1))

  -- A row window of `n` tuples, `n` + 1 below 2^32, whose eviction is done by the incoming tuple,
  -- handles a new tuple without a fault, whatever its window function: the tuples published as
  -- outdated, followed by the buffer, are the old buffer followed by the tuple; what is forwarded
  -- is the tuple, or the window function's result on the buffer after the eviction; the buffer
  -- holds `n` tuples, or all if there were fewer; and the window is again such a window.
  pub process_data_element-rows :
      (n : ℕ) (w : Window A) (a : A) → IsRow n w → Slides n w a (process_data_element w a false)
  unfolding push_tuple
  process_data_element-rows n w a v =
      let full : length (w.tuple_buf ++ a ∷ []) ≡ length w.tuple_buf + 1 =
        length-append w.tuple_buf (a ∷ []) in
      let grown : inc32 w.curr_size ≡ length (w.tuple_buf ++ a ∷ []) =
        omega (arith, full, v.counted, v.bounded, v.room) in
      let (gone, kept, e, split, len) =
        evict_by_count-Evicts n (push_tuple w a) v.sized grown
          (omega (arith, full, v.bounded, v.room)) in
      (
        record w { tuple_buf = kept; curr_size = length kept },
        all_stale gone ++ fresh (forwarded w.window_op kept a) ∷ [],
        process_by_rows w _ a _ v.no_thread v.by_rows e,
        record {
          by_rows = v.by_rows;
          sized = v.sized;
          no_thread = v.no_thread;
          counted = refl;
          bounded = omega (arith, len);
          room = v.room;
        },
        refl,
        simp (outs-append, outs-all_stale, append-nil) split,
        simp (news-append, news-all_stale),
        omega (arith, len, full),
      )

  -- A whole stream through a row window without a window function.
  abbrev pub SlidesOver : ℕ → Window A → List A → Option (Window A × List (Event A)) → Type ℓ
  SlidesOver n w xs r =
      (w' : Window A) × (out : List (Event A)) × (r ≡ some (w', out))
      × IsRow n w'
      × (outs out ++ w'.tuple_buf ≡ w.tuple_buf ++ xs)
      × (news out ≡ xs)
      × (length w'.tuple_buf ≡ min n (length w.tuple_buf + length xs))

  -- From a row window of `n` tuples, `n` + 1 below 2^32, with its eviction done by the incoming tuple and no window
  -- function, any list of new tuples is handled without a fault. All are forwarded in order; the
  -- tuples published as outdated, followed by the buffer, are the old buffer followed by the
  -- input; and the buffer holds `n` tuples, or all of them if there were fewer.
  pub row_window_run :
      (n : ℕ) (w : Window A) (xs : List A)
      → IsRow n w
      → w.window_op ≡ none
      → SlidesOver n w xs (try_run handle w (all_fresh xs))
  unfolding try_run handle
  row_window_run n w [] v op =
      (w, [], refl, v, sym (append-nil w.tuple_buf), refl, omega (arith, v.bounded))
  row_window_run n w (x ∷ xs) v op =
      let (w₁, out₁, e₁, v₁, op₁, split₁, new₁, len₁) = process_data_element-rows n w x v in
      let (w₂, out₂, e₂, v₂, split₂, new₂, len₂) = row_window_run n w₁ xs v₁ (op₁ ∙ op) in
      (
        w₂,
        out₁ ++ out₂,
        try_run-cons handle (fresh x) (all_fresh xs) e₁ e₂,
        v₂,
        outs_through out₁ out₂ w.tuple_buf w₁.tuple_buf w₂.tuple_buf x xs split₁ split₂,
        rw (news-append, new₁, new₂)
            (ap (λ y. y ∷ xs) (forwarded_raw w.window_op w₁.tuple_buf x op)),
        omega (arith, len₁, len₂),
      )
