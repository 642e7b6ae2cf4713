-- ===== src/Window/Sliding/Time.antt =====
-- qop/SlidingWindow.hpp, evictByTime: a range window holds the tuples of the last `size`
-- microseconds, on a stream whose timestamps do not fall.
use pipefabric.Prelude.{
  ℕ, suc, ◌+◌, ◌-◌, ◌≤◌, ◌<◌, ◌≡◌, refl, ap, subst, ◌∙◌, sym, Bool-cases, inl, inr, Option, some,
  List, [], ◌∷◌, ◌++◌, length, leb, dec32, inc32, u32_mod, arith, false, All, All-map, every_holds,
  All-right, SortedBy, SortedBy-left, SortedBy-right, All-append, last?, last?-append,
  length-append, append_assoc, append-nil, append_through,
}
use pipefabric.Stream.{
  Event, fresh, outs, all_fresh, all_stale, try_run, try_run-cons, try_run-one, outs_through,
  outs-append, outs-all_stale,
}
use pipefabric.Window.{Window, range_window, duration, push_tuple, forwarded}
use pipefabric.Window.Sliding.{time_loop, evict_by_time, evict_fun, process_data_element, handle}

module _ {ℓ} {A : Type ℓ} (time : A → ℕ) where
  -- The split of a buffer at a point in time.
  abbrev Splits : ℕ → List A → List A × ℕ × List (Event A) → Type ℓ
  Splits accepted buf r =
      (gone kept : List A) × (r ≡ (kept, length kept, all_stale gone))
      × (gone ++ kept ≡ buf)
      × All (λ t. time t ≤ accepted) gone
      × All (λ t. accepted < time t) kept

  time_loop-Splits :
      (accepted : ℕ) (buf : List A)
      → length buf < u32_mod
      → SortedBy time buf
      → Splits accepted buf (time_loop time accepted buf (length buf))
  unfolding time_loop
  time_loop-Splits accepted [] h s = ([], [], refl, refl, tt, tt)
  time_loop-Splits accepted (tup ∷ buf) h s = elim (Bool-cases (leb (time tup) accepted)) [
    | inl over ↦
        let (gone, kept, e, split, old, new) = time_loop-Splits accepted buf (omega arith) s.1 in
        let same : dec32 (suc (length buf)) ≡ length buf = omega arith in
        (tup ∷ gone, kept, rw (over, same, e), ap (◌∷◌ tup) split, (ground arith, old), new)
    | inr fits ↦
        let later : accepted < time tup = ground arith in
        (
          [],
          tup ∷ buf,
          rw fits,
          refl,
          tt,
          (later, All-map (λ t (le : time tup ≤ time t). omega arith) buf s.0),
        )
  ]

  -- A range window of `d` microseconds whose eviction is done by the incoming tuple.
  pub record IsRange (d : ℕ) (w : Window A) : Type ℓ where
    pub by_time : w.win_type ≡ range_window
    pub timed : w.timestamp_extractor ≡ some time
    pub sized : w.win_size ≡ duration d
    pub no_thread : w.evict_interval ≡ 0
    pub counted : w.curr_size ≡ length w.tuple_buf

  -- What evictByTime does, given the time `now` of the newest tuple.
  abbrev Expires : ℕ → ℕ → Window A → Option (Window A × List (Event A)) → Type ℓ
  Expires d now w r =
      (gone kept : List A) × (r
        ≡ some (record w { tuple_buf = kept; curr_size = length kept }, all_stale gone))
      × (gone ++ kept ≡ w.tuple_buf)
      × All (λ t. time t + d ≤ now) gone
      × All (λ t. now < time t + d) kept

  evict_by_time-Expires :
      (d : ℕ) (w : Window A) (a : A)
      → w.timestamp_extractor ≡ some time
      → w.win_size ≡ duration d
      → w.curr_size ≡ length w.tuple_buf
      → last? w.tuple_buf ≡ some a
      → length w.tuple_buf < u32_mod
      → SortedBy time w.tuple_buf
      → Expires d (time a) w (evict_by_time w)
  unfolding evict_by_time
  evict_by_time-Expires d w a timed sized counted last room s =
      let (gone, kept, e, split, old, new) = time_loop-Splits (time a - d) w.tuple_buf room s in
      elim (Bool-cases (leb d (time a))) [
        | inl long ↦
            let enough : d ≤ time a = ground arith in
            (
              gone,
              kept,
              rw (last, timed, sized, long, counted, e),
              split,
              All-map (λ t (le : time t ≤ time a - d). omega arith) gone old,
              All-map (λ t (lt : time a - d < time t). omega arith) kept new,
            )
        | inr short ↦
            let early : time a < d = ground arith in
            (
              [],
              w.tuple_buf,
              rw (last, timed, sized, short, ← counted),
              refl,
              tt,
              every_holds (λ t. omega arith) w.tuple_buf,
            )
      ]

  process_by_time :
      (w w' : Window A) (a : A) (out : List (Event A))
      → w.evict_interval ≡ 0
      → w.win_type ≡ range_window
      → evict_by_time (push_tuple w a) ≡ some (w', out)
      → process_data_element w a false
        ≡ some (w', out ++ fresh (forwarded w.window_op w'.tuple_buf a) ∷ [])
  unfolding process_data_element evict_fun
  process_by_time w w' a out i t e = ground arith

  -- The state and the output of a range window after it handled tuples of which `a` is the last.
  abbrev pub Ranges : ℕ → Window A → List A → A → Option (Window A × List (Event A)) → Type ℓ
  Ranges d w xs a r =
      (w' : Window A) × (out : List (Event A)) × (r ≡ some (w', out))
      × IsRange d w'
      × (w'.window_op ≡ w.window_op)
      × (outs out ++ w'.tuple_buf ≡ w.tuple_buf ++ xs)
      × All (λ t. time t + d ≤ time a) (outs out)
      × All (λ t. time a < time t + d) w'.tuple_buf

  process_data_element-range :
      (d : ℕ) (w : Window A) (a : A)
      → IsRange d w
      → length w.tuple_buf + 1 < u32_mod
      → SortedBy time (w.tuple_buf ++ a ∷ [])
      → Ranges d w (a ∷ []) a (process_data_element w a false)
  unfolding push_tuple
  process_data_element-range d w a v room s =
      let full : length (w.tuple_buf ++ a ∷ []) ≡ length w.tuple_buf + 1 =
        length-append w.tuple_buf (a ∷ []) in
      let grown : inc32 w.curr_size ≡ length (w.tuple_buf ++ a ∷ []) =
        omega (arith, full, v.counted) in
      let (gone, kept, e, split, old, new) =
        evict_by_time-Expires d (push_tuple w a) a v.timed v.sized grown
          (last?-append w.tuple_buf a) (omega (arith, full)) s in
      let gone_all : outs (all_stale gone ++ fresh (forwarded w.window_op kept a) ∷ []) ≡ gone =
        simp (outs-append, outs-all_stale, append-nil) in
      (
        record w { tuple_buf = kept; curr_size = length kept },
        all_stale gone ++ fresh (forwarded w.window_op kept a) ∷ [],
        process_by_time w _ a _ v.no_thread v.by_time e,
        record {
          by_time = v.by_time;
          timed = v.timed;
          sized = v.sized;
          no_thread = v.no_thread;
          counted = refl;
        },
        refl,
        rw gone_all split,
        rw gone_all old,
        new,
      )

  -- From a range window of `d` microseconds whose eviction is done by the incoming tuple, a list
  -- of new tuples that ends with `a` is handled without a fault, if the timestamps of the buffer
  -- and the tuples do not fall and the counter does not overflow. The tuples published as
  -- outdated, followed by the buffer, are the old buffer followed by the input; the outdated
  -- tuples are at least `d` older than `a`, and those in the buffer are less than `d` older.
  pub range_window_run :
      (d : ℕ) (w : Window A) (xs : List A) (a : A)
      → IsRange d w
      → length w.tuple_buf + length xs + 1 < u32_mod
      → SortedBy time (w.tuple_buf ++ (xs ++ a ∷ []))
      → Ranges d w (xs ++ a ∷ []) a (try_run handle w (all_fresh (xs ++ a ∷ [])))
  unfolding try_run handle
  range_window_run d w [] a v room s =
      let (w', out, e, v', op, split, old, new) =
        process_data_element-range d w a v (omega arith) s in
      (w', out, try_run-one handle (fresh a) e, v', op, split, old, new)
  range_window_run d w (x ∷ xs) a v room s =
      let s₁ : SortedBy time (w.tuple_buf ++ x ∷ []) =
        SortedBy-left time _ (xs ++ a ∷ [])
          (subst (SortedBy time) (sym (append_assoc w.tuple_buf (x ∷ []) (xs ++ a ∷ []))) s) in
      let (w₁, out₁, e₁, v₁, op₁, split₁, old₁, new₁) =
        process_data_element-range d w x v (omega arith) s₁ in
      let through = append_through (outs out₁) w₁.tuple_buf w.tuple_buf x (xs ++ a ∷ []) split₁ in
      let room₁ : length w₁.tuple_buf + length xs + 1 < u32_mod = omega (
        arith,
        ap length split₁,
        length-append (outs out₁) w₁.tuple_buf,
        length-append w.tuple_buf (x ∷ []),
      ) in
      let (w₂, out₂, e₂, v₂, op₂, split₂, old₂, new₂) =
        range_window_run d w₁ xs a v₁ room₁
          (SortedBy-right time (outs out₁) _ (subst (SortedBy time) (sym through) s)) in
      let x≤a : time x ≤ time a =
        (All-right _ xs (a ∷ []) (SortedBy-right time w.tuple_buf _ s).0).0 in
      (
        w₂,
        out₁ ++ out₂,
        try_run-cons handle (fresh x) (all_fresh (xs ++ a ∷ [])) e₁ e₂,
        v₂,
        op₂ ∙ op₁,
        outs_through out₁ out₂ w.tuple_buf w₁.tuple_buf w₂.tuple_buf x (xs ++ a ∷ []) split₁ split₂,
        rw outs-append (
            All-append _ (outs out₁) (outs out₂)
              (All-map (λ t (old : time t + d ≤ time x). omega arith) (outs out₁) old₁) old₂),
        new₂,
      )
