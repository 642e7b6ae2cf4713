-- ===== src/Batch/RoundTrip.antt =====
-- Batching by a fixed size, and unbatching again.
use pipefabric.Prelude.{
  ℕ, zero, suc, ◌+◌, ◌-◌, ◌≤◌, ◌<◌, ◌%◌, ◌^◌, ◌≡◌, ◌≢◌, refl, ap, ap₂, lt→ltb, le→leb, sym, ◌∙◌,
  Bool-cases, inl, inr, Bool, false, Option, some, List, [], ◌∷◌, ◌++◌, length, set, take,
  replicate, arith, All, All-append, length-append, append_assoc, append-nil, ◌==◌, if◌then◌else◌,
  length-replicate,
}
use pipefabric.Stream.{Event, element, punctuation, Punctuation, try_run, try_run-cons, try_run-nil}
use pipefabric.Batch.{
  Batcher, size_max, resize, publish_batch, write, process_data_element, process_punctuation,
  handle, release, unbatch, unbatch_all,
}

set-behind {κ} :
    {B : Type κ} (x y : B) (xs ys : List B)
    → set (xs ++ y ∷ ys) (length xs) x ≡ (xs ++ x ∷ []) ++ ys
set-behind x y [] ys = refl
set-behind x y (z ∷ xs) ys = ap (◌∷◌ z) (set-behind x y xs ys)

fill_new {κ} : {B : Type κ} (n : ℕ) (x : B) → take n [] ++ replicate (n - 0) x ≡ replicate n x
fill_new zero x = refl
fill_new (suc n) x = let e : suc n - 0 ≡ suc n = omega arith in ap (λ k. replicate k x) e

length-zero {κ} : {B : Type κ} (xs : List B) → length xs ≡ 0 → xs ≡ []
length-zero [] h = refl
length-zero (x ∷ xs) h = absurd (omega arith)

module _ {ℓ} {A : Type ℓ} where
  -- The tuples that a channel carried, with their flags, and the punctuations that it carried.
  abbrev pub tuples : List (Event A) → List (A × Bool)
  tuples [] = []
  tuples (element a o ∷ es) = (a, o) ∷ tuples es
  tuples (punctuation p ∷ es) = tuples es

  abbrev pub punctuations : List (Event A) → List Punctuation
  punctuations [] = []
  punctuations (element a o ∷ es) = punctuations es
  punctuations (punctuation p ∷ es) = p ∷ punctuations es

  pub tuples-append : (es fs : List (Event A)) → tuples (es ++ fs) ≡ tuples es ++ tuples fs
  tuples-append [] fs = refl
  tuples-append (element a o ∷ es) fs = ap (◌∷◌ (a, o)) (tuples-append es fs)
  tuples-append (punctuation p ∷ es) fs = tuples-append es fs

  pub punctuations-append :
      (es fs : List (Event A)) → punctuations (es ++ fs) ≡ punctuations es ++ punctuations fs
  punctuations-append [] fs = refl
  punctuations-append (element a o ∷ es) fs = punctuations-append es fs
  punctuations-append (punctuation p ∷ es) fs = ap (◌∷◌ p) (punctuations-append es fs)

  tuples-release : (vec : List (A × Bool)) → tuples (release vec) ≡ vec
  tuples-release [] = refl
  tuples-release ((a, o) ∷ vec) = ap (◌∷◌ (a, o)) (tuples-release vec)

  punctuations-release : (vec : List (A × Bool)) → punctuations (release vec) ≡ []
  punctuations-release [] = refl
  punctuations-release ((a, o) ∷ vec) = punctuations-release vec

  unbatch_all-append :
      (es fs : List (Event (List (A × Bool))))
      → unbatch_all (es ++ fs) ≡ unbatch_all es ++ unbatch_all fs
  unfolding unbatch_all
  unbatch_all-append [] fs = refl
  unbatch_all-append (e ∷ es) fs =
      ap (◌++◌ (unbatch e)) (unbatch_all-append es fs) ∙ sym (append_assoc (unbatch e) _ _)

module _ {ℓ} {A : Type ℓ} (dummy : A × Bool) (max_size : ℕ) where
  -- A batcher for batches of `n` tuples that holds `pend`: behind them, the vector is unused.
  pub record IsFilled (n : ℕ) (pend : List (A × Bool)) (b : Batcher A) : Type ℓ where
    pub sized : b.batch_size ≡ n
    pub counted : b.pos ≡ length pend
    pub unused : List (A × Bool)
    pub holds : b.buf ≡ pend ++ unused
    pub long : length b.buf ≡ n
    pub pending : length pend < n
    pub bounded : n < size_max
    pub fits : n ≤ max_size

  abbrev pub IsBatch : ℕ → Event (List (A × Bool)) → Type 0
  IsBatch n (element vec outdated) = (length vec ≡ n) × (outdated ≡ false)
  IsBatch n (punctuation p) = Unit

  -- What events have been handled: the batches that were published, unbatched, and the tuples
  -- that are pending are the input; all batches are full; and the punctuations are those of the
  -- input.
  abbrev pub Batches :
      ℕ
      → List (A × Bool)
      → List (Event A)
      → Option (Batcher A × List (Event (List (A × Bool))))
      → Type ℓ
  Batches n pend es r =
      (b' : Batcher A) × (pend' : List (A × Bool)) × (out : List (Event (List (A × Bool)))) × (r
        ≡ some (b', out))
      × IsFilled n pend' b'
      × (tuples (unbatch_all out) ++ pend' ≡ pend ++ tuples es)
      × (punctuations (unbatch_all out) ≡ punctuations es)
      × All (IsBatch n) out

  -- Writing at the position appends to the pending tuples, if there is room.
  write-IsFilled :
      (n : ℕ) (pend : List (A × Bool)) (b : Batcher A) (x : A × Bool) (unused : List (A × Bool))
      → b.pos ≡ length pend
      → b.buf ≡ pend ++ unused
      → 0 < length unused
      → length pend < size_max
      → (rest : List (A × Bool)) × (write dummy max_size b x
          ≡ some (record b { pos = length pend + 1; buf = (pend ++ x ∷ []) ++ rest }))
        × (length rest + 1 ≡ length unused)
  unfolding write
  write-IsFilled n pend b x [] p h lt room = absurd (omega arith)
  write-IsFilled n pend b x (y ∷ unused) p h lt room =
      let len : length b.buf ≡ length pend + suc (length unused) =
        ap length h ∙ length-append pend (y ∷ unused) in
      let inside : b.pos < length b.buf = omega (arith, len) in
      let moved : (b.pos + 1) % 2 ^ 64 ≡ length pend + 1 = omega arith in
      (
        unused,
        rw (lt→ltb _ _ inside) (
            ap₂ (λ q v. some (record b { pos = q; buf = v })) moved
              (ap₂ (λ l i. set l i x) h p ∙ set-behind x y pend unused)),
        omega arith,
      )

  refilled :
      (b : Batcher A)
      → b.batch_size ≤ max_size
      → publish_batch dummy max_size b
        ≡ some (record b { pos = 0; buf = replicate b.batch_size dummy }, element b.buf false ∷ [])
  unfolding publish_batch resize
  refilled b h = rw (le→leb _ _ h) (
      ap (λ v. some (record b { pos = 0; buf = v }, element b.buf false ∷ []))
        (fill_new b.batch_size dummy))

  process_written :
      (b b' : Batcher A) (a : A) (outdated : Bool)
      → b.batch_size < size_max
      → write dummy max_size b (a, outdated) ≡ some b'
      → process_data_element dummy max_size b a outdated
        ≡ (if b'.pos == b'.batch_size then publish_batch dummy max_size b' else some (b', []))
  unfolding process_data_element
  process_written b b' a outdated h e = ground arith

  process_data_element-Batches :
      (n : ℕ) (pend : List (A × Bool)) (b : Batcher A) (a : A) (outdated : Bool)
      → IsFilled n pend b
      → Batches n pend (element a outdated ∷ []) (process_data_element dummy max_size b a outdated)
  unfolding unbatch_all unbatch
  process_data_element-Batches n pend b a outdated v =
      let long : length b.buf ≡ length pend + length v.unused =
        ap length v.holds ∙ length-append pend v.unused in
      let (rest, written, len) =
        write-IsFilled n pend b (a, outdated) v.unused v.counted v.holds
          (omega (arith, long, v.long, v.pending)) (omega (arith, v.pending, v.bounded)) in
      let b' : Batcher A = record b {
        pos = length pend + 1;
        buf = (pend ++ (a, outdated) ∷ []) ++ rest;
      } in
      let grown = length-append pend ((a, outdated) ∷ []) in
      let step = process_written b b' a outdated (omega (arith, v.sized, v.bounded)) written in
      elim (Bool-cases (length pend + 1 == b.batch_size)) [
        | inl full ↦
            let done : length pend + 1 ≡ b.batch_size = ground arith in
            let none_left : rest ≡ [] = length-zero rest (omega (arith, long, v.long, v.sized)) in
            (
              record b { pos = 0; buf = replicate b.batch_size dummy },
              [],
              element (pend ++ (a, outdated) ∷ []) false ∷ [],
              step
                  ∙ rw full (
                      refilled b' (omega (arith, v.sized, v.fits))
                      ∙ rw none_left (rw append-nil refl)),
              record {
                sized = v.sized;
                counted = refl;
                unused = replicate b.batch_size dummy;
                holds = refl;
                long = length-replicate b.batch_size dummy ∙ v.sized;
                pending = omega (arith, v.pending);
                bounded = v.bounded;
                fits = v.fits;
              },
              rw (append-nil, append-nil, tuples-release),
              rw (append-nil, punctuations-release),
              ((grown ∙ done ∙ v.sized, refl), tt),
            )
        | inr more ↦
            let room : length pend + 1 ≢ b.batch_size = ground arith in
            (
              b',
              pend ++ (a, outdated) ∷ [],
              [],
              step ∙ rw more,
              record {
                sized = v.sized;
                counted = sym grown;
                unused = rest;
                holds = refl;
                long =
                    length-append (pend ++ (a, outdated) ∷ []) rest
                    ∙ omega (arith, grown, len, long, v.long);
                pending = omega (arith, grown, room, v.sized, v.pending);
                bounded = v.bounded;
                fits = v.fits;
              },
              refl,
              refl,
              tt,
            )
      ]

  process_punctuation-Batches :
      (n : ℕ) (pend : List (A × Bool)) (b : Batcher A) (p : Punctuation)
      → IsFilled n pend b
      → Batches n pend (punctuation p ∷ []) (process_punctuation dummy max_size b p)
  unfolding process_punctuation unbatch_all unbatch
  process_punctuation-Batches n pend b p v =
      (b, pend, punctuation p ∷ [], ground arith, v, sym (append-nil pend), refl, (tt, tt))

  handle-Batches :
      (n : ℕ) (pend : List (A × Bool)) (b : Batcher A) (e : Event A)
      → IsFilled n pend b
      → Batches n pend (e ∷ []) (handle dummy max_size b e)
  unfolding handle
  handle-Batches n pend b (element a outdated) v =
      process_data_element-Batches n pend b a outdated v
  handle-Batches n pend b (punctuation p) v = process_punctuation-Batches n pend b p v

  -- A batcher for batches of `n` tuples, `n` below SIZE_MAX and at most the vector's max_size(),
  -- that holds pending tuples handles every list of events without a fault. Every batch that it
  -- publishes has `n` tuples and the flag `false`; unbatched, the batches followed by the tuples
  -- that are then pending are the old pending tuples followed by the input's, with their flags, in
  -- order; the punctuations are the input's, in order; and it again holds fewer than `n` tuples.
  pub batch_round_trip :
      (n : ℕ) (pend : List (A × Bool)) (b : Batcher A) (es : List (Event A))
      → IsFilled n pend b
      → Batches n pend es (try_run (handle dummy max_size) b es)
  batch_round_trip n pend b [] v = (
    b,
    pend,
    [],
    try_run-nil _ b,
    v,
    unfold unbatch_all in sym (append-nil pend),
    unfold unbatch_all in refl,
    tt,
  )
  batch_round_trip n pend b (e ∷ es) v =
      let (b₁, pend₁, out₁, e₁, v₁, split₁, marks₁, full₁) = handle-Batches n pend b e v in
      let (b₂, pend₂, out₂, e₂, v₂, split₂, marks₂, full₂) = batch_round_trip n pend₁ b₁ es v₁ in
      (
        b₂,
        pend₂,
        out₁ ++ out₂,
        try_run-cons (handle dummy max_size) e es e₁ e₂,
        v₂,
        rw (unbatch_all-append out₁ out₂, tuples-append (unbatch_all out₁) (unbatch_all out₂))
            (append_assoc (tuples (unbatch_all out₁)) _ pend₂
              ∙ ap (◌++◌ (tuples (unbatch_all out₁))) split₂
              ∙ sym (append_assoc (tuples (unbatch_all out₁)) pend₁ (tuples es))
              ∙ ap (λ l. l ++ tuples es) split₁
              ∙ append_assoc pend _ _
              ∙ ap (◌++◌ pend) (sym (tuples-append (e ∷ []) es))),
        rw
            (
              unbatch_all-append out₁ out₂,
              punctuations-append (unbatch_all out₁) (unbatch_all out₂),
              marks₁,
              marks₂,
            )
            (sym (punctuations-append (e ∷ []) es)),
        All-append (IsBatch n) out₁ out₂ full₁ full₂,
      )
