-- ===== src/Stream.antt =====
-- core/Punctuation.hpp and pubsub/: what travels over the channels between operators, and an
-- operator as a state machine that answers each event with the events that it publishes.
-- The timestamp and the data of a punctuation are modelled in Routing/Queue only, which does not
-- pass them on: no other operator modelled here reads them.
use pipefabric.Prelude.{
  ◌≡◌, refl, ap, append-nil, append_assoc, append_through, ◌∙◌, Bool, true, false, List, [], ◌∷◌,
  ◌++◌, arith, Option, some, ◌>>=◌,
}

-- Punctuation::PType, without the masks None and All.
pub data Punctuation : Type 0 where
  end_of_stream end_of_sub_stream window_expired slide_expired : Punctuation
  tx_begin tx_commit tx_abort : Punctuation

-- One call of publish(data, outdated) on a data channel, or of publish(punctuation) on a
-- punctuation channel.
pub data Event {ℓ} (A : Type ℓ) : Type ℓ where
  element : A → Bool → Event A
  punctuation : Punctuation → Event A

-- A tuple that is new, and one that is invalidated now.
pattern abbrev pub fresh {ℓ} : {A : Type ℓ} → A → Event A
fresh a = element a false

pattern abbrev pub stale {ℓ} : {A : Type ℓ} → A → Event A
stale a = element a true

module _ {ℓ} {A : Type ℓ} where
  -- The tuples that a channel carried as new, and those that it carried as outdated, in order.
  abbrev pub news : List (Event A) → List A
  news [] = []
  news (element a false ∷ es) = a ∷ news es
  news (element a true ∷ es) = news es
  news (punctuation p ∷ es) = news es

  abbrev pub outs : List (Event A) → List A
  outs [] = []
  outs (element a false ∷ es) = outs es
  outs (element a true ∷ es) = a ∷ outs es
  outs (punctuation p ∷ es) = outs es

  abbrev pub all_fresh : List A → List (Event A)
  all_fresh [] = []
  all_fresh (x ∷ xs) = fresh x ∷ all_fresh xs

  abbrev pub all_stale : List A → List (Event A)
  all_stale [] = []
  all_stale (x ∷ xs) = stale x ∷ all_stale xs

  pub all_fresh-append : (xs ys : List A) → all_fresh (xs ++ ys) ≡ all_fresh xs ++ all_fresh ys
  all_fresh-append [] ys = refl
  all_fresh-append (x ∷ xs) ys = ap (◌∷◌ (fresh x)) (all_fresh-append xs ys)

  pub news-append : (es fs : List (Event A)) → news (es ++ fs) ≡ news es ++ news fs
  news-append [] fs = refl
  news-append (element a false ∷ es) fs = ground (arith, news-append es fs)
  news-append (element a true ∷ es) fs = news-append es fs
  news-append (punctuation p ∷ es) fs = news-append es fs

  pub outs-append : (es fs : List (Event A)) → outs (es ++ fs) ≡ outs es ++ outs fs
  outs-append [] fs = refl
  outs-append (element a false ∷ es) fs = outs-append es fs
  outs-append (element a true ∷ es) fs = ground (arith, outs-append es fs)
  outs-append (punctuation p ∷ es) fs = outs-append es fs

  pub news-all_stale : (xs : List A) → news (all_stale xs) ≡ []
  news-all_stale [] = refl
  news-all_stale (x ∷ xs) = news-all_stale xs

  pub outs-all_stale : (xs : List A) → outs (all_stale xs) ≡ xs
  outs-all_stale [] = refl
  outs-all_stale (x ∷ xs) = ground (arith, outs-all_stale xs)

-- Two parts of a run over one buffer: what left it, followed by what it holds, is what it held
-- before, followed by the input.
pub outs_through {ℓ} :
    {A : Type ℓ} (out₁ out₂ : List (Event A)) (old mid new : List A) (x : A) (xs : List A)
    → outs out₁ ++ mid ≡ old ++ x ∷ []
    → outs out₂ ++ new ≡ mid ++ xs
    → outs (out₁ ++ out₂) ++ new ≡ old ++ x ∷ xs
outs_through out₁ out₂ old mid new x xs p q =
    ap (λ l. l ++ new) (outs-append out₁ out₂)
    ∙ append_assoc (outs out₁) (outs out₂) new
    ∙ ap (◌++◌ (outs out₁)) q
    ∙ append_through (outs out₁) mid old x xs p

pub ruleset stream_laws = (news-append, outs-append, news-all_stale, outs-all_stale)

module _ {ℓ κ μ} {S : Type ℓ} {E : Type κ} {F : Type μ} where
  -- An operator handles its events one after the other, and publishes while it does so.
  unfoldable pub run : (S → E → S × List F) → S → List E → S × List F
  run step s [] = (s, [])
  run step s (e ∷ es) =
      let (s', out) = step s e in let (s'', rest) = run step s' es in (s'', out ++ rest)

  -- The same for an operator that may fault: a fault ends the run.
  unfoldable pub try_run : (S → E → Option (S × List F)) → S → List E → Option (S × List F)
  try_run step s [] = some (s, [])
  try_run step s (e ∷ es) = do
    (s', out) ← step s e
    (s'', rest) ← try_run step s' es
    some (s'', out ++ rest)

  pub try_run-nil : (step : S → E → Option (S × List F)) (s : S) → try_run step s [] ≡ some (s, [])
  unfolding try_run
  try_run-nil step s = refl

  pub try_run-cons :
      (step : S → E → Option (S × List F)) {s s' s'' : S} (e : E) (es : List E) {out rest : List F}
      → step s e ≡ some (s', out)
      → try_run step s' es ≡ some (s'', rest)
      → try_run step s (e ∷ es) ≡ some (s'', out ++ rest)
  unfolding try_run
  try_run-cons step e es p q = rw (p, q)

  pub try_run-one :
      (step : S → E → Option (S × List F)) {s s' : S} (e : E) {out : List F}
      → step s e ≡ some (s', out)
      → try_run step s (e ∷ []) ≡ some (s', out)
  unfolding try_run
  try_run-one step {s' = s'} e {out} p = rw p (ap (λ l. some (s', l)) (append-nil out))
