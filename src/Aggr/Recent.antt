-- ===== src/Aggr/Recent.antt =====
-- AggrLRecent.hpp: the oldest valid value, from a list of all valid ones. A fault (`none`) is a
-- failed assertion.
use pipefabric.Prelude.{
  ℕ, zero, suc, ◌+◌, ◌≤◌, ◌≡◌, refl, get_elem?, ap, sym, ◌∙◌, Bool, true, false, Option, none, some,
  List, [], ◌∷◌, ◌++◌, ◌>>=◌, length, take, drop, arith, append_assoc, length-append, append-nil,
}
use pipefabric.Stream.{Event, element, punctuation, news, outs}

module _ {ℓ} {A : Type ℓ} where
  -- mData.pop_front() behind its assertion
  abbrev pub pop_front : List A → Option (List A)
  pop_front [] = none
  pop_front (x ∷ m) = some m

  unfoldable pub l_recent_iterate : List A → A → Bool → Option (List A)
  l_recent_iterate m x false = some (m ++ x ∷ [])
  l_recent_iterate m x true = pop_front m

  unfoldable pub l_recent_value : List A → Option A
  l_recent_value [] = none
  l_recent_value (x ∷ m) = some x

  unfoldable pub l_recent_all : List A → List (Event A) → Option (List A)
  l_recent_all m [] = some m
  l_recent_all m (element x outdated ∷ es) = do
    m' ← l_recent_iterate m x outdated
    l_recent_all m' es
  l_recent_all m (punctuation p ∷ es) = l_recent_all m es

  -- In each prefix of the events at most as many values leave as came, with those of the list.
  abbrev pub IsBalanced : List A → List (Event A) → Type 0
  IsBalanced m es = (n : ℕ) → length (outs (take n es)) ≤ length m + length (news (take n es))

  from_list :
      (m : List A) (es : List (Event A))
      → IsBalanced m es
      → l_recent_all m es ≡ some (drop (length (outs es)) (m ++ news es))
  unfolding l_recent_all l_recent_iterate
  from_list m [] b = ap some (sym (append-nil m))
  from_list m (punctuation p ∷ es) b = from_list m es (λ n. b (suc n))
  from_list [] (element x true ∷ es) b = absurd (omega (arith, b 1))
  from_list (y ∷ m) (element x true ∷ es) b = from_list m es (λ n. omega (arith, b (suc n)))
  from_list m (element x false ∷ es) b =
      from_list (m ++ x ∷ []) es (λ n. omega (arith, b (suc n), length-append m (x ∷ [])))
      ∙ ap (λ l. some (drop (length (outs es)) l)) (append_assoc m (x ∷ []) (news es))

  value-drop : (n : ℕ) (xs : List A) → l_recent_value (drop n xs) ≡ get_elem? xs n
  unfolding l_recent_value
  value-drop zero [] = refl
  value-drop zero (x ∷ xs) = refl
  value-drop (suc n) [] = refl
  value-drop (suc n) (x ∷ xs) = value-drop n xs

  -- Where in each prefix of the events at most as many values leave as came, no call of iterate()
  -- fails its assertion, and value() behind the events is the value that came behind as many others
  -- as left; where as many left as came, its assertion fails.
  pub l_recent_all-value :
      (es : List (Event A))
      → IsBalanced [] es
      → (m : List A) × (l_recent_all [] es ≡ some m)
        × (l_recent_value m ≡ get_elem? (news es) (length (outs es)))
  l_recent_all-value es b = (
    drop (length (outs es)) (news es),
    from_list [] es b,
    value-drop (length (outs es)) (news es),
  )
