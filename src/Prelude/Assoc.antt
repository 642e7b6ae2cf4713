-- ===== src/Prelude/Assoc.antt =====
-- Association lists over an equality: std::unordered_map and boost::unordered_map with one entry
-- for each key. The order of the list stands for the unspecified order of a hash table.
use pipefabric.Prelude.{
  ◌≡◌, refl, ◌∙◌, Option, none, some, List, [], ◌∷◌, arith, if◌then◌else◌, Bool-cases, inl, inr,
}
use pipefabric.Prelude.Eq.{Eq, beq_comm}

module _ {ℓ κ} {K : Type ℓ} {V : Type κ} ⦃key_eq : Eq K⦄ where
  unfoldable pub lookup : K → List (K × V) → Option V
  lookup k [] = none
  lookup k ((j, v) ∷ m) = if key_eq.beq j k then some v else lookup k m

  -- m[k] = v: in the entry of the key, or in a new one
  unfoldable pub put : K → V → List (K × V) → List (K × V)
  put k v [] = (k, v) ∷ []
  put k v ((j, w) ∷ m) = if key_eq.beq j k then (j, v) ∷ m else (j, w) ∷ put k v m

  unfoldable pub without : K → List (K × V) → List (K × V)
  without k [] = []
  without k ((j, w) ∷ m) = let rest = without k m in if key_eq.beq j k then rest else (j, w) ∷ rest

  -- One entry for each key.
  abbrev pub IsUnique : List (K × V) → Type κ
  IsUnique [] = Unit
  IsUnique ((j, w) ∷ m) = (lookup j m ≡ none) × IsUnique m

  pub lookup-put :
      (k j : K) (v : V) (m : List (K × V))
      → lookup j (put k v m) ≡ (if key_eq.beq k j then some v else lookup j m)
  unfolding lookup put
  lookup-put k j v [] = refl
  lookup-put k j v ((i, w) ∷ m) =
      ground (arith, lookup-put k j v m, key_eq.beq_iff i k, key_eq.beq_iff i j, key_eq.beq_iff k j)

  pub lookup-without :
      (k j : K) (m : List (K × V))
      → lookup j (without k m) ≡ (if key_eq.beq k j then none else lookup j m)
  unfolding lookup without
  lookup-without k j [] = ground arith
  lookup-without k j ((i, w) ∷ m) =
      ground
        (arith, lookup-without k j m, key_eq.beq_iff i k, key_eq.beq_iff i j, key_eq.beq_iff k j)

  pub put-IsUnique : (k : K) (v : V) (m : List (K × V)) → IsUnique m → IsUnique (put k v m)
  unfolding put lookup
  put-IsUnique k v [] h = (refl, tt)
  put-IsUnique k v ((i, w) ∷ m) h = elim (Bool-cases (key_eq.beq i k)) [
    | inl hit ↦ rw hit h
    | inr miss ↦ rw miss (lookup-put k i v m ∙ rw (beq_comm k i, miss) h.0, put-IsUnique k v m h.1)
  ]

  pub without-IsUnique : (k : K) (m : List (K × V)) → IsUnique m → IsUnique (without k m)
  unfolding without
  without-IsUnique k [] h = tt
  without-IsUnique k ((i, w) ∷ m) h = elim (Bool-cases (key_eq.beq i k)) [
    | inl hit ↦ rw hit (without-IsUnique k m h.1)
    | inr miss ↦
        rw miss (lookup-without k i m ∙ rw (beq_comm k i, miss) h.0, without-IsUnique k m h.1)
  ]
