-- ===== src/Aggr/Distinct.antt =====
-- aggr_functions/AggrDCount.hpp: the number of distinct values. A fault (`none`) is the failed
-- assertion on an outdated value that is not counted.
use pipefabric.Prelude.{
  ℕ, suc, ◌+◌, ◌-◌, ◌<◌, ◌≡◌, refl, ap, sym, subst, ◌∙◌, Bool, true, false, Option, none, some,
  List, [], ◌∷◌, length, if◌then◌else◌, ◌>>=◌, ◌==◌, inc32, dec32, u32_mod, arith, Bool-cases,
  Option-cases, inl, inr,
}
use pipefabric.Prelude.Eq.{Eq, beq_refl}
use pipefabric.Prelude.Assoc.{
  lookup, put, without, IsUnique, lookup-put, lookup-without, put-IsUnique, without-IsUnique,
}

-- The entry of a value that counts so often.
abbrev pub positive : ℕ → Option ℕ
positive n = if n == 0 then none else some n

positive-some : (n k : ℕ) → positive n ≡ some k → k ≡ n
positive-some n k h = ground arith

positive-none : (n : ℕ) → positive n ≡ none → n ≡ 0
positive-none n h = ground arith

module _ {ℓ} {A : Type ℓ} ⦃key_eq : Eq A⦄ where
  -- The branch of a value that is counted: its counter is an unsigned int.
  unfoldable pub recount : A → ℕ → List (A × ℕ) → List (A × ℕ)
  unfolding put without
  recount x n m = if n == 0 then without x m else put x n m

  unfoldable pub update_count : Option ℕ → A → Bool → List (A × ℕ) → Option (List (A × ℕ))
  unfolding recount put
  update_count (some n) x outdated m = some (recount x (if outdated then dec32 n else inc32 n) m)
  update_count none x true m = none
  update_count none x false m = some (put x 1 m)

  unfoldable pub dcount_iterate : A → Bool → List (A × ℕ) → Option (List (A × ℕ))
  unfolding update_count lookup
  dcount_iterate x outdated m = update_count (lookup x m) x outdated m

  unfoldable pub dcount_value : List (A × ℕ) → ℕ
  dcount_value m = length m

  unfoldable pub dcount_all : List (A × Bool) → List (A × ℕ) → Option (List (A × ℕ))
  dcount_all [] m = some m
  dcount_all ((x, outdated) ∷ xs) m = do m' ← dcount_iterate x outdated m; dcount_all xs m'

  -- How often each value counts, after some values that are new or outdated.
  abbrev pub counted : (A → ℕ) → A → Bool → A → ℕ
  counted c x outdated y = if key_eq.beq x y then (if outdated then c y - 1 else c y + 1) else c y

  abbrev pub counts : (A → ℕ) → List (A × Bool) → A → ℕ
  counts c [] = c
  counts c ((x, outdated) ∷ xs) = counts (counted c x outdated) xs

  -- A value is outdated only while it counts.
  abbrev pub TakesBack : (A → ℕ) → List (A × Bool) → Type 0
  TakesBack c [] = Unit
  TakesBack c ((x, true) ∷ xs) = (0 < c x) × TakesBack (counted c x true) xs
  TakesBack c ((x, false) ∷ xs) = TakesBack (counted c x false) xs

  -- A table with an entry for exactly the values that count.
  record Holds (c : A → ℕ) (m : List (A × ℕ)) : Type ℓ where
    pub unique : IsUnique m
    pub entries : (x : A) → lookup x m ≡ positive (c x)

  lookup-recount :
      (x y : A) (n : ℕ) (m : List (A × ℕ))
      → lookup y (recount x n m) ≡ (if key_eq.beq x y then positive n else lookup y m)
  unfolding recount
  lookup-recount x y n m = ground (arith, lookup-without x y m, lookup-put x y n m)

  recount-IsUnique : (x : A) (n : ℕ) (m : List (A × ℕ)) → IsUnique m → IsUnique (recount x n m)
  unfolding recount
  recount-IsUnique x n m u = elim (Bool-cases (n == 0)) [
    | inl zero_left ↦ rw zero_left (without-IsUnique x m u)
    | inr some_left ↦ rw some_left (put-IsUnique x n m u)
  ]

  new_count : (A → ℕ) → A → Bool → ℕ
  new_count c x outdated = if outdated then c x - 1 else c x + 1

  entry-counted :
      (x y : A) (outdated : Bool) (c : A → ℕ) (m : List (A × ℕ))
      → Holds c m
      → (if key_eq.beq x y then positive (new_count c x outdated) else lookup y m)
        ≡ positive (counted c x outdated y)
  unfolding new_count
  entry-counted x y outdated c m h = elim (Bool-cases (key_eq.beq x y)) [
    | inl hit ↦
        rw hit
          (ap (λ z. positive (if outdated then c z - 1 else c z + 1)) ((key_eq.beq_iff x y).0 hit))
    | inr miss ↦ rw miss (h.entries y)
  ]

  -- The number that iterate stores for a value that is there.
  stored :
      (n : ℕ) (outdated : Bool) (c : A → ℕ) (x : A)
      → n ≡ c x
      → 0 < n
      → n + 1 < u32_mod
      → (if outdated then dec32 n else inc32 n) ≡ new_count c x outdated
  unfolding new_count
  stored n true c x e pos low = omega arith
  stored n false c x e pos low = omega arith

  iterate_there :
      (x : A) (outdated : Bool) (n : ℕ) (c : A → ℕ) (m : List (A × ℕ))
      → Holds c m
      → lookup x m ≡ some n
      → c x + 1 < u32_mod
      → (m' : List (A × ℕ)) × (dcount_iterate x outdated m ≡ some m')
        × Holds (counted c x outdated) m'
  unfolding dcount_iterate
  iterate_there x outdated n c m h there low =
      let same : n ≡ c x = positive-some (c x) n (sym (h.entries x) ∙ there) in
      let pos : 0 < n = ground (arith, sym (h.entries x) ∙ there) in
      let n' : ℕ = if outdated then dec32 n else inc32 n in
      let e : n' ≡ new_count c x outdated = stored n outdated c x same pos (omega arith) in
      (
        recount x n' m,
        rw there refl,
        record {
          unique = recount-IsUnique x n' m h.unique;
          entries = λ y.
              lookup-recount x y n' m
              ∙ ap (λ k. if key_eq.beq x y then positive k else lookup y m) e
              ∙ entry-counted x y outdated c m h;
        },
      )

  iterate_new :
      (x : A) (c : A → ℕ) (m : List (A × ℕ))
      → Holds c m
      → lookup x m ≡ none
      → (m' : List (A × ℕ)) × (dcount_iterate x false m ≡ some m') × Holds (counted c x false) m'
  unfolding dcount_iterate new_count
  iterate_new x c m h missing =
      let nothing : c x ≡ 0 = positive-none (c x) (sym (h.entries x) ∙ missing) in
      let one : positive (c x + 1) ≡ some 1 = rw nothing refl in
      (
        put x 1 m,
        rw missing refl,
        record {
          unique = put-IsUnique x 1 m h.unique;
          entries = λ y.
              lookup-put x y 1 m
              ∙ ap (λ k. if key_eq.beq x y then k else lookup y m) (sym one)
              ∙ entry-counted x y false c m h;
        },
      )

  dcount_all-Holds :
      (xs : List (A × Bool)) (c : A → ℕ) (m : List (A × ℕ))
      → Holds c m
      → TakesBack c xs
      → ((x : A) → c x + length xs < u32_mod)
      → (m' : List (A × ℕ)) × (dcount_all xs m ≡ some m') × Holds (counts c xs) m'
  unfolding dcount_all
  dcount_all-Holds [] c m h t low = (m, refl, h)
  dcount_all-Holds ((x, true) ∷ xs) c m h (pos, t) low = elim (Option-cases (lookup x m)) [
    | inl missing ↦ absurd (omega (arith, positive-none (c x) (sym (h.entries x) ∙ missing)))
    | inr (n, there) ↦
        let (m₁, e₁, h₁) = iterate_there x true n c m h there (small x) in
        let (m₂, e₂, h₂) =
          dcount_all-Holds xs (counted c x true) m₁ h₁ t (λ y. ground (arith, low y)) in
        (m₂, rw e₁ e₂, h₂)
  ]
    where
      small : (y : A) → c y + 1 < u32_mod
      small y = omega (arith, low y)
  dcount_all-Holds ((x, false) ∷ xs) c m h t low = elim (Option-cases (lookup x m)) [
    | inl missing ↦
        let (m₁, e₁, h₁) = iterate_new x c m h missing in
        let (m₂, e₂, h₂) =
          dcount_all-Holds xs (counted c x false) m₁ h₁ t (λ y. ground (arith, low y)) in
        (m₂, rw e₁ e₂, h₂)
    | inr (n, there) ↦
        let (m₁, e₁, h₁) = iterate_there x false n c m h there (small x) in
        let (m₂, e₂, h₂) =
          dcount_all-Holds xs (counted c x false) m₁ h₁ t (λ y. ground (arith, low y)) in
        (m₂, rw e₁ e₂, h₂)
  ]
    where
      small : (y : A) → c y + 1 < u32_mod
      small y = omega (arith, low y)

  -- The list has every value that counts exactly once, and no other.
  abbrev pub Lists : (A → ℕ) → List A → Type ℓ
  Lists c [] = (x : A) → c x ≡ 0
  Lists c (v ∷ vs) = (0 < c v) × Lists (λ x. if key_eq.beq v x then 0 else c x) vs

  length-without_missing :
      (x : A) (m : List (A × ℕ)) → lookup x m ≡ none → length (without x m) ≡ length m
  unfolding lookup without
  length-without_missing x [] h = refl
  length-without_missing x ((j, n) ∷ m) h = ground (arith, length-without_missing x m)

  length-without :
      (x : A) (n : ℕ) (m : List (A × ℕ))
      → IsUnique m
      → lookup x m ≡ some n
      → length m ≡ suc (length (without x m))
  unfolding lookup without
  length-without x n [] u h = cc
  length-without x n ((j, k) ∷ m) u h = elim (Bool-cases (key_eq.beq j x)) [
    | inl hit ↦
        let gone : lookup x m ≡ none =
          subst (λ z. lookup z m ≡ none) ((key_eq.beq_iff j x).0 hit) u.0 in
        rw hit (ap suc (sym (length-without_missing x m gone)))
    | inr miss ↦ rw miss (ap suc (length-without x n m u.1 (rw miss at h)))
  ]

  removed :
      (v : A) (c : A → ℕ) (m : List (A × ℕ))
      → Holds c m
      → Holds (λ x. if key_eq.beq v x then 0 else c x) (without v m)
  removed v c m h = record {
    unique = without-IsUnique v m h.unique;
    entries = λ x. lookup-without v x m ∙ ground (arith, h.entries x);
  }

  nothing_held : (m : List (A × ℕ)) (c : A → ℕ) → Holds c m → ((x : A) → c x ≡ 0) → length m ≡ 0
  unfolding lookup
  nothing_held [] c h z = refl
  nothing_held ((j, n) ∷ m) c h z = absurd (ground (arith, h.entries j, z j, beq_refl j))

  length-Lists :
      (vs : List A) (c : A → ℕ) (m : List (A × ℕ)) → Holds c m → Lists c vs → length m ≡ length vs
  length-Lists [] c m h l = nothing_held m c h l
  length-Lists (v ∷ vs) c m h l = elim (Option-cases (lookup v m)) [
    | inl missing ↦ absurd (omega (arith, positive-none (c v) (sym (h.entries v) ∙ missing), l.0))
    | inr (n, there) ↦
        length-without v n m h.unique there
        ∙ ap suc (
            length-Lists vs (λ x. if key_eq.beq v x then 0 else c x) (without v m) (removed v c m h)
              l.1)
  ]

  -- Over fewer than 2^32 new or outdated values, each of them outdated only while it counts, no
  -- assertion fails, and the result is the number of values that count: of any list that has each of
  -- these once and no other value, the result is the length.
  pub dcount_value-Lists :
      (xs : List (A × Bool))
      → TakesBack (λ x. 0) xs
      → length xs < u32_mod
      → (m : List (A × ℕ)) × (dcount_all xs [] ≡ some m)
        × ((vs : List A) → Lists (counts (λ x. 0) xs) vs → dcount_value m ≡ length vs)
  unfolding dcount_value lookup
  dcount_value-Lists xs t low =
      let (m, e, h) =
        dcount_all-Holds xs (λ x. 0) [] (record { unique = tt; entries = λ x. refl }) t
          (λ x. omega arith) in
      (m, e, λ vs l. length-Lists vs (counts (λ x. 0) xs) m h l)
