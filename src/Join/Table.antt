-- ===== src/Join/Table.antt =====
-- The hash tables of the joins: equal_range, and updateHashTable of qop/SHJoin.hpp.
use pipefabric.Prelude.{
  ◌≡◌, refl, Bool, true, false, ◌&&◌, List, [], ◌∷◌, arith, if◌then◌else◌, All,
}
use pipefabric.Prelude.Eq.{Eq}

module _ {ℓ κ} {K : Type ℓ} {V : Type κ} ⦃key_eq : Eq K⦄ where
  -- The elements stored under a key.
  unfoldable pub equal_range : K → List (K × V) → List V
  equal_range key [] = []
  equal_range key ((k, v) ∷ table) =
      let rest = equal_range key table in if key_eq.beq k key then v ∷ rest else rest

module _ {ℓ κ} {K : Type ℓ} {V : Type κ} ⦃key_eq : Eq K⦄ ⦃element_eq : Eq V⦄ where
  -- Erases the elements of the key that are equal to the given one.
  unfoldable pub erase_equal : K → V → List (K × V) → List (K × V)
  erase_equal key v [] = []
  erase_equal key v ((k, x) ∷ table) =
      let rest = erase_equal key v table in
      if key_eq.beq k key && element_eq.beq v x then rest else (k, x) ∷ rest

  unfoldable pub update_hash_table : List (K × V) → K → V → Bool → List (K × V)
  unfolding erase_equal
  update_hash_table table key v false = (key, v) ∷ table
  update_hash_table table key v true = erase_equal key v table

abbrev pub elements {ℓ κ} : {K : Type ℓ} {V : Type κ} → List (K × V) → List V
elements [] = []
elements ((k, v) ∷ table) = v ∷ elements table

-- Every element is stored under its own key.
abbrev pub IsKeyed {ℓ κ} : {K : Type ℓ} {V : Type κ} → (V → K) → List (K × V) → Type ℓ
IsKeyed key table = All (λ e. e.0 ≡ key e.1) table

module _ {ℓ κ} {K : Type ℓ} {V : Type κ} ⦃key_eq : Eq K⦄ ⦃element_eq : Eq V⦄ where
  pub erase_equal-IsKeyed :
      (f : V → K) (key : K) (v : V) (table : List (K × V))
      → IsKeyed f table
      → IsKeyed f (erase_equal key v table)
  unfolding erase_equal
  erase_equal-IsKeyed f key v [] h = tt
  erase_equal-IsKeyed f key v ((k, x) ∷ table) h =
      ground (arith, erase_equal-IsKeyed f key v table h.1)

  pub update_hash_table-IsKeyed :
      (f : V → K) (table : List (K × V)) (v : V) (outdated : Bool)
      → IsKeyed f table
      → IsKeyed f (update_hash_table table (f v) v outdated)
  unfolding update_hash_table
  update_hash_table-IsKeyed f table v false h = (refl, h)
  update_hash_table-IsKeyed f table v true h = erase_equal-IsKeyed f (f v) v table h
