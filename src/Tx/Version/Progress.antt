-- ===== src/Tx/Version/Progress.antt =====
-- The commit's wait for a free slot ends.

use pipefabric.Prelude.{
  ℕ, zero, suc, ◌≡◌, ◌≢◌, ◌≤◌, ◌<◌, refl, ap, true, false, ◌⊎◌, some, List, [], ◌∷◌, get_elem?, set,
  arith, ltb, length, Bool-cases, inl, inr, lt→ltb, ltb→lt,
}
use pipefabric.Tx.Version.{
  Slot, dts_inf, visible, get_current, new_entry, first_free, find_slot, update_version, clean_slot,
  clean_up_versions,
}
use pipefabric.Tx.Version.Latest.{IsVersioned}

zero_ne_one : ◌≢◌ {A = ℕ} 0 1
zero_ne_one h = absurd (omega arith)

module _ {ℓ} {A : Type ℓ} where
  first_free-lt :
      (o : List (Slot A)) (k : ℕ) (s : Slot A)
      → get_elem? o k ≡ some s
      → s.used ≡ false
      → first_free o < length o
  unfolding first_free
  first_free-lt [] k s e free = cc
  first_free-lt (x ∷ o) zero s e free = ground arith
  first_free-lt (x ∷ o) (suc k) s e free = ground (arith, first_free-lt o k s e free)

  get_current-some :
      (t : ℕ) (o : List (Slot A)) (k : ℕ) (s : Slot A)
      → get_elem? o k ≡ some s
      → visible t s ≡ true
      → (d : ℕ) × (x : Slot A) × (get_current t o ≡ some d) × (get_elem? o d ≡ some x)
  unfolding get_current
  get_current-some t [] k s e seen = absurd (cc)
  get_current-some t (x ∷ o) zero s e seen = (0, x, ground arith, refl)
  get_current-some t (x ∷ o) (suc k) s e seen = elim (Bool-cases (visible t x)) [
    | inl shown ↦ (0, x, ground arith, refl)
    | inr hidden ↦
        let (d, y, e₁, e₂) = get_current-some t o k s e seen in (suc d, y, ground arith, e₂)
  ]

  get_elem?-lt :
      (o : List (Slot A)) (i : ℕ) → i < length o → (s : Slot A) × (get_elem? o i ≡ some s)
  get_elem?-lt [] i h = elim h [ ]
  get_elem?-lt (x ∷ o) zero h = (x, refl)
  get_elem?-lt (x ∷ o) (suc i) h = get_elem?-lt o i (omega arith)

  get_elem?-set :
      (o : List (Slot A)) (k i : ℕ) (s x : Slot A)
      → get_elem? o i ≡ some s
      → (s' : Slot A) × (get_elem? (set o k x) i ≡ some s')
  get_elem?-set [] k i s x e = absurd (cc)
  get_elem?-set (y ∷ o) zero zero s x e = (x, refl)
  get_elem?-set (y ∷ o) zero (suc i) s x e = (s, e)
  get_elem?-set (y ∷ o) (suc k) zero s x e = (y, refl)
  get_elem?-set (y ∷ o) (suc k) (suc i) s x e = get_elem?-set o k i s x e

  new_entry-some :
      (txn i d : ℕ) (v : A) (o : List (Slot A)) (s x : Slot A)
      → get_elem? o i ≡ some s
      → get_elem? o d ≡ some x
      → (o' : List (Slot A)) × (new_entry txn i (some d) v o ≡ some o')
  unfolding new_entry
  new_entry-some txn i d v o s x e_i e_d =
      let f₁ : Slot A = record s { value = v; cts = txn; dts = dts_inf } in
      let (y, e₁) = get_elem?-set o i d x f₁ e_d in
      let (s₁, e₂) = get_elem?-set o i i s f₁ e_i in
      let (z, e₃) = get_elem?-set (set o i f₁) d i s₁ (record y { dts = txn }) e₂ in
      (
        set (set (set o i f₁) d (record y { dts = txn })) i (record z { used = true }),
        rw (e_i, e₁, e₃),
      )

  length-clean : (oldest : ℕ) (o : List (Slot A)) → length (clean_up_versions oldest o) ≡ length o
  unfolding clean_up_versions
  length-clean oldest [] = refl
  length-clean oldest (x ∷ o) = ap suc (length-clean oldest o)

  get_elem?-clean_free :
      (oldest : ℕ) (o : List (Slot A)) (k : ℕ) (s : Slot A)
      → get_elem? o k ≡ some s
      → s.dts ≤ oldest
      → (x : Slot A) × (get_elem? (clean_up_versions oldest o) k ≡ some x) × (x.used ≡ false)
  unfolding clean_up_versions
  get_elem?-clean_free oldest [] k s e h = absurd (cc)
  get_elem?-clean_free oldest (y ∷ o) zero s e h = (clean_slot oldest y, refl, ground arith)
  get_elem?-clean_free oldest (y ∷ o) (suc k) s e h = get_elem?-clean_free oldest o k s e h

  get_elem?-clean_some :
      (oldest : ℕ) (o : List (Slot A)) (k : ℕ) (s : Slot A)
      → get_elem? o k ≡ some s
      → (x : Slot A) × (get_elem? (clean_up_versions oldest o) k ≡ some x)
  unfolding clean_up_versions
  get_elem?-clean_some oldest [] k s e = absurd (cc)
  get_elem?-clean_some oldest (y ∷ o) zero s e = (clean_slot oldest y, refl)
  get_elem?-clean_some oldest (y ∷ o) (suc k) s e = get_elem?-clean_some oldest o k s e

  -- Of two versions that are both used, one was deleted by `now`.
  one_ended :
      (now : ℕ) (o : List (Slot A)) (s x : Slot A)
      → IsVersioned now o
      → get_elem? o 0 ≡ some s
      → get_elem? o 1 ≡ some x
      → s.used ≡ true
      → x.used ≡ true
      → (s.dts ≤ now) ⊎ (x.dts ≤ now)
  one_ended now o s x inv e₀ e₁ used₀ used₁ = elim (inv.ended 0 s e₀ used₀) [
    | inr old ↦ inl old
    | inl live ↦ elim (inv.ended 1 x e₁ used₁) [
      | inr old ↦ inr old
      | inl live' ↦ absurd (zero_ne_one (inv.one_live 0 s 1 x e₀ used₀ live e₁ used₁ live'))
    ]
  ]

  -- Cleaning up to the last commit or beyond frees a slot of a record with two versions or more.
  clean-free :
      (now oldest : ℕ) (o : List (Slot A))
      → IsVersioned now o
      → 2 ≤ length o
      → now ≤ oldest
      → ¬ (first_free o < length o)
      → first_free (clean_up_versions oldest o) < length (clean_up_versions oldest o)
  clean-free now oldest o inv two le full =
      let (s, e₀) = get_elem?-lt o 0 (omega arith) in
      let (x, e₁) = get_elem?-lt o 1 (omega arith) in
      let used₀ : s.used ≡ true = elim (Bool-cases s.used) [
        | inl used ↦ used
        | inr free ↦ absurd (full (first_free-lt o 0 s e₀ free))
      ] in
      let used₁ : x.used ≡ true = elim (Bool-cases x.used) [
        | inl used ↦ used
        | inr free ↦ absurd (full (first_free-lt o 1 x e₁ free))
      ] in
      elim (one_ended now o s x inv e₀ e₁ used₀ used₁) [
        | inl old ↦
            let (y, at_y, free) = get_elem?-clean_free oldest o 0 s e₀ (omega arith) in
            first_free-lt (clean_up_versions oldest o) 0 y at_y free
        | inr old ↦
            let (y, at_y, free) = get_elem?-clean_free oldest o 1 x e₁ (omega arith) in
            first_free-lt (clean_up_versions oldest o) 1 y at_y free
      ]

  -- The wait ends with a slot, behind which every version still has its place.
  find_slot-some :
      (now oldest : ℕ) (o : List (Slot A))
      → IsVersioned now o
      → 2 ≤ length o
      → now ≤ oldest
      → (oc : List (Slot A)) × (i : ℕ) × (find_slot (oldest ∷ []) o ≡ some (oc, i))
        × (i < length oc)
        × ((k : ℕ) (s : Slot A) → get_elem? o k ≡ some s → (x : Slot A) × (get_elem? oc k ≡ some x))
  unfolding find_slot
  find_slot-some now oldest o inv two le = elim (Bool-cases (ltb (first_free o) (length o))) [
    | inl room ↦ (o, first_free o, rw room, ltb→lt _ _ room, λ k s e. (s, e))
    | inr full ↦
        let freed = clean-free now oldest o inv two le (λ h. cc (lt→ltb _ _ h, full)) in
        (
          clean_up_versions oldest o,
          first_free (clean_up_versions oldest o),
          rw (full, lt→ltb _ _ freed),
          freed,
          get_elem?-clean_some oldest o,
        )
  ]

  -- A commit to a record of two or more versions with a live one ends after at most one round of
  -- cleaning, if that round's oldest visible version is the last commit or newer.
  pub update_version-total :
      (now txn oldest : ℕ) (v : A) (o : List (Slot A)) (k : ℕ) (s : Slot A)
      → IsVersioned now o
      → 2 ≤ length o
      → now ≤ oldest
      → now < txn
      → txn < dts_inf
      → get_elem? o k ≡ some s
      → s.used ≡ true
      → s.dts ≡ dts_inf
      → (o' : List (Slot A)) × (update_version txn (oldest ∷ []) v o ≡ some o')
  unfolding update_version
  update_version-total now txn oldest v o k s inv two le later in_range at_k used live =
      let made : s.cts ≤ now = inv.created k s at_k used in
      let (d, x, cur, at_d) = get_current-some txn o k s at_k (ground arith) in
      let (oc, i, found, room, places) = find_slot-some now oldest o inv two le in
      let (y, at_d') = places d x at_d in
      let (z, at_i) = get_elem?-lt oc i room in
      let (o', done) = new_entry-some txn i d v oc z y at_i at_d' in (o', rw (found, cur) done)
