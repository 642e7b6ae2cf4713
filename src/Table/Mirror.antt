-- ===== src/Table/Mirror.antt =====
-- HashMapTable's notifications: a copy of the table that follows them, and the scans of the table.
pub mod Branches
pub mod Operations
use pipefabric.Prelude.{
  ℕ, ◌≡◌, refl, ap, sym, subst, ◌∙◌, Bool, true, false, Option, none, some, List, [], ◌∷◌, ◌++◌,
  if◌then◌else◌, ◌>>=◌, arith, All, Bool-cases, Option-cases, inl, inr,
}
use pipefabric.Prelude.Eq.{Eq, beq_refl, beq_comm}
use pipefabric.Prelude.Assoc.{
  lookup, put, without, IsUnique, lookup-put, lookup-without, put-IsUnique, without-IsUnique,
}
use pipefabric.Table.{
  ModificationMode, inserted, updated, deleted, Notifications, insert, delete_by_key, delete_where,
  update_or_delete_by_key, update_by_key, update_where,
}

module _ {ℓ} {R : Type ℓ} where
  -- The entry of a key after a scan that deletes what passes the test.
  abbrev pub left_by : (R → Bool) → Option R → Option R
  left_by func none = none
  left_by func (some rec) = if func rec then none else some rec

  abbrev pub changed_by : (R → Bool) → (R → R) → Option R → Option R
  changed_by pfunc ufunc none = none
  changed_by pfunc ufunc (some rec) = if pfunc rec then some (ufunc rec) else some rec

  -- The entry of a key in a copy, after the notifications of a scan of the table.
  abbrev pub deleted_in : (R → Bool) → Option R → Option R → Option R
  deleted_in func copied none = copied
  deleted_in func copied (some rec) = if func rec then none else copied

  abbrev pub updated_in : (R → Bool) → (R → R) → Option R → Option R → Option R
  updated_in pfunc ufunc copied none = copied
  updated_in pfunc ufunc copied (some rec) = if pfunc rec then some (ufunc rec) else copied

  pub left_lem : (func : R → Bool) (o : Option R) → deleted_in func o o ≡ left_by func o
  left_lem func none = refl
  left_lem func (some rec) = refl

  pub changed_lem :
      (pfunc : R → Bool) (ufunc : R → R) (o : Option R)
      → updated_in pfunc ufunc o o ≡ changed_by pfunc ufunc o
  changed_lem pfunc ufunc none = refl
  changed_lem pfunc ufunc (some rec) = refl

module _ {ℓ} {K R : Type ℓ} ⦃key_eq : Eq K⦄ where
  unfoldable pub replay : (R → K) → List (K × R) → Notifications R → List (K × R)
  unfolding put without
  replay key_of copy [] = copy
  replay key_of copy ((rec, inserted) ∷ notes) = replay key_of (put (key_of rec) rec copy) notes
  replay key_of copy ((rec, updated) ∷ notes) = replay key_of (put (key_of rec) rec copy) notes
  replay key_of copy ((rec, deleted) ∷ notes) = replay key_of (without (key_of rec) copy) notes

  -- Two tables with the same entries.
  abbrev pub SameEntries : List (K × R) → List (K × R) → Type ℓ
  SameEntries s t = (k : K) → lookup k s ≡ lookup k t

  -- One entry for each key, and each tuple under its own key.
  abbrev pub IsTable : (R → K) → List (K × R) → Type ℓ
  IsTable key_of [] = Unit
  IsTable key_of ((j, rec) ∷ table) =
      (key_of rec ≡ j) × (lookup j table ≡ none) × IsTable key_of table

  lookup-cons :
      (k j : K) (rec : R) (table : List (K × R))
      → lookup k ((j, rec) ∷ table) ≡ (if key_eq.beq j k then some rec else lookup k table)
  unfolding lookup
  lookup-cons k j rec table = refl

module _ {ℓ} {K R : Type ℓ} ⦃key_eq : Eq K⦄ (key_of : R → K) where
  pub replay-SameEntries :
      (s t : List (K × R)) (notes : Notifications R)
      → SameEntries s t
      → SameEntries (replay key_of s notes) (replay key_of t notes)
  unfolding replay
  replay-SameEntries s t [] h = h
  replay-SameEntries s t ((rec, inserted) ∷ notes) h =
      replay-SameEntries (put (key_of rec) rec s) (put (key_of rec) rec t) notes (λ k.
        lookup-put (key_of rec) k rec s ∙ rw (h k) refl ∙ sym (lookup-put (key_of rec) k rec t))
  replay-SameEntries s t ((rec, updated) ∷ notes) h =
      replay-SameEntries (put (key_of rec) rec s) (put (key_of rec) rec t) notes (λ k.
        lookup-put (key_of rec) k rec s ∙ rw (h k) refl ∙ sym (lookup-put (key_of rec) k rec t))
  replay-SameEntries s t ((rec, deleted) ∷ notes) h =
      replay-SameEntries (without (key_of rec) s) (without (key_of rec) t) notes (λ k.
        lookup-without (key_of rec) k s ∙ rw (h k) refl ∙ sym (lookup-without (key_of rec) k t))

  pub lookup-insert :
      (key : K) (rec : R) (table : List (K × R)) (k : K)
      → lookup k (insert key rec table).0 ≡ (if key_eq.beq key k then some rec else lookup k table)
  unfolding insert lookup
  lookup-insert key rec table k = ground (arith, lookup-without key k table)

  pub lookup-delete_where :
      (func : R → Bool) (table : List (K × R)) (k : K)
      → IsTable key_of table
      → lookup k (delete_where func table).0 ≡ left_by func (lookup k table)
  unfolding delete_where lookup
  lookup-delete_where func [] k u = refl
  lookup-delete_where func ((j, rec) ∷ table) k u =
      ground (arith, lookup-delete_where func table k u.2, key_eq.beq_iff j k)

  pub lookup-update_where :
      (pfunc : R → Bool) (ufunc : R → R) (table : List (K × R)) (k : K)
      → lookup k (update_where pfunc ufunc table).0 ≡ changed_by pfunc ufunc (lookup k table)
  unfolding update_where lookup
  lookup-update_where pfunc ufunc [] k = refl
  lookup-update_where pfunc ufunc ((j, rec) ∷ table) k =
      ground (arith, lookup-update_where pfunc ufunc table k)

  deleted_first :
      (func : R → Bool) (hit : Bool) (j k : K) (rec : R) (table copy : List (K × R))
      → func rec ≡ hit
      → key_of rec ≡ j
      → lookup j table ≡ none
      → deleted_in func
          (if hit then lookup k (without (key_of rec) copy) else lookup k copy)
          (lookup k table)
        ≡ deleted_in func (lookup k copy) (if key_eq.beq j k then some rec else lookup k table)
  deleted_first func hit j k rec table copy h own new =
      ground (
        arith,
        lookup-without (key_of rec) k copy,
        key_eq.beq_iff (key_of rec) k,
        key_eq.beq_iff j k,
      )

  updated_first :
      (pfunc : R → Bool) (ufunc : R → R) (hit : Bool) (j k : K) (rec : R)
      (table copy : List (K × R))
      → pfunc rec ≡ hit
      → key_of (ufunc rec) ≡ j
      → lookup j table ≡ none
      → updated_in pfunc ufunc
          (if hit then lookup k (put (key_of (ufunc rec)) (ufunc rec) copy) else lookup k copy)
          (lookup k table)
        ≡ updated_in pfunc ufunc
            (lookup k copy)
            (if key_eq.beq j k then some rec else lookup k table)
  updated_first pfunc ufunc hit j k rec table copy h own new = ground (
    arith,
    lookup-put (key_of (ufunc rec)) k (ufunc rec) copy,
    key_eq.beq_iff (key_of (ufunc rec)) k,
    key_eq.beq_iff j k,
  )

  pub delete_where-replay :
      (func : R → Bool) (table copy : List (K × R)) (k : K)
      → IsTable key_of table
      → lookup k (replay key_of copy (delete_where func table).2)
        ≡ deleted_in func (lookup k copy) (lookup k table)
  unfolding delete_where replay
  delete_where-replay func [] copy k u = unfold lookup in refl
  delete_where-replay func ((j, rec) ∷ table) copy k (own, new, u) = elim (Bool-cases (func rec)) [
    | inl hit ↦
        rw (hit, lookup-cons k j rec table)
          (delete_where-replay func table (without (key_of rec) copy) k u
            ∙ deleted_first func true j k rec table copy hit own new)
    | inr miss ↦
        rw (miss, lookup-cons k j rec table)
          (delete_where-replay func table copy k u
            ∙ deleted_first func false j k rec table copy miss own new)
  ]

  pub update_where-replay :
      (pfunc : R → Bool) (ufunc : R → R) (table copy : List (K × R)) (k : K)
      → ((rec : R) → key_of (ufunc rec) ≡ key_of rec)
      → IsTable key_of table
      → lookup k (replay key_of copy (update_where pfunc ufunc table).2)
        ≡ updated_in pfunc ufunc (lookup k copy) (lookup k table)
  unfolding update_where replay
  update_where-replay pfunc ufunc [] copy k same u = unfold lookup in refl
  update_where-replay pfunc ufunc ((j, rec) ∷ table) copy k same (own, new, u) =
      elim (Bool-cases (pfunc rec)) [
        | inl hit ↦
            rw (hit, lookup-cons k j rec table)
              (update_where-replay pfunc ufunc table (put (key_of (ufunc rec)) (ufunc rec) copy) k
                  same u
                ∙ updated_first pfunc ufunc true j k rec table copy hit (same rec ∙ own) new)
        | inr miss ↦
            rw (miss, lookup-cons k j rec table)
              (update_where-replay pfunc ufunc table copy k same u
                ∙ updated_first pfunc ufunc false j k rec table copy miss (same rec ∙ own) new)
      ]

  pub put-IsTable :
      (key : K) (rec : R) (table : List (K × R))
      → key_of rec ≡ key
      → IsTable key_of table
      → IsTable key_of (put key rec table)
  unfolding put
  put-IsTable key rec [] own u = (own, unfold lookup in refl, tt)
  put-IsTable key rec ((j, r) ∷ table) own (own', new, u) = elim (Bool-cases (key_eq.beq j key)) [
    | inl hit ↦ rw hit (own ∙ sym ((key_eq.beq_iff j key).0 hit), new, u)
    | inr miss ↦ rw miss (
      own',
      lookup-put key j rec table ∙ rw (beq_comm key j, miss) new,
      put-IsTable key rec table own u,
    )
  ]

  pub without-IsTable :
      (key : K) (table : List (K × R)) → IsTable key_of table → IsTable key_of (without key table)
  unfolding without
  without-IsTable key [] u = tt
  without-IsTable key ((j, r) ∷ table) (own, new, u) = elim (Bool-cases (key_eq.beq j key)) [
    | inl hit ↦ rw hit (without-IsTable key table u)
    | inr miss ↦ rw miss (
      own,
      lookup-without key j table ∙ rw (beq_comm key j, miss) new,
      without-IsTable key table u,
    )
  ]

  pub delete_where-IsTable :
      (func : R → Bool) (table : List (K × R))
      → IsTable key_of table
      → IsTable key_of (delete_where func table).0
  unfolding delete_where
  delete_where-IsTable func [] u = tt
  delete_where-IsTable func ((j, r) ∷ table) (own, new, u) = elim (Bool-cases (func r)) [
    | inl hit ↦ rw hit (delete_where-IsTable func table u)
    | inr miss ↦ rw miss (
      own,
      lookup-delete_where func table j u ∙ ap (left_by func) new,
      delete_where-IsTable func table u,
    )
  ]

  pub update_where-IsTable :
      (pfunc : R → Bool) (ufunc : R → R) (table : List (K × R))
      → ((rec : R) → key_of (ufunc rec) ≡ key_of rec)
      → IsTable key_of table
      → IsTable key_of (update_where pfunc ufunc table).0
  unfolding update_where
  update_where-IsTable pfunc ufunc [] same u = tt
  update_where-IsTable pfunc ufunc ((j, r) ∷ table) same (own, new, u) =
      elim (Bool-cases (pfunc r)) [
        | inl hit ↦ rw hit (
          same r ∙ own,
          lookup-update_where pfunc ufunc table j ∙ ap (changed_by pfunc ufunc) new,
          update_where-IsTable pfunc ufunc table same u,
        )
        | inr miss ↦ rw miss (
          own,
          lookup-update_where pfunc ufunc table j ∙ ap (changed_by pfunc ufunc) new,
          update_where-IsTable pfunc ufunc table same u,
        )
      ]
