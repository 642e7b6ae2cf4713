-- ===== src/Tx/Version/Latest.antt =====
-- A commit is what later snapshots read, and keeps the versions in order.
use pipefabric.Prelude.{
  ℕ, ◌≡◌, ◌≢◌, ◌≤◌, ◌<◌, ap, sym, ◌∙◌, subst, true, ◌⊎◌, some, List, get_elem?, set, arith, All,
  inl, inr, ℕ_discrete, get_elem?-set_ne,
}
use pipefabric.Tx.Version.{Slot, dts_inf, visible, update_version, read_version}
use pipefabric.Tx.Version.Access.{read_version-all, get_elem?-set_there}
use pipefabric.Tx.Version.Snapshot.{Written, Found, update_version-Updated, Updated-Written}

module _ {ℓ} {A : Type ℓ} where
  -- The versions of a record after the commit `now`: all were created by then, and all but one,
  -- the live one, were deleted by then.
  pub record IsVersioned (now : ℕ) (o : List (Slot A)) : Type ℓ where
    pub created : (k : ℕ) (s : Slot A) → get_elem? o k ≡ some s → s.used ≡ true → s.cts ≤ now
    pub ended :
        (k : ℕ) (s : Slot A)
        → get_elem? o k ≡ some s
        → s.used ≡ true
        → (s.dts ≡ dts_inf) ⊎ (s.dts ≤ now)
    pub one_live :
        (k : ℕ) (s : Slot A) (i : ℕ) (x : Slot A)
        → get_elem? o k ≡ some s
        → s.used ≡ true
        → s.dts ≡ dts_inf
        → get_elem? o i ≡ some x
        → x.used ≡ true
        → x.dts ≡ dts_inf
        → k ≡ i
    pub before_inf : now < dts_inf

  -- The used slots after a commit: the new version, the one that it replaces, and old ones.
  abbrev Origin : ℕ → A → Slot A → ℕ → ℕ → List (Slot A) → ℕ → Slot A → Type ℓ
  Origin txn v deleted i d o k x =
      ((k ≡ i) × (x ≡ record { cts = txn; dts = dts_inf; used = true; value = v }))
      ⊎ ((k ≢ i) × (k ≡ d) × (x ≡ record deleted { dts = txn }))
      ⊎ ((k ≢ i) × (k ≢ d) × (get_elem? o k ≡ some x))

  slot-Origin :
      (txn i d : ℕ) (v : A) (free deleted : Slot A) (o o' : List (Slot A))
      → Written txn i d v free deleted o o'
      → (k : ℕ) (x : Slot A) → get_elem? o' k ≡ some x
      → Origin txn v deleted i d o k x
  slot-Origin txn i d v free deleted o o' w k x e =
      let f₁ : Slot A = record free { value = v; cts = txn; dts = dts_inf } in
      let g₂ : Slot A = record deleted { dts = txn } in
      let f₃ : Slot A = record { cts = txn; dts = dts_inf; used = true; value = v } in
      let o₁ = set o i f₁ in
      let o₂ = set o₁ d g₂ in
      let e₁ : get_elem? o₁ d ≡ some deleted =
        get_elem?-set_ne o f₁ (λ p. w.apart (sym p)) ∙ w.at_d in
      let e₂ : get_elem? o₂ i ≡ some f₁ =
        get_elem?-set_ne o₁ g₂ w.apart ∙ get_elem?-set_there o i free f₁ w.at_i in
      let e' : get_elem? (set o₂ i f₃) k ≡ some x =
        subst (λ l. get_elem? l k ≡ some x) w.result e in
      elim (ℕ_discrete k i) [
        | yes same ↦
            inl
              (same, cc (e', get_elem?-set_there o₂ i f₁ f₃ e₂, ap (get_elem? (set o₂ i f₃)) same))
        | no other ↦
            let e₃ : get_elem? o₂ k ≡ some x =
              sym (get_elem?-set_ne o₂ f₃ (λ p. other (sym p))) ∙ e' in
            elim (ℕ_discrete k d) [
              | yes old ↦ inr (
                  inl (
                    other,
                    old,
                    cc (e₃, get_elem?-set_there o₁ d deleted g₂ e₁, ap (get_elem? o₂) old),
                  ))
              | no rest ↦ inr (
                  inr (
                    other,
                    rest,
                    sym (get_elem?-set_ne o f₁ (λ p. other (sym p)))
                        ∙ sym (get_elem?-set_ne o₁ g₂ (λ p. rest (sym p)))
                        ∙ e₃,
                  ))
            ]
      ]

-- One commit by `txn`, behind the last one at `now`.
module _ {ℓ} {A : Type ℓ} (now txn : ℕ) (v : A) (o o' : List (Slot A)) (i d : ℕ) (deleted : Slot A)
    (inv : IsVersioned now o) (later : now < txn) (in_range : txn < dts_inf)
    (at_d : get_elem? o d ≡ some deleted) (seen : visible txn deleted ≡ true)
    (origin : (k : ℕ) (x : Slot A)
      → get_elem? o' k ≡ some x
      → x.used ≡ true
      → Origin txn v deleted i d o k x) where
  deleted_live : deleted.dts ≡ dts_inf
  deleted_live =
      let used : deleted.used ≡ true = ground arith in
      let after : txn < deleted.dts = ground arith in
      elim (inv.ended d deleted at_d used) [ inl live ↦ live | inr old ↦ absurd (omega arith) ]

  -- An old slot that is used was deleted by `now`.
  old_ended : (k : ℕ) (x : Slot A) → k ≢ d → get_elem? o k ≡ some x → x.used ≡ true → x.dts ≤ now
  old_ended k x other e used = elim (inv.ended k x e used) [
    | inl live ↦
        absurd (other (inv.one_live k x d deleted e used live at_d (ground arith) deleted_live))
    | inr old ↦ old
  ]

  created_after : (k : ℕ) (x : Slot A) → get_elem? o' k ≡ some x → x.used ≡ true → x.cts ≤ txn
  created_after k x e used = elim (origin k x e used) [
    | inl (_, new) ↦ rw new (omega arith)
    | inr (inl (_, _, was)) ↦ rw was (ground arith)
    | inr (inr (_, _, was)) ↦ omega (arith, inv.created k x was used)
  ]

  ended_after :
      (k : ℕ) (x : Slot A)
      → get_elem? o' k ≡ some x
      → x.used ≡ true
      → ((k ≡ i) × (x.dts ≡ dts_inf)) ⊎ ((k ≢ i) × (x.dts ≤ txn))
  ended_after k x e used = elim (origin k x e used) [
    | inl (same, new) ↦ inl (same, ap (λ s. s.dts) new)
    | inr (inl (other, _, was)) ↦ inr (other, rw was (omega arith))
    | inr (inr (other, apart, was)) ↦ inr (other, omega (arith, old_ended k x apart was used))
  ]

  commit-IsVersioned : IsVersioned txn o'
  commit-IsVersioned = record {
    created = created_after;
    ended = λ k x e used. elim (ended_after k x e used) [
      | inl (_, live) ↦ inl live
      | inr (_, old) ↦ inr old
    ];
    one_live = λ k s j x e used live e' used' live'. elim (ended_after k s e used) [
      | inl (k_i, _) ↦ elim (ended_after j x e' used') [
        | inl (j_i, _) ↦ k_i ∙ sym j_i
        | inr (_, old) ↦ absurd (omega arith)
      ]
      | inr (_, old) ↦ absurd (omega arith)
    ];
    before_inf = in_range;
  }

  commit-read :
      (t : ℕ)
      → get_elem? o' i ≡ some (record { cts = txn; dts = dts_inf; used = true; value = v })
      → txn ≤ t
      → t < dts_inf
      → read_version t o' ≡ some v
  commit-read t at_i le lt =
      read_version-all t o' i (record { cts = txn; dts = dts_inf; used = true; value = v }) v at_i
        (ground arith)
        λ k x e shown.
          let used : x.used ≡ true = ground arith in
          let open_ : t < x.dts = ground arith in
          elim (origin k x e used) [
            | inl (_, new) ↦ ap (λ s. s.value) new
            | inr (inl (_, _, was)) ↦ absurd (omega (arith, ap (λ s. s.dts) was))
            | inr (inr (_, apart, was)) ↦ absurd (omega (arith, old_ended k x apart was used))
          ]

module _ {ℓ} {A : Type ℓ} where
  -- A used slot of the result, traced back to the record before the cleaning.
  traced :
      (txn i d : ℕ) (v : A) (rounds : List ℕ) (free deleted : Slot A) (o oc o' : List (Slot A))
      → Found rounds o oc i
      → Written txn i d v free deleted oc o'
      → (k : ℕ) (x : Slot A) → get_elem? o' k ≡ some x
      → x.used ≡ true
      → Origin txn v deleted i d o k x
  traced txn i d v rounds free deleted o oc o' f w k x e used =
      elim (slot-Origin txn i d v free deleted oc o' w k x e) [
        | inl new ↦ inl new
        | inr (inl old) ↦ inr (inl old)
        | inr (inr (other, apart, was)) ↦ inr (inr (other, apart, f.origin k x was used))
      ]

  commit_at :
      (txn i d : ℕ) (v : A) (free deleted : Slot A) (o o' : List (Slot A))
      → Written txn i d v free deleted o o'
      → get_elem? o' i ≡ some (record { cts = txn; dts = dts_inf; used = true; value = v })
  commit_at txn i d v free deleted o o' w =
      let f₁ : Slot A = record free { value = v; cts = txn; dts = dts_inf } in
      let g₂ : Slot A = record deleted { dts = txn } in
      let o₁ = set o i f₁ in
      let e₂ : get_elem? (set o₁ d g₂) i ≡ some f₁ =
        get_elem?-set_ne o₁ g₂ w.apart ∙ get_elem?-set_there o i free f₁ w.at_i in
      subst
        (λ l. get_elem? l i ≡ some (record { cts = txn; dts = dts_inf; used = true; value = v }))
        (sym w.result) (get_elem?-set_there (set o₁ d g₂) i f₁ _ e₂)

  -- A commit by a transaction that is newer than the last commit, whose cleaning went no further
  -- than its own timestamp, leaves the versions in order: all were created by then, and all but
  -- one live version were deleted by then.
  pub update_version-IsVersioned :
      (now txn : ℕ) (rounds : List ℕ) (v : A) (o o' : List (Slot A))
      → IsVersioned now o
      → now < txn
      → txn < dts_inf
      → All (λ r. r ≤ txn) rounds
      → update_version txn rounds v o ≡ some o'
      → IsVersioned txn o'
  update_version-IsVersioned now txn rounds v o o' inv later in_range le e =
      let u = update_version-Updated txn rounds v o o' e in
      let (s, at_d, seen, w) = Updated-Written txn rounds v o o' u le in
      commit-IsVersioned now txn v o o' u.i u.d s inv later in_range at_d seen
        (traced txn u.i u.d v rounds u.found.free s o u.cleaned o' u.found w)

  -- After a commit by a transaction that is newer than the last commit, whose cleaning went no
  -- further than its own timestamp, every snapshot from the transaction on reads the value that it
  -- wrote.
  pub read_version-update :
      (now txn : ℕ) (rounds : List ℕ) (v : A) (o o' : List (Slot A)) (t : ℕ)
      → IsVersioned now o
      → now < txn
      → txn < dts_inf
      → All (λ r. r ≤ txn) rounds
      → update_version txn rounds v o ≡ some o'
      → txn ≤ t
      → t < dts_inf
      → read_version t o' ≡ some v
  read_version-update now txn rounds v o o' t inv later in_range le e from below =
      let u = update_version-Updated txn rounds v o o' e in
      let (s, at_d, seen, w) = Updated-Written txn rounds v o o' u le in
      commit-read now txn v o o' u.i u.d s inv later in_range at_d seen
        (traced txn u.i u.d v rounds u.found.free s o u.cleaned o' u.found w) t
        (commit_at txn u.i u.d v u.found.free s u.cleaned o' w) from below
