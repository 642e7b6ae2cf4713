-- ===== src/Tx/Version/Snapshot.antt =====
-- A commit does not change what an older snapshot reads.
use pipefabric.Prelude.{
  ℕ, ◌≡◌, ◌≢◌, ◌≤◌, ◌<◌, refl, ap, sym, ◌∙◌, subst₂, ltb→lt, true, false, none, some, List, [], ◌∷◌,
  length, get_elem?, set, arith, ltb, Bool-cases, Option-cases, inl, inr, All, All-map,
  get_elem?-set_ne,
}
use pipefabric.Tx.Version.{
  Slot, dts_inf, visible, get_current, new_entry, clean_up_versions, first_free, find_slot,
  update_version, read_version,
}
use pipefabric.Tx.Version.Access.{
  read_version-set, get_current-visible, first_free-unused, read_version-clean, get_elem?-clean,
  get_elem?-set_there,
}

module _ {ℓ} {A : Type ℓ} where
  -- The slots before and after `new_entry`, step by step.
  pub record Written (txn i d : ℕ) (v : A) (free deleted : Slot A) (o o' : List (Slot A))
      : Type ℓ where
    pub at_i : get_elem? o i ≡ some free
    pub at_d : get_elem? o d ≡ some deleted
    pub apart : d ≢ i
    pub result :
        o'
        ≡ set
            (set
              (set o i (record free { value = v; cts = txn; dts = dts_inf }))
              d
              (record deleted { dts = txn }))
            i
            (record { cts = txn; dts = dts_inf; used = true; value = v })

  new_entry-Written :
      (txn i d : ℕ) (v : A) (o o' : List (Slot A)) (free deleted : Slot A)
      → get_elem? o i ≡ some free
      → get_elem? o d ≡ some deleted
      → d ≢ i
      → new_entry txn i (some d) v o ≡ some o'
      → Written txn i d v free deleted o o'
  unfolding new_entry
  new_entry-Written txn i d v o o' free deleted e_i e_d apart e =
      let f₁ : Slot A = record free { value = v; cts = txn; dts = dts_inf } in
      let o₁ = set o i f₁ in
      let e₁ : get_elem? o₁ d ≡ some deleted = get_elem?-set_ne o f₁ (λ p. apart (sym p)) ∙ e_d in
      let g₂ : Slot A = record deleted { dts = txn } in
      let e₂ : get_elem? (set o₁ d g₂) i ≡ some f₁ =
        get_elem?-set_ne o₁ g₂ apart ∙ get_elem?-set_there o i free f₁ e_i in
      record { at_i = e_i; at_d = e_d; apart = apart; result = ground (arith, e_i, e₁, e₂) }

  -- What waiting for a free slot leaves in place.
  pub record Found (rounds : List ℕ) (o oc : List (Slot A)) (i : ℕ) : Type ℓ where
    pub free : Slot A
    pub at_i : get_elem? oc i ≡ some free
    pub unused : free.used ≡ false
    pub reads : (t : ℕ) → All (λ r. r ≤ t) rounds → read_version t oc ≡ read_version t o
    pub keeps :
        (d : ℕ) (s : Slot A)
        → get_elem? o d ≡ some s
        → All (λ r. r < s.dts) rounds
        → get_elem? oc d ≡ some s
    pub origin :
        (k : ℕ) (s : Slot A) → get_elem? oc k ≡ some s → s.used ≡ true → get_elem? o k ≡ some s

  Found-here :
      (rounds : List ℕ) (o : List (Slot A))
      → first_free o < length o
      → Found rounds o o (first_free o)
  Found-here rounds o h =
      let (s, e, u) = first_free-unused o h in
      record {
        free = s;
        at_i = e;
        unused = u;
        reads = λ t _. refl;
        keeps = λ d x e' _. e';
        origin = λ k x e' _. e';
      }

  clean-keeps :
      (oldest : ℕ) (o : List (Slot A)) (d : ℕ) (s : Slot A)
      → get_elem? o d ≡ some s
      → oldest < s.dts
      → get_elem? (clean_up_versions oldest o) d ≡ some s
  clean-keeps oldest o d s e h = rw (get_elem?-clean, e) (ground arith)

  clean-origin :
      (oldest : ℕ) (o : List (Slot A)) (k : ℕ) (s : Slot A)
      → get_elem? (clean_up_versions oldest o) k ≡ some s
      → s.used ≡ true
      → get_elem? o k ≡ some s
  clean-origin oldest o k s e used = ground (arith, get_elem?-clean oldest o k)

  Found-clean :
      (oldest : ℕ) (rounds : List ℕ) (o oc : List (Slot A)) (i : ℕ)
      → Found rounds (clean_up_versions oldest o) oc i
      → Found (oldest ∷ rounds) o oc i
  Found-clean oldest rounds o oc i f = record {
    free = f.free;
    at_i = f.at_i;
    unused = f.unused;
    reads = λ t le. f.reads t le.1 ∙ read_version-clean t oldest o le.0;
    keeps = λ d s e lt. f.keeps d s (clean-keeps oldest o d s e lt.0) lt.1;
    origin = λ k s e used. clean-origin oldest o k s (f.origin k s e used) used;
  }

  pub find_slot-Found :
      (rounds : List ℕ) (o oc : List (Slot A)) (i : ℕ)
      → find_slot rounds o ≡ some (oc, i)
      → Found rounds o oc i
  unfolding find_slot
  find_slot-Found [] o oc i e = elim (Bool-cases (ltb (first_free o) (length o))) [
    | inl room ↦
        subst₂ (Found [] o) (ground arith) (ground arith) (Found-here [] o (ltb→lt _ _ room))
    | inr full ↦ absurd (cc full)
  ]
  find_slot-Found (oldest ∷ rounds) o oc i e = elim (Bool-cases (ltb (first_free o) (length o))) [
    | inl room ↦
        subst₂ (Found (oldest ∷ rounds) o) (ground arith) (ground arith)
          (Found-here (oldest ∷ rounds) o (ltb→lt _ _ room))
    | inr full ↦
        Found-clean oldest rounds o oc i
          (find_slot-Found rounds (clean_up_versions oldest o) oc i (rw full at e))
  ]

  new_entry-gone : (txn i : ℕ) (v : A) (o : List (Slot A)) → new_entry txn i none v o ≡ none
  unfolding new_entry
  new_entry-gone txn i v o = ground arith

  -- The parts of a commit to a record that is there.
  pub record Updated (txn : ℕ) (rounds : List ℕ) (v : A) (o o' : List (Slot A)) : Type ℓ where
    pub cleaned : List (Slot A)
    pub i : ℕ
    pub d : ℕ
    pub found : Found rounds o cleaned i
    pub current : get_current txn o ≡ some d
    pub written : new_entry txn i (some d) v cleaned ≡ some o'

  pub update_version-Updated :
      (txn : ℕ) (rounds : List ℕ) (v : A) (o o' : List (Slot A))
      → update_version txn rounds v o ≡ some o'
      → Updated txn rounds v o o'
  unfolding update_version
  update_version-Updated txn rounds v o o' e = elim (Option-cases (find_slot rounds o)) [
    | inl stuck ↦ absurd (cc (rw stuck at e))
    | inr ((oc, i), got) ↦ elim (Option-cases (get_current txn o)) [
      | inl gone ↦ absurd (cc (rw (got, gone, new_entry-gone txn i v oc) at e))
      | inr (d, cur) ↦ record {
        cleaned = oc;
        i = i;
        d = d;
        found = find_slot-Found rounds o oc i got;
        current = cur;
        written = rw (got, cur) at e;
      }
    ]
  ]

  seen_used : (t : ℕ) (s : Slot A) → visible t s ≡ true → s.used ≡ true
  seen_used t s h = ground arith

  pub Updated-Written :
      (txn : ℕ) (rounds : List ℕ) (v : A) (o o' : List (Slot A)) (u : Updated txn rounds v o o')
      → All (λ r. r ≤ txn) rounds
      → (deleted : Slot A) × (get_elem? o u.d ≡ some deleted)
        × (visible txn deleted ≡ true)
        × Written txn u.i u.d v u.found.free deleted u.cleaned o'
  Updated-Written txn rounds v o o' u le =
      let (s, e, seen) = get_current-visible txn o u.d u.current in
      let later : txn < s.dts = ground arith in
      let e' : get_elem? u.cleaned u.d ≡ some s =
        u.found.keeps u.d s e (All-map (λ r (h : r ≤ txn). omega arith) rounds le) in
      let apart : u.d ≢ u.i = λ p.
        cc (ap (get_elem? u.cleaned) p, e', u.found.at_i, seen_used txn s seen, u.found.unused) in
      (
        s,
        e,
        seen,
        new_entry-Written txn u.i u.d v u.cleaned o' u.found.free s u.found.at_i e' apart u.written,
      )

  -- The three writes of `new_entry` are hidden from an older snapshot.
  Written-read :
      (t txn i d : ℕ) (v : A) (free deleted : Slot A) (o o' : List (Slot A))
      → Written txn i d v free deleted o o'
      → free.used ≡ false
      → visible txn deleted ≡ true
      → t < txn
      → read_version t (
          set
            (set
              (set o i (record free { value = v; cts = txn; dts = dts_inf }))
              d
              (record deleted { dts = txn }))
            i
            (record { cts = txn; dts = dts_inf; used = true; value = v }))
        ≡ read_version t o
  Written-read t txn i d v free deleted o o' w unused seen lt =
      let f₁ : Slot A = record free { value = v; cts = txn; dts = dts_inf } in
      let g₂ : Slot A = record deleted { dts = txn } in
      let f₃ : Slot A = record { cts = txn; dts = dts_inf; used = true; value = v } in
      let o₁ = set o i f₁ in
      let e₁ : get_elem? o₁ d ≡ some deleted =
        get_elem?-set_ne o f₁ (λ p. w.apart (sym p)) ∙ w.at_d in
      let e₂ : get_elem? (set o₁ d g₂) i ≡ some f₁ =
        get_elem?-set_ne o₁ g₂ w.apart ∙ get_elem?-set_there o i free f₁ w.at_i in
      read_version-set t (set o₁ d g₂) i f₁ f₃ e₂ (ground arith) (λ h. refl)
      ∙ read_version-set t o₁ d deleted g₂ e₁ (ground arith) (λ h. refl)
      ∙ read_version-set t o i free f₁ w.at_i (ground arith) (λ h. absurd (ground arith))

  -- A commit to a record leaves every older snapshot as it is: a reader whose snapshot is older
  -- than the transaction, and not older than what the cleaning took for the oldest visible version,
  -- reads what it read before.
  pub update_version-snapshot :
      (txn : ℕ) (rounds : List ℕ) (v : A) (o o' : List (Slot A)) (t : ℕ)
      → update_version txn rounds v o ≡ some o'
      → All (λ r. r ≤ t) rounds
      → t < txn
      → read_version t o' ≡ read_version t o
  update_version-snapshot txn rounds v o o' t e le lt =
      let u = update_version-Updated txn rounds v o o' e in
      let (s, at_d, seen, w) =
        Updated-Written txn rounds v o o' u (All-map (λ r (h : r ≤ t). omega arith) rounds le) in
      rw w.result
        (Written-read t txn u.i u.d v u.found.free s u.cleaned o' w u.found.unused seen lt)
      ∙ u.found.reads t le
