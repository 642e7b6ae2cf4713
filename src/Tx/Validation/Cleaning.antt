-- ===== src/Tx/Validation/Cleaning.antt =====
-- BOCCTable: the backward validation against all commits, whatever the clean-up of the log removes.
use pipefabric.Prelude.{
  ℕ, ◌+◌, ◌≤◌, ◌≡◌, ◌↔◌, refl, sym, subst, true, false, Option, some, List, [], ◌∷◌, leb, ◌>>=◌,
  All, All-map, Bool-cases, inl, inr, arith, leb→le,
}
use pipefabric.Prelude.Eq.{Eq}
use pipefabric.Tx.Validation.{
  Committed, BoccTable, keys_of, conflicts, validate, clean_up, clean_bound, save_write_set,
  transaction_commit, read_commit,
}

-- A commit: what it writes, its transaction, the oldest active one, and the timestamps of its
-- validation and of its end.
pub record Commit {ℓ} (K R : Type ℓ) : Type ℓ where
  pub writes : List (K × R)
  pub txn_id : ℕ
  pub oldest : ℕ
  pub val_ts : ℕ
  pub end_ts : ℕ

module _ {ℓ} {K R : Type ℓ} ⦃key_eq : Eq K⦄ where
  unfoldable pub commit : Commit K R → BoccTable K R → Option (BoccTable K R)
  unfolding save_write_set transaction_commit
  commit c s =
      transaction_commit c.txn_id c.oldest c.end_ts
        (save_write_set c.val_ts (record s { write_set = c.writes }))

  unfoldable pub commit_each : List (Commit K R) → BoccTable K R → Option (BoccTable K R)
  commit_each [] s = some s
  commit_each (c ∷ cs) s = do s' ← commit c s; commit_each cs s'

  abbrev pub entry : Commit K R → Committed K
  entry c = record { keys = keys_of c.writes; val_ts = c.val_ts; end_ts = c.end_ts }

  -- Commits that end one after the other, the first one not before t.
  abbrev pub InTurn : ℕ → List (Commit K R) → Type 0
  InTurn t [] = Unit
  InTurn t (c ∷ cs) = (t ≤ c.end_ts) × InTurn c.end_ts cs

up : {a b c : ℕ} → a ≤ b → b ≤ c → a ≤ c
up h g = omega arith

module _ {ℓ} {K : Type ℓ} where
  -- The newest in front: every entry ended no later than the one in front of it.
  abbrev Ordered : List (Committed K) → Type ℓ
  Ordered [] = Unit
  Ordered (ws ∷ wss) = All (λ (older : Committed K). older.end_ts ≤ ws.end_ts) wss × Ordered wss

  All-clean_up {κ} :
      (P : Committed K → Type κ) (b : ℕ) (wss : List (Committed K))
      → All P wss
      → All P (clean_up b wss)
  unfolding clean_up
  All-clean_up P b [] h = tt
  All-clean_up P b (ws ∷ wss) h = elim (Bool-cases (leb ws.end_ts b)) [
    | inl old ↦ rw old tt
    | inr new ↦ rw new (h.0, All-clean_up P b wss h.1)
  ]

  clean_up-Ordered : (b : ℕ) (wss : List (Committed K)) → Ordered wss → Ordered (clean_up b wss)
  unfolding clean_up
  clean_up-Ordered b [] h = tt
  clean_up-Ordered b (ws ∷ wss) h = elim (Bool-cases (leb ws.end_ts b)) [
    | inl old ↦ rw old tt
    | inr new ↦
        rw new
          (All-clean_up (λ older. older.end_ts ≤ ws.end_ts) b wss h.0, clean_up-Ordered b wss h.1)
  ]

module _ {ℓ} {K : Type ℓ} ⦃key_eq : Eq K⦄ (txn_id val_ts : ℕ) (keys : List K) where
  abbrev Passes : Committed K → Type 0
  Passes ws = conflicts txn_id val_ts keys ws ≡ false

  validate_iff :
      (wss : List (Committed K)) → (validate txn_id val_ts keys wss ≡ true) ↔ All Passes wss
  unfolding validate
  validate_iff [] = (λ h. tt, λ h. refl)
  validate_iff (ws ∷ wss) = elim (Bool-cases (conflicts txn_id val_ts keys ws)) [
    | inl hit ↦ rw hit (λ h. absurd (cc), λ h. absurd (cc (h.0)))
    | inr miss ↦ rw miss (λ h. (refl, (validate_iff wss).0 h), λ h. (validate_iff wss).1 h.1)
  ]

  -- A write set that was complete before the reader began does not abort it.
  early : (ws : Committed K) → ws.end_ts ≤ txn_id → Passes ws
  unfolding conflicts
  early ws h = ground arith

  clean_up-Passes :
      (b : ℕ) (wss : List (Committed K))
      → b ≤ txn_id
      → Ordered wss
      → All Passes (clean_up b wss)
      → All Passes wss
  unfolding clean_up
  clean_up-Passes b [] le o h = tt
  clean_up-Passes b (ws ∷ wss) le o h = elim (Bool-cases (leb ws.end_ts b)) [
    | inl old ↦
        let ended : ws.end_ts ≤ b = leb→le ws.end_ts b old in
        (
          early ws (omega arith),
          All-map (λ (x : Committed K) (p : x.end_ts ≤ ws.end_ts). early x (omega arith)) wss o.0,
        )
    | inr new ↦
        let kept : Passes ws × All Passes (clean_up b wss) = rw new at h in
        (kept.0, clean_up-Passes b wss le o.1 kept.1)
  ]

  later_clean_up :
      (b : ℕ) (wss : List (Committed K))
      → b ≤ txn_id
      → Ordered wss
      → All Passes (clean_up b wss) ↔ All Passes wss
  later_clean_up b wss le o = (clean_up-Passes b wss le o, All-clean_up Passes b wss)

module _ {ℓ} {K R : Type ℓ} ⦃key_eq : Eq K⦄ where
  Commits : Commit K R → BoccTable K R → BoccTable K R → Type ℓ
  Commits c s s' =
      (commit c s ≡ some s')
      × (s'.committed_wss
          ≡ clean_up (clean_bound c.txn_id c.oldest c.val_ts) (entry c ∷ s.committed_wss))

  commit-log : (c : Commit K R) (s : BoccTable K R) → (s' : BoccTable K R) × Commits c s s'
  unfolding commit Commits
  commit-log c s = (_, (refl, refl))

module _ {ℓ} {K R : Type ℓ} ⦃key_eq : Eq K⦄ (txn_id val_ts : ℕ) (keys : List K) where
  -- The commits go on from some state of the log.
  going_on :
      (cs : List (Commit K R)) (s : BoccTable K R) (t : ℕ)
      → Ordered s.committed_wss
      → All (λ (ws : Committed K). ws.end_ts ≤ t) s.committed_wss
      → InTurn t cs
      → All (λ (c : Commit K R). clean_bound c.txn_id c.oldest c.val_ts ≤ txn_id) cs
      → (s' : BoccTable K R) × (commit_each cs s ≡ some s')
        × (All (Passes txn_id val_ts keys) s'.committed_wss ↔ (
            All (Passes txn_id val_ts keys) s.committed_wss
            × All (λ (c : Commit K R). Passes txn_id val_ts keys (entry c)) cs))
  unfolding commit_each Commits
  going_on [] s t o e turn bound = (s, refl, (λ h. (h, tt), λ h. h.0))
  going_on (c ∷ cs) s t o e turn bound =
      let (s₁, (e₁, log₁)) = commit-log c s in
      let b : ℕ = clean_bound c.txn_id c.oldest c.val_ts in
      let older : All (λ (ws : Committed K). ws.end_ts ≤ c.end_ts) s.committed_wss =
        All-map (λ ws h. up h turn.0) s.committed_wss e in
      let behind : Ordered s₁.committed_wss =
        subst Ordered (sym log₁) (clean_up-Ordered b (entry c ∷ s.committed_wss) (older, o)) in
      let ended : All (λ (ws : Committed K). ws.end_ts ≤ c.end_ts) s₁.committed_wss =
        subst (All (λ (ws : Committed K). ws.end_ts ≤ c.end_ts)) (sym log₁) (
          All-clean_up (λ (ws : Committed K). ws.end_ts ≤ c.end_ts) b (entry c ∷ s.committed_wss)
            (omega arith, older)) in
      let (s₂, e₂, f) = going_on cs s₁ c.end_ts behind ended turn.1 bound.1 in
      let g = later_clean_up txn_id val_ts keys b (entry c ∷ s.committed_wss) bound.0 (older, o) in
      (
        s₂,
        rw e₁ e₂,
        (
          λ h.
              let first = g.0 (subst (All (Passes txn_id val_ts keys)) log₁ (f.0 h).0) in
              (first.1, (first.0, (f.0 h).1)),
          λ h. f.1 (subst (All (Passes txn_id val_ts keys)) (sym log₁) (g.1 (h.1.0, h.0)), h.1.1),
        ),
      )

module _ {ℓ} {K R : Type ℓ} ⦃key_eq : Eq K⦄ where
  -- On a table with an empty log, let transactions commit one after the other, and let none of them
  -- clean the log up beyond the begin of a reader. Then all of them commit, and the reader passes the
  -- validation exactly if none of the write sets aborts it, whether the clean-up left it in the log or
  -- not.
  pub read_commit-commits :
      (s : BoccTable K R) (cs : List (Commit K R)) (txn_id clock : ℕ) (keys : List K)
      → s.committed_wss ≡ []
      → InTurn 0 cs
      → All (λ (c : Commit K R). clean_bound c.txn_id c.oldest c.val_ts ≤ txn_id) cs
      → (s' : BoccTable K R) × (commit_each cs s ≡ some s')
        × ((read_commit txn_id clock keys s' ≡ true)
            ↔ All (λ (c : Commit K R). conflicts txn_id (clock + 1) keys (entry c) ≡ false) cs)
  unfolding read_commit
  read_commit-commits s cs txn_id clock keys empty turn bound =
      let (s', e, f) =
        going_on txn_id (clock + 1) keys cs s 0 (subst Ordered (sym empty) tt)
          (subst (All (λ (ws : Committed K). ws.end_ts ≤ 0)) (sym empty) tt) turn bound in
      let v = validate_iff txn_id (clock + 1) keys s'.committed_wss in
      (
        s',
        e,
        (
          λ h. (f.0 (v.0 h)).1,
          λ h. v.1 (f.1 (subst (All (Passes txn_id (clock + 1) keys)) (sym empty) tt, h)),
        ),
      )
