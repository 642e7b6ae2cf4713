-- ===== src/Tx/Version/History.antt =====
-- MVCCTable: a record over a whole series of commits.
use pipefabric.Prelude.{
  ℕ, zero, suc, ◌≡◌, ◌≤◌, ◌<◌, refl, sym, ◌∙◌, true, false, Option, some, List, [], ◌∷◌, get_elem?,
  replicate, arith, leb, Bool-cases, Option-cases, inl, inr, if◌then◌else◌, ◌>>=◌, All, All-map,
}
use pipefabric.Tx.Version.{Slot, dts_inf, update_version, read_version, first_version, get_current}
use pipefabric.Tx.Version.Snapshot.{update_version-snapshot}
use pipefabric.Tx.Version.Latest.{IsVersioned, update_version-IsVersioned, read_version-update}

-- A transaction's write to the record, and what the rounds of its wait for a slot cleaned up to.
pub record Commit {ℓ} (A : Type ℓ) : Type ℓ where
  pub txn : ℕ
  pub rounds : List ℕ
  pub written : A

module _ {ℓ} {A : Type ℓ} where
  unfoldable pub commit_all : List (Commit A) → List (Slot A) → Option (List (Slot A))
  commit_all [] o = some o
  commit_all (c ∷ cs) o = update_version c.txn c.rounds c.written o >>= commit_all cs

  -- What a snapshot at `t` is to read: the last value that was written by then.
  unfoldable pub last_written : ℕ → A → List (Commit A) → A
  last_written t v [] = v
  last_written t v (c ∷ cs) = last_written t (if leb c.txn t then c.written else v) cs

  -- The commits come in the order of their numbers, all behind `now`, and no wait for a slot
  -- cleans up beyond the snapshot `t`, nor beyond its own transaction.
  abbrev pub IsHistory : ℕ → ℕ → List (Commit A) → Type 0
  IsHistory t now [] = Unit
  IsHistory t now (c ∷ cs) =
      (now < c.txn)
      × (c.txn < dts_inf)
      × All (λ r. (r ≤ t) × (r ≤ c.txn)) c.rounds
      × IsHistory t c.txn cs

  unused_slots :
      (n k : ℕ) (d s : Slot A)
      → d.used ≡ false
      → get_elem? (replicate n d) k ≡ some s
      → s.used ≡ false
  unused_slots zero k d s u h = absurd (cc h)
  unused_slots (suc n) zero d s u h = ground arith
  unused_slots (suc n) (suc k) d s u h = unused_slots n k d s u h

  -- Only the first slot is used, by the new version.
  first_slot :
      (txn : ℕ) (v : A) (versions : ℕ) (dummy : A) (k : ℕ) (s : Slot A)
      → get_elem? (first_version txn v versions dummy) k ≡ some s
      → s.used ≡ true
      → (k ≡ 0) × (s.cts ≡ txn) × (s.dts ≡ dts_inf)
  unfolding first_version
  first_slot txn v versions dummy zero s e u = (refl, ground arith, ground arith)
  first_slot txn v versions dummy (suc k) s e u =
      absurd (cc (unused_slots versions k _ s refl e, u))

  pub first_version-IsVersioned :
      (txn : ℕ) (v : A) (versions : ℕ) (dummy : A)
      → txn < dts_inf
      → IsVersioned txn (first_version txn v versions dummy)
  first_version-IsVersioned txn v versions dummy lt = record {
    created = λ k s e u. omega (arith, (first_slot txn v versions dummy k s e u).1);
    ended = λ k s e u. inl (first_slot txn v versions dummy k s e u).2;
    one_live = λ k s i x e u l e' u' l'.
        (first_slot txn v versions dummy k s e u).0
        ∙ sym (first_slot txn v versions dummy i x e' u').0;
    before_inf = lt;
  }

  pub read-first_version :
      (txn : ℕ) (v : A) (versions : ℕ) (dummy : A) (t : ℕ)
      → txn ≤ t
      → t < dts_inf
      → read_version t (first_version txn v versions dummy) ≡ some v
  unfolding first_version read_version get_current
  read-first_version txn v versions dummy t le lt = ground arith

  commit_all-read :
      (t now : ℕ) (v : A) (cs : List (Commit A)) (o o' : List (Slot A))
      → IsVersioned now o
      → read_version t o ≡ some v
      → t < dts_inf
      → IsHistory t now cs
      → commit_all cs o ≡ some o'
      → read_version t o' ≡ some (last_written t v cs)
  unfolding commit_all last_written
  commit_all-read t now v [] o o' inv reads lt h e = ground arith
  commit_all-read t now v (c ∷ cs) o o' inv reads lt h e =
      elim (Option-cases (update_version c.txn c.rounds c.written o)) [
        | inl gone ↦ absurd (cc (rw gone at e))
        | inr (o₁, done) ↦
            let own = All-map (λ r p. p.1) c.rounds h.2 in
            let shared = All-map (λ r p. p.0) c.rounds h.2 in
            let inv₁ =
              update_version-IsVersioned now c.txn c.rounds c.written o o₁ inv h.0 h.1 own done in
            let reads₁ : read_version t o₁ ≡ some (if leb c.txn t then c.written else v) =
              elim (Bool-cases (leb c.txn t)) [
                | inl by_then ↦ rw by_then (
                    read_version-update now c.txn c.rounds c.written o o₁ t inv h.0 h.1 own done
                      (ground arith) lt)
                | inr later ↦ rw later (
                    update_version-snapshot c.txn c.rounds c.written o o₁ t done shared
                      (ground arith)
                    ∙ reads)
              ] in
            commit_all-read t c.txn _ cs o₁ o' inv₁ reads₁ lt h.3 (rw done at e)
      ]

  -- A snapshot reads the last value written by then: for a record that `txn` inserted and that
  -- later transactions updated in the order of their numbers, none of which cleaned up beyond the
  -- snapshot, a read at a snapshot from `txn` on returns the value of the last commit that is not
  -- younger than the snapshot.
  pub read_version-commits :
      (txn : ℕ) (v : A) (versions : ℕ) (dummy : A) (cs : List (Commit A)) (o : List (Slot A))
      (t : ℕ)
      → txn ≤ t
      → t < dts_inf
      → IsHistory t txn cs
      → commit_all cs (first_version txn v versions dummy) ≡ some o
      → read_version t o ≡ some (last_written t v cs)
  read_version-commits txn v versions dummy cs o t le lt h e =
      commit_all-read t txn v cs (first_version txn v versions dummy) o
        (first_version-IsVersioned txn v versions dummy (omega arith))
        (read-first_version txn v versions dummy t le lt) lt h e
