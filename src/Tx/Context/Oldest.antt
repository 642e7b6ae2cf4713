-- ===== src/Tx/Context/Oldest.antt =====
-- StateContext: what recalcOldestVisible returns, and the snapshots of the active readers.
use pipefabric.Prelude.{
  ℕ, ◌≤◌, ◌<◌, ◌≡◌, ◌≢◌, ◌↔◌, subst, ◌⊎◌, true, ◌&&◌, not, List, [], ◌∷◌, All, ltb, ◌==◌,
  if◌then◌else◌, arith, Bool-cases, inl, inr,
}
use pipefabric.Tx.Version.{dts_inf}
use pipefabric.Tx.Context.{ActiveTx, Context, least_read, recalc_oldest_visible}

-- An active transaction that has read, and so reads at its read_cts from then on.
abbrev pub IsReader : ActiveTx → Type 0
IsReader t = (t.in_use ≡ true) × (t.read_cts ≢ 0)

-- No active reader has an older snapshot.
abbrev pub IsVisible : ℕ → List ActiveTx → Type 0
IsVisible version ts = All (λ t. IsReader t → version ≤ t.read_cts) ts

least_read-le : (m : ℕ) (ts : List ActiveTx) → least_read m ts ≤ m
unfolding least_read
least_read-le m [] = omega arith
least_read-le m (t ∷ ts) = ground (
  arith,
  least_read-le (if t.in_use && (not (t.read_cts == 0) && ltb t.read_cts m) then t.read_cts else m)
      ts,
)

reader_bound :
    (m : ℕ) (t : ActiveTx)
    → IsReader t
    → (if t.in_use && (not (t.read_cts == 0) && ltb t.read_cts m) then t.read_cts else m)
      ≤ t.read_cts
reader_bound m t r = ground (arith, r.0, r.1)

least_read-IsVisible : (m : ℕ) (ts : List ActiveTx) → IsVisible (least_read m ts) ts
unfolding least_read
least_read-IsVisible m [] = tt
least_read-IsVisible m (t ∷ ts) =
    let m' : ℕ =
      if t.in_use && (not (t.read_cts == 0) && ltb t.read_cts m) then t.read_cts else m in
    let le = least_read-le m' ts in
    ((λ r. omega (arith, le, reader_bound m t r)), least_read-IsVisible m' ts)

no_readers :
    (version : ℕ) (ts : List ActiveTx)
    → All (λ t. t.read_cts < dts_inf) ts
    → IsVisible dts_inf ts
    → IsVisible version ts
no_readers version [] below v = tt
no_readers version (t ∷ ts) below v =
    (λ r. absurd (omega (arith, below.0, v.0 r)), no_readers version ts below.1 v.1)

new_min-IsVisible :
    (last : ℕ) (ts : List ActiveTx)
    → All (λ t. t.read_cts < dts_inf) ts
    → IsVisible (if least_read dts_inf ts == dts_inf then last else least_read dts_inf ts) ts
new_min-IsVisible last ts below = elim (Bool-cases (least_read dts_inf ts == dts_inf)) [
  | inl none_found ↦
      let e : least_read dts_inf ts ≡ dts_inf = ground arith in
      rw none_found
        (no_readers last ts below (subst (λ v. IsVisible v ts) e (least_read-IsVisible dts_inf ts)))
  | inr found ↦ rw found (least_read-IsVisible dts_inf ts)
]

-- Where the read timestamps are below DTS_INF, the version that recalcOldestVisible returns is not
-- newer than the snapshot of any active reader exactly when it is not the first call (the oldest
-- visible version is not 0 yet), or when the last commit is not newer than any of these snapshots.
pub recalc_oldest_visible-IsVisible :
    (c : Context)
    → All (λ t. t.read_cts < dts_inf) c.active_txs
    → IsVisible (recalc_oldest_visible c).1 c.active_txs
      ↔ ((c.oldest_visible_version ≢ 0) ⊎ IsVisible c.last_cts c.active_txs)
unfolding recalc_oldest_visible
recalc_oldest_visible-IsVisible c below = elim (Bool-cases (c.oldest_visible_version == 0)) [
  | inl first ↦
      let is_zero : c.oldest_visible_version ≡ 0 = ground arith in
      rw first (λ v. inr v, λ h. elim h [ inl later ↦ absurd (later is_zero) | inr v ↦ v ])
  | inr later ↦
      let non_zero : c.oldest_visible_version ≢ 0 = λ e. absurd (ground arith) in
      rw later (λ v. inl non_zero, λ h. new_min-IsVisible c.last_cts c.active_txs below)
]
