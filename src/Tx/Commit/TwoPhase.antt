-- ===== src/Tx/Commit/TwoPhase.antt =====
-- transactionPreCommit: the two tables of a topology group commit together, at the second vote.
use pipefabric.Prelude.{
  ℕ, ◌≡◌, ◌≢◌, ◌≤◌, ◌<◌, refl, sym, ap, ◌∙◌, Bool, true, false, not, Option, some, List, [], ◌∷◌,
  get_elem?,
}
use pipefabric.Prelude.Eq.{Eq}
use pipefabric.Prelude.Assoc.{lookup}
use pipefabric.Aggr.Counters.{Comparator}
use pipefabric.Tx.Version.{Slot, dts_inf}
use pipefabric.Tx.Version.Latest.{IsVersioned}
use pipefabric.Tx.WriteSet.{committed_writes}
use pipefabric.Tx.WriteSet.Least.{least_written, committed_writes-least}
use pipefabric.Tx.Context.{active, commit, ActiveTx, Context, get_pos}
use pipefabric.Tx.Commit.{
  MvccTable, States, get_by_key, with_status, clean, transaction_commit, commit_state, commit_both,
  transaction_pre_commit,
}
use pipefabric.Tx.Commit.Writes
use pipefabric.Tx.Commit.Snapshots.{HasSnapshot, get_by_key-snapshot}
use pipefabric.Tx.Commit.Writes.{read_key, overlay, AllLive}
use pipefabric.Tx.Commit.Votes.{
  voted, set_write_status-voted, voted-at, get_write_status-voted, voted-HasSnapshot,
  remove_tx-total,
}

-- The reader gets the same value in both states, from the first tables and from the second ones.
abbrev pub Repeats {ℓ} : {K V : Type ℓ} ⦃key_eq : Eq K⦄ → ℕ → K → States K V → States K V → Type ℓ
Repeats {V = V} r k s s₂ =
    (v : Option V) × (w : Option V) × (get_by_key r k s.first s.context ≡ some (s.context, v))
    × (get_by_key r k s₂.first s₂.context ≡ some (s₂.context, v))
    × (get_by_key r k s.second s.context ≡ some (s.context, w))
    × (get_by_key r k s₂.second s₂.context ≡ some (s₂.context, w))

-- The snapshots of the other transactions stay.
abbrev pub KeepsSnapshots : ℕ → Context → Context → Type 0
KeepsSnapshots txn c c' =
    (r t : ℕ) → r ≢ txn → HasSnapshot r t c.active_txs → HasSnapshot r t c'.active_txs

module _ {ℓ} {K V : Type ℓ} ⦃key_eq : Eq K⦄ (by_key : Comparator K) (by_value : Comparator V)
    (versions : ℕ) (dummy : V) where
  -- What a commit makes of a table: snapshots from the transaction on read what it wrote, and older
  -- ones, unless they are older than the clean-up, what they read before; the records are in order,
  -- and the write set is empty.
  pub record HasCommitted (txn oldest : ℕ) (old new : MvccTable K V) : Type ℓ where
    pub reads :
        (t : ℕ)
        → txn ≤ t
        → t < dts_inf
        → (k : K)
        → read_key t k new.tbl
          ≡ overlay by_key by_value versions dummy
              (least_written by_key by_value k old.write_set)
              (read_key t k old.tbl)
    pub keeps :
        (t : ℕ) → oldest ≤ t → t < txn → (k : K) → read_key t k new.tbl ≡ read_key t k old.tbl
    pub versioned : (k : K) (o : List (Slot V)) → lookup k new.tbl ≡ some o → IsVersioned txn o
    pub cleaned : new.write_set ≡ []
    pub released : new.write_txn ≡ 0

  transaction_commit-total :
      (now txn oldest : ℕ) (old : MvccTable K V)
      → AllLive by_key by_value versions dummy now old.tbl
      → now ≤ oldest
      → oldest ≤ txn
      → now < txn
      → txn < dts_inf
      → (new : MvccTable K V) × (transaction_commit by_key by_value versions dummy txn
            (λ k. oldest ∷ [])
            old
          ≡ some new)
        × HasCommitted txn oldest old new
  unfolding transaction_commit clean
  transaction_commit-total now txn oldest old live le own later below =
      let (ascends, least) = committed_writes-least by_key by_value old.write_set in
      let ws = committed_writes by_key by_value old.write_set in
      let once = Writes.ascending-IsOnce by_key by_value versions dummy ws ascends in
      let (tbl', done) =
        Writes.commit_writes-total by_key by_value versions dummy now txn oldest ws old.tbl once
          (λ k o is_written found. live k o found) le later below in
      (
        record { write_txn = 0; write_set = []; tbl = tbl' },
        rw done refl,
        record {
          reads = λ t from in_range k.
              Writes.commit_writes-read_key by_key by_value versions dummy now txn
                (λ k. oldest ∷ []) ws old.tbl tbl' t done once
                (λ j o is_written found. (live j o found).versioned) later from in_range
                (λ j. (own, tt)) k
              ∙ ap (λ v. overlay by_key by_value versions dummy v (read_key t k old.tbl)) (least k);
          keeps = λ t from before k.
              Writes.commit_writes-snapshot by_key by_value versions dummy txn (λ k. oldest ∷ []) ws
                old.tbl tbl' t done (λ j. (from, tt)) before k;
          versioned =
              Writes.commit_writes-IsVersioned by_key by_value versions dummy now txn
                (λ k. oldest ∷ []) ws old.tbl tbl' done once
                (λ j o is_written found. (live j o found).versioned)
                (λ j o found.
                  Writes.later-IsVersioned by_key by_value versions dummy now txn o later below
                    (live j o found).versioned)
                later below (λ j. (own, tt));
          cleaned = refl;
          released = refl;
        },
      )

  commit_both-total :
      (b : Bool) (now txn oldest pos : ℕ) (s : States K V) (t : ActiveTx)
      → get_pos txn s.context.active_txs ≡ some pos
      → get_elem? s.context.active_txs pos ≡ some t
      → AllLive by_key by_value versions dummy now s.first.tbl
      → AllLive by_key by_value versions dummy now s.second.tbl
      → now ≤ oldest
      → oldest ≤ txn
      → now < txn
      → txn < dts_inf
      → (s' : States K V) × (commit_both by_key by_value versions dummy b txn
            (λ k. oldest ∷ [])
            (λ k. oldest ∷ [])
            s
          ≡ some s')
        × (s'.context.last_cts ≡ txn)
        × HasCommitted txn oldest s.first s'.first
        × HasCommitted txn oldest s.second s'.second
        × KeepsSnapshots txn s.context s'.context
  unfolding commit_both commit_state
  commit_both-total true now txn oldest pos s t at there one two le own later below =
      let (first, e₁, c₁) =
        transaction_commit-total now txn oldest s.first one le own later below in
      let (second, e₂, c₂) =
        transaction_commit-total now txn oldest s.second two le own later below in
      let (c, e₃, last, kept) =
        remove_tx-total (record s.context { last_cts = txn }) txn pos t at there in
      (
        record { context = c; first = first; second = second },
        rw (e₁, e₂, e₃) refl,
        last,
        c₁,
        c₂,
        kept,
      )
  commit_both-total false now txn oldest pos s t at there one two le own later below =
      let (first, e₁, c₁) =
        transaction_commit-total now txn oldest s.first one le own later below in
      let (second, e₂, c₂) =
        transaction_commit-total now txn oldest s.second two le own later below in
      let (c, e₃, last, kept) =
        remove_tx-total (record s.context { last_cts = txn }) txn pos t at there in
      (
        record { context = c; first = first; second = second },
        rw (e₂, e₁, e₃) refl,
        last,
        c₁,
        c₂,
        kept,
      )

  -- The votes of a transaction for its two tables, in either order, where neither has voted before,
  -- all records are in order with a live version and two slots at least, and each wait for a slot
  -- finds the same oldest visible version, which is the last commit or newer: the first vote changes
  -- neither table nor the last commit; at the second one the transaction is the last commit, and in
  -- both tables at once every snapshot from it on reads the least value that it wrote to a key, or
  -- what was there, while every older one, down to the oldest visible version, reads what it read.
  -- The snapshots of the other transactions stay.
  pub two_votes :
      (b : Bool) (now txn oldest pos : ℕ) (s : States K V) (t : ActiveTx)
      → get_pos txn s.context.active_txs ≡ some pos
      → get_elem? s.context.active_txs pos ≡ some t
      → t.first_state ≡ active
      → t.second_state ≡ active
      → AllLive by_key by_value versions dummy now s.first.tbl
      → AllLive by_key by_value versions dummy now s.second.tbl
      → now ≤ oldest
      → oldest ≤ txn
      → now < txn
      → txn < dts_inf
      → (s₁ s₂ : States K V) × (transaction_pre_commit by_key by_value versions dummy b txn
            (λ k. oldest ∷ [])
            (λ k. oldest ∷ [])
            s
          ≡ some s₁)
        × (transaction_pre_commit by_key by_value versions dummy
              (not b)
              txn
              (λ k. oldest ∷ [])
              (λ k. oldest ∷ [])
              s₁
            ≡ some s₂)
        × (s₁.first ≡ s.first)
        × (s₁.second ≡ s.second)
        × (s₁.context.last_cts ≡ s.context.last_cts)
        × (s₂.context.last_cts ≡ txn)
        × HasCommitted txn oldest s.first s₂.first
        × HasCommitted txn oldest s.second s₂.second
        × KeepsSnapshots txn s.context s₂.context
  unfolding transaction_pre_commit
  two_votes true now txn oldest pos s t at there one two live₁ live₂ le own later below =
      let c₁ = voted s.context txn pos t at there true in
      let (at₁, there₁) = voted-at s.context txn pos t at there true in
      let t₁ = with_status true commit t in
      let c₂ = voted c₁ txn pos t₁ at₁ there₁ false in
      let (at₂, there₂) = voted-at c₁ txn pos t₁ at₁ there₁ false in
      let (s₂, done, last, f, g, kept) =
        commit_both-total false now txn oldest pos (record s { context = c₂ })
          (with_status false commit t₁) at₂ there₂ live₁ live₂ le own later below in
      (
        record s { context = c₁ },
        s₂,
        rw
            (
              set_write_status-voted s.context txn pos t at there true,
              get_write_status-voted s.context txn pos t at there true false,
              two,
            )
            refl,
        rw
            (
              set_write_status-voted c₁ txn pos t₁ at₁ there₁ false,
              get_write_status-voted c₁ txn pos t₁ at₁ there₁ false true,
            )
            done,
        refl,
        refl,
        refl,
        last,
        f,
        g,
        λ r t' apart h. kept r t' apart (
            voted-HasSnapshot c₁ txn pos t₁ at₁ there₁ false r t' apart
              (voted-HasSnapshot s.context txn pos t at there true r t' apart h)),
      )
  two_votes false now txn oldest pos s t at there one two live₁ live₂ le own later below =
      let c₁ = voted s.context txn pos t at there false in
      let (at₁, there₁) = voted-at s.context txn pos t at there false in
      let t₁ = with_status false commit t in
      let c₂ = voted c₁ txn pos t₁ at₁ there₁ true in
      let (at₂, there₂) = voted-at c₁ txn pos t₁ at₁ there₁ true in
      let (s₂, done, last, f, g, kept) =
        commit_both-total true now txn oldest pos (record s { context = c₂ })
          (with_status true commit t₁) at₂ there₂ live₁ live₂ le own later below in
      (
        record s { context = c₁ },
        s₂,
        rw
            (
              set_write_status-voted s.context txn pos t at there false,
              get_write_status-voted s.context txn pos t at there false true,
              one,
            )
            refl,
        rw
            (
              set_write_status-voted c₁ txn pos t₁ at₁ there₁ true,
              get_write_status-voted c₁ txn pos t₁ at₁ there₁ true false,
            )
            done,
        refl,
        refl,
        refl,
        last,
        f,
        g,
        λ r t' apart h. kept r t' apart (
            voted-HasSnapshot c₁ txn pos t₁ at₁ there₁ true r t' apart
              (voted-HasSnapshot s.context txn pos t at there false r t' apart h)),
      )

  -- What a reader gets of both tables, before and behind the commit.
  unchanged :
      (txn oldest r t : ℕ) (s s₂ : States K V)
      → HasCommitted txn oldest s.first s₂.first
      → HasCommitted txn oldest s.second s₂.second
      → KeepsSnapshots txn s.context s₂.context
      → HasSnapshot r t s.context.active_txs
      → r ≢ txn
      → r ≢ 0
      → t ≢ 0
      → oldest ≤ t
      → t < txn
      → s.first.write_txn ≢ r
      → s.second.write_txn ≢ r
      → (k : K) → Repeats r k s s₂
  unchanged txn oldest r t s s₂ f g kept h apart real set_already from before own₁ own₂ k =
      let h₂ = kept r t apart h in
      (
        read_key t k s.first.tbl,
        read_key t k s.second.tbl,
        get_by_key-snapshot r t k s.first s.context h set_already own₁,
        get_by_key-snapshot r t k s₂.first s₂.context h₂ set_already
              (λ e. real (sym e ∙ f.released))
            ∙ ap (λ v. some (s₂.context, v)) (f.keeps t from before k),
        get_by_key-snapshot r t k s.second s.context h set_already own₂,
        get_by_key-snapshot r t k s₂.second s₂.context h₂ set_already
              (λ e. real (sym e ∙ g.released))
            ∙ ap (λ v. some (s₂.context, v)) (g.keeps t from before k),
      )

  -- Reads are repeatable across a commit. Let a transaction vote for its two tables, in either
  -- order, where it has voted for neither before, all records are in order with a live version and
  -- two slots at least, and each wait for a slot finds the same oldest visible version, which is the
  -- last commit or newer. Then both votes are handled, and a reader that has a snapshot already, which
  -- is older than the transaction and not older than the oldest visible version, gets from either
  -- table and for every key behind the second vote the value that it got before the first one.
  pub repeatable_read :
      (b : Bool) (now txn oldest pos r snapshot : ℕ) (s : States K V) (t : ActiveTx)
      → get_pos txn s.context.active_txs ≡ some pos
      → get_elem? s.context.active_txs pos ≡ some t
      → t.first_state ≡ active
      → t.second_state ≡ active
      → AllLive by_key by_value versions dummy now s.first.tbl
      → AllLive by_key by_value versions dummy now s.second.tbl
      → now ≤ oldest
      → oldest ≤ txn
      → now < txn
      → txn < dts_inf
      → HasSnapshot r snapshot s.context.active_txs
      → r ≢ txn
      → r ≢ 0
      → snapshot ≢ 0
      → oldest ≤ snapshot
      → snapshot < txn
      → s.first.write_txn ≢ r
      → s.second.write_txn ≢ r
      → (s₁ s₂ : States K V) × (transaction_pre_commit by_key by_value versions dummy b txn
            (λ k. oldest ∷ [])
            (λ k. oldest ∷ [])
            s
          ≡ some s₁)
        × (transaction_pre_commit by_key by_value versions dummy
              (not b)
              txn
              (λ k. oldest ∷ [])
              (λ k. oldest ∷ [])
              s₁
            ≡ some s₂)
        × ((k : K) → Repeats r k s s₂)
  repeatable_read b now txn oldest pos r snapshot s t at there one two live₁ live₂ le own later
        below h apart real set_already from before own₁ own₂ =
      let (s₁, s₂, e₁, e₂, same₁, same₂, quiet, last, f, g, kept) =
        two_votes b now txn oldest pos s t at there one two live₁ live₂ le own later below in
      (
        s₁,
        s₂,
        e₁,
        e₂,
        unchanged txn oldest r snapshot s s₂ f g kept h apart real set_already from before own₁
            own₂,
      )
