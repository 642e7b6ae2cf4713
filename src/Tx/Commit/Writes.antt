-- ===== src/Tx/Commit/Writes.antt =====
-- transactionCommit on a whole table: what it makes visible, and to whom.
use pipefabric.Prelude.{
  ℕ, ◌≡◌, ◌≤◌, ◌<◌, refl, sym, ap, ◌∙◌, subst, true, false, Option, none, some, List, [], ◌∷◌,
  arith, if◌then◌else◌, ◌>>=◌, All, Bool-cases, Option-cases, inl, inr, length, get_elem?,
}
use pipefabric.Prelude.Eq.{Eq, beq_refl}
use pipefabric.Prelude.Assoc.{lookup, put, lookup-put}
use pipefabric.Aggr.Counters.{Comparator, same_key, same_key_iff}
use pipefabric.Tx.Version.{Slot, dts_inf, first_version, read_version}
use pipefabric.Tx.Version.Latest.{IsVersioned}
use pipefabric.Tx.Version.Progress.{update_version-total}
use pipefabric.Tx.WriteSet.Least.{IsAscending, value_of}
use pipefabric.Tx.Commit.{written_record, commit_write, commit_writes}
use pipefabric.Prelude.{some_same}
use pipefabric.Tx.Commit.Records.{
  written_record-snapshot, written_record-IsVersioned, written_record-reads,
}

module _ {ℓ} {K V : Type ℓ} ⦃key_eq : Eq K⦄ where
  -- What a snapshot reads of a key.
  unfoldable pub read_key : ℕ → K → List (K × List (Slot V)) → Option V
  read_key t k tbl = lookup k tbl >>= read_version t

  -- The records of the keys that a predicate picks are in order.
  abbrev pub IsVersionedFor : (K → Type 0) → ℕ → List (K × List (Slot V)) → Type ℓ
  IsVersionedFor P now tbl =
      (k : K) (o : List (Slot V)) → P k → lookup k tbl ≡ some o → IsVersioned now o

  pub read_key-put :
      (t : ℕ) (k j : K) (o : List (Slot V)) (tbl : List (K × List (Slot V)))
      → read_key t j (put k o tbl) ≡ (if key_eq.beq k j then read_version t o else read_key t j tbl)
  unfolding read_key
  read_key-put t k j o tbl = elim (Bool-cases (key_eq.beq k j)) [
    | inl hit ↦ rw (lookup-put k j o tbl, hit) refl
    | inr miss ↦ rw (lookup-put k j o tbl, miss) refl
  ]

  module _ (by_key : Comparator K) (by_value : Comparator V) (versions : ℕ) (dummy : V) where
    commit_write-put :
        (txn : ℕ) (rounds : List ℕ) (k : K) (v : V) (tbl tbl' : List (K × List (Slot V)))
        → commit_write by_key by_value versions dummy txn rounds k v tbl ≡ some tbl'
        → (o' : List (Slot V)) × (written_record versions dummy txn rounds v (lookup k tbl)
            ≡ some o')
          × (tbl' ≡ put k o' tbl)
    unfolding commit_write
    commit_write-put txn rounds k v tbl tbl' e =
        elim (Option-cases (written_record versions dummy txn rounds v (lookup k tbl))) [
          | inl fault ↦ absurd (cc (rw (commit_write, fault) at e))
          | inr (o', done) ↦ (o', done, ground (arith, e, done))
        ]

    commit_write-snapshot :
        (txn : ℕ) (rounds : List ℕ) (a : K) (v : V) (tbl tbl' : List (K × List (Slot V))) (t : ℕ)
        → commit_write by_key by_value versions dummy txn rounds a v tbl ≡ some tbl'
        → All (λ r. r ≤ t) rounds
        → t < txn
        → (k : K) → read_key t k tbl' ≡ read_key t k tbl
    commit_write-snapshot txn rounds a v tbl tbl' t e le lt k =
        let (o', written, is_put) = commit_write-put txn rounds a v tbl tbl' e in
        let before : read_version t o' ≡ read_key t a tbl =
          unfold read_key in
          written_record-snapshot versions dummy txn rounds v (lookup a tbl) o' t written le lt in
        ap (read_key t k) is_put ∙ read_key-put t a k o' tbl ∙ elim (Bool-cases (key_eq.beq a k)) [
          | inl hit ↦ rw hit (before ∙ ap (λ j. read_key t j tbl) ((key_eq.beq_iff a k).0 hit))
          | inr miss ↦ rw miss refl
        ]

    -- A snapshot before the transaction reads what it read before.
    pub commit_writes-snapshot :
        (txn : ℕ) (rounds : K → List ℕ) (ws : List (K × V)) (tbl tbl' : List (K × List (Slot V)))
        (t : ℕ)
        → commit_writes by_key by_value versions dummy txn rounds ws tbl ≡ some tbl'
        → ((k : K) → All (λ r. r ≤ t) (rounds k))
        → t < txn
        → (k : K) → read_key t k tbl' ≡ read_key t k tbl
    unfolding commit_writes
    commit_writes-snapshot txn rounds [] tbl tbl' t e le lt k =
        ap (read_key t k) (sym (some_same e))
    commit_writes-snapshot txn rounds ((a, v) ∷ ws) tbl tbl' t e le lt k =
        elim (Option-cases (commit_write by_key by_value versions dummy txn (rounds a) a v tbl)) [
          | inl fault ↦ absurd (cc (rw fault at e))
          | inr (tbl₁, done) ↦
              commit_writes-snapshot txn rounds ws tbl₁ tbl' t (rw done at e) le lt k
              ∙ commit_write-snapshot txn (rounds a) a v tbl tbl₁ t done (le a) lt k
        ]

    -- The key is written once at most.
    abbrev pub IsWritten : List (K × V) → K → Type ℓ
    IsWritten ws k = (v : V) × (value_of by_key by_value k ws ≡ some v)

    abbrev pub IsOnce : List (K × V) → Type ℓ
    IsOnce [] = Unit
    IsOnce ((a, v) ∷ ws) = (value_of by_key by_value a ws ≡ none) × IsOnce ws

    commit_write-other :
        (txn : ℕ) (rounds : List ℕ) (a k : K) (v : V) (tbl tbl' : List (K × List (Slot V)))
        → commit_write by_key by_value versions dummy txn rounds a v tbl ≡ some tbl'
        → key_eq.beq a k ≡ false
        → lookup k tbl' ≡ lookup k tbl
    commit_write-other txn rounds a k v tbl tbl' e miss =
        let (o', written, is_put) = commit_write-put txn rounds a v tbl tbl' e in
        ap (lookup k) is_put ∙ lookup-put a k o' tbl ∙ rw miss refl

    written_other :
        (a k : K) (v w : V) (ws : List (K × V))
        → value_of by_key by_value a ws ≡ none
        → value_of by_key by_value k ws ≡ some w
        → key_eq.beq a k ≡ false
    written_other a k v w ws none_left e = elim (Bool-cases (key_eq.beq a k)) [
      | inl hit ↦ absurd (
          cc (
            subst (λ x. value_of by_key by_value x ws ≡ none) ((key_eq.beq_iff a k).0 hit)
                none_left,
            e,
          ))
      | inr miss ↦ miss
    ]

    value_of-cons :
        (a k : K) (v : V) (ws : List (K × V))
        → value_of by_key by_value k ((a, v) ∷ ws)
          ≡ (if key_eq.beq a k then some v else value_of by_key by_value k ws)
    unfolding value_of
    value_of-cons a k v ws = elim (Bool-cases (key_eq.beq a k)) [
      | inl hit ↦
          let same : same_key by_key k a ≡ true =
            (same_key_iff by_key k a).1 (sym ((key_eq.beq_iff a k).0 hit)) in
          rw (hit, same) refl
      | inr miss ↦ elim (Bool-cases (same_key by_key k a)) [
        | inl same ↦
            absurd (cc ((key_eq.beq_iff a k).1 (sym ((same_key_iff by_key k a).0 same)), miss))
        | inr other ↦ rw (miss, other) refl
      ]
    ]

    -- The records that are still to be written were in order when the transaction began to commit.
    abbrev pub IsReadyFor : ℕ → List (K × V) → List (K × List (Slot V)) → Type ℓ
    IsReadyFor now ws tbl =
        (k : K) (o : List (Slot V)) → IsWritten ws k → lookup k tbl ≡ some o → IsVersioned now o

    ready_behind :
        (now txn : ℕ) (rounds : List ℕ) (a : K) (v : V) (ws : List (K × V))
        (tbl tbl' : List (K × List (Slot V)))
        → commit_write by_key by_value versions dummy txn rounds a v tbl ≡ some tbl'
        → value_of by_key by_value a ws ≡ none
        → IsReadyFor now ((a, v) ∷ ws) tbl
        → IsReadyFor now ws tbl'
    ready_behind now txn rounds a v ws tbl tbl' e once ready k o (w, is_w) found =
        let apart = written_other a k v w ws once is_w in
        ready k o (w, value_of-cons a k v ws ∙ rw apart is_w)
          (sym (commit_write-other txn rounds a k v tbl tbl' e apart) ∙ found)

    ready_first :
        (now : ℕ) (a : K) (v : V) (ws : List (K × V)) (tbl : List (K × List (Slot V)))
        → IsReadyFor now ((a, v) ∷ ws) tbl
        → (x : List (Slot V)) → lookup a tbl ≡ some x
        → IsVersioned now x
    ready_first now a v ws tbl ready x found =
        ready a x (v, value_of-cons a a v ws ∙ rw (beq_refl a) refl) found

    -- What is read behind the write of a transaction, if there is one.
    abbrev pub overlay : Option V → Option V → Option V
    overlay none old = old
    overlay (some v) old = some v

    pub commit_writes-read_key :
        (now txn : ℕ) (rounds : K → List ℕ) (ws : List (K × V))
        (tbl tbl' : List (K × List (Slot V))) (t : ℕ)
        → commit_writes by_key by_value versions dummy txn rounds ws tbl ≡ some tbl'
        → IsOnce ws
        → IsReadyFor now ws tbl
        → now < txn
        → txn ≤ t
        → t < dts_inf
        → ((k : K) → All (λ r. r ≤ txn) (rounds k))
        → (k : K) → read_key t k tbl' ≡ overlay (value_of by_key by_value k ws) (read_key t k tbl)
    unfolding commit_writes value_of
    commit_writes-read_key now txn rounds [] tbl tbl' t e once ready later from below le k =
        ap (read_key t k) (sym (some_same e))
    commit_writes-read_key now txn rounds ((a, v) ∷ ws) tbl tbl' t e once ready later from below le
          k =
        elim (Option-cases (commit_write by_key by_value versions dummy txn (rounds a) a v tbl)) [
          | inl fault ↦ absurd (cc (rw fault at e))
          | inr (tbl₁, done) ↦
              let (o', written, is_put) = commit_write-put txn (rounds a) a v tbl tbl₁ done in
              let rest =
                commit_writes-read_key now txn rounds ws tbl₁ tbl' t (rw done at e) once.1
                  (ready_behind now txn (rounds a) a v ws tbl tbl₁ done once.0 ready) later from
                  below le k in
              let here = ap (read_key t k) is_put ∙ read_key-put t a k o' tbl in
              let new =
                written_record-reads versions dummy now txn (rounds a) v (lookup a tbl) o' t
                  (ready_first now a v ws tbl ready) later from below (le a) written in
              elim (Bool-cases (key_eq.beq a k)) [
                | inl hit ↦
                    let cons : value_of by_key by_value k ((a, v) ∷ ws) ≡ some v =
                      value_of-cons a k v ws ∙ rw hit refl in
                    let gone =
                      subst (λ x. value_of by_key by_value x ws ≡ none) ((key_eq.beq_iff a k).0 hit)
                        once.0 in
                    let seen : read_key t k tbl₁ ≡ some v = here ∙ rw hit new in
                    rest
                    ∙ ap (λ o. overlay o (read_key t k tbl₁)) gone
                    ∙ seen
                    ∙ sym (ap (λ o. overlay o (read_key t k tbl)) cons)
                | inr miss ↦
                    let cons : value_of by_key by_value k ((a, v) ∷ ws)
                        ≡ value_of by_key by_value k ws =
                      value_of-cons a k v ws ∙ rw miss refl in
                    let seen : read_key t k tbl₁ ≡ read_key t k tbl = here ∙ rw miss refl in
                    rest
                    ∙ ap (overlay (value_of by_key by_value k ws)) seen
                    ∙ sym (ap (λ o. overlay o (read_key t k tbl)) cons)
              ]
        ]

    -- All records are in order after the commit.
    pub commit_writes-IsVersioned :
        (now txn : ℕ) (rounds : K → List ℕ) (ws : List (K × V))
        (tbl tbl' : List (K × List (Slot V)))
        → commit_writes by_key by_value versions dummy txn rounds ws tbl ≡ some tbl'
        → IsOnce ws
        → IsReadyFor now ws tbl
        → ((k : K) (o : List (Slot V)) → lookup k tbl ≡ some o → IsVersioned txn o)
        → now < txn
        → txn < dts_inf
        → ((k : K) → All (λ r. r ≤ txn) (rounds k))
        → (k : K) (o : List (Slot V)) → lookup k tbl' ≡ some o
        → IsVersioned txn o
    unfolding commit_writes
    commit_writes-IsVersioned now txn rounds [] tbl tbl' e once ready all later below le k o found =
        all k o (subst (λ x. lookup k x ≡ some o) (sym (some_same e)) found)
    commit_writes-IsVersioned now txn rounds ((a, v) ∷ ws) tbl tbl' e once ready all later below le
          k o found =
        elim (Option-cases (commit_write by_key by_value versions dummy txn (rounds a) a v tbl)) [
          | inl fault ↦ absurd (cc (rw fault at e))
          | inr (tbl₁, done) ↦
              let (o', written, is_put) = commit_write-put txn (rounds a) a v tbl tbl₁ done in
              let new =
                written_record-IsVersioned versions dummy now txn (rounds a) v (lookup a tbl) o'
                  (ready_first now a v ws tbl ready) later below (le a) written in
              commit_writes-IsVersioned now txn rounds ws tbl₁ tbl' (rw done at e) once.1
                (ready_behind now txn (rounds a) a v ws tbl tbl₁ done once.0 ready)
                (λ j x at_j.
                  let put_found : (if key_eq.beq a j then some o' else lookup j tbl) ≡ some x =
                    sym (lookup-put a j o' tbl) ∙ ap (lookup j) (sym is_put) ∙ at_j in
                  elim (Bool-cases (key_eq.beq a j)) [
                    | inl hit ↦ subst (IsVersioned txn) (some_same (rw hit at put_found)) new
                    | inr miss ↦ all j x (rw miss at put_found)
                  ])
                later below le k o found
        ]

    pub ascending-IsOnce : (ws : List (K × V)) → IsAscending by_key by_value ws → IsOnce ws
    unfolding value_of
    ascending-IsOnce [] h = tt
    ascending-IsOnce ((a, v) ∷ ws) h = (above a ws h.0, ascending-IsOnce ws h.1)
      where
        above :
            (b : K) (us : List (K × V))
            → All (λ x. by_key.less b x.0 ≡ true) us
            → value_of by_key by_value b us ≡ none
        above b [] h = refl
        above b ((k, w) ∷ us) h = ground (arith, h.0, above b us h.1)

    pub later-IsVersioned :
        (now txn : ℕ) (o : List (Slot V))
        → now < txn
        → txn < dts_inf
        → IsVersioned now o
        → IsVersioned txn o
    later-IsVersioned now txn o later below inv = record {
      created = λ k s e u. omega (arith, inv.created k s e u);
      ended = λ k s e u. ground (arith, inv.ended k s e u);
      one_live = inv.one_live;
      before_inf = below;
    }

    -- A record that can be updated: two slots at least, and a live version.
    pub record IsLive (now : ℕ) (o : List (Slot V)) : Type ℓ where
      pub versioned : IsVersioned now o
      pub slots : 2 ≤ length o
      pub at : ℕ
      pub live : Slot V
      pub found : get_elem? o at ≡ some live
      pub is_used : live.used ≡ true
      pub endless : live.dts ≡ dts_inf

    abbrev pub AllLive : ℕ → List (K × List (Slot V)) → Type ℓ
    AllLive now tbl = (k : K) (o : List (Slot V)) → lookup k tbl ≡ some o → IsLive now o

    written_record-total :
        (now txn oldest : ℕ) (v : V) (o : Option (List (Slot V)))
        → ((x : List (Slot V)) → o ≡ some x → IsLive now x)
        → now ≤ oldest
        → now < txn
        → txn < dts_inf
        → (o' : List (Slot V)) × (written_record versions dummy txn (oldest ∷ []) v o ≡ some o')
    unfolding written_record
    written_record-total now txn oldest v none live le later below =
        (first_version txn v versions dummy, refl)
    written_record-total now txn oldest v (some o) live le later below =
        let l = live o refl in
        update_version-total now txn oldest v o l.at l.live l.versioned l.slots le later below
          l.found l.is_used l.endless

    pub commit_writes-total :
        (now txn oldest : ℕ) (ws : List (K × V)) (tbl : List (K × List (Slot V)))
        → IsOnce ws
        → ((k : K) (o : List (Slot V)) → IsWritten ws k → lookup k tbl ≡ some o → IsLive now o)
        → now ≤ oldest
        → now < txn
        → txn < dts_inf
        → (tbl' : List (K × List (Slot V))) × (commit_writes by_key by_value versions dummy txn
              (λ k. oldest ∷ [])
              ws
              tbl
            ≡ some tbl')
    unfolding commit_writes commit_write
    commit_writes-total now txn oldest [] tbl once live le later below = (tbl, refl)
    commit_writes-total now txn oldest ((a, v) ∷ ws) tbl once live le later below =
        let (o', written) =
          written_record-total now txn oldest v (lookup a tbl)
            (λ x found. live a x (v, value_of-cons a a v ws ∙ rw (beq_refl a) refl) found) le later
            below in
        let (tbl', rest) =
          commit_writes-total now txn oldest ws (put a o' tbl) once.1
            (λ k o (is_written : IsWritten ws k) found.
              let apart = written_other a k v is_written.0 ws once.0 is_written.1 in
              live k o (is_written.0, value_of-cons a k v ws ∙ rw apart is_written.1)
                (sym (lookup-put a k o' tbl ∙ rw apart refl) ∙ found))
            le later below in
        (tbl', rw written rest)
