-- ===== src/Tx/Locking/Held.antt =====
-- The calls of S2PLTable against the keys that are written by a transaction that has not ended.
use pipefabric.Prelude.{
  ℕ, ◌≡◌, refl, ◌∙◌, sym, ap, subst, Bool, true, false, ◌||◌, Option, none, some, List, [], ◌∷◌,
  ◌++◌, arith, ◌>>=◌,
}
use pipefabric.Prelude.Eq.{Eq}
use pipefabric.Prelude.{some_same}
use pipefabric.Tx.Locking.{
  Answer, abort, not_found, success, S2plTable, Call, inserts, deletes, reads, cleans, commits,
  aborts, insert, Reader, delete_by_key, read_locked, get_by_key, clean_up_reads,
  transaction_commit, transaction_abort, perform, run, open_after, is_open, lock_shared,
  lock_exclusive,
}
use pipefabric.Tx.Locking.Flags.{
  writer, lock_shared-writer, unlock_shared-writer, lock_exclusive-writer, unlock_each-writer,
}
use pipefabric.Tx.Validation.{contains}

abbrev pub is_abort {ℓ} : {R : Type ℓ} → Answer R → Bool
is_abort abort = true
is_abort not_found = false
is_abort (success r) = false

-- A step that has gone on.
pub bind-inv {ℓ κ} :
    {A : Type ℓ} {B : Type κ} (o : Option A) (f : A → Option B) (b : B)
    → o >>= f ≡ some b
    → (a : A) × (o ≡ some a) × (f a ≡ some b)
bind-inv none f b h = ground arith
bind-inv (some a) f b h = (a, refl, h)

module _ {ℓ} {K : Type ℓ} ⦃key_eq : Eq K⦄ where
  contains-snoc :
      (ks : List K) (k j : K) → contains (ks ++ k ∷ []) j ≡ (key_eq.beq k j || contains ks j)
  unfolding contains
  contains-snoc [] k j = refl
  contains-snoc (i ∷ ks) k j = ground (arith, contains-snoc ks k j)

module _ {ℓ} {K R : Type ℓ} ⦃key_eq : Eq K⦄ where
  -- The flags are those of the keys in wKeysLocked.
  abbrev pub IsHeld : S2plTable K R → Type ℓ
  IsHeld t = (k : K) → writer k t.locks ≡ contains t.w_keys_locked k

  get_by_key-writer :
      (k j : K) (t : S2plTable K R) → writer j (get_by_key k t).0.locks ≡ writer j t.locks
  unfolding get_by_key read_locked
  get_by_key-writer k j t =
      ground
        (arith, lock_shared-writer k j t.locks, unlock_shared-writer k j (lock_shared k t.locks).0)

  get_by_key-keys : (k : K) (t : S2plTable K R) → (get_by_key k t).0.w_keys_locked ≡ t.w_keys_locked
  unfolding get_by_key read_locked
  get_by_key-keys k t = ground arith

  clean_up_reads-writer :
      (ks : List K) (j : K) (t : S2plTable K R)
      → writer j (clean_up_reads ks t).locks ≡ writer j t.locks
  unfolding clean_up_reads
  clean_up_reads-writer [] j t = refl
  clean_up_reads-writer (k ∷ ks) j t =
      clean_up_reads-writer ks j _ ∙ unlock_shared-writer k j t.locks

  clean_up_reads-keys :
      (ks : List K) (t : S2plTable K R) → (clean_up_reads ks t).w_keys_locked ≡ t.w_keys_locked
  unfolding clean_up_reads
  clean_up_reads-keys [] t = refl
  clean_up_reads-keys (k ∷ ks) t = clean_up_reads-keys ks _

  -- A read aborts where the flag is set, and nowhere else.
  pub get_by_key-is_abort :
      (k : K) (t : S2plTable K R) → is_abort (get_by_key k t).1 ≡ writer k t.locks
  unfolding get_by_key read_locked lock_shared
  get_by_key-is_abort k t = ground arith

  -- insert and delete_by_key set the flag of their key, and push it.
  insert-locked :
      (rs : List (Reader K)) (k : K) (r : R) (t t' : S2plTable K R)
      → insert rs k r t ≡ some t'
      → (lock_exclusive k rs t.locks ≡ some t'.locks)
        × (t'.w_keys_locked ≡ t.w_keys_locked ++ k ∷ [])
  unfolding insert
  insert-locked rs k r t t' h =
      let (l, e, q) = bind-inv (lock_exclusive k rs t.locks) _ t' h in
      (e ∙ ap (λ u. some u.locks) (some_same q), ap (λ u. u.w_keys_locked) (sym (some_same q)))

  delete_by_key-locked :
      (rs : List (Reader K)) (k : K) (t : S2plTable K R) (d : S2plTable K R × ℕ)
      → delete_by_key rs k t ≡ some d
      → (lock_exclusive k rs t.locks ≡ some d.0.locks)
        × (d.0.w_keys_locked ≡ t.w_keys_locked ++ k ∷ [])
  unfolding delete_by_key
  delete_by_key-locked rs k t d h =
      let (l, e, q) = bind-inv (lock_exclusive k rs t.locks) _ d h in
      (e ∙ ap (λ u. some u.0.locks) (some_same q), ap (λ u. u.0.w_keys_locked) (sym (some_same q)))

  -- The flags after a call, from those before.
  perform-writer :
      (c : Call K R) (k : K) (t t' : S2plTable K R)
      → IsHeld t
      → perform c t ≡ some t'
      → writer k t'.locks ≡ open_after k c (writer k t.locks)
  unfolding perform open_after insert delete_by_key transaction_commit transaction_abort
  perform-writer (inserts rs j r) k t t' i h =
      lock_exclusive-writer j k rs t.locks t'.locks (insert-locked rs j r t t' h).0
  perform-writer (deletes rs j) k t t' i h =
      let (d, e, q) = bind-inv (delete_by_key rs j t) _ t' h in
      subst (λ u. writer k u.locks ≡ (key_eq.beq j k || writer k t.locks)) (some_same q)
        (lock_exclusive-writer j k rs t.locks d.0.locks (delete_by_key-locked rs j t d e).0)
  perform-writer (reads j) k t t' i h = ground (arith, get_by_key-writer j k t)
  perform-writer (cleans ks) k t t' i h = ground (arith, clean_up_reads-writer ks k t)
  perform-writer commits k t t' i h =
      ground (arith, unlock_each-writer t.w_keys_locked k t.locks, i k)
  perform-writer aborts k t t' i h =
      ground (arith, unlock_each-writer t.w_keys_locked k t.locks, i k)

  perform-keys :
      (c : Call K R) (k : K) (t t' : S2plTable K R)
      → perform c t ≡ some t'
      → contains t'.w_keys_locked k ≡ open_after k c (contains t.w_keys_locked k)
  unfolding perform open_after insert delete_by_key transaction_commit transaction_abort contains
  perform-keys (inserts rs j r) k t t' h =
      ap (λ ks. contains ks k) (insert-locked rs j r t t' h).1 ∙ contains-snoc t.w_keys_locked j k
  perform-keys (deletes rs j) k t t' h =
      let (d, e, q) = bind-inv (delete_by_key rs j t) _ t' h in
      ap (λ u. contains u.w_keys_locked k) (sym (some_same q))
      ∙ ap (λ ks. contains ks k) (delete_by_key-locked rs j t d e).1
      ∙ contains-snoc t.w_keys_locked j k
  perform-keys (reads j) k t t' h = ground (arith, get_by_key-keys j t)
  perform-keys (cleans ks) k t t' h = ground (arith, clean_up_reads-keys ks t)
  perform-keys commits k t t' h = ap (λ u. contains u.w_keys_locked k) (sym (some_same h))
  perform-keys aborts k t t' h = ap (λ u. contains u.w_keys_locked k) (sym (some_same h))

  pub perform-IsHeld :
      (c : Call K R) (t t' : S2plTable K R) → IsHeld t → perform c t ≡ some t' → IsHeld t'
  perform-IsHeld c t t' i h k =
      perform-writer c k t t' i h ∙ ap (open_after k c) (i k) ∙ sym (perform-keys c k t t' h)

  pub run-IsHeld_and_writer :
      (cs : List (Call K R)) (t t' : S2plTable K R)
      → IsHeld t
      → run cs t ≡ some t'
      → IsHeld t' × ((k : K) → writer k t'.locks ≡ is_open k cs (writer k t.locks))
  unfolding run is_open
  run-IsHeld_and_writer [] t t' i h =
      subst (λ u. IsHeld u × ((k : K) → writer k u.locks ≡ writer k t.locks)) (some_same h)
        (i, λ k. refl)
  run-IsHeld_and_writer (c ∷ cs) t t' i h =
      let (u, e, q) = bind-inv (perform c t) (run cs) t' h in
      let rest = run-IsHeld_and_writer cs u t' (perform-IsHeld c t u i e) q in
      (rest.0, λ k. rest.1 k ∙ ap (is_open k cs) (perform-writer c k t u i e))
