-- ===== src/Tx/Version/Access.antt =====
-- What get_current and the writes of a slot do, seen slot by slot.
use mathlib.Core.Option
use pipefabric.Prelude.{
  ◌≤◌, map, ℕ, zero, suc, ◌≡◌, ◌<◌, refl, true, false, Option, none, some, List, [], ◌∷◌, length,
  get_elem?, set, arith, if◌then◌else◌, Bool-cases, inl, inr,
}
use pipefabric.Tx.Version.{
  Slot, first_free, clean_up_versions, clean_slot, visible, get_current, read_version,
}

map-some : (o : Option ℕ) (d : ℕ) → Option.map suc o ≡ some d → (i : ℕ) × (o ≡ some i) × (d ≡ suc i)
map-some none d e = absurd (cc)
map-some (some i) d e = (i, refl, ground arith)

module _ {ℓ} {A : Type ℓ} where
  -- A reader takes the value of the first slot that it sees.
  pub read_version-cons :
      (t : ℕ) (s : Slot A) (ss : List (Slot A))
      → read_version t (s ∷ ss) ≡ (if visible t s then some s.value else read_version t ss)
  unfolding read_version get_current
  read_version-cons t s ss = ground arith

  pub read_version-nil : (t : ℕ) → read_version {A = A} t [] ≡ none
  unfolding read_version get_current
  read_version-nil t = refl

  -- A write of a slot that a reader sees as before does not change what it reads.
  pub read_version-set :
      (t : ℕ) (o : List (Slot A)) (k : ℕ) (s s' : Slot A)
      → get_elem? o k ≡ some s
      → visible t s' ≡ visible t s
      → (visible t s ≡ true → s'.value ≡ s.value)
      → read_version t (set o k s') ≡ read_version t o
  read_version-set t [] k s s' e same val = refl
  read_version-set t (x ∷ o) zero s s' e same val =
      ground (arith, read_version-cons t s' o, read_version-cons t x o)
  read_version-set t (x ∷ o) (suc k) s s' e same val = ground (
    arith,
    read_version-cons t x (set o k s'),
    read_version-cons t x o,
    read_version-set t o k s s' e same val,
  )

  -- Where all slots that a reader sees hold one value, and it sees one, it reads that value.
  pub read_version-all :
      (t : ℕ) (o : List (Slot A)) (k : ℕ) (s : Slot A) (v : A)
      → get_elem? o k ≡ some s
      → visible t s ≡ true
      → ((i : ℕ) (x : Slot A) → get_elem? o i ≡ some x → visible t x ≡ true → x.value ≡ v)
      → read_version t o ≡ some v
  read_version-all t [] k s v e seen all = cc
  read_version-all t (x ∷ o) zero s v e seen all =
      ground (arith, read_version-cons t x o, all 0 x refl)
  read_version-all t (x ∷ o) (suc k) s v e seen all = ground (
    arith,
    read_version-cons t x o,
    all 0 x refl,
    read_version-all t o k s v e seen (λ i. all (suc i)),
  )

  -- The slot that get_current names is one that the reader sees.
  pub get_current-visible :
      (t : ℕ) (o : List (Slot A)) (d : ℕ)
      → get_current t o ≡ some d
      → (s : Slot A) × (get_elem? o d ≡ some s) × (visible t s ≡ true)
  unfolding get_current
  get_current-visible t [] d e = absurd (cc)
  get_current-visible t (x ∷ o) d e = elim (Bool-cases (visible t x)) [
    | inl shown ↦ (x, ground arith, shown)
    | inr hidden ↦
        let (i, e₁, same) = map-some (get_current t o) d (rw hidden at e) in
        let (s, found, seen) = get_current-visible t o i e₁ in (s, rw same found, seen)
  ]

  -- The first free slot is there, and free.
  pub first_free-unused :
      (o : List (Slot A))
      → first_free o < length o
      → (s : Slot A) × (get_elem? o (first_free o) ≡ some s) × (s.used ≡ false)
  unfolding first_free
  first_free-unused [] h = elim h [ ]
  first_free-unused (x ∷ o) h = elim (Bool-cases x.used) [
    | inl taken ↦ let (s, e, free) = first_free-unused o (ground arith) in (s, ground arith, free)
    | inr free ↦ (x, ground arith, free)
  ]

  -- Cleaning up to `oldest` changes nothing that is seen from `oldest` on, nor a slot that is not
  -- yet deleted then.
  pub read_version-clean :
      (t oldest : ℕ) (o : List (Slot A))
      → oldest ≤ t
      → read_version t (clean_up_versions oldest o) ≡ read_version t o
  unfolding clean_up_versions
  read_version-clean t oldest [] h = refl
  read_version-clean t oldest (x ∷ o) h = ground (
    arith,
    read_version-cons t (clean_slot oldest x) (map (clean_slot oldest) o),
    read_version-cons t x o,
    read_version-clean t oldest o h,
  )

  pub get_elem?-clean :
      (oldest : ℕ) (o : List (Slot A)) (k : ℕ)
      → get_elem? (clean_up_versions oldest o) k ≡ Option.map (clean_slot oldest) (get_elem? o k)
  unfolding clean_up_versions
  get_elem?-clean oldest [] k = refl
  get_elem?-clean oldest (x ∷ o) zero = refl
  get_elem?-clean oldest (x ∷ o) (suc k) = get_elem?-clean oldest o k

  pub get_elem?-set_there :
      (o : List (Slot A)) (k : ℕ) (s s' : Slot A)
      → get_elem? o k ≡ some s
      → get_elem? (set o k s') k ≡ some s'
  get_elem?-set_there [] k s s' e = cc
  get_elem?-set_there (x ∷ o) zero s s' e = refl
  get_elem?-set_there (x ∷ o) (suc k) s s' e = get_elem?-set_there o k s s' e
