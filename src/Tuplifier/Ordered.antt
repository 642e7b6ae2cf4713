-- ===== src/Tuplifier/Ordered.antt =====
-- The ordered mode: a row for each group of neighbouring triples with one subject.

use pipefabric.Prelude.{
  ◌≡◌, refl, sym, ap, ◌∙◌, subst, true, false, List, [], ◌∷◌, ◌++◌, if◌then◌else◌, Bool-cases, inl,
  inr, append_assoc, append-nil,
}
use pipefabric.Prelude.Eq.{Eq}
use pipefabric.Tuplifier.{Triple, is_some}
use pipefabric.Tuplifier.Rows.{position, row_of}

module _ {ℓ} {S : Type ℓ} ⦃key_eq : Eq S⦄ where
  -- Neighbouring triples with one subject, as groups.
  abbrev pub put_before : Triple S → List (List (Triple S)) → List (List (Triple S))
  put_before t [] = (t ∷ []) ∷ []
  put_before t ([] ∷ gs) = (t ∷ []) ∷ gs
  put_before t ((u ∷ us) ∷ gs) =
      if key_eq.beq u.subject t.subject then (t ∷ u ∷ us) ∷ gs else (t ∷ []) ∷ (u ∷ us) ∷ gs

  unfoldable pub groups : List (Triple S) → List (List (Triple S))
  groups [] = []
  groups (t ∷ ts) = put_before t (groups ts)

  module _ (empty : S) (ps : List S) where
    -- The triples whose predicate is in the schema.
    unfoldable pub needed : List (Triple S) → List (Triple S)
    needed [] = []
    needed (t ∷ ts) =
        let rest = needed ts in if is_some (position t.predicate ps) then t ∷ rest else rest

    -- The row of the triples of a subject, if there are any.
    unfoldable pub rows_of : List (Triple S) → List (List S)
    rows_of [] = []
    rows_of (t ∷ ts) = row_of empty ps t.subject (t ∷ ts) ∷ []

    unfoldable pub group_rows : List (List (Triple S)) → List (List S)
    group_rows [] = []
    group_rows (g ∷ gs) = rows_of (needed g) ++ group_rows gs

    -- The rows behind a group that has begun already, with the subject `k`.
    unfoldable pub chunk : S → List (Triple S) → List (Triple S) → List (List S)
    chunk k pend [] = rows_of pend
    chunk k pend (t ∷ ts) =
        if key_eq.beq t.subject k
        then chunk k (pend ++ needed (t ∷ [])) ts
        else rows_of pend ++ chunk t.subject (needed (t ∷ [])) ts

    abbrev joined : S → List (Triple S) → List (List (Triple S)) → List (List S)
    joined k pend [] = rows_of pend
    joined k pend ([] ∷ gs) = rows_of pend ++ group_rows gs
    joined k pend ((u ∷ us) ∷ gs) =
        if key_eq.beq u.subject k
        then rows_of (pend ++ needed (u ∷ us)) ++ group_rows gs
        else rows_of pend ++ (rows_of (needed (u ∷ us)) ++ group_rows gs)

    needed-append : (ts us : List (Triple S)) → needed (ts ++ us) ≡ needed ts ++ needed us
    unfolding needed
    needed-append [] us = refl
    needed-append (t ∷ ts) us = elim (Bool-cases (is_some (position t.predicate ps))) [
      | inl hit ↦ rw hit (ap (◌∷◌ t) (needed-append ts us))
      | inr miss ↦ rw miss (needed-append ts us)
    ]

    -- One more triple at the front of the groups.
    joined-put_before :
        (k : S) (pend : List (Triple S)) (t : Triple S) (gs : List (List (Triple S)))
        → joined k pend (put_before t gs) ≡ (
            if key_eq.beq t.subject k
            then joined k (pend ++ needed (t ∷ [])) gs
            else rows_of pend ++ joined t.subject (needed (t ∷ [])) gs)
    unfolding group_rows
    joined-put_before k pend t [] = elim (Bool-cases (key_eq.beq t.subject k)) [
      | inl hit ↦ rw hit (append-nil (rows_of (pend ++ needed (t ∷ []))))
      | inr miss ↦ rw miss (ap (◌++◌ (rows_of pend)) (append-nil (rows_of (needed (t ∷ [])))))
    ]
    joined-put_before k pend t ([] ∷ gs) = elim (Bool-cases (key_eq.beq t.subject k)) [
      | inl hit ↦ rw hit refl
      | inr miss ↦ rw miss refl
    ]
    joined-put_before k pend t ((u ∷ us) ∷ gs) =
        elim (Bool-cases (key_eq.beq u.subject t.subject)) [
          | inl same ↦ elim (Bool-cases (key_eq.beq t.subject k)) [
            | inl hit ↦
                let also : key_eq.beq u.subject k ≡ true =
                  subst (λ x. key_eq.beq u.subject x ≡ true) ((key_eq.beq_iff t.subject k).0 hit)
                    same in
                rw (same, hit, also)
                  (ap (λ l. rows_of l ++ group_rows gs)
                    (ap (◌++◌ pend) (needed-append (t ∷ []) (u ∷ us))
                      ∙ sym (append_assoc pend (needed (t ∷ [])) (needed (u ∷ us)))))
            | inr miss ↦
                rw (same, miss)
                  (ap (λ l. rows_of pend ++ (rows_of l ++ group_rows gs))
                    (needed-append (t ∷ []) (u ∷ us)))
          ]
          | inr other ↦ elim (Bool-cases (key_eq.beq t.subject k)) [
            | inl hit ↦
                let also : key_eq.beq u.subject k ≡ false =
                  subst (λ x. key_eq.beq u.subject x ≡ false) ((key_eq.beq_iff t.subject k).0 hit)
                    other in
                rw (other, hit, also) refl
            | inr miss ↦ rw (other, miss) refl
          ]
        ]

    chunk-joined : (k : S) (pend ts : List (Triple S)) → chunk k pend ts ≡ joined k pend (groups ts)
    unfolding chunk groups
    chunk-joined k pend [] = refl
    chunk-joined k pend (t ∷ ts) =
        elim (Bool-cases (key_eq.beq t.subject k)) [
          | inl hit ↦ rw hit (chunk-joined k (pend ++ needed (t ∷ [])) ts)
          | inr miss ↦
              rw miss (ap (◌++◌ (rows_of pend)) (chunk-joined t.subject (needed (t ∷ [])) ts))
        ]
        ∙ sym (joined-put_before k pend t (groups ts))

    -- From the first triple on.
    pub chunk-groups :
        (t : Triple S) (ts : List (Triple S))
        → chunk t.subject (needed (t ∷ [])) ts ≡ group_rows (groups (t ∷ ts))
    unfolding groups group_rows
    chunk-groups t ts = chunk-joined t.subject (needed (t ∷ [])) ts ∙ first (groups ts)
      where
        first :
            (gs : List (List (Triple S)))
            → joined t.subject (needed (t ∷ [])) gs ≡ group_rows (put_before t gs)
        first [] = sym (append-nil (rows_of (needed (t ∷ []))))
        first ([] ∷ gs) = refl
        first ((u ∷ us) ∷ gs) = elim (Bool-cases (key_eq.beq u.subject t.subject)) [
          | inl same ↦
              rw same (ap (λ l. rows_of l ++ group_rows gs) (sym (needed-append (t ∷ []) (u ∷ us))))
          | inr other ↦ rw other refl
        ]
