-- ===== src/Routing/Partition.antt =====
-- qop/PartitionBy.hpp, with a Queue operator for each partition: what each of these receives.
use pipefabric.Prelude.{
  ℕ, ◌≡◌, refl, ap, sym, ◌∙◌, Bool, true, false, Option, none, some, List, [], ◌∷◌, ◌++◌,
  append-nil, append_assoc, ltb, if◌then◌else◌, arith, Option-cases, inl, inr,
}
use pipefabric.Prelude.Eq.{nat_eq}
use pipefabric.Prelude.Assoc.{lookup, put, lookup-put}
use pipefabric.Stream.{Event, element, punctuation, Punctuation}

-- Each partition with the events that its queue received.
abbrev pub Partitions {ℓ} : Type ℓ → Type ℓ
Partitions A = List (ℕ × List (Event A))

module _ {ℓ} {A : Type ℓ} where
  -- The assertion on the id is a fault; std::unordered_map::insert keeps an entry that is there.
  unfoldable pub connect_channels_for_partition : ℕ → ℕ → Partitions A → Option (Partitions A)
  unfolding lookup
  connect_channels_for_partition num_partitions id s =
      if ltb id num_partitions
      then some (elim (lookup id s) [ none ↦ s ++ (id, []) ∷ [] | some q ↦ s ])
      else none

  unfoldable pub process_punctuation : Partitions A → Punctuation → Partitions A
  process_punctuation [] p = []
  process_punctuation ((id, q) ∷ s) p = (id, q ++ punctuation p ∷ []) ∷ process_punctuation s p

  unfoldable pub process_data_element : (A → ℕ) → Partitions A → A → Bool → Partitions A
  unfolding lookup put
  process_data_element func s x outdated = elim (lookup (func x) s) [
    | some q ↦ put (func x) (q ++ element x outdated ∷ []) s
    | none ↦ s
  ]

  unfoldable pub handle : (A → ℕ) → Partitions A → Event A → Partitions A
  unfolding process_data_element process_punctuation
  handle func s (element x outdated) = process_data_element func s x outdated
  handle func s (punctuation p) = process_punctuation s p

  unfoldable pub handle_each : (A → ℕ) → Partitions A → List (Event A) → Partitions A
  unfolding handle
  handle_each func s [] = s
  handle_each func s (e ∷ es) = handle_each func (handle func s e) es

  -- The part of a stream with one partition id, and all its punctuations.
  abbrev pub part : (A → ℕ) → ℕ → List (Event A) → List (Event A)
  part func id [] = []
  part func id (element x outdated ∷ es) =
      if nat_eq.beq (func x) id then element x outdated ∷ part func id es else part func id es
  part func id (punctuation p ∷ es) = punctuation p ∷ part func id es

  -- What a queue holds behind some more events, if there is a queue.
  abbrev pub followed : List (Event A) → Option (List (Event A)) → Option (List (Event A))
  followed es none = none
  followed es (some q) = some (q ++ es)

  followed-followed :
      (es fs : List (Event A)) (q : Option (List (Event A)))
      → followed fs (followed es q) ≡ followed (es ++ fs) q
  followed-followed es fs none = refl
  followed-followed es fs (some q) = ap (λ l. some l) (append_assoc q es fs)

  followed-nil : (q : Option (List (Event A))) → q ≡ followed [] q
  followed-nil none = refl
  followed-nil (some q) = ap (λ l. some l) (sym (append-nil q))

  lookup-punctuation :
      (s : Partitions A) (p : Punctuation) (id : ℕ)
      → lookup id (process_punctuation s p) ≡ followed (punctuation p ∷ []) (lookup id s)
  unfolding process_punctuation lookup
  lookup-punctuation [] p id = refl
  lookup-punctuation ((j, q) ∷ s) p id = ground (arith, lookup-punctuation s p id)

  element-dropped :
      (func : A → ℕ) (s : Partitions A) (x : A) (outdated : Bool)
      → lookup (func x) s ≡ none
      → process_data_element func s x outdated ≡ s
  unfolding process_data_element
  element-dropped func s x outdated e = ground arith

  element-kept :
      (func : A → ℕ) (s : Partitions A) (x : A) (outdated : Bool) (q : List (Event A))
      → lookup (func x) s ≡ some q
      → process_data_element func s x outdated ≡ put (func x) (q ++ element x outdated ∷ []) s
  unfolding process_data_element
  element-kept func s x outdated q e = ground arith

  lookup-element :
      (func : A → ℕ) (s : Partitions A) (x : A) (outdated : Bool) (id : ℕ)
      → lookup id (process_data_element func s x outdated) ≡ (
          if nat_eq.beq (func x) id
          then followed (element x outdated ∷ []) (lookup id s)
          else lookup id s)
  lookup-element func s x outdated id = elim (Option-cases (lookup (func x) s)) [
    | inl missing ↦
        ap (lookup id) (element-dropped func s x outdated missing)
        ∙ ground (arith, nat_eq.beq_iff (func x) id)
    | inr (q, there) ↦
        ap (lookup id) (element-kept func s x outdated q there)
        ∙ lookup-put (func x) id (q ++ element x outdated ∷ []) s
        ∙ ground (arith, nat_eq.beq_iff (func x) id)
  ]

  -- A partition that is connected receives, behind what it received before, exactly the part of the
  -- stream with its id and all the punctuations, in order; a partition that is not connected stays so,
  -- and what is meant for it is dropped.
  pub partition_run :
      (func : A → ℕ) (s : Partitions A) (es : List (Event A)) (id : ℕ)
      → lookup id (handle_each func s es) ≡ followed (part func id es) (lookup id s)
  unfolding handle_each handle
  partition_run func s [] id = followed-nil (lookup id s)
  partition_run func s (punctuation p ∷ es) id =
      partition_run func (process_punctuation s p) es id
      ∙ ap (followed (part func id es)) (lookup-punctuation s p id)
      ∙ followed-followed (punctuation p ∷ []) (part func id es) (lookup id s)
  partition_run func s (element x outdated ∷ es) id =
      partition_run func (process_data_element func s x outdated) es id
      ∙ ap (followed (part func id es)) (lookup-element func s x outdated id)
      ∙ chosen (nat_eq.beq (func x) id)
    where
      chosen :
          (hit : Bool)
          → followed
              (part func id es)
              (if hit then followed (element x outdated ∷ []) (lookup id s) else lookup id s)
            ≡ followed
                (if hit then element x outdated ∷ part func id es else part func id es)
                (lookup id s)
      chosen true = followed-followed (element x outdated ∷ []) (part func id es) (lookup id s)
      chosen false = refl
