-- ===== src/Tuplifier.antt =====
-- qop/Tuplifier.hpp: triples are gathered by their subject, and published as the row of a schema of
-- predicates. Strings are a type with an equality and an empty value; the tuple that is created from
-- a row is the row. The order of the buffer's list stands for that of its hash table. A fault
-- (`none`) is an index out of the row's range, or the front of an empty list.
pub mod Rows
pub mod Ordered
pub mod Run
pub mod Tests
use pipefabric.Prelude.{
  ℕ, suc, ◌+◌, ◌≡◌, Bool, true, false, ◌||◌, Option, none, some, List, [], ◌∷◌, ◌++◌, length,
  replicate, set, ltb, ◌==◌, if◌then◌else◌, ◌>>=◌, inc32,
}
use pipefabric.Prelude.Eq.{Eq}
use pipefabric.Prelude.Assoc.{lookup, put, without}
use pipefabric.Stream.{Event, Punctuation, element, punctuation, all_fresh}

-- TuplifierParams::TuplifyMode
pub data TuplifyMode : Type 0 where
  ordered window punctuated completed : TuplifyMode

abbrev pub is_ordered : TuplifyMode → Bool
is_ordered TuplifyMode.ordered = true
is_ordered TuplifyMode.window = false
is_ordered TuplifyMode.punctuated = false
is_ordered TuplifyMode.completed = false

abbrev pub is_completed : TuplifyMode → Bool
is_completed TuplifyMode.ordered = false
is_completed TuplifyMode.window = false
is_completed TuplifyMode.punctuated = false
is_completed TuplifyMode.completed = true

pub record Triple {ℓ} (S : Type ℓ) : Type ℓ where
  pub subject : S
  pub predicate : S
  pub object : S

pub record BufferItem {ℓ} (S : Type ℓ) : Type ℓ where
  pub triple_list : List (Triple S)
  pub matches : ℕ
  pub arrival_time : ℕ

pub record Tuplifier {ℓ} (S : Type ℓ) : Type ℓ where
  pub timestamp_extractor : Option (Triple S → ℕ)
  pub tuple_buffer : List (S × BufferItem S)
  pub predicates : List (S × ℕ)
  pub mode : TuplifyMode
  pub current_subj : S

abbrev pub is_some {ℓ} : {A : Type ℓ} → Option A → Bool
is_some none = false
is_some (some a) = true

module _ {ℓ} {S : Type ℓ} ⦃key_eq : Eq S⦄ where
  -- predicates.insert leaves a predicate that is there.
  abbrev insert_predicate : S → ℕ → List (S × ℕ) → Option ℕ → List (S × ℕ)
  insert_predicate p i m none = put p (i + 1) m
  insert_predicate p i m (some j) = m

  -- The loop of the constructor.
  unfoldable pub number_predicates : ℕ → List S → List (S × ℕ) → List (S × ℕ)
  unfolding lookup put
  number_predicates i [] m = m
  number_predicates i (p ∷ ps) m =
      number_predicates (i + 1) ps (insert_predicate p i m (lookup p m))

  unfoldable pub construct : Option (Triple S → ℕ) → List S → TuplifyMode → S → Tuplifier S
  unfolding number_predicates
  construct extractor preds mode empty = record {
    timestamp_extractor = extractor;
    tuple_buffer = [];
    predicates = number_predicates 0 preds [];
    mode = mode;
    current_subj = empty;
  }

  -- The item of a subject with one more triple.
  unfoldable pub grown : Option (Triple S → ℕ) → Triple S → Option (BufferItem S) → BufferItem S
  grown extractor t (some item) = record item {
    matches = inc32 item.matches;
    triple_list = item.triple_list ++ t ∷ [];
  }
  grown none t none = record { triple_list = t ∷ []; matches = 1; arrival_time = 0 }
  grown (some extract) t none = record {
    triple_list = t ∷ [];
    matches = 1;
    arrival_time = extract t;
  }

  unfoldable pub add_to_buffer : Triple S → Tuplifier S → Tuplifier S
  unfolding grown
  add_to_buffer t s =
      if is_some (lookup t.predicate s.predicates)
      then record s {
        tuple_buffer =
            put t.subject (grown s.timestamp_extractor t (lookup t.subject s.tuple_buffer))
              s.tuple_buffer;
      }
      else s

  -- data[field] = obj for each triple
  unfoldable pub fill : List (S × ℕ) → List (Triple S) → List S → Option (List S)
  fill preds [] row = some row
  fill preds (t ∷ ts) row = do
    field ← lookup t.predicate preds
    if ltb field (length row) then fill preds ts (set row field t.object) else none

  unfoldable pub produce_tuple : S → List (S × ℕ) → List (Triple S) → Option (List S)
  unfolding fill
  produce_tuple empty preds [] = none
  produce_tuple empty preds (t ∷ ts) =
      fill preds (t ∷ ts) (t.subject ∷ replicate (length preds) empty)

  -- A tuple, if the subject is there, and the buffer without it.
  unfoldable pub produce_found :
      S → S → Tuplifier S → Option (BufferItem S) → Option (Tuplifier S × List (List S))
  unfolding produce_tuple without
  produce_found empty subj s none = some (s, [])
  produce_found empty subj s (some item) = do
    row ← produce_tuple empty s.predicates item.triple_list
    some (record s { tuple_buffer = without subj s.tuple_buffer }, row ∷ [])

  unfoldable pub produce_tuple_for_subject :
      S → S → Tuplifier S → Option (Tuplifier S × List (List S))
  unfolding produce_found
  produce_tuple_for_subject empty subj s = produce_found empty subj s (lookup subj s.tuple_buffer)

  -- A scan of the buffer that produces the tuples of some items and erases these.
  unfoldable pub produce_where :
      S
      → List (S × ℕ)
      → (BufferItem S → Bool)
      → List (S × BufferItem S)
      → Option (List (S × BufferItem S) × List (List S))
  produce_where empty preds test [] = some ([], [])
  produce_where empty preds test ((k, item) ∷ m) = do
    (rest, rows) ← produce_where empty preds test m
    if test item
        then (do row ← produce_tuple empty preds item.triple_list; some (rest, row ∷ rows))
        else some ((k, item) ∷ rest, rows)

  unfoldable pub produce_complete_tuples : S → Tuplifier S → Option (Tuplifier S × List (List S))
  unfolding produce_where
  produce_complete_tuples empty s = do
    (m, rows) ←
        produce_where empty s.predicates (λ item. item.matches == length s.predicates)
          s.tuple_buffer
    some (record s { tuple_buffer = m }, rows)

  unfoldable pub produce_all_tuples : S → Tuplifier S → Option (Tuplifier S × List (List S))
  unfolding produce_where
  produce_all_tuples empty s = do
    (m, rows) ← produce_where empty s.predicates (λ item. true) s.tuple_buffer
    some (record s { tuple_buffer = m }, rows)

  unfoldable pub produce_outdated_tuples : S → Tuplifier S → Option (Tuplifier S × List (List S))
  unfolding produce_where
  produce_outdated_tuples empty s = do
    (m, rows) ← produce_where empty s.predicates (λ item. item.arrival_time == 0) s.tuple_buffer
    some (record s { tuple_buffer = m }, rows)

  unfoldable pub notification_callback :
      S → Tuplifier S → Option (Tuplifier S × List (Event (List S)))
  unfolding produce_outdated_tuples
  notification_callback empty s = do
    (s', rows) ← produce_outdated_tuples empty s
    some (s', all_fresh rows)

  -- The ordered mode.
  unfoldable pub follow : S → Triple S → Tuplifier S → Option (Tuplifier S × List (List S))
  follow empty t s =
      if key_eq.beq s.current_subj empty || key_eq.beq t.subject s.current_subj
      then some (
        (let s' = add_to_buffer t s in
            if key_eq.beq s'.current_subj empty
            then record s' { current_subj = t.subject }
            else s'),
        [],
      )
      else (produce_tuple_for_subject empty s.current_subj s >>= λ r.
          some (add_to_buffer t (record r.0 { current_subj = t.subject }), r.1))

  unfoldable pub process_data_element :
      S → Triple S → Bool → Tuplifier S → Option (Tuplifier S × List (Event (List S)))
  process_data_element empty t outdated s = do
    (s', rows) ←
        if is_ordered s.mode
        then follow empty t s
        else if is_completed s.mode
        then produce_complete_tuples empty (add_to_buffer t s)
        else some (add_to_buffer t s, [])
    some (s', all_fresh rows)

  unfoldable pub process_punctuation :
      S → Punctuation → Tuplifier S → Option (Tuplifier S × List (Event (List S)))
  process_punctuation empty p s = do
    (s', rows) ←
        if is_ordered s.mode
        then produce_tuple_for_subject empty s.current_subj s
        else produce_all_tuples empty s
    some (s', all_fresh rows ++ punctuation p ∷ [])

  unfoldable pub handle :
      S → Tuplifier S → Event (Triple S) → Option (Tuplifier S × List (Event (List S)))
  handle empty s (element t outdated) = process_data_element empty t outdated s
  handle empty s (punctuation p) = process_punctuation empty p s
