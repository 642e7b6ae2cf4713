-- ===== src/Routing/Queue/Order.antt =====
-- The Queue operator: what arrives, and in which order, whatever the threads do.
use pipefabric.Prelude.{
  ℕ, ◌≢◌, ◌≡◌, refl, ap, sym, ◌∙◌, Bool, true, false, Option, none, some, Option-cases, inl, inr,
  List, [], ◌∷◌, ◌++◌, map, map-append, append-nil, append_assoc, All,
}
use pipefabric.Stream.{Punctuation, Event, element, punctuation}
use pipefabric.Routing.Queue.{
  push, taken, pop, stop, Message, tuple, signal, Item, System, behind, new_system, item_of,
  message_of, receive, dequeue_tuple, stop_processing, ready, Step, receives, dequeues, stops,
  Reach, here, next, Drains, done, pops,
}

module _ {ℓ} {A : Type ℓ} where
  -- A kind and a tuple, as an event: the kind None is that of a tuple.
  abbrev pub event_of : Option Punctuation → Option A → Bool → Event (Option A)
  event_of none a outdated = element a outdated
  event_of (some p) a outdated = punctuation p

  abbrev pub event_of_item : Item A → Event (Option A)
  event_of_item i = event_of i.kind i.content i.flag

module _ {ℓ} {A D : Type ℓ} where
  -- What of a message goes through the queue: a tuple with its flag, and the type of a punctuation;
  -- a punctuation of type None counts as a new tuple nullptr.
  abbrev pub essence : Message A D → Event (Option A)
  essence (tuple a outdated) = element a outdated
  essence (signal p) = event_of p.ptype none false

  -- A punctuation of some type, without data.
  abbrev pub IsBare : Message A D → Type ℓ
  IsBare (tuple a outdated) = Unit
  IsBare (signal p) = (p.data_of ≡ none) × (p.ptype ≢ none)

-- An item keeps its essence when it is published.
module _ {ℓ} {A : Type ℓ} (D : Type ℓ) where
  essence-message_of : (now : ℕ) (i : Item A) → essence (message_of {D = D} now i) ≡ event_of_item i
  unfolding message_of
  essence-message_of now i = elim (Option-cases i.kind) [
    | inl e ↦ rw e refl
    | inr (p, e) ↦ rw e refl
  ]

  message_of-IsBare : (now : ℕ) (i : Item A) → IsBare (message_of {D = D} now i)
  unfolding message_of
  message_of-IsBare now i = elim (Option-cases i.kind) [
    | inl e ↦ rw e tt
    | inr (p, e) ↦ rw e (refl, λ e. cc)
  ]

module _ {ℓ} {A D : Type ℓ} where
  item_of-essence : (m : Message A D) → event_of_item (item_of m) ≡ essence m
  unfolding item_of
  item_of-essence (tuple a outdated) = refl
  item_of-essence (signal p) = refl

  -- What was published and what is in the queue, as events.
  abbrev through : List (Message A D) → List (Item A) → List (Event (Option A))
  through out items = map essence out ++ map event_of_item items

  through-taken :
      (now : ℕ) (out : List (Message A D)) (items : List (Item A)) (stopped : Bool)
      → through (behind out now (taken items stopped).0) (taken items stopped).1 ≡ through out items
  unfolding taken
  through-taken now out items true = refl
  through-taken now out [] false = refl
  through-taken now out (i ∷ items) false =
      ap (λ l. l ++ map event_of_item items) (map-append essence out (message_of now i ∷ []))
      ∙ append_assoc (map essence out) (essence (message_of {D = D} now i) ∷ [])
          (map event_of_item items)
      ∙ ap (λ e. map essence out ++ e ∷ map event_of_item items) (essence-message_of D now i)

  InOrder : System A D → Type ℓ
  InOrder s = (through s.published s.shared.queue ≡ map essence s.received) × All IsBare s.published

  All-snoc :
      (l : List (Message A D)) (m : Message A D)
      → All IsBare l
      → IsBare m
      → All IsBare (l ++ m ∷ [])
  All-snoc [] m h b = (b, tt)
  All-snoc (x ∷ l) m h b = (h.0, All-snoc l m h.1 b)

  behind-IsBare :
      (now : ℕ) (out : List (Message A D)) (i : Option (Item A))
      → All IsBare out
      → All IsBare (behind out now i)
  behind-IsBare now out none h = h
  behind-IsBare now out (some i) h = All-snoc out (message_of now i) h (message_of-IsBare D now i)

  Step-InOrder : {s t : System A D} → Step s t → InOrder s → InOrder t
  unfolding InOrder receive push dequeue_tuple pop stop_processing stop
  Step-InOrder (receives s m) (h, b) = (
    ap (λ l. map essence s.published ++ l)
          (map-append event_of_item s.shared.queue (item_of m ∷ []))
        ∙ sym (
            append_assoc (map essence s.published) (map event_of_item s.shared.queue)
              (event_of_item (item_of m) ∷ []))
        ∙ ap (λ l. l ++ event_of_item (item_of m) ∷ []) h
        ∙ ap (λ e. map essence s.received ++ e ∷ []) (item_of-essence m)
        ∙ sym (map-append essence s.received (m ∷ [])),
    b,
  )
  Step-InOrder (dequeues now s r) (h, b) = (
    through-taken now s.published s.shared.queue s.shared.stopped ∙ h,
    behind-IsBare now s.published (taken s.shared.queue s.shared.stopped).0 b,
  )
  Step-InOrder (stops s) h = h

  -- Whatever the producer, the notifier's thread and the owner do, and in whatever order: what was
  -- published, followed by what is in the queue, is what was received, in order, of a tuple with its
  -- flag and of a punctuation only the type, where a punctuation of type None counts as a new tuple
  -- nullptr; and each punctuation that was published has a type but None, and no data.
  pub published_queue :
      {t : System A D}
      → Reach new_system t
      → (map essence t.published ++ map event_of_item t.shared.queue ≡ map essence t.received)
        × All IsBare t.published
  unfolding new_system InOrder
  published_queue here = (refl, tt)
  published_queue (next r st) = Step-InOrder st (published_queue r)

  deliver :
      (items : List (Item A)) (s : System A D)
      → s.shared.queue ≡ items
      → s.shared.stopped ≡ false
      → (t : System A D) × Drains s t
        × (map essence t.published ≡ map essence s.published ++ map event_of_item items)
        × (t.shared.queue ≡ [])
        × (t.received ≡ s.received)
  unfolding dequeue_tuple pop taken ready
  deliver [] s q running = (s, done s, sym (append-nil (map essence s.published)), q, refl)
  deliver (i ∷ items) s q running =
      let emptied : (dequeue_tuple 0 s).shared.queue ≡ items = rw (q, running) refl in
      let gone : (dequeue_tuple 0 s).published ≡ s.published ++ message_of 0 i ∷ [] =
        rw (q, running) refl in
      let (t, r, out, empty, same) = deliver items (dequeue_tuple 0 s) emptied running in
      (
        t,
        pops 0 s (rw q refl) r,
        out
            ∙ ap (λ l. map essence l ++ map event_of_item items) gone
            ∙ ap (λ l. l ++ map event_of_item items)
                (map-append essence s.published (message_of 0 i ∷ []))
            ∙ append_assoc (map essence s.published) (essence (message_of {D = D} 0 i) ∷ [])
                (map event_of_item items)
            ∙ ap (λ e. map essence s.published ++ e ∷ map event_of_item items)
                (essence-message_of D 0 i),
        empty,
        same,
      )

  -- From every state that the operator can reach without being stopped, the notifier's thread can go
  -- on by steps of its own alone to a state in which the queue is empty and nothing more was
  -- received, and in which exactly what was received is published, in its order, of a tuple with its
  -- flag and of a punctuation only the type, where a punctuation of type None counts as a new tuple
  -- nullptr.
  pub delivery :
      {s : System A D}
      → Reach new_system s
      → s.shared.stopped ≡ false
      → (t : System A D) × Drains s t
        × (map essence t.published ≡ map essence s.received)
        × (t.shared.queue ≡ [])
        × (t.received ≡ s.received)
  delivery {s} r running =
      let (t, r', out, empty, same) = deliver s.shared.queue s refl running in
      (t, r', out ∙ (published_queue r).0, empty, same)
