-- ===== src/Routing/Queue.antt =====
-- qop/Queue.hpp: the ConcurrentQueue with the Queue operator on both sides of it, as the steps that
-- the producer, the notifier's thread and its owner take in any order. Each step is one critical
-- section of the queue's mutex; the thread publishes what it popped before it pops again.
pub mod Order
use pipefabric.Prelude.{ℕ, ◌≡◌, Bool, true, false, Option, none, some, List, [], ◌∷◌, ◌++◌, ◌||◌}
use pipefabric.Stream.{Punctuation}

pub record ConcurrentQueue {ℓ} (T : Type ℓ) : Type ℓ where
  pub queue : List T
  pub stopped : Bool

module _ {ℓ} {T : Type ℓ} where
  unfoldable pub push : ConcurrentQueue T → T → ConcurrentQueue T
  push s item = record s { queue = s.queue ++ item ∷ [] }

  -- pop(item) when it does not wait, for a queue and its flag; `none` is the result false.
  unfoldable pub taken : List T → Bool → Option T × List T
  taken items true = (none, items)
  taken [] false = (none, [])
  taken (item ∷ items) false = (some item, items)

  unfoldable pub pop : ConcurrentQueue T → Option T × ConcurrentQueue T
  unfolding taken
  pop s = let (item, items) = taken s.queue s.stopped in (item, record s { queue = items })

  unfoldable pub stop : ConcurrentQueue T → ConcurrentQueue T
  stop s = record s { stopped = true }

-- A punctuation with its data and its timestamp. `ptype` is `none` for PType::None.
pub record Signal {ℓ} (D : Type ℓ) : Type ℓ where
  pub ptype : Option Punctuation
  pub data_of : Option D
  pub tstamp : ℕ

-- One call of publish on a data channel, whose tuple may be nullptr, or on a punctuation channel.
pub data Message {ℓ} (A D : Type ℓ) : Type ℓ where
  tuple : Option A → Bool → Message A D
  signal : Signal D → Message A D

-- What the queue holds: a type of punctuation, a tuple and its flag.
pub record Item {ℓ} (A : Type ℓ) : Type ℓ where
  pub kind : Option Punctuation
  pub content : Option A
  pub flag : Bool

module _ {ℓ} {A : Type ℓ} where
  -- The condition that pop waits for.
  unfoldable pub ready : ConcurrentQueue (Item A) → Bool
  ready s = not_empty s.queue || s.stopped
    where
      not_empty : List (Item A) → Bool
      not_empty [] = false
      not_empty (i ∷ more) = true

-- The operator, with the messages that it received and those that it published so far.
pub record System {ℓ} (A D : Type ℓ) : Type ℓ where
  pub shared : ConcurrentQueue (Item A)
  pub received : List (Message A D)
  pub published : List (Message A D)

module _ {ℓ} {A D : Type ℓ} where
  unfoldable pub new_system : System A D
  new_system = record {
    shared = record { queue = []; stopped = false };
    received = [];
    published = [];
  }

  -- processDataElement and processPunctuation: of a punctuation only its type is kept.
  unfoldable pub item_of : Message A D → Item A
  item_of (tuple a outdated) = record { kind = none; content = a; flag = outdated }
  item_of (signal p) = record { kind = p.ptype; content = none; flag = false }

  unfoldable pub receive : System A D → Message A D → System A D
  unfolding push item_of
  receive s m = record s { shared = push s.shared (item_of m); received = s.received ++ m ∷ [] }

  -- What dequeueTuple publishes for an item: a new punctuation has no data, and the time of its
  -- making, `now`.
  unfoldable pub message_of : ℕ → Item A → Message A D
  message_of now i = elim i.kind [
    | none ↦ tuple i.content i.flag
    | some p ↦ signal (record { ptype = some p; data_of = none; tstamp = now })
  ]

  abbrev pub behind : List (Message A D) → ℕ → Option (Item A) → List (Message A D)
  behind out now none = out
  behind out now (some i) = out ++ message_of now i ∷ []

  unfoldable pub dequeue_tuple : ℕ → System A D → System A D
  unfolding pop message_of
  dequeue_tuple now s =
      let (item, shared) = pop s.shared in
      record s { shared = shared; published = behind s.published now item }

  unfoldable pub stop_processing : System A D → System A D
  unfolding stop
  stop_processing s = record s { shared = stop s.shared }

  pub data Step : System A D → System A D → Type ℓ where
    receives : (s : System A D) (m : Message A D) → Step s (receive s m)
    dequeues : (now : ℕ) (s : System A D) → ready s.shared ≡ true → Step s (dequeue_tuple now s)
    stops : (s : System A D) → Step s (stop_processing s)

  pub data Reach (s : System A D) : System A D → Type ℓ where
    here : Reach s s
    next : {t u : System A D} → Reach s t → Step t u → Reach s u

  -- Steps of the notifier's thread alone.
  pub data Drains : System A D → System A D → Type ℓ where
    done : (s : System A D) → Drains s s
    pops :
        (now : ℕ) (s : System A D) {t : System A D}
        → ready s.shared ≡ true
        → Drains (dequeue_tuple now s) t
        → Drains s t
