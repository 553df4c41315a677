-- ===== src/Replay/Producer.antt =====
-- The threads that replay events (replay/src/producer.rs and synchronizer.rs) as one state, and the
-- steps in which they interleave: the background task takes an event from a producer's stream, which
-- boxes it, and sends the event of an entry of its heap; a producer processes what was sent to it.
-- The heap has at most one entry for each producer, and the step may take any of them.
use dytor.Common.{ℕ, ◌≡◌, ◌≢◌, List, [], ◌∷◌, ◌++◌, Option, none, some, returns}
use dytor.Replay.{Event}
use dytor.Replay.Boxes.{UntypedBox, Boxes, leak_event, unbox_event}

-- A producer whose items have the type `τ`: what its stream still yields, its entry of the heap, the
-- events that were sent to it, and those that its typed `process_event` was called with.
pub record Flow (Item : ℕ → Type 0) (τ : ℕ) : Type 0 where
  pub stream : List (Event (Item τ))
  pub entry : Option (Event UntypedBox)
  pub sent : List (Event UntypedBox)
  pub processed : List (Event (Item τ))

-- `Item` gives the values of a type, `item_of` the type of each producer's items.
module _ (Item : ℕ → Type 0) (item_of : ℕ → ℕ) where
  pub record Replaying : Type 0 where
    pub flows : (k : ℕ) → Flow Item (item_of k)
    pub boxes : Boxes Item

  -- The state after a step of producer `k`, or of the task on behalf of it.
  abbrev pub Becomes : Replaying → ℕ → Replaying → Type 0
  Becomes s k t = (j : ℕ) → j ≢ k → t.flows j ≡ s.flows j

  pub data Step (s t : Replaying) : Type 0 where
    -- `stream.next().await` yields an event, and `Box::new` an address that is not in use
    take_next :
        (k : ℕ) (a : UntypedBox) (ev : Event (Item (item_of k)))
        (rest : List (Event (Item (item_of k))))
        → (s.flows k).stream ≡ ev ∷ rest
        → (s.flows k).entry ≡ none
        → s.boxes a ≡ none
        → t.flows k ≡ record (s.flows k) {
          stream = rest;
          entry = some (leak_event Item (item_of k) s.boxes a ev).0;
        }
        → t.boxes ≡ (leak_event Item (item_of k) s.boxes a ev).1
        → Becomes s k t
        → Step s t
    -- `heap.pop()` and `acc.send(…)`
    send_event :
        (k : ℕ) (e : Event UntypedBox)
        → (s.flows k).entry ≡ some e
        → t.flows k ≡ record (s.flows k) { entry = none; sent = (s.flows k).sent ++ e ∷ [] }
        → t.boxes ≡ s.boxes
        → Becomes s k t
        → Step s t
    process_event :
        (k : ℕ) (e : Event UntypedBox) (rest : List (Event UntypedBox))
        (ev : Event (Item (item_of k))) (boxes : Boxes Item)
        → (s.flows k).sent ≡ e ∷ rest
        → unbox_event Item (item_of k) s.boxes e ≡ returns (ev, boxes)
        → t.flows k
          ≡ record (s.flows k) { sent = rest; processed = (s.flows k).processed ++ ev ∷ [] }
        → t.boxes ≡ boxes
        → Becomes s k t
        → Step s t

  module _ (streams : (k : ℕ) → List (Event (Item (item_of k)))) where
    abbrev pub unread : Replaying
    unread = record {
      flows = λ k. record { stream = streams k; entry = none; sent = []; processed = [] };
      boxes = λ _. none;
    }

    -- The states after any steps of the threads, each producer with its stream.
    pub data Reach : Replaying → Type 0 where
      begin : Reach unread
      later : {s t : Replaying} → Reach s → Step s t → Reach t
