-- ===== src/Replay/Deliveries.antt =====
-- Two producers, the first with one event, and the theorems about their boxes; a loop that was sent two
-- tasks.
use dytor.Common.{
  ◌⊎◌, true, ℕ, zero, suc, ◌≡◌, ◌≢◌, List, [], ◌∷◌, none, some, returns, refl, update,
}
use dytor.Replay.{Event}
use dytor.Replay.EventLoop as Loop
use dytor.Replay.EventLoop.{EventLoop, new_loop}
use dytor.Replay.Boxes.{UntypedBox, Boxes, leak_event, unbox_event}
use dytor.Replay.Producer.{Flow, Replaying, take_next, send_event, Reach, begin, later, unread}
use dytor.Replay.Transit.{IsOwned, IsWhole}
use dytor.Replay.Delivered.{process_event-stream}

-- The first type is that of `()`, all others are those of numbers.
abbrev Item : ℕ → Type 0
Item zero = Unit
Item (suc τ) = ℕ

-- The items of the first producer are numbers.
abbrev item_of : ℕ → ℕ
item_of zero = 1
item_of (suc k) = 0

abbrev streams : (k : ℕ) → List (Event (Item (item_of k)))
streams zero = record { timestamp = 5; tie_break = 0; obj = 42 } ∷ []
streams (suc k) = []

abbrev boxed_event : Event UntypedBox
boxed_event = record { timestamp = 5; tie_break = 0; obj = 16 }

-- The state of the first producer; the other has nothing.
abbrev flows : Flow Item 1 → (k : ℕ) → Flow Item (item_of k)
flows f zero = f
flows f (suc k) = record { stream = []; entry = none; sent = []; processed = [] }

flows-others : (f g : Flow Item 1) (j : ℕ) → j ≢ 0 → flows f j ≡ flows g j
flows-others f g zero ne = absurd (ne refl)
flows-others f g (suc j) ne = refl

abbrev in_use : Boxes Item
in_use = update (λ _. none) 16 (some (record { item_type = 1; value = 42 }))

abbrev waits : Flow Item 1
waits = record { stream = []; entry = some boxed_event; sent = []; processed = [] }

abbrev queued : Flow Item 1
queued = record { stream = []; entry = none; sent = boxed_event ∷ []; processed = [] }

abbrev after_send : Replaying Item item_of
after_send = record { flows = flows queued; boxes = in_use }

abbrev after_take : Replaying Item item_of
after_take = record { flows = flows waits; boxes = in_use }

takes-others : (j : ℕ) → j ≢ 0 → after_take.flows j ≡ (unread Item item_of streams).flows j
takes-others zero ne = absurd (ne refl)
takes-others (suc j) ne = refl

Reach-after_take : Reach Item item_of streams after_take
unfolding leak_event
Reach-after_take = later begin (
    take_next 0 16 (record { timestamp = 5; tie_break = 0; obj = 42 }) [] refl refl refl refl refl
      takes-others)

Reach-after_send : Reach Item item_of streams after_send
Reach-after_send =
    later Reach-after_take (send_event 0 boxed_event refl refl refl (flows-others queued waits))

process_event-stream_example :
    IsWhole in_use (streams 0) queued
    × ((boxed_event ∷ [] ≡ [])
        ⊎ ((e : Event UntypedBox) × (rest : List (Event UntypedBox)) × (ev : Event ℕ)
            × (boxes : Boxes Item) × (boxed_event ∷ [] ≡ e ∷ rest)
            × (unbox_event Item 1 in_use e ≡ returns (ev, boxes))))
    × ((a : UntypedBox) → IsOwned item_of streams after_send a)
process_event-stream_example = process_event-stream item_of streams 0 Reach-after_send

-- The task 8 was sent after the poll that found the channel empty, and SIGINT arrived.
abbrev one_spawned : EventLoop ℕ
one_spawned = record new_loop {
  task_rx = 8 ∷ [];
  spawned = 7 ∷ [];
  signalled = true;
  phase = Loop.ended;
}

abbrev both_sent : Loop.Sent ℕ
both_sent = record { all = 7 ∷ 8 ∷ []; at_poll = 7 ∷ [] }
