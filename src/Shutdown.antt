-- ===== src/Shutdown.antt =====
-- `run_thread` of crates/core/dytor/src/runtime/mod.rs, with the threads of all contexts and the
-- holders of accessors interleaved at each access of the control block and of a queue. What a
-- message does when it is run is left open: it may send any messages.
mod Sending
pub mod Sums
pub mod Links
pub mod Balance
pub mod Sorting
pub mod Ending
pub mod Invariant
pub mod Reachable
pub mod Told
pub mod Telling
pub mod Spread
pub mod Stops
pub mod Lost
pub mod Alive
pub mod Senders
pub mod Safety
pub mod Examples
use dytor.Common.{
  ℕ, zero, suc, ◌+◌, ◌-◌, ◌%◌, ◌≤◌, ◌<◌, ◌≡◌, ◌≢◌, Bool, true, false, ◌||◌, List, [], ◌∷◌, ◌++◌,
  Option, none, some, length, get_elem?, u32_mod, Exec, returns, panics, unwrap, sub_checked, ◌>>=◌,
  ltb, leb, ◌==◌, if◌then◌else◌, update,
}
unfoldable pub use Sending.*
use dytor.Queue.{LocalQueue, recv}
use dytor.Context.{
  ContextId, as_index, ContextData, route, ControlBlock, fetch_add, fetch_sub, clone, release,
}

-- `QueueItem`
pub data QueueItem (M : Type 0) : Type 0 where
  msg : M → QueueItem M
  accessor_dropped : QueueItem M
  stop : QueueItem M

-- Where a thread stands in `run_thread`.
pub data Pc : Type 0 where
  initialising : Pc  -- in `create_context`
  first_drain : Pc  -- the first loop over the local queue
  waiting : Pc  -- at `ctx.rx.recv().unwrap()`, which panics when the queue is empty and has no sender
  running : Pc  -- a message was received; it and the local messages run
  sending : Pc  -- the last loop, over the unsent messages
  dropped : Pc  -- `AccessorDropped` was received
  stopping : List ℕ → Pc  -- the loop that sends `Stop`, with the links that are left
  stopped : Pc  -- returned

-- A thread may send messages from its actors' code.
abbrev pub acts : Pc → Bool
acts initialising = true
acts first_drain = true
acts running = true
acts _ = false

-- A context: its thread, its queue, and the accessors that send to its queue. Of each call of
-- `Accessor::send` that has counted its event and not yet queued it, `in_flight` has the message.
pub record Ctx (M : Type 0) : Type 0 where
  pub pc : Pc
  pub data_of : ContextData M
  pub queue : List (QueueItem M)
  pub accessors : ℕ
  pub in_flight : List M

-- A step of context `i` among `n`, or of a holder of an accessor to it.
pub data Move {M : Type 0} (n i : ℕ) (b : ControlBlock) (c : Ctx M)
    : ControlBlock → Ctx M → Type 0 where
  send_from :
      acts c.pc ≡ true
      → (to : ContextId) (m : M) → Move n i b c b (record c { data_of = route c.data_of to m })
  run_local :
      (c.pc ≡ first_drain)
      → {m : M} {rest : List M} → recv c.data_of.local_queue ≡ some (m, rest)
      → Move n i b c b (record c { data_of = record (c.data_of) { local_queue = rest } })
  run_next :
      (c.pc ≡ running)
      → {m : M} {rest : List M} → recv c.data_of.local_queue ≡ some (m, rest)
      → Move n i b c b (record c { data_of = record (c.data_of) { local_queue = rest } })
  constructed : c.pc ≡ initialising → Move n i b c b (record c { pc = first_drain })
  into_unowned :
      c.pc ≡ first_drain
      → c.data_of.local_queue ≡ []
      → Move n i b c (release b) (record c { pc = waiting })
  recv_msg :
      c.pc ≡ waiting
      → {m : M} {q : List (QueueItem M)} → c.queue ≡ msg m ∷ q
      → Move n i b c b (record c { pc = running; queue = q })
  recv_dropped :
      c.pc ≡ waiting
      → {q : List (QueueItem M)} → c.queue ≡ accessor_dropped ∷ q
      → Move n i b c b (record c { pc = dropped; queue = q })
  recv_stop :
      c.pc ≡ waiting
      → {q : List (QueueItem M)} → c.queue ≡ stop ∷ q
      → Move n i b c b (record c { pc = stopped; queue = q })
  none_unsent :
      c.pc ≡ running
      → c.data_of.local_queue ≡ []
      → c.data_of.unsent_messages ≡ []
      → Move n i b c
          (fetch_sub b)
          (record c { pc = if leb b.unhandled_events 1 then stopping (links n i) else waiting })
  many_unsent :
      c.pc ≡ running
      → c.data_of.local_queue ≡ []
      → 2 ≤ length c.data_of.unsent_messages
      → Move n i b c (fetch_add b (length c.data_of.unsent_messages - 1)) (record c {
        pc = sending;
        data_of = record (c.data_of) { unsent_messages = sort_by_key c.data_of.unsent_messages };
      })
  all_sent :
      c.pc ≡ sending → c.data_of.unsent_messages ≡ [] → Move n i b c b (record c { pc = waiting })
  last_dropped :
      c.pc ≡ dropped
      → b.unhandled_events ≤ 1
      → Move n i b c
          (record (fetch_sub b) { freed = true })
          (record c { pc = stopping (links n i) })
  more_left :
      c.pc ≡ dropped
      → 1 < b.unhandled_events
      → Move n i b c (fetch_sub b) (record c { pc = waiting })
  all_told : c.pc ≡ stopping [] → Move n i b c b (record c { pc = stopped })
  accessor_counts :
      0 < c.accessors
      → (m : M) → Move n i b c (fetch_add b 1) (record c { in_flight = m ∷ c.in_flight })
  accessor_sends :
      (before : List M) (m : M) (after : List M)
      → c.in_flight ≡ before ++ m ∷ after
      → Move n i b c b (record c { queue = c.queue ++ msg m ∷ []; in_flight = before ++ after })
  accessor_drops :
      {a : ℕ}
      → c.accessors ≡ suc a
      → Move n i b c b (record c { accessors = a; queue = c.queue ++ accessor_dropped ∷ [] })

pub record System (M : Type 0) : Type 0 where
  pub block : ControlBlock
  pub ctxs : ℕ → Ctx M

-- A context with one more item in its queue.
abbrev pub receive : {M : Type 0} → Ctx M → QueueItem M → Ctx M
receive c x = record c { queue = c.queue ++ x ∷ [] }

pub data Step {M : Type 0} (n : ℕ) (s : System M) : System M → Type 0 where
  move :
      (i : ℕ) {b : ControlBlock} {c : Ctx M}
      → i < n
      → Move n i s.block (s.ctxs i) b c
      → Step n s (record { block = b; ctxs = update s.ctxs i c })
  -- an accessor for an actor of context `j`, made while an actor of context `i` is constructed
  create :
      (i j : ℕ)
      → i < n
      → j < n
      → (s.ctxs i).pc ≡ initialising
      → Step n s (record {
        block = clone s.block;
        ctxs = update s.ctxs j (record (s.ctxs j) { accessors = suc (s.ctxs j).accessors });
      })
  one_unsent :
      (i j : ℕ) (rx : ContextId) (m : M)
      → i < n
      → (s.ctxs i).pc ≡ running
      → (s.ctxs i).data_of.local_queue ≡ []
      → (s.ctxs i).data_of.unsent_messages ≡ (rx, m) ∷ []
      → link n i (s.ctxs i).data_of.id rx ≡ returns j
      → Step n s (record s {
        ctxs =
            update
              (update s.ctxs i (record (s.ctxs i) {
                pc = waiting;
                data_of = record ((s.ctxs i).data_of) { unsent_messages = [] };
              }))
              j
              (receive (s.ctxs j) (msg m));
      })
  next_unsent :
      (i j : ℕ) (rx : ContextId) (m : M) (rest : List (ContextId × M))
      → i < n
      → (s.ctxs i).pc ≡ sending
      → (s.ctxs i).data_of.unsent_messages ≡ (rx, m) ∷ rest
      → link n i (s.ctxs i).data_of.id rx ≡ returns j
      → Step n s (record s {
        ctxs =
            update
              (update s.ctxs i (record (s.ctxs i) {
                data_of = record ((s.ctxs i).data_of) { unsent_messages = rest };
              }))
              j
              (receive (s.ctxs j) (msg m));
      })
  tell :
      (i j : ℕ) (js : List ℕ)
      → i < n
      → (s.ctxs i).pc ≡ stopping (j ∷ js)
      → Step n s (record s {
        ctxs =
            update
              (update s.ctxs i (record (s.ctxs i) { pc = stopping js }))
              j
              (receive (s.ctxs j) stop);
      })

-- The events that a context accounts for in the control block.
abbrev pub events : {M : Type 0} → List (QueueItem M) → ℕ
events [] = 0
events (msg m ∷ q) = suc (events q)
events (accessor_dropped ∷ q) = suc (events q)
events (stop ∷ q) = events q

abbrev pub own : Pc → ℕ → ℕ
own initialising k = 1
own first_drain k = 1
own running k = 1
own dropped k = 1
own sending k = k
own waiting k = 0
own (stopping js) k = 0
own stopped k = 0

abbrev pub cell : {M : Type 0} → Ctx M → ℕ
cell c =
    own c.pc (length c.data_of.unsent_messages) + events c.queue + c.accessors + length c.in_flight

unfoldable pub sum_below : {A : Type 0} → (A → ℕ) → ℕ → (ℕ → A) → ℕ
sum_below w zero f = 0
sum_below w (suc n) f = sum_below w n f + w (f n)

abbrev pub load : {M : Type 0} → ℕ → System M → ℕ
load n s = sum_below cell n s.ctxs

-- After `create_context_args`: a count for each context.
abbrev pub fresh : {M : Type 0} → ℕ → Ctx M
fresh i = record {
  pc = initialising;
  data_of = record { id = suc i; local_queue = []; unsent_messages = [] };
  queue = [];
  accessors = 0;
  in_flight = [];
}

abbrev pub start : {M : Type 0} → ℕ → System M
start n = record { block = record { unhandled_events = n; freed = false }; ctxs = fresh }

-- The runs in which there are never 2^32 events at once.
pub data Reach {M : Type 0} (n : ℕ) : System M → Type 0 where
  begin : n < u32_mod → Reach n (start n)
  later : {s t : System M} → Reach n s → Step n s t → load n t < u32_mod → Reach n t
