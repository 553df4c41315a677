-- ===== src/Messages/Examples.antt =====
-- An actor that sends itself a second message when it gets the first one, and counts both.
use mathlib.Core.List.{reverse}
use dytor.Common.{
  ℕ, suc, ◌+◌, ◌≤◌, ◌<◌, ◌≡◌, Bool, true, false, List, [], ◌∷◌, ◌++◌, some, refl, arith, length,
  Bool-cases, inl, inr, ◌==◌, if◌then◌else◌,
}
use dytor.Arena.{Arena, Offset}
use dytor.Context.{ContextData, Key, Msg, broadcast, send_msg, route}
use dytor.Lookup.{Found, broadcast_group}
use dytor.Lookup.Groups.{MapOrder, refs_in}
use dytor.Messages.{
  ArgsCall, send_to, Thread, perform, call_each, call_on, run_msg, drain_local, handle,
}
use dytor.Messages.Quiet.{each}
use dytor.Messages.Each.{send_each, broadcast-each}
use dytor.Messages.Steps.{with_ctx}
use dytor.Messages.Handled.{weigh, handle-Reach}
use dytor.Shutdown.{
  running, System, move, create, constructed, into_unowned, accessor_counts, accessor_sends, Reach,
  begin, later, sum_below,
}

abbrev Message : Type 0
Message = Msg (Unit {0}) Bool

abbrev own_key : Key (Unit {0})
own_key = record { loc = record { context_id = 1; offset = 8 }; meta = tt }

abbrev code : Bool → ℕ → Unit {0} → ℕ → ℕ × List (ArgsCall (Unit {0}) Bool)
code true ptr meta calls = (suc calls, send_to own_key false ∷ [])
code false ptr meta calls = (suc calls, [])

abbrev arena : Arena
arena = record { base = 4096; capacity = 64 }

abbrev first : Message
first = record { refs = (8, tt) ∷ []; call = true }

abbrev idle_thread : Thread (Unit {0}) Bool ℕ
idle_thread = record {
  data_of = record { id = 1; local_queue = []; unsent_messages = [] };
  objects = 0;
}

both_run : handle code arena 3 first idle_thread ≡ some (record idle_thread { objects = 2 })
unfolding handle drain_local perform send_msg dytor.Queue.send dytor.Queue.recv
both_run = refl

abbrev found : Found (Unit {0})
found =
    (1, record { loc = record { context_id = 1; offset = 0 }; meta = tt })
    ∷ (2, record { loc = record { context_id = 2; offset = 8 }; meta = tt })
    ∷ (4, record { loc = record { context_id = 1; offset = 16 }; meta = tt })
    ∷ []

abbrev as_inserted : MapOrder (List (Offset × Unit {0}))
as_inserted = record { arrange = λ d. d; same_entries = λ c d. refl }

-- Actors that note where they are called, and send nothing.
abbrev notes : Bool → ℕ → Unit {0} → List ℕ → List ℕ × List (ArgsCall (Unit {0}) Bool)
notes b ptr meta called = (called ++ ptr ∷ [], [])

both_called : each notes arena true (refs_in 1 found) [] ≡ 4096 ∷ 4112 ∷ []
unfolding dytor.Arena.offset
both_called = refl

broadcast-each_example :
    (th th' : Thread (Unit {0}) Bool (List ℕ)) × (drain_local notes arena 5 (record {
      data_of = broadcast idle_thread.data_of (broadcast_group as_inserted.arrange found) true;
      objects = [];
    })
      ≡ some th)
    × (drain_local notes arena 5
          (record { data_of = send_each idle_thread.data_of (reverse found) true; objects = [] })
        ≡ some th')
    × (th.data_of.local_queue ≡ [])
    × (th'.data_of.local_queue ≡ [])
    × (th.objects ≡ each notes arena true (refs_in 1 found) [])
    × (th'.objects ≡ each notes arena true (refs_in 1 found) [])
broadcast-each_example =
    broadcast-each notes arena (λ f ptr meta called. refl) as_inserted found idle_thread.data_of
      true [] 5 refl (omega arith)

-- A message that makes the actor send weighs more, by one for each call.
abbrev weight : Message → ℕ
weight m = suc (if m.call then length m.refs else 0)

weigh-append :
    (q : List Message) (m : Message) → weigh weight (q ++ m ∷ []) ≡ weigh weight q + weight m
weigh-append [] m = omega arith
weigh-append (x ∷ q) m = omega (arith, weigh-append q m)

weigh-send :
    (d : ContextData Message)
    → weigh weight (send_msg d own_key false).local_queue ≤ suc (weigh weight d.local_queue)
unfolding send_msg route dytor.Queue.send
weigh-send d = elim (Bool-cases (d.id == 1)) [
  | inl here ↦
      rw here
        (omega (arith, weigh-append d.local_queue (record { refs = (8, tt) ∷ []; call = false })))
  | inr other ↦ rw other (omega arith)
]

weigh-call_each :
    (b : Bool) (refs : List (Offset × Unit {0})) (th : Thread (Unit {0}) Bool ℕ)
    → weigh weight (call_each code arena b refs th).data_of.local_queue
      ≤ weigh weight th.data_of.local_queue + (if b then length refs else 0)
unfolding perform
weigh-call_each b [] th = ground arith
weigh-call_each false (ref ∷ refs) th =
    omega (arith, weigh-call_each false refs (call_on code arena false ref th))
weigh-call_each true (ref ∷ refs) th =
    omega (arith, weigh-call_each true refs (call_on code arena true ref th), weigh-send th.data_of)

lighter :
    (m : Message) (th : Thread (Unit {0}) Bool ℕ)
    → weigh weight (run_msg code arena m th).data_of.local_queue
      < weigh weight th.data_of.local_queue + weight m
lighter m th = omega (arith, weigh-call_each m.call m.refs th)

record Run : Type 0 where
  last : System Message
  reach : Reach 1 last

-- An accessor sends the message when the thread waits.
received : Run
unfolding sum_below
received = record {
  last = _;
  reach =
      later
        (later
          (later
            (later
              (later (begin (omega arith)) (create 0 0 (omega arith) (omega arith) refl)
                (omega arith))
              (move 0 (omega arith) (constructed refl)) (omega arith))
            (move 0 (omega arith) (into_unowned refl refl)) (omega arith))
          (move 0 (omega arith) (accessor_counts (omega arith) first)) (omega arith))
        (move 0 (omega arith) (accessor_sends [] first [] refl)) (omega arith);
}

handle-Reach_example :
    (th : Thread (Unit {0}) Bool ℕ) × (handle code arena 3 first
        (record { data_of = (received.last.ctxs 0).data_of; objects = 0 })
      ≡ some th)
    × (th.data_of.local_queue ≡ [])
    × Reach 1 (
        with_ctx received.last 0
          (record (received.last.ctxs 0) { pc = running; data_of = th.data_of; queue = [] }))
unfolding received
handle-Reach_example =
    handle-Reach code arena weight lighter 1 received.last 0 first [] 0 3 (omega arith)
      received.reach refl refl (omega arith)
