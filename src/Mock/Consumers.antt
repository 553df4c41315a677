-- ===== src/Mock/Consumers.antt =====
-- crates/examples/replay_mock/src/lib.rs: how `IntervalUnitProducer` passes its events on to the
-- consumers, which print them.
use mathlib.Core.List.{append_assoc, append-nil, reverse, reverse-append}
use dytor.Common.{
  ℕ, ◌≤◌, ◌<◌, some, arith, length, length-append, ◌≡◌, refl, sym, ◌∙◌, ap, List, [], ◌∷◌, ◌++◌,
}
use dytor.Arena.{Arena, Offset, offset}
use dytor.Context.{ContextId, ContextData, Msg, BroadcastGroup, broadcast}
use dytor.Registry.{TypeId}
use dytor.Lookup.{ActorTree, lookup_type, broadcast_group}
use dytor.Lookup.Groups.{MapOrder, refs_in, at_most_one, mail, messages, broadcast-mail}
use dytor.Messages.{ArgsCall, Thread, drain_local}
use dytor.Messages.Quiet.{each, objects_after, objects_after-append, drain_local-objects_after}
use dytor.Messages.Each.{broadcast-id, mail-own, objects_after-messages, length-messages}
use dytor.Replay.{Event}

abbrev pub UnitEvent : Type 0
UnitEvent = Event (Unit {0})

-- A closure of `process_event`, which holds the event.
abbrev pub EventMsg : Type 0
EventMsg = Msg (Unit {0}) UnitEvent

-- A line that a consumer printed: the consumer's address and the timestamp.
abbrev pub Line : Type 0
Line = ℕ × ℕ

-- `IntervalUnitProducer::init`: its consumers, the actors of the type of `IntervalUnitConsumer`
unfoldable pub init :
    MapOrder (List (Offset × Unit {0})) → TypeId → ActorTree → BroadcastGroup (Unit {0})
init order consumer tree = broadcast_group order.arrange (lookup_type consumer tree)

-- `process_event`
unfoldable pub process_event :
    ContextData EventMsg → BroadcastGroup (Unit {0}) → UnitEvent → ContextData EventMsg
process_event args consumers item = broadcast args consumers item

-- `IntervalUnitConsumer::recv_event`, which the closure calls
unfoldable pub recv_event :
    UnitEvent → ℕ → Unit {0} → List Line → List Line × List (ArgsCall (Unit {0}) UnitEvent)
recv_event ev ptr meta printed = (printed ++ (ptr, ev.timestamp) ∷ [], [])

unfoldable pub process_all :
    ContextData EventMsg → BroadcastGroup (Unit {0}) → List UnitEvent → ContextData EventMsg
unfolding process_event
process_all args consumers [] = args
process_all args consumers (item ∷ items) =
    process_all (process_event args consumers item) consumers items

-- Every event printed by every consumer, in the order of the events.
abbrev pub lines_of : Arena → UnitEvent → List (Offset × Unit {0}) → List Line
lines_of arena ev [] = []
lines_of arena ev ((o, meta) ∷ refs) = (offset arena o, ev.timestamp) ∷ lines_of arena ev refs

abbrev pub lines : Arena → List (Offset × Unit {0}) → List UnitEvent → List Line
lines arena refs [] = []
lines arena refs (ev ∷ events) = lines_of arena ev refs ++ lines arena refs events

-- The messages for a context: one for each event, if consumers stand there.
abbrev pub queued : List (Offset × Unit {0}) → List UnitEvent → List EventMsg
queued refs [] = []
queued refs (ev ∷ events) = messages ev (at_most_one refs) ++ queued refs events

length-queued :
    (refs : List (Offset × Unit {0})) (events : List UnitEvent)
    → length (queued refs events) ≤ length events
length-queued refs [] = omega arith
length-queued refs (ev ∷ events) = omega (
  arith,
  length-append (messages ev (at_most_one refs)) (queued refs events),
  length-messages ev refs,
  length-queued refs events,
)

process_all-id :
    (args : ContextData EventMsg) (consumers : BroadcastGroup (Unit {0})) (events : List UnitEvent)
    → (process_all args consumers events).id ≡ args.id
unfolding process_all process_event
process_all-id args consumers [] = refl
process_all-id args consumers (ev ∷ events) =
    process_all-id (process_event args consumers ev) consumers events
    ∙ broadcast-id args consumers ev

mail-process_all :
    (order : MapOrder (List (Offset × Unit {0}))) (consumer : TypeId) (tree : ActorTree)
    (c : ContextId) (events : List UnitEvent) (args : ContextData EventMsg)
    → mail c (process_all args (init order consumer tree) events)
      ≡ mail c args ++ queued (refs_in c (lookup_type consumer tree)) events
unfolding process_all process_event init
mail-process_all order consumer tree c [] args = sym (append-nil (mail c args))
mail-process_all order consumer tree c (ev ∷ events) args =
    let refs = refs_in c (lookup_type consumer tree) in
    mail-process_all order consumer tree c events (process_event args (init order consumer tree) ev)
    ∙ ap (λ l. l ++ queued refs events) (broadcast-mail order (lookup_type consumer tree) c args ev)
    ∙ append_assoc (mail c args) (messages ev (at_most_one refs)) (queued refs events)

module _ (arena : Arena) where
  recv_each :
      (ev : UnitEvent) (refs : List (Offset × Unit {0})) (printed : List Line)
      → each recv_event arena ev refs printed ≡ printed ++ lines_of arena ev refs
  unfolding recv_event
  recv_each ev [] printed = sym (append-nil printed)
  recv_each ev ((o, meta) ∷ refs) printed =
      recv_each ev refs (printed ++ (offset arena o, ev.timestamp) ∷ [])
      ∙ append_assoc printed ((offset arena o, ev.timestamp) ∷ []) (lines_of arena ev refs)

  lines-snoc :
      (refs : List (Offset × Unit {0})) (events : List UnitEvent) (ev : UnitEvent)
      → lines arena refs (events ++ ev ∷ []) ≡ lines arena refs events ++ lines_of arena ev refs
  lines-snoc refs [] ev = append-nil (lines_of arena ev refs)
  lines-snoc refs (e ∷ events) ev =
      ap (λ l. lines_of arena e refs ++ l) (lines-snoc refs events ev)
      ∙ sym
          (append_assoc (lines_of arena e refs) (lines arena refs events) (lines_of arena ev refs))

  -- The messages of the last event run first.
  objects_after-queued :
      (refs : List (Offset × Unit {0})) (events : List UnitEvent) (printed : List Line)
      → objects_after recv_event arena (queued refs events) printed
        ≡ printed ++ lines arena refs (reverse events)
  objects_after-queued refs [] printed = sym (append-nil printed)
  objects_after-queued refs (ev ∷ events) printed =
      let before = objects_after recv_event arena (queued refs events) printed in
      objects_after-append recv_event arena (messages ev (at_most_one refs)) (queued refs events)
        printed
      ∙ objects_after-messages recv_event arena ev refs before
      ∙ recv_each ev refs before
      ∙ ap (λ l. l ++ lines_of arena ev refs) (objects_after-queued refs events printed)
      ∙ append_assoc printed (lines arena refs (reverse events)) (lines_of arena ev refs)
      ∙ ap (λ l. printed ++ l) (sym (lines-snoc refs (reverse events) ev))
      ∙ ap (λ es. printed ++ lines arena refs es) (sym (reverse-append (ev ∷ []) events))

  recv_event-quiet :
      (ev : UnitEvent) (ptr : ℕ) (meta : Unit {0}) (printed : List Line)
      → (recv_event ev ptr meta printed).1 ≡ []
  unfolding recv_event
  recv_event-quiet ev ptr meta printed = refl

  -- Whatever the iteration order of the map, if the local queue of the producer's context is empty and
  -- the producer processes events, then with more fuel than events the loop over the local messages
  -- ends, with an empty queue. It has printed the events, the last one first, each once for
  -- each consumer that stands in the context, in the order of the query.
  pub process_event-printed :
      (order : MapOrder (List (Offset × Unit {0}))) (consumer : TypeId) (tree : ActorTree)
      (events : List UnitEvent) (args : ContextData EventMsg) (printed : List Line) (fuel : ℕ)
      → args.local_queue ≡ []
      → length events < fuel
      → (th : Thread (Unit {0}) UnitEvent (List Line)) × (drain_local recv_event arena fuel
            (record {
              data_of = process_all args (init order consumer tree) events;
              objects = printed;
            })
          ≡ some th)
        × (th.data_of.local_queue ≡ [])
        × (th.objects
            ≡ printed ++ lines arena (refs_in args.id (lookup_type consumer tree)) (reverse events))
  process_event-printed order consumer tree events args printed fuel empty enough =
      let consumers = init order consumer tree in
      let sent = process_all args consumers events in
      let refs = refs_in args.id (lookup_type consumer tree) in
      let q : sent.local_queue ≡ queued refs events =
        mail-own args sent (queued refs events) (process_all-id args consumers events) empty
          (mail-process_all order consumer tree args.id events args) in
      let few : length sent.local_queue < fuel =
        omega (arith, ap length q, length-queued refs events, enough) in
      (
        _,
        drain_local-objects_after recv_event arena recv_event-quiet fuel
            (record { data_of = sent; objects = printed }) few,
        refl,
        ap (λ ms. objects_after recv_event arena ms printed) q
            ∙ objects_after-queued refs events printed,
      )
