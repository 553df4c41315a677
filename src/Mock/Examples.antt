-- ===== src/Mock/Examples.antt =====
-- Two consumers of the events of a producer.
use mathlib.Core.List.{reverse}
use dytor.Common.{◌≡◌, refl, arith, List, [], ◌∷◌, ◌++◌, some}
use dytor.Arena.{Arena, Offset}
use dytor.Context.{ContextData}
use dytor.Lookup.{ActorTree, lookup_type}
use dytor.Lookup.Groups.{MapOrder, refs_in}
use dytor.Messages.{Thread, drain_local}
use dytor.Mock.Consumers.{
  UnitEvent, EventMsg, Line, init, process_all, recv_event, lines, process_event-printed,
}
use dytor.Mock.{interval}

abbrev tree : ActorTree
tree =
    record {
      id = 1;
      vtable = record { type_id = 5; size = 16; align = 8 };
      loc = record { context_id = 2; offset = 0 };
    }
    ∷ record {
      id = 2;
      vtable = record { type_id = 6; size = 1; align = 1 };
      loc = record { context_id = 2; offset = 16 };
    }
    ∷ record {
      id = 3;
      vtable = record { type_id = 6; size = 1; align = 1 };
      loc = record { context_id = 2; offset = 17 };
    }
    ∷ []

abbrev as_inserted : MapOrder (List (Offset × Unit {0}))
as_inserted = record { arrange = λ d. d; same_entries = λ c d. refl }

abbrev arena : Arena
arena = record { base = 4096; capacity = 64 }

-- The producer stands in the context of its consumers.
abbrev args : ContextData EventMsg
args = record { id = 2; local_queue = []; unsent_messages = [] }

both_print :
    lines arena (refs_in 2 (lookup_type 6 tree)) (reverse (interval 1 2))
    ≡ (4112, 2000000000) ∷ (4113, 2000000000) ∷ (4112, 1000000000) ∷ (4113, 1000000000) ∷ []
unfolding lookup_type dytor.Arena.offset
both_print = refl

process_event-printed_example :
    (th : Thread (Unit {0}) UnitEvent (List Line)) × (drain_local recv_event arena 3 (record {
      data_of = process_all args (init as_inserted 6 tree) (interval 1 2);
      objects = [];
    })
      ≡ some th)
    × (th.data_of.local_queue ≡ [])
    × (th.objects ≡ [] ++ lines arena (refs_in 2 (lookup_type 6 tree)) (reverse (interval 1 2)))
process_event-printed_example =
    process_event-printed arena as_inserted 6 tree (interval 1 2) args [] 3 refl (omega arith)
