-- ===== src/Registry/Examples.antt =====
-- A registry of two actor types and a resource.
use dytor.Common.{
  ℕ, zero, suc, ◌≡◌, none, update, times, arith, List, [], ◌∷◌, Memᴰ, some, returns, panics, refl,
  inl,
}
use dytor.Registry.{Registry, ActorType, ListNode, actor, resource, get_registry, by_name}
use dytor.Registry.Nodes.{
  Nodes, uncalled, linked, loaded, stored, load, store, exchange, exchange_fails, Reach, begin,
  later, get_first,
}
use dytor.Registry.Linked.{linked_times, get_first-Reach}
use dytor.Registry.Found.{by_name-get_registry}
use dytor.Registry.Twice.{get_registry-twice}

abbrev consumer : ActorType
consumer = record {
  name = "IntervalUnitConsumer";
  vtable = record { type_id = 1; size = 0; align = 1 };
  traits = [];
}

abbrev producer : ActorType
producer = record {
  name = "IntervalUnitProducer";
  vtable = record { type_id = 2; size = 16; align = 8 };
  traits = (7, record { type_id = 2; dyn_meta = 40 }) ∷ [];
}

abbrev nodes : List ListNode
nodes = actor producer ∷ resource 9 3 ∷ actor consumer ∷ []

abbrev known : Registry
known = record {
  actor_types = (2, producer.vtable) ∷ (1, consumer.vtable) ∷ [];
  trait_types = (7, record { type_id = 2; dyn_meta = 40 } ∷ []) ∷ [];
  name_to_type_id = ("IntervalUnitProducer", 2) ∷ ("IntervalUnitConsumer", 1) ∷ [];
  resource_constructors = (9, 3) ∷ [];
}

get_registry-nodes : get_registry nodes ≡ returns known
unfolding get_registry
get_registry-nodes = refl

by_name-get_registry_example : by_name known "IntervalUnitConsumer" ≡ some (1, consumer.vtable)
by_name-get_registry_example =
    by_name-get_registry nodes known consumer get_registry-nodes
      (Memᴰ.tail (Memᴰ.tail (Memᴰ.head refl)))

get_registry-twice_example :
    get_registry (actor consumer ∷ resource 9 3 ∷ actor consumer ∷ []) ≡ panics
get_registry-twice_example =
    get_registry-twice [] (resource 9 3 ∷ []) [] consumer consumer (inl refl)

-- Two calls of `init_node`, of which the first has to load again.
abbrev both_linked : Nodes
both_linked = record {
  init_fns = some 0;
  next = update (update (update (λ _. none) 0 none) 1 none) 0 (some 1);
  calls =
      update
        (update
          (update
            (update
              (update
                (update (update (update (λ _. uncalled) 0 (loaded none)) 1 (loaded none)) 0
                  (stored none))
                1 (stored none))
              1 linked)
            0 (loaded (some 1)))
          0 (stored (some 1)))
        0 linked;
}

overlapping : Reach (0 ∷ 1 ∷ []) both_linked
overlapping =
    later
      (later
        (later
          (later
            (later (later (later (later begin (load 0 refl)) (load 1 refl)) (store 0 none refl))
              (store 1 none refl))
            (exchange 1 none refl refl))
          (exchange_fails 0 none refl))
        (store 0 (some 1) refl))
      (exchange 0 (some 1) refl refl)

abbrev two_actors : ℕ → ListNode
two_actors zero = actor producer
two_actors (suc _) = actor consumer

get_first-Reach_example :
    (get_first two_actors 3 both_linked
      ≡ some (get_registry (actor producer ∷ actor consumer ∷ [])))
    × ((i : ℕ) → times i (0 ∷ 1 ∷ []) ≡ linked_times (both_linked.calls i))
get_first-Reach_example = get_first-Reach two_actors 3 overlapping (omega arith)
