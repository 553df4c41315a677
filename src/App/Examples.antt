-- ===== src/App/Examples.antt =====
-- The application's configuration with the types of the replay crates.
use dytor.Common.{some, ℕ, ◌≡◌, refl, arith, List, [], ◌∷◌, Memᴰ, returns}
use dytor.Registry.{Registry, ActorType, ListNode, actor, get_registry, layout}
use dytor.App.Main.{Opener, main, main-start}
use dytor.Shutdown.{start}

abbrev synchronizer : ActorType
synchronizer = record {
  name = "Synchronizer";
  vtable = record { type_id = 1; size = 0; align = 1 };
  traits = [];
}

abbrev producer : ActorType
producer = record {
  name = "IntervalUnitProducer";
  vtable = record { type_id = 2; size = 16; align = 8 };
  traits = (7, record { type_id = 2; dyn_meta = 40 }) ∷ [];
}

abbrev consumer : ActorType
consumer = record {
  name = "IntervalUnitConsumer";
  vtable = record { type_id = 3; size = 0; align = 1 };
  traits = [];
}

abbrev nodes : List ListNode
nodes = actor synchronizer ∷ actor producer ∷ actor consumer ∷ []

abbrev built : Registry
built = record {
  actor_types = (1, synchronizer.vtable) ∷ (2, producer.vtable) ∷ (3, consumer.vtable) ∷ [];
  trait_types = (7, record { type_id = 2; dyn_meta = 40 } ∷ []) ∷ [];
  name_to_type_id =
      ("Synchronizer", 1) ∷ ("IntervalUnitProducer", 2) ∷ ("IntervalUnitConsumer", 3) ∷ [];
  resource_constructors = [];
}

get_registry-built : get_registry nodes ≡ returns built
unfolding get_registry
get_registry-built = refl

-- The library brings all three types; the executable has none.
abbrev opener : Opener
opener path = some (77, nodes)

main-start_example :
    main {V = ℕ} 0 opener (λ _ _. 4096) [] ≡ returns (some 77 ∷ [], start {M = ℕ} 1)
unfolding layout
main-start_example =
    main-start ℕ 0 opener 77 nodes [] built 24 8 synchronizer producer consumer (λ _ _. 4096) refl
      get_registry-built refl refl refl (Memᴰ.head refl, (0, refl), omega arith, omega arith)
      (Memᴰ.tail (Memᴰ.head refl), (3, refl), omega arith, omega arith)
      (Memᴰ.tail (Memᴰ.tail (Memᴰ.head refl)), (0, refl), omega arith, omega arith) (omega arith)
      (omega arith) (λ i size small. (omega arith, omega arith))
