-- ===== src/Runtime/Examples.antt =====
-- Two contexts with three actors: two producers and a consumer.
pub mod Objects
pub mod Shared
use dytor.Common.{
  ◌≤◌, ◌⊎◌, false, ℕ, ◌≡◌, List, [], ◌∷◌, ◌++◌, Memᴰ, Option, some, none, Exec, returns, panics,
  refl, sym, arith, All, get_elem?, ℕ_discrete,
}
use dytor.Arena.{IsLayout, Arena, Offset, compute_space_required, from_layouts}
use dytor.Arena.Fits.{Packed}
use dytor.Context.{ControlBlock}
use dytor.Graph.{ActorId, HashOrder}
use dytor.Graph.Chain.{Chain}
use dytor.Graph.Build.{Depends}
use dytor.Registry.{VTable, Registry, TypeId, by_name, empty_registry, layout}
use dytor.Object.{Memory, uninit, write}
use dytor.Lookup.{ActorTree}
use dytor.Config.{ActorConfig, Config, scope, no_children}
use dytor.Shutdown.{start, links}
use dytor.Runtime.Run.{run, run-start}
use dytor.Runtime.{
  ActorConstructorInfo, ContextConstructorArgs, layouts, place, allocate_actors,
  create_context_args, upto,
}
use dytor.Runtime.Create.{InitData, InitStage, construct_all, init_data, create_context}
use dytor.Runtime.Acyclic.{create_context-decides}
use dytor.Runtime.Placed.{IsFound, none_found, one_found, offsets, allocate_actors-Packed}
use dytor.Runtime.Arguments.{InTree}
use dytor.Runtime.Configured.{Allocates, HasSize, IsConfigured}
use dytor.Runtime.Returns.{create_context_args-returns}
use dytor.Runtime.Launch.{create_context_args-InTree}

abbrev producer : VTable
producer = record { type_id = 2; size = 16; align = 8 }

abbrev known : Registry
known = record empty_registry {
  actor_types = (2, producer) ∷ [];
  name_to_type_id = ("Producer", 2) ∷ [];
}

abbrev on : ℕ → ActorConfig ℕ
on c = record { typename = "Producer"; config = 7; context = c }

abbrev pair : Config ℕ
pair = record {
  root = scope none no_children (on 2 ∷ on 1 ∷ on 2 ∷ []) [];
  contexts =
      record { id = 1; thread_affinity = none } ∷ record { id = 2; thread_affinity = none } ∷ [];
}

abbrev heap : ℕ → ℕ
heap _ = 4096

abbrev found_pair : List (ActorConstructorInfo ℕ)
found_pair =
    record { id = 1; offset = 0; vtable = producer; cfg = on 2 }
    ∷ record { id = 3; offset = 0; vtable = producer; cfg = on 2 }
    ∷ []

capacity_of_pair : compute_space_required (layouts found_pair) ≡ returns 39
unfolding compute_space_required layout
capacity_of_pair = refl

by_name-producer : by_name known "Producer" ≡ some (2, producer)
unfolding by_name
by_name-producer = refl

found_pair-IsFound : IsFound known ((1, on 2) ∷ (3, on 2) ∷ []) found_pair
found_pair-IsFound = one_found by_name-producer (one_found by_name-producer none_found)

layouts_are : All IsLayout (layouts found_pair)
unfolding layout
layouts_are = ((3, refl), ((3, refl), tt))

abbrev tree_of_pair : ActorTree
tree_of_pair =
    record { id = 2; vtable = producer; loc = record { context_id = 1; offset = 0 } }
    ∷ record { id = 1; vtable = producer; loc = record { context_id = 2; offset = 0 } }
    ∷ record { id = 3; vtable = producer; loc = record { context_id = 2; offset = 16 } }
    ∷ []

abbrev first_thread : ContextConstructorArgs ℕ
first_thread = record {
  id = 1;
  actors = record { id = 2; offset = 0; vtable = producer; cfg = on 1 } ∷ [];
  arena = record { base = 4096; capacity = 23 };
  links = 1 ∷ [];
  tree = some tree_of_pair;
  make_tx = 0 ∷ 1 ∷ [];
  resource_map = [];
}

abbrev second_thread : ContextConstructorArgs ℕ
second_thread = record {
  id = 2;
  actors =
      record { id = 1; offset = 0; vtable = producer; cfg = on 2 }
      ∷ record { id = 3; offset = 16; vtable = producer; cfg = on 2 }
      ∷ [];
  arena = record { base = 4096; capacity = 39 };
  links = 0 ∷ [];
  tree = some tree_of_pair;
  make_tx = 0 ∷ 1 ∷ [];
  resource_map = [];
}

abbrev launched : List (ContextConstructorArgs ℕ)
launched = first_thread ∷ second_thread ∷ []

create_context_args-pair :
    create_context_args known (λ _. heap) pair
    ≡ returns (launched, record { unhandled_events = 2; freed = false })
unfolding create_context_args dytor.Context.new dytor.Runtime.look_up by_name layout
create_context_args-pair = refl

run-start_example :
    (run known (λ _. heap) pair ≡ returns (start {M = ℕ} 2))
    × (second_thread.links ≡ links 2 1)
    × (second_thread.make_tx ≡ upto 2)
run-start_example =
    run-start ℕ known (λ _. heap) pair launched (record { unhandled_events = 2; freed = false }) 1
      second_thread create_context_args-pair (omega arith) (omega arith) refl

create_context_args-InTree_example :
    (tree : ActorTree) × (t : TypeId) × (v : VTable) × (first_thread.tree ≡ some tree)
    × (by_name known "Producer" ≡ some (t, v))
    × InTree tree 3 v 2
create_context_args-InTree_example =
    create_context_args-InTree known (λ _. heap) pair launched
      (record { unhandled_events = 2; freed = false }) 2 (on 2) first_thread
      create_context_args-pair (omega arith) (omega arith) refl (omega arith) (Memᴰ.head refl)

abbrev any_order : HashOrder
any_order = record {
  of_map = λ xs. xs;
  of_set = λ _ xs. xs;
  of_map-mem = λ a xs. (λ m. m, λ m. m);
  of_set-mem = λ k a xs. (λ m. m, λ m. m);
}

-- An actor that asks for a local key of the actor that its configuration names.
abbrev read : VTable → ℕ → Option ℕ
read v x = some x

abbrev asks : VTable → InitStage → ℕ → InitData ℕ → Exec (Option (InitData ℕ))
asks v stage x init = returns (
    some (record init {
      dependence_relations =
          init.dependence_relations ++ record { from = stage.actor_being_constructed; to = x } ∷ [];
    }))

abbrev block_of_pair : ControlBlock
block_of_pair = record { unhandled_events = 2; freed = false }

abbrev constructed : InitData ℕ
constructed = record (init_data first_thread tree_of_pair block_of_pair) {
  dependence_relations = record { from = 2; to = 7 } ∷ [];
}

abbrev one_object : Memory
one_object = write uninit 4096 16 (record { actor = 2; type_id = 2 })

construct_all-constructed :
    construct_all read asks first_thread.arena [] first_thread.actors
      (init_data first_thread tree_of_pair block_of_pair, uninit)
    ≡ returns (constructed, one_object)
unfolding construct_all dytor.Arena.at_offset layout
construct_all-constructed = refl

create_context-decides_example :
    (((a : ActorId) × Chain (Depends constructed.dependence_relations) a a)
      × (create_context read asks any_order first_thread block_of_pair ≡ panics))
    ⊎ (((a : ActorId) → ¬ Chain (Depends constructed.dependence_relations) a a)
        × (create_context read asks any_order first_thread block_of_pair
            ≡ returns (
              record {
                data_of = constructed.data_of;
                arena = first_thread.arena;
                memory = one_object;
                drop_fns = (0, producer) ∷ [];
                links = 1 ∷ [];
              },
              block_of_pair,
            )))
create_context-decides_example =
    create_context-decides read asks any_order first_thread block_of_pair tree_of_pair constructed
      one_object refl construct_all-constructed

heap-Allocates : (i : ℕ) → Allocates 1 heap
heap-Allocates i size some_bytes small = (omega arith, omega arith)

on-IsConfigured : (c : ℕ) → 1 ≤ c → c ≤ 2 → IsConfigured known 2 24 8 (on c)
unfolding layout
on-IsConfigured c one two =
    (2, producer, by_name-producer, (3, refl), omega arith, omega arith, one, two)

on-HasSize : (c : ℕ) → HasSize known (on c)
on-HasSize c = (2, producer, by_name-producer, omega arith)

some_on :
    (c : ℕ)
    → 1 ≤ c
    → c ≤ 2
    → (k : ℕ) × (a : ActorConfig ℕ) × (get_elem? (on 2 ∷ on 1 ∷ on 2 ∷ []) k ≡ some a)
      × (a.context ≡ c)
      × HasSize known a
some_on c one two = elim (ℕ_discrete c 1) [
  | yes e ↦ (1, on 1, refl, sym e, on-HasSize 1)
  | no e ↦ (0, on 2, refl, omega arith, on-HasSize 2)
]

create_context_args-returns_example :
    (args : List (ContextConstructorArgs ℕ)) × (block : ControlBlock) × (create_context_args known
        (λ _. heap)
        pair
      ≡ returns (args, block))
unfolding dytor.Runtime.named_from
create_context_args-returns_example =
    create_context_args-returns known 2 24 8 (λ _. heap) heap-Allocates (omega arith) pair refl refl
      refl refl (omega arith) (omega arith) (omega arith)
      (
        on-IsConfigured 2 (omega arith) (omega arith),
        (
          on-IsConfigured 1 (omega arith) (omega arith),
          (on-IsConfigured 2 (omega arith) (omega arith), tt),
        ),
      )
      some_on
