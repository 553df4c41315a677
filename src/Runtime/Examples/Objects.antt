-- ===== src/Runtime/Examples/Objects.antt =====
-- The objects of the two contexts, constructed, found by a key, and dropped.
use dytor.Common.{
  ◌*◌, ◌+◌, ◌++◌, List, ◌↔◌, false, ℕ, ◌≡◌, refl, arith, [], ◌∷◌, Memᴰ, some, none, returns, All,
}
use dytor.Common.Dict.{nat_eq, get}
use dytor.Lookup.{lookup_type, lookup_trait}
use dytor.Arena.{IsLayout}
use dytor.Arena.Fits.{Packed}
use dytor.Registry.{VTable, TypeId, TraitId, Registry, get_registry, layout}
use dytor.Registry.Macros.{RustType, Declaration, register_actor, nodes_of}
use dytor.Registry.Found.{by_name-parts}
use dytor.Object.{Memory, uninit, write}
use dytor.Runtime.{layouts, create_context_args}
use dytor.Runtime.Placed.{offsets}
use dytor.Runtime.Create.{InitData, init_data, construct_all, drop_all}
use dytor.Runtime.Objects.{Holds, AllHold}
use dytor.Runtime.Dropped.{construct_all-drop_all}
use dytor.Runtime.Constructs.{EndBefore, construct_all_iff}
use dytor.Runtime.Tables.{IsTable}
use dytor.Runtime.Homes.{HasLayouts}
use dytor.Context.{ContextData, Key, Msg, send_msg}
use dytor.Lookup.Groups.{mail}
use dytor.Messages.{ArgsCall, Thread, perform, run_msg}
use dytor.Messages.Typed.{send_msg-Holds, send_msg-dyn}
use dytor.Runtime.Examples.{
  producer, known, heap, pair, tree_of_pair, first_thread, second_thread, launched,
  create_context_args-pair, read, asks, block_of_pair, constructed, one_object,
  construct_all-constructed,
}

producer-IsLayout :
    (v : VTable) (t : TypeId) → get t known.actor_types ≡ some v → IsLayout (layout v)
unfolding get layout
producer-IsLayout v t h = (3, ground arith)

known-HasLayouts : HasLayouts known
known-HasLayouts name t v h = producer-IsLayout v t (by_name-parts known name t v h).1

first-Packed : Packed 4096 23 0 (layouts first_thread.actors) (offsets first_thread.actors)
unfolding layout
first-Packed = omega arith

first-IsLayout : All IsLayout (layouts first_thread.actors)
unfolding layout
first-IsLayout = ((3, refl), tt)

construct_all-drop_all_example :
    AllHold 4096 first_thread.actors one_object
    × ((m' : Memory) × (drop_all first_thread.arena ((0, producer) ∷ []) one_object ≡ returns m')
        × ((x : ℕ) → m' x ≡ none))
construct_all-drop_all_example =
    construct_all-drop_all read asks first_thread.arena [] first_thread.actors
      (init_data first_thread tree_of_pair block_of_pair) constructed one_object (omega arith)
      first-Packed first-IsLayout construct_all-constructed

construct_all_iff_example :
    ((x : InitData ℕ × Memory) × (construct_all read asks first_thread.arena [] first_thread.actors
          (init_data first_thread tree_of_pair block_of_pair, uninit)
        ≡ returns x))
    ↔ EndBefore 23 first_thread.actors
construct_all_iff_example =
    construct_all_iff read asks first_thread.arena [] (omega arith) (λ v c. (c, refl))
      (λ v stage d init. (_, refl)) first_thread.actors
      (init_data first_thread tree_of_pair block_of_pair) uninit first-Packed first-IsLayout

abbrev two_objects : Memory
two_objects =
    write (write uninit 4096 16 (record { actor = 1; type_id = 2 })) 4112 16
      (record { actor = 3; type_id = 2 })

abbrev second_constructed : InitData ℕ
second_constructed = record (init_data second_thread tree_of_pair block_of_pair) {
  dependence_relations = record { from = 1; to = 7 } ∷ record { from = 3; to = 7 } ∷ [];
}

construct_all-second :
    construct_all read asks second_thread.arena [] second_thread.actors
      (init_data second_thread tree_of_pair block_of_pair, uninit)
    ≡ returns (second_constructed, two_objects)
unfolding construct_all dytor.Arena.at_offset layout
construct_all-second = refl

abbrev adds : ℕ → ℕ → Unit {0} → ℕ → ℕ × List (ArgsCall (Unit {0}) ℕ)
adds f ptr meta total = (total + f, [])

abbrev third_key : Key (Unit {0})
third_key = record { loc = record { context_id = 2; offset = 16 }; meta = tt }

abbrev sender : ContextData (Msg (Unit {0}) ℕ)
sender = record { id = 1; local_queue = []; unsent_messages = [] }

abbrev receiver : Thread (Unit {0}) ℕ ℕ
receiver = record {
  data_of = record { id = 2; local_queue = []; unsent_messages = [] };
  objects = 30;
}

send_msg-Holds_example :
    (msg : Msg (Unit {0}) ℕ) × (ptr : ℕ) × (v : VTable) × (mail 2 (send_msg sender third_key 4)
      ≡ mail 2 sender ++ msg ∷ [])
    × (run_msg adds second_thread.arena msg receiver ≡ record {
      data_of = perform receiver.data_of (adds 4 ptr tt 30).1;
      objects = (adds 4 ptr tt 30).0;
    })
    × Holds two_objects ptr v.size (record { actor = 3; type_id = 2 })
    × (v.type_id ≡ 2)
    × IsTable known v
unfolding lookup_type
send_msg-Holds_example =
    send_msg-Holds known known-HasLayouts (λ _. heap) (λ i size small. omega arith) read asks pair
      launched (record { unhandled_events = 2; freed = false }) first_thread second_thread
      tree_of_pair 2 3 third_key (init_data second_thread tree_of_pair block_of_pair)
      second_constructed two_objects adds sender 4 receiver create_context_args-pair (omega arith)
      (Memᴰ.head refl) refl (Memᴰ.tail (Memᴰ.tail (Memᴰ.head refl))) (Memᴰ.tail (Memᴰ.head refl))
      refl construct_all-second

-- The same process, with the trait 7 for the producers, and metadata that a compiler may make.
abbrev declared_producer : RustType
declared_producer = record { ident = "Producer"; type_id = 2; size_of = 16; align_of = 8 }

abbrev declarations : List Declaration
declarations = register_actor declared_producer (7 ∷ []) ∷ []

abbrev metadata : TraitId → TypeId → ℕ
metadata tr t = 5 * tr + t

abbrev traited : Registry
traited = record known { trait_types = (7, record { type_id = 2; dyn_meta = 37 } ∷ []) ∷ [] }

get_registry-traited : get_registry (nodes_of metadata declarations) ≡ returns traited
unfolding get_registry
get_registry-traited = refl

traited-IsLayout :
    (v : VTable) (t : TypeId) → get t traited.actor_types ≡ some v → IsLayout (layout v)
unfolding get layout
traited-IsLayout v t h = (3, ground arith)

traited-HasLayouts : HasLayouts traited
traited-HasLayouts name t v h = traited-IsLayout v t (by_name-parts traited name t v h).1

create_context_args-traited :
    create_context_args traited (λ _. heap) pair
    ≡ returns (launched, record { unhandled_events = 2; freed = false })
unfolding create_context_args dytor.Context.new dytor.Runtime.look_up dytor.Registry.by_name layout
create_context_args-traited = refl

abbrev multiplies : ℕ → ℕ → ℕ → ℕ → ℕ × List (ArgsCall ℕ ℕ)
multiplies f ptr meta total = (total + f * meta, [])

abbrev third_dyn : Key ℕ
third_dyn = record { loc = record { context_id = 2; offset = 16 }; meta = 37 }

abbrev dyn_sender : ContextData (Msg ℕ ℕ)
dyn_sender = record { id = 1; local_queue = []; unsent_messages = [] }

abbrev dyn_receiver : Thread ℕ ℕ ℕ
dyn_receiver = record {
  data_of = record { id = 2; local_queue = []; unsent_messages = [] };
  objects = 30;
}

send_msg-dyn_example :
    (msg : Msg ℕ ℕ) × (ptr : ℕ) × (t : RustType) × (traits : List TraitId) × (v : VTable) × (mail 2
        (send_msg dyn_sender third_dyn 4)
      ≡ mail 2 dyn_sender ++ msg ∷ [])
    × (run_msg multiplies second_thread.arena msg dyn_receiver ≡ record {
      data_of = perform dyn_receiver.data_of (multiplies 4 ptr (metadata 7 t.type_id) 30).1;
      objects = (multiplies 4 ptr (metadata 7 t.type_id) 30).0;
    })
    × Holds two_objects ptr v.size (record { actor = 3; type_id = t.type_id })
    × (v.type_id ≡ t.type_id)
    × IsTable traited v
    × Memᴰ (register_actor t traits) declarations
    × Memᴰ 7 traits
unfolding lookup_trait
send_msg-dyn_example =
    send_msg-dyn traited traited-HasLayouts (λ _. heap) (λ i size small. omega arith) read asks pair
      launched (record { unhandled_events = 2; freed = false }) first_thread second_thread
      tree_of_pair metadata declarations 7 3 third_dyn
      (init_data second_thread tree_of_pair block_of_pair) second_constructed two_objects multiplies
      dyn_sender 4 dyn_receiver get_registry-traited create_context_args-traited (omega arith)
      (Memᴰ.head refl) refl (Memᴰ.tail (Memᴰ.tail (Memᴰ.head refl))) (Memᴰ.tail (Memᴰ.head refl))
      refl construct_all-second
