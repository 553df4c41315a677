-- ===== src/Calls/Examples.antt =====
-- A context of two actors, the first of which asks for a local key of the second, and calls it.
use mathlib.Core.List.Memᴰ
use dytor.Common.{
  ℕ, ◌<◌, ◌≡◌, true, false, List, [], ◌∷◌, ◌++◌, Memᴰ, Option, some, Exec, returns, refl, arith,
  inl, inr, ◌==◌, if◌then◌else◌,
}
use dytor.Arena.{Arena}
use dytor.Context.{ControlBlock}
use dytor.Graph.{ActorId, HashOrder, Cells, answers, has_cycles}
use dytor.Graph.Chain.{Chain}
use dytor.Graph.Build.{Depends}
use dytor.Registry.{VTable, layout}
use dytor.Object.{Memory, uninit, write}
use dytor.Lookup.{ActorTree, AcyclicLocalKey, acyclic_local_key}
use dytor.Runtime.{ContextConstructorArgs}
use dytor.Runtime.Create.{InitData, InitStage, Context, construct_all, init_data, create_context}
use dytor.Runtime.Acyclic.{create_context-decides}
use dytor.Calls.{
  Held, Borrow, Borrows, actors, distinct, Asks, none_asked, asked, runs, calls, Reach, BorrowReach,
  idle, after,
}
use dytor.Calls.Distinct.{
  Chain-less, call-distinct, two_ways, relations_of, borrow_mut-twice, call-twice,
}

abbrev table : VTable
table = record { type_id = 2; size = 16; align = 8 }

abbrev tree : ActorTree
tree =
    record { id = 1; vtable = table; loc = record { context_id = 1; offset = 0 } }
    ∷ record { id = 3; vtable = table; loc = record { context_id = 1; offset = 16 } }
    ∷ []

abbrev thread : ContextConstructorArgs ℕ
thread = record {
  id = 1;
  actors =
      record {
        id = 1;
        offset = 0;
        vtable = table;
        cfg = record { typename = "T"; config = 0; context = 1 };
      }
      ∷ record {
        id = 3;
        offset = 16;
        vtable = table;
        cfg = record { typename = "T"; config = 0; context = 1 };
      }
      ∷ [];
  arena = record { base = 4096; capacity = 39 };
  links = [];
  tree = some tree;
  make_tx = 0 ∷ [];
  resource_map = [];
}

abbrev block : ControlBlock
block = record { unhandled_events = 1; freed = false }

abbrev any_order : HashOrder
any_order = record {
  of_map = λ xs. xs;
  of_set = λ _ xs. xs;
  of_map-mem = λ a xs. (λ m. m, λ m. m);
  of_set-mem = λ k a xs. (λ m. m, λ m. m);
}

abbrev read : VTable → ℕ → Option ℕ
read v x = some x

abbrev one_asks : VTable → InitStage → ℕ → InitData ℕ → Exec (Option (InitData ℕ))
one_asks v stage x init =
    if stage.actor_being_constructed == 1
    then returns (
        some (record init {
          dependence_relations = init.dependence_relations ++ record { from = 1; to = 3 } ∷ [];
        }))
    else returns (some init)

abbrev constructed : InitData ℕ
constructed = record (init_data thread tree block) {
  dependence_relations = record { from = 1; to = 3 } ∷ [];
}

abbrev objects : Memory
objects =
    write (write uninit 4096 16 (record { actor = 1; type_id = 2 })) 4112 16
      (record { actor = 3; type_id = 2 })

construct_all-thread :
    construct_all read one_asks thread.arena thread.resource_map thread.actors
      (init_data thread tree block, uninit)
    ≡ returns (constructed, objects)
unfolding construct_all dytor.Arena.at_offset layout
construct_all-thread = refl

constructed-acyclic : (a : ActorId) → ¬ Chain (Depends constructed.dependence_relations) a a
constructed-acyclic a p =
    let f : ActorId → ℕ = λ v. if v == 1 then 1 else 0 in
    let d : (a b : ActorId) → Depends constructed.dependence_relations a b → f b < f a = λ a b m.
      elim (Memᴰ.cases_cons m) [ inl e ↦ ground arith | inr m ↦ absurd (Memᴰ.not-nil m) ] in
    absurd (omega (arith, Chain-less f d p))

abbrev returned : Context ℕ × ControlBlock
returned = (
  record {
    data_of = constructed.data_of;
    arena = thread.arena;
    memory = objects;
    drop_fns = (0, table) ∷ (16, table) ∷ [];
    links = [];
  },
  block,
)

create_context-returned : create_context read one_asks any_order thread block ≡ returns returned
create_context-returned =
    elim (create_context-decides read one_asks any_order thread block tree constructed objects refl
      construct_all-thread) [
        | inl ((a, cycle), _) ↦ absurd (constructed-acyclic a cycle)
        | inr (_, e) ↦ e
      ]

abbrev key_of_second : AcyclicLocalKey Unit
key_of_second = record { offset = 16; meta = tt }

abbrev held : List (Held Unit)
held = record { asker = 1; leads_to = 3; key = key_of_second } ∷ []

held-Asks : Asks held constructed.dependence_relations
unfolding acyclic_local_key
held-Asks =
    asked (record { actor_being_constructed = 1; context_id = 1; dependence_relations = [] })
      (record {
        actor_being_constructed = 1;
        context_id = 1;
        dependence_relations = constructed.dependence_relations;
      })
      [] 3 (record { loc = record { context_id = 1; offset = 16 }; meta = tt }) key_of_second
      none_asked refl

abbrev both : List Borrow
both =
    record { actor = 3; ptr = dytor.Arena.offset thread.arena 16 }
    ∷ record { actor = 1; ptr = dytor.Arena.offset thread.arena 0 }
    ∷ []

both-Reach : Reach false thread.arena held both
both-Reach = after (after idle (runs 1 0)) (calls (Memᴰ.head refl) refl)

call-distinct_example : distinct (actors both) ≡ true
call-distinct_example =
    call-distinct read one_asks any_order thread block tree constructed objects returned held both
      refl construct_all-thread create_context-returned held-Asks both-Reach

borrow_mut-twice_example :
    ((t : Cells) × (has_cycles any_order
          (relations_of (two_ways 1 2 3 key_of_second key_of_second key_of_second))
        ≡ answers false t))
    × ((s : Borrows) × BorrowReach false thread.arena
          (two_ways 1 2 3 key_of_second key_of_second key_of_second)
          s
        × (distinct (actors (s.running ++ s.kept)) ≡ false))
borrow_mut-twice_example =
    borrow_mut-twice any_order thread.arena 1 2 3 key_of_second key_of_second key_of_second
      (omega arith) (omega arith) (omega arith)

call-twice_example :
    ((t : Cells) × (has_cycles any_order
          (relations_of (two_ways 1 2 3 key_of_second key_of_second key_of_second))
        ≡ answers false t))
    × ((bs : List Borrow) × Reach true thread.arena
          (two_ways 1 2 3 key_of_second key_of_second key_of_second)
          bs
        × (distinct (actors bs) ≡ false))
call-twice_example =
    call-twice any_order thread.arena 1 2 3 key_of_second key_of_second key_of_second (omega arith)
      (omega arith) (omega arith)
