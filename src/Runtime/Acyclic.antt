-- ===== src/Runtime/Acyclic.antt =====
-- Which local dependences `create_context` accepts.
use dytor.Common.{◌≡◌, Option, some, Exec, returns, panics, inl, inr, refl, ◌⊎◌}
use dytor.Context.{ControlBlock}
use dytor.Graph.{ActorId, HashOrder}
use dytor.Graph.Chain.{Chain}
use dytor.Graph.Build.{Depends}
use dytor.Graph.Decides.{has_cycles-decides}
use dytor.Registry.{VTable}
use dytor.Object.{Memory, uninit}
use dytor.Lookup.{ActorTree}
use dytor.Runtime.{ContextConstructorArgs}
use dytor.Runtime.Create.{
  InitData, InitStage, drop_fns_of, construct_all, init_data, accept, create_context,
}

module _ {V D M : Type 0} (deserialize : VTable → V → Option D)
    (initialise : VTable → InitStage → D → InitData M → Exec (Option (InitData M))) where
  -- Once all constructors have returned, `create_context` panics if some actor depends on itself by
  -- a chain of the relations that they asked for, and else returns the context that they left.
  pub create_context-decides :
      (order : HashOrder) (info : ContextConstructorArgs V) (block : ControlBlock)
      (tree : ActorTree) (init : InitData M) (memory : Memory)
      → info.tree ≡ some tree
      → construct_all deserialize initialise info.arena info.resource_map info.actors
          (init_data info tree block, uninit)
        ≡ returns (init, memory)
      → (((a : ActorId) × Chain (Depends init.dependence_relations) a a)
          × (create_context deserialize initialise order info block ≡ panics))
        ⊎ (((a : ActorId) → ¬ Chain (Depends init.dependence_relations) a a)
            × (create_context deserialize initialise order info block
                ≡ returns (
                  record {
                    data_of = init.data_of;
                    arena = info.arena;
                    memory = memory;
                    drop_fns = drop_fns_of info.actors;
                    links = info.links;
                  },
                  init.control_block,
                )))
  unfolding create_context accept
  create_context-decides order info block tree init memory has_tree made =
      elim (has_cycles-decides order init.dependence_relations) [
        | inl (t, e, cycle) ↦ inl (cycle, rw (has_tree, made, e) refl)
        | inr (t, e, acyclic) ↦ inr (acyclic, rw (has_tree, made, e) refl)
      ]
