-- ===== src/Runtime/Create.antt =====
-- `create_context` of runtime/mod.rs, which constructs the actors of a context in its thread.
use dytor.Common.{ℕ, true, false, List, [], ◌∷◌, Option, Exec, returns, panics, ◌>>=◌, unwrap}
use dytor.Common.Dict.{Dict}
use dytor.Arena.{Arena, Offset, at_offset, offset}
use dytor.Queue.{unbounded}
use dytor.Context.{ContextData, ControlBlock}
use dytor.Graph.{
  ActorId, DependenceRelation, HashOrder, Answer, answers, missing, out_of_fuel, has_cycles,
}
use dytor.Registry.{TypeId, VTable, layout}
use dytor.Object.{Memory, uninit, construct, drop}
use dytor.Lookup.{ActorTree}
use dytor.Runtime.{ActorConstructorInfo, ContextConstructorArgs}

-- `InitData`, over the type of messages, with the control block that accessors are counted in.
pub record InitData (M : Type 0) : Type 0 where
  pub data_of : ContextData M
  pub tree : ActorTree
  pub dependence_relations : List DependenceRelation
  pub make_tx : List ℕ
  pub control_block : ControlBlock

-- The part of `InitArgs` that tells an actor what it is, and the resources.
pub record InitStage : Type 0 where
  pub actor_being_constructed : ActorId
  pub actor_offset : Offset
  pub resources : Dict TypeId ℕ

-- `Context`, with the bytes of its arena; the queue `rx` is left out, and a drop function is named by
-- the table that it stands in.
pub record Context (M : Type 0) : Type 0 where
  pub data_of : ContextData M
  pub arena : Arena
  pub memory : Memory
  pub drop_fns : List (Offset × VTable)
  pub links : List ℕ

abbrev pub drop_fns_of : {V : Type 0} → List (ActorConstructorInfo V) → List (Offset × VTable)
drop_fns_of [] = []
drop_fns_of (a ∷ actors) = (a.offset, a.vtable) ∷ drop_fns_of actors

abbrev pub init_data :
    {V M : Type 0} → ContextConstructorArgs V → ActorTree → ControlBlock → InitData M
init_data info tree block = record {
  data_of = record { id = info.id; local_queue = unbounded; unsent_messages = [] };
  tree = tree;
  dependence_relations = [];
  make_tx = info.make_tx;
  control_block = block;
}

-- What follows the loop: `if graph::has_cycles(…) { panic!("Cycle detected"); }`
unfoldable pub accept :
    {M : Type 0} → Answer → Context M × ControlBlock → Exec (Context M × ControlBlock)
accept (answers false _) made = returns made
accept (answers true _) made = panics
accept missing made = panics
accept out_of_fuel made = panics

-- The code of the actors: `deserialize_yaml_value` of a table, and `init` of its actor, which may send
-- messages, make accessors and ask for local keys, or fail.
module _ {V D M : Type 0} (deserialize : VTable → V → Option D)
    (initialise : VTable → InitStage → D → InitData M → Exec (Option (InitData M))) where
  -- The loop over the actors.
  unfoldable pub construct_all :
      Arena
      → Dict TypeId ℕ
      → List (ActorConstructorInfo V)
      → InitData M × Memory
      → Exec (InitData M × Memory)
  unfolding construct
  construct_all arena resources [] init = returns init
  construct_all arena resources (a ∷ actors) init = do
    let init_stage : InitStage = record {
      actor_being_constructed = a.id;
      actor_offset = a.offset;
      resources = resources;
    }
    cfg ← unwrap (deserialize a.vtable a.cfg.config)
    buf ← at_offset arena a.offset (layout a.vtable)
    res ← construct (initialise a.vtable init_stage) a.vtable a.id buf cfg init
    init' ← unwrap res
    construct_all arena resources actors init'

  unfoldable pub create_context :
      HashOrder → ContextConstructorArgs V → ControlBlock → Exec (Context M × ControlBlock)
  unfolding construct_all accept
  create_context order info block = do
    tree ← unwrap info.tree
    init ←
        construct_all info.arena info.resource_map info.actors (init_data info tree block, uninit)
    accept (has_cycles order init.0.dependence_relations) (
      record {
        data_of = init.0.data_of;
        arena = info.arena;
        memory = init.1;
        drop_fns = drop_fns_of info.actors;
        links = info.links;
      },
      init.0.control_block,
    )

-- `Drop::drop` of a context: the loop over its drop functions.
unfoldable pub drop_all : Arena → List (Offset × VTable) → Memory → Exec Memory
unfolding drop offset
drop_all arena [] m = returns m
drop_all arena ((o, v) ∷ drop_fns) m = do m' ← drop v (offset arena o) m; drop_all arena drop_fns m'

unfoldable pub drop_context : {M : Type 0} → Context M → Exec Memory
unfolding drop_all
drop_context ctx = drop_all ctx.arena ctx.drop_fns ctx.memory
