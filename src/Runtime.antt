-- ===== src/Runtime.antt =====
-- crates/core/dytor/src/runtime/mod.rs up to `run_thread`: how the contexts of a configuration are
-- laid out and constructed. The allocator, the deserialization of an actor's configuration and the
-- actors' constructors are parameters.
pub mod Create
pub mod Acyclic
pub mod Objects
pub mod Dropped
pub mod Constructs
pub mod Placed
pub mod Distributed
pub mod Arguments
pub mod Launch
pub mod Run
pub mod Homes
pub mod Tables
pub mod Keys
pub mod Resources
pub mod Lazy
pub mod Configured
pub mod Returns
pub mod Examples
use dytor.Common.{
  ℕ, zero, suc, ◌+◌, ◌%◌, Bool, true, false, List, [], ◌∷◌, ◌++◌, map, length, Option, none, some,
  Exec, returns, panics, ◌>>=◌, ◌>>◌, assert, unwrap, u32_mod, ltb, ◌==◌, if◌then◌else◌,
}
use dytor.Common.Dict.{Eq, nat_eq, string_eq, Dict}
use dytor.Arena.{Arena, Layout, Offset, from_layouts, at_offset}
use dytor.Queue.{unbounded}
use dytor.Context.{ContextId, as_index, new, ContextData, ControlBlock, new_block, clone, release}
use dytor.Graph.{
  ActorId, DependenceRelation, HashOrder, Answer, answers, missing, out_of_fuel, has_cycles,
}
use dytor.Registry.{TypeId, VTable, layout, Registry, by_name}
use dytor.Lookup.{ActorData, ActorTree}
use dytor.Shutdown.{links}
use dytor.Config.{
  ActorConfig, Scope, Children, has_no_children, children, actors_in, imported_scopes,
  ContextConfig, Config,
}

pub record ActorConstructorInfo (V : Type 0) : Type 0 where
  pub id : ActorId
  pub offset : Offset
  pub vtable : VTable
  pub cfg : ActorConfig V

-- The closure of the first loop of `allocate_actors`. All constructors are those of actors, so that
-- the assertion on their kind holds.
unfoldable pub look_up :
    {V : Type 0} → Registry → ActorId × ActorConfig V → Exec (ActorConstructorInfo V)
look_up r (id, cfg) = do
  found ← unwrap (by_name r cfg.typename)
  returns (record { id = id; offset = 0; vtable = found.1; cfg = cfg })

unfoldable pub look_up_all :
    {V : Type 0} → Registry → List (ActorId × ActorConfig V) → Exec (List (ActorConstructorInfo V))
look_up_all r [] = returns []
look_up_all r (c ∷ configs) = do
  info ← look_up r c
  infos ← look_up_all r configs
  returns (info ∷ infos)

abbrev pub layouts : {V : Type 0} → List (ActorConstructorInfo V) → List Layout
layouts [] = []
layouts (info ∷ infos) = layout info.vtable ∷ layouts infos

-- `for (info, offset) in constructor_info.iter_mut().zip(offsets)`
unfoldable pub place :
    {V : Type 0} → List (ActorConstructorInfo V) → List Offset → List (ActorConstructorInfo V)
place (info ∷ infos) (o ∷ offsets) = record info { offset = o } ∷ place infos offsets
place infos [] = infos
place [] (o ∷ offsets) = []

unfoldable pub allocate_actors :
    {V : Type 0}
    → Registry
    → (ℕ → ℕ)
    → List (ActorId × ActorConfig V)
    → Exec (Arena × List (ActorConstructorInfo V))
unfolding look_up_all from_layouts place
allocate_actors r alloc configs = do
  infos ← look_up_all r configs
  made ← from_layouts alloc (layouts infos)
  assert (length made.1 == length infos)
  returns (made.0, place infos made.1)

-- A queue is named by the index of its context; `rx`, the queue of the context itself, is left out.
pub record ContextConstructorArgs (V : Type 0) : Type 0 where
  pub id : ContextId
  pub actors : List (ActorConstructorInfo V)
  pub arena : Arena
  pub links : List ℕ
  pub tree : Option ActorTree
  pub make_tx : List ℕ
  pub resource_map : Dict TypeId ℕ

-- `enumerate().all(|(i, b)| i == b.id.as_index())`
unfoldable pub named_from : ℕ → List ContextConfig → Bool
named_from i [] = true
named_from i (b ∷ contexts) = if i == as_index b.id then named_from (suc i) contexts else false

-- `ActorId::new(i as u32 + 1).unwrap()`, and likewise for a context.
unfoldable pub id_of : ℕ → Exec ℕ
id_of i = if ltb (i % u32_mod + 1) u32_mod then unwrap (new (i % u32_mod + 1)) else panics

-- `contexts[index].actors.push(x)`
unfoldable pub push_at : {A : Type 0} → ℕ → A → List (List A) → Exec (List (List A))
push_at i x [] = panics
push_at zero x (xs ∷ groups) = returns ((xs ++ x ∷ []) ∷ groups)
push_at (suc i) x (xs ∷ groups) = do rest ← push_at i x groups; returns (xs ∷ rest)

-- The loop over `ns.actors`, from the actor of index `i` on.
unfoldable pub distribute :
    {V : Type 0}
    → ℕ
    → List (ActorConfig V)
    → List (List (ActorId × ActorConfig V))
    → Exec (List (List (ActorId × ActorConfig V)))
unfolding id_of push_at
distribute i [] groups = returns groups
distribute i (c ∷ actors) groups = do
  id ← id_of i
  groups' ← push_at (as_index c.context) (id, c) groups
  distribute (suc i) actors groups'

-- The actors of a context in the tree.
unfoldable pub in_context : {V : Type 0} → ContextId → List (ActorConstructorInfo V) → ActorTree
in_context id [] = []
in_context id (a ∷ actors) =
    record { id = a.id; vtable = a.vtable; loc = record { context_id = id; offset = a.offset } }
    ∷ in_context id actors

abbrev pub upto : ℕ → List ℕ
upto zero = []
upto (suc n) = upto n ++ n ∷ []

abbrev pub empty_groups : {A B : Type 0} → List A → List (List B)
empty_groups [] = []
empty_groups (_ ∷ xs) = [] ∷ empty_groups xs

-- What the loop over the contexts has made so far.
pub record Made (V : Type 0) : Type 0 where
  pub constructor_args : List (ContextConstructorArgs V)
  pub tree : ActorTree
  pub control_block : ControlBlock

-- The loop over `n` contexts, from that of index `i` on; `alloc i` is the allocator's answer to the
-- request for the arena of that context.
unfoldable pub make_args :
    {V : Type 0}
    → Registry
    → (ℕ → ℕ → ℕ)
    → ℕ
    → ℕ
    → List (List (ActorId × ActorConfig V))
    → Made V
    → Exec (Made V)
unfolding id_of allocate_actors in_context links
make_args r alloc n i [] made = returns made
make_args r alloc n i (configs ∷ groups) made = do
  id ← id_of i
  allocated ← allocate_actors r (alloc i) configs
  make_args r alloc n (suc i) groups (record {
    constructor_args =
        made.constructor_args
        ++ record {
          id = id;
          actors = allocated.1;
          arena = allocated.0;
          links = links n i;
          tree = none;
          make_tx = upto n;
          resource_map = r.resource_constructors;
        }
          ∷ [];
    tree = made.tree ++ in_context id allocated.1;
    control_block = clone made.control_block;
  })

-- `for ctx in &mut constructor_args { ctx.tree = Some(tree.clone()); }`
unfoldable pub with_tree :
    {V : Type 0} → ActorTree → List (ContextConstructorArgs V) → List (ContextConstructorArgs V)
with_tree tree [] = []
with_tree tree (c ∷ cs) = record c { tree = some tree } ∷ with_tree tree cs

-- `create_context_args`, with the control block.
unfoldable pub create_context_args :
    {V : Type 0}
    → Registry
    → (ℕ → ℕ → ℕ)
    → Config V
    → Exec (List (ContextConstructorArgs V) × ControlBlock)
unfolding named_from distribute make_args with_tree
create_context_args r alloc config = do
  assert (has_no_children (children config.root))
  assert (length (imported_scopes config.root) == 0)
  assert (named_from 0 config.contexts)
  groups ← distribute 0 (actors_in config.root) (empty_groups config.contexts)
  made ←
      make_args r alloc (length config.contexts) 0 groups
        (record { constructor_args = []; tree = []; control_block = new_block })
  returns (with_tree made.tree made.constructor_args, release made.control_block)
