-- ===== src/Lookup.antt =====
-- crates/core/dytor/src/lookup.rs: the actors of a process, the queries of an actor that is being
-- constructed, and the keys that they hand out.
pub mod Groups
pub mod Local
pub mod Traits
pub mod Declared
pub mod Grab
pub mod Examples
use dytor.Common.{
  ℕ, suc, ◌+◌, ◌≡◌, Bool, true, false, not, List, [], ◌∷◌, ◌++◌, Option, none, some, Exec, returns,
  panics, ◌>>=◌, ◌>>◌, assert, unwrap, get_elem?, ◌==◌, if◌then◌else◌,
}
use dytor.Common.Dict.{Eq, nat_eq, Dict, get, alter}
use dytor.Arena.{Offset}
use dytor.Context.{ContextId, as_index, Loc, Key, BroadcastGroup, ControlBlock, clone}
use dytor.Graph.{ActorId, DependenceRelation}
use dytor.Registry.{TypeId, TraitId, VTable, InterfaceMetadata, Registry}

pub record ActorData : Type 0 where
  pub id : ActorId
  pub vtable : VTable
  pub loc : Loc

abbrev pub ActorTree : Type 0
ActorTree = List ActorData

-- What a query iterates over.
abbrev pub Found : Type 0 → Type 0
Found Meta = List (ActorId × Key Meta)

-- `Lookup<T, ()>`: the actors of one type.
unfoldable pub lookup_type : TypeId → ActorTree → Found (Unit {0})
lookup_type t [] = []
lookup_type t (a ∷ tree) =
    let rest = lookup_type t tree in
    if a.vtable.type_id == t then (a.id, record { loc = a.loc; meta = tt }) ∷ rest else rest

-- `types.iter().find(|x| x.type_id == t)`
unfoldable pub find_type : TypeId → List InterfaceMetadata → Option InterfaceMetadata
find_type t [] = none
find_type t (x ∷ xs) = if x.type_id == t then some x else find_type t xs

-- The body of `Lookup<T, DynMetadata<T>>`, over the types that implement the trait.
unfoldable pub lookup_among : List InterfaceMetadata → ActorTree → Found ℕ
unfolding find_type
lookup_among types [] = []
lookup_among types (a ∷ tree) =
    let rest = lookup_among types tree in
    elim (find_type a.vtable.type_id types) [
      | none ↦ rest
      | some x ↦ (a.id, record { loc = a.loc; meta = x.dyn_meta }) ∷ rest
    ]

unfoldable pub lookup_trait : Registry → TraitId → ActorTree → Found ℕ
unfolding lookup_among get
lookup_trait r t tree =
    lookup_among (elim (get t r.trait_types) [ none ↦ [] | some types ↦ types ]) tree

-- The queue of an accessor is named by the index of its context.
pub record Accessor (Meta : Type 0) : Type 0 where
  pub offset : Offset
  pub metadata : Meta
  pub ctx_queue : ℕ

pub record AcyclicLocalKey (Meta : Type 0) : Type 0 where
  pub offset : Offset
  pub meta : Meta

-- The part of `InitArgs` that the queries use.
pub record InitArgs : Type 0 where
  pub actor_being_constructed : ActorId
  pub context_id : ContextId
  pub dependence_relations : List DependenceRelation

module _ {Meta : Type 0} where
  unfoldable pub all_keys : Found Meta → List (Key Meta)
  all_keys [] = []
  all_keys ((id, key) ∷ found) = key ∷ all_keys found

  unfoldable pub exactly_one_key : Found Meta → Exec (Key Meta)
  exactly_one_key [] = panics
  exactly_one_key ((id, key) ∷ []) = returns key
  exactly_one_key (_ ∷ _ ∷ _) = panics

  -- `InitArgs::accessor_for_key`, with `make_tx` a list of indices.
  unfoldable pub accessor_for_key :
      List ℕ → Key Meta → ControlBlock → Exec (Accessor Meta × ControlBlock)
  accessor_for_key make_tx key block = do
    queue ← unwrap (get_elem? make_tx (as_index key.loc.context_id))
    returns
        (record { offset = key.loc.offset; metadata = key.meta; ctx_queue = queue }, clone block)

  -- `InitArgs::accessor`, for the actor that is being constructed, at `actor_offset` of the context
  unfoldable pub accessor :
      List ℕ → ContextId → Offset → Meta → ControlBlock → Exec (Accessor Meta × ControlBlock)
  accessor make_tx id actor_offset metadata block = do
    queue ← unwrap (get_elem? make_tx (as_index id))
    returns (record { offset = actor_offset; metadata = metadata; ctx_queue = queue }, clone block)

  unfoldable pub all_accessors :
      List ℕ → Found Meta → ControlBlock → Exec (List (Accessor Meta) × ControlBlock)
  unfolding accessor_for_key
  all_accessors make_tx [] block = returns ([], block)
  all_accessors make_tx ((id, key) ∷ found) block = do
    first ← accessor_for_key make_tx key block
    rest ← all_accessors make_tx found first.1
    returns (first.0 ∷ rest.0, rest.1)

  -- The loop of `broadcast_group`.
  unfoldable pub group_into :
      Found Meta → Dict ContextId (List (Offset × Meta)) → Dict ContextId (List (Offset × Meta))
  unfolding alter
  group_into [] d = d
  group_into ((id, key) ∷ found) d =
      group_into found
        (alter key.loc.context_id [] (λ refs. refs ++ (key.loc.offset, key.meta) ∷ []) d)

  -- `broadcast_group`, for an order in which the map is iterated.
  unfoldable pub broadcast_group :
      (Dict ContextId (List (Offset × Meta)) → Dict ContextId (List (Offset × Meta)))
      → Found Meta
      → BroadcastGroup Meta
  unfolding group_into
  broadcast_group order found = order (group_into found [])

  -- `acyclic_local_key`
  unfoldable pub acyclic_local_key : Found Meta → InitArgs → Exec (AcyclicLocalKey Meta × InitArgs)
  acyclic_local_key [] args = panics
  acyclic_local_key ((id, key) ∷ _ ∷ _) args = panics
  acyclic_local_key ((id, key) ∷ []) args = do
    assert (key.loc.context_id == args.context_id)
    assert (not (id == args.actor_being_constructed))
    returns (
      record { offset = key.loc.offset; meta = key.meta },
      record args {
        dependence_relations =
            args.dependence_relations
            ++ record { from = args.actor_being_constructed; to = id } ∷ [];
      },
    )
