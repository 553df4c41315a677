-- ===== src/Registry.antt =====
-- crates/core/dytor/src/registry.rs and the parts of object/mod.rs that it stores: which types of
-- actors a process knows. A `TypeId` and a `TraitId` are numbers; function pointers and the metadata
-- of trait objects are opaque values.
pub mod Found
pub mod Twice
pub mod Traits
pub mod Constructors
pub mod Macros
pub mod Nodes
pub mod Linked
pub mod Examples
use Prim.Native.String.{String}
use dytor.Common.{
  ℕ, ◌≡◌, Bool, true, false, List, [], ◌∷◌, ◌++◌, Option, none, some, Exec, returns, panics, ◌>>=◌,
  ◌>>◌, assert,
}
use dytor.Common.Dict.{Eq, nat_eq, string_eq, Dict, get, insert, alter}
use dytor.Arena.{Layout}

abbrev pub TypeId : Type 0
TypeId = ℕ

abbrev pub TraitId : Type 0
TraitId = ℕ

-- `VTable`, without its function pointers.
pub record VTable : Type 0 where
  pub type_id : TypeId
  pub size : ℕ
  pub align : ℕ

-- `VTable::layout`; the size and the alignment are those of a type, so that the layout is valid.
unfoldable pub layout : VTable → Layout
layout v = record { size = v.size; align = v.align }

pub record InterfaceMetadata : Type 0 where
  pub type_id : TypeId
  pub dyn_meta : ℕ

-- `RegistryBuilder`, and `Registry`, which has the same maps. A constructor of a resource is opaque.
pub record Registry : Type 0 where
  pub actor_types : Dict TypeId VTable
  pub trait_types : Dict TraitId (List InterfaceMetadata)
  pub name_to_type_id : Dict String TypeId
  pub resource_constructors : Dict TypeId ℕ

abbrev pub empty_registry : Registry
empty_registry = record {
  actor_types = [];
  trait_types = [];
  name_to_type_id = [];
  resource_constructors = [];
}

-- `anyhow::Result<()>`
pub data Registration : Type 0 where
  registered registered_twice : Registration

-- `anyhow::ensure!(prev.is_none(), …)`
abbrev pub ensure_none : {V : Type 0} → Option V → Registration
ensure_none none = registered
ensure_none (some _) = registered_twice

abbrev pub is_none : {V : Type 0} → Option V → Bool
is_none none = true
is_none (some _) = false

unfoldable pub init_resource : Registry → TypeId → ℕ → Registry × Registration
unfolding get insert
init_resource r t f = (
  record r { resource_constructors = insert t f r.resource_constructors },
  ensure_none (get t r.resource_constructors),
)

-- The loop over the traits of an actor.
unfoldable pub push_traits : List (TraitId × InterfaceMetadata) → Registry → Registry
unfolding alter
push_traits [] r = r
push_traits ((trait, meta) ∷ rest) r =
    push_traits rest
      (record r { trait_types = alter trait [] (λ metas. metas ++ meta ∷ []) r.trait_types })

-- An actor type: its name, its table and the traits that it is registered with.
pub record ActorType : Type 0 where
  pub name : String
  pub vtable : VTable
  pub traits : List (TraitId × InterfaceMetadata)

-- What follows `ensure!` in `init_actor`: the name is new, or the assertion fails.
unfoldable pub name_actor : Registry → ActorType → Exec Registry
unfolding get insert
name_actor r t =
    assert (is_none (get t.name r.name_to_type_id))
    >> returns (record r { name_to_type_id = insert t.name t.vtable.type_id r.name_to_type_id })

unfoldable pub init_actor : Registry → ActorType → Exec (Registry × Registration)
unfolding push_traits name_actor
init_actor r t =
    let prev = get t.vtable.type_id r.actor_types in
    let r' =
      push_traits t.traits
        (record r { actor_types = insert t.vtable.type_id t.vtable r.actor_types }) in
    elim (ensure_none prev) [
      | registered ↦ name_actor r' t >>= λ r''. returns (r'', registered)
      | registered_twice ↦ returns (r', registered_twice)
    ]

-- A `ListNode`: what `register_actor!` and `register_resource!` queue.
pub data ListNode : Type 0 where
  actor : ActorType → ListNode
  resource : TypeId → ℕ → ListNode

-- `(node.f)(&mut registry)`
unfoldable pub call : ListNode → Registry → Exec (Registry × Registration)
unfolding init_actor init_resource
call (actor t) r = init_actor r t
call (resource t f) r = returns (init_resource r t f)

-- `Result::unwrap`
abbrev pub unwrap_registered : Registry × Registration → Exec Registry
unwrap_registered (r, registered) = returns r
unwrap_registered (r, registered_twice) = panics

-- The loop of `Registry::get` over the nodes that `init_node` linked, the last one first.
unfoldable pub call_all : List ListNode → Registry → Exec Registry
unfolding call
call_all [] r = returns r
call_all (node ∷ rest) r = do res ← call node r; r' ← unwrap_registered res; call_all rest r'

unfoldable pub get_registry : List ListNode → Exec Registry
unfolding call_all
get_registry nodes = call_all nodes empty_registry

-- `Registry::by_name`
unfoldable pub by_name : Registry → String → Option (TypeId × VTable)
unfolding get
by_name r name = elim (get name r.name_to_type_id) [
  | none ↦ none
  | some t ↦ elim (get t r.actor_types) [ none ↦ none | some v ↦ some (t, v) ]
]
