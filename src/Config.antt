-- ===== src/Config.antt =====
-- crates/core/dytor/src/config.rs: what a deployment file says. `V` is the type of the values that
-- configure an actor, which the actor's own code deserializes.
use Prim.Native.String.{String}
use dytor.Common.{ℕ, List, Option, Bool, true, false}
use dytor.Context.{ContextId}

pub record ActorConfig (V : Type 0) : Type 0 where
  pub typename : String
  pub config : V
  pub context : ContextId

-- `Scope`, with the fields in the order of the source, and the map of its children.
mutual
  pub data Scope (V : Type 0) : Type 0 where
    scope : Option String → Children V → List (ActorConfig V) → List String → Scope V

  pub data Children (V : Type 0) : Type 0 where
    no_children : Children V
    child : String → Scope V → Children V → Children V

abbrev pub children : {V : Type 0} → Scope V → Children V
children (scope name cs actors imports) = cs

abbrev pub actors_in : {V : Type 0} → Scope V → List (ActorConfig V)
actors_in (scope name cs actors imports) = actors

abbrev pub imported_scopes : {V : Type 0} → Scope V → List String
imported_scopes (scope name cs actors imports) = imports

-- `HashMap::is_empty`
abbrev pub has_no_children : {V : Type 0} → Children V → Bool
has_no_children no_children = true
has_no_children (child name s rest) = false

-- `Context`
pub record ContextConfig : Type 0 where
  pub id : ContextId
  pub thread_affinity : Option (List ℕ)

pub record Config (V : Type 0) : Type 0 where
  pub root : Scope V
  pub contexts : List ContextConfig
