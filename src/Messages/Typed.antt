-- ===== src/Messages/Typed.antt =====
-- A message to a key that a query found (lookup.rs), from `send_msg` (context.rs) to the object that
-- its function is called on.
use dytor.Common.{
  ℕ, ◌<◌, ◌≡◌, refl, subst, sym, ◌∙◌, ap, List, [], ◌∷◌, ◌++◌, Memᴰ, Option, some, Exec, returns,
  length, u32_mod, true, ==_iff, ◌==◌,
}
use dytor.Arena.{offset}
use dytor.Context.{ContextData, Loc, Key, Msg, ControlBlock, send_msg}
use dytor.Graph.{ActorId}
use dytor.Registry.{TypeId, TraitId, VTable, Registry, get_registry}
use dytor.Registry.Macros.{RustType, Declaration, register_actor, nodes_of}
use dytor.Lookup.Declared.{lookup_trait_iff}
use dytor.Lookup.{ActorTree, lookup_type, lookup_trait}
use dytor.Lookup.Groups.{mail, mail-route}
use dytor.Config.{Config}
use dytor.Object.{Memory, uninit}
use dytor.Runtime.{ContextConstructorArgs, create_context_args}
use dytor.Runtime.Create.{InitData, InitStage, construct_all}
use dytor.Runtime.Homes.{HasLayouts, Fitting}
use dytor.Runtime.Objects.{Holds}
use dytor.Runtime.Tables.{IsTable}
use dytor.Runtime.Keys.{entry-Holds, lookup_type-Holds}
use dytor.Messages.{ArgsCall, Thread, perform, run_msg}

module _ {V : Type 0} (r : Registry) (valid : HasLayouts r) (alloc : ℕ → ℕ → ℕ)
    (fits : (i : ℕ) → Fitting (alloc i)) where
  -- Let all tables of the registry have valid layouts, the allocator return blocks within the address
  -- space, and the contexts be fewer than 2^32; and let a thread have found a key for an actor of a type
  -- in the tree that `create_context_args` gave it. Then `send_msg` to that key adds one message for
  -- the context that the key names, behind the others. When that context has constructed its actors,
  -- running the message there calls its function once, at an address at which the object of that actor
  -- stands, of that type and of the size in a table that the registry has for the type.
  pub send_msg-Holds :
      {D M F S : Type 0} (deserialize : VTable → V → Option D)
      (initialise : VTable → InitStage → D → InitData M → Exec (Option (InitData M)))
      (config : Config V) (args : List (ContextConstructorArgs V)) (block : ControlBlock)
      (asking home : ContextConstructorArgs V) (tree : ActorTree) (t : TypeId) (id : ActorId)
      (key : Key (Unit {0})) (init init' : InitData M) (m : Memory)
      (code : F → ℕ → Unit {0} → S → S × List (ArgsCall (Unit {0}) F))
      (d : ContextData (Msg (Unit {0}) F)) (f : F) (th : Thread (Unit {0}) F S)
      → create_context_args r alloc config ≡ returns (args, block)
      → length config.contexts < u32_mod
      → Memᴰ asking args
      → asking.tree ≡ some tree
      → Memᴰ (id, key) (lookup_type t tree)
      → Memᴰ home args
      → key.loc.context_id ≡ home.id
      → construct_all deserialize initialise home.arena home.resource_map home.actors (init, uninit)
        ≡ returns (init', m)
      → (msg : Msg (Unit {0}) F) × (ptr : ℕ) × (v : VTable) × (mail home.id (send_msg d key f)
          ≡ mail home.id d ++ msg ∷ [])
        × (run_msg code home.arena msg th ≡ record {
          data_of = perform th.data_of (code f ptr tt th.objects).1;
          objects = (code f ptr tt th.objects).0;
        })
        × Holds m ptr v.size (record { actor = id; type_id = t })
        × (v.type_id ≡ t)
        × IsTable r v
  unfolding send_msg
  send_msg-Holds {F = F} deserialize initialise config args block asking home tree t id key init
        init' m code d f th h few ask has_tree found at_home same made =
      let (v, is_table, typed, there) =
        lookup_type-Holds r valid alloc fits deserialize initialise config args block asking home
          tree t id key init init' m h few ask has_tree found at_home same made in
      let msg : Msg (Unit {0}) F = record { refs = (key.loc.offset, key.meta) ∷ []; call = f } in
      let here : (key.loc.context_id == home.id) ≡ true =
        (==_iff key.loc.context_id home.id).1 same in
      (
        msg,
        offset home.arena key.loc.offset,
        v,
        mail-route home.id key.loc.context_id d msg ∙ rw here refl,
        refl,
        there,
        typed,
        is_table,
      )

  -- Let all tables of the registry have valid layouts, the allocator return blocks within the address
  -- space, the contexts be fewer than 2^32, and the registry have been built without a panic from the
  -- uses of the macros; and let a thread have found a key by a trait in the tree that
  -- `create_context_args` gave it. Then `send_msg` to that key adds one message for the context that the
  -- key names, behind the others. When that context has constructed its actors, running the message
  -- there calls its function once, at an address at which the object of the actor stands, of a type that
  -- was declared with the trait and of the size in a table that the registry has for the type; and it
  -- passes the metadata that the compiler made for the trait and just that type.
  pub send_msg-dyn :
      {D M F S : Type 0} (deserialize : VTable → V → Option D)
      (initialise : VTable → InitStage → D → InitData M → Exec (Option (InitData M)))
      (config : Config V) (args : List (ContextConstructorArgs V)) (block : ControlBlock)
      (asking home : ContextConstructorArgs V) (tree : ActorTree) (metadata : TraitId → TypeId → ℕ)
      (ds : List Declaration) (tr : TraitId) (id : ActorId) (key : Key ℕ) (init init' : InitData M)
      (m : Memory) (code : F → ℕ → ℕ → S → S × List (ArgsCall ℕ F)) (d : ContextData (Msg ℕ F))
      (f : F) (th : Thread ℕ F S)
      → get_registry (nodes_of metadata ds) ≡ returns r
      → create_context_args r alloc config ≡ returns (args, block)
      → length config.contexts < u32_mod
      → Memᴰ asking args
      → asking.tree ≡ some tree
      → Memᴰ (id, key) (lookup_trait r tr tree)
      → Memᴰ home args
      → key.loc.context_id ≡ home.id
      → construct_all deserialize initialise home.arena home.resource_map home.actors (init, uninit)
        ≡ returns (init', m)
      → (msg : Msg ℕ F) × (ptr : ℕ) × (t : RustType) × (traits : List TraitId) × (v : VTable)
        × (mail home.id (send_msg d key f) ≡ mail home.id d ++ msg ∷ [])
        × (run_msg code home.arena msg th ≡ record {
          data_of = perform th.data_of (code f ptr (metadata tr t.type_id) th.objects).1;
          objects = (code f ptr (metadata tr t.type_id) th.objects).0;
        })
        × Holds m ptr v.size (record { actor = id; type_id = t.type_id })
        × (v.type_id ≡ t.type_id)
        × IsTable r v
        × Memᴰ (register_actor t traits) ds
        × Memᴰ tr traits
  unfolding send_msg
  send_msg-dyn {F = F} deserialize initialise config args block asking home tree metadata ds trait
        id key init init' m code d f th built h few ask has_tree found at_home same made =
      let (a, t, traits, inside, listed, with_tr, typed, ie, ke) =
        (lookup_trait_iff metadata ds r built trait tree id key).0 found in
      let le : key.loc ≡ a.loc = ap (λ k. k.loc) ke in
      let (there, is_table) =
        entry-Holds r valid alloc fits deserialize initialise config args block asking home tree a
          init init' m h few ask has_tree inside at_home (ap (λ x. x.context_id) (sym le) ∙ same)
          made in
      let msg : Msg ℕ F = record { refs = (key.loc.offset, key.meta) ∷ []; call = f } in
      let here : (key.loc.context_id == home.id) ≡ true =
        (==_iff key.loc.context_id home.id).1 same in
      let is_meta : key.meta ≡ metadata trait t.type_id = ap (λ k. k.meta) ke in
      let ptr = offset home.arena key.loc.offset in
      (
        msg,
        ptr,
        t,
        traits,
        a.vtable,
        mail-route home.id key.loc.context_id d msg ∙ rw here refl,
        ap
            (λ (meta : ℕ). record {
              data_of = perform th.data_of (code f ptr meta th.objects).1;
              objects = (code f ptr meta th.objects).0;
            })
            is_meta,
        subst
            (λ (x : Loc × ActorId × TypeId).
              Holds m (offset home.arena x.0.offset) a.vtable.size
                (record { actor = x.1; type_id = x.2 }))
            (λ i. (sym le i, sym ie i, typed i)) there,
        typed,
        is_table,
        listed,
        with_tr,
      )
