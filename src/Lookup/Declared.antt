-- ===== src/Lookup/Declared.antt =====
-- Lookups by trait (lookup.rs) in a process whose actors were declared by the macros of registry.rs.
use dytor.Common.{◌≡◌, ◌↔◌, sym, subst, arith, ℕ, List, Memᴰ, returns}
use dytor.Context.{Key}
use dytor.Graph.{ActorId}
use dytor.Lookup.{ActorData, ActorTree, lookup_trait}
use dytor.Lookup.Traits.{lookup_trait_complete, lookup_trait_sound}
use dytor.Registry.{TypeId, TraitId, Registry, get_registry}
use dytor.Registry.Macros.{
  RustType, Declaration, register_actor, nodes_of, metadata_helper, get_metadata-mem, declared_by,
  nodes_of-mem,
}

-- The actor in the tree that an entry of a lookup by trait is: its type was declared with the trait.
abbrev pub IsDeclared :
    (TraitId → TypeId → ℕ) → List Declaration → TraitId → ActorTree → ActorId → Key ℕ → Type 0
IsDeclared metadata ds tr tree id key =
    (a : ActorData) × (t : RustType) × (traits : List TraitId) × Memᴰ a tree
    × Memᴰ (register_actor t traits) ds
    × Memᴰ tr traits
    × (a.vtable.type_id ≡ t.type_id)
    × (id ≡ a.id)
    × (key ≡ record { loc = a.loc; meta = metadata tr t.type_id })

-- In a process whose registry was built without a panic from the uses of the macros, whatever metadata
-- the compiler makes, a lookup by trait finds exactly the actors of the tree whose type is declared
-- with the trait: each with its id, its place, and the metadata of the trait for its own type.
pub lookup_trait_iff :
    (metadata : TraitId → TypeId → ℕ) (ds : List Declaration) (r : Registry)
    → get_registry (nodes_of metadata ds) ≡ returns r
    → (tr : TraitId) (tree : ActorTree) (id : ActorId) (key : Key ℕ)
    → Memᴰ (id, key) (lookup_trait r tr tree) ↔ IsDeclared metadata ds tr tree id key
lookup_trait_iff metadata ds r built tr tree id key = (forth, back)
  where
    forth : Memᴰ (id, key) (lookup_trait r tr tree) → IsDeclared metadata ds tr tree id key
    forth m =
        let (a, u, meta, inside, i, k, listed, declares, same) =
          lookup_trait_sound (nodes_of metadata ds) r built tr tree id key m in
        let (t, traits, d, q, e) = declared_by metadata ds u tr meta listed declares in
        (a, t, traits, inside, d, q, ground arith, i, ground arith)

    back : IsDeclared metadata ds tr tree id key → Memᴰ (id, key) (lookup_trait r tr tree)
    back (a, t, traits, inside, d, q, same, i, k) =
        let (x, u, by_u, with_x, typed, found) =
          lookup_trait_complete (nodes_of metadata ds) r built tr tree a _
            (metadata_helper metadata t tr).1 inside
            (nodes_of-mem metadata ds (register_actor t traits) d)
            (get_metadata-mem metadata t traits tr q) (sym same) in
        let (v, others, dv, qv, e) = declared_by metadata ds u tr x by_u with_x in
        subst (λ p. Memᴰ p (lookup_trait r tr tree)) (ground arith) found
