-- ===== src/Registry/Macros.antt =====
-- The macros of crates/core/dytor/src/registry.rs that declare actors and resources, the table that
-- `VTable::new_impl` (object/mod.rs) makes for a type, and the name that the derive macro of
-- crates/core/dytor_proc_macros/src/lib.rs gives it.
use Prim.Native.String.{String}
use mathlib.Core.List.Memᴰ
use dytor.Common.{ℕ, ◌≡◌, refl, ap, subst, arith, List, [], ◌∷◌, Memᴰ, inl, inr}
use dytor.Registry.{
  TypeId, TraitId, VTable, InterfaceMetadata, ActorType, ListNode, actor, resource,
}

-- What the compiler knows of a type that is registered.
pub record RustType : Type 0 where
  pub ident : String
  pub type_id : TypeId
  pub size_of : ℕ
  pub align_of : ℕ

-- `VTable::new_impl`, without the function pointers
abbrev pub new_impl : RustType → VTable
new_impl t = record { type_id = t.type_id; size = t.size_of; align = t.align_of }

-- `UniquelyNamed::name` as `uniquely_named_derive` writes it
abbrev pub name : RustType → String
name t = t.ident

-- A use of `register_actor!` or of `register_resource!` with a closure.
pub data Declaration : Type 0 where
  register_actor : RustType → List TraitId → Declaration
  register_resource : TypeId → ℕ → Declaration

-- The metadata of a trait object, which the compiler makes for a type and a trait.
module _ (metadata : TraitId → TypeId → ℕ) where
  abbrev pub metadata_helper : RustType → TraitId → TraitId × InterfaceMetadata
  metadata_helper t tr = (tr, record { type_id = t.type_id; dyn_meta = metadata tr t.type_id })

  abbrev pub get_metadata : RustType → List TraitId → List (TraitId × InterfaceMetadata)
  get_metadata t [] = []
  get_metadata t (tr ∷ traits) = metadata_helper t tr ∷ get_metadata t traits

  -- `NODE` of `register_actor!`
  abbrev pub actor_node : RustType → List TraitId → ListNode
  actor_node t traits =
      actor (record { name = name t; vtable = new_impl t; traits = get_metadata t traits })

  -- `NODE` of `register_resource!`
  abbrev pub resource_node : TypeId → ℕ → ListNode
  resource_node t closure = resource t closure

  -- The node that a use of a macro declares.
  abbrev pub node : Declaration → ListNode
  node (register_actor t traits) = actor_node t traits
  node (register_resource t closure) = resource_node t closure

  abbrev pub nodes_of : List Declaration → List ListNode
  nodes_of [] = []
  nodes_of (d ∷ ds) = node d ∷ nodes_of ds

  mem-get_metadata :
      (t : RustType) (traits : List TraitId) (tr : TraitId) (meta : InterfaceMetadata)
      → Memᴰ (tr, meta) (get_metadata t traits)
      → Memᴰ tr traits × (meta ≡ record { type_id = t.type_id; dyn_meta = metadata tr t.type_id })
  mem-get_metadata t [] tr meta m = absurd (Memᴰ.not-nil m)
  mem-get_metadata t (x ∷ traits) tr meta m = elim (Memᴰ.cases_cons m) [
    | inl e ↦ (Memᴰ.head (ap (λ p. p.0) e), ground arith)
    | inr after ↦ let (q, e) = mem-get_metadata t traits tr meta after in (Memᴰ.tail q, e)
  ]

  pub get_metadata-mem :
      (t : RustType) (traits : List TraitId) (tr : TraitId)
      → Memᴰ tr traits
      → Memᴰ (metadata_helper t tr) (get_metadata t traits)
  get_metadata-mem t [] tr m = absurd (Memᴰ.not-nil m)
  get_metadata-mem t (x ∷ traits) tr m = elim (Memᴰ.cases_cons m) [
    | inl e ↦ Memᴰ.head (ap (metadata_helper t) e)
    | inr after ↦ Memᴰ.tail (get_metadata-mem t traits tr after)
  ]

  -- The declaration behind a trait of a node.
  pub declared_by :
      (ds : List Declaration) (u : ActorType) (tr : TraitId) (meta : InterfaceMetadata)
      → Memᴰ (actor u) (nodes_of ds)
      → Memᴰ (tr, meta) u.traits
      → (t : RustType) × (traits : List TraitId) × Memᴰ (register_actor t traits) ds
        × Memᴰ tr traits
        × (meta ≡ record { type_id = t.type_id; dyn_meta = metadata tr t.type_id })
  declared_by [] u tr meta m h = absurd (Memᴰ.not-nil m)
  declared_by (d ∷ ds) u tr meta m h = elim (Memᴰ.cases_cons m) [
    | inl e ↦ here d e
    | inr after ↦
        let (t, traits, q, r, f) = declared_by ds u tr meta after h in
        (t, traits, Memᴰ.tail q, r, f)
  ]
    where
      here :
          (d : Declaration)
          → actor u ≡ node d
          → (t : RustType) × (traits : List TraitId) × Memᴰ (register_actor t traits) (d ∷ ds)
            × Memᴰ tr traits
            × (meta ≡ record { type_id = t.type_id; dyn_meta = metadata tr t.type_id })
      here (register_actor t traits) e =
          let is : u.traits ≡ get_metadata t traits = cc in
          let (q, f) = mem-get_metadata t traits tr meta (subst (Memᴰ (tr, meta)) is h) in
          (t, traits, Memᴰ.head refl, q, f)
      here (register_resource t closure) e = cc

  pub nodes_of-mem :
      (ds : List Declaration) (d : Declaration) → Memᴰ d ds → Memᴰ (node d) (nodes_of ds)
  nodes_of-mem [] d m = absurd (Memᴰ.not-nil m)
  nodes_of-mem (x ∷ ds) d m = elim (Memᴰ.cases_cons m) [
    | inl e ↦ Memᴰ.head (ap node e)
    | inr after ↦ Memᴰ.tail (nodes_of-mem ds d after)
  ]
