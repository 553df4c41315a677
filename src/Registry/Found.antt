-- ===== src/Registry/Found.antt =====
-- `Registry::by_name` (registry.rs) after `Registry::get` has called the nodes.
use Prim.Native.String.{String}
use text.Mathlib.TextEquality.{eq_iff}
use mathlib.Core.List.Memᴰ
use dytor.Common.{
  ◌≡◌, List, [], ◌∷◌, ◌++◌, Memᴰ, Option, none, some, returns, ◌>>=◌, refl, subst, arith, inl, inr,
  Option-cases, >>=-eq-returns,
}
use dytor.Common.Dict.{nat_eq, string_eq, get, insert, alter, get-insert, beq_refl}
use dytor.Registry.{
  TypeId, TraitId, VTable, InterfaceMetadata, Registry, empty_registry, Registration, registered,
  registered_twice, init_resource, push_traits, ActorType, name_actor, init_actor, ListNode, actor,
  resource, call, unwrap_registered, call_all, get_registry, by_name,
}

-- Only the traits change.
push_traits_lem :
    (ts : List (TraitId × InterfaceMetadata)) (r : Registry)
    → ((push_traits ts r).actor_types ≡ r.actor_types)
      × ((push_traits ts r).name_to_type_id ≡ r.name_to_type_id)
      × ((push_traits ts r).resource_constructors ≡ r.resource_constructors)
unfolding push_traits
push_traits_lem [] r = (refl, refl, refl)
push_traits_lem ((trait, meta) ∷ rest) r =
    push_traits_lem rest
      (record r { trait_types = alter trait [] (λ metas. metas ++ meta ∷ []) r.trait_types })

-- What a call that registered an actor did to the maps.
pub record Registers (t : ActorType) (r r' : Registry) : Type 0 where
  pub new_type : get t.vtable.type_id r.actor_types ≡ none
  pub new_name : get t.name r.name_to_type_id ≡ none
  pub types : r'.actor_types ≡ insert t.vtable.type_id t.vtable r.actor_types
  pub names : r'.name_to_type_id ≡ insert t.name t.vtable.type_id r.name_to_type_id
  pub resources : r'.resource_constructors ≡ r.resource_constructors
  pub traits :
      r'.trait_types
      ≡ (push_traits t.traits
          (record r { actor_types = insert t.vtable.type_id t.vtable r.actor_types })).trait_types

pub init_actor-Registers :
    (t : ActorType) (r r' : Registry) → init_actor r t ≡ returns (r', registered) → Registers t r r'
unfolding init_actor name_actor
init_actor-Registers t r r' h =
    let kept =
      push_traits_lem t.traits
        (record r { actor_types = insert t.vtable.type_id t.vtable r.actor_types }) in
    elim (Option-cases (get t.vtable.type_id r.actor_types)) [
      | inr (v, e) ↦ absurd (ground arith)
      | inl e ↦ record {
        new_type = e;
        new_name = ground arith;
        types = ground arith;
        names = ground arith;
        traits = ground arith;
        resources = ground arith;
      }
    ]

by_name-some :
    (r : Registry) (name : String) (t : TypeId) (v : VTable)
    → get name r.name_to_type_id ≡ some t
    → get t r.actor_types ≡ some v
    → by_name r name ≡ some (t, v)
unfolding by_name
by_name-some r name t v p q = rw (p, by_name) (rw q refl)

pub by_name-parts :
    (r : Registry) (name : String) (t : TypeId) (v : VTable)
    → by_name r name ≡ some (t, v)
    → (get name r.name_to_type_id ≡ some t) × (get t r.actor_types ≡ some v)
unfolding by_name
by_name-parts r name t v h = elim (Option-cases (get name r.name_to_type_id)) [
  | inl e ↦ absurd (cc (rw (e, by_name) at h))
  | inr (u, e) ↦ elim (Option-cases (get u r.actor_types)) [
    | inl f ↦ absurd (cc (rw (e, by_name, f) at h))
    | inr (w, f) ↦
        let g : ◌≡◌ {A = Option (TypeId × VTable)} (some (u, w)) (some (t, v)) =
          rw (e, by_name, f) at h in
        (ground arith, ground arith)
  ]
]

module _ (t : ActorType) (r r' : Registry) (g : Registers t r r') where
  pub by_name-Registers : by_name r' t.name ≡ some (t.vtable.type_id, t.vtable)
  by_name-Registers =
      by_name-some r' t.name t.vtable.type_id t.vtable
        (rw g.names (
          ground
            (arith, get-insert t.name t.name t.vtable.type_id r.name_to_type_id, beq_refl t.name)))
        (rw g.types
          (ground (arith, get-insert t.vtable.type_id t.vtable.type_id t.vtable r.actor_types)))

  pub by_name-kept :
      (name : String) (u : TypeId) (v : VTable)
      → by_name r name ≡ some (u, v)
      → by_name r' name ≡ some (u, v)
  by_name-kept name u v h =
      let (p, q) = by_name-parts r name u v h in
      by_name-some r' name u v
        (rw g.names (
          ground (
            arith,
            get-insert t.name name t.vtable.type_id r.name_to_type_id,
            eq_iff t.name name,
            g.new_name,
          )))
        (rw g.types
          (ground (arith, get-insert t.vtable.type_id u t.vtable r.actor_types, g.new_type)))

-- A round of the loop that does not panic.
pub call_all-cons :
    (node : ListNode) (rest : List ListNode) (r r' : Registry)
    → call_all (node ∷ rest) r ≡ returns r'
    → (m : Registry) × (call node r ≡ returns (m, registered)) × (call_all rest m ≡ returns r')
unfolding call_all
call_all-cons node rest r r' h = let (x, p, q) = >>=-eq-returns (call node r) _ h in round x p q
  where
    round :
        (x : Registry × Registration)
        → call node r ≡ returns x
        → (unwrap_registered x >>= call_all rest) ≡ returns r'
        → (m : Registry) × (call node r ≡ returns (m, registered)) × (call_all rest m ≡ returns r')
    round (m, registered) p q = (m, p, q)
    round (m, registered_twice) p q = cc

pub call_all-nil : (r r' : Registry) → call_all [] r ≡ returns r' → r ≡ r'
unfolding call_all
call_all-nil r r' h = cc

pub call-Registers :
    (t : ActorType) (r m : Registry) → call (actor t) r ≡ returns (m, registered) → Registers t r m
unfolding call
call-Registers t r m h = init_actor-Registers t r m h

pub call-kept :
    (node : ListNode) (r m : Registry) (name : String) (u : TypeId) (v : VTable)
    → call node r ≡ returns (m, registered)
    → by_name r name ≡ some (u, v)
    → by_name m name ≡ some (u, v)
unfolding call init_resource
call-kept (actor t) r m name u v h b = by_name-kept t r m (init_actor-Registers t r m h) name u v b
call-kept (resource t f) r m name u v h b =
    let (p, q) = by_name-parts r name u v b in by_name-some m name u v (ground arith) (ground arith)

pub call_all-kept :
    (nodes : List ListNode) (r r' : Registry) (name : String) (u : TypeId) (v : VTable)
    → call_all nodes r ≡ returns r'
    → by_name r name ≡ some (u, v)
    → by_name r' name ≡ some (u, v)
call_all-kept [] r r' name u v h b =
    subst (λ x. by_name x name ≡ some (u, v)) (call_all-nil r r' h) b
call_all-kept (node ∷ rest) r r' name u v h b =
    let (m, p, q) = call_all-cons node rest r r' h in
    call_all-kept rest m r' name u v q (call-kept node r m name u v p b)

call_all-finds :
    (nodes : List ListNode) (r r' : Registry) (t : ActorType)
    → call_all nodes r ≡ returns r'
    → Memᴰ (actor t) nodes
    → by_name r' t.name ≡ some (t.vtable.type_id, t.vtable)
call_all-finds [] r r' t h k = absurd (Memᴰ.not-nil k)
call_all-finds (node ∷ rest) r r' t h k =
    let (m, p, q) = call_all-cons node rest r r' h in
    elim (Memᴰ.cases_cons k) [
      | inl e ↦
          let c : call (actor t) r ≡ returns (m, registered) = rw e p in
          call_all-kept rest m r' t.name t.vtable.type_id t.vtable q
            (by_name-Registers t r m (call-Registers t r m c))
      | inr later ↦ call_all-finds rest m r' t q later
    ]

-- When the registry is built without a panic, every actor type that was queued is found by its name,
-- with its own type and table.
pub by_name-get_registry :
    (nodes : List ListNode) (r : Registry) (t : ActorType)
    → get_registry nodes ≡ returns r
    → Memᴰ (actor t) nodes
    → by_name r t.name ≡ some (t.vtable.type_id, t.vtable)
unfolding get_registry
by_name-get_registry nodes r t h k = call_all-finds nodes empty_registry r t h k
